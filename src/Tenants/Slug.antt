-- ===== src/Tenants/Slug.antt =====
-- What a valid slug is.
use vivijure_control_plane.Prelude.{
  ◌≤◌, ◌≡◌, refl, true, false, none, [], ◌∷◌, arith, length, all, any, ◌==◌, nat_eq, any,
}
use vivijure_control_plane.Prelude.Text.{Text, codes, text_eq, starts_with}
use vivijure_control_plane.Tenants.{validate_slug, slug_re, reserved_labels, is_slug_unit}

pub record IsSlug (slug : Text) : Type 0 where
  pub at_least : 3 ≤ length slug
  pub at_most : length slug ≤ 32
  pub units : all is_slug_unit slug ≡ true
  pub shape : slug_re slug ≡ true
  pub not_punycode : starts_with slug (codes "xn--") ≡ false
  pub not_reserved : any (λ r. r == slug) reserved_labels ≡ false

slug_re-units : (slug : Text) → slug_re slug ≡ true → all is_slug_unit slug ≡ true
unfolding slug_re
slug_re-units [] h = refl
slug_re-units (c ∷ t) h = ground arith

-- A slug that validates has from 3 to 32 units, each a lower-case letter, a digit or a hyphen, is no
-- punycode label and is not reserved.
pub validate_slug-IsSlug : (slug : Text) → validate_slug slug ≡ none → IsSlug slug
unfolding validate_slug
validate_slug-IsSlug slug h = record {
  at_least = ground arith;
  at_most = ground arith;
  units = slug_re-units slug (ground arith);
  shape = ground arith;
  not_punycode = ground arith;
  not_reserved = ground arith;
}

no_dot_in : (t : Text) → all is_slug_unit t ≡ true → any (λ c. c == b'.') t ≡ false
no_dot_in [] h = refl
no_dot_in (c ∷ t) h = ground (arith, no_dot_in t)

-- A slug that validates is one label of a host name: it holds no dot.
pub validate_slug_label :
    (slug : Text) → validate_slug slug ≡ none → any (λ c. c == b'.') slug ≡ false
validate_slug_label slug h = no_dot_in slug (validate_slug-IsSlug slug h).units
