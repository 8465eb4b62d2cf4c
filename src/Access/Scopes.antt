-- ===== src/Access/Scopes.antt =====
-- The scopes of a credential as they are stored and as they are read.
use vivijure_control_plane.Prelude.{
  ℕ, ◌≡◌, ◌∙◌, refl, sym, ap, subst, Bool, true, false, not, ◌&&◌, some, List, [], ◌∷◌, ◌++◌, ok,
  arith, any, all, filter, ◌==◌, Bool-cases, inl, inr,
}
use vivijure_control_plane.Prelude.Text.{
  Text, codes, text_eq, text_beq, text_beq_iff, is_space, is_empty,
}
use vivijure_control_plane.Prelude.Split.{join, add_unit}
use vivijure_control_plane.Access.Operators.{
  all_scopes, lists_scope, is_known_scope, split_spaces_from, parse_scopes, format_scopes,
  ScopeItem, scope_text, not_text, item_known, item_is, canonicalise_scopes,
}

-- A text before the first of some parts.
abbrev glue : Text → List Text → List Text
glue [] parts = parts
glue (c ∷ w) parts = add_unit c (glue w parts)

glue_word : (w : Text) (parts : List Text) → glue w ([] ∷ parts) ≡ w ∷ parts
glue_word [] parts = refl
glue_word (c ∷ w) parts = ap (add_unit c) (glue_word w parts)

abbrev no_space : ℕ → Bool
no_space c = not (is_space c)

abbrev is_word : Text → Bool
is_word w = not (is_empty w) && all no_space w

split_word :
    (w t : Text)
    → all no_space w ≡ true
    → split_spaces_from false (w ++ t) ≡ glue w (split_spaces_from false t)
unfolding split_spaces_from
split_word [] t h = refl
split_word (c ∷ w) t h =
    let here : is_space c ≡ false = ground arith in
    rw here (ap (add_unit c) (split_word w t (ground arith)))

-- After a space a word starts as anywhere.
split_start :
    (w t : Text)
    → is_word w ≡ true
    → split_spaces_from true (w ++ t) ≡ split_spaces_from false (w ++ t)
unfolding split_spaces_from
split_start [] t h = absurd (ground arith)
split_start (c ∷ w) t h = let here : is_space c ≡ false = ground arith in rw here refl

append_empty : (w : Text) → w ++ [] ≡ w
append_empty [] = refl
append_empty (c ∷ w) = ap (λ r. c ∷ r) (append_empty w)

split-join :
    (w : Text) (ws : List Text)
    → all is_word (w ∷ ws) ≡ true
    → split_spaces_from false (join (codes " ") (w ∷ ws)) ≡ w ∷ ws
unfolding split_spaces_from join is_space
split-join w [] h =
    ap (split_spaces_from false) (sym (append_empty w))
    ∙ split_word w [] (ground arith)
    ∙ glue_word w []
split-join w (v ∷ vs) h =
    let later = split-join v vs (ground arith) in
    split_word w (codes " " ++ join (codes " ") (v ∷ vs)) (ground arith)
    ∙ ap (λ r. glue w ([] ∷ r)) (starts v vs (ground arith) ∙ later)
    ∙ glue_word w (v ∷ vs)
  where
    starts :
        (v : Text) (vs : List Text)
        → is_word v ≡ true
        → split_spaces_from true (join (codes " ") (v ∷ vs))
          ≡ split_spaces_from false (join (codes " ") (v ∷ vs))
    starts v [] e =
        subst (λ t. split_spaces_from true t ≡ split_spaces_from false t) (append_empty v)
          (split_start v [] e)
    starts v (u ∷ us) e = split_start v (codes " " ++ join (codes " ") (u ∷ us)) e

all-filter : (q p : Text → Bool) (ws : List Text) → all q ws ≡ true → all q (filter p ws) ≡ true
all-filter q p [] h = refl
all-filter q p (w ∷ ws) h = ground (arith, all-filter q p ws)

filter_whole : (q : Text → Bool) (ws : List Text) → all q ws ≡ true → filter q ws ≡ ws
filter_whole q [] h = refl
filter_whole q (w ∷ ws) h = ground (arith, filter_whole q ws)

filter_same :
    (p q k : Text → Bool) (ws : List Text)
    → ((s : Text) → k s ≡ true → p s ≡ q s)
    → all k ws ≡ true
    → filter p ws ≡ filter q ws
filter_same p q k [] same h = refl
filter_same p q k (w ∷ ws) same h = ground (arith, same w, filter_same p q k ws same)

lists_scope-filter :
    (p : Text → Bool) (ws : List Text) (s : Text)
    → lists_scope (filter p ws) s ≡ (p s && lists_scope ws s)
lists_scope-filter p [] s = ground arith
lists_scope-filter p (w ∷ ws) s = elim (Bool-cases (w == s)) [
  | inl same ↦
      let is_s : w ≡ s = (text_beq_iff w s).0 same in
      let kept : p w ≡ p s = ap p is_s in ground (arith, lists_scope-filter p ws s)
  | inr other ↦ ground (arith, lists_scope-filter p ws s)
]

scopes_words : all is_word all_scopes ≡ true
unfolding all_scopes is_space
scopes_words = refl

pub scopes_known : all is_known_scope all_scopes ≡ true
unfolding all_scopes is_known_scope text_beq
scopes_known = refl

-- What is stored reads back as the scopes that are in the catalogue, in its order.
parse_scopes-format_scopes :
    (scopes : List Text)
    → parse_scopes (some (format_scopes scopes)) ≡ filter (lists_scope scopes) all_scopes
unfolding parse_scopes format_scopes text_beq
parse_scopes-format_scopes scopes =
    read (filter (lists_scope scopes) all_scopes)
      (all-filter is_word (lists_scope scopes) all_scopes scopes_words)
      (all-filter is_known_scope (lists_scope scopes) all_scopes scopes_known)
  where
    read :
        (ws : List Text)
        → all is_word ws ≡ true
        → all is_known_scope ws ≡ true
        → filter is_known_scope (split_spaces_from false (join (codes " ") ws)) ≡ ws
    read [] words known = refl
    read (w ∷ ws) words known =
        ap (filter is_known_scope) (split-join w ws words)
        ∙ filter_whole is_known_scope (w ∷ ws) known

abbrev pub item_in : List Text → ScopeItem → Bool
item_in scopes (scope_text s) = lists_scope scopes s
item_in scopes not_text = false

-- What a mint accepts is what its credential will hold: every scope that was asked for is in the
-- canonical list, the list has only scopes of the catalogue, and reading back its stored form gives
-- exactly that list.
pub canonicalise_scopes_round_trip :
    (items : List ScopeItem) (scopes : List Text)
    → canonicalise_scopes (some items) ≡ ok scopes
    → (parse_scopes (some (format_scopes scopes)) ≡ scopes)
      × (all is_known_scope scopes ≡ true)
      × (all (item_in scopes) items ≡ true)
unfolding canonicalise_scopes is_known_scope
canonicalise_scopes_round_trip [] scopes h = absurd (ground arith)
canonicalise_scopes_round_trip (i ∷ is) scopes h =
    elim (Bool-cases (any (λ k. not (item_known k)) (i ∷ is))) [
      | inl bad ↦ absurd (ground arith)
      | inr good ↦
          let asked : Text → Bool = λ s. any (item_is s) (i ∷ is) in
          let is_list : filter asked all_scopes ≡ scopes = ground arith in
          let back : filter (lists_scope (filter asked all_scopes)) all_scopes
              ≡ filter asked all_scopes =
            filter_same (lists_scope (filter asked all_scopes)) asked is_known_scope all_scopes
              (λ s known.
                lists_scope-filter asked all_scopes s
                ∙ only (asked s) (lists_scope all_scopes s) known)
              scopes_known in
          (
            parse_scopes-format_scopes scopes
                ∙ subst (λ z. filter (lists_scope z) all_scopes ≡ z) is_list back,
            subst (λ z. all is_known_scope z ≡ true) is_list
                (all-filter is_known_scope asked all_scopes scopes_known),
            subst (λ z. all (item_in z) (i ∷ is) ≡ true) is_list (each (i ∷ is) good (λ s t. t)),
          )
    ]
  where
    only : (a k : Bool) → k ≡ true → (a && k) ≡ a
    only a k h = ground arith

    each :
        (js : List ScopeItem)
        → any (λ k. not (item_known k)) js ≡ false
        → ((s : Text) → any (item_is s) js ≡ true → any (item_is s) (i ∷ is) ≡ true)
        → all (item_in (filter (λ s. any (item_is s) (i ∷ is)) all_scopes)) js ≡ true
    each [] good among = refl
    each (not_text ∷ js) good among = absurd (ground arith)
    each (scope_text s ∷ js) good among =
        let rest = each js (ground arith) (λ t h. among t (ground arith)) in
        let asked : any (item_is s) (i ∷ is) ≡ true = among s (ground (arith, text_beq_iff s s)) in
        let here = lists_scope-filter (λ t. any (item_is t) (i ∷ is)) all_scopes s in ground arith
