-- ===== src/Routing/Host.antt =====
-- Which host names are tenants'.
use vivijure_control_plane.Prelude.{◌≡◌, refl, true, Option, none, some, arith, length, nat_eq}
use vivijure_control_plane.Prelude.Text.{Text, text_eq}
use vivijure_control_plane.Prelude.Split.{ends_with, drop_last}
use vivijure_control_plane.Tenants.{validate_slug}
use vivijure_control_plane.Routing.{
  tenant_host, classify_host, classify_label, normalize_host, normalize_suffix,
}

classify_label_tenant :
    (label slug : Text)
    → classify_label label ≡ tenant_host slug
    → (slug ≡ label) × (validate_slug label ≡ none)
unfolding classify_label
classify_label_tenant label slug h = go (validate_slug label) refl
  where
    go : (o : _) → validate_slug label ≡ o → (slug ≡ label) × (validate_slug label ≡ none)
    go none e = (ground arith, e)
    go (some x) e = absurd (ground arith)

-- A host that routes to a tenant lies under the configured domain, and its label is a slug that
-- signup accepts, the tenant's.
pub classify_host_tenant :
    (header : Option Text) (suffix slug : Text)
    → classify_host header suffix ≡ tenant_host slug
    → (raw : Text) × (header ≡ some raw)
      × (ends_with (normalize_host raw) (normalize_suffix suffix) ≡ true)
      × (slug ≡ drop_last (length (normalize_suffix suffix)) (normalize_host raw))
      × (validate_slug slug ≡ none)
unfolding classify_host
classify_host_tenant none suffix slug h = absurd (ground arith)
classify_host_tenant (some raw) suffix slug h =
    let host = normalize_host raw in
    let tail = normalize_suffix suffix in
    let labelled : classify_label (drop_last (length tail) host) ≡ tenant_host slug =
      ground arith in
    let (same, valid) = classify_label_tenant (drop_last (length tail) host) slug labelled in
    (raw, refl, ground arith, same, rw same valid)
