-- ===== src/Tenants/View.antt =====
-- What the projections of a tenant row tell.
use vivijure_control_plane.Prelude.{
  ◌≡◌, ◌↔◌, refl, ap₂, ◌∙◌, true, Option, none, some, List, [], ◌∷◌, arith, is_some, if◌then◌else◌,
}
use vivijure_control_plane.Prelude.Text.{Text, codes, text_eq}
use vivijure_control_plane.Tenants.{
  Tenant, tenant_view, routing_status_for, routing_live, normalize_lifecycle, Json, JsonList,
  JsonFields, string, array, object, scalar, nil, cons, rows_of, ids_of, endpoint_row, named_row,
  id_of, row_then, id_then, string_field, EndpointRow, tenant_endpoint_recipe, tenant_endpoint_ids,
  parsed_endpoints,
}

-- A view shows an address exactly when routing holds the tenant for live, and it tells a suspension
-- over any lifecycle while the lifecycle stays what the row says, the legacy name read as the new one.
pub tenant_view_lem :
    (t : Tenant) (suffix : Text)
    → let v = tenant_view t suffix in
      ((is_some v.url ≡ true) ↔ (routing_status_for t ≡ routing_live))
      × (v.status ≡ (if is_some t.suspended_at then codes "suspended" else v.lifecycle))
      × (v.lifecycle ≡ normalize_lifecycle t.status)
unfolding tenant_view routing_status_for
tenant_view_lem t suffix = (ground arith, refl, refl)

abbrev id_of_row : Option EndpointRow → Option Text
id_of_row none = none
id_of_row (some r) = some r.id

id_of-named_row : (fields : JsonFields) (o : Option Text) → o ≡ id_of_row (named_row fields o)
id_of-named_row fields none = refl
id_of-named_row fields (some x) = refl

-- Reading one element for the console and for the scope check finds the same id.
id_of-endpoint_row : (v : Json) → id_of v ≡ id_of_row (endpoint_row v)
unfolding id_of endpoint_row
id_of-endpoint_row (string v) = refl
id_of-endpoint_row (array vs) = refl
id_of-endpoint_row (object fields) = id_of-named_row fields (string_field (codes "id") fields)
id_of-endpoint_row scalar = refl

abbrev pub row_ids : List EndpointRow → List Text
row_ids [] = []
row_ids (r ∷ rs) = r.id ∷ row_ids rs

id_then-row_ids :
    (o : Option EndpointRow) (rows : List EndpointRow)
    → id_then (id_of_row o) (row_ids rows) ≡ row_ids (row_then o rows)
id_then-row_ids none rows = refl
id_then-row_ids (some r) rows = refl

ids_of-rows_of : (vs : JsonList) → ids_of vs ≡ row_ids (rows_of vs)
unfolding ids_of rows_of
ids_of-rows_of nil = refl
ids_of-rows_of (cons v vs) =
    ap₂ id_then (id_of-endpoint_row v) (ids_of-rows_of vs)
    ∙ id_then-row_ids (endpoint_row v) (rows_of vs)

-- The endpoints that a person ticks in the console are, in order, those that the scope check probes,
-- whatever the stored text parses to.
pub tenant_endpoint_ids-eq-recipe :
    (parse : Text → Option Json) (t : Tenant)
    → tenant_endpoint_ids parse t ≡ row_ids (tenant_endpoint_recipe parse t)
unfolding tenant_endpoint_ids tenant_endpoint_recipe
tenant_endpoint_ids-eq-recipe parse t = ids_of-rows_of (parsed_endpoints parse t)
