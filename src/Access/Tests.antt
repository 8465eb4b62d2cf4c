-- ===== src/Access/Tests.antt =====
-- What the theorems on tokens and credentials say of one of each.
use vivijure_control_plane.Prelude.{
  ℕ, ◌≡◌, refl, Bool, true, Option, none, some, List, [], ◌∷◌, all, find?, arith, length,
}
use vivijure_control_plane.Prelude.Text.{Text, codes, text_eq, text_beq}
use vivijure_control_plane.Prelude.Rows.{has_key, update_where, returning}
use vivijure_control_plane.Access.Tokens.{LoginToken, login_tokens, is_usable_at, consume}
use vivijure_control_plane.Access.Once.{consume_once, unused, then_use, tries}
use vivijure_control_plane.Access.Operators.{
  OperatorCredential, OperatorPrincipal, credential, is_known_scope, parse_scopes, format_scopes,
  scope_text, canonicalise_scopes, by_root, resolve_operator, revoke_operator_credential,
}
use vivijure_control_plane.Access.Scopes.{canonicalise_scopes_round_trip, item_in}
use vivijure_control_plane.Access.Resolve.{revoked_only_root}

abbrev fresh_link : LoginToken
fresh_link = record {
  token_hash = codes "h1";
  email = codes "a@b.c";
  expires_at = 900;
  consumed_at = none;
}

abbrev used_link : LoginToken
used_link = record fresh_link { consumed_at = some 500 }

consume_once_example :
    ((old : LoginToken) × (find? (has_key login_tokens.key (codes "h1")) (fresh_link ∷ [])
        ≡ some old)
      × (is_usable_at login_tokens 500 old ≡ true))
    × (consume login_tokens (used_link ∷ []) (codes "h1") 700 ≡ (used_link ∷ [], none))
unfolding consume update_where returning text_beq
consume_once_example =
    consume_once login_tokens (fresh_link ∷ []) (used_link ∷ []) (used_link ∷ []) (codes "h1") 500
      700 used_link (refl, tt) refl (then_use unused (tries (codes "h1") 600))

canonicalise_scopes_round_trip_example :
    (parse_scopes (some (format_scopes (codes "tenants:read" ∷ codes "keys:rotate" ∷ [])))
      ≡ codes "tenants:read" ∷ codes "keys:rotate" ∷ [])
    × (all is_known_scope (codes "tenants:read" ∷ codes "keys:rotate" ∷ []) ≡ true)
    × (all (item_in (codes "tenants:read" ∷ codes "keys:rotate" ∷ [])) (
          scope_text (codes "keys:rotate")
          ∷ scope_text (codes "tenants:read")
          ∷ scope_text (codes "keys:rotate")
          ∷ [])
        ≡ true)
unfolding canonicalise_scopes text_beq
canonicalise_scopes_round_trip_example =
    canonicalise_scopes_round_trip
      (scope_text (codes "keys:rotate")
        ∷ scope_text (codes "tenants:read")
        ∷ scope_text (codes "keys:rotate")
        ∷ [])
      (codes "tenants:read" ∷ codes "keys:rotate" ∷ []) refl

abbrev small_digest : Text → List ℕ
small_digest t = t

abbrev hex : Text → Text
hex t = t

-- An instant written as so many units.
abbrev small_date : Text → Option ℕ
small_date t = some (length t)

abbrev joan : OperatorCredential
joan = record {
  id = codes "opc1";
  name = codes "joan";
  token_sha256 = codes "tok";
  scopes = codes "tenants:read gone:scope";
  created_by = codes "admin-token";
  last_used_at = none;
  expires_at = some (codes "2030");
  revoked_at = none;
  revoked_by = none;
}

abbrev joan_principal : OperatorPrincipal
joan_principal = record {
  kind = credential;
  actor = codes "operator:joan";
  operator = some (codes "joan");
  credential_id = some (codes "opc1");
  scopes = codes "tenants:read" ∷ [];
}

revoked_only_root_example :
    resolve_operator small_digest hex small_date
      (some (codes "tok"))
      (some (codes "root"))
      (revoke_operator_credential (joan ∷ []) (codes "opc1") (codes "admin-token") (codes "2026")).0
      (codes "20")
    ≡ by_root small_digest hex small_date (codes "tok") (some (codes "root"))
unfolding text_beq
revoked_only_root_example =
    revoked_only_root small_digest hex small_date (codes "tok") (some (codes "root")) (joan ∷ [])
      joan (codes "admin-token") (codes "2026") (codes "20") refl refl refl refl
