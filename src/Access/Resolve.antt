-- ===== src/Access/Resolve.antt =====
-- Whom a bearer resolves to, and that a revocation holds from the next request on.
use vivijure_control_plane.Prelude.{
  ℕ, ◌≡◌, refl, true, false, Option, some, List, arith, find?, is_some, ◌==◌, nat_eq,
}
use vivijure_control_plane.Prelude.Text.{Text, text_eq, text_beq_iff, is_empty}
use vivijure_control_plane.Prelude.Rows.{find?-update_where}
use vivijure_control_plane.Access.Operators.{
  OperatorCredential, by_root, resolve_operator, is_unrevoked, get_operator_credential_by_hash,
  revoke_operator_credential,
}

abbrev token_digest : OperatorCredential → Text
token_digest c = c.token_sha256

module _ (digest : Text → List ℕ) (sha256_hex : Text → Text) (parse_date : Text → Option ℕ) where
  -- Once the row of a token is revoked, that token resolves to nobody but the root, from the next
  -- request on and at every instant, unless the root secret was presented.
  pub revoked_only_root :
      (presented : Text) (root_secret : Option Text) (rows : List OperatorCredential)
      (c : OperatorCredential) (revoked_by at now : Text)
      → find? (λ k. k.token_sha256 == sha256_hex presented) rows ≡ some c
      → is_empty presented ≡ false
      → is_empty at ≡ false
      → is_some c.revoked_at ≡ false
      → resolve_operator digest sha256_hex parse_date
          (some presented)
          root_secret
          (revoke_operator_credential rows c.id revoked_by at).0
          now
        ≡ by_root digest sha256_hex parse_date presented root_secret
  unfolding resolve_operator get_operator_credential_by_hash revoke_operator_credential
  revoked_only_root presented root_secret rows c revoked_by at now found given dated live =
      let after =
        find?-update_where token_digest (is_unrevoked c.id)
          (λ k. record k { revoked_at = some at; revoked_by = some revoked_by }) (λ k. refl)
          (sha256_hex presented) rows c found in
      let met : is_unrevoked c.id c ≡ true = ground (arith, text_beq_iff c.id c.id) in
      rw given (rw (after, met, dated) refl)
