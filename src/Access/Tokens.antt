-- ===== src/Access/Tokens.antt =====
-- One-time tokens (login links, invoke-key handoffs, OAuth states) and sessions: the statements of
-- src/store-d1.ts. The three tokens are consumed by one statement, over an interface of their rows.
use vivijure_control_plane.Prelude.{
  ℕ, ◌≡◌, refl, Bool, not, ◌&&◌, Option, none, some, List, [], ◌∷◌, ◌++◌, Result, ok, err, any,
  find?, is_some, ltb, ◌==◌, if◌then◌else◌,
}
use vivijure_control_plane.Prelude.Text.{Text, text_eq}
use vivijure_control_plane.Prelude.Rows.{update_where, returning, has_key}
use vivijure_control_plane.Ledger.{StoreError, primary_key}

-- What a table of one-time tokens offers: its key, its two instants, and the mark of a use.
pub record OneTime {ℓ} (A : Type ℓ) : Type ℓ where
  pub key : A → Text
  pub expires : A → ℕ
  pub consumed : A → Option ℕ
  pub consume_at : ℕ → A → A
  pub key_kept : (now : ℕ) (a : A) → key (consume_at now a) ≡ key a
  pub marked : (now : ℕ) (a : A) → consumed (consume_at now a) ≡ some now

module _ {ℓ} {A : Type ℓ} (table : OneTime A) where
  abbrev pub is_usable_at : ℕ → A → Bool
  is_usable_at now a = not (is_some (table.consumed a)) && ltb now (table.expires a)

  -- UPDATE … SET consumed_at WHERE the key, not consumed, not expired RETURNING *.
  unfoldable pub consume : List A → Text → ℕ → List A × Option A
  consume rows key now = (
    update_where (λ a. has_key table.key key a && is_usable_at now a) (table.consume_at now) rows,
    returning (λ a. has_key table.key key a && is_usable_at now a) (table.consume_at now) rows,
  )

  unfoldable pub issue : List A → A → Result StoreError (List A)
  issue rows a =
      if any (has_key table.key (table.key a)) rows then err primary_key else ok (rows ++ a ∷ [])

pub record LoginToken : Type 0 where
  pub token_hash : Text
  pub email : Text
  pub expires_at : ℕ
  pub consumed_at : Option ℕ

abbrev pub login_tokens : OneTime LoginToken
login_tokens = record {
  key = λ t. t.token_hash;
  expires = λ t. t.expires_at;
  consumed = λ t. t.consumed_at;
  consume_at = λ now t. record t { consumed_at = some now };
  key_kept = λ now t. refl;
  marked = λ now t. refl;
}

unfoldable pub create_login_token :
    List LoginToken → Text → Text → ℕ → Result StoreError (List LoginToken)
unfolding issue
create_login_token rows token_hash email expires_at =
    issue login_tokens rows (record {
      token_hash = token_hash;
      email = email;
      expires_at = expires_at;
      consumed_at = none;
    })

unfoldable pub consume_login_token :
    List LoginToken → Text → ℕ → List LoginToken × Option LoginToken
unfolding consume
consume_login_token = consume login_tokens

pub record InvokeKeyHandoff : Type 0 where
  pub token_hash : Text
  pub id : Text
  pub tenant_id : Text
  pub endpoints_json : Text
  pub issued_by : Text
  pub expires_at : ℕ
  pub consumed_at : Option ℕ

abbrev pub invoke_key_handoffs : OneTime InvokeKeyHandoff
invoke_key_handoffs = record {
  key = λ t. t.token_hash;
  expires = λ t. t.expires_at;
  consumed = λ t. t.consumed_at;
  consume_at = λ now t. record t { consumed_at = some now };
  key_kept = λ now t. refl;
  marked = λ now t. refl;
}

unfoldable pub create_invoke_key_handoff :
    List InvokeKeyHandoff → InvokeKeyHandoff → Result StoreError (List InvokeKeyHandoff)
unfolding issue
create_invoke_key_handoff rows row =
    issue invoke_key_handoffs rows (record row { consumed_at = none })

unfoldable pub get_invoke_key_handoff : List InvokeKeyHandoff → Text → Option InvokeKeyHandoff
get_invoke_key_handoff rows token_hash = find? (λ r. r.token_hash == token_hash) rows

unfoldable pub consume_invoke_key_handoff :
    List InvokeKeyHandoff → Text → ℕ → List InvokeKeyHandoff × Option InvokeKeyHandoff
unfolding consume
consume_invoke_key_handoff = consume invoke_key_handoffs

pub record OAuthState : Type 0 where
  pub state : Text
  pub provider : Text
  pub verifier : Text
  pub redirect_to : Option Text
  pub expires_at : ℕ
  pub consumed_at : Option ℕ

abbrev pub oauth_states : OneTime OAuthState
oauth_states = record {
  key = λ t. t.state;
  expires = λ t. t.expires_at;
  consumed = λ t. t.consumed_at;
  consume_at = λ now t. record t { consumed_at = some now };
  key_kept = λ now t. refl;
  marked = λ now t. refl;
}

unfoldable pub create_oauth_state :
    List OAuthState → OAuthState → Result StoreError (List OAuthState)
unfolding issue
create_oauth_state rows row = issue oauth_states rows (record row { consumed_at = none })

unfoldable pub consume_oauth_state :
    List OAuthState → Text → ℕ → List OAuthState × Option OAuthState
unfolding consume
consume_oauth_state = consume oauth_states

pub record Session : Type 0 where
  pub token_hash : Text
  pub account_id : Text
  pub expires_at : ℕ
  pub revoked_at : Option ℕ

unfoldable pub get_session : List Session → Text → ℕ → Option Session
get_session rows token_hash now =
    find? (λ s. s.token_hash == token_hash && not (is_some s.revoked_at) && ltb now s.expires_at)
      rows

unfoldable pub revoke_session : List Session → Text → ℕ → List Session
revoke_session rows token_hash now =
    update_where (λ s. s.token_hash == token_hash && not (is_some s.revoked_at))
      (λ s. record s { revoked_at = some now }) rows
