-- ===== src/Access/Operators.antt =====
-- The operator credentials: src/operator-auth.ts, the table of src/store-d1.ts, and the comparison of
-- src/crypto.ts. SHA-256 and `Date.parse` are the platform's. What a mint is refused with is kept as
-- its reason, without the message.
use vivijure_control_plane.Prelude.{
  ℕ, Bool, true, false, not, ◌&&◌, ◌||◌, Option, none, some, List, [], ◌∷◌, ◌++◌, Result, ok, err,
  any, all, filter, find?, count, length, is_some, leb, ltb, ◌==◌, nat_eq, if◌then◌else◌,
}
use Prim.Native.Nat.{bit_xor, bit_or}
use vivijure_control_plane.Prelude.Text.{Text, codes, text_eq, is_space, is_digit, is_empty}
use vivijure_control_plane.Prelude.Split.{join, add_unit}
use vivijure_control_plane.Prelude.Rows.{update_where}
use vivijure_control_plane.Ledger.{StoreError, primary_key, unique_key}

unfoldable pub all_scopes : List Text
all_scopes =
    codes "tenants:read"
    ∷ codes "tenants:write"
    ∷ codes "tenants:destroy"
    ∷ codes "tenants:provision"
    ∷ codes "studio:operate"
    ∷ codes "credits:write"
    ∷ codes "platform:settings"
    ∷ codes "meter:operate"
    ∷ codes "keys:rotate"
    ∷ []

abbrev pub lists_scope : List Text → Text → Bool
lists_scope list value = any (λ s. s == value) list

unfoldable pub is_known_scope : Text → Bool
is_known_scope value = lists_scope all_scopes value

unfoldable pub operator_actor : Text → Text
operator_actor name = codes "operator:" ++ name

-- `split(/\s+/)`: the flag says that the unit before was white space.
unfoldable pub split_spaces_from : Bool → Text → List Text
split_spaces_from after [] = [] ∷ []
split_spaces_from after (c ∷ t) =
    let rest = split_spaces_from (is_space c) t in
    if is_space c then (if after then rest else [] ∷ rest) else add_unit c rest

unfoldable pub parse_scopes : Option Text → List Text
unfolding split_spaces_from is_known_scope
parse_scopes none = filter is_known_scope (split_spaces_from false [])
parse_scopes (some stored) = filter is_known_scope (split_spaces_from false stored)

unfoldable pub format_scopes : List Text → Text
unfolding join all_scopes
format_scopes scopes = join (codes " ") (filter (lists_scope scopes) all_scopes)

-- What `scopes` may hold in a mint request: a text, or another JSON value.
pub data ScopeItem : Type 0 where
  scope_text : Text → ScopeItem
  not_text : ScopeItem

pub data ScopeRefusal : Type 0 where
  no_scopes unknown_scopes : ScopeRefusal

abbrev pub item_known : ScopeItem → Bool
item_known (scope_text s) = is_known_scope s
item_known not_text = false

abbrev pub item_is : Text → ScopeItem → Bool
item_is s (scope_text t) = t == s
item_is s not_text = false

-- `none` is an input that is no array.
unfoldable pub canonicalise_scopes : Option (List ScopeItem) → Result ScopeRefusal (List Text)
unfolding all_scopes is_known_scope
canonicalise_scopes none = err no_scopes
canonicalise_scopes (some []) = err no_scopes
canonicalise_scopes (some (i ∷ is)) =
    if any (λ k. not (item_known k)) (i ∷ is)
    then err unknown_scopes
    else ok (filter (λ s. any (item_is s) (i ∷ is)) all_scopes)

abbrev pub is_lower_or_digit : ℕ → Bool
is_lower_or_digit c = (leb 97 c && leb c 122) || is_digit c

-- /^[a-z0-9][a-z0-9_-]{0,31}$/.
unfoldable pub is_valid_operator_name : Text → Bool
is_valid_operator_name [] = false
is_valid_operator_name (c ∷ t) =
    is_lower_or_digit c
    && all (λ d. is_lower_or_digit d || d == 95 || d == 45) t
    && leb (length t) 31

pub record OperatorCredential : Type 0 where
  pub id : Text
  pub name : Text
  pub token_sha256 : Text
  pub scopes : Text
  pub created_by : Text
  pub last_used_at : Option Text
  pub expires_at : Option Text
  pub revoked_at : Option Text
  pub revoked_by : Option Text

abbrev pub same_live_name : Text → OperatorCredential → Bool
same_live_name name c = c.name == name && not (is_some c.revoked_at)

-- The primary key, the unique digest and the unique name among live rows.
unfoldable pub create_operator_credential :
    List OperatorCredential → OperatorCredential → Result StoreError (List OperatorCredential)
create_operator_credential rows row =
    if any (λ c. c.id == row.id) rows
    then err primary_key
    else if any (λ c. c.token_sha256 == row.token_sha256) rows
    then err unique_key
    else if any (same_live_name row.name) rows
    then err unique_key
    else ok (rows ++ record row { last_used_at = none; revoked_at = none; revoked_by = none } ∷ [])

unfoldable pub get_operator_credential_by_hash :
    List OperatorCredential → Text → Option OperatorCredential
get_operator_credential_by_hash rows digest = find? (λ c. c.token_sha256 == digest) rows

abbrev pub is_unrevoked : Text → OperatorCredential → Bool
is_unrevoked id c = c.id == id && not (is_some c.revoked_at)

unfoldable pub revoke_operator_credential :
    List OperatorCredential → Text → Text → Text → List OperatorCredential × Bool
revoke_operator_credential rows id revoked_by now = (
  update_where (is_unrevoked id)
      (λ c. record c { revoked_at = some now; revoked_by = some revoked_by }) rows,
  ltb 0 (count (is_unrevoked id) rows),
)

unfoldable pub touch_operator_credential :
    List OperatorCredential → Text → Text → List OperatorCredential
touch_operator_credential rows id now =
    update_where (λ c. c.id == id) (λ c. record c { last_used_at = some now }) rows

pub data PrincipalKind : Type 0 where
  root credential : PrincipalKind

pub record OperatorPrincipal : Type 0 where
  pub kind : PrincipalKind
  pub actor : Text
  pub operator : Option Text
  pub credential_id : Option Text
  pub scopes : List Text

unfoldable pub has_scope : OperatorPrincipal → Text → Bool
has_scope principal scope = lists_scope principal.scopes scope

-- `diff |= ua[i] ^ ub[i]` over the bytes of the first; a missing byte of the second counts as zero.
abbrev pub byte_or_zero : List ℕ → ℕ
byte_or_zero [] = 0
byte_or_zero (b ∷ bs) = b

abbrev pub rest_of : List ℕ → List ℕ
rest_of [] = []
rest_of (b ∷ bs) = bs

unfoldable pub diff_bytes : ℕ → List ℕ → List ℕ → ℕ
diff_bytes diff [] bs = diff
diff_bytes diff (a ∷ as_rest) bs =
    diff_bytes (bit_or diff (bit_xor a (byte_or_zero bs))) as_rest (rest_of bs)

-- The digest as bytes and as hexadecimal text, and `Date.parse`, whose `none` is NaN.
module _ (digest : Text → List ℕ) (sha256_hex : Text → Text) (parse_date : Text → Option ℕ) where
  unfoldable pub constant_time_equal : Text → Text → Bool
  unfolding diff_bytes
  constant_time_equal a b = diff_bytes 0 (digest a) (digest b) == 0

  abbrev pub is_past : Option ℕ → Option ℕ → Bool
  is_past none now = true
  is_past (some at) none = true
  is_past (some at) (some now) = leb at now

  unfoldable pub is_expired : Option Text → Text → Bool
  is_expired none now = false
  is_expired (some at) now = if is_empty at then false else is_past (parse_date at) (parse_date now)

  -- `!credential.revoked_at`: an empty text counts as not revoked.
  abbrev pub not_revoked : Option Text → Bool
  not_revoked none = true
  not_revoked (some at) = is_empty at

  abbrev pub usable : Text → OperatorCredential → Bool
  usable now c = not_revoked c.revoked_at && not (is_expired c.expires_at now)

  abbrev pub principal_of : OperatorCredential → OperatorPrincipal
  principal_of c = record {
    kind = credential;
    actor = operator_actor c.name;
    operator = some c.name;
    credential_id = some c.id;
    scopes = parse_scopes (some c.scopes);
  }

  abbrev pub root_principal : OperatorPrincipal
  root_principal = record {
    kind = root;
    actor = codes "admin-token";
    operator = none;
    credential_id = none;
    scopes = all_scopes;
  }

  abbrev pub by_root : Text → Option Text → Option OperatorPrincipal
  by_root presented none = none
  by_root presented (some secret) =
      if not (is_empty secret) && constant_time_equal presented secret
      then some root_principal
      else none

  abbrev pub by_credential :
      Option OperatorCredential → Text → Option OperatorPrincipal → Option OperatorPrincipal
  by_credential none now otherwise = otherwise
  by_credential (some c) now otherwise = if usable now c then some (principal_of c) else otherwise

  unfoldable pub resolve_operator :
      Option Text → Option Text → List OperatorCredential → Text → Option OperatorPrincipal
  unfolding constant_time_equal is_expired get_operator_credential_by_hash
  resolve_operator none root_secret rows now = none
  resolve_operator (some presented) root_secret rows now =
      if is_empty presented
      then none
      else by_credential (get_operator_credential_by_hash rows (sha256_hex presented)) now
          (by_root presented root_secret)
