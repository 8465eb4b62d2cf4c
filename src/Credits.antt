-- ===== src/Credits.antt =====
-- src/credits.ts: the balance arithmetic, the submit gate, the operator knobs and the display of
-- money. An amount in micro-USD is a whole number (`MicroUsd` of the source is documented never to
-- be a float), signed where it can be a balance or a ledger delta.
pub mod Submit
pub mod Amounts
mod Tests
use vivijure_control_plane.Prelude.{
  ℕ, ◌+◌, ◌*◌, ◌/◌, ◌%◌, ◌^◌, ◌-◌, Bool, true, false, ◌||◌, Option, none, some, List, [], ◌∷◌, ◌++◌,
  leb, ◌==◌, if◌then◌else◌,
}
use vivijure_control_plane.Prelude.Int.{ℤ, pos, pos_part, neg_part, ◌+ℤ◌, ◌-ℤ◌, ltb_ℤ}
use vivijure_control_plane.Prelude.Text.{Text, codes, trim, lower, text_eq, text_beq}
use vivijure_control_plane.Prelude.Decimal.{decimal, pad_zero, number_of, is_digits}

abbrev pub micro_per_usd : ℕ
micro_per_usd = 1000000

-- An instant that a timestamp of the program denotes: the milliseconds since the year 0, the origin
-- that Meter.Calendar counts from. Nothing but the calendar depends on the origin.
abbrev pub Instant : Type 0
Instant = ℕ

pub data LedgerKind : Type 0 where
  purchase debit refund adjustment : LedgerKind

pub data HoldStatus : Type 0 where
  open_hold captured released expired : HoldStatus

pub record LedgerRow : Type 0 where
  pub id : Text
  pub tenant_id : Text
  pub kind : LedgerKind
  pub delta_micro_usd : ℤ
  pub cost_micro_usd : Option ℤ
  pub idem_ref : Text
  pub hold_id : Option Text
  pub price_list_id : Option Text
  pub external_ref : Option Text
  pub note : Option Text
  pub created_at : Instant

pub record HoldRow : Type 0 where
  pub id : Text
  pub tenant_id : Text
  pub job_ref : Text
  pub amount_micro_usd : ℤ
  pub status : HoldStatus
  pub price_list_id : Text
  pub created_at : Instant
  pub expires_at : Instant
  pub settled_at : Option Instant

pub record Balance : Type 0 where
  pub settled_micro_usd : ℤ
  pub held_micro_usd : ℤ
  pub available_micro_usd : ℤ
  pub complete : Bool

unfoldable pub balance_from_sums : ℤ → ℤ → Bool → Balance
balance_from_sums settled held complete = record {
  settled_micro_usd = settled;
  held_micro_usd = held;
  available_micro_usd = settled -ℤ held;
  complete = complete;
}

-- The two loops of `computeBalance`, each over its accumulator.
unfoldable pub settled_from : ℤ → List LedgerRow → ℤ
settled_from settled [] = settled
settled_from settled (row ∷ rows) = settled_from (settled +ℤ row.delta_micro_usd) rows

unfoldable pub held_from : ℤ → List HoldRow → ℤ
held_from held [] = held
held_from held (h ∷ hs) = held_from (held +ℤ h.amount_micro_usd) hs

unfoldable pub compute_balance : List LedgerRow → List HoldRow → Bool → Balance
unfolding balance_from_sums settled_from held_from
compute_balance ledger open_holds complete =
    balance_from_sums (settled_from (pos 0) ledger) (held_from (pos 0) open_holds) complete

pub data DenyReason : Type 0 where
  insufficient_credit balance_unknown : DenyReason

pub record Allowed : Type 0 where
  pub enforcing : Bool
  pub available_micro_usd : ℤ
  pub required_micro_usd : ℤ

pub record Denied : Type 0 where
  pub reason : DenyReason
  pub available_micro_usd : Option ℤ
  pub required_micro_usd : ℤ
  pub message : Text

pub data SubmitVerdict : Type 0 where
  allow : Allowed → SubmitVerdict
  deny : Denied → SubmitVerdict

-- `Math.round(abs / 10_000)`: for a safe integer the quotient is nearer to its exact value than
-- to any other multiple of 1/10000, so rounding half up is exact.
unfoldable pub cents_of : ℕ → ℕ
cents_of abs = (abs + 5000) / 10000

unfoldable pub format_usd : ℤ → Text
unfolding cents_of
format_usd micro =
    let is_neg = ltb_ℤ micro (pos 0) in
    let cents = cents_of (pos_part micro + neg_part micro) in
    let s = decimal (cents / 100) ++ codes "." ++ pad_zero 2 (decimal (cents % 100)) in
    (if is_neg then codes "-" else []) ++ codes "USD " ++ s

insufficient_message : ℤ → ℤ → Text
insufficient_message required available =
    codes "this job needs "
    ++ (format_usd required
        ++ (codes " in credit and "
            ++ (format_usd available
                ++ codes
                    " is available; top up to continue (nothing was started and nothing was charged)")))

unknown_message : Text
unknown_message =
    codes "credit balance could not be read completely, so this submission cannot be authorized; "
    ++ codes "no charge was made and nothing was started (fail-closed posture)"

unfoldable pub decide_submit : Balance → ℤ → Bool → SubmitVerdict
unfolding insufficient_message unknown_message
decide_submit balance required enforcing =
    if enforcing
    then (if balance.complete
        then (if ltb_ℤ balance.available_micro_usd required
            then deny (record {
              reason = insufficient_credit;
              available_micro_usd = some balance.available_micro_usd;
              required_micro_usd = required;
              message = insufficient_message required balance.available_micro_usd;
            })
            else allow (record {
              enforcing = true;
              available_micro_usd = balance.available_micro_usd;
              required_micro_usd = required;
            }))
        else deny (record {
          reason = balance_unknown;
          available_micro_usd = none;
          required_micro_usd = required;
          message = unknown_message;
        }))
    else allow (record {
      enforcing = false;
      available_micro_usd = balance.available_micro_usd;
      required_micro_usd = required;
    })

-- A missing environment value is `none`.
unfoldable pub parse_enforcing : Option Text → Bool
parse_enforcing none = false
parse_enforcing (some raw) =
    let v = lower (trim raw) in
    v == codes "1" || v == codes "true" || v == codes "enforce" || v == codes "enforcing"

abbrev pub submit_gate_wired : Bool
submit_gate_wired = false

pub record EnforcementState : Type 0 where
  pub configured : Bool
  pub applied : Bool
  pub reason : Option Text

unwired_reason : Text
unwired_reason =
    codes "CREDITS_ENFORCING is set, but no submit-time gate consults the balance on this plane: "
    ++ (codes
          "nothing calls decideSubmit and no hold is ever taken, so nothing is refused and nothing is "
        ++ codes "debited. The ledger is RECORDING ONLY. Do not read this knob as a spend control.")

unfoldable pub credits_enforcement_state : Option Text → EnforcementState
unfolding parse_enforcing unwired_reason
credits_enforcement_state raw =
    if parse_enforcing raw
    then (if submit_gate_wired
        then record { configured = true; applied = true; reason = none }
        else record { configured = true; applied = false; reason = some unwired_reason })
    else record { configured = false; applied = false; reason = none }

-- `Number.MAX_SAFE_INTEGER`.
abbrev pub max_safe_integer : ℕ
max_safe_integer = 2 ^ 53 - 1

-- `Number(t)` rounds above the safe range only, and stays above it.
unfoldable pub parse_micro_usd : Option Text → Option ℕ
parse_micro_usd none = none
parse_micro_usd (some raw) =
    let t = trim raw in
    let n = number_of t in
    if is_digits t then (if leb n max_safe_integer then some n else none) else none
