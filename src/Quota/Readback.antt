-- ===== src/Quota/Readback.antt =====
-- The wait for a studio to serve what was bound: the probing loop that `applyStorageQuota`
-- (src/tenant-storage-quota.ts) and the abuse-report converge (src/tenant-abuse-report.ts) share in shape.
-- The readings of the studio and of the worker's clock, one of each per probe, are arguments.
use vivijure_control_plane.Prelude.{
  ℕ, zero, suc, ◌+◌, ◌-◌, ◌*◌, ◌≤◌, ◌<◌, ◌≡◌, refl, Bool, true, false, Option, none, some, arith,
  ltb, ◌==◌, nat_eq, if◌then◌else◌, Bool-cases, inl, inr, ◌⊎◌,
}

abbrev pub probe_ms : ℕ
probe_ms = 2500

abbrev pub budget_ms : ℕ
budget_ms = 15000

-- What the loop ends with: the number of probes, and the last reading.
pub record Probed {ℓ} (A : Type ℓ) : Type ℓ where
  pub attempts : ℕ
  pub reading : A

module _ {ℓ} {A : Type ℓ} (is_target : A → Bool) (readings : ℕ → A) (clock : ℕ → ℕ)
    (started : ℕ) where
  -- Probe `n`, with the fuel for that many probes; `none` is a loop cut short.
  unfoldable pub probe : ℕ → ℕ → Option (Probed A)
  probe zero n = none
  probe (suc fuel) n =
      let later = probe fuel (suc n) in
      let reading = readings n in
      if is_target reading
      then some (record { attempts = suc n; reading = reading })
      else if ltb budget_ms (clock n - started + probe_ms)
      then some (record { attempts = suc n; reading = reading })
      else later

  -- Each probe but the first is made after a sleep, so it is made no sooner than this.
  abbrev pub IsSlept : Type 0
  IsSlept = (n : ℕ) → started + probe_ms * n ≤ clock n

  -- where a probe stops.
  abbrev pub Stops : ℕ → Type 0
  Stops k = (is_target (readings k) ≡ true) ⊎ (budget_ms < clock k - started + probe_ms)

  early_enough :
      (n : ℕ)
      → started + probe_ms * n ≤ clock n
      → ltb budget_ms (clock n - started + probe_ms) ≡ false
      → n ≤ 5
  early_enough n late within = ground arith

  probe_ends :
      (fuel n : ℕ)
      → IsSlept
      → 7 ≤ fuel + n
      → 0 < fuel
      → (k : ℕ) × (probe fuel n ≡ some (record { attempts = suc k; reading = readings k }))
        × (k < fuel + n)
        × Stops k
        × ((m : ℕ) → n ≤ m → m < k → is_target (readings m) ≡ false)
  unfolding probe
  probe_ends zero n slept enough some_left = absurd (omega arith)
  probe_ends (suc fuel) n slept enough some_left = elim (Bool-cases (is_target (readings n))) [
    | inl hit ↦ (n, rw hit refl, omega arith, inl hit, λ m low high. absurd (omega arith))
    | inr miss ↦ elim (Bool-cases (ltb budget_ms (clock n - started + probe_ms))) [
      | inl over ↦ (
        n,
        rw (miss, over) refl,
        omega arith,
        inr (ground arith),
        λ m low high. absurd (omega arith),
      )
      | inr within ↦
          let early : n ≤ 5 = early_enough n (slept n) within in
          let (k, ended, bound, why, before) =
            probe_ends fuel (suc n) slept (omega arith) (omega arith) in
          (
            k,
            rw (miss, within) ended,
            omega arith,
            why,
            λ m low high. elim (Bool-cases (m == n)) [
              | inl same ↦ let is_n : m ≡ n = ground arith in rw is_n miss
              | inr other ↦ before m (ground arith) high
            ],
          )
    ]
  ]

  -- The wait for a studio ends: if each probe after the first follows a sleep of the interval, the loop
  -- makes at least one and at most seven probes; the last is the first to read the target, or the
  -- budget has no room for another interval.
  pub probe_within_seven :
      IsSlept
      → (k : ℕ) × (probe 7 0 ≡ some (record { attempts = suc k; reading = readings k }))
        × (k < 7)
        × Stops k
        × ((m : ℕ) → m < k → is_target (readings m) ≡ false)
  probe_within_seven slept =
      let (k, ended, bound, why, before) = probe_ends 7 0 slept (omega arith) (omega arith) in
      (k, ended, omega arith, why, λ m high. before m (omega arith) high)
