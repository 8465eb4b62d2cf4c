-- ===== src/Fleet/Jobs.antt =====
-- One driver at a time: what the guarded UPDATE of a job does by the job's primary key.
use vivijure_control_plane.Prelude.{
  ℕ, ◌+◌, ◌≤◌, ◌≡◌, refl, ap, Bool, true, false, ◌&&◌, some, List, [], ◌∷◌, ◌++◌, ok, arith, any,
  find?, count, nat_eq, Option-cases, inl, inr,
}
use vivijure_control_plane.Prelude.Text.{Text, text_eq}
use vivijure_control_plane.Prelude.Distinct.{Distinct}
use vivijure_control_plane.Prelude.Rows.{
  same_key, update_where_idle, count_found, count_missing, find?-update_where,
  Distinct-update_where, Distinct-insert,
}
use vivijure_control_plane.Fleet.{
  FleetDb, ProvisionJob, update_job, claim_job, claimable, has_job_id, insert_provision_job,
}

abbrev pub job_id : ProvisionJob → Text
job_id j = j.id

-- The primary key of `provision_jobs`.
abbrev pub IsKeyed : FleetDb → Type 0
IsKeyed db = Distinct (same_key job_id) db.jobs

module _ (db : FleetDb) (id : Text) (guard : ProvisionJob → Bool)
    (f : ProvisionJob → ProvisionJob) where
  -- An update whose guard fails on the job meets no row.
  pub update_job_lost :
      (j : ProvisionJob)
      → IsKeyed db
      → find? (has_job_id id) db.jobs ≡ some j
      → guard j ≡ false
      → update_job db id guard f ≡ (db, false)
  unfolding update_job
  update_job_lost j keyed found shut =
      let none_met : count (λ k. has_job_id id k && guard k) db.jobs ≡ 0 =
        ground (arith, count_found job_id id guard db.jobs j keyed found) in
      rw (none_met, update_where_idle (λ k. has_job_id id k && guard k) f db.jobs none_met) refl

  -- An update that met its row met a job that passed the guard, and left what `f` makes of it.
  pub update_job_won :
      ((j : ProvisionJob) → (f j).id ≡ j.id)
      → IsKeyed db
      → (update_job db id guard f).1 ≡ true
      → (j : ProvisionJob) × (find? (has_job_id id) db.jobs ≡ some j)
        × (guard j ≡ true)
        × (find? (has_job_id id) (update_job db id guard f).0.jobs ≡ some (f j))
  unfolding update_job
  update_job_won keeps keyed won = elim (Option-cases (find? (has_job_id id) db.jobs)) [
    | inl absent ↦ absurd (ground (arith, count_missing job_id id guard db.jobs absent))
    | inr (j, found) ↦
        let open_guard : guard j ≡ true =
          ground (arith, count_found job_id id guard db.jobs j keyed found) in
        let hit : has_job_id id j ≡ true = found_id db.jobs j found in
        (
          j,
          found,
          open_guard,
          ground (
            arith,
            find?-update_where job_id (λ k. has_job_id id k && guard k) f keeps id db.jobs j found,
          ),
        )
  ]
    where
      found_id :
          (js : List ProvisionJob) (j : ProvisionJob)
          → find? (has_job_id id) js ≡ some j
          → has_job_id id j ≡ true
      found_id [] j h = absurd (ground arith)
      found_id (k ∷ js) j h = ground (arith, found_id js j)

  pub update_job-IsKeyed :
      ((j : ProvisionJob) → (f j).id ≡ j.id) → IsKeyed db → IsKeyed (update_job db id guard f).0
  unfolding update_job
  update_job-IsKeyed keeps keyed =
      Distinct-update_where job_id (λ k. has_job_id id k && guard k) f keeps db.jobs keyed

pub insert_provision_job-IsKeyed :
    (db : FleetDb) (j : ProvisionJob) {db' : FleetDb} {made : ProvisionJob}
    → IsKeyed db
    → insert_provision_job db j ≡ ok (db', made)
    → IsKeyed db'
unfolding insert_provision_job
insert_provision_job-IsKeyed db j {db'} keyed h =
    let new : any (has_job_id j.id) db.jobs ≡ false = ground arith in
    let same : db.jobs ++ j ∷ [] ≡ db'.jobs = ground arith in
    rw (← same) (Distinct-insert job_id db.jobs j keyed new)

-- Exactly one of two racing claims wins: once a claim of a job has won, every other claim of it loses
-- and changes nothing, until the instant that the first one's lease names has passed.
pub claim_job_exclusive :
    (db db' : FleetDb) (id : Text) (seconds seconds' now later : ℕ)
    → IsKeyed db
    → claim_job db id seconds now ≡ (db', true)
    → later ≤ now + seconds
    → claim_job db' id seconds' later ≡ (db', false)
unfolding claim_job
claim_job_exclusive db db' id seconds seconds' now later keyed won early =
    let mark : ProvisionJob → ProvisionJob =
      λ j. record j { lease_until = some (now + seconds); updated_at = now } in
    let flag : (update_job db id (claimable now) mark).1 ≡ true =
      ap (λ (p : FleetDb × Bool). p.1) won in
    let same : (update_job db id (claimable now) mark).0 ≡ db' =
      ap (λ (p : FleetDb × Bool). p.0) won in
    let (j, found, free, after) =
      update_job_won db id (claimable now) mark (λ k. refl) keyed flag in
    let keyed' = update_job-IsKeyed db id (claimable now) mark (λ k. refl) keyed in
    rw (← same) (
      update_job_lost (update_job db id (claimable now) mark).0 id (claimable later)
        (λ k. record k { lease_until = some (later + seconds'); updated_at = later }) (mark j)
        keyed' after (ground arith))
