-- ===== src/Lib.antt =====
-- Verification of the vivijure control plane, the service that sells, provisions, routes and meters
-- hosted studios. Each file names the code it is about; paths are those of the repository.
--
-- Parts and their files.
-- - Prelude: shared names, lists measured by native numbers, whole numbers with a sign, strings as
--   UTF-16 units, decimal notation, split and join.
-- - Credits: src/credits.ts, balances, the submit gate, the enforcement knob, money as text.
-- - Ledger: the credit statements of `D1Store` (src/store-d1.ts) over the tables of
--   migrations/0013_credit_ledger.sql. A table is the list of its rows; a statement is a function of
--   the database that answers the new one, or the constraint that it violates.
-- - Meter: the metering of usage. Meter.Period is src/meter-period.ts over the calendar of
--   Meter.Calendar, Meter.Window src/meter-window.ts and src/llm-spend-window.ts, Meter.Debit
--   src/meter-debit.ts, Meter.Settle src/meter-settle.ts, Meter.Run src/meter-settle-run.ts.
-- - PaymentRail: src/payment-rail.ts, which credits the ledger.
-- - Tenants: src/tenants.ts, src/tenant-resolver.ts and the lifecycle names of src/store.ts.
-- - Routing: src/routing.ts with the session reading of src/auth.ts.
-- - RunpodProxy: src/runpod-proxy-route-match.ts, the status readers of src/runpod-proxy.ts and the
--   job statements of src/store-d1.ts; RunpodProxy.Sweep is src/runpod-job-sweep.ts.
-- - Heartbeat: src/cron-heartbeat.ts.
-- - Aup: src/aup.ts with its statements of src/store-d1.ts.
-- - Fleet: the tables `tenants` and `provision_jobs` of src/store-d1.ts. Fleet.Reclaim has the slug and
--   lease rules of src/store.ts with their statements, Fleet.Drive `driveJobIfNeeded` of src/index.ts,
--   Fleet.Resources the owners of migrations/0023_resource_ownership.sql.
-- - Kek: src/token-crypto.ts; Kek.Rotation is src/kek-rotation.ts over the tenants of Fleet.
-- - Quota: src/tenant-storage-quota.ts; Quota.Bindings builds what is bound, Quota.Preflight refuses,
--   Quota.Apply writes and Quota.Readback waits for the studio.
-- - Access: the one-time tokens and sessions of src/store-d1.ts (Access.Tokens) and
--   src/operator-auth.ts (Access.Operators).
-- - Smoke: the spend guard of smoke renders, its statements of src/store-d1.ts.
--
-- How they interact. A settlement run (Meter.Run) reads a window for each tenant, decides an overage
-- (Meter.Debit) and appends a debit to the ledger (Meter.Settle, Ledger); a payment is appended in the
-- same way (PaymentRail). A hold reserves credit for a job and is captured, released or expired
-- (Ledger); what is left is the balance that the submit gate compares (Credits). Routing asks Tenants
-- which host names and rows may be served. A poll or the cron drives a provision (Fleet.Drive) under
-- the lease of its job; a teardown and a reclaim take the lease of the tenant's row. A rotation of keys
-- (Kek) and a write of a ceiling (Quota, whose preflight opens the sealed token) work on live rows.
--
-- Conventions. A call that may throw answers a `Result` or an `Option`. Functions carry the names of
-- the source in snake case. What lies outside of the repository (JSON and date parsing, SHA-256, the
-- cipher, RunPod's answers, the dispatch namespace) is a parameter. An amount is a whole number, as the
-- source documents; an amount read from text is bounded by the safe integers. The calendar searches
-- the year upwards from the day divided by 366 with the day as fuel, which is more than the years to
-- go; months search up from January with eleven steps of fuel. The wait for a studio has fuel for seven
-- probes, as many as its budget has room for. Concurrency is written as order: a statement is one step,
-- and what others do between two steps of a caller is an argument (the writes during a sweep) or a step
-- relation (the calls between two reads of a row).
--
-- Not modelled: the steps of the provisioner and the upgrades, the HTTP handlers, the cron loop and the
-- clients of external services, the collection of usage and the rollup of spend, account identities and
-- the mail login, which exception a failed read of a token carries, the wording of reasons that the
-- source joins from cases, and log lines.
pub mod Prelude
pub mod Credits
pub mod Ledger
pub mod Meter
pub mod PaymentRail
pub mod Tenants
pub mod Routing
pub mod RunpodProxy
pub mod Heartbeat
pub mod Aup
pub mod Fleet
pub mod Kek
pub mod Quota
pub mod Access
pub mod Smoke
