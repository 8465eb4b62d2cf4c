-- ===== src/RunpodProxy.antt =====
-- The RunPod proxy's surface and its job index: src/runpod-proxy-route-match.ts, the status readers
-- of src/runpod-proxy.ts and the statements of src/store-d1.ts over `runpod_job_index`, whose rows
-- stand in table order. A number of a status body is kept as its text.
pub mod Routes
pub mod Jobs
pub mod Sweep
mod Tests
use vivijure_control_plane.Prelude.{
  ℕ, ◌+◌, Bool, true, false, not, ◌&&◌, ◌||◌, Option, none, some, List, [], ◌∷◌, ◌++◌, leb, ltb,
  length, drop, take, any, all, filter, count, is_some, ◌==◌, nat_eq, if◌then◌else◌,
}
use vivijure_control_plane.Prelude.Text.{
  Text, codes, text_eq, text_beq, starts_with, is_digit, is_empty,
}
use vivijure_control_plane.Prelude.Split.{split}

abbrev pub proxy_prefix : Text
proxy_prefix = codes "/api/runpod"

abbrev pub proxy_upstream_prefix : Text
proxy_upstream_prefix = proxy_prefix ++ codes "/v2"

abbrev pub proxy_webhook_prefix : Text
proxy_webhook_prefix = proxy_prefix ++ codes "/webhook"

pub data PassthroughOp : Type 0 where
  status_op cancel_op health_op : PassthroughOp

pub data ProxyRoute : Type 0 where
  submit : Text → ProxyRoute
  poll : PassthroughOp → Text → Option Text → ProxyRoute
  webhook : Text → ProxyRoute
  unknown_route : ProxyRoute

abbrev pub is_segment_unit : ℕ → Bool
is_segment_unit c =
    (leb 65 c && leb c 90) || (leb 97 c && leb c 122) || is_digit c || c == b'_' || c == b'-'

-- SEGMENT and TOKEN.
abbrev pub is_segment : Text → Bool
is_segment t = not (is_empty t) && all is_segment_unit t

abbrev pub is_hex_unit : ℕ → Bool
is_hex_unit c = is_digit c || (leb 97 c && leb c 102)

abbrev pub is_token : Text → Bool
is_token t = length t == 64 && all is_hex_unit t

unfoldable pub match_webhook : Text → Text → ProxyRoute
match_webhook method token =
    if method == codes "POST" && is_token token then webhook token else unknown_route

-- The segments after the upstream prefix.
unfoldable pub match_upstream : Text → List Text → ProxyRoute
match_upstream method (endpoint ∷ op ∷ []) =
    if not (is_segment endpoint)
    then unknown_route
    else if op == codes "run" && method == codes "POST"
    then submit endpoint
    else if op == codes "health" && method == codes "GET"
    then poll health_op endpoint none
    else unknown_route
match_upstream method (endpoint ∷ op ∷ job ∷ []) =
    if not (is_segment endpoint) || not (is_segment job)
    then unknown_route
    else if op == codes "status" && method == codes "GET"
    then poll status_op endpoint (some job)
    else if op == codes "cancel" && method == codes "POST"
    then poll cancel_op endpoint (some job)
    else unknown_route
match_upstream method _ = unknown_route

unfoldable pub match_proxy_route : Text → Text → Option ProxyRoute
unfolding match_webhook match_upstream
match_proxy_route method path =
    if not (path == proxy_prefix) && not (starts_with path (proxy_prefix ++ codes "/"))
    then none
    else if starts_with path (proxy_webhook_prefix ++ codes "/")
    then some (match_webhook method (drop (length proxy_webhook_prefix + 1) path))
    else if starts_with path (proxy_upstream_prefix ++ codes "/")
    then some (match_upstream method (split b'/' (drop (length proxy_upstream_prefix + 1) path)))
    else some unknown_route

pub data JobOutcome : Type 0 where
  submitted completed failed cancelled timed_out unknown : JobOutcome

unfoldable pub outcome_for_status : Text → Option JobOutcome
outcome_for_status status =
    if status == codes "COMPLETED"
    then some completed
    else if status == codes "FAILED"
    then some failed
    else if status == codes "CANCELLED"
    then some cancelled
    else if status == codes "TIMED_OUT"
    then some timed_out
    else none

unfoldable pub is_billable : Option JobOutcome → Bool
is_billable (some completed) = true
is_billable _ = false

-- A field of a status body: a string, a finite number, or neither or missing.
pub data Field : Type 0 where
  string : Text → Field
  finite : Text → Field
  other : Field

pub record StatusBody : Type 0 where
  pub status : Field
  pub execution_time : Field
  pub delay_time : Field

pub record TerminalFacts : Type 0 where
  pub job_id : Text
  pub status_raw : Text
  pub outcome : JobOutcome
  pub execution_ms : Option Text
  pub delay_ms : Option Text

abbrev pub status_text : Field → Text
status_text (string s) = s
status_text _ = []

abbrev pub num : Field → Option Text
num (finite n) = some n
num _ = none

-- A body that is no object is `none`.
unfoldable pub terminal_facts_from_status : Text → Option StatusBody → Option TerminalFacts
terminal_facts_from_status job_id none = none
terminal_facts_from_status job_id (some s) = elim (outcome_for_status (status_text s.status)) [
  | none ↦ none
  | some outcome ↦ some (record {
    job_id = job_id;
    status_raw = status_text s.status;
    outcome = outcome;
    execution_ms = num s.execution_time;
    delay_ms = num s.delay_time;
  })
]

pub record JobRow : Type 0 where
  pub job_id : Text
  pub tenant_id : Text
  pub tenant_slug : Text
  pub module_name : Option Text
  pub outcome : JobOutcome
  pub status_raw : Option Text
  pub execution_ms : Option Text
  pub delay_ms : Option Text
  pub submitted_at : Option ℕ
  pub terminal_at : Option ℕ
  pub source : Text
  pub endpoint_id : Option Text
  pub webhook_token_sha256 : Option Text

pub record ProxyJobOpen : Type 0 where
  pub job_id : Text
  pub tenant_id : Text
  pub tenant_slug : Text
  pub module_name : Option Text
  pub submitted_at : Option ℕ
  pub endpoint_id : Option Text
  pub webhook_token_sha256 : Text

abbrev pub coalesce {ℓ} : {A : Type ℓ} → Option A → Option A → Option A
coalesce none b = b
coalesce (some a) b = some a

abbrev pub has_job : Text → JobRow → Bool
has_job x r = r.job_id == x

unfoldable pub inserted_job : ProxyJobOpen → JobRow
inserted_job j = record {
  job_id = j.job_id;
  tenant_id = j.tenant_id;
  tenant_slug = j.tenant_slug;
  module_name = j.module_name;
  outcome = submitted;
  status_raw = none;
  execution_ms = none;
  delay_ms = none;
  submitted_at = j.submitted_at;
  terminal_at = none;
  source = codes "proxy";
  endpoint_id = j.endpoint_id;
  webhook_token_sha256 = some j.webhook_token_sha256;
}

unfoldable pub reopened_job : ProxyJobOpen → JobRow → JobRow
reopened_job j r = record r {
  tenant_id = j.tenant_id;
  tenant_slug = j.tenant_slug;
  module_name = coalesce j.module_name r.module_name;
  endpoint_id = coalesce j.endpoint_id r.endpoint_id;
  source = codes "proxy";
  webhook_token_sha256 = some j.webhook_token_sha256;
  submitted_at = coalesce r.submitted_at j.submitted_at;
}

unfoldable pub update_jobs : (JobRow → Bool) → (JobRow → JobRow) → List JobRow → List JobRow
update_jobs p f [] = []
update_jobs p f (r ∷ rs) = (if p r then f r else r) ∷ update_jobs p f rs

-- `openRunpodProxyJob`: INSERT … ON CONFLICT (job_id) DO UPDATE.
unfoldable pub open_runpod_proxy_job : List JobRow → ProxyJobOpen → List JobRow
unfolding inserted_job reopened_job update_jobs
open_runpod_proxy_job jobs j =
    if any (has_job j.job_id) jobs
    then update_jobs (has_job j.job_id) (reopened_job j) jobs
    else jobs ++ inserted_job j ∷ []

pub record ProxyJobClose : Type 0 where
  pub job_id : Text
  pub outcome : JobOutcome
  pub status_raw : Text
  pub execution_ms : Option Text
  pub delay_ms : Option Text
  pub terminal_at : ℕ

unfoldable pub closed_job : ProxyJobClose → JobRow → JobRow
closed_job c r = record r {
  outcome = c.outcome;
  status_raw = some c.status_raw;
  execution_ms = c.execution_ms;
  delay_ms = c.delay_ms;
  terminal_at = some c.terminal_at;
}

abbrev pub is_unclosed : Text → JobRow → Bool
is_unclosed x r = has_job x r && not (is_some r.terminal_at)

-- `closeRunpodProxyJob`, and the rows that the UPDATE met.
unfoldable pub close_runpod_proxy_job : List JobRow → ProxyJobClose → List JobRow × ℕ
unfolding closed_job update_jobs
close_runpod_proxy_job jobs c =
    (update_jobs (is_unclosed c.job_id) (closed_job c) jobs, count (is_unclosed c.job_id) jobs)

abbrev pub submitted_before : ℕ → Option ℕ → Bool
submitted_before before none = false
submitted_before before (some at) = ltb at before

-- The WHERE of the sweep's two reads.
abbrev pub is_sweepable : ℕ → JobRow → Bool
is_sweepable before r =
    not (is_some r.terminal_at)
    && r.source == codes "proxy"
    && is_some r.endpoint_id
    && submitted_before before r.submitted_at

abbrev pub submitted_key : JobRow → ℕ
submitted_key r = elim r.submitted_at [ none ↦ 0 | some at ↦ at ]

-- ORDER BY submitted_at ASC; SQL leaves the order of equal keys open, here it is the table's.
unfoldable pub insert_job : JobRow → List JobRow → List JobRow
insert_job r [] = r ∷ []
insert_job r (q ∷ rs) =
    let rest = insert_job r rs in
    if leb (submitted_key r) (submitted_key q) then r ∷ q ∷ rs else q ∷ rest

unfoldable pub sort_jobs : List JobRow → List JobRow
unfolding insert_job
sort_jobs [] = []
sort_jobs (r ∷ rs) = insert_job r (sort_jobs rs)

unfoldable pub list_open_runpod_proxy_jobs : List JobRow → ℕ → ℕ → List JobRow
unfolding sort_jobs
list_open_runpod_proxy_jobs jobs before limit =
    take limit (sort_jobs (filter (is_sweepable before) jobs))

unfoldable pub count_open_runpod_proxy_jobs : List JobRow → ℕ → ℕ
count_open_runpod_proxy_jobs jobs before = count (is_sweepable before) jobs
