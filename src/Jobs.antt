-- ===== src/Jobs.antt =====
-- src/redline/service/store.py: the table of release jobs. The clock is an argument of the operations
-- that read it, and a row of the table is a record.
pub mod Claims
pub mod Once
pub mod Events
use playbook_redline.Base.{
  ℕ, String, Bool, true, false, not, ◌&&◌, ◌||◌, Option, none, some, List, [], ◌∷◌, ◌++◌, map, any,
  str_eq, str_leb, ◌==◌, if◌then◌else◌,
}
use playbook_redline.Canonical.{Fields}

pub data ReleaseJobStatus : Type 0 where
  queued running succeeded failed cancelled : ReleaseJobStatus

pub data ReleaseJobType : Type 0 where
  canonical_execute_demo exchange_preflight reconciliation showcase_order : ReleaseJobType

pub record ReleaseJob : Type 0 where
  pub job_id : String
  pub release_id : String
  pub job_type : ReleaseJobType
  pub status : ReleaseJobStatus
  pub request_hash : String
  pub request : Fields
  pub idempotency_key : Option String
  pub requested_by : String
  pub created_at : String
  pub started_at : Option String
  pub finished_at : Option String
  pub result : Option Fields
  pub error_code : Option String
  pub error_message : Option String

abbrev pub status_index : ReleaseJobStatus → ℕ
status_index queued = 0
status_index running = 1
status_index succeeded = 2
status_index failed = 3
status_index cancelled = 4

abbrev pub has_status : ReleaseJobStatus → ReleaseJob → Bool
has_status s job = status_index job.status == status_index s

abbrev pub has_job_id : String → ReleaseJob → Bool
has_job_id id job = str_eq job.job_id id

-- `COALESCE(column, now)`.
abbrev pub coalesce : Option String → Option String → Option String
coalesce none now = now
coalesce (some text) now = some text

-- What `create_release_job` inserts.
abbrev pub new_job :
    String
    → String
    → ReleaseJobType
    → String
    → Fields
    → Option String
    → String
    → String
    → ReleaseJob
new_job job_id release_id job_type request_hash request idempotency_key requested_by now = record {
  job_id = job_id;
  release_id = release_id;
  job_type = job_type;
  status = queued;
  request_hash = request_hash;
  request = request;
  idempotency_key = idempotency_key;
  requested_by = requested_by;
  created_at = now;
  started_at = none;
  finished_at = none;
  result = none;
  error_code = none;
  error_message = none;
}

-- The insertion of `create_release_job`; `none` is the error of a primary key that exists.
unfoldable pub insert_job : ReleaseJob → List ReleaseJob → Option (List ReleaseJob)
insert_job job table = if any (has_job_id job.job_id) table then none else some (table ++ job ∷ [])

-- `get_release_job`.
unfoldable pub get_release_job : String → String → List ReleaseJob → Option ReleaseJob
get_release_job release_id job_id [] = none
get_release_job release_id job_id (job ∷ table) =
    let rest = get_release_job release_id job_id table in
    if str_eq job.release_id release_id && has_job_id job_id job then some job else rest

abbrev pub earlier : ReleaseJob → Option ReleaseJob → ReleaseJob
earlier job none = job
earlier job (some other) = if str_leb job.created_at other.created_at then job else other

-- `WHERE status = 'queued' ORDER BY created_at ASC LIMIT 1`.
unfoldable pub oldest_queued : List ReleaseJob → Option ReleaseJob
oldest_queued [] = none
oldest_queued (job ∷ table) =
    let rest = oldest_queued table in
    if has_status queued job then some (earlier job rest) else rest

unfoldable pub start_job : String → String → ReleaseJob → ReleaseJob
start_job now id job =
    if has_job_id id job && has_status queued job
    then record job { status = running; started_at = coalesce job.started_at (some now) }
    else job

-- `claim_next_release_job`: the table, and the row that was claimed.
unfoldable pub claim_next_release_job :
    String → List ReleaseJob → List ReleaseJob × Option ReleaseJob
claim_next_release_job now table = elim (oldest_queued table) [
  | none ↦ (table, none)
  | some job ↦ (map (start_job now job.job_id) table, some job)
]

unfoldable pub recover_job : String → ReleaseJob → ReleaseJob
recover_job now job =
    if has_status running job
    then record job {
      status = failed;
      finished_at = coalesce job.finished_at (some now);
      error_code = some "JOB_RECOVERY_REQUIRED";
      error_message = some "release job was interrupted before completion";
    }
    else job

-- The update of `recover_interrupted_release_jobs`.
unfoldable pub recover_interrupted_release_jobs : String → List ReleaseJob → List ReleaseJob
recover_interrupted_release_jobs now table = map (recover_job now) table

unfoldable pub cancel_job : String → String → String → ReleaseJob → ReleaseJob
cancel_job now release_id job_id job =
    if str_eq job.release_id release_id && has_job_id job_id job && has_status queued job
    then record job {
      status = cancelled;
      finished_at = coalesce job.finished_at (some now);
      error_code = some "JOB_CANCELLED";
      error_message = some "release job cancelled before execution";
    }
    else job

-- `cancel_release_job`: the table, and the row that is read back.
unfoldable pub cancel_release_job :
    String → String → String → List ReleaseJob → List ReleaseJob × Option ReleaseJob
cancel_release_job now release_id job_id table =
    let updated = map (cancel_job now release_id job_id) table in
    (updated, get_release_job release_id job_id updated)

abbrev pub is_running : ReleaseJobStatus → Bool
is_running running = true
is_running _ = false

-- The time of the end, for a status that ends a job.
abbrev pub finish_time : String → ReleaseJobStatus → Option String
finish_time now queued = none
finish_time now running = none
finish_time now _ = some now

unfoldable pub mark_job :
    String
    → String
    → ReleaseJobStatus
    → Option Fields
    → Option String
    → Option String
    → ReleaseJob
    → ReleaseJob
mark_job now job_id status result error_code error_message job =
    if has_job_id job_id job
    then record job {
      status = status;
      started_at = if is_running status then coalesce job.started_at (some now) else job.started_at;
      finished_at = coalesce (finish_time now status) job.finished_at;
      result = result;
      error_code = error_code;
      error_message = error_message;
    }
    else job

-- `mark_release_job_status`.
unfoldable pub mark_release_job_status :
    String
    → String
    → ReleaseJobStatus
    → Option Fields
    → Option String
    → Option String
    → List ReleaseJob
    → List ReleaseJob
mark_release_job_status now job_id status result error_code error_message table =
    map (mark_job now job_id status result error_code error_message) table
