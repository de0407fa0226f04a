-- ===== src/Runs.antt =====
-- src/redline/service/store.py: the table of runs. As in Jobs, the clock is an argument.
pub mod Claims
pub mod Queue
use playbook_redline.Base.{
  ℕ, zero, suc, ◌+◌, String, Bool, true, false, ◌&&◌, Option, none, some, List, [], ◌∷◌, ◌++◌, map,
  any, str_eq, str_leb, ◌==◌, if◌then◌else◌,
}
use playbook_redline.Canonical.{Fields}

pub data RunState : Type 0 where
  queued running pass fail amber error : RunState

pub record RunCreateRequest : Type 0 where
  pub package_id : Option String
  pub package_path : Option String
  pub baseline : String
  pub candidate : String
  pub suite_path : String
  pub spec_path : String
  pub baseline_receipt_path : Option String
  pub baseline_trust_policy_path : Option String
  pub baseline_version_id : Option String
  pub candidate_version_id : Option String

pub record Run : Type 0 where
  pub run_id : String
  pub state : RunState
  pub request_id : String
  pub request : RunCreateRequest
  pub package_path : String
  pub out_dir : String
  pub reason_code : Option String
  pub envelope_status : Option String
  pub package_hash : Option String
  pub receipt_hash : Option String
  pub report_hash : Option String
  pub artifact_manifest : Option Fields
  pub error_code : Option String
  pub error_message : Option String
  pub created_at : String
  pub updated_at : String
  pub started_at : Option String
  pub completed_at : Option String

abbrev pub state_index : RunState → ℕ
state_index queued = 0
state_index running = 1
state_index pass = 2
state_index fail = 3
state_index amber = 4
state_index error = 5

abbrev pub in_state : RunState → Run → Bool
in_state s run = state_index run.state == state_index s

abbrev pub has_run_id : String → Run → Bool
has_run_id id run = str_eq run.run_id id

abbrev pub coalesce : Option String → String → Option String
coalesce none now = some now
coalesce (some text) now = some text

abbrev pub new_run : String → String → RunCreateRequest → String → String → String → Run
new_run run_id request_id request package_path out_dir now = record {
  run_id = run_id;
  state = queued;
  request_id = request_id;
  request = request;
  package_path = package_path;
  out_dir = out_dir;
  reason_code = none;
  envelope_status = none;
  package_hash = none;
  receipt_hash = none;
  report_hash = none;
  artifact_manifest = none;
  error_code = none;
  error_message = none;
  created_at = now;
  updated_at = now;
  started_at = none;
  completed_at = none;
}

-- `create_run`; `none` is the error of a primary key that exists.
unfoldable pub create_run : Run → List Run → Option (List Run)
create_run run table = if any (has_run_id run.run_id) table then none else some (table ++ run ∷ [])

-- `get_run`.
unfoldable pub get_run : String → List Run → Option Run
get_run id [] = none
get_run id (run ∷ table) =
    let rest = get_run id table in if has_run_id id run then some run else rest

-- `UPDATE runs SET … WHERE run_id = ?`.
unfoldable pub update_run : String → (Run → Run) → List Run → List Run
update_run id change table =
    map (λ (run : Run). if has_run_id id run then change run else run) table

unfoldable pub mark_running : String → String → List Run → List Run
unfolding update_run
mark_running now id =
    update_run id
      (λ (run : Run). record run { state = running; started_at = some now; updated_at = now })

unfoldable pub mark_completed :
    String
    → String
    → RunState
    → String
    → String
    → Option String
    → Option String
    → Option String
    → Fields
    → List Run
    → List Run
unfolding update_run
mark_completed now id state reason_code envelope_status package_hash receipt_hash report_hash
      manifest =
    update_run id (λ (run : Run). record run {
      state = state;
      reason_code = some reason_code;
      envelope_status = some envelope_status;
      package_hash = package_hash;
      receipt_hash = receipt_hash;
      report_hash = report_hash;
      artifact_manifest = some manifest;
      completed_at = some now;
      updated_at = now;
      error_code = none;
      error_message = none;
    })

unfoldable pub update_artifact_manifest : String → String → Fields → List Run → List Run
unfolding update_run
update_artifact_manifest now id manifest =
    update_run id
      (λ (run : Run). record run { artifact_manifest = some manifest; updated_at = now })

unfoldable pub mark_error : String → String → String → String → List Run → List Run
unfolding update_run
mark_error now id error_code message = update_run id (λ (run : Run). record run {
  state = error;
  error_code = some error_code;
  error_message = some message;
  completed_at = some now;
  updated_at = now;
})

abbrev pub earlier : Run → Option Run → Run
earlier run none = run
earlier run (some other) = if str_leb run.created_at other.created_at then run else other

-- `WHERE state = 'queued' ORDER BY created_at ASC LIMIT 1`.
unfoldable pub oldest_queued_run : List Run → Option Run
oldest_queued_run [] = none
oldest_queued_run (run ∷ table) =
    let rest = oldest_queued_run table in
    if in_state queued run then some (earlier run rest) else rest

unfoldable pub start_run : String → String → List Run → List Run
unfolding update_run
start_run now id = update_run id (λ (run : Run). record run {
  state = running;
  started_at = coalesce run.started_at now;
  updated_at = now;
})

-- `claim_next_run`: the table, and the row as it is read back.
unfoldable pub claim_next_run : String → List Run → List Run × Option Run
claim_next_run now table = elim (oldest_queued_run table) [
  | none ↦ (table, none)
  | some run ↦ (start_run now run.run_id table, get_run run.run_id (start_run now run.run_id table))
]

unfoldable pub requeue_run : String → Run → Run
requeue_run now run =
    if in_state running run then record run { state = queued; updated_at = now } else run

abbrev pub count : (Run → Bool) → List Run → ℕ
count p [] = 0
count p (run ∷ table) = let rest = count p table in if p run then suc rest else rest

-- `requeue_interrupted_runs`: the table, and the number of rows.
unfoldable pub requeue_interrupted_runs : String → List Run → List Run × ℕ
requeue_interrupted_runs now table = (map (requeue_run now) table, count (in_state running) table)

-- `_drain_queue` without `execute_run`, which works on the run that was claimed: runs are claimed until
-- a claim finds none, or `fuel` runs out.
unfoldable pub drain_queue : (ℕ → String) → ℕ → List Run → List Run
unfolding claim_next_run
drain_queue clock zero table = table
drain_queue clock (suc fuel) table =
    let rest = drain_queue clock fuel (claim_next_run (clock fuel) table).0 in
    elim (claim_next_run (clock fuel) table).1 [
      | none ↦ (claim_next_run (clock fuel) table).0
      | some run ↦ rest
    ]
