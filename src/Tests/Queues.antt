-- ===== src/Tests/Queues.antt =====
-- A queue of two runs, one of them interrupted.
use playbook_redline.Base.{ℕ, ◌+◌, String, ◌≡◌, none, some, List, [], ◌∷◌, arith}
use playbook_redline.Runs.{
  queued, running, RunCreateRequest, Run, in_state, new_run, count, requeue_interrupted_runs,
  drain_queue,
}
use playbook_redline.Runs.Queue.{Restarted, Rowwise, requeue_interrupted_runs_lem, drain_queue_lem}

abbrev request : RunCreateRequest
request = record {
  package_id = some "pkg-1";
  package_path = none;
  baseline = "baseline";
  candidate = "candidate_bad";
  suite_path = "fixtures/suites/demo_suite.json";
  spec_path = "fixtures/specs/redline_spec.json";
  baseline_receipt_path = none;
  baseline_trust_policy_path = none;
  baseline_version_id = none;
  candidate_version_id = none;
}

abbrev first : Run
first = new_run "run-1" "req-1" request "packages/1" "runs/1" "2026-06-10T00:00:00Z"

abbrev second : Run
second = new_run "run-2" "req-2" request "packages/1" "runs/2" "2026-06-11T00:00:00Z"

abbrev table : List Run
table = record first { state = running } ∷ second ∷ []

requeue_interrupted_runs_lem_example :
    Rowwise
      (Restarted "2026-06-12T00:00:00Z")
      table
      (requeue_interrupted_runs "2026-06-12T00:00:00Z" table).0
    × ((requeue_interrupted_runs "2026-06-12T00:00:00Z" table).1 ≡ count (in_state running) table)
    × (count (in_state running) (requeue_interrupted_runs "2026-06-12T00:00:00Z" table).0 ≡ 0)
    × (count (in_state queued) (requeue_interrupted_runs "2026-06-12T00:00:00Z" table).0
        ≡ count (in_state queued) table + (requeue_interrupted_runs "2026-06-12T00:00:00Z" table).1)
requeue_interrupted_runs_lem_example = requeue_interrupted_runs_lem "2026-06-12T00:00:00Z" table

abbrev clock : ℕ → String
clock n = "2026-06-12T00:00:00Z"

drain_queue_lem_example : count (in_state queued) (drain_queue clock 2 (first ∷ second ∷ [])) ≡ 0
drain_queue_lem_example = drain_queue_lem clock 2 (first ∷ second ∷ []) (omega arith)
