-- ===== src/Tests/Stores.antt =====
-- Job tables and approvals at concrete rows.
use playbook_redline.Base.{String, ◌≡◌, ◌≢◌, refl, none, some, List, [], ◌∷◌, All, eq_iff}
use mathlib.Core.Bool.{false≢true}
use playbook_redline.Canonical.{null, str, end, field}
use playbook_redline.Release.{ReleaseCandidate, draft, l0}
use playbook_redline.Release.Tier.{set_field}
use playbook_redline.Jobs.{
  ReleaseJob, queued, failed, showcase_order, new_job, insert_job, oldest_queued, start_job,
  claim_next_release_job,
}
use playbook_redline.Jobs.Once.{History, opened, inserted, claimed, NoRepeat, History-NoRepeat}
use playbook_redline.Jobs.Events.{
  ReleaseJobEvent, of_job, last_event, append_release_job_event, has_event_id, sealed, new_event,
  list_release_job_events,
}
use playbook_redline.Jobs.Events.Listing.{
  Appended, no_events, one_more, list_release_job_events_lem,
}
use playbook_redline.Tests.{toy_digest}
use playbook_redline.Canonical.Hash.{hash_obj, sha256_bytes}
use playbook_redline.Canonical.Dump.{canonical_bytes}
use playbook_redline.Base.{append, take_text}
use playbook_redline.Approvals.{
  ReleaseRow, row_of, find_row, get_release_candidate, consume_row, consume_open,
  consume_release_approval,
}
use playbook_redline.Approvals.SingleUse.{Synced, consume_once, consume_others}

abbrev job : String → String → ReleaseJob
job id now = new_job id "rel-1" showcase_order "sha256:1" end none "ana" now

abbrev two_jobs : List ReleaseJob
two_jobs = job "job-1" "2026-06-10T00:00:00Z" ∷ job "job-2" "2026-06-11T00:00:00Z" ∷ []

insert_first :
    insert_job (job "job-1" "2026-06-10T00:00:00Z") []
    ≡ some (job "job-1" "2026-06-10T00:00:00Z" ∷ [])
unfolding insert_job
insert_first = refl

insert_second :
    insert_job (job "job-2" "2026-06-11T00:00:00Z") (job "job-1" "2026-06-10T00:00:00Z" ∷ [])
    ≡ some two_jobs
unfolding insert_job
insert_second = refl

abbrev after_one : List ReleaseJob
after_one = (claim_next_release_job "2026-06-12T00:00:00Z" two_jobs).0

claim_first :
    claim_next_release_job "2026-06-12T00:00:00Z" two_jobs
    ≡ (after_one, some (job "job-1" "2026-06-10T00:00:00Z"))
unfolding claim_next_release_job oldest_queued
claim_first = refl

abbrev after_two : List ReleaseJob
after_two = (claim_next_release_job "2026-06-12T01:00:00Z" after_one).0

claim_second :
    claim_next_release_job "2026-06-12T01:00:00Z" after_one
    ≡ (after_two, some (job "job-2" "2026-06-11T00:00:00Z"))
unfolding claim_next_release_job oldest_queued start_job
claim_second = refl

failed-queued : failed ≢ queued
failed-queued e = cc

history : History ("job-2" ∷ "job-1" ∷ []) after_two
history =
    claimed
      (claimed
        (inserted (inserted opened (job "job-1" "2026-06-10T00:00:00Z") insert_first)
          (job "job-2" "2026-06-11T00:00:00Z") insert_second)
        "2026-06-12T00:00:00Z" (job "job-1" "2026-06-10T00:00:00Z") claim_first)
      "2026-06-12T01:00:00Z" (job "job-2" "2026-06-11T00:00:00Z") claim_second

History-NoRepeat_example : NoRepeat ("job-2" ∷ "job-1" ∷ [])
History-NoRepeat_example = History-NoRepeat history

abbrev release : String → ReleaseCandidate
release id = record {
  release_id = id;
  strategy_id = "strategy-1";
  version_id = "v1";
  state = draft;
  release_tier = l0;
  created_by = "ana";
  metadata = end;
  run_id = none;
  redline_reason_code = none;
  redline_receipt_hash = none;
  redline_report_hash = none;
  simulation_evidence = none;
  simulation_evidence_hash = none;
  risk_policy = none;
  risk_policy_hash = none;
  approval = some (field "nonce" (str "n-1") (field "consumed_at" null end));
  execution_run_id = none;
  execution_evidence = none;
  evidence_manifest = none;
  evidence_manifest_hash = none;
  reject_reason = none;
  killed_at = none;
  created_at = "2026-06-10T00:00:00Z";
  updated_at = "2026-06-10T00:00:00Z";
}

abbrev rows : List ReleaseRow
rows = row_of (release "rel-1") ∷ row_of (release "rel-2") ∷ []

rows-Synced : All Synced rows
unfolding row_of
rows-Synced = (refl, (refl, tt))

abbrev used : List ReleaseRow
used = (consume_release_approval "rel-1" "n-1" "2026-06-12T00:00:00Z" rows).0

abbrev used_release : ReleaseCandidate
used_release = record (release "rel-1") {
  approval = some (
      set_field "consumed_at" (str "2026-06-12T00:00:00Z")
        (field "nonce" (str "n-1") (field "consumed_at" null end)));
  updated_at = "2026-06-12T00:00:00Z";
}

use_once :
    consume_release_approval "rel-1" "n-1" "2026-06-12T00:00:00Z" rows ≡ (used, some used_release)
unfolding consume_release_approval consume_open consume_row find_row get_release_candidate row_of
use_once = refl

consume_once_example :
    consume_release_approval "rel-1" "n-1" "2026-06-13T00:00:00Z" used ≡ (used, none)
consume_once_example =
    consume_once "rel-1" "n-1" "2026-06-12T00:00:00Z" rows used used_release "n-1"
      "2026-06-13T00:00:00Z" rows-Synced use_once

other_id : ◌≢◌ {A = String} "rel-2" "rel-1"
other_id e = false≢true ((eq_iff "rel-2" "rel-1").1 e)

consume_others_example : find_row "rel-2" used ≡ find_row "rel-2" rows
consume_others_example =
    consume_others "rel-1" "n-1" "2026-06-12T00:00:00Z" rows used used_release "rel-2" other_id
      use_once

abbrev release_of : String → String
release_of job_id = "rel-1"

abbrev queued_event : ReleaseJobEvent
queued_event = new_event toy_digest "2026-06-12T00:00:00Z" "rel-1" "job-1" "queued" end none

abbrev other_event : ReleaseJobEvent
other_event = new_event toy_digest "2026-06-12T01:00:00Z" "rel-1" "job-2" "queued" end none

abbrev two_events : List ReleaseJobEvent
two_events = queued_event ∷ other_event ∷ []

append_first :
    append_release_job_event toy_digest "2026-06-12T00:00:00Z" "rel-1" "job-1" "queued" end []
    ≡ some (queued_event ∷ [], queued_event)
unfolding append_release_job_event has_event_id last_event of_job
append_first = refl

append_second :
    append_release_job_event toy_digest "2026-06-12T01:00:00Z" "rel-1" "job-2" "queued" end
      (queued_event ∷ [])
    ≡ some (two_events, other_event)
unfolding append_release_job_event has_event_id last_event sealed new_event of_job hash_obj
    sha256_bytes append take_text canonical_bytes
append_second = refl

two_events-Appended : Appended toy_digest release_of two_events
two_events-Appended =
    one_more (one_more no_events "2026-06-12T00:00:00Z" "job-1" "queued" end append_first)
      "2026-06-12T01:00:00Z" "job-2" "queued" end append_second

list_release_job_events_lem_example :
    list_release_job_events toy_digest "rel-1" "job-2" two_events ≡ some (of_job "job-2" two_events)
list_release_job_events_lem_example =
    list_release_job_events_lem toy_digest release_of two_events-Appended "job-2"
