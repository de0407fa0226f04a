-- ===== src/Tests/Tamper.antt =====
-- Ledgers and job events with one last hash.
use playbook_redline.Base.{
  ℕ, String, ◌≡◌, ◌≢◌, refl, ap, ◌⊎◌, none, some, List, [], ◌∷◌, append, codes, arith, take_text,
}
use playbook_redline.Canonical.{Json, Fields, end}
use playbook_redline.Canonical.Dump.{canonical_bytes}
use playbook_redline.Canonical.Hash.{Collision, genesis, hash_obj, sha256_bytes}
use playbook_redline.HashChain.{bodies, end_hash}
use playbook_redline.Verdict.Decide.{strip_prefix}
use playbook_redline.Ledger.{LedgerReceipt, Disk, blank, ok, read_from, atomic_write_receipt}
use playbook_redline.Ledger.Issue.{Issued, start, issued}
use playbook_redline.Ledger.Reroll.{Issued-readable, issue_iff_Fresh}
use playbook_redline.Ledger.Tamper.{ledger_entry, tail_hash-inj}
use playbook_redline.Jobs.Events.{
  ReleaseJobEvent, of_job, last_event, append_release_job_event, has_event_id, sealed, new_event,
}
use playbook_redline.Jobs.Events.Listing.{
  Appended, no_events, one_more, list_release_job_events_lem,
}
use playbook_redline.Jobs.Events.Tamper.{event_entry, list_release_job_events-inj}
use playbook_redline.Verdict.{pass}
use playbook_redline.Execution.{Outcome}
use playbook_redline.Execution.Ledger.{
  ExecutionLedgerEntry, File, holding, LedgerLine, execution_ledger_entry_hash, chained, load_from,
  load_execution_ledger,
}
use playbook_redline.Execution.Ledger.Chain.{execution_entry, load_execution_ledger-inj}
use playbook_redline.Tests.{toy_digest}

-- A digest that is never the word `genesis`.
abbrev marked_digest : List ℕ → String
marked_digest text = append "x" (toy_digest text)

abbrev first_code : List ℕ → ℕ
first_code [] = 0
first_code (c ∷ r) = c

not_genesis : (j : Json) → hash_obj marked_digest j ≢ genesis
unfolding hash_obj append
not_genesis j e =
    let same = ap (λ (s : String). first_code (codes (strip_prefix s))) e in omega (arith, same)

abbrev receipt : LedgerReceipt
receipt = record {
  package_identity_hash = "sha256:1";
  candidate_package_hash = "sha256:2";
  suite_lock_hash = "sha256:3";
  spec_hash = "sha256:4";
  status = "pass";
  receipt_hash = "sha256:5";
}

abbrev empty_disk : Disk
empty_disk = record { receipt = none; ledger = [] }

abbrev one : Disk
one = (atomic_write_receipt marked_digest empty_disk receipt none).0

one-Issued : Issued marked_digest (receipt ∷ []) one
one-Issued =
    issued (start empty_disk refl) receipt none
      ((issue_iff_Fresh marked_digest (start empty_disk refl) receipt none).1 tt)

abbrev entries : List Fields
entries = (Issued-readable marked_digest one-Issued).0

readable : read_from marked_digest genesis one.ledger ≡ ok entries
readable = (Issued-readable marked_digest one-Issued).1

readable_after_blank : read_from marked_digest genesis (blank ∷ one.ledger) ≡ ok entries
unfolding read_from
readable_after_blank = readable

tail_hash-inj_example :
    (bodies ledger_entry entries ≡ bodies ledger_entry entries) ⊎ Collision marked_digest
tail_hash-inj_example =
    tail_hash-inj marked_digest not_genesis one.ledger (blank ∷ one.ledger) entries entries readable
      readable_after_blank refl

abbrev release_of : String → String
release_of job_id = "rel-1"

abbrev queued_event : ReleaseJobEvent
queued_event = new_event marked_digest "2026-06-12T00:00:00Z" "rel-1" "job-1" "queued" end none

abbrev other_event : ReleaseJobEvent
other_event = new_event marked_digest "2026-06-12T01:00:00Z" "rel-1" "job-2" "queued" end none

abbrev one_event : List ReleaseJobEvent
one_event = queued_event ∷ []

abbrev two_events : List ReleaseJobEvent
two_events = queued_event ∷ other_event ∷ []

append_first :
    append_release_job_event marked_digest "2026-06-12T00:00:00Z" "rel-1" "job-1" "queued" end []
    ≡ some (one_event, queued_event)
unfolding append_release_job_event has_event_id last_event of_job
append_first = refl

append_second :
    append_release_job_event marked_digest "2026-06-12T01:00:00Z" "rel-1" "job-2" "queued" end
      one_event
    ≡ some (two_events, other_event)
unfolding append_release_job_event has_event_id last_event sealed new_event of_job hash_obj
    sha256_bytes append take_text canonical_bytes
append_second = refl

one_event-Appended : Appended marked_digest release_of one_event
one_event-Appended = one_more no_events "2026-06-12T00:00:00Z" "job-1" "queued" end append_first

two_events-Appended : Appended marked_digest release_of two_events
two_events-Appended =
    one_more one_event-Appended "2026-06-12T01:00:00Z" "job-2" "queued" end append_second

same_end :
    end_hash event_entry genesis (of_job "job-1" one_event)
    ≡ end_hash event_entry genesis (of_job "job-1" two_events)
unfolding of_job new_event sealed
same_end = refl

list_release_job_events-inj_example :
    (bodies event_entry (of_job "job-1" one_event) ≡ bodies event_entry (of_job "job-1" two_events))
    ⊎ Collision marked_digest
list_release_job_events-inj_example =
    list_release_job_events-inj marked_digest not_genesis "rel-1" "job-1" "rel-1" "job-1" one_event
      two_events (of_job "job-1" one_event) (of_job "job-1" two_events)
      (list_release_job_events_lem marked_digest release_of one_event-Appended "job-1")
      (list_release_job_events_lem marked_digest release_of two_events-Appended "job-1") same_end

abbrev placed : ExecutionLedgerEntry
placed = record {
  run_id = "run-1";
  receipt_hash = "sha256:5";
  issuance_ledger_entry_hash = some "sha256:6";
  issuance_checkpoint_hash = some "sha256:7";
  approval_hash = some "sha256:unapproved";
  verdict = pass;
  client_oid = "rl-1";
  bitget_order_id = "42";
  response_hash = "sha256:8";
  placed_at = "2026-06-12T00:00:00Z";
  previous_entry_hash = genesis;
  entry_hash = "";
}

abbrev placed_entry : ExecutionLedgerEntry
placed_entry = record placed { entry_hash = execution_ledger_entry_hash marked_digest placed }

abbrev orders_file : File (List LedgerLine)
orders_file = holding (LedgerLine.entry placed_entry ∷ [])

abbrev spaced_file : File (List LedgerLine)
spaced_file = holding (LedgerLine.blank ∷ LedgerLine.entry placed_entry ∷ [])

orders_loaded : load_execution_ledger marked_digest orders_file ≡ Outcome.ok (placed_entry ∷ [])
unfolding load_execution_ledger load_from chained execution_ledger_entry_hash hash_obj sha256_bytes
    append canonical_bytes take_text
orders_loaded = refl

spaced_loaded : load_execution_ledger marked_digest spaced_file ≡ Outcome.ok (placed_entry ∷ [])
unfolding load_execution_ledger load_from
spaced_loaded = orders_loaded

load_execution_ledger-inj_example :
    (bodies execution_entry (placed_entry ∷ []) ≡ bodies execution_entry (placed_entry ∷ []))
    ⊎ Collision marked_digest
load_execution_ledger-inj_example =
    load_execution_ledger-inj marked_digest not_genesis orders_file spaced_file (placed_entry ∷ [])
      (placed_entry ∷ []) orders_loaded spaced_loaded refl
