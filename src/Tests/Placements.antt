-- ===== src/Tests/Placements.antt =====
-- Orders put down in a ledger and in evidence files.
use playbook_redline.Base.{
  String, ◌≡◌, refl, ◌⊎◌, true, false, Option, none, some, List, [], ◌∷◌, append, take_text,
}
use playbook_redline.Canonical.{str, obj}
use playbook_redline.Canonical.Dump.{canonical_bytes}
use playbook_redline.Canonical.Hash.{Collision, genesis, hash_obj, sha256_bytes}
use playbook_redline.Merkle.{merkle_root, root_of, leaf_hash}
use playbook_redline.Trust.{LedgerCheckpoint}
use playbook_redline.Verdict.{pass}
use playbook_redline.Ledger.{
  LedgerReceipt, parsed, new_entry, ledger_key_hash, links, without, expected_entry_hash,
}
use playbook_redline.Execution.{ExecutionIntent, ok}
use playbook_redline.Execution.Order.{BitgetOrderPlacement}
use playbook_redline.Execution.Ledger.{
  ExecutionLedgerEntry, missing, holding, LedgerLine, mismatch, execution_ledger_entry_hash,
  chained, load_from, load_execution_ledger,
}
use playbook_redline.Execution.Link.{
  ReadCheckpoint, IssuanceArtifacts, IssuanceLink, find_entry, find_issuance_entry_hash,
  compute_ledger_checkpoint_hash, check_file, check_checkpoint, find_issuance_checkpoint_hash,
  resolve_issuance_link,
}
use playbook_redline.Execution.Evidence.{
  ExecutionDisk, Recording, sealed_entry, new_evidence, next_entry, append_order, store_evidence,
  write_execution_evidence_artifacts,
}
use playbook_redline.Execution.Evidence.Records.{Good}
use playbook_redline.Execution.Evidence.Cases.{is_ok}
use playbook_redline.Execution.Evidence.Invariant.{
  Recorded, start, called, stopped, Recorded-Good, write_execution_evidence_artifacts_again,
}
use playbook_redline.Execution.Evidence.Book.{record_order, link_result, shown, view}
use playbook_redline.Execution.Evidence.Refinement.{shown-record_order}
use playbook_redline.Execution.Evidence.Rewrite.{append_order-mismatch}
use playbook_redline.Tests.{toy_digest}

abbrev issuance_receipt : LedgerReceipt
issuance_receipt = record {
  package_identity_hash = "sha256:1";
  candidate_package_hash = "sha256:2";
  suite_lock_hash = "sha256:3";
  spec_hash = "sha256:4";
  status = "pass";
  receipt_hash = "sha256:5";
}

abbrev root_hash : Option String → String
root_hash none = ""
root_hash (some h) = h

abbrev unsigned : LedgerCheckpoint
unsigned = record {
  ledger_path = "issuance-ledger.jsonl";
  ledger_hash = "sha256:file";
  ledger_tail_hash = "sha256:tail";
  ledger_entry_count = 1;
  subject_receipt_hashes = "sha256:5" ∷ [];
  merkle_root = root_hash (merkle_root toy_digest (str "sha256:5" ∷ []));
  anchor_kind = "local-artifact";
  checkpoint_hash = "";
}

abbrev signed : ReadCheckpoint
signed = record {
  checkpoint = record unsigned {
    checkpoint_hash =
        compute_ledger_checkpoint_hash toy_digest
          (record { checkpoint = unsigned; has_merkle_root = true });
  };
  has_merkle_root = true;
}

abbrev artifacts : IssuanceArtifacts
artifacts = record {
  ledger = holding (parsed (obj (new_entry toy_digest issuance_receipt genesis none)) ∷ []);
  ledger_file_hash = some "sha256:file";
  checkpoint = holding signed;
}

abbrev link : IssuanceLink
link = record {
  issuance_ledger_entry_hash =
      expected_entry_hash toy_digest (new_entry toy_digest issuance_receipt genesis none);
  issuance_checkpoint_hash = signed.checkpoint.checkpoint_hash;
}

abbrev intent : ExecutionIntent
intent = record {
  symbol = "BTCUSDT";
  product_type = "USDT-FUTURES";
  margin_mode = "crossed";
  margin_coin = "USDT";
  size = "0.0001";
  side = "buy";
  trade_side = some "open";
  order_type = "market";
  force = none;
  price = none;
  confirm_mainnet_order = false;
}

abbrev order : BitgetOrderPlacement
order = record {
  client_oid = "rl-1";
  bitget_order_id = "42";
  response_hash = "sha256:6";
  placed_at = "2026-06-12T00:00:00Z";
  status_code = 200;
}

abbrev first : Recording
first = record {
  run_id = "run-1";
  evidence_path = "run-1/execution-evidence.json";
  receipt_hash = "sha256:5";
  verdict = pass;
  intent = intent;
  order = order;
  order_mode = "demo";
  paptrading = some "1";
  issuance = artifacts;
  issuance_ledger_entry_hash = none;
  issuance_checkpoint_hash = none;
  approval_hash = "sha256:approval";
}

-- Another order of the same ledger, whose caller gives the link.
abbrev second : Recording
second = record first {
  evidence_path = "run-2/execution-evidence.json";
  order = record order { client_oid = "rl-2"; bitget_order_id = "43" };
  issuance_ledger_entry_hash = some "sha256:7";
  issuance_checkpoint_hash = some "sha256:8";
}

abbrev empty : ExecutionDisk
empty = record { evidence = λ path. missing; ledger = missing }

empty-Recorded : Recorded toy_digest empty
empty-Recorded = start empty refl (λ path. refl)

abbrev one : ExecutionDisk
one = (write_execution_evidence_artifacts toy_digest first empty).0

one-Recorded : Recorded toy_digest one
one-Recorded = called empty-Recorded first

free : one.evidence second.evidence_path ≡ missing
unfolding write_execution_evidence_artifacts append_order load_execution_ledger next_entry
    resolve_issuance_link find_issuance_entry_hash find_entry new_entry ledger_key_hash links
    expected_entry_hash without hash_obj sha256_bytes append canonical_bytes take_text
    find_issuance_checkpoint_hash check_checkpoint check_file compute_ledger_checkpoint_hash
    merkle_root root_of leaf_hash store_evidence
free = refl

Recorded-Good_example :
    (entries : List ExecutionLedgerEntry) × Good toy_digest entries
      (append_order toy_digest second one).0
Recorded-Good_example = Recorded-Good toy_digest (stopped one-Recorded second free)

shown-record_order_example :
    shown toy_digest (write_execution_evidence_artifacts toy_digest second one)
    ≡ record_order "run-2/execution-evidence.json"
        ("sha256:5", "rl-2")
        (is_ok (link_result toy_digest second))
        (view toy_digest one)
shown-record_order_example = shown-record_order toy_digest one-Recorded second

abbrev first_entry : ExecutionLedgerEntry
first_entry = sealed_entry toy_digest first genesis link

returned :
    (write_execution_evidence_artifacts toy_digest first empty).1
    ≡ ok (new_evidence toy_digest first first_entry)
unfolding write_execution_evidence_artifacts append_order load_execution_ledger next_entry
    resolve_issuance_link find_issuance_entry_hash find_entry new_entry ledger_key_hash links
    expected_entry_hash without hash_obj sha256_bytes append canonical_bytes take_text
    find_issuance_checkpoint_hash check_checkpoint check_file compute_ledger_checkpoint_hash
    merkle_root root_of leaf_hash store_evidence sealed_entry
returned = refl

-- The same order, as another run would put it down.
abbrev repeated : Recording
repeated = record first { run_id = "run-9"; approval_hash = "sha256:other" }

write_execution_evidence_artifacts_again_example :
    write_execution_evidence_artifacts toy_digest repeated one
    ≡ (one, ok (new_evidence toy_digest first first_entry))
write_execution_evidence_artifacts_again_example =
    write_execution_evidence_artifacts_again toy_digest empty-Recorded first repeated
      (new_evidence toy_digest first first_entry) returned refl refl refl

-- An entry as it was written before the link fields were there.
abbrev old_payload : ExecutionLedgerEntry
old_payload = record {
  run_id = "run-0";
  receipt_hash = "sha256:0";
  issuance_ledger_entry_hash = none;
  issuance_checkpoint_hash = none;
  approval_hash = none;
  verdict = pass;
  client_oid = "rl-0";
  bitget_order_id = "41";
  response_hash = "sha256:9";
  placed_at = "2026-01-01T00:00:00Z";
  previous_entry_hash = genesis;
  entry_hash = "";
}

abbrev old_entry : ExecutionLedgerEntry
old_entry = record old_payload { entry_hash = execution_ledger_entry_hash toy_digest old_payload }

abbrev old_disk : ExecutionDisk
old_disk = record { evidence = λ path. missing; ledger = holding (LedgerLine.entry old_entry ∷ []) }

old_loaded : load_execution_ledger toy_digest old_disk.ledger ≡ ok (old_entry ∷ [])
unfolding load_execution_ledger load_from chained execution_ledger_entry_hash hash_obj sha256_bytes
    append canonical_bytes take_text
old_loaded = refl

appends : is_ok (append_order toy_digest second old_disk).1 ≡ true
unfolding append_order load_execution_ledger load_from chained execution_ledger_entry_hash
    next_entry resolve_issuance_link hash_obj sha256_bytes append canonical_bytes take_text
appends = refl

append_order-mismatch_example :
    (load_execution_ledger toy_digest (append_order toy_digest second old_disk).0.ledger ≡ mismatch)
    ⊎ Collision toy_digest
append_order-mismatch_example =
    append_order-mismatch toy_digest old_disk second (old_entry ∷ []) old_loaded refl appends
