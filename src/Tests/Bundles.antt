-- ===== src/Tests/Bundles.antt =====
-- A bundle whose links hold, and one whose receipt is a list.
use playbook_redline.Base.{
  String, ◌≡◌, ◌≢◌, refl, ◌↔◌, true, Option, none, some, List, [], ◌∷◌, append, take_text,
}
use playbook_redline.Canonical.{Json, str, arr, obj, nil, cons, Fields, end, field}
use playbook_redline.Canonical.Dump.{canonical_bytes}
use playbook_redline.Canonical.Hash.{genesis, hash_obj, sha256_bytes}
use playbook_redline.Merkle.{merkle_root, root_of, leaf_hash}
use playbook_redline.Ledger.{without}
use playbook_redline.Trust.{LedgerCheckpoint}
use playbook_redline.Execution.Link.{ReadCheckpoint, compute_ledger_checkpoint_hash}
use playbook_redline.Bundle.{
  BundleCheck, require, bundle_mapping, bundle_hash_string, find_content, artifact_of,
  bundle_artifact_content,
}
use playbook_redline.Bundle.Equality.{same_value, py_equal}
use playbook_redline.Bundle.Links.{
  approval_record_hash, match_from, matching_issuance_entry, check_chain_receipt_link,
  check_chain_approval_link, check_chain_execution_link, check_chain_checkpoint_link,
  verify_bundle_chain_links,
}
use playbook_redline.Bundle.Bound.{Bound, verify_bundle_chain_links-Bound}
use playbook_redline.Bundle.Crash.{BadReceipt, verify_bundle_chain_links_iff}
use playbook_redline.Execution.{Outcome}
use playbook_redline.Execution.Ledger.{File, holding, unreadable, missing}
use playbook_redline.Execution.Sidecars.{
  BitgetExchangePreflightEvidence, preflight_json, load_exchange_preflight_evidence,
  load_order_status_evidence,
}
use playbook_redline.Execution.Status.{BitgetOrderStatusEvidence}
use playbook_redline.Bundle.{Answer, passed}
use playbook_redline.Bundle.Sidecars.{
  SidecarFiles, run_bundle_check, preflight_check, verify_bundle_execution_sidecars,
}
use playbook_redline.Bundle.Dropped.{run_bundle_check_drops}
use playbook_redline.Tests.{toy_digest}

abbrev root_text : Option String → String
root_text none = ""
root_text (some h) = h

abbrev unsealed_checkpoint : LedgerCheckpoint
unsealed_checkpoint = record {
  ledger_path = "issuance-ledger.jsonl";
  ledger_hash = "sha256:file";
  ledger_tail_hash = "sha256:tail";
  ledger_entry_count = 1;
  subject_receipt_hashes = "sha256:5" ∷ [];
  merkle_root = root_text (merkle_root toy_digest (str "sha256:5" ∷ []));
  anchor_kind = "local-artifact";
  checkpoint_hash = "";
}

abbrev sealed_checkpoint : ReadCheckpoint
sealed_checkpoint = record {
  checkpoint = record unsealed_checkpoint {
    checkpoint_hash =
        compute_ledger_checkpoint_hash toy_digest
          (record { checkpoint = unsealed_checkpoint; has_merkle_root = true });
  };
  has_merkle_root = true;
}

abbrev validate : Json → Option ReadCheckpoint
validate (obj fields) = some sealed_checkpoint
validate _ = none

abbrev issued_fields : Fields → Fields
issued_fields more =
    field "receipt_hash" (str "sha256:5") (field "previous_entry_hash" (str genesis) more)

abbrev issued_hash : String
issued_hash = hash_obj toy_digest (obj (issued_fields end))

abbrev approval : Fields
approval = field "nonce" (str "n-1") (field "approved_by" (str "reviewer") end)

abbrev order_fields : Fields → Fields
order_fields more = field "receipt_hash" (str "sha256:5") (
    field "approval_hash" (str (approval_record_hash toy_digest approval)) (
      field "issuance_ledger_entry_hash" (str issued_hash)
        (field "issuance_checkpoint_hash" (str sealed_checkpoint.checkpoint.checkpoint_hash) more)))

abbrev order : Fields
order =
    order_fields (field "artifact_hash" (str (hash_obj toy_digest (obj (order_fields end)))) end)

abbrev artifact : String → Json → Json
artifact id content = obj (field "artifact_id" (str id) (field "content" content end))

abbrev bundle_with : Json → Fields
bundle_with receipt =
    field "redline"
      (obj (
        field "receipt_hash" (str "sha256:5") (
          field "artifacts"
            (arr (
              cons (artifact "receipt" receipt) (
                cons (artifact "execution-evidence" (obj order)) (
                  cons (artifact "issuance-ledger-checkpoint" (obj end)) (
                    cons
                      (artifact "issuance-ledger" (
                        arr (
                          cons (obj (issued_fields (field "entry_hash" (str issued_hash) end)))
                            nil)))
                      nil)))))
            end)))
      (field "release_candidate" (obj (field "approval" (obj approval) end))
        (field "execution_evidence" (obj order) end))

abbrev good_bundle : Fields
good_bundle = bundle_with (obj (field "receipt_hash" (str "sha256:5") end))

abbrev good_checks : List BundleCheck
good_checks =
    record { name = "chain-receipt-link"; ok = true; detail = "sha256:5" }
    ∷ record {
      name = "chain-approval-link";
      ok = true;
      detail = approval_record_hash toy_digest approval;
    }
    ∷ record {
      name = "chain-execution-link";
      ok = true;
      detail = hash_obj toy_digest (obj (order_fields end));
    }
    ∷ record {
      name = "chain-checkpoint-link";
      ok = true;
      detail = sealed_checkpoint.checkpoint.checkpoint_hash;
    }
    ∷ []

good_reported : verify_bundle_chain_links toy_digest validate good_bundle ≡ some good_checks
unfolding verify_bundle_chain_links check_chain_receipt_link check_chain_approval_link
    check_chain_execution_link check_chain_checkpoint_link require bundle_mapping bundle_hash_string
    find_content artifact_of bundle_artifact_content same_value py_equal approval_record_hash
    match_from matching_issuance_entry merkle_root root_of leaf_hash compute_ledger_checkpoint_hash
    hash_obj sha256_bytes append canonical_bytes take_text without
good_reported = refl

verify_bundle_chain_links-Bound_example : Bound toy_digest validate good_bundle
verify_bundle_chain_links-Bound_example =
    verify_bundle_chain_links-Bound toy_digest validate good_bundle good_checks good_reported refl

abbrev bad_bundle : Fields
bad_bundle = bundle_with (arr nil)

verify_bundle_chain_links_iff_example :
    (verify_bundle_chain_links toy_digest validate bad_bundle ≡ none) ↔ BadReceipt bad_bundle
verify_bundle_chain_links_iff_example = verify_bundle_chain_links_iff toy_digest validate bad_bundle

abbrev unsealed_preflight : BitgetExchangePreflightEvidence
unsealed_preflight = record {
  run_id = "run-1";
  receipt_hash = "sha256:5";
  client_oid = "rl-1";
  checked_at = "2026-06-12T00:00:00Z";
  symbol = "BTCUSDT";
  product_type = "USDT-FUTURES";
  margin_coin = "USDT";
  order_mode = "demo";
  paptrading = some "1";
  ok = true;
  checks = nil;
  contract_response_hash = "sha256:6";
  account_response_hash = "sha256:7";
  symbol_status = none;
  min_trade_num = none;
  min_trade_usdt = none;
  price_place = none;
  volume_place = none;
  available = none;
  preflight_hash = "";
}

abbrev preflight : BitgetExchangePreflightEvidence
preflight = record unsealed_preflight {
  preflight_hash = hash_obj toy_digest (preflight_json unsealed_preflight);
}

abbrev torn_files : SidecarFiles
torn_files = record { preflight = holding preflight; order_status = unreadable }

abbrev run_dir : Option Json → Answer SidecarFiles
run_dir run_id = passed torn_files

preflight_loads :
    load_exchange_preflight_evidence toy_digest (holding preflight) ≡ Outcome.ok preflight
unfolding load_exchange_preflight_evidence hash_obj sha256_bytes append canonical_bytes take_text
preflight_loads = refl

status_refused :
    load_order_status_evidence toy_digest unreadable
    ≡ Outcome.blocked "ORDER_STATUS_EVIDENCE_INVALID" "order status evidence artifact is invalid"
unfolding load_order_status_evidence
status_refused = refl

status_there : ◌≢◌ {A = File BitgetOrderStatusEvidence} unreadable missing
status_there e = cc

preflight_there : ◌≢◌ {A = File BitgetExchangePreflightEvidence} (holding preflight) missing
preflight_there e = cc

run_bundle_check_drops_example :
    run_bundle_check "execution-sidecars"
      (verify_bundle_execution_sidecars toy_digest run_dir good_bundle)
      []
    ≡ some (preflight_check preflight ∷ [])
run_bundle_check_drops_example =
    run_bundle_check_drops toy_digest run_dir good_bundle order torn_files []
      "ORDER_STATUS_EVIDENCE_INVALID" "order status evidence artifact is invalid" preflight refl
      refl status_there status_refused preflight_there preflight_loads
