-- ===== src/Bundle/Links.antt =====
-- src/redline/service/release.py: the links of a bundle from the receipt to the approval, the order,
-- the checkpoint and the issuance ledger. `LedgerCheckpoint.model_validate` is the parameter
-- `validate`; `none` is its ValidationError.
use playbook_redline.Base.{
  ℕ, String, Bool, true, false, not, ◌&&◌, ◌||◌, Option, none, some, List, [], ◌∷◌, map, str_eq,
  if◌then◌else◌,
}
use playbook_redline.Canonical.{
  Json, null, bool, int, str, arr, obj, Items, nil, cons, Fields, end, field,
}
use playbook_redline.Canonical.Dict.{get}
use playbook_redline.Canonical.Hash.{genesis, hash_obj}
use playbook_redline.Merkle.{merkle_root}
use playbook_redline.Ledger.{without, is_str}
use playbook_redline.Execution.Link.{
  ReadCheckpoint, covers_receipt, same_root, compute_ledger_checkpoint_hash,
}
use playbook_redline.Bundle.{
  canonicalization_error, other_error, Answer, passed, failed, uncaught, ◌>>=◌, ◌>>◌, BundleCheck,
  require, receipt_mismatch, verification_detail, bundle_mapping, bundle_hash_string,
  bundle_artifact_content,
}
use playbook_redline.Bundle.Equality.{py_equal}

-- `receipt.get` on what is no dict raises AttributeError, which is not caught.
abbrev pub as_dict : Json → Answer Fields
as_dict (obj fields) = passed fields
as_dict _ = uncaught

-- `value not in {None, receipt_hash}`: a list or a dict has no hash.
abbrev pub release_receipt : Option Json → String → Answer (Unit {0})
release_receipt none receipt_hash = passed tt
release_receipt (some null) receipt_hash = passed tt
release_receipt (some (str text)) receipt_hash =
    require (str_eq text receipt_hash) (receipt_mismatch "release receipt link mismatch")
release_receipt (some (bool b)) receipt_hash =
    failed (receipt_mismatch "release receipt link mismatch")
release_receipt (some (int n)) receipt_hash =
    failed (receipt_mismatch "release receipt link mismatch")
release_receipt (some _) receipt_hash = failed (other_error "TypeError")

-- `_check_chain_receipt_link`.
unfoldable pub check_chain_receipt_link : Fields → Answer String
check_chain_receipt_link bundle = bundle_mapping bundle "redline" >>= λ redline.
    bundle_mapping bundle "release_candidate" >>= λ release.
    bundle_artifact_content bundle "receipt" >>= λ content.
    bundle_hash_string redline "receipt_hash" "receipt hash" >>= λ receipt_hash.
    as_dict content >>= λ receipt.
    require (is_str (get receipt "receipt_hash") receipt_hash)
      (receipt_mismatch "receipt link mismatch")
    >> release_receipt (get release "redline_receipt_hash") receipt_hash
    >> passed receipt_hash

-- `if "consumed_at" in payload: payload["consumed_at"] = None`.
abbrev pub without_consumption : Fields → Fields
without_consumption end = end
without_consumption (field k v fs) =
    if str_eq k "consumed_at" then field k null fs else field k v (without_consumption fs)

abbrev pub approval_in : Option Json → Answer Fields
approval_in (some (obj approval)) = passed approval
approval_in _ = failed (canonicalization_error "DATA_MISSING" "approval link is missing")

-- A decision record holds the same approval.
abbrev pub decided : Option Json → Fields → Bool
decided (some (obj decision)) approval = elim (get decision "approval") [
  | none ↦ false
  | some found ↦ py_equal found (obj approval)
]
decided _ approval = true

abbrev pub ledger_of : Json → Answer Items
ledger_of (arr items) = passed items
ledger_of _ = failed (canonicalization_error "SCHEMA_INVALID" "checkpoint ledger link is invalid")

abbrev pub validated : Option ReadCheckpoint → Answer ReadCheckpoint
validated (some read) = passed read
validated none = failed (other_error "ValidationError")

abbrev pub matched : Option String → Answer String
matched (some entry_hash) = passed entry_hash
matched none = failed (canonicalization_error "DATA_MISSING" "checkpoint ledger entry is missing")

module _ (digest : List ℕ → String) where
  -- `approval_record_hash`.
  unfoldable pub approval_record_hash : Fields → String
  approval_record_hash approval = hash_obj digest (obj (without_consumption approval))

  -- `_check_chain_approval_link`.
  unfoldable pub check_chain_approval_link : Fields → Answer String
  check_chain_approval_link bundle = bundle_mapping bundle "release_candidate" >>= λ release.
      bundle_mapping bundle "execution_evidence" >>= λ execution.
      approval_in (get release "approval") >>= λ approval.
      require (is_str (get execution "approval_hash") (approval_record_hash approval))
        (receipt_mismatch "approval link mismatch")
      >> require (decided (get bundle "release_decision_record") approval)
          (receipt_mismatch "approval decision record mismatch")
      >> passed (approval_record_hash approval)

  -- `_check_chain_execution_link`.
  unfoldable pub check_chain_execution_link : Fields → Answer String
  check_chain_execution_link bundle = bundle_mapping bundle "redline" >>= λ redline.
      bundle_mapping bundle "execution_evidence" >>= λ execution.
      bundle_artifact_content bundle "execution-evidence" >>= λ artifact.
      bundle_hash_string redline "receipt_hash" "receipt hash" >>= λ receipt_hash.
      require (is_str (get execution "receipt_hash") receipt_hash)
        (receipt_mismatch "execution receipt link mismatch")
      >> require (py_equal artifact (obj execution))
          (receipt_mismatch "execution artifact copy mismatch")
      >> require
          (is_str (get execution "artifact_hash")
            (hash_obj digest (obj (without "artifact_hash" execution))))
          (receipt_mismatch "execution evidence hash mismatch")
      >> passed (hash_obj digest (obj (without "artifact_hash" execution)))

  -- The loop of `_matching_issuance_entry`: the hash before, and that of the last match.
  unfoldable pub match_from : String → String → Option String → Items → Answer String
  match_from receipt_hash previous match nil = matched match
  match_from receipt_hash previous match (cons (obj entry) entries) =
      let own = hash_obj digest (obj (without "entry_hash" entry)) in
      let rest =
        match_from receipt_hash own
          (if is_str (get entry "receipt_hash") receipt_hash then some own else match) entries in
      if is_str (get entry "previous_entry_hash") previous && is_str (get entry "entry_hash") own
      then rest
      else failed (receipt_mismatch "checkpoint ledger chain mismatch")
  match_from receipt_hash previous match (cons _ entries) =
      failed (canonicalization_error "SCHEMA_INVALID" "issuance ledger entry is invalid")

  -- `_matching_issuance_entry`, the hash of the entry.
  unfoldable pub matching_issuance_entry : Items → String → Answer String
  unfolding match_from
  matching_issuance_entry entries receipt_hash = match_from receipt_hash genesis none entries

  module _ (validate : Json → Option ReadCheckpoint) where
    -- `_check_chain_checkpoint_link`.
    unfoldable pub check_chain_checkpoint_link : Fields → Answer String
    check_chain_checkpoint_link bundle = bundle_mapping bundle "redline" >>= λ redline.
        bundle_mapping bundle "execution_evidence" >>= λ execution.
        bundle_artifact_content bundle "issuance-ledger-checkpoint" >>= λ payload.
        bundle_artifact_content bundle "issuance-ledger" >>= λ content.
        ledger_of content >>= λ entries. validated (validate payload) >>= λ read.
        require
          (str_eq read.checkpoint.checkpoint_hash (compute_ledger_checkpoint_hash digest read))
          (receipt_mismatch "checkpoint hash mismatch")
        >> require
            (not read.has_merkle_root
              || same_root (merkle_root digest (map str read.checkpoint.subject_receipt_hashes))
                  read.checkpoint.merkle_root)
            (receipt_mismatch "checkpoint merkle root mismatch")
        >> bundle_hash_string redline "receipt_hash" "receipt hash"
        >>= λ receipt_hash.
            require (covers_receipt receipt_hash read.checkpoint.subject_receipt_hashes)
              (receipt_mismatch "checkpoint does not cover receipt")
            >> require
                (is_str (get execution "issuance_checkpoint_hash") read.checkpoint.checkpoint_hash)
                (receipt_mismatch "checkpoint execution link mismatch")
            >> matching_issuance_entry entries receipt_hash
            >>= λ entry_hash.
                require (is_str (get execution "issuance_ledger_entry_hash") entry_hash)
                  (receipt_mismatch "checkpoint ledger entry link mismatch")
                >> passed read.checkpoint.checkpoint_hash

    -- One round of the loop; `none` is an exception that is not caught.
    abbrev pub report :
        String → Answer String → Option (List BundleCheck) → Option (List BundleCheck)
    report name (passed detail) (some checks) =
        some (record { name = name; ok = true; detail = detail } ∷ checks)
    report name (failed fault) (some checks) =
        some (record { name = name; ok = false; detail = verification_detail fault } ∷ checks)
    report name uncaught checks = none
    report name _ none = none

    -- `_verify_bundle_chain_links`: the checks that it appends.
    unfoldable pub verify_bundle_chain_links : Fields → Option (List BundleCheck)
    verify_bundle_chain_links bundle =
        report "chain-receipt-link" (check_chain_receipt_link bundle) (
          report "chain-approval-link" (check_chain_approval_link bundle) (
            report "chain-execution-link" (check_chain_execution_link bundle)
              (report "chain-checkpoint-link" (check_chain_checkpoint_link bundle) (some []))))
