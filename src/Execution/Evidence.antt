-- ===== src/Execution/Evidence.antt =====
-- src/redline/sponsor/bitget_execution.py and src/redline/models.py: execution evidence, one file for
-- a run, and the ledger that its orders share. A write to a file is atomic; a process can stop between
-- two writes. The paths are safe for `reject_unsafe_output_file`.
pub mod Records
pub mod Cases
pub mod Invariant
pub mod Book
pub mod Refinement
pub mod Rewrite
use playbook_redline.Base.{
  ℕ, String, Bool, true, ◌&&◌, Option, none, some, List, [], ◌∷◌, ◌++◌, any, str_eq, if◌then◌else◌,
}
use playbook_redline.Canonical.{Json, null, str, obj, end, field}
use playbook_redline.Canonical.Hash.{genesis, hash_obj}
use playbook_redline.Verdict.{Status}
use playbook_redline.Execution.{
  ExecutionIntent, Outcome, ok, blocked, assertion_error, crash, Action, resume, ◌>>=◌, lift, pure,
}
use playbook_redline.Execution.Outside.{opt_str}
use playbook_redline.Execution.Order.{BitgetOrderPlacement}
use playbook_redline.Execution.Ledger.{
  ExecutionLedgerEntry, File, missing, unreadable, undecodable, holding, LedgerLine, set_only,
  status_text, ledger_text, last_entry_hash, is_order, execution_ledger_entry_hash,
  load_execution_ledger,
}
use playbook_redline.Execution.Link.{IssuanceArtifacts, IssuanceLink, resolve_issuance_link}

pub record ExecutionEvidence : Type 0 where
  pub run_id : String
  pub receipt_hash : String
  pub issuance_ledger_entry_hash : Option String
  pub issuance_checkpoint_hash : Option String
  pub approval_hash : Option String
  pub verdict : Status
  pub client_oid : String
  pub bitget_order_id : String
  pub response_hash : String
  pub placed_at : String
  pub symbol : String
  pub product_type : String
  pub order_mode : String
  pub paptrading : Option String
  pub execution_ledger_entry_hash : String
  pub artifact_hash : String

-- The evidence files by their paths, and the ledger.
pub record ExecutionDisk : Type 0 where
  pub evidence : String → File ExecutionEvidence
  pub ledger : File (List LedgerLine)

-- The arguments of `write_execution_evidence_artifacts`, with what the issuance artifacts hold.
pub record Recording : Type 0 where
  pub run_id : String
  pub evidence_path : String
  pub receipt_hash : String
  pub verdict : Status
  pub intent : ExecutionIntent
  pub order : BitgetOrderPlacement
  pub order_mode : String
  pub paptrading : Option String
  pub issuance : IssuanceArtifacts
  pub issuance_ledger_entry_hash : Option String
  pub issuance_checkpoint_hash : Option String
  pub approval_hash : String

-- The dump without `artifact_hash` and without the link fields that were not set.
abbrev pub execution_evidence_json : ExecutionEvidence → Json
execution_evidence_json e = obj (
    field "version" (str "redline.execution.evidence.v1") (
      field "run_id" (str e.run_id) (
        field "receipt_hash" (str e.receipt_hash) (
          set_only "issuance_ledger_entry_hash" e.issuance_ledger_entry_hash (
            set_only "issuance_checkpoint_hash" e.issuance_checkpoint_hash (
              set_only "approval_hash" e.approval_hash (
                field "verdict" (str (status_text e.verdict)) (
                  field "client_oid" (str e.client_oid) (
                    field "bitget_order_id" (str e.bitget_order_id) (
                      field "response_hash" (str e.response_hash) (
                        field "placed_at" (str e.placed_at) (
                          field "symbol" (str e.symbol) (
                            field "product_type" (str e.product_type) (
                              field "order_mode" (str e.order_mode) (
                                field "paptrading" (opt_str e.paptrading) (
                                  field "execution_ledger_entry_hash"
                                    (str e.execution_ledger_entry_hash) end))))))))))))))))

abbrev pub is_evidence_of : Recording → ExecutionEvidence → Bool
is_evidence_of r e = str_eq e.receipt_hash r.receipt_hash && str_eq e.client_oid r.order.client_oid

abbrev pub put :
    String
    → File ExecutionEvidence
    → (String → File ExecutionEvidence)
    → String
    → File ExecutionEvidence
put path file files p = if str_eq p path then file else files p

-- The entry before its hash is put in.
abbrev pub unsealed : Recording → String → IssuanceLink → ExecutionLedgerEntry
unsealed r previous link = record {
  run_id = r.run_id;
  receipt_hash = r.receipt_hash;
  issuance_ledger_entry_hash = some link.issuance_ledger_entry_hash;
  issuance_checkpoint_hash = some link.issuance_checkpoint_hash;
  approval_hash = some r.approval_hash;
  verdict = r.verdict;
  client_oid = r.order.client_oid;
  bitget_order_id = r.order.bitget_order_id;
  response_hash = r.order.response_hash;
  placed_at = r.order.placed_at;
  previous_entry_hash = previous;
  entry_hash = "sha256:0000000000000000000000000000000000000000000000000000000000000000";
}

-- The evidence of an entry before its hash is put in; the link is that of the entry.
abbrev pub unsealed_evidence : Recording → ExecutionLedgerEntry → ExecutionEvidence
unsealed_evidence r e = record {
  run_id = r.run_id;
  receipt_hash = r.receipt_hash;
  issuance_ledger_entry_hash = e.issuance_ledger_entry_hash;
  issuance_checkpoint_hash = e.issuance_checkpoint_hash;
  approval_hash = some r.approval_hash;
  verdict = r.verdict;
  client_oid = r.order.client_oid;
  bitget_order_id = r.order.bitget_order_id;
  response_hash = r.order.response_hash;
  placed_at = r.order.placed_at;
  symbol = r.intent.symbol;
  product_type = r.intent.product_type;
  order_mode = r.order_mode;
  paptrading = r.paptrading;
  execution_ledger_entry_hash = e.entry_hash;
  artifact_hash = "sha256:0000000000000000000000000000000000000000000000000000000000000000";
}

abbrev pub store_entry :
    List ExecutionLedgerEntry → ExecutionLedgerEntry → Action ExecutionDisk ExecutionLedgerEntry
store_entry entries e disk =
    (record disk { ledger = holding (ledger_text (entries ++ e ∷ [])) }, ok e)

-- Evidence that is there already answers a call for its order.
unfoldable pub existing_evidence : Recording → ExecutionEvidence → Outcome ExecutionEvidence
existing_evidence r e =
    if is_evidence_of r e
    then ok e
    else blocked "EXECUTION_EVIDENCE_MISMATCH" "run already has different execution evidence"

module _ (digest : List ℕ → String) where
  -- `_execution_evidence_hash`.
  unfoldable pub execution_evidence_hash : ExecutionEvidence → String
  execution_evidence_hash e = hash_obj digest (execution_evidence_json e)

  -- `load_execution_evidence`.
  unfoldable pub load_execution_evidence : File ExecutionEvidence → Outcome ExecutionEvidence
  load_execution_evidence (holding e) =
      if str_eq e.artifact_hash (execution_evidence_hash e)
      then ok e
      else blocked "EXECUTION_EVIDENCE_MISMATCH" "execution evidence artifact hash mismatch"
  load_execution_evidence undecodable = crash
  load_execution_evidence _ =
      blocked "EXECUTION_EVIDENCE_INVALID" "execution evidence artifact is invalid"

  unfoldable pub sealed_entry : Recording → String → IssuanceLink → ExecutionLedgerEntry
  sealed_entry r previous link = record (unsealed r previous link) {
    entry_hash = execution_ledger_entry_hash digest (unsealed r previous link);
  }

  unfoldable pub new_evidence : Recording → ExecutionLedgerEntry → ExecutionEvidence
  new_evidence r e = record (unsealed_evidence r e) {
    artifact_hash = execution_evidence_hash (unsealed_evidence r e);
  }

  abbrev pub linked_entry : Recording → String → Outcome IssuanceLink → Outcome ExecutionLedgerEntry
  linked_entry r previous (ok link) = ok (sealed_entry r previous link)
  linked_entry r previous (blocked reason message) = blocked reason message
  linked_entry r previous assertion_error = assertion_error
  linked_entry r previous crash = crash

  -- The entry of a call, from the entries of the ledger.
  unfoldable pub next_entry : Recording → List ExecutionLedgerEntry → Outcome ExecutionLedgerEntry
  next_entry r entries =
      if any (is_order r.receipt_hash r.order.client_oid) entries
      then blocked "EXECUTION_EVIDENCE_MISSING" "execution ledger exists without evidence artifact"
      else linked_entry r (last_entry_hash genesis entries) (
          resolve_issuance_link digest r.issuance r.receipt_hash r.issuance_ledger_entry_hash
            r.issuance_checkpoint_hash)

  -- The first half of the code after the test for an evidence file: the ledger is written.
  unfoldable pub append_order : Recording → Action ExecutionDisk ExecutionLedgerEntry
  unfolding next_entry
  append_order r disk =
      (lift (load_execution_ledger digest disk.ledger) >>= λ entries.
      lift (next_entry r entries) >>= store_entry entries)
        disk

  -- The second half: the evidence file is written.
  unfoldable pub store_evidence :
      Recording → ExecutionLedgerEntry → Action ExecutionDisk ExecutionEvidence
  unfolding new_evidence
  store_evidence r e disk = (
    record disk { evidence = put r.evidence_path (holding (new_evidence r e)) disk.evidence },
    ok (new_evidence r e),
  )

  unfoldable pub write_execution_evidence_artifacts :
      Recording → Action ExecutionDisk ExecutionEvidence
  unfolding existing_evidence
  write_execution_evidence_artifacts r disk = elim (disk.evidence r.evidence_path) [
    | missing ↦ (append_order r >>= store_evidence r) disk
    | holding e ↦
        (lift (load_execution_evidence (holding e)) >>= λ old. lift (existing_evidence r old)) disk
    | unreadable ↦ (disk, load_execution_evidence unreadable)
    | undecodable ↦ (disk, load_execution_evidence undecodable)
  ]
