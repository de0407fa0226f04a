-- ===== src/Execution/Ledger.antt =====
-- src/redline/sponsor/bitget_execution.py and src/redline/models.py: the execution ledger, a JSONL
-- file of the orders that were placed, chained by hashes. The fields that older entries lack are
-- options: `none` is a field outside of `model_fields_set`.
pub mod Chain
pub mod Legacy
use playbook_redline.Base.{
  ℕ, String, Bool, ◌&&◌, Option, none, some, List, [], ◌∷◌, map, any, str_eq, if◌then◌else◌,
}
use playbook_redline.Canonical.{Json, str, obj, Fields, end, field}
use playbook_redline.Canonical.Hash.{genesis, hash_obj}
use playbook_redline.Verdict.{Status, pass, withheld, reduce_size, reject, unverified_no_verdict}
use playbook_redline.Execution.{Outcome, ok, blocked, assertion_error, crash}

pub record ExecutionLedgerEntry : Type 0 where
  pub run_id : String
  pub receipt_hash : String
  pub issuance_ledger_entry_hash : Option String
  pub issuance_checkpoint_hash : Option String
  pub approval_hash : Option String
  pub verdict : Status
  pub client_oid : String
  pub bitget_order_id : String
  pub response_hash : String
  pub placed_at : String
  pub previous_entry_hash : String
  pub entry_hash : String

abbrev pub unapproved_approval_hash : String
unapproved_approval_hash = "sha256:unapproved"

-- A file: missing, refused with OSError, not in UTF-8, or what it holds.
pub data File (A : Type 0) : Type 0 where
  missing unreadable undecodable : File A
  holding : A → File A

-- A line of the ledger: one that `json.loads` or `model_validate` refuses is `invalid`.
pub data LedgerLine : Type 0 where
  blank invalid : LedgerLine
  entry : ExecutionLedgerEntry → LedgerLine

abbrev pub status_text : Status → String
status_text pass = "pass"
status_text withheld = "withheld"
status_text reduce_size = "reduce_size"
status_text reject = "reject"
status_text unverified_no_verdict = "unverified_no_verdict"

-- A field that is dumped when it was set.
abbrev pub set_only : String → Option String → Fields → Fields
set_only name none more = more
set_only name (some text) more = field name (str text) more

-- The fields of a dump, without `entry_hash` and without the link fields that were not set.
abbrev pub entry_json : ExecutionLedgerEntry → Json
entry_json e = obj (
    field "version" (str "redline.execution.ledger_entry.v1") (
      field "run_id" (str e.run_id) (
        field "receipt_hash" (str e.receipt_hash) (
          set_only "issuance_ledger_entry_hash" e.issuance_ledger_entry_hash (
            set_only "issuance_checkpoint_hash" e.issuance_checkpoint_hash (
              set_only "approval_hash" e.approval_hash (
                field "verdict" (str (status_text e.verdict)) (
                  field "client_oid" (str e.client_oid) (
                    field "bitget_order_id" (str e.bitget_order_id) (
                      field "response_hash" (str e.response_hash) (
                        field "placed_at" (str e.placed_at)
                          (field "previous_entry_hash" (str e.previous_entry_hash) end))))))))))))

abbrev pub or_default : String → Option String → Option String
or_default text none = some text
or_default text (some t) = some t

-- `model_dump` writes each field, defaults too: what is read back from a line that it wrote.
abbrev pub dumped : ExecutionLedgerEntry → ExecutionLedgerEntry
dumped e = record e {
  issuance_ledger_entry_hash = or_default genesis e.issuance_ledger_entry_hash;
  issuance_checkpoint_hash = or_default genesis e.issuance_checkpoint_hash;
  approval_hash = or_default unapproved_approval_hash e.approval_hash;
}

abbrev dumped_line : ExecutionLedgerEntry → LedgerLine
dumped_line e = entry (dumped e)

-- The text that `write_execution_evidence_artifacts` makes of the entries.
abbrev pub ledger_text : List ExecutionLedgerEntry → List LedgerLine
ledger_text = map dumped_line

-- `ledger_entries[-1].entry_hash if ledger_entries else "sha256:genesis"`.
abbrev pub last_entry_hash : String → List ExecutionLedgerEntry → String
last_entry_hash previous [] = previous
last_entry_hash previous (e ∷ entries) = last_entry_hash e.entry_hash entries

abbrev pub is_order : String → String → ExecutionLedgerEntry → Bool
is_order receipt_hash client_oid e =
    str_eq e.receipt_hash receipt_hash && str_eq e.client_oid client_oid

abbrev pub prepend_entry :
    ExecutionLedgerEntry → Outcome (List ExecutionLedgerEntry) → Outcome (List ExecutionLedgerEntry)
prepend_entry e (ok entries) = ok (e ∷ entries)
prepend_entry e (blocked reason message) = blocked reason message
prepend_entry e assertion_error = assertion_error
prepend_entry e crash = crash

abbrev pub mismatch : Outcome (List ExecutionLedgerEntry)
mismatch = blocked "EXECUTION_LEDGER_MISMATCH" "execution ledger hash chain mismatch"

module _ (digest : List ℕ → String) where
  -- `_execution_ledger_entry_hash`.
  unfoldable pub execution_ledger_entry_hash : ExecutionLedgerEntry → String
  execution_ledger_entry_hash e = hash_obj digest (entry_json e)

  unfoldable pub chained : String → ExecutionLedgerEntry → Bool
  chained previous e =
      str_eq e.previous_entry_hash previous && str_eq e.entry_hash (execution_ledger_entry_hash e)

  -- The loop over the lines, from the hash of the entry before.
  unfoldable pub load_from : String → List LedgerLine → Outcome (List ExecutionLedgerEntry)
  load_from previous [] = ok []
  load_from previous (blank ∷ lines) = load_from previous lines
  load_from previous (invalid ∷ lines) =
      blocked "EXECUTION_LEDGER_INVALID" "execution ledger entry is invalid"
  load_from previous (entry e ∷ lines) =
      let rest = prepend_entry e (load_from e.entry_hash lines) in
      if chained previous e then rest else mismatch

  -- `load_execution_ledger`.
  unfoldable pub load_execution_ledger :
      File (List LedgerLine) → Outcome (List ExecutionLedgerEntry)
  unfolding load_from
  load_execution_ledger missing = ok []
  load_execution_ledger unreadable =
      blocked "EXECUTION_LEDGER_INVALID" "execution ledger is unreadable"
  load_execution_ledger undecodable = crash
  load_execution_ledger (holding lines) = load_from genesis lines

  -- The test of `execution_ledger_has_order` on the entries that were loaded.
  unfoldable pub execution_ledger_has_order :
      File (List LedgerLine) → String → String → Outcome Bool
  unfolding load_execution_ledger
  execution_ledger_has_order file receipt_hash client_oid = elim (load_execution_ledger file) [
    | ok entries ↦ ok (any (is_order receipt_hash client_oid) entries)
    | blocked reason message ↦ blocked reason message
    | assertion_error ↦ assertion_error
    | crash ↦ crash
  ]
