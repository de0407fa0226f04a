-- ===== src/Execution/Link.antt =====
-- src/redline/sponsor/bitget_execution.py and, for `compute_ledger_checkpoint_hash`,
-- src/redline/receipt.py: the link of an order to the issuance of its receipt.
use playbook_redline.Base.{
  ℕ, String, Bool, true, false, not, ◌&&◌, Option, none, some, List, [], ◌∷◌, map, any, str_eq,
  if◌then◌else◌,
}
use playbook_redline.Base.Int.{pos}
use playbook_redline.Canonical.{Json, int, str, arr, obj, Fields, end, field}
use playbook_redline.Canonical.Dict.{get, nonempty}
use playbook_redline.Canonical.Hash.{genesis, hash_obj}
use playbook_redline.Merkle.{merkle_root}
use playbook_redline.Ledger.{Line, blank, broken, parsed, is_str, links}
use playbook_redline.Trust.{LedgerCheckpoint, texts}
use playbook_redline.Execution.{Outcome, ok, blocked, assertion_error, crash}
use playbook_redline.Execution.Ledger.{File, missing, unreadable, undecodable, holding}

-- A checkpoint as `model_validate` reads it, and whether it has the field `merkle_root`.
pub record ReadCheckpoint : Type 0 where
  pub checkpoint : LedgerCheckpoint
  pub has_merkle_root : Bool

-- The two files of an artifact directory, and the `hash_file` of the ledger; `none` if that raises.
pub record IssuanceArtifacts : Type 0 where
  pub ledger : File (List Line)
  pub ledger_file_hash : Option String
  pub checkpoint : File ReadCheckpoint

pub record IssuanceLink : Type 0 where
  pub issuance_ledger_entry_hash : String
  pub issuance_checkpoint_hash : String

abbrev pub set_if : Bool → String → String → Fields → Fields
set_if true name text more = field name (str text) more
set_if false name text more = more

abbrev pub checkpoint_json : ReadCheckpoint → Json
checkpoint_json read = obj (
    field "version" (str "redline.ledger.checkpoint.v1") (
      field "ledger_path" (str read.checkpoint.ledger_path) (
        field "ledger_hash" (str read.checkpoint.ledger_hash) (
          field "ledger_tail_hash" (str read.checkpoint.ledger_tail_hash) (
            field "ledger_entry_count" (int (pos read.checkpoint.ledger_entry_count)) (
              field "subject_receipt_hashes" (arr (texts read.checkpoint.subject_receipt_hashes)) (
                set_if read.has_merkle_root "merkle_root" read.checkpoint.merkle_root (
                  field "anchor_kind" (str read.checkpoint.anchor_kind)
                    (field "checkpoint_hash" (str "") end)))))))))

abbrev pub covers_receipt : String → List String → Bool
covers_receipt receipt_hash hashes = any (str_eq receipt_hash) hashes

abbrev pub same_root : Option String → String → Bool
same_root none root = false
same_root (some found) root = str_eq root found

abbrev pub missing_entry : Option String → Outcome String
missing_entry (some entry_hash) = ok entry_hash
missing_entry none =
    blocked "EXECUTION_ISSUANCE_LINK_MISSING" "issuance ledger entry for receipt is missing"

abbrev pub ledger_mismatch : Outcome String
ledger_mismatch = blocked "EXECUTION_ISSUANCE_LINK_MISMATCH" "issuance ledger hash chain mismatch"

-- `given or computed`.
abbrev pub or_else : Option String → Outcome String → Outcome String
or_else none computed = computed
or_else (some text) computed = if nonempty (some text) then ok text else computed

abbrev pub and_checkpoint : Outcome String → String → Outcome IssuanceLink
and_checkpoint (ok checkpoint_hash) entry_hash =
    ok (record {
      issuance_ledger_entry_hash = entry_hash;
      issuance_checkpoint_hash = checkpoint_hash;
    })
and_checkpoint (blocked reason message) entry_hash = blocked reason message
and_checkpoint assertion_error entry_hash = assertion_error
and_checkpoint crash entry_hash = crash

abbrev pub link_of : Outcome String → Outcome String → Outcome IssuanceLink
link_of (ok entry_hash) checkpoint_hash = and_checkpoint checkpoint_hash entry_hash
link_of (blocked reason message) checkpoint_hash = blocked reason message
link_of assertion_error checkpoint_hash = assertion_error
link_of crash checkpoint_hash = crash

-- The comparisons of `_issuance_checkpoint_hash` from that with the ledger file on.
unfoldable pub check_file : Option String → String → LedgerCheckpoint → Outcome String
check_file none receipt_hash checkpoint = crash
check_file (some file_hash) receipt_hash checkpoint =
    if not (str_eq checkpoint.ledger_hash file_hash)
    then blocked "EXECUTION_ISSUANCE_LINK_MISMATCH" "issuance checkpoint ledger hash mismatch"
    else if not (covers_receipt receipt_hash checkpoint.subject_receipt_hashes)
    then blocked "EXECUTION_ISSUANCE_LINK_MISSING" "issuance checkpoint does not cover receipt"
    else ok checkpoint.checkpoint_hash

module _ (digest : List ℕ → String) where
  -- The loop over the lines: the hash of the entry before, and the last match.
  unfoldable pub find_entry : String → String → Option String → List Line → Outcome String
  find_entry receipt_hash previous match [] = missing_entry match
  find_entry receipt_hash previous match (blank ∷ lines) =
      find_entry receipt_hash previous match lines
  find_entry receipt_hash previous match (broken ∷ lines) =
      blocked "EXECUTION_ISSUANCE_LINK_INVALID" "issuance ledger entry is invalid"
  find_entry receipt_hash previous match (parsed (obj entry) ∷ lines) =
      elim (get entry "entry_hash") [
        | some (str entry_hash) ↦
            let rest =
              find_entry receipt_hash entry_hash
                (if is_str (get entry "receipt_hash") receipt_hash then some entry_hash else match)
                lines in
            if links digest previous entry_hash entry then rest else ledger_mismatch
        | _ ↦ ledger_mismatch
      ]
  find_entry receipt_hash previous match (parsed _ ∷ lines) = crash

  -- `_issuance_ledger_entry_hash`.
  unfoldable pub find_issuance_entry_hash : File (List Line) → String → Outcome String
  unfolding find_entry
  find_issuance_entry_hash missing receipt_hash =
      blocked "EXECUTION_ISSUANCE_LINK_MISSING" "issuance ledger is required for execution evidence"
  find_issuance_entry_hash unreadable receipt_hash =
      blocked "EXECUTION_ISSUANCE_LINK_INVALID" "issuance ledger is unreadable"
  find_issuance_entry_hash undecodable receipt_hash = crash
  find_issuance_entry_hash (holding lines) receipt_hash = find_entry receipt_hash genesis none lines

  unfoldable pub compute_ledger_checkpoint_hash : ReadCheckpoint → String
  compute_ledger_checkpoint_hash read = hash_obj digest (checkpoint_json read)

  -- The comparisons of `_issuance_checkpoint_hash`, in their order.
  unfoldable pub check_checkpoint : IssuanceArtifacts → String → ReadCheckpoint → Outcome String
  unfolding check_file
  check_checkpoint artifacts receipt_hash read =
      if not (str_eq read.checkpoint.checkpoint_hash (compute_ledger_checkpoint_hash read))
      then blocked "EXECUTION_ISSUANCE_LINK_MISMATCH" "issuance checkpoint hash mismatch"
      else if read.has_merkle_root
          && not (
              same_root (merkle_root digest (map str read.checkpoint.subject_receipt_hashes))
                read.checkpoint.merkle_root)
      then blocked "EXECUTION_ISSUANCE_LINK_MISMATCH" "issuance checkpoint merkle root mismatch"
      else check_file artifacts.ledger_file_hash receipt_hash read.checkpoint

  -- `_issuance_checkpoint_hash`.
  unfoldable pub find_issuance_checkpoint_hash : IssuanceArtifacts → String → Outcome String
  unfolding check_checkpoint
  find_issuance_checkpoint_hash artifacts receipt_hash = elim artifacts.checkpoint [
    | missing ↦
        blocked "EXECUTION_ISSUANCE_LINK_MISSING"
          "issuance checkpoint is required for execution evidence"
    | unreadable ↦ blocked "EXECUTION_ISSUANCE_LINK_INVALID" "issuance checkpoint is invalid"
    | undecodable ↦ crash
    | holding read ↦ check_checkpoint artifacts receipt_hash read
  ]

  -- `_resolve_issuance_link`, with the hashes that the caller gives.
  unfoldable pub resolve_issuance_link :
      IssuanceArtifacts → String → Option String → Option String → Outcome IssuanceLink
  unfolding find_issuance_entry_hash find_issuance_checkpoint_hash
  resolve_issuance_link artifacts receipt_hash entry_hash checkpoint_hash =
      link_of (or_else entry_hash (find_issuance_entry_hash artifacts.ledger receipt_hash))
        (or_else checkpoint_hash (find_issuance_checkpoint_hash artifacts receipt_hash))
