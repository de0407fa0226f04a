-- ===== src/Ledger.antt =====
-- src/redline/receipt.py: the issuance ledger, a JSONL file whose entries are chained by hashes.
-- The SHA-256 of a text is the parameter `digest`, as in Canonical/Hash.
pub mod Chain
pub mod Issue
pub mod Reroll
pub mod Tamper
use playbook_redline.Base.{
  ℕ, String, Bool, true, false, not, ◌&&◌, ◌||◌, Option, none, some, List, [], ◌∷◌, ◌++◌, str_eq,
  length, if◌then◌else◌,
}
use playbook_redline.Canonical.{Json, str, obj, Fields, end, field}
use playbook_redline.Canonical.Dump.{normalize, normalize_fields}
use playbook_redline.Canonical.Dict.{get, nonempty}
use playbook_redline.Canonical.Hash.{hash_obj, genesis}

-- A line of the file: what `json.loads` makes of it.
pub data Line : Type 0 where
  blank broken : Line
  parsed : Json → Line

-- What the ledger reads of a receipt.
pub record LedgerReceipt : Type 0 where
  pub package_identity_hash : String
  pub candidate_package_hash : String
  pub suite_lock_hash : String
  pub spec_hash : String
  pub status : String
  pub receipt_hash : String

-- The receipt file and the ledger file; an empty ledger is read like a missing one.
pub record Disk : Type 0 where
  pub receipt : Option LedgerReceipt
  pub ledger : List Line

-- A value, IssuanceLedgerConflict, or another exception.
pub data Result (A : Type 0) : Type 0 where
  ok : A → Result A
  conflict crash : Result A

-- `{key: value for key, value in entry.items() if key != name}`.
unfoldable pub without : String → Fields → Fields
without name end = end
without name (field k v fs) =
    let rest = without name fs in if str_eq k name then rest else field k v rest

abbrev pub is_str : Option Json → String → Bool
is_str (some (str s)) t = str_eq s t
is_str _ t = false

unfoldable pub add_entry : Fields → Result (List Fields) → Result (List Fields)
add_entry entry (ok entries) = ok (entry ∷ entries)
add_entry entry conflict = conflict
add_entry entry crash = crash

module _ (digest : List ℕ → String) where
  -- `_ledger_key_hash`.
  unfoldable pub ledger_key_hash : LedgerReceipt → String
  ledger_key_hash receipt = hash_obj digest (
      obj (
        field "package_hash" (str receipt.package_identity_hash) (
          field "candidate_hash" (str receipt.candidate_package_hash) (
            field "suite_lock_hash" (str receipt.suite_lock_hash)
              (field "spec_hash" (str receipt.spec_hash) end)))))

  unfoldable pub expected_entry_hash : Fields → String
  expected_entry_hash entry = hash_obj digest (obj (without "entry_hash" entry))

  unfoldable pub links : String → String → Fields → Bool
  links previous entry_hash entry =
      str_eq entry_hash (expected_entry_hash entry)
      && is_str (get entry "previous_entry_hash") previous

  -- `_read_ledger_entries`, from the hash of the entry before.
  unfoldable pub read_from : String → List Line → Result (List Fields)
  unfolding add_entry
  read_from previous [] = ok []
  read_from previous (blank ∷ lines) = read_from previous lines
  read_from previous (parsed (obj entry) ∷ lines) = elim (get entry "entry_hash") [
    | some (str entry_hash) ↦
        if links previous entry_hash entry
        then add_entry entry (read_from entry_hash lines)
        else conflict
    | _ ↦ conflict
  ]
  read_from previous (_ ∷ lines) = crash

  -- `_last_ledger_entry_hash`: `entry["entry_hash"]` is a text in each entry that was read.
  unfoldable pub tail_hash : String → List Fields → String
  tail_hash previous [] = previous
  tail_hash previous (entry ∷ entries) = elim (get entry "entry_hash") [
    | some (str entry_hash) ↦ tail_hash entry_hash entries
    | _ ↦ tail_hash previous entries
  ]

  -- `_raise_on_ledger_conflict`.
  unfoldable pub find_conflict : String → List Line → Result Unit
  find_conflict key [] = ok tt
  find_conflict key (blank ∷ lines) = find_conflict key lines
  find_conflict key (broken ∷ lines) = conflict
  find_conflict key (parsed (obj entry) ∷ lines) =
      if is_str (get entry "key_hash") key then conflict else find_conflict key lines
  find_conflict key (parsed _ ∷ lines) = crash

  abbrev pub default_ledger_written_at : String
  default_ledger_written_at = "1970-01-01T00:00:00Z"

  abbrev written : Option String → String
  written at =
      if nonempty at then elim at [ none ↦ "" | some text ↦ text ] else default_ledger_written_at

  -- The entry of `_append_ledger`, without and with its hash.
  abbrev pub entry_fields : LedgerReceipt → String → Option String → Fields → Fields
  entry_fields receipt previous at more = field "key_hash" (str (ledger_key_hash receipt)) (
      field "status" (str receipt.status) (
        field "receipt_hash" (str receipt.receipt_hash) (
          field "previous_entry_hash" (str previous) (field "written_at" (str (written at)) more))))

  unfoldable pub new_entry : LedgerReceipt → String → Option String → Fields
  new_entry receipt previous at =
      entry_fields receipt previous at (
        field "entry_hash" (str (hash_obj digest (obj (entry_fields receipt previous at end)))) end)

  -- `_append_ledger`: `json.dumps(entry, sort_keys=True)` is read back with its keys sorted.
  unfoldable pub append_ledger : List Line → LedgerReceipt → Option String → Result (List Line)
  append_ledger lines receipt at = elim (read_from genesis lines) [
    | ok entries ↦
        ok (
          lines ++ parsed (normalize (obj (new_entry receipt (tail_hash genesis entries) at))) ∷ [])
    | conflict ↦ conflict
    | crash ↦ crash
  ]

  -- After `_append_ledger`, `create_ledger_checkpoint` reads the ledger again; if it cannot, the
  -- receipt is removed and the ledger stays.
  unfoldable pub settle : List Line → LedgerReceipt → Disk × Bool
  settle lines receipt = elim (read_from genesis lines) [
    | ok entries ↦ (record { receipt = some receipt; ledger = lines }, true)
    | _ ↦ (record { receipt = none; ledger = lines }, false)
  ]

  -- `atomic_write_receipt` with a ledger, and whether it returns.
  unfoldable pub atomic_write_receipt : Disk → LedgerReceipt → Option String → Disk × Bool
  atomic_write_receipt disk receipt at =
      elim (find_conflict (ledger_key_hash receipt) disk.ledger) [
        | ok _ ↦ elim (append_ledger disk.ledger receipt at) [
          | ok lines ↦ settle lines receipt
          | _ ↦ (record disk { receipt = none }, false)
        ]
        | _ ↦ (disk, false)
      ]
