-- ===== src/Ledger/Issue.antt =====
-- src/redline/receipt.py: ledgers grown by `atomic_write_receipt` alone.
use playbook_redline.Base.{
  ℕ, String, ◌≡◌, refl, sym, ap, ◌∙◌, inl, inr, subst, Bool, true, false, ◌||◌, Option, some, List,
  [], ◌∷◌, ◌++◌, any, length, length-append, str_eq, Bool-cases, if-true, if-false, arith,
}
use playbook_redline.Canonical.{Json, obj, Fields}
use playbook_redline.Canonical.Dump.{normalize, normalize_fields}
use playbook_redline.Canonical.Dict.{get}
use playbook_redline.Canonical.Hash.{genesis}
use playbook_redline.Ledger.{
  Line, blank, broken, parsed, LedgerReceipt, Disk, Result, ok, conflict, is_str, ledger_key_hash,
  read_from, tail_hash, find_conflict, append_ledger, settle, atomic_write_receipt,
  expected_entry_hash,
}
use playbook_redline.Ledger.Chain.{
  stored, stored_key, stored-links, stored_hash, Extends, read_snoc,
}

module _ (digest : List ℕ → String) where
  -- Disks after a sequence of issues from an empty ledger, with the receipts whose issue returned,
  -- the latest first.
  pub data Issued : List LedgerReceipt → Disk → Type 0 where
    start : (disk : Disk) → disk.ledger ≡ [] → Issued [] disk
    issued :
        {receipts : List LedgerReceipt} {disk : Disk}
        → Issued receipts disk
        → (receipt : LedgerReceipt) (at : Option String)
        → (atomic_write_receipt digest disk receipt at).1 ≡ true
        → Issued (receipt ∷ receipts) (atomic_write_receipt digest disk receipt at).0
    refused :
        {receipts : List LedgerReceipt} {disk : Disk}
        → Issued receipts disk
        → (receipt : LedgerReceipt) (at : Option String)
        → (atomic_write_receipt digest disk receipt at).1 ≡ false
        → Issued receipts (atomic_write_receipt digest disk receipt at).0

  abbrev pub has_key : String → LedgerReceipt → Bool
  has_key key receipt = str_eq (ledger_key_hash digest receipt) key

  abbrev pub answer : Bool → Result Unit
  answer true = conflict
  answer false = ok tt

  -- The ledger can be read, and a key conflicts when a receipt has it.
  pub record Good (receipts : List LedgerReceipt) (lines : List Line) : Type 0 where
    pub entries : List Fields
    pub readable : read_from digest genesis lines ≡ ok entries
    pub count : length entries ≡ length receipts
    pub keys : (key : String) → find_conflict digest key lines ≡ answer (any (has_key key) receipts)

  answer_or : (b c : Bool) → conflict ≡ answer b → conflict ≡ answer (c || b)
  answer_or true true e = refl
  answer_or true false e = refl
  answer_or false c e = cc

  find_snoc :
      (key : String) (lines : List Line) (b : Bool) (entry : Fields)
      → find_conflict digest key lines ≡ answer b
      → find_conflict digest key (lines ++ parsed (obj entry) ∷ [])
        ≡ answer (is_str (get entry "key_hash") key || b)
  unfolding find_conflict
  find_snoc key [] true entry e = cc
  find_snoc key [] false entry e = elim (Bool-cases (is_str (get entry "key_hash") key)) [
    | inl h ↦ rw h refl
    | inr h ↦ rw h refl
  ]
  find_snoc key (blank ∷ lines) b entry e = find_snoc key lines b entry e
  find_snoc key (broken ∷ lines) true entry e = answer_or true (is_str (get entry "key_hash") key) e
  find_snoc key (broken ∷ lines) false entry e =
      answer_or false (is_str (get entry "key_hash") key) e
  find_snoc key (parsed (obj x) ∷ lines) b entry e =
      elim (Bool-cases (is_str (get x "key_hash") key)) [
        | inl h ↦
            if-true (is_str (get x "key_hash") key) conflict _ h
            ∙ answer_or b (is_str (get entry "key_hash") key)
                (sym (if-true (is_str (get x "key_hash") key) conflict _ h) ∙ e)
        | inr h ↦
            if-false (is_str (get x "key_hash") key) conflict _ h
            ∙ find_snoc key lines b entry
                (sym (if-false (is_str (get x "key_hash") key) conflict _ h) ∙ e)
      ]
  find_snoc key (parsed _ ∷ lines) true entry e = cc
  find_snoc key (parsed _ ∷ lines) false entry e = cc

module _ (digest : List ℕ → String) (receipts : List LedgerReceipt) (lines : List Line)
    (good : Good digest receipts lines) (receipt : LedgerReceipt) (at : Option String) where
  abbrev pub appended : Fields
  appended = stored digest receipt (tail_hash digest genesis good.entries) at

  abbrev pub longer : List Line
  longer = lines ++ parsed (obj appended) ∷ []

  append_returns : append_ledger digest lines receipt at ≡ ok longer
  unfolding append_ledger normalize stored
  append_returns = rw (append_ledger, good.readable) refl

  longer_readable : read_from digest genesis longer ≡ ok (good.entries ++ appended ∷ [])
  unfolding Extends
  longer_readable =
      read_snoc digest genesis lines good.entries (expected_entry_hash digest appended) appended
        good.readable (stored_hash digest receipt (tail_hash digest genesis good.entries) at)
        (stored-links digest receipt (tail_hash digest genesis good.entries) at)

  longer_keys :
      (key : String)
      → find_conflict digest key longer
        ≡ answer digest (any (has_key digest key) (receipt ∷ receipts))
  longer_keys key =
      subst
        (λ (o : Option Json).
          find_conflict digest key longer
          ≡ answer digest (is_str o key || any (has_key digest key) receipts))
        (stored_key digest receipt (tail_hash digest genesis good.entries) at)
        (find_snoc digest key lines (any (has_key digest key) receipts) appended (good.keys key))

  pub longer-Good : Good digest (receipt ∷ receipts) longer
  longer-Good = record {
    entries = good.entries ++ appended ∷ [];
    readable = longer_readable;
    count = omega (arith, length-append good.entries (appended ∷ []), good.count);
    keys = longer_keys;
  }

  -- The branches of `atomic_write_receipt`.
  pub clash :
      (disk : Disk)
      → disk.ledger ≡ lines
      → any (has_key digest (ledger_key_hash digest receipt)) receipts ≡ true
      → atomic_write_receipt digest disk receipt at ≡ (disk, false)
  unfolding atomic_write_receipt
  clash disk d h =
      let found : find_conflict digest (ledger_key_hash digest receipt) disk.ledger ≡ conflict =
        ap (find_conflict digest (ledger_key_hash digest receipt)) d
        ∙ good.keys (ledger_key_hash digest receipt)
        ∙ ap (answer digest) h in
      rw (atomic_write_receipt, found) refl

  pub fresh :
      (disk : Disk)
      → disk.ledger ≡ lines
      → any (has_key digest (ledger_key_hash digest receipt)) receipts ≡ false
      → atomic_write_receipt digest disk receipt at
        ≡ (record { receipt = some receipt; ledger = longer }, true)
  unfolding atomic_write_receipt stored settle normalize_fields
  fresh disk d h =
      let found : find_conflict digest (ledger_key_hash digest receipt) disk.ledger ≡ ok tt =
        ap (find_conflict digest (ledger_key_hash digest receipt)) d
        ∙ good.keys (ledger_key_hash digest receipt)
        ∙ ap (answer digest) h in
      let returns : append_ledger digest disk.ledger receipt at ≡ ok longer =
        ap (λ x. append_ledger digest x receipt at) d ∙ append_returns in
      rw (atomic_write_receipt, found, returns, settle, longer_readable) refl
