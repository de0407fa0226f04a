-- ===== src/Tests/Ledgers.antt =====
-- A ledger of two issues.
use playbook_redline.Base.{
  String, ◌≡◌, refl, ◌⊎◌, inl, inr, ◌↔◌, true, false, none, List, [], ◌∷◌, length, Bool-cases,
}
use playbook_redline.Canonical.{Fields}
use playbook_redline.Canonical.Hash.{Collision, genesis}
use playbook_redline.Ledger.{
  LedgerReceipt, Disk, ok, ledger_key_hash, read_from, atomic_write_receipt,
}
use playbook_redline.Ledger.Issue.{Issued, start, issued}
use playbook_redline.Ledger.Reroll.{
  identity, Fresh, ledger_key_hash-inj, Issued-readable, issue_iff_Fresh, refused_unchanged,
}
use playbook_redline.Tests.{toy_digest}

abbrev receipt : String → LedgerReceipt
receipt status = record {
  package_identity_hash = "sha256:1";
  candidate_package_hash = "sha256:2";
  suite_lock_hash = "sha256:3";
  spec_hash = "sha256:4";
  status = status;
  receipt_hash = "sha256:5";
}

abbrev empty_disk : Disk
empty_disk = record { receipt = none; ledger = [] }

abbrev one : Disk
one = (atomic_write_receipt toy_digest empty_disk (receipt "withheld") none).0

first_returns : (atomic_write_receipt toy_digest empty_disk (receipt "withheld") none).1 ≡ true
first_returns = (issue_iff_Fresh toy_digest (start empty_disk refl) (receipt "withheld") none).1 tt

first : Issued toy_digest (receipt "withheld" ∷ []) one
first = issued (start empty_disk refl) (receipt "withheld") none first_returns

Issued-readable_example :
    (entries : List Fields) × (read_from toy_digest genesis one.ledger ≡ ok entries)
    × (length entries ≡ 1)
Issued-readable_example = Issued-readable toy_digest first

issue_iff_Fresh_example :
    ((atomic_write_receipt toy_digest one (receipt "pass") none).1 ≡ true)
    ↔ Fresh toy_digest (receipt "withheld" ∷ []) (receipt "pass")
issue_iff_Fresh_example = issue_iff_Fresh toy_digest first (receipt "pass") none

same_key :
    ledger_key_hash toy_digest (receipt "withheld") ≡ ledger_key_hash toy_digest (receipt "pass")
unfolding ledger_key_hash
same_key = refl

reroll_refused : (atomic_write_receipt toy_digest one (receipt "pass") none).1 ≡ false
reroll_refused = elim (Bool-cases (atomic_write_receipt toy_digest one (receipt "pass") none).1) [
  | inl t ↦ absurd (((issue_iff_Fresh toy_digest first (receipt "pass") none).0 t).0 same_key)
  | inr f ↦ f
]

refused_unchanged_example : (atomic_write_receipt toy_digest one (receipt "pass") none).0 ≡ one
refused_unchanged_example = refused_unchanged toy_digest first (receipt "pass") none reroll_refused

ledger_key_hash-inj_example :
    (identity (receipt "withheld") ≡ identity (receipt "pass")) ⊎ Collision toy_digest
ledger_key_hash-inj_example =
    ledger_key_hash-inj toy_digest (receipt "withheld") (receipt "pass") same_key
