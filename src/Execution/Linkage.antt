-- ===== src/Execution/Linkage.antt =====
-- src/redline/sponsor/bitget_execution.py: what a link that `_resolve_issuance_link` finds says of the
-- issuance artifacts.
use playbook_redline.Base.{
  ℕ, String, ◌≡◌, sym, ap, true, Option, none, some, List, map, str_eq, eq_iff,
}
use playbook_redline.Base.Quantifiers.{Exists, any-Exists, Exists-map}
use playbook_redline.Canonical.{str, Fields}
use playbook_redline.Canonical.Hash.{genesis}
use playbook_redline.Merkle.{merkle_root}
use playbook_redline.Ledger.{Line, Result, read_from}
use playbook_redline.Execution.{ok}
use playbook_redline.Execution.Ledger.{holding}
use playbook_redline.Execution.Link.{
  ReadCheckpoint, IssuanceArtifacts, IssuanceLink, covers_receipt, same_root,
  compute_ledger_checkpoint_hash,
}
use playbook_redline.Execution.Entries.{Issues}

pub same_root_parts : (o : Option String) (root : String) → same_root o root ≡ true → o ≡ some root
same_root_parts none root e = cc
same_root_parts (some found) root e = ap some (sym ((eq_iff root found).0 e))

-- A checkpoint that has its own hash, the Merkle root of its receipts where it has a root, the hash of
-- the ledger file, and the receipt.
pub record Checked (digest : List ℕ → String) (artifacts : IssuanceArtifacts)
    (receipt_hash : String) (read : ReadCheckpoint) : Type 0 where
  pub own_hash : read.checkpoint.checkpoint_hash ≡ compute_ledger_checkpoint_hash digest read
  pub root :
      read.has_merkle_root ≡ true
      → merkle_root digest (map str read.checkpoint.subject_receipt_hashes)
        ≡ some read.checkpoint.merkle_root
  pub file_hash : artifacts.ledger_file_hash ≡ some read.checkpoint.ledger_hash
  pub subject : Exists (λ (s : String). s ≡ receipt_hash) read.checkpoint.subject_receipt_hashes

pub covers_receipt-Exists :
    (receipt_hash : String) (subjects : List String)
    → covers_receipt receipt_hash subjects ≡ true
    → Exists (λ (s : String). s ≡ receipt_hash) subjects
covers_receipt-Exists receipt_hash subjects d =
    Exists-map
      (λ (s : String) (q : str_eq receipt_hash s ≡ true). sym ((eq_iff receipt_hash s).0 q))
      subjects (any-Exists (str_eq receipt_hash) subjects d)

module _ (digest : List ℕ → String) (artifacts : IssuanceArtifacts) (receipt_hash : String) where
  pub record Vouched (link : IssuanceLink) : Type 0 where
    pub lines : List Line
    pub entries : List Fields
    pub read : ReadCheckpoint
    pub ledger : artifacts.ledger ≡ holding lines
    pub readable : read_from digest genesis lines ≡ Result.ok entries
    pub entry : Exists (Issues receipt_hash link.issuance_ledger_entry_hash) entries
    pub file : artifacts.checkpoint ≡ holding read
    pub checked : Checked digest artifacts receipt_hash read
    pub same : link.issuance_checkpoint_hash ≡ read.checkpoint.checkpoint_hash
