-- ===== src/Execution/Evidence/Cases.antt =====
-- src/redline/sponsor/bitget_execution.py: the branches of `write_execution_evidence_artifacts`.
use playbook_redline.Base.{
  ℕ, String, ◌≡◌, refl, ap, ◌∙◌, ◌⊎◌, inl, inr, Bool, true, false, List, Bool-cases,
}
use playbook_redline.Execution.{Outcome, ok, blocked, assertion_error, crash, Action, resume}
use playbook_redline.Execution.Ledger.{
  ExecutionLedgerEntry, File, missing, unreadable, undecodable, holding, load_execution_ledger,
}
use playbook_redline.Execution.Evidence.{
  ExecutionEvidence, ExecutionDisk, Recording, is_evidence_of, existing_evidence,
  load_execution_evidence, next_entry, store_entry, append_order, store_evidence,
  write_execution_evidence_artifacts,
}
use playbook_redline.Execution.Evidence.Records.{FileGood, Good, Next, next_entry-Next}

abbrev pub is_ok : {A : Type 0} → Outcome A → Bool
is_ok (ok a) = true
is_ok _ = false

module _ (A : Type 0) where
  pub Outcome-cases : (o : Outcome A) → ((a : A) × (o ≡ ok a)) ⊎ (is_ok o ≡ false)
  Outcome-cases (ok a) = inl ((a, refl))
  Outcome-cases (blocked reason message) = inr refl
  Outcome-cases assertion_error = inr refl
  Outcome-cases crash = inr refl

-- A failure is passed on, and nothing is written.
pub resume-failed :
    {W A B : Type 0} (f : A → Action W B) (w : W) (o : Outcome A)
    → is_ok o ≡ false
    → ((resume f (w, o)).0 ≡ w) × (is_ok (resume f (w, o)).1 ≡ false)
resume-failed f w (ok a) h = cc
resume-failed f w (blocked reason message) h = (refl, refl)
resume-failed f w assertion_error h = (refl, refl)
resume-failed f w crash h = (refl, refl)

module _ (digest : List ℕ → String) where
  pub append_order_loaded :
      (disk : ExecutionDisk) (r : Recording) (entries : List ExecutionLedgerEntry)
      → load_execution_ledger digest disk.ledger ≡ ok entries
      → append_order digest r disk
        ≡ resume (store_entry entries) (disk, next_entry digest r entries)
  unfolding append_order
  append_order_loaded disk r entries l = rw l refl

module _ (digest : List ℕ → String) (entries : List ExecutionLedgerEntry) (disk : ExecutionDisk)
    (good : Good digest entries disk) (r : Recording) where
  -- The disk after the first write.
  abbrev pub appended : ExecutionLedgerEntry → ExecutionDisk
  appended e = (store_entry entries e disk).0

  -- The branches: evidence of this order is there, other evidence is there, no entry can be made,
  -- or both files are written.
  pub data Case (after : ExecutionDisk × Outcome ExecutionEvidence) : Type 0 where
    known :
        (ev : ExecutionEvidence)
        → disk.evidence r.evidence_path ≡ holding ev
        → is_evidence_of r ev ≡ true
        → after ≡ (disk, ok ev)
        → Case after
    other :
        (ev : ExecutionEvidence)
        → disk.evidence r.evidence_path ≡ holding ev
        → is_evidence_of r ev ≡ false
        → after.0 ≡ disk
        → is_ok after.1 ≡ false
        → Case after
    refused :
        disk.evidence r.evidence_path ≡ missing
        → is_ok (next_entry digest r entries) ≡ false
        → after.0 ≡ disk
        → is_ok after.1 ≡ false
        → Case after
    grown :
        (e : ExecutionLedgerEntry)
        → disk.evidence r.evidence_path ≡ missing
        → Next digest r entries e
        → after ≡ store_evidence digest r e (appended e)
        → Case after

  -- The first half writes the ledger with one more entry, or nothing.
  pub append_order-cases :
      ((e : ExecutionLedgerEntry) × (append_order digest r disk ≡ (appended e, ok e))
        × Next digest r entries e)
      ⊎ (((append_order digest r disk).0 ≡ disk)
          × (is_ok (append_order digest r disk).1 ≡ false)
          × (is_ok (next_entry digest r entries) ≡ false))
  append_order-cases = elim (Outcome-cases ExecutionLedgerEntry (next_entry digest r entries)) [
    | inl (e, q) ↦ inl (
        (
          e,
          (append_order_loaded digest disk r entries good.loaded)
              ∙ ap (λ (o : Outcome ExecutionLedgerEntry). resume (store_entry entries) (disk, o)) q,
          next_entry-Next digest r entries e q,
        ))
    | inr n ↦
        let (same, failed) =
          resume-failed (store_entry entries) disk (next_entry digest r entries) n in
        inr (
          (
            ap (λ (x : ExecutionDisk × Outcome ExecutionLedgerEntry). x.0)
                  (append_order_loaded digest disk r entries good.loaded)
                ∙ same,
            ap (λ (x : ExecutionDisk × Outcome ExecutionLedgerEntry). is_ok x.1)
                  (append_order_loaded digest disk r entries good.loaded)
                ∙ failed,
            n,
          ))
  ]

  write_missing :
      disk.evidence r.evidence_path ≡ missing
      → write_execution_evidence_artifacts digest r disk
        ≡ resume (store_evidence digest r) (append_order digest r disk)
  unfolding write_execution_evidence_artifacts
  write_missing q = rw (q, write_execution_evidence_artifacts) refl

  pub write_holding :
      (ev : ExecutionEvidence)
      → disk.evidence r.evidence_path ≡ holding ev
      → load_execution_evidence digest (holding ev) ≡ ok ev
      → write_execution_evidence_artifacts digest r disk ≡ (disk, existing_evidence r ev)
  unfolding write_execution_evidence_artifacts
  write_holding ev q l = rw (q, write_execution_evidence_artifacts, l) refl

  Case-missing :
      disk.evidence r.evidence_path ≡ missing
      → Case (write_execution_evidence_artifacts digest r disk)
  Case-missing q = elim append_order-cases [
    | inl (e, a, n) ↦ grown e q n (write_missing q ∙ ap (resume (store_evidence digest r)) a)
    | inr (same, failed, n) ↦
        let (kept, no_result) =
          resume-failed (store_evidence digest r) (append_order digest r disk).0
            (append_order digest r disk).1 failed in
        refused q n
          (ap (λ (x : ExecutionDisk × Outcome ExecutionEvidence). x.0) (write_missing q)
            ∙ kept
            ∙ same)
          (ap (λ (x : ExecutionDisk × Outcome ExecutionEvidence). is_ok x.1) (write_missing q)
            ∙ no_result)
  ]

  Case-holding :
      (ev : ExecutionEvidence)
      → disk.evidence r.evidence_path ≡ holding ev
      → load_execution_evidence digest (holding ev) ≡ ok ev
      → Case (write_execution_evidence_artifacts digest r disk)
  unfolding existing_evidence
  Case-holding ev q l = elim (Bool-cases (is_evidence_of r ev)) [
    | inl y ↦ known ev q y (write_holding ev q l ∙ (rw y refl))
    | inr n ↦
        let answer : write_execution_evidence_artifacts digest r disk ≡ (
          disk,
          blocked "EXECUTION_EVIDENCE_MISMATCH" "run already has different execution evidence",
        ) =
          write_holding ev q l ∙ (rw n refl) in
        other ev q n (ap (λ (x : ExecutionDisk × Outcome ExecutionEvidence). x.0) answer)
          (ap (λ (x : ExecutionDisk × Outcome ExecutionEvidence). is_ok x.1) answer)
  ]

  file-Case :
      (file : File ExecutionEvidence)
      → disk.evidence r.evidence_path ≡ file
      → FileGood digest entries file
      → Case (write_execution_evidence_artifacts digest r disk)
  file-Case missing q g = Case-missing q
  file-Case (holding ev) q (l, h) = Case-holding ev q l
  file-Case unreadable q g = elim g [ ]
  file-Case undecodable q g = elim g [ ]

  pub write_execution_evidence_artifacts-Case :
      Case (write_execution_evidence_artifacts digest r disk)
  write_execution_evidence_artifacts-Case =
      file-Case (disk.evidence r.evidence_path) refl (good.files r.evidence_path)
