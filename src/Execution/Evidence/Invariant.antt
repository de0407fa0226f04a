-- ===== src/Execution/Evidence/Invariant.antt =====
-- src/redline/sponsor/bitget_execution.py: what calls of `write_execution_evidence_artifacts` keep,
-- stopped ones included, and that a call can be repeated.
use mathlib.Core.Bool.{false≢true}
use playbook_redline.Base.{
  ℕ, String, ◌≡◌, refl, sym, ap, ◌∙◌, inl, inr, subst, true, ◌&&◌, List, [], ◌∷◌, ◌++◌, str_eq,
  str_eq_refl, if-true,
}
use playbook_redline.Execution.{Outcome, ok}
use playbook_redline.Execution.Ledger.{
  ExecutionLedgerEntry, missing, holding, load_execution_ledger,
}
use playbook_redline.Execution.Evidence.{
  ExecutionEvidence, ExecutionDisk, Recording, is_evidence_of, existing_evidence, new_evidence,
  append_order, store_evidence, write_execution_evidence_artifacts,
}
use playbook_redline.Execution.Evidence.Records.{
  Records, FileGood, Good, new_evidence-Records, Exists-last, store_entry-Good, store_evidence-Good,
}
use playbook_redline.Execution.Evidence.Cases.{
  is_ok, appended, Case, known, other, refused, grown, append_order-cases, write_holding,
  write_execution_evidence_artifacts-Case,
}

module _ (digest : List ℕ → String) where
  -- Disks after a sequence of calls from a disk with no ledger and no evidence; a process may have
  -- stopped between the two writes of a call.
  pub data Recorded : ExecutionDisk → Type 0 where
    start :
        (disk : ExecutionDisk)
        → disk.ledger ≡ missing
        → ((path : String) → disk.evidence path ≡ missing)
        → Recorded disk
    called :
        {disk : ExecutionDisk}
        → Recorded disk
        → (r : Recording) → Recorded (write_execution_evidence_artifacts digest r disk).0
    stopped :
        {disk : ExecutionDisk}
        → Recorded disk
        → (r : Recording) → disk.evidence r.evidence_path ≡ missing
        → Recorded (append_order digest r disk).0

  -- The entries after a call, from those before.
  Case-Good :
      (entries : List ExecutionLedgerEntry) (disk : ExecutionDisk) (good : Good digest entries disk)
      (r : Recording) (after : ExecutionDisk × Outcome ExecutionEvidence)
      → Case digest entries disk good r after
      → (now : List ExecutionLedgerEntry) × Good digest now after.0
  unfolding store_evidence
  Case-Good entries disk good r after (known ev q y e) = (
    entries,
    subst (Good digest entries)
        (sym (ap (λ (x : ExecutionDisk × Outcome ExecutionEvidence). x.0) e)) good,
  )
  Case-Good entries disk good r after (other ev q n e f) =
      (entries, subst (Good digest entries) (sym e) good)
  Case-Good entries disk good r after (refused q n e f) =
      (entries, subst (Good digest entries) (sym e) good)
  Case-Good entries disk good r after (grown e q n h) =
      let longer = store_entry-Good digest r entries e disk good n in
      let recorded =
        Exists-last (Records (new_evidence digest r e)) entries e
          (new_evidence-Records digest r entries e n) in
      (
        entries ++ e ∷ [],
        subst (Good digest (entries ++ e ∷ []))
            (sym (ap (λ (x : ExecutionDisk × Outcome ExecutionEvidence). x.0) h))
            (store_evidence-Good digest r (entries ++ e ∷ []) e
              (appended digest entries disk good r e) longer recorded),
      )

  stopped-Good :
      (entries : List ExecutionLedgerEntry) (disk : ExecutionDisk) (good : Good digest entries disk)
      (r : Recording)
      → (now : List ExecutionLedgerEntry) × Good digest now (append_order digest r disk).0
  stopped-Good entries disk good r = elim (append_order-cases digest entries disk good r) [
    | inl (e, a, n) ↦ (
      entries ++ e ∷ [],
      subst (Good digest (entries ++ e ∷ []))
          (sym (ap (λ (x : ExecutionDisk × Outcome ExecutionLedgerEntry). x.0) a))
          (store_entry-Good digest r entries e disk good n),
    )
    | inr (same, failed, n) ↦ (entries, subst (Good digest entries) (sym same) good)
  ]

  start-Good :
      (disk : ExecutionDisk)
      → disk.ledger ≡ missing
      → ((path : String) → disk.evidence path ≡ missing)
      → Good digest [] disk
  unfolding load_execution_ledger
  start-Good disk l files = record {
    loaded = ap (load_execution_ledger digest) l;
    full = tt;
    distinct = tt;
    files = λ (path : String). subst (FileGood digest []) (sym (files path)) tt;
  }

  -- After any sequence of calls from a disk without a ledger and without evidence, a process having
  -- stopped between the two writes of any of them, the ledger can be loaded, no two of its entries are
  -- of one receipt and client order id, and each evidence file can be loaded and has the receipt, the
  -- order ids, the response, the approval, the issuance link and the entry hash of one of the entries.
  pub Recorded-Good :
      {disk : ExecutionDisk}
      → Recorded disk
      → (entries : List ExecutionLedgerEntry) × Good digest entries disk
  Recorded-Good (start disk l files) = ([], start-Good disk l files)
  Recorded-Good (called {disk} h r) =
      let (entries, good) = Recorded-Good h in
      Case-Good entries disk good r (write_execution_evidence_artifacts digest r disk)
        (write_execution_evidence_artifacts-Case digest entries disk good r)
  Recorded-Good (stopped {disk} h r q) =
      let (entries, good) = Recorded-Good h in stopped-Good entries disk good r

  -- What a file holds after a call that returned.
  Case-kept :
      (entries : List ExecutionLedgerEntry) (disk : ExecutionDisk) (good : Good digest entries disk)
      (r : Recording) (after : ExecutionDisk × Outcome ExecutionEvidence) (ev : ExecutionEvidence)
      → Case digest entries disk good r after
      → after.1 ≡ ok ev
      → (after.0.evidence r.evidence_path ≡ holding ev) × (is_evidence_of r ev ≡ true)
  unfolding store_evidence new_evidence
  Case-kept entries disk good r after ev (known old q y e) h =
      let same : ok old ≡ ok ev =
        sym (ap (λ (x : ExecutionDisk × Outcome ExecutionEvidence). x.1) e) ∙ h in
      let found : old ≡ ev = cc in
      (
        ap (λ (x : ExecutionDisk × Outcome ExecutionEvidence). x.0.evidence r.evidence_path) e
            ∙ q
            ∙ ap (λ (x : ExecutionEvidence). holding x) found,
        subst (λ (x : ExecutionEvidence). is_evidence_of r x ≡ true) found y,
      )
  Case-kept entries disk good r after ev (other old q n e f) h =
      absurd (false≢true (sym f ∙ ap is_ok h))
  Case-kept entries disk good r after ev (refused q n e f) h =
      absurd (false≢true (sym f ∙ ap is_ok h))
  Case-kept entries disk good r after ev (grown e q n g) h =
      let same : ok (new_evidence digest r e) ≡ ok ev =
        sym (ap (λ (x : ExecutionDisk × Outcome ExecutionEvidence). x.1) g) ∙ h in
      let found : new_evidence digest r e ≡ ev = cc in
      (
        ap (λ (x : ExecutionDisk × Outcome ExecutionEvidence). x.0.evidence r.evidence_path) g
            ∙ if-true (str_eq r.evidence_path r.evidence_path) (holding (new_evidence digest r e)) _
                (str_eq_refl r.evidence_path)
            ∙ ap (λ (x : ExecutionEvidence). holding x) found,
        subst (λ (x : ExecutionEvidence). is_evidence_of r x ≡ true) found
            (rw (str_eq_refl r.receipt_hash, str_eq_refl r.order.client_oid) refl),
      )

  -- A call that returned evidence can be repeated, also by one that differs in all but the path, the
  -- receipt and the client order id: it returns the evidence again and writes nothing.
  pub write_execution_evidence_artifacts_again :
      {disk : ExecutionDisk}
      → Recorded disk
      → (r again : Recording) (ev : ExecutionEvidence)
      → (write_execution_evidence_artifacts digest r disk).1 ≡ ok ev
      → again.evidence_path ≡ r.evidence_path
      → again.receipt_hash ≡ r.receipt_hash
      → again.order.client_oid ≡ r.order.client_oid
      → write_execution_evidence_artifacts digest again
          (write_execution_evidence_artifacts digest r disk).0
        ≡ ((write_execution_evidence_artifacts digest r disk).0, ok ev)
  unfolding existing_evidence
  write_execution_evidence_artifacts_again {disk} h r again ev e p a c =
      let after = write_execution_evidence_artifacts digest r disk in
      let (entries, good) = Recorded-Good h in
      let (kept, mine) =
        Case-kept entries disk good r after ev
          (write_execution_evidence_artifacts-Case digest entries disk good r) e in
      let (now, fine) = Recorded-Good (called h r) in
      let there : after.0.evidence again.evidence_path ≡ holding ev =
        ap after.0.evidence p ∙ kept in
      let (loads, recorded) = subst (FileGood digest now) there (fine.files again.evidence_path) in
      let same : is_evidence_of again ev ≡ true =
        subst
          (λ (t : String).
            (str_eq ev.receipt_hash t && str_eq ev.client_oid again.order.client_oid) ≡ true)
          (sym a)
          (subst
            (λ (t : String).
              (str_eq ev.receipt_hash r.receipt_hash && str_eq ev.client_oid t) ≡ true)
            (sym c) mine) in
      write_holding digest now after.0 fine again ev there loads ∙ (rw same refl)
