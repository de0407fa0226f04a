-- ===== src/Execution/Evidence/Rewrite.antt =====
-- src/redline/sponsor/bitget_execution.py: what an order appended to a ledger with older entries does
-- to it.
use playbook_redline.Base.{ℕ, String, ◌≡◌, sym, ap, ◌∙◌, ◌⊎◌, inl, inr, true, List, [], ◌∷◌, any}
use playbook_redline.Canonical.Hash.{genesis, Collision}
use playbook_redline.Execution.{Outcome, ok, resume}
use playbook_redline.Execution.Ledger.{ExecutionLedgerEntry, mismatch, load_execution_ledger}
use playbook_redline.Execution.Ledger.Chain.{load_execution_ledger-Linked}
use playbook_redline.Execution.Ledger.Legacy.{is_legacy, load_from-legacy}
use playbook_redline.Execution.Evidence.{
  ExecutionDisk, Recording, append_order, next_entry, store_entry,
}
use playbook_redline.Execution.Evidence.Cases.{
  Outcome-cases, is_ok, resume-failed, append_order_loaded,
}

module _ (digest : List ℕ → String) where
  -- If the ledger can be loaded and one of its entries lacks a link field, an order that is appended
  -- makes `load_execution_ledger` refuse the ledger with EXECUTION_LEDGER_MISMATCH, or a collision of
  -- SHA-256 is in hand: the entries are written back with defaults that their hashes do not cover.
  pub append_order-mismatch :
      (disk : ExecutionDisk) (r : Recording) (entries : List ExecutionLedgerEntry)
      → load_execution_ledger digest disk.ledger ≡ ok entries
      → any is_legacy entries ≡ true
      → is_ok (append_order digest r disk).1 ≡ true
      → (load_execution_ledger digest (append_order digest r disk).0.ledger ≡ mismatch)
        ⊎ Collision digest
  unfolding load_execution_ledger
  append_order-mismatch disk r entries l a e =
      let run = append_order_loaded digest disk r entries l in
      elim (Outcome-cases ExecutionLedgerEntry (next_entry digest r entries)) [
        | inr n ↦
            let failed =
              (resume-failed (store_entry entries) disk (next_entry digest r entries) n).1 in
            let clash =
              sym e
              ∙ ap (λ (x : ExecutionDisk × Outcome ExecutionLedgerEntry). is_ok x.1) run
              ∙ failed in
            cc
        | inl (new, q) ↦
            let written =
              run
              ∙ ap (λ (o : Outcome ExecutionLedgerEntry). resume (store_entry entries) (disk, o))
                  q in
            elim (load_from-legacy digest genesis entries (new ∷ []) a
              (load_execution_ledger-Linked digest disk.ledger entries l)) [
                | inr collision ↦ inr collision
                | inl h ↦ inl (
                    ap
                      (λ (x : ExecutionDisk × Outcome ExecutionLedgerEntry).
                        load_execution_ledger digest x.0.ledger)
                      written
                    ∙ h)
              ]
      ]
