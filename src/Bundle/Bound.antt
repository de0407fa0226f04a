-- ===== src/Bundle/Bound.antt =====
-- src/redline/service/release.py: bundles whose links all hold.
use playbook_redline.Base.{
  ℕ, String, ◌≡◌, refl, ap, ◌∙◌, subst, Bool, true, false, Option, none, some, List, ◌∷◌, all,
}
use playbook_redline.Canonical.{Json, Fields}
use playbook_redline.Execution.Link.{ReadCheckpoint}
use playbook_redline.Bundle.{Answer, passed, failed, uncaught, BundleCheck, verification_detail}
use playbook_redline.Bundle.Links.{
  check_chain_receipt_link, check_chain_approval_link, check_chain_execution_link,
  check_chain_checkpoint_link, report, verify_bundle_chain_links,
}
use playbook_redline.Bundle.Parts.{
  IsReceipt, ReceiptLinked, receipt_linked, same_receipt, ApprovalLinked, approval_linked,
  ExecutionLinked, execution_linked,
}
use playbook_redline.Bundle.Checkpoint.{CheckpointLinked, checkpoint_linked}

abbrev pub is_good : BundleCheck → Bool
is_good check = check.ok

module _ (digest : List ℕ → String) (validate : Json → Option ReadCheckpoint) where
  -- A check that was reported, and those after it, are good.
  report_good :
      (name : String) (answer : Answer String) (rest : Option (List BundleCheck))
      (checks : List BundleCheck)
      → report digest validate name answer rest ≡ some checks
      → all is_good checks ≡ true
      → (detail : String) × (answer ≡ passed detail)
        × ((others : List BundleCheck) × (rest ≡ some others) × (all is_good others ≡ true))
  report_good name (passed detail) (some others) checks e g =
      let same : (record { name = name; ok = true; detail = detail } ∷ others) ≡ checks = cc in
      let good : all is_good (record { name = name; ok = true; detail = detail } ∷ others) ≡ true =
        ap (all is_good) same ∙ g in
      (detail, refl, (others, refl, good))
  report_good name (failed fault) (some others) checks e g =
      let same : (record { name = name; ok = false; detail = verification_detail fault } ∷ others)
          ≡ checks =
        cc in
      let clash : false ≡ true = ap (all is_good) same ∙ g in cc
  report_good name uncaught rest checks e g = cc
  report_good name (passed detail) none checks e g = cc
  report_good name (failed fault) none checks e g = cc

  -- The receipt of the bundle, and what each part of the bundle has to do with it.
  pub record Bound (bundle : Fields) : Type 0 where
    pub receipt_hash : String
    pub issued : IsReceipt bundle receipt_hash
    pub receipt : ReceiptLinked bundle receipt_hash
    pub approval : ApprovalLinked digest bundle
    pub execution : ExecutionLinked digest bundle receipt_hash
    pub checkpoint : CheckpointLinked digest validate bundle receipt_hash

  -- When `_verify_bundle_chain_links` reports no check that fails, the bundle has a receipt hash that
  -- is that of its receipt, of its order and of an entry of its issuance ledger, and that its
  -- checkpoint covers; the order names the hash of the approval of the release, of that entry and of
  -- the checkpoint, has its own hash and is among the artifacts; and the checkpoint has its own hash
  -- and, where it has a Merkle root, the root of its receipts.
  pub verify_bundle_chain_links-Bound :
      (bundle : Fields) (checks : List BundleCheck)
      → verify_bundle_chain_links digest validate bundle ≡ some checks
      → all is_good checks ≡ true
      → Bound bundle
  unfolding verify_bundle_chain_links
  verify_bundle_chain_links-Bound bundle checks e g =
      let (d1, a1, (c1, e1, g1)) =
        report_good "chain-receipt-link" (check_chain_receipt_link bundle) _ checks e g in
      let (d2, a2, (c2, e2, g2)) =
        report_good "chain-approval-link" (check_chain_approval_link digest bundle) _ c1 e1 g1 in
      let (d3, a3, (c3, e3, g3)) =
        report_good "chain-execution-link" (check_chain_execution_link digest bundle) _ c2 e2 g2 in
      let (d4, a4, (c4, e4, g4)) =
        report_good "chain-checkpoint-link" (check_chain_checkpoint_link digest validate bundle) _
          c3 e3 g3 in
      let (h, issued, receipt) = receipt_linked bundle d1 a1 in
      let (k, placed, execution) = execution_linked digest bundle d3 a3 in
      let (l, covered, checkpoint) = checkpoint_linked digest validate bundle d4 a4 in
      record {
        receipt_hash = h;
        issued = issued;
        receipt = receipt;
        approval = approval_linked digest bundle d2 a2;
        execution =
            subst (ExecutionLinked digest bundle) (same_receipt bundle h k issued placed) execution;
        checkpoint =
            subst (CheckpointLinked digest validate bundle) (same_receipt bundle h l issued covered)
              checkpoint;
      }
