-- ===== src/Bundle/Parts.antt =====
-- src/redline/service/release.py: what the receipt, approval and execution links of a bundle say.
use playbook_redline.Base.{ℕ, String, ◌≡◌, refl, sym, ap, ◌∙◌, true, Option, none, some, List}
use playbook_redline.Canonical.{Json, str, obj, Fields}
use playbook_redline.Canonical.Dict.{get}
use playbook_redline.Canonical.Hash.{hash_obj}
use playbook_redline.Ledger.{without, is_str}
use playbook_redline.Execution.Entries.{is_str-some}
use playbook_redline.Bundle.{
  passed, ◌>>◌, require, receipt_mismatch, bundle_mapping, bundle_hash_string,
  bundle_artifact_content,
}
use playbook_redline.Bundle.Links.{
  as_dict, release_receipt, approval_in, approval_record_hash, decided, check_chain_receipt_link,
  check_chain_approval_link, check_chain_execution_link,
}
use playbook_redline.Bundle.Equality.{py_equal}
use playbook_redline.Bundle.Inversion.{
  bind-passed, require-passed, require_alone, bundle_mapping-passed, bundle_hash_string-passed,
  as_dict-passed, approval_in-passed,
}

-- `payload[outer][inner]`.
abbrev pub inside : Fields → String → String → Option Json
inside payload outer inner = elim (get payload outer) [
  | some (obj fields) ↦ get fields inner
  | _ ↦ none
]

-- What is inside the parts of a bundle.
pub inside-get :
    (payload : Fields) (outer inner : String) (fields : Fields)
    → get payload outer ≡ some (obj fields)
    → inside payload outer inner ≡ get fields inner
inside-get payload outer inner fields e = rw (e, inside) refl

-- The receipt of the bundle.
abbrev pub IsReceipt : Fields → String → Type 0
IsReceipt bundle receipt_hash = inside bundle "redline" "receipt_hash" ≡ some (str receipt_hash)

abbrev pub ReceiptLinked : Fields → String → Type 0
ReceiptLinked bundle receipt_hash =
    (receipt : Fields) × (bundle_artifact_content bundle "receipt" ≡ passed (obj receipt))
    × (get receipt "receipt_hash" ≡ some (str receipt_hash))

pub receipt_linked :
    (bundle : Fields) (detail : String)
    → check_chain_receipt_link bundle ≡ passed detail
    → (h : String) × IsReceipt bundle h × ReceiptLinked bundle h
unfolding check_chain_receipt_link
receipt_linked bundle detail e =
    let (redline, r, e1) = bind-passed (bundle_mapping bundle "redline") _ detail e in
    let (release, l, e2) = bind-passed (bundle_mapping bundle "release_candidate") _ detail e1 in
    let (content, c, e3) = bind-passed (bundle_artifact_content bundle "receipt") _ detail e2 in
    let (h, s, e4) =
      bind-passed (bundle_hash_string redline "receipt_hash" "receipt hash") _ detail e3 in
    let (receipt, d, e5) = bind-passed (as_dict content) _ detail e4 in
    let (u, e6, e7) =
      bind-passed
        (require (is_str (get receipt "receipt_hash") h) (receipt_mismatch "receipt link mismatch")
          >> release_receipt (get release "redline_receipt_hash") h)
        _ detail e5 in
    let (m, e8) =
      require-passed (is_str (get receipt "receipt_hash") h)
        (receipt_mismatch "receipt link mismatch") _ u e6 in
    (
      h,
      inside-get bundle "redline" "receipt_hash" redline
            (bundle_mapping-passed bundle "redline" redline r)
          ∙ bundle_hash_string-passed redline "receipt_hash" "receipt hash" h s,
      (
        receipt,
        c ∙ ap (λ (j : Json). passed j) (as_dict-passed content receipt d),
        is_str-some (get receipt "receipt_hash") h m,
      ),
    )

pub same_receipt :
    (bundle : Fields) (h k : String) → IsReceipt bundle h → IsReceipt bundle k → k ≡ h
same_receipt bundle h k a b = let clash = sym b ∙ a in cc

module _ (digest : List ℕ → String) (bundle : Fields) where
  -- The order is placed under the approval of the release.
  abbrev pub ApprovalLinked : Type 0
  ApprovalLinked =
      (approval : Fields) × (inside bundle "release_candidate" "approval" ≡ some (obj approval))
      × (inside bundle "execution_evidence" "approval_hash"
          ≡ some (str (approval_record_hash digest approval)))

  pub approval_linked :
      (detail : String) → check_chain_approval_link digest bundle ≡ passed detail → ApprovalLinked
  unfolding check_chain_approval_link
  approval_linked detail e =
      let (release, l, e1) = bind-passed (bundle_mapping bundle "release_candidate") _ detail e in
      let (execution, x, e2) =
        bind-passed (bundle_mapping bundle "execution_evidence") _ detail e1 in
      let (approval, a, e3) = bind-passed (approval_in (get release "approval")) _ detail e2 in
      let own = approval_record_hash digest approval in
      let (u, e4, e5) =
        bind-passed
          (require (is_str (get execution "approval_hash") own)
              (receipt_mismatch "approval link mismatch")
            >> require (decided (get bundle "release_decision_record") approval)
                (receipt_mismatch "approval decision record mismatch"))
          _ detail e3 in
      let (m, e6) =
        require-passed (is_str (get execution "approval_hash") own)
          (receipt_mismatch "approval link mismatch") _ u e4 in
      (
        approval,
        inside-get bundle "release_candidate" "approval" release
              (bundle_mapping-passed bundle "release_candidate" release l)
            ∙ approval_in-passed (get release "approval") approval a,
        inside-get bundle "execution_evidence" "approval_hash" execution
              (bundle_mapping-passed bundle "execution_evidence" execution x)
            ∙ is_str-some (get execution "approval_hash") own m,
      )

  -- The order is for the receipt, its copy among the artifacts is the same, and it has its own hash.
  pub record ExecutionLinked (receipt_hash : String) : Type 0 where
    pub execution : Fields
    pub artifact : Json
    pub held : get bundle "execution_evidence" ≡ some (obj execution)
    pub of_receipt : get execution "receipt_hash" ≡ some (str receipt_hash)
    pub listed : bundle_artifact_content bundle "execution-evidence" ≡ passed artifact
    pub copied : py_equal artifact (obj execution) ≡ true
    pub own_hash :
        get execution "artifact_hash"
        ≡ some (str (hash_obj digest (obj (without "artifact_hash" execution))))

  pub execution_linked :
      (detail : String)
      → check_chain_execution_link digest bundle ≡ passed detail
      → (h : String) × IsReceipt bundle h × ExecutionLinked h
  unfolding check_chain_execution_link
  execution_linked detail e =
      let (redline, r, e1) = bind-passed (bundle_mapping bundle "redline") _ detail e in
      let (execution, x, e2) =
        bind-passed (bundle_mapping bundle "execution_evidence") _ detail e1 in
      let (artifact, c, e3) =
        bind-passed (bundle_artifact_content bundle "execution-evidence") _ detail e2 in
      let (h, s, e4) =
        bind-passed (bundle_hash_string redline "receipt_hash" "receipt hash") _ detail e3 in
      let own = hash_obj digest (obj (without "artifact_hash" execution)) in
      let first =
        require (is_str (get execution "receipt_hash") h)
          (receipt_mismatch "execution receipt link mismatch") in
      let second =
        require (py_equal artifact (obj execution))
          (receipt_mismatch "execution artifact copy mismatch") in
      let third =
        require (is_str (get execution "artifact_hash") own)
          (receipt_mismatch "execution evidence hash mismatch") in
      let (u, e5, e6) = bind-passed (first >> second >> third) _ detail e4 in
      let (v, e7, e8) = bind-passed (first >> second) _ u e5 in
      let (a, e9) =
        require-passed (is_str (get execution "receipt_hash") h)
          (receipt_mismatch "execution receipt link mismatch") second v e7 in
      let b =
        require_alone (py_equal artifact (obj execution))
          (receipt_mismatch "execution artifact copy mismatch") v e9 in
      let d =
        require_alone (is_str (get execution "artifact_hash") own)
          (receipt_mismatch "execution evidence hash mismatch") u e8 in
      (
        h,
        inside-get bundle "redline" "receipt_hash" redline
              (bundle_mapping-passed bundle "redline" redline r)
            ∙ bundle_hash_string-passed redline "receipt_hash" "receipt hash" h s,
        record {
          execution = execution;
          artifact = artifact;
          held = bundle_mapping-passed bundle "execution_evidence" execution x;
          of_receipt = is_str-some (get execution "receipt_hash") h a;
          listed = c;
          copied = b;
          own_hash = is_str-some (get execution "artifact_hash") own d;
        },
      )
