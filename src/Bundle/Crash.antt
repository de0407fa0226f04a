-- ===== src/Bundle/Crash.antt =====
-- src/redline/service/release.py: which bundles make `_verify_bundle_chain_links` raise.
use playbook_redline.Base.{
  ℕ, String, ◌≡◌, refl, ◌↔◌, ◌&&◌, Option, none, some, List, [], if◌then◌else◌,
}
use playbook_redline.Canonical.{Json, null, obj, Items, nil, cons, Fields}
use playbook_redline.Canonical.Dict.{get}
use playbook_redline.Canonical.Hash.{genesis, hash_obj}
use playbook_redline.Ledger.{without, is_str}
use playbook_redline.Execution.Link.{ReadCheckpoint}
use playbook_redline.Bundle.{
  Answer, passed, failed, uncaught, ◌>>=◌, ◌>>◌, BundleCheck, require, receipt_mismatch,
  bundle_mapping, bundle_hash_string, bundle_artifact_content,
}
use playbook_redline.Bundle.Links.{
  as_dict, release_receipt, matched, match_from, matching_issuance_entry, check_chain_receipt_link,
  check_chain_approval_link, check_chain_execution_link, check_chain_checkpoint_link, report,
  verify_bundle_chain_links,
}
use playbook_redline.Bundle.Caught.{
  Caught, bind-Caught, bind-uncaught, require-Caught, passed-Caught, bundle_mapping-Caught,
  if-Caught, bundle_hash_string-Caught, bundle_artifact_content-Caught, release_receipt-Caught,
  ledger_of-Caught, validated-Caught, as_dict-uncaught, uncaught_no_dict, require_then-Caught,
  check_chain_approval_link-Caught, check_chain_execution_link-Caught,
}

matched-Caught : (o : Option String) → Caught (matched o)
matched-Caught (some h) e = cc
matched-Caught none e = cc

-- If what follows raises nothing that is not caught, the first step did.
stops :
    {A B : Type 0} (m : Answer A) (f : A → Answer B)
    → ((a : A) → Caught (f a))
    → (m >>= f) ≡ uncaught
    → m ≡ uncaught
stops (passed a) f c e = absurd (c a e)
stops (failed fault) f c e = cc
stops uncaught f c e = refl

module _ (digest : List ℕ → String) (receipt_hash : String) where
  match_from-Caught :
      (previous : String) (match : Option String) (entries : Items)
      → Caught (match_from digest receipt_hash previous match entries)
  unfolding match_from
  match_from-Caught previous match nil h = matched-Caught match h
  match_from-Caught previous match (cons (obj entry) entries) h =
      let own = hash_obj digest (obj (without "entry_hash" entry)) in
      if-Caught
        (is_str (get entry "previous_entry_hash") previous && is_str (get entry "entry_hash") own) _
        _
        (match_from-Caught own
          (if is_str (get entry "receipt_hash") receipt_hash then some own else match) entries)
        (λ k. cc) h
  match_from-Caught previous match (cons null entries) h = cc
  match_from-Caught previous match (cons _ entries) h = cc

-- The bundle gets as far as its receipt, which is no dict.
pub record BadReceipt (bundle : Fields) : Type 0 where
  pub redline : Fields
  pub release : Fields
  pub content : Json
  pub receipt_hash : String
  pub redline_at : bundle_mapping bundle "redline" ≡ passed redline
  pub release_at : bundle_mapping bundle "release_candidate" ≡ passed release
  pub content_at : bundle_artifact_content bundle "receipt" ≡ passed content
  pub hash_at : bundle_hash_string redline "receipt_hash" "receipt hash" ≡ passed receipt_hash
  pub no_dict : (fields : Fields) → content ≡ obj fields → ⊥

module _ (digest : List ℕ → String) (validate : Json → Option ReadCheckpoint)
    (bundle : Fields) where
  check_chain_checkpoint_link-Caught : Caught (check_chain_checkpoint_link digest validate bundle)
  unfolding check_chain_checkpoint_link matching_issuance_entry
  check_chain_checkpoint_link-Caught =
      bind-Caught _ _ (bundle_mapping-Caught bundle "redline") (λ (redline : Fields).
        bind-Caught _ _ (bundle_mapping-Caught bundle "execution_evidence") (λ (execution : Fields).
          bind-Caught _ _ (bundle_artifact_content-Caught bundle "issuance-ledger-checkpoint")
            (λ (payload : Json).
              bind-Caught _ _ (bundle_artifact_content-Caught bundle "issuance-ledger")
                (λ (content : Json).
                  bind-Caught _ _ (ledger_of-Caught content) (λ (entries : Items).
                    bind-Caught _ _ (validated-Caught (validate payload))
                      (λ (read : ReadCheckpoint).
                        bind-Caught _ _
                          (bind-Caught _ _ (require_then-Caught _ _ _ (require-Caught _ _))
                            (λ u. bundle_hash_string-Caught redline "receipt_hash" "receipt hash"))
                          (λ (h : String).
                            bind-Caught _ _
                              (bind-Caught _ _ (require_then-Caught _ _ _ (require-Caught _ _))
                                (λ u. match_from-Caught digest h genesis none entries))
                              (λ k. require_then-Caught _ _ _ (passed-Caught _)))))))))

  BadReceipt-uncaught : BadReceipt bundle → check_chain_receipt_link bundle ≡ uncaught
  unfolding check_chain_receipt_link
  BadReceipt-uncaught b =
      rw (b.redline_at, b.release_at, b.content_at, b.hash_at, as_dict-uncaught b.content b.no_dict)
        refl

  uncaught-BadReceipt : check_chain_receipt_link bundle ≡ uncaught → BadReceipt bundle
  unfolding check_chain_receipt_link
  uncaught-BadReceipt e =
      let (redline, r, e1) =
        bind-uncaught (bundle_mapping bundle "redline") _ (bundle_mapping-Caught bundle "redline")
          e in
      let (release, l, e2) =
        bind-uncaught (bundle_mapping bundle "release_candidate") _
          (bundle_mapping-Caught bundle "release_candidate") e1 in
      let (content, c, e3) =
        bind-uncaught (bundle_artifact_content bundle "receipt") _
          (bundle_artifact_content-Caught bundle "receipt") e2 in
      let (h, s, e4) =
        bind-uncaught (bundle_hash_string redline "receipt_hash" "receipt hash") _
          (bundle_hash_string-Caught redline "receipt_hash" "receipt hash") e3 in
      let after = λ (receipt : Fields).
        require (is_str (get receipt "receipt_hash") h) (receipt_mismatch "receipt link mismatch")
        >> release_receipt (get release "redline_receipt_hash") h
        >> passed h in
      let after-Caught : (receipt : Fields) → Caught (after receipt) = λ (receipt : Fields).
        bind-Caught _ _ (require_then-Caught _ _ _ (release_receipt-Caught _ h))
          (λ u. passed-Caught h) in
      record {
        redline = redline;
        release = release;
        content = content;
        receipt_hash = h;
        redline_at = r;
        release_at = l;
        content_at = c;
        hash_at = s;
        no_dict = uncaught_no_dict content (stops (as_dict content) after after-Caught e4);
      }

  reported :
      (name : String) (answer : Answer String) (rest : Option (List BundleCheck))
      → Caught answer
      → report digest validate name answer rest ≡ none
      → rest ≡ none
  reported name answer none c e = refl
  reported name (passed detail) (some checks) c e = cc
  reported name (failed fault) (some checks) c e = cc
  reported name uncaught (some checks) c e = absurd (c refl)

  -- The checks after the first raise nothing that is not caught.
  rest_raises :
      report digest validate "chain-approval-link" (check_chain_approval_link digest bundle) (
          report digest validate "chain-execution-link" (check_chain_execution_link digest bundle) (
            report digest validate "chain-checkpoint-link"
              (check_chain_checkpoint_link digest validate bundle)
              (some [])))
        ≡ none
      → BadReceipt bundle
  rest_raises e =
      let a =
        reported "chain-approval-link" (check_chain_approval_link digest bundle) _
          (check_chain_approval_link-Caught digest bundle) e in
      let b =
        reported "chain-execution-link" (check_chain_execution_link digest bundle) _
          (check_chain_execution_link-Caught digest bundle) a in
      let c =
        reported "chain-checkpoint-link" (check_chain_checkpoint_link digest validate bundle)
          (some []) check_chain_checkpoint_link-Caught b in
      cc

  -- `_verify_bundle_chain_links` raises what is not caught exactly for a bundle whose `redline` and
  -- `release_candidate` are dicts, with a receipt hash, and whose receipt artifact is there and holds
  -- no dict; for every other bundle it reports its checks.
  pub verify_bundle_chain_links_iff :
      (verify_bundle_chain_links digest validate bundle ≡ none) ↔ BadReceipt bundle
  unfolding verify_bundle_chain_links
  verify_bundle_chain_links_iff =
      (λ e. first (check_chain_receipt_link bundle) refl e, λ b. rw (BadReceipt-uncaught b) refl)
    where
      first :
          (answer : Answer String)
          → check_chain_receipt_link bundle ≡ answer
          → report digest validate "chain-receipt-link" answer (
              report digest validate "chain-approval-link"
                (check_chain_approval_link digest bundle)
                (report digest validate "chain-execution-link"
                  (check_chain_execution_link digest bundle)
                  (report digest validate "chain-checkpoint-link"
                    (check_chain_checkpoint_link digest validate bundle)
                    (some []))))
            ≡ none
          → BadReceipt bundle
      first uncaught q e = uncaught-BadReceipt q
      first (passed detail) q e =
          rest_raises (reported "chain-receipt-link" (passed detail) _ (passed-Caught detail) e)
      first (failed fault) q e =
          rest_raises (reported "chain-receipt-link" (failed fault) _ (λ h. cc) e)
