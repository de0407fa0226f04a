-- ===== src/Bundle/Caught.antt =====
-- src/redline/service/release.py: the steps of the links of a bundle raise what is caught.
use playbook_redline.Base.{
  ℕ, String, ◌≡◌, refl, sym, ap, ◌∙◌, Bool, true, false, Option, none, some, List, append, str_eq,
  if◌then◌else◌,
}
use playbook_redline.Canonical.{Json, null, bool, int, str, arr, obj, Fields}
use playbook_redline.Canonical.Dict.{get, nonempty}
use playbook_redline.Execution.Link.{ReadCheckpoint}
use playbook_redline.Bundle.{
  Fault, canonicalization_error, Answer, passed, failed, uncaught, ◌>>=◌, ◌>>◌, require,
  receipt_mismatch, bundle_mapping, bundle_hash_string, find_content, content_or, artifact_of,
  bundle_artifact_content,
}
use playbook_redline.Bundle.Links.{
  as_dict, release_receipt, approval_in, ledger_of, validated, check_chain_approval_link,
  check_chain_execution_link,
}

-- It raises nothing that is not caught.
abbrev pub Caught : {A : Type 0} → Answer A → Type 0
Caught answer = answer ≡ uncaught → ⊥

pub bind-Caught :
    {A B : Type 0} (m : Answer A) (f : A → Answer B)
    → Caught m
    → ((a : A) → Caught (f a))
    → Caught (m >>= f)
bind-Caught (passed a) f c d h = d a h
bind-Caught (failed fault) f c d h = cc
bind-Caught uncaught f c d h = c refl

pub bind-uncaught :
    {A B : Type 0} (m : Answer A) (f : A → Answer B)
    → Caught m
    → (m >>= f) ≡ uncaught
    → (a : A) × (m ≡ passed a) × (f a ≡ uncaught)
bind-uncaught (passed a) f c h = (a, refl, h)
bind-uncaught (failed fault) f c h = cc
bind-uncaught uncaught f c h = absurd (c refl)

pub require-Caught : (b : Bool) (fault : Fault) → Caught (require b fault)
unfolding require
require-Caught true fault h = cc
require-Caught false fault h = cc

pub passed-Caught : {A : Type 0} (a : A) → Caught (passed a)
passed-Caught a h = cc

pub bundle_mapping-Caught :
    (payload : Fields) (name : String) → Caught (bundle_mapping payload name)
unfolding bundle_mapping
bundle_mapping-Caught payload name h = go (get payload name) h
  where
    go :
        (o : Option Json)
        → elim o as (λ (x : Option Json). Answer Fields) [
          | some (obj fs) ↦ passed fs
          | _ ↦ failed (canonicalization_error "DATA_MISSING" (append name " is missing"))
        ]
          ≡ uncaught
        → ⊥
    go (some (obj fs)) e = cc
    go none e = cc
    go (some _) e = cc

pub if-Caught :
    {A : Type 0} (b : Bool) (x y : Answer A) → Caught x → Caught y → Caught (if b then x else y)
if-Caught true x y c d h = c h
if-Caught false x y c d h = d h

pub bundle_hash_string-Caught :
    (payload : Fields) (name label : String) → Caught (bundle_hash_string payload name label)
unfolding bundle_hash_string
bundle_hash_string-Caught payload name label h = go (get payload name) h
  where
    go :
        (o : Option Json)
        → elim o as (λ (x : Option Json). Answer String) [
          | some (str t) ↦
              if nonempty (some t)
              then passed t
              else failed (canonicalization_error "DATA_MISSING" (append label " is missing"))
          | _ ↦ failed (canonicalization_error "DATA_MISSING" (append label " is missing"))
        ]
          ≡ uncaught
        → ⊥
    go (some (str t)) e = if-Caught (nonempty (some t)) _ _ (λ k. cc) (λ k. cc) e
    go none e = cc
    go (some _) e = cc

pub content_or-Caught : (artifact_id : String) (o : Option Json) → Caught (content_or artifact_id o)
content_or-Caught artifact_id (some content) h = cc
content_or-Caught artifact_id none h = cc

pub artifact_of-Caught :
    (redline : Fields) (artifact_id : String) → Caught (artifact_of redline artifact_id)
unfolding artifact_of
artifact_of-Caught redline artifact_id h = go (get redline "artifacts") h
  where
    go :
        (o : Option Json)
        → elim o as (λ (x : Option Json). Answer Json) [
          | some (arr items) ↦ content_or artifact_id (find_content artifact_id items)
          | _ ↦ failed (canonicalization_error "DATA_MISSING" "redline artifacts are missing")
        ]
          ≡ uncaught
        → ⊥
    go (some (arr items)) e = content_or-Caught artifact_id (find_content artifact_id items) e
    go none e = cc
    go (some _) e = cc

pub bundle_artifact_content-Caught :
    (bundle : Fields) (artifact_id : String) → Caught (bundle_artifact_content bundle artifact_id)
unfolding bundle_artifact_content
bundle_artifact_content-Caught bundle artifact_id =
    bind-Caught (bundle_mapping bundle "redline") _ (bundle_mapping-Caught bundle "redline")
      (λ (redline : Fields). artifact_of-Caught redline artifact_id)

pub release_receipt-Caught : (o : Option Json) (h : String) → Caught (release_receipt o h)
release_receipt-Caught none h e = cc
release_receipt-Caught (some null) h e = cc
release_receipt-Caught (some (str text)) h e =
    require-Caught (str_eq text h) (receipt_mismatch "release receipt link mismatch") e
release_receipt-Caught (some (bool b)) h e = cc
release_receipt-Caught (some (int n)) h e = cc
release_receipt-Caught (some _) h e = cc

pub approval_in-Caught : (o : Option Json) → Caught (approval_in o)
approval_in-Caught (some (obj fs)) h = cc
approval_in-Caught none h = cc
approval_in-Caught (some _) h = cc

pub ledger_of-Caught : (j : Json) → Caught (ledger_of j)
ledger_of-Caught (arr xs) h = cc
ledger_of-Caught null h = cc
ledger_of-Caught _ h = cc

pub validated-Caught : (o : Option ReadCheckpoint) → Caught (validated o)
validated-Caught (some read) h = cc
validated-Caught none h = cc

pub as_dict-uncaught : (j : Json) → ((fields : Fields) → j ≡ obj fields → ⊥) → as_dict j ≡ uncaught
as_dict-uncaught (obj fs) n = absurd (n fs refl)
as_dict-uncaught null n = refl
as_dict-uncaught _ n = refl

pub uncaught_no_dict : (j : Json) → as_dict j ≡ uncaught → (fields : Fields) → j ≡ obj fields → ⊥
uncaught_no_dict j h fields e = let clash = sym (ap as_dict e) ∙ h in cc

-- A step that asks for a condition, and what follows.
pub require_then-Caught :
    {B : Type 0} (b : Bool) (fault : Fault) (k : Answer B)
    → Caught k
    → Caught (require b fault >> k)
require_then-Caught b fault k c = bind-Caught (require b fault) _ (require-Caught b fault) (λ u. c)

module _ (digest : List ℕ → String) where
  pub check_chain_approval_link-Caught :
      (bundle : Fields) → Caught (check_chain_approval_link digest bundle)
  unfolding check_chain_approval_link
  check_chain_approval_link-Caught bundle =
      bind-Caught _ _ (bundle_mapping-Caught bundle "release_candidate") (λ (release : Fields).
        bind-Caught _ _ (bundle_mapping-Caught bundle "execution_evidence") (λ (execution : Fields).
          bind-Caught _ _ (approval_in-Caught (get release "approval")) (λ (approval : Fields).
            bind-Caught _ _ (require_then-Caught _ _ _ (require-Caught _ _))
              (λ u. passed-Caught _))))

  pub check_chain_execution_link-Caught :
      (bundle : Fields) → Caught (check_chain_execution_link digest bundle)
  unfolding check_chain_execution_link
  check_chain_execution_link-Caught bundle =
      bind-Caught _ _ (bundle_mapping-Caught bundle "redline") (λ (redline : Fields).
        bind-Caught _ _ (bundle_mapping-Caught bundle "execution_evidence") (λ (execution : Fields).
          bind-Caught _ _ (bundle_artifact_content-Caught bundle "execution-evidence")
            (λ (artifact : Json).
              bind-Caught _ _ (bundle_hash_string-Caught redline "receipt_hash" "receipt hash")
                (λ (h : String).
                  bind-Caught _ _
                    (bind-Caught _ _ (require_then-Caught _ _ _ (require-Caught _ _))
                      (λ u. require-Caught _ _))
                    (λ u. passed-Caught _)))))
