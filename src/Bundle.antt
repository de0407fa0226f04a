-- ===== src/Bundle.antt =====
-- src/redline/service/release.py: the evidence bundle of a release, and the checks on it. A bundle is
-- what `json.loads` makes of its file.
pub mod Equality
pub mod Links
pub mod Inversion
pub mod Parts
pub mod Checkpoint
pub mod Bound
pub mod Caught
pub mod Crash
pub mod Sidecars
pub mod Dropped
use playbook_redline.Base.{
  String, Bool, true, false, Option, none, some, List, append, str_eq, if◌then◌else◌,
}
use playbook_redline.Canonical.{Json, null, str, arr, obj, Items, nil, cons, Fields, end, field}
use playbook_redline.Canonical.Dict.{get, get_or, nonempty}
use playbook_redline.Ledger.{is_str}

-- CanonicalizationError with its reason code and message, or another exception that the checks
-- catch, by the name of its type.
pub data Fault : Type 0 where
  canonicalization_error : String → String → Fault
  other_error : String → Fault

-- A value, an exception that is caught, or one that is not.
pub data Answer (A : Type 0) : Type 0 where
  passed : A → Answer A
  failed : Fault → Answer A
  uncaught : Answer A

infixl 5 ◌>>=◌ ◌>>◌
abbrev pub ◌>>=◌ : {A B : Type 0} → Answer A → (A → Answer B) → Answer B
passed a >>= f = f a
failed fault >>= f = failed fault
uncaught >>= f = uncaught

abbrev pub ◌>>◌ : {B : Type 0} → Answer (Unit {0}) → Answer B → Answer B
m >> k = m >>= λ _. k

-- One of the checks that the verification reports.
pub record BundleCheck : Type 0 where
  pub name : String
  pub ok : Bool
  pub detail : String

-- `if not condition: raise fault`.
unfoldable pub require : Bool → Fault → Answer (Unit {0})
require true fault = passed tt
require false fault = failed fault

abbrev pub receipt_mismatch : String → Fault
receipt_mismatch message = canonicalization_error "RECEIPT_MISMATCH" message

-- `_verification_detail`.
abbrev pub verification_detail : Fault → String
verification_detail (canonicalization_error reason message) = append reason (append ": " message)
verification_detail (other_error name) = name

-- `_bundle_mapping`.
unfoldable pub bundle_mapping : Fields → String → Answer Fields
bundle_mapping payload name = elim (get payload name) [
  | some (obj fields) ↦ passed fields
  | _ ↦ failed (canonicalization_error "DATA_MISSING" (append name " is missing"))
]

-- `_bundle_hash_string`.
unfoldable pub bundle_hash_string : Fields → String → String → Answer String
bundle_hash_string payload name label = elim (get payload name) [
  | some (str text) ↦
      if nonempty (some text)
      then passed text
      else failed (canonicalization_error "DATA_MISSING" (append label " is missing"))
  | _ ↦ failed (canonicalization_error "DATA_MISSING" (append label " is missing"))
]

-- The content of the first artifact with the id; `artifact.get` of a missing key is None.
unfoldable pub find_content : String → Items → Option Json
find_content artifact_id nil = none
find_content artifact_id (cons (obj artifact) items) =
    let rest = find_content artifact_id items in
    if is_str (get artifact "artifact_id") artifact_id
    then some (get_or artifact "content" null)
    else rest
find_content artifact_id (cons _ items) = find_content artifact_id items

abbrev pub content_or : String → Option Json → Answer Json
content_or artifact_id (some content) = passed content
content_or artifact_id none =
    failed (canonicalization_error "DATA_MISSING" (append artifact_id " artifact is missing"))

unfoldable pub artifact_of : Fields → String → Answer Json
artifact_of redline artifact_id = elim (get redline "artifacts") [
  | some (arr items) ↦ content_or artifact_id (find_content artifact_id items)
  | _ ↦ failed (canonicalization_error "DATA_MISSING" "redline artifacts are missing")
]

-- `_bundle_artifact_content`.
unfoldable pub bundle_artifact_content : Fields → String → Answer Json
bundle_artifact_content bundle artifact_id =
    bundle_mapping bundle "redline" >>= λ redline. artifact_of redline artifact_id
