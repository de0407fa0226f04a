-- ===== src/Bundle/Sidecars.antt =====
-- src/redline/service/release.py: how the checks on a bundle are run, and the check on the evidence
-- next to that of its order. The parameter `run_dir` is the file system: for a run id the two files of
-- the run directory that `resolve_release_run_dir` finds, or its exception.
use playbook_redline.Base.{
  ℕ, String, false, not, Option, none, some, List, [], ◌∷◌, ◌++◌, length, ◌==◌, if◌then◌else◌,
}
use playbook_redline.Canonical.{Json, obj, Fields}
use playbook_redline.Canonical.Dict.{get}
use playbook_redline.Execution.{Outcome, ok, blocked, assertion_error, crash}
use playbook_redline.Execution.Status.{BitgetOrderStatusEvidence, is_unknown}
use playbook_redline.Execution.Ledger.{File, missing}
use playbook_redline.Execution.Sidecars.{
  BitgetExchangePreflightEvidence, load_exchange_preflight_evidence, load_order_status_evidence,
}
use playbook_redline.Bundle.{
  canonicalization_error, other_error, Answer, passed, failed, uncaught, BundleCheck,
  verification_detail,
}

-- A check appends to the list, and returns or raises.
abbrev pub Check : Type 0
Check = List BundleCheck → List BundleCheck × Answer (Unit {0})

abbrev pub settled :
    String → List BundleCheck → List BundleCheck × Answer (Unit {0}) → Option (List BundleCheck)
settled name before (after, passed u) = some after
settled name before (after, failed fault) =
    if length after == length before
    then some (after ++ record { name = name; ok = false; detail = verification_detail fault } ∷ [])
    else some after
settled name before (after, uncaught) = none

-- `_run_bundle_check`; `none` is an exception that it does not catch.
unfoldable pub run_bundle_check : String → Check → List BundleCheck → Option (List BundleCheck)
run_bundle_check name check checks = settled name checks (check checks)

pub record SidecarFiles : Type 0 where
  pub preflight : File BitgetExchangePreflightEvidence
  pub order_status : File BitgetOrderStatusEvidence

-- What was loaded is reported; ExecutionBlocked has a reason code, and a file that is not in UTF-8
-- raises UnicodeDecodeError, which is a ValueError.
abbrev pub reported : {A : Type 0} → (A → BundleCheck) → Outcome A → Check
reported shown (ok a) checks = (checks ++ shown a ∷ [], passed tt)
reported shown (blocked reason message) checks =
    (checks, failed (canonicalization_error reason message))
reported shown assertion_error checks = (checks, uncaught)
reported shown crash checks = (checks, failed (other_error "UnicodeDecodeError"))

-- `if path.exists()`.
abbrev pub if_there : {A : Type 0} → File A → Check → Check
if_there missing check checks = (checks, passed tt)
if_there _ check checks = check checks

abbrev pub and_then :
    Check → List BundleCheck × Answer (Unit {0}) → List BundleCheck × Answer (Unit {0})
and_then check (checks, passed u) = check checks
and_then check (checks, failed fault) = (checks, failed fault)
and_then check (checks, uncaught) = (checks, uncaught)

abbrev pub preflight_check : BitgetExchangePreflightEvidence → BundleCheck
preflight_check e = record {
  name = "exchange-preflight-evidence";
  ok = e.ok;
  detail = e.preflight_hash;
}

abbrev pub order_status_check : BitgetOrderStatusEvidence → BundleCheck
order_status_check e = record {
  name = "order-status-evidence";
  ok = not (is_unknown e.status);
  detail = e.evidence_hash;
}

module _ (digest : List ℕ → String) (run_dir : Option Json → Answer SidecarFiles) where
  unfoldable pub check_sidecars : SidecarFiles → Check
  check_sidecars files checks =
      and_then
        (if_there files.order_status
          (reported order_status_check (load_order_status_evidence digest files.order_status)))
        (if_there files.preflight
          (reported preflight_check (load_exchange_preflight_evidence digest files.preflight))
          checks)

  abbrev pub check_found : Answer SidecarFiles → Check
  check_found (passed files) checks = check_sidecars files checks
  check_found (failed fault) checks = (checks, failed fault)
  check_found uncaught checks = (checks, uncaught)

  -- `_verify_bundle_execution_sidecars`.
  unfoldable pub verify_bundle_execution_sidecars : Fields → Check
  unfolding check_sidecars
  verify_bundle_execution_sidecars bundle checks = elim (get bundle "execution_evidence") [
    | some (obj execution) ↦ check_found (run_dir (get execution "run_id")) checks
    | _ ↦ (checks, passed tt)
  ]
