-- ===== src/Bundle/Dropped.antt =====
-- src/redline/service/release.py: what becomes of an order status that cannot be loaded.
use playbook_redline.Base.{
  ℕ, ◌+◌, String, ◌≡◌, ◌≢◌, refl, ap, ◌∙◌, true, false, Option, some, List, [], ◌∷◌, ◌++◌, length,
  length-append, ◌==◌, arith, if-false, if-true,
}
use playbook_redline.Canonical.{Json, obj, Fields}
use playbook_redline.Canonical.Dict.{get}
use playbook_redline.Execution.{Outcome, ok, blocked}
use playbook_redline.Execution.Status.{BitgetOrderStatusEvidence}
use playbook_redline.Execution.Ledger.{File, missing, unreadable, undecodable, holding}
use playbook_redline.Execution.Sidecars.{
  BitgetExchangePreflightEvidence, load_exchange_preflight_evidence, load_order_status_evidence,
}
use playbook_redline.Bundle.{
  canonicalization_error, Answer, passed, failed, BundleCheck, verification_detail,
}
use playbook_redline.Bundle.Sidecars.{
  Check, SidecarFiles, settled, run_bundle_check, reported, if_there, and_then, preflight_check,
  order_status_check, check_sidecars, verify_bundle_execution_sidecars,
}

there :
    {A : Type 0} (file : File A) (check : Check) (checks : List BundleCheck)
    → file ≢ missing
    → if_there file check checks ≡ check checks
there missing check checks n = absurd (n refl)
there unreadable check checks n = refl
there undecodable check checks n = refl
there (holding a) check checks n = refl

longer : (n : ℕ) → (n + 1 == n) ≡ false
longer n = ground arith

same : (n : ℕ) → (n == n) ≡ true
same n = ground arith

module _ (digest : List ℕ → String) (run_dir : Option Json → Answer SidecarFiles)
    (bundle execution : Fields) (files : SidecarFiles) (checks : List BundleCheck) where
  found :
      get bundle "execution_evidence" ≡ some (obj execution)
      → run_dir (get execution "run_id") ≡ passed files
      → verify_bundle_execution_sidecars digest run_dir bundle checks
        ≡ check_sidecars digest run_dir files checks
  unfolding verify_bundle_execution_sidecars
  found e r = rw (e, verify_bundle_execution_sidecars, r) refl

  abbrev status_step : Check
  status_step =
      if_there files.order_status
        (reported order_status_check (load_order_status_evidence digest files.order_status))

  refused_step :
      (reason message : String)
      → files.order_status ≢ missing
      → load_order_status_evidence digest files.order_status ≡ blocked reason message
      → (list : List BundleCheck)
      → status_step list ≡ (list, failed (canonicalization_error reason message))
  refused_step reason message n l list =
      there files.order_status
        (reported order_status_check (load_order_status_evidence digest files.order_status)) list n
      ∙ ap (λ (o : Outcome BitgetOrderStatusEvidence). reported order_status_check o list) l

  -- When the order of a bundle has a run directory with a preflight that can be loaded and an order
  -- status that is refused with a reason, the check on the evidence next to the order reports the
  -- preflight and nothing else: the refusal is dropped.
  pub run_bundle_check_drops :
      (reason message : String) (preflight : BitgetExchangePreflightEvidence)
      → get bundle "execution_evidence" ≡ some (obj execution)
      → run_dir (get execution "run_id") ≡ passed files
      → files.order_status ≢ missing
      → load_order_status_evidence digest files.order_status ≡ blocked reason message
      → files.preflight ≢ missing
      → load_exchange_preflight_evidence digest files.preflight ≡ ok preflight
      → run_bundle_check "execution-sidecars"
          (verify_bundle_execution_sidecars digest run_dir bundle)
          checks
        ≡ some (checks ++ preflight_check preflight ∷ [])
  unfolding run_bundle_check check_sidecars
  run_bundle_check_drops reason message preflight e r n l m p =
      let load =
        reported preflight_check (load_exchange_preflight_evidence digest files.preflight) in
      let now = checks ++ preflight_check preflight ∷ [] in
      let first : if_there files.preflight load checks ≡ (now, passed tt) =
        there files.preflight load checks m
        ∙ ap (λ (o : Outcome BitgetExchangePreflightEvidence). reported preflight_check o checks)
            p in
      let count : (length now == length checks) ≡ false =
        rw (length-append checks (preflight_check preflight ∷ [])) (longer (length checks)) in
      ap (settled "execution-sidecars" checks) (found e r)
      ∙ ap (λ x. settled "execution-sidecars" checks (and_then status_step x)) first
      ∙ ap (settled "execution-sidecars" checks) (refused_step reason message n l now)
      ∙ if-false (length now == length checks) _ _ count

  -- With no preflight there, the refusal is reported.
  run_bundle_check_reports :
      (reason message : String)
      → get bundle "execution_evidence" ≡ some (obj execution)
      → run_dir (get execution "run_id") ≡ passed files
      → files.order_status ≢ missing
      → load_order_status_evidence digest files.order_status ≡ blocked reason message
      → files.preflight ≡ missing
      → run_bundle_check "execution-sidecars"
          (verify_bundle_execution_sidecars digest run_dir bundle)
          checks
        ≡ some (
            checks
            ++ record {
              name = "execution-sidecars";
              ok = false;
              detail = verification_detail (canonicalization_error reason message);
            }
              ∷ [])
  unfolding run_bundle_check check_sidecars
  run_bundle_check_reports reason message e r n l m =
      let first : if_there files.preflight
            (reported preflight_check (load_exchange_preflight_evidence digest files.preflight))
            checks
          ≡ (checks, passed tt) =
        rw m refl in
      ap (settled "execution-sidecars" checks) (found e r)
      ∙ ap (λ x. settled "execution-sidecars" checks (and_then status_step x)) first
      ∙ ap (settled "execution-sidecars" checks) (refused_step reason message n l checks)
      ∙ if-true (length checks == length checks) _ _ (same (length checks))
