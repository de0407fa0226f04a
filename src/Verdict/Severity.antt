-- ===== src/Verdict/Severity.antt =====
-- src/redline/proof_kernel.py and src/redline/violations.py: the severity of the reason that each
-- status comes with.
use playbook_redline.Base.{
  ℕ, String, ◌≡◌, refl, Bool, true, false, not, ◌&&◌, ◌||◌, Option, none, some, List, any,
  Option-cases, subst, inl, inr, if◌then◌else◌,
}
use playbook_redline.Verdict.{
  Status, ReasonCode, ProofKind, Proof, ChainStatus, CoverageManifest, DecisionContext,
}
use playbook_redline.Verdict.Size.{has_block_breach, reduce_size_cap_for_breaches}
use playbook_redline.Verdict.Coverage.{corrected, no_cells}
use playbook_redline.Verdict.Decide.{
  Ruling, breach_ruling, reject_ruling, no_verdict, pass_reason, pass_ruling, incomplete_reason,
  ruling_without_reject, first_ruling, supported_ruling, ruling_of, unsupported, needs_proofs,
  decide,
}
use playbook_redline.Violations.{Severity, blocking, advisory, reason_summary, reason_meta}

-- A PASS comes with an advisory reason and any other status with a blocking one.
abbrev pub Graded : Status → Severity → Type 0
Graded Status.pass severity = severity ≡ advisory
Graded _ severity = severity ≡ blocking

-- No reason to reject, or a blocking one.
abbrev pub BlockingReason : Option ReasonCode → Type 0
BlockingReason none = Unit
BlockingReason (some reason) = (reason_meta reason).severity ≡ blocking

abbrev GradedRuling : Ruling → Type 0
GradedRuling r = Graded r.status (reason_meta r.reason_code).severity

breach_ruling-Graded : (cap : Option String) → GradedRuling (breach_ruling cap)
unfolding breach_ruling reason_meta reason_summary
breach_ruling-Graded none = refl
breach_ruling-Graded (some text) = refl

pass_ruling-Graded : (chain : ChainStatus) → GradedRuling (pass_ruling chain)
unfolding pass_ruling pass_reason reason_meta reason_summary
pass_ruling-Graded ChainStatus.chained = refl
pass_ruling-Graded ChainStatus.genesis = refl
pass_ruling-Graded ChainStatus.unchained = refl

if-GradedRuling :
    (b : Bool) (x y : Ruling) → GradedRuling x → GradedRuling y → GradedRuling (if b then x else y)
if-GradedRuling true x y h g = h
if-GradedRuling false x y h g = g

if-blocking :
    (b : Bool)
    → (reason_meta (if b then ReasonCode.probe_error else ReasonCode.coverage_incomplete)).severity
      ≡ blocking
unfolding reason_meta reason_summary
if-blocking true = refl
if-blocking false = refl

no_verdict-Graded :
    (coverage : CoverageManifest) → GradedRuling (no_verdict (incomplete_reason coverage))
unfolding no_verdict incomplete_reason
no_verdict-Graded coverage = if-blocking _

without_reject-Graded :
    (proofs : List Proof) (coverage : CoverageManifest) (chain : ChainStatus)
    → GradedRuling (ruling_without_reject proofs coverage chain)
unfolding ruling_without_reject
without_reject-Graded proofs coverage chain =
    if-GradedRuling (not coverage.complete || no_cells coverage.cells) _ _
      (no_verdict-Graded coverage)
      (if-GradedRuling (has_block_breach proofs) _ _
        (breach_ruling-Graded (reduce_size_cap_for_breaches proofs)) (pass_ruling-Graded chain))

reject_ruling-Graded :
    (reason : ReasonCode)
    → (reason_meta reason).severity ≡ blocking
    → GradedRuling (reject_ruling reason)
unfolding reject_ruling
reject_ruling-Graded reason h = h

first_ruling-Graded :
    (proofs : List Proof) (coverage : CoverageManifest) (context : DecisionContext)
    → BlockingReason context.reject_reason
    → GradedRuling (first_ruling proofs coverage context)
unfolding first_ruling
first_ruling-Graded proofs coverage context b = elim (Option-cases context.reject_reason) [
  | inl h ↦ rw h (without_reject-Graded proofs coverage context.chain_status)
  | inr (reason, h) ↦ rw h (reject_ruling-Graded reason (subst BlockingReason h b))
]

-- When the context has no reason to reject, or one whose entry in `REASON_META` is blocking, the
-- reason code that `decide` gives is advisory there for a PASS, and blocking for every other status.
pub decide-Graded :
    (digest : List ℕ → String) (required : Status → List ProofKind) (proofs : List Proof)
    (coverage : CoverageManifest) (context : DecisionContext)
    → BlockingReason context.reject_reason
    → let envelope = decide digest required proofs coverage context in
      Graded envelope.status (reason_meta envelope.reason_code).severity
unfolding decide ruling_of supported_ruling no_verdict reason_meta reason_summary
decide-Graded digest required proofs coverage context b =
    let r = first_ruling proofs (corrected proofs coverage) context in
    if-GradedRuling (any (unsupported proofs) (required r.status) && needs_proofs r.status) _ r refl
      (first_ruling-Graded proofs (corrected proofs coverage) context b)
