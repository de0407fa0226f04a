-- ===== src/Verdict/Decide.antt =====
-- src/redline/proof_kernel.py: `decide` and the id of its decision. The SHA-256 of a text is the
-- parameter `digest`, as in Canonical/Hash.
use playbook_redline.Base.{
  contains, ℕ, String, Bool, true, false, not, ◌&&◌, ◌||◌, Option, none, some, List, [], ◌∷◌, ◌++◌,
  map, any, append, take_text, codes, if◌then◌else◌, str_leb,
}
use playbook_redline.Base.Sorting.{sort, sort_texts}
use playbook_redline.Canonical.{Json, bool, str, arr, obj, Items, nil, cons, Fields, end, field}
use playbook_redline.Canonical.Hash.{hash_obj}
use playbook_redline.Verdict.{
  Status, VerdictTier, ReasonCode, ProofKind, ChainStatus, status_text, tier_text, reason_text,
  kind_text, same_kind, Proof, CoverageManifest, DecisionContext, DecisionEnvelope,
}
use playbook_redline.Verdict.Coverage.{Cell, corrected, no_cells, scenario_count}
use playbook_redline.Verdict.Size.{has_block_breach, reduce_size_cap_for_breaches}

-- `REQUIRED_PROOFS`.
abbrev pub required_proofs : Status → List ProofKind
required_proofs Status.pass =
    ProofKind.baseline_calibration ∷ ProofKind.replay ∷ ProofKind.replay_wellformed
    ∷ ProofKind.coverage ∷ ProofKind.probe ∷ ProofKind.candidate_absolute
    ∷ ProofKind.package_canonical ∷ ProofKind.spec_compile ∷ ProofKind.decision ∷ []
required_proofs Status.withheld =
    ProofKind.package_canonical ∷ ProofKind.spec_compile ∷ ProofKind.replay
    ∷ ProofKind.replay_wellformed ∷ ProofKind.coverage ∷ ProofKind.probe ∷ ProofKind.decision ∷ []
required_proofs Status.reduce_size =
    ProofKind.package_canonical ∷ ProofKind.spec_compile ∷ ProofKind.replay
    ∷ ProofKind.replay_wellformed ∷ ProofKind.coverage ∷ ProofKind.probe ∷ ProofKind.decision ∷ []
required_proofs Status.reject = ProofKind.decision ∷ []
required_proofs Status.unverified_no_verdict = []

-- What `decide` has settled before it lists the proofs.
pub record Ruling : Type 0 where
  pub status : Status
  pub verdict_tier : VerdictTier
  pub adjusted_size_cap : Option String
  pub reason_code : ReasonCode

-- `any("errored" in item for item in missing)`.
some_errored : List String → Bool
unfolding contains
some_errored = any (λ (item : String). contains (codes "errored") (codes item))

unfoldable pub incomplete_reason : CoverageManifest → ReasonCode
unfolding some_errored
incomplete_reason coverage =
    if some_errored coverage.missing then ReasonCode.probe_error else ReasonCode.coverage_incomplete

unfoldable pub pass_reason : ChainStatus → ReasonCode
pass_reason ChainStatus.genesis = ReasonCode.baseline_genesis
pass_reason _ = ReasonCode.pass

unfoldable pub breach_ruling : Option String → Ruling
breach_ruling (some cap) = record {
  status = Status.reduce_size;
  verdict_tier = VerdictTier.reduce_size;
  adjusted_size_cap = some cap;
  reason_code = ReasonCode.new_block_breach;
}
breach_ruling none = record {
  status = Status.withheld;
  verdict_tier = VerdictTier.block;
  adjusted_size_cap = none;
  reason_code = ReasonCode.new_block_breach;
}

unfoldable pub reject_ruling : ReasonCode → Ruling
reject_ruling reason = record {
  status = Status.reject;
  verdict_tier = VerdictTier.block;
  adjusted_size_cap = none;
  reason_code = reason;
}

unfoldable pub no_verdict : ReasonCode → Ruling
no_verdict reason = record {
  status = Status.unverified_no_verdict;
  verdict_tier = VerdictTier.human_review;
  adjusted_size_cap = none;
  reason_code = reason;
}

unfoldable pub pass_ruling : ChainStatus → Ruling
unfolding pass_reason
pass_ruling chain = record {
  status = Status.pass;
  verdict_tier = VerdictTier.allow;
  adjusted_size_cap = none;
  reason_code = pass_reason chain;
}

-- The chain of conditions on a corrected coverage, without and with a reason to reject.
unfoldable pub ruling_without_reject : List Proof → CoverageManifest → ChainStatus → Ruling
unfolding incomplete_reason
ruling_without_reject proofs coverage chain =
    if not coverage.complete || no_cells coverage.cells
    then no_verdict (incomplete_reason coverage)
    else if has_block_breach proofs
    then breach_ruling (reduce_size_cap_for_breaches proofs)
    else pass_ruling chain

unfoldable pub first_ruling : List Proof → CoverageManifest → DecisionContext → Ruling
first_ruling proofs coverage context = elim context.reject_reason [
  | some reason ↦ reject_ruling reason
  | none ↦ ruling_without_reject proofs coverage context.chain_status
]

-- `proof_ids_by_kind.get(kind, [])`.
unfoldable pub proof_ids_of : ProofKind → List Proof → List String
proof_ids_of kind [] = []
proof_ids_of kind (p ∷ proofs) =
    let rest = proof_ids_of kind proofs in
    if p.verdict_bearing && same_kind p.kind kind then p.proof_id ∷ rest else rest

abbrev pub no_ids : List String → Bool
no_ids [] = true
no_ids (i ∷ ids) = false

-- A required kind that no verdict-bearing proof supports.
unfoldable pub unsupported : List Proof → ProofKind → Bool
unsupported proofs kind =
    not (same_kind kind ProofKind.decision) && no_ids (proof_ids_of kind proofs)

abbrev pub needs_proofs : Status → Bool
needs_proofs Status.pass = true
needs_proofs Status.withheld = true
needs_proofs Status.reduce_size = true
needs_proofs Status.reject = false
needs_proofs Status.unverified_no_verdict = false

-- The downgrade of a ruling whose required kinds are not all supported.
unfoldable pub supported_ruling : (Status → List ProofKind) → List Proof → Ruling → Ruling
supported_ruling required proofs ruling =
    if any (unsupported proofs) (required ruling.status) && needs_proofs ruling.status
    then no_verdict ReasonCode.unverified_no_verdict
    else ruling

unfoldable pub ruling_of :
    (Status → List ProofKind) → List Proof → CoverageManifest → DecisionContext → Ruling
ruling_of required proofs coverage context =
    supported_ruling required proofs (first_ruling proofs (corrected proofs coverage) context)

abbrev pub text_items : List String → Items
text_items [] = nil
text_items (s ∷ ss) = cons (str s) (text_items ss)

abbrev pub cell_items : List Cell → Items
cell_items [] = nil
cell_items (c ∷ cs) = cons (arr (cons (str c.0) (cons (str c.1) nil))) (cell_items cs)

-- `CoverageManifest.model_dump`.
abbrev pub coverage_json : CoverageManifest → Json
coverage_json coverage = obj (
    field "manifest" (str coverage.manifest) (
      field "cells" (arr (cell_items coverage.cells)) (
        field "complete" (bool coverage.complete)
          (field "missing" (arr (text_items coverage.missing)) end))))

abbrev pub with_cap : Option String → Fields
with_cap none = end
with_cap (some cap) = field "adjusted_size_cap" (str cap) end

-- `decision_proof_id` with a tier.
abbrev pub decision_payload : Ruling → List String → CoverageManifest → Json
decision_payload ruling ids coverage = obj (
    field "status" (str (status_text ruling.status)) (
      field "reason_code" (str (reason_text ruling.reason_code)) (
        field "proof_ids" (arr (text_items (sort_texts ids))) (
          field "coverage" (coverage_json coverage) (
            field "verdict_tier" (str (tier_text ruling.verdict_tier))
              (with_cap ruling.adjusted_size_cap))))))

abbrev pub strip_prefix : String → String
strip_prefix
      (String.◌∷◌ a (
        String.◌∷◌ b
          (String.◌∷◌ c (String.◌∷◌ d (String.◌∷◌ e (String.◌∷◌ f (String.◌∷◌ g s))))))) =
    s
strip_prefix s = s

unfoldable pub decision_proof_id :
    (List ℕ → String) → Ruling → List String → CoverageManifest → String
unfolding take_text append
decision_proof_id digest ruling ids coverage =
    append "proof:decision:"
      (take_text 24 (strip_prefix (hash_obj digest (decision_payload ruling ids coverage))))

abbrev kind_leb : ProofKind → ProofKind → Bool
kind_leb k l = str_leb (kind_text k) (kind_text l)

-- The ids listed for each required kind, the kinds in order.
unfoldable pub ids_of_kinds : List Proof → String → List ProofKind → List String
ids_of_kinds proofs decision_id [] = []
ids_of_kinds proofs decision_id (k ∷ kinds) =
    let rest = ids_of_kinds proofs decision_id kinds in
    if same_kind k ProofKind.decision
    then decision_id ∷ rest
    else sort_texts (proof_ids_of k proofs) ++ rest

unfoldable pub listed_ids : (Status → List ProofKind) → List Proof → String → Status → List String
listed_ids required proofs decision_id status =
    ids_of_kinds proofs decision_id (sort kind_leb (required status))

-- `decide`.
unfoldable pub decide :
    (List ℕ → String)
    → (Status → List ProofKind)
    → List Proof
    → CoverageManifest
    → DecisionContext
    → DecisionEnvelope
decide digest required proofs coverage context =
    let ruling = ruling_of required proofs coverage context in
    let used = corrected proofs coverage in
    let ids = map (λ (p : Proof). p.proof_id) proofs in
    let listed =
      listed_ids required proofs (decision_proof_id digest ruling ids used) ruling.status in
    record {
      status = ruling.status;
      verdict_tier = ruling.verdict_tier;
      adjusted_size_cap = ruling.adjusted_size_cap;
      reason_code = ruling.reason_code;
      chain_status = context.chain_status;
      required_proof_ids = listed;
      satisfied_proof_ids = listed;
      coverage = used;
      scenario_count = scenario_count used;
    }
