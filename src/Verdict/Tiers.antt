-- ===== src/Verdict/Tiers.antt =====
-- src/redline/proof_kernel.py and the validator of DecisionEnvelope in src/redline/models.py: the
-- tier and the cap that each status comes with.

use playbook_redline.Base.{
  ℕ, String, ◌≡◌, refl, ap, inl, inr, Bool, true, false, not, ◌&&◌, ◌||◌, Option, none, some, List,
  any, All, Option-cases, if◌then◌else◌,
}
use playbook_redline.Base.Int.{ℤ}
use playbook_redline.Verdict.{
  Status, VerdictTier, ProofKind, Proof, ChainStatus, CoverageManifest, DecisionContext,
}
use playbook_redline.Verdict.Size.{cap_text, has_block_breach, reduce_size_cap_for_breaches}
use playbook_redline.Verdict.Coverage.{corrected, no_cells}
use playbook_redline.Verdict.Decide.{
  Ruling, breach_ruling, reject_ruling, no_verdict, pass_ruling, ruling_without_reject,
  first_ruling, supported_ruling, ruling_of, unsupported, needs_proofs, decide,
}
use playbook_redline.Verdict.Caps.{Capped, Least, reduce_size_cap_sound}

-- The least cap that the breaching proofs propose, each of which proposes one.
abbrev pub CappedAt : List Proof → Option String → Type 0
CappedAt proofs cap = (c : ℕ × ℤ) × (cap ≡ some (cap_text c)) × Least proofs c × All Capped proofs

-- The tier and the cap of each status.
abbrev pub Coherent : List Proof → Status → VerdictTier → Option String → Type 0
Coherent proofs Status.pass tier cap = (tier ≡ VerdictTier.allow) × (cap ≡ none)
Coherent proofs Status.withheld tier cap = (tier ≡ VerdictTier.block) × (cap ≡ none)
Coherent proofs Status.reduce_size tier cap = (tier ≡ VerdictTier.reduce_size) × CappedAt proofs cap
Coherent proofs Status.reject tier cap = (tier ≡ VerdictTier.block) × (cap ≡ none)
Coherent proofs Status.unverified_no_verdict tier cap =
    (tier ≡ VerdictTier.human_review) × (cap ≡ none)

abbrev CoherentRuling : List Proof → Ruling → Type 0
CoherentRuling proofs r = Coherent proofs r.status r.verdict_tier r.adjusted_size_cap

breach_ruling-Coherent :
    (proofs : List Proof) (cap : Option String)
    → reduce_size_cap_for_breaches proofs ≡ cap
    → CoherentRuling proofs (breach_ruling cap)
unfolding breach_ruling
breach_ruling-Coherent proofs none e = (refl, refl)
breach_ruling-Coherent proofs (some text) e =
    let (capped, (c, t, best)) = reduce_size_cap_sound proofs text e in
    (refl, (c, ap some t, best, capped))

if-CoherentRuling :
    (proofs : List Proof) (b : Bool) (x y : Ruling)
    → CoherentRuling proofs x
    → CoherentRuling proofs y
    → CoherentRuling proofs (if b then x else y)
if-CoherentRuling proofs true x y h g = h
if-CoherentRuling proofs false x y h g = g

without_reject-Coherent :
    (proofs : List Proof) (coverage : CoverageManifest) (chain : ChainStatus)
    → CoherentRuling proofs (ruling_without_reject proofs coverage chain)
unfolding ruling_without_reject no_verdict pass_ruling
without_reject-Coherent proofs coverage chain =
    if-CoherentRuling proofs (not coverage.complete || no_cells coverage.cells) _ _ (refl, refl)
      (if-CoherentRuling proofs (has_block_breach proofs) _ _
        (breach_ruling-Coherent proofs (reduce_size_cap_for_breaches proofs) refl) (refl, refl))

first_ruling-Coherent :
    (proofs : List Proof) (coverage : CoverageManifest) (context : DecisionContext)
    → CoherentRuling proofs (first_ruling proofs coverage context)
unfolding first_ruling reject_ruling
first_ruling-Coherent proofs coverage context = elim (Option-cases context.reject_reason) [
  | inl h ↦ rw h (without_reject-Coherent proofs coverage context.chain_status)
  | inr (reason, h) ↦ rw h ((refl, refl))
]

-- `decide` gives a PASS the tier ALLOW, a WITHHELD or REJECT the tier BLOCK and no verdict the tier
-- HUMAN_REVIEW, each without a cap; a REDUCE_SIZE has its tier, and its cap is the least of the
-- caps, each above 0 and at most 1, that the breaching proofs propose, every one of which proposes
-- a cap.
pub decide-Coherent :
    (digest : List ℕ → String) (required : Status → List ProofKind) (proofs : List Proof)
    (coverage : CoverageManifest) (context : DecisionContext)
    → let envelope = decide digest required proofs coverage context in
      Coherent proofs envelope.status envelope.verdict_tier envelope.adjusted_size_cap
unfolding decide ruling_of supported_ruling no_verdict
decide-Coherent digest required proofs coverage context =
    let r = first_ruling proofs (corrected proofs coverage) context in
    if-CoherentRuling proofs (any (unsupported proofs) (required r.status) && needs_proofs r.status)
      _ r (refl, refl) (first_ruling-Coherent proofs (corrected proofs coverage) context)
