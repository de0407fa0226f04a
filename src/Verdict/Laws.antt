-- ===== src/Verdict/Laws.antt =====
-- src/redline/proof_kernel.py: when `decide` passes, and when it caps the size.
use mathlib.Core.Bool.{false≢true}
use playbook_redline.Base.{
  ℕ, String, ◌≡◌, ◌≢◌, refl, sym, ap, ◌∙◌, inl, inr, ◌↔◌, Bool, true, false, not, ◌&&◌, ◌||◌,
  Option, none, some, List, [], ◌∷◌, any, All, Bool-cases, if-true, if-false, arith, if◌then◌else◌,
}
use playbook_redline.Base.Quantifiers.{Exists}
use playbook_redline.Verdict.{
  Status, ReasonCode, ProofKind, Proof, ChainStatus, CoverageManifest, DecisionContext,
}
use playbook_redline.Verdict.Coverage.{
  Cell, no_cells, deduplicated, with_probe_cells, with_missing, corrected, has_duplicates,
  missing_probe_coverage_cells,
}
use playbook_redline.Verdict.Size.{has_block_breach}
use playbook_redline.Verdict.Decide.{
  Ruling, breach_ruling, reject_ruling, no_verdict, pass_ruling, ruling_without_reject,
  first_ruling, supported_ruling, ruling_of, unsupported, needs_proofs, incomplete_reason, decide,
}
use playbook_redline.Verdict.Conditions.{Covers, Distinct}
use playbook_redline.Verdict.Reflection.{
  none_missing-Covers, Covers-none_missing, has_duplicates-Distinct, Clean, has_block_breach-Clean,
  Supported, unsupported_iff,
}

-- The coverage that a PASS needs: declared complete, with cells, none of them twice, and a probe
-- proof for each.
abbrev pub Complete : List Proof → CoverageManifest → Type 0
Complete proofs coverage =
    (coverage.complete ≡ true)
    × (coverage.cells ≢ [])
    × Distinct coverage.cells
    × All (λ (c : Cell). Exists (Covers c) proofs) coverage.cells

-- The code's test of a corrected coverage.
abbrev full : CoverageManifest → Bool
full coverage = coverage.complete && not (no_cells coverage.cells)

cells_ne : (cells : List Cell) → no_cells cells ≡ false → cells ≢ []
cells_ne [] e = absurd (false≢true (sym e))
cells_ne (c ∷ cells) e = λ p. cc

ne_cells : (cells : List Cell) → cells ≢ [] → no_cells cells ≡ false
ne_cells [] n = absurd (n refl)
ne_cells (c ∷ cells) n = refl

with_missing-full :
    (coverage : CoverageManifest) (missing : List String)
    → full (with_missing coverage missing) ≡ true
    → (missing ≡ []) × (full coverage ≡ true)
unfolding with_missing
with_missing-full coverage [] e = (refl, e)
with_missing-full coverage (m ∷ ms) e = absurd (false≢true e)

with_probe_cells-full :
    (proofs : List Proof) (coverage : CoverageManifest)
    → full (with_probe_cells proofs coverage) ≡ true
    → (missing_probe_coverage_cells proofs coverage.cells ≡ []) × (full coverage ≡ true)
unfolding with_probe_cells
with_probe_cells-full proofs coverage e = elim (Bool-cases coverage.complete) [
  | inl h ↦
      with_missing-full coverage (missing_probe_coverage_cells proofs coverage.cells)
        (sym (ap full (if-true coverage.complete _ coverage h)) ∙ e)
  | inr h ↦
      let f : full coverage ≡ true = sym (ap full (if-false coverage.complete _ coverage h)) ∙ e in
      absurd (false≢true (ground arith))
]

abbrev repeated : CoverageManifest → Bool
repeated coverage = coverage.complete && (no_cells coverage.cells || has_duplicates coverage.cells)

deduplicated-full :
    (coverage : CoverageManifest)
    → full (deduplicated coverage) ≡ true
    → (deduplicated coverage ≡ coverage) × (repeated coverage ≡ false)
unfolding deduplicated
deduplicated-full coverage e = elim (Bool-cases (repeated coverage)) [
  | inl h ↦ absurd (false≢true (sym (ap full (if-true (repeated coverage) _ coverage h)) ∙ e))
  | inr h ↦ (if-false (repeated coverage) _ coverage h, h)
]

full-Complete :
    (proofs : List Proof) (coverage : CoverageManifest)
    → full (corrected proofs coverage) ≡ true
    → Complete proofs coverage
unfolding corrected
full-Complete proofs coverage e =
    let (m, f) = with_probe_cells-full proofs (deduplicated coverage) e in
    let (same, n) = deduplicated-full coverage f in
    let g : full coverage ≡ true = sym (ap full same) ∙ f in
    let none_missing : missing_probe_coverage_cells proofs coverage.cells ≡ [] =
      sym (ap (λ (c : CoverageManifest). missing_probe_coverage_cells proofs c.cells) same) ∙ m in
    (
      ground arith,
      cells_ne coverage.cells (ground arith),
      (has_duplicates-Distinct coverage.cells).0 (ground arith),
      none_missing-Covers proofs coverage.cells none_missing,
    )

Complete-same :
    (proofs : List Proof) (coverage : CoverageManifest)
    → Complete proofs coverage
    → corrected proofs coverage ≡ coverage
unfolding corrected with_probe_cells deduplicated with_missing
Complete-same proofs coverage (c, n, d, h) =
    let once : repeated coverage ≡ false =
      ground (arith, ne_cells coverage.cells n, (has_duplicates-Distinct coverage.cells).1 d) in
    let kept : deduplicated coverage ≡ coverage = if-false (repeated coverage) _ coverage once in
    ap (with_probe_cells proofs) kept
    ∙ if-true coverage.complete _ coverage c
    ∙ ap (with_missing coverage) (Covers-none_missing proofs coverage.cells h)

Complete-full :
    (proofs : List Proof) (coverage : CoverageManifest)
    → Complete proofs coverage
    → full (corrected proofs coverage) ≡ true
Complete-full proofs coverage h =
    ap full (Complete-same proofs coverage h) ∙ ground (arith, h.0, ne_cells coverage.cells h.1)

-- The conditions of a PASS: no reason to reject, complete coverage, every assertion of every
-- verdict-bearing probe proof holds, and each required kind is supported.
abbrev pub Passes :
    (Status → List ProofKind) → List Proof → CoverageManifest → DecisionContext → Type 0
Passes required proofs coverage context =
    (context.reject_reason ≡ none)
    × Complete proofs coverage
    × All Clean proofs
    × All (Supported proofs) (required Status.pass)

abbrev passed : Status → Bool
passed Status.pass = true
passed _ = false

passed-eq : (s : Status) → passed s ≡ true → s ≡ Status.pass
passed-eq Status.pass e = refl
passed-eq _ e = absurd (false≢true e)

breach_ruling_not_passed : (o : Option String) → passed (breach_ruling o).status ≡ false
unfolding breach_ruling
breach_ruling_not_passed none = refl
breach_ruling_not_passed (some cap) = refl

passed_if :
    (b : Bool) (x y : Ruling)
    → passed x.status ≡ false
    → passed (if b then x else y).status ≡ true
    → (b ≡ false) × (passed y.status ≡ true)
passed_if true x y n e = absurd (false≢true (sym n ∙ e))
passed_if false x y n e = (refl, e)

without_reject_passed :
    (proofs : List Proof) (coverage : CoverageManifest) (chain : ChainStatus)
    → passed (ruling_without_reject proofs coverage chain).status ≡ true
    → (full coverage ≡ true) × (has_block_breach proofs ≡ false)
unfolding ruling_without_reject no_verdict
without_reject_passed proofs coverage chain e =
    let (f, rest) =
      passed_if (not coverage.complete || no_cells coverage.cells)
        (no_verdict (incomplete_reason coverage)) _ refl e in
    let incomplete : not coverage.complete || no_cells coverage.cells ≡ false = f in
    (ground arith, (passed_if (has_block_breach proofs) _ _ (breach_ruling_not_passed _) rest).0)

-- What the first ruling has found when it passes.
first_passed :
    (proofs : List Proof) (coverage : CoverageManifest) (context : DecisionContext)
    → passed (first_ruling proofs coverage context).status ≡ true
    → (context.reject_reason ≡ none) × (full coverage ≡ true) × (has_block_breach proofs ≡ false)
unfolding first_ruling reject_ruling
first_passed proofs coverage context e = go context.reject_reason e
  where
    go :
        (o : Option ReasonCode)
        → passed
            (elim o as (λ _. Ruling) [
              | some reason ↦ reject_ruling reason
              | none ↦ ruling_without_reject proofs coverage context.chain_status
            ]).status
          ≡ true
        → (o ≡ none) × (full coverage ≡ true) × (has_block_breach proofs ≡ false)
    go none e =
        let (f, b) = without_reject_passed proofs coverage context.chain_status e in (refl, f, b)
    go (some reason) e = absurd (false≢true e)

first_passes :
    (proofs : List Proof) (coverage : CoverageManifest) (context : DecisionContext)
    → context.reject_reason ≡ none
    → full coverage ≡ true
    → has_block_breach proofs ≡ false
    → first_ruling proofs coverage context ≡ pass_ruling context.chain_status
unfolding first_ruling ruling_without_reject
first_passes proofs coverage context r f b =
    let incomplete : not coverage.complete || no_cells coverage.cells ≡ false = ground arith in
    rw (r, incomplete, b) refl

supported_passed :
    (required : Status → List ProofKind) (proofs : List Proof) (r : Ruling)
    → passed (supported_ruling required proofs r).status ≡ true
    → (supported_ruling required proofs r ≡ r)
      × (any (unsupported proofs) (required r.status) && needs_proofs r.status ≡ false)
unfolding supported_ruling no_verdict
supported_passed required proofs r e =
    elim (Bool-cases (any (unsupported proofs) (required r.status) && needs_proofs r.status)) [
      | inl h ↦
          absurd (false≢true (sym (ap (λ (x : Ruling). passed x.status) (if-true _ _ r h)) ∙ e))
      | inr h ↦ (if-false _ _ r h, h)
    ]

module _ (required : Status → List ProofKind) (proofs : List Proof) (coverage : CoverageManifest)
    (context : DecisionContext) where
  used : CoverageManifest
  used = corrected proofs coverage

  ruling_passed :
      (ruling_of required proofs coverage context).status ≡ Status.pass
      → Passes required proofs coverage context
  unfolding ruling_of used
  ruling_passed e =
      let (same, fine) =
        supported_passed required proofs (first_ruling proofs used context) (ap passed e) in
      let s : (first_ruling proofs used context).status ≡ Status.pass =
        sym (ap (λ (x : Ruling). x.status) same) ∙ e in
      let (r, f, b) = first_passed proofs used context (ap passed s) in
      let found : any (unsupported proofs) (required Status.pass) && true ≡ false =
        sym (ap (λ (x : Status). any (unsupported proofs) (required x) && needs_proofs x) s)
        ∙ fine in
      (
        r,
        full-Complete proofs coverage f,
        (has_block_breach-Clean proofs).0 b,
        (unsupported_iff proofs (required Status.pass)).0 (ground arith),
      )

  ruling-Passes :
      Passes required proofs coverage context
      → (ruling_of required proofs coverage context).status ≡ Status.pass
  unfolding ruling_of supported_ruling used pass_ruling
  ruling-Passes (r, c, b, k) =
      let first : first_ruling proofs used context ≡ pass_ruling context.chain_status =
        first_passes proofs used context r (Complete-full proofs coverage c)
          ((has_block_breach-Clean proofs).1 b) in
      let found : any (unsupported proofs) (required Status.pass) ≡ false =
        (unsupported_iff proofs (required Status.pass)).1 k in
      rw (first, found) refl

-- `decide` passes exactly when there is no reason to reject, the coverage is declared complete, has
-- cells, none of them twice, and a verdict-bearing probe proof for each, every assertion of every
-- verdict-bearing probe proof holds, and each kind required for a PASS other than the decision has
-- a verdict-bearing proof.
pub decide-Passes :
    (digest : List ℕ → String) (required : Status → List ProofKind) (proofs : List Proof)
    (coverage : CoverageManifest) (context : DecisionContext)
    → (decide digest required proofs coverage context).status ≡ Status.pass
      ↔ Passes required proofs coverage context
unfolding decide
decide-Passes digest required proofs coverage context =
    (ruling_passed required proofs coverage context, ruling-Passes required proofs coverage context)
