-- ===== src/Verdict/Reflection.antt =====
-- src/redline/proof_kernel.py: the tests of `decide` against the conditions of Verdict/Conditions.
use mathlib.Core.Bool.{false≢true}
use playbook_redline.Base.{
  String, ◌≡◌, ◌≢◌, refl, sym, ap, ◌∙◌, inl, inr, ◌↔◌, Bool, true, false, not, ◌&&◌, List, [], ◌∷◌,
  any, All, Bool-cases, arith, if◌then◌else◌,
}
use playbook_redline.Base.Quantifiers.{
  Exists, any-Exists, Exists-any, any-All, All-any, All-map, Exists-map,
}
use playbook_redline.Base.Sorting.{duplicates_from}
use playbook_redline.Verdict.{ProofKind, Proof, Assertion, same_kind}
use playbook_redline.Verdict.Coverage.{
  Cell, same_cell, is_probe, covers, has_duplicates, missing_probe_coverage_cells,
}
use playbook_redline.Verdict.Size.{fails, breaches, has_block_breach}
use playbook_redline.Verdict.Decide.{proof_ids_of, no_ids, unsupported}
use playbook_redline.Verdict.Conditions.{
  Bears, Covers, Distinct, AllHold, covers-Covers, Covers-covers, is_probe-Bears, Bears-is_probe,
  same_cell-eq, same_cell_refl, same_kind-eq, same_kind_refl,
}

keep_nil :
    (b : Bool) (x : String) (xs : List String)
    → (if b then xs else x ∷ xs) ≡ []
    → (b ≡ true) × (xs ≡ [])
keep_nil true x xs e = (refl, e)
keep_nil false x xs e = cc

-- The cells of which `_missing_probe_coverage_cells` finds none missing are covered.
pub none_missing-Covers :
    (proofs : List Proof) (cells : List Cell)
    → missing_probe_coverage_cells proofs cells ≡ []
    → All (λ (c : Cell). Exists (Covers c) proofs) cells
unfolding missing_probe_coverage_cells
none_missing-Covers proofs [] e = tt
none_missing-Covers proofs (c ∷ cells) e =
    let (h, rest) = keep_nil (any (covers c) proofs) _ _ e in
    (
      Exists-map (covers-Covers c) proofs (any-Exists (covers c) proofs h),
      none_missing-Covers proofs cells rest,
    )

pub Covers-none_missing :
    (proofs : List Proof) (cells : List Cell)
    → All (λ (c : Cell). Exists (Covers c) proofs) cells
    → missing_probe_coverage_cells proofs cells ≡ []
unfolding missing_probe_coverage_cells
Covers-none_missing proofs [] h = refl
Covers-none_missing proofs (c ∷ cells) (h, hs) =
    let covered : any (covers c) proofs ≡ true =
      Exists-any (covers c) proofs (Exists-map (Covers-covers c) proofs h) in
    rw covered (Covers-none_missing proofs cells hs)

-- No cell of `cells` is in `seen`.
abbrev Fresh : List Cell → List Cell → Type 0
Fresh seen cells = All (λ (c : Cell). any (same_cell c) seen ≡ false) cells

Fresh-cons :
    (c : Cell) (seen cells : List Cell)
    → Fresh seen cells
    → All (λ (d : Cell). d ≢ c) cells
    → Fresh (c ∷ seen) cells
Fresh-cons c seen [] f n = tt
Fresh-cons c seen (d ∷ cells) (f, fs) (n, ns) = elim (Bool-cases (same_cell d c)) [
  | inl h ↦ absurd (n (same_cell-eq d c h))
  | inr h ↦ (ground arith, Fresh-cons c seen cells fs ns)
]

Fresh-head :
    (c : Cell) (seen cells : List Cell)
    → Fresh (c ∷ seen) cells
    → Fresh seen cells × All (λ (d : Cell). d ≢ c) cells
Fresh-head c seen [] f = (tt, tt)
Fresh-head c seen (d ∷ cells) (f, fs) =
    let (g, n) = Fresh-head c seen cells fs in
    let apart : d ≢ c =
      λ p. false≢true (sym (ground arith) ∙ ap (same_cell d) (sym p) ∙ same_cell_refl d) in
    ((ground arith, g), (apart, n))

Distinct-duplicates :
    (seen cells : List Cell)
    → Fresh seen cells
    → Distinct cells
    → duplicates_from same_cell seen cells ≡ false
unfolding duplicates_from
Distinct-duplicates seen [] f d = refl
Distinct-duplicates seen (c ∷ cells) (f, fs) (n, d) =
    ground (arith, Distinct-duplicates (c ∷ seen) cells (Fresh-cons c seen cells fs n) d)

duplicates-Distinct :
    (seen cells : List Cell)
    → duplicates_from same_cell seen cells ≡ false
    → Fresh seen cells × Distinct cells
unfolding duplicates_from
duplicates-Distinct seen [] e = (tt, tt)
duplicates-Distinct seen (c ∷ cells) e =
    let (f, d) = duplicates-Distinct (c ∷ seen) cells (ground arith) in
    let (g, n) = Fresh-head c seen cells f in ((ground arith, g), (n, d))

no-Fresh : (cells : List Cell) → Fresh [] cells
no-Fresh [] = tt
no-Fresh (c ∷ cells) = (refl, no-Fresh cells)

pub has_duplicates-Distinct : (cells : List Cell) → has_duplicates cells ≡ false ↔ Distinct cells
unfolding has_duplicates
has_duplicates-Distinct cells =
    (λ e. (duplicates-Distinct [] cells e).1, λ d. Distinct-duplicates [] cells (no-Fresh cells) d)

-- A proof that is no block breach.
abbrev pub Clean : Proof → Type 0
Clean p = Bears ProofKind.probe p → AllHold p

not_fails : (a : Assertion) → fails a ≡ false → a.holds ≡ true
not_fails a e = ground arith

holds-not_fails : (a : Assertion) → a.holds ≡ true → fails a ≡ false
holds-not_fails a e = ground arith

breaches-Clean : (p : Proof) → breaches p ≡ false → Clean p
unfolding breaches
breaches-Clean p e b =
    All-map not_fails p.assertions (any-All fails p.assertions (ground (arith, Bears-is_probe p b)))

Clean-breaches : (p : Proof) → Clean p → breaches p ≡ false
unfolding breaches
Clean-breaches p h = elim (Bool-cases (is_probe p)) [
  | inr n ↦ ground arith
  | inl y ↦ ground (
    arith,
    All-any fails p.assertions (All-map holds-not_fails p.assertions (h (is_probe-Bears p y))),
  )
]

pub has_block_breach-Clean :
    (proofs : List Proof) → has_block_breach proofs ≡ false ↔ All Clean proofs
unfolding has_block_breach
has_block_breach-Clean proofs = (
  λ e. All-map breaches-Clean proofs (any-All breaches proofs e),
  λ h. All-any breaches proofs (All-map Clean-breaches proofs h),
)

-- A required kind is supported: it is the decision itself, or some proof of it bears.
abbrev pub Supported : List Proof → ProofKind → Type 0
Supported proofs k = k ≢ ProofKind.decision → Exists (Bears k) proofs

abbrev bears : ProofKind → Proof → Bool
bears k p = p.verdict_bearing && same_kind p.kind k

bears-Bears : (k : ProofKind) (p : Proof) → bears k p ≡ true → Bears k p
bears-Bears k p e = (ground arith, same_kind-eq p.kind k (ground arith))

Bears-bears : (k : ProofKind) (p : Proof) → Bears k p → bears k p ≡ true
Bears-bears k p (v, q) =
    let e : same_kind p.kind k ≡ true = rw q (same_kind_refl k) in ground (arith, e)

no_ids-bears :
    (k : ProofKind) (proofs : List Proof)
    → no_ids (proof_ids_of k proofs) ≡ not (any (bears k) proofs)
unfolding proof_ids_of
no_ids-bears k [] = refl
no_ids-bears k (p ∷ proofs) = elim (Bool-cases (bears k p)) [
  | inl h ↦ rw h refl
  | inr h ↦ rw h (no_ids-bears k proofs)
]

unsupported-Supported :
    (proofs : List Proof) (k : ProofKind) → unsupported proofs k ≡ false → Supported proofs k
unfolding unsupported
unsupported-Supported proofs k e n = elim (Bool-cases (same_kind k ProofKind.decision)) [
  | inl h ↦ absurd (n (same_kind-eq k ProofKind.decision h))
  | inr h ↦
      Exists-map (bears-Bears k) proofs
        (any-Exists (bears k) proofs (ground (arith, no_ids-bears k proofs)))
]

Supported-unsupported :
    (proofs : List Proof) (k : ProofKind) → Supported proofs k → unsupported proofs k ≡ false
unfolding unsupported
Supported-unsupported proofs k s = elim (Bool-cases (same_kind k ProofKind.decision)) [
  | inl h ↦ ground arith
  | inr h ↦
      let other : k ≢ ProofKind.decision =
        λ q. false≢true (sym h ∙ ap (λ (l : ProofKind). same_kind l ProofKind.decision) q) in
      let found : any (bears k) proofs ≡ true =
        Exists-any (bears k) proofs (Exists-map (Bears-bears k) proofs (s other)) in
      ground (arith, no_ids-bears k proofs)
]

pub unsupported_iff :
    (proofs : List Proof) (kinds : List ProofKind)
    → any (unsupported proofs) kinds ≡ false ↔ All (Supported proofs) kinds
unsupported_iff proofs kinds = (
  λ e. All-map (unsupported-Supported proofs) kinds (any-All (unsupported proofs) kinds e),
  λ h. All-any (unsupported proofs) kinds (All-map (Supported-unsupported proofs) kinds h),
)
