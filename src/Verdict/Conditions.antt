-- ===== src/Verdict/Conditions.antt =====
-- src/redline/proof_kernel.py: what has to hold of proofs and coverage for a PASS, stated without
-- the code's loops, and the code's tests against it.
use mathlib.Core.Bool.{false≢true}
use playbook_redline.Base.{
  String, ◌≡◌, ◌≢◌, refl, sym, ap, ◌∙◌, Bool, true, false, ◌&&◌, Option, none, some, some-inj, List,
  [], ◌∷◌, any, All, get_elem?, str_eq, str_eq_refl, eq_iff, arith, if◌then◌else◌,
}
use playbook_redline.Base.Quantifiers.{Exists, any-Exists, Exists-any, Exists-map}
use playbook_redline.Canonical.{Json, str}
use playbook_redline.Canonical.Dict.{get}
use playbook_redline.Verdict.{ProofKind, Proof, Assertion, same_kind, kind_index}
use playbook_redline.Verdict.Coverage.{
  Cell, same_cell, is_probe, text_of, cell_if, covered_cell, covers,
}

-- A proof that bears on the verdict, of a kind.
abbrev pub Bears : ProofKind → Proof → Type 0
Bears k p = (p.verdict_bearing ≡ true) × (p.kind ≡ k)

-- A probe proof for a cell: its `meta` names the cell and an assertion is about the scenario.
abbrev pub Covers : Cell → Proof → Type 0
Covers c p =
    Bears ProofKind.probe p
    × (get p.meta "scenario_id" ≡ some (str c.0))
    × (get p.meta "probe_id" ≡ some (str c.1))
    × Exists (λ (a : Assertion). a.scenario_id ≡ c.0) p.assertions

-- No cell occurs twice.
abbrev pub Distinct : List Cell → Type 0
Distinct [] = Unit
Distinct (c ∷ cells) = All (λ (d : Cell). d ≢ c) cells × Distinct cells

-- Every assertion holds.
abbrev pub AllHold : Proof → Type 0
AllHold p = All (λ (a : Assertion). a.holds ≡ true) p.assertions

abbrev all_kinds : List ProofKind
all_kinds =
    ProofKind.package_canonical ∷ ProofKind.edit_provenance ∷ ProofKind.spec_compile
    ∷ ProofKind.baseline_calibration ∷ ProofKind.replay ∷ ProofKind.replay_wellformed
    ∷ ProofKind.probe ∷ ProofKind.coverage ∷ ProofKind.candidate_absolute ∷ ProofKind.decision
    ∷ ProofKind.sponsor_readback ∷ ProofKind.verification ∷ []

kind_at_index : (k : ProofKind) → get_elem? all_kinds (kind_index k) ≡ some k
kind_at_index ProofKind.package_canonical = refl
kind_at_index _ = refl

pub same_kind-eq : (k l : ProofKind) → same_kind k l ≡ true → k ≡ l
same_kind-eq k l h =
    let e : kind_index k ≡ kind_index l = ground arith in
    some-inj k l (sym (kind_at_index k) ∙ ap (get_elem? all_kinds) e ∙ kind_at_index l)

pub same_kind_refl : (k : ProofKind) → same_kind k k ≡ true
same_kind_refl k = ground arith

pub same_cell-eq : (c d : Cell) → same_cell c d ≡ true → c ≡ d
same_cell-eq c d e =
    let p : c.0 ≡ d.0 = (eq_iff c.0 d.0).0 (ground arith) in
    let q : c.1 ≡ d.1 = (eq_iff c.1 d.1).0 (ground arith) in λ i. (p i, q i)

pub same_cell_refl : (c : Cell) → same_cell c c ≡ true
same_cell_refl c = ground (arith, str_eq_refl c.0, str_eq_refl c.1)

text_of-eq : (o : Option Json) (s : String) → text_of o ≡ some s → o ≡ some (str s)
unfolding text_of
text_of-eq (some (str t)) s e = ap (λ (x : String). some (str x)) (some-inj t s e)
text_of-eq _ s e = cc

pub is_probe-Bears : (p : Proof) → is_probe p ≡ true → Bears ProofKind.probe p
unfolding is_probe
is_probe-Bears p e = (ground arith, same_kind-eq p.kind ProofKind.probe (ground arith))

pub Bears-is_probe : (p : Proof) → Bears ProofKind.probe p → is_probe p ≡ true
unfolding is_probe
Bears-is_probe p (v, k) =
    let e : same_kind p.kind ProofKind.probe ≡ true = rw k (same_kind_refl ProofKind.probe) in
    ground (arith, e)

abbrev about : String → Assertion → Bool
about s a = str_eq a.scenario_id s

abbrev chosen : Cell → Option Cell → Bool
chosen c o = elim o [ none ↦ false | some d ↦ same_cell c d ]

chosen_if :
    (c : Cell) (b : Bool) (o : Option Cell) → chosen c (if b then o else none) ≡ b && chosen c o
chosen_if c true o = refl
chosen_if c false o = refl

chosen_parts :
    (c : Cell) (s t : Option String) (items : List Assertion)
    → chosen c (cell_if s t items) ≡ true
    → (s ≡ some c.0) × (t ≡ some c.1) × (any (about c.0) items ≡ true)
unfolding cell_if
chosen_parts c (some s) (some t) items e =
    let h : any (about s) items && same_cell c (s, t) ≡ true =
      sym (chosen_if c (any (about s) items) (some (s, t))) ∙ e in
    let q : c ≡ (s, t) = same_cell-eq c (s, t) (ground arith) in
    let a : any (about s) items ≡ true = ground arith in
    (
      ap (λ (d : Cell). some d.0) (sym q),
      ap (λ (d : Cell). some d.1) (sym q),
      ap (λ (d : Cell). any (about d.0) items) q ∙ a,
    )
chosen_parts c (some s) none items e = absurd (false≢true e)
chosen_parts c none t items e = absurd (false≢true e)

chosen_cell :
    (c : Cell) (items : List Assertion)
    → any (about c.0) items ≡ true
    → chosen c (cell_if (some c.0) (some c.1) items) ≡ true
unfolding cell_if
chosen_cell c items e = ground (arith, same_cell_refl c)

-- The cell of a probe proof, its kind aside.
abbrev named_cell : Proof → Option Cell
named_cell p =
    cell_if (text_of (get p.meta "scenario_id")) (text_of (get p.meta "probe_id")) p.assertions

covers_steps : (c : Cell) (p : Proof) → covers c p ≡ is_probe p && chosen c (named_cell p)
unfolding covers covered_cell
covers_steps c p = chosen_if c (is_probe p) (named_cell p)

pub covers-Covers : (c : Cell) (p : Proof) → covers c p ≡ true → Covers c p
covers-Covers c p e =
    let h : is_probe p && chosen c (named_cell p) ≡ true = sym (covers_steps c p) ∙ e in
    let (s, t, a) =
      chosen_parts c (text_of (get p.meta "scenario_id")) (text_of (get p.meta "probe_id"))
        p.assertions (ground arith) in
    (
      is_probe-Bears p (ground arith),
      text_of-eq (get p.meta "scenario_id") c.0 s,
      text_of-eq (get p.meta "probe_id") c.1 t,
      Exists-map (λ x q. (eq_iff x.scenario_id c.0).0 q) p.assertions
          (any-Exists (about c.0) p.assertions a),
    )

Covers-named : (c : Cell) (p : Proof) → Covers c p → chosen c (named_cell p) ≡ true
unfolding text_of
Covers-named c p (b, s, t, e) =
    rw (s, t)
      (chosen_cell c p.assertions (
        Exists-any (about c.0) p.assertions
          (Exists-map (λ a q. (eq_iff a.scenario_id c.0).1 q) p.assertions e)))

pub Covers-covers : (c : Cell) (p : Proof) → Covers c p → covers c p ≡ true
Covers-covers c p h = covers_steps c p ∙ ground (arith, Bears-is_probe p h.0, Covers-named c p h)
