-- ===== src/Verdict/Caps.antt =====
-- src/redline/proof_kernel.py: the size cap of a verdict, and the tier that goes with each status.
use mathlib.Core.Bool.{false≢true}
use playbook_redline.Base.{
  subst, ℕ, String, ◌≡◌, refl, sym, ◌∙◌, inl, inr, true, false, not, ◌&&◌, Option, none, some,
  some-inj, if-some, List, [], ◌∷◌, All, Bool-cases, if-true, if-false, arith, ltb, ◌<◌,
}
use playbook_redline.Base.Int.{ℤ, pos}
use playbook_redline.Base.Decimal.{less, parse_decimal, Decimal, finite}
use playbook_redline.Base.Decimal.Order.{not_less_trans, less_asym, not_less_refl}
use playbook_redline.Base.Quantifiers.{Exists}
use playbook_redline.Canonical.{Json, str}
use playbook_redline.Canonical.Dict.{get}
use playbook_redline.Verdict.{Proof}
use playbook_redline.Verdict.Size.{
  add_cap, valid_cap, cap_of_text, is_text, breaches, proposed_cap, caps_of, least, cap_text,
  smallest, reduce_size_cap_for_breaches,
}

-- A cap that `proofs` propose for a breach, above 0 and at most 1.
abbrev pub Proposes : ℕ × ℤ → Proof → Type 0
Proposes cap p = (breaches p ≡ true) × (proposed_cap p ≡ some cap)

-- A proof that breaches has a cap.
abbrev pub Capped : Proof → Type 0
Capped p = breaches p ≡ true → (cap : ℕ × ℤ) × (proposed_cap p ≡ some cap)

-- Each cap of the list is proposed by one of the proofs.
abbrev Sourced : List Proof → List (ℕ × ℤ) → Type 0
Sourced proofs = All (λ (cap : ℕ × ℤ). Exists (Proposes cap) proofs)

later :
    (p : Proof) (proofs : List Proof) (caps : List (ℕ × ℤ))
    → Sourced proofs caps
    → Sourced (p ∷ proofs) caps
later p proofs [] h = tt
later p proofs (cap ∷ caps) (h, hs) = (inr h, later p proofs caps hs)

add_cap_parts :
    (o : Option (ℕ × ℤ)) (rest : Option (List (ℕ × ℤ))) (caps : List (ℕ × ℤ))
    → add_cap o rest ≡ some caps
    → (cap : ℕ × ℤ) × (more : List (ℕ × ℤ)) × (o ≡ some cap)
      × (rest ≡ some more)
      × (caps ≡ cap ∷ more)
unfolding add_cap
add_cap_parts (some cap) (some more) caps e =
    (cap, more, refl, refl, sym (some-inj (cap ∷ more) caps e))
add_cap_parts (some cap) none caps e = cc
add_cap_parts none rest caps e = cc

caps_of_sound :
    (proofs : List Proof) (caps : List (ℕ × ℤ))
    → caps_of proofs ≡ some caps
    → All Capped proofs × Sourced proofs caps
unfolding caps_of
caps_of_sound [] [] e = (tt, tt)
caps_of_sound [] (c ∷ caps) e = cc
caps_of_sound (p ∷ proofs) caps e = elim (Bool-cases (breaches p)) [
  | inl h ↦
      let (cap, more, c, m, q) =
        add_cap_parts (proposed_cap p) (caps_of proofs) caps
          (sym (if-true (breaches p) _ _ h) ∙ e) in
      let (capped, sourced) = caps_of_sound proofs more m in
      let all_sourced : Sourced (p ∷ proofs) (cap ∷ more) =
        (inl (h, c), later p proofs more sourced) in
      (((λ _. (cap, c)), capped), subst (Sourced (p ∷ proofs)) (sym q) all_sourced)
  | inr h ↦
      let (capped, sourced) = caps_of_sound proofs caps (sym (if-false (breaches p) _ _ h) ∙ e) in
      (((λ y. absurd (false≢true (sym h ∙ y))), capped), later p proofs caps sourced)
]

least-Sourced :
    (proofs : List Proof) (best : ℕ × ℤ) (caps : List (ℕ × ℤ))
    → Sourced proofs (best ∷ caps)
    → Exists (Proposes (least best caps)) proofs
unfolding least
least-Sourced proofs best [] (h, _) = h
least-Sourced proofs best (cap ∷ caps) (h, (c, hs)) = elim (Bool-cases (less cap best)) [
  | inl y ↦ rw y (least-Sourced proofs cap caps (c, hs))
  | inr n ↦ rw n (least-Sourced proofs best caps (h, hs))
]

smallest_parts :
    (o : Option (List (ℕ × ℤ))) (text : String)
    → smallest o ≡ some text
    → (cap : ℕ × ℤ) × (caps : List (ℕ × ℤ)) × (o ≡ some (cap ∷ caps))
      × (text ≡ cap_text (least cap caps))
unfolding smallest
smallest_parts (some (cap ∷ caps)) text e = (cap, caps, refl, sym (some-inj _ text e))
smallest_parts (some []) text e = cc
smallest_parts none text e = cc

-- No cap of the list is below `best`.
abbrev NoneBelow : ℕ × ℤ → List (ℕ × ℤ) → Type 0
NoneBelow best = All (λ (c : ℕ × ℤ). less c best ≡ false)

NoneBelow-trans :
    (a b : ℕ × ℤ) (caps : List (ℕ × ℤ)) → less b a ≡ false → NoneBelow b caps → NoneBelow a caps
NoneBelow-trans a b [] h hs = tt
NoneBelow-trans a b (c ∷ caps) h (l, ls) = (not_less_trans a b c h l, NoneBelow-trans a b caps h ls)

least-NoneBelow : (best : ℕ × ℤ) (caps : List (ℕ × ℤ)) → NoneBelow (least best caps) (best ∷ caps)
unfolding least
least-NoneBelow best [] = (not_less_refl best, tt)
least-NoneBelow best (c ∷ caps) = elim (Bool-cases (less c best)) [
  | inl y ↦
      let (h, hs) = least-NoneBelow c caps in
      subst (λ x. NoneBelow (least x caps) (best ∷ c ∷ caps)) (sym (if-true (less c best) c best y))
        ((not_less_trans (least c caps) c best h (less_asym c best y), (h, hs)))
  | inr n ↦
      let (h, hs) = least-NoneBelow best caps in
      subst (λ x. NoneBelow (least x caps) (best ∷ c ∷ caps))
        (sym (if-false (less c best) c best n))
        ((h, (not_less_trans (least best caps) best c h n, hs)))
]

-- Every cap that a proof proposes is in the list.
abbrev AtLeast : ℕ × ℤ → Proof → Type 0
AtLeast best p = (c : ℕ × ℤ) → Proposes c p → less c best ≡ false

caps_of-AtLeast :
    (best : ℕ × ℤ) (proofs : List Proof) (caps : List (ℕ × ℤ))
    → caps_of proofs ≡ some caps
    → NoneBelow best caps
    → All (AtLeast best) proofs
unfolding caps_of
caps_of-AtLeast best [] caps e h = tt
caps_of-AtLeast best (p ∷ proofs) caps e h = elim (Bool-cases (breaches p)) [
  | inl y ↦
      let (c, more, o, m, q) =
        add_cap_parts (proposed_cap p) (caps_of proofs) caps
          (sym (if-true (breaches p) _ _ y) ∙ e) in
      let (l, ls) : NoneBelow best (c ∷ more) = subst (NoneBelow best) q h in
      (
        (λ d (_, proposed). subst (λ x. less x best ≡ false) (some-inj c d (sym o ∙ proposed)) l),
        caps_of-AtLeast best proofs more m ls,
      )
  | inr n ↦ (
    (λ d (breach, _). absurd (false≢true (sym n ∙ breach))),
    caps_of-AtLeast best proofs caps (sym (if-false (breaches p) _ _ n) ∙ e) h,
  )
]

-- What a cap is worth: above 0 and at most 1.
abbrev pub InUnit : ℕ × ℤ → Type 0
InUnit c = (0 < c.0) × (less (1, pos 0) c ≡ false)

valid_cap-InUnit : (o : Option Decimal) (c : ℕ × ℤ) → valid_cap o ≡ some c → InUnit c
unfolding valid_cap
valid_cap-InUnit (some (finite false n e)) c h =
    let (t, q) = if-some (ltb 0 n && not (less (1, pos 0) (n, e))) (n, e) c h in
    let good : InUnit (n, e) = (ground arith, ground arith) in subst InUnit q good
valid_cap-InUnit _ c h = cc

cap_of_text-InUnit : (o : Option Json) (c : ℕ × ℤ) → cap_of_text o ≡ some c → InUnit c
unfolding cap_of_text
cap_of_text-InUnit (some (str raw)) c h = valid_cap-InUnit (parse_decimal raw) c h
cap_of_text-InUnit _ c h = cc

none-some : (c : ℕ × ℤ) → ◌≡◌ {A = Option (ℕ × ℤ)} none (some c) → InUnit c
none-some c h = cc

proposed_cap-InUnit : (p : Proof) (c : ℕ × ℤ) → proposed_cap p ≡ some c → InUnit c
unfolding proposed_cap
proposed_cap-InUnit p c h = elim (Bool-cases (is_text (get p.meta "breach_action") "reduce_size")) [
  | inl y ↦
      cap_of_text-InUnit (get p.meta "adjusted_size_cap") c
        (sym (if-true (is_text (get p.meta "breach_action") "reduce_size") _ _ y) ∙ h)
  | inr n ↦
      none-some c (sym (if-false (is_text (get p.meta "breach_action") "reduce_size") _ _ n) ∙ h)
]

-- A cap above 0 and at most 1 that a breaching proof proposes, and no breaching proof a lower one.
abbrev pub Least : List Proof → ℕ × ℤ → Type 0
Least proofs c = InUnit c × Exists (Proposes c) proofs × All (AtLeast c) proofs

Exists-InUnit : (c : ℕ × ℤ) (proofs : List Proof) → Exists (Proposes c) proofs → InUnit c
Exists-InUnit c [] h = elim h [ ]
Exists-InUnit c (p ∷ proofs) (inl (_, h)) = proposed_cap-InUnit p c h
Exists-InUnit c (p ∷ proofs) (inr h) = Exists-InUnit c proofs h

-- When `_reduce_size_cap_for_breaches` returns a cap, every breaching proof proposes one, and the
-- text is that of the least of them, which is above 0 and at most 1.
pub reduce_size_cap_sound :
    (proofs : List Proof) (text : String)
    → reduce_size_cap_for_breaches proofs ≡ some text
    → All Capped proofs × ((c : ℕ × ℤ) × (text ≡ cap_text c) × Least proofs c)
unfolding reduce_size_cap_for_breaches
reduce_size_cap_sound proofs text e =
    let (c, caps, o, t) = smallest_parts (caps_of proofs) text e in
    let (capped, sourced) = caps_of_sound proofs (c ∷ caps) o in
    let found : Exists (Proposes (least c caps)) proofs = least-Sourced proofs c caps sourced in
    (
      capped,
      (
        least c caps,
        t,
        (
          Exists-InUnit (least c caps) proofs found,
          found,
          caps_of-AtLeast (least c caps) proofs (c ∷ caps) o (least-NoneBelow c caps),
        ),
      ),
    )
