-- ===== src/Base/Quantifiers.antt =====
-- The Boolean test `any` against the statements that it decides.
use mathlib.Core.Bool.{false≢true}
use playbook_redline.Base.{
  ◌≡◌, refl, ◌⊎◌, inl, inr, Bool, true, false, List, [], ◌∷◌, any, All, Bool-cases, arith,
}

module _ {A : Type 0} where
  -- Some element satisfies a predicate.
  abbrev pub Exists : (A → Type 0) → List A → Type 0
  Exists P [] = ⊥
  Exists P (x ∷ xs) = P x ⊎ Exists P xs

module _ {A : Type 0} (p : A → Bool) where
  pub any-Exists : (xs : List A) → any p xs ≡ true → Exists (λ (x : A). p x ≡ true) xs
  any-Exists [] e = absurd (false≢true e)
  any-Exists (x ∷ xs) e = elim (Bool-cases (p x)) [
    | inl h ↦ inl h
    | inr h ↦ inr (any-Exists xs (ground arith))
  ]

  pub Exists-any : (xs : List A) → Exists (λ (x : A). p x ≡ true) xs → any p xs ≡ true
  Exists-any [] h = elim h [ ]
  Exists-any (x ∷ xs) (inl h) = ground arith
  Exists-any (x ∷ xs) (inr h) = ground (arith, Exists-any xs h)

  pub any-All : (xs : List A) → any p xs ≡ false → All (λ (x : A). p x ≡ false) xs
  any-All [] e = tt
  any-All (x ∷ xs) e = (ground arith, any-All xs (ground arith))

  pub All-any : (xs : List A) → All (λ (x : A). p x ≡ false) xs → any p xs ≡ false
  All-any [] h = refl
  All-any (x ∷ xs) (h, hs) = ground (arith, All-any xs hs)

module _ {A : Type 0} {P Q : A → Type 0} (f : (x : A) → P x → Q x) where
  pub All-map : (xs : List A) → All P xs → All Q xs
  All-map [] h = tt
  All-map (x ∷ xs) (h, hs) = (f x h, All-map xs hs)

  pub Exists-map : (xs : List A) → Exists P xs → Exists Q xs
  Exists-map [] h = elim h [ ]
  Exists-map (x ∷ xs) (inl h) = inl (f x h)
  Exists-map (x ∷ xs) (inr h) = inr (Exists-map xs h)
