-- ===== src/Tripwire/Words.antt =====
-- The searches of texts that src/redline/tripwire.py makes, as statements on lists of code points.
use mathlib.Core.Bool.{false≢true}
use playbook_redline.Base.{
  ℕ, ◌≡◌, refl, ap, ◌∙◌, ◌↔◌, inl, inr, Bool, true, List, [], ◌∷◌, ◌++◌, any, ==_iff, starts_with,
  contains, arith, Bool-cases,
}
use playbook_redline.Base.Quantifiers.{Exists, any-Exists, Exists-any, Exists-map}

abbrev pub StartsWith : List ℕ → List ℕ → Type 0
StartsWith word s = (rest : List ℕ) × (s ≡ word ++ rest)

abbrev pub Contains : List ℕ → List ℕ → Type 0
Contains word s = (before : List ℕ) × (rest : List ℕ) × (s ≡ before ++ word ++ rest)

starts_with-StartsWith : (word s : List ℕ) → starts_with word s ≡ true → StartsWith word s
unfolding starts_with
starts_with-StartsWith [] s e = (s, refl)
starts_with-StartsWith (c ∷ word) [] e = absurd (false≢true e)
starts_with-StartsWith (c ∷ word) (d ∷ s) e =
    let same : c ≡ d = (==_iff c d).0 (ground arith) in
    let (rest, q) = starts_with-StartsWith word s (ground arith) in (rest, cc)

StartsWith-starts_with : (word rest : List ℕ) → starts_with word (word ++ rest) ≡ true
unfolding starts_with
StartsWith-starts_with [] rest = refl
StartsWith-starts_with (c ∷ word) rest =
    ground (arith, (==_iff c c).1 refl, StartsWith-starts_with word rest)

pub starts_with_iff : (word s : List ℕ) → (starts_with word s ≡ true) ↔ StartsWith word s
starts_with_iff word s = (
  starts_with-StartsWith word s,
  λ (rest, q). ap (starts_with word) q ∙ StartsWith-starts_with word rest,
)

contains-Contains : (word s : List ℕ) → contains word s ≡ true → Contains word s
unfolding contains
contains-Contains word [] e = let (rest, q) = starts_with-StartsWith word [] e in ([], rest, q)
contains-Contains word (c ∷ s) e = elim (Bool-cases (starts_with word (c ∷ s))) [
  | inl h ↦ let (rest, q) = starts_with-StartsWith word (c ∷ s) h in ([], rest, q)
  | inr h ↦
      let (before, rest, q) = contains-Contains word s (ground arith) in
      (c ∷ before, rest, ap (λ (t : List ℕ). c ∷ t) q)
]

starts_with-contains : (word s : List ℕ) → starts_with word s ≡ true → contains word s ≡ true
unfolding contains
starts_with-contains word [] e = e
starts_with-contains word (c ∷ s) e = ground arith

Contains-contains : (word before rest : List ℕ) → contains word (before ++ word ++ rest) ≡ true
unfolding contains
Contains-contains word [] rest =
    starts_with-contains word (word ++ rest) (StartsWith-starts_with word rest)
Contains-contains word (c ∷ before) rest = ground (arith, Contains-contains word before rest)

pub contains_iff : (word s : List ℕ) → (contains word s ≡ true) ↔ Contains word s
contains_iff word s = (
  contains-Contains word s,
  λ (before, rest, q). ap (contains word) q ∙ Contains-contains word before rest,
)

pub any_iff :
    {A : Type 0} (p : A → Bool) (P : A → Type 0)
    → ((x : A) → (p x ≡ true) ↔ P x)
    → (xs : List A) → (any p xs ≡ true) ↔ Exists P xs
any_iff p P f xs = (
  λ e. Exists-map (λ x h. (f x).0 h) xs (any-Exists p xs e),
  λ h. Exists-any p xs (Exists-map (λ x q. (f x).1 q) xs h),
)
