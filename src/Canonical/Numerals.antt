-- ===== src/Canonical/Numerals.antt =====
-- src/redline/canonical.py: the decimal digits of an integer are read back in one way.
use playbook_redline.Base.{
  ℕ, zero, suc, ◌+◌, ◌-◌, ◌*◌, ◌/◌, ◌%◌, ◌<◌, ◌≡◌, refl, sym, ap, ◌∙◌, Bool, true, false, ◌&&◌,
  List, [], ◌∷◌, arith, ltb, leb, Bool-cases, inl, inr, if◌then◌else◌,
}
use playbook_redline.Canonical.Dump.{dump_digits}

abbrev pub is_digit : ℕ → Bool
is_digit c = leb 48 c && leb c 57

-- A text that does not go on with a digit.
abbrev pub IsDelimited : List ℕ → Type 0
IsDelimited [] = Unit
IsDelimited (c ∷ r) = is_digit c ≡ false

-- The decimal number at the head of a text, with what follows it.
read_digits : ℕ → List ℕ → ℕ × List ℕ
read_digits n [] = (n, [])
read_digits n (c ∷ r) =
    let rest = read_digits (n * 10 + (c - 48)) r in if is_digit c then rest else (n, c ∷ r)

read_digits-IsDelimited : (n : ℕ) (r : List ℕ) → IsDelimited r → read_digits n r ≡ (n, r)
unfolding read_digits
read_digits-IsDelimited n [] h = refl
read_digits-IsDelimited n (c ∷ r) h = rw h

read_digits-digit :
    (n d : ℕ) (r : List ℕ) → d < 10 → read_digits n ((48 + d) ∷ r) ≡ read_digits (n * 10 + d) r
unfolding read_digits
read_digits-digit n d r h =
    let e : is_digit (48 + d) ≡ true = ground arith in
    let f : 48 + d - 48 ≡ d = omega arith in rw (e, f)

read_digits-dump :
    (f n : ℕ) (r : List ℕ) → n < f → read_digits 0 (dump_digits f n r) ≡ read_digits n r
unfolding dump_digits
read_digits-dump zero n r h = elim h [ ]
read_digits-dump (suc f) n r h = elim (Bool-cases (ltb n 10)) [
  | inl small ↦
      rw small (read_digits-digit 0 n r (ground arith) ∙ ap (λ k. read_digits k r) (omega arith))
  | inr large ↦ rw large (
      read_digits-dump f (n / 10) ((48 + n % 10) ∷ r) (ground arith)
      ∙ read_digits-digit (n / 10) (n % 10) r (omega arith)
      ∙ ap (λ k. read_digits k r) (omega arith))
]

pub dump_digits-inj :
    (f g n m : ℕ) (r s : List ℕ)
    → n < f
    → m < g
    → IsDelimited r
    → IsDelimited s
    → dump_digits f n r ≡ dump_digits g m s
    → (n ≡ m) × (r ≡ s)
dump_digits-inj f g n m r s hf hg dr ds e =
    let p : (n, r) ≡ (m, s) =
      sym (read_digits-dump f n r hf ∙ read_digits-IsDelimited n r dr)
      ∙ ap (read_digits 0) e
      ∙ (read_digits-dump g m s hg ∙ read_digits-IsDelimited m s ds) in
    (ap (λ t. t.0) p, ap (λ t. t.1) p)
