-- ===== src/Canonical/Quotes.antt =====
-- src/redline/canonical.py: a quoted text is read back in one way, its escapes included.
use playbook_redline.Base.{
  ℕ, ◌+◌, ◌-◌, ◌*◌, ◌/◌, ◌%◌, ◌<◌, String, ◌≡◌, ◌≢◌, refl, sym, ap, ◌∙◌, List, [], ◌∷◌, Option,
  none, some, arith, ◌==◌, ltb, leb, Bool-cases, inl, inr, if◌then◌else◌,
}
use playbook_redline.Canonical.Dump.{hex_digit, escape, dump_chars}
use Prim.Native.Char.{code}
use text.Mathlib.TextEquality.{Char-path}

hex_value : ℕ → ℕ
hex_value c = if leb c 57 then c - 48 else c - 87

hex_value-hex_digit : (n : ℕ) → n < 16 → hex_value (hex_digit n) ≡ n
unfolding hex_value hex_digit
hex_value-hex_digit n h = ground arith

read_hex : List ℕ → Option (ℕ × List ℕ)
read_hex (a ∷ b ∷ x ∷ y ∷ r) = some (hex_value x * 16 + hex_value y, r)
read_hex _ = none

read_escape : List ℕ → Option (ℕ × List ℕ)
read_escape [] = none
read_escape (d ∷ r) =
    if d == 34
    then some (34, r)
    else if d == 92
    then some (92, r)
    else if d == 110
    then some (10, r)
    else if d == 114
    then some (13, r)
    else if d == 116
    then some (9, r)
    else if d == 102
    then some (12, r)
    else if d == 98
    then some (8, r)
    else read_hex r

-- The character at the head of a printed text, with what follows it; none at a closing quote.
read_char : List ℕ → Option (ℕ × List ℕ)
unfolding read_escape read_hex
read_char [] = none
read_char (c ∷ r) = if c == 34 then none else if c == 92 then read_escape r else some (c, r)

read_char-escape : (c : ℕ) (r : List ℕ) → read_char (escape c r) ≡ some (c, r)
unfolding read_char escape
read_char-escape c r = elim (Bool-cases (ltb c 32)) [
  | inl control ↦ ground (arith, hex_value-hex_digit (c / 16), hex_value-hex_digit (c % 16))
  | inr plain ↦ ground arith
]

escape-inj : (c d : ℕ) (r s : List ℕ) → escape c r ≡ escape d s → (c ≡ d) × (r ≡ s)
escape-inj c d r s e =
    let p : ◌≡◌ {A = Option (ℕ × List ℕ)} (some (c, r)) (some (d, s)) =
      sym (read_char-escape c r) ∙ ap read_char e ∙ read_char-escape d s in
    ground arith

escape_open : (c : ℕ) (r s : List ℕ) → escape c r ≢ 34 ∷ s
escape_open c r s e =
    let p : ◌≡◌ {A = Option (ℕ × List ℕ)} (some (c, r)) none =
      sym (read_char-escape c r) ∙ ap read_char e ∙ quote_closes s in
    cc
  where
    quote_closes : (t : List ℕ) → read_char (34 ∷ t) ≡ none
    quote_closes t = unfold read_char in refl

pub dump_chars-inj :
    (a b : String) (r s : List ℕ)
    → dump_chars a (34 ∷ r) ≡ dump_chars b (34 ∷ s)
    → (a ≡ b) × (r ≡ s)
unfolding dump_chars
dump_chars-inj String.[] String.[] r s e = (refl, cc)
dump_chars-inj String.[] (String.◌∷◌ d b) r s e =
    absurd (escape_open (code d) (dump_chars b (34 ∷ s)) r (sym e))
dump_chars-inj (String.◌∷◌ c a) String.[] r s e =
    absurd (escape_open (code c) (dump_chars a (34 ∷ r)) s e)
dump_chars-inj (String.◌∷◌ c a) (String.◌∷◌ d b) r s e =
    let p = escape-inj (code c) (code d) (dump_chars a (34 ∷ r)) (dump_chars b (34 ∷ s)) e in
    let q = dump_chars-inj a b r s p.1 in
    let h = Char-path c d p.0 in (λ i. String.◌∷◌ (h i) (q.0 i), q.1)
