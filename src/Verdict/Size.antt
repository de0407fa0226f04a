-- ===== src/Verdict/Size.antt =====
-- src/redline/proof_kernel.py: block breaches, and the size cap that may answer them.
use playbook_redline.Base.{
  ℕ, String, Bool, false, not, ◌&&◌, ◌||◌, Option, none, some, List, [], ◌∷◌, any, ltb, str_eq,
  if◌then◌else◌,
}
use playbook_redline.Base.Int.{ℤ, pos}
use playbook_redline.Base.Decimal.{Decimal, finite, parse_decimal, less, format_fixed, rstrip_char}
use playbook_redline.Canonical.{Json, str}
use playbook_redline.Canonical.Dict.{get}
use playbook_redline.Verdict.{Proof, Assertion}
use playbook_redline.Verdict.Coverage.{is_probe}

abbrev pub fails : Assertion → Bool
fails a = not a.holds

-- A verdict-bearing probe proof with an assertion that does not hold.
unfoldable pub breaches : Proof → Bool
breaches p = is_probe p && any fails p.assertions

-- `_has_block_breach`.
unfoldable pub has_block_breach : List Proof → Bool
has_block_breach = any breaches

abbrev pub is_text : Option Json → String → Bool
is_text (some (str s)) t = str_eq s t
is_text _ t = false

-- A cap by coefficient and exponent, if it is finite, above 0 and at most 1.
unfoldable pub valid_cap : Option Decimal → Option (ℕ × ℤ)
valid_cap (some (finite false n e)) =
    if ltb 0 n && not (less (1, pos 0) (n, e)) then some (n, e) else none
valid_cap _ = none

unfoldable pub cap_of_text : Option Json → Option (ℕ × ℤ)
cap_of_text (some (str raw)) = valid_cap (parse_decimal raw)
cap_of_text _ = none

-- The cap that a breaching proof proposes.
unfoldable pub proposed_cap : Proof → Option (ℕ × ℤ)
unfolding cap_of_text
proposed_cap p =
    if is_text (get p.meta "breach_action") "reduce_size"
    then cap_of_text (get p.meta "adjusted_size_cap")
    else none

unfoldable pub add_cap : Option (ℕ × ℤ) → Option (List (ℕ × ℤ)) → Option (List (ℕ × ℤ))
add_cap (some cap) (some caps) = some (cap ∷ caps)
add_cap _ rest = none

-- The loop: one breaching proof without a valid cap ends it with no cap.
unfoldable pub caps_of : List Proof → Option (List (ℕ × ℤ))
unfolding add_cap
caps_of [] = some []
caps_of (p ∷ proofs) =
    let rest = caps_of proofs in if breaches p then add_cap (proposed_cap p) rest else rest

-- `min(caps)`: the first of the least.
unfoldable pub least : ℕ × ℤ → List (ℕ × ℤ) → ℕ × ℤ
least best [] = best
least best (cap ∷ caps) = least (if less cap best then cap else best) caps

abbrev pub has_point : String → Bool
has_point String.[] = false
has_point (String.◌∷◌ c s) = str_eq (String.◌∷◌ c String.[]) "." || has_point s

unfoldable pub cap_text : ℕ × ℤ → String
unfolding format_fixed rstrip_char
cap_text cap =
    let text = format_fixed cap.0 cap.1 in
    if has_point text then rstrip_char 46 (rstrip_char 48 text) else text

unfoldable pub smallest : Option (List (ℕ × ℤ)) → Option String
unfolding least
smallest (some (cap ∷ caps)) = some (cap_text (least cap caps))
smallest _ = none

-- `_reduce_size_cap_for_breaches`.
unfoldable pub reduce_size_cap_for_breaches : List Proof → Option String
unfolding smallest caps_of
reduce_size_cap_for_breaches proofs = smallest (caps_of proofs)
