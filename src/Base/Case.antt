-- ===== src/Base/Case.antt =====
-- Python's `str.lower` and `str.upper` where the result is compared with ASCII words: on the code
-- points of a text, with the letters outside ASCII as they are.
use playbook_redline.Base.{
  ℕ, ◌+◌, ◌-◌, String, Bool, true, false, ◌&&◌, List, [], ◌∷◌, map, any, codes, leb, ◌==◌,
  if◌then◌else◌,
}

abbrev pub lower_code : ℕ → ℕ
lower_code c = if leb 65 c && leb c 90 then c + 32 else c

abbrev pub upper_code : ℕ → ℕ
upper_code c = if leb 97 c && leb c 122 then c - 32 else c

-- `s.lower()` and `s.upper()`.
abbrev pub lower : String → List ℕ
lower s = map lower_code (codes s)

abbrev pub upper : String → List ℕ
upper s = map upper_code (codes s)

abbrev pub same_codes : List ℕ → List ℕ → Bool
same_codes [] [] = true
same_codes [] (d ∷ s) = false
same_codes (c ∷ r) [] = false
same_codes (c ∷ r) (d ∷ s) = c == d && same_codes r s

-- `text in words`.
abbrev pub one_of : List ℕ → List String → Bool
one_of text words = any (λ (word : String). same_codes (codes word) text) words
