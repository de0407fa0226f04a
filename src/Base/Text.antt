-- ===== src/Base/Text.antt =====
-- Texts: native strings compared whole, and the walks over their characters that the code makes.
use Prim.Native.Nat.{ℕ, zero, suc, Ordering}
use Prim.Native.Char.{code}
use Prim.Native.String.{String, compare}
use mathlib.Core.Path.{◌≡◌, refl}
use mathlib.Core.Bool.{Bool, true, false, ◌&&◌, ◌||◌}
use mathlib.Core.List.{List, [], ◌∷◌}
use playbook_redline.Base.Tests.{◌==◌}
pub use text.Mathlib.Text.{◌==◌ as str_eq}
pub use text.Mathlib.TextEquality.{eq_iff}

pub str_eq_refl : (s : String) → str_eq s s ≡ true
str_eq_refl s = (eq_iff s s).1 refl

-- Python's `<=` on texts: by the code points.
abbrev pub str_leb : String → String → Bool
str_leb s t = elim (compare s t) [ Ordering.gt ↦ false | _ ↦ true ]

-- Python's `+` on texts.
unfoldable pub append : String → String → String
append String.[] t = t
append (String.◌∷◌ c s) t = String.◌∷◌ c (append s t)

-- The first `n` characters, `s[:n]`.
unfoldable pub take_text : ℕ → String → String
take_text zero s = ""
take_text (suc n) String.[] = ""
take_text (suc n) (String.◌∷◌ c s) = String.◌∷◌ c (take_text n s)

-- The code points of a text, in front of a list.
abbrev pub prepend : String → List ℕ → List ℕ
prepend String.[] r = r
prepend (String.◌∷◌ c s) r = code c ∷ prepend s r

abbrev pub codes : String → List ℕ
codes s = prepend s []

-- `s.startswith(word)`, on code points.
unfoldable pub starts_with : List ℕ → List ℕ → Bool
starts_with [] s = true
starts_with (c ∷ word) [] = false
starts_with (c ∷ word) (d ∷ s) = c == d && starts_with word s

-- `word in s`, on code points.
unfoldable pub contains : List ℕ → List ℕ → Bool
contains word [] = starts_with word []
contains word (c ∷ s) = starts_with word (c ∷ s) || contains word s
