-- ===== src/Base/Decimal.antt =====
-- Python's `decimal.Decimal` as the program uses it: read from a text with ASCII digits, compared
-- exactly, and printed by `format(value, "f")`.
pub mod Order
use Prim.Native.Char.{Char, char, code}
use playbook_redline.Base.{
  ℕ, zero, suc, ◌+◌, ◌-◌, ◌*◌, ◌/◌, ◌%◌, ◌^◌, String, Bool, true, false, ◌&&◌, ◌||◌, Option, none,
  some, List, [], ◌∷◌, ◌==◌, ltb, leb, codes, append, if◌then◌else◌,
}
use playbook_redline.Base.Strip.{strip}
use playbook_redline.Base.Int.{ℤ, pos, negsuc, pos_part, neg_part}

-- A finite value is (-1)^negative * coefficient * 10^exponent.
pub data Decimal : Type 0 where
  finite : Bool → ℕ → ℤ → Decimal
  special : Decimal

abbrev sub_ℤ : ℕ → ℕ → ℤ
sub_ℤ a b = if leb b a then pos (a - b) else negsuc (b - a - 1)

abbrev is_digit : ℕ → Bool
is_digit c = leb 48 c && leb c 57

-- The digits at the head of a text: their value after `n`, their number after `k`, and the rest.
scan_digits : ℕ → ℕ → List ℕ → ℕ × ℕ × List ℕ
scan_digits n k [] = (n, k, [])
scan_digits n k (c ∷ r) =
    let rest = scan_digits (n * 10 + (c - 48)) (k + 1) r in
    if is_digit c then rest else (n, k, c ∷ r)

take_sign : List ℕ → Bool × List ℕ
take_sign [] = (false, [])
take_sign (c ∷ r) = if c == 45 then (true, r) else if c == 43 then (false, r) else (false, c ∷ r)

exponent_of : Bool → ℕ × ℕ × List ℕ → Option ℤ
exponent_of negative (n, zero, r) = none
exponent_of negative (n, suc k, []) = some (if negative then sub_ℤ 0 n else pos n)
exponent_of negative (n, suc k, c ∷ r) = none

-- The exponent part, which may be absent.
read_exponent : List ℕ → Option ℤ
unfolding take_sign exponent_of scan_digits
read_exponent [] = some (pos 0)
read_exponent (c ∷ r) =
    let (negative, digits) = take_sign r in
    if c == 101 || c == 69 then exponent_of negative (scan_digits 0 0 digits) else none

abbrev shift : ℤ → ℕ → ℤ
shift e k = sub_ℤ (pos_part e) (neg_part e + k)

finish : Bool → ℕ → ℕ → ℕ → Option ℤ → Option Decimal
finish negative n digits places none = none
finish negative n zero places (some e) = none
finish negative n (suc d) places (some e) = some (finite negative n (shift e places))

read_fraction : Bool → ℕ → ℕ → List ℕ → Option Decimal
unfolding finish read_exponent
read_fraction negative n d [] = finish negative n d 0 (some (pos 0))
read_fraction negative n d (c ∷ r) =
    let (m, k, rest) = scan_digits n 0 r in
    if c == 46
    then finish negative m (d + k) k (read_exponent rest)
    else finish negative n d 0 (read_exponent (c ∷ r))

lower : ℕ → ℕ
lower c = if leb 65 c && leb c 90 then c + 32 else c

abbrev eat : List ℕ → List ℕ → Option (List ℕ)
eat [] s = some s
eat (c ∷ word) [] = none
eat (c ∷ word) (d ∷ s) = let rest = eat word s in if c == lower d then rest else none

only_digits : Option (List ℕ) → Bool
unfolding scan_digits
only_digits none = false
only_digits (some s) = let (n, k, rest) = scan_digits 0 0 s in elim rest [ [] ↦ true | _ ↦ false ]

nothing_left : Option (List ℕ) → Bool
nothing_left (some []) = true
nothing_left _ = false

-- `Infinity`, `NaN` and their kin.
is_special : List ℕ → Bool
unfolding only_digits nothing_left lower
is_special s =
    nothing_left (eat (codes "inf") s)
    || nothing_left (eat (codes "infinity") s)
    || only_digits (eat (codes "nan") s)
    || only_digits (eat (codes "snan") s)

read_number : Bool → List ℕ → Option Decimal
unfolding is_special read_fraction scan_digits
read_number negative s =
    let (n, d, rest) = scan_digits 0 0 s in
    if is_special s then some special else read_fraction negative n d rest

-- Underscores are dropped.
drop_underscores : List ℕ → List ℕ
drop_underscores [] = []
drop_underscores (c ∷ r) = let rest = drop_underscores r in if c == 95 then rest else c ∷ rest

-- `Decimal(text)`; `none` is InvalidOperation.
unfoldable pub parse_decimal : String → Option Decimal
unfolding take_sign read_number drop_underscores strip
parse_decimal text =
    let (negative, rest) = take_sign (drop_underscores (codes (strip text))) in
    read_number negative rest

-- `a < b` of two values that are finite and not negative, by coefficient and exponent.
abbrev pub less : ℕ × ℤ → ℕ × ℤ → Bool
less (a, e) (b, f) = ltb (a * 10 ^ (pos_part e + neg_part f)) (b * 10 ^ (pos_part f + neg_part e))

digit_char : ℕ → Char
digit_char zero = char 48 tt
digit_char (suc zero) = char 49 tt
digit_char (suc (suc zero)) = char 50 tt
digit_char (suc (suc (suc zero))) = char 51 tt
digit_char (suc (suc (suc (suc zero)))) = char 52 tt
digit_char (suc (suc (suc (suc (suc zero))))) = char 53 tt
digit_char (suc (suc (suc (suc (suc (suc zero)))))) = char 54 tt
digit_char (suc (suc (suc (suc (suc (suc (suc zero))))))) = char 55 tt
digit_char (suc (suc (suc (suc (suc (suc (suc (suc zero)))))))) = char 56 tt
digit_char _ = char 57 tt

-- The decimal text of a number with `n < f`, in front of a text.
number_text : ℕ → ℕ → String → String
unfolding digit_char
number_text zero n r = r
number_text (suc f) n r =
    let rest = number_text f (n / 10) (String.◌∷◌ (digit_char (n % 10)) r) in
    if ltb n 10 then String.◌∷◌ (digit_char n) r else rest

-- The lowest `k` digits of a number, leading zeros included.
padded_text : ℕ → ℕ → String → String
unfolding digit_char
padded_text zero n r = r
padded_text (suc k) n r = padded_text k (n / 10) (String.◌∷◌ (digit_char (n % 10)) r)

-- `format(value, "f")` of a finite value that is not negative.
unfoldable pub format_fixed : ℕ → ℤ → String
unfolding number_text padded_text
format_fixed n (pos e) = number_text (suc n) n (padded_text e 0 "")
format_fixed n (negsuc k) =
    let scale = 10 ^ suc k in
    let whole = n / scale in
    number_text (suc whole) whole (append "." (padded_text (suc k) (n % scale) ""))

-- `text.rstrip(c)` of one character.
unfoldable pub rstrip_char : ℕ → String → String
rstrip_char c String.[] = String.[]
rstrip_char c (String.◌∷◌ d s) = keep (rstrip_char c s)
  where
    keep : String → String
    keep String.[] = if code d == c then String.[] else String.◌∷◌ d String.[]
    keep (String.◌∷◌ x r) = String.◌∷◌ d (String.◌∷◌ x r)
