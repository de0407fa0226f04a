-- ===== src/Canonical/Lookup.antt =====
-- src/redline/canonical.py: `normalize` moves the keys of a dict and keeps what each of them holds.
use mathlib.Core.Bool.{false≢true}
use text.Mathlib.TextPositions.{compare_refl}
use playbook_redline.Base.{
  String, ◌≡◌, refl, sym, ap, ◌∙◌, inl, inr, Bool, true, false, Option, none, some, str_eq, eq_iff,
  str_leb, Bool-cases, if◌then◌else◌,
}
use playbook_redline.Canonical.{Json, Fields, end, field}
use playbook_redline.Canonical.Dump.{insert_field, normalize, normalize_fields}
use playbook_redline.Canonical.Dict.{get}

str_leb_refl : (k : String) → str_leb k k ≡ true
str_leb_refl k = rw (compare_refl k, str_leb) refl

-- Two tests that do not hold together can be made in either order.
if_swap :
    (a b : Bool) (x y z : Option Json)
    → (a ≡ true → b ≡ true → ⊥)
    → (if a then x else if b then y else z) ≡ (if b then y else if a then x else z)
if_swap true true x y z h = absurd (h refl refl)
if_swap true false x y z h = refl
if_swap false b x y z h = refl

get-insert_field :
    (k : String) (v : Json) (fs : Fields) (q : String)
    → get (insert_field k v fs) q ≡ (if str_eq k q then some v else get fs q)
unfolding insert_field
get-insert_field k v end q = refl
get-insert_field k v (field j w fs) q = elim (Bool-cases (str_leb k j)) [
  | inl h ↦ rw h refl
  | inr h ↦
      let differ : str_eq j q ≡ true → str_eq k q ≡ true → ⊥ = λ e f.
        let same : k ≡ j = (eq_iff k q).0 f ∙ sym ((eq_iff j q).0 e) in
        false≢true (sym h ∙ ap (str_leb k) (sym same) ∙ str_leb_refl k) in
      rw (h, get-insert_field k v fs q)
        (if_swap (str_eq j q) (str_eq k q) (some w) (some v) (get fs q) differ)
]

-- `normalize` of a value that may be missing.
abbrev pub normalize_found : Option Json → Option Json
normalize_found none = none
normalize_found (some v) = some (normalize v)

found_if :
    (b : Bool) (v : Json) (o : Option Json)
    → (if b then some (normalize v) else normalize_found o)
      ≡ normalize_found (if b then some v else o)
found_if true v o = refl
found_if false v o = refl

-- A key holds after `normalize` what it held before, normalized.
pub get-normalize_fields :
    (fs : Fields) (q : String) → get (normalize_fields fs) q ≡ normalize_found (get fs q)
unfolding normalize_fields
get-normalize_fields end q = refl
get-normalize_fields (field k v fs) q =
    get-insert_field k (normalize v) (normalize_fields fs) q
    ∙ ap (λ (o : Option Json). if str_eq k q then some (normalize v) else o)
        (get-normalize_fields fs q)
    ∙ found_if (str_eq k q) v (get fs q)
