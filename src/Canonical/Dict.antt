-- ===== src/Canonical/Dict.antt =====
-- Python dicts and values as the code reads them: `d.get(key)`, `bool(value)`, `isinstance`.
use playbook_redline.Base.{
  zero, suc, String, Bool, true, false, Option, none, some, str_eq, if◌then◌else◌,
}
use playbook_redline.Base.Int.{pos, negsuc}
use playbook_redline.Canonical.{Json, null, bool, int, str, arr, obj, nil, cons, Fields, end, field}

abbrev pub get : Fields → String → Option Json
get end k = none
get (field j v fs) k = if str_eq j k then some v else get fs k

abbrev pub get_or : Fields → String → Json → Json
get_or fs k d = elim (get fs k) [ none ↦ d | some v ↦ v ]

-- `bool(value)`.
abbrev pub truthy : Json → Bool
truthy null = false
truthy (bool b) = b
truthy (int (pos zero)) = false
truthy (int (pos (suc n))) = true
truthy (int (negsuc n)) = true
truthy (str String.[]) = false
truthy (str (String.◌∷◌ c s)) = true
truthy (arr nil) = false
truthy (arr (cons x xs)) = true
truthy (obj end) = false
truthy (obj (field k v fs)) = true

-- `value is True`.
abbrev pub is_true : Option Json → Bool
is_true (some (bool true)) = true
is_true _ = false

-- `bool(text)` of an optional text.
abbrev pub nonempty : Option String → Bool
nonempty none = false
nonempty (some String.[]) = false
nonempty (some (String.◌∷◌ c s)) = true

-- `policy or {}`.
abbrev pub or_empty : Option Fields → Fields
or_empty none = end
or_empty (some fs) = fs

-- The text that a value is, if it is one.
abbrev pub text_of : Option Json → String
text_of (some (str s)) = s
text_of _ = ""
