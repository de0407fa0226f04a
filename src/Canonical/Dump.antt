-- ===== src/Canonical/Dump.antt =====
-- src/redline/canonical.py: `normalize` on payloads of texts, integers, lists and dicts, and
-- `json.dumps(..., ensure_ascii=False, sort_keys=True, separators=(",", ":"))`. Each printer writes
-- in front of the text that follows it.
use playbook_redline.Base.{
  ℕ, zero, suc, ◌+◌, ◌/◌, ◌%◌, String, true, false, List, [], ◌∷◌, ◌==◌, ltb, prepend, str_leb,
  if◌then◌else◌,
}
use playbook_redline.Base.Int.{ℤ, pos, negsuc}
use playbook_redline.Canonical.{
  Json, null, bool, int, str, arr, obj, Items, nil, cons, Fields, end, field,
}
use Prim.Native.Char.{code}

-- Put a key in its place among sorted keys.
unfoldable pub insert_field : String → Json → Fields → Fields
insert_field k v end = field k v end
insert_field k v (field j w fs) =
    if str_leb k j then field k v (field j w fs) else field j w (insert_field k v fs)

unfoldable mutual
  unfolding insert_field

  pub normalize : Json → Json
  normalize null = null
  normalize (bool b) = bool b
  normalize (int n) = int n
  normalize (str s) = str s
  normalize (arr xs) = arr (normalize_items xs)
  normalize (obj fs) = obj (normalize_fields fs)

  pub normalize_items : Items → Items
  normalize_items nil = nil
  normalize_items (cons x xs) = cons (normalize x) (normalize_items xs)

  pub normalize_fields : Fields → Fields
  normalize_fields end = end
  normalize_fields (field k v fs) = insert_field k (normalize v) (normalize_fields fs)

-- A decimal digit in front of a text, and the digits of a number with `n < f`.
unfoldable pub dump_digits : ℕ → ℕ → List ℕ → List ℕ
dump_digits zero n r = r
dump_digits (suc f) n r =
    let rest = dump_digits f (n / 10) ((48 + n % 10) ∷ r) in if ltb n 10 then (48 + n) ∷ r else rest

unfoldable pub dump_int : ℤ → List ℕ → List ℕ
unfolding dump_digits
dump_int (pos n) r = dump_digits (suc n) n r
dump_int (negsuc n) r = 45 ∷ dump_digits (suc (suc n)) (suc n) r

unfoldable pub hex_digit : ℕ → ℕ
hex_digit n = if ltb n 10 then 48 + n else 87 + n

-- `py_encode_basestring` of the json module.
unfoldable pub escape : ℕ → List ℕ → List ℕ
unfolding hex_digit
escape c r =
    if c == 34
    then 92 ∷ 34 ∷ r
    else if c == 92
    then 92 ∷ 92 ∷ r
    else if c == 10
    then 92 ∷ 110 ∷ r
    else if c == 13
    then 92 ∷ 114 ∷ r
    else if c == 9
    then 92 ∷ 116 ∷ r
    else if c == 12
    then 92 ∷ 102 ∷ r
    else if c == 8
    then 92 ∷ 98 ∷ r
    else if ltb c 32
    then 92 ∷ 117 ∷ 48 ∷ 48 ∷ hex_digit (c / 16) ∷ hex_digit (c % 16) ∷ r
    else c ∷ r

unfoldable pub dump_chars : String → List ℕ → List ℕ
unfolding escape
dump_chars String.[] r = r
dump_chars (String.◌∷◌ c s) r = escape (code c) (dump_chars s r)

unfoldable mutual
  unfolding dump_int dump_chars

  pub dump : Json → List ℕ → List ℕ
  dump null r = prepend "null" r
  dump (bool true) r = prepend "true" r
  dump (bool false) r = prepend "false" r
  dump (int n) r = dump_int n r
  dump (str s) r = 34 ∷ dump_chars s (34 ∷ r)
  dump (arr xs) r = 91 ∷ dump_items xs r
  dump (obj fs) r = 123 ∷ dump_fields fs r

  pub dump_items : Items → List ℕ → List ℕ
  dump_items nil r = 93 ∷ r
  dump_items (cons x xs) r = dump x (dump_more xs r)

  pub dump_more : Items → List ℕ → List ℕ
  dump_more nil r = 93 ∷ r
  dump_more (cons x xs) r = 44 ∷ dump x (dump_more xs r)

  pub dump_fields : Fields → List ℕ → List ℕ
  dump_fields end r = 125 ∷ r
  dump_fields (field k v fs) r = 34 ∷ dump_chars k (34 ∷ 58 ∷ dump v (dump_rest fs r))

  pub dump_rest : Fields → List ℕ → List ℕ
  dump_rest end r = 125 ∷ r
  dump_rest (field k v fs) r = 44 ∷ 34 ∷ dump_chars k (34 ∷ 58 ∷ dump v (dump_rest fs r))

unfoldable pub canonical_bytes : Json → List ℕ
unfolding normalize dump
canonical_bytes j = dump (normalize j) []
