-- ===== src/Canonical/Unambiguous.antt =====
-- src/redline/canonical.py: the canonical text of a payload can be read in one way only.
use playbook_redline.Base.{
  ℕ, zero, suc, ◌+◌, ◌/◌, ◌%◌, ◌<◌, ◌≡◌, ◌≢◌, refl, sym, ap, ◌∙◌, true, false, List, [], ◌∷◌, arith,
  ◌==◌, ltb, Bool-cases, inl, inr, if◌then◌else◌,
}
use playbook_redline.Base.Int.{ℤ, pos, negsuc}
use playbook_redline.Canonical.{
  Json, null, bool, int, str, arr, obj, Items, nil, cons, Fields, end, field,
}
use playbook_redline.Canonical.Dump.{
  dump_digits, dump_int, dump, dump_items, dump_more, dump_fields, dump_rest,
}
use playbook_redline.Canonical.Numerals.{is_digit, IsDelimited, dump_digits-inj}
use playbook_redline.Canonical.Quotes.{dump_chars-inj}

-- What the head of a text says of the value that it begins.
abbrev kind : List ℕ → ℕ
kind [] = 9
kind (c ∷ r) =
    if c == 110
    then 0
    else if c == 116
    then 1
    else if c == 102
    then 2
    else if is_digit c
    then 3
    else if c == 45
    then 7
    else if c == 34
    then 4
    else if c == 91
    then 5
    else if c == 123
    then 6
    else 8

kind-dump_digits : (f n : ℕ) (r : List ℕ) → n < f → kind (dump_digits f n r) ≡ 3
unfolding dump_digits
kind-dump_digits zero n r h = elim h [ ]
kind-dump_digits (suc f) n r h = elim (Bool-cases (ltb n 10)) [
  | inl small ↦ rw small (ground arith)
  | inr large ↦ rw large (kind-dump_digits f (n / 10) ((48 + n % 10) ∷ r) (ground arith))
]

abbrev tag_int : ℤ → ℕ
tag_int (pos n) = 3
tag_int (negsuc n) = 7

abbrev tag : Json → ℕ
tag null = 0
tag (bool true) = 1
tag (bool false) = 2
tag (int n) = tag_int n
tag (str s) = 4
tag (arr xs) = 5
tag (obj fs) = 6

kind-dump_int : (n : ℤ) (r : List ℕ) → kind (dump_int n r) ≡ tag_int n
unfolding dump_int
kind-dump_int (pos n) r = kind-dump_digits (suc n) n r (omega arith)
kind-dump_int (negsuc n) r = refl

kind-dump : (j : Json) (r : List ℕ) → kind (dump j r) ≡ tag j
unfolding dump
kind-dump null r = refl
kind-dump (bool true) r = refl
kind-dump (bool false) r = refl
kind-dump (int n) r = kind-dump_int n r
kind-dump (str s) r = refl
kind-dump (arr xs) r = refl
kind-dump (obj fs) r = refl

not_bracket : (j : Json) (r s : List ℕ) → dump j r ≢ 93 ∷ s
not_bracket j r s e = tag_ne j (sym (kind-dump j r) ∙ ap kind e)
  where
    tag_ne : (j : Json) → tag j ≢ 8
    tag_ne (bool true) = omega arith
    tag_ne (bool false) = omega arith
    tag_ne (int (pos n)) = omega arith
    tag_ne (int (negsuc n)) = omega arith
    tag_ne _ = omega arith

tags_agree : (a b : Json) (r s : List ℕ) → dump a r ≡ dump b s → tag a ≡ tag b
tags_agree a b r s e = sym (kind-dump a r) ∙ ap kind e ∙ kind-dump b s

dump_int-inj :
    (a b : ℤ) (r s : List ℕ)
    → IsDelimited r
    → IsDelimited s
    → dump_int a r ≡ dump_int b s
    → (a ≡ b) × (r ≡ s)
unfolding dump_int
dump_int-inj (pos n) (pos m) r s dr ds e =
    let p : (n ≡ m) × (r ≡ s) =
      dump_digits-inj (suc n) (suc m) n m r s (omega arith) (omega arith) dr ds e in
    (ap pos p.0, p.1)
dump_int-inj (negsuc n) (negsuc m) r s dr ds e =
    let p : (suc n ≡ suc m) × (r ≡ s) =
      dump_digits-inj (suc (suc n)) (suc (suc m)) (suc n) (suc m) r s (omega arith) (omega arith) dr
        ds (cc) in
    (ap negsuc (omega arith), p.1)
dump_int-inj (pos n) (negsuc m) r s dr ds e =
    absurd (omega (arith, ap kind e, kind-dump_digits (suc n) n r))
dump_int-inj (negsuc n) (pos m) r s dr ds e =
    absurd (omega (arith, ap kind e, kind-dump_digits (suc m) m s))

IsDelimited-more : (xs : Items) (r : List ℕ) → IsDelimited (dump_more xs r)
unfolding dump
IsDelimited-more nil r = refl
IsDelimited-more (cons x xs) r = refl

IsDelimited-rest : (fs : Fields) (r : List ℕ) → IsDelimited (dump_rest fs r)
unfolding dump
IsDelimited-rest end r = refl
IsDelimited-rest (field k v fs) r = refl

mutual
  unfolding dump

  dump-inj :
      (a b : Json) (r s : List ℕ)
      → IsDelimited r
      → IsDelimited s
      → dump a r ≡ dump b s
      → (a ≡ b) × (r ≡ s)
  dump-inj null null r s dr ds e = (refl, cc)
  dump-inj (bool true) (bool true) r s dr ds e = (refl, cc)
  dump-inj (bool false) (bool false) r s dr ds e = (refl, cc)
  dump-inj (int a) (int b) r s dr ds e = let p = dump_int-inj a b r s dr ds e in (ap int p.0, p.1)
  dump-inj (str a) (str b) r s dr ds e = let p = dump_chars-inj a b r s (cc) in (ap str p.0, p.1)
  dump-inj (arr xs) (arr ys) r s dr ds e =
      let p = dump_items-inj xs ys r s (cc) in (ap arr p.0, p.1)
  dump-inj (obj fs) (obj gs) r s dr ds e =
      let p = dump_fields-inj fs gs r s (cc) in (ap obj p.0, p.1)
  dump-inj a b r s dr ds e = absurd (ground (arith, tags_agree a b r s e))

  dump_items-inj :
      (xs ys : Items) (r s : List ℕ) → dump_items xs r ≡ dump_items ys s → (xs ≡ ys) × (r ≡ s)
  dump_items-inj nil nil r s e = (refl, cc)
  dump_items-inj nil (cons y ys) r s e = absurd (not_bracket y (dump_more ys s) r (sym e))
  dump_items-inj (cons x xs) nil r s e = absurd (not_bracket x (dump_more xs r) s e)
  dump_items-inj (cons x xs) (cons y ys) r s e =
      let p =
        dump-inj x y (dump_more xs r) (dump_more ys s) (IsDelimited-more xs r)
          (IsDelimited-more ys s) e in
      let q = dump_more-inj xs ys r s p.1 in (λ i. cons (p.0 i) (q.0 i), q.1)

  dump_more-inj :
      (xs ys : Items) (r s : List ℕ) → dump_more xs r ≡ dump_more ys s → (xs ≡ ys) × (r ≡ s)
  dump_more-inj nil nil r s e = (refl, cc)
  dump_more-inj nil (cons y ys) r s e = ground arith
  dump_more-inj (cons x xs) nil r s e = ground arith
  dump_more-inj (cons x xs) (cons y ys) r s e =
      let p =
        dump-inj x y (dump_more xs r) (dump_more ys s) (IsDelimited-more xs r)
          (IsDelimited-more ys s) (cc) in
      let q = dump_more-inj xs ys r s p.1 in (λ i. cons (p.0 i) (q.0 i), q.1)

  dump_fields-inj :
      (fs gs : Fields) (r s : List ℕ) → dump_fields fs r ≡ dump_fields gs s → (fs ≡ gs) × (r ≡ s)
  dump_fields-inj end end r s e = (refl, cc)
  dump_fields-inj end (field k v gs) r s e = ground arith
  dump_fields-inj (field k v fs) end r s e = ground arith
  dump_fields-inj (field k v fs) (field j w gs) r s e =
      let p =
        dump_chars-inj k j (58 ∷ dump v (dump_rest fs r)) (58 ∷ dump w (dump_rest gs s)) (cc) in
      let q =
        dump-inj v w (dump_rest fs r) (dump_rest gs s) (IsDelimited-rest fs r)
          (IsDelimited-rest gs s) (cc) in
      let t = dump_rest-inj fs gs r s q.1 in (λ i. field (p.0 i) (q.0 i) (t.0 i), t.1)

  dump_rest-inj :
      (fs gs : Fields) (r s : List ℕ) → dump_rest fs r ≡ dump_rest gs s → (fs ≡ gs) × (r ≡ s)
  dump_rest-inj end end r s e = (refl, cc)
  dump_rest-inj end (field k v gs) r s e = ground arith
  dump_rest-inj (field k v fs) end r s e = ground arith
  dump_rest-inj (field k v fs) (field j w gs) r s e =
      let p =
        dump_chars-inj k j (58 ∷ dump v (dump_rest fs r)) (58 ∷ dump w (dump_rest gs s)) (cc) in
      let q =
        dump-inj v w (dump_rest fs r) (dump_rest gs s) (IsDelimited-rest fs r)
          (IsDelimited-rest gs s) (cc) in
      let t = dump_rest-inj fs gs r s q.1 in (λ i. field (p.0 i) (q.0 i) (t.0 i), t.1)

-- Two payloads with one text, whatever they hold, are the same payload.
pub dump-injective : (a b : Json) → dump a [] ≡ dump b [] → a ≡ b
dump-injective a b e = (dump-inj a b [] [] tt tt e).0
