-- ===== src/Ledger/Tamper.antt =====
-- src/redline/receipt.py: the last hash of an issuance ledger commits to all of its entries.
use playbook_redline.Base.{
  ℕ, String, ◌≡◌, ◌≢◌, refl, sym, ap, ◌∙◌, ◌⊎◌, inl, inr, subst, true, false, Option, none, some,
  List, [], ◌∷◌, str_eq, eq_iff, arith, Bool-cases, if◌then◌else◌,
}
use playbook_redline.Canonical.{Json, str, obj, Fields, end, field}
use playbook_redline.Canonical.Dump.{normalize}
use playbook_redline.Canonical.Dict.{get, text_of}
use playbook_redline.Canonical.Lookup.{normalize_found, get-normalize_fields}
use playbook_redline.Canonical.Hash.{genesis, hash_obj, Collision}
use playbook_redline.HashChain.{Entry, bodies, end_hash, Linked, end_hash-inj}
use playbook_redline.Ledger.{
  Line, blank, parsed, ok, without, is_str, links, read_from, tail_hash, expected_entry_hash,
}
use playbook_redline.Ledger.Chain.{Parts, read-Parts, tail_hash_cons}

text_of-normalize_found : (o : Option Json) → text_of (normalize_found o) ≡ text_of o
unfolding normalize
text_of-normalize_found none = refl
text_of-normalize_found (some (str s)) = refl
text_of-normalize_found (some _) = refl

get-without :
    (name q : String) (fs : Fields) → str_eq name q ≡ false → get (without name fs) q ≡ get fs q
unfolding without
get-without name q end n = refl
get-without name q (field k v fs) n = elim (Bool-cases (str_eq k name)) [
  | inl h ↦
      let other : str_eq k q ≡ false =
        subst (λ (t : String). str_eq t q ≡ false) (sym ((eq_iff k name).0 h)) n in
      rw (h, other) (get-without name q fs n)
  | inr h ↦
      rw h (ap (λ (o : Option Json). if str_eq k q then some v else o) (get-without name q fs n))
]

abbrev pub payload : Fields → Json
payload entry = obj (without "entry_hash" entry)

abbrev pub hash_before : Fields → String
hash_before entry = text_of (get entry "previous_entry_hash")

abbrev pub own_hash : Fields → String
own_hash entry = text_of (get entry "entry_hash")

abbrev previous_in : Json → String
previous_in (obj fs) = text_of (get fs "previous_entry_hash")
previous_in _ = ""

previous_in-payload : (e : Fields) → previous_in (normalize (payload e)) ≡ hash_before e
unfolding normalize
previous_in-payload e =
    ap text_of (get-normalize_fields (without "entry_hash" e) "previous_entry_hash")
    ∙ text_of-normalize_found (get (without "entry_hash" e) "previous_entry_hash")
    ∙ ap text_of (get-without "entry_hash" "previous_entry_hash" e refl)

pub hash_before-payload :
    (e f : Fields) → normalize (payload e) ≡ normalize (payload f) → hash_before e ≡ hash_before f
hash_before-payload e f h = sym (previous_in-payload e) ∙ ap previous_in h ∙ previous_in-payload f

-- The entries of an issuance ledger as a chain of hashes.
abbrev pub ledger_entry : Entry Fields
ledger_entry = record {
  previous_of = hash_before;
  hash_of = own_hash;
  body = payload;
  previous_of_body = hash_before-payload;
}

is_str_text : (o : Option Json) (t : String) → is_str o t ≡ true → text_of o ≡ t
is_str_text none t h = cc
is_str_text (some (str s)) t h = (eq_iff s t).0 h
is_str_text (some _) t h = cc

module _ (digest : List ℕ → String) where
  links_parts :
      (prev h : String) (entry : Fields)
      → links digest prev h entry ≡ true
      → (h ≡ hash_obj digest (payload entry)) × (hash_before entry ≡ prev)
  unfolding links expected_entry_hash
  links_parts prev h entry l =
      let same : str_eq h (hash_obj digest (payload entry)) ≡ true = ground arith in
      let before : is_str (get entry "previous_entry_hash") prev ≡ true = ground arith in
      ((eq_iff h (hash_obj digest (payload entry))).0 same, is_str_text _ prev before)

  -- What was read is a chain.
  read_from-Linked :
      (prev : String) (lines : List Line) (entries : List Fields)
      → read_from digest prev lines ≡ ok entries
      → Linked digest ledger_entry prev entries
        × (tail_hash digest prev entries ≡ end_hash ledger_entry prev entries)
  unfolding read_from Parts tail_hash
  read_from-Linked prev [] [] e = (tt, refl)
  read_from-Linked prev [] (x ∷ entries) e = cc
  read_from-Linked prev (blank ∷ lines) entries e = read_from-Linked prev lines entries e
  read_from-Linked prev (parsed (obj x) ∷ lines) entries e =
      let (h, rest, q, l, r, t) = read-Parts digest prev x lines entries e in
      let (own, before) = links_parts prev h x l in
      let (d, n) = read_from-Linked h lines rest r in
      let same : own_hash x ≡ h = ap text_of q in
      subst
        (λ (es : List Fields).
          Linked digest ledger_entry prev es
          × (tail_hash digest prev es ≡ end_hash ledger_entry prev es))
        (sym t)
        (
          (
            before,
            same ∙ own,
            subst (λ (v : String). Linked digest ledger_entry v rest) (sym same) d,
          ),
          tail_hash_cons digest prev h x rest q
              ∙ n
              ∙ ap (λ (v : String). end_hash ledger_entry v rest) (sym same),
        )
  read_from-Linked prev _ entries e = cc

  -- If no hash is `sha256:genesis`, two issuance ledgers that can be read and have the same last hash
  -- hold the same entries, up to `normalize` and their own hashes, or a collision of SHA-256 is in
  -- hand.
  pub tail_hash-inj :
      ((j : Json) → hash_obj digest j ≢ genesis)
      → (lines others : List Line) (entries changed : List Fields)
      → read_from digest genesis lines ≡ ok entries
      → read_from digest genesis others ≡ ok changed
      → tail_hash digest genesis entries ≡ tail_hash digest genesis changed
      → (bodies ledger_entry entries ≡ bodies ledger_entry changed) ⊎ Collision digest
  tail_hash-inj not_genesis lines others entries changed e f h =
      let (l, p) = read_from-Linked genesis lines entries e in
      let (m, q) = read_from-Linked genesis others changed f in
      end_hash-inj digest ledger_entry not_genesis entries changed l m (sym p ∙ h ∙ q)
