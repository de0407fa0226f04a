-- ===== src/Ledger/Chain.antt =====
-- src/redline/receipt.py: what `_append_ledger` leaves of a ledger that could be read.
use playbook_redline.Base.{
  ℕ, String, ◌≡◌, ◌≢◌, refl, sym, ap, ◌∙◌, inl, inr, subst, true, Option, some, List, [], ◌∷◌, ◌++◌,
  str_eq_refl, Bool-cases, if-true, if-false, if◌then◌else◌,
}
use playbook_redline.Canonical.{Json, str, obj, Fields, end}
use playbook_redline.Canonical.Dump.{normalize, normalize_fields, insert_field}
use playbook_redline.Canonical.Dict.{get}
use playbook_redline.Canonical.Hash.{hash_obj_cong}
use playbook_redline.Ledger.{
  Line, blank, parsed, LedgerReceipt, Result, ok, conflict, crash, without, add_entry,
  ledger_key_hash, expected_entry_hash, links, read_from, tail_hash, entry_fields, new_entry,
}

module _ (digest : List ℕ → String) (receipt : LedgerReceipt) (previous : String)
    (at : Option String) where
  unfoldable pub stored : Fields
  stored = normalize_fields (new_entry digest receipt previous at)

  pub stored_key : get stored "key_hash" ≡ some (str (ledger_key_hash digest receipt))
  unfolding stored new_entry normalize_fields normalize insert_field
  stored_key = refl

  pub stored_previous : get stored "previous_entry_hash" ≡ some (str previous)
  unfolding stored new_entry normalize_fields normalize insert_field
  stored_previous = refl

  pub stored_hash : get stored "entry_hash" ≡ some (str (expected_entry_hash digest stored))
  unfolding stored new_entry expected_entry_hash without normalize_fields normalize insert_field
  stored_hash =
      ap (λ (h : String). some (str h))
        (hash_obj_cong digest (obj (entry_fields digest receipt previous at end))
          (obj (without "entry_hash" stored)) refl)

  pub stored-links : links digest previous (expected_entry_hash digest stored) stored ≡ true
  unfolding links
  stored-links =
      rw (str_eq_refl (expected_entry_hash digest stored), stored_previous) (str_eq_refl previous)

conflict-ok : (entries : List Fields) → ◌≢◌ {A = Result (List Fields)} conflict (ok entries)
conflict-ok entries e = cc

ok-inj : (a b : List Fields) → ok a ≡ ok b → a ≡ b
ok-inj a b e = cc

add_entry_parts :
    (entry : Fields) (r : Result (List Fields)) (entries : List Fields)
    → add_entry entry r ≡ ok entries
    → (rest : List Fields) × (r ≡ ok rest) × (entries ≡ entry ∷ rest)
unfolding add_entry
add_entry_parts entry (ok rest) entries e = (rest, refl, cc)
add_entry_parts entry conflict entries e = cc
add_entry_parts entry crash entries e = cc

module _ (digest : List ℕ → String) where
  read_parsed :
      (previous h : String) (entry : Fields) (lines : List Line)
      → get entry "entry_hash" ≡ some (str h)
      → links digest previous h entry ≡ true
      → read_from digest previous (parsed (obj entry) ∷ lines)
        ≡ add_entry entry (read_from digest h lines)
  unfolding read_from
  read_parsed previous h entry lines e l = rw (e, read_from, l) refl

  unfoldable pub Parts : String → Fields → List Line → List Fields → Type 0
  Parts previous entry lines entries =
      (h : String) × (rest : List Fields) × (get entry "entry_hash" ≡ some (str h))
      × (links digest previous h entry ≡ true)
      × (read_from digest h lines ≡ ok rest)
      × (entries ≡ entry ∷ rest)

  pub read-Parts :
      (previous : String) (entry : Fields) (lines : List Line) (entries : List Fields)
      → read_from digest previous (parsed (obj entry) ∷ lines) ≡ ok entries
      → Parts previous entry lines entries
  unfolding read_from Parts
  read-Parts previous entry lines entries e = go (get entry "entry_hash") refl e
    where
      go :
          (o : Option Json)
          → get entry "entry_hash" ≡ o
          → elim o as (λ _. Result (List Fields)) [
            | some (str h) ↦
                if links digest previous h entry
                then add_entry entry (read_from digest h lines)
                else conflict
            | _ ↦ conflict
          ]
            ≡ ok entries
          → Parts previous entry lines entries
      go (some (str h)) q e = elim (Bool-cases (links digest previous h entry)) [
        | inl l ↦
            let (rest, r, t) =
              add_entry_parts entry (read_from digest h lines) entries
                (sym (if-true (links digest previous h entry) _ _ l) ∙ e) in
            (h, rest, q, l, r, t)
        | inr l ↦
            absurd (conflict-ok entries (sym (if-false (links digest previous h entry) _ _ l) ∙ e))
      ]
      go _ q e = cc

  pub tail_hash_cons :
      (previous k : String) (x : Fields) (rest : List Fields)
      → get x "entry_hash" ≡ some (str k)
      → tail_hash digest previous (x ∷ rest) ≡ tail_hash digest k rest
  unfolding tail_hash
  tail_hash_cons previous k x rest q = rw (q, tail_hash) refl

  unfoldable pub Extends : String → List Line → String → Fields → List Fields → Type 0
  Extends previous lines h entry entries =
      links digest (tail_hash digest previous entries) h entry ≡ true
      → read_from digest previous (lines ++ parsed (obj entry) ∷ []) ≡ ok (entries ++ entry ∷ [])

  -- An entry that links to the last one can be added at the end.
  pub read_snoc :
      (previous : String) (lines : List Line) (entries : List Fields) (h : String) (entry : Fields)
      → read_from digest previous lines ≡ ok entries
      → get entry "entry_hash" ≡ some (str h)
      → Extends previous lines h entry entries
  unfolding tail_hash read_from Extends Parts add_entry
  read_snoc previous [] entries h entry e g =
      subst (Extends previous [] h entry) (ok-inj [] entries e)
        (λ l. read_parsed previous h entry [] g l)
  read_snoc previous (blank ∷ lines) entries h entry e g =
      read_snoc previous lines entries h entry e g
  read_snoc previous (parsed (obj x) ∷ lines) entries h entry e g =
      let (k, rest, q, m, r, t) = read-Parts previous x lines entries e in
      subst (Extends previous (parsed (obj x) ∷ lines) h entry) (sym t) (λ l.
        read_parsed previous k x (lines ++ parsed (obj entry) ∷ []) q m
        ∙ ap (add_entry x) (
            read_snoc k lines rest h entry r g
              (subst (λ v. links digest v h entry ≡ true) (tail_hash_cons previous k x rest q) l)))
  read_snoc previous _ entries h entry e g = cc
