-- ===== src/Execution/Entries.antt =====
-- src/redline/sponsor/bitget_execution.py: the entry of an issuance ledger that
-- `_issuance_ledger_entry_hash` finds.
use playbook_redline.Base.{
  ℕ, String, ◌≡◌, refl, sym, ap, ◌∙◌, ◌⊎◌, inl, inr, Bool, true, false, Option, none, some, List,
  [], ◌∷◌, eq_iff, Bool-cases, if-true, if-false, if◌then◌else◌, some-inj,
}
use playbook_redline.Base.Quantifiers.{Exists}
use playbook_redline.Canonical.{Json, str, obj, Fields}
use playbook_redline.Canonical.Dict.{get}
use playbook_redline.Ledger.{
  Line, blank, broken, parsed, Result, is_str, links, add_entry, read_from,
}
use playbook_redline.Execution.{Outcome, ok}
use playbook_redline.Execution.Link.{ledger_mismatch, find_entry}

pub is_str-some : (o : Option Json) (t : String) → is_str o t ≡ true → o ≡ some (str t)
is_str-some (some (str s)) t h = ap (λ (v : String). some (str v)) ((eq_iff s t).0 h)
is_str-some none t h = cc
is_str-some (some _) t h = cc

-- An entry of the issuance ledger for the receipt, with its hash.
abbrev pub Issues : String → String → Fields → Type 0
Issues receipt_hash entry_hash entry =
    (get entry "receipt_hash" ≡ some (str receipt_hash))
    × (get entry "entry_hash" ≡ some (str entry_hash))

module _ (digest : List ℕ → String) (receipt_hash : String) where
  abbrev next_match : Fields → String → Option String → Option String
  next_match entry entry_hash match =
      if is_str (get entry "receipt_hash") receipt_hash then some entry_hash else match

  unfoldable Step : String → Option String → Fields → List Line → String → Type 0
  Step previous match entry lines found =
      (h : String) × (get entry "entry_hash" ≡ some (str h))
      × (links digest previous h entry ≡ true)
      × (find_entry digest receipt_hash h (next_match entry h match) lines ≡ ok found)

  if_ok :
      (b : Bool) (r : Outcome String) (found : String)
      → (if b then r else ledger_mismatch) ≡ ok found
      → (b ≡ true) × (r ≡ ok found)
  if_ok true r found e = (refl, e)
  if_ok false r found e = cc

  find_entry-Step :
      (previous : String) (match : Option String) (entry : Fields) (lines : List Line)
      (found : String)
      → find_entry digest receipt_hash previous match (parsed (obj entry) ∷ lines) ≡ ok found
      → Step previous match entry lines found
  unfolding find_entry Step
  find_entry-Step previous match entry lines found e = go (get entry "entry_hash") refl e
    where
      go :
          (o : Option Json)
          → get entry "entry_hash" ≡ o
          → elim o as (λ _. Outcome String) [
            | some (str h) ↦
                if links digest previous h entry
                then find_entry digest receipt_hash h (next_match entry h match) lines
                else ledger_mismatch
            | _ ↦ ledger_mismatch
          ]
            ≡ ok found
          → Step previous match entry lines found
      go (some (str h)) q e =
          let (l, r) = if_ok (links digest previous h entry) _ found e in (h, q, l, r)
      go none q e = cc
      go (some _) q e = cc

  read_from-parsed :
      (previous h : String) (entry : Fields) (lines : List Line) (entries : List Fields)
      → get entry "entry_hash" ≡ some (str h)
      → links digest previous h entry ≡ true
      → read_from digest h lines ≡ Result.ok entries
      → read_from digest previous (parsed (obj entry) ∷ lines) ≡ Result.ok (entry ∷ entries)
  unfolding read_from add_entry
  read_from-parsed previous h entry lines entries q l r = rw (q, read_from, l, r) refl

  -- The ledger in which an entry was found can be read, and holds it.
  pub find_entry-Issues :
      (previous : String) (match : Option String) (lines : List Line) (found : String)
      → find_entry digest receipt_hash previous match lines ≡ ok found
      → (entries : List Fields) × (read_from digest previous lines ≡ Result.ok entries)
        × ((match ≡ some found) ⊎ Exists (Issues receipt_hash found) entries)
  unfolding find_entry read_from Step
  find_entry-Issues previous (some h) [] found e = ([], refl, inl (cc))
  find_entry-Issues previous none [] found e = cc
  find_entry-Issues previous match (blank ∷ lines) found e =
      find_entry-Issues previous match lines found e
  find_entry-Issues previous match (broken ∷ lines) found e = cc
  find_entry-Issues previous match (parsed (obj entry) ∷ lines) found e =
      let (h, q, l, r) = find_entry-Step previous match entry lines found e in
      let (entries, s, m) = find_entry-Issues h (next_match entry h match) lines found r in
      let whole = read_from-parsed previous h entry lines entries q l s in
      (
        entry ∷ entries,
        whole,
        elim m [
          | inr other ↦ inr (inr other)
          | inl hit ↦ elim (Bool-cases (is_str (get entry "receipt_hash") receipt_hash)) [
            | inr n ↦
                inl
                  (sym (if-false (is_str (get entry "receipt_hash") receipt_hash) _ match n) ∙ hit)
            | inl y ↦
                let same : h ≡ found = some-inj h found (
                  sym (if-true (is_str (get entry "receipt_hash") receipt_hash) _ match y) ∙ hit) in
                inr (
                  inl (
                    (
                      is_str-some (get entry "receipt_hash") receipt_hash y,
                      q ∙ ap (λ (v : String). some (str v)) same,
                    )))
          ]
        ],
      )
  find_entry-Issues previous match (parsed _ ∷ lines) found e = cc
