-- ===== src/Execution/Ledger/Chain.antt =====
-- src/redline/sponsor/bitget_execution.py: the entries that `load_execution_ledger` accepts are a chain
-- of hashes.
use playbook_redline.Base.{
  ℕ, String, ◌≡◌, ◌≢◌, refl, sym, ap, ◌∙◌, ◌⊎◌, inl, inr, subst, true, false, Option, none, some,
  List, [], ◌∷◌, ◌++◌, All, str_eq, eq_iff, arith, Bool-cases, if-true, if◌then◌else◌,
}
use playbook_redline.Canonical.{Json, str, obj, Fields}
use playbook_redline.Canonical.Dump.{normalize}
use playbook_redline.Canonical.Dict.{get, text_of}
use playbook_redline.Canonical.Lookup.{normalize_found, get-normalize_fields}
use playbook_redline.Canonical.Hash.{genesis, hash_obj, Collision}
use playbook_redline.HashChain.{Entry, bodies, end_hash, Linked, end_hash-inj}
use playbook_redline.Execution.{Outcome, ok, blocked, assertion_error, crash}
use playbook_redline.Execution.Ledger.{
  ExecutionLedgerEntry, File, missing, unreadable, undecodable, holding, LedgerLine, blank, invalid,
  entry, entry_json, dumped, ledger_text, last_entry_hash, set_only, prepend_entry, mismatch,
  execution_ledger_entry_hash, chained, load_from, load_execution_ledger,
}

abbrev pub fields_of : Json → Fields
fields_of (obj fs) = fs
fields_of _ = Fields.end

abbrev previous_in : Json → String
previous_in j = text_of (get (fields_of j) "previous_entry_hash")

pub get-set_only :
    (name q : String) (o : Option String) (more : Fields)
    → str_eq name q ≡ false
    → get (set_only name o more) q ≡ get more q
get-set_only name q none more n = refl
get-set_only name q (some t) more n = rw n refl

get_previous :
    (e : ExecutionLedgerEntry)
    → get (fields_of (entry_json e)) "previous_entry_hash" ≡ some (str e.previous_entry_hash)
get_previous e =
    get-set_only "issuance_ledger_entry_hash" "previous_entry_hash" e.issuance_ledger_entry_hash _
      refl
    ∙ get-set_only "issuance_checkpoint_hash" "previous_entry_hash" e.issuance_checkpoint_hash _
        refl
    ∙ get-set_only "approval_hash" "previous_entry_hash" e.approval_hash _ refl

previous_in-entry_json :
    (e : ExecutionLedgerEntry) → previous_in (normalize (entry_json e)) ≡ e.previous_entry_hash
unfolding normalize
previous_in-entry_json e =
    ap text_of (get-normalize_fields (fields_of (entry_json e)) "previous_entry_hash")
    ∙ ap (λ (o : Option Json). text_of (normalize_found o)) (get_previous e)

pub previous-entry_json :
    (e f : ExecutionLedgerEntry)
    → normalize (entry_json e) ≡ normalize (entry_json f)
    → e.previous_entry_hash ≡ f.previous_entry_hash
previous-entry_json e f h =
    sym (previous_in-entry_json e) ∙ ap previous_in h ∙ previous_in-entry_json f

-- The entries of an execution ledger as a chain of hashes.
abbrev pub execution_entry : Entry ExecutionLedgerEntry
execution_entry = record {
  previous_of = λ e. e.previous_entry_hash;
  hash_of = λ e. e.entry_hash;
  body = entry_json;
  previous_of_body = previous-entry_json;
}

pub prepend_entry-ok :
    (e : ExecutionLedgerEntry) (r : Outcome (List ExecutionLedgerEntry))
    (entries : List ExecutionLedgerEntry)
    → prepend_entry e r ≡ ok entries
    → (rest : List ExecutionLedgerEntry) × (r ≡ ok rest) × (entries ≡ e ∷ rest)
prepend_entry-ok e (ok rest) entries h = (rest, refl, cc)
prepend_entry-ok e (blocked reason message) entries h = cc
prepend_entry-ok e assertion_error entries h = cc
prepend_entry-ok e crash entries h = cc

module _ (digest : List ℕ → String) where
  chained-Linked :
      (previous : String) (e : ExecutionLedgerEntry)
      → chained digest previous e ≡ true
      → (e.previous_entry_hash ≡ previous) × (e.entry_hash ≡ hash_obj digest (entry_json e))
  unfolding chained execution_ledger_entry_hash
  chained-Linked previous e h = (
    (eq_iff e.previous_entry_hash previous).0 (ground arith),
    (eq_iff e.entry_hash (hash_obj digest (entry_json e))).0 (ground arith),
  )

  pub Linked-chained :
      (previous : String) (e : ExecutionLedgerEntry)
      → e.previous_entry_hash ≡ previous
      → e.entry_hash ≡ hash_obj digest (entry_json e)
      → chained digest previous e ≡ true
  unfolding chained execution_ledger_entry_hash
  Linked-chained previous e p h =
      let a = (eq_iff e.previous_entry_hash previous).1 p in
      let b = (eq_iff e.entry_hash (hash_obj digest (entry_json e))).1 h in rw (a, b) refl

  pub load_from-Linked :
      (previous : String) (lines : List LedgerLine) (entries : List ExecutionLedgerEntry)
      → load_from digest previous lines ≡ ok entries
      → Linked digest execution_entry previous entries
  unfolding load_from
  load_from-Linked previous [] [] h = tt
  load_from-Linked previous [] (x ∷ entries) h = cc
  load_from-Linked previous (blank ∷ lines) entries h = load_from-Linked previous lines entries h
  load_from-Linked previous (invalid ∷ lines) entries h = cc
  load_from-Linked previous (entry e ∷ lines) entries h =
      elim (Bool-cases (chained digest previous e)) [
        | inr c ↦
            let clash : mismatch ≡ ok entries =
              subst
                (λ b.
                  (if b then prepend_entry e (load_from digest e.entry_hash lines) else mismatch)
                  ≡ ok entries)
                c h in
            cc
        | inl c ↦
            let (rest, r, q) =
              prepend_entry-ok e (load_from digest e.entry_hash lines) entries
                (sym (if-true (chained digest previous e) _ mismatch c) ∙ h) in
            let (p, own) = chained-Linked previous e c in
            subst (Linked digest execution_entry previous) (sym q)
              ((p, own, load_from-Linked e.entry_hash lines rest r))
      ]

  -- A chain whose entries have each of the fields set is read back as it is.
  pub load_from-ledger_text :
      (previous : String) (entries : List ExecutionLedgerEntry)
      → All (λ (e : ExecutionLedgerEntry). dumped e ≡ e) entries
      → Linked digest execution_entry previous entries
      → load_from digest previous (ledger_text entries) ≡ ok entries
  unfolding load_from
  load_from-ledger_text previous [] full l = refl
  load_from-ledger_text previous (e ∷ entries) (f, full) (p, own, l) =
      rw (f, Linked-chained previous e p own, load_from-ledger_text e.entry_hash entries full l)
        refl

  pub Linked-snoc :
      (previous : String) (entries : List ExecutionLedgerEntry) (e : ExecutionLedgerEntry)
      → Linked digest execution_entry previous entries
      → e.previous_entry_hash ≡ last_entry_hash previous entries
      → e.entry_hash ≡ hash_obj digest (entry_json e)
      → Linked digest execution_entry previous (entries ++ e ∷ [])
  Linked-snoc previous [] e l p own = (p, own, tt)
  Linked-snoc previous (x ∷ entries) e (q, h, l) p own =
      (q, h, Linked-snoc x.entry_hash entries e l p own)

  pub load_execution_ledger-Linked :
      (file : File (List LedgerLine)) (entries : List ExecutionLedgerEntry)
      → load_execution_ledger digest file ≡ ok entries
      → Linked digest execution_entry genesis entries
  unfolding load_execution_ledger
  load_execution_ledger-Linked missing [] h = tt
  load_execution_ledger-Linked missing (x ∷ entries) h = cc
  load_execution_ledger-Linked unreadable entries h = cc
  load_execution_ledger-Linked undecodable entries h = cc
  load_execution_ledger-Linked (holding lines) entries h = load_from-Linked genesis lines entries h

  end_hash-last_entry_hash :
      (previous : String) (entries : List ExecutionLedgerEntry)
      → end_hash execution_entry previous entries ≡ last_entry_hash previous entries
  end_hash-last_entry_hash previous [] = refl
  end_hash-last_entry_hash previous (e ∷ entries) = end_hash-last_entry_hash e.entry_hash entries

  -- If no hash is `sha256:genesis`, two execution ledgers that can be loaded and have the same last
  -- entry hash hold the same entries, up to `normalize` and their own hashes, or a collision of
  -- SHA-256 is in hand.
  pub load_execution_ledger-inj :
      ((j : Json) → hash_obj digest j ≢ genesis)
      → (file other : File (List LedgerLine)) (entries changed : List ExecutionLedgerEntry)
      → load_execution_ledger digest file ≡ ok entries
      → load_execution_ledger digest other ≡ ok changed
      → last_entry_hash genesis entries ≡ last_entry_hash genesis changed
      → (bodies execution_entry entries ≡ bodies execution_entry changed) ⊎ Collision digest
  load_execution_ledger-inj not_genesis file other entries changed e f h =
      end_hash-inj digest execution_entry not_genesis entries changed
        (load_execution_ledger-Linked file entries e) (load_execution_ledger-Linked other changed f)
        (end_hash-last_entry_hash genesis entries
          ∙ h
          ∙ sym (end_hash-last_entry_hash genesis changed))
