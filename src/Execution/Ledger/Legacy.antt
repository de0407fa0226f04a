-- ===== src/Execution/Ledger/Legacy.antt =====
-- src/redline/sponsor/bitget_execution.py: ledgers with an entry that was written without a link field,
-- when a later order is appended to them.
use playbook_redline.Base.{
  ℕ, String, ◌≡◌, refl, sym, ap, ◌∙◌, ◌⊎◌, inl, inr, Bool, true, false, ◌||◌, Option, none, some,
  List, [], ◌∷◌, ◌++◌, any, str_eq, eq_iff, arith, Bool-cases,
}
use playbook_redline.Canonical.{Json, Fields}
use playbook_redline.Canonical.Dump.{normalize}
use playbook_redline.Canonical.Dict.{get}
use playbook_redline.Canonical.Lookup.{normalize_found, get-normalize_fields}
use playbook_redline.Canonical.Hash.{genesis, hash_obj, Collision, hash_obj-inj}
use playbook_redline.HashChain.{Linked}
use playbook_redline.Execution.Ledger.{
  ExecutionLedgerEntry, entry_json, or_default, dumped, ledger_text, set_only, mismatch,
  execution_ledger_entry_hash, chained, load_from,
}
use playbook_redline.Execution.Ledger.Chain.{
  fields_of, get-set_only, execution_entry, Linked-chained,
}

abbrev unset : Option String → Bool
unset none = true
unset (some t) = false

-- An entry without one of the link fields.
abbrev pub is_legacy : ExecutionLedgerEntry → Bool
is_legacy e =
    unset e.issuance_ledger_entry_hash || unset e.issuance_checkpoint_hash || unset e.approval_hash

abbrev has : Option Json → Bool
has none = false
has (some v) = true

has-normalize_found : (o : Option Json) → has (normalize_found o) ≡ has o
has-normalize_found none = refl
has-normalize_found (some v) = refl

abbrev key_in : String → Json → Bool
key_in name j = has (get (fields_of j) name)

key_in-normalize :
    (name : String) (e : ExecutionLedgerEntry)
    → key_in name (normalize (entry_json e)) ≡ key_in name (entry_json e)
unfolding normalize
key_in-normalize name e =
    ap has (get-normalize_fields (fields_of (entry_json e)) name)
    ∙ has-normalize_found (get (fields_of (entry_json e)) name)

abbrev is_set : Option String → Bool
is_set none = false
is_set (some t) = true

-- The last case is where the rest lacks the key.
get_own :
    (name : String) (o : Option String) (more : Fields)
    → str_eq name name ≡ true
    → get more name ≡ none
    → has (get (set_only name o more) name) ≡ is_set o
get_own name none more s n = rw n refl
get_own name (some t) more s n = rw s refl

module _ (e : ExecutionLedgerEntry) where
  has_ledger_hash :
      key_in "issuance_ledger_entry_hash" (entry_json e) ≡ is_set e.issuance_ledger_entry_hash
  has_ledger_hash = get_own "issuance_ledger_entry_hash" e.issuance_ledger_entry_hash _ refl (
      get-set_only "issuance_checkpoint_hash" "issuance_ledger_entry_hash"
        e.issuance_checkpoint_hash _ refl
      ∙ get-set_only "approval_hash" "issuance_ledger_entry_hash" e.approval_hash _ refl)

  has_checkpoint_hash :
      key_in "issuance_checkpoint_hash" (entry_json e) ≡ is_set e.issuance_checkpoint_hash
  has_checkpoint_hash =
      ap has (
        get-set_only "issuance_ledger_entry_hash" "issuance_checkpoint_hash"
          e.issuance_ledger_entry_hash _ refl)
      ∙ get_own "issuance_checkpoint_hash" e.issuance_checkpoint_hash _ refl
          (get-set_only "approval_hash" "issuance_checkpoint_hash" e.approval_hash _ refl)

  has_approval_hash : key_in "approval_hash" (entry_json e) ≡ is_set e.approval_hash
  has_approval_hash =
      ap has (
        get-set_only "issuance_ledger_entry_hash" "approval_hash" e.issuance_ledger_entry_hash _
          refl
        ∙ get-set_only "issuance_checkpoint_hash" "approval_hash" e.issuance_checkpoint_hash _ refl)
      ∙ get_own "approval_hash" e.approval_hash _ refl refl

set_unset : (o : Option String) → is_set o ≡ true → unset o ≡ false
set_unset none s = cc
set_unset (some t) s = refl

is_set-or_default : (t : String) (o : Option String) → is_set (or_default t o) ≡ true
is_set-or_default t none = refl
is_set-or_default t (some v) = refl

or_default_set : (t : String) (o : Option String) → unset o ≡ false → or_default t o ≡ o
or_default_set t none n = cc
or_default_set t (some v) n = refl

-- A dump that has the payload of the entry has no more keys.
same_key :
    (name : String) (e : ExecutionLedgerEntry) (before after : Option String)
    → normalize (entry_json (dumped e)) ≡ normalize (entry_json e)
    → key_in name (entry_json e) ≡ is_set before
    → key_in name (entry_json (dumped e)) ≡ is_set after
    → is_set after ≡ true
    → unset before ≡ false
same_key name e before after h k l s = set_unset before (
    sym k
    ∙ sym (key_in-normalize name e)
    ∙ ap (key_in name) (sym h)
    ∙ key_in-normalize name (dumped e)
    ∙ l
    ∙ s)

legacy_differs :
    (e : ExecutionLedgerEntry)
    → normalize (entry_json (dumped e)) ≡ normalize (entry_json e)
    → is_legacy e ≡ false
legacy_differs e h =
    let a =
      same_key "issuance_ledger_entry_hash" e e.issuance_ledger_entry_hash
        (dumped e).issuance_ledger_entry_hash h (has_ledger_hash e) (has_ledger_hash (dumped e))
        (is_set-or_default genesis e.issuance_ledger_entry_hash) in
    let b =
      same_key "issuance_checkpoint_hash" e e.issuance_checkpoint_hash
        (dumped e).issuance_checkpoint_hash h (has_checkpoint_hash e)
        (has_checkpoint_hash (dumped e)) (is_set-or_default genesis e.issuance_checkpoint_hash) in
    let c =
      same_key "approval_hash" e e.approval_hash (dumped e).approval_hash h (has_approval_hash e)
        (has_approval_hash (dumped e)) (is_set-or_default "sha256:unapproved" e.approval_hash) in
    rw (a, b, c) refl

dumped_full : (e : ExecutionLedgerEntry) → is_legacy e ≡ false → dumped e ≡ e
dumped_full e n =
    let a = or_default_set genesis e.issuance_ledger_entry_hash (ground arith) in
    let b = or_default_set genesis e.issuance_checkpoint_hash (ground arith) in
    let c = or_default_set "sha256:unapproved" e.approval_hash (ground arith) in
    λ i. record e {
      issuance_ledger_entry_hash = a i;
      issuance_checkpoint_hash = b i;
      approval_hash = c i;
    }

module _ (digest : List ℕ → String) where
  -- The dump of a legacy entry is no entry of the chain, or a collision is in hand.
  chained-legacy :
      (previous : String) (e : ExecutionLedgerEntry)
      → is_legacy e ≡ true
      → e.entry_hash ≡ hash_obj digest (entry_json e)
      → (chained digest previous (dumped e) ≡ false) ⊎ Collision digest
  unfolding chained execution_ledger_entry_hash
  chained-legacy previous e l own = elim (Bool-cases (chained digest previous (dumped e))) [
    | inr n ↦ inl n
    | inl y ↦
        let same : str_eq e.entry_hash (hash_obj digest (entry_json (dumped e))) ≡ true =
          ground arith in
        elim (hash_obj-inj digest (entry_json (dumped e)) (entry_json e)
          (sym ((eq_iff e.entry_hash (hash_obj digest (entry_json (dumped e)))).0 same) ∙ own)) [
            | inr collision ↦ inr collision
            | inl h ↦ let clash = sym l ∙ legacy_differs e h in inl (cc)
          ]
  ]

  -- A chain with a legacy entry, dumped, is refused, whatever follows it.
  pub load_from-legacy :
      (previous : String) (entries more : List ExecutionLedgerEntry)
      → any is_legacy entries ≡ true
      → Linked digest execution_entry previous entries
      → (load_from digest previous (ledger_text (entries ++ more)) ≡ mismatch) ⊎ Collision digest
  unfolding load_from
  load_from-legacy previous [] more a l = cc
  load_from-legacy previous (e ∷ entries) more a (p, own, l) = elim (Bool-cases (is_legacy e)) [
    | inl y ↦ elim (chained-legacy previous e y own) [
      | inr collision ↦ inr collision
      | inl n ↦ inl (rw n refl)
    ]
    | inr n ↦
        let later : any is_legacy entries ≡ true = ground arith in
        elim (load_from-legacy e.entry_hash entries more later l) [
          | inr collision ↦ inr collision
          | inl h ↦ inl (rw (dumped_full e n, Linked-chained digest previous e p own, h) refl)
        ]
  ]
