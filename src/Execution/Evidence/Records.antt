-- ===== src/Execution/Evidence/Records.antt =====
-- src/redline/sponsor/bitget_execution.py: disks on which the ledger can be loaded, no order stands in
-- it twice, and each evidence file can be loaded and is that of an entry; what a new entry makes of
-- them.
use playbook_redline.Base.{
  ℕ, String, ◌≡◌, refl, sym, ap, ◌∙◌, inl, inr, subst, Bool, true, false, List, [], ◌∷◌, ◌++◌, any,
  All, str_eq, str_eq_refl, eq_iff, arith, Bool-cases, if-true, if-false,
}
use playbook_redline.Base.Quantifiers.{Exists}
use playbook_redline.Canonical.Hash.{genesis, hash_obj}
use playbook_redline.Execution.{Outcome, ok, blocked, assertion_error, crash}
use playbook_redline.Execution.Ledger.{
  ExecutionLedgerEntry, File, missing, unreadable, undecodable, holding, entry_json, dumped,
  last_entry_hash, is_order, execution_ledger_entry_hash, load_execution_ledger,
}
use playbook_redline.Execution.Ledger.Chain.{
  load_execution_ledger-Linked, load_from-ledger_text, Linked-snoc,
}
use playbook_redline.Execution.Link.{IssuanceLink, resolve_issuance_link}
use playbook_redline.Execution.Evidence.{
  ExecutionEvidence, ExecutionDisk, Recording, unsealed_evidence, execution_evidence_json,
  execution_evidence_hash, load_execution_evidence, sealed_entry, new_evidence, linked_entry,
  next_entry, store_entry, store_evidence,
}

-- Evidence of an entry.
abbrev pub Records : ExecutionEvidence → ExecutionLedgerEntry → Type 0
Records ev e =
    (ev.receipt_hash ≡ e.receipt_hash)
    × (ev.client_oid ≡ e.client_oid)
    × (ev.bitget_order_id ≡ e.bitget_order_id)
    × (ev.response_hash ≡ e.response_hash)
    × (ev.approval_hash ≡ e.approval_hash)
    × (ev.issuance_ledger_entry_hash ≡ e.issuance_ledger_entry_hash)
    × (ev.issuance_checkpoint_hash ≡ e.issuance_checkpoint_hash)
    × (ev.execution_ledger_entry_hash ≡ e.entry_hash)

-- Entries that set each of the link fields.
abbrev pub Full : List ExecutionLedgerEntry → Type 0
Full = All (λ (e : ExecutionLedgerEntry). dumped e ≡ e)

-- No two entries are of one order.
abbrev pub Distinct : List ExecutionLedgerEntry → Type 0
Distinct [] = Unit
Distinct (e ∷ entries) =
    (any (is_order e.receipt_hash e.client_oid) entries ≡ false) × Distinct entries

All-snoc :
    (P : ExecutionLedgerEntry → Type 0) (entries : List ExecutionLedgerEntry)
    (e : ExecutionLedgerEntry)
    → All P entries
    → P e
    → All P (entries ++ e ∷ [])
All-snoc P [] e h p = (p, tt)
All-snoc P (x ∷ entries) e (q, h) p = (q, All-snoc P entries e h p)

Exists-snoc :
    (P : ExecutionLedgerEntry → Type 0) (entries : List ExecutionLedgerEntry)
    (e : ExecutionLedgerEntry)
    → Exists P entries
    → Exists P (entries ++ e ∷ [])
Exists-snoc P [] e h = elim h [ ]
Exists-snoc P (x ∷ entries) e (inl h) = inl h
Exists-snoc P (x ∷ entries) e (inr h) = inr (Exists-snoc P entries e h)

pub Exists-last :
    (P : ExecutionLedgerEntry → Type 0) (entries : List ExecutionLedgerEntry)
    (e : ExecutionLedgerEntry)
    → P e
    → Exists P (entries ++ e ∷ [])
Exists-last P [] e p = inl p
Exists-last P (x ∷ entries) e p = inr (Exists-last P entries e p)

any-snoc :
    (p : ExecutionLedgerEntry → Bool) (entries : List ExecutionLedgerEntry)
    (e : ExecutionLedgerEntry)
    → any p entries ≡ false
    → p e ≡ false
    → any p (entries ++ e ∷ []) ≡ false
any-snoc p [] e h q = rw q refl
any-snoc p (x ∷ entries) e h q =
    let rest = any-snoc p entries e (ground arith) q in ground (arith, rest)

is_order_swap :
    (x e : ExecutionLedgerEntry)
    → is_order e.receipt_hash e.client_oid x ≡ false
    → is_order x.receipt_hash x.client_oid e ≡ false
is_order_swap x e h = elim (Bool-cases (is_order x.receipt_hash x.client_oid e)) [
  | inr n ↦ n
  | inl y ↦
      let a : str_eq e.receipt_hash x.receipt_hash ≡ true = ground arith in
      let b : str_eq e.client_oid x.client_oid ≡ true = ground arith in
      let c =
        (eq_iff x.receipt_hash e.receipt_hash).1
          (sym ((eq_iff e.receipt_hash x.receipt_hash).0 a)) in
      let d = (eq_iff x.client_oid e.client_oid).1 (sym ((eq_iff e.client_oid x.client_oid).0 b)) in
      ground (arith, c, d)
]

Distinct-snoc :
    (entries : List ExecutionLedgerEntry) (e : ExecutionLedgerEntry)
    → Distinct entries
    → any (is_order e.receipt_hash e.client_oid) entries ≡ false
    → Distinct (entries ++ e ∷ [])
Distinct-snoc [] e d h = (refl, tt)
Distinct-snoc (x ∷ entries) e (n, d) h =
    let first : is_order e.receipt_hash e.client_oid x ≡ false = ground arith in
    let rest : any (is_order e.receipt_hash e.client_oid) entries ≡ false = ground arith in
    (
      any-snoc (is_order x.receipt_hash x.client_oid) entries e n (is_order_swap x e first),
      Distinct-snoc entries e d rest,
    )

module _ (digest : List ℕ → String) where
  abbrev pub FileGood : List ExecutionLedgerEntry → File ExecutionEvidence → Type 0
  FileGood entries missing = Unit
  FileGood entries (holding ev) =
      (load_execution_evidence digest (holding ev) ≡ ok ev) × Exists (Records ev) entries
  FileGood entries unreadable = ⊥
  FileGood entries undecodable = ⊥

  pub record Good (entries : List ExecutionLedgerEntry) (disk : ExecutionDisk) : Type 0 where
    pub loaded : load_execution_ledger digest disk.ledger ≡ ok entries
    pub full : Full entries
    pub distinct : Distinct entries
    pub files : (path : String) → FileGood entries (disk.evidence path)

  pub linked_entry-ok :
      (r : Recording) (previous : String) (o : Outcome IssuanceLink) (e : ExecutionLedgerEntry)
      → linked_entry digest r previous o ≡ ok e
      → (link : IssuanceLink) × (o ≡ ok link) × (e ≡ sealed_entry digest r previous link)
  linked_entry-ok r previous (ok link) e h = (link, refl, cc)
  linked_entry-ok r previous (blocked reason message) e h = cc
  linked_entry-ok r previous assertion_error e h = cc
  linked_entry-ok r previous crash e h = cc

  -- An entry that a call makes: of an order that has none, at the end of the chain.
  pub record Next (r : Recording) (entries : List ExecutionLedgerEntry) (e : ExecutionLedgerEntry)
      : Type 0 where
    pub fresh : any (is_order r.receipt_hash r.order.client_oid) entries ≡ false
    pub link : IssuanceLink
    pub resolved :
        resolve_issuance_link digest r.issuance r.receipt_hash r.issuance_ledger_entry_hash
          r.issuance_checkpoint_hash
        ≡ ok link
    pub made : e ≡ sealed_entry digest r (last_entry_hash genesis entries) link

  pub next_entry-Next :
      (r : Recording) (entries : List ExecutionLedgerEntry) (e : ExecutionLedgerEntry)
      → next_entry digest r entries ≡ ok e
      → Next r entries e
  unfolding next_entry
  next_entry-Next r entries e h =
      let present = any (is_order r.receipt_hash r.order.client_oid) entries in
      elim (Bool-cases present) [
        | inl p ↦ let clash = sym (if-true present _ _ p) ∙ h in cc
        | inr n ↦
            let (link, q, made) =
              linked_entry-ok r (last_entry_hash genesis entries) _ e
                (sym (if-false present _ _ n) ∙ h) in
            record { fresh = n; link = link; resolved = q; made = made }
      ]

  -- The file of the evidence that is written is that of the entry.
  pub new_evidence-Records :
      (r : Recording) (entries : List ExecutionLedgerEntry) (e : ExecutionLedgerEntry)
      → Next r entries e
      → Records (new_evidence digest r e) e
  unfolding new_evidence sealed_entry
  new_evidence-Records r entries e n =
      subst (λ (x : ExecutionLedgerEntry). Records (new_evidence digest r x) x) (sym n.made)
        ((refl, refl, refl, refl, refl, refl, refl, refl))

  pub new_evidence-loads :
      (r : Recording) (e : ExecutionLedgerEntry)
      → load_execution_evidence digest (holding (new_evidence digest r e))
        ≡ ok (new_evidence digest r e)
  unfolding new_evidence load_execution_evidence execution_evidence_hash
  new_evidence-loads r e =
      rw (str_eq_refl (hash_obj digest (execution_evidence_json (unsealed_evidence r e)))) refl

  FileGood-snoc :
      (entries : List ExecutionLedgerEntry) (e : ExecutionLedgerEntry)
      (file : File ExecutionEvidence)
      → FileGood entries file
      → FileGood (entries ++ e ∷ []) file
  FileGood-snoc entries e missing g = tt
  FileGood-snoc entries e (holding ev) (l, x) = (l, Exists-snoc (Records ev) entries e x)
  FileGood-snoc entries e unreadable g = g
  FileGood-snoc entries e undecodable g = g

  -- The entry extends the ledger.
  pub store_entry-Good :
      (r : Recording) (entries : List ExecutionLedgerEntry) (e : ExecutionLedgerEntry)
      (disk : ExecutionDisk)
      → Good entries disk
      → Next r entries e
      → Good (entries ++ e ∷ []) (store_entry entries e disk).0
  unfolding sealed_entry load_execution_ledger execution_ledger_entry_hash
  store_entry-Good r entries e disk good n =
      let full =
        All-snoc (λ (x : ExecutionLedgerEntry). dumped x ≡ x) entries e good.full
          (subst (λ (x : ExecutionLedgerEntry). dumped x ≡ x) (sym n.made) refl) in
      let chain =
        Linked-snoc digest genesis entries e
          (load_execution_ledger-Linked digest disk.ledger entries good.loaded)
          (ap (λ (x : ExecutionLedgerEntry). x.previous_entry_hash) n.made)
          (subst (λ (x : ExecutionLedgerEntry). x.entry_hash ≡ hash_obj digest (entry_json x))
            (sym n.made) refl) in
      record {
        loaded = load_from-ledger_text digest genesis (entries ++ e ∷ []) full chain;
        full = full;
        distinct = Distinct-snoc entries e good.distinct (
            subst
              (λ (x : ExecutionLedgerEntry).
                any (is_order x.receipt_hash x.client_oid) entries ≡ false)
              (sym n.made) n.fresh);
        files = λ (path : String). FileGood-snoc entries e (disk.evidence path) (good.files path);
      }

  -- The evidence of an entry of the ledger is written.
  pub store_evidence-Good :
      (r : Recording) (entries : List ExecutionLedgerEntry) (e : ExecutionLedgerEntry)
      (disk : ExecutionDisk)
      → Good entries disk
      → Exists (Records (new_evidence digest r e)) entries
      → Good entries (store_evidence digest r e disk).0
  unfolding store_evidence
  store_evidence-Good r entries e disk good held = record {
    loaded = good.loaded;
    full = good.full;
    distinct = good.distinct;
    files = λ (path : String). elim (Bool-cases (str_eq path r.evidence_path)) [
      | inl y ↦
          subst (FileGood entries) (sym (if-true (str_eq path r.evidence_path) _ _ y))
            ((new_evidence-loads r e, held))
      | inr n ↦
          subst (FileGood entries) (sym (if-false (str_eq path r.evidence_path) _ _ n))
            (good.files path)
    ];
  }
