-- ===== src/Ledger/Reroll.antt =====
-- src/redline/receipt.py: one verdict for each package, candidate, suite and spec.
use playbook_redline.Base.{
  ℕ, String, ◌≡◌, ◌≢◌, refl, sym, ap, ◌∙◌, ◌⊎◌, inl, inr, ◌↔◌, subst, Bool, true, false, Option,
  some, List, [], ◌∷◌, any, All, length, eq_iff, Bool-cases,
}
use mathlib.Core.Bool.{false≢true}
use playbook_redline.Base.Quantifiers.{any-All, All-any, All-map}
use playbook_redline.Canonical.{Json, str, obj, Fields}
use playbook_redline.Canonical.Dump.{normalize, normalize_fields, insert_field}
use playbook_redline.Canonical.Dict.{get}
use playbook_redline.Canonical.Hash.{genesis, Collision, hash_obj-inj}
use playbook_redline.Ledger.{
  LedgerReceipt, Disk, ok, ledger_key_hash, read_from, find_conflict, atomic_write_receipt,
}
use playbook_redline.Ledger.Issue.{
  Issued, start, issued, refused, Good, has_key, longer-Good, clash, fresh,
}

-- The four hashes that a receipt's key is made of.
abbrev pub Identity : Type 0
Identity = String × String × String × String

abbrev pub identity : LedgerReceipt → Identity
identity r = (r.package_identity_hash, r.candidate_package_hash, r.suite_lock_hash, r.spec_hash)

text : Option Json → String
text (some (str s)) = s
text _ = ""

module _ (digest : List ℕ → String) where
  -- Two receipts with one key have the same four hashes, or a collision is in hand.
  pub ledger_key_hash-inj :
      (r s : LedgerReceipt)
      → ledger_key_hash digest r ≡ ledger_key_hash digest s
      → (identity r ≡ identity s) ⊎ Collision digest
  unfolding ledger_key_hash normalize normalize_fields insert_field text
  ledger_key_hash-inj r s e = elim (hash_obj-inj digest _ _ e) [
    | inr c ↦ inr c
    | inl q ↦ inl (
        ap
          (λ (j : Json). elim j as (λ _. Identity) [
            | obj fs ↦ (
              text (get fs "package_hash"),
              text (get fs "candidate_hash"),
              text (get fs "suite_lock_hash"),
              text (get fs "spec_hash"),
            )
            | _ ↦ ("", "", "", "")
          ])
          q)
  ]

  -- The receipts issued so far do not have the key of this one.
  abbrev pub Fresh : List LedgerReceipt → LedgerReceipt → Type 0
  Fresh receipts r =
      All (λ (s : LedgerReceipt). ledger_key_hash digest s ≢ ledger_key_hash digest r) receipts

  apart :
      (r s : LedgerReceipt)
      → has_key digest (ledger_key_hash digest r) s ≡ false
      → ledger_key_hash digest s ≢ ledger_key_hash digest r
  apart r s e q =
      false≢true (sym e ∙ (eq_iff (ledger_key_hash digest s) (ledger_key_hash digest r)).1 q)

  not_apart :
      (r s : LedgerReceipt)
      → ledger_key_hash digest s ≢ ledger_key_hash digest r
      → has_key digest (ledger_key_hash digest r) s ≡ false
  not_apart r s n = elim (Bool-cases (has_key digest (ledger_key_hash digest r) s)) [
    | inl h ↦ absurd (n ((eq_iff (ledger_key_hash digest s) (ledger_key_hash digest r)).0 h))
    | inr h ↦ h
  ]

  no_ledger : Good digest [] []
  unfolding read_from find_conflict
  no_ledger = record { entries = []; readable = refl; count = refl; keys = λ key. refl }

  Issued-Good :
      {receipts : List LedgerReceipt} {disk : Disk}
      → Issued digest receipts disk
      → Good digest receipts disk.ledger
  Issued-Good (start disk e) = subst (Good digest []) (sym e) no_ledger
  Issued-Good (issued {receipts} {disk} i r at t) =
      let g = Issued-Good i in
      elim (Bool-cases (any (has_key digest (ledger_key_hash digest r)) receipts)) [
        | inl h ↦ absurd (
            false≢true (
              sym (
                ap (λ (x : Disk × Bool). x.1)
                  (clash digest receipts disk.ledger g r at disk refl h))
              ∙ t))
        | inr h ↦
            subst (Good digest (r ∷ receipts))
              (sym (
                ap (λ (x : Disk × Bool). x.0.ledger)
                  (fresh digest receipts disk.ledger g r at disk refl h)))
              (longer-Good digest receipts disk.ledger g r at)
      ]
  Issued-Good (refused {receipts} {disk} i r at t) =
      let g = Issued-Good i in
      elim (Bool-cases (any (has_key digest (ledger_key_hash digest r)) receipts)) [
        | inl h ↦
            subst (Good digest receipts)
              (sym (
                ap (λ (x : Disk × Bool). x.0.ledger)
                  (clash digest receipts disk.ledger g r at disk refl h)))
              g
        | inr h ↦ absurd (
            false≢true (
              sym t
              ∙ ap (λ (x : Disk × Bool). x.1)
                  (fresh digest receipts disk.ledger g r at disk refl h)))
      ]

  -- A ledger grown from an empty one by issues can always be read, and it has one entry for each
  -- issue that returned.
  pub Issued-readable :
      {receipts : List LedgerReceipt} {disk : Disk}
      → Issued digest receipts disk
      → (entries : List Fields) × (read_from digest genesis disk.ledger ≡ ok entries)
        × (length entries ≡ length receipts)
  Issued-readable i = let g = Issued-Good i in (g.entries, g.readable, g.count)

  -- On a ledger grown from an empty one by issues, an issue returns exactly when no receipt issued
  -- before has the key of this one.
  pub issue_iff_Fresh :
      {receipts : List LedgerReceipt} {disk : Disk}
      → Issued digest receipts disk
      → (r : LedgerReceipt) (at : Option String)
      → ((atomic_write_receipt digest disk r at).1 ≡ true) ↔ Fresh receipts r
  issue_iff_Fresh {receipts} {disk} i r at =
      let g = Issued-Good i in
      let key = ledger_key_hash digest r in
      (
        λ t. elim (Bool-cases (any (has_key digest key) receipts)) [
          | inl h ↦ absurd (
              false≢true (
                sym (
                  ap (λ (x : Disk × Bool). x.1)
                    (clash digest receipts disk.ledger g r at disk refl h))
                ∙ t))
          | inr h ↦ All-map (apart r) receipts (any-All (has_key digest key) receipts h)
        ],
        λ f.
            ap (λ (x : Disk × Bool). x.1)
              (fresh digest receipts disk.ledger g r at disk refl
                (All-any (has_key digest key) receipts (All-map (not_apart r) receipts f))),
      )

  -- A refused issue leaves the receipt file and the ledger as they were.
  pub refused_unchanged :
      {receipts : List LedgerReceipt} {disk : Disk}
      → Issued digest receipts disk
      → (r : LedgerReceipt) (at : Option String) → (atomic_write_receipt digest disk r at).1 ≡ false
      → (atomic_write_receipt digest disk r at).0 ≡ disk
  refused_unchanged {receipts} {disk} i r at t =
      let g = Issued-Good i in
      elim (Bool-cases (any (has_key digest (ledger_key_hash digest r)) receipts)) [
        | inl h ↦
            ap (λ (x : Disk × Bool). x.0) (clash digest receipts disk.ledger g r at disk refl h)
        | inr h ↦ absurd (
            false≢true (
              sym t
              ∙ ap (λ (x : Disk × Bool). x.1)
                  (fresh digest receipts disk.ledger g r at disk refl h)))
      ]
