-- ===== src/Execution/Evidence/Refinement.antt =====
-- src/redline/sponsor/bitget_execution.py: `write_execution_evidence_artifacts` implements the book of
-- orders.
use mathlib.Core.Path.{fun_ext}
use playbook_redline.Base.{
  ℕ, String, ◌≡◌, refl, sym, ap, ◌∙◌, inl, inr, Bool, true, false, not, ◌&&◌, ◌||◌, none, some,
  List, [], ◌∷◌, ◌++◌, map, any, str_eq, Bool-cases, if-true, if-false, if◌then◌else◌,
}
use playbook_redline.Canonical.Hash.{genesis}
use playbook_redline.Execution.{Outcome, ok, blocked, assertion_error, crash}
use playbook_redline.Execution.Ledger.{
  ExecutionLedgerEntry, File, missing, holding, is_order, last_entry_hash,
}
use playbook_redline.Execution.Link.{IssuanceLink}
use playbook_redline.Execution.Evidence.{
  ExecutionEvidence, ExecutionDisk, Recording, put, sealed_entry, new_evidence, linked_entry,
  next_entry, store_evidence, write_execution_evidence_artifacts,
}
use playbook_redline.Execution.Evidence.Book.{
  Order, same_order, OrderBook, place_at, record_order, order_of, entry_order, evidence_order,
  loaded_orders, view, link_result, shown,
}
use playbook_redline.Execution.Evidence.Records.{Good, Next, store_entry-Good}
use playbook_redline.Execution.Evidence.Cases.{
  is_ok, appended, Case, known, other, refused, grown, write_execution_evidence_artifacts-Case,
}
use playbook_redline.Execution.Evidence.Invariant.{Recorded, Recorded-Good}

any-entry_order :
    (r : Recording) (entries : List ExecutionLedgerEntry)
    → any (same_order (order_of r)) (map entry_order entries)
      ≡ any (is_order r.receipt_hash r.order.client_oid) entries
any-entry_order r [] = refl
any-entry_order r (e ∷ entries) =
    ap (λ (b : Bool). is_order r.receipt_hash r.order.client_oid e || b) (any-entry_order r entries)

map-snoc :
    (entries : List ExecutionLedgerEntry) (e : ExecutionLedgerEntry)
    → map entry_order (entries ++ e ∷ []) ≡ map entry_order entries ++ entry_order e ∷ []
map-snoc [] e = refl
map-snoc (x ∷ entries) e = ap (λ (l : List Order). entry_order x ∷ l) (map-snoc entries e)

-- Where the order is put down, and where it is not.
record_known :
    (path : String) (order old : Order) (linked : Bool) (book : OrderBook)
    → book.evidence path ≡ some old
    → record_order path order linked book ≡ (book, same_order order old)
record_known path order old linked book q = rw (q, record_order) refl

record_free :
    (path : String) (order : Order) (linked : Bool) (book : OrderBook)
    → book.evidence path ≡ none
    → record_order path order linked book ≡ (
        if not (any (same_order order) book.orders) && linked
        then (
          record {
            orders = book.orders ++ order ∷ [];
            evidence = place_at path order book.evidence;
          },
          true,
        )
        else (book, false))
record_free path order linked book q = rw (q, record_order) refl

module _ (digest : List ℕ → String) where
  linked_entry-is_ok :
      (r : Recording) (previous : String) (o : Outcome IssuanceLink)
      → is_ok (linked_entry digest r previous o) ≡ is_ok o
  linked_entry-is_ok r previous (ok link) = refl
  linked_entry-is_ok r previous (blocked reason message) = refl
  linked_entry-is_ok r previous assertion_error = refl
  linked_entry-is_ok r previous crash = refl

  -- An entry can be made exactly when the book puts the order down.
  next_entry-is_ok :
      (r : Recording) (entries : List ExecutionLedgerEntry)
      → is_ok (next_entry digest r entries) ≡ (
          not (any (is_order r.receipt_hash r.order.client_oid) entries)
          && is_ok (link_result digest r))
  unfolding next_entry
  next_entry-is_ok r entries =
      elim (Bool-cases (any (is_order r.receipt_hash r.order.client_oid) entries)) [
        | inl y ↦ rw y refl
        | inr n ↦
            rw n (linked_entry-is_ok r (last_entry_hash genesis entries) (link_result digest r))
      ]

  placed-evidence :
      (r : Recording) (e : ExecutionLedgerEntry) (files : String → File ExecutionEvidence)
      (path : String)
      → evidence_order (put r.evidence_path (holding (new_evidence digest r e)) files path)
        ≡ place_at r.evidence_path (order_of r) (λ (p : String). evidence_order (files p)) path
  unfolding new_evidence
  placed-evidence r e files path = elim (Bool-cases (str_eq path r.evidence_path)) [
    | inl y ↦ rw y refl
    | inr n ↦ rw n refl
  ]

  module _ (entries : List ExecutionLedgerEntry) (disk : ExecutionDisk)
      (good : Good digest entries disk) (r : Recording) where
    view_orders : (view digest disk).orders ≡ map entry_order entries
    view_orders = ap loaded_orders good.loaded

    view_free :
        disk.evidence r.evidence_path ≡ missing → (view digest disk).evidence r.evidence_path ≡ none
    view_free q = ap evidence_order q

    allowed :
        (not (any (same_order (order_of r)) (view digest disk).orders)
          && is_ok (link_result digest r))
        ≡ is_ok (next_entry digest r entries)
    allowed =
        ap
          (λ (l : List Order).
            not (any (same_order (order_of r)) l) && is_ok (link_result digest r))
          view_orders
        ∙ ap (λ (b : Bool). not b && is_ok (link_result digest r)) (any-entry_order r entries)
        ∙ sym (next_entry-is_ok r entries)

    book_grown :
        (e : ExecutionLedgerEntry)
        → Next digest r entries e
        → view digest (store_evidence digest r e (appended digest entries disk good r e)).0
          ≡ record {
            orders = (view digest disk).orders ++ order_of r ∷ [];
            evidence = place_at r.evidence_path (order_of r) (view digest disk).evidence;
          }
    unfolding store_evidence sealed_entry
    book_grown e n =
        let longer = store_entry-Good digest r entries e disk good n in
        let same : entry_order e ≡ order_of r = ap entry_order n.made in
        let orders : (view digest
              (store_evidence digest r e (appended digest entries disk good r e)).0).orders
            ≡ (view digest disk).orders ++ order_of r ∷ [] =
          ap loaded_orders longer.loaded
          ∙ map-snoc entries e
          ∙ ap (λ (o : Order). map entry_order entries ++ o ∷ []) same
          ∙ ap (λ (l : List Order). l ++ order_of r ∷ []) (sym view_orders) in
        λ i. record { orders = orders i; evidence = fun_ext (placed-evidence r e disk.evidence) i }

    Case-shown :
        (after : ExecutionDisk × Outcome ExecutionEvidence)
        → Case digest entries disk good r after
        → shown digest after
          ≡ record_order r.evidence_path
              (order_of r)
              (is_ok (link_result digest r))
              (view digest disk)
    unfolding store_evidence
    Case-shown after (known ev q y e) =
        ap (shown digest) e
        ∙ ap (λ (b : Bool). (view digest disk, b)) (sym y)
        ∙ sym (
            record_known r.evidence_path (order_of r) (ev.receipt_hash, ev.client_oid)
              (is_ok (link_result digest r)) (view digest disk) (ap evidence_order q))
    Case-shown after (other ev q n e f) =
        (λ i. (view digest (e i), f i))
        ∙ ap (λ (b : Bool). (view digest disk, b)) (sym n)
        ∙ sym (
            record_known r.evidence_path (order_of r) (ev.receipt_hash, ev.client_oid)
              (is_ok (link_result digest r)) (view digest disk) (ap evidence_order q))
    Case-shown after (refused q n e f) =
        (λ i. (view digest (e i), f i))
        ∙ sym (
            record_free r.evidence_path (order_of r) (is_ok (link_result digest r))
              (view digest disk) (view_free q)
            ∙ if-false
                (not (any (same_order (order_of r)) (view digest disk).orders)
                  && is_ok (link_result digest r))
                _ (view digest disk, false) (allowed ∙ n))
    Case-shown after (grown e q n h) =
        let made : is_ok (next_entry digest r entries) ≡ true =
          next_entry-is_ok r entries ∙ (rw n.fresh (ap is_ok n.resolved)) in
        ap (shown digest) h
        ∙ ap (λ (b : OrderBook). (b, true)) (book_grown e n)
        ∙ sym (
            record_free r.evidence_path (order_of r) (is_ok (link_result digest r))
              (view digest disk) (view_free q)
            ∙ if-true
                (not (any (same_order (order_of r)) (view digest disk).orders)
                  && is_ok (link_result digest r))
                _ (view digest disk, false) (allowed ∙ made))

  -- `write_execution_evidence_artifacts` implements the book of orders: on each disk that calls have
  -- made, stopped ones included, the orders of the ledger and of the evidence files, and whether the
  -- call returns, are after the call what `record_order` makes of them, given whether the issuance
  -- link can be resolved.
  pub shown-record_order :
      {disk : ExecutionDisk}
      → Recorded digest disk
      → (r : Recording)
      → shown digest (write_execution_evidence_artifacts digest r disk)
        ≡ record_order r.evidence_path
            (order_of r)
            (is_ok (link_result digest r))
            (view digest disk)
  shown-record_order {disk} h r =
      let (entries, good) = Recorded-Good digest h in
      Case-shown entries disk good r (write_execution_evidence_artifacts digest r disk)
        (write_execution_evidence_artifacts-Case digest entries disk good r)
