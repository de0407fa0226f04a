-- ===== src/Execution/Evidence/Book.antt =====
-- src/redline/sponsor/bitget_execution.py: the ledger and the evidence files as a book of orders, which
-- says what `write_execution_evidence_artifacts` promises without hashes, links or lines.
use playbook_redline.Base.{
  ℕ, String, Bool, true, false, not, ◌&&◌, Option, none, some, List, [], ◌∷◌, ◌++◌, map, any,
  str_eq, if◌then◌else◌,
}
use playbook_redline.Execution.{Outcome, ok}
use playbook_redline.Execution.Ledger.{ExecutionLedgerEntry, File, holding, load_execution_ledger}
use playbook_redline.Execution.Link.{IssuanceLink, resolve_issuance_link}
use playbook_redline.Execution.Evidence.{ExecutionEvidence, ExecutionDisk, Recording}
use playbook_redline.Execution.Evidence.Cases.{is_ok}

-- A receipt and a client order id.
abbrev pub Order : Type 0
Order = String × String

abbrev pub same_order : Order → Order → Bool
same_order (receipt_hash, client_oid) (r, c) = str_eq r receipt_hash && str_eq c client_oid

-- The orders in the order in which they were placed, and the order of each file.
pub record OrderBook : Type 0 where
  pub orders : List Order
  pub evidence : String → Option Order

abbrev pub place_at : String → Order → (String → Option Order) → String → Option Order
place_at path order files p = if str_eq p path then some order else files p

-- An order is put down once, where a file is free and the order can be linked to an issuance; a file
-- of the order itself answers again.
abbrev pub record_order : String → Order → Bool → OrderBook → OrderBook × Bool
record_order path order linked book = elim (book.evidence path) [
  | some old ↦ (book, same_order order old)
  | none ↦
      if not (any (same_order order) book.orders) && linked
      then (
        record { orders = book.orders ++ order ∷ []; evidence = place_at path order book.evidence },
        true,
      )
      else (book, false)
]

abbrev pub order_of : Recording → Order
order_of r = (r.receipt_hash, r.order.client_oid)

abbrev pub entry_order : ExecutionLedgerEntry → Order
entry_order e = (e.receipt_hash, e.client_oid)

abbrev pub evidence_order : File ExecutionEvidence → Option Order
evidence_order (holding ev) = some (ev.receipt_hash, ev.client_oid)
evidence_order _ = none

abbrev pub loaded_orders : Outcome (List ExecutionLedgerEntry) → List Order
loaded_orders (ok entries) = map entry_order entries
loaded_orders _ = []

module _ (digest : List ℕ → String) where
  abbrev pub view : ExecutionDisk → OrderBook
  view disk = record {
    orders = loaded_orders (load_execution_ledger digest disk.ledger);
    evidence = λ (path : String). evidence_order (disk.evidence path);
  }

  abbrev pub link_result : Recording → Outcome IssuanceLink
  link_result r =
      resolve_issuance_link digest r.issuance r.receipt_hash r.issuance_ledger_entry_hash
        r.issuance_checkpoint_hash

  -- What a caller sees of the result.
  abbrev pub shown : ExecutionDisk × Outcome ExecutionEvidence → OrderBook × Bool
  shown after = (view after.0, is_ok after.1)
