-- ===== src/Execution/Allowed.antt =====
-- src/redline/sponsor/bitget_execution.py: which requests `place_order` may send.
use playbook_redline.Base.{
  String, ◌≡◌, refl, ◌⊎◌, inl, inr, true, false, ◌&&◌, Option, List, [], ◌∷◌, ◌++◌, arith,
  Bool-cases,
}
use playbook_redline.Base.Quantifiers.{Exists}
use playbook_redline.Base.Strip.{is_empty}
use playbook_redline.Execution.{ExecutionIntent, Adapter, Request, ok, blocked}
use playbook_redline.Execution.Outside.{
  Outside, is_demo, is_demo_symbol, assert_mode, with_paptrading, read_headers, read_request,
  order_detail_path,
}
use playbook_redline.Execution.Status.{query_of}
use playbook_redline.Execution.Order.{order_headers, order_request}
use playbook_redline.Execution.Named.{Names, order_request-Names, read_request-Names}

-- A demo adapter with a symbol that it may trade, or one that may place mainnet orders, for an intent
-- that confirms one.
abbrev pub Allowed : Adapter → ExecutionIntent → Type 0
Allowed adapter intent =
    ((is_demo adapter ≡ true) × (is_demo_symbol intent.symbol ≡ true))
    ⊎ ((is_demo adapter ≡ false)
        × (adapter.allow_mainnet_order ≡ true)
        × (intent.confirm_mainnet_order ≡ true))

-- A request that may be sent: it names the symbol of the intent, and that is a demo symbol and the
-- request has the header of paper trading, or the intent confirms a mainnet order that the adapter may
-- place.
abbrev pub Safe : Adapter → ExecutionIntent → Request → Type 0
Safe adapter intent request =
    Names adapter.base_url intent.symbol request
    × (((is_demo adapter ≡ true)
          × (is_demo_symbol intent.symbol ≡ true)
          × Exists (λ (h : String × String). h ≡ ("paptrading", "1")) request.headers)
        ⊎ ((is_demo adapter ≡ false)
            × (adapter.allow_mainnet_order ≡ true)
            × (intent.confirm_mainnet_order ≡ true)))

pub assert_mode_cases :
    (adapter : Adapter) (intent : ExecutionIntent)
    → ((assert_mode adapter intent ≡ ok tt) × Allowed adapter intent)
      ⊎ ((reason : String) × (message : String) × (assert_mode adapter intent
            ≡ blocked reason message))
unfolding assert_mode
assert_mode_cases adapter intent = elim (Bool-cases (is_demo adapter)) [
  | inl d ↦ elim (Bool-cases (is_demo_symbol intent.symbol)) [
    | inl s ↦ inl ((rw (d, s) refl, inl ((d, s))))
    | inr s ↦
        inr (
          (
            "BITGET_DEMO_SYMBOL_REQUIRED",
            "demo execution only allows demo symbols",
            rw (d, s) refl,
          ))
  ]
  | inr d ↦ elim (Bool-cases (adapter.allow_mainnet_order && intent.confirm_mainnet_order)) [
    | inl c ↦ inl ((rw (d, c) refl, inr ((d, ground arith, ground arith))))
    | inr c ↦
        inr (("BITGET_MAINNET_DISABLED", "mainnet order placement is disabled", rw (d, c) refl))
  ]
]

Exists-append_right :
    (h : String × String) (headers : List (String × String))
    → Exists (λ (x : String × String). x ≡ h) (headers ++ h ∷ [])
Exists-append_right h [] = inl refl
Exists-append_right h (x ∷ headers) = inr (Exists-append_right h headers)

module _ {W : Type 0} (outside : Outside W) (adapter : Adapter) (intent : ExecutionIntent)
    (receipt_hash : String) where
  with_paptrading_lem :
      (headers : List (String × String))
      → is_demo adapter ≡ true
      → Exists
          (λ (h : String × String). h ≡ ("paptrading", "1"))
          (with_paptrading outside adapter headers)
  with_paptrading_lem headers d = rw d (Exists-append_right ("paptrading", "1") headers)

  pub order_request-Safe :
      (client_oid : String) (w : W)
      → Allowed adapter intent
      → Safe adapter intent (order_request outside adapter intent receipt_hash client_oid w)
  order_request-Safe client_oid w (inl (d, s)) = (
    order_request-Names outside adapter intent receipt_hash client_oid w,
    inl (
        (
          d,
          s,
          with_paptrading_lem (order_headers outside adapter intent receipt_hash client_oid w) d,
        )),
  )
  order_request-Safe client_oid w (inr m) =
      (order_request-Names outside adapter intent receipt_hash client_oid w, inr m)

  abbrev pub status_request : String → Option String → W → Request
  status_request client_oid order_id w =
      read_request outside adapter order_detail_path
        (query_of outside adapter intent receipt_hash client_oid order_id) true w

  pub status_request-Safe :
      (client_oid : String) (order_id : Option String) (w : W)
      → is_empty intent.symbol ≡ false
      → Allowed adapter intent
      → Safe adapter intent (status_request client_oid order_id w)
  status_request-Safe client_oid order_id w e (inl (d, s)) = (
    read_request-Names outside adapter intent receipt_hash client_oid order_id true w e,
    inl (
        (
          d,
          s,
          with_paptrading_lem
              (read_headers outside adapter order_detail_path
                (query_of outside adapter intent receipt_hash client_oid order_id) true w)
              d,
        )),
  )
  status_request-Safe client_oid order_id w e (inr m) =
      (read_request-Names outside adapter intent receipt_hash client_oid order_id true w e, inr m)
