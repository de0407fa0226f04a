-- ===== src/Execution/Safety.antt =====
-- src/redline/sponsor/bitget_execution.py: which requests `place_order` makes.
use playbook_redline.Base.{
  ℕ, String, ◌≡◌, inl, inr, Bool, true, false, not, ◌||◌, Option, none, str_eq, leb, Bool-cases,
}
use playbook_redline.Base.Strip.{is_empty}
use playbook_redline.Canonical.{Json, obj, Fields}
use playbook_redline.Canonical.Dict.{get}
use playbook_redline.Execution.{
  ExecutionIntent, Adapter, Request, Body, not_json, json, Outcome, ok, blocked, assertion_error,
  crash, Action, resume, lift,
}
use playbook_redline.Execution.Response.{is_duplicate_client_oid_response, text_at}
use playbook_redline.Execution.Query.{Query}
use playbook_redline.Execution.Send.{send}
use playbook_redline.Execution.Attempts.{Attempted, no_call, last_call, next_call, send-Bounded}
use playbook_redline.Execution.Outside.{
  Outside, read_request, read_response, request_json, order_detail_path,
}
use playbook_redline.Execution.Status.{
  BitgetOrderStatusEvidence, query_of, catch_blocked, order_status_evidence, query_order_status,
}
use playbook_redline.Execution.Order.{
  recovered_placement, order_request, oid_of, recover_order, recover_or_reject, read_placement,
  after_order, place_order,
}
use playbook_redline.Execution.Allowed.{
  Safe, assert_mode_cases, order_request-Safe, status_request-Safe,
}

module _ {W : Type 0} (outside : Outside W) (adapter : Adapter) (intent : ExecutionIntent)
    (receipt_hash : String) where
  open outside use {transport}

  module _ (P : W → Type 0) (named : is_empty intent.symbol ≡ false)
      (kept : (r : Request) (w : W) → Safe adapter intent r → P w → P (transport r w).0) where
    Attempted-keeps :
        {retry : Bool} {request : Request} {n : ℕ} {w u : W}
        → Attempted transport retry request n w u
        → Safe adapter intent request
        → P w
        → P u
    Attempted-keeps no_call s p = p
    Attempted-keeps {request = request} {w = w} last_call s p = kept request w s p
    Attempted-keeps {request = request} {w = w} (next_call r rest) s p =
        Attempted-keeps rest s (kept request w s p)

    send-keeps :
        (retry : Bool) (request : Request) (cancelled : Option (W → Bool)) (w : W)
        → Safe adapter intent request
        → P w
        → P (send transport adapter.max_retries retry request cancelled w).0
    send-keeps retry request cancelled w s p =
        let (n, le, calls, no_assertion) =
          send-Bounded transport adapter.max_retries retry request cancelled w in
        Attempted-keeps calls s p

    resume-keeps :
        {A B : Type 0} (f : A → Action W B) (r : W × Outcome A)
        → P r.0
        → ((a : A) (u : W) → P u → P (f a u).0)
        → P (resume f r).0
    resume-keeps f (w, ok a) p next = next a w p
    resume-keeps f (w, blocked reason message) p next = p
    resume-keeps f (w, assertion_error) p next = p
    resume-keeps f (w, crash) p next = p

    request_json-keeps :
        (path : String) (query : Query) (auth : Bool) (w : W)
        → Safe adapter intent (read_request outside adapter path query auth w)
        → P w
        → P (request_json outside adapter path query auth w).0
    unfolding request_json
    request_json-keeps path query auth w safe p =
        let request = read_request outside adapter path query auth w in
        resume-keeps (λ (a : ℕ × Body). lift (read_response outside adapter a.0 a.1))
          (send transport adapter.max_retries true request none w)
          (send-keeps true request none w safe p) (λ a u q. q)

    query_order_status-keeps :
        (run_id client_oid : String) (order_id : Option String) (w : W)
        → P w
        → P (query_order_status outside adapter intent receipt_hash run_id client_oid order_id w).0
    unfolding query_order_status
    query_order_status-keeps run_id client_oid order_id w p =
        elim (assert_mode_cases adapter intent) [
          | inl (e, allowed) ↦
              let read =
                request_json-keeps order_detail_path
                  (query_of outside adapter intent receipt_hash client_oid order_id) true w
                  (status_request-Safe outside adapter intent receipt_hash client_oid order_id w
                    named allowed)
                  p in
              rw e (
                resume-keeps
                  (λ (answer : Fields × ℕ) (u : W). (
                    u,
                    ok (
                        order_status_evidence outside adapter intent receipt_hash run_id client_oid
                          order_id answer (outside.utc_now u)),
                  ))
                  (catch_blocked outside adapter intent receipt_hash (
                    request_json outside adapter order_detail_path
                      (query_of outside adapter intent receipt_hash client_oid order_id) true w))
                  read (λ a u q. q))
          | inr (reason, message, e) ↦ rw e p
        ]

    recover_order-keeps :
        (message client_oid : String) (w : W)
        → P w
        → P (recover_order outside adapter intent receipt_hash message client_oid w).0
    unfolding recover_order
    recover_order-keeps message client_oid w p =
        resume-keeps
          (λ (recovered : BitgetOrderStatusEvidence).
            lift (
              recovered_placement outside adapter intent receipt_hash message client_oid recovered))
          (query_order_status outside adapter intent receipt_hash "recovered" client_oid none w)
          (query_order_status-keeps "recovered" client_oid none w p) (λ a u q. q)

    recover_or_reject-keeps :
        (client_oid : String) (status_code : ℕ) (response : Json) (w : W)
        → P w
        → P
            (recover_or_reject outside adapter intent receipt_hash client_oid status_code response
              w).0
    unfolding recover_or_reject
    recover_or_reject-keeps client_oid status_code response w p =
        elim (Bool-cases (is_duplicate_client_oid_response outside.repr response)) [
          | inl d ↦ rw d (recover_order-keeps _ client_oid w p)
          | inr d ↦ rw d p
        ]

    read_placement-keeps :
        (client_oid : String) (status_code : ℕ) (body : Body) (w : W)
        → P w
        → P (read_placement outside adapter intent receipt_hash client_oid status_code body w).0
    unfolding read_placement
    read_placement-keeps client_oid status_code not_json w p = p
    read_placement-keeps client_oid status_code (json (obj response)) w p =
        elim (Bool-cases (
          leb 400 status_code
          || not (str_eq (text_at outside.repr (get response "code")) "00000"))) [
            | inl r ↦ rw r (recover_or_reject-keeps client_oid status_code (obj response) w p)
            | inr r ↦ rw r p
          ]
    read_placement-keeps client_oid status_code (json response) w p =
        elim (Bool-cases (leb 400 status_code)) [
          | inl r ↦ rw r (recover_or_reject-keeps client_oid status_code response w p)
          | inr r ↦ rw r p
        ]

    after_order-keeps :
        (client_oid : String) (r : W × Outcome (ℕ × Body))
        → P r.0
        → P (after_order outside adapter intent receipt_hash client_oid r).0
    unfolding after_order
    after_order-keeps client_oid (w, ok (status_code, body)) p =
        read_placement-keeps client_oid status_code body w p
    after_order-keeps client_oid (w, blocked reason message) p =
        elim (Bool-cases (str_eq reason "BITGET_TRANSPORT_ERROR")) [
          | inl t ↦ rw t (recover_order-keeps _ client_oid w p)
          | inr t ↦ rw t p
        ]
    after_order-keeps client_oid (w, assertion_error) p = p
    after_order-keeps client_oid (w, crash) p = p

    -- What the transport keeps under the requests that may be sent, `place_order` keeps, for an intent
    -- whose symbol is not empty: every request that it makes, for the order and for the queries that
    -- recover it, names the symbol of the intent and no other, in the dict of the order or in the query;
    -- and that is a demo symbol and the request has the header of paper trading, or the adapter may place
    -- mainnet orders and the intent confirms one.
    pub place_order-keeps :
        (client_oid : Option String) (cancelled : Option (W → Bool)) (w : W)
        → P w
        → P (place_order outside adapter intent receipt_hash client_oid cancelled w).0
    unfolding place_order
    place_order-keeps client_oid cancelled w p = elim (assert_mode_cases adapter intent) [
      | inl (e, allowed) ↦
          let oid = oid_of outside adapter intent receipt_hash client_oid in
          let request = order_request outside adapter intent receipt_hash oid w in
          rw e (
            after_order-keeps oid (send transport adapter.max_retries false request cancelled w) (
              send-keeps false request cancelled w
                (order_request-Safe outside adapter intent receipt_hash oid w allowed) p))
      | inr (reason, message, e) ↦ rw e p
    ]
