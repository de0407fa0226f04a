-- ===== src/Execution/Placed.antt =====
-- src/redline/sponsor/bitget_execution.py: what a placement that `place_order` returns rests on.
use mathlib.Core.Bool.{false≢true}
use playbook_redline.Base.{
  ℕ, ◌<◌, String, ◌≡◌, ◌≢◌, refl, sym, ap, ◌∙◌, ◌⊎◌, inl, inr, subst, Bool, true, false, not, ◌||◌,
  Option, none, some, str_eq, eq_iff, leb, arith, Bool-cases, if◌then◌else◌,
}
use playbook_redline.Canonical.{Json, obj, Fields}
use playbook_redline.Canonical.Dict.{get, nonempty}
use playbook_redline.Execution.{
  ExecutionIntent, Adapter, Body, not_json, json, Outcome, ok, blocked, assertion_error, crash,
  resume, lift,
}
use playbook_redline.Execution.Response.{
  OrderStatus, unknown_reconciliation_required, is_duplicate_client_oid_response, text_at, text_or,
}
use playbook_redline.Execution.Send.{send}
use playbook_redline.Execution.Outside.{Outside}
use playbook_redline.Execution.Status.{
  BitgetOrderStatusEvidence, is_unknown, or_blank, query_order_status,
}
use playbook_redline.Execution.Order.{
  BitgetOrderPlacement, recovered_placement, accepted_placement, order_request, oid_of,
  recover_order, recover_or_reject, read_placement, after_order, place_order,
}
use playbook_redline.Execution.Allowed.{Allowed, assert_mode_cases}

ok-inj : {A : Type 0} (a b : A) → ◌≡◌ {A = Outcome A} (ok a) (ok b) → a ≡ b
ok-inj a b e = cc

-- A guard that raises has not.
guard_parts :
    {A : Type 0} (b : Bool) (reason message : String) (r : Outcome A) (a : A)
    → (if b then blocked reason message else r) ≡ ok a
    → (b ≡ false) × (r ≡ ok a)
guard_parts true reason message r a e = cc
guard_parts false reason message r a e = (refl, e)

or_blank_of : (o : Option String) → nonempty o ≡ true → o ≡ some (or_blank o)
or_blank_of none e = cc
or_blank_of (some s) e = refl

module _ {W : Type 0} (outside : Outside W) (adapter : Adapter) (intent : ExecutionIntent)
    (receipt_hash : String) where
  open outside use {transport, repr}

  -- An order that a query by the client's id has found, in a status that is known.
  abbrev pub Found : String → W → W → BitgetOrderPlacement → Type 0
  Found oid w u p =
      (found : BitgetOrderStatusEvidence) × (query_order_status outside adapter intent receipt_hash
          "recovered" oid none w
        ≡ (u, ok found))
      × (found.status ≢ unknown_reconciliation_required)
      × (found.bitget_order_id ≡ some p.bitget_order_id)
      × (p.response_hash ≡ found.response_hash)
      × (p.client_oid ≡ oid)

  recovered_placement_parts :
      (message oid : String) (found : BitgetOrderStatusEvidence) (p : BitgetOrderPlacement)
      → recovered_placement outside adapter intent receipt_hash message oid found ≡ ok p
      → (is_unknown found.status ≡ false)
        × (found.bitget_order_id ≡ some p.bitget_order_id)
        × (p.response_hash ≡ found.response_hash)
        × (p.client_oid ≡ oid)
  unfolding recovered_placement
  recovered_placement_parts message oid found p e =
      let (n, r) =
        guard_parts (is_unknown found.status || not (nonempty found.bitget_order_id))
          "EXCHANGE_RECONCILIATION_REQUIRED" message _ p e in
      let same = ok-inj _ p r in
      (
        ground arith,
        or_blank_of found.bitget_order_id (ground arith)
            ∙ ap (λ (q : BitgetOrderPlacement). some q.bitget_order_id) same,
        sym (ap (λ (q : BitgetOrderPlacement). q.response_hash) same),
        sym (ap (λ (q : BitgetOrderPlacement). q.client_oid) same),
      )

  known_of : (s : OrderStatus) → is_unknown s ≡ false → s ≢ unknown_reconciliation_required
  known_of s n e = false≢true (sym n ∙ ap is_unknown e)

  recover_order-Found :
      (message oid : String) (w u : W) (p : BitgetOrderPlacement)
      → recover_order outside adapter intent receipt_hash message oid w ≡ (u, ok p)
      → Found oid w u p
  unfolding recover_order
  recover_order-Found message oid w u p e =
      go (query_order_status outside adapter intent receipt_hash "recovered" oid none w) refl e
    where
      go :
          (r : W × Outcome BitgetOrderStatusEvidence)
          → query_order_status outside adapter intent receipt_hash "recovered" oid none w ≡ r
          → resume
              (λ (found : BitgetOrderStatusEvidence).
                lift (recovered_placement outside adapter intent receipt_hash message oid found))
              r
            ≡ (u, ok p)
          → Found oid w u p
      go (w', ok found) q e =
          let (known, id, hash, oid_same) =
            recovered_placement_parts message oid found p
              (ap (λ (r : W × Outcome BitgetOrderPlacement). r.1) e) in
          (
            found,
            q
                ∙ ap (λ (v : W). (v, ok found))
                    (ap (λ (r : W × Outcome BitgetOrderPlacement). r.0) e),
            known_of found.status known,
            id,
            hash,
            oid_same,
          )
      go (w', blocked reason message) q e = cc
      go (w', assertion_error) q e = cc
      go (w', crash) q e = cc

  -- An answer of success to the order itself, with an id and no other id of the client.
  abbrev pub Accepted : String → ℕ → Body → BitgetOrderPlacement → Type 0
  Accepted oid status_code body p =
      (response : Fields) × (found : Fields) × (body ≡ json (obj response))
      × (status_code < 400)
      × (text_at repr (get response "code") ≡ "00000")
      × (get response "data" ≡ some (obj found))
      × (text_or repr (get found "orderId") "" ≡ p.bitget_order_id)
      × (nonempty (some p.bitget_order_id) ≡ true)
      × (text_or repr (get found "clientOid") oid ≡ oid)
      × (p.client_oid ≡ oid)

  accepted_placement-Accepted :
      (oid now : String) (status_code : ℕ) (response : Fields) (p : BitgetOrderPlacement)
      (o : Option Json)
      → get response "data" ≡ o
      → status_code < 400
      → text_at repr (get response "code") ≡ "00000"
      → accepted_placement outside adapter intent receipt_hash oid status_code response o now ≡ ok p
      → Accepted oid status_code (json (obj response)) p
  unfolding accepted_placement
  accepted_placement-Accepted oid now status_code response p (some (obj found)) d lt c e =
      let order_id = text_or repr (get found "orderId") "" in
      let other = str_eq (text_or repr (get found "clientOid") oid) oid in
      let (n, r) = guard_parts (not (nonempty (some order_id))) _ _ _ p e in
      let (m, t) = guard_parts (not other) _ _ _ p r in
      let same = ok-inj _ p t in
      let id = ap (λ (q : BitgetOrderPlacement). q.bitget_order_id) same in
      (
        response,
        found,
        refl,
        lt,
        c,
        d,
        id,
        subst (λ (s : String). nonempty (some s) ≡ true) id (ground arith),
        (eq_iff (text_or repr (get found "clientOid") oid) oid).0 (ground arith),
        sym (ap (λ (q : BitgetOrderPlacement). q.client_oid) same),
      )
  accepted_placement-Accepted oid now status_code response p _ d lt c e = cc

  -- Where a placement comes from, when the call of the transport for the order has ended in `sent`.
  abbrev pub Placed : String → W × Outcome (ℕ × Body) → W → BitgetOrderPlacement → Type 0
  Placed oid sent u p =
      ((status_code : ℕ) × (body : Body) × (sent.1 ≡ ok (status_code, body))
        × Accepted oid status_code body p)
      ⊎ Found oid sent.0 u p

  recover_or_reject-Found :
      (oid : String) (status_code : ℕ) (response : Json) (w u : W) (p : BitgetOrderPlacement)
      → recover_or_reject outside adapter intent receipt_hash oid status_code response w ≡ (u, ok p)
      → Found oid w u p
  unfolding recover_or_reject
  recover_or_reject-Found oid status_code response w u p e =
      elim (Bool-cases (is_duplicate_client_oid_response repr response)) [
        | inl d ↦ recover_order-Found _ oid w u p (rw d at e)
        | inr d ↦ let clash : (w, blocked _ _) ≡ (u, ok p) = rw d at e in cc
      ]

  read_placement-Placed :
      (oid : String) (status_code : ℕ) (body : Body) (w u : W) (p : BitgetOrderPlacement)
      → read_placement outside adapter intent receipt_hash oid status_code body w ≡ (u, ok p)
      → Placed oid (w, ok (status_code, body)) u p
  unfolding read_placement
  read_placement-Placed oid status_code not_json w u p e = cc
  read_placement-Placed oid status_code (json (obj response)) w u p e =
      elim (Bool-cases
        (leb 400 status_code || not (str_eq (text_at repr (get response "code")) "00000"))) [
          | inl r ↦ inr (recover_or_reject-Found oid status_code (obj response) w u p (rw r at e))
          | inr r ↦ inl (
              (
                status_code,
                json (obj response),
                refl,
                accepted_placement-Accepted oid _ status_code response p (get response "data") refl
                    (ground arith)
                    ((eq_iff (text_at repr (get response "code")) "00000").0 (ground arith))
                    (ap (λ (t : W × Outcome BitgetOrderPlacement). t.1) (rw r at e)),
              ))
        ]
  read_placement-Placed oid status_code (json response) w u p e =
      elim (Bool-cases (leb 400 status_code)) [
        | inl r ↦ inr (recover_or_reject-Found oid status_code response w u p (rw r at e))
        | inr r ↦ let clash : (w, crash) ≡ (u, ok p) = rw r at e in cc
      ]

  after_order-Placed :
      (oid : String) (sent : W × Outcome (ℕ × Body)) (u : W) (p : BitgetOrderPlacement)
      → after_order outside adapter intent receipt_hash oid sent ≡ (u, ok p)
      → Placed oid sent u p
  unfolding after_order
  after_order-Placed oid (w, ok (status_code, body)) u p e =
      read_placement-Placed oid status_code body w u p e
  after_order-Placed oid (w, blocked reason message) u p e =
      elim (Bool-cases (str_eq reason "BITGET_TRANSPORT_ERROR")) [
        | inl t ↦ inr (recover_order-Found _ oid w u p (rw t at e))
        | inr t ↦
            let clash : ◌≡◌ {A = W × Outcome BitgetOrderPlacement} (w, blocked reason message)
                (u, ok p) =
              rw t at e in
            cc
      ]
  after_order-Placed oid (w, assertion_error) u p e = cc
  after_order-Placed oid (w, crash) u p e = cc

  -- When `place_order` returns a placement, the adapter may send the order, and the placement rests on
  -- an answer to it, with a status below 400, the code of success, the id of the order and no other id
  -- of the client; or else on a query by the client's id, that has found an order with an id and a
  -- known status.
  pub place_order-Placed :
      (client_oid : Option String) (cancelled : Option (W → Bool)) (w u : W)
      (p : BitgetOrderPlacement)
      → place_order outside adapter intent receipt_hash client_oid cancelled w ≡ (u, ok p)
      → let oid = oid_of outside adapter intent receipt_hash client_oid in
        Allowed adapter intent
        × Placed oid
            (send transport adapter.max_retries false
              (order_request outside adapter intent receipt_hash oid w)
              cancelled
              w)
            u
            p
  unfolding place_order
  place_order-Placed client_oid cancelled w u p e = elim (assert_mode_cases adapter intent) [
    | inl (a, allowed) ↦ (allowed, after_order-Placed _ _ u p (rw a at e))
    | inr (reason, message, a) ↦
        let clash : ◌≡◌ {A = W × Outcome BitgetOrderPlacement} (w, blocked reason message)
            (u, ok p) =
          rw a at e in
        cc
  ]
