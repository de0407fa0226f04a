-- ===== src/Execution/Status.antt =====
-- src/redline/sponsor/bitget_execution.py: `query_order_status` and its evidence.
use playbook_redline.Base.{ℕ, String, Bool, true, false, Option, none, some, [], ◌∷◌, if◌then◌else◌}
use playbook_redline.Base.Int.{pos}
use playbook_redline.Canonical.{Json, int, str, obj, Fields, end, field}
use playbook_redline.Canonical.Dict.{get, nonempty}
use playbook_redline.Canonical.Hash.{hash_obj}
use playbook_redline.Execution.{
  ExecutionIntent, Adapter, Outcome, ok, blocked, assertion_error, crash, Action, ◌>>=◌, ◌>>◌, lift,
}
use playbook_redline.Execution.Response.{
  OrderStatus, unknown_reconciliation_required, normalize_order_status, order_status_text,
  redact_secrets, text_or,
}
use playbook_redline.Execution.Query.{Query}
use playbook_redline.Execution.Outside.{
  Outside, order_detail_path, is_demo, assert_mode, opt_str, request_json,
}

pub record BitgetOrderStatusEvidence : Type 0 where
  pub run_id : String
  pub receipt_hash : String
  pub client_oid : String
  pub bitget_order_id : Option String
  pub queried_at : String
  pub symbol : String
  pub product_type : String
  pub order_mode : String
  pub paptrading : Option String
  pub status : OrderStatus
  pub raw_status : Option String
  pub response_hash : String
  pub status_code : ℕ
  pub evidence_hash : String

abbrev pub is_unknown : OrderStatus → Bool
is_unknown unknown_reconciliation_required = true
is_unknown _ = false

-- `value or ""` and `value or None`.
abbrev pub or_blank : Option String → String
or_blank none = ""
or_blank (some s) = s

abbrev pub or_none : String → Option String
or_none s = if nonempty (some s) then some s else none

abbrev order_mode : Adapter → String
order_mode adapter = if is_demo adapter then "demo" else "mainnet"

abbrev shown_paptrading : Adapter → Option String
shown_paptrading adapter = if is_demo adapter then some adapter.paptrading else none

-- `int(response.get("_http_status", 0))`, a number that `_request_json` has set.
abbrev http_status : Fields → ℕ
http_status response = elim (get response "_http_status") [ some (int (pos n)) ↦ n | _ ↦ 0 ]

-- The answer in place of one that could not be read.
abbrev pub failed_query : Fields
failed_query =
    field "code" (str "RECONCILIATION_FAILED")
      (field "data" (obj end) (field "msg" (str "order detail query failed") end))

-- An ExecutionBlocked of the query is caught.
abbrev caught : Outcome Fields → Outcome (Fields × ℕ)
caught (ok response) = ok (response, http_status response)
caught (blocked reason message) = ok (failed_query, 0)
caught assertion_error = assertion_error
caught crash = crash

abbrev pub evidence_json : BitgetOrderStatusEvidence → Json
evidence_json e = obj (
    field "schema_version" (str "redline.bitget.order_status.v1") (
      field "run_id" (str e.run_id) (
        field "receipt_hash" (str e.receipt_hash) (
          field "client_oid" (str e.client_oid) (
            field "bitget_order_id" (opt_str e.bitget_order_id) (
              field "queried_at" (str e.queried_at) (
                field "symbol" (str e.symbol) (
                  field "product_type" (str e.product_type) (
                    field "order_mode" (str e.order_mode) (
                      field "paptrading" (opt_str e.paptrading) (
                        field "status" (str (order_status_text e.status)) (
                          field "raw_status" (opt_str e.raw_status) (
                            field "response_hash" (str e.response_hash)
                              (field "status_code" (int (pos e.status_code)) end))))))))))))))

-- The order id, the raw status and the status of the data of an answer.
abbrev observed :
    (Json → String) → Option String → Option Json → String × Option String × OrderStatus
observed repr order_id (some (obj found)) =
    let raw = text_or repr (get found "state") (text_or repr (get found "status") "") in
    (text_or repr (get found "orderId") (or_blank order_id), some raw, normalize_order_status raw)
observed repr order_id _ = (or_blank order_id, none, unknown_reconciliation_required)

module _ {W : Type 0} (outside : Outside W) (adapter : Adapter) where
  open outside use {transport, utc_now, timestamp, signature, repr, digest}

  unfoldable pub sealed_evidence : BitgetOrderStatusEvidence → BitgetOrderStatusEvidence
  sealed_evidence evidence = record evidence {
    evidence_hash = hash_obj digest (evidence_json evidence);
  }

  module _ (intent : ExecutionIntent) (receipt_hash : String) where
    -- The evidence of an answer, at a time.
    unfoldable pub order_status_evidence :
        String → String → Option String → Fields × ℕ → String → BitgetOrderStatusEvidence
    unfolding sealed_evidence
    order_status_evidence run_id client_oid bitget_order_id (response, status_code) now =
        let (order_id, raw_status, status) = observed repr bitget_order_id (get response "data") in
        sealed_evidence (record {
          run_id = run_id;
          receipt_hash = receipt_hash;
          client_oid = client_oid;
          bitget_order_id = or_none order_id;
          queried_at = now;
          symbol = intent.symbol;
          product_type = intent.product_type;
          order_mode = order_mode adapter;
          paptrading = shown_paptrading adapter;
          status = status;
          raw_status = raw_status;
          response_hash = hash_obj digest (redact_secrets (obj response));
          status_code = status_code;
          evidence_hash = "";
        })

    abbrev pub query_of : String → Option String → Query
    query_of client_oid bitget_order_id =
        ("symbol", intent.symbol)
        ∷ ("productType", intent.product_type)
        ∷ ("clientOid", client_oid)
        ∷ (elim bitget_order_id [
          | none ↦ []
          | some order_id ↦ if nonempty (some order_id) then ("orderId", order_id) ∷ [] else []
        ])

    abbrev pub catch_blocked : W × Outcome Fields → W × Outcome (Fields × ℕ)
    catch_blocked (w, outcome) = (w, caught outcome)

    -- `query_order_status`.
    unfoldable pub query_order_status :
        String → String → Option String → Action W BitgetOrderStatusEvidence
    unfolding order_status_evidence
    query_order_status run_id client_oid bitget_order_id =
        lift (assert_mode adapter intent)
        >> (λ w. catch_blocked (
            request_json outside adapter order_detail_path (query_of client_oid bitget_order_id)
              true w))
        >>= λ answer w.
            (w, ok (order_status_evidence run_id client_oid bitget_order_id answer (utc_now w)))
