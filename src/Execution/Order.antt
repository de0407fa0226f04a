-- ===== src/Execution/Order.antt =====
-- src/redline/sponsor/bitget_execution.py: `place_order`.
use playbook_redline.Base.{
  ℕ, String, Bool, false, ◌||◌, Option, none, some, not, List, ◌++◌, append, take_text, str_eq, leb,
  if◌then◌else◌,
}
use playbook_redline.Canonical.{Json, bool, str, obj, Fields, end, field}
use playbook_redline.Canonical.Dict.{get, nonempty}
use playbook_redline.Canonical.Dump.{normalize}
use playbook_redline.Canonical.Hash.{hash_obj}
use playbook_redline.Verdict.Decide.{strip_prefix}
use playbook_redline.Execution.{
  ExecutionIntent, Adapter, Request, Body, not_json, json, Outcome, ok, blocked, assertion_error,
  crash, Action, ◌>>=◌, ◌>>◌, lift,
}
use playbook_redline.Execution.Response.{
  redact_secrets, text_or, text_at, is_duplicate_client_oid_response, bitget_failure_message,
}
use playbook_redline.Execution.Send.{send}
use playbook_redline.Execution.Outside.{
  Outside, place_order_path, assert_mode, opt_str, common_headers, auth_headers, with_paptrading,
}
use playbook_redline.Execution.Status.{
  BitgetOrderStatusEvidence, is_unknown, or_blank, query_order_status,
}

pub record BitgetOrderPlacement : Type 0 where
  pub client_oid : String
  pub bitget_order_id : String
  pub response_hash : String
  pub placed_at : String
  pub status_code : ℕ

abbrev pub opt_field : String → Option String → Fields → Fields
opt_field key none fs = fs
opt_field key (some value) fs = field key (str value) fs

-- `_order_payload`.
abbrev pub order_payload : ExecutionIntent → String → Fields
order_payload intent client_oid = field "symbol" (str intent.symbol) (
    field "productType" (str intent.product_type) (
      field "marginMode" (str intent.margin_mode) (
        field "marginCoin" (str intent.margin_coin) (
          field "size" (str intent.size) (
            field "side" (str intent.side) (
              field "orderType" (str intent.order_type) (
                field "clientOid" (str client_oid) (
                  opt_field "tradeSide" intent.trade_side
                    (opt_field "force" intent.force (opt_field "price" intent.price end))))))))))

-- `intent.model_dump(mode="json")`.
abbrev pub intent_json : ExecutionIntent → Json
intent_json intent = obj (
    field "version" (str "redline.execution.intent.v1") (
      field "symbol" (str intent.symbol) (
        field "product_type" (str intent.product_type) (
          field "margin_mode" (str intent.margin_mode) (
            field "margin_coin" (str intent.margin_coin) (
              field "size" (str intent.size) (
                field "side" (str intent.side) (
                  field "trade_side" (opt_str intent.trade_side) (
                    field "order_type" (str intent.order_type) (
                      field "force" (opt_str intent.force) (
                        field "price" (opt_str intent.price) (
                          field "confirm_mainnet_order" (bool intent.confirm_mainnet_order)
                            end))))))))))))

module _ {W : Type 0} (outside : Outside W) (adapter : Adapter) where
  open outside use {transport, utc_now, timestamp, signature, repr, digest}

  module _ (intent : ExecutionIntent) (receipt_hash : String) where
    -- `make_client_oid`.
    unfoldable pub make_client_oid : String
    make_client_oid = append "rl-" (
        take_text 29 (
          strip_prefix (
            hash_obj digest (
              obj (
                field "receipt_hash" (str receipt_hash)
                  (field "intent" (intent_json intent) end))))))

    -- An order that a query has found.
    unfoldable pub recovered_placement :
        String → String → BitgetOrderStatusEvidence → Outcome BitgetOrderPlacement
    recovered_placement message client_oid recovered =
        if is_unknown recovered.status || not (nonempty recovered.bitget_order_id)
        then blocked "EXCHANGE_RECONCILIATION_REQUIRED" message
        else ok (record {
          client_oid = client_oid;
          bitget_order_id = or_blank recovered.bitget_order_id;
          response_hash = recovered.response_hash;
          placed_at = recovered.queried_at;
          status_code = recovered.status_code;
        })

    unfoldable pub recover_order : String → String → Action W BitgetOrderPlacement
    unfolding recovered_placement
    recover_order message client_oid =
        query_order_status outside adapter intent receipt_hash "recovered" client_oid none
        >>= λ recovered. lift (recovered_placement message client_oid recovered)

    -- `_recover_duplicate_client_oid`, and the rejection if it finds nothing to recover.
    unfoldable pub recover_or_reject : String → ℕ → Json → Action W BitgetOrderPlacement
    recover_or_reject client_oid status_code response =
        if is_duplicate_client_oid_response repr response
        then recover_order "Bitget duplicate clientOid response did not recover an order" client_oid
        else lift
            (blocked "BITGET_ORDER_REJECTED" (bitget_failure_message repr status_code response))

    abbrev invalid_response : String → Outcome BitgetOrderPlacement
    invalid_response message = blocked "BITGET_RESPONSE_INVALID" message

    -- The placement of an answer with the code of success.
    unfoldable pub accepted_placement :
        String → ℕ → Fields → Option Json → String → Outcome BitgetOrderPlacement
    accepted_placement client_oid status_code response (some (obj found)) now =
        let order_id = text_or repr (get found "orderId") "" in
        if not (nonempty (some order_id))
        then invalid_response "Bitget order response did not include orderId"
        else if not (str_eq (text_or repr (get found "clientOid") client_oid) client_oid)
        then invalid_response "Bitget order response clientOid mismatch"
        else ok (record {
          client_oid = client_oid;
          bitget_order_id = order_id;
          response_hash = hash_obj digest (redact_secrets (obj response));
          placed_at = now;
          status_code = status_code;
        })
    accepted_placement client_oid status_code response _ now =
        invalid_response "Bitget order response data was not an object"

    -- What `place_order` does with an answer; `response.get` of what is no dict is an AttributeError.
    unfoldable pub read_placement : String → ℕ → Body → Action W BitgetOrderPlacement
    unfolding recover_or_reject accepted_placement
    read_placement client_oid status_code not_json =
        lift (invalid_response "Bitget order response was not valid JSON")
    read_placement client_oid status_code (json (obj response)) =
        if leb 400 status_code || not (str_eq (text_at repr (get response "code")) "00000")
        then recover_or_reject client_oid status_code (obj response)
        else λ w. (
          w,
          accepted_placement client_oid status_code response (get response "data") (utc_now w),
        )
    read_placement client_oid status_code (json response) =
        if leb 400 status_code
        then recover_or_reject client_oid status_code response
        else lift crash

    abbrev pub order_body : String → Option Json
    order_body client_oid = some (normalize (obj (order_payload intent client_oid)))

    abbrev pub order_headers : String → W → List (String × String)
    order_headers client_oid w =
        auth_headers outside adapter "POST" place_order_path (order_body client_oid) w
        ++ common_headers

    abbrev pub order_request : String → W → Request
    order_request client_oid w = record {
      method = "POST";
      url = append adapter.base_url place_order_path;
      headers = with_paptrading outside adapter (order_headers client_oid w);
      body = order_body client_oid;
    }

    -- What follows the request of an order.
    unfoldable pub after_order : String → W × Outcome (ℕ × Body) → W × Outcome BitgetOrderPlacement
    unfolding read_placement
    after_order client_oid (w, ok (status_code, body)) =
        read_placement client_oid status_code body w
    after_order client_oid (w, blocked reason message) =
        if str_eq reason "BITGET_TRANSPORT_ERROR"
        then recover_order
            "Bitget order placement timed out and clientOid query did not recover an order"
            client_oid w
        else (w, blocked reason message)
    after_order client_oid (w, assertion_error) = (w, assertion_error)
    after_order client_oid (w, crash) = (w, crash)

    abbrev pub oid_of : Option String → String
    oid_of client_oid = if nonempty client_oid then or_blank client_oid else make_client_oid

    -- `place_order`.
    unfoldable pub place_order : Option String → Option (W → Bool) → Action W BitgetOrderPlacement
    unfolding after_order
    place_order client_oid cancelled = lift (assert_mode adapter intent) >> λ w.
        after_order (oid_of client_oid) (
          send transport adapter.max_retries false (order_request (oid_of client_oid) w) cancelled
            w)
