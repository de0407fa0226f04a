-- ===== src/Execution/Sidecars.antt =====
-- src/redline/sponsor/bitget_execution.py: the preflight and order-status evidence that stand next to
-- the evidence of an order, each in a file of its own.
use playbook_redline.Base.{ℕ, String, Bool, ◌&&◌, Option, List, str_eq, if◌then◌else◌}
use playbook_redline.Canonical.{Json, bool, str, arr, obj, Items, end, field}
use playbook_redline.Canonical.Hash.{hash_obj}
use playbook_redline.Execution.{Outcome, ok, blocked, crash, Action, ◌>>=◌, lift}
use playbook_redline.Execution.Outside.{opt_str}
use playbook_redline.Execution.Status.{BitgetOrderStatusEvidence, evidence_json}
use playbook_redline.Execution.Ledger.{File, missing, undecodable, holding}

pub record BitgetExchangePreflightEvidence : Type 0 where
  pub run_id : String
  pub receipt_hash : String
  pub client_oid : String
  pub checked_at : String
  pub symbol : String
  pub product_type : String
  pub margin_coin : String
  pub order_mode : String
  pub paptrading : Option String
  pub ok : Bool
  pub checks : Items
  pub contract_response_hash : String
  pub account_response_hash : String
  pub symbol_status : Option String
  pub min_trade_num : Option String
  pub min_trade_usdt : Option String
  pub price_place : Option String
  pub volume_place : Option String
  pub available : Option String
  pub preflight_hash : String

-- The dump without `preflight_hash`.
abbrev pub preflight_json : BitgetExchangePreflightEvidence → Json
preflight_json e = obj (
    field "schema_version" (str "redline.bitget.exchange_preflight.v1") (
      field "run_id" (str e.run_id) (
        field "receipt_hash" (str e.receipt_hash) (
          field "client_oid" (str e.client_oid) (
            field "checked_at" (str e.checked_at) (
              field "symbol" (str e.symbol) (
                field "product_type" (str e.product_type) (
                  field "margin_coin" (str e.margin_coin) (
                    field "order_mode" (str e.order_mode) (
                      field "paptrading" (opt_str e.paptrading) (
                        field "ok" (bool e.ok) (
                          field "checks" (arr e.checks) (
                            field "contract_response_hash" (str e.contract_response_hash) (
                              field "account_response_hash" (str e.account_response_hash) (
                                field "symbol_status" (opt_str e.symbol_status) (
                                  field "min_trade_num" (opt_str e.min_trade_num) (
                                    field "min_trade_usdt" (opt_str e.min_trade_usdt) (
                                      field "price_place" (opt_str e.price_place) (
                                        field "volume_place" (opt_str e.volume_place) (
                                          field "available" (opt_str e.available)
                                            end))))))))))))))))))))

module _ (digest : List ℕ → String) where
  -- `load_exchange_preflight_evidence`.
  unfoldable pub load_exchange_preflight_evidence :
      File BitgetExchangePreflightEvidence → Outcome BitgetExchangePreflightEvidence
  load_exchange_preflight_evidence (holding e) =
      if str_eq e.preflight_hash (hash_obj digest (preflight_json e))
      then ok e
      else blocked "EXCHANGE_PREFLIGHT_EVIDENCE_MISMATCH"
          "exchange preflight evidence artifact hash mismatch"
  load_exchange_preflight_evidence undecodable = crash
  load_exchange_preflight_evidence _ =
      blocked "EXCHANGE_PREFLIGHT_EVIDENCE_INVALID"
        "exchange preflight evidence artifact is invalid"

  -- `load_order_status_evidence`.
  unfoldable pub load_order_status_evidence :
      File BitgetOrderStatusEvidence → Outcome BitgetOrderStatusEvidence
  load_order_status_evidence (holding e) =
      if str_eq e.evidence_hash (hash_obj digest (evidence_json e))
      then ok e
      else blocked "ORDER_STATUS_EVIDENCE_MISMATCH" "order status evidence artifact hash mismatch"
  load_order_status_evidence undecodable = crash
  load_order_status_evidence _ =
      blocked "ORDER_STATUS_EVIDENCE_INVALID" "order status evidence artifact is invalid"

  abbrev pub same_preflight :
      BitgetExchangePreflightEvidence
      → BitgetExchangePreflightEvidence
      → Outcome BitgetExchangePreflightEvidence
  same_preflight e existing =
      if str_eq existing.client_oid e.client_oid && str_eq existing.receipt_hash e.receipt_hash
      then ok existing
      else blocked "EXCHANGE_PREFLIGHT_EVIDENCE_MISMATCH"
          "different exchange preflight evidence already exists"

  -- `write_exchange_preflight_evidence`: a file that is there stays.
  unfoldable pub write_exchange_preflight_evidence :
      BitgetExchangePreflightEvidence
      → Action (File BitgetExchangePreflightEvidence) BitgetExchangePreflightEvidence
  write_exchange_preflight_evidence e missing = (holding e, ok e)
  write_exchange_preflight_evidence e file =
      (lift (load_exchange_preflight_evidence file) >>= λ existing.
      lift (same_preflight e existing))
        file

  abbrev pub same_order_status :
      BitgetOrderStatusEvidence → BitgetOrderStatusEvidence → Outcome BitgetOrderStatusEvidence
  same_order_status e existing =
      if str_eq existing.client_oid e.client_oid && str_eq existing.receipt_hash e.receipt_hash
      then ok existing
      else blocked "ORDER_STATUS_EVIDENCE_MISMATCH" "different order status evidence already exists"

  -- `write_order_status_evidence`: a file that is there stays.
  unfoldable pub write_order_status_evidence :
      BitgetOrderStatusEvidence → Action (File BitgetOrderStatusEvidence) BitgetOrderStatusEvidence
  write_order_status_evidence e missing = (holding e, ok e)
  write_order_status_evidence e file =
      (lift (load_order_status_evidence file) >>= λ existing. lift (same_order_status e existing))
        file
