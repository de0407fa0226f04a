-- ===== src/Tests/Orders.antt =====
-- Orders at a concrete exchange.
use playbook_redline.Base.{
  ℕ, suc, ◌≡◌, refl, true, false, none, some, str_eq, List, [], ◌∷◌, map, All, if◌then◌else◌,
}
use playbook_redline.Canonical.{Json, int, str, obj, Fields, end, field}
use playbook_redline.Base.Int.{pos}
use playbook_redline.Canonical.Hash.{hash_obj}
use playbook_redline.Tests.{toy_digest}
use playbook_redline.Execution.{
  ExecutionIntent, Adapter, Request, json, Reply, answered, raised, ok,
}
use playbook_redline.Release.Tier.{set_field}
use playbook_redline.Execution.Response.{text_at, text_or, normalize_order_status, redact_secrets}
use playbook_redline.Execution.Attempts.{Bounded, send-Bounded}
use playbook_redline.Execution.Send.{send}
use playbook_redline.Execution.Outside.{Outside, request_json, is_demo_symbol, assert_mode}
use playbook_redline.Execution.Status.{query_order_status}
use playbook_redline.Execution.Order.{
  BitgetOrderPlacement, after_order, recover_order, place_order, order_request,
}
use playbook_redline.Execution.Allowed.{Allowed, Safe}
use playbook_redline.Execution.Safety.{place_order-keeps}
use playbook_redline.Execution.Placed.{Placed, place_order-Placed}

abbrev intent : ExecutionIntent
intent = record {
  symbol = "BTCUSDT";
  product_type = "USDT-FUTURES";
  margin_mode = "isolated";
  margin_coin = "USDT";
  size = "0.0001";
  side = "buy";
  trade_side = some "open";
  order_type = "market";
  force = none;
  price = none;
  confirm_mainnet_order = false;
}

abbrev adapter : Adapter
adapter = record {
  access_key = "key";
  passphrase = "phrase";
  base_url = "https://api.bitget.com";
  paptrading = "1";
  max_retries = 1;
  allow_mainnet_order = false;
}

abbrev order_found : Json
order_found = obj (
    field "code" (str "00000")
      (field "data" (obj (field "orderId" (str "77") (field "state" (str "live") end))) end))

-- The world counts the requests. The order times out; a query finds it.
abbrev exchange : Request → ℕ → ℕ × Reply
exchange request n = (
  suc n,
  if str_eq request.method "POST" then raised "TimeoutError" else answered 200 (json order_found),
)

abbrev outside : Outside ℕ
outside = record {
  transport = exchange;
  utc_now = λ w. "2026-06-12T00:00:00Z";
  timestamp = λ w. "1781222400000";
  signature = λ text body. text;
  repr = λ j. "";
  digest = toy_digest;
}

send-Bounded_example :
    Bounded exchange 1 true
      (order_request outside adapter intent "sha256:1" "oid" 0)
      none
      2
      0
      (send exchange 1 true (order_request outside adapter intent "sha256:1" "oid" 0) none 0)
send-Bounded_example =
    send-Bounded exchange 1 true (order_request outside adapter intent "sha256:1" "oid" 0) none 0

-- An exchange that keeps the requests that it was sent, the last one first.
abbrev kept_exchange : Request → List Request → List Request × Reply
kept_exchange request log = (
  request ∷ log,
  if str_eq request.method "POST" then raised "TimeoutError" else answered 200 (json order_found),
)

abbrev kept_outside : Outside (List Request)
kept_outside = record {
  transport = kept_exchange;
  utc_now = λ w. "2026-06-12T00:00:00Z";
  timestamp = λ w. "1781222400000";
  signature = λ text body. text;
  repr = λ j. "";
  digest = toy_digest;
}

abbrev sent : List Request
sent = (place_order kept_outside adapter intent "sha256:1" (some "oid") none []).0

two_sent : map (λ (r : Request). r.method) sent ≡ "GET" ∷ "POST" ∷ []
unfolding place_order assert_mode is_demo_symbol send after_order recover_order query_order_status
    request_json text_at set_field normalize_order_status text_or redact_secrets
two_sent = refl

-- Both requests are for BTCUSDT and have the header of paper trading.
place_order-keeps_example : All (Safe adapter intent) sent
place_order-keeps_example =
    place_order-keeps kept_outside adapter intent "sha256:1" (All (Safe adapter intent)) refl
      (λ r w s h. (s, h)) (some "oid") none [] tt

abbrev answer_kept : Fields
answer_kept = field "code" (str "00000") (
    field "data" (obj (field "orderId" (str "77") (field "state" (str "live") end)))
      (field "_http_status" (int (pos 200)) end))

abbrev recovered : BitgetOrderPlacement
recovered = record {
  client_oid = "oid";
  bitget_order_id = "77";
  response_hash = hash_obj toy_digest (obj answer_kept);
  placed_at = "2026-06-12T00:00:00Z";
  status_code = 200;
}

timeout_recovers :
    place_order outside adapter intent "sha256:1" (some "oid") none 0 ≡ (2, ok recovered)
unfolding place_order assert_mode is_demo_symbol send after_order recover_order query_order_status
    request_json text_at set_field normalize_order_status text_or redact_secrets
timeout_recovers = refl

place_order-Placed_example :
    Allowed adapter intent
    × Placed outside adapter intent "sha256:1" "oid"
        (send exchange 1 false (order_request outside adapter intent "sha256:1" "oid" 0) none 0)
        2
        recovered
place_order-Placed_example =
    place_order-Placed outside adapter intent "sha256:1" (some "oid") none 0 2 recovered
      timeout_recovers
