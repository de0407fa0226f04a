-- ===== src/Execution/Outside.antt =====
-- src/redline/sponsor/bitget_execution.py: which orders an adapter may send, its headers, and
-- `_request_json`.
use playbook_redline.Base.{
  ℕ, String, Bool, true, ◌&&◌, ◌||◌, Option, none, some, not, List, [], ◌∷◌, ◌++◌, append, str_eq,
  leb, if◌then◌else◌,
}
use playbook_redline.Base.Case.{upper, one_of}
use playbook_redline.Base.Int.{pos}
use playbook_redline.Canonical.{Json, null, int, str, obj, Fields}
use playbook_redline.Canonical.Dict.{get}
use playbook_redline.Release.Tier.{set_field}
use playbook_redline.Execution.{
  ExecutionIntent, Adapter, Request, Body, not_json, json, Reply, Outcome, ok, blocked, Action,
  ◌>>=◌, lift,
}
use playbook_redline.Execution.Response.{text_at, bitget_failure_message}
use playbook_redline.Execution.Query.{Query, path_with_query}
use playbook_redline.Execution.Send.{send}

abbrev pub demo_symbol_allowlist : List String
demo_symbol_allowlist =
    "ADAUSDT" ∷ "BCHUSDT" ∷ "BNBUSDT" ∷ "BTCUSDT" ∷ "DOGEUSDT" ∷ "DOTUSDT" ∷ "ETHUSDT" ∷ "LINKUSDT"
    ∷ "LTCUSDT" ∷ "NEARUSDT" ∷ "PEPEUSDT" ∷ "SHIBUSDT" ∷ "SOLUSDT" ∷ "UNIUSDT" ∷ "XRPUSDT" ∷ []

-- `_is_demo_symbol`.
unfoldable pub is_demo_symbol : String → Bool
is_demo_symbol symbol = one_of (upper symbol) demo_symbol_allowlist

abbrev pub is_demo : Adapter → Bool
is_demo adapter = str_eq adapter.paptrading "1"

-- `_assert_mode`.
unfoldable pub assert_mode : Adapter → ExecutionIntent → Outcome (Unit {0})
assert_mode adapter intent =
    if is_demo adapter
    then (if is_demo_symbol intent.symbol
        then ok tt
        else blocked "BITGET_DEMO_SYMBOL_REQUIRED" "demo execution only allows demo symbols")
    else if adapter.allow_mainnet_order && intent.confirm_mainnet_order
    then ok tt
    else blocked "BITGET_MAINNET_DISABLED" "mainnet order placement is disabled"

abbrev pub opt_str : Option String → Json
opt_str none = null
opt_str (some s) = str s

abbrev pub place_order_path : String
place_order_path = "/api/v2/mix/order/place-order"

abbrev pub order_detail_path : String
order_detail_path = "/api/v2/mix/order/detail"

-- What stands outside of the adapter: the transport, the time as a text and as a number of
-- milliseconds, the signature of a text with a body by the secret key, `str` of lists and dicts, and
-- SHA-256.
pub record Outside (W : Type 0) : Type 0 where
  pub transport : Request → W → W × Reply
  pub utc_now : W → String
  pub timestamp : W → String
  pub signature : String → Option Json → String
  pub repr : Json → String
  pub digest : List ℕ → String

abbrev pub common_headers : List (String × String)
common_headers = ("Content-Type", "application/json") ∷ ("locale", "en-US") ∷ []

module _ {W : Type 0} (outside : Outside W) (adapter : Adapter) where
  open outside use {transport, utc_now, timestamp, signature, repr, digest}

  -- `bitget_auth_headers`.
  abbrev pub auth_headers : String → String → Option Json → W → List (String × String)
  auth_headers method request_path body w =
      ("ACCESS-KEY", adapter.access_key)
      ∷ ("ACCESS-SIGN", signature (append (timestamp w) (append method request_path)) body)
      ∷ ("ACCESS-TIMESTAMP", timestamp w)
      ∷ ("ACCESS-PASSPHRASE", adapter.passphrase)
      ∷ []

  abbrev pub with_paptrading : List (String × String) → List (String × String)
  with_paptrading headers = if is_demo adapter then headers ++ ("paptrading", "1") ∷ [] else headers

  -- The answer that `_request_json` returns.
  unfoldable pub read_response : ℕ → Body → Outcome Fields
  read_response status_code not_json =
      blocked "BITGET_RESPONSE_INVALID" "Bitget read response was not valid JSON"
  read_response status_code (json (obj fields)) =
      let response = set_field "_http_status" (int (pos status_code)) fields in
      let code = text_at repr (get response "code") in
      if leb 400 status_code || not (str_eq code "" || str_eq code "00000")
      then blocked "BITGET_READ_REJECTED" (bitget_failure_message repr status_code (obj response))
      else ok response
  read_response status_code (json _) =
      blocked "BITGET_RESPONSE_INVALID" "Bitget read response was not an object"

  abbrev pub read_headers : String → Query → Bool → W → List (String × String)
  read_headers path query auth w =
      common_headers
      ++ (if auth then auth_headers "GET" (path_with_query path query) none w else [])

  abbrev pub read_request : String → Query → Bool → W → Request
  read_request path query auth w =
      let request_path = path_with_query path query in
      record {
        method = "GET";
        url = append adapter.base_url request_path;
        headers = with_paptrading (read_headers path query auth w);
        body = none;
      }

  -- `_request_json` with the method GET.
  unfoldable pub request_json : String → Query → Bool → Action W Fields
  unfolding read_response
  request_json path query auth w =
      (send transport adapter.max_retries true (read_request path query auth w) none >>= λ answer.
      lift (read_response answer.0 answer.1))
        w
