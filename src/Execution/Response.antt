-- ===== src/Execution/Response.antt =====
-- src/redline/sponsor/bitget_execution.py: what is read from an answer of the exchange, and its secrets
-- replaced before it is hashed. `str` of a list or a dict is the parameter `repr`.
use playbook_redline.Base.{
  ℕ, ◌+◌, String, Bool, true, false, ◌||◌, Option, none, some, List, [], ◌∷◌, codes, str_eq,
  contains, append, take_text, if◌then◌else◌,
}
use playbook_redline.Base.Case.{lower, one_of}
use playbook_redline.Base.Decimal.{format_fixed}
use playbook_redline.Base.Int.{pos, negsuc}
use playbook_redline.Canonical.{
  Json, null, bool, int, str, arr, obj, Items, nil, cons, Fields, end, field,
}
use playbook_redline.Canonical.Dict.{get, truthy}

-- `_normalize_order_status`.
pub data OrderStatus : Type 0 where
  placed partially_filled filled cancelled rejected unknown_reconciliation_required : OrderStatus

unfoldable pub normalize_order_status : String → OrderStatus
normalize_order_status raw_status =
    let value = lower raw_status in
    if one_of value ("live" ∷ "new" ∷ "placed" ∷ "init" ∷ "open" ∷ [])
    then placed
    else if one_of value
        ("partially_filled" ∷ "partial-fill" ∷ "partial_filled" ∷ "partfilled" ∷ [])
    then partially_filled
    else if one_of value ("filled" ∷ "full-fill" ∷ "full_filled" ∷ [])
    then filled
    else if one_of value ("cancelled" ∷ "canceled" ∷ "cancel" ∷ [])
    then cancelled
    else if one_of value ("rejected" ∷ "fail" ∷ "failed" ∷ [])
    then rejected
    else unknown_reconciliation_required

abbrev pub order_status_text : OrderStatus → String
order_status_text placed = "placed"
order_status_text partially_filled = "partially_filled"
order_status_text filled = "filled"
order_status_text cancelled = "cancelled"
order_status_text rejected = "rejected"
order_status_text unknown_reconciliation_required = "unknown_reconciliation_required"

abbrev pub secret_keys : List String
secret_keys =
    "access-key" ∷ "access_key" ∷ "secret" ∷ "secret_key" ∷ "passphrase" ∷ "sign" ∷ "signature"
    ∷ "token" ∷ []

-- `key.lower() in {...}`.
abbrev pub is_secret_key : String → Bool
is_secret_key key = one_of (lower key) secret_keys

-- `_redact_secrets`.
unfoldable mutual
  pub redact_secrets : Json → Json
  redact_secrets (obj fs) = obj (redact_fields fs)
  redact_secrets (arr xs) = arr (redact_items xs)
  redact_secrets null = null
  redact_secrets (bool b) = bool b
  redact_secrets (int n) = int n
  redact_secrets (str s) = str s

  pub redact_items : Items → Items
  redact_items nil = nil
  redact_items (cons x xs) = cons (redact_secrets x) (redact_items xs)

  pub redact_fields : Fields → Fields
  redact_fields end = end
  redact_fields (field k v fs) =
      field k (if is_secret_key k then str "***" else redact_secrets v) (redact_fields fs)

abbrev pub number_text : ℕ → String
number_text n = format_fixed n (pos 0)

module _ (repr : Json → String) where
  -- `str(value)`.
  unfoldable pub py_str : Json → String
  py_str null = "None"
  py_str (bool true) = "True"
  py_str (bool false) = "False"
  py_str (int (pos n)) = number_text n
  py_str (int (negsuc n)) = append "-" (format_fixed (n + 1) (pos 0))
  py_str (str s) = s
  py_str (arr xs) = repr (arr xs)
  py_str (obj fs) = repr (obj fs)

  -- `str(fields.get(key) or default)`.
  unfoldable pub text_or : Option Json → String → String
  unfolding py_str
  text_or none default = default
  text_or (some v) default = if truthy v then py_str v else default

  -- `str(fields.get(key, ""))`.
  unfoldable pub text_at : Option Json → String
  unfolding py_str
  text_at none = ""
  text_at (some v) = py_str v

  -- `_is_duplicate_client_oid_response`.
  unfoldable pub is_duplicate_client_oid_response : Json → Bool
  unfolding text_or contains
  is_duplicate_client_oid_response (obj response) =
      let message = lower (text_or (get response "msg") (text_or (get response "message") "")) in
      str_eq (text_or (get response "code") "") "40786"
      || contains (codes "duplicate clientoid") message
      || contains (codes "duplicate client oid") message
  is_duplicate_client_oid_response _ = false

  with_code : String → String → String
  with_code detail String.[] = detail
  with_code detail code = append detail (append " code " code)

  with_message : String → String → String
  with_message detail String.[] = detail
  with_message detail msg = append detail (append ": " (take_text 160 msg))

  failure_detail : ℕ → String
  failure_detail status_code =
      append "Bitget order request failed with HTTP " (number_text status_code)

  -- `_bitget_failure_message`.
  unfoldable pub bitget_failure_message : ℕ → Json → String
  unfolding with_code with_message text_or failure_detail
  bitget_failure_message status_code (obj response) =
      with_message (with_code (failure_detail status_code) (text_or (get response "code") ""))
        (text_or (get response "msg") "")
  bitget_failure_message status_code _ = failure_detail status_code
