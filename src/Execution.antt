-- ===== src/Execution.antt =====
-- src/redline/sponsor/bitget_execution.py and the execution models of src/redline/models.py: orders
-- sent to the exchange. The exchange is the parameter `transport`, which answers a request and moves
-- the world on; an answer holds what `json.loads` makes of its body.
pub mod Response
pub mod Send
pub mod Attempts
pub mod Query
pub mod Outside
pub mod Status
pub mod Order
pub mod Named
pub mod Allowed
pub mod Safety
pub mod Placed
pub mod Ledger
pub mod Link
pub mod Entries
pub mod Linkage
pub mod Evidence
pub mod Sidecars
use playbook_redline.Base.{ℕ, String, Bool, Option, List}
use playbook_redline.Canonical.{Json}

-- `ExecutionIntent`; the literal types are texts.
pub record ExecutionIntent : Type 0 where
  pub symbol : String
  pub product_type : String
  pub margin_mode : String
  pub margin_coin : String
  pub size : String
  pub side : String
  pub trade_side : Option String
  pub order_type : String
  pub force : Option String
  pub price : Option String
  pub confirm_mainnet_order : Bool

-- `BitgetDemoExecutionAdapter`, with the credentials that its headers show.
pub record Adapter : Type 0 where
  pub access_key : String
  pub passphrase : String
  pub base_url : String
  pub paptrading : String
  pub max_retries : ℕ
  pub allow_mainnet_order : Bool

pub record Request : Type 0 where
  pub method : String
  pub url : String
  pub headers : List (String × String)
  pub body : Option Json

-- A body as `json.loads` reads it.
pub data Body : Type 0 where
  not_json : Body
  json : Json → Body

-- A status code with a body, or an exception of the transport with the name of its type.
pub data Reply : Type 0 where
  answered : ℕ → Body → Reply
  raised : String → Reply

-- A value, ExecutionBlocked with its reason and message, AssertionError, or another exception.
pub data Outcome (A : Type 0) : Type 0 where
  ok : A → Outcome A
  blocked : String → String → Outcome A
  assertion_error crash : Outcome A

-- A call that moves the world on.
abbrev pub Action : Type 0 → Type 0 → Type 0
Action W A = W → W × Outcome A

-- What is done with the outcome of a call: a value goes on, an exception is passed on.
abbrev pub resume : {W A B : Type 0} → (A → Action W B) → W × Outcome A → W × Outcome B
resume f (w, ok a) = f a w
resume f (w, blocked reason message) = (w, blocked reason message)
resume f (w, assertion_error) = (w, assertion_error)
resume f (w, crash) = (w, crash)

infixl 5 ◌>>=◌ ◌>>◌
abbrev pub ◌>>=◌ : {W A B : Type 0} → Action W A → (A → Action W B) → Action W B
◌>>=◌ m f w = resume f (m w)

abbrev pub ◌>>◌ : {W B : Type 0} → Action W (Unit {0}) → Action W B → Action W B
m >> k = m >>= λ _. k

abbrev pub pure : {W A : Type 0} → A → Action W A
pure a w = (w, ok a)

abbrev pub lift : {W A : Type 0} → Outcome A → Action W A
lift r w = (w, r)
