-- ===== src/Execution/Send.antt =====
-- src/redline/sponsor/bitget_execution.py: `_send`, the loop of attempts. The pause between two attempts
-- is left out.
use playbook_redline.Base.{
  ℕ, zero, suc, ◌+◌, String, Bool, true, false, not, ◌&&◌, ◌||◌, Option, none, some, leb, ltb,
  if◌then◌else◌,
}
use playbook_redline.Execution.{
  Request, Body, Reply, answered, raised, Outcome, ok, blocked, assertion_error, Action,
}

-- After the loop: `last_error` is the name of the last exception of the transport.
abbrev pub fail_with : Option String → Outcome (ℕ × Body)
fail_with none = assertion_error
fail_with (some name) = blocked "BITGET_TRANSPORT_ERROR" name

abbrev pub cancelled_error : Outcome (ℕ × Body)
cancelled_error = blocked "BITGET_ORDER_CANCELLED" "Bitget order request was cancelled"

-- `cancelled is not None and cancelled()`.
abbrev pub is_cancelled : {W : Type 0} → Option (W → Bool) → W → Bool
is_cancelled none w = false
is_cancelled (some cancelled) w = cancelled w

-- What an attempt ends in: another one, the end of the loop, or the answer.
pub data Next : Type 0 where
  again stop : Option String → Next
  return : ℕ → Body → Next

module _ (max_retries : ℕ) (retry_transport_errors : Bool) where
  unfoldable pub after_reply : ℕ → Option String → Reply → Next
  after_reply attempt last_error (answered status_code body) =
      if leb 500 status_code && ltb attempt max_retries
      then again last_error
      else return status_code body
  after_reply attempt last_error (raised name) =
      if leb max_retries attempt || not retry_transport_errors
      then stop (some name)
      else again (some name)

-- The rest of the loop after an attempt.
abbrev pub follow :
    {W : Type 0} → Next → W → (Option String → W × Outcome (ℕ × Body)) → W × Outcome (ℕ × Body)
follow (again last) w more = more last
follow (stop last) w more = (w, fail_with last)
follow (return status_code body) w more = (w, ok (status_code, body))

module _ {W : Type 0} (transport : Request → W → W × Reply) (max_retries : ℕ)
    (retry_transport_errors : Bool) where
  -- The attempts from a number on, with how many are left.
  unfoldable pub attempts :
      ℕ → ℕ → Option String → Request → Option (W → Bool) → Action W (ℕ × Body)
  unfolding after_reply
  attempts zero attempt last_error request cancelled w = (w, fail_with last_error)
  attempts (suc left) attempt last_error request cancelled w = elim (is_cancelled cancelled w) [
    | true ↦ (w, cancelled_error)
    | false ↦
        let (w', reply) = transport request w in
        follow (after_reply max_retries retry_transport_errors attempt last_error reply) w'
          (λ last. attempts left (suc attempt) last request cancelled w')
  ]

  -- `_send`.
  unfoldable pub send : Request → Option (W → Bool) → Action W (ℕ × Body)
  unfolding attempts
  send request cancelled = attempts (max_retries + 1) 0 none request cancelled
