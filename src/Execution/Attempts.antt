-- ===== src/Execution/Attempts.antt =====
-- src/redline/sponsor/bitget_execution.py: how often `_send` calls the transport, and how it ends.
use playbook_redline.Base.{
  ℕ, zero, suc, ◌+◌, ◌≤◌, String, ◌≡◌, ◌≢◌, refl, inl, inr, Bool, true, not, ◌&&◌, ◌||◌, Option,
  none, some, leb, ltb, arith, Bool-cases,
}
use playbook_redline.Execution.{Request, Body, Reply, answered, raised, Outcome, assertion_error}
use playbook_redline.Execution.Send.{
  fail_with, is_cancelled, Next, again, stop, return, follow, after_reply, attempts, send,
}

-- A reply after which a request may be sent again.
abbrev pub Retriable : Bool → Reply → Type 0
Retriable retry (answered status_code body) = 500 ≤ status_code
Retriable retry (raised name) = retry ≡ true

-- A number of calls of the transport with one request, each but the last with a retriable reply.
pub data Attempted {W : Type 0} (transport : Request → W → W × Reply) (retry : Bool)
    (request : Request) : ℕ → W → W → Type 0 where
  no_call : {w : W} → Attempted transport retry request 0 w w
  last_call : {w : W} → Attempted transport retry request 1 w (transport request w).0
  next_call :
      {n : ℕ} {w u : W}
      → Retriable retry (transport request w).1
      → Attempted transport retry request n (transport request w).0 u
      → Attempted transport retry request (suc n) w u

-- What `after_reply` makes of a reply.
abbrev Judged : ℕ → Bool → ℕ → Option String → Reply → Next → Type 0
Judged max_retries retry attempt last_error reply (again last) =
    Retriable retry reply × ((last ≡ none) → attempt + 1 ≤ max_retries)
Judged max_retries retry attempt last_error reply (stop last) = last ≢ none
Judged max_retries retry attempt last_error reply (return status_code body) = Unit

after_reply-Judged :
    (max_retries : ℕ) (retry : Bool) (attempt : ℕ) (last_error : Option String) (reply : Reply)
    → Judged max_retries retry attempt last_error reply
        (after_reply max_retries retry attempt last_error reply)
unfolding after_reply
after_reply-Judged max_retries retry attempt last_error (answered status_code body) =
    elim (Bool-cases (leb 500 status_code && ltb attempt max_retries)) [
      | inl h ↦ rw h ((ground arith, λ e. ground arith))
      | inr h ↦ rw h tt
    ]
after_reply-Judged max_retries retry attempt last_error (raised name) =
    elim (Bool-cases (leb max_retries attempt || not retry)) [
      | inl h ↦ rw h (λ e. cc)
      | inr h ↦ rw h ((ground arith, λ e. cc))
    ]

module _ {W : Type 0} (transport : Request → W → W × Reply) (max_retries : ℕ) (retry : Bool)
    (request : Request) (cancelled : Option (W → Bool)) where
  -- A bounded number of calls, after which no assertion has failed.
  abbrev pub Bounded : ℕ → W → W × Outcome (ℕ × Body) → Type 0
  Bounded most w r =
      (n : ℕ) × (n ≤ most) × Attempted transport retry request n w r.0 × (r.1 ≢ assertion_error)

  fail_with-ne : (last : Option String) → last ≢ none → fail_with last ≢ assertion_error
  fail_with-ne none h e = h refl
  fail_with-ne (some name) h e = cc

  follow-Bounded :
      (left attempt : ℕ) (last_error : Option String) (w : W) (next : Next)
      (more : Option String → W × Outcome (ℕ × Body))
      → Judged max_retries retry attempt last_error (transport request w).1 next
      → left + suc attempt ≡ max_retries + 1
      → ((last : Option String)
          → ((left ≡ 0) → last ≢ none)
          → Bounded left (transport request w).0 (more last))
      → Bounded (suc left) w (follow next (transport request w).0 more)
  follow-Bounded left attempt last_error w (again last) more (retriable, below) total rest =
      let (n, le, calls, no_assertion) = rest last (λ z e. omega (arith, total, below e, z)) in
      (suc n, omega (arith, le), next_call retriable calls, no_assertion)
  follow-Bounded left attempt last_error w (stop last) more j total rest =
      (1, omega arith, last_call, fail_with-ne last j)
  follow-Bounded left attempt last_error w (return status_code body) more j total rest =
      (1, omega arith, last_call, λ e. cc)

  attempts-Bounded :
      (left attempt : ℕ) (last_error : Option String) (w : W)
      → left + attempt ≡ max_retries + 1
      → ((left ≡ 0) → last_error ≢ none)
      → Bounded left w
          (attempts transport max_retries retry left attempt last_error request cancelled w)
  unfolding attempts
  attempts-Bounded zero attempt last_error w total h =
      (0, omega arith, no_call, fail_with-ne last_error (h refl))
  attempts-Bounded (suc left) attempt last_error w total h =
      elim (Bool-cases (is_cancelled cancelled w)) [
        | inl y ↦ rw (y, attempts) ((0, omega arith, no_call, λ e. cc))
        | inr n ↦
            rw (n, attempts)
              (follow-Bounded left attempt last_error w _ _
                (after_reply-Judged max_retries retry attempt last_error (transport request w).1)
                (omega (arith, total))
                (λ last z.
                  attempts-Bounded left (suc attempt) last (transport request w).0
                    (omega (arith, total)) z))
      ]

  -- `_send` returns or raises after at most `max_retries + 1` calls of the transport, all of them with
  -- its request; it calls again only after a status of 500 or more, or after an exception if those are
  -- retried; and its assertion on `last_error` does not fail.
  pub send-Bounded :
      (w : W) → Bounded (max_retries + 1) w (send transport max_retries retry request cancelled w)
  unfolding send
  send-Bounded w =
      attempts-Bounded (max_retries + 1) 0 none w (omega arith) (λ z e. omega (arith, z))
