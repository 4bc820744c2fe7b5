-- ===== src/Operation/Polling.antt =====
-- One poll: what it makes of the server's answer.
use terraform_provider_redpa.Base.{
  ℕ, ◌-◌, ◌*◌, ◌/◌, ◌≤◌, ◌≡◌, refl, ◌≢◌, ◌↔◌, ◌⊎◌, inl, inr, true, false, Option, none, some, arith,
  ltb, Bool-cases,
}
use terraform_provider_redpa.Errors.{GoError, Reply, reply, refused, is_transient_server_error}
use terraform_provider_redpa.Retry.{RetryError}
use terraform_provider_redpa.Operation.{
  Operation, completed, failed, Server, Poll, get_id, stuck_cap, max_stuck, verdict, poll_operation,
  on_error, receive,
}

-- The window is at most five minutes and at most a sixth of the timeout, and is one of the two.
pub stuck_cap_lem :
    (timeout : ℕ)
    → (stuck_cap timeout ≤ max_stuck)
      × (6 * stuck_cap timeout ≤ timeout)
      × ((stuck_cap timeout ≡ max_stuck) ⊎ (stuck_cap timeout ≡ timeout / 6))
unfolding stuck_cap
stuck_cap_lem timeout = ground arith

-- An operation that is there and completed, or an answer without one.
abbrev pub IsDone : Option Operation → Type 0
IsDone op = (op ≡ none) ⊎ ((o : Operation) × (op ≡ some o) × (o.state ≡ completed))

pub verdict-IsDone : (op : Option Operation) → verdict op ≡ none → IsDone op
unfolding verdict
verdict-IsDone none h = inl refl
verdict-IsDone (some op) h = inr (op, refl, ground arith)

pub verdict-some :
    (op : Option Operation) {r : RetryError}
    → verdict op ≡ some r
    → (o : Operation) × (op ≡ some o)
      × (o.state ≢ completed)
      × ((r.retryable ≡ false) ↔ (o.state ≡ failed))
unfolding verdict
verdict-some none h = cc
verdict-some (some op) {r} h = (op, refl, ground arith, ground arith)

module _ {W : Type 0} (server : Server W) (timeout : ℕ) where
  -- A refusal is retried exactly if it is transient and the last success is at most five minutes
  -- and at most a sixth of the timeout ago.
  abbrev pub Tolerated : ℕ → GoError → ℕ → Type 0
  Tolerated since err now =
      (is_transient_server_error (some err) ≡ true)
      × (now - since ≤ 300000000000)
      × (6 * (now - since) ≤ timeout)

  pub on_error-retryable :
      (p : Poll W) (err : GoError) (now : ℕ)
      → (r : RetryError) × (on_error server timeout err (now - p.last_successful_poll) ≡ some r)
        × ((r.retryable ≡ true) ↔ Tolerated p.last_successful_poll err now)
  unfolding on_error stuck_cap
  on_error-retryable p err now = elim (Bool-cases (is_transient_server_error (some err))) [
    | inr final ↦ rw final (_, refl, ground arith)
    | inl transient ↦
        rw transient (elim (Bool-cases (ltb (stuck_cap timeout) (now - p.last_successful_poll))) [
          | inl stuck ↦ rw stuck (_, refl, ground arith)
          | inr fresh ↦ rw fresh (_, refl, ground arith)
        ])
  ]

  -- What a poll makes of an answer.
  abbrev pub AnswerHolds : Poll W → Reply (Option Operation) → Option RetryError × Poll W → Type 0
  AnswerHolds p (reply op) (e, p') =
      (p'.op ≡ op) × (p'.last_successful_poll ≡ server.world.now p'.outside) × (e ≡ verdict op)
  AnswerHolds p (refused err) (e, p') =
      (p'.op ≡ p.op)
      × (p'.last_successful_poll ≡ p.last_successful_poll)
      × ((r : RetryError) × (e ≡ some r)
          × ((r.retryable ≡ true)
              ↔ Tolerated p.last_successful_poll err (server.world.now p'.outside)))

  receive-holds :
      (p : Poll W) (a : Reply (Option Operation) × W)
      → AnswerHolds p a.0 (receive server timeout p a)
  receive-holds p (reply op, o) = (refl, refl, refl)
  receive-holds p (refused err, o) = (refl, refl, on_error-retryable p err (server.world.now o))

  -- A poll stores what the server answered and restarts the window, or keeps both when the server
  -- refused; then it is retried exactly if the refusal is tolerated.
  pub poll_operation-holds :
      (p : Poll W)
      → AnswerHolds p
          (server.get_operation (get_id p.op) p.outside).0
          (poll_operation server timeout p)
  unfolding poll_operation
  poll_operation-holds p = receive-holds p (server.get_operation (get_id p.op) p.outside)
