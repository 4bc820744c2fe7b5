-- ===== src/Operation/History.antt =====
-- The polls of AreWeDoneYet before the last one, told by the answers of the server alone.
use terraform_provider_redpa.Base.{ℕ, ◌≡◌, refl, ap, ◌∙◌, subst, Option, some}
use terraform_provider_redpa.Errors.{GoError, Reply, reply, refused}
use terraform_provider_redpa.Retry.{RetryError}
use terraform_provider_redpa.Retry.History.{Rests, Asked, first, next}
use terraform_provider_redpa.Operation.{
  Operation, Server, Poll, get_id, poll_operation, poll_world, receive,
}

-- A poll may begin with the operation `op`, `since` being the time of the last answer that was not a
-- refusal, or of the start.
pub data Polled {W : Type 0} (server : Server W) (op₀ : Option Operation) (o₀ : W)
    : ℕ → Option Operation → W → Type 0 where
  begun : Polled server op₀ o₀ (server.world.now o₀) op₀ o₀
  heard :
      {since : ℕ} {op latest : Option Operation} {o s s' : W}
      → Polled server op₀ o₀ since op o
      → server.get_operation (get_id op) o ≡ (reply latest, s)
      → Rests server.world s s'
      → Polled server op₀ o₀ (server.world.now s) latest s'
  missed :
      {since : ℕ} {op : Option Operation} {o s s' : W} (err : GoError)
      → Polled server op₀ o₀ since op o
      → server.get_operation (get_id op) o ≡ (refused err, s)
      → Rests server.world s s'
      → Polled server op₀ o₀ since op s'

module _ {W : Type 0} (server : Server W) (timeout : ℕ) (op₀ : Option Operation) (o₀ : W) where
  abbrev pub start : Poll W
  start = record { op = op₀; last_successful_poll = server.world.now o₀; outside = o₀ }

  -- The closure's variable is the time of the last answer.
  abbrev pub IsTimed : Poll W → Type 0
  IsTimed p = Polled server op₀ o₀ p.last_successful_poll p.op p.outside

  rested :
      (p q : Poll W)
      → Rests (poll_world server timeout) p q
      → Rests server.world p.outside q.outside
        × (p.op ≡ q.op)
        × (p.last_successful_poll ≡ q.last_successful_poll)
  rested p q (n, d, e) = (
    (n, d, λ i. ((e i).0.outside, (e i).1)),
    ap (λ r. r.0.op) e,
    ap (λ r. r.0.last_successful_poll) e,
  )

  answered :
      (p t u : Poll W) (e : RetryError) (a : Reply (Option Operation) × W)
      → IsTimed p
      → server.get_operation (get_id p.op) p.outside ≡ a
      → receive server timeout p a ≡ (some e, t)
      → Rests (poll_world server timeout) t u
      → IsTimed u
  answered p t u e (reply latest, s) timed asked got rests =
      let (slept, same_op, same_time) = rested t u rests in
      let op_is : latest ≡ u.op = ap (λ r. r.1.op) got ∙ same_op in
      let time_is : server.world.now s ≡ u.last_successful_poll =
        ap (λ r. r.1.last_successful_poll) got ∙ same_time in
      let slept_there : Rests server.world s u.outside = rw (ap (λ r. r.1.outside) got) slept in
      subst (λ op. Polled server op₀ o₀ u.last_successful_poll op u.outside) op_is
        (subst (λ t. Polled server op₀ o₀ t latest u.outside) time_is
          (heard timed asked slept_there))
  answered p t u e (refused err, s) timed asked got rests =
      let (slept, same_op, same_time) = rested t u rests in
      let op_is : p.op ≡ u.op = ap (λ r. r.1.op) got ∙ same_op in
      let time_is : p.last_successful_poll ≡ u.last_successful_poll =
        ap (λ r. r.1.last_successful_poll) got ∙ same_time in
      let slept_there : Rests server.world s u.outside = rw (ap (λ r. r.1.outside) got) slept in
      subst (λ op. Polled server op₀ o₀ u.last_successful_poll op u.outside) op_is
        (subst (λ t. Polled server op₀ o₀ t p.op u.outside) time_is
          (missed err timed asked slept_there))

  pub Asked-IsTimed :
      {p : Poll W}
      → Asked (poll_world server timeout) (poll_operation server timeout) start p
      → IsTimed p
  unfolding poll_operation
  Asked-IsTimed first = begun
  Asked-IsTimed (next {s} {t} {u} e asked called transient rests) =
      answered s t u e (server.get_operation (get_id s.op) s.outside) (Asked-IsTimed asked) refl
        called rests
