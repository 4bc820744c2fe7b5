-- ===== src/Retry/Round.antt =====
-- One round of the loop: what it needs to go on, and how it can end.
use terraform_provider_redpa.Base.{
  ◌||◌, leb, ℕ, ◌+◌, ◌/◌, ◌^◌, ◌≤◌, ◌<◌, ◌≡◌, refl, inl, inr, true, false, Option, none, some,
  arith, ltb, ◌==◌, ltb→lt, Bool-cases, Text,
}
use terraform_provider_redpa.Errors.{GoError}
use terraform_provider_redpa.Retry.{
  World, RetryError, RetryResult, succeeded, gave_up, timed_out, cancelled, panicked, Backoff, Next,
  stop, again, next_backoff, round, woken, pause, judge,
}

-- Documented behaviour of the outside: the clock does not run backwards, `rand.Int64N(n)` lies below
-- n, and a wait that is not cut short lasts.
pub record IsClock {S : Type 0} (w : World S) (f : S → Option RetryError × S) : Type 0 where
  pub call_later : (s : S) → w.now s ≤ w.now (f s).1
  pub rand_later : (n : ℕ) (s : S) → w.now s ≤ w.now (w.rand n s).1
  pub rand_below : (n : ℕ) (s : S) → 0 < n → (w.rand n s).0 < n
  pub wait_lasts : (d : ℕ) (s : S) → (w.wait d s).1 ≡ none → w.now s + d ≤ w.now (w.wait d s).0

-- Backoff limits under which the arithmetic on int64 is exact and no wait is empty.
pub record IsSane (initial most : ℕ) : Type 0 where
  pub initial_pos : 2 ≤ initial
  pub most_pos : 2 ≤ most
  pub initial_small : initial < 2 ^ 62
  pub most_small : most < 2 ^ 62

abbrev pub InRange : Backoff → Type 0
InRange b = (2 ≤ b.wait_unit) × (b.wait_unit < 2 ^ 62)

pub next_backoff-InRange :
    {initial most : ℕ} (message : Text) (b : Backoff)
    → IsSane initial most
    → InRange b
    → InRange (next_backoff initial most message b)
unfolding next_backoff
next_backoff-InRange {initial} {most} message b sane h = ground arith

module _ {S : Type 0} (w : World S) (f : S → Option RetryError × S) (timeout initial most : ℕ) where
  -- What a result says about the last call of `f`, or about the clock.
  abbrev pub Explains : ℕ → RetryResult → S → Type 0
  Explains end_time succeeded s = (s₀ : S) × (f s₀ ≡ (none, s))
  Explains end_time (gave_up e) s =
      (s₀ : S) × (r : RetryError) × (f s₀ ≡ (some r, s)) × (r.err ≡ e) × (r.retryable ≡ false)
  Explains end_time (timed_out t e) s =
      (s₀ : S) × (r : RetryError) × (f s₀ ≡ (some r, s))
      × (r.err ≡ e)
      × (r.retryable ≡ true)
      × (t ≡ timeout)
      × (end_time < w.now s)
  Explains end_time (cancelled e) s = (d : ℕ) × (s₀ : S) × (w.wait d s₀ ≡ (s, some e))
  Explains end_time panicked s = ⊥

  -- What a round guarantees, by how it goes on.
  abbrev pub RoundHolds : ℕ → S → Next S → Type 0
  RoundHolds end_time s (stop r s') = Explains end_time r s'
  RoundHolds end_time s (again b s') = (w.now s ≤ end_time) × (w.now s < w.now s') × InRange b

  module _ (clock : IsClock w f) (sane : IsSane initial most) where
    woken-holds :
        (end_time d : ℕ) (b : Backoff) (s₁ s : S) (o : S × Option GoError)
        → w.wait d s₁ ≡ o
        → InRange b
        → w.now s ≤ end_time
        → w.now s < w.now s₁ + d
        → RoundHolds end_time s (woken w f timeout initial most b o)
    woken-holds end_time d b s₁ s (s₂, none) e h p q =
        (p, omega (arith, rw e at (clock.wait_lasts d s₁) refl), h)
    woken-holds end_time d b s₁ s (s₂, some cause) e h p q = (d, s₁, e)

    pause-holds :
        (end_time : ℕ) (b : Backoff) (s₁ s : S)
        → InRange b
        → w.now s ≤ w.now s₁
        → w.now s ≤ end_time
        → RoundHolds end_time s (pause w f timeout initial most b s₁)
    pause-holds end_time b s₁ s h later p =
        let positive : (b.wait_unit == 0 || leb (2 ^ 63) b.wait_unit) ≡ false = ground arith in
        rw positive (
          woken-holds end_time (b.wait_unit / 2 + (w.rand b.wait_unit s₁).0) b
            (w.rand b.wait_unit s₁).1 s _ refl h p (omega (arith, clock.rand_later b.wait_unit s₁)))

    judge-holds :
        (end_time : ℕ) (b : Backoff) (s : S) (o : Option RetryError × S)
        → f s ≡ o
        → InRange b
        → RoundHolds end_time s (judge w f timeout initial most end_time b o)
    judge-holds end_time b s (none, s₁) e h = (s, e)
    judge-holds end_time b s (some err, s₁) e h = elim (Bool-cases err.retryable) [
      | inr final ↦ rw final (s, err, e, refl, final)
      | inl transient ↦ rw transient (elim (Bool-cases (ltb end_time (w.now s₁))) [
        | inl late ↦ rw late (s, err, e, refl, transient, refl, ltb→lt _ _ late)
        | inr early ↦
            let later : w.now s ≤ w.now s₁ = rw e at (clock.call_later s) in
            rw early (
              pause-holds end_time (next_backoff initial most err.err.text b) s₁ s
                (next_backoff-InRange err.err.text b sane h) later (ground arith))
      ])
    ]

    -- A round ends the loop with an explained result, or takes time and goes on in range.
    pub round-holds :
        (end_time : ℕ) (b : Backoff) (s : S)
        → InRange b
        → RoundHolds end_time s (round w f timeout initial most end_time b s)
    unfolding round
    round-holds end_time b s h = judge-holds end_time b s (f s) refl h
