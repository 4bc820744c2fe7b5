-- ===== src/Retry/History.antt =====
-- The rounds of redpanda/utils/retry.go's loop before its last one.
use terraform_provider_redpa.Base.{
  ℕ, zero, suc, ◌≡◌, ◌^◌, refl, true, false, Option, none, some, Bool-cases, ltb, inl, inr, ◌||◌,
  leb, ◌==◌,
}
use terraform_provider_redpa.Errors.{GoError}
use terraform_provider_redpa.Retry.{
  World, RetryError, RetryResult, succeeded, gave_up, timed_out, cancelled, panicked, Backoff, Next,
  stop, again, next_backoff, round, judge, pause, woken, retry_loop, retry,
}

-- A random number is drawn, and a wait is not cancelled.
abbrev pub Rests : {S : Type 0} → World S → S → S → Type 0
Rests w s s' = (n : ℕ) × (d : ℕ) × (w.wait d (w.rand n s).1 ≡ (s', none))

-- The states in which a round may begin, when the loop begins in `start`.
pub data Asked {S : Type 0} (w : World S) (f : S → Option RetryError × S) (start : S)
    : S → Type 0 where
  first : Asked w f start start
  next :
      {s t u : S} (e : RetryError)
      → Asked w f start s
      → f s ≡ (some e, t)
      → e.retryable ≡ true
      → Rests w t u
      → Asked w f start u

module _ {S : Type 0} (w : World S) (f : S → Option RetryError × S) (timeout initial most : ℕ) where
  -- What the last round found, by the result.
  abbrev pub Last : S → RetryResult → S → Type 0
  Last s succeeded s' = f s ≡ (none, s')
  Last s (gave_up err) s' =
      (e : RetryError) × (f s ≡ (some e, s')) × (e.err ≡ err) × (e.retryable ≡ false)
  Last s (timed_out t err) s' = (e : RetryError) × (f s ≡ (some e, s')) × (e.retryable ≡ true)
  Last s (cancelled err) s' =
      (e : RetryError) × (t : S) × (f s ≡ (some e, t)) × (e.retryable ≡ true)
  Last s panicked s' = Unit

  -- A round ends the loop, or leads to the next one.
  abbrev Leads : S → Next S → Type 0
  Leads s (stop r s') = Last s r s'
  Leads s (again b u) =
      (e : RetryError) × (t : S) × (f s ≡ (some e, t)) × (e.retryable ≡ true) × Rests w t u

  woken-Leads :
      (s t u : S) (e : RetryError) (n d : ℕ) (b : Backoff) (o : S × Option GoError)
      → f s ≡ (some e, t)
      → e.retryable ≡ true
      → w.wait d (w.rand n t).1 ≡ o
      → Leads s (woken w f timeout initial most b o)
  woken-Leads s t u e n d b (v, none) called transient rested =
      (e, t, called, transient, (n, d, rested))
  woken-Leads s t u e n d b (v, some cause) called transient rested = (e, t, called, transient)

  pause-Leads :
      (s t : S) (e : RetryError) (b : Backoff)
      → f s ≡ (some e, t)
      → e.retryable ≡ true
      → Leads s (pause w f timeout initial most b t)
  pause-Leads s t e b called transient =
      elim (Bool-cases (b.wait_unit == 0 || leb (2 ^ 63) b.wait_unit)) [
        | inl bad ↦ rw bad tt
        | inr good ↦ rw good (woken-Leads s t t e _ _ b _ called transient refl)
      ]

  judge-Leads :
      (end_time : ℕ) (b : Backoff) (s : S) (o : Option RetryError × S)
      → f s ≡ o
      → Leads s (judge w f timeout initial most end_time b o)
  judge-Leads end_time b s (none, t) called = called
  judge-Leads end_time b s (some e, t) called = elim (Bool-cases e.retryable) [
    | inr final ↦ rw final (e, called, refl, final)
    | inl transient ↦ rw transient (elim (Bool-cases (ltb end_time (w.now t))) [
      | inl late ↦ rw late (e, called, transient)
      | inr early ↦
          rw early (pause-Leads s t e (next_backoff initial most e.err.text b) called transient)
    ])
  ]

  round-Leads :
      (end_time : ℕ) (b : Backoff) (s : S) → Leads s (round w f timeout initial most end_time b s)
  unfolding round
  round-Leads end_time b s = judge-Leads end_time b s (f s) refl

  abbrev pub Ended : S → RetryResult → S → Type 0
  Ended start r s' = (s : S) × Asked w f start s × Last s r s'

  retry_loop-Ended :
      (start : S) (fuel end_time : ℕ) (b : Backoff) (s : S) (r : RetryResult) (s' : S)
      → Asked w f start s
      → retry_loop w f timeout initial most fuel end_time b s ≡ some (r, s')
      → Ended start r s'
  unfolding retry_loop
  retry_loop-Ended start zero end_time b s r s' asked e = absurd (cc)
  retry_loop-Ended start (suc fuel) end_time b s r s' asked e =
      went (round w f timeout initial most end_time b s) refl (round-Leads end_time b s)
        (λ b' u asked' e'. retry_loop-Ended start fuel end_time b' u r s' asked' e')
    where
      went :
          (n : Next S)
          → round w f timeout initial most end_time b s ≡ n
          → Leads s n
          → ((b' : Backoff) (u : S)
              → Asked w f start u
              → retry_loop w f timeout initial most fuel end_time b' u ≡ some (r, s')
              → Ended start r s')
          → Ended start r s'
      went (stop q t) h leads further =
          let same_end : ◌≡◌ {A = Option (RetryResult × S)} (some (q, t)) (some (r, s')) =
            rw (retry_loop, h) at e in
          let same_result : q ≡ r = cc in
          let same_state : t ≡ s' = cc in (s, asked, rw (same_result, same_state) at leads)
      went (again b' u) h (x, t, called, transient, rested) further =
          further b' u (next x asked called transient rested) (rw (retry_loop, h) at e)

  -- The last round of the loop, and those before it.
  pub retry-Ended :
      (fuel : ℕ) (s : S) (r : RetryResult) (s' : S)
      → retry w f timeout initial most fuel s ≡ some (r, s')
      → Ended s r s'
  unfolding retry
  retry-Ended fuel s r s' e = retry_loop-Ended s fuel _ _ s r s' first e
