-- ===== src/ClusterWait/History.antt =====
-- The looks of RetryGetCluster before the last one, told by the answers of the control plane alone.
use terraform_provider_redpa.Base.{
  ℕ, ◌+◌, ◌≡◌, refl, sym, ap, ◌∙◌, subst, true, inl, inr, none, some, Text,
}
use terraform_provider_redpa.Errors.{GoError, Reply, reply, refused, is_unavailable}
use terraform_provider_redpa.Retry.{RetryError}
use terraform_provider_redpa.Retry.History.{Rests, Asked, first, next}
use terraform_provider_redpa.ClusterWait.{Client, Watch, poll_cluster, watch_world}
use terraform_provider_redpa.ClusterWait.Polling.{AnswerHolds, poll_cluster-holds}

-- A look may begin, after `count` refusals in a row that read as unavailable.
pub data Watched {C W : Type 0} (client : Client C W) (cluster_id : Text) (o₀ : W)
    : ℕ → W → Type 0 where
  begun : Watched client cluster_id o₀ 0 o₀
  seen :
      {count : ℕ} {o s s' s'' : W} {c : C} {r : RetryError}
      → Watched client cluster_id o₀ count o
      → client.cluster_for_id cluster_id o ≡ (reply c, s)
      → client.use_cluster c s ≡ (some r, s')
      → Rests client.world s' s''
      → Watched client cluster_id o₀ 0 s''
  unavailable :
      {count : ℕ} {o s s' : W} {err : GoError}
      → Watched client cluster_id o₀ count o
      → client.cluster_for_id cluster_id o ≡ (refused err, s)
      → is_unavailable (some err) ≡ true
      → Rests client.world s s'
      → Watched client cluster_id o₀ (count + 1) s'

module _ {C W : Type 0} (client : Client C W) (cluster_id : Text) (o₀ : W) where
  abbrev pub start : Watch C W
  start = record { cluster = none; transient_retry_count = 0; outside = o₀ }

  -- The closure's variable counts the refusals.
  abbrev pub IsCounted : Watch C W → Type 0
  IsCounted p = Watched client cluster_id o₀ p.transient_retry_count p.outside

  rested :
      (p q : Watch C W)
      → Rests (watch_world client cluster_id) p q
      → Rests client.world p.outside q.outside × (p.transient_retry_count ≡ q.transient_retry_count)
  rested p q (n, d, e) =
      ((n, d, λ i. ((e i).0.outside, (e i).1)), ap (λ r. r.0.transient_retry_count) e)

  looked :
      (p t u : Watch C W) (e : RetryError) (a : Reply C × W)
      → IsCounted p
      → client.cluster_for_id cluster_id p.outside ≡ a
      → AnswerHolds client cluster_id p a (some e, t)
      → e.retryable ≡ true
      → Rests (watch_world client cluster_id) t u
      → IsCounted u
  looked p t u e (reply c, s) counted asked (kept, reset, used, gone_on) transient rests =
      let (slept, same_count) = rested t u rests in
      let use_is : client.use_cluster c s ≡ (some e, t.outside) =
        λ i. (sym used i, sym gone_on i) in
      subst (λ n. Watched client cluster_id o₀ n u.outside) (sym reset ∙ same_count)
        (seen counted asked use_is slept)
  looked p t u e (refused err, s) counted asked ((not_gone, iff, tally), same_outside) transient
        rests =
      let (slept, same_count) = rested t u rests in
      let is_away : is_unavailable (some err) ≡ true = (iff.0 transient).0 in
      elim tally [
        | inl here ↦ absurd (cc)
        | inr one_more ↦
            subst (λ n. Watched client cluster_id o₀ n u.outside) (sym one_more ∙ same_count)
              (unavailable counted asked is_away
                (subst (λ x. Rests client.world x u.outside) same_outside slept))
      ]

  pub Asked-IsCounted :
      {p : Watch C W}
      → Asked (watch_world client cluster_id) (poll_cluster client cluster_id) start p
      → IsCounted p
  Asked-IsCounted first = begun
  Asked-IsCounted (next {s} {t} {u} e asked called transient rests) =
      looked s t u e (client.cluster_for_id cluster_id s.outside) (Asked-IsCounted asked) refl
        (rw called at (poll_cluster-holds client cluster_id s)) transient rests
