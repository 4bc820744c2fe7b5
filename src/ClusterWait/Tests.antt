-- ===== src/ClusterWait/Tests.antt =====
-- Waiting for a cluster that appears after two refusals.
use terraform_provider_redpa.Base.{
  ℕ, ◌+◌, ◌≤◌, ◌≡◌, none, some, List, [], ◌∷◌, ◌++◌, arith, Text, codes,
}
use terraform_provider_redpa.Errors.{plain_error, Reply, reply, refused}
use terraform_provider_redpa.Retry.{RetryResult}
use terraform_provider_redpa.Retry.Round.{IsSane}
use terraform_provider_redpa.ClusterWait.{Client, Watch, retry_get_cluster}
use terraform_provider_redpa.ClusterWait.Outcome.{IsClientClock, Concludes, retry_get_cluster_ends}

abbrev Script : Type 0
Script = ℕ × List (Reply ℕ)

abbrev answer : Text → Script → Reply ℕ × Script
answer id (t, []) = (reply 1, (t, []))
answer id (t, a ∷ rest) = (a, (t, rest))

abbrev scripted : Client ℕ Script
scripted = record {
  world = record { now = λ s. s.0; rand = λ n s. (0, s); wait = λ d s. ((s.0 + d, s.1), none) };
  cluster_for_id = answer;
  use_cluster = λ c s. (none, s);
  wrap = λ text err. record err { text = text ++ err.text };
}

answer-later : (id : Text) (s : Script) → s.0 ≤ (answer id s).1.0
answer-later id (t, []) = omega arith
answer-later id (t, a ∷ rest) = omega arith

scripted-IsClientClock : IsClientClock scripted
scripted-IsClientClock = record {
  look_later = answer-later;
  use_later = λ c s. omega arith;
  rand_later = λ n s. omega arith;
  rand_below = λ n s h. h;
  wait_lasts = λ d s e. omega arith;
}

abbrev away : Reply ℕ
away = refused (plain_error (codes "503"))

small-IsSane : IsSane 10 40
small-IsSane = record {
  initial_pos = omega arith;
  most_pos = omega arith;
  initial_small = omega arith;
  most_small = omega arith;
}

retry_get_cluster_ends_example :
    (r : RetryResult) × (p : Watch ℕ Script) × (retry_get_cluster scripted
        (codes "c1")
        100
        10
        40
        102
        (0, away ∷ away ∷ [])
      ≡ some (r, p))
    × Concludes scripted (codes "c1") scripted-IsClientClock (0, away ∷ away ∷ []) 100 r p
retry_get_cluster_ends_example =
    retry_get_cluster_ends scripted (codes "c1") scripted-IsClientClock 100 (0, away ∷ away ∷ [])
      small-IsSane

abbrev start : Watch ℕ Script
start = record { cluster = none; transient_retry_count = 9; outside = (0, away ∷ []) }
