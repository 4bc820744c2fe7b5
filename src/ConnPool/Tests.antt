-- ===== src/ConnPool/Tests.antt =====
-- Two callers of one URL, and a caller alone.
use terraform_provider_redpa.Base.{
  ◌≡◌, refl, none, [], ◌∷◌, Text, codes, same, lookup, insert, delete,
}
use terraform_provider_redpa.Errors.{reply}
use terraform_provider_redpa.ConnPool.{
  idle, transient_failure, Pool, new_conn_pool, is_healthy, take_pooled, double_check, spawn_ok,
  store, begin_flight, get_connection,
}
use terraform_provider_redpa.ConnPool.Interleaving.{
  start, second_look, spawn, keep, Reach, opened, step,
}
use terraform_provider_redpa.ConnPool.Invariant.{IsSound}
use terraform_provider_redpa.ConnPool.Reachable.{Reach-IsSound}
use terraform_provider_redpa.ConnPool.Sequential.{Served, get_connection-Served}

abbrev site : Text
site = codes "a:443"

abbrev one_pooled : Pool
one_pooled = record { conns = (site, 0) ∷ []; flights = []; closed = []; next = 1 }

dialed_once : (get_connection idle idle none site new_conn_pool) ≡ (one_pooled, reply 0)
unfolding get_connection take_pooled double_check spawn_ok store new_conn_pool lookup insert delete
    same
dialed_once = refl

abbrev evicting : Pool
evicting = (double_check transient_failure site (begin_flight site one_pooled)).0

two_callers : Reach (store site 1 (spawn_ok site evicting))
unfolding take_pooled double_check spawn_ok store new_conn_pool lookup insert delete same is_healthy
two_callers =
    step
      (step
        (step
          (step
            (step
              (step (step (step opened (start site refl)) (second_look idle site refl))
                (spawn site refl))
              (keep site 0 refl))
            (start site refl))
          (second_look transient_failure site refl))
        (spawn site refl))
      (keep site 1 refl)

Reach-IsSound_example : IsSound (store site 1 (spawn_ok site evicting))
Reach-IsSound_example = Reach-IsSound two_callers

get_connection-Served_example :
    Served site none (get_connection transient_failure idle none site one_pooled)
get_connection-Served_example = get_connection-Served site transient_failure idle none one_pooled
