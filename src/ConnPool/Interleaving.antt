-- ===== src/ConnPool/Interleaving.antt =====
-- The pool under many callers: any stretch of code may come next. singleflight runs at most one
-- call for a URL at a time (its documented behaviour).
use terraform_provider_redpa.Base.{ℕ, ◌≡◌, none, some, Text, lookup}
use terraform_provider_redpa.ConnPool.{
  Connectivity, looking, dialing, dialed, Pool, new_conn_pool, take_pooled, double_check, spawn_ok,
  spawn_failed, store, close_all, begin_flight,
}

pub data Step (p : Pool) : Pool → Type 0 where
  first_look : (state : Connectivity) (url : Text) → Step p (take_pooled state url p).0
  start : (url : Text) → lookup url p.flights ≡ none → Step p (begin_flight url p)
  second_look :
      (state : Connectivity) (url : Text)
      → lookup url p.flights ≡ some looking
      → Step p (double_check state url p).0
  spawn : (url : Text) → lookup url p.flights ≡ some dialing → Step p (spawn_ok url p)
  fail : (url : Text) → lookup url p.flights ≡ some dialing → Step p (spawn_failed url p)
  keep :
      (url : Text) (conn : ℕ)
      → lookup url p.flights ≡ some (dialed conn)
      → Step p (store url conn p)
  close : Step p (close_all p)

pub data Reach : Pool → Type 0 where
  opened : Reach new_conn_pool
  step : {p q : Pool} → Reach p → Step p q → Reach q
