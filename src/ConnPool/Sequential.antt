-- ===== src/ConnPool/Sequential.antt =====
-- GetConnection of one caller.
use terraform_provider_redpa.Base.{
  ℕ, ◌≡◌, refl, inl, inr, true, Option, none, some, Bool-cases, Text, same_refl, lookup,
  lookup-insert, lookup-delete,
}
use terraform_provider_redpa.Errors.{GoError, Reply, reply, refused}
use terraform_provider_redpa.ConnPool.{
  Connectivity, Pool, is_healthy, take_pooled, double_check, spawn_ok, spawn_failed, store, look,
  after_look, begin_flight, get_connection, fast_path, slow_path,
}

module _ (url : Text) where
  -- A call that returns a connection leaves it in the map; a call that fails leaves no connection
  -- for the URL, and reports the error of the dial.
  abbrev pub Served : Option GoError → Pool × Reply ℕ → Type 0
  Served spawned (p, reply c) = lookup url p.conns ≡ some c
  Served spawned (p, refused err) = (spawned ≡ some err) × (lookup url p.conns ≡ none)

  abbrev LookedUp : Pool × Option ℕ → Type 0
  LookedUp (p, o) = lookup url p.conns ≡ o

  look-LookedUp :
      (state : Connectivity) (p : Pool) (o : Option ℕ)
      → lookup url p.conns ≡ o
      → LookedUp (look state url p o)
  look-LookedUp state p none e = e
  look-LookedUp state p (some c) e = elim (Bool-cases (is_healthy state)) [
    | inl fit ↦ rw fit e
    | inr unfit ↦ rw (unfit, lookup-delete url url, same_refl url)
  ]

  take_pooled-LookedUp : (state : Connectivity) (p : Pool) → LookedUp (take_pooled state url p)
  unfolding take_pooled
  take_pooled-LookedUp state p = look-LookedUp state p (lookup url p.conns) refl

  after_look-LookedUp : (r : Pool × Option ℕ) → LookedUp r → LookedUp (after_look url r)
  after_look-LookedUp (p, none) e = e
  after_look-LookedUp (p, some c) e = e

  slow_path-Served :
      (spawned : Option GoError) (r : Pool × Option ℕ)
      → LookedUp r
      → Served spawned (slow_path spawned url r)
  unfolding spawn_ok spawn_failed store
  slow_path-Served none (p, none) e = rw (lookup-insert url url, same_refl url)
  slow_path-Served (some err) (p, none) e = (refl, e)
  slow_path-Served none (p, some c) e = e
  slow_path-Served (some err) (p, some c) e = e

  fast_path-Served :
      (again : Connectivity) (spawned : Option GoError) (r : Pool × Option ℕ)
      → LookedUp r
      → Served spawned (fast_path again spawned url r)
  unfolding double_check
  fast_path-Served again spawned (p, some c) e = e
  fast_path-Served again spawned (p, none) e =
      slow_path-Served spawned _
        (after_look-LookedUp _ (take_pooled-LookedUp again (begin_flight url p)))

  -- Whatever state the pool and the connections are in, a call that returns a connection leaves it in
  -- the map under the URL; a call that fails reports the error of the dial, and the map holds no
  -- connection for the URL.
  pub get_connection-Served :
      (first again : Connectivity) (spawned : Option GoError) (p : Pool)
      → Served spawned (get_connection first again spawned url p)
  unfolding get_connection
  get_connection-Served first again spawned p =
      fast_path-Served again spawned _ (take_pooled-LookedUp first p)

  -- A pooled connection that is healthy is shared: the call changes nothing and dials nothing.
  pub get_connection_shared :
      (state again : Connectivity) (spawned : Option GoError) (p : Pool) {c : ℕ}
      → lookup url p.conns ≡ some c
      → is_healthy state ≡ true
      → get_connection state again spawned url p ≡ (p, reply c)
  unfolding get_connection take_pooled
  get_connection_shared state again spawned p e fit = rw (e, fit)
