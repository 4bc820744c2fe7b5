-- ===== src/ConnPool.antt =====
-- redpanda/cloud/connpool.go: the shared gRPC connections, one for each URL.
-- A connection is a number; its state is what the outside answers when it is asked. The stretches of
-- code under the mutex are functions on the pool, and run in any order (Interleaving).
pub mod Interleaving
pub mod Invariant
pub mod Preservation
pub mod Stores
pub mod Reachable
pub mod Sequential
mod Tests
use terraform_provider_redpa.Base.{
  ℕ, zero, suc, ◌+◌, ◌-◌, ◌*◌, ◌/◌, ◌%◌, ◌^◌, ◌≤◌, ◌<◌, ◌≡◌, refl, sym, ap, ◌∙◌, ◌≢◌, ◌↔◌, ◌⊎◌, inl,
  inr, Bool, true, false, not, ◌&&◌, ◌||◌, Option, none, some, List, [], ◌∷◌, ◌++◌, map, arith, ltb,
  leb, ◌==◌, if◌then◌else◌, ltb→lt, ==_iff, ==_refl, Bool-cases, is_some, Option-cases, length,
  drop, length-append, length-drop, drop-append, All, All-append, Text, codes, same, is_empty,
  strip, has_prefix, or_else, trim_prefix, trim_suffix, contains, to_lower, cut, split, trim_func,
  trim_space, trim_quotes, join, same_sound, same_refl, same_iff, strip-append, strip_sound,
  has_prefix-append, trim_prefix-append, contains-append_middle, to_lower-append, Dict, lookup,
  insert, delete, lookup-insert, lookup-delete,
}
use terraform_provider_redpa.Errors.{GoError, Reply, reply, refused}

pub data Connectivity : Type 0 where
  idle connecting ready transient_failure shutdown : Connectivity

-- How far the call that singleflight runs for a URL has come: before its second look at the map, in
-- the dial, or with a connection that is not stored yet.
pub data Phase : Type 0 where
  looking dialing : Phase
  dialed : ℕ → Phase

-- `next` is the number of the connection that is opened next, and `closed` those that were closed.
pub record Pool : Type 0 where
  pub conns : Dict ℕ
  pub flights : Dict Phase
  pub closed : List ℕ
  pub next : ℕ

unfoldable pub new_conn_pool : Pool
new_conn_pool = record { conns = []; flights = []; closed = []; next = 0 }

unfoldable pub is_healthy : Connectivity → Bool
is_healthy shutdown = false
is_healthy transient_failure = false
is_healthy idle = true
is_healthy connecting = true
is_healthy ready = true

-- Both looks at the map: a healthy connection is taken, another one is evicted and closed.
abbrev look : Connectivity → Text → Pool → Option ℕ → Pool × Option ℕ
look state url p none = (p, none)
look state url p (some conn) =
    if is_healthy state
    then (p, some conn)
    else (record p { conns = delete url p.conns; closed = conn ∷ p.closed }, none)

unfoldable pub take_pooled : Connectivity → Text → Pool → Pool × Option ℕ
take_pooled state url p = look state url p (lookup url p.conns)

-- The second look, inside the flight: a connection that is found ends the flight.
abbrev after_look : Text → Pool × Option ℕ → Pool × Option ℕ
after_look url (p, some conn) = (record p { flights = delete url p.flights }, some conn)
after_look url (p, none) = (record p { flights = insert url dialing p.flights }, none)

unfoldable pub double_check : Connectivity → Text → Pool → Pool × Option ℕ
double_check state url p = after_look url (take_pooled state url p)

-- The dial, which takes no lock: a new connection or an error.
unfoldable pub spawn_ok : Text → Pool → Pool
spawn_ok url p = record p { flights = insert url (dialed p.next) p.flights; next = p.next + 1 }

unfoldable pub spawn_failed : Text → Pool → Pool
spawn_failed url p = record p { flights = delete url p.flights }

-- `p.conns[url] = conn`, and the end of the flight.
unfoldable pub store : Text → ℕ → Pool → Pool
store url conn p = record p { conns = insert url conn p.conns; flights = delete url p.flights }

abbrev pub values : Dict ℕ → List ℕ
values [] = []
values ((k, conn) ∷ m) = conn ∷ values m

unfoldable pub close_all : Pool → Pool
close_all p = record p { conns = []; closed = values p.conns ++ p.closed }

abbrev begin_flight : Text → Pool → Pool
begin_flight url p = record p { flights = insert url looking p.flights }

-- GetConnection of a caller that nobody disturbs: the answers of the outside are the state of the
-- connection at each look, and the error of the dial, if it fails.
abbrev dial : Option GoError → Text → Pool → Pool × Reply ℕ
dial (some err) url p = (spawn_failed url p, refused err)
dial none url p = (store url p.next (spawn_ok url p), reply p.next)

abbrev slow_path : Option GoError → Text → Pool × Option ℕ → Pool × Reply ℕ
slow_path spawned url (p, some conn) = (p, reply conn)
slow_path spawned url (p, none) = dial spawned url p

abbrev fast_path : Connectivity → Option GoError → Text → Pool × Option ℕ → Pool × Reply ℕ
fast_path again spawned url (p, some conn) = (p, reply conn)
fast_path again spawned url (p, none) =
    slow_path spawned url (double_check again url (begin_flight url p))

unfoldable pub get_connection :
    (first again : Connectivity) → Option GoError → Text → Pool → Pool × Reply ℕ
get_connection first again spawned url p = fast_path again spawned url (take_pooled first url p)
