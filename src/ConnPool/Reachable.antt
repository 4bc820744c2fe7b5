-- ===== src/ConnPool/Reachable.antt =====
-- Every pool that any interleaving reaches is sound.
use terraform_provider_redpa.Base.{
  ℕ, ◌≡◌, refl, ◌∙◌, ◌⊎◌, inl, inr, Option, none, some, arith, Bool-cases, Text, same_refl, lookup,
  insert, delete, lookup-insert, lookup-delete,
}
use terraform_provider_redpa.ConnPool.{
  Connectivity, Phase, looking, dialing, Pool, is_healthy, take_pooled, double_check, spawn_failed,
  look, after_look,
}
use terraform_provider_redpa.ConnPool.Interleaving.{
  Step, first_look, start, second_look, spawn, fail, keep, close, Reach, opened, step,
}
use terraform_provider_redpa.ConnPool.Invariant.{IsSound, new_conn_pool-IsSound}
use terraform_provider_redpa.ConnPool.Preservation.{evict-IsSound, fly-IsSound, spawn-IsSound}
use terraform_provider_redpa.ConnPool.Stores.{store-IsSound, close_all-IsSound}

-- What a look at the map leaves behind.
pub record Looked (p : Pool) (url : Text) (r : Pool × Option ℕ) : Type 0 where
  pub sound : IsSound r.0
  pub same_flights : r.0.flights ≡ p.flights
  pub missed : r.1 ≡ none → lookup url r.0.conns ≡ none
  pub found : (c : ℕ) → r.1 ≡ some c → lookup url r.0.conns ≡ some c

look-Looked :
    (state : Connectivity) (url : Text) (p : Pool) (o : Option ℕ)
    → IsSound p
    → lookup url p.conns ≡ o
    → Looked p url (look state url p o)
look-Looked state url p none s e = record {
  sound = s;
  same_flights = refl;
  missed = λ _. e;
  found = λ c h. cc;
}
look-Looked state url p (some c) s e = elim (Bool-cases (is_healthy state)) [
  | inl fit ↦
      rw fit (record { sound = s; same_flights = refl; missed = λ h. cc; found = λ d h. e ∙ h })
  | inr unfit ↦ rw unfit (record {
    sound = evict-IsSound p url s c e;
    same_flights = refl;
    missed = λ _. rw (lookup-delete url url, same_refl url);
    found = λ d h. cc;
  })
]

pub take_pooled-Looked :
    (state : Connectivity) (url : Text) (p : Pool)
    → IsSound p
    → Looked p url (take_pooled state url p)
unfolding take_pooled
take_pooled-Looked state url p s = look-Looked state url p (lookup url p.conns) s refl

-- A flight that is set or removed at a URL where no connection waits to be stored.
set_flight-IsSound :
    (p : Pool) (url : Text) (ph : Phase)
    → IsSound p
    → (ph ≡ looking) ⊎ ((ph ≡ dialing) × (lookup url p.conns ≡ none))
    → (lookup url p.flights ≡ none) ⊎ (lookup url p.flights ≡ some looking)
    → IsSound (record p { flights = insert url ph p.flights })
set_flight-IsSound p url ph s new old =
    fly-IsSound p url s (insert url ph p.flights) (some ph) (λ u. lookup-insert url u ph p.flights)
      (ground arith) (ground arith) (ground arith)

end_flight-IsSound :
    (p : Pool) (url : Text)
    → IsSound p
    → (lookup url p.flights ≡ some looking) ⊎ (lookup url p.flights ≡ some dialing)
    → IsSound (record p { flights = delete url p.flights })
end_flight-IsSound p url s old =
    fly-IsSound p url s (delete url p.flights) none (λ u. lookup-delete url u p.flights) (λ h. h)
      (ground arith) (λ h. cc)

after_look-IsSound :
    (p : Pool) (url : Text) (r : Pool × Option ℕ)
    → lookup url p.flights ≡ some looking
    → Looked p url r
    → IsSound (after_look url r).0
after_look-IsSound p url (q, none) e l =
    set_flight-IsSound q url dialing l.sound (inr (refl, l.missed refl))
      (inr (rw (l.same_flights) e))
after_look-IsSound p url (q, some c) e l =
    end_flight-IsSound q url l.sound (inl (rw (l.same_flights) e))

Step-IsSound : {p q : Pool} → Step p q → IsSound p → IsSound q
unfolding double_check spawn_failed
Step-IsSound (first_look state url) s = (take_pooled-Looked state url _ s).sound
Step-IsSound (start url e) s = set_flight-IsSound _ url looking s (inl refl) (inl e)
Step-IsSound (second_look state url e) s =
    after_look-IsSound _ url _ e (take_pooled-Looked state url _ s)
Step-IsSound (spawn url e) s = spawn-IsSound _ url s e
Step-IsSound (fail url e) s = end_flight-IsSound _ url s (inr e)
Step-IsSound (keep url conn e) s = store-IsSound _ url conn s e
Step-IsSound close s = close_all-IsSound _ s

-- In every interleaving of callers, no connection is lost: each that was opened is in the map, was
-- closed, or is about to be stored; none of the first and last kind has been closed; each stands for
-- one URL; and a store overwrites nothing.
pub Reach-IsSound : {p : Pool} → Reach p → IsSound p
Reach-IsSound opened = new_conn_pool-IsSound
Reach-IsSound (step r st) = Step-IsSound st (Reach-IsSound r)
