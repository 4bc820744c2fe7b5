-- ===== src/ConnPool/Preservation.antt =====
-- Each stretch of code keeps the pool sound.
use terraform_provider_redpa.Base.{
  delete-HasDistinctKeys, ℕ, ◌+◌, ◌<◌, ◌≡◌, ◌⊎◌, inl, inr, true, false, Option, none, some, ◌∷◌,
  arith, if◌then◌else◌, Bool-cases, Text, same, same_refl, same_iff, Dict, lookup, delete,
  lookup-insert, lookup-delete,
}
use terraform_provider_redpa.ConnPool.{Phase, looking, dialing, dialed, Pool, spawn_ok}
use terraform_provider_redpa.ConnPool.Invariant.{listed, has_no_entry, Accounted, IsSound}

-- The eviction of a pooled connection.
abbrev evict : Text → ℕ → Pool → Pool
evict url c p = record p { conns = delete url p.conns; closed = c ∷ p.closed }

module _ (p : Pool) (url : Text) (s : IsSound p) where
  evict-Accounted :
      (c d : ℕ) → lookup url p.conns ≡ some c → Accounted p d → Accounted (evict url c p) d
  evict-Accounted c d e (inl (u, h)) = elim (Bool-cases (same url u)) [
    | inl here ↦ inr (inl (ground (arith, same_iff url u)))
    | inr other ↦ inl (u, rw (lookup-delete url u, other) h)
  ]
  evict-Accounted c d e (inr (inl h)) = inr (inl (ground arith))
  evict-Accounted c d e (inr (inr f)) = inr (inr f)

  pub evict-IsSound : (c : ℕ) → lookup url p.conns ≡ some c → IsSound (evict url c p)
  evict-IsSound c e = record {
    distinct = delete-HasDistinctKeys url p.conns s.distinct;
    accounted = λ d h. evict-Accounted c d e (s.accounted d h);
    pooled_opened = λ u d h. ground (arith, lookup-delete url u p.conns, s.pooled_opened u d);
    dialed_opened = s.dialed_opened;
    closed_opened = λ d h. ground (arith, s.closed_opened d, s.pooled_opened url c e);
    pooled_usable = λ u d h. ground (
      arith,
      lookup-delete url u p.conns,
      s.pooled_usable u d,
      s.pooled_once url u c,
      same_iff url u,
    );
    dialed_usable = λ u d h. ground (arith, s.dialed_usable u d h, s.pooled_not_dialed url u c e);
    pooled_once = λ u v d h k.
        ground
          (arith, lookup-delete url u p.conns, lookup-delete url v p.conns, s.pooled_once u v d);
    dialed_once = s.dialed_once;
    pooled_not_dialed =
        λ u v d h k. ground (arith, lookup-delete url u p.conns, s.pooled_not_dialed u v d);
    dial_exclusive = λ u h. ground (arith, lookup-delete url u p.conns, s.dial_exclusive u);
  }

  -- A change of the flight at `url` that adds or removes no dialed connection.
  abbrev IsDialed : Option Phase → Type 0
  IsDialed (some (dialed c)) = Unit
  IsDialed (some looking) = ⊥
  IsDialed (some dialing) = ⊥
  IsDialed none = ⊥

  fly-Accounted :
      (flights : Dict Phase) (ph : Option Phase)
      → ((u : Text) → lookup u flights ≡ (if same url u then ph else lookup u p.flights))
      → ¬ IsDialed (lookup url p.flights)
      → (d : ℕ) → Accounted p d
      → Accounted (record p { flights = flights }) d
  fly-Accounted flights ph at old d (inl pooled) = inl pooled
  fly-Accounted flights ph at old d (inr (inl gone)) = inr (inl gone)
  fly-Accounted flights ph at old d (inr (inr (u, f))) = elim (Bool-cases (same url u)) [
    | inl here ↦
        let f' : lookup url p.flights ≡ some (dialed d) = rw ((same_iff url u).0 here) f in
        absurd (old (rw f' tt))
    | inr other ↦ inr (inr (u, rw (at u, other) f))
  ]

  pub fly-IsSound :
      (flights : Dict Phase) (ph : Option Phase)
      → ((u : Text) → lookup u flights ≡ (if same url u then ph else lookup u p.flights))
      → ¬ IsDialed ph
      → ¬ IsDialed (lookup url p.flights)
      → (has_no_entry ph ≡ true → lookup url p.conns ≡ none)
      → IsSound (record p { flights = flights })
  fly-IsSound flights ph at new old free = record {
    distinct = s.distinct;
    accounted = λ d h. fly-Accounted flights ph at old d (s.accounted d h);
    pooled_opened = s.pooled_opened;
    dialed_opened = λ u d h. ground (arith, at u, s.dialed_opened u d);
    closed_opened = s.closed_opened;
    pooled_usable = s.pooled_usable;
    dialed_usable = λ u d h. ground (arith, at u, s.dialed_usable u d);
    pooled_once = s.pooled_once;
    dialed_once = λ u v d h k. ground (arith, at u, at v, s.dialed_once u v d);
    pooled_not_dialed = λ u v d h k. ground (arith, at v, s.pooled_not_dialed u v d);
    dial_exclusive = λ u h. ground (arith, at u, s.dial_exclusive u, same_iff url u);
  }

  dialed_not_listed : (u : Text) → (p.next < p.next) ⊎ (listed p.next p.closed ≡ false)
  dialed_not_listed u = elim (Bool-cases (listed p.next p.closed)) [
    | inl h ↦ inl (s.closed_opened p.next h)
    | inr h ↦ inr h
  ]

  spawn-Accounted :
      (d : ℕ)
      → lookup url p.flights ≡ some dialing
      → (d ≡ p.next) ⊎ Accounted p d
      → Accounted (spawn_ok url p) d
  unfolding spawn_ok
  spawn-Accounted d e (inl new) = inr (inr (url, rw (lookup-insert url url, same_refl url, new)))
  spawn-Accounted d e (inr (inl pooled)) = inl pooled
  spawn-Accounted d e (inr (inr (inl gone))) = inr (inl gone)
  spawn-Accounted d e (inr (inr (inr (u, f)))) = elim (Bool-cases (same url u)) [
    | inl here ↦
        let f' : lookup url p.flights ≡ some (dialed d) = rw ((same_iff url u).0 here) f in cc
    | inr other ↦ inr (inr (u, rw (lookup-insert url u, other) f))
  ]

  below-cases : (d : ℕ) → d < p.next + 1 → (d ≡ p.next) ⊎ (d < p.next)
  below-cases d h = ground arith

  old-or-new : (d : ℕ) → d < p.next + 1 → (d ≡ p.next) ⊎ Accounted p d
  old-or-new d h = elim (below-cases d h) [ inl new ↦ inl new | inr old ↦ inr (s.accounted d old) ]

  pub spawn-IsSound : lookup url p.flights ≡ some dialing → IsSound (spawn_ok url p)
  unfolding spawn_ok
  spawn-IsSound e = record {
    distinct = s.distinct;
    accounted = λ d h. unfold spawn_ok in spawn-Accounted d e (old-or-new d h);
    pooled_opened = λ u d h. omega (arith, s.pooled_opened u d h);
    dialed_opened =
        λ u d h. ground (arith, lookup-insert url u (dialed p.next) p.flights, s.dialed_opened u d);
    closed_opened = λ d h. omega (arith, s.closed_opened d h);
    pooled_usable = s.pooled_usable;
    dialed_usable = λ u d h. ground (
      arith,
      lookup-insert url u (dialed p.next) p.flights,
      s.dialed_usable u d,
      dialed_not_listed u,
    );
    pooled_once = s.pooled_once;
    dialed_once = λ u v d h k. ground (
      arith,
      lookup-insert url u (dialed p.next) p.flights,
      lookup-insert url v (dialed p.next) p.flights,
      s.dialed_once u v d,
      s.dialed_opened u d,
      s.dialed_opened v d,
      same_iff url u,
      same_iff url v,
    );
    pooled_not_dialed = λ u v d h k. ground (
      arith,
      lookup-insert url v (dialed p.next) p.flights,
      s.pooled_not_dialed u v d,
      s.pooled_opened u d,
    );
    dial_exclusive = λ u h.
        ground (
          arith,
          lookup-insert url u (dialed p.next) p.flights,
          s.dial_exclusive u,
          same_iff url u,
        );
  }
