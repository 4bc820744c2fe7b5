-- ===== src/ConnPool/Stores.antt =====
-- Storing a dialed connection, and closing the pool, keep it sound.
use terraform_provider_redpa.Base.{
  insert-HasDistinctKeys, HasDistinctKeys, ℕ, ◌<◌, ◌≡◌, refl, ◌⊎◌, inl, inr, true, false, ◌||◌,
  some, List, [], ◌∷◌, ◌++◌, arith, ◌==◌, ==_iff, ==_refl, Bool-cases, Text, same, same_refl,
  same_iff, Dict, lookup, lookup-insert, lookup-delete,
}
use terraform_provider_redpa.ConnPool.{dialed, Pool, store, close_all, values}
use terraform_provider_redpa.ConnPool.Invariant.{listed, Accounted, IsSound}

listed-append : (c : ℕ) (xs ys : List ℕ) → listed c (xs ++ ys) ≡ listed c xs || listed c ys
listed-append c [] ys = refl
listed-append c (x ∷ xs) ys = ground (arith, listed-append c xs ys)

listed-values :
    (url : Text) (c : ℕ) (m : Dict ℕ) → lookup url m ≡ some c → listed c (values m) ≡ true
unfolding lookup
listed-values url c [] h = cc
listed-values url c ((k, d) ∷ m) h = ground (arith, listed-values url c m, ==_refl c)

-- In a map with distinct keys, every value is found under its key.
values-listed :
    (c : ℕ) (m : Dict ℕ)
    → HasDistinctKeys m
    → listed c (values m) ≡ true
    → (url : Text) × (lookup url m ≡ some c)
unfolding lookup
values-listed c [] h l = cc
values-listed c ((k, d) ∷ m) (fresh, h) l = elim (Bool-cases (d == c)) [
  | inl here ↦ (k, rw (same_refl k) (ground (arith, ==_iff d c)))
  | inr other ↦
      let (url, found) = values-listed c m h (ground arith) in (url, ground (arith, same_iff k url))
]

module _ (p : Pool) (url : Text) (c : ℕ) (s : IsSound p)
    (flying : lookup url p.flights ≡ some (dialed c)) where
  store-Accounted : (d : ℕ) → Accounted p d → Accounted (store url c p) d
  unfolding store
  store-Accounted d (inl (u, h)) = elim (Bool-cases (same url u)) [
    | inl here ↦
        let h' : lookup url p.conns ≡ some d = rw ((same_iff url u).0 here) h in
        cc (s.dial_exclusive url (rw flying))
    | inr other ↦ inl (u, rw (lookup-insert url u, other) h)
  ]
  store-Accounted d (inr (inl gone)) = inr (inl gone)
  store-Accounted d (inr (inr (u, f))) = elim (Bool-cases (same url u)) [
    | inl here ↦
        let f' : lookup url p.flights ≡ some (dialed d) = rw ((same_iff url u).0 here) f in
        inl (url, rw (lookup-insert url url, same_refl url) (cc))
    | inr other ↦ inr (inr (u, rw (lookup-delete url u, other) f))
  ]

  pub store-IsSound : IsSound (store url c p)
  unfolding store
  store-IsSound = record {
    distinct = insert-HasDistinctKeys url c p.conns s.distinct;
    accounted = λ d h. unfold store in store-Accounted d (s.accounted d h);
    pooled_opened = λ u d h.
        ground
          (arith, lookup-insert url u c p.conns, s.pooled_opened u d, s.dialed_opened url c flying);
    dialed_opened = λ u d h. ground (arith, lookup-delete url u p.flights, s.dialed_opened u d);
    closed_opened = s.closed_opened;
    pooled_usable = λ u d h.
        ground
          (arith, lookup-insert url u c p.conns, s.pooled_usable u d, s.dialed_usable url c flying);
    dialed_usable = λ u d h. ground (arith, lookup-delete url u p.flights, s.dialed_usable u d);
    pooled_once = λ u v d h k. ground (
      arith,
      lookup-insert url u c p.conns,
      lookup-insert url v c p.conns,
      s.pooled_once u v d,
      s.pooled_not_dialed u url d,
      s.pooled_not_dialed v url d,
      same_iff url u,
      same_iff url v,
    );
    dialed_once = λ u v d h k.
        ground (
          arith,
          lookup-delete url u p.flights,
          lookup-delete url v p.flights,
          s.dialed_once u v d,
        );
    pooled_not_dialed = λ u v d h k. ground (
      arith,
      lookup-insert url u c p.conns,
      lookup-delete url v p.flights,
      s.pooled_not_dialed u v d,
      s.dialed_once url v c,
      same_iff url v,
    );
    dial_exclusive = λ u h.
        ground
          (arith, lookup-insert url u c p.conns, lookup-delete url u p.flights, s.dial_exclusive u);
  }

module _ (p : Pool) (s : IsSound p) where
  close_all-Accounted : (d : ℕ) → Accounted p d → Accounted (close_all p) d
  unfolding close_all
  close_all-Accounted d (inl (u, h)) =
      inr (inl (rw (listed-append d (values p.conns), listed-values u d p.conns h)))
  close_all-Accounted d (inr (inl gone)) =
      inr (inl (ground (arith, listed-append d (values p.conns) p.closed)))
  close_all-Accounted d (inr (inr f)) = inr (inr f)

  split-listed :
      (d : ℕ)
      → listed d (values p.conns ++ p.closed) ≡ true
      → (listed d (values p.conns) ≡ true) ⊎ (listed d p.closed ≡ true)
  split-listed d h = ground (arith, listed-append d (values p.conns) p.closed)

  opened-of_closed :
      (d : ℕ) → (listed d (values p.conns) ≡ true) ⊎ (listed d p.closed ≡ true) → d < p.next
  opened-of_closed d (inl h) =
      let (u, found) = values-listed d p.conns s.distinct h in s.pooled_opened u d found
  opened-of_closed d (inr h) = s.closed_opened d h

  usable-of_dialed :
      (u : Text) (d : ℕ)
      → lookup u p.flights ≡ some (dialed d)
      → listed d (values p.conns ++ p.closed) ≡ false
  usable-of_dialed u d h = elim (Bool-cases (listed d (values p.conns))) [
    | inl pooled ↦
        let (v, found) = values-listed d p.conns s.distinct pooled in
        absurd (s.pooled_not_dialed v u d found h)
    | inr loose ↦ ground (arith, listed-append d (values p.conns) p.closed, s.dialed_usable u d h)
  ]

  pub close_all-IsSound : IsSound (close_all p)
  unfolding close_all
  close_all-IsSound = record {
    distinct = tt;
    accounted = λ d h. unfold close_all in close_all-Accounted d (s.accounted d h);
    pooled_opened = λ u d h. unfold lookup in cc;
    dialed_opened = s.dialed_opened;
    closed_opened = λ d h. opened-of_closed d (split-listed d h);
    pooled_usable = λ u d h. unfold lookup in cc;
    dialed_usable = λ u d h. usable-of_dialed u d h;
    pooled_once = λ u v d h k. unfold lookup in cc;
    dialed_once = s.dialed_once;
    pooled_not_dialed = λ u v d h k. unfold lookup in cc;
    dial_exclusive = λ u h. unfold lookup in refl;
  }
