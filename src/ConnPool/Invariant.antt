-- ===== src/ConnPool/Invariant.antt =====
-- No connection is lost or closed in use, in any interleaving.
use terraform_provider_redpa.Base.{
  HasDistinctKeys, ℕ, ◌<◌, ◌≡◌, refl, ◌⊎◌, Bool, true, false, ◌||◌, Option, none, some, List, [],
  ◌∷◌, arith, ◌==◌, Text, lookup,
}
use terraform_provider_redpa.ConnPool.{Phase, looking, dialing, dialed, Pool, new_conn_pool}

abbrev pub listed : ℕ → List ℕ → Bool
listed c [] = false
listed c (d ∷ ds) = d == c || listed c ds

abbrev pub is_dialed : ℕ → Option Phase → Bool
is_dialed c (some (dialed d)) = d == c
is_dialed c (some looking) = false
is_dialed c (some dialing) = false
is_dialed c none = false

abbrev pub has_no_entry : Option Phase → Bool
has_no_entry (some (dialed d)) = true
has_no_entry (some dialing) = true
has_no_entry (some looking) = false
has_no_entry none = false

-- Where an opened connection can be: in the map, closed, or about to be stored.
abbrev pub Accounted : Pool → ℕ → Type 0
Accounted p c =
    ((url : Text) × (lookup url p.conns ≡ some c))
    ⊎ (listed c p.closed ≡ true)
    ⊎ ((url : Text) × (lookup url p.flights ≡ some (dialed c)))

pub record IsSound (p : Pool) : Type 0 where
  pub distinct : HasDistinctKeys p.conns
  -- Every connection that was opened is accounted for.
  pub accounted : (c : ℕ) → c < p.next → Accounted p c
  -- Each has been opened.
  pub pooled_opened : (url : Text) (c : ℕ) → lookup url p.conns ≡ some c → c < p.next
  pub dialed_opened : (url : Text) (c : ℕ) → lookup url p.flights ≡ some (dialed c) → c < p.next
  pub closed_opened : (c : ℕ) → listed c p.closed ≡ true → c < p.next
  -- No connection that is pooled or about to be stored has been closed.
  pub pooled_usable : (url : Text) (c : ℕ) → lookup url p.conns ≡ some c → listed c p.closed ≡ false
  pub dialed_usable :
      (url : Text) (c : ℕ) → lookup url p.flights ≡ some (dialed c) → listed c p.closed ≡ false
  -- A connection stands for one URL only, in the map and in flight.
  pub pooled_once :
      (u v : Text) (c : ℕ) → lookup u p.conns ≡ some c → lookup v p.conns ≡ some c → u ≡ v
  pub dialed_once :
      (u v : Text) (c : ℕ)
      → lookup u p.flights ≡ some (dialed c)
      → lookup v p.flights ≡ some (dialed c)
      → u ≡ v
  pub pooled_not_dialed :
      (u v : Text) (c : ℕ) → lookup u p.conns ≡ some c → lookup v p.flights ≡ some (dialed c) → ⊥
  -- While a URL is dialed, the map has no entry for it: a store overwrites nothing.
  pub dial_exclusive :
      (url : Text) → has_no_entry (lookup url p.flights) ≡ true → lookup url p.conns ≡ none

pub new_conn_pool-IsSound : IsSound new_conn_pool
unfolding new_conn_pool lookup
new_conn_pool-IsSound = record {
  distinct = tt;
  accounted = λ c h. absurd (omega arith);
  pooled_opened = λ url c h. cc;
  dialed_opened = λ url c h. cc;
  closed_opened = λ c h. cc;
  pooled_usable = λ url c h. cc;
  dialed_usable = λ url c h. cc;
  pooled_once = λ u v c h k. cc;
  dialed_once = λ u v c h k. cc;
  pooled_not_dialed = λ u v c h k. cc;
  dial_exclusive = λ url h. refl;
}
