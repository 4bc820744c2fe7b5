-- ===== src/Lookup/Laws.antt =====
-- What a lookup returns, on every branch.
use terraform_provider_redpa.Base.{
  ◌≡◌, refl, ap, ◌≢◌, ◌↔◌, ◌⊎◌, inl, inr, Bool, true, false, Option, none, some, List, [], ◌∷◌,
  ◌++◌, arith, Bool-cases, is_some, All, Text, codes, same, same_iff,
}
use terraform_provider_redpa.Errors.{GoError, Reply, reply, refused, is_not_found, Reply-cases}
use mathlib.Core.List.{append_assoc}
use terraform_provider_redpa.Errors.Laws.{is_not_found_by_phrase}
use terraform_provider_redpa.Lookup.{
  Wrapping, quote, get_by_id, first_named, get_by_name, ResourceGroup, Cluster, ServerlessCluster,
  DataplaneApi, ControlPlane, cluster_for_id, serverless_cluster_for_id, resource_group_for_id,
  resource_group_for_name, resource_group_for_id_or_name, dataplane_url_or_not_ready,
  dataplane_url_for_cluster, only, agreeing, url_of,
}

module _ {E : Type 0} (name_of : E → Text) (kind name : Text) where
  -- The first entity of that name, with what stands before it; or none of them has the name, and the
  -- error is one that counts as not found.
  abbrev pub FirstNamed : List E → Reply E → Type 0
  FirstNamed items (reply item) =
      (before : List E) × (after : List E) × (items ≡ before ++ item ∷ after)
      × (name_of item ≡ name)
      × All (λ e. name_of e ≢ name) before
  FirstNamed items (refused err) =
      All (λ e. name_of e ≢ name) items × (is_not_found (some err) ≡ true)

  FirstNamed-cons :
      (x : E) (items : List E) (r : Reply E)
      → name_of x ≢ name
      → FirstNamed items r
      → FirstNamed (x ∷ items) r
  FirstNamed-cons x items (reply item) other (before, after, e, named, h) =
      (x ∷ before, after, ap (λ l. x ∷ l) e, named, (other, h))
  FirstNamed-cons x items (refused err) other (h, missing) = ((other, h), missing)

  pub first_named-FirstNamed :
      (items : List E) → FirstNamed items (first_named kind name name_of items)
  unfolding first_named
  first_named-FirstNamed [] = (
    tt,
    is_not_found_by_phrase (kind ++ (codes " " ++ (quote name ++ codes " "))) _ (simp append_assoc),
  )
  first_named-FirstNamed (x ∷ items) = elim (Bool-cases (same (name_of x) name)) [
    | inl found ↦ rw found ([], items, refl, (same_iff _ _).0 found, tt)
    | inr missed ↦
        rw missed
          (FirstNamed-cons x items _ (λ e. cc ((same_iff _ _).1 e)) (first_named-FirstNamed items))
  ]

module _ (wr : Wrapping) {E : Type 0} (name_of : E → Text) (kind name : Text) where
  -- A lookup by name returns the first listed entity of that name; if the list came and holds none,
  -- the error counts as not found; if the list was refused, so is the lookup.
  pub get_by_name-FirstNamed :
      (list : Text → Reply (List E))
      → ((items : List E) × (list name ≡ reply items)
          × FirstNamed name_of kind name items (get_by_name wr kind name list name_of))
        ⊎ ((err : GoError) × (e : GoError) × (list name ≡ refused err)
            × (get_by_name wr kind name list name_of ≡ refused e))
  unfolding get_by_name
  get_by_name-FirstNamed list = elim (Reply-cases (list name)) [
    | inl (items, e) ↦ inl (items, e, rw e (first_named-FirstNamed name_of kind name items))
    | inr (err, e) ↦
        inr (err, wr.wrap (codes "unable to list " ++ (kind ++ codes "s: ")) err, e, rw e)
  ]

module _ (wr : Wrapping) {E : Type 0} (kind name : Text) where
  get_by_name-name :
      (list : Text → Reply (List E)) (name_of : E → Text) {x : E}
      → get_by_name wr kind name list name_of ≡ reply x
      → name_of x ≡ name
  get_by_name-name list name_of e = elim (get_by_name-FirstNamed wr name_of kind name list) [
    | inl (items, listed, first) ↦ (rw e at first).3
    | inr (err, err', refusal, failed) ↦ cc
  ]

  get_by_id-eq-reply :
      (get : Text → Reply (Option E)) {x : E}
      → get_by_id wr kind name get ≡ reply x
      → get name ≡ reply (some x)
  unfolding get_by_id
  get_by_id-eq-reply get e = ground arith

module _ (wr : Wrapping) (cp : ControlPlane) where
  only-eq-reply :
      (r : Reply (Option (List ResourceGroup))) {g : ResourceGroup}
      → only wr cp r ≡ reply g
      → r ≡ reply (some (g ∷ []))
  only-eq-reply (refused err) h = cc
  only-eq-reply (reply none) h = cc
  only-eq-reply (reply (some [])) h = cc
  only-eq-reply (reply (some (g ∷ []))) h = cc
  only-eq-reply (reply (some (g ∷ k ∷ gs))) h = cc

  agreeing_sound :
      (id name : Text) (r : Reply ResourceGroup) {g : ResourceGroup}
      → agreeing wr cp id name r ≡ reply g
      → (r ≡ reply g) × (name ≢ [] → g.name ≡ name)
  agreeing_sound id name (refused err) h = cc
  agreeing_sound id [] (reply k) h = (h, λ e. absurd (e refl))
  agreeing_sound id (c ∷ name) (reply k) h = ground (arith, same_iff k.name (c ∷ name))

  resource_group_for_name-name :
      (name : Text) {g : ResourceGroup}
      → resource_group_for_name wr cp name ≡ reply g
      → g.name ≡ name
  unfolding resource_group_for_name
  resource_group_for_name-name name h =
      get_by_name-name wr (codes "resource group") name cp.list_resource_groups (λ g. g.name) h

  resource_group_for_id-found :
      (id : Text) {g : ResourceGroup}
      → resource_group_for_id wr cp id ≡ reply g
      → cp.get_resource_group id ≡ reply (some g)
  unfolding resource_group_for_id
  resource_group_for_id-found id h =
      get_by_id-eq-reply wr (codes "resource group") id cp.get_resource_group h

  -- Which group answers an ID and a name, of which either may be empty.
  abbrev pub Answers : (id name : Text) → ResourceGroup → Type 0
  Answers [] [] g = cp.all_resource_groups ≡ reply (some (g ∷ []))
  Answers [] (c ∷ name) g = g.name ≡ c ∷ name
  Answers (c ∷ id) [] g = cp.get_resource_group (c ∷ id) ≡ reply (some g)
  Answers (c ∷ id) (d ∷ name) g =
      (cp.get_resource_group (c ∷ id) ≡ reply (some g)) × (g.name ≡ d ∷ name)

  -- A resource group that is found is that of the ID, where one is given, has the name, where one is
  -- given, and is the only one where neither is.
  pub resource_group_for_id_or_name_sound :
      (id name : Text) (g : ResourceGroup)
      → resource_group_for_id_or_name wr cp id name ≡ reply g
      → Answers id name g
  unfolding resource_group_for_id_or_name
  resource_group_for_id_or_name_sound [] [] g h = only-eq-reply cp.all_resource_groups h
  resource_group_for_id_or_name_sound [] (c ∷ name) g h = resource_group_for_name-name (c ∷ name) h
  resource_group_for_id_or_name_sound (c ∷ id) [] g h =
      let (found, agrees) = agreeing_sound (c ∷ id) [] (resource_group_for_id wr cp (c ∷ id)) h in
      resource_group_for_id-found (c ∷ id) found
  resource_group_for_id_or_name_sound (c ∷ id) (d ∷ name) g h =
      let (found, agrees) =
        agreeing_sound (c ∷ id) (d ∷ name) (resource_group_for_id wr cp (c ∷ id)) h in
      (resource_group_for_id-found (c ∷ id) found, agrees (λ e. cc))

abbrev pub HasUrl : Option DataplaneApi → Text → Type 0
HasUrl api url = (a : DataplaneApi) × (api ≡ some a) × (a.url ≡ url)

-- The URL is the cluster's, or else the serverless cluster's.
abbrev pub UrlSource : Reply Cluster → Reply ServerlessCluster → Text → Type 0
UrlSource (reply c) s url = HasUrl c.dataplane_api url
UrlSource (refused e) (reply c) url = HasUrl c.dataplane_api url
UrlSource (refused e) (refused e') url = ⊥

dataplane_url_or_not_ready_iff :
    (api : Option DataplaneApi) (id url : Text) (serverless : Bool)
    → (dataplane_url_or_not_ready (url_of api) (is_some api) id serverless ≡ reply url)
      ↔ HasUrl api url
unfolding dataplane_url_or_not_ready
dataplane_url_or_not_ready_iff none id url false = (λ e. cc, λ h. cc (h.1))
dataplane_url_or_not_ready_iff none id url true = (λ e. cc, λ h. cc (h.1))
dataplane_url_or_not_ready_iff (some a) id url serverless = (λ e. (a, refl, cc), λ h. ground arith)

module _ (wr : Wrapping) (cp : ControlPlane) where
  -- Exactly the cluster of that ID that has a dataplane API gives its URL; the serverless cluster of
  -- that ID does where the request for the cluster failed.
  pub dataplane_url_for_cluster_iff :
      (id url : Text)
      → (dataplane_url_for_cluster wr cp id ≡ reply url)
        ↔ UrlSource (cluster_for_id wr cp id) (serverless_cluster_for_id wr cp id) url
  unfolding dataplane_url_for_cluster
  dataplane_url_for_cluster_iff id url = elim (Reply-cases (cluster_for_id wr cp id)) [
    | inl (c, found) ↦ rw found (dataplane_url_or_not_ready_iff c.dataplane_api id url false)
    | inr (e, missing) ↦ rw missing (elim (Reply-cases (serverless_cluster_for_id wr cp id)) [
      | inl (c, found) ↦ rw found (dataplane_url_or_not_ready_iff c.dataplane_api id url true)
      | inr (e', absent) ↦ rw absent (λ h. cc, λ h. absurd h)
    ])
  ]
