-- ===== src/Lookup.antt =====
-- redpanda/cloud/controlplane.go: finding entities of the control plane by ID or by name.
-- A gRPC service is a function from the request to its reply; the generated getters of the replies
-- are nil-safe, so an absent entity is `none`.
pub mod Laws
pub mod Digits
mod Tests
use terraform_provider_redpa.Base.{
  ℕ, ◌≡◌, Bool, true, false, not, ◌&&◌, ◌||◌, Option, none, some, List, [], ◌∷◌, ◌++◌, ◌==◌,
  if◌then◌else◌, is_some, Text, codes, same, is_empty,
}
use terraform_provider_redpa.Errors.{GoError, plain_error, Reply, reply, refused}

-- `fmt.Errorf` with `%w` last: the text is put before the error's. What gRPC then finds as the status
-- is the library's affair.
pub record Wrapping : Type 0 where
  pub wrap : Text → GoError → GoError
  pub wrap-text : (t : Text) (err : GoError) → (wrap t err).text ≡ t ++ err.text

abbrev escape : ℕ → Text
escape c = if c == 34 || c == 92 then 92 ∷ c ∷ [] else c ∷ []

abbrev escape_all : Text → Text
escape_all [] = []
escape_all (c ∷ s) = escape c ++ escape_all s

-- `%q`, for printable ASCII.
abbrev pub quote : Text → Text
quote s = 34 ∷ (escape_all s ++ 34 ∷ [])

unfoldable pub request_failed : Text → Text → Text
request_failed kind id =
    codes "unable to request " ++ (kind ++ (codes " with ID " ++ (quote id ++ codes ": ")))

module _ {E : Type 0} where
  -- The loop of getByName, and its error at the end.
  unfoldable pub first_named : Text → Text → (E → Text) → List E → Reply E
  first_named kind name name_of [] =
      refused (plain_error (kind ++ (codes " " ++ (quote name ++ codes " not found"))))
  first_named kind name name_of (item ∷ items) =
      if same (name_of item) name then reply item else first_named kind name name_of items

module _ (wr : Wrapping) {E : Type 0} where
  abbrev checked : Text → Text → Reply (Option E) → Reply E
  checked kind id (refused err) = refused (wr.wrap (request_failed kind id) err)
  checked kind id (reply none) = refused (
      plain_error (
        codes "unable to find "
        ++ (kind
            ++ (codes " with ID "
                ++ (quote id ++ codes "; please report this bug to Redpanda Support")))))
  checked kind id (reply (some entity)) = reply entity

  unfoldable pub get_by_id : Text → Text → (Text → Reply (Option E)) → Reply E
  unfolding request_failed
  get_by_id kind id get = checked kind id (get id)

  abbrev listed : Text → Text → (E → Text) → Reply (List E) → Reply E
  listed kind name name_of (refused err) =
      refused (wr.wrap (codes "unable to list " ++ (kind ++ codes "s: ")) err)
  listed kind name name_of (reply items) = first_named kind name name_of items

  unfoldable pub get_by_name : Text → Text → (Text → Reply (List E)) → (E → Text) → Reply E
  get_by_name kind name list name_of = listed kind name name_of (list name)

-- The entities, by the fields that this file reads.
pub record ResourceGroup : Type 0 where
  pub id : Text
  pub name : Text

pub record DataplaneApi : Type 0 where
  pub url : Text

pub record Cluster : Type 0 where
  pub id : Text
  pub name : Text
  pub dataplane_api : Option DataplaneApi

pub record ServerlessCluster : Type 0 where
  pub id : Text
  pub name : Text
  pub dataplane_api : Option DataplaneApi

-- The services of the client set that the functions below call; a list request carries its name
-- filter, and `all_resource_groups` carries none (`none` in the reply is a nil list).
pub record ControlPlane : Type 0 where
  pub get_cluster : Text → Reply (Option Cluster)
  pub list_clusters : Text → Reply (List Cluster)
  pub get_serverless_cluster : Text → Reply (Option ServerlessCluster)
  pub get_resource_group : Text → Reply (Option ResourceGroup)
  pub list_resource_groups : Text → Reply (List ResourceGroup)
  pub all_resource_groups : Reply (Option (List ResourceGroup))
  pub create_resource_group : Text → Reply (Option ResourceGroup)

module _ (wr : Wrapping) (cp : ControlPlane) where
  unfoldable pub cluster_for_id : Text → Reply Cluster
  cluster_for_id id =
      if is_empty id
      then refused (plain_error (codes "cluster ID is empty"))
      else get_by_id wr (codes "cluster") id cp.get_cluster

  unfoldable pub cluster_for_name : Text → Reply Cluster
  cluster_for_name name = get_by_name wr (codes "cluster") name cp.list_clusters (λ c. c.name)

  unfoldable pub serverless_cluster_for_id : Text → Reply ServerlessCluster
  serverless_cluster_for_id id =
      get_by_id wr (codes "serverless cluster") id cp.get_serverless_cluster

  unfoldable pub resource_group_for_id : Text → Reply ResourceGroup
  resource_group_for_id id = get_by_id wr (codes "resource group") id cp.get_resource_group

  unfoldable pub resource_group_for_name : Text → Reply ResourceGroup
  resource_group_for_name name =
      get_by_name wr (codes "resource group") name cp.list_resource_groups (λ g. g.name)

  abbrev created : Reply (Option ResourceGroup) → Reply ResourceGroup
  created (refused err) = refused err
  created (reply none) = refused (
      plain_error (
        codes
          "error after creating resource group; provider response was empty. Please report this issue to the provider developers"))
  created (reply (some group)) = reply group

  unfoldable pub create_resource_group : Text → Reply ResourceGroup
  create_resource_group name = created (cp.create_resource_group name)

  abbrev agreeing : Text → Text → Reply ResourceGroup → Reply ResourceGroup
  agreeing id name (refused err) = refused err
  agreeing id name (reply group) =
      if not (is_empty name) && not (same group.name name)
      then refused (
          plain_error (
            codes "unable to find resource group with id "
            ++ (quote id ++ (codes " and name " ++ quote name))))
      else reply group

  abbrev only : Reply (Option (List ResourceGroup)) → Reply ResourceGroup
  only (refused err) = refused (wr.wrap (codes "unable to find resource groups: ") err)
  only (reply none) = refused (
      plain_error
        (codes "provider response was empty. Please report this issue to the provider developers"))
  only (reply (some [])) =
      refused (plain_error (codes "unable to find any resource group matching filters"))
  only (reply (some (g ∷ []))) = reply g
  only (reply (some (g ∷ h ∷ gs))) =
      refused (plain_error (codes "found more than one resource group matching filters"))

  unfoldable pub resource_group_for_id_or_name : Text → Text → Reply ResourceGroup
  resource_group_for_id_or_name id name =
      if not (is_empty id)
      then agreeing id name (resource_group_for_id id)
      else if not (is_empty name)
      then resource_group_for_name name
      else only cp.all_resource_groups

-- `cl.GetDataplaneApi().GetUrl()`, nil-safe.
abbrev url_of : Option DataplaneApi → Text
url_of none = []
url_of (some api) = api.url

unfoldable pub dataplane_url_or_not_ready : Text → Bool → Text → Bool → Reply Text
dataplane_url_or_not_ready url present cluster_id serverless =
    if present
    then reply url
    else if serverless
    then refused (
        plain_error (
          codes "serverless cluster "
          ++ (quote cluster_id ++ codes " has no dataplane API URL yet")))
    else refused (
        plain_error (
          codes "cluster "
          ++ (quote cluster_id
              ++ codes
                  " has no dataplane API URL yet; try importing after the cluster reaches READY state")))

module _ (wr : Wrapping) (cp : ControlPlane) where
  abbrev from_serverless : Text → GoError → Reply ServerlessCluster → Reply Text
  from_serverless id cerr (reply sl) =
      dataplane_url_or_not_ready (url_of sl.dataplane_api) (is_some sl.dataplane_api) id true
  from_serverless id cerr (refused serr) = refused (
      plain_error (
        codes "failed to resolve cluster "
        ++ (quote id
            ++ (codes ": " ++ (cerr.text ++ (codes "; serverless lookup: " ++ serr.text))))))

  abbrev from_cluster : Text → Reply Cluster → Reply Text
  from_cluster id (reply cl) =
      dataplane_url_or_not_ready (url_of cl.dataplane_api) (is_some cl.dataplane_api) id false
  from_cluster id (refused cerr) = from_serverless id cerr (serverless_cluster_for_id wr cp id)

  -- A reply without an error holds an entity here, so the last error of the source, for a nil entity
  -- without an error, is never reached.
  unfoldable pub dataplane_url_for_cluster : Text → Reply Text
  unfolding dataplane_url_or_not_ready
  dataplane_url_for_cluster id = from_cluster id (cluster_for_id wr cp id)
