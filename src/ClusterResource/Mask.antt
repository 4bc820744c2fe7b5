-- ===== src/ClusterResource/Mask.antt =====
-- ExpandLeafPaths of internal/clustermask/expand.go, over the paths of internal/clustermask/paths.go. A
-- mask is its paths.
use terraform_provider_redpa.Base.{
  All-append, ◌≡◌, refl, inl, inr, Bool, true, false, ◌||◌, Option, none, some, List, [], ◌∷◌, ◌++◌,
  if◌then◌else◌, Bool-cases, All, Text, codes, same,
}

abbrev pub is_path_of : Text → List Text → Bool
is_path_of p [] = false
is_path_of p (q ∷ qs) = same p q || is_path_of p qs

-- The top-level paths that the control plane takes.
unfoldable pub accepted_top_level : List Text
accepted_top_level =
    codes "api_gateway_access"
    ∷ codes "aws_private_link"
    ∷ codes "azure_private_link"
    ∷ codes "cloud_provider_tags"
    ∷ codes "cloud_storage"
    ∷ codes "cluster_configuration"
    ∷ codes "gcp_enable_global_access_api_gateway"
    ∷ codes "gcp_private_service_connect"
    ∷ codes "http_proxy"
    ∷ codes "kafka_api"
    ∷ codes "maintenance_window_config"
    ∷ codes "name"
    ∷ codes "read_replica_cluster_ids"
    ∷ codes "redpanda_node_count"
    ∷ codes "schema_registry"
    ∷ codes "throughput_tier"
    ∷ []

abbrev kafka_connect_leaves : List Text
kafka_connect_leaves = codes "kafka_connect.enabled" ∷ []

abbrev rpsql_leaves : List Text
rpsql_leaves = codes "rpsql.enabled" ∷ codes "rpsql.replicas" ∷ codes "rpsql.zones" ∷ []

unfoldable pub leaf_expansions : Text → Option (List Text)
leaf_expansions p =
    if same p (codes "kafka_connect")
    then some kafka_connect_leaves
    else if same p (codes "rpsql")
    then some rpsql_leaves
    else none

abbrev pub leaves_or : Text → Option (List Text) → List Text
leaves_or p none = p ∷ []
leaves_or p (some leaves) = leaves

unfoldable pub expand_leaf_paths : List Text → List Text
expand_leaf_paths [] = []
expand_leaf_paths (p ∷ paths) = leaves_or p (leaf_expansions p) ++ expand_leaf_paths paths

-- A path that the control plane takes: a top-level one, or a leaf.
abbrev pub is_taken : Text → Bool
is_taken p =
    is_path_of p accepted_top_level
    || is_path_of p kafka_connect_leaves
    || is_path_of p rpsql_leaves

-- A path of the provider: one that the control plane takes, or the parent of such leaves.
abbrev pub is_offered : Text → Bool
is_offered p = is_taken p || same p (codes "kafka_connect") || same p (codes "rpsql")

left_out : (a b c : Bool) → (a || b || c) ≡ true → b ≡ false → c ≡ false → a ≡ true
left_out true b c h e f = refl
left_out false true c h e f = cc
left_out false false true h e f = cc
left_out false false false h e f = cc

leaves_or-taken :
    (p : Text)
    → is_offered p ≡ true
    → All (λ q. is_taken q ≡ true) (leaves_or p (leaf_expansions p))
unfolding leaf_expansions same accepted_top_level
leaves_or-taken p h = elim (Bool-cases (same p (codes "kafka_connect"))) [
  | inl e ↦ rw e (refl, tt)
  | inr e ↦ elim (Bool-cases (same p (codes "rpsql"))) [
    | inl f ↦ rw (e, f) (refl, (refl, (refl, tt)))
    | inr f ↦
        rw (e, f)
          (
            left_out (is_taken p) (same p (codes "kafka_connect")) (same p (codes "rpsql")) h e f,
            tt,
          )
  ]
]

-- Where every path of a mask is a top-level path that the control plane takes, or the parent of
-- leaves that it takes, every path of the expanded mask is one that it takes.
pub expand_leaf_paths-taken :
    (paths : List Text)
    → All (λ p. is_offered p ≡ true) paths
    → All (λ p. is_taken p ≡ true) (expand_leaf_paths paths)
unfolding expand_leaf_paths
expand_leaf_paths-taken [] h = tt
expand_leaf_paths-taken (p ∷ paths) (h, hs) =
    All-append (λ q. is_taken q ≡ true) (leaves_or p (leaf_expansions p)) (expand_leaf_paths paths)
      (leaves_or-taken p h) (expand_leaf_paths-taken paths hs)
