-- ===== src/Lookup/Tests.antt =====
-- Lookups against a small control plane.
use terraform_provider_redpa.Base.{
  ◌≡◌, refl, ◌↔◌, true, false, none, some, List, [], ◌∷◌, ◌++◌, if◌then◌else◌, Text, codes, same,
}
use terraform_provider_redpa.Errors.{GoError, internal, reply, refused, is_not_found}
use terraform_provider_redpa.Lookup.{
  Wrapping, ResourceGroup, Cluster, ControlPlane, cluster_for_id, serverless_cluster_for_id,
  resource_group_for_id_or_name, dataplane_url_for_cluster, get_by_id, resource_group_for_id,
}
use terraform_provider_redpa.Lookup.Laws.{UrlSource, dataplane_url_for_cluster_iff}
use terraform_provider_redpa.Lookup.Digits.{cluster_for_id-digits}
use terraform_provider_redpa.Removal.{remove_from_state, handle_graceful_removal}
use terraform_provider_redpa.Values.{null}

abbrev prefixing : Wrapping
prefixing = record {
  wrap = λ t err. record err { text = t ++ err.text };
  wrap-text = λ t err. refl;
}

abbrev broken : GoError
broken = record {
  text = codes "boom";
  has_not_found_error = false;
  status = some (record {
    code = internal;
    code_text = codes "Internal";
    message = codes "boom";
    details = none;
  });
}

abbrev blue : ResourceGroup
blue = record { id = codes "g2"; name = codes "blue" }

abbrev groups : List ResourceGroup
groups = record { id = codes "g1"; name = codes "bluegreen" } ∷ blue ∷ []

abbrev ready : Cluster
ready = record {
  id = codes "c1";
  name = codes "prod";
  dataplane_api = some (record { url = codes "https://api-1" });
}

abbrev plane : ControlPlane
plane = record {
  get_cluster = λ id. if same id (codes "c1") then reply (some ready) else refused broken;
  list_clusters = λ name. reply (ready ∷ []);
  get_serverless_cluster = λ id. refused broken;
  get_resource_group = λ id. reply (some blue);
  list_resource_groups = λ name. reply groups;
  all_resource_groups = reply (some groups);
  create_resource_group = λ name. reply (some blue);
}

by_id_and_name :
    resource_group_for_id_or_name prefixing plane (codes "g2") (codes "blue") ≡ reply blue
unfolding resource_group_for_id_or_name resource_group_for_id get_by_id same
by_id_and_name = refl

dataplane_url_for_cluster_iff_example :
    (dataplane_url_for_cluster prefixing plane (codes "c1") ≡ reply (codes "https://api-1"))
    ↔ UrlSource
        (cluster_for_id prefixing plane (codes "c1"))
        (serverless_cluster_for_id prefixing plane (codes "c1"))
        (codes "https://api-1")
dataplane_url_for_cluster_iff_example =
    dataplane_url_for_cluster_iff prefixing plane (codes "c1") (codes "https://api-1")

cluster_for_id-digits_example :
    (e : GoError) × (cluster_for_id prefixing plane (codes "cq404ab") ≡ refused e)
    × (is_not_found (some e) ≡ true)
    × ((resource_type operation : Text)
        → (handle_graceful_removal resource_type (codes "cq404ab") null (some e) operation).0
          ≡ remove_from_state)
unfolding same
cluster_for_id-digits_example =
    cluster_for_id-digits prefixing plane (codes "cq") (codes "ab") broken refl
