-- ===== src/Lookup/Digits.antt =====
-- What the text of an identifier does to the classification of errors: a request's error quotes the
-- cluster's ID, and the test for a missing resource looks for the digits 404 in the whole text.
use terraform_provider_redpa.Base.{
  ◌≡◌, refl, sym, ◌∙◌, inl, inr, true, false, Option, some, [], ◌∷◌, ◌++◌, Text, codes, is_empty,
}
use terraform_provider_redpa.Errors.{GoError, Reply, refused, is_not_found}
use terraform_provider_redpa.Errors.Laws.{is_not_found_by_digits}
use terraform_provider_redpa.Lookup.{
  Wrapping, request_failed, get_by_id, ControlPlane, cluster_for_id, escape_all, escape,
}
use terraform_provider_redpa.Removal.{remove_from_state, handle_graceful_removal}
use terraform_provider_redpa.Removal.Laws.{remove_iff}
use terraform_provider_redpa.Values.{null}
use mathlib.Core.List.{append_assoc}

escape_all-append : (s t : Text) → escape_all (s ++ t) ≡ escape_all s ++ escape_all t
escape_all-append [] t = refl
escape_all-append (c ∷ s) t = rw (escape_all-append s t) (sym (append_assoc (escape c) _ _))

-- An error about an entity whose ID holds the digits 404 reads as not found, whatever went wrong.
get_by_id-digits :
    (wr : Wrapping) {E : Type 0} (kind a b : Text) (get : Text → Reply (Option E)) (err : GoError)
    → get (a ++ (codes "404" ++ b)) ≡ refused err
    → (e : GoError) × (get_by_id wr kind (a ++ (codes "404" ++ b)) get ≡ refused e)
      × (is_not_found (some e) ≡ true)
unfolding get_by_id
get_by_id-digits wr kind a b get err h =
    let front : Text =
      codes "unable to request " ++ (kind ++ (codes " with ID " ++ 34 ∷ escape_all a)) in
    let back : Text = escape_all b ++ (34 ∷ (codes ": " ++ err.text)) in
    rw h (
      wr.wrap (request_failed kind (a ++ (codes "404" ++ b))) err,
      refl,
      is_not_found_by_digits front back _
          (wr.wrap-text _ err ∙ simp (escape_all-append, append_assoc)),
    )

id-not_empty : (a b : Text) → is_empty (a ++ (codes "404" ++ b)) ≡ false
id-not_empty [] b = refl
id-not_empty (c ∷ a) b = refl

-- For a cluster whose ID holds the digits 404, any refused request gives an error that reads as not
-- found, after which HandleGracefulRemoval drops the resource from the state where allow_deletion
-- is null.
pub cluster_for_id-digits :
    (wr : Wrapping) (cp : ControlPlane) (a b : Text) (err : GoError)
    → cp.get_cluster (a ++ (codes "404" ++ b)) ≡ refused err
    → (e : GoError) × (cluster_for_id wr cp (a ++ (codes "404" ++ b)) ≡ refused e)
      × (is_not_found (some e) ≡ true)
      × ((resource_type operation : Text)
          → (handle_graceful_removal resource_type
              (a ++ (codes "404" ++ b))
              null
              (some e)
              operation).0
            ≡ remove_from_state)
unfolding cluster_for_id
cluster_for_id-digits wr cp a b err h =
    let (e, refusal, gone) = get_by_id-digits wr (codes "cluster") a b cp.get_cluster err h in
    (
      e,
      rw (id-not_empty a b) refusal,
      gone,
      λ resource_type operation.
          (remove_iff resource_type (a ++ (codes "404" ++ b)) null (some e) operation).1
            (inr (inl gone), inl refl),
    )
