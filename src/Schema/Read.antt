-- ===== src/Schema/Read.antt =====
-- Schema.Read of redpanda/resources/schema/resource_schema.go.
use terraform_provider_redpa.Base.{
  ◌≡◌, refl, ◌≢◌, ◌⊎◌, inl, inr, true, Option, none, some, List, [], if◌then◌else◌, Bool-cases,
  Text, codes,
}
use terraform_provider_redpa.Errors.{GoError, Reply, reply, refused}
use terraform_provider_redpa.Values.{value_string}
use terraform_provider_redpa.Removal.{
  RemovalAction, remove_from_state, keep_in_state, error_not_handled, Diagnostic,
  handle_graceful_removal,
}
use terraform_provider_redpa.Removal.Laws.{IsGone, MayLeave, errors, remove_iff, error_iff_kept}
use terraform_provider_redpa.Topic.Read.{is_absent}
use terraform_provider_redpa.Schema.Model.{SchemaModel, SubjectSchema, update_from_schema}
use terraform_provider_redpa.Schema.Registry.{
  Registry, SchemaKept, untouched, removed, stored, SchemaResponse, connect, fetch_schema,
  get_version, store_with_level, store_with_level-cases, IsLeveled, IsStored,
}

module _ {W : Type 0} (registry : Registry W) (state : SchemaModel) where
  abbrev subject : Text
  subject = value_string state.subject

  abbrev kept_after : RemovalAction → SchemaKept
  kept_after remove_from_state = removed
  kept_after keep_in_state = untouched
  kept_after error_not_handled = untouched

  abbrev removal : Text → GoError → RemovalAction × List Diagnostic
  removal operation err =
      handle_graceful_removal (codes "schema") subject state.allow_deletion (some err) operation

  abbrev gracefully : Text → GoError → W → SchemaResponse W
  gracefully operation err o = let r = removal operation err in (r.1, kept_after r.0, o)

  -- UpdateFromSchema, with the password of the state put back.
  abbrev pub refreshed : SubjectSchema → SchemaModel
  refreshed answer = record (update_from_schema registry.bodies answer state) {
    password = state.password;
  }

  abbrev fetched : Reply SubjectSchema × W → SchemaResponse W
  fetched (refused err, o) = gracefully (codes "read schema") err o
  fetched (reply answer, o) = store_with_level registry subject (refreshed answer) o

  abbrev refresh_connected : W × Option GoError → SchemaResponse W
  refresh_connected (o, some err) = gracefully (codes "create schema registry client") err o
  refresh_connected (o, none) =
      fetched (fetch_schema registry subject (get_version registry state) o)

  unfoldable pub read_schema_resource : W → SchemaResponse W
  read_schema_resource o =
      if is_absent state.cluster_id
      then ([], removed, o)
      else refresh_connected (connect registry state o)

  -- An error of the client, or of the request for the schema.
  abbrev pub SchemaRefreshError : GoError → Type 0
  SchemaRefreshError err =
      ((o : W) × (s : W) × (connect registry state o ≡ (s, some err)))
      ⊎ ((o : W) × (s : W) × (fetch_schema registry subject (get_version registry state) o
            ≡ (refused err, s)))

  abbrev pub SchemaRefreshExplained : SchemaResponse W → Type 0
  SchemaRefreshExplained (ds, untouched, s) = errors ds ≢ 0
  SchemaRefreshExplained (ds, removed, s) =
      (errors ds ≡ 0)
      × ((is_absent state.cluster_id ≡ true)
          ⊎ ((err : GoError) × IsGone (some err)
              × MayLeave state.allow_deletion
              × SchemaRefreshError err))
  SchemaRefreshExplained (ds, stored m, s) =
      (ds ≡ [])
      × (answer : SubjectSchema) × (o : W) × (o' : W) × (fetch_schema registry subject
            (get_version registry state) o
          ≡ (reply answer, o'))
      × IsLeveled registry subject (refreshed answer) m o' s

  gracefully-Explained :
      (operation : Text) (err : GoError) (s : W)
      → SchemaRefreshError err
      → SchemaRefreshExplained (gracefully operation err s)
  gracefully-Explained operation err s e =
      elim (error_iff_kept (codes "schema") subject state.allow_deletion (some err) operation) [
        | inl (left, no_error, h) ↦
            let (gone, allowed) =
              (remove_iff (codes "schema") subject state.allow_deletion (some err) operation).0
                left in
            rw left (no_error, inr (err, gone, allowed, e))
        | inr (stays, one, h) ↦ other (removal operation err).0 refl stays one
      ]
    where
      other :
          (a : RemovalAction)
          → (removal operation err).0 ≡ a
          → (removal operation err).0 ≢ remove_from_state
          → errors (removal operation err).1 ≡ 1
          → SchemaRefreshExplained ((removal operation err).1, kept_after a, s)
      other remove_from_state e stays one = absurd (stays e)
      other keep_in_state e stays one = λ none. cc
      other error_not_handled e stays one = λ none. cc

  -- If Read leaves the state alone, it reports an error. If it removes the resource, it reports no
  -- error, and the state holds no cluster, or else allow_deletion is null or true and the client or
  -- the request for the schema gave an error that reads as not found, as an unreachable cluster or
  -- as a refused permission. If it stores a state, it reports nothing, and the state is updated from
  -- an answer of the registry, with its password kept and the level that the registry answered next.
  pub read_schema_resource-Explained : (o : W) → SchemaRefreshExplained (read_schema_resource o)
  unfolding read_schema_resource
  read_schema_resource-Explained o = elim (Bool-cases (is_absent state.cluster_id)) [
    | inl absent ↦ rw absent (refl, inl absent)
    | inr there ↦ rw there (connected (connect registry state o) refl)
  ]
    where
      finished :
          (answer : SubjectSchema) (o₀ s₀ : W) (r : SchemaResponse W)
          → fetch_schema registry subject (get_version registry state) o₀ ≡ (reply answer, s₀)
          → IsStored registry subject (refreshed answer) s₀ r
          → SchemaRefreshExplained r
      finished answer o₀ s₀ (ds, untouched, s) e (inl (some_error, kept)) = some_error
      finished answer o₀ s₀ (ds, untouched, s) e (inr (no_error, n, kept, h)) = absurd (cc)
      finished answer o₀ s₀ (ds, removed, s) e (inl (some_error, kept)) = absurd (cc)
      finished answer o₀ s₀ (ds, removed, s) e (inr (no_error, n, kept, h)) = absurd (cc)
      finished answer o₀ s₀ (ds, stored m, s) e (inl (some_error, kept)) = absurd (cc)
      finished answer o₀ s₀ (ds, stored m, s) e (inr (no_error, n, kept, h)) =
          let one : m ≡ n = cc in (no_error, answer, o₀, s₀, e, rw one h)

      answered :
          (o₀ : W) (q : Reply SubjectSchema × W)
          → fetch_schema registry subject (get_version registry state) o₀ ≡ q
          → SchemaRefreshExplained (fetched q)
      answered o₀ (refused err, s) e =
          gracefully-Explained (codes "read schema") err s (inr (o₀, s, e))
      answered o₀ (reply answer, s) e =
          finished answer o₀ s (store_with_level registry subject (refreshed answer) s) e
            (store_with_level-cases registry subject (refreshed answer) s)

      connected :
          (r : W × Option GoError)
          → connect registry state o ≡ r
          → SchemaRefreshExplained (refresh_connected r)
      connected (s, some err) e =
          gracefully-Explained (codes "create schema registry client") err s (inl (o, s, e))
      connected (s, none) e =
          answered s (fetch_schema registry subject (get_version registry state) s) refl
