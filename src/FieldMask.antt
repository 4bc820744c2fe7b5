-- ===== src/FieldMask.antt =====
-- redpanda/utils/protobuf.go: the sparse payload and the field mask of an update.
-- A message is what `Has` and `Get` tell of its top-level fields; the descriptor lists their names.
pub mod Laws
mod Tests
use terraform_provider_redpa.Base.{
  ℕ, zero, suc, ◌+◌, ◌-◌, ◌*◌, ◌/◌, ◌%◌, ◌^◌, ◌≤◌, ◌<◌, ◌≡◌, refl, sym, ap, ◌∙◌, ◌≢◌, ◌↔◌, ◌⊎◌, inl,
  inr, Bool, true, false, not, ◌&&◌, ◌||◌, Option, none, some, List, [], ◌∷◌, ◌++◌, map, arith, ltb,
  leb, ◌==◌, if◌then◌else◌, ltb→lt, ==_iff, ==_refl, Bool-cases, is_some, Option-cases, length,
  drop, length-append, length-drop, drop-append, All, All-append, Text, codes, same, is_empty,
  strip, has_prefix, or_else, trim_prefix, trim_suffix, contains, to_lower, cut, split, trim_func,
  trim_space, trim_quotes, join, same_sound, same_refl, same_iff, strip-append, strip_sound,
  has_prefix-append, trim_prefix-append, contains-append_middle, to_lower-append, Dict, lookup,
  insert, delete, lookup-insert, lookup-delete,
}

abbrev pub Message : Type 0 → Type 0
Message V = Text → Option V

-- `Set` and `Clear` of one field.
abbrev pub assign {ℓ} : {V : Type ℓ} → Text → Option V → (Text → Option V) → Text → Option V
assign name v m = λ k. if same name k then v else m k

-- `equal` is protoreflect's Value.Equal.
module _ {V : Type 0} (equal : V → V → Bool) where
  -- One round of the loop, by the presence of the field on either side.
  abbrev compare_field : Text → Option V → Option V → Message V × List Text → Message V × List Text
  compare_field name none none (diff, paths) = (diff, paths)
  compare_field name (some v) none (diff, paths) = (assign name (some v) diff, paths ++ name ∷ [])
  compare_field name none (some w) (diff, paths) = (assign name none diff, paths ++ name ∷ [])
  compare_field name (some v) (some w) (diff, paths) =
      if not (equal v w) then (assign name (some v) diff, paths ++ name ∷ []) else (diff, paths)

  diff_fields :
      List Text
      → (new_message old_message : Message V) → Message V × List Text
      → Message V × List Text
  diff_fields [] new_message old_message acc = acc
  diff_fields (name ∷ fields) new_message old_message acc =
      diff_fields fields new_message old_message
        (compare_field name (new_message name) (old_message name) acc)

  unfoldable pub generate_protobuf_diff_and_update_mask :
      (fields : List Text) (new_message old_message : Message V) → Message V × List Text
  unfolding diff_fields
  generate_protobuf_diff_and_update_mask fields new_message old_message =
      diff_fields fields new_message old_message (λ name. none, [])

  unfoldable pub plan_payload_with_update_mask :
      (fields : List Text) (new_message old_message : Message V) → Message V × List Text
  plan_payload_with_update_mask fields new_message old_message =
      (new_message, (generate_protobuf_diff_and_update_mask fields new_message old_message).1)
