-- ===== src/FieldMask/Laws.antt =====
-- An update by the sparse payload and its mask leads to the planned message, and names no field
-- that need not change.
use terraform_provider_redpa.Base.{
  ◌≡◌, refl, sym, ◌∙◌, ◌≢◌, ◌↔◌, inl, inr, Bool, true, false, not, ◌&&◌, ◌||◌, Option, none, some,
  List, [], ◌∷◌, ◌++◌, arith, if◌then◌else◌, Bool-cases, Text, same, same_iff,
}
use terraform_provider_redpa.FieldMask.{
  Message, compare_field, diff_fields, generate_protobuf_diff_and_update_mask,
  plan_payload_with_update_mask,
}
use mathlib.Core.List.{append_assoc, append-nil}

abbrev pub member : Text → List Text → Bool
member k [] = false
member k (j ∷ js) = same j k || member k js

-- What a server does with a field mask: the fields that it names are taken from the payload.
abbrev pub apply_mask {ℓ} :
    {V : Type ℓ} → List Text → (payload old : Text → Option V) → Text → Option V
apply_mask paths payload old = λ k. if member k paths then payload k else old k

append_if :
    (p rest : List Text) (name : Text) (b : Bool)
    → (p ++ (if b then name ∷ [] else [])) ++ rest ≡ p ++ (if b then name ∷ rest else rest)
append_if p rest name true = append_assoc p (name ∷ []) rest
append_if p rest name false = rw (append-nil p)

module _ {V : Type 0} (equal : V → V → Bool)
    (equal_iff : (v w : V) → (equal v w ≡ true) ↔ (v ≡ w)) where
  abbrev differ : Option V → Option V → Bool
  differ none none = false
  differ (some v) none = true
  differ none (some w) = true
  differ (some v) (some w) = not (equal v w)

  differ_iff : (o o' : Option V) → (differ o o' ≡ true) ↔ (o ≢ o')
  differ_iff none none = (λ h. cc, λ h. absurd (h refl))
  differ_iff (some v) none = (λ h e. cc, λ h. refl)
  differ_iff none (some w) = (λ h e. cc, λ h. refl)
  differ_iff (some v) (some w) = ground (arith, equal_iff v w)

  eq_of_differ : (o o' : Option V) → differ o o' ≡ false → o ≡ o'
  eq_of_differ none none h = refl
  eq_of_differ (some v) none h = cc
  eq_of_differ none (some w) h = cc
  eq_of_differ (some v) (some w) h = ground (arith, equal_iff v w)

  module _ (new old : Message V) where
    abbrev changed : List Text → List Text
    changed [] = []
    changed (name ∷ fields) =
        if differ (new name) (old name) then name ∷ changed fields else changed fields

    compare_field-paths :
        (name : Text) (n o : Option V) (acc : Message V × List Text)
        → (compare_field equal name n o acc).1 ≡ acc.1 ++ (if differ n o then name ∷ [] else [])
    compare_field-paths name none none (d, p) = sym (append-nil p)
    compare_field-paths name (some v) none (d, p) = refl
    compare_field-paths name none (some w) (d, p) = refl
    compare_field-paths name (some v) (some w) (d, p) = elim (Bool-cases (equal v w)) [
      | inl e ↦ rw e (sym (append-nil p))
      | inr e ↦ rw e
    ]

    compare_field-diff :
        (name k : Text) (n o : Option V) (acc : Message V × List Text)
        → (compare_field equal name n o acc).0 k
          ≡ (if differ n o && same name k then n else acc.0 k)
    compare_field-diff name k none none (d, p) = refl
    compare_field-diff name k (some v) none (d, p) = refl
    compare_field-diff name k none (some w) (d, p) = refl
    compare_field-diff name k (some v) (some w) (d, p) = elim (Bool-cases (equal v w)) [
      | inl e ↦ rw e
      | inr e ↦ rw e
    ]

    diff_fields-paths :
        (fields : List Text) (acc : Message V × List Text)
        → (diff_fields equal fields new old acc).1 ≡ acc.1 ++ changed fields
    unfolding diff_fields
    diff_fields-paths [] acc = sym (append-nil acc.1)
    diff_fields-paths (name ∷ fields) acc =
        diff_fields-paths fields (compare_field equal name (new name) (old name) acc)
        ∙ rw (compare_field-paths name (new name) (old name) acc)
            (append_if acc.1 (changed fields) name (differ (new name) (old name)))

    diff_fields-diff :
        (fields : List Text) (acc : Message V × List Text) (k : Text)
        → (diff_fields equal fields new old acc).0 k
          ≡ (if member k (changed fields) then new k else acc.0 k)
    unfolding diff_fields
    diff_fields-diff [] acc k = refl
    diff_fields-diff (name ∷ fields) acc k =
        diff_fields-diff fields (compare_field equal name (new name) (old name) acc) k
        ∙ rw (compare_field-diff name k (new name) (old name) acc) (ground (arith, same_iff name k))

    member-changed :
        (fields : List Text) (k : Text)
        → (member k (changed fields) ≡ true) ↔ ((member k fields ≡ true) × (new k ≢ old k))
    member-changed [] k = ground arith
    member-changed (name ∷ fields) k =
        ground (arith, same_iff name k, member-changed fields k, differ_iff (new name) (old name))

    abbrev generated : List Text → Message V × List Text
    generated fields = generate_protobuf_diff_and_update_mask equal fields new old

    generated-paths : (fields : List Text) → (generated fields).1 ≡ changed fields
    unfolding generate_protobuf_diff_and_update_mask
    generated-paths fields = diff_fields-paths fields (λ name. none, [])

    -- Where the comparison of values decides equality, the mask names exactly the fields of the message in which the two sides differ.
    mask_iff :
        (fields : List Text) (k : Text)
        → (member k (generated fields).1 ≡ true) ↔ ((member k fields ≡ true) × (new k ≢ old k))
    mask_iff fields k = rw (generated-paths fields) (member-changed fields k)

    -- Where the comparison of values decides equality, the payload is the new message in the fields that the mask names, and empty elsewhere.
    pub payload_sparse :
        (fields : List Text) (k : Text)
        → (generated fields).0 k ≡ (if member k (generated fields).1 then new k else none)
    unfolding generate_protobuf_diff_and_update_mask
    payload_sparse fields k =
        rw (generated-paths fields) (diff_fields-diff fields (λ name. none, []) k)

    unnamed-eq :
        (fields : List Text) (k : Text)
        → member k fields ≡ true
        → member k (generated fields).1 ≡ false
        → old k ≡ new k
    unnamed-eq fields k h unnamed = elim (Bool-cases (differ (new k) (old k))) [
      | inl d ↦ cc ((mask_iff fields k).1 (h, (differ_iff (new k) (old k)).0 d))
      | inr d ↦ sym (eq_of_differ (new k) (old k) d)
    ]

    -- Where the comparison of values decides equality, an update by the payload and the mask makes of the old message the new one, in every field of
    -- the message; and so does one by the whole new message and the same mask.
    pub update_leads_to_new :
        (fields : List Text) (k : Text)
        → member k fields ≡ true
        → (apply_mask (generated fields).1 (generated fields).0 old k ≡ new k)
          × (apply_mask
                (plan_payload_with_update_mask equal fields new old).1
                (plan_payload_with_update_mask equal fields new old).0
                old
                k
              ≡ new k)
    unfolding plan_payload_with_update_mask
    update_leads_to_new fields k h = elim (Bool-cases (member k (generated fields).1)) [
      | inl named ↦ (rw (named, payload_sparse fields k, named), rw named)
      | inr unnamed ↦
          let same_value = unnamed-eq fields k h unnamed in
          (rw unnamed same_value, rw unnamed same_value)
    ]
