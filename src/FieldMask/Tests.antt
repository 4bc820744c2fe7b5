-- ===== src/FieldMask/Tests.antt =====
-- An update of one field of three.
use terraform_provider_redpa.Base.{
  ℕ, ◌≡◌, refl, none, some, List, [], ◌∷◌, ◌==◌, if◌then◌else◌, ==_iff, Text, codes, same,
}
use terraform_provider_redpa.FieldMask.{
  Message, generate_protobuf_diff_and_update_mask, plan_payload_with_update_mask,
}
use terraform_provider_redpa.FieldMask.Laws.{apply_mask, update_leads_to_new}

abbrev names : List Text
names = codes "id" ∷ codes "name" ∷ codes "zone" ∷ []

abbrev before : Message ℕ
before = λ k. if same k (codes "id") then some 1 else if same k (codes "zone") then some 5 else none

abbrev after : Message ℕ
after = λ k. if same k (codes "id") then some 1 else if same k (codes "name") then some 7 else none

one_mask :
    (generate_protobuf_diff_and_update_mask ◌==◌ names after before).1
    ≡ codes "name" ∷ codes "zone" ∷ []
unfolding generate_protobuf_diff_and_update_mask same
one_mask = refl

update_leads_to_new_example :
    let (diff, mask) = generate_protobuf_diff_and_update_mask ◌==◌ names after before in
    let (plan, same_mask) = plan_payload_with_update_mask ◌==◌ names after before in
    (apply_mask mask diff before (codes "zone") ≡ after (codes "zone"))
    × (apply_mask same_mask plan before (codes "zone") ≡ after (codes "zone"))
unfolding same
update_leads_to_new_example = update_leads_to_new ◌==◌ ==_iff after before names (codes "zone") refl
