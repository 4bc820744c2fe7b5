-- ===== src/ClusterResource/Planned.antt =====
-- When the plan modifiers of redpanda/resources/cluster/plan_modifiers.go pin a value, and that what
-- they plan is what the control plane answers after the change.
use terraform_provider_redpa.Base.{◌≡◌, ◌≢◌, ◌⊎◌, Bool, true, false, List, [], Text}
use terraform_provider_redpa.Values.{TfValue, null, unknown, known, value_bool}

-- What is planned is unknown, or is the value after the change.
abbrev pub Resolves {ℓ} : {A : Type ℓ} → (planned applied : TfValue A) → Type ℓ
Resolves planned applied = (planned ≡ unknown) ⊎ (planned ≡ applied)

-- The flag is turned on.
abbrev pub Rises : (before after : TfValue Bool) → Type 0
Rises before after = (value_bool after ≡ true) × (value_bool before ≡ false)

abbrev pub IsVacant {ℓ} : {A : Type ℓ} → TfValue (List A) → Type ℓ
IsVacant zones = (zones ≡ null) ⊎ (zones ≡ unknown) ⊎ (zones ≡ known [])

-- The state's value is planned if the cluster exists, the planned value is unknown and `Rest` holds,
-- and the planned value is left alone if not.
abbrev pub PinnedWhere {ℓ} :
    {A : Type ℓ} → (Rest : Type ℓ) → (is_new : Bool) → (planned state out : TfValue A) → Type ℓ
PinnedWhere Rest is_new planned state out =
    ((is_new ≡ false) × (planned ≡ unknown) × Rest × (out ≡ state))
    ⊎ ((¬ ((is_new ≡ false) × (planned ≡ unknown) × Rest)) × (out ≡ planned))

-- And what is planned then resolves to the value after the change.
abbrev pub IsPlanned {ℓ} :
    {A : Type ℓ}
    → (Rest : Type ℓ) → (is_new : Bool) → (planned state applied out : TfValue A) → Type ℓ
IsPlanned Rest is_new planned state applied out =
    PinnedWhere Rest is_new planned state out × Resolves out applied

-- No fresh enabling leaves the zones to the control plane.
abbrev pub ZonesStay {ℓ} :
    {A : Type ℓ} → (config state : TfValue (List A)) → (now before : TfValue Bool) → Type ℓ
ZonesStay config state now before =
    (config ≢ unknown) × (now ≢ unknown) × ¬ (Rises before now × IsVacant state)

abbrev pub GatewayStays : (now before : TfValue Bool) → Type 0
GatewayStays now before = (now ≢ unknown) × (now ≡ before)

abbrev pub TextStays : (state : TfValue Text) → (now before : TfValue Bool) → Type 0
TextStays state now before = (now ≢ unknown) × (state ≢ null) × (value_bool now ≡ value_bool before)
