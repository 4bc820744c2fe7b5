-- ===== src/Errors.antt =====
-- redpanda/utils/utils.go: the errors of the provider, and how it tells them apart.
-- A Go error is a record of what the source observes of it: its text, whether a NotFoundError
-- stands in its chain, and the gRPC status that `status.FromError` finds. `nil` is `none`.
pub mod Laws
use terraform_provider_redpa.Base.{
  ◌≡◌, refl, ◌⊎◌, inl, inr, Text, codes, Bool, true, false, ◌&&◌, ◌||◌, Option, none, some, ◌++◌,
  contains, to_lower, is_empty, if◌then◌else◌, not, [],
}

-- The codes that the source names; the other twelve are `other`.
pub data GrpcCode : Type 0 where
  not_found permission_denied already_exists unavailable internal other : GrpcCode

-- `code_text` is what the code's String method gives, `details` the formatted details if any.
pub record GrpcStatus : Type 0 where
  pub code : GrpcCode
  pub code_text : Text
  pub message : Text
  pub details : Option Text

pub record GoError : Type 0 where
  pub text : Text
  pub has_not_found_error : Bool
  pub status : Option GrpcStatus

abbrev is_not_found_code : GrpcCode → Bool
is_not_found_code not_found = true
is_not_found_code _ = false

abbrev is_permission_denied_code : GrpcCode → Bool
is_permission_denied_code permission_denied = true
is_permission_denied_code _ = false

abbrev is_already_exists_code : GrpcCode → Bool
is_already_exists_code already_exists = true
is_already_exists_code _ = false

abbrev is_unavailable_code : GrpcCode → Bool
is_unavailable_code unavailable = true
is_unavailable_code _ = false

abbrev is_internal_code : GrpcCode → Bool
is_internal_code internal = true
is_internal_code _ = false

-- `ok && test(e.Code())` for the status of an error.
abbrev pub has_code : (GrpcCode → Bool) → GoError → Bool
has_code test err = elim err.status [ none ↦ false | some s ↦ test s.code ]

unfoldable pub is_not_found : Option GoError → Bool
is_not_found none = false
is_not_found (some err) =
    let text = to_lower err.text in
    err.has_not_found_error
    || has_code is_not_found_code err
    || contains text (codes "not found")
    || contains text (codes "notfound")
    || contains text (codes "404")
    || contains text (codes "does not exist")

unfoldable pub is_permission_denied : Option GoError → Bool
is_permission_denied none = false
is_permission_denied (some err) =
    has_code is_permission_denied_code err
    || contains (to_lower err.text) (codes "forbidden")
    || contains (to_lower err.text) (codes "missing required acls")
    || contains err.text (codes "403")

unfoldable pub is_already_exists : Option GoError → Bool
is_already_exists none = false
is_already_exists (some err) =
    let text = to_lower err.text in
    has_code is_already_exists_code err
    || contains text (codes "already exists")
    || contains text (codes "alreadyexists")

-- Both phrases that the gRPC resolver uses stand in the text.
abbrev pub names_no_address : Text → Bool
names_no_address text =
    contains text (codes "name resolver error") && contains text (codes "produced zero addresses")

unfoldable pub is_cluster_unreachable : Option GoError → Bool
is_cluster_unreachable none = false
is_cluster_unreachable (some err) =
    elim err.status [
      | none ↦ false
      | some s ↦ is_unavailable_code s.code && names_no_address s.message
    ]
    || names_no_address err.text

unfoldable pub is_unavailable : Option GoError → Bool
is_unavailable none = false
is_unavailable (some err) =
    has_code is_unavailable_code err
    || contains err.text (codes "503")
    || contains (to_lower err.text) (codes "service unavailable")
    || contains (to_lower err.text) (codes "unavailable")

unfoldable pub is_grpc_internal : Option GoError → Bool
is_grpc_internal none = false
is_grpc_internal (some err) = has_code is_internal_code err

unfoldable pub is_transient_server_error : Option GoError → Bool
is_transient_server_error none = false
is_transient_server_error (some err) = is_unavailable (some err) || has_code is_internal_code err

unfoldable pub is_retryable_byoc_error : Option GoError → Bool
is_retryable_byoc_error none = false
is_retryable_byoc_error (some err) = contains (to_lower err.text) (codes "please retry later")

-- The `switch` of DeserializeGrpcError.
abbrev headline : GrpcStatus → Text → Text
headline st raw =
    if not (is_empty st.message)
    then st.code_text ++ (codes " : " ++ st.message)
    else if not (is_empty raw)
    then st.code_text ++ (codes " (raw: " ++ (raw ++ codes ")"))
    else st.code_text

unfoldable pub deserialize_grpc_error : Option GoError → Text
deserialize_grpc_error none = []
deserialize_grpc_error (some err) = elim err.status [
  | none ↦ err.text
  | some st ↦ elim st.details [
    | none ↦ headline st err.text
    | some d ↦ headline st err.text ++ (codes "\n" ++ d)
  ]
]

-- `errors.New` and `fmt.Errorf` without `%w`.
abbrev pub plain_error : Text → GoError
plain_error text = record { text = text; has_not_found_error = false; status = none }

-- `NotFoundError{text}`.
abbrev pub not_found_error : Text → GoError
not_found_error text = record { text = text; has_not_found_error = true; status = none }

-- What a call that can fail returns: a value or an error.
pub data Reply {ℓ} (A : Type ℓ) : Type ℓ where
  reply : A → Reply A
  refused : GoError → Reply A

pub Reply-cases {ℓ} :
    {A : Type ℓ} (r : Reply A) → ((a : A) × (r ≡ reply a)) ⊎ ((e : GoError) × (r ≡ refused e))
Reply-cases (reply a) = inl (a, refl)
Reply-cases (refused e) = inr (e, refl)
