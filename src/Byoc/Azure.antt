-- ===== src/Byoc/Azure.antt =====
-- How the Azure authentication method is chosen.
use terraform_provider_redpa.Base.{
  ◌+◌, ◌≤◌, ◌≡◌, refl, ap, ◌∙◌, ◌≢◌, inl, inr, Bool, true, false, ◌||◌, List, [], ◌∷◌, ◌++◌, arith,
  if◌then◌else◌, Bool-cases, length, Text, is_empty, Dict,
}
use terraform_provider_redpa.Errors.{Reply, reply, refused}
use terraform_provider_redpa.Byoc.Client.{
  ByocClient, environ, ◌>>=◌, get_env_boolean, AuthMethod, auth_methods, method_args, choose_method,
  choose_methods, fallback_args, subscription_args, azure_env, with_subscription,
  generate_azure_args_and_env,
}
use mathlib.Core.List.{append_assoc, append-nil}

pub >>=-eq-reply {ℓ κ} :
    {A : Type ℓ} {B : Type κ} (m : Reply A) (k : A → Reply B) {b : B}
    → (m >>= k) ≡ reply b
    → (a : A) × (m ≡ reply a) × (k a ≡ reply b)
>>=-eq-reply (reply a) k h = (a, refl, h)
>>=-eq-reply (refused e) k h = cc

-- The methods whose variables read true, where all variables can be read.
abbrev pub selected : Dict Text → List AuthMethod → Reply (List AuthMethod)
selected env [] = reply []
selected env (m ∷ ms) = do
  wanted ← get_env_boolean env m.env_name
  others ← selected env ms
  reply (if wanted then m ∷ others else others)

abbrev pub args_of : List AuthMethod → List Text
args_of [] = []
args_of (m ∷ ms) = method_args m ++ args_of ms

abbrev pub is_chosen : List AuthMethod → Bool
is_chosen [] = false
is_chosen (m ∷ ms) = true

-- What a successful choice says, by whether a method was seen before.
abbrev ChoiceHolds : Dict Text → List AuthMethod → Bool → List Text → Bool × List Text → Type 0
ChoiceHolds env ms seen args (seen', args') =
    (chosen : List AuthMethod) × (selected env ms ≡ reply chosen)
    × (length chosen + (if seen then 1 else 0) ≤ 1)
    × (seen' ≡ seen || is_chosen chosen)
    × (args' ≡ args ++ args_of chosen)

-- The round for a method that was read.
chosen-holds :
    (env : Dict Text) (m : AuthMethod) (ms : List AuthMethod) (seen wanted : Bool)
    (args : List Text) (r : Bool × List Text)
    → get_env_boolean env m.env_name ≡ reply wanted
    → ((next : Bool × List Text)
        → choose_method m seen args wanted ≡ reply next
        → ChoiceHolds env ms next.0 next.1 r)
    → (next : Bool × List Text) → choose_method m seen args wanted ≡ reply next
    → ChoiceHolds env (m ∷ ms) seen args r
chosen-holds env m ms seen false args (seen', args') ok rec next h =
    let (chosen, found, few, marked, grown) = rec (seen, args) refl in
    (chosen, rw (ok, found), few, marked, grown)
chosen-holds env m ms true true args (seen', args') ok rec next h = cc
chosen-holds env m ms false true args (seen', args') ok rec next h =
    let (chosen, found, few, marked, grown) = rec (true, args ++ method_args m) refl in
    (
      m ∷ chosen,
      rw (ok, found),
      omega arith,
      marked,
      grown ∙ append_assoc args (method_args m) (args_of chosen),
    )

choose_methods-holds :
    (env : Dict Text) (ms : List AuthMethod) (seen : Bool) (args : List Text) (r : Bool × List Text)
    → choose_methods env ms (seen, args) ≡ reply r
    → ChoiceHolds env ms seen args r
unfolding choose_methods
choose_methods-holds env [] true args (seen', args') h =
    ([], refl, omega arith, ground arith, ground (arith, append-nil args))
choose_methods-holds env [] false args (seen', args') h =
    ([], refl, omega arith, ground arith, ground (arith, append-nil args))
choose_methods-holds env (m ∷ ms) seen args r h =
    let (wanted, ok, more) = >>=-eq-reply (get_env_boolean env m.env_name) _ h in
    let (next, chosen, rest) = >>=-eq-reply (choose_method m seen args wanted) _ more in
    chosen-holds env m ms seen wanted args r ok (λ n e. choose_methods-holds env ms n.0 n.1 r (cc))
      next chosen

with_subscription-holds :
    (cl : ByocClient) (env : Dict Text) (seen : Bool) (chosen args vars : List Text)
    → with_subscription cl env (seen, chosen) ≡ reply (args, vars)
    → (cl.azure_subscription_id ≢ [])
      × (args ≡ (chosen ++ fallback_args cl env seen) ++ subscription_args cl)
      × (vars ≡ azure_env (environ env))
with_subscription-holds cl env seen chosen args vars h =
    elim (Bool-cases (is_empty cl.azure_subscription_id)) [
      | inl missing ↦ cc (rw missing at h)
      | inr given ↦ let made = rw given at h in (λ e. cc (ap is_empty e), cc (made), cc (made))
    ]

azure_sound :
    (cl : ByocClient) (env : Dict Text) (ms : List AuthMethod) (args vars : List Text)
    → (choose_methods env ms (false, []) >>= with_subscription cl env) ≡ reply (args, vars)
    → (chosen : List AuthMethod) × (selected env ms ≡ reply chosen)
      × (length chosen ≤ 1)
      × (cl.azure_subscription_id ≢ [])
      × (args ≡ (args_of chosen ++ fallback_args cl env (is_chosen chosen)) ++ subscription_args cl)
      × (vars ≡ azure_env (environ env))
azure_sound cl env ms args vars h =
    let (r, made, rest) = >>=-eq-reply (choose_methods env ms (false, [])) _ h in
    let (chosen, found, few, marked, named) = choose_methods-holds env ms false [] r made in
    let (given, same_args, same_vars) = with_subscription-holds cl env r.0 r.1 args vars rest in
    (chosen, found, omega arith, given, same_args ∙ rw (marked, named), same_vars)

-- Arguments for Azure are made only if all four variables can be read, at most one of them is
-- true, and a subscription is set; they name the method of that one, or else the fallback, and then
-- the subscription and the client; the environment is the ARM_ variables under AZURE_ names.
pub generate_azure_args_and_env_sound :
    (cl : ByocClient) (env : Dict Text) (args vars : List Text)
    → generate_azure_args_and_env cl env ≡ reply (args, vars)
    → (chosen : List AuthMethod) × (selected env auth_methods ≡ reply chosen)
      × (length chosen ≤ 1)
      × (cl.azure_subscription_id ≢ [])
      × (args ≡ (args_of chosen ++ fallback_args cl env (is_chosen chosen)) ++ subscription_args cl)
      × (vars ≡ azure_env (environ env))
unfolding generate_azure_args_and_env
generate_azure_args_and_env_sound cl env args vars h = azure_sound cl env auth_methods args vars h
