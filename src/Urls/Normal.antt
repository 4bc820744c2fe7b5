-- ===== src/Urls/Normal.antt =====
-- The spellings of a cluster's API URL that are normalized to one.
use terraform_provider_redpa.Base.{
  ℕ, ◌+◌, ◌≤◌, ◌<◌, ◌≡◌, refl, sym, ap, ◌∙◌, ◌≢◌, inl, inr, false, [], ◌∷◌, ◌++◌, arith, ◌==◌,
  if◌then◌else◌, Bool-cases, Option-cases, length, length-append, Text, codes, same, strip,
  trim_prefix, trim_suffix, same_sound, same_refl, strip_sound, trim_prefix-append,
}
use terraform_provider_redpa.Urls.{bare_host, normalize_cluster_api_url}
use mathlib.Core.List.{append_assoc, append-nil}

-- How many slashes a text has.
abbrev slashes : Text → ℕ
slashes [] = 0
slashes (c ∷ s) = (if c == 47 then 1 else 0) + slashes s

slashes-append : (s t : Text) → slashes (s ++ t) ≡ slashes s + slashes t
slashes-append [] t = omega arith
slashes-append (c ∷ s) t = omega (arith, slashes-append s t)

abbrev pub HasNoSlash : Text → Type 0
HasNoSlash s = slashes s ≡ 0

-- A prefix with more slashes than the text is none.
trim_prefix-slashes : (s p : Text) → slashes s < slashes p → trim_prefix s p ≡ s
unfolding trim_prefix
trim_prefix-slashes s p h = elim (Option-cases (strip s p)) [
  | inl none_left ↦ rw none_left refl
  | inr (t, found) ↦
      let split_up : slashes s ≡ slashes p + slashes t =
        ap slashes (strip_sound s p found) ∙ slashes-append p t in
      absurd (omega (arith, split_up))
]

not_longer : (c : ℕ) (s p : Text) → c ∷ (s ++ p) ≢ p
not_longer c s p e =
    let size : length (c ∷ (s ++ p)) ≡ length p = ap length e in omega (arith, length-append s p)

trim_suffix-append : (s p : Text) → p ≢ [] → trim_suffix (s ++ p) p ≡ s
unfolding trim_suffix
trim_suffix-append [] [] h = absurd (h refl)
trim_suffix-append [] (d ∷ p) h = rw (same_refl (d ∷ p)) refl
trim_suffix-append (c ∷ s) p h = elim (Bool-cases (same (c ∷ (s ++ p)) p)) [
  | inl e ↦ absurd (not_longer c s p (same_sound _ _ e))
  | inr e ↦ rw e (ap (λ t. c ∷ t) (trim_suffix-append s p h))
]

same-slash : (c : ℕ) (s : Text) → HasNoSlash (c ∷ s) → same (c ∷ s) (codes "/") ≡ false
same-slash c s h = elim (Bool-cases (same (c ∷ s) (codes "/"))) [
  | inr e ↦ e
  | inl e ↦
      let one : slashes (c ∷ s) ≡ 1 = ap slashes (same_sound (c ∷ s) (codes "/") e) in
      absurd (omega (arith, one, h))
]

trim_suffix-slash : (s : Text) → HasNoSlash s → trim_suffix s (codes "/") ≡ s
unfolding trim_suffix
trim_suffix-slash [] h = refl
trim_suffix-slash (c ∷ s) h =
    let other_end = same-slash c s h in
    rw other_end (ap (λ t. c ∷ t) (trim_suffix-slash s (omega (arith, h))))

-- How a URL may start and end.
pub data Scheme : Type 0 where
  https http bare : Scheme

pub data Ending : Type 0 where
  plain slash port port_slash : Ending

abbrev pub scheme_text : Scheme → Text
scheme_text https = codes "https://"
scheme_text http = codes "http://"
scheme_text bare = []

abbrev pub ending_text : Ending → Text
ending_text plain = []
ending_text slash = codes "/"
ending_text port = codes ":443"
ending_text port_slash = codes ":443/"

slashes-ending : (host : Text) (e : Ending) → HasNoSlash host → slashes (host ++ ending_text e) ≤ 1
slashes-ending host plain h = omega (arith, slashes-append host [], h)
slashes-ending host slash h = omega (arith, slashes-append host (codes "/"), h)
slashes-ending host port h = omega (arith, slashes-append host (codes ":443"), h)
slashes-ending host port_slash h = omega (arith, slashes-append host (codes ":443/"), h)

https-of_http :
    (s : Text) → trim_prefix (codes "http://" ++ s) (codes "https://") ≡ codes "http://" ++ s
unfolding trim_prefix strip
https-of_http s = refl

without_scheme :
    (scheme : Scheme) (s : Text)
    → slashes s ≤ 1
    → trim_prefix (trim_prefix (scheme_text scheme ++ s) (codes "https://")) (codes "http://") ≡ s
without_scheme https s h =
    ap (λ t. trim_prefix t (codes "http://")) (trim_prefix-append (codes "https://") s)
    ∙ trim_prefix-slashes s (codes "http://") (omega (arith, h))
without_scheme http s h =
    ap (λ t. trim_prefix t (codes "http://")) (https-of_http s)
    ∙ trim_prefix-append (codes "http://") s
without_scheme bare s h =
    ap (λ t. trim_prefix t (codes "http://"))
      (trim_prefix-slashes s (codes "https://") (omega (arith, h)))
    ∙ trim_prefix-slashes s (codes "http://") (omega (arith, h))

-- The host loses its ending.
without_ending :
    (host : Text) (e : Ending)
    → HasNoSlash host
    → trim_suffix host (codes ":443") ≡ host
    → trim_suffix (trim_suffix (host ++ ending_text e) (codes "/")) (codes ":443") ≡ host
without_ending host plain h k = rw (append-nil host, trim_suffix-slash host h) k
without_ending host slash h k = rw (trim_suffix-append host (codes "/") (λ e. cc)) k
without_ending host port h k =
    let clean : HasNoSlash (host ++ codes ":443") =
      slashes-append host (codes ":443") ∙ omega (arith, h) in
    rw (trim_suffix-slash (host ++ codes ":443") clean)
      (trim_suffix-append host (codes ":443") (λ e. cc))
without_ending host port_slash h k =
    let regrouped : (host ++ codes ":443") ++ codes "/" ≡ host ++ codes ":443/" =
      append_assoc host (codes ":443") (codes "/") in
    rw (sym regrouped, trim_suffix-append (host ++ codes ":443") (codes "/") (λ e. cc))
      (trim_suffix-append host (codes ":443") (λ e. cc))

normalize_nonempty :
    (s : Text) → s ≢ [] → normalize_cluster_api_url s ≡ codes "https://" ++ bare_host s
unfolding normalize_cluster_api_url
normalize_nonempty [] h = absurd (h refl)
normalize_nonempty (c ∷ s) h = refl

spelled_nonempty :
    (scheme : Scheme) (host : Text) (e : Ending)
    → host ≢ []
    → scheme_text scheme ++ (host ++ ending_text e) ≢ []
spelled_nonempty https host e there = λ h. cc
spelled_nonempty http host e there = λ h. cc
spelled_nonempty bare [] e there = absurd (there refl)
spelled_nonempty bare (c ∷ host) e there = λ h. cc

-- Every spelling of a URL, with https, http or no scheme and with or without port 443 and a slash
-- at the end, becomes https:// and the host, where the host is not empty, holds no slash and does
-- not end in :443 itself.
normalize_cluster_api_url_spelled :
    (scheme : Scheme) (host : Text) (e : Ending)
    → host ≢ []
    → HasNoSlash host
    → trim_suffix host (codes ":443") ≡ host
    → normalize_cluster_api_url (scheme_text scheme ++ (host ++ ending_text e))
      ≡ codes "https://" ++ host
normalize_cluster_api_url_spelled scheme host e there clean no_port =
    let stripped = without_scheme scheme (host ++ ending_text e) (slashes-ending host e clean) in
    normalize_nonempty (scheme_text scheme ++ (host ++ ending_text e))
      (spelled_nonempty scheme host e there)
    ∙ ap (λ t. codes "https://" ++ t)
        (ap (λ t. trim_suffix (trim_suffix t (codes "/")) (codes ":443")) stripped
          ∙ without_ending host e clean no_port)
