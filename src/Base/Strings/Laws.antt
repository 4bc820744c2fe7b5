-- ===== src/Base/Strings/Laws.antt =====
-- Laws of the text operations.
use mathlib.Core.Path.{◌≡◌, refl}
use mathlib.Core.Logic.{◌↔◌}
use mathlib.Core.Bool.{true}
use mathlib.Core.Option.{some}
use mathlib.Core.List.{[], ◌∷◌, ◌++◌, map-append}
use native.Mathlib.Omega.{arith}
use terraform_provider_redpa.Base.Tests.{==_refl}
use terraform_provider_redpa.Base.Strings.Defs.{
  Text, same, strip, has_prefix, trim_prefix, contains, to_lower,
}

pub same_sound : (s t : Text) → same s t ≡ true → s ≡ t
unfolding same
same_sound [] [] h = refl
same_sound [] (d ∷ t) h = cc
same_sound (c ∷ s) [] h = cc
same_sound (c ∷ s) (d ∷ t) h = ground (arith, same_sound s t)

pub same_refl : (s : Text) → same s s ≡ true
unfolding same
same_refl [] = refl
same_refl (c ∷ s) = rw (==_refl c) (same_refl s)

pub same_iff : (s t : Text) → (same s t ≡ true) ↔ (s ≡ t)
same_iff s t = (same_sound s t, λ e. rw e (same_refl t))

pub strip-append : (p s : Text) → strip (p ++ s) p ≡ some s
unfolding strip
strip-append [] s = refl
strip-append (c ∷ p) s = rw (==_refl c) (strip-append p s)

pub strip_sound : (s p : Text) {t : Text} → strip s p ≡ some t → s ≡ p ++ t
unfolding strip
strip_sound s [] h = cc
strip_sound [] (d ∷ p) h = cc
strip_sound (c ∷ s) (d ∷ p) {t} h = ground (arith, strip_sound s p {t = t})

pub has_prefix-append : (p s : Text) → has_prefix (p ++ s) p ≡ true
unfolding has_prefix
has_prefix-append p s = rw (strip-append p s)

pub trim_prefix-append : (p s : Text) → trim_prefix (p ++ s) p ≡ s
unfolding trim_prefix
trim_prefix-append p s = rw (strip-append p s)

-- A text that contains `p` goes on doing so when something is put before or behind it.
pub contains-append_middle : (a p b : Text) → contains (a ++ (p ++ b)) p ≡ true
unfolding contains
contains-append_middle [] [] [] = refl
contains-append_middle [] [] (c ∷ b) = refl
contains-append_middle [] (c ∷ p) b = rw (has_prefix-append (c ∷ p) b)
contains-append_middle (c ∷ a) p b = ground (arith, contains-append_middle a p b)

pub to_lower-append : (s t : Text) → to_lower (s ++ t) ≡ to_lower s ++ to_lower t
unfolding to_lower
to_lower-append s t = map-append _ s t
