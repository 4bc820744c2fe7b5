-- ===== src/Base/Strings/Defs.antt =====
-- Package `strings` over lists of bytes, with Go's argument order.
use Prim.Native.Nat.{ℕ, ◌+◌}
use Prim.Native.Char.{code}
use Prim.Native.String.{String}
use mathlib.Core.Bool.{Bool, true, false, ◌&&◌, ◌||◌}
use mathlib.Core.Option.{Option, none, some}
use mathlib.Core.List.{List, [], ◌∷◌, ◌++◌, map, reverse}
use terraform_provider_redpa.Base.Tests.{leb, ◌==◌, if◌then◌else◌, is_some}

abbrev pub Text : Type 0
Text = List ℕ

-- The bytes of an ASCII literal.
abbrev pub codes : String → Text
codes String.[] = []
codes (String.◌∷◌ c s) = code c ∷ codes s

-- `s == t`.
unfoldable pub same : Text → Text → Bool
same [] [] = true
same [] (d ∷ t) = false
same (c ∷ s) [] = false
same (c ∷ s) (d ∷ t) = c == d && same s t

abbrev pub is_empty {ℓ} : {A : Type ℓ} → List A → Bool
is_empty [] = true
is_empty (c ∷ s) = false

-- What stands behind the prefix `p`, if `s` has it.
unfoldable pub strip : Text → Text → Option Text
strip s [] = some s
strip [] (d ∷ p) = none
strip (c ∷ s) (d ∷ p) = if c == d then strip s p else none

unfoldable pub has_prefix : Text → Text → Bool
unfolding strip
has_prefix s p = is_some (strip s p)

abbrev pub or_else {ℓ} : {A : Type ℓ} → Option A → A → A
or_else none d = d
or_else (some a) d = a

unfoldable pub trim_prefix : Text → Text → Text
unfolding strip
trim_prefix s p = or_else (strip s p) s

unfoldable pub trim_suffix : Text → Text → Text
unfolding same
trim_suffix [] p = []
trim_suffix (c ∷ s) p = if same (c ∷ s) p then [] else c ∷ trim_suffix s p

unfoldable pub contains : Text → Text → Bool
unfolding has_prefix
contains [] p = has_prefix [] p
contains (c ∷ s) p = has_prefix (c ∷ s) p || contains s p

abbrev pub lower : ℕ → ℕ
lower c = if leb b'A' c && leb c b'Z' then c + 32 else c

unfoldable pub to_lower : Text → Text
to_lower s = map lower s

-- `strings.SplitN(s, sep, 2)`: the parts before and behind the first `sep`, if there is one.
unfoldable pub cut : Text → Text → Option (Text × Text)
unfolding strip
cut [] sep = elim (strip [] sep) [ none ↦ none | some t ↦ some ([], t) ]
cut (c ∷ s) sep = elim (strip (c ∷ s) sep) [
  | some t ↦ some ([], t)
  | none ↦ elim (cut s sep) [ none ↦ none | some (h, t) ↦ some (c ∷ h, t) ]
]

abbrev push_part : ℕ → List Text → List Text
push_part c [] = (c ∷ []) ∷ []
push_part c (p ∷ ps) = (c ∷ p) ∷ ps

-- `strings.Split(s, sep)` at a separator of one byte.
unfoldable pub split : Text → ℕ → List Text
split [] sep = [] ∷ []
split (c ∷ s) sep = let rest = split s sep in if c == sep then [] ∷ rest else push_part c rest

abbrev drop_while : (ℕ → Bool) → Text → Text
drop_while p [] = []
drop_while p (c ∷ s) = let rest = drop_while p s in if p c then rest else c ∷ s

-- `strings.TrimFunc(s, p)`.
unfoldable pub trim_func : Text → (ℕ → Bool) → Text
trim_func s p = reverse (drop_while p (reverse (drop_while p s)))

abbrev is_space : ℕ → Bool
is_space c = c == 32 || leb 9 c && leb c 13

unfoldable pub trim_space : Text → Text
unfolding trim_func
trim_space s = trim_func s is_space

-- `strings.Trim(s, "\"")`.
unfoldable pub trim_quotes : Text → Text
unfolding trim_func
trim_quotes s = trim_func s (λ c. c == 34)

-- `strings.Join(parts, sep)`.
unfoldable pub join : List Text → Text → Text
join [] sep = []
join (p ∷ []) sep = p
join (p ∷ q ∷ ps) sep = p ++ (sep ++ join (q ∷ ps) sep)
