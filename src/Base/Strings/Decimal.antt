-- ===== src/Base/Strings/Decimal.antt =====
-- strconv.Atoi, on an int of 64 bits.
use Prim.Native.Nat.{ℕ, ◌+◌, ◌-◌, ◌*◌, ◌^◌}
use mathlib.Core.Bool.{Bool, ◌&&◌}
use mathlib.Core.Option.{Option, none, some}
use mathlib.Core.List.{[], ◌∷◌}
use terraform_provider_redpa.Base.Tests.{leb, ◌==◌, if◌then◌else◌}
use terraform_provider_redpa.Base.Strings.Defs.{Text}

-- `negsuc n` is -(n + 1).
pub data ℤ : Type 0 where
  pos : ℕ → ℤ
  negsuc : ℕ → ℤ

abbrev is_digit : ℕ → Bool
is_digit c = leb b'0' c && leb c b'9'

abbrev digits_from : ℕ → Text → Option ℕ
digits_from acc [] = some acc
digits_from acc (c ∷ s) =
    let rest = digits_from (acc * 10 + (c - b'0')) s in if is_digit c then rest else none

abbrev digits : Text → Option ℕ
digits [] = none
digits (c ∷ s) = digits_from 0 (c ∷ s)

abbrev bounded : ℕ → Option ℕ → Option ℕ
bounded most none = none
bounded most (some n) = if leb n most then some n else none

abbrev negated : Option ℕ → Option ℤ
negated none = none
negated (some n) = some (if n == 0 then pos 0 else negsuc (n - 1))

abbrev as_is : Option ℕ → Option ℤ
as_is none = none
as_is (some n) = some (pos n)

-- The number, if the text is one and fits.
unfoldable pub atoi : Text → Option ℤ
atoi [] = none
atoi (c ∷ s) =
    if c == b'-'
    then negated (bounded (2 ^ 63) (digits s))
    else if c == b'+'
    then as_is (bounded (2 ^ 63 - 1) (digits s))
    else as_is (bounded (2 ^ 63 - 1) (digits (c ∷ s)))
