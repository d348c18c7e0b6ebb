-- ===== src/Base/Integers.antt =====
-- Go's signed integers of 64 bits, and `strconv.Atoi`.
use Prim.Native.Nat.{ℕ, zero, suc, ◌+◌, ◌-◌, ◌*◌, ◌^◌}
use mathlib.Core.Bool.{Bool, true, false, ◌&&◌}
use mathlib.Core.List.{[], ◌∷◌}
use mathlib.Core.Option.{Option, none, some}
use compose_manager.Base.Tests.{leb, ltb, ◌==◌, if◌then◌else◌}
use compose_manager.Base.Texts.{Text}

pub data ℤ : Type 0 where
  pos : ℕ → ℤ
  negsuc : ℕ → ℤ

abbrev pub is_digit : ℕ → Bool
is_digit c = leb b'0' c && leb c b'9'

-- The value of decimal digits, the most significant first, after those of `acc`.
unfoldable pub digits : ℕ → Text → Option ℕ
digits acc [] = some acc
digits acc (c ∷ s) =
    let rest = digits (acc * 10 + (c - b'0')) s in if is_digit c then rest else none

-- The value with the error aside; what is out of range gives the nearest integer and an error.
abbrev pub clamp_pos : Option ℕ → ℤ × Bool
clamp_pos none = (pos 0, false)
clamp_pos (some n) = if ltb n (2 ^ 63) then (pos n, true) else (pos (2 ^ 63 - 1), false)

abbrev pub clamp_neg : Option ℕ → ℤ × Bool
clamp_neg none = (pos 0, false)
clamp_neg (some zero) = (pos 0, true)
clamp_neg (some (suc n)) = if ltb n (2 ^ 63) then (negsuc n, true) else (negsuc (2 ^ 63 - 1), false)

abbrev number : Text → Option ℕ
number [] = none
number (c ∷ s) = digits 0 (c ∷ s)

-- `strconv.Atoi`, and `strconv.ParseInt(s, 10, 64)`: the value, and whether there is no error.
unfoldable pub atoi : Text → ℤ × Bool
unfolding digits
atoi [] = (pos 0, false)
atoi (c ∷ s) =
    if c == b'-'
    then clamp_neg (number s)
    else if c == b'+'
    then clamp_pos (number s)
    else clamp_pos (number (c ∷ s))
