-- ===== src/Prelude/Decimals.antt =====
-- Python's `Decimal`, as `as_tuple` shows it, and its value at a fixed number of decimal places.
use Prim.Native.Nat.{ℕ, ◌*◌, ◌^◌}
use mathlib.Core.Path.{◌≡◌}
use mathlib.Core.Bool.{Bool, false}
use mathlib.Core.Option.{Option, none, some}
use native.Mathlib.Omega.{arith}
use openleg.Prelude.Tests.{if◌then◌else◌}
use openleg.Prelude.Int.{ℤ, pos, negsuc, pos_part, negate, ltb_ℤ, ◌+ℤ◌}

-- A finite decimal: `coefficient` is the number that its digits spell.
pub record Number : Type 0 where
  pub negative : Bool
  pub coefficient : ℕ
  pub exponent : ℤ

pub data Decimal : Type 0 where
  nan : Decimal
  infinite : Bool → Decimal
  number : Number → Decimal

-- The value times 10 ^ places, where the exponent is not below -places.
unfoldable pub at_scale : ℕ → Number → Option ℤ
at_scale places n =
    let shift = n.exponent +ℤ pos places in
    let size = n.coefficient * 10 ^ pos_part shift in
    if ltb_ℤ shift (pos 0) then none else some (if n.negative then negate size else pos size)

-- What `value.is_finite() and -value.as_tuple().exponent <= 2` lets through, in hundredths.
unfoldable pub hundredths : Decimal → Option ℤ
unfolding at_scale
hundredths Decimal.nan = none
hundredths (Decimal.infinite negative) = none
hundredths (Decimal.number n) = at_scale 2 n

-- A value that a column with two decimal places holds.
abbrev pub column : ℕ → Decimal
column n = Decimal.number (record { negative = false; coefficient = n; exponent = negsuc 1 })

pub hundredths-column : (n : ℕ) → hundredths (column n) ≡ some (pos n)
unfolding hundredths at_scale ◌+ℤ◌
hundredths-column n = ground arith
