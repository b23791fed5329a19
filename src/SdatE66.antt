-- ===== src/SdatE66.antt =====
-- sdat_e66.py, `exact_e66_kwh`: a meter reading as a decimal, taken over exactly on the grid of
-- 0.001 kWh. A decimal is the tuple that `as_tuple` gives, with the most significant digit first.
pub mod Zeros
pub mod Thousandths
pub mod Exact
mod Tests
use openleg.Prelude.Int.{ℤ, pos, negsuc, pos_part, neg_part, ltb_ℤ, ◌+ℤ◌}
use openleg.Prelude.Sorting.{first}
use openleg.Prelude.{
  ℕ, zero, suc, ◌+◌, ◌-◌, ◌*◌, ◌^◌, ◌==◌, Bool, true, false, ◌&&◌, not, List, [], ◌∷◌, length, ltb,
  leb, if◌then◌else◌, Result, ok, err,
}

pub record Digits : Type 0 where
  pub negative : Bool
  pub digits : List ℕ
  pub exponent : ℤ

pub data Decimal : Type 0 where
  -- an infinity or a NaN
  not_finite : Decimal
  finite : Digits → Decimal

-- numerator / denominator; two fractions are equal by their cross products
pub record Fraction : Type 0 where
  pub numerator : ℕ
  pub denominator : ℕ

pub data Error : Type 0 where
  invalid_e66_precision e66_value_out_of_range : Error

-- The number that digits spell after `value`.
abbrev pub spelled : ℕ → List ℕ → ℕ
spelled value [] = value
spelled value (d ∷ ds) = spelled (value * 10 + d) ds

abbrev pub coefficient : List ℕ → ℕ
coefficient ds = spelled 0 ds

-- `digits[i]`
abbrev pub digit_at : List ℕ → ℕ → ℕ
digit_at [] i = 0
digit_at (d ∷ ds) zero = d
digit_at (d ∷ ds) (suc i) = digit_at ds i

-- The value of a number that is not negative: coefficient * 10 ^ exponent.
abbrev pub fraction_of : ℕ → ℤ → Fraction
fraction_of c e = record { numerator = c * 10 ^ pos_part e; denominator = 10 ^ neg_part e }

-- `number >= Decimal(100000000)`
abbrev pub is_out_of_range : ℕ → ℤ → Bool
is_out_of_range c e = leb (100_000_000 * 10 ^ neg_part e) (c * 10 ^ pos_part e)

-- `while last and digits[last - 1] == 0: last -= 1`
unfoldable pub significant : List ℕ → ℕ → ℕ
significant digits zero = zero
significant digits (suc last) =
    let shorter = significant digits last in if digit_at digits last == 0 then shorter else suc last

-- After the loop.
abbrev pub on_grid : List ℕ → ℤ → Result Error Fraction
on_grid digits e =
    if ltb_ℤ e (negsuc 2)
    then err Error.invalid_e66_precision
    else ok (fraction_of (coefficient digits) e)

abbrev pub trimmed : List ℕ → ℕ → ℤ → Result Error Fraction
trimmed digits last e = on_grid (first last digits) (e +ℤ pos (length digits - last))

unfoldable pub exact_e66_kwh : Decimal → Result Error Fraction
unfolding significant
exact_e66_kwh Decimal.not_finite = err Error.invalid_e66_precision
exact_e66_kwh (Decimal.finite n) =
    let c = coefficient n.digits in
    if n.negative && not (c == 0)
    then err Error.invalid_e66_precision
    else if is_out_of_range c n.exponent
    then err Error.e66_value_out_of_range
    else if c == 0
    then ok (record { numerator = 0; denominator = 1 })
    else trimmed n.digits (significant n.digits (length n.digits)) n.exponent
