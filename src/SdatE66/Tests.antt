-- ===== src/SdatE66/Tests.antt =====
-- Runs of `exact_e66_kwh`, and its theorem there.
use openleg.Prelude.Int.{ℤ, pos, negsuc}
use openleg.Prelude.{ℕ, ◌<◌, ◌≡◌, refl, Bool, true, false, List, [], ◌∷◌, ok, err, arith}
use openleg.SdatE66.{Digits, Decimal, Error, exact_e66_kwh}
use openleg.SdatE66.Exact.{IsExact, exact_e66_kwh-exactly}

-- 12.3400
abbrev padded : Digits
padded = record { negative = false; digits = 1 ∷ 2 ∷ 3 ∷ 4 ∷ 0 ∷ 0 ∷ []; exponent = negsuc 3 }

taken : exact_e66_kwh (Decimal.finite padded) ≡ ok (record { numerator = 1_234; denominator = 100 })
unfolding exact_e66_kwh openleg.Prelude.Int.◌+ℤ◌
taken = refl

-- 0.0005
too_fine :
    exact_e66_kwh
      (Decimal.finite (record { negative = false; digits = 5 ∷ []; exponent = negsuc 3 }))
    ≡ err Error.invalid_e66_precision
unfolding exact_e66_kwh openleg.Prelude.Int.◌+ℤ◌
too_fine = refl

-- 1E+8
too_large :
    exact_e66_kwh (Decimal.finite (record { negative = false; digits = 1 ∷ []; exponent = pos 8 }))
    ≡ err Error.e66_value_out_of_range
unfolding exact_e66_kwh
too_large = refl

-- -0.0
negative_zero :
    exact_e66_kwh
      (Decimal.finite (record { negative = true; digits = 0 ∷ []; exponent = negsuc 0 }))
    ≡ ok (record { numerator = 0; denominator = 1 })
unfolding exact_e66_kwh
negative_zero = refl

exact_e66_kwh-exactly_example : IsExact (exact_e66_kwh (Decimal.finite padded)) 12_340
exact_e66_kwh-exactly_example =
    (exact_e66_kwh-exactly padded 12_340 (
      omega arith,
      (omega arith, (omega arith, (omega arith, (omega arith, (omega arith, tt))))),
    )).1
      (refl, refl, omega arith)
