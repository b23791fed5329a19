-- ===== src/SdatE66/Exact.antt =====
-- sdat_e66.py, `exact_e66_kwh`: which readings it takes over, and that it does so exactly.
use openleg.Prelude.Int.{ℤ, pos, negsuc, neg_part, ltb_ℤ, ◌+ℤ◌}
use openleg.Prelude.Sorting.{first}
use openleg.Prelude.{
  ℕ, ◌-◌, ◌*◌, ◌%◌, ◌^◌, ◌<◌, ◌==◌, ◌≡◌, ◌≢◌, ◌↔◌, sym, ap, ◌∙◌, inl, inr, false, ◌&&◌, not, List,
  length, arith, Bool-cases, Result, ok,
}
use mathlib.Core.Path.{subst}
use native.Mathlib.Nat.{eq_of_mul-eq-mul_right}
use openleg.SdatE66.{
  Digits, Decimal, Fraction, Error, coefficient, fraction_of, is_out_of_range, on_grid, trimmed,
  significant, exact_e66_kwh,
}
use openleg.SdatE66.Zeros.{AreDigits, significant-IsTrimmed, first-length}
use openleg.SdatE66.Thousandths.{
  IsThousandths, IsThousandths-trimmed, trimmed-IsThousandths, grid-exponent, in_range,
  power_positive,
}

trimmed-coefficient :
    (ds : List ℕ)
    → AreDigits ds
    → coefficient ds ≢ 0
    → let s = significant ds (length ds) in
      (coefficient ds ≡ coefficient (first s ds) * 10 ^ (length ds - s))
      × (coefficient (first s ds) % 10 ≢ 0)
trimmed-coefficient ds h z =
    let s = significant ds (length ds) in
    let (l, e, cond) = significant-IsTrimmed ds (length ds) h (omega arith) in
    let whole = ap coefficient (sym (first-length ds)) ∙ e in
    (
      whole,
      elim cond [
        | inl zero_left ↦
            absurd (z (whole ∙ ap (λ x. x * 10 ^ (length ds - s)) zero_left ∙ omega arith))
        | inr other ↦ other
      ],
    )

-- A fraction of so many thousandths.
abbrev pub EqualsThousandths : Fraction → ℕ → Type 0
EqualsThousandths f k = f.numerator * 1_000 ≡ k * f.denominator

abbrev pub IsExact : Result Error Fraction → ℕ → Type 0
IsExact r k = (f : Fraction) × (r ≡ ok f) × EqualsThousandths f k

on_grid-IsExact :
    (ds : List ℕ) (e : ℤ) (k : ℕ)
    → (ltb_ℤ e (negsuc 2) ≡ false)
    → IsThousandths (coefficient ds) e k
    → IsExact (on_grid ds e) k
on_grid-IsExact ds e k g h = (fraction_of (coefficient ds) e, ground arith, h)

IsExact-on_grid :
    (ds : List ℕ) (e : ℤ) (k : ℕ) → IsExact (on_grid ds e) k → IsThousandths (coefficient ds) e k
IsExact-on_grid ds e k (f, r, h) = elim (Bool-cases (ltb_ℤ e (negsuc 2))) [
  | inl g ↦ absurd (ground arith)
  | inr g ↦
      let same : fraction_of (coefficient ds) e ≡ f = ground arith in
      subst (λ x. EqualsThousandths x k) (sym same) h
]

trimmed-exactly :
    (ds : List ℕ) (e : ℤ) (k : ℕ)
    → AreDigits ds
    → coefficient ds ≢ 0
    → IsExact (trimmed ds (significant ds (length ds)) e) k ↔ IsThousandths (coefficient ds) e k
trimmed-exactly ds e k h z =
    let s = significant ds (length ds) in
    let t = length ds - s in
    let c = coefficient (first s ds) in
    let (whole, no_zero) = trimmed-coefficient ds h z in
    (
      λ r.
          let there =
            trimmed-IsThousandths c t k e (IsExact-on_grid (first s ds) (e +ℤ pos t) k r) in
          subst (λ x. IsThousandths x e k) (sym whole) there,
      λ m.
          let here = IsThousandths-trimmed c t k e (subst (λ x. IsThousandths x e k) whole m) in
          on_grid-IsExact (first s ds) (e +ℤ pos t) k (grid-exponent c k (e +ℤ pos t) here no_zero)
            here,
    )

zero-thousandths : (k : ℕ) (e : ℤ) → IsThousandths 0 e k → k ≡ 0
zero-thousandths k e h =
    eq_of_mul-eq-mul_right (10 ^ neg_part e) (power_positive (neg_part e)) k 0 (sym h ∙ omega arith)

abbrev zero_kwh : Fraction
zero_kwh = record { numerator = 0; denominator = 1 }

zero-exactly :
    (n : Digits) (k : ℕ) (e : ℤ)
    → coefficient n.digits ≡ 0
    → n.negative && not (coefficient n.digits == 0) ≡ false
    → exact_e66_kwh (Decimal.finite n) ≡ ok zero_kwh
    → IsExact (exact_e66_kwh (Decimal.finite n)) k ↔ (
        (n.negative && not (coefficient n.digits == 0) ≡ false)
        × IsThousandths (coefficient n.digits) e k
        × (k < 100_000_000_000))
zero-exactly n k e z a same = (
  λ (f, r, v).
      let own : zero_kwh ≡ f = ground arith in
      let zero_k : k ≡ 0 =
        let there = subst (λ x. EqualsThousandths x k) (sym own) v in omega arith in
      let value : IsThousandths 0 e 0 = omega arith in
      (
        a,
        subst (λ x. IsThousandths x e k) (sym z) (subst (IsThousandths 0 e) (sym zero_k) value),
        omega arith,
      ),
  λ (b, m, l).
      let zero_k = zero-thousandths k e (subst (λ x. IsThousandths x e k) z m) in
      (zero_kwh, same, omega arith),
)

-- A reading is taken over exactly if it is a number of whole thousandths of a kWh that is not
-- negative and below 10 ^ 8 kWh, and it is taken over as that number, without rounding.
pub exact_e66_kwh-exactly :
    (n : Digits) (k : ℕ)
    → AreDigits n.digits
    → IsExact (exact_e66_kwh (Decimal.finite n)) k ↔ (
        (n.negative && not (coefficient n.digits == 0) ≡ false)
        × IsThousandths (coefficient n.digits) n.exponent k
        × (k < 100_000_000_000))
unfolding exact_e66_kwh
exact_e66_kwh-exactly n k h =
    let c = coefficient n.digits in
    let e = n.exponent in
    elim (Bool-cases (n.negative && not (c == 0))) [
      | inl a ↦ (λ (f, r, v). absurd (ground arith), λ (b, m, l). absurd (ground arith))
      | inr a ↦ elim (Bool-cases (is_out_of_range c e)) [
        | inl o ↦ (
          λ (f, r, v). absurd (ground arith),
          λ (b, m, l). let inside = (in_range c k e m).1 l in absurd (ground arith),
        )
        | inr o ↦ elim (Bool-cases (c == 0)) [
          | inl z ↦
              let none_there : c ≡ 0 = ground arith in
              let same : exact_e66_kwh (Decimal.finite n) ≡ ok zero_kwh = ground arith in
              zero-exactly n k e none_there a same
          | inr z ↦
              let some_there : c ≢ 0 = ground arith in
              let same : exact_e66_kwh (Decimal.finite n)
                  ≡ trimmed n.digits (significant n.digits (length n.digits)) e =
                ground arith in
              let exactly = trimmed-exactly n.digits e k h some_there in
              (
                λ r.
                    let m = exactly.0 (subst (λ x. IsExact x k) same r) in
                    (a, m, (in_range c k e m).0 o),
                λ (b, m, l). subst (λ x. IsExact x k) (sym same) (exactly.1 m),
              )
        ]
      ]
    ]
