-- ===== src/SdatE66/Thousandths.antt =====
-- sdat_e66.py: values at different exponents, as numbers of thousandths.
use openleg.Prelude.Int.{ℤ, pos, negsuc, pos_part, neg_part, ltb_ℤ, ◌+ℤ◌, +ℤ_parts}
use openleg.Prelude.{
  ℕ, zero, suc, ◌+◌, ◌-◌, ◌*◌, ◌%◌, ◌^◌, ◌≤◌, ◌<◌, ◌≡◌, ◌≢◌, ◌↔◌, sym, ap, ◌∙◌, inl, inr, false,
  leb, arith, Bool-cases,
}
use native.Mathlib.Nat.{
  pow-suc, mul_assoc, mul_right_comm, eq_of_mul-eq-mul_right, one-le-pow, mul-le-mul_right, add-mul,
}
use openleg.SdatE66.{is_out_of_range}

pow-add : (m n : ℕ) → 10 ^ (m + n) ≡ 10 ^ m * 10 ^ n
pow-add m zero =
    let same : m + 0 ≡ m = omega arith in
    let one : 10 ^ m ≡ 10 ^ m * 10 ^ 0 = omega arith in ap (λ x. 10 ^ x) same ∙ one
pow-add m (suc n) =
    let same : m + suc n ≡ suc (m + n) = omega arith in
    ap (λ x. 10 ^ x) same
    ∙ pow-suc 10 (m + n)
    ∙ ap (λ x. x * 10) (pow-add m n)
    ∙ mul_assoc (10 ^ m) (10 ^ n) 10
    ∙ ap (λ x. 10 ^ m * x) (sym (pow-suc 10 n))

-- c * T * P / M and c * P' / M' are the same value, where T * P * M' = P' * M.
scaled :
    (c k t p m p' m' : ℕ)
    → 0 < m
    → t * p * m' ≡ p' * m
    → c * t * p * 1_000 ≡ k * m
    → c * p' * 1_000 ≡ k * m'
scaled c k t p m p' m' h e v = eq_of_mul-eq-mul_right m h (c * p' * 1_000) (k * m') (
    product c p' m
    ∙ ap (λ x. c * x * 1_000) (sym e)
    ∙ spread c t p m'
    ∙ ap (λ x. x * m') v
    ∙ mul_right_comm k m m')
  where
    product : (c p m : ℕ) → c * p * 1_000 * m ≡ c * (p * m) * 1_000
    product c p m = mul_right_comm (c * p) 1_000 m ∙ ap (λ x. x * 1_000) (mul_assoc c p m)

    spread : (c t p m : ℕ) → c * (t * p * m) * 1_000 ≡ c * t * p * 1_000 * m
    spread c t p m =
        ap (λ x. x * 1_000) (sym (mul_assoc c (t * p) m) ∙ ap (λ x. x * m) (sym (mul_assoc c t p)))
        ∙ mul_right_comm (c * t * p) m 1_000

-- coefficient * 10 ^ exponent is k / 1000.
abbrev pub IsThousandths : ℕ → ℤ → ℕ → Type 0
IsThousandths c e k = c * 10 ^ pos_part e * 1_000 ≡ k * 10 ^ neg_part e

pub power_positive : (n : ℕ) → 0 < 10 ^ n
power_positive n = one-le-pow n 10 (omega arith)

powers :
    (e : ℤ) (t : ℕ)
    → 10 ^ t * 10 ^ pos_part e * 10 ^ neg_part (e +ℤ pos t)
      ≡ 10 ^ pos_part (e +ℤ pos t) * 10 ^ neg_part e
powers e t =
    let parts = +ℤ_parts e (pos t) in
    let e' = e +ℤ pos t in
    let same : t + pos_part e + neg_part e' ≡ pos_part e' + neg_part e = omega arith in
    ap (λ x. x * 10 ^ neg_part e') (sym (pow-add t (pos_part e)))
    ∙ sym (pow-add (t + pos_part e) (neg_part e'))
    ∙ ap (λ x. 10 ^ x) same
    ∙ pow-add (pos_part e') (neg_part e)

-- The zeros may be taken off, and put back.
pub IsThousandths-trimmed :
    (c t k : ℕ) (e : ℤ) → IsThousandths (c * 10 ^ t) e k → IsThousandths c (e +ℤ pos t) k
IsThousandths-trimmed c t k e h =
    scaled c k (10 ^ t) (10 ^ pos_part e) (10 ^ neg_part e) _ _ (power_positive (neg_part e))
      (powers e t) h

pub trimmed-IsThousandths :
    (c t k : ℕ) (e : ℤ) → IsThousandths c (e +ℤ pos t) k → IsThousandths (c * 10 ^ t) e k
trimmed-IsThousandths c t k e h =
    let e' = e +ℤ pos t in
    let one : c * 1 * 10 ^ pos_part e' * 1_000 ≡ c * 10 ^ pos_part e' * 1_000 =
      ap (λ x. x * 10 ^ pos_part e' * 1_000) (omega arith) in
    let unit : 1 * 10 ^ pos_part e' * 10 ^ neg_part e ≡ 10 ^ pos_part e' * 10 ^ neg_part e =
      ap (λ x. x * 10 ^ neg_part e) (omega arith) in
    ap (λ x. x * 1_000) (mul_assoc c (10 ^ t) (10 ^ pos_part e))
    ∙ scaled c k 1 (10 ^ pos_part e') (10 ^ neg_part e') (10 ^ t * 10 ^ pos_part e)
        (10 ^ neg_part e) (power_positive (neg_part e')) (unit ∙ sym (powers e t)) (one ∙ h)

-- A value on the grid whose coefficient ends in no zero has at most three decimals.
pub grid-exponent :
    (c k : ℕ) (e : ℤ) → IsThousandths c e k → c % 10 ≢ 0 → ltb_ℤ e (negsuc 2) ≡ false
grid-exponent c k (pos a) h z = ground arith
grid-exponent c k (negsuc a) h z = elim (Bool-cases (leb a 2)) [
  | inl l ↦ ground arith
  | inr l ↦
      let split : suc a ≡ 4 + (a - 3) = ground arith in
      let power = ap (λ x. 10 ^ x) split ∙ pow-add 4 (a - 3) in
      let x = k * 10 ^ (a - 3) in
      let right : k * 10 ^ suc a ≡ 10_000 * x = ap (λ y. k * y) power ∙ omega arith in
      absurd (z (let left : c * 1 * 1_000 ≡ 10_000 * x = h ∙ right in omega arith))
]

pub in_range :
    (c k : ℕ) (e : ℤ) → IsThousandths c e k → (is_out_of_range c e ≡ false) ↔ (k < 100_000_000_000)
in_range c k e h =
    let m = 10 ^ neg_part e in
    let positive = power_positive (neg_part e) in
    elim (Bool-cases (leb 100_000_000_000 k)) [
      | inl l ↦
          let bound = mul-le-mul_right {m = 100_000_000_000} {n = k} m (ground arith) in
          (λ r. absurd (ground arith), λ r. absurd (ground arith))
      | inr l ↦
          let bound : (k + 1) * m ≤ 100_000_000_000 * m =
            mul-le-mul_right {m = k + 1} {n = 100_000_000_000} m (ground arith) in
          let split : (k + 1) * m ≡ k * m + m = add-mul k 1 m ∙ omega arith in
          (λ r. ground arith, λ r. ground arith)
    ]
