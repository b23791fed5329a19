-- ===== src/Approval/Rounding.antt =====
-- billing_approval.py: how far rounding to cents moves an amount, and a sum of amounts.
use openleg.Prelude.{ℕ, zero, suc, ◌+◌, ◌-◌, ◌*◌, ◌/◌, ◌≤◌, ◌≡◌, refl, arith}
use openleg.Prelude.Int.{
  ℤ, pos, pos_part, neg_part, eq_of_parts, negsuc, negate, ◌+ℤ◌, +ℤ_parts, -ℤ_parts, ◌-ℤ◌, abs_ℤ,
}
use openleg.Approval.Snapshots.{half_up, times}

-- The distance of two integers.
abbrev pub distance_ℤ : ℤ → ℤ → ℕ
distance_ℤ a b = abs_ℤ (a -ℤ b)

negate_parts : (k : ℕ) → (pos_part (negate k) ≡ 0) × (neg_part (negate k) ≡ k)
negate_parts zero = (refl, refl)
negate_parts (suc k) = (refl, refl)

times-negate : (k n : ℕ) → times (negate k) n ≡ negate (k * n)
times-negate zero n = ground arith
times-negate (suc k) n = refl

pub distance-pos : (a b : ℕ) → distance_ℤ (pos a) (pos b) ≡ (a - b) + (b - a)
unfolding ◌-ℤ◌
distance-pos a b = ground arith

distance-negate : (a b : ℕ) → distance_ℤ (negate a) (negate b) ≡ (a - b) + (b - a)
unfolding ◌-ℤ◌
distance-negate zero zero = refl
distance-negate zero (suc b) = ground arith
distance-negate (suc a) zero = ground arith
distance-negate (suc a) (suc b) = ground arith

nearest : (n : ℕ) → let k = (n + 5000) / 10000 * 10000 in 2 * ((k - n) + (n - k)) ≤ 10_000
nearest n = omega arith

-- Rounding moves an amount by at most half a cent.
pub half_up-near : (a : ℤ) → 2 * distance_ℤ (times (half_up a) 10_000) a ≤ 10_000
unfolding half_up
half_up-near (pos n) = ground (arith, distance-pos ((n + 5000) / 10000 * 10000) n, nearest n)
half_up-near (negsuc n) = ground (
  arith,
  times-negate ((suc n + 5000) / 10000) 10_000,
  distance-negate ((suc n + 5000) / 10000 * 10000) (suc n),
  nearest (suc n),
)

times_parts :
    (a : ℤ) (n : ℕ)
    → (pos_part (times a n) ≡ pos_part a * n) × (neg_part (times a n) ≡ neg_part a * n)
times_parts (pos m) n = (refl, omega arith)
times_parts (negsuc m) n = let parts = negate_parts (suc m * n) in (omega arith, parts.1)

pub times-add : (a b : ℤ) → times (a +ℤ b) 10_000 ≡ times a 10_000 +ℤ times b 10_000
times-add a b =
    let sum = times_parts (a +ℤ b) 10_000 in
    let left = times_parts a 10_000 in
    let right = times_parts b 10_000 in
    eq_of_parts (times (a +ℤ b) 10_000) (times a 10_000 +ℤ times b 10_000) (
      omega (
        arith,
        +ℤ_parts a b,
        +ℤ_parts (times a 10_000) (times b 10_000),
        sum.0,
        sum.1,
        left.0,
        left.1,
        right.0,
        right.1,
      ))

abs_parts : (a : ℤ) → abs_ℤ a ≡ (pos_part a - neg_part a) + (neg_part a - pos_part a)
abs_parts (pos n) = ground arith
abs_parts (negsuc n) = ground arith

pub distance-add : (a b c d : ℤ) → distance_ℤ (a +ℤ b) (c +ℤ d) ≤ distance_ℤ a c + distance_ℤ b d
distance-add a b c d = omega (
  arith,
  abs_parts (a +ℤ b -ℤ (c +ℤ d)),
  abs_parts (a -ℤ c),
  abs_parts (b -ℤ d),
  +ℤ_parts a b,
  +ℤ_parts c d,
  -ℤ_parts (a +ℤ b) (c +ℤ d),
  -ℤ_parts a c,
  -ℤ_parts b d,
)
