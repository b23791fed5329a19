-- ===== src/SdatE66/Zeros.antt =====
-- sdat_e66.py: the zeros at the end of a number's digits.
use openleg.Prelude.Sorting.{first}
use openleg.Prelude.{
  ℕ, zero, suc, ◌+◌, ◌-◌, ◌*◌, ◌%◌, ◌^◌, ◌≤◌, ◌<◌, ◌==◌, ◌≡◌, ◌≢◌, refl, sym, ap, ◌∙◌, ◌⊎◌, inl,
  inr, true, false, List, [], ◌∷◌, length, All, arith, Bool-cases,
}
use openleg.SdatE66.{spelled, coefficient, digit_at, significant}

abbrev pub AreDigits : List ℕ → Type 0
AreDigits ds = All (λ d. d < 10) ds

pub first-length : (ds : List ℕ) → first (length ds) ds ≡ ds
first-length [] = refl
first-length (d ∷ ds) = ap (λ xs. d ∷ xs) (first-length ds)

-- One digit more.
spelled-first :
    (v l : ℕ) (ds : List ℕ)
    → l < length ds
    → spelled v (first (suc l) ds) ≡ spelled v (first l ds) * 10 + digit_at ds l
spelled-first v l [] h = absurd (omega arith)
spelled-first v zero (d ∷ ds) h = refl
spelled-first v (suc l) (d ∷ ds) h = spelled-first (v * 10 + d) l ds (omega arith)

pow-suc : (n : ℕ) → 10 ^ suc n ≡ 10 * 10 ^ n
pow-suc n = grind arith

digit_at-lt : (l : ℕ) (ds : List ℕ) → AreDigits ds → digit_at ds l < 10
digit_at-lt l [] h = omega arith
digit_at-lt zero (d ∷ ds) (h, hs) = h
digit_at-lt (suc l) (d ∷ ds) (h, hs) = digit_at-lt l ds hs

-- The digits that are left spell the number without the zeros at its end.
abbrev pub IsTrimmed : List ℕ → ℕ → ℕ → Type 0
IsTrimmed ds last l =
    (l ≤ last)
    × (coefficient (first last ds) ≡ coefficient (first l ds) * 10 ^ (last - l))
    × ((coefficient (first l ds) ≡ 0) ⊎ (coefficient (first l ds) % 10 ≢ 0))

last_digit-IsTrimmed :
    (ds : List ℕ) (last : ℕ)
    → AreDigits ds
    → suc last ≤ length ds
    → digit_at ds last == 0 ≡ false
    → IsTrimmed ds (suc last) (suc last)
last_digit-IsTrimmed ds last h l e =
    let one_more = spelled-first 0 last ds l in
    let small = digit_at-lt last ds h in
    let same : suc last - suc last ≡ 0 = omega arith in
    let c = coefficient (first (suc last) ds) in
    let whole : c ≡ c * 10 ^ 0 = omega arith in
    let other : digit_at ds last ≢ 0 = ground arith in
    (omega arith, whole ∙ ap (λ n. c * 10 ^ n) (sym same), inr (λ z. other (omega arith)))

shifted : (a b p q d c : ℕ) → b ≡ c * p → a ≡ b * 10 + d → d ≡ 0 → q ≡ 10 * p → a ≡ c * q
shifted a b p q d c h k z m = let product = ap (λ x. c * x) m in omega arith

zero_digit-IsTrimmed :
    (ds : List ℕ) (last s : ℕ)
    → suc last ≤ length ds
    → digit_at ds last == 0 ≡ true
    → IsTrimmed ds last s
    → IsTrimmed ds (suc last) s
zero_digit-IsTrimmed ds last s l e (le, eq, cond) =
    let one_more = spelled-first 0 last ds l in
    let zero_there : digit_at ds last ≡ 0 = ground arith in
    let longer : suc last - s ≡ suc (last - s) = omega arith in
    let power = ap (λ n. 10 ^ n) longer ∙ pow-suc (last - s) in
    (omega arith, shifted _ _ _ _ _ (coefficient (first s ds)) eq one_more zero_there power, cond)

pub significant-IsTrimmed :
    (ds : List ℕ) (last : ℕ)
    → AreDigits ds
    → last ≤ length ds
    → IsTrimmed ds last (significant ds last)
unfolding significant
significant-IsTrimmed ds zero h l = (omega arith, omega arith, inl refl)
significant-IsTrimmed ds (suc last) h l = elim (Bool-cases (digit_at ds last == 0)) [
  | inr e ↦ rw e (last_digit-IsTrimmed ds last h l e)
  | inl e ↦ rw e (
      zero_digit-IsTrimmed ds last (significant ds last) l e
        (significant-IsTrimmed ds last h (omega arith)))
]
