-- ===== src/Prelude/Sorting.antt =====
-- Stable sorting by a Boolean order: `sorted`, and ORDER BY.
use Prim.Native.Nat.{ℕ, zero, suc, ◌+◌}
use mathlib.Core.Path.{◌≡◌, refl}
use mathlib.Core.Bool.{Bool, true, false}
use mathlib.Core.List.{List, [], ◌∷◌}
use native.Mathlib.Omega.{arith}
use openleg.Prelude.Tests.{if◌then◌else◌, Bool-cases}
use openleg.Prelude.Lists.{All, count}
use mathlib.Core.Logic.{inl, inr}

module _ {ℓ} {A : Type ℓ} where
  insert : (A → A → Bool) → A → List A → List A
  insert before x [] = x ∷ []
  insert before x (y ∷ ys) =
      let rest = insert before x ys in if before x y then x ∷ y ∷ ys else y ∷ rest

  unfoldable pub sort : (A → A → Bool) → List A → List A
  unfolding insert
  sort before [] = []
  sort before (x ∷ xs) = insert before x (sort before xs)

  -- `xs[:n]`, and LIMIT n
  abbrev pub first : ℕ → List A → List A
  first zero xs = []
  first (suc n) [] = []
  first (suc n) (x ∷ xs) = x ∷ first n xs

  -- Each element comes before every later one.
  abbrev pub Ordered : (A → A → Bool) → List A → Type 0
  Ordered before [] = Unit
  Ordered before (x ∷ xs) = All (λ y. before x y ≡ true) xs × Ordered before xs

  insert-All {κ} :
      (P : A → Type κ) (before : A → A → Bool) (x : A) (xs : List A)
      → P x
      → All P xs
      → All P (insert before x xs)
  unfolding insert
  insert-All P before x [] p ps = (p, tt)
  insert-All P before x (y ∷ ys) p (q, qs) = elim (Bool-cases (before x y)) [
    | inl e ↦ rw e (p, (q, qs))
    | inr e ↦ rw e (q, insert-All P before x ys p qs)
  ]

  pub sort-All {κ} :
      (P : A → Type κ) (before : A → A → Bool) (xs : List A) → All P xs → All P (sort before xs)
  unfolding sort
  sort-All P before [] h = tt
  sort-All P before (x ∷ xs) (p, ps) =
      insert-All P before x (sort before xs) p (sort-All P before xs ps)

  All-implies {κ ν} :
      (P : A → Type κ) (Q : A → Type ν) (xs : List A) → ((x : A) → P x → Q x) → All P xs → All Q xs
  All-implies P Q [] f h = tt
  All-implies P Q (x ∷ xs) f (p, ps) = (f x p, All-implies P Q xs f ps)

  insert-Ordered :
      (before : A → A → Bool)
      → ((x y : A) → before x y ≡ false → before y x ≡ true)
      → ((x y z : A) → before x y ≡ true → before y z ≡ true → before x z ≡ true)
      → (x : A) (xs : List A) → Ordered before xs
      → Ordered before (insert before x xs)
  unfolding insert
  insert-Ordered before total trans x [] h = (tt, tt)
  insert-Ordered before total trans x (y ∷ ys) (h, hs) = elim (Bool-cases (before x y)) [
    | inl e ↦ rw e (
      (e, All-implies (λ z. before y z ≡ true) (λ z. before x z ≡ true) ys (λ z. trans x y z e) h),
      (h, hs),
    )
    | inr e ↦ rw e (
      insert-All (λ z. before y z ≡ true) before x ys (total x y e) h,
      insert-Ordered before total trans x ys hs,
    )
  ]

  pub sort-Ordered :
      (before : A → A → Bool)
      → ((x y : A) → before x y ≡ false → before y x ≡ true)
      → ((x y z : A) → before x y ≡ true → before y z ≡ true → before x z ≡ true)
      → (xs : List A) → Ordered before (sort before xs)
  unfolding sort
  sort-Ordered before total trans [] = tt
  sort-Ordered before total trans (x ∷ xs) =
      insert-Ordered before total trans x (sort before xs) (sort-Ordered before total trans xs)

  count-insert :
      (p : A → Bool) (before : A → A → Bool) (x : A) (xs : List A)
      → count p (insert before x xs) ≡ count p (x ∷ xs)
  unfolding insert
  count-insert p before x [] = refl
  count-insert p before x (y ∷ ys) = ground (arith, count-insert p before x ys)

  -- A sort keeps every element as often as it was there.
  pub count-sort :
      (p : A → Bool) (before : A → A → Bool) (xs : List A) → count p (sort before xs) ≡ count p xs
  unfolding sort
  count-sort p before [] = refl
  count-sort p before (x ∷ xs) =
      ground (arith, count-sort p before xs, count-insert p before x (sort before xs))

  abbrev pub sum_by : (A → ℕ) → List A → ℕ
  sum_by f [] = 0
  sum_by f (x ∷ xs) = f x + sum_by f xs

  sum_by-insert :
      (f : A → ℕ) (before : A → A → Bool) (x : A) (xs : List A)
      → sum_by f (insert before x xs) ≡ f x + sum_by f xs
  unfolding insert
  sum_by-insert f before x [] = refl
  sum_by-insert f before x (y ∷ ys) = ground (arith, sum_by-insert f before x ys)

  pub sum_by-sort :
      (f : A → ℕ) (before : A → A → Bool) (xs : List A) → sum_by f (sort before xs) ≡ sum_by f xs
  unfolding sort
  sum_by-sort f before [] = refl
  sum_by-sort f before (x ∷ xs) =
      ground (arith, sum_by-sort f before xs, sum_by-insert f before x (sort before xs))
