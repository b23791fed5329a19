-- ===== src/Webhooks/Rows.antt =====
-- store/operator_api.py: the rows of the delivery table by their primary key.
use openleg.Prelude.Sorting.{sort-All, first}
use openleg.Prelude.Int.{ℤ}
use openleg.Prelude.{
  ℕ, zero, suc, ◌≤◌, ◌==◌, ◌≡◌, refl, sym, ap, ◌∙◌, Bool, true, Option, none, some, List, [], ◌∷◌,
  map, All, any, find, find_test, select, count, update, if◌then◌else◌, arith, inl, inr, Bool-cases,
}
use mathlib.Core.Path.{subst}
use openleg.Webhooks.{
  Delivery, Db, has_id, is_due, safe_limit, earlier, candidates, add_found, rows_of,
}

-- What an UPDATE makes of the row with an id.
abbrev pub changed : (Delivery → Bool) → (Delivery → Delivery) → Option Delivery → Option Delivery
changed p f none = none
changed p f (some d) = some (if p d then f d else d)

pub find-update :
    (i : ℕ) (p : Delivery → Bool) (f : Delivery → Delivery) (ds : List Delivery)
    → ((d : Delivery) → (f d).delivery_id ≡ d.delivery_id)
    → find (has_id i) (update p f ds) ≡ changed p f (find (has_id i) ds)
find-update i p f [] keeps = refl
find-update i p f (d ∷ ds) keeps = ground (arith, keeps d, find-update i p f ds keeps)

pub count-update :
    (i : ℕ) (p : Delivery → Bool) (f : Delivery → Delivery) (ds : List Delivery)
    → ((d : Delivery) → (f d).delivery_id ≡ d.delivery_id)
    → count (has_id i) (update p f ds) ≡ count (has_id i) ds
count-update i p f [] keeps = refl
count-update i p f (d ∷ ds) keeps = ground (arith, keeps d, count-update i p f ds keeps)

-- The primary key.
abbrev pub HasKey : List Delivery → Type 0
HasKey ds = (i : ℕ) → count (has_id i) ds ≤ 1

abbrev pub IsRow : List Delivery → Delivery → Type 0
IsRow ds d = find (has_id d.delivery_id) ds ≡ some d

found-count :
    (i : ℕ) (ds : List Delivery) {d : Delivery}
    → find (has_id i) ds ≡ some d
    → 1 ≤ count (has_id i) ds
found-count i [] {d} h = cc
found-count i (x ∷ xs) {d} h = ground (arith, found-count i xs {d = d})

All-implies :
    {A : Type 0} (P Q : A → Type 0) (xs : List A) → ((x : A) → P x → Q x) → All P xs → All Q xs
All-implies P Q [] f h = tt
All-implies P Q (x ∷ xs) f (h, hs) = (f x h, All-implies P Q xs f hs)

pub rows-IsRow : (ds : List Delivery) → HasKey ds → All (IsRow ds) ds
rows-IsRow [] k = tt
rows-IsRow (d ∷ ds) k = (
  ground arith,
  All-implies (IsRow ds) (IsRow (d ∷ ds)) ds
      (λ x h.
        let once = k x.delivery_id in let there = found-count x.delivery_id ds h in ground arith)
      (rows-IsRow ds (λ i. let once = k i in ground arith)),
)

pub select-All :
    {A : Type 0} (P : A → Type 0) (p : A → Bool) (xs : List A)
    → All P xs
    → All (λ x. P x × (p x ≡ true)) (select p xs)
select-All P p [] h = tt
select-All P p (x ∷ xs) (h, hs) = elim (Bool-cases (p x)) [
  | inl e ↦ rw e ((h, e), select-All P p xs hs)
  | inr e ↦ rw e (select-All P p xs hs)
]

first-All : {A : Type 0} (P : A → Type 0) (n : ℕ) (xs : List A) → All P xs → All P (first n xs)
first-All P zero xs h = tt
first-All P (suc n) [] h = tt
first-All P (suc n) (x ∷ xs) (h, hs) = (h, first-All P n xs hs)

abbrev pub id_of : Delivery → ℕ
id_of d = d.delivery_id

-- The candidates are rows that are due.
pub candidates-due :
    (max_attempts : ℕ) (scope : Option ℕ) (limit : ℤ) (now : ℕ) (db : Db)
    → HasKey db.deliveries
    → All
        (λ d. IsRow db.deliveries d × (is_due max_attempts scope now db d ≡ true))
        (candidates max_attempts scope limit now db)
unfolding candidates
candidates-due max_attempts scope limit now db k = first-All _ (safe_limit limit) _ (
    sort-All _ (earlier db) _ (
      select-All (IsRow db.deliveries) (is_due max_attempts scope now db) db.deliveries
        (rows-IsRow db.deliveries k)))

id-All :
    (P : Delivery → Type 0) (i : ℕ) (ds : List Delivery)
    → All P ds
    → any (λ j. j == i) (map id_of ds) ≡ true
    → (d : Delivery) × (d.delivery_id ≡ i) × P d
id-All P i [] h e = cc
id-All P i (d ∷ ds) (h, hs) e = elim (Bool-cases (d.delivery_id == i)) [
  | inl t ↦ (d, ground arith, h)
  | inr t ↦ id-All P i ds hs (ground arith)
]

-- The row with the id of a candidate is due.
pub candidate-due :
    (max_attempts : ℕ) (scope : Option ℕ) (limit : ℤ) (now i : ℕ) (db : Db) {d : Delivery}
    → HasKey db.deliveries
    → find (has_id i) db.deliveries ≡ some d
    → any (λ j. j == i) (map id_of (candidates max_attempts scope limit now db)) ≡ true
    → is_due max_attempts scope now db d ≡ true
candidate-due max_attempts scope limit now i db {d} k f e =
    let (x, same, (row, due)) =
      id-All _ i (candidates max_attempts scope limit now db)
        (candidates-due max_attempts scope limit now db k) e in
    let found : some x ≡ some d =
      sym (subst (λ j. find (has_id j) db.deliveries ≡ some x) same row) ∙ f in
    let same_row : x ≡ d = ground arith in
    subst (λ y. is_due max_attempts scope now db y ≡ true) (same_row) due

add_found-All :
    (P : Delivery → Type 0) (o : Option Delivery) (rows : List Delivery)
    → ((d : Delivery) → o ≡ some d → P d)
    → All P rows
    → All P (add_found o rows)
add_found-All P none rows h hs = hs
add_found-All P (some d) rows h hs = (h d refl, hs)

-- What RETURNING lists are rows of the table.
pub rows_of-IsRow : (ds : List Delivery) (ids : List ℕ) → All (IsRow ds) (rows_of ds ids)
rows_of-IsRow ds [] = tt
rows_of-IsRow ds (i ∷ is) =
    add_found-All (IsRow ds) (find (has_id i) ds) (rows_of ds is)
      (λ d e.
        let own : d.delivery_id ≡ i = let t = find_test (has_id i) ds e in ground arith in
        ap (λ j. find (has_id j) ds) own ∙ e)
      (rows_of-IsRow ds is)
