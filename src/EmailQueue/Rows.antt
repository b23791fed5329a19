-- ===== src/EmailQueue/Rows.antt =====
-- store/email_queue.py: the rows of the queue by their primary key.
use openleg.Prelude.{
  ℕ, zero, suc, ◌+◌, ◌≤◌, ◌==◌, ◌≡◌, refl, Bool, true, ◌||◌, not, some, List, [], ◌∷◌, All, all,
  find, count, select, update, length, ltb, leb, arith, Bool-cases, inl, inr,
}
use openleg.EmailQueue.{Status, status_eq, Email, has_id, insert_due, sort_due, first}

-- No row has the id but a pending one.
abbrev pub only_pending : ℕ → Email → Bool
only_pending email_id e = not (has_id email_id e) || status_eq e.status Status.pending

-- The primary key, whose next value no row has reached.
abbrev pub HasKey : List Email → Type 0
HasKey es = (i : ℕ) → count (has_id i) es ≤ 1

abbrev pub is_drawn : ℕ → Email → Bool
is_drawn next_id e = ltb e.id next_id

abbrev pub IsRow : List Email → Email → Type 0
IsRow es e = find (has_id e.id) es ≡ some e

pub count-update :
    (i : ℕ) (is : Email → Bool) (f : Email → Email) (es : List Email)
    → ((e : Email) → (f e).id ≡ e.id)
    → count (has_id i) (update is f es) ≡ count (has_id i) es
count-update i is f [] same = refl
count-update i is f (e ∷ es) same = ground (arith, same e, count-update i is f es same)

pub count-select :
    (i : ℕ) (is : Email → Bool) (es : List Email)
    → count (has_id i) (select is es) ≤ count (has_id i) es
count-select i is [] = omega arith
count-select i is (e ∷ es) = ground (arith, count-select i is es)

pub count-drawn : (n : ℕ) (es : List Email) → all (is_drawn n) es ≡ true → count (has_id n) es ≡ 0
count-drawn n [] h = refl
count-drawn n (e ∷ es) h = ground (arith, count-drawn n es)

pub drawn-next :
    (n : ℕ) (es : List Email) → all (is_drawn n) es ≡ true → all (is_drawn (n + 1)) es ≡ true
drawn-next n [] h = refl
drawn-next n (e ∷ es) h = ground (arith, drawn-next n es)

-- An update of the rows with an id adds as many rows to a count as have the id, at most.
pub count-update-key :
    (p : Email → Bool) (i : ℕ) (f : Email → Email) (es : List Email)
    → count p (update (has_id i) f es) ≤ count p es + count (has_id i) es
count-update-key p i f [] = omega arith
count-update-key p i f (e ∷ es) = ground (arith, count-update-key p i f es)

none-only_pending :
    (i : ℕ) (es : List Email) → count (has_id i) es ≡ 0 → all (only_pending i) es ≡ true
none-only_pending i [] h = refl
none-only_pending i (e ∷ es) h = ground (arith, none-only_pending i es)

pub row-only_pending :
    (i : ℕ) (es : List Email) {e : Email}
    → count (has_id i) es ≤ 1
    → find (has_id i) es ≡ some e
    → status_eq e.status Status.pending ≡ true
    → all (only_pending i) es ≡ true
row-only_pending i [] once h p = cc
row-only_pending i (x ∷ xs) {e} once h p = elim (Bool-cases (x.id == i)) [
  | inl own ↦
      let same : x ≡ e = ground arith in
      let rest = none-only_pending i xs (ground arith) in ground arith
  | inr other ↦
      let rest = row-only_pending i xs {e = e} (ground arith) (ground arith) p in ground arith
]

found-count :
    (i : ℕ) (es : List Email) {e : Email} → find (has_id i) es ≡ some e → 1 ≤ count (has_id i) es
found-count i [] {e} h = cc
found-count i (x ∷ xs) {e} h = ground (arith, found-count i xs {e = e})

pub All-implies :
    (P Q : Email → Type 0) (es : List Email) → ((e : Email) → P e → Q e) → All P es → All Q es
All-implies P Q [] f h = tt
All-implies P Q (e ∷ es) f (h, hs) = (f e h, All-implies P Q es f hs)

pub rows-IsRow : (es : List Email) → HasKey es → All (IsRow es) es
rows-IsRow [] k = tt
rows-IsRow (e ∷ es) k = (
  ground arith,
  All-implies (IsRow es) (IsRow (e ∷ es)) es
      (λ x h. let once = k x.id in let there = found-count x.id es h in ground arith)
      (rows-IsRow es (λ i. let once = k i in ground arith)),
)

pub select-All :
    (P : Email → Type 0) (is : Email → Bool) (es : List Email)
    → All P es
    → All (λ e. P e × (is e ≡ true)) (select is es)
select-All P is [] h = tt
select-All P is (e ∷ es) (h, hs) = elim (Bool-cases (is e)) [
  | inl t ↦ rw t ((h, t), select-All P is es hs)
  | inr t ↦ rw t (select-All P is es hs)
]

insert_due-All :
    (P : Email → Type 0) (e : Email) (es : List Email) → P e → All P es → All P (insert_due e es)
insert_due-All P e [] h hs = (h, tt)
insert_due-All P e (x ∷ xs) h (k, ks) = elim (Bool-cases (leb e.send_at x.send_at)) [
  | inl t ↦ rw t (h, (k, ks))
  | inr t ↦ rw t (k, insert_due-All P e xs h ks)
]

pub sort_due-All : (P : Email → Type 0) (es : List Email) → All P es → All P (sort_due es)
sort_due-All P [] h = tt
sort_due-All P (e ∷ es) (h, hs) = insert_due-All P e (sort_due es) h (sort_due-All P es hs)

count-insert_due :
    (i : ℕ) (e : Email) (es : List Email)
    → count (has_id i) (insert_due e es) ≡ count (has_id i) (e ∷ es)
count-insert_due i e [] = refl
count-insert_due i e (x ∷ xs) = elim (Bool-cases (leb e.send_at x.send_at)) [
  | inl t ↦ rw t refl
  | inr t ↦ ground (arith, count-insert_due i e xs)
]

pub count-sort_due :
    (i : ℕ) (es : List Email) → count (has_id i) (sort_due es) ≡ count (has_id i) es
count-sort_due i [] = refl
count-sort_due i (e ∷ es) = ground (arith, count-insert_due i e (sort_due es), count-sort_due i es)

pub first-All : (P : Email → Type 0) (n : ℕ) (es : List Email) → All P es → All P (first n es)
first-All P zero es h = tt
first-All P (suc n) [] h = tt
first-All P (suc n) (e ∷ es) (h, hs) = (h, first-All P n es hs)

pub count-first : (i n : ℕ) (es : List Email) → count (has_id i) (first n es) ≤ count (has_id i) es
count-first i zero es = omega arith
count-first i (suc n) [] = omega arith
count-first i (suc n) (e ∷ es) = ground (arith, count-first i n es)

pub first-le : (n : ℕ) (es : List Email) → length (first n es) ≤ n
first-le zero es = omega arith
first-le (suc n) [] = omega arith
first-le (suc n) (e ∷ es) = omega (arith, first-le n es)
