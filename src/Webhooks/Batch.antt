-- ===== src/Webhooks/Batch.antt =====
-- store/operator_api.py, `get_pending_deliveries`: which deliveries a worker is given.
use openleg.Prelude.Sorting.{sort, sort-All, sort-Ordered, count-sort, Ordered, first}
use openleg.Prelude.Int.{ℤ}
use openleg.Prelude.{
  ℕ, zero, suc, ◌≤◌, ◌==◌, ◌≡◌, refl, sym, ap, ◌∙◌, Bool, true, false, Option, some, List, [], ◌∷◌,
  map, length, All, All-find, any, find, find_test, select, count, update, if◌then◌else◌, arith,
  inl, inr, Bool-cases,
}
use mathlib.Core.Path.{subst}
use openleg.Webhooks.{
  Status, Delivery, Db, has_id, is_due, earlier, safe_limit, claimed, claim_all, add_found, rows_of,
  candidates, get_pending_deliveries,
}
use openleg.Webhooks.Rows.{
  changed, find-update, HasKey, IsRow, id_of, candidates-due, rows-IsRow, select-All, rows_of-IsRow,
}

-- The claimed rows of a part of the candidates.
claimed-rows :
    (uuids : ℕ → ℕ) (now : ℕ) (ids : List ℕ) (ds cs : List Delivery)
    → All (λ d. (IsRow ds d) × (any (λ i. i == d.delivery_id) ids ≡ true)) cs
    → rows_of (claim_all uuids now ids ds) (map id_of cs) ≡ map (claimed uuids now) cs
claimed-rows uuids now ids ds [] h = refl
claimed-rows uuids now ids ds (c ∷ cs) ((row, there), hs) =
    let p : Delivery → Bool = λ d. any (λ i. i == d.delivery_id) ids in
    let moved = find-update c.delivery_id p (claimed uuids now) ds (λ d. refl) in
    let found : find (has_id c.delivery_id) (claim_all uuids now ids ds)
        ≡ some (claimed uuids now c) =
      moved
      ∙ ap (changed p (claimed uuids now)) row
      ∙ ap (λ b. some (if b then claimed uuids now c else c)) there in
    ap (λ r. add_found r (rows_of (claim_all uuids now ids ds) (map id_of cs))) found
    ∙ ap (λ r. claimed uuids now c ∷ r) (claimed-rows uuids now ids ds cs hs)

pub find-update-apart :
    (i : ℕ) (p : Delivery → Bool) (f : Delivery → Delivery) (ds : List Delivery)
    → ((d : Delivery) → (f d).delivery_id ≡ d.delivery_id)
    → ((d : Delivery) → p d ≡ true → has_id i d ≡ false)
    → find (has_id i) (update p f ds) ≡ find (has_id i) ds
find-update-apart i p f [] keeps other = refl
find-update-apart i p f (d ∷ ds) keeps other =
    ground (arith, keeps d, other d, find-update-apart i p f ds keeps other)

apart :
    (i : ℕ) (cs : List Delivery) (d : Delivery)
    → any (has_id i) cs ≡ false
    → any (λ j. j == d.delivery_id) (map id_of cs) ≡ true
    → has_id i d ≡ false
apart i [] d out e = cc
apart i (c ∷ cs) d out e = elim (Bool-cases (c.delivery_id == d.delivery_id)) [
  | inl same ↦ ground arith
  | inr new ↦ apart i cs d (ground arith) (ground arith)
]

-- Every element of a list is in the list.
with-any :
    (P : Delivery → Type 0) (cs : List Delivery) (ids : List ℕ)
    → All P cs
    → ((i : ℕ) → any (λ j. j == i) (map id_of cs) ≡ true → any (λ j. j == i) ids ≡ true)
    → All (λ d. P d × (any (λ i. i == d.delivery_id) ids ≡ true)) cs
with-any P [] ids h sub = tt
with-any P (c ∷ cs) ids (h, hs) sub =
    ((h, sub c.delivery_id (ground arith)), with-any P cs ids hs (λ i e. sub i (ground arith)))

All-first : {A : Type 0} (P Q : A → Type 0) (xs : List A) → All (λ x. P x × Q x) xs → All P xs
All-first P Q [] h = tt
All-first P Q (x ∷ xs) ((h, k), hs) = (h, All-first P Q xs hs)

pub rows-claimed :
    (uuids : ℕ → ℕ) (max : ℕ) (scope : Option ℕ) (limit : ℤ) (now : ℕ) (db : Db)
    → HasKey db.deliveries
    → (get_pending_deliveries uuids max scope limit now db).0
      ≡ map (claimed uuids now) (candidates max scope limit now db)
unfolding get_pending_deliveries
rows-claimed uuids max scope limit now db k =
    let cs = candidates max scope limit now db in
    claimed-rows uuids now (map id_of cs) db.deliveries cs (
      with-any _ cs (map id_of cs) (All-first _ _ cs (candidates-due max scope limit now db k))
        (λ i e. e))

length-first : {A : Type 0} (n : ℕ) (xs : List A) → length (first n xs) ≤ n
length-first zero xs = omega arith
length-first (suc n) [] = omega arith
length-first (suc n) (x ∷ xs) = let h = length-first n xs in omega arith

-- What a full batch leaves out comes after all of it.
first-fair :
    (before : Delivery → Delivery → Bool) (i n : ℕ) (xs : List Delivery) {y : Delivery}
    → Ordered before xs
    → find (has_id i) xs ≡ some y
    → any (has_id i) (first n xs) ≡ false
    → (length (first n xs) ≡ n) × All (λ x. before x y ≡ true) (first n xs)
first-fair before i zero xs o f h = (refl, tt)
first-fair before i (suc n) [] o f h = cc
first-fair before i (suc n) (x ∷ xs) {y} (o, os) f h =
    let later : find (has_id i) xs ≡ some y = ground arith in
    let (full, rest) = first-fair before i n xs {y = y} os later (ground arith) in
    (omega arith, (All-find (λ z. before x z ≡ true) (has_id i) xs o later, rest))

count-found :
    (i : ℕ) (xs : List Delivery)
    → 1 ≤ count (has_id i) xs
    → (x : Delivery) × (find (has_id i) xs ≡ some x)
count-found i [] h = absurd (omega arith)
count-found i (x ∷ xs) h = elim (Bool-cases (x.delivery_id == i)) [
  | inl e ↦ (x, ground arith)
  | inr e ↦ let (y, f) = count-found i xs (ground arith) in (y, ground arith)
]

select-count :
    (i : ℕ) (p : Delivery → Bool) (xs : List Delivery) {d : Delivery}
    → find (has_id i) xs ≡ some d
    → p d ≡ true
    → 1 ≤ count (has_id i) (select p xs)
select-count i p [] {d} f e = cc
select-count i p (x ∷ xs) {d} f e = elim (Bool-cases (x.delivery_id == i)) [
  | inl t ↦ let same : x ≡ d = ground arith in let px = ap p same in ground arith
  | inr t ↦ let rest = select-count i p xs {d = d} (ground arith) e in ground arith
]

first-Ordered :
    (before : Delivery → Delivery → Bool) (n : ℕ) (xs : List Delivery)
    → Ordered before xs
    → Ordered before (first n xs)
first-Ordered before zero xs o = tt
first-Ordered before (suc n) [] o = tt
first-Ordered before (suc n) (x ∷ xs) (o, os) =
    (first-all (λ y. before x y ≡ true) n xs o, first-Ordered before n xs os)
  where
    first-all : (P : Delivery → Type 0) (n : ℕ) (xs : List Delivery) → All P xs → All P (first n xs)
    first-all P zero xs h = tt
    first-all P (suc n) [] h = tt
    first-all P (suc n) (x ∷ xs) (h, hs) = (h, first-all P n xs hs)

earlier_total : (db : Db) (a b : Delivery) → earlier db a b ≡ false → earlier db b a ≡ true
earlier_total db a b h = ground arith

earlier_trans :
    (db : Db) (a b c : Delivery)
    → earlier db a b ≡ true
    → earlier db b c ≡ true
    → earlier db a c ≡ true
earlier_trans db a b c h k = ground arith

-- What a batch leaves out stays as it is.
pub rows-kept :
    (uuids : ℕ → ℕ) (max : ℕ) (scope : Option ℕ) (limit : ℤ) (now i : ℕ) (db : Db)
    → any (has_id i) (candidates max scope limit now db) ≡ false
    → find (has_id i) (get_pending_deliveries uuids max scope limit now db).1.deliveries
      ≡ find (has_id i) db.deliveries
unfolding get_pending_deliveries
rows-kept uuids max scope limit now i db out =
    let ids = map id_of (candidates max scope limit now db) in
    let p : Delivery → Bool = λ d. any (λ j. j == d.delivery_id) ids in
    find-update-apart i p (claimed uuids now) db.deliveries (λ d. refl)
      (λ d e. apart i (candidates max scope limit now db) d out e)

-- The rows of a batch are those of the table afterwards.
batch-IsRow :
    (uuids : ℕ → ℕ) (max : ℕ) (scope : Option ℕ) (limit : ℤ) (now : ℕ) (db : Db)
    → let (batch, after) = get_pending_deliveries uuids max scope limit now db in
      All (IsRow after.deliveries) batch
unfolding get_pending_deliveries
batch-IsRow uuids max scope limit now db =
    rows_of-IsRow
      (claim_all uuids now (map id_of (candidates max scope limit now db)) db.deliveries)
      (map id_of (candidates max scope limit now db))

-- The row of a delivery says that it is claimed, since when, and with which id.
abbrev pub IsHandedOver : (ℕ → ℕ) → ℕ → Db → Delivery → Type 0
IsHandedOver uuids now db d =
    find (has_id d.delivery_id) db.deliveries
    ≡ some (record d {
      status = Status.processing;
      claimed_at = some now;
      claim_id = some (uuids d.delivery_id);
    })

IsHandedOver-claimed :
    (uuids : ℕ → ℕ) (now : ℕ) (db : Db) (cs : List Delivery)
    → All (IsRow db.deliveries) (map (claimed uuids now) cs)
    → All (IsHandedOver uuids now db) cs
IsHandedOver-claimed uuids now db [] h = tt
IsHandedOver-claimed uuids now db (c ∷ cs) (h, hs) = (h, IsHandedOver-claimed uuids now db cs hs)

pub candidates-IsHandedOver :
    (uuids : ℕ → ℕ) (max : ℕ) (scope : Option ℕ) (limit : ℤ) (now : ℕ) (db : Db)
    → HasKey db.deliveries
    → All
        (IsHandedOver uuids now (get_pending_deliveries uuids max scope limit now db).1)
        (candidates max scope limit now db)
candidates-IsHandedOver uuids max scope limit now db k =
    let after = (get_pending_deliveries uuids max scope limit now db).1 in
    IsHandedOver-claimed uuids now after (candidates max scope limit now db) (
      subst (All (IsRow after.deliveries)) (rows-claimed uuids max scope limit now db k)
        (batch-IsRow uuids max scope limit now db))

-- A worker is given at most as many deliveries as the limit, in the order of their events' times.
-- Each was a due row of the table, which now holds it as claimed for the worker, with a claim id of
-- its own and the time. Every other row, and the clients and the events, stay as they were.
pub get_pending_deliveries-due :
    (uuids : ℕ → ℕ) (max : ℕ) (scope : Option ℕ) (limit : ℤ) (now : ℕ) (db : Db)
    → HasKey db.deliveries
    → let cs = candidates max scope limit now db in
      let (batch, after) = get_pending_deliveries uuids max scope limit now db in
      (batch ≡ map (claimed uuids now) cs)
      × (length cs ≤ safe_limit limit)
      × Ordered (earlier db) cs
      × All (λ d. IsRow db.deliveries d × (is_due max scope now db d ≡ true)) cs
      × All (IsHandedOver uuids now after) cs
      × ((i : ℕ)
          → any (has_id i) cs ≡ false
          → find (has_id i) after.deliveries ≡ find (has_id i) db.deliveries)
      × (after.clients ≡ db.clients)
      × (after.events ≡ db.events)
unfolding candidates get_pending_deliveries
get_pending_deliveries-due uuids max scope limit now db k =
    let due = select (is_due max scope now db) db.deliveries in
    (
      rows-claimed uuids max scope limit now db k,
      length-first (safe_limit limit) (sort (earlier db) due),
      first-Ordered (earlier db) (safe_limit limit) (sort (earlier db) due)
          (sort-Ordered (earlier db) (earlier_total db) (earlier_trans db) due),
      candidates-due max scope limit now db k,
      candidates-IsHandedOver uuids max scope limit now db k,
      (λ i out. rows-kept uuids max scope limit now i db out),
      refl,
      refl,
    )

-- A due delivery that a worker is not given waits behind a full batch of deliveries whose events
-- are not later than its own.
pub get_pending_deliveries-fair :
    (max : ℕ) (scope : Option ℕ) (limit : ℤ) (now : ℕ) (db : Db) (d : Delivery)
    → HasKey db.deliveries
    → find (has_id d.delivery_id) db.deliveries ≡ some d
    → is_due max scope now db d ≡ true
    → any (has_id d.delivery_id) (candidates max scope limit now db) ≡ false
    → let cs = candidates max scope limit now db in
      (length cs ≡ safe_limit limit) × All (λ c. earlier db c d ≡ true) cs
unfolding candidates
get_pending_deliveries-fair max scope limit now db d k row due out =
    let i = d.delivery_id in
    let selected = select (is_due max scope now db) db.deliveries in
    let sorted = sort (earlier db) selected in
    let there = select-count i (is_due max scope now db) db.deliveries row due in
    let same_count = count-sort (has_id i) (earlier db) selected in
    let (y, f) = count-found i sorted (omega arith) in
    let rows = sort-All _ (earlier db) selected (
      select-All (IsRow db.deliveries) (is_due max scope now db) db.deliveries
        (rows-IsRow db.deliveries k)) in
    let (own, _) = All-find _ (has_id i) sorted rows f in
    let own_id : y.delivery_id ≡ i = let t = find_test (has_id i) sorted f in ground arith in
    let found : some y ≡ some d = sym own ∙ ap (λ j. find (has_id j) db.deliveries) own_id ∙ row in
    let same : y ≡ d = ground arith in
    let o = sort-Ordered (earlier db) (earlier_total db) (earlier_trans db) selected in
    subst
      (λ x.
        (length (first (safe_limit limit) sorted) ≡ safe_limit limit)
        × All (λ c. earlier db c x ≡ true) (first (safe_limit limit) sorted))
      same (first-fair (earlier db) i (safe_limit limit) sorted o f out)
