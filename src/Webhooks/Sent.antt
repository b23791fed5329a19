-- ===== src/Webhooks/Sent.antt =====
-- operator_api.py, `dispatch_pending_webhooks`: what the loop leaves in the row of each delivery of
-- its batch.
use openleg.Prelude.Sorting.{sort, count-sort, first}
use openleg.Prelude.Int.{ℤ}
use openleg.Prelude.{
  ℕ, zero, suc, ◌+◌, ◌≤◌, ◌==◌, ◌≡◌, refl, sym, ap, ◌∙◌, Bool, true, false, Option, some, List, [],
  ◌∷◌, All, any, find, select, count, update, if◌then◌else◌, arith,
}
use openleg.Webhooks.{
  Status, status_eq, OperatorEvent, Delivery, Db, has_id, is_due, safe_limit, earlier, candidates,
  holds, attempted, record_attempt,
}
use openleg.Webhooks.Dispatch.{
  Answer, code_of, is_delivered, is_retryable, state_of, Totals, claim_of, event_is_current,
  count_outcome, then_rows, dispatch_row, dispatch_rows,
}
use openleg.Webhooks.Rows.{changed, find-update, HasKey, IsRow}
use openleg.Webhooks.Batch.{find-update-apart}

count-select-le :
    (i : ℕ) (p : Delivery → Bool) (xs : List Delivery)
    → count (has_id i) (select p xs) ≤ count (has_id i) xs
count-select-le i p [] = omega arith
count-select-le i p (x ∷ xs) = ground (arith, count-select-le i p xs)

count-first-le :
    (i n : ℕ) (xs : List Delivery) → count (has_id i) (first n xs) ≤ count (has_id i) xs
count-first-le i zero xs = omega arith
count-first-le i (suc n) [] = omega arith
count-first-le i (suc n) (x ∷ xs) = ground (arith, count-first-le i n xs)

-- No delivery is twice among the candidates.
pub candidates-HasKey :
    (max : ℕ) (scope : Option ℕ) (limit : ℤ) (now : ℕ) (db : Db)
    → HasKey db.deliveries
    → HasKey (candidates max scope limit now db)
unfolding candidates
candidates-HasKey max scope limit now db k i =
    let due = select (is_due max scope now db) db.deliveries in
    omega (
      arith,
      k i,
      count-select-le i (is_due max scope now db) db.deliveries,
      count-sort (has_id i) (earlier db) due,
      count-first-le i (safe_limit limit) (sort (earlier db) due),
    )

pub recorded_as :
    (i c max n code : ℕ) (retryable : Bool) (now : ℕ) (db : Db)
    → record_attempt i c (state_of max n code) code retryable now db
      ≡ some (record db {
        deliveries =
            update (holds i c) (attempted (state_of max n code) code retryable now) db.deliveries;
      })
unfolding record_attempt
recorded_as i c max n code retryable now db = ground arith

pub dispatch_row-reports :
    (transport : Delivery → Answer) (clock : ℕ → ℕ) (max : ℕ) (events : List OperatorEvent)
    (d : Delivery) (db : Db) {db' : Db}
    → status_eq d.status Status.processing ≡ true
    → event_is_current events d ≡ true
    → let code = code_of (transport d) in
      record_attempt d.delivery_id
          (claim_of d)
          (state_of max d.attempt_count code)
          code
          (is_retryable max d.attempt_count code)
          (clock d.delivery_id)
          db
        ≡ some db'
      → dispatch_row transport clock max events d db ≡ some (is_delivered code, db')
unfolding dispatch_row
dispatch_row-reports transport clock max events d db p c h = ground arith

-- The row of a delivery has the answer to this attempt: its status, its code and its time, one
-- attempt more, and no claim.
abbrev pub IsAnswered : (ℕ → ℕ) → ℕ → ℕ → Db → Delivery → Type 0
IsAnswered clock max code db d =
    (r : Delivery) × (find (has_id d.delivery_id) db.deliveries ≡ some r)
    × (r.status ≡ state_of max d.attempt_count code)
    × (r.response_status ≡ some code)
    × (r.attempt_count ≡ d.attempt_count + 1)
    × (r.last_attempt_at ≡ some (clock d.delivery_id))
    × (r.claim_id ≡ Option.none)

-- A row of the table under a claim.
abbrev pub IsClaimedRow : List OperatorEvent → Db → Delivery → Type 0
IsClaimedRow events db d =
    (status_eq d.status Status.processing ≡ true)
    × (event_is_current events d ≡ true)
    × (holds d.delivery_id (claim_of d) d ≡ true)
    × IsRow db.deliveries d

IsClaimedRow-apart :
    (events : List OperatorEvent) (i : ℕ) (db db' : Db) (ds : List Delivery)
    → count (has_id i) ds ≡ 0
    → ((j : ℕ) → (i == j) ≡ false → find (has_id j) db'.deliveries ≡ find (has_id j) db.deliveries)
    → All (IsClaimedRow events db) ds
    → All (IsClaimedRow events db') ds
IsClaimedRow-apart events i db db' [] none same h = tt
IsClaimedRow-apart events i db db' (d ∷ ds) none same ((p, e, c, row), hs) = (
  (p, e, c, same d.delivery_id (ground arith) ∙ row),
  IsClaimedRow-apart events i db db' ds (ground arith) same hs,
)

any-count : (i : ℕ) (ds : List Delivery) → count (has_id i) ds ≡ 0 → any (has_id i) ds ≡ false
any-count i [] h = refl
any-count i (d ∷ ds) h = ground (arith, any-count i ds)

abbrev pub answered : (Delivery → Answer) → Delivery → Bool
answered transport d = is_delivered (code_of (transport d))

-- The loop writes each answer to its row, leaves the others alone, and counts the successes.
pub rows-IsAnswered :
    (transport : Delivery → Answer) (clock : ℕ → ℕ) (max : ℕ) (events : List OperatorEvent)
    (ds : List Delivery) (t : Totals) (db : Db) {t' : Totals} {db' : Db}
    → All (IsClaimedRow events db) ds
    → HasKey ds
    → dispatch_rows transport clock max events ds t db ≡ some (t', db')
    → All (λ d. IsAnswered clock max (code_of (transport d)) db' d) ds
      × ((i : ℕ)
          → any (has_id i) ds ≡ false
          → find (has_id i) db'.deliveries ≡ find (has_id i) db.deliveries)
      × (t'.delivered ≡ t.delivered + count (answered transport) ds)
unfolding dispatch_rows
rows-IsAnswered transport clock max events [] t db {t'} {db'} h k run =
    let same_t : t ≡ t' = ground arith in
    let same_db : db ≡ db' = ground arith in
    (tt, (λ i out. ap (λ (x : Db). find (has_id i) x.deliveries) (sym same_db)), ground arith)
rows-IsAnswered transport clock max events (d ∷ ds) t db {t'} {db'} ((p, e, c, row), hs) k run =
    let i = d.delivery_id in
    let code = code_of (transport d) in
    let retryable = is_retryable max d.attempt_count code in
    let f = attempted (state_of max d.attempt_count code) code retryable (clock i) in
    let db1 : Db = record db { deliveries = update (holds i (claim_of d)) f db.deliveries } in
    let one =
      dispatch_row-reports transport clock max events d db {db' = db1} p e
        (recorded_as i (claim_of d) max d.attempt_count code retryable (clock i) db) in
    let later : dispatch_rows transport clock max events ds (count_outcome (is_delivered code) t)
          db1
        ≡ some (t', db') =
      sym (ap (then_rows (dispatch_rows transport clock max events ds) t) one) ∙ run in
    let others : (j : ℕ)
        → (i == j) ≡ false
        → find (has_id j) db1.deliveries ≡ find (has_id j) db.deliveries =
      λ j new.
        find-update-apart j (holds i (claim_of d)) f db.deliveries (λ x. refl)
          (λ x q. ground arith) in
    let absent : count (has_id i) ds ≡ 0 = let once = k i in ground arith in
    let (rest, kept, sum) =
      rows-IsAnswered transport clock max events ds (count_outcome (is_delivered code) t) db1
        {t' = t'} {db' = db'} (IsClaimedRow-apart events i db db1 ds absent others hs)
        (λ j. let once = k j in ground arith) later in
    let own : find (has_id i) db1.deliveries ≡ some (f d) =
      find-update i (holds i (claim_of d)) f db.deliveries (λ x. refl)
      ∙ ap (changed (holds i (claim_of d)) f) row
      ∙ ap (λ b. some (if b then f d else d)) c in
    (
      ((f d, kept i (any-count i ds absent) ∙ own, refl, refl, refl, refl, refl), rest),
      (λ j out. kept j (ground arith) ∙ others j (ground arith)),
      ground arith,
    )
