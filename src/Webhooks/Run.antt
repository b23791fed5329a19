-- ===== src/Webhooks/Run.antt =====
-- operator_api.py, `dispatch_pending_webhooks`: a dispatch is a run of steps of the workers.
use openleg.Prelude.Int.{ℤ, pos}
use openleg.Prelude.{
  ℕ, suc, ◌+◌, ◌==◌, ◌≡◌, refl, sym, ap, ◌∙◌, Bool, true, false, ◌&&◌, Option, some, List, [], ◌∷◌,
  ◌++◌, map, length, All, any, find, count, arith,
}
use mathlib.Core.Path.{subst}
use openleg.Webhooks.{
  Status, status_eq, OperatorEvent, Delivery, Db, has_id, is_due, claimed, candidates,
  get_pending_deliveries, record_attempt,
}
use openleg.Webhooks.Dispatch.{
  Answer, code_of, is_delivered, is_retryable, state_of, Totals, claim_of, event_is_current,
  count_outcome, then_rows, dispatch_rows, batch_limit, dispatch_pending_webhooks,
}
use openleg.Webhooks.Rows.{IsRow, candidates-due}
use openleg.Webhooks.Batch.{IsHandedOver, rows-claimed, rows-kept, candidates-IsHandedOver}
use openleg.Webhooks.Sent.{
  IsAnswered, IsClaimedRow, answered, recorded_as, dispatch_row-reports, rows-IsAnswered,
  candidates-HasKey,
}
use openleg.Webhooks.Ledger.{Claim, Outcome, World, start, is_claim, given, logged, Step, Reach}
use openleg.Webhooks.Ledger.Invariant.{Reach-IsLedger}
use openleg.Clients.{Client}

-- A row that a worker has under a claim that was given.
abbrev IsHeld : World → List OperatorEvent → Delivery → Type 0
IsHeld w events d =
    (status_eq d.status Status.processing ≡ true)
    × (event_is_current events d ≡ true)
    × (any (λ e. is_claim d.delivery_id (claim_of d) e && (e.attempt_count == d.attempt_count))
          w.issued
        ≡ true)

recorded :
    (i c : ℕ) (max n code : ℕ) (retryable : Bool) (now : ℕ) (db : Db)
    → (db' : Db) × (record_attempt i c (state_of max n code) code retryable now db ≡ some db')
recorded i c max n code retryable now db = (_, recorded_as i c max n code retryable now db)

IsHeld-after :
    (w : World) (db : Db) (log : List Outcome) (events : List OperatorEvent) (ds : List Delivery)
    → All (IsHeld w events) ds
    → All (IsHeld (record w { db = db; log = log }) events) ds
IsHeld-after w db log events [] h = tt
IsHeld-after w db log events (d ∷ ds) (h, hs) = (h, IsHeld-after w db log events ds hs)

-- What was counted before a row, and after it.
count_outcome-sums :
    (sent : Bool) (t : Totals)
    → ((count_outcome sent t).attempted ≡ t.attempted + 1)
      × ((count_outcome sent t).delivered + (count_outcome sent t).failed
          ≡ t.delivered + t.failed + 1)
count_outcome-sums true t = (refl, omega arith)
count_outcome-sums false t = (refl, omega arith)

Reach-trans : (max : ℕ) {a b c : World} → Reach max a b → Reach max b c → Reach max a c
Reach-trans max r Reach.here = r
Reach-trans max r (Reach.next s step) = Reach.next (Reach-trans max r s) step

rows-Reach :
    (transport : Delivery → Answer) (clock : ℕ → ℕ) (max : ℕ) (events : List OperatorEvent)
    (ds : List Delivery) (t : Totals) (w : World)
    → All (IsHeld w events) ds
    → (t' : Totals) × (w' : World) × (dispatch_rows transport clock max events ds t w.db
        ≡ some (t', w'.db))
      × Reach max w w'
      × (t'.attempted ≡ t.attempted + length ds)
      × (t'.delivered + t'.failed ≡ t.delivered + t.failed + length ds)
unfolding dispatch_rows
rows-Reach transport clock max events [] t w h = (t, w, refl, Reach.here, omega arith, omega arith)
rows-Reach transport clock max events (d ∷ ds) t w ((processing, current, claim), hs) =
    let i = d.delivery_id in
    let c = claim_of d in
    let code = code_of (transport d) in
    let status = state_of max d.attempt_count code in
    let (db, e) =
      recorded i c max d.attempt_count code (is_retryable max d.attempt_count code) (clock i)
        w.db in
    let log = logged i c status (find (has_id i) w.db.deliveries) w.log in
    let w1 : World = record w { db = db; log = log } in
    let step : Step max w w1 = Step.report i c d.attempt_count code (clock i) claim e in
    let row = dispatch_row-reports transport clock max events d w.db processing current e in
    let (t', w', run, reach, sum, parts) =
      rows-Reach transport clock max events ds (count_outcome (is_delivered code) t) w1
        (IsHeld-after w db log events ds hs) in
    let (one, two) = count_outcome-sums (is_delivered code) t in
    (
      t',
      w',
      ap (then_rows (dispatch_rows transport clock max events ds) t) row ∙ run,
      Reach-trans max (Reach.next Reach.here step) reach,
      omega arith,
      omega arith,
    )

All-implies :
    {A : Type 0} (P Q : A → Type 0) (xs : List A) → ((x : A) → P x → Q x) → All P xs → All Q xs
All-implies P Q [] f h = tt
All-implies P Q (x ∷ xs) f (h, hs) = (f x h, All-implies P Q xs f hs)

abbrev is_held_claim : Delivery → Claim → Bool
is_held_claim d e = is_claim d.delivery_id (claim_of d) e && (e.attempt_count == d.attempt_count)

own-claims :
    (ds : List Delivery) (es : List Claim)
    → All (λ d. any (is_held_claim d) (map given ds ++ es) ≡ true) ds
own-claims [] es = tt
own-claims (d ∷ ds) es = (
  ground arith,
  All-implies (λ x. any (is_held_claim x) (map given ds ++ es) ≡ true)
      (λ x. any (is_held_claim x) (map given (d ∷ ds) ++ es) ≡ true) ds (λ x h. ground arith)
      (own-claims ds es),
)

due-current :
    (uuids : ℕ → ℕ) (max : ℕ) (scope : Option ℕ) (now : ℕ) (db : Db) (d : Delivery)
    → is_due max scope now db d ≡ true
    → event_is_current db.events (claimed uuids now d) ≡ true
unfolding is_due
due-current uuids max scope now db d h = ground arith

claimed-IsHeld :
    (w : World) (uuids : ℕ → ℕ) (max : ℕ) (scope : Option ℕ) (now : ℕ) (db : Db)
    (ds : List Delivery)
    → All (λ d. IsRow db.deliveries d × (is_due max scope now db d ≡ true)) ds
    → All (λ d. any (is_held_claim d) w.issued ≡ true) (map (claimed uuids now) ds)
    → All (IsHeld w db.events) (map (claimed uuids now) ds)
claimed-IsHeld w uuids max scope now db [] h k = tt
claimed-IsHeld w uuids max scope now db (d ∷ ds) ((row, due), hs) (k, ks) = (
  (refl, due-current uuids max scope now db d due, k),
  claimed-IsHeld w uuids max scope now db ds hs ks,
)

length-map : {A B : Type 0} (f : A → B) (xs : List A) → length (map f xs) ≡ length xs
length-map f [] = refl
length-map f (x ∷ xs) = ap suc (length-map f xs)

-- The code that a delivery is answered with, once it is claimed.
abbrev pub answer : (Delivery → Answer) → (ℕ → ℕ) → ℕ → Delivery → ℕ
answer transport uuids now d = code_of (transport (claimed uuids now d))

module _ (transport : Delivery → Answer) (clock uuids : ℕ → ℕ) (max : ℕ) (scope : Option ℕ)
    (now : ℕ) where
  claimed-IsClaimedRow :
      (db after : Db) (cs : List Delivery)
      → All (λ d. IsRow db.deliveries d × (is_due max scope now db d ≡ true)) cs
      → All (IsHandedOver uuids now after) cs
      → All (IsClaimedRow db.events after) (map (claimed uuids now) cs)
  claimed-IsClaimedRow db after [] h k = tt
  claimed-IsClaimedRow db after (d ∷ ds) ((row, due), hs) (k, ks) = (
    (refl, due-current uuids max scope now db d due, ground arith, k),
    claimed-IsClaimedRow db after ds hs ks,
  )

  count-claimed :
      (i : ℕ) (cs : List Delivery)
      → count (has_id i) (map (claimed uuids now) cs) ≡ count (has_id i) cs
  count-claimed i [] = refl
  count-claimed i (d ∷ ds) = ground (arith, count-claimed i ds)

  any-claimed :
      (i : ℕ) (cs : List Delivery) → any (has_id i) (map (claimed uuids now) cs) ≡ any (has_id i) cs
  any-claimed i [] = refl
  any-claimed i (d ∷ ds) = ground (arith, any-claimed i ds)

  count-answered :
      (cs : List Delivery)
      → count (answered transport) (map (claimed uuids now) cs)
        ≡ count (λ d. is_delivered (answer transport uuids now d)) cs
  count-answered [] = refl
  count-answered (d ∷ ds) = ground (arith, count-answered ds)

  All-IsAnswered :
      (db : Db) (cs : List Delivery)
      → All (λ d. IsAnswered clock max (code_of (transport d)) db d) (map (claimed uuids now) cs)
      → All (λ d. IsAnswered clock max (answer transport uuids now d) db d) cs
  All-IsAnswered db [] h = tt
  All-IsAnswered db (d ∷ ds) (h, hs) = (h, All-IsAnswered db ds hs)

  -- A dispatch ends, whatever the transport answers. What it makes of the tables is what some run
  -- of the workers' steps makes of them. Each delivery of the batch has its answer in its row: the
  -- status and the code, one attempt more, the time, and no claim. The other rows stay as they
  -- were. The totals are the deliveries of the batch, those answered by success, and the rest.
  pub dispatch_pending_webhooks-Reach :
      (size : ℤ) (clients : List Client) (events : List OperatorEvent) {w : World}
      → Reach max (start clients events) w
      → ((i : ℕ) → any (is_claim i (uuids i)) w.issued ≡ false)
      → let cs = candidates max scope (pos (batch_limit size)) now w.db in
        (t : Totals) × (w' : World) × (dispatch_pending_webhooks transport clock uuids max scope
            size now w.db
          ≡ some (t, w'.db))
        × Reach max w w'
        × All (λ d. IsAnswered clock max (answer transport uuids now d) w'.db d) cs
        × ((i : ℕ)
            → any (has_id i) cs ≡ false
            → find (has_id i) w'.db.deliveries ≡ find (has_id i) w.db.deliveries)
        × (t.attempted ≡ length cs)
        × (t.delivered ≡ count (λ d. is_delivered (answer transport uuids now d)) cs)
        × (t.delivered + t.failed ≡ t.attempted)
  unfolding dispatch_pending_webhooks
  dispatch_pending_webhooks-Reach size clients events {w} r fresh =
      let limit = pos (batch_limit size) in
      let l = Reach-IsLedger max clients events r in
      let cs = candidates max scope limit now w.db in
      let batch = get_pending_deliveries uuids max scope limit now w.db in
      let w1 : World = record w { db = batch.1; issued = map given batch.0 ++ w.issued } in
      let rows = rows-claimed uuids max scope limit now w.db l.key in
      let due = candidates-due max scope limit now w.db l.key in
      let held : All (IsHeld w1 w.db.events) batch.0 =
        subst (All (IsHeld w1 w.db.events)) (sym rows) (
          claimed-IsHeld w1 uuids max scope now w.db cs due (
            subst (All (λ d. any (is_held_claim d) w1.issued ≡ true)) rows
              (own-claims batch.0 w.issued))) in
      let none_yet : Totals = record { attempted = 0; delivered = 0; failed = 0 } in
      let (t, w', run, reach, sum, parts) =
        rows-Reach transport clock max w.db.events batch.0 none_yet w1 held in
      let size_same = ap length rows ∙ length-map (claimed uuids now) cs in
      let once = candidates-HasKey max scope limit now w.db l.key in
      let run' =
        sym (ap (λ ds. dispatch_rows transport clock max w.db.events ds none_yet w1.db) rows)
        ∙ run in
      let (own, kept, successes) =
        rows-IsAnswered transport clock max w.db.events (map (claimed uuids now) cs) none_yet w1.db
          {t' = t} {db' = w'.db}
          (claimed-IsClaimedRow w.db w1.db cs due
            (candidates-IsHandedOver uuids max scope limit now w.db l.key))
          (λ i. let k = once i in let same = count-claimed i cs in omega arith) run' in
      let same_count = count-answered cs in
      (
        t,
        w',
        run,
        Reach-trans max (Reach.next Reach.here (Step.claim uuids scope limit now fresh)) reach,
        All-IsAnswered w'.db cs own,
        (λ i out. kept i (any-claimed i cs ∙ out) ∙ rows-kept uuids max scope limit now i w.db out),
        omega arith,
        omega arith,
        omega arith,
      )
