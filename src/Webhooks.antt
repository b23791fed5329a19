-- ===== src/Webhooks.antt =====
-- store/operator_api.py: the webhook deliveries of operator events, which workers claim in batches.
-- Identifiers, claims and response statuses are numbers, and times are seconds. A table is joined
-- by a primary key, so a join finds the row with the key.
pub mod Rows
pub mod Dispatch
pub mod Ledger
pub mod Sent
pub mod Run
pub mod Batch
mod Tests
use openleg.Clients.{Client}
use openleg.Prelude.Int.{ℤ, pos_part}
use openleg.Prelude.Sorting.{sort, first}
use openleg.Prelude.{
  ℕ, ◌+◌, ◌*◌, ◌^◌, ◌==◌, Bool, true, false, ◌&&◌, ◌||◌, not, Option, none, some, List, [], ◌∷◌,
  map, any, find, select, update, ltb, leb, if◌then◌else◌,
}

pub data Status : Type 0 where
  pending processing retry delivered failed : Status

abbrev pub status_eq : Status → Status → Bool
status_eq Status.pending Status.pending = true
status_eq Status.processing Status.processing = true
status_eq Status.retry Status.retry = true
status_eq Status.delivered Status.delivered = true
status_eq Status.failed Status.failed = true
status_eq _ _ = false

-- A row of operator_events. `current` is the test schema_version = 'operator-event/1'.
pub record OperatorEvent : Type 0 where
  pub event_id : ℕ
  pub community_id : ℕ
  pub occurred_at : ℕ
  pub current : Bool

pub record Delivery : Type 0 where
  pub delivery_id : ℕ
  pub event_id : ℕ
  pub client_id : ℕ
  pub status : Status
  pub attempt_count : ℕ
  pub response_status : Option ℕ
  pub next_attempt_at : ℕ
  pub last_attempt_at : Option ℕ
  pub claimed_at : Option ℕ
  pub claim_id : Option ℕ

pub record Db : Type 0 where
  pub clients : List Client
  pub events : List OperatorEvent
  pub deliveries : List Delivery

abbrev pub has_id : ℕ → Delivery → Bool
has_id delivery_id d = d.delivery_id == delivery_id

abbrev pub event_of : Db → Delivery → Option OperatorEvent
event_of db d = find (λ e. e.event_id == d.event_id) db.events

-- d.status IN ('pending','retry') OR (d.status='processing' AND d.claimed_at < now - 15 minutes)
abbrev pub is_free : ℕ → Delivery → Bool
is_free now d = elim d.status [
  | Status.pending ↦ true
  | Status.retry ↦ true
  | Status.processing ↦ elim d.claimed_at [ none ↦ false | some t ↦ ltb (t + 900) now ]
  | Status.delivered ↦ false
  | Status.failed ↦ false
]

abbrev client_active : Db → Delivery → Bool
client_active db d = elim (find (λ c. c.id == d.client_id) db.clients) [
  | none ↦ false
  | some c ↦ c.active
]

-- The conditions on the event, with the scope of a community where there is one.
abbrev event_fits : Db → Option ℕ → Delivery → Bool
event_fits db scope d = elim (event_of db d) [
  | none ↦ false
  | some e ↦
      e.current && elim scope [ none ↦ true | some community_id ↦ e.community_id == community_id ]
]

-- The WHERE clause of the candidates.
unfoldable pub is_due : ℕ → Option ℕ → ℕ → Db → Delivery → Bool
is_due max_attempts scope now db d =
    is_free now d
    && ltb d.attempt_count max_attempts
    && client_active db d
    && leb d.next_attempt_at now
    && event_fits db scope d

abbrev pub occurred_at : Db → Delivery → ℕ
occurred_at db d = elim (event_of db d) [ none ↦ 0 | some e ↦ e.occurred_at ]

-- ORDER BY e.occurred_at
abbrev pub earlier : Db → Delivery → Delivery → Bool
earlier db a b = leb (occurred_at db a) (occurred_at db b)

-- `max(1, min(int(limit), 100))`
abbrev pub safe_limit : ℤ → ℕ
safe_limit limit =
    if leb (pos_part limit) 1 then 1 else if leb (pos_part limit) 100 then pos_part limit else 100

-- The candidates: the due deliveries by their events' times, as many as the limit.
unfoldable pub candidates : ℕ → Option ℕ → ℤ → ℕ → Db → List Delivery
unfolding is_due
candidates max_attempts scope limit now db =
    first (safe_limit limit)
      (sort (earlier db) (select (is_due max_attempts scope now db) db.deliveries))

-- `uuids` gives the claim id that is drawn for a delivery.
abbrev pub claimed : (ℕ → ℕ) → ℕ → Delivery → Delivery
claimed uuids now d = record d {
  status = Status.processing;
  claimed_at = some now;
  claim_id = some (uuids d.delivery_id);
}

abbrev pub claim_all : (ℕ → ℕ) → ℕ → List ℕ → List Delivery → List Delivery
claim_all uuids now ids ds = update (λ d. any (λ i. i == d.delivery_id) ids) (claimed uuids now) ds

abbrev pub add_found : Option Delivery → List Delivery → List Delivery
add_found none rows = rows
add_found (some d) rows = d ∷ rows

-- The rows of the ids.
abbrev pub rows_of : List Delivery → List ℕ → List Delivery
rows_of ds [] = []
rows_of ds (i ∷ is) = add_found (find (has_id i) ds) (rows_of ds is)

-- `get_pending_deliveries`, one statement: it returns the claimed rows, in the candidates' order.
-- Statements run one after another here, so no row is locked that SKIP LOCKED would pass over.
unfoldable pub get_pending_deliveries : (ℕ → ℕ) → ℕ → Option ℕ → ℤ → ℕ → Db → List Delivery × Db
unfolding candidates
get_pending_deliveries uuids max_attempts scope limit now db =
    let ids = map (λ (d : Delivery). d.delivery_id) (candidates max_attempts scope limit now db) in
    let deliveries = claim_all uuids now ids db.deliveries in
    (rows_of deliveries ids, record db { deliveries = deliveries })

-- LEAST(3600, POWER(2, attempt_count)::int * 30), which is an integer up to 25 attempts.
unfoldable pub backoff : ℕ → ℕ
backoff attempt_count = let wait = 2 ^ attempt_count * 30 in if leb wait 3_600 then wait else 3_600

abbrev pub holds : ℕ → ℕ → Delivery → Bool
holds delivery_id claim_id d =
    (d.delivery_id == delivery_id)
    && status_eq d.status Status.processing
    && elim d.claim_id [ none ↦ false | some c ↦ c == claim_id ]

abbrev pub attempted : Status → ℕ → Bool → ℕ → Delivery → Delivery
attempted status response_status retryable now d = record d {
  status = status;
  response_status = some response_status;
  attempt_count = d.attempt_count + 1;
  last_attempt_at = some now;
  next_attempt_at = if retryable then now + backoff d.attempt_count else d.next_attempt_at;
  claim_id = none;
}

-- `none` stands for the ValueError.
unfoldable pub record_attempt : ℕ → ℕ → Status → ℕ → Bool → ℕ → Db → Option Db
record_attempt delivery_id claim_id status response_status retryable now db =
    if not (
      status_eq status Status.retry
      || status_eq status Status.delivered
      || status_eq status Status.failed)
    then none
    else some (record db {
      deliveries =
          update (holds delivery_id claim_id) (attempted status response_status retryable now)
            db.deliveries;
    })

abbrev pub can_retry : Db → ℕ → ℕ → Delivery → Bool
can_retry db community_id delivery_id d =
    elim (event_of db d) [ none ↦ false | some e ↦ e.community_id == community_id ]
    && (d.delivery_id == delivery_id)
    && status_eq d.status Status.failed

abbrev pub retried : ℕ → Delivery → Delivery
retried now d = record d { status = Status.retry; claim_id = none; next_attempt_at = now }

-- UPDATE ... RETURNING with `fetchone`: a delivery that was retried, if any.
unfoldable pub retry_delivery : ℕ → ℕ → ℕ → Db → Option Delivery × Db
retry_delivery community_id delivery_id now db =
    let is = can_retry db community_id delivery_id in
    (
      elim (find is db.deliveries) [ none ↦ none | some d ↦ some (retried now d) ],
      record db { deliveries = update is (retried now) db.deliveries },
    )

-- A row that an inserted delivery would repeat: the id is a primary key, and the event and the
-- client are unique together.
abbrev pub repeats : ℕ → ℕ → ℕ → Delivery → Bool
repeats delivery_id event_id client_id d =
    (d.delivery_id == delivery_id) || ((d.event_id == event_id) && (d.client_id == client_id))

-- A delivery that `enqueue_event` inserts, by the defaults of the table, ON CONFLICT DO NOTHING. The
-- id is drawn.
unfoldable pub insert_delivery : ℕ → ℕ → ℕ → ℕ → Db → Db
insert_delivery delivery_id event_id client_id now db =
    let row : Delivery = record {
      delivery_id = delivery_id;
      event_id = event_id;
      client_id = client_id;
      status = Status.pending;
      attempt_count = 0;
      response_status = none;
      next_attempt_at = now;
      last_attempt_at = none;
      claimed_at = none;
      claim_id = none;
    } in
    if any (repeats delivery_id event_id client_id) db.deliveries
    then db
    else record db { deliveries = row ∷ db.deliveries }
