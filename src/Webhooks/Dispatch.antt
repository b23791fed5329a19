-- ===== src/Webhooks/Dispatch.antt =====
-- operator_api.py, `dispatch_pending_webhooks`: a worker claims a batch, sends each delivery and
-- records its outcome. The transport and the signature it sends are parameters.
use openleg.Prelude.Int.{ℤ, pos, pos_part}
use openleg.Prelude.{
  ℕ, ◌+◌, Bool, true, false, ◌&&◌, ◌||◌, not, Option, none, some, List, [], ◌∷◌, ◌==◌, find, ltb,
  leb, if◌then◌else◌,
}
use openleg.Webhooks.{
  Status, status_eq, OperatorEvent, Delivery, Db, get_pending_deliveries, record_attempt,
}

-- What the transport does: it returns a status, or raises an HTTPError or another exception.
pub data Answer : Type 0 where
  returned : ℕ → Answer
  http_error : ℕ → Answer
  no_answer : Answer

abbrev pub code_of : Answer → ℕ
code_of (Answer.returned code) = code
code_of (Answer.http_error code) = code
code_of Answer.no_answer = 0

abbrev pub is_delivered : ℕ → Bool
is_delivered code = leb 200 code && ltb code 300

abbrev pub is_retryable : ℕ → ℕ → ℕ → Bool
is_retryable max_attempts attempt_count code =
    not (is_delivered code) && ltb (attempt_count + 1) max_attempts

abbrev pub state_of : ℕ → ℕ → ℕ → Status
state_of max_attempts attempt_count code =
    if is_delivered code
    then Status.delivered
    else if is_retryable max_attempts attempt_count code
    then Status.retry
    else Status.failed

pub record Totals : Type 0 where
  pub attempted : ℕ
  pub delivered : ℕ
  pub failed : ℕ

abbrev pub claim_of : Delivery → ℕ
claim_of d = elim d.claim_id [ none ↦ 0 | some c ↦ c ]

-- schema_version of the event that was joined to the row.
abbrev pub event_is_current : List OperatorEvent → Delivery → Bool
event_is_current events d = elim (find (λ e. e.event_id == d.event_id) events) [
  | none ↦ false
  | some e ↦ e.current
]

abbrev pub count_outcome : Bool → Totals → Totals
count_outcome true t = record t { attempted = t.attempted + 1; delivered = t.delivered + 1 }
count_outcome false t = record t { attempted = t.attempted + 1; failed = t.failed + 1 }

-- `record_webhook_attempt` for one claimed row; `clock` gives the time at which it is called.
unfoldable pub dispatch_row :
    (Delivery → Answer) → (ℕ → ℕ) → ℕ → List OperatorEvent → Delivery → Db → Option (Bool × Db)
dispatch_row transport clock max_attempts events row db =
    let now = clock row.delivery_id in
    let code = code_of (transport row) in
    if not (status_eq row.status Status.processing) || not (event_is_current events row)
    then elim (record_attempt row.delivery_id (claim_of row) Status.failed 0 false now db) [
      | none ↦ none
      | some db' ↦ some (false, db')
    ]
    else elim (record_attempt row.delivery_id (claim_of row)
        (state_of max_attempts row.attempt_count code) code
        (is_retryable max_attempts row.attempt_count code) now db) [
          | none ↦ none
          | some db' ↦ some (is_delivered code, db')
        ]

-- The other rows, after one.
abbrev pub then_rows :
    (Totals → Db → Option (Totals × Db)) → Totals → Option (Bool × Db) → Option (Totals × Db)
then_rows rest t none = none
then_rows rest t (some (sent, db)) = rest (count_outcome sent t) db

unfoldable pub dispatch_rows :
    (Delivery → Answer)
    → (ℕ → ℕ)
    → ℕ
    → List OperatorEvent
    → List Delivery
    → Totals
    → Db
    → Option (Totals × Db)
dispatch_rows transport clock max_attempts events [] t db = some (t, db)
dispatch_rows transport clock max_attempts events (row ∷ rows) t db =
    then_rows (dispatch_rows transport clock max_attempts events rows) t
      (dispatch_row transport clock max_attempts events row db)

-- `max(1, min(int(batch_size), MAX_WEBHOOK_BATCH_SIZE))`
abbrev pub batch_limit : ℤ → ℕ
batch_limit size =
    if leb (pos_part size) 1 then 1 else if leb (pos_part size) 100 then pos_part size else 100

unfoldable pub dispatch_pending_webhooks :
    (Delivery → Answer) → (ℕ → ℕ) → (ℕ → ℕ) → ℕ → Option ℕ → ℤ → ℕ → Db → Option (Totals × Db)
unfolding dispatch_rows
dispatch_pending_webhooks transport clock uuids max_attempts scope batch_size now db =
    let (rows, db') =
      get_pending_deliveries uuids max_attempts scope (pos (batch_limit batch_size)) now db in
    dispatch_rows transport clock max_attempts db.events rows
      (record { attempted = 0; delivered = 0; failed = 0 }) db'
