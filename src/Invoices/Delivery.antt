-- ===== src/Invoices/Delivery.antt =====
-- store/billing.py: the delivery of an invoice. An attempt is reserved, then completed, failed or
-- confirmed by hand. The actor only enters the audit row.
pub mod History
use openleg.Prelude.{
  ℕ, ◌==◌, Bool, true, false, ◌&&◌, ◌||◌, not, Option, none, some, [], ◌∷◌, find, update,
  if◌then◌else◌, Result, ok, ◌>>=◌, ◌>>◌, raise_if, or_raise,
}
use openleg.Prelude.Text.{Text, codes, is_empty, take}
use openleg.Lifecycle.{State, Event, Error, next_state}
use openleg.Invoices.State.{
  Invoice, Building, DeliveryMethod, EventType, Key, InvoiceEvent, JobStatus, DeliveryJob, Db,
  locked_invoice, current_state, append_invoice_event,
}

-- What `prepare_invoice_delivery` answers.
pub data Prepared : Type 0 where
  already_delivered : State → Prepared
  confirmation_required : JobStatus → State → Prepared
  attempt : DeliveryMethod → Text → ℕ → Text → Prepared

-- The SELECT on `invoice_delivery_jobs`.
unfoldable pub job_of : Db → ℕ → Option DeliveryJob
job_of db invoice_id = find (λ j. j.invoice_id == invoice_id) db.jobs

abbrev pub is_delivered : State → Bool
is_delivered State.delivered = true
is_delivered _ = false

abbrev is_email : DeliveryMethod → Bool
is_email DeliveryMethod.email = true
is_email DeliveryMethod.download = false

abbrev job_status : Option DeliveryJob → Option JobStatus
job_status none = none
job_status (some j) = some j.status

-- The branch on the job: an uncertain attempt is not repeated, and a new one is reserved.
abbrev reserve :
    Option JobStatus
    → ℕ
    → ℕ
    → State
    → DeliveryMethod
    → Building
    → Text
    → Db
    → Result Error (Prepared × Db)
reserve (some JobStatus.sent) invoice_id community_id state method b number db =
    ok (Prepared.already_delivered State.delivered, db)
reserve (some s) invoice_id community_id state method b number db =
    ok (Prepared.confirmation_required s state, db)
reserve none invoice_id community_id state method b number db = ok (
  Prepared.attempt method b.email b.preferred_locale number,
  record db {
    jobs =
        record {
          invoice_id = invoice_id;
          community_id = community_id;
          delivery_method = method;
          status = JobStatus.pending;
          attempt_count = 1;
          last_error = [];
        }
        ∷ db.jobs;
  },
)

prepare_undelivered : ℕ → ℕ → State → Invoice → Building → Db → Result Error (Prepared × Db)
unfolding job_of
prepare_undelivered invoice_id community_id state invoice b db = do
  next_state state Event.deliver none none none
  method ← or_raise invoice.delivery_method Error.no_delivery_method
  raise_if (is_email method && is_empty b.email) Error.no_email
  reserve (job_status (job_of db invoice_id)) invoice_id community_id state method b
      invoice.invoice_number db

unfoldable pub prepare_invoice_delivery : ℕ → ℕ → ℕ → Db → Result Error (Prepared × Db)
unfolding prepare_undelivered
prepare_invoice_delivery invoice_id community_id actor_id db = do
  locked ← locked_invoice db invoice_id community_id
  b ← or_raise locked.recipient Error.registration_changed
  let state = current_state db.events invoice_id
  if is_delivered state
      then ok (Prepared.already_delivered state, db)
      else prepare_undelivered invoice_id community_id state locked.invoice b db

abbrev is_pending : JobStatus → Bool
is_pending JobStatus.pending = true
is_pending _ = false

abbrev is_sent : Option JobStatus → Bool
is_sent (some JobStatus.sent) = true
is_sent _ = false

abbrev method_text : DeliveryMethod → Text
method_text DeliveryMethod.email = codes "email"
method_text DeliveryMethod.download = codes "download"

-- The event of a delivery operation; the id is given by the sequence.
abbrev delivery_event :
    EventType → ℕ → ℕ → ℕ → State → State → Key → Option Text → Option Text → InvoiceEvent
delivery_event type invoice_id community_id actor_id before after key reason reference = record {
  id = 0;
  invoice_id = invoice_id;
  community_id = community_id;
  actor_id = actor_id;
  event_type = type;
  previous_state = before;
  new_state = after;
  idempotency_key = key;
  reason = reason;
  reference = reference;
  effective_date = none;
}

-- WHERE invoice_id = ... AND community_id = ... AND status = 'pending'
abbrev is_open_attempt : ℕ → ℕ → DeliveryJob → Bool
is_open_attempt invoice_id community_id j =
    j.invoice_id == invoice_id && j.community_id == community_id && is_pending j.status

unfoldable pub record_failure : DeliveryJob → ℕ → ℕ → ℕ → Text → Db → Db
record_failure job invoice_id community_id actor_id error db =
    let state = current_state db.events invoice_id in
    append_invoice_event
      (delivery_event EventType.delivery_failed invoice_id community_id actor_id state state
        (Key.delivery_failed job.attempt_count) (some (take 500 error))
        (some (method_text job.delivery_method)))
      (record db {
        jobs =
            update (is_open_attempt invoice_id community_id)
              (λ j. record j { status = JobStatus.failed; last_error = take 500 error }) db.jobs;
      })

unfoldable pub fail_invoice_delivery : ℕ → ℕ → ℕ → Text → Db → Result Error Db
fail_invoice_delivery invoice_id community_id actor_id error db = do
  job ← or_raise (find (is_open_attempt invoice_id community_id) db.jobs) Error.no_open_attempt
  ok (record_failure job invoice_id community_id actor_id error db)

-- UPDATE invoice_delivery_jobs SET status = 'sent' WHERE invoice_id = ...
unfoldable pub mark_sent : ℕ → Db → Db
mark_sent invoice_id db = record db {
  jobs =
      update (λ j. j.invoice_id == invoice_id) (λ j. record j { status = JobStatus.sent }) db.jobs;
}

abbrev may_complete : Option JobStatus → Bool
may_complete (some JobStatus.pending) = true
may_complete _ = false

abbrev may_confirm : Option JobStatus → Bool
may_confirm (some JobStatus.pending) = true
may_confirm (some JobStatus.failed) = true
may_confirm _ = false

-- The common course of `complete_invoice_delivery` and `confirm_invoice_delivery`: they differ in
-- the jobs that they accept, their error and the event. The answer is whether the invoice was
-- delivered before, and its state.
deliver_by :
    EventType
    → Option Text
    → (Option JobStatus → Bool)
    → Error
    → ℕ
    → ℕ
    → ℕ
    → Db
    → Result Error (Bool × State × Db)
deliver_by type reason accepts refusal invoice_id community_id actor_id db = do
  locked_invoice db invoice_id community_id
  let state = current_state db.events invoice_id
  let job = job_status (job_of db invoice_id)
  if is_delivered state || is_sent job then ok (true, State.delivered, db) else do
    raise_if (not (accepts job)) refusal
    new_state ← next_state state Event.deliver none none none
    ok (
      false,
      new_state,
      mark_sent invoice_id (
          append_invoice_event
            (delivery_event type invoice_id community_id actor_id state new_state Key.delivered
              reason none)
            db),
    )

unfoldable pub complete_invoice_delivery : ℕ → ℕ → ℕ → Db → Result Error (Bool × State × Db)
unfolding deliver_by
complete_invoice_delivery = deliver_by EventType.delivered none may_complete Error.not_prepared

unfoldable pub confirm_invoice_delivery : ℕ → ℕ → ℕ → Db → Result Error (Bool × State × Db)
unfolding deliver_by
confirm_invoice_delivery =
    deliver_by EventType.delivery_confirmed (some (codes "Zustellung durch Admin bestätigt"))
      may_confirm Error.no_unclear_delivery
