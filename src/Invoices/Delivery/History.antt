-- ===== src/Invoices/Delivery/History.antt =====
-- What the delivery operations write to the history of an invoice.
use openleg.Prelude.{
  ℕ, ◌≡◌, refl, Bool, true, false, none, some, arith, ok, Option-cases, inl, inr, find, ◌⊎◌,
}
use openleg.Prelude.Text.{Text, codes}
use openleg.Lifecycle.{State, next_state}
use openleg.Invoices.State.{EventType, Key, DeliveryJob, Db, current_state}
use openleg.Invoices.Delivery.{
  Prepared, delivery_event, prepare_invoice_delivery, fail_invoice_delivery, record_failure,
  complete_invoice_delivery, confirm_invoice_delivery, mark_sent, is_open_attempt,
}
use openleg.Invoices.Log.{
  follows, IsLog, append_invoice_event-IsLog, append_invoice_event-current_state,
  append_invoice_event-same,
}

-- The preparation writes no event.
pub prepare_invoice_delivery-events :
    (i c a : ℕ) (db : Db) {p : Prepared} {db' : Db}
    → prepare_invoice_delivery i c a db ≡ ok (p, db')
    → db'.events ≡ db.events
unfolding prepare_invoice_delivery
prepare_invoice_delivery-events i c a db h = ground arith

-- A completed delivery keeps the log. If it was not delivered before, the invoice was issued and is
-- delivered now, as answered; if it was, nothing is written.
pub complete_invoice_delivery-IsLog :
    (i c a : ℕ) (db : Db) {known : Bool} {s : State} {db' : Db}
    → IsLog db.events
    → complete_invoice_delivery i c a db ≡ ok (known, s, db')
    → IsLog db'.events
      × (s ≡ State.delivered)
      × (((known ≡ true) × (db' ≡ db))
          ⊎ ((known ≡ false)
              × (current_state db.events i ≡ State.issued)
              × (current_state db'.events i ≡ s)))
unfolding complete_invoice_delivery mark_sent next_state
complete_invoice_delivery-IsLog i c a db log h =
    let e =
      delivery_event EventType.delivered i c a (current_state db.events i) State.delivered
        Key.delivered none none in
    ground (arith, append_invoice_event-IsLog e db log, append_invoice_event-current_state e db log)

-- The same for a delivery that is confirmed by hand.
pub confirm_invoice_delivery-IsLog :
    (i c a : ℕ) (db : Db) {known : Bool} {s : State} {db' : Db}
    → IsLog db.events
    → confirm_invoice_delivery i c a db ≡ ok (known, s, db')
    → IsLog db'.events
      × (s ≡ State.delivered)
      × (((known ≡ true) × (db' ≡ db))
          ⊎ ((known ≡ false)
              × (current_state db.events i ≡ State.issued)
              × (current_state db'.events i ≡ s)))
unfolding confirm_invoice_delivery mark_sent next_state
confirm_invoice_delivery-IsLog i c a db log h =
    let e =
      delivery_event EventType.delivery_confirmed i c a (current_state db.events i) State.delivered
        Key.delivered (some (codes "Zustellung durch Admin bestätigt")) none in
    ground (arith, append_invoice_event-IsLog e db log, append_invoice_event-current_state e db log)

follows-delivery_failed : (s : State) → follows EventType.delivery_failed s s ≡ true
follows-delivery_failed s = ground arith

record_failure-IsLog :
    (job : DeliveryJob) (i c a : ℕ) (error : Text) (j : ℕ) (db : Db)
    → IsLog db.events
    → IsLog (record_failure job i c a error db).events
      × (current_state (record_failure job i c a error db).events j ≡ current_state db.events j)
unfolding record_failure
record_failure-IsLog job i c a error j db log = (
  append_invoice_event-IsLog _ _ log refl (follows-delivery_failed _) tt,
  append_invoice_event-same _ _ j refl,
)

-- A failed delivery keeps the log, and the state of each invoice.
pub fail_invoice_delivery-IsLog :
    (i c a : ℕ) (error : Text) (j : ℕ) (db : Db) {db' : Db}
    → IsLog db.events
    → fail_invoice_delivery i c a error db ≡ ok db'
    → IsLog db'.events × (current_state db'.events j ≡ current_state db.events j)
unfolding fail_invoice_delivery
fail_invoice_delivery-IsLog i c a error j db {db'} log h =
    elim (Option-cases (find (is_open_attempt i c) db.jobs)) [
      | inl missing ↦ ground arith
      | inr (job, e) ↦
          let same : db' ≡ record_failure job i c a error db = ground arith in
          rw same (record_failure-IsLog job i c a error j db log)
    ]
