-- ===== src/Invoices/Transitions/History.antt =====
-- What payment by hand, cancellation and correction write to the history of the invoices.
use openleg.Prelude.{ℕ, ◌≡◌, arith, Bool, Option, arith, ok}
use openleg.Prelude.Text.{Text}
use openleg.Lifecycle.{State, next_state}
use openleg.Invoices.State.{Db, InvoiceEvent, current_state}
use openleg.Invoices.Transitions.{
  Change, change_state, change_type, change_key, strip_option, transition_invoice,
}
use openleg.Invoices.Log.{IsLog, append_invoice_event-IsLog, append_invoice_event-current_state}

-- The event of a recorded change.
abbrev change_row : Change → ℕ → ℕ → ℕ → State → Option Text → Option Text → Option ℕ → InvoiceEvent
change_row change i c a before reason reference date = record {
  id = 0;
  invoice_id = i;
  community_id = c;
  actor_id = a;
  event_type = change_type change;
  previous_state = before;
  new_state = change_state change;
  idempotency_key = change_key change;
  reason = strip_option reason;
  reference = strip_option reference;
  effective_date = date;
}

-- A payment or a cancellation keeps the log and answers the state that the invoice has afterwards,
-- which is paid or cancelled.
pub transition_invoice-IsLog :
    (change : Change) (i c a : ℕ) (reason reference : Option Text) (date : Option ℕ) (db : Db)
    {s : State} {known : Bool} {db' : Db}
    → IsLog db.events
    → transition_invoice change i c a reason reference date db ≡ ok (s, known, db')
    → IsLog db'.events × (s ≡ change_state change) × (current_state db'.events i ≡ s)
unfolding transition_invoice next_state
transition_invoice-IsLog Change.pay i c a reason reference date db log h =
    let e = change_row Change.pay i c a (current_state db.events i) reason reference date in
    ground (arith, append_invoice_event-IsLog e db log, append_invoice_event-current_state e db log)
transition_invoice-IsLog Change.cancel i c a reason reference date db log h =
    let e = change_row Change.cancel i c a (current_state db.events i) reason reference date in
    ground (arith, append_invoice_event-IsLog e db log, append_invoice_event-current_state e db log)
