-- ===== src/Invoices/Transitions.antt =====
-- store/billing.py: payment by hand and cancellation.
pub mod History
use openleg.Prelude.{
  ℕ, ◌==◌, Bool, true, false, ◌&&◌, ◌||◌, not, Option, none, some, List, [], ◌∷◌, find,
  if◌then◌else◌, Result, ok, err, ◌>>=◌, ◌>>◌, raise_if, or_raise, option_eq,
}
use openleg.Prelude.Text.{Text, text_eq, strip}
use openleg.Lifecycle.{State, Event, Error, next_state}
use openleg.Invoices.State.{
  Invoice, EventType, Key, key_eq, InvoiceEvent, Correction, InvoiceQuery, QueryStatus, QueryEvent,
  Db, locked_invoice, current_state, append_invoice_event,
}

-- The two events of `_transition_invoice`, with the state, event type and key of the same name.
pub data Change : Type 0 where
  pay cancel : Change

abbrev pub change_event : Change → Event
change_event Change.pay = Event.pay
change_event Change.cancel = Event.cancel

abbrev pub change_state : Change → State
change_state Change.pay = State.paid
change_state Change.cancel = State.cancelled

abbrev pub change_type : Change → EventType
change_type Change.pay = EventType.paid
change_type Change.cancel = EventType.cancelled

abbrev pub change_key : Change → Key
change_key Change.pay = Key.paid
change_key Change.cancel = Key.cancelled

abbrev pub state_eq : State → State → Bool
state_eq State.issued State.issued = true
state_eq State.delivered State.delivered = true
state_eq State.paid State.paid = true
state_eq State.cancelled State.cancelled = true
state_eq State.corrected State.corrected = true
state_eq _ _ = false

abbrev pub strip_option : Option Text → Option Text
strip_option none = none
strip_option (some t) = some (strip t)

-- The event of an invoice that carries a key.
abbrev pub event_with : Key → ℕ → List InvoiceEvent → Option InvoiceEvent
event_with key invoice_id = find (λ e. e.invoice_id == invoice_id && key_eq e.idempotency_key key)

abbrev pub same_details : Option Text → Option Text → Option ℕ → Option InvoiceEvent → Bool
same_details reason reference date none = false
same_details reason reference date (some e) =
    option_eq text_eq e.reason reason
    && option_eq text_eq e.reference reference
    && option_eq ◌==◌ e.effective_date date

-- A change that was recorded before: the same details are accepted again, others are refused.
replay :
    Change
    → State
    → Option Text
    → Option Text
    → Option ℕ
    → Option InvoiceEvent
    → Db
    → Result Error (State × Bool × Db)
replay change state reason reference date existing db =
    if same_details reason reference date existing
    then ok (state, true, db)
    else err Error.other_details

-- `_transition_invoice`. The answer is the state, and whether it had been recorded already.
unfoldable pub transition_invoice :
    Change
    → ℕ
    → ℕ
    → ℕ
    → Option Text
    → Option Text
    → Option ℕ
    → Db
    → Result Error (State × Bool × Db)
unfolding replay
transition_invoice change invoice_id community_id actor_id reason_text reference_text date db = do
  let reason = strip_option reason_text
  let reference = strip_option reference_text
  locked_invoice db invoice_id community_id
  let state = current_state db.events invoice_id
  if state_eq state (change_state change)
      then replay change state reason reference date
          (event_with (change_key change) invoice_id db.events) db
      else do
        new_state ← next_state state (change_event change) reason reference date
        ok (
          new_state,
          false,
          append_invoice_event
              (record {
                id = 0;
                invoice_id = invoice_id;
                community_id = community_id;
                actor_id = actor_id;
                event_type = change_type change;
                previous_state = state;
                new_state = new_state;
                idempotency_key = change_key change;
                reason = reason;
                reference = reference;
                effective_date = date;
              })
              db,
        )

unfoldable pub record_invoice_payment :
    ℕ → ℕ → ℕ → Option ℕ → Option Text → Db → Result Error (State × Bool × Db)
record_invoice_payment invoice_id community_id actor_id paid_date reference =
    transition_invoice Change.pay invoice_id community_id actor_id none reference paid_date

unfoldable pub cancel_invoice : ℕ → ℕ → ℕ → Option Text → Db → Result Error (State × Bool × Db)
cancel_invoice invoice_id community_id actor_id reason =
    transition_invoice Change.cancel invoice_id community_id actor_id reason none none
