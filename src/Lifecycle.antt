-- ===== src/Lifecycle.antt =====
-- billing_lifecycle.py: the states of an issued invoice and the changes that are allowed.
-- An event is one of the four that the callers pass; a date is its ordinal, and an optional text
-- or date stands for a value that may be None or of another type.
pub mod Rules
mod Tests
use openleg.Prelude.{
  ℕ, ◌≡◌, Bool, true, false, ◌&&◌, not, Option, none, some, Result, ok, err, ◌>>=◌, ◌>>◌, raise_if,
  if◌then◌else◌, is_some,
}
use openleg.Prelude.Text.{Text, codes, text_eq, is_empty, strip}

pub data State : Type 0 where
  issued delivered paid cancelled corrected : State

pub data Event : Type 0 where
  deliver pay cancel correct : Event

-- The messages of `InvoiceLifecycleError`, here and in store/billing.py, and `BillingStoreError`.
pub data Error : Type 0 where
  transition_not_allowed reason_required reference_required payment_date_required : Error
  invalid_state invoice_not_found registration_changed no_delivery_method no_email : Error
  no_open_attempt not_prepared no_unclear_delivery other_details payment_differs : Error
  replacement_not_found other_participant already_linked replacement_unavailable : Error
  idempotency_key_reused store_error : Error

-- `_TRANSITIONS`
abbrev pub transitions : State → Event → Option State
transitions State.issued Event.deliver = some State.delivered
transitions State.delivered Event.pay = some State.paid
transitions State.issued Event.cancel = some State.cancelled
transitions State.delivered Event.cancel = some State.cancelled
transitions State.cancelled Event.correct = some State.corrected
transitions _ _ = none

-- `_required_text`: the text without its padding, or the error.
unfoldable pub required_text : Option Text → Error → Result Error Text
required_text none e = err e
required_text (some t) e = if is_empty (strip t) then err e else ok (strip t)

abbrev needs_reason : Event → Bool
needs_reason Event.cancel = true
needs_reason Event.correct = true
needs_reason _ = false

abbrev is_pay : Event → Bool
is_pay Event.pay = true
is_pay _ = false

-- `_required_text` where only the check counts.
unfoldable pub check_text : Bool → Option Text → Error → Result Error (Unit {0})
unfolding required_text
check_text false t e = ok tt
check_text true t e = required_text t e >>= λ _. ok tt

abbrev pub or_not_allowed : Option State → Result Error State
or_not_allowed none = err transition_not_allowed
or_not_allowed (some s) = ok s

-- `next_state`
unfoldable pub next_state :
    State → Event → Option Text → Option Text → Option ℕ → Result Error State
unfolding check_text
next_state current event reason reference effective_date = do
  new_state ← or_not_allowed (transitions current event)
  check_text (needs_reason event) reason reason_required
  check_text (is_pay event) reference reference_required
  raise_if (is_pay event && not (is_some effective_date)) payment_date_required
  ok new_state

-- The texts of `STATES`.
abbrev pub state_text : State → Text
state_text State.issued = codes "issued"
state_text State.delivered = codes "delivered"
state_text State.paid = codes "paid"
state_text State.cancelled = codes "cancelled"
state_text State.corrected = codes "corrected"

-- The state that `describe_invoice` puts on a row: a missing or empty one is read as issued.
unfoldable pub describe_state : Text → Result Error State
describe_state t =
    if is_empty t
    then ok State.issued
    else if text_eq t (state_text State.issued)
    then ok State.issued
    else if text_eq t (state_text State.delivered)
    then ok State.delivered
    else if text_eq t (state_text State.paid)
    then ok State.paid
    else if text_eq t (state_text State.cancelled)
    then ok State.cancelled
    else if text_eq t (state_text State.corrected)
    then ok State.corrected
    else err invalid_state
