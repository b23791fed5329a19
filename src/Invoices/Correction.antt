-- ===== src/Invoices/Correction.antt =====
-- store/billing.py: the correction of a cancelled invoice by a replacement, with the linkage of
-- store/invoice_query.py.
pub mod Replacement
use openleg.Prelude.{
  ℕ, ◌==◌, Bool, true, false, ◌&&◌, ◌||◌, not, Option, none, some, List, [], ◌∷◌, find,
  if◌then◌else◌, Result, ok, err, ◌>>=◌, ◌>>◌, raise_if, or_raise, option_eq,
}
use openleg.Prelude.Text.{Text, text_eq, strip}
use openleg.Lifecycle.{State, Event, Error, next_state}
use openleg.Invoices.State.{
  Invoice, EventType, Key, key_eq, InvoiceEvent, Correction, InvoiceQuery, QueryStatus, QueryEvent,
  Db, locked_invoice, current_state, append_invoice_event,
}
use openleg.Invoices.Transitions.{state_eq}

abbrev is_open : QueryStatus → Bool
is_open QueryStatus.opened = true
is_open QueryStatus.acknowledged = true
is_open QueryStatus.resolved = false

-- store/invoice_query.py: one event for every open query on the invoice.
link_queries : ℕ → ℕ → Text → List InvoiceQuery → List QueryEvent → List QueryEvent
link_queries invoice_id actor_id reference [] written = written
link_queries invoice_id actor_id reference (q ∷ qs) written =
    let entry : QueryEvent = record {
      query_id = q.id;
      actor_id = actor_id;
      status = q.status;
      reference = reference;
    } in
    link_queries invoice_id actor_id reference qs
      (if q.invoice_id == invoice_id && is_open q.status then entry ∷ written else written)

unfoldable pub record_invoice_query_linkage : ℕ → ℕ → Text → Db → Db
unfolding link_queries
record_invoice_query_linkage invoice_id actor_id reference db = record db {
  query_events = link_queries invoice_id actor_id reference db.queries db.query_events;
}

-- The two rows that `correct_invoice` locks.
unfoldable pub issued_invoice : Db → ℕ → ℕ → Result Error Invoice
issued_invoice db invoice_id community_id =
    or_raise
      (find (λ i. i.id == invoice_id && i.community_id == community_id && i.is_issued) db.invoices)
      Error.replacement_not_found

unfoldable pub correction_event :
    EventType → ℕ → ℕ → ℕ → State → State → Key → Text → Text → InvoiceEvent
correction_event type invoice_id community_id actor_id before after key reason reference = record {
  id = 0;
  invoice_id = invoice_id;
  community_id = community_id;
  actor_id = actor_id;
  event_type = type;
  previous_state = before;
  new_state = after;
  idempotency_key = key;
  reason = some reason;
  reference = some reference;
  effective_date = none;
}

-- The correction itself: the link, an event on each of the two invoices, and the open queries.
unfoldable pub apply_correction : Invoice → Invoice → ℕ → ℕ → Text → State → State → Db → Db
unfolding correction_event
apply_correction original corrected community_id actor_id reason before after db =
    let link : Correction = record {
      original_invoice_id = original.id;
      corrected_invoice_id = corrected.id;
      community_id = community_id;
      actor_id = actor_id;
      reason = reason;
    } in
    record_invoice_query_linkage original.id actor_id corrected.invoice_number (
      append_invoice_event
        (correction_event EventType.correction_issued corrected.id community_id actor_id
          State.issued State.issued (Key.corrects original.id) reason original.invoice_number)
        (append_invoice_event
          (correction_event EventType.corrected original.id community_id actor_id before after
            (Key.corrected corrected.id) reason corrected.invoice_number)
          (record db { corrections = link ∷ db.corrections })))

existing_correction : Correction → ℕ → ℕ → Text → Db → Result Error (State × Bool × Db)
existing_correction c original_id corrected_id reason db =
    if c.original_invoice_id == original_id
      && c.corrected_invoice_id == corrected_id
      && text_eq c.reason (strip reason)
    then ok (State.corrected, true, db)
    else err Error.already_linked

-- The link that one of the two invoices has already.
abbrev linked : ℕ → ℕ → Correction → Bool
linked original_id corrected_id c =
    c.original_invoice_id == original_id || c.corrected_invoice_id == corrected_id

-- A correction of two invoices that are linked to none.
correct_unlinked : Invoice → Invoice → ℕ → ℕ → ℕ → ℕ → Text → Db → Result Error (State × Bool × Db)
correct_unlinked original corrected original_id corrected_id community_id actor_id reason db = do
  let state = current_state db.events original_id
  new_state ← next_state state Event.correct (some reason) none none
  raise_if (not (state_eq (current_state db.events corrected_id) State.issued))
      Error.replacement_unavailable
  ok (
    new_state,
    false,
    apply_correction original corrected community_id actor_id (strip reason) state new_state db,
  )

-- The part of `correct_invoice` behind the two locks.
correct_rows :
    Option Correction
    → Invoice
    → Invoice
    → ℕ
    → ℕ
    → ℕ
    → ℕ
    → Text
    → Db
    → Result Error (State × Bool × Db)
unfolding existing_correction correct_unlinked
correct_rows (some c) original corrected original_id corrected_id community_id actor_id reason db =
    existing_correction c original_id corrected_id reason db
correct_rows none original corrected original_id corrected_id community_id actor_id reason db =
    correct_unlinked original corrected original_id corrected_id community_id actor_id reason db

-- `correct_invoice`. The reason is a text; the answer is as for `transition_invoice`.
unfoldable pub correct_invoice : ℕ → ℕ → ℕ → ℕ → Text → Db → Result Error (State × Bool × Db)
unfolding correct_rows
correct_invoice original_id corrected_id community_id actor_id reason db = do
  original ← issued_invoice db original_id community_id
  corrected ← issued_invoice db corrected_id community_id
  raise_if (not (original.participant_id == corrected.participant_id)) Error.other_participant
  correct_rows (find (linked original_id corrected_id) db.corrections) original corrected
      original_id corrected_id community_id actor_id reason db
