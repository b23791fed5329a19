-- ===== src/Questions.antt =====
-- invoice_queries.py and store/invoice_query.py: the questions of members on their invoices. Actors,
-- files and dates are numbers; a date is a day. Tables stand newest first.
pub mod Changes
mod History
mod Reach
mod Tests
use openleg.Prelude.{
  ℕ, ◌+◌, ◌-◌, ◌==◌, Bool, true, false, ◌&&◌, ◌||◌, not, Option, none, some, List, [], ◌∷◌, any,
  find, select, update, ltb, leb, length, if◌then◌else◌, Result, ok, err, ◌>>=◌, ◌>>◌, raise_if,
  or_raise, is_some,
}
use openleg.Prelude.Text.{Text, is_empty, strip, text_eq}
use openleg.Outbox.{Outbox, Kind, enqueue_event}
use openleg.Invoices.State.{Invoice, Building, QueryStatus, is_recipient}

pub data Category : Type 0 where
  amount metering payment other : Category

-- `ValueError`, by its message
pub data QuestionError : Type 0 where
  invalid_deadlines invalid_category invalid_message invalid_transition other_request :
      QuestionError

abbrev pub status_eq : QueryStatus → QueryStatus → Bool
status_eq QueryStatus.opened QueryStatus.opened = true
status_eq QueryStatus.acknowledged QueryStatus.acknowledged = true
status_eq QueryStatus.resolved QueryStatus.resolved = true
status_eq _ _ = false

-- `TRANSITIONS`
abbrev pub may_change : QueryStatus → QueryStatus → Bool
may_change QueryStatus.opened QueryStatus.acknowledged = true
may_change QueryStatus.opened QueryStatus.resolved = true
may_change QueryStatus.acknowledged QueryStatus.resolved = true
may_change _ _ = false

-- A target status that a caller names; none is a text outside `STATUSES`.
abbrev pub Target : Type 0
Target = Option QueryStatus

-- `require_transition`
abbrev pub require_transition : QueryStatus → Target → Result QuestionError QueryStatus
require_transition current none = err QuestionError.invalid_transition
require_transition current (some target) =
    raise_if (not (may_change current target)) QuestionError.invalid_transition >> ok target

-- `validate_message`
unfoldable pub validate_message : Text → Result QuestionError Text
validate_message message = do
  let stripped = strip message
  raise_if (is_empty stripped || ltb 4000 (length stripped)) QuestionError.invalid_message
  ok stripped

-- `validate_open`; none is a category outside `CATEGORIES`.
unfoldable pub validate_open : Option Category → Text → Result QuestionError (Category × Text)
unfolding validate_message
validate_open category message = do
  valid ← or_raise category QuestionError.invalid_category
  text ← validate_message message
  ok (valid, text)

-- `deadlines`, with the two settings
unfoldable pub deadlines : ℕ → ℕ → ℕ → Result QuestionError (ℕ × ℕ)
deadlines response_days reminder_days opened_at = do
  raise_if (ltb response_days 1 || ltb reminder_days 1 || leb response_days reminder_days)
      QuestionError.invalid_deadlines
  ok (opened_at + response_days, opened_at + (response_days - reminder_days))

-- A row of `invoice_queries`.
pub record Question : Type 0 where
  pub id : ℕ
  pub invoice_id : ℕ
  pub community_id : ℕ
  pub participant_id : ℕ
  pub category : Category
  pub status : QueryStatus
  pub response_due_at : ℕ
  pub reminder_due_at : ℕ
  pub reminder_sent : Bool

-- A row of `invoice_query_messages`; the attachment is its name and its data.
pub record Message : Type 0 where
  pub query_id : ℕ
  pub actor_id : ℕ
  pub message : Text
  pub attachment : Option (ℕ × ℕ)

-- A row of `invoice_query_events`.
pub record StatusEvent : Type 0 where
  pub id : ℕ
  pub query_id : ℕ
  pub actor_id : ℕ
  pub previous_status : Option QueryStatus
  pub new_status : QueryStatus
  pub linked_reference : Option Text

-- A row of `operator_action_idempotency` for `case.respond`, with its request.
pub record Answered : Type 0 where
  pub community_id : ℕ
  pub query_id : ℕ
  pub key : ℕ
  pub message : Text
  pub target : Target
  pub response : QueryStatus

pub record Db : Type 0 where
  pub invoices : List Invoice
  pub buildings : List Building
  pub questions : List Question
  pub messages : List Message
  pub events : List StatusEvent
  pub answered : List Answered
  pub outbox : Outbox
  -- the sequence that the serial ids come from
  pub next_id : ℕ

-- `_append`
abbrev pub append : ℕ → ℕ → Text → Option (ℕ × ℕ) → Db → Db
append query_id actor_id message attachment db = record db {
  messages =
      record {
        query_id = query_id;
        actor_id = actor_id;
        message = message;
        attachment = attachment;
      }
      ∷ db.messages;
}

abbrev pub status_event : ℕ → ℕ → ℕ → Option QueryStatus → QueryStatus → Option Text → StatusEvent
status_event id query_id actor_id previous_status new_status linked_reference = record {
  id = id;
  query_id = query_id;
  actor_id = actor_id;
  previous_status = previous_status;
  new_status = new_status;
  linked_reference = linked_reference;
}

-- `_event`
unfoldable pub add_event : ℕ → ℕ → Option QueryStatus → QueryStatus → Option Text → Db → Db
add_event query_id actor_id previous_status new_status linked_reference db =
    let e = status_event db.next_id query_id actor_id previous_status new_status linked_reference in
    record db { events = e ∷ db.events; next_id = db.next_id + 1 }

-- The invoice of the participant, issued, with the household that it was billed to.
abbrev pub is_own : List Building → ℕ → ℕ → Invoice → Bool
is_own buildings invoice_id participant_id i =
    i.id == invoice_id
    && i.participant_id == participant_id
    && i.is_issued
    && any (is_recipient i) buildings

-- The INSERT of `open_invoice_query`, and the rows that go with it.
unfoldable pub open_case : Invoice → Category → Text → Option (ℕ × ℕ) → ℕ → ℕ → Db → ℕ × Db
unfolding add_event
open_case i category message attachment response_due_at reminder_due_at db =
    let row : Question = record {
      id = db.next_id;
      invoice_id = i.id;
      community_id = i.community_id;
      participant_id = i.participant_id;
      category = category;
      status = QueryStatus.opened;
      response_due_at = response_due_at;
      reminder_due_at = reminder_due_at;
      reminder_sent = false;
    } in
    let stored = record db { questions = row ∷ db.questions; next_id = db.next_id + 1 } in
    let noted = append db.next_id i.participant_id message attachment stored in
    (db.next_id, add_event db.next_id i.participant_id none QueryStatus.opened none noted)

-- `open_invoice_query`
unfoldable pub open_invoice_query :
    ℕ
    → ℕ
    → ℕ
    → ℕ
    → ℕ
    → Option Category
    → Text
    → Option (ℕ × ℕ)
    → Db
    → Result QuestionError (Option ℕ × Db)
unfolding open_case is_recipient
open_invoice_query response_days reminder_days now invoice_id participant_id category message
      attachment db =
    do
      (valid, text) ← validate_open category message
      (response_due_at, reminder_due_at) ← deadlines response_days reminder_days now
      ok (elim (find (is_own db.buildings invoice_id participant_id) db.invoices) [
        | none ↦ (none, db)
        | some i ↦
            let (query_id, db') =
              open_case i valid text attachment response_due_at reminder_due_at db in
            (some query_id, db')
      ])
