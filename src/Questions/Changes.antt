-- ===== src/Questions/Changes.antt =====
-- store/invoice_query.py: what happens to an open question. A scope is the participant or the
-- community.
use openleg.Prelude.{
  ℕ, ◌==◌, Bool, true, false, ◌&&◌, not, Option, none, some, List, [], ◌∷◌, any, find, select,
  update, leb, if◌then◌else◌, Result, ok, err, ◌>>=◌, is_some,
}
use openleg.Prelude.Text.{Text, is_empty, text_eq}
use openleg.Outbox.{Kind, enqueue_event}
use openleg.Invoices.State.{QueryStatus, is_recipient}
use openleg.Questions.{
  QuestionError, Question, Answered, Db, Target, status_eq, require_transition, validate_message,
  append, add_event, is_own,
}

pub data Scope : Type 0 where
  of_participant : ℕ → Scope
  of_community : ℕ → Scope

abbrev in_scope : Db → Scope → Question → Bool
in_scope db (Scope.of_participant p) q =
    q.participant_id == p && any (is_own db.buildings q.invoice_id q.participant_id) db.invoices
in_scope db (Scope.of_community c) q = q.community_id == c

-- `add_invoice_query_message`
unfoldable pub add_invoice_query_message :
    ℕ → ℕ → Text → Scope → Option (ℕ × ℕ) → Db → Result QuestionError (Bool × Db)
unfolding is_recipient
add_invoice_query_message query_id actor_id message scope attachment db = do
  text ← validate_message message
  ok (
      if any (λ q. q.id == query_id && in_scope db scope q) db.questions
      then (true, append query_id actor_id text attachment db)
      else (false, db))

abbrev pub is_pending : QueryStatus → Bool
is_pending QueryStatus.resolved = false
is_pending _ = true

-- `due_invoice_query_reminders`
unfoldable due_invoice_query_reminders : ℕ → Db → List Question
due_invoice_query_reminders now db =
    select (λ q. is_pending q.status && leb q.reminder_due_at now && not q.reminder_sent)
      db.questions

abbrev pub unreminded : ℕ → Question → Bool
unreminded case_id q = q.id == case_id && not q.reminder_sent

abbrev pub reminded : Question → Question
reminded q = record q { reminder_sent = true }

-- The event of `mark_invoice_query_reminded`, if its UPDATE finds the question.
unfoldable pub remind_found : ℕ → ℕ → Option Question → Db → Bool × Db
remind_found case_id actor none db = (false, db)
remind_found case_id actor (some q) db = (
  true,
  add_event case_id actor (some q.status) q.status none
      (record db { questions = update (unreminded case_id) reminded db.questions }),
)

-- `mark_invoice_query_reminded`
unfoldable pub mark_invoice_query_reminded : ℕ → ℕ → Db → Bool × Db
unfolding remind_found
mark_invoice_query_reminded case_id actor db =
    remind_found case_id actor (find (unreminded case_id) db.questions) db

abbrev pub with_status : QueryStatus → Question → Question
with_status status q = record q { status = status }

abbrev status_rank : QueryStatus → ℕ
status_rank QueryStatus.opened = 0
status_rank QueryStatus.acknowledged = 1
status_rank QueryStatus.resolved = 2

-- The reply of `_change`.
unfoldable pub with_reply : ℕ → ℕ → Option Text → Db → Result QuestionError Db
with_reply query_id actor_id none db = ok db
with_reply query_id actor_id (some message) db = do
  text ← validate_message message
  ok (append query_id actor_id text none db)

-- The change of status of `_change`, with its event; the operator event is named by the event's id.
unfoldable pub set_status : ℕ → ℕ → ℕ → QueryStatus → QueryStatus → Db → Db
unfolding add_event
set_status query_id community_id actor_id previous status db =
    let changed = add_event query_id actor_id (some previous) status none (record db {
      questions = update (λ q. q.id == query_id) (with_status status) db.questions;
    }) in
    record changed {
      outbox =
          enqueue_event Kind.case_updated (db.next_id ∷ []) community_id (query_id ∷ [])
            changed.outbox;
    }

abbrev pub is_question : ℕ → ℕ → Question → Bool
is_question query_id community_id q = q.id == query_id && q.community_id == community_id

-- `_change`, for the question that is found
unfoldable pub change_found :
    ℕ
    → ℕ
    → ℕ
    → Option Text
    → Option Target
    → Question
    → Db
    → Result QuestionError (QueryStatus × Db)
change_found query_id community_id actor_id message none q db = do
  db' ← with_reply query_id actor_id message db
  ok (q.status, db')
change_found query_id community_id actor_id message (some target) q db = do
  status ← require_transition q.status target
  db' ← with_reply query_id actor_id message db
  ok (status, set_status query_id community_id actor_id q.status status db')

-- `_change`
unfoldable pub change :
    ℕ → ℕ → ℕ → Option Text → Option Target → Db → Result QuestionError (Option QueryStatus × Db)
unfolding change_found with_reply set_status
change query_id community_id actor_id message target db =
    elim (find (is_question query_id community_id) db.questions) [
      | none ↦ ok (none, db)
      | some q ↦
          change_found query_id community_id actor_id message target q db
          >>= (λ (status, db'). ok (some status, db'))
    ]

-- `validate_message(message) if message else ""`, where the empty text is none
unfoldable pub reply_of : Text → Result QuestionError (Option Text)
reply_of message =
    if is_empty message then ok none else validate_message message >>= (λ text. ok (some text))

-- `update_invoice_query`; a target that is none is the empty text.
unfoldable pub update_invoice_query :
    ℕ → ℕ → ℕ → Text → Option Target → Db → Result QuestionError (Bool × Db)
unfolding change reply_of
update_invoice_query query_id community_id actor_id message target db = do
  reply ← reply_of message
  (answer, db') ← change query_id community_id actor_id reply target db
  ok (is_some answer, db')

abbrev target_eq : Target → Target → Bool
target_eq none none = true
target_eq (some a) (some b) = status_eq a b
target_eq _ _ = false

-- `_remember`, unless there is no such question
unfoldable pub remember_answer :
    ℕ → ℕ → Text → Target → ℕ → Option QueryStatus × Db → Option (QueryStatus × Bool) × Db
remember_answer case_id community_id message target key (none, db) = (none, db)
remember_answer case_id community_id message target key (some status, db) = (
  some (status, false),
  record db {
    answered =
        record {
          community_id = community_id;
          query_id = case_id;
          key = key;
          message = message;
          target = target;
          response = status;
        }
        ∷ db.answered;
  },
)

abbrev pub is_answered : ℕ → ℕ → ℕ → Answered → Bool
is_answered case_id community_id key a =
    a.community_id == community_id && a.query_id == case_id && a.key == key

-- The part of `respond_operator_invoice_case` behind `_replay`. A missing message or status is an
-- empty text.
unfoldable pub respond :
    ℕ
    → ℕ
    → ℕ
    → Text
    → Target
    → ℕ
    → Option Answered
    → Db
    → Result QuestionError (Option (QueryStatus × Bool) × Db)
unfolding change remember_answer
respond case_id community_id actor_id message target key (some a) db =
    if text_eq a.message message && target_eq a.target target
    then ok (some (a.response, true), db)
    else err QuestionError.other_request
respond case_id community_id actor_id message target key none db = do
  changed ← change case_id community_id actor_id (some message) (some target) db
  ok (remember_answer case_id community_id message target key changed)

-- `respond_operator_invoice_case`: the status, and whether the answer is replayed
unfoldable pub respond_operator_invoice_case :
    ℕ → ℕ → ℕ → Text → Target → ℕ → Db → Result QuestionError (Option (QueryStatus × Bool) × Db)
unfolding respond
respond_operator_invoice_case case_id community_id actor_id message target key db =
    respond case_id community_id actor_id message target key
      (find (is_answered case_id community_id key) db.answered) db

-- The loop of `record_invoice_query_linkage`.
unfoldable pub link_questions : ℕ → Text → List Question → Db → Db
link_questions actor_id reference [] db = db
link_questions actor_id reference (q ∷ qs) db =
    link_questions actor_id reference qs
      (add_event q.id actor_id (some q.status) q.status (some reference) db)

-- `record_invoice_query_linkage`
unfoldable pub record_invoice_query_linkage : ℕ → ℕ → Text → Db → Db
unfolding link_questions
record_invoice_query_linkage invoice_id actor_id reference db =
    link_questions actor_id reference
      (select (λ q. q.invoice_id == invoice_id && is_pending q.status) db.questions) db
