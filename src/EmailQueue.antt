-- ===== src/EmailQueue.antt =====
-- store/email_queue.py and the loop of email_automation.py: the queue of scheduled emails. Buildings
-- and templates are numbers, which the program only compares; a moment is a number of seconds.
pub mod Rows
pub mod Kept
pub mod Reach
pub mod Loop
pub mod Run
mod Tests
use openleg.Prelude.{
  ℕ, zero, suc, ◌+◌, ◌*◌, ◌==◌, Bool, true, false, ◌&&◌, ◌||◌, not, Option, none, some, List, [],
  ◌∷◌, any, find, select, count, update, if◌then◌else◌, ltb, leb, length,
}
use openleg.Prelude.Text.{Text}

pub data Status : Type 0 where
  pending sent failed cancelled : Status

abbrev pub status_eq : Status → Status → Bool
status_eq Status.pending Status.pending = true
status_eq Status.sent Status.sent = true
status_eq Status.failed Status.failed = true
status_eq Status.cancelled Status.cancelled = true
status_eq _ _ = false

-- A row of `scheduled_emails`.
pub record Email : Type 0 where
  pub id : ℕ
  pub building_id : ℕ
  pub email : Text
  pub template_key : ℕ
  pub send_at : ℕ
  pub sent_at : Option ℕ
  pub status : Status
  pub retry_count : ℕ
  pub error_message : Option Text
  pub created_at : ℕ

pub record Db : Type 0 where
  pub emails : List Email
  pub buildings : List ℕ
  pub next_id : ℕ

-- `MAX_EMAIL_ATTEMPTS` and `EMAIL_QUEUE_RETENTION_DAYS`
abbrev pub max_email_attempts : ℕ
max_email_attempts = 3

abbrev pub email_queue_retention_days : ℕ
email_queue_retention_days = 90

-- WHERE building_id = ... AND template_key = ... AND status IN ('pending', 'sent')
abbrev pub is_active : ℕ → ℕ → Email → Bool
is_active building_id template_key e =
    e.building_id == building_id
    && e.template_key == template_key
    && (status_eq e.status Status.pending || status_eq e.status Status.sent)

-- The INSERT of `schedule_email`; no key but the drawn id restricts it.
unfoldable pub insert_email : ℕ → Text → ℕ → ℕ → ℕ → Db → Db
insert_email building_id email template_key send_at now db = record db {
  emails =
      record {
        id = db.next_id;
        building_id = building_id;
        email = email;
        template_key = template_key;
        send_at = send_at;
        sent_at = none;
        status = Status.pending;
        retry_count = 0;
        error_message = none;
        created_at = now;
      }
      ∷ db.emails;
  next_id = db.next_id + 1;
}

-- `schedule_email`, where nothing runs between its SELECT, which locks no row, and its INSERT
unfoldable pub schedule_email : ℕ → Text → ℕ → ℕ → ℕ → Db → Bool × Db
unfolding insert_email
schedule_email building_id email template_key send_at now db =
    if any (is_active building_id template_key) db.emails
    then (false, db)
    else (true, insert_email building_id email template_key send_at now db)

abbrev pub is_due : List ℕ → ℕ → Email → Bool
is_due buildings now e =
    any (λ b. e.building_id == b) buildings
    && status_eq e.status Status.pending
    && leb e.send_at now

-- ORDER BY send_at ASC
abbrev pub insert_due : Email → List Email → List Email
insert_due e [] = e ∷ []
insert_due e (x ∷ xs) =
    let rest = insert_due e xs in if leb e.send_at x.send_at then e ∷ x ∷ xs else x ∷ rest

abbrev pub sort_due : List Email → List Email
sort_due [] = []
sort_due (e ∷ es) = insert_due e (sort_due es)

abbrev pub first : ℕ → List Email → List Email
first zero es = []
first (suc n) [] = []
first (suc n) (e ∷ es) = e ∷ first n es

-- `get_pending_emails`: the rows of the queue that the join selects
unfoldable pub get_pending_emails : ℕ → ℕ → Db → List Email
get_pending_emails limit now db =
    first limit (sort_due (select (is_due db.buildings now) db.emails))

abbrev pub has_id : ℕ → Email → Bool
has_id email_id e = e.id == email_id

abbrev pub send_email : ℕ → Email → Email
send_email now e = record e { status = Status.sent; sent_at = some now; email = [] }

-- `mark_email_sent`
unfoldable pub mark_email_sent : ℕ → ℕ → Db → Bool × Db
mark_email_sent email_id now db = (
  any (has_id email_id) db.emails,
  record db { emails = update (has_id email_id) (send_email now) db.emails },
)

-- The two updates of `mark_email_failed` on the row.
abbrev pub fail_email : Text → Email → Email
fail_email error e = record e {
  retry_count = e.retry_count + 1;
  error_message = some error;
  status = if leb max_email_attempts (e.retry_count + 1) then Status.failed else Status.pending;
}

-- `mark_email_failed`
unfoldable pub mark_email_failed : ℕ → Text → Db → Bool × Db
mark_email_failed email_id error db = (
  any (has_id email_id) db.emails,
  record db { emails = update (has_id email_id) (fail_email error) db.emails },
)

abbrev pub is_pending_of : ℕ → Email → Bool
is_pending_of building_id e = e.building_id == building_id && status_eq e.status Status.pending

abbrev pub cancel_email : Email → Email
cancel_email e = record e { status = Status.cancelled; email = [] }

-- `cancel_emails_for_building`
unfoldable pub cancel_emails_for_building : ℕ → Db → ℕ × Db
cancel_emails_for_building building_id db = (
  count (is_pending_of building_id) db.emails,
  record db { emails = update (is_pending_of building_id) cancel_email db.emails },
)

abbrev finished_at : Email → ℕ
finished_at e = elim e.sent_at [ none ↦ e.created_at | some t ↦ t ]

abbrev pub is_finished : ℕ → ℕ → Email → Bool
is_finished retention_days now e =
    not (status_eq e.status Status.pending) && ltb (finished_at e + 86400 * retention_days) now

-- `cleanup_finished_emails`
unfoldable pub cleanup_finished_emails : ℕ → ℕ → Db → ℕ × Db
cleanup_finished_emails retention_days now db = (
  count (is_finished retention_days now) db.emails,
  record db { emails = select (λ e. not (is_finished retention_days now e)) db.emails },
)

-- `get_email_stats`: the count of a status, if it has a row
unfoldable pub get_email_stats : Db → Status → Option ℕ
get_email_stats db s =
    let n = count (λ e. status_eq e.status s) db.emails in if n == 0 then none else some n

-- One round of `process_email_queue`. `deliver` stands for the template, the dashboard link and the
-- mail server: it gives the error of an email that could not be sent.
abbrev pub process_email : (Email → Option Text) → ℕ → Email → ℕ × ℕ × Db → ℕ × ℕ × Db
process_email deliver now e (done, refused, db) = elim (deliver e) [
  | none ↦ (done + 1, refused, (mark_email_sent e.id now db).1)
  | some error ↦ (done, refused + 1, (mark_email_failed e.id error db).1)
]

unfoldable pub process_emails : (Email → Option Text) → ℕ → List Email → ℕ × ℕ × Db → ℕ × ℕ × Db
process_emails deliver now [] state = state
process_emails deliver now (e ∷ es) state =
    process_emails deliver now es (process_email deliver now e state)

-- `process_email_queue`: how many were sent, how many failed, how many there were, and the queue
unfoldable pub process_email_queue : (Email → Option Text) → ℕ → Db → ℕ × ℕ × ℕ × Db
process_email_queue deliver now db =
    let cleaned = (cleanup_finished_emails email_queue_retention_days now db).1 in
    let due = get_pending_emails 50 now cleaned in
    let (done, refused, db') = process_emails deliver now due (0, 0, cleaned) in
    (done, refused, length due, db')
