-- ===== src/Invoices/State.antt =====
-- The tables that the invoice operations of store/billing.py read and write, and the helpers
-- `_locked_invoice`, `_current_invoice_state` and `_append_invoice_event`. Identifiers and dates
-- are numbers. Rows that a table keeps in the order of a serial id stand newest first.
use openleg.Prelude.{
  ℕ, ◌+◌, ◌==◌, Bool, true, false, ◌&&◌, ◌||◌, not, Option, none, some, List, [], ◌∷◌, find,
  if◌then◌else◌, Result, ok, ◌>>=◌, or_raise,
}
use openleg.Prelude.Int.{ℤ}
use openleg.Prelude.Text.{Text, text_eq, is_empty}
use openleg.Lifecycle.{State, Error}
use openleg.Outbox.{Outbox, Kind, enqueue_event}

pub data DeliveryMethod : Type 0 where
  email download : DeliveryMethod

-- A row of `invoices`. The two snapshot fields are those that the operations read: the delivery
-- method of the policy (none: missing or another value) and the registration of the participant
-- (none: missing or no text).
pub record Invoice : Type 0 where
  pub id : ℕ
  pub community_id : ℕ
  pub participant_id : ℕ
  pub invoice_number : Text
  pub gross_chf : ℤ
  pub is_issued : Bool
  pub delivery_method : Option DeliveryMethod
  pub participant_registration_id : Option Text

-- A row of `buildings`; an empty text is NULL or empty.
pub record Building : Type 0 where
  pub building_id : ℕ
  pub referral_code : Text
  pub email : Text
  pub preferred_locale : ℕ

pub data EventType : Type 0 where
  delivered delivery_failed delivery_confirmed paid cancelled corrected correction_issued :
      EventType

-- The texts of `idempotency_key`. A bank key names the import and the entry.
pub data Key : Type 0 where
  delivered paid cancelled : Key
  delivery_failed : ℕ → Key
  bank : ℕ → Text → Key
  operator : ℕ → Key
  corrected : ℕ → Key
  corrects : ℕ → Key

abbrev pub key_eq : Key → Key → Bool
key_eq Key.delivered Key.delivered = true
key_eq Key.paid Key.paid = true
key_eq Key.cancelled Key.cancelled = true
key_eq (Key.delivery_failed a) (Key.delivery_failed b) = a == b
key_eq (Key.bank a r) (Key.bank b s) = (a == b) && text_eq r s
key_eq (Key.operator a) (Key.operator b) = a == b
key_eq (Key.corrected a) (Key.corrected b) = a == b
key_eq (Key.corrects a) (Key.corrects b) = a == b
key_eq _ _ = false

-- A row of `invoice_lifecycle_events`.
pub record InvoiceEvent : Type 0 where
  pub id : ℕ
  pub invoice_id : ℕ
  pub community_id : ℕ
  pub actor_id : ℕ
  pub event_type : EventType
  pub previous_state : State
  pub new_state : State
  pub idempotency_key : Key
  pub reason : Option Text
  pub reference : Option Text
  pub effective_date : Option ℕ

pub data JobStatus : Type 0 where
  pending sent failed : JobStatus

-- A row of `invoice_delivery_jobs`, one for an invoice.
pub record DeliveryJob : Type 0 where
  pub invoice_id : ℕ
  pub community_id : ℕ
  pub delivery_method : DeliveryMethod
  pub status : JobStatus
  pub attempt_count : ℕ
  pub last_error : Text

pub record Correction : Type 0 where
  pub original_invoice_id : ℕ
  pub corrected_invoice_id : ℕ
  pub community_id : ℕ
  pub actor_id : ℕ
  pub reason : Text

pub data QueryStatus : Type 0 where
  opened acknowledged resolved : QueryStatus

-- A row of `invoice_queries`, and the event that links a case to a correction.
pub record InvoiceQuery : Type 0 where
  pub id : ℕ
  pub invoice_id : ℕ
  pub status : QueryStatus

pub record QueryEvent : Type 0 where
  pub query_id : ℕ
  pub actor_id : ℕ
  pub status : QueryStatus
  pub reference : Text

pub data Decision : Type 0 where
  matched unmatched ambiguous split_payment overpayment reversal mismatch : Decision

-- A `PaymentEntry`, as `asdict` hands it over.
pub record PaymentEntry : Type 0 where
  pub entry_reference : Text
  pub booking_date : ℕ
  pub amount : ℤ
  pub currency : Text
  pub payment_reference : Text
  pub is_reversal : Bool
  pub credit_debit_indicator : Text

pub record StatementImport : Type 0 where
  pub id : ℕ
  pub community_id : ℕ
  pub fingerprint : Text

-- A row of `bank_statement_entries`.
pub record StatementEntry : Type 0 where
  pub id : ℕ
  pub statement_import_id : ℕ
  pub community_id : ℕ
  pub invoice_id : Option ℕ
  pub entry : PaymentEntry
  pub match_decision : Decision

-- What `confirm_payment` answers, and its row of `operator_action_idempotency`, whose action names
-- the entry and whose request hash stands for the invoice that was asked for.
pub record Confirmation : Type 0 where
  pub id : ℕ
  pub transition_id : ℕ
  pub replayed : Bool

pub record Remembered : Type 0 where
  pub community_id : ℕ
  pub entry_id : ℕ
  pub key : ℕ
  pub request_invoice_id : ℕ
  pub response : Confirmation

pub record Db : Type 0 where
  pub invoices : List Invoice
  pub buildings : List Building
  pub events : List InvoiceEvent
  pub jobs : List DeliveryJob
  pub corrections : List Correction
  pub queries : List InvoiceQuery
  pub query_events : List QueryEvent
  pub imports : List StatementImport
  pub entries : List StatementEntry
  pub remembered : List Remembered
  pub outbox : Outbox
  -- the sequence that every table with a serial id draws from
  pub next_id : ℕ

-- The join of `_locked_invoice`: the building of the participant whose registration code is not
-- empty and equals the one of the invoice.
unfoldable pub is_recipient : Invoice → Building → Bool
is_recipient i b =
    b.building_id == i.participant_id
    && not (is_empty b.referral_code)
    && elim i.participant_registration_id [ none ↦ false | some r ↦ text_eq b.referral_code r ]

pub record LockedInvoice : Type 0 where
  pub invoice : Invoice
  pub recipient : Option Building

-- `_locked_invoice`
unfoldable pub locked_invoice : Db → ℕ → ℕ → Result Error LockedInvoice
unfolding is_recipient
locked_invoice db invoice_id community_id = do
  row ←
      or_raise
        (find (λ i. i.id == invoice_id && i.community_id == community_id && i.is_issued)
          db.invoices)
        Error.invoice_not_found
  ok (record { invoice = row; recipient = find (is_recipient row) db.buildings })

-- `_current_invoice_state`
abbrev pub current_state : List InvoiceEvent → ℕ → State
current_state [] invoice_id = State.issued
current_state (e ∷ es) invoice_id =
    if e.invoice_id == invoice_id then e.new_state else current_state es invoice_id

-- The unique index on (invoice_id, idempotency_key).
abbrev pub has_key : List InvoiceEvent → ℕ → Key → Bool
has_key [] invoice_id key = false
has_key (e ∷ es) invoice_id key =
    (e.invoice_id == invoice_id && key_eq e.idempotency_key key) || has_key es invoice_id key

abbrev event_rank : EventType → ℕ
event_rank EventType.delivered = 0
event_rank EventType.delivery_failed = 1
event_rank EventType.delivery_confirmed = 2
event_rank EventType.paid = 3
event_rank EventType.cancelled = 4
event_rank EventType.corrected = 5
event_rank EventType.correction_issued = 6

-- `_append_invoice_event`: a repeated key writes neither the event nor the operator event. The row
-- comes with the id that the sequence gives.
unfoldable pub append_invoice_event : InvoiceEvent → Db → Db
append_invoice_event e db =
    if has_key db.events e.invoice_id e.idempotency_key
    then record db { next_id = db.next_id + 1 }
    else record db {
      events = record e { id = db.next_id } ∷ db.events;
      next_id = db.next_id + 1;
      outbox =
          enqueue_event (Kind.invoice (event_rank e.event_type)) (e.invoice_id ∷ []) e.community_id
            (e.invoice_id ∷ []) db.outbox;
    }
