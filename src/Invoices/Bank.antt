-- ===== src/Invoices/Bank.antt =====
-- store/billing.py: bank statements. An import decides on every entry once and records the exact
-- unique payments; an entry that it left open can be confirmed by a reviewer.
pub mod History
pub mod Imports
use openleg.Prelude.{
  ℕ, ◌+◌, ◌==◌, Bool, true, false, ◌&&◌, not, Option, none, some, List, [], ◌∷◌, any, find, select,
  update, map, if◌then◌else◌, Result, ok, err, ◌>>=◌, ◌>>◌, raise_if, or_raise,
}
use openleg.Prelude.Text.{Text, text_eq}
use openleg.Lifecycle.{State, Event, Error, next_state}
use openleg.Invoices.State.{
  EventType, Key, InvoiceEvent, PaymentEntry, Decision, StatementImport, StatementEntry,
  Confirmation, Remembered, Db, locked_invoice, current_state, append_invoice_event,
}
use openleg.Invoices.Transitions.{event_with}
use openleg.Outbox.{Kind, enqueue_event}
use openleg.Payment.{Unicode, Candidate, MatchDecision, match_payment, payment_eligibility}

-- The event that `_finalize_bank_payment` appends.
abbrev pub paid_event : Candidate → PaymentEntry → ℕ → ℕ → Key → State → InvoiceEvent
paid_event c entry community_id actor_id key after = record {
  id = 0;
  invoice_id = c.invoice.id;
  community_id = community_id;
  actor_id = actor_id;
  event_type = EventType.paid;
  previous_state = c.lifecycle_state;
  new_state = after;
  idempotency_key = key;
  reason = none;
  reference = some entry.payment_reference;
  effective_date = some entry.booking_date;
}

-- `_finalize_bank_payment`: the new state of the invoice, and the database.
unfoldable pub finalize_bank_payment :
    Candidate → PaymentEntry → ℕ → ℕ → Key → Db → Result Error (State × Db)
finalize_bank_payment c entry community_id actor_id key db = do
  new_state ←
      next_state c.lifecycle_state Event.pay none (some entry.payment_reference)
        (some entry.booking_date)
  ok (new_state, append_invoice_event (paid_event c entry community_id actor_id key new_state) db)

-- The issued invoices of a community with their states.
unfoldable pub candidates : ℕ → Db → List Candidate
candidates community_id db =
    map (λ i. record { invoice = i; lifecycle_state = current_state db.events i.id })
      (select (λ i. i.community_id == community_id && i.is_issued) db.invoices)

-- The mutation of the row that was paid; ids are unique.
abbrev pub set_state : ℕ → State → List Candidate → List Candidate
set_state invoice_id s =
    update (λ c. c.invoice.id == invoice_id) (λ c. record c { lifecycle_state = s })

abbrev pub is_matched : Decision → Bool
is_matched Decision.matched = true
is_matched _ = false

-- The rows of one import.
abbrev pub entries_of : ℕ → List StatementEntry → List StatementEntry
entries_of import_id = select (λ e. e.statement_import_id == import_id)

-- INSERT INTO bank_statement_entries, under the unique index on (statement_import_id,
-- entry_reference).
unfoldable pub insert_entry : ℕ → ℕ → MatchDecision → PaymentEntry → Db → Result Error Db
insert_entry import_id community_id m entry db = do
  raise_if
      (any
        (λ (e : StatementEntry).
          e.statement_import_id == import_id
          && text_eq e.entry.entry_reference entry.entry_reference)
        db.entries)
      Error.store_error
  ok (record db {
    entries =
        record {
          id = db.next_id;
          statement_import_id = import_id;
          community_id = community_id;
          invoice_id = m.invoice_id;
          entry = entry;
          match_decision = m.decision;
        }
        ∷ db.entries;
    next_id = db.next_id + 1;
  })

-- The payment part of one round of the loop: the invoice that was matched is paid.
pay_matched :
    Bool
    → MatchDecision
    → PaymentEntry
    → ℕ
    → ℕ
    → ℕ
    → List Candidate
    → Db
    → Result Error (List Candidate × Db)
pay_matched false m entry import_id community_id actor_id invoices db = ok (invoices, db)
pay_matched true m entry import_id community_id actor_id invoices db = do
  invoice_id ← or_raise m.invoice_id Error.store_error
  c ← or_raise (find (λ (c : Candidate). c.invoice.id == invoice_id) invoices) Error.store_error
  (after, db') ←
      finalize_bank_payment c entry community_id actor_id (Key.bank import_id entry.entry_reference)
        db
  ok (set_state invoice_id after invoices, db')

module _ (u : Unicode) where
  -- One round of the loop over the entries.
  unfoldable pub reconcile_entry :
      ℕ → ℕ → ℕ → PaymentEntry → List Candidate → Db → Result Error (List Candidate × Db)
  unfolding pay_matched
  reconcile_entry import_id community_id actor_id entry invoices db = do
    let m = match_payment u entry invoices
    (invoices', db') ←
        pay_matched (is_matched m.decision) m entry import_id community_id actor_id invoices db
    db'' ← insert_entry import_id community_id m entry db'
    ok (invoices', db'')

  unfoldable pub reconcile_entries :
      ℕ → ℕ → ℕ → List PaymentEntry → List Candidate → Db → Result Error Db
  reconcile_entries import_id community_id actor_id [] invoices db = ok db
  reconcile_entries import_id community_id actor_id (e ∷ es) invoices db = do
    (invoices', db') ← reconcile_entry import_id community_id actor_id e invoices db
    reconcile_entries import_id community_id actor_id es invoices' db'

-- Every exception of `reconcile_bank_statement` becomes a `BillingStoreError`.
abbrev pub as_store_error : {A : Type 0} → Result Error A → Result Error A
as_store_error (ok a) = ok a
as_store_error (err e) = err Error.store_error

-- What an import answers: its id, whether it was imported before, and the rows.
pub record ImportResult : Type 0 where
  pub statement_import_id : ℕ
  pub duplicate : Bool
  pub entries : List StatementEntry

-- `_statement_import_result`
abbrev pub import_result : ℕ → Bool → Db → ImportResult
import_result import_id duplicate db = record {
  statement_import_id = import_id;
  duplicate = duplicate;
  entries = entries_of import_id db.entries;
}

-- The import with the fingerprint, if the community has it.
abbrev pub import_with : ℕ → Text → List StatementImport → Option StatementImport
import_with community_id fingerprint =
    find (λ i. i.community_id == community_id && text_eq i.fingerprint fingerprint)

-- The row of a new import.
unfoldable pub start_import : ℕ → Text → Db → Db
start_import community_id fingerprint db = record db {
  imports =
      record { id = db.next_id; community_id = community_id; fingerprint = fingerprint }
      ∷ db.imports;
  next_id = db.next_id + 1;
}

-- `reconcile_bank_statement`
module _ (u : Unicode) where
  unfoldable pub import_new :
      ℕ → ℕ → Text → List PaymentEntry → Db → Result Error (ImportResult × Db)
  import_new community_id actor_id fingerprint entries db = do
    let started = start_import community_id fingerprint db
    db' ←
        reconcile_entries u db.next_id community_id actor_id entries
          (candidates community_id started) started
    ok (import_result db.next_id false db', db')

  unfoldable pub reconcile_bank_statement :
      ℕ → ℕ → Text → List PaymentEntry → Db → Result Error (ImportResult × Db)
  reconcile_bank_statement community_id actor_id fingerprint entries db =
      elim (import_with community_id fingerprint db.imports) [
        | some i ↦ ok (import_result i.id true db, db)
        | none ↦ as_store_error (import_new community_id actor_id fingerprint entries db)
      ]
