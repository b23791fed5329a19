-- ===== src/Invoices/Confirm.antt =====
-- store/billing.py, `confirm_payment`: a reviewer accepts a bank entry that the import left open. A
-- repeated request under one key gets the recorded answer.
pub mod History
use openleg.Prelude.{
  ℕ, ◌+◌, ◌==◌, Bool, true, false, ◌&&◌, ◌||◌, not, Option, none, some, List, [], ◌∷◌, any, find,
  select, update, map, if◌then◌else◌, Result, ok, err, ◌>>=◌, ◌>>◌, raise_if, or_raise,
}
use openleg.Lifecycle.{State, Event, Error, next_state}
use openleg.Invoices.State.{
  Key, Decision, StatementEntry, Confirmation, Remembered, Db, LockedInvoice, locked_invoice,
  current_state, append_invoice_event,
}
use openleg.Invoices.Transitions.{event_with}
use openleg.Invoices.Bank.{finalize_bank_payment, is_matched}
use openleg.Outbox.{Kind, enqueue_event}
use openleg.Payment.{Candidate, payment_eligibility}

-- `operator_operations._replay`
replay : ℕ → ℕ → ℕ → ℕ → List Remembered → Result Error (Option Confirmation)
replay community_id entry_id key invoice_id [] = ok none
replay community_id entry_id key invoice_id (r ∷ rs) =
    let rest = replay community_id entry_id key invoice_id rs in
    if r.community_id == community_id && r.entry_id == entry_id && r.key == key
    then if r.request_invoice_id == invoice_id
      then ok (some (record r.response { replayed = true }))
      else err Error.idempotency_key_reused
    else rest

abbrev pub is_reviewable : Decision → Bool
is_reviewable Decision.unmatched = true
is_reviewable Decision.ambiguous = true
is_reviewable Decision.mismatch = true
is_reviewable _ = false

-- UPDATE bank_statement_entries
unfoldable pub decide_entry : ℕ → ℕ → Db → Db
decide_entry entry_id invoice_id db = record db {
  entries =
      update (λ (e : StatementEntry). e.id == entry_id)
        (λ e. record e { invoice_id = some invoice_id; match_decision = Decision.matched })
        db.entries;
}

-- The part of `confirm_payment` that accepts a reviewed entry.
confirm_entry : StatementEntry → ℕ → ℕ → ℕ → ℕ → Db → Result Error (Option Confirmation × Db)
confirm_entry row invoice_id community_id actor_id key db = do
  locked ← locked_invoice db invoice_id community_id
  let c : Candidate = record {
    invoice = locked.invoice;
    lifecycle_state = current_state db.events invoice_id;
  }
  raise_if (not (is_matched (payment_eligibility row.entry c))) Error.payment_differs
  (_, paid) ←
      finalize_bank_payment c row.entry community_id actor_id (Key.operator key)
        (decide_entry row.id invoice_id db)
  transition ← or_raise (event_with (Key.operator key) invoice_id paid.events) Error.store_error
  let response : Confirmation = record {
    id = row.id;
    transition_id = transition.id;
    replayed = false;
  }
  ok (
    some response,
    record paid {
      outbox =
          enqueue_event Kind.payment_confirmed (row.id ∷ []) community_id (transition.id ∷ [])
            paid.outbox;
      remembered =
          record {
            community_id = community_id;
            entry_id = row.id;
            key = key;
            request_invoice_id = invoice_id;
            response = response;
          }
          ∷ paid.remembered;
    },
  )

confirm_open : Option StatementEntry → ℕ → ℕ → ℕ → ℕ → Db → Result Error (Option Confirmation × Db)
unfolding confirm_entry
confirm_open none invoice_id community_id actor_id key db = ok (none, db)
confirm_open (some row) invoice_id community_id actor_id key db =
    if is_reviewable row.match_decision
    then confirm_entry row invoice_id community_id actor_id key db
    else ok (none, db)

confirm_fresh :
    Option Confirmation → ℕ → ℕ → ℕ → ℕ → ℕ → Db → Result Error (Option Confirmation × Db)
unfolding confirm_open
confirm_fresh (some r) entry_id invoice_id community_id actor_id key db = ok (some r, db)
confirm_fresh none entry_id invoice_id community_id actor_id key db =
    confirm_open
      (find (λ (e : StatementEntry). e.id == entry_id && e.community_id == community_id) db.entries)
      invoice_id community_id actor_id key db

-- `confirm_payment`; none where the entry is not open for review.
unfoldable pub confirm_payment : ℕ → ℕ → ℕ → ℕ → ℕ → Db → Result Error (Option Confirmation × Db)
unfolding replay confirm_fresh
confirm_payment entry_id invoice_id community_id actor_id key db = do
  known ← replay community_id entry_id key invoice_id db.remembered
  confirm_fresh known entry_id invoice_id community_id actor_id key db
