-- ===== src/Invoices/Log.antt =====
-- The event log of the invoices as a history: every row continues the state before it.
use openleg.Prelude.{
  ℕ, ◌==◌, ◌≡◌, refl, Bool, true, false, Option, none, some, List, [], ◌∷◌, arith, Bool-cases, inl,
  inr,
}
use openleg.Lifecycle.{State}
use openleg.Lifecycle.Rules.{reaches, reaches_refl, reaches_trans}
use openleg.Invoices.State.{
  EventType, Key, key_eq, InvoiceEvent, Db, current_state, has_key, append_invoice_event,
}

-- The change of state that each type of event records.
abbrev pub follows : EventType → State → State → Bool
follows EventType.delivered State.issued State.delivered = true
follows EventType.delivery_confirmed State.issued State.delivered = true
follows EventType.delivery_failed State.issued State.issued = true
follows EventType.delivery_failed State.delivered State.delivered = true
follows EventType.delivery_failed State.paid State.paid = true
follows EventType.delivery_failed State.cancelled State.cancelled = true
follows EventType.delivery_failed State.corrected State.corrected = true
follows EventType.paid State.delivered State.paid = true
follows EventType.cancelled State.issued State.cancelled = true
follows EventType.cancelled State.delivered State.cancelled = true
follows EventType.corrected State.cancelled State.corrected = true
follows EventType.correction_issued State.issued State.issued = true
follows _ _ _ = false

-- The state that an idempotency key stands for, if its event changes the state.
abbrev pub key_state : Key → Option State
key_state Key.delivered = some State.delivered
key_state Key.paid = some State.paid
key_state Key.cancelled = some State.cancelled
key_state (Key.bank i r) = some State.paid
key_state (Key.operator k) = some State.paid
key_state (Key.corrected i) = some State.corrected
key_state (Key.delivery_failed n) = none
key_state (Key.corrects i) = none

-- The key of an event stands for its new state, or for none.
abbrev pub Fits : Option State → State → Type 0
Fits none s = Unit
Fits (some t) s = t ≡ s

-- A log, newest first: each event starts at the state that the invoice had, makes the change that
-- its type records, carries a key that fits, and repeats no key of its invoice.
abbrev pub IsLog : List InvoiceEvent → Type 0
IsLog [] = Unit
IsLog (e ∷ es) =
    (e.previous_state ≡ current_state es e.invoice_id)
    × (follows e.event_type e.previous_state e.new_state ≡ true)
    × Fits (key_state e.idempotency_key) e.new_state
    × (has_key es e.invoice_id e.idempotency_key ≡ false)
    × IsLog es

pub append_invoice_event-IsLog :
    (e : InvoiceEvent) (db : Db)
    → IsLog db.events
    → e.previous_state ≡ current_state db.events e.invoice_id
    → follows e.event_type e.previous_state e.new_state ≡ true
    → Fits (key_state e.idempotency_key) e.new_state
    → IsLog (append_invoice_event e db).events
unfolding append_invoice_event
append_invoice_event-IsLog e db log p f k =
    elim (Bool-cases (has_key db.events e.invoice_id e.idempotency_key)) [
      | inl old ↦ rw old log
      | inr new ↦ rw new (p, f, k, new, log)
    ]

follows-reaches : (t : EventType) (s u : State) → follows t s u ≡ true → reaches s u ≡ true
follows-reaches t s u h = ground arith

key_eq-key_state : (a b : Key) → key_eq a b ≡ true → key_state a ≡ key_state b
key_eq-key_state a b h = ground arith

-- Once a key that stands for a state is in the log, the invoice has come to that state or further.
pub has_key-reaches :
    (es : List InvoiceEvent) (invoice_id : ℕ) (key : Key) {s : State}
    → IsLog es
    → key_state key ≡ some s
    → has_key es invoice_id key ≡ true
    → reaches s (current_state es invoice_id) ≡ true
has_key-reaches [] i key log k h = ground arith
has_key-reaches (e ∷ es) i key {s} log k h = ground (
  arith,
  has_key-reaches es i key log.4 k,
  follows-reaches e.event_type e.previous_state e.new_state log.1,
  reaches_trans s e.previous_state e.new_state,
  key_eq-key_state e.idempotency_key key,
  reaches_refl s,
)

-- An event whose state the invoice has not come to yet is written, and sets the state.
pub append_invoice_event-current_state :
    (e : InvoiceEvent) (db : Db)
    → IsLog db.events
    → e.previous_state ≡ current_state db.events e.invoice_id
    → key_state e.idempotency_key ≡ some e.new_state
    → reaches e.new_state e.previous_state ≡ false
    → current_state (append_invoice_event e db).events e.invoice_id ≡ e.new_state
unfolding append_invoice_event
append_invoice_event-current_state e db log p k back =
    ground (arith, has_key-reaches db.events e.invoice_id e.idempotency_key log k)

-- An event leaves the state of the other invoices.
pub append_invoice_event-others :
    (e : InvoiceEvent) (db : Db) (j : ℕ)
    → (e.invoice_id == j) ≡ false
    → current_state (append_invoice_event e db).events j ≡ current_state db.events j
unfolding append_invoice_event
append_invoice_event-others e db j h = ground arith

-- An event that keeps the state of its invoice changes no state.
pub append_invoice_event-same :
    (e : InvoiceEvent) (db : Db) (j : ℕ)
    → e.new_state ≡ current_state db.events e.invoice_id
    → current_state (append_invoice_event e db).events j ≡ current_state db.events j
unfolding append_invoice_event
append_invoice_event-same e db j h =
    elim (Bool-cases (has_key db.events e.invoice_id e.idempotency_key)) [
      | inl old ↦ rw old refl
      | inr new ↦ rw new (ground arith)
    ]
