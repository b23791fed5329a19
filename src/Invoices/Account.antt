-- ===== src/Invoices/Account.antt =====
-- What a log tells of the money: an invoice is paid once at most.
use openleg.Prelude.{ℕ, ◌==◌, ◌≡◌, refl, Bool, true, false, ◌&&◌, List, [], ◌∷◌, arith, count}
use openleg.Lifecycle.{State}
use openleg.Invoices.State.{EventType, InvoiceEvent, Db, current_state}
use openleg.Invoices.Log.{IsLog}
use openleg.Invoices.Reach.{Reach, Reach-IsLog}
use openleg.Payment.{Unicode}

-- A payment of the invoice.
abbrev pub pays : ℕ → InvoiceEvent → Bool
pays i e = e.invoice_id == i && elim e.event_type [ EventType.paid ↦ true | _ ↦ false ]

-- The payments that a state allows in the log.
abbrev paid_count : State → ℕ
paid_count State.paid = 1
paid_count _ = 0

count-pays :
    (es : List InvoiceEvent) (i : ℕ)
    → IsLog es
    → count (pays i) es ≡ paid_count (current_state es i)
count-pays [] i log = refl
count-pays (e ∷ es) i log = ground (arith, count-pays es i log.4)

-- After any operations on an empty log an invoice has exactly one payment if it is paid, and none
-- otherwise.
pub Reach-paid_once :
    (u : Unicode) {db db' : Db} (i : ℕ)
    → Reach u db db'
    → db.events ≡ []
    → count (pays i) db'.events ≡ paid_count (current_state db'.events i)
Reach-paid_once u {db} {db'} i r empty = count-pays db'.events i (Reach-IsLog u r (rw empty tt))
