-- ===== src/Invoices/Reach.antt =====
-- The operations as a step relation, and what holds after any sequence of them.
use openleg.Prelude.{ℕ, ◌≡◌, sym, Bool, Option, List, inl, inr, ok}
use mathlib.Core.Path.{subst}
use openleg.Prelude.Text.{Text}
use openleg.Lifecycle.{State}
use openleg.Invoices.State.{PaymentEntry, Confirmation, Db}
use openleg.Invoices.Delivery.{
  Prepared, prepare_invoice_delivery, fail_invoice_delivery, complete_invoice_delivery,
  confirm_invoice_delivery,
}
use openleg.Invoices.Delivery.History.{
  prepare_invoice_delivery-events, fail_invoice_delivery-IsLog, complete_invoice_delivery-IsLog,
  confirm_invoice_delivery-IsLog,
}
use openleg.Invoices.Transitions.{Change, transition_invoice}
use openleg.Invoices.Correction.{correct_invoice}
use openleg.Invoices.Transitions.History.{transition_invoice-IsLog}
use openleg.Invoices.Correction.Replacement.{correct_invoice-IsLog}
use openleg.Invoices.Bank.{ImportResult, reconcile_bank_statement}
use openleg.Invoices.Bank.Imports.{reconcile_bank_statement-IsLog}
use openleg.Invoices.Confirm.{confirm_payment}
use openleg.Invoices.Confirm.History.{confirm_payment-Confirmed}
use openleg.Invoices.Log.{IsLog}
use openleg.Payment.{Unicode}

module _ (u : Unicode) where
  -- One operation that succeeds; one that raises leaves the database as it is.
  pub data Step (db db' : Db) : Type 0 where
    prepare :
        (i c a : ℕ) (p : Prepared) → prepare_invoice_delivery i c a db ≡ ok (p, db') → Step db db'
    fail : (i c a : ℕ) (error : Text) → fail_invoice_delivery i c a error db ≡ ok db' → Step db db'
    complete :
        (i c a : ℕ) (known : Bool) (s : State)
        → complete_invoice_delivery i c a db ≡ ok (known, s, db')
        → Step db db'
    confirm :
        (i c a : ℕ) (known : Bool) (s : State)
        → confirm_invoice_delivery i c a db ≡ ok (known, s, db')
        → Step db db'
    change :
        (ch : Change) (i c a : ℕ) (reason reference : Option Text) (date : Option ℕ) (s : State)
        (known : Bool)
        → transition_invoice ch i c a reason reference date db ≡ ok (s, known, db')
        → Step db db'
    correct :
        (i j c a : ℕ) (reason : Text) (s : State) (known : Bool)
        → correct_invoice i j c a reason db ≡ ok (s, known, db')
        → Step db db'
    reconcile :
        (c a : ℕ) (fingerprint : Text) (entries : List PaymentEntry) (r : ImportResult)
        → reconcile_bank_statement u c a fingerprint entries db ≡ ok (r, db')
        → Step db db'
    review :
        (entry_id i c a key : ℕ) (o : Option Confirmation)
        → confirm_payment entry_id i c a key db ≡ ok (o, db')
        → Step db db'

  pub data Reach (db : Db) : Db → Type 0 where
    here : Reach db db
    next : {db' db'' : Db} → Reach db db' → Step db' db'' → Reach db db''

  Step-IsLog : {db db' : Db} → Step db db' → IsLog db.events → IsLog db'.events
  Step-IsLog {db} {db'} (prepare i c a p h) log =
      subst IsLog (sym (prepare_invoice_delivery-events i c a db h)) log
  Step-IsLog {db} (fail i c a error h) log = (fail_invoice_delivery-IsLog i c a error i db log h).0
  Step-IsLog {db} (complete i c a known s h) log =
      (complete_invoice_delivery-IsLog i c a db log h).0
  Step-IsLog {db} (confirm i c a known s h) log = (confirm_invoice_delivery-IsLog i c a db log h).0
  Step-IsLog {db} (change ch i c a reason reference date s known h) log =
      (transition_invoice-IsLog ch i c a reason reference date db log h).0
  Step-IsLog {db} (correct i j c a reason s known h) log =
      (correct_invoice-IsLog i j c a reason db log h).1
  Step-IsLog {db} (reconcile c a fingerprint entries r h) log =
      reconcile_bank_statement-IsLog u c a fingerprint entries db log h
  Step-IsLog {db} {db'} (review entry_id i c a key o h) log =
      elim (confirm_payment-Confirmed entry_id i c a key db log h) [
        | inl same ↦ subst (λ (d : Db). IsLog d.events) (sym same) log
        | inr (row, found, open_entry, accepted) ↦ accepted.0
      ]

  -- Whatever operations run, in whatever order, the event log stays a history of the invoices:
  -- each row continues the state before it by an allowed change, and no key is repeated.
  pub Reach-IsLog : {db db' : Db} → Reach db db' → IsLog db.events → IsLog db'.events
  Reach-IsLog here log = log
  Reach-IsLog (next r s) log = Step-IsLog s (Reach-IsLog r log)
