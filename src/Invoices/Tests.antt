-- ===== src/Invoices/Tests.antt =====
-- The theorems on the invoices at concrete databases.
use openleg.Prelude.{
  ℕ, ◌∷◌, [], ◌≡◌, refl, Bool, false, ◌⊎◌, Option, none, some, count, any, find, ◌==◌, ◌&&◌, Result,
  ok,
}
use openleg.Prelude.Text.{Text, codes}
use openleg.Lifecycle.{State}
use openleg.Invoices.State.{PaymentEntry, StatementEntry, Confirmation, Db, current_state}
use openleg.Invoices.Delivery.{
  prepare_invoice_delivery, complete_invoice_delivery, confirm_invoice_delivery,
  fail_invoice_delivery,
}
use openleg.Invoices.Transitions.{Change, transition_invoice}
use openleg.Invoices.Correction.{correct_invoice}
use openleg.Invoices.Bank.{ImportResult, reconcile_bank_statement}
use openleg.Invoices.Confirm.{confirm_payment}
use openleg.Invoices.Confirm.History.{Confirmed, confirm_payment-Confirmed}
use openleg.Invoices.Log.{IsLog}
use openleg.Invoices.Reach.{Step, Reach, Reach-IsLog}
use openleg.Invoices.Account.{pays, Reach-paid_once}
use openleg.Invoices.Scene.{
  ascii, issued_db, prepared_db, delivered_db, booked_db, open_db, entry_of, fingerprint, db_after,
  db_after₂,
}

delivered_IsLog : IsLog delivered_db.events
unfolding delivered_db openleg.Invoices.State.locked_invoice openleg.Lifecycle.next_state
    openleg.Invoices.Delivery.mark_sent openleg.Invoices.State.append_invoice_event
delivered_IsLog = (refl, refl, refl, refl, tt)

unfoldable confirmed_db : Db
unfolding confirm_invoice_delivery prepared_db
confirmed_db = db_after₂ (confirm_invoice_delivery 1 7 9 prepared_db)

abbrev db_of : {E : Type 0} → Result E Db → Db
db_of (ok db) = db
db_of _ = issued_db

unfoldable failed_db : Db
unfolding fail_invoice_delivery prepared_db
failed_db = db_of (fail_invoice_delivery 1 7 9 (codes "SMTP") prepared_db)

unfoldable cancelled_db : Db
unfolding transition_invoice delivered_db
cancelled_db =
    db_after₂
      (transition_invoice Change.cancel 1 7 9 (some (codes "falsch")) none none delivered_db)

unfoldable corrected_db : Db
unfolding correct_invoice cancelled_db
corrected_db = db_after₂ (correct_invoice 1 2 7 9 (codes "falsch") cancelled_db)

abbrev answer_of : {E A : Type 0} → Result E (Option A × Db) → Option A
answer_of (ok (a, db)) = a
answer_of _ = none

unfoldable reviewed_db : Db
unfolding confirm_payment open_db
reviewed_db = db_after (confirm_payment 102 1 7 9 42 open_db)

unfoldable review : Option Confirmation
unfolding confirm_payment open_db
review = answer_of (confirm_payment 102 1 7 9 42 open_db)

confirm_payment-Confirmed_example : Confirmed 102 1 7 open_db review reviewed_db
unfolding confirm_payment open_db reviewed_db review openleg.Invoices.State.locked_invoice
    openleg.Lifecycle.next_state openleg.Invoices.Delivery.mark_sent
    openleg.Invoices.State.append_invoice_event openleg.Invoices.Bank.import_new
    openleg.Invoices.Bank.reconcile_entries openleg.Invoices.Bank.reconcile_entry
    openleg.Payment.match_payment openleg.Invoices.Bank.candidates
    openleg.Invoices.Bank.start_import openleg.Invoices.Bank.insert_entry
    openleg.Invoices.Bank.finalize_bank_payment openleg.Prelude.Text.strip
    openleg.Invoices.Confirm.decide_entry
confirm_payment-Confirmed_example =
    confirm_payment-Confirmed 102 1 7 9 42 open_db delivered_IsLog refl

-- From the issued invoice to the payment from the bank.
abbrev run : Reach ascii issued_db booked_db
unfolding prepare_invoice_delivery complete_invoice_delivery reconcile_bank_statement booked_db
    openleg.Invoices.State.locked_invoice openleg.Lifecycle.next_state
    openleg.Invoices.Delivery.mark_sent openleg.Invoices.State.append_invoice_event
    openleg.Invoices.Bank.import_new openleg.Invoices.Bank.reconcile_entries
    openleg.Invoices.Bank.reconcile_entry openleg.Payment.match_payment
    openleg.Invoices.Bank.candidates openleg.Invoices.Bank.start_import
    openleg.Invoices.Bank.finalize_bank_payment openleg.Prelude.Text.strip
    openleg.Invoices.Bank.insert_entry
run =
    Reach.next
      (Reach.next (Reach.next Reach.here (Step.prepare 1 7 9 _ refl))
        (Step.complete 1 7 9 false State.delivered refl))
      (Step.reconcile 7 9 fingerprint (entry_of (codes "r1") ∷ []) _ refl)

Reach-IsLog_example : IsLog booked_db.events
Reach-IsLog_example = Reach-IsLog ascii run tt

Reach-paid_once_example : count (pays 1) booked_db.events ≡ 1
unfolding booked_db openleg.Invoices.State.locked_invoice openleg.Lifecycle.next_state
    openleg.Invoices.Delivery.mark_sent openleg.Invoices.State.append_invoice_event
    openleg.Invoices.Bank.import_new openleg.Invoices.Bank.reconcile_entries
    openleg.Invoices.Bank.reconcile_entry openleg.Payment.match_payment
    openleg.Invoices.Bank.candidates openleg.Invoices.Bank.start_import
    openleg.Invoices.Bank.finalize_bank_payment openleg.Prelude.Text.strip
    openleg.Invoices.Bank.insert_entry
Reach-paid_once_example = Reach-paid_once ascii 1 run refl
