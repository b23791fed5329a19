-- ===== src/Invoices/Scene.antt =====
-- Test data: a community with two issued invoices of one participant, and the databases that the
-- operations of store/billing.py lead to from there.
use openleg.Prelude.{
  ℕ, ◌-◌, ◌∷◌, [], true, false, ◌&&◌, ◌||◌, leb, some, if◌then◌else◌, Result, ok, err,
}
use openleg.Prelude.Int.{pos}
use openleg.Prelude.Text.{Text, codes}
use openleg.Invoices.State.{DeliveryMethod, Invoice, PaymentEntry, Db}
use openleg.Invoices.Delivery.{prepare_invoice_delivery, complete_invoice_delivery}
use openleg.Invoices.Bank.{reconcile_bank_statement}
use openleg.Outbox.{Capability}
use openleg.Payment.{Unicode}

-- The upper case and the letters and digits of ASCII.
abbrev pub ascii : Unicode
ascii = record {
  upper = λ c. (if leb 97 c && leb c 122 then c - 32 else c) ∷ [];
  is_alnum = λ c. (leb 48 c && leb c 57) || (leb 65 c && leb c 90) || (leb 97 c && leb c 122);
}

abbrev pub invoice_of : ℕ → Text → Invoice
invoice_of id number = record {
  id = id;
  community_id = 7;
  participant_id = 3;
  invoice_number = number;
  gross_chf = pos 1250;
  is_issued = true;
  delivery_method = some DeliveryMethod.download;
  participant_registration_id = some (codes "REF");
}

abbrev pub issued_db : Db
issued_db = record {
  invoices = invoice_of 1 (codes "R-1") ∷ invoice_of 2 (codes "R-2") ∷ [];
  buildings =
      record {
        building_id = 3;
        referral_code = codes "REF";
        email = codes "a@b";
        preferred_locale = 0;
      }
      ∷ [];
  events = [];
  jobs = [];
  corrections = [];
  queries = [];
  query_events = [];
  imports = [];
  entries = [];
  remembered = [];
  outbox = record {
    clients =
        record {
          id = 5;
          community_id = 7;
          active = true;
          has_webhook = true;
          capabilities = Capability.billing_read ∷ [];
        }
        ∷ [];
    events = [];
    deliveries = [];
  };
  next_id = 100;
}

-- The database behind an answer of one part, and of two.
abbrev pub db_after : {E A : Type 0} → Result E (A × Db) → Db
db_after (err e) = issued_db
db_after (ok (a, db)) = db

abbrev pub db_after₂ : {E A B : Type 0} → Result E (A × B × Db) → Db
db_after₂ (err e) = issued_db
db_after₂ (ok (a, b, db)) = db

unfoldable pub prepared_db : Db
unfolding prepare_invoice_delivery
prepared_db = db_after (prepare_invoice_delivery 1 7 9 issued_db)

unfoldable pub delivered_db : Db
unfolding complete_invoice_delivery prepared_db
delivered_db = db_after₂ (complete_invoice_delivery 1 7 9 prepared_db)

abbrev pub entry_of : Text → PaymentEntry
entry_of reference = record {
  entry_reference = codes "E1";
  booking_date = 738000;
  amount = pos 1250;
  currency = codes "CHF";
  payment_reference = reference;
  is_reversal = false;
  credit_debit_indicator = codes "CRDT";
}

abbrev pub fingerprint : Text
fingerprint = codes "camt-1"

-- The statement with a payment of the invoice, and one whose reference fits no invoice.
unfoldable pub booked_db : Db
unfolding reconcile_bank_statement delivered_db
booked_db =
    db_after
      (reconcile_bank_statement ascii 7 9 fingerprint (entry_of (codes "r1") ∷ []) delivered_db)

unfoldable pub open_db : Db
unfolding reconcile_bank_statement delivered_db
open_db =
    db_after
      (reconcile_bank_statement ascii 7 9 fingerprint (entry_of (codes "r9") ∷ []) delivered_db)
