-- ===== src/Questions/Tests.antt =====
-- The history of a question that is opened, acknowledged by key and resolved with a reply.
use openleg.Prelude.{ℕ, ◌≡◌, true, Bool, Option, some, none, List, [], ◌∷◌, Result, ok, err}
use openleg.Prelude.Int.{pos}
use openleg.Prelude.Text.{codes}
use openleg.Invoices.State.{QueryStatus, DeliveryMethod}
use openleg.Questions.{Category, QuestionError, Db, open_invoice_query}
use openleg.Questions.Changes.{update_invoice_query, respond_operator_invoice_case}
use openleg.Questions.Reach.{Reach}

abbrev billed : Db
billed = record {
  invoices =
      record {
        id = 5;
        community_id = 7;
        participant_id = 4;
        invoice_number = codes "LEG-A-2026-000001";
        gross_chf = pos 2500;
        is_issued = true;
        delivery_method = some DeliveryMethod.email;
        participant_registration_id = some (codes "R4");
      }
      ∷ [];
  buildings =
      record { building_id = 4; referral_code = codes "R4"; email = []; preferred_locale = 0 } ∷ [];
  questions = [];
  messages = [];
  events = [];
  answered = [];
  outbox = record { clients = []; events = []; deliveries = [] };
  next_id = 20;
}

abbrev db_of {ℓ} : {A : Type ℓ} → Result QuestionError (A × Db) → Db
db_of (err e) = billed
db_of (ok (a, db)) = db

unfoldable asked : Db
unfolding open_invoice_query
asked =
    db_of (open_invoice_query 10 2 100 5 4 (some Category.amount) (codes " zu hoch ") none billed)

unfoldable acknowledged_db : Db
unfolding respond_operator_invoice_case asked
acknowledged_db = db_of (
    respond_operator_invoice_case 20 7 9 (codes "Wir prüfen") (some QueryStatus.acknowledged) 1
      asked)

unfoldable resolved_db : Db
unfolding update_invoice_query acknowledged_db
resolved_db = db_of (
    update_invoice_query 20 7 9 (codes "Erledigt") (some (some QueryStatus.resolved))
      acknowledged_db)
