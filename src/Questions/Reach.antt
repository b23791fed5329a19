-- ===== src/Questions/Reach.antt =====
-- store/invoice_query.py: the history of the questions after any operations.
use openleg.Prelude.{ℕ, ◌≡◌, Bool, Option, ok}
use openleg.Prelude.Text.{Text}
use openleg.Invoices.State.{QueryStatus}
use openleg.Questions.{Category, Db, Target, open_invoice_query}
use openleg.Questions.Changes.{
  Scope, add_invoice_query_message, mark_invoice_query_reminded, update_invoice_query,
  respond_operator_invoice_case, record_invoice_query_linkage,
}

-- An operation. The days and the files that it takes are free.
pub data Step (db : Db) : Db → Type 0 where
  ask :
      (response_days reminder_days now invoice_id p : ℕ) (category : Option Category)
      (message : Text) (attachment : Option (ℕ × ℕ)) (a : Option ℕ) {db' : Db}
      → open_invoice_query response_days reminder_days now invoice_id p category message attachment
          db
        ≡ ok (a, db')
      → Step db db'
  write :
      (id actor : ℕ) (message : Text) (scope : Scope) (attachment : Option (ℕ × ℕ)) (b : Bool)
      {db' : Db}
      → add_invoice_query_message id actor message scope attachment db ≡ ok (b, db')
      → Step db db'
  remind : (id actor : ℕ) → Step db ((mark_invoice_query_reminded id actor db).1)
  answer :
      (id community actor : ℕ) (message : Text) (target : Option Target) (b : Bool) {db' : Db}
      → update_invoice_query id community actor message target db ≡ ok (b, db')
      → Step db db'
  respond_by_key :
      (id community actor : ℕ) (message : Text) (target : Target) (key : ℕ)
      (a : Option (QueryStatus × Bool)) {db' : Db}
      → respond_operator_invoice_case id community actor message target key db ≡ ok (a, db')
      → Step db db'
  link :
      (invoice_id actor : ℕ) (reference : Text)
      → Step db (record_invoice_query_linkage invoice_id actor reference db)

pub data Reach (db : Db) : Db → Type 0 where
  here : Reach db db
  next : {db' db'' : Db} → Reach db db' → Step db' db'' → Reach db db''
