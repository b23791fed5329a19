-- ===== src/Invoices/Bank/Imports.antt =====
-- An import as a whole: what it keeps, and that a statement is booked once.
use mathlib.Core.Path.{subst}
use openleg.Prelude.{
  ℕ, ◌≡◌, refl, Bool, false, some, List, [], ◌∷◌, arith, Bool-cases, Option-cases, Result-cases,
  inl, inr, map, select, ok,
}
use openleg.Prelude.Text.{Text, text_eq_refl}
use openleg.Invoices.State.{Invoice, InvoiceEvent, PaymentEntry, StatementImport, Db, current_state}
use openleg.Invoices.Bank.{
  candidates, reconcile_entries, start_import, import_new, reconcile_bank_statement, import_with,
  import_result, ImportResult,
}
use openleg.Invoices.Bank.History.{Agree, reconcile_entries-IsLog}
use openleg.Invoices.Log.{IsLog}
use openleg.Payment.{Unicode}

loaded-Agree :
    (es : List InvoiceEvent) (p : Invoice → Bool) (is : List Invoice)
    → Agree
        (map (λ i. record { invoice = i; lifecycle_state = current_state es i.id }) (select p is))
        es
loaded-Agree es p [] = tt
loaded-Agree es p (i ∷ is) = elim (Bool-cases (p i)) [
  | inl e ↦ rw e (refl, loaded-Agree es p is)
  | inr e ↦ rw e (loaded-Agree es p is)
]

-- The states that are loaded are those of the log.
candidates-Agree : (community_id : ℕ) (db : Db) → Agree (candidates community_id db) db.events
unfolding candidates
candidates-Agree community_id db = loaded-Agree db.events _ db.invoices

-- What an import does, if it succeeds: the log is kept, and the statement is on record under the id
-- that is answered, with its rows.
abbrev Imported : ℕ → Text → ImportResult → Db → Db → Type 0
Imported community_id fingerprint r db db' =
    IsLog db'.events
    × ((i : StatementImport) × (import_with community_id fingerprint db'.imports ≡ some i)
        × (r ≡ import_result i.id r.duplicate db'))

-- The row that a new import adds.
abbrev new_import : ℕ → Text → Db → StatementImport
new_import community_id fingerprint db = record {
  id = db.next_id;
  community_id = community_id;
  fingerprint = fingerprint;
}

start_import-IsLog :
    (community_id : ℕ) (fingerprint : Text) (db : Db)
    → IsLog db.events
    → IsLog (start_import community_id fingerprint db).events
unfolding start_import
start_import-IsLog community_id fingerprint db log = log

import_with-new :
    (community_id : ℕ) (fingerprint : Text) (db : Db)
    → import_with community_id fingerprint (start_import community_id fingerprint db).imports
      ≡ some (new_import community_id fingerprint db)
unfolding start_import
import_with-new community_id fingerprint db = ground (arith, text_eq_refl fingerprint)

module _ (u : Unicode) where
  import_new-Imported :
      (community_id actor_id : ℕ) (fingerprint : Text) (entries : List PaymentEntry) (db : Db)
      (r : ImportResult) (db' : Db)
      → IsLog db.events
      → import_new u community_id actor_id fingerprint entries db ≡ ok (r, db')
      → Imported community_id fingerprint r db db'
  unfolding import_new
  import_new-Imported community_id actor_id fingerprint entries db r db' log h =
      let started = start_import community_id fingerprint db in
      let cs = candidates community_id started in
      elim (Result-cases
        (reconcile_entries u db.next_id community_id actor_id entries cs started)) [
          | inl (refused, e) ↦ ground arith
          | inr (after, e) ↦
              let same : after ≡ db' = ground arith in
              let answered : r ≡ import_result db.next_id false after = ground arith in
              let kept =
                reconcile_entries-IsLog u entries db.next_id community_id actor_id cs started after
                  (start_import-IsLog community_id fingerprint db log)
                  (candidates-Agree community_id started) e in
              subst (Imported community_id fingerprint r db) same (
                kept.0,
                (
                  new_import community_id fingerprint db,
                  rw kept.1 (import_with-new community_id fingerprint db),
                  ground arith,
                ),
              )
        ]

  -- An import that succeeds keeps the log of the invoices.
  pub reconcile_bank_statement-IsLog :
      (community_id actor_id : ℕ) (fingerprint : Text) (entries : List PaymentEntry) (db : Db)
      {r : ImportResult} {db' : Db}
      → IsLog db.events
      → reconcile_bank_statement u community_id actor_id fingerprint entries db ≡ ok (r, db')
      → IsLog db'.events
  unfolding reconcile_bank_statement
  reconcile_bank_statement-IsLog community_id actor_id fingerprint entries db {r} {db'} log h =
      elim (Option-cases (import_with community_id fingerprint db.imports)) [
        | inr (i, e) ↦ ground arith
        | inl fresh ↦
            elim (Result-cases (import_new u community_id actor_id fingerprint entries db)) [
              | inl (refused, e) ↦ ground arith
              | inr ((r', after), e) ↦
                  let (log', (i, found, answered)) =
                    import_new-Imported community_id actor_id fingerprint entries db r' after log
                      e in
                  ground arith
            ]
      ]
