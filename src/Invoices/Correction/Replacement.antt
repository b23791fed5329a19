-- ===== src/Invoices/Correction/Replacement.antt =====
-- What a correction writes to the history of the original and of the replacement.
use openleg.Prelude.{
  ◌⊎◌, ℕ, ◌∷◌, ◌==◌, ==_iff, ◌≡◌, refl, sym, ap, ◌∙◌, Bool, true, false, ◌&&◌, Option, none, some,
  arith, Bool-cases, Option-cases, inl, inr, find, find_test, ok, Result-cases,
}
use mathlib.Core.Path.{subst₂}
use openleg.Prelude.Text.{Text, strip}
use openleg.Lifecycle.{State, next_state}
use openleg.Invoices.State.{
  EventType, Key, Invoice, Correction, Db, current_state, append_invoice_event,
}
use openleg.Invoices.Correction.{
  correction_event, apply_correction, record_invoice_query_linkage, issued_invoice, correct_invoice,
  correct_unlinked, correct_rows, linked,
}
use openleg.Invoices.Log.{
  IsLog, append_invoice_event-IsLog, append_invoice_event-current_state,
  append_invoice_event-others, append_invoice_event-same,
}

-- Invoices in different states are different.
ids_differ :
    (db : Db) (i j : ℕ)
    → current_state db.events i ≡ State.cancelled
    → current_state db.events j ≡ State.issued
    → (i == j) ≡ false
ids_differ db i j h k = elim (Bool-cases (i == j)) [
  | inl e ↦
      let same : current_state db.events i ≡ current_state db.events j =
        ap (current_state db.events) ((==_iff i j).0 e) in
      cc
  | inr e ↦ e
]

-- The two invoices of a correction, and the log.
abbrev IsCorrected : Invoice → Invoice → Db → Type 0
IsCorrected original corrected db =
    IsLog db.events
    × (current_state db.events original.id ≡ State.corrected)
    × (current_state db.events corrected.id ≡ State.issued)

apply_correction-IsCorrected :
    (original corrected : Invoice) (c a : ℕ) (reason : Text) (db : Db)
    → IsLog db.events
    → current_state db.events original.id ≡ State.cancelled
    → current_state db.events corrected.id ≡ State.issued
    → IsCorrected original corrected
        (apply_correction original corrected c a reason State.cancelled State.corrected db)
unfolding apply_correction correction_event record_invoice_query_linkage
apply_correction-IsCorrected original corrected c a reason db log o r =
    let link : Correction = record {
      original_invoice_id = original.id;
      corrected_invoice_id = corrected.id;
      community_id = c;
      actor_id = a;
      reason = reason;
    } in
    let linked : Db = record db { corrections = link ∷ db.corrections } in
    let e =
      correction_event EventType.corrected original.id c a State.cancelled State.corrected
        (Key.corrected corrected.id) reason corrected.invoice_number in
    let f =
      correction_event EventType.correction_issued corrected.id c a State.issued State.issued
        (Key.corrects original.id) reason original.invoice_number in
    let first = append_invoice_event e linked in
    let log' : IsLog first.events = append_invoice_event-IsLog e linked log (sym o) refl refl in
    let o' : current_state first.events original.id ≡ State.corrected =
      append_invoice_event-current_state e linked log (sym o) refl refl in
    let r' : current_state first.events corrected.id ≡ State.issued =
      append_invoice_event-others e linked corrected.id (ids_differ db original.id corrected.id o r)
      ∙ r in
    (
      append_invoice_event-IsLog f first log' (sym r') refl tt,
      append_invoice_event-same f first original.id (sym r') ∙ o',
      append_invoice_event-same f first corrected.id (sym r') ∙ r',
    )

issued_invoice-id :
    (db : Db) (i c : ℕ) {row : Invoice} → issued_invoice db i c ≡ ok row → row.id ≡ i
unfolding issued_invoice
issued_invoice-id db i c {row} h =
    let p = λ (x : Invoice). x.id == i && x.community_id == c && x.is_issued in
    elim (Option-cases (find p db.invoices)) [
      | inl missing ↦ ground arith
      | inr (x, e) ↦
          let same : x ≡ row = ground arith in
          let passed = find_test p db.invoices e in ground arith
    ]

-- What a correction answers and leaves behind.
abbrev Corrects : ℕ → ℕ → Db → State → Bool → Db → Type 0
Corrects i j db s known db' =
    (s ≡ State.corrected)
    × IsLog db'.events
    × (((known ≡ true) × (db' ≡ db))
        ⊎ ((known ≡ false)
            × (current_state db.events i ≡ State.cancelled)
            × (current_state db'.events i ≡ s)
            × (current_state db'.events j ≡ State.issued)))

correct_unlinked-Corrects :
    (original corrected : Invoice) (c a : ℕ) (reason : Text) (db : Db) {s : State} {known : Bool}
    {db' : Db}
    → IsLog db.events
    → correct_unlinked original corrected original.id corrected.id c a reason db
      ≡ ok (s, known, db')
    → Corrects original.id corrected.id db s known db'
unfolding correct_unlinked next_state
correct_unlinked-Corrects original corrected c a reason db log h =
    ground (arith, apply_correction-IsCorrected original corrected c a (strip reason) db log)

correct_rows-Corrects :
    (link : Option Correction) (original corrected : Invoice) (c a : ℕ) (reason : Text) (db : Db)
    {s : State} {known : Bool} {db' : Db}
    → IsLog db.events
    → correct_rows link original corrected original.id corrected.id c a reason db
      ≡ ok (s, known, db')
    → Corrects original.id corrected.id db s known db'
unfolding correct_rows
correct_rows-Corrects (some l) original corrected c a reason db log h = ground arith
correct_rows-Corrects none original corrected c a reason db log h =
    correct_unlinked-Corrects original corrected c a reason db log h

correct_found-Corrects :
    (link : Option Correction) (original corrected : Invoice) (i j c a : ℕ) (reason : Text)
    (db : Db) (s : State) (known : Bool) (db' : Db)
    → IsLog db.events
    → original.id ≡ i
    → corrected.id ≡ j
    → correct_rows link original corrected i j c a reason db ≡ ok (s, known, db')
    → Corrects i j db s known db'
correct_found-Corrects link original corrected i j c a reason db s known db' log p q =
    subst₂
      (λ i j.
        correct_rows link original corrected i j c a reason db ≡ ok (s, known, db')
        → Corrects i j db s known db')
      p q (correct_rows-Corrects link original corrected c a reason db log)

-- A correction that was not recorded before keeps the log: the original was cancelled and is
-- corrected now, as answered, and the replacement is still issued. A repeated one changes nothing.
pub correct_invoice-IsLog :
    (i j c a : ℕ) (reason : Text) (db : Db) {s : State} {known : Bool} {db' : Db}
    → IsLog db.events
    → correct_invoice i j c a reason db ≡ ok (s, known, db')
    → (s ≡ State.corrected)
      × IsLog db'.events
      × (((known ≡ true) × (db' ≡ db))
          ⊎ ((known ≡ false)
              × (current_state db.events i ≡ State.cancelled)
              × (current_state db'.events i ≡ s)
              × (current_state db'.events j ≡ State.issued)))
unfolding correct_invoice
correct_invoice-IsLog i j c a reason db {s} {known} {db'} log h =
    elim (Result-cases (issued_invoice db i c)) [
      | inl (e, missing) ↦ ground arith
      | inr (original, found) ↦ elim (Result-cases (issued_invoice db j c)) [
        | inl (e, missing) ↦ ground arith
        | inr (corrected, found') ↦ ground (
          arith,
          correct_found-Corrects (find (linked i j) db.corrections) original corrected i j c a
              reason db s known db' log (issued_invoice-id db i c found)
              (issued_invoice-id db j c found'),
        )
      ]
    ]
