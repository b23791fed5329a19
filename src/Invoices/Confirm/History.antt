-- ===== src/Invoices/Confirm/History.antt =====
-- What a confirmed payment writes to the history of the invoices.
use mathlib.Core.Path.{subst}
use openleg.Prelude.{
  ℕ, ◌==◌, ◌≡◌, refl, sym, ap, true, false, ◌&&◌, Option, none, some, arith, Bool-cases,
  Option-cases, Result-cases, inl, inr, ◌⊎◌, find, find_test, ok,
}
use openleg.Lifecycle.{State}
use openleg.Invoices.State.{
  Key, Invoice, LockedInvoice, StatementEntry, Confirmation, Db, current_state, locked_invoice,
}
use openleg.Invoices.Bank.{finalize_bank_payment}
use openleg.Invoices.Bank.History.{Paid, finalize_bank_payment-Paid}
use openleg.Invoices.Transitions.{event_with}
use openleg.Invoices.Confirm.{
  decide_entry, is_reviewable, confirm_entry, confirm_open, confirm_fresh, confirm_payment, replay,
}
use openleg.Invoices.Log.{IsLog}
use openleg.Payment.{Candidate}
use openleg.Payment.Matching.{Pays, payment_eligibility-Pays}

locked_invoice-id :
    (db : Db) (i c : ℕ) {l : LockedInvoice} → locked_invoice db i c ≡ ok l → l.invoice.id ≡ i
unfolding locked_invoice
locked_invoice-id db i c {l} h =
    let p = λ (x : Invoice). x.id == i && x.community_id == c && x.is_issued in
    elim (Option-cases (find p db.invoices)) [
      | inl missing ↦ ground arith
      | inr (x, e) ↦
          let same : x ≡ l.invoice = ground arith in
          let passed = find_test p db.invoices e in ground arith
    ]

-- The invoice as the reviewer's payment meets it.
abbrev pub candidate_of : LockedInvoice → ℕ → Db → Candidate
candidate_of l i db = record { invoice = l.invoice; lifecycle_state = current_state db.events i }

-- A payment that was accepted, with the answer that names the entry.
abbrev pub Accepted : StatementEntry → ℕ → ℕ → Db → Option Confirmation → Db → Type 0
Accepted row i c db o db' =
    IsLog db'.events
    × (current_state db.events i ≡ State.delivered)
    × (current_state db'.events i ≡ State.paid)
    × ((l : LockedInvoice) × (locked_invoice db i c ≡ ok l) × Pays row.entry (candidate_of l i db))
    × ((r : Confirmation) × (o ≡ some r) × (r.id ≡ row.id))

finalized-Paid :
    (row : StatementEntry) (l : LockedInvoice) (i c a key : ℕ) (db : Db) (s : State) (paid : Db)
    → IsLog db.events
    → locked_invoice db i c ≡ ok l
    → finalize_bank_payment
        (candidate_of l i db)
        row.entry
        c
        a
        (Key.operator key)
        (decide_entry row.id i db)
      ≡ ok (s, paid)
    → Paid i (decide_entry row.id i db) paid
unfolding decide_entry
finalized-Paid row l i c a key db s paid log found h =
    let same = locked_invoice-id db i c found in
    subst (λ i. Paid i (decide_entry row.id i db) paid) same
      (subst (λ j. Paid l.invoice.id (decide_entry row.id j db) paid) (sym same)
        (finalize_bank_payment-Paid (candidate_of l i db) row.entry c a (Key.operator key)
          (decide_entry row.id i db) s paid log (ap (current_state db.events) (sym same)) refl h).1)

confirm_entry-Accepted :
    (row : StatementEntry) (i c a key : ℕ) (db : Db) (o : Option Confirmation) (db' : Db)
    → IsLog db.events
    → confirm_entry row i c a key db ≡ ok (o, db')
    → Accepted row i c db o db'
unfolding confirm_entry decide_entry
confirm_entry-Accepted row i c a key db o db' log h = elim (Result-cases (locked_invoice db i c)) [
  | inl (refused, e) ↦ ground arith
  | inr (l, found) ↦
      elim (Result-cases (
        finalize_bank_payment (candidate_of l i db) row.entry c a (Key.operator key)
          (decide_entry row.id i db))) [
            | inl (refused, e) ↦ ground arith
            | inr ((s, paid), e) ↦
                let kept = finalized-Paid row l i c a key db s paid log found e in
                elim (Option-cases (event_with (Key.operator key) i paid.events)) [
                  | inl missing ↦ ground arith
                  | inr (t, written) ↦
                      let pays =
                        payment_eligibility-Pays row.entry (candidate_of l i db) (ground arith) in
                      (
                        ground arith,
                        kept.before,
                        ground arith,
                        (l, found, pays),
                        (
                          record { id = row.id; transition_id = t.id; replayed = false },
                          ground arith,
                          refl,
                        ),
                      )
                ]
          ]
]

-- What a call does: it answers without a change, or it accepts a reviewable entry of the community.
abbrev pub Confirmed : ℕ → ℕ → ℕ → Db → Option Confirmation → Db → Type 0
Confirmed entry_id i c db o db' =
    (db' ≡ db)
    ⊎ ((row : StatementEntry) × (find
            (λ (e : StatementEntry). e.id == entry_id && e.community_id == c) db.entries
          ≡ some row)
        × (is_reviewable row.match_decision ≡ true)
        × Accepted row i c db o db')

confirm_open-Confirmed :
    (row : Option StatementEntry) (entry_id i c a key : ℕ) (db : Db) (o : Option Confirmation)
    (db' : Db)
    → IsLog db.events
    → find (λ (e : StatementEntry). e.id == entry_id && e.community_id == c) db.entries ≡ row
    → confirm_open row i c a key db ≡ ok (o, db')
    → Confirmed entry_id i c db o db'
unfolding confirm_open
confirm_open-Confirmed none entry_id i c a key db o db' log f h = inl (ground arith)
confirm_open-Confirmed (some row) entry_id i c a key db o db' log f h =
    elim (Bool-cases (is_reviewable row.match_decision)) [
      | inl t ↦ inr (row, f, t, confirm_entry-Accepted row i c a key db o db' log (ground arith))
      | inr t ↦ inl (ground arith)
    ]

-- A confirmation changes nothing, or it accepts an entry of the community that the import left
-- open: the entry pays the invoice exactly, which was delivered and is paid now.
pub confirm_payment-Confirmed :
    (entry_id i c a key : ℕ) (db : Db) {o : Option Confirmation} {db' : Db}
    → IsLog db.events
    → confirm_payment entry_id i c a key db ≡ ok (o, db')
    → Confirmed entry_id i c db o db'
unfolding confirm_payment confirm_fresh
confirm_payment-Confirmed entry_id i c a key db {o} {db'} log h =
    elim (Result-cases (replay c entry_id key i db.remembered)) [
      | inl (refused, e) ↦ inl (ground arith)
      | inr (known, e) ↦ elim (Option-cases known) [
        | inl fresh ↦ confirm_open-Confirmed _ entry_id i c a key db o db' log refl (ground arith)
        | inr (r, old) ↦ inl (ground arith)
      ]
    ]
