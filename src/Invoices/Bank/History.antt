-- ===== src/Invoices/Bank/History.antt =====
-- What bank payments write to the history of the invoices.
use openleg.Prelude.{
  ℕ, ◌==◌, ==_iff, ◌≡◌, refl, sym, ap, ◌∙◌, Bool, true, false, some, List, [], ◌∷◌, arith,
  Bool-cases, Option-cases, Result-cases, inl, inr, find, find_test, All, All-find, ok,
  if◌then◌else◌,
}
use mathlib.Core.Path.{subst}
use openleg.Lifecycle.{State, next_state}
use openleg.Lifecycle.Rules.{reaches}
use openleg.Invoices.State.{
  EventType, Key, InvoiceEvent, PaymentEntry, Db, current_state, append_invoice_event,
}
use openleg.Invoices.Bank.{
  finalize_bank_payment, paid_event, set_state, insert_entry, pay_matched, is_matched,
  reconcile_entry, reconcile_entries,
}
use openleg.Invoices.Log.{
  follows, key_state, IsLog, append_invoice_event-IsLog, append_invoice_event-current_state,
  append_invoice_event-others,
}
use openleg.Payment.{Unicode, Candidate, MatchDecision, match_payment}

-- The states that the loop holds are those of the log.
abbrev pub Agree : List Candidate → List InvoiceEvent → Type 0
Agree cs es = All (λ c. c.lifecycle_state ≡ current_state es c.invoice.id) cs

-- A payment of one invoice: the log is kept, the invoice is paid, the others keep their states.
pub record Paid (i : ℕ) (db db' : Db) : Type 0 where
  pub log : IsLog db'.events
  pub before : current_state db.events i ≡ State.delivered
  pub after : current_state db'.events i ≡ State.paid
  pub others : (j : ℕ) → (i == j) ≡ false → current_state db'.events j ≡ current_state db.events j
  pub imports : db'.imports ≡ db.imports

append_invoice_event-imports :
    (e : InvoiceEvent) (db : Db) → (append_invoice_event e db).imports ≡ db.imports
unfolding append_invoice_event
append_invoice_event-imports e db = ground arith

finalize_bank_payment_lem :
    (c : Candidate) (entry : PaymentEntry) (community_id actor_id : ℕ) (key : Key) (db : Db)
    (s : State) (db' : Db)
    → finalize_bank_payment c entry community_id actor_id key db ≡ ok (s, db')
    → (c.lifecycle_state ≡ State.delivered)
      × (s ≡ State.paid)
      × (db' ≡ append_invoice_event (paid_event c entry community_id actor_id key State.paid) db)
unfolding finalize_bank_payment next_state
finalize_bank_payment_lem c entry community_id actor_id key db s db' h = ground arith

paid_event-Paid :
    (c : Candidate) (entry : PaymentEntry) (community_id actor_id : ℕ) (key : Key) (db : Db)
    → IsLog db.events
    → c.lifecycle_state ≡ current_state db.events c.invoice.id
    → c.lifecycle_state ≡ State.delivered
    → key_state key ≡ some State.paid
    → Paid c.invoice.id db
        (append_invoice_event (paid_event c entry community_id actor_id key State.paid) db)
paid_event-Paid c entry community_id actor_id key db log agree d k =
    let e = paid_event c entry community_id actor_id key State.paid in
    record {
      log =
          append_invoice_event-IsLog e db log agree
            (ap (λ s. follows EventType.paid s State.paid) d) (rw k refl);
      before = sym agree ∙ d;
      after =
          append_invoice_event-current_state e db log agree k (ap (λ s. reaches State.paid s) d);
      others = append_invoice_event-others e db;
      imports = append_invoice_event-imports e db;
    }

-- A bank payment that is accepted pays a delivered invoice and touches no other.
pub finalize_bank_payment-Paid :
    (c : Candidate) (entry : PaymentEntry) (community_id actor_id : ℕ) (key : Key) (db : Db)
    (s : State) (db' : Db)
    → IsLog db.events
    → c.lifecycle_state ≡ current_state db.events c.invoice.id
    → key_state key ≡ some State.paid
    → finalize_bank_payment c entry community_id actor_id key db ≡ ok (s, db')
    → (s ≡ State.paid) × Paid c.invoice.id db db'
finalize_bank_payment-Paid c entry community_id actor_id key db s db' log agree k h =
    let (d, p, same) = finalize_bank_payment_lem c entry community_id actor_id key db s db' h in
    (
      p,
      subst (Paid c.invoice.id db) (sym same)
          (paid_event-Paid c entry community_id actor_id key db log agree d k),
    )

-- Setting the state of the paid row keeps the agreement.
set_state_one :
    (i : ℕ) (c : Candidate) (db db' : Db)
    → Paid i db db'
    → c.lifecycle_state ≡ current_state db.events c.invoice.id
    → let c' : Candidate =
        if c.invoice.id == i then record c { lifecycle_state = State.paid } else c in
      c'.lifecycle_state ≡ current_state db'.events c'.invoice.id
set_state_one i c db db' p a = elim (Bool-cases (c.invoice.id == i)) [
  | inl e ↦ rw e (sym (ap (current_state db'.events) ((==_iff _ _).0 e) ∙ p.after))
  | inr e ↦ rw e (a ∙ sym (p.others c.invoice.id (ground arith)))
]

set_state-Agree :
    (i : ℕ) (cs : List Candidate) (db db' : Db)
    → Paid i db db'
    → Agree cs db.events
    → Agree (set_state i State.paid cs) db'.events
set_state-Agree i [] db db' p a = tt
set_state-Agree i (c ∷ cs) db db' p a =
    (set_state_one i c db db' p a.0, set_state-Agree i cs db db' p a.1)

-- What the loop keeps.
abbrev Keeps : Db → List Candidate → Db → Type 0
Keeps db cs db' = IsLog db'.events × Agree cs db'.events × (db'.imports ≡ db.imports)

pay_found-Keeps :
    (m : MatchDecision) (c : Candidate) (entry : PaymentEntry) (i n community_id actor_id : ℕ)
    (cs : List Candidate) (db : Db) (s : State) (db' : Db)
    → IsLog db.events
    → Agree cs db.events
    → find (λ (c : Candidate). c.invoice.id == i) cs ≡ some c
    → finalize_bank_payment c entry community_id actor_id (Key.bank n entry.entry_reference) db
      ≡ ok (s, db')
    → Keeps db (set_state i s cs) db'
pay_found-Keeps m c entry i n community_id actor_id cs db s db' log agree found h =
    let same : c.invoice.id ≡ i =
      (==_iff _ _).0 (find_test (λ (c : Candidate). c.invoice.id == i) cs found) in
    let (p, paid) =
      finalize_bank_payment-Paid c entry community_id actor_id (Key.bank n entry.entry_reference) db
        s db' log
        (All-find (λ c. c.lifecycle_state ≡ current_state db.events c.invoice.id) _ cs agree found)
        refl h in
    let paid' : Paid i db db' = subst (λ i. Paid i db db') same paid in
    (
      paid'.log,
      subst (λ s. Agree (set_state i s cs) db'.events) (sym p)
          (set_state-Agree i cs db db' paid' agree),
      paid'.imports,
    )

pay_matched-Keeps :
    (b : Bool) (m : MatchDecision) (entry : PaymentEntry) (n community_id actor_id : ℕ)
    (cs : List Candidate) (db : Db) (cs' : List Candidate) (db' : Db)
    → IsLog db.events
    → Agree cs db.events
    → pay_matched b m entry n community_id actor_id cs db ≡ ok (cs', db')
    → Keeps db cs' db'
unfolding pay_matched
pay_matched-Keeps false m entry n community_id actor_id cs db cs' db' log agree h = ground arith
pay_matched-Keeps true m entry n community_id actor_id cs db cs' db' log agree h =
    elim (Option-cases m.invoice_id) [
      | inl missing ↦ ground arith
      | inr (i, e) ↦ elim (Option-cases (find (λ (c : Candidate). c.invoice.id == i) cs)) [
        | inl missing ↦ ground arith
        | inr (c, found) ↦
            elim (Result-cases (
              finalize_bank_payment c entry community_id actor_id (Key.bank n entry.entry_reference)
                db)) [
                  | inl (refused, r) ↦ ground arith
                  | inr ((s, after), paid) ↦ ground (
                    arith,
                    pay_found-Keeps m c entry i n community_id actor_id cs db s after log agree
                        found paid,
                  )
                ]
      ]
    ]

insert_entry-events :
    (n community_id : ℕ) (m : MatchDecision) (entry : PaymentEntry) (db db' : Db)
    → insert_entry n community_id m entry db ≡ ok db'
    → (db'.events ≡ db.events) × (db'.imports ≡ db.imports)
unfolding insert_entry
insert_entry-events n community_id m entry db db' h = ground arith

module _ (u : Unicode) where
  reconcile_entry-Keeps :
      (entry : PaymentEntry) (n community_id actor_id : ℕ) (cs : List Candidate) (db : Db)
      (cs' : List Candidate) (db' : Db)
      → IsLog db.events
      → Agree cs db.events
      → reconcile_entry u n community_id actor_id entry cs db ≡ ok (cs', db')
      → Keeps db cs' db'
  unfolding reconcile_entry
  reconcile_entry-Keeps entry n community_id actor_id cs db cs' db' log agree h =
      let m = match_payment u entry cs in
      elim (Result-cases
        (pay_matched (is_matched m.decision) m entry n community_id actor_id cs db)) [
          | inl (refused, r) ↦ ground arith
          | inr ((cs'', after), r) ↦ ground (
            arith,
            pay_matched-Keeps (is_matched m.decision) m entry n community_id actor_id cs db cs''
                after log agree r,
            insert_entry-events n community_id m entry after db',
          )
        ]

  pub reconcile_entries-IsLog :
      (entries : List PaymentEntry) (n community_id actor_id : ℕ) (cs : List Candidate)
      (db db' : Db)
      → IsLog db.events
      → Agree cs db.events
      → reconcile_entries u n community_id actor_id entries cs db ≡ ok db'
      → IsLog db'.events × (db'.imports ≡ db.imports)
  unfolding reconcile_entries
  reconcile_entries-IsLog [] n community_id actor_id cs db db' log agree h = ground arith
  reconcile_entries-IsLog (e ∷ es) n community_id actor_id cs db db' log agree h =
      elim (Result-cases (reconcile_entry u n community_id actor_id e cs db)) [
        | inl (refused, r) ↦ ground arith
        | inr ((cs', after), r) ↦
            let (log', agree', same) =
              reconcile_entry-Keeps e n community_id actor_id cs db cs' after log agree r in
            ground
              (arith, reconcile_entries-IsLog es n community_id actor_id cs' after db' log' agree')
      ]
