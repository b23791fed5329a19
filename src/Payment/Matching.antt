-- ===== src/Payment/Matching.antt =====
-- What a decision of `match_payment` tells about the invoices.
use openleg.Prelude.{
  ◌≡◌, refl, Bool, true, false, List, [], ◌∷◌, select, arith, &&_parts, some, ℕ, not,
}
use openleg.Prelude.Int.{eq_of_not_ltb}
use openleg.Prelude.Text.{codes, eq_of_text_eq, text_eq, is_empty}
use openleg.Lifecycle.{State}
use openleg.Invoices.State.{PaymentEntry, Decision}
use openleg.Payment.{
  Unicode, Candidate, payment_eligibility, classify, is_candidate, match_payment,
  normalised_reference,
}

-- What makes an entry pay an invoice: an incoming amount in francs, not reversed, that equals the
-- gross amount of a delivered invoice.
pub record Pays (entry : PaymentEntry) (c : Candidate) : Type 0 where
  pub not_reversed : entry.is_reversal ≡ false
  pub incoming : entry.credit_debit_indicator ≡ codes "CRDT"
  pub in_francs : entry.currency ≡ codes "CHF"
  pub exact : entry.amount ≡ c.invoice.gross_chf
  pub is_delivered : c.lifecycle_state ≡ State.delivered

-- An accepted payment pays the invoice.
pub payment_eligibility-Pays :
    (entry : PaymentEntry) (c : Candidate)
    → payment_eligibility entry c ≡ Decision.matched
    → Pays entry c
unfolding payment_eligibility
payment_eligibility-Pays entry c h = ground (
  arith,
  eq_of_text_eq entry.credit_debit_indicator (codes "CRDT"),
  eq_of_text_eq entry.currency (codes "CHF"),
  eq_of_not_ltb entry.amount c.invoice.gross_chf,
)

classified :
    (entry : PaymentEntry) (cs : List Candidate) (i : ℕ)
    → classify entry cs ≡ record { decision = Decision.matched; invoice_id = some i }
    → (c : Candidate) × (cs ≡ c ∷ [])
      × (c.invoice.id ≡ i)
      × (payment_eligibility entry c ≡ Decision.matched)
unfolding classify
classified entry [] i h = ground arith
classified entry (c ∷ []) i h = (c, refl, ground arith, ground arith)
classified entry (c ∷ d ∷ cs) i h = ground arith

select-one : {A : Type 0} (p : A → Bool) (xs : List A) (x : A) → select p xs ≡ x ∷ [] → p x ≡ true
select-one p [] x h = ground arith
select-one p (y ∷ ys) x h = ground (arith, select-one p ys x)

-- A match names the only invoice whose number is the reference of the entry, up to case and
-- punctuation, and the entry pays that invoice.
pub match_payment-Pays :
    (u : Unicode) (entry : PaymentEntry) (invoices : List Candidate) (i : ℕ)
    → match_payment u entry invoices ≡ record { decision = Decision.matched; invoice_id = some i }
    → (c : Candidate) × (select (is_candidate u entry) invoices ≡ c ∷ [])
      × (c.invoice.id ≡ i)
      × (normalised_reference u c.invoice.invoice_number
          ≡ normalised_reference u entry.payment_reference)
      × Pays entry c
unfolding match_payment is_candidate
match_payment-Pays u entry invoices i h =
    let (c, one, named, fits) = classified entry (select (is_candidate u entry) invoices) i h in
    let number = normalised_reference u c.invoice.invoice_number in
    let reference = normalised_reference u entry.payment_reference in
    let test = select-one (is_candidate u entry) invoices c one in
    (
      c,
      one,
      named,
      eq_of_text_eq number reference
          (&&_parts (not (is_empty reference)) (text_eq number reference) test).1,
      payment_eligibility-Pays entry c fits,
    )
