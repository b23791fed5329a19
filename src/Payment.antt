-- ===== src/Payment.antt =====
-- payment_reconciliation.py: how a bank entry is matched to the issued invoices. The character
-- tables of `str.upper` and `str.isalnum` are parameters; amounts are integers at the scale of
-- the stored decimals.
pub mod Matching
mod Tests
use openleg.Prelude.{
  ℕ, Bool, true, false, ◌&&◌, ◌||◌, not, Option, none, some, List, [], ◌∷◌, ◌++◌, select,
  if◌then◌else◌,
}
use openleg.Prelude.Int.{ℤ, ltb_ℤ}
use openleg.Prelude.Text.{Text, codes, text_eq, is_empty}
use openleg.Lifecycle.{State}
use openleg.Invoices.State.{Invoice, PaymentEntry, Decision}

pub record Unicode : Type 0 where
  pub upper : ℕ → Text
  pub is_alnum : ℕ → Bool

-- An invoice row with its lifecycle state.
pub record Candidate : Type 0 where
  pub invoice : Invoice
  pub lifecycle_state : State

pub record MatchDecision : Type 0 where
  pub decision : Decision
  pub invoice_id : Option ℕ

module _ (u : Unicode) where
  upper_text : Text → Text
  upper_text [] = []
  upper_text (c ∷ s) = u.upper c ++ upper_text s

  -- `_normalised_reference`
  unfoldable pub normalised_reference : Text → Text
  unfolding upper_text
  normalised_reference s = select u.is_alnum (upper_text s)

abbrev pub is_delivered_state : State → Bool
is_delivered_state State.delivered = true
is_delivered_state _ = false

-- `payment_eligibility`
unfoldable pub payment_eligibility : PaymentEntry → Candidate → Decision
payment_eligibility entry c =
    if entry.is_reversal
    then Decision.reversal
    else if not (text_eq entry.credit_debit_indicator (codes "CRDT"))
        || not (text_eq entry.currency (codes "CHF"))
    then Decision.mismatch
    else if ltb_ℤ entry.amount c.invoice.gross_chf
    then Decision.split_payment
    else if ltb_ℤ c.invoice.gross_chf entry.amount
    then Decision.overpayment
    else if not (is_delivered_state c.lifecycle_state)
    then Decision.mismatch
    else Decision.matched

abbrev no_match : Decision → MatchDecision
no_match d = record { decision = d; invoice_id = none }

abbrev match_of : Decision → Candidate → MatchDecision
match_of d c = record { decision = d; invoice_id = some c.invoice.id }

-- The decision on the invoices whose number fits the reference.
unfoldable pub classify : PaymentEntry → List Candidate → MatchDecision
unfolding payment_eligibility
classify entry [] =
    if entry.is_reversal then no_match Decision.reversal else no_match Decision.unmatched
classify entry (c ∷ []) =
    if entry.is_reversal
    then match_of Decision.reversal c
    else match_of (payment_eligibility entry c) c
classify entry (c ∷ d ∷ cs) =
    if entry.is_reversal then no_match Decision.reversal else no_match Decision.ambiguous

module _ (u : Unicode) where
  -- The test on an invoice: its number and the reference agree up to case and punctuation.
  unfoldable pub is_candidate : PaymentEntry → Candidate → Bool
  unfolding normalised_reference
  is_candidate entry c =
      not (is_empty (normalised_reference u entry.payment_reference))
      && text_eq (normalised_reference u c.invoice.invoice_number)
          (normalised_reference u entry.payment_reference)

  -- `match_payment`
  unfoldable pub match_payment : PaymentEntry → List Candidate → MatchDecision
  unfolding is_candidate classify
  match_payment entry invoices = classify entry (select (is_candidate entry) invoices)
