-- ===== src/Payment/Tests.antt =====
-- The theorem on matches at a concrete entry.
use openleg.Prelude.{◌≡◌, refl, select, [], ◌∷◌, List}
use openleg.Prelude.Text.{codes}
use openleg.Lifecycle.{State}
use openleg.Invoices.Scene.{ascii, invoice_of, entry_of}
use openleg.Payment.{Candidate, is_candidate, normalised_reference, match_payment}
use openleg.Payment.Matching.{Pays, match_payment-Pays}

abbrev two_invoices : List Candidate
two_invoices =
    record { invoice = invoice_of 1 (codes "R-1"); lifecycle_state = State.delivered }
    ∷ record { invoice = invoice_of 2 (codes "R-2"); lifecycle_state = State.issued }
    ∷ []

match_payment-Pays_example :
    (c : Candidate) × (select (is_candidate ascii (entry_of (codes "r 1"))) two_invoices ≡ c ∷ [])
    × (c.invoice.id ≡ 1)
    × (normalised_reference ascii c.invoice.invoice_number
        ≡ normalised_reference ascii (codes "r 1"))
    × Pays (entry_of (codes "r 1")) c
unfolding match_payment
match_payment-Pays_example = match_payment-Pays ascii (entry_of (codes "r 1")) two_invoices 1 refl
