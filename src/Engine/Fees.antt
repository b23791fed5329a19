-- ===== src/Engine/Fees.antt =====
-- billing_engine.py and billing_approval.py: the fees of a priced split are those of its charges.
use openleg.Prelude.{ℕ, ◌≡◌, refl, ap, Bool, true, false, List, [], ◌∷◌, All, all, arith, ==_refl}
use openleg.Approval.Totals.{Totals, agrees}
use openleg.Engine.Loop.{Distinct, Apart, charged, with_fee, after_consumers}

agrees-skip :
    (p k : ℕ) (rows xs : List (ℕ × ℕ))
    → Apart p xs
    → all (agrees ((p, k) ∷ rows)) xs ≡ all (agrees rows) xs
agrees-skip p k rows [] a = refl
agrees-skip p k rows ((q, l) ∷ xs) (a, rest) = ground (arith, agrees-skip p k rows xs rest)

-- A table with one row for each participant agrees with itself.
pub Distinct-agrees : (rows : List (ℕ × ℕ)) → Distinct rows → all (agrees rows) rows ≡ true
Distinct-agrees [] d = refl
Distinct-agrees ((p, k) ∷ rows) (a, d) =
    ground (arith, agrees-skip p k rows rows a, Distinct-agrees rows d, ==_refl p, ==_refl k)

-- No participant of the rows is in the table.
abbrev NoneIn : List (ℕ × ℕ) → List (ℕ × ℕ) → Type 0
NoneIn rows table = All (λ r. Apart r.0 table) rows

NoneIn-cons :
    (p k : ℕ) (rows table : List (ℕ × ℕ))
    → Apart p rows
    → NoneIn rows table
    → NoneIn rows ((p, k) ∷ table)
NoneIn-cons p k [] table a n = tt
NoneIn-cons p k (r ∷ rows) table (a, rest) (n, ns) =
    ((ground arith, n), NoneIn-cons p k rows table rest ns)

-- The charges that the approval collects have one row for each participant.
pub after_consumers-Distinct :
    (has_fee : Bool) (price : ℕ) (rows : List (ℕ × ℕ)) (t : Totals)
    → Distinct rows
    → NoneIn rows t.consumption_kwh
    → Distinct t.consumption_kwh
    → Distinct (after_consumers has_fee price rows t).consumption_kwh
after_consumers-Distinct has_fee price [] t d n c = c
after_consumers-Distinct true price ((p, q) ∷ rows) t (a, d) (n, ns) c =
    after_consumers-Distinct true price rows (with_fee (p, q) (charged price (p, q) t)) d
      (NoneIn-cons p q rows t.consumption_kwh a ns) (n, c)
after_consumers-Distinct false price ((p, q) ∷ rows) t (a, d) (n, ns) c =
    after_consumers-Distinct false price rows (charged price (p, q) t) d
      (NoneIn-cons p q rows t.consumption_kwh a ns) (n, c)

-- With fees, each charge has its fee.
pub after_consumers-fees :
    (price : ℕ) (rows : List (ℕ × ℕ)) (t : Totals)
    → t.settlement_quantities ≡ t.consumption_kwh
    → (after_consumers true price rows t).settlement_quantities
      ≡ (after_consumers true price rows t).consumption_kwh
after_consumers-fees price [] t h = h
after_consumers-fees price (r ∷ rows) t h =
    after_consumers-fees price rows (with_fee r (charged price r t)) (ap (λ kwhs. r ∷ kwhs) h)

-- Without fees there are none.
pub after_consumers-no_fees :
    (price : ℕ) (rows : List (ℕ × ℕ)) (t : Totals)
    → (after_consumers false price rows t).settlement_quantities ≡ t.settlement_quantities
after_consumers-no_fees price [] t = refl
after_consumers-no_fees price (r ∷ rows) t = after_consumers-no_fees price rows (charged price r t)

pub NoneIn-empty : (rows : List (ℕ × ℕ)) → NoneIn rows []
NoneIn-empty [] = tt
NoneIn-empty (r ∷ rows) = (tt, NoneIn-empty rows)
