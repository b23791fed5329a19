-- ===== src/Engine/Checks.antt =====
-- billing_engine.py and billing_approval.py: the checks after the loop, on the totals of a split.
use openleg.Prelude.{
  ℕ, ◌+◌, ◌-◌, ◌*◌, ◌≤◌, ◌≡◌, refl, ap, ◌∙◌, Bool, true, false, List, [], ◌∷◌, all, ltb, arith,
  ==_refl, ok,
}
use openleg.Prelude.Int.{ℤ, pos, negsuc, eq_ℤ, ◌-ℤ◌, abs_ℤ}
use openleg.Approval.Totals.{
  Totals, no_totals, quantity_mismatch, non_rounding_count, agrees, smallest, require_fees,
  require_rounding, require_rounding_adjustment, require_totals,
}
use openleg.Engine.Loop.{Distinct, after_consumers, after_credits, eq_ℤ_refl}
use openleg.Engine.Sums.{after_credits-Produced}
use openleg.Engine.Fees.{
  Distinct-agrees, after_consumers-Distinct, after_consumers-fees, after_consumers-no_fees,
  NoneIn-empty,
}

pub fees-accepted :
    (has_fee : Bool) (c p : List (ℕ × ℕ)) (price fee : ℕ)
    → ltb 0 fee ≡ has_fee
    → Distinct c
    → require_fees fee (after_credits price p (after_consumers has_fee price c no_totals)) ≡ ok tt
unfolding require_fees
fees-accepted true c p price fee e dc =
    let t1 = after_consumers true price c no_totals in
    let t2 = after_credits price p t1 in
    let parts = after_credits-Produced price p t1 in
    let charges = parts.5 in
    let fees = parts.6 ∙ after_consumers-fees price c no_totals refl in
    let own =
      Distinct-agrees t1.consumption_kwh
        (after_consumers-Distinct true price c no_totals dc (NoneIn-empty c) tt) in
    let there : all (agrees t2.consumption_kwh) t2.settlement_quantities ≡ true =
      ap (λ l. all (agrees l) t2.settlement_quantities) charges
      ∙ ap (λ l. all (agrees t1.consumption_kwh) l) fees
      ∙ own in
    let back : all (agrees t2.settlement_quantities) t2.consumption_kwh ≡ true =
      ap (λ l. all (agrees l) t2.consumption_kwh) fees
      ∙ ap (λ l. all (agrees t1.consumption_kwh) l) charges
      ∙ own in
    ground arith
fees-accepted false c p price fee e dc =
    let t1 = after_consumers false price c no_totals in
    let none_left =
      (after_credits-Produced price p t1).6 ∙ after_consumers-no_fees price c no_totals in
    ground arith

pub abs_distance : (m n : ℕ) → abs_ℤ (pos m -ℤ pos n) ≡ (m - n) + (n - m)
unfolding ◌-ℤ◌
abs_distance m n = ground arith

pub abs_negated : (a : ℤ) → abs_ℤ (pos 0 -ℤ a) ≡ abs_ℤ a
unfolding ◌-ℤ◌
abs_negated (pos n) = ground arith
abs_negated (negsuc n) = ground arith

pub adjustment-accepted :
    (producer : ℕ) (total : ℤ) (bound : ℕ)
    → eq_ℤ total (pos 0) ≡ false
    → abs_ℤ total * 1_000_000 ≤ bound
    → require_rounding_adjustment producer ((producer, pos 0 -ℤ total) ∷ []) total bound ≡ ok tt
unfolding require_rounding_adjustment
adjustment-accepted producer total bound e b =
    ground (arith, ==_refl producer, abs_negated total, eq_ℤ_refl (pos 0 -ℤ total))

pub totals-accepted :
    (price fee : ℕ) (t : Totals)
    → t.consumer_qty_total ≡ t.producer_qty_total
    → require_fees fee t ≡ ok tt
    → require_rounding price t.production_kwh t ≡ ok tt
    → require_totals price fee t ≡ ok tt
unfolding require_totals
totals-accepted price fee t q f r = ground arith

pub no_producer-accepted :
    (price : ℕ) (rows : List (ℕ × ℕ)) (t : Totals)
    → rows ≡ []
    → t.rounding_items ≡ []
    → require_rounding price rows t ≡ ok tt
unfolding require_rounding
no_producer-accepted price rows t e r = ground arith

pub balanced-accepted :
    (price : ℕ) (rows rs : List (ℕ × ℕ)) (r : ℕ × ℕ) (t : Totals)
    → rows ≡ r ∷ rs
    → t.rounding_items ≡ []
    → eq_ℤ t.non_rounding_total (pos 0) ≡ true
    → require_rounding price rows t ≡ ok tt
unfolding require_rounding require_rounding_adjustment
balanced-accepted price rows rs r t e i z = ground arith

pub adjusted-accepted :
    (price producer : ℕ) (rows rs : List (ℕ × ℕ)) (r : ℕ × ℕ) (t : Totals)
    → rows ≡ r ∷ rs
    → smallest r.0 rs ≡ producer
    → t.rounding_items ≡ (producer, pos 0 -ℤ t.non_rounding_total) ∷ []
    → eq_ℤ t.non_rounding_total (pos 0) ≡ false
    → abs_ℤ t.non_rounding_total * 1_000_000
      ≤ quantity_mismatch t * price + 500_000 * non_rounding_count t
    → require_rounding price rows t ≡ ok tt
unfolding require_rounding
adjusted-accepted price producer rows rs r t e s i z b =
    let bound = quantity_mismatch t * price + 500_000 * non_rounding_count t in
    ap (λ l. require_rounding price l t) e
    ∙ ap (λ l. require_rounding_adjustment (smallest r.0 rs) l t.non_rounding_total bound) i
    ∙ ap
        (λ p.
          require_rounding_adjustment p ((producer, pos 0 -ℤ t.non_rounding_total) ∷ [])
            t.non_rounding_total bound)
        s
    ∙ adjustment-accepted producer t.non_rounding_total bound z b

pub fees-rounding :
    (fee : ℕ) (t : Totals) (l : List (ℕ × ℤ))
    → require_fees fee t ≡ ok tt
    → require_fees fee (record t { rounding_items = l }) ≡ ok tt
unfolding require_fees
fees-rounding fee t l h = h
