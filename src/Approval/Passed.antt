-- ===== src/Approval/Passed.antt =====
-- billing_approval.py: what a line, and a draft, has passed when `_require_wellformed_line_items`
-- accepts it.
use openleg.Prelude.{
  ℕ, ◌*◌, ◌≡◌, sym, ◌∙◌, ap, ltb, false, inl, inr, Option, some, List, [], ◌∷◌, arith, ok, ◌>>=◌,
  or_raise, Result-cases, Bool-cases, bind_ok, or_raise-ok,
}
use mathlib.Core.Path.{subst}
use openleg.Prelude.Int.{ℤ}
use openleg.Approval.Lines.{ItemType, Item, Error, validated_by, validated_line_item, priced_item}
use openleg.Approval.Totals.{
  Totals, no_totals, add_line, add_items, require_totals, quantity_mismatch, non_rounding_count,
  require_rounding, require_wellformed_line_items, require_fees,
}

priced_item-amount :
    (type : ItemType) (item : Item) (amount : ℤ) (price : ℕ) {a : ℤ} {quantity : Option ℕ}
    → priced_item type item amount price ≡ ok (a, quantity)
    → a ≡ amount
unfolding priced_item
priced_item-amount type item amount price h = ground arith

validated_by-amount :
    (type : ItemType) (item : Item) (amount : ℤ) (price fee : ℕ) {a : ℤ} {quantity : Option ℕ}
    → validated_by type item amount price fee ≡ ok (a, quantity)
    → a ≡ amount
unfolding validated_by
validated_by-amount ItemType.rounding_adjustment item amount price fee h = ground arith
validated_by-amount ItemType.battery_cost_share item amount price fee h = ground arith
validated_by-amount ItemType.settlement_fee item amount price fee h =
    priced_item-amount ItemType.settlement_fee item amount fee h
validated_by-amount ItemType.consumer_charge item amount price fee h =
    priced_item-amount ItemType.consumer_charge item amount price h
validated_by-amount ItemType.producer_credit item amount price fee h =
    priced_item-amount ItemType.producer_credit item amount price h

-- A line is accepted with its own amount.
pub validated_line_item-amount :
    (item : Item) (price fee : ℕ) {amount : ℤ} {quantity : Option ℕ}
    → validated_line_item item price fee ≡ ok (amount, quantity)
    → item.amount_chf ≡ some amount
unfolding validated_line_item
validated_line_item-amount item price fee h =
    let (a, e, h') =
      bind_ok (or_raise item.amount_chf Error.invalid_amount)
        (λ amount. validated_by item.item_type item amount price fee) h in
    or_raise-ok item.amount_chf Error.invalid_amount e
    ∙ ap some (sym (validated_by-amount item.item_type item a price fee h'))

-- A list that passes: its first line, then the others.
pub add_items-step :
    (price fee : ℕ) (item : Item) (items : List Item) (t : Totals) {t' : Totals}
    → add_items price fee (item ∷ items) t ≡ ok t'
    → (amount : ℤ) × (quantity : Option ℕ) × (t1 : Totals) × (validated_line_item item price fee
        ≡ ok (amount, quantity))
      × (add_line item.item_type item.participant_id amount quantity t ≡ ok t1)
      × (add_items price fee items t1 ≡ ok t')
unfolding add_items
add_items-step price fee item items t h =
    let ((amount, quantity), e, h1) =
      bind_ok (validated_line_item item price fee)
        (λ (amount, quantity).
          add_line item.item_type item.participant_id amount quantity t
          >>= add_items price fee items)
        h in
    let (t1, e1, h2) =
      bind_ok (add_line item.item_type item.participant_id amount quantity t)
        (add_items price fee items) h1 in
    (amount, quantity, t1, e, e1, h2)

require_totals-parts :
    (price fee : ℕ) (t : Totals)
    → require_totals price fee t ≡ ok tt
    → (ltb (non_rounding_count t) (2 * quantity_mismatch t) ≡ false)
      × (require_fees fee t ≡ ok tt)
      × (require_rounding price t.production_kwh t ≡ ok tt)
unfolding require_totals
require_totals-parts price fee t h =
    elim (Bool-cases (ltb (non_rounding_count t) (2 * quantity_mismatch t))) [
      | inl e ↦ ground arith
      | inr e ↦ elim (Result-cases (require_fees fee t)) [
        | inl (x, f) ↦ ground arith
        | inr (u, f) ↦ (e, f, ground arith)
      ]
    ]

-- The checks that a draft has passed.
pub wellformed-parts :
    (items : List Item) (price fee : ℕ) {t : Totals}
    → require_wellformed_line_items items price fee ≡ ok t
    → (add_items price fee items no_totals ≡ ok t)
      × (ltb (non_rounding_count t) (2 * quantity_mismatch t) ≡ false)
      × (require_fees fee t ≡ ok tt)
      × (require_rounding price t.production_kwh t ≡ ok tt)
unfolding require_wellformed_line_items
wellformed-parts [] price fee h = ground arith
wellformed-parts (i ∷ is) price fee {t} h =
    elim (Result-cases (add_items price fee (i ∷ is) no_totals)) [
      | inl (x, e) ↦ ground arith
      | inr (t0, e) ↦ elim (Result-cases (require_totals price fee t0)) [
        | inl (x, f) ↦ ground arith
        | inr (u, f) ↦
            let same : t0 ≡ t = ground arith in
            let (energy, fees, rounding) =
              require_totals-parts price fee t
                (subst (λ t. require_totals price fee t ≡ ok tt) same f) in
            (e ∙ ap ok same, energy, fees, rounding)
      ]
    ]
