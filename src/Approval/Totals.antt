-- ===== src/Approval/Totals.antt =====
-- billing_approval.py, `_require_wellformed_line_items` and `_require_rounding_adjustment`. The rows
-- that the loop collects stand newest first.
use openleg.Prelude.{
  ℕ, ◌+◌, ◌-◌, ◌*◌, ◌==◌, Bool, ◌&&◌, not, Option, none, some, List, [], ◌∷◌, any, all,
  if◌then◌else◌, ltb, Result, ok, err, ◌>>=◌, ◌>>◌, raise_if, option_eq,
}
use openleg.Prelude.Int.{ℤ, pos, ltb_ℤ, eq_ℤ, ◌+ℤ◌, ◌-ℤ◌, abs_ℤ}
use openleg.Approval.Lines.{ItemType, type_eq, Item, Error, validated_line_item}

-- The variables of the loop.
pub record Totals : Type 0 where
  pub consumption_kwh : List (ℕ × ℕ)
  pub production_kwh : List (ℕ × ℕ)
  pub settlement_quantities : List (ℕ × ℕ)
  pub rounding_items : List (ℕ × ℤ)
  pub non_rounding_total : ℤ
  pub consumer_count : ℕ
  pub producer_count : ℕ
  pub consumer_qty_total : ℕ
  pub producer_qty_total : ℕ
  pub seen_non_rounding_keys : List (ℕ × ItemType)

abbrev pub no_totals : Totals
no_totals = record {
  consumption_kwh = [];
  production_kwh = [];
  settlement_quantities = [];
  rounding_items = [];
  non_rounding_total = pos 0;
  consumer_count = 0;
  producer_count = 0;
  consumer_qty_total = 0;
  producer_qty_total = 0;
  seen_non_rounding_keys = [];
}

abbrev pub is_seen : ℕ → ItemType → List (ℕ × ItemType) → Bool
is_seen participant type = any (λ k. k.0 == participant && type_eq k.1 type)

-- One round of the loop behind `_validated_line_item`. A participant has no entry in a dictionary
-- yet, since its key was not seen.
unfoldable pub add_line : ItemType → ℕ → ℤ → Option ℕ → Totals → Result Error Totals
add_line ItemType.rounding_adjustment participant amount quantity t =
    ok (record t { rounding_items = (participant, amount) ∷ t.rounding_items })
add_line ItemType.battery_cost_share participant amount quantity t = ok t
add_line type participant amount none t = err Error.invalid_quantity
add_line ItemType.consumer_charge participant amount (some quantity) t = do
  raise_if (is_seen participant ItemType.consumer_charge t.seen_non_rounding_keys)
      Error.duplicate_item
  raise_if (ltb_ℤ amount (pos 0)) Error.negative_charge
  ok (record t {
    seen_non_rounding_keys = (participant, ItemType.consumer_charge) ∷ t.seen_non_rounding_keys;
    consumption_kwh = (participant, quantity) ∷ t.consumption_kwh;
    consumer_count = t.consumer_count + 1;
    consumer_qty_total = t.consumer_qty_total + quantity;
    non_rounding_total = t.non_rounding_total +ℤ amount;
  })
add_line ItemType.settlement_fee participant amount (some quantity) t = do
  raise_if (is_seen participant ItemType.settlement_fee t.seen_non_rounding_keys)
      Error.duplicate_item
  raise_if (ltb_ℤ amount (pos 0)) Error.negative_fee
  ok (record t {
    seen_non_rounding_keys = (participant, ItemType.settlement_fee) ∷ t.seen_non_rounding_keys;
    settlement_quantities = (participant, quantity) ∷ t.settlement_quantities;
  })
add_line ItemType.producer_credit participant amount (some quantity) t = do
  raise_if (is_seen participant ItemType.producer_credit t.seen_non_rounding_keys)
      Error.duplicate_item
  raise_if (ltb_ℤ (pos 0) amount) Error.positive_credit
  ok (record t {
    seen_non_rounding_keys = (participant, ItemType.producer_credit) ∷ t.seen_non_rounding_keys;
    production_kwh = (participant, quantity) ∷ t.production_kwh;
    producer_count = t.producer_count + 1;
    producer_qty_total = t.producer_qty_total + quantity;
    non_rounding_total = t.non_rounding_total +ℤ amount;
  })

-- The loop over the items.
unfoldable pub add_items : ℕ → ℕ → List Item → Totals → Result Error Totals
unfolding add_line
add_items internal_price fee [] t = ok t
add_items internal_price fee (item ∷ items) t = do
  (amount, quantity) ← validated_line_item item internal_price fee
  t' ← add_line item.item_type item.participant_id amount quantity t
  add_items internal_price fee items t'

-- `abs(a - b)`
abbrev pub distance : ℕ → ℕ → ℕ
distance a b = (a - b) + (b - a)

abbrev pub quantity_mismatch : Totals → ℕ
quantity_mismatch t = distance t.consumer_qty_total t.producer_qty_total

abbrev pub non_rounding_count : Totals → ℕ
non_rounding_count t = t.consumer_count + t.producer_count

abbrev pub lookup_kwh : ℕ → List (ℕ × ℕ) → Option ℕ
lookup_kwh p [] = none
lookup_kwh p ((q, kwh) ∷ rows) = let rest = lookup_kwh p rows in if q == p then some kwh else rest

abbrev pub agrees : List (ℕ × ℕ) → ℕ × ℕ → Bool
agrees rows (p, kwh) = option_eq ◌==◌ (lookup_kwh p rows) (some kwh)

-- The checks of the settlement fee.
unfoldable pub require_fees : ℕ → Totals → Result Error (Unit {0})
require_fees fee t =
    if fee == 0
    then elim t.settlement_quantities [ [] ↦ ok tt | _ ↦ err Error.unexpected_fee ]
    else do
      raise_if (not (all (agrees t.consumption_kwh) t.settlement_quantities)) Error.other_fee_energy
      raise_if (not (all (agrees t.settlement_quantities) t.consumption_kwh)) Error.missing_fee

-- `min(producer_ids)`
abbrev pub smallest : ℕ → List (ℕ × ℕ) → ℕ
smallest p [] = p
smallest p ((q, kwh) ∷ rows) = smallest (if ltb q p then q else p) rows

-- `_require_rounding_adjustment`. The bound stands at the scale of quantity times price.
unfoldable pub require_rounding_adjustment : ℕ → List (ℕ × ℤ) → ℤ → ℕ → Result Error (Unit {0})
require_rounding_adjustment producer [] total max_rounding_abs =
    if eq_ℤ total (pos 0) then ok tt else err Error.not_one_rounding
require_rounding_adjustment producer ((p, amount) ∷ []) total max_rounding_abs = do
  raise_if (eq_ℤ total (pos 0)) Error.needless_rounding
  raise_if (not (p == producer)) Error.other_rounding_participant
  raise_if (ltb max_rounding_abs (abs_ℤ amount * 1_000_000)) Error.rounding_too_large
  raise_if (not (eq_ℤ amount (pos 0 -ℤ total))) Error.other_rounding
require_rounding_adjustment producer (r ∷ s ∷ rs) total max_rounding_abs =
    if eq_ℤ total (pos 0) then err Error.needless_rounding else err Error.not_one_rounding

-- The end of `_require_wellformed_line_items`.
unfoldable pub require_rounding : ℕ → List (ℕ × ℕ) → Totals → Result Error (Unit {0})
unfolding require_rounding_adjustment
require_rounding internal_price [] t = elim t.rounding_items [
  | [] ↦ ok tt
  | _ ↦ err Error.rounding_without_credit
]
require_rounding internal_price ((p, kwh) ∷ rows) t =
    require_rounding_adjustment (smallest p rows) t.rounding_items t.non_rounding_total
      (quantity_mismatch t * internal_price + 500_000 * non_rounding_count t)

-- The checks after the loop.
unfoldable pub require_totals : ℕ → ℕ → Totals → Result Error (Unit {0})
require_totals internal_price fee t = do
  raise_if (ltb (non_rounding_count t) (2 * quantity_mismatch t)) Error.unbalanced_energy
  require_fees fee t
  require_rounding internal_price t.production_kwh t

-- `_require_wellformed_line_items`
unfoldable pub require_wellformed_line_items : List Item → ℕ → ℕ → Result Error Totals
unfolding require_totals require_fees require_rounding
require_wellformed_line_items [] internal_price fee = err Error.no_items
require_wellformed_line_items (i ∷ is) internal_price fee = do
  t ← add_items internal_price fee (i ∷ is) no_totals
  require_totals internal_price fee t
  ok t
