-- ===== src/Engine.antt =====
-- billing_engine.py: the line items that `_generate_billing_summary` prices from the split of the grid
-- operator, where each producer has a column. Energy, prices and amounts are numbers of millionths:
-- a float with at most six decimals is read as its decimals. An item has no id yet.
mod Loop
mod Sums
mod Fees
mod Checks
mod Accepted
mod Tests
use openleg.Prelude.{
  ℕ, suc, ◌+◌, ◌*◌, ◌==◌, Bool, true, false, not, ◌&&◌, Option, none, some, List, [], ◌∷◌, ◌++◌,
  all, any, ltb, if◌then◌else◌, Result, ok, err, ◌>>=◌, ◌>>◌, raise_if,
}
use openleg.Prelude.Int.{ℤ, pos, negate, eq_ℤ, ◌-ℤ◌}
use openleg.Approval.Lines.{ItemType, Item, priced}
use openleg.Approval.Totals.{smallest}
use openleg.Approval.Reconciliation.{sum_kwh}

-- The `ValueError`s on a split.
pub data EngineError : Type 0 where
  other_participants unbalanced : EngineError

-- `_billed_quantities` for a split: it covers exactly the participants of the engine.
unfoldable pub billed_quantities : List (ℕ × ℕ) → List ℕ → Result EngineError (List (ℕ × ℕ))
billed_quantities quantities engine_participants = do
  raise_if
      (not (
        all (λ r. any (λ p. p == r.0) engine_participants) quantities
        && all (λ p. any (λ r. r.0 == p) quantities) engine_participants))
      EngineError.other_participants
  ok quantities

abbrev priced_line : ItemType → ℕ → ℕ → ℕ → ℤ → Item
priced_line type participant quantity price amount = record {
  id = 0;
  participant_id = participant;
  item_type = type;
  quantity_kwh = some (pos quantity);
  unit_price_chf_per_kwh = some (pos price);
  amount_chf = some amount;
}

abbrev pub charge_line : ℕ → ℕ × ℕ → Item
charge_line price (participant, quantity) =
    priced_line ItemType.consumer_charge participant quantity price (pos (priced quantity price))

abbrev pub fee_line : ℕ → ℕ × ℕ → Item
fee_line fee (participant, quantity) =
    priced_line ItemType.settlement_fee participant quantity fee (pos (priced quantity fee))

abbrev pub credit_line : ℕ → ℕ × ℕ → Item
credit_line price (participant, quantity) =
    priced_line ItemType.producer_credit participant quantity price (negate (priced quantity price))

-- The loop over the consumers, with the fee lines or without them.
unfoldable pub priced_lines : Bool → ℕ → ℕ → List (ℕ × ℕ) → List Item
priced_lines has_fee price fee [] = []
priced_lines true price fee (r ∷ rows) =
    charge_line price r ∷ fee_line fee r ∷ priced_lines true price fee rows
priced_lines false price fee (r ∷ rows) = charge_line price r ∷ priced_lines false price fee rows

abbrev pub consumer_lines : ℕ → ℕ → List (ℕ × ℕ) → List Item
consumer_lines price fee rows = priced_lines (ltb 0 fee) price fee rows

-- The loop over the producers.
unfoldable pub credit_lines : ℕ → List (ℕ × ℕ) → List Item
credit_lines price [] = []
credit_lines price (r ∷ rows) = credit_line price r ∷ credit_lines price rows

-- `charge_total` and `credited_total`
unfoldable pub priced_total : ℕ → List (ℕ × ℕ) → ℕ
priced_total price [] = 0
priced_total price ((p, quantity) ∷ rows) = priced quantity price + priced_total price rows

abbrev pub rounding_line : ℕ → ℤ → Item
rounding_line participant amount = record {
  id = 0;
  participant_id = participant;
  item_type = ItemType.rounding_adjustment;
  quantity_kwh = none;
  unit_price_chf_per_kwh = none;
  amount_chf = some amount;
}

-- The rounding adjustment, for the smallest producer.
unfoldable pub rounding_lines : ℕ → List (ℕ × ℕ) → ℤ → List Item
rounding_lines price [] rounding_difference = []
rounding_lines price ((p, quantity) ∷ rows) rounding_difference =
    if eq_ℤ rounding_difference (pos 0)
    then []
    else rounding_line (smallest p rows) (pos 0 -ℤ rounding_difference) ∷ []

-- `line_items` of the summary
unfoldable pub line_items : List (ℕ × ℕ) → List (ℕ × ℕ) → ℕ → ℕ → List Item
unfolding priced_lines credit_lines rounding_lines priced_total
line_items billed_consumption billed_production price fee =
    consumer_lines price fee billed_consumption
    ++ (credit_lines price billed_production
        ++ rounding_lines price billed_production (
            pos (priced_total price billed_consumption)
            -ℤ pos (priced_total price billed_production)))

-- `_generate_billing_summary` on a split: its totals must be equal.
unfoldable pub generate_line_items :
    List (ℕ × ℕ) → List (ℕ × ℕ) → List ℕ → List ℕ → ℕ → ℕ → Result EngineError (List Item)
unfolding billed_quantities line_items
generate_line_items consumption production consumers producers price fee = do
  billed_consumption ← billed_quantities consumption consumers
  billed_production ← billed_quantities production producers
  raise_if (not (sum_kwh billed_consumption == sum_kwh billed_production)) EngineError.unbalanced
  ok (line_items billed_consumption billed_production price fee)
