-- ===== src/Approval/Lines.antt =====
-- billing_approval.py, `_validated_line_item`. Money, energy and prices are numbers of millionths, the
-- scale of the stored columns, so no amount has more than six decimals. A participant is a number,
-- in the order of the ids; the checks on the text of an id are left out.
use openleg.Prelude.{
  ℕ, ◌+◌, ◌*◌, ◌/◌, ◌==◌, Bool, true, false, ◌||◌, not, Option, none, some, Result, ok, ◌>>=◌, ◌>>◌,
  raise_if, or_raise, is_some,
}
use openleg.Prelude.Int.{ℤ, pos, negsuc, ltb_ℤ, eq_ℤ, negate}

pub data ItemType : Type 0 where
  consumer_charge producer_credit rounding_adjustment settlement_fee battery_cost_share : ItemType

abbrev pub type_eq : ItemType → ItemType → Bool
type_eq ItemType.consumer_charge ItemType.consumer_charge = true
type_eq ItemType.producer_credit ItemType.producer_credit = true
type_eq ItemType.rounding_adjustment ItemType.rounding_adjustment = true
type_eq ItemType.settlement_fee ItemType.settlement_fee = true
type_eq ItemType.battery_cost_share ItemType.battery_cost_share = true
type_eq _ _ = false

-- A row of `billing_line_items`, with the columns that the approval reads.
pub record Item : Type 0 where
  pub id : ℕ
  pub participant_id : ℕ
  pub item_type : ItemType
  pub quantity_kwh : Option ℤ
  pub unit_price_chf_per_kwh : Option ℤ
  pub amount_chf : Option ℤ

-- `BillingApprovalError`, by its message
pub data Error : Type 0 where
  invalid_amount rounding_has_quantity share_has_quantity negative_share : Error
  invalid_quantity invalid_price negative_line other_price other_amount : Error
  no_items duplicate_item negative_charge negative_fee positive_credit : Error
  unbalanced_energy unexpected_fee other_fee_energy missing_fee : Error
  rounding_without_credit needless_rounding not_one_rounding other_rounding_participant : Error
  rounding_too_large other_rounding : Error
  inconsistent_reconciliation other_participants other_quantities unexpected_share : Error
  invalid_window invalid_fingerprint missing_sources invalid_source invalid_policy : Error
  community_inactive no_issuer period_not_found no_invoices not_draft dual_control : Error
  registrations_changed store_error : Error

-- `(quantity * price).quantize(0.000001, ROUND_HALF_UP)` for values that are not negative
unfoldable pub priced : ℕ → ℕ → ℕ
priced quantity unit_price = (quantity * unit_price + 500_000) / 1_000_000

abbrev expected_amount : ItemType → ℕ → ℕ → ℤ
expected_amount ItemType.producer_credit quantity unit_price = negate (priced quantity unit_price)
expected_amount _ quantity unit_price = pos (priced quantity unit_price)

abbrev not_negative : ℤ → Option ℕ
not_negative (pos n) = some n
not_negative (negsuc n) = none

-- The amount and the quantity of an item with a price.
unfoldable pub priced_item : ItemType → Item → ℤ → ℕ → Result Error (ℤ × Option ℕ)
unfolding priced
priced_item type item amount policy_price = do
  quantity ← or_raise item.quantity_kwh Error.invalid_quantity
  unit_price ← or_raise item.unit_price_chf_per_kwh Error.invalid_price
  q ← or_raise (not_negative quantity) Error.negative_line
  p ← or_raise (not_negative unit_price) Error.negative_line
  raise_if (not (p == policy_price)) Error.other_price
  raise_if (not (eq_ℤ amount (expected_amount type q p))) Error.other_amount
  ok (amount, some q)

-- The checks of `_validated_line_item` that the type asks for.
unfoldable pub validated_by : ItemType → Item → ℤ → ℕ → ℕ → Result Error (ℤ × Option ℕ)
unfolding priced_item
validated_by ItemType.rounding_adjustment item amount internal_price fee = do
  raise_if (is_some item.quantity_kwh || is_some item.unit_price_chf_per_kwh)
      Error.rounding_has_quantity
  ok (amount, none)
validated_by ItemType.battery_cost_share item amount internal_price fee = do
  raise_if (is_some item.quantity_kwh || is_some item.unit_price_chf_per_kwh)
      Error.share_has_quantity
  raise_if (ltb_ℤ amount (pos 0)) Error.negative_share
  ok (amount, none)
validated_by ItemType.settlement_fee item amount internal_price fee =
    priced_item ItemType.settlement_fee item amount fee
validated_by ItemType.consumer_charge item amount internal_price fee =
    priced_item ItemType.consumer_charge item amount internal_price
validated_by ItemType.producer_credit item amount internal_price fee =
    priced_item ItemType.producer_credit item amount internal_price

-- `_validated_line_item`
unfoldable pub validated_line_item : Item → ℕ → ℕ → Result Error (ℤ × Option ℕ)
unfolding validated_by
validated_line_item item internal_price fee = do
  amount ← or_raise item.amount_chf Error.invalid_amount
  validated_by item.item_type item amount internal_price fee
