-- ===== src/Approval/Policy.antt =====
-- billing_policy.py, `validate_persisted_policy`, and `_require_valid_policy` of billing_approval.py.
-- Prices are millionths of a franc for a kWh, the rate of the value added tax is in hundredths of a
-- per cent, and dates are day numbers. The network level, the distribution model and the delivery
-- method are left out: each is one of its allowed values. Values of another type than the field's do not occur.
use openleg.Prelude.{
  ℕ, ◌==◌, Bool, false, ◌&&◌, ◌||◌, not, Option, none, some, [], ◌∷◌, all, ltb, leb, length, Result,
  ok, ◌>>=◌, ◌>>◌, raise_if, or_raise,
}
use openleg.Prelude.Text.{Text}

pub data VatMode : Type 0 where
  untaxed standard : VatMode

-- `billing_policy_snapshot`; none is a missing field.
pub record Policy : Type 0 where
  pub tariff_id : Option ℕ
  pub community_id : Option ℕ
  pub effective_from : Option ℕ
  pub internal_price_chf_per_kwh : Option ℕ
  pub grid_fee_chf_per_kwh : Option ℕ
  pub settlement_fee_chf_per_kwh : Option ℕ
  pub vat_mode : Option VatMode
  pub vat_rate_pct : Option ℕ
  pub payment_days : Option ℕ
  pub invoice_prefix : Option Text

-- What the approval takes from the policy, and the prefix that the issue takes.
pub record ValidPolicy : Type 0 where
  pub vat_rate : ℕ
  pub payment_days : ℕ
  pub internal_price : ℕ
  pub settlement_fee : ℕ
  pub invoice_prefix : Text

-- `InvalidPersistedPolicy`
pub data PolicyError : Type 0 where
  incomplete other_community invalid_tariff invalid_price invalid_fee not_effective : PolicyError
  invalid_prefix invalid_days invalid_vat : PolicyError

-- [A-Z0-9] and the hyphen
abbrev is_alphanumeric : ℕ → Bool
is_alphanumeric c = (leb 65 c && leb c 90) || (leb 48 c && leb c 57)

-- `INVOICE_PREFIX_PATTERN`
unfoldable is_prefix : Text → Bool
is_prefix [] = false
is_prefix (c ∷ s) =
    is_alphanumeric c
    && all (λ d. is_alphanumeric d || (d == 45)) s
    && leb 1 (length s)
    && leb (length s) 15

-- `MAX_PRICE_RP / 100`
abbrev max_price_chf : ℕ
max_price_chf = 10_000_000

-- The rate fits the mode.
abbrev vat_fits : VatMode → ℕ → Bool
vat_fits VatMode.untaxed rate = rate == 0
vat_fits VatMode.standard rate = ltb 0 rate && leb rate 10_000

-- `validate_persisted_policy`
unfoldable pub validate_persisted_policy : Policy → ℕ → ℕ → Result PolicyError ValidPolicy
unfolding is_prefix
validate_persisted_policy policy period_start community = do
  tariff ← or_raise policy.tariff_id PolicyError.incomplete
  own ← or_raise policy.community_id PolicyError.incomplete
  effective ← or_raise policy.effective_from PolicyError.incomplete
  internal ← or_raise policy.internal_price_chf_per_kwh PolicyError.incomplete
  grid ← or_raise policy.grid_fee_chf_per_kwh PolicyError.incomplete
  mode ← or_raise policy.vat_mode PolicyError.incomplete
  rate ← or_raise policy.vat_rate_pct PolicyError.incomplete
  term ← or_raise policy.payment_days PolicyError.incomplete
  text ← or_raise policy.invoice_prefix PolicyError.incomplete
  raise_if (not (own == community)) PolicyError.other_community
  raise_if (tariff == 0) PolicyError.invalid_tariff
  raise_if (ltb max_price_chf internal || ltb max_price_chf grid) PolicyError.invalid_price
  settlement ← elim policy.settlement_fee_chf_per_kwh [
    | none ↦ ok 0
    | some charged ↦ raise_if (ltb max_price_chf charged) PolicyError.invalid_fee >> ok charged
  ]
  raise_if (ltb period_start effective) PolicyError.not_effective
  raise_if (not (is_prefix text)) PolicyError.invalid_prefix
  raise_if (not (leb 1 term && leb term 365)) PolicyError.invalid_days
  raise_if (not (vat_fits mode rate)) PolicyError.invalid_vat
  ok (record {
    vat_rate = rate;
    payment_days = term;
    internal_price = internal;
    settlement_fee = settlement;
    invoice_prefix = text;
  })
