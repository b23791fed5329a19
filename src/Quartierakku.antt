-- ===== src/Quartierakku.antt =====
-- quartierakku.py: the validation of a shared storage battery, in its stored form and in the form
-- that an administrator submits, and its cost shares. Amounts of a valid battery are in hundredths:
-- of a kWh, of a franc and of a percent. Community ids are numbers, participants are texts.
pub mod Form
pub mod Submitted
pub mod Store
pub mod Stored
pub mod RoundTrip
pub mod Costs
pub mod Period
pub mod Years
mod Tests
use openleg.Prelude.Text.{Text, text_eq, is_empty, strip}
use openleg.Prelude.Int.{ℤ, pos, pos_part, ltb_ℤ}
use openleg.Prelude.Decimals.{Decimal, hundredths}
use openleg.Prelude.{
  ℕ, ◌+◌, ◌*◌, ◌==◌, Bool, true, false, ◌&&◌, ◌||◌, not, Option, none, some, List, [], ◌∷◌, length,
  any, ltb, leb, if◌then◌else◌, Result, ok, err, ◌>>=◌, ◌>>◌, raise_if,
}

-- InvalidBatteryConfig, by its message.
pub data Invalid : Type 0 where
  no_details bad_participant bad_capacity bad_cost no_shares bad_share_participant bad_share :
      Invalid
  bad_share_sum owner_has_share unknown_share : Invalid

-- What a stored config holds; `none` where a text or a dict is asked and something else stands.
pub record Config : Type 0 where
  pub community_id : ℕ
  pub participant_id : Option Text
  pub capacity_kwh : Decimal
  pub annual_cost_chf : Decimal
  pub shares : Option (List (Option Text × Decimal))

pub record Battery : Type 0 where
  pub community_id : ℕ
  pub participant_id : Text
  pub capacity_kwh : ℕ
  pub annual_cost_chf : ℕ
  pub shares : List (Text × ℕ)

-- MAX_CAPACITY_KWH, MAX_ANNUAL_COST_CHF and SHARE_MAX_PCT in hundredths.
abbrev pub max_capacity_kwh : ℕ
max_capacity_kwh = 1_000_000

abbrev pub max_annual_cost_chf : ℕ
max_annual_cost_chf = 10_000_000

abbrev pub share_max_pct : ℕ
share_max_pct = 10_000

-- A value of at most two places from `low` to `high`, in hundredths.
unfoldable pub within : ℕ → ℕ → Decimal → Option ℕ
within low high value = elim (hundredths value) [
  | none ↦ none
  | some (pos n) ↦ if ltb n low || ltb high n then none else some n
  | some negative ↦ none
]

abbrev pub valid_participant : Option Text → Result Invalid Text
valid_participant none = err Invalid.bad_participant
valid_participant (some t) =
    if is_empty (strip t) || ltb 64 (length (strip t))
    then err Invalid.bad_participant
    else ok (strip t)

abbrev pub or_invalid : Invalid → Option ℕ → Result Invalid ℕ
or_invalid e none = err e
or_invalid e (some n) = ok n

abbrev pub valid_share_participant : Option Text → Result Invalid Text
valid_share_participant none = err Invalid.bad_share_participant
valid_share_participant (some t) =
    if is_empty (strip t) then err Invalid.bad_share_participant else ok t

-- The loop over the shares.
unfoldable pub normalized_shares : List (Option Text × Decimal) → Result Invalid (List (Text × ℕ))
unfolding within
normalized_shares [] = ok []
normalized_shares ((participant, share) ∷ rest) = do
  name ← valid_share_participant participant
  value ← or_invalid Invalid.bad_share (within 0 share_max_pct share)
  others ← normalized_shares rest
  ok ((name, value) ∷ others)

-- `sum(normalized_shares.values())`
abbrev pub total_share : List (Text × ℕ) → ℕ
total_share [] = 0
total_share ((p, n) ∷ rest) = n + total_share rest

abbrev pub has_share : Text → List (Text × ℕ) → Bool
has_share p shares = any (λ ((q, n) : Text × ℕ). text_eq q p) shares

-- The checks of all shares together.
unfoldable pub valid_split : Text → List (Text × ℕ) → Result Invalid (Unit {0})
valid_split participant_id shares = do
  raise_if (not (total_share shares == share_max_pct)) Invalid.bad_share_sum
  raise_if (has_share participant_id shares) Invalid.owner_has_share

abbrev pub some_shares :
    Option (List (Option Text × Decimal)) → Result Invalid (List (Option Text × Decimal))
some_shares none = err Invalid.no_shares
some_shares (some []) = err Invalid.no_shares
some_shares (some (s ∷ rest)) = ok (s ∷ rest)

unfoldable pub validate_battery_config : Option Config → Result Invalid Battery
unfolding within normalized_shares valid_split
validate_battery_config none = err Invalid.no_details
validate_battery_config (some c) = do
  participant_id ← valid_participant c.participant_id
  capacity ← or_invalid Invalid.bad_capacity (within 1 max_capacity_kwh c.capacity_kwh)
  annual_cost ← or_invalid Invalid.bad_cost (within 0 max_annual_cost_chf c.annual_cost_chf)
  given ← some_shares c.shares
  shares ← normalized_shares given
  valid_split participant_id shares
  ok (record {
    community_id = c.community_id;
    participant_id = participant_id;
    capacity_kwh = capacity;
    annual_cost_chf = annual_cost;
    shares = shares;
  })
