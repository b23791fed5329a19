-- ===== src/Quartierakku/Tests.antt =====
-- Runs of quartierakku.py and store/battery.py, and the theorems there.
use openleg.Prelude.Int.{ℤ, pos, negsuc}
use openleg.Prelude.Text.{Text, codes, text_eq}
use openleg.Prelude.Decimals.{Number, Decimal, column}
use openleg.Prelude.{
  ℕ, ◌+◌, ◌-◌, ◌*◌, ◌≡◌, refl, Bool, true, false, Option, none, some, List, [], ◌∷◌, All, count, ok,
  err, leb, ltb, ◌&&◌, if◌then◌else◌, arith,
}
use openleg.Quartierakku.{
  Invalid, Config, Battery, validate_battery_config, has_share, within, max_capacity_kwh,
  max_annual_cost_chf,
}
use openleg.Quartierakku.Costs.{battery, sum_cost_shares, validate_battery_config-cost_shares}
use openleg.Quartierakku.Form.{
  bounded, form_value, form_shares, values, plain_decimal, validate_battery_form,
}
use openleg.Quartierakku.Submitted.{validate_battery_form-accepted}
use openleg.Quartierakku.Store.{Db, BatteryRow, ShareRow, save_battery, get_battery}
use openleg.Quartierakku.RoundTrip.{save_battery-get_battery}
use openleg.Quartierakku.Period.{Moment, period_fraction, timestamp}
use openleg.Quartierakku.Years.{covered, IsPart, period_fraction-ends}

-- 37.50 % and 62.50 % of CHF 960 a year.
abbrev shares : List (Option Text × Decimal)
shares = (some (codes "a"), column 3_750) ∷ (some (codes "b"), column 6_250) ∷ []

abbrev config : Config
config = record {
  community_id = 7;
  participant_id = some (codes " m ");
  capacity_kwh = Decimal.number (record { negative = false; coefficient = 45; exponent = pos 0 });
  annual_cost_chf = column 96_000;
  shares = some shares;
}

abbrev split : List (Text × ℕ)
split = (codes "a", 3_750) ∷ (codes "b", 6_250) ∷ []

abbrev accepted : Battery
accepted = battery 7 (codes "m") 4_500 96_000 split

valid : validate_battery_config (some config) ≡ ok accepted
unfolding validate_battery_config openleg.Prelude.Text.strip openleg.Prelude.Decimals.hundredths
    openleg.Prelude.Int.◌+ℤ◌
valid = refl

incomplete :
    validate_battery_config
      (some (record config { shares = some ((some (codes "a"), column 9_999) ∷ []) }))
    ≡ err Invalid.bad_share_sum
unfolding validate_battery_config openleg.Prelude.Text.strip openleg.Prelude.Decimals.hundredths
    openleg.Prelude.Int.◌+ℤ◌
incomplete = refl

too_fine :
    validate_battery_config (
      some (record config {
        annual_cost_chf =
            Decimal.number (record { negative = false; coefficient = 1_000; exponent = negsuc 2 });
      }))
    ≡ err Invalid.bad_cost
unfolding validate_battery_config openleg.Prelude.Text.strip openleg.Prelude.Decimals.hundredths
    openleg.Prelude.Int.◌+ℤ◌
too_fine = refl

validate_battery_config-cost_shares_example :
    (sum_cost_shares 96_000 split ≡ 10_000 * 96_000) × (has_share (codes "m") split ≡ false)
unfolding validate_battery_config openleg.Prelude.Text.strip openleg.Prelude.Decimals.hundredths
    openleg.Prelude.Int.◌+ℤ◌
validate_battery_config-cost_shares_example =
    validate_battery_config-cost_shares config {b = accepted} refl

abbrev db : Db
db = record {
  communities = 7 ∷ [];
  buildings = codes "a" ∷ codes "b" ∷ codes "m" ∷ [];
  batteries = [];
  shares = [];
}

abbrev saved : Db
saved = record db {
  batteries =
      record {
        community_id = 7;
        capacity_kwh = 4_500;
        annual_cost_chf = 96_000;
        participant_id = codes "m";
      }
      ∷ [];
  shares =
      record { community_id = 7; building_id = codes "b"; share_pct = 6_250 }
      ∷ record { community_id = 7; building_id = codes "a"; share_pct = 3_750 }
      ∷ [];
}

abbrev no_order : Text → Text → Bool
no_order s t = true

save_battery-get_battery_example :
    (b : Battery) × (read : Config) × (listed : List (Text × ℕ)) × (validate_battery_config
        (some (record config { community_id = 7 }))
      ≡ ok b)
    × (get_battery no_order 7 saved ≡ some read)
    × (validate_battery_config (some read) ≡ ok (record b { shares = listed }))
    × ((test : Text × ℕ → Bool) → count test listed ≡ count test b.shares)
unfolding save_battery validate_battery_config openleg.Prelude.Text.strip
    openleg.Prelude.Decimals.hundredths openleg.Prelude.Int.◌+ℤ◌
    openleg.Quartierakku.Store.insert_shares
save_battery-get_battery_example = save_battery-get_battery no_order 7 config db {db' = saved} refl

abbrev ascii_digit : ℕ → Option ℕ
ascii_digit c = if leb 48 c && leb c 57 then some (c - 48) else none

abbrev form : List (Text × Text)
form =
    (codes "participant_id", codes "m")
    ∷ (codes "capacity_kwh", codes "45")
    ∷ (codes "annual_cost_chf", codes "960.00")
    ∷ (codes "share:a", codes "37.5")
    ∷ (codes "share:b", codes " 62.50")
    ∷ (codes "share:c", [])
    ∷ []

abbrev submitted : Config
submitted = record {
  community_id = 0;
  participant_id = some (codes "m");
  capacity_kwh = Decimal.number (record { negative = false; coefficient = 45; exponent = pos 0 });
  annual_cost_chf = column 96_000;
  shares = some (
      (
        some (codes "a"),
        Decimal.number (record { negative = false; coefficient = 375; exponent = negsuc 0 }),
      )
      ∷ (some (codes "b"), column 6_250)
      ∷ (
        some (codes "c"),
        Decimal.number (record { negative = false; coefficient = 0; exponent = pos 0 }),
      )
      ∷ []);
}

abbrev members : List Text
members = codes "a" ∷ codes "b" ∷ codes "c" ∷ []

no_sign : plain_decimal ascii_digit (codes "-1") ≡ none
unfolding plain_decimal
no_sign = refl

no_exponent : plain_decimal ascii_digit (codes "1e3") ≡ none
unfolding plain_decimal
no_exponent = refl

validate_battery_form-accepted_example :
    (k a : ℕ) × (validate_battery_config (some (record submitted { community_id = 7 }))
      ≡ ok (
          battery 7
            (form_value form (codes "participant_id"))
            k
            a
            (values (form_shares ascii_digit members form).1)))
    × (bounded 1 max_capacity_kwh
          (plain_decimal ascii_digit (form_value form (codes "capacity_kwh")))
        ≡ some (submitted.capacity_kwh, k))
    × (bounded 0 max_annual_cost_chf
          (plain_decimal ascii_digit (form_value form (codes "annual_cost_chf")))
        ≡ some (submitted.annual_cost_chf, a))
    × (within 1 max_capacity_kwh submitted.capacity_kwh ≡ some k)
    × (within 0 max_annual_cost_chf submitted.annual_cost_chf ≡ some a)
unfolding openleg.Prelude.Text.strip validate_battery_form within
    openleg.Prelude.Decimals.hundredths openleg.Prelude.Int.◌+ℤ◌
validate_battery_form-accepted_example =
    validate_battery_form-accepted ascii_digit form members 7 {config = submitted} refl refl

-- The winter from December 2023 to the end of February 2024, a leap year.
abbrev december : Moment
december = record { year = 2_023; second = 28_857_600 }

abbrev march : Moment
march = record { year = 2_024; second = 5_184_000 }

winter :
    period_fraction december march ≡ ok ((2_678_400, 31_536_000) ∷ (5_184_000, 31_622_400) ∷ [])
unfolding period_fraction openleg.Quartierakku.Period.days_in_year
winter = refl

period_fraction-ends_example :
    (parts : List (ℕ × ℕ)) × (period_fraction december march ≡ ok parts)
    × (timestamp december + covered parts ≡ timestamp march)
    × All IsPart parts
unfolding openleg.Quartierakku.Period.days_in_year
period_fraction-ends_example =
    period_fraction-ends december march (omega arith, ground arith) (omega arith, ground arith) refl
