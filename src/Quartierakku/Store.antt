-- ===== src/Quartierakku/Store.antt =====
-- store/battery.py: the battery of a community with its shares, in two tables. A row that a
-- constraint refuses makes the transaction fail.
use openleg.Prelude.Sorting.{sort}
use openleg.Prelude.Text.{Text, text_eq}
use openleg.Prelude.Decimals.{Decimal, column}
use openleg.Prelude.{
  ℕ, ◌==◌, Bool, ◌&&◌, not, Option, none, some, List, [], ◌∷◌, any, find, select, map,
  if◌then◌else◌, Result, ok, err, ◌>>=◌,
}
use openleg.Quartierakku.{Config, Battery, Invalid, validate_battery_config}

pub record BatteryRow : Type 0 where
  pub community_id : ℕ
  pub capacity_kwh : ℕ
  pub annual_cost_chf : ℕ
  pub participant_id : Text

pub record ShareRow : Type 0 where
  pub community_id : ℕ
  pub building_id : Text
  pub share_pct : ℕ

pub record Db : Type 0 where
  pub communities : List ℕ
  pub buildings : List Text
  pub batteries : List BatteryRow
  pub shares : List ShareRow

pub data Error : Type 0 where
  invalid_config : Invalid → Error
  store_error : Error

abbrev pub of_community : ℕ → ShareRow → Bool
of_community c s = s.community_id == c

abbrev pub not_of_community : ℕ → ShareRow → Bool
not_of_community c s = not (s.community_id == c)

-- The foreign key to the buildings, and the primary key.
abbrev pub may_insert : ℕ → Text → Db → Bool
may_insert c building db =
    any (text_eq building) db.buildings
    && not
        (any (λ (s : ShareRow). (s.community_id == c) && text_eq s.building_id building) db.shares)

-- `for participant, share in normalized["shares"].items()`
unfoldable pub insert_shares : ℕ → List (Text × ℕ) → Db → Result Error Db
insert_shares c [] db = ok db
insert_shares c ((building, share) ∷ rest) db =
    if may_insert c building db
    then insert_shares c rest (record db {
      shares = record { community_id = c; building_id = building; share_pct = share } ∷ db.shares;
    })
    else err Error.store_error

-- INSERT ... ON CONFLICT (community_id) DO UPDATE
abbrev pub upsert : Battery → Db → List BatteryRow
upsert b db =
    record {
      community_id = b.community_id;
      capacity_kwh = b.capacity_kwh;
      annual_cost_chf = b.annual_cost_chf;
      participant_id = b.participant_id;
    }
    ∷ select (λ r. not (r.community_id == b.community_id)) db.batteries

abbrev pub store : ℕ → Battery → Db → Result Error Db
store c b db =
    if not (any (λ x. x == c) db.communities)
    then err Error.store_error
    else insert_shares c b.shares
        (record db { batteries = upsert b db; shares = select (not_of_community c) db.shares })

abbrev pub as_error : {A : Type 0} → Result Invalid A → Result Error A
as_error (err e) = err (Error.invalid_config e)
as_error (ok x) = ok x

unfoldable pub save_battery : ℕ → Config → Db → Result Error Db
save_battery c config db = do
  b ← as_error (validate_battery_config (some (record config { community_id = c })))
  store c b db

abbrev pub stored_share : ShareRow → Option Text × Decimal
stored_share s = (some s.building_id, column s.share_pct)

-- The order of the buildings is the collation of the database.
unfoldable pub get_battery : (Text → Text → Bool) → ℕ → Db → Option Config
get_battery before c db = elim (find (λ r. r.community_id == c) db.batteries) [
  | none ↦ none
  | some r ↦ some (record {
    community_id = r.community_id;
    participant_id = some r.participant_id;
    capacity_kwh = column r.capacity_kwh;
    annual_cost_chf = column r.annual_cost_chf;
    shares = some (
        map stored_share
          (sort (λ s t. before s.building_id t.building_id) (select (of_community c) db.shares)));
  })
]
