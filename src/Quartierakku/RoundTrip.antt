-- ===== src/Quartierakku/RoundTrip.antt =====
-- quartierakku.py and store/battery.py: a battery is read as it was saved.
use openleg.Prelude.Sorting.{sort, sort-All, sum_by, sum_by-sort, count-sort}
use openleg.Prelude.Text.{Text, text_eq}
use openleg.Prelude.Decimals.{Decimal, column}
use openleg.Prelude.{
  ℕ, ◌==◌, ◌≡◌, refl, sym, ap, ◌∙◌, Bool, false, Option, some, List, [], ◌∷◌, any, inl, inr, map,
  find, select, count, ok, arith, Result-cases, Bool-cases, All,
}
use mathlib.Core.Path.{subst}
use openleg.Quartierakku.{
  Config, Battery, within, valid_participant, normalized_shares, total_share, has_share,
  valid_split, some_shares, validate_battery_config, share_max_pct, max_annual_cost_chf,
  max_capacity_kwh,
}
use openleg.Quartierakku.Costs.{battery, validate-Stages, valid_split-parts}
use openleg.Quartierakku.Store.{
  Db, BatteryRow, ShareRow, of_community, not_of_community, upsert, store, save_battery,
  stored_share, get_battery,
}
use openleg.Quartierakku.Stored.{
  valid_participant-again, within-column, pair, IsGood, normalized_shares-IsGood,
  normalized-of_good, insert_shares-rows, pushed, pushed-All, pushed-count, pushed-sum,
}

-- If each check passes, the battery is accepted.
pub stages-validate :
    (c : Config) (p : Text) (k a : ℕ) (given : List (Option Text × Decimal))
    (shares : List (Text × ℕ))
    → valid_participant c.participant_id ≡ ok p
    → within 1 max_capacity_kwh c.capacity_kwh ≡ some k
    → within 0 max_annual_cost_chf c.annual_cost_chf ≡ some a
    → some_shares c.shares ≡ ok given
    → normalized_shares given ≡ ok shares
    → valid_split p shares ≡ ok tt
    → validate_battery_config (some c) ≡ ok (battery c.community_id p k a shares)
unfolding validate_battery_config
stages-validate c p k a given shares e f g i j v = ground arith

total-pairs :
    (rows : List ShareRow)
    → total_share (map pair rows) ≡ sum_by (λ (r : ShareRow). r.share_pct) rows
total-pairs [] = refl
total-pairs (r ∷ rs) = ground (arith, total-pairs rs)

no_share-All :
    (p : Text) (shares : List (Text × ℕ))
    → has_share p shares ≡ false
    → All (λ ((q, n) : Text × ℕ). text_eq q p ≡ false) shares
no_share-All p [] h = tt
no_share-All p ((q, n) ∷ rest) h = (ground arith, no_share-All p rest (ground arith))

All-no_share :
    (p : Text) (rows : List ShareRow)
    → All (λ (r : ShareRow). text_eq r.building_id p ≡ false) rows
    → has_share p (map pair rows) ≡ false
All-no_share p [] h = refl
All-no_share p (r ∷ rs) (h, hs) = ground (arith, All-no_share p rs hs)

count-pairs :
    (test : Text × ℕ → Bool) (rows : List ShareRow)
    → count test (map pair rows) ≡ count (λ r. test (pair r)) rows
count-pairs test [] = refl
count-pairs test (r ∷ rs) = ground (arith, count-pairs test rs)

pub split-again :
    (p : Text) (shares : List (Text × ℕ))
    → total_share shares ≡ share_max_pct
    → has_share p shares ≡ false
    → valid_split p shares ≡ ok tt
unfolding valid_split
split-again p shares t h = ground arith

some_shares-rows :
    (rows : List ShareRow)
    → total_share (map pair rows) ≡ share_max_pct
    → some_shares (some (map stored_share rows)) ≡ ok (map stored_share rows)
some_shares-rows [] h = absurd (omega arith)
some_shares-rows (r ∷ rs) h = refl

none_left :
    (c : ℕ) (rows : List ShareRow) → select (of_community c) (select (not_of_community c) rows) ≡ []
none_left c [] = refl
none_left c (r ∷ rs) = elim (Bool-cases (r.community_id == c)) [
  | inl e ↦ ground (arith, none_left c rs)
  | inr e ↦ ground (arith, none_left c rs)
]

-- The tables after a battery was stored.
store-rows :
    (c : ℕ) (b : Battery) (db : Db) {db' : Db}
    → b.community_id ≡ c
    → store c b db ≡ ok db'
    → (select (of_community c) db'.shares ≡ pushed c b.shares [])
      × (find (λ r. r.community_id == c) db'.batteries
          ≡ some (record {
            community_id = c;
            capacity_kwh = b.capacity_kwh;
            annual_cost_chf = b.annual_cost_chf;
            participant_id = b.participant_id;
          }))
store-rows c b db {db'} own h = elim (Bool-cases (any (λ x. x == c) db.communities)) [
  | inr e ↦ ground arith
  | inl e ↦
      let cleared : Db = record db {
        batteries = upsert b db;
        shares = select (not_of_community c) db.shares;
      } in
      let (rows, same) = insert_shares-rows c b.shares cleared {db' = db'} (ground arith) in
      (
        rows ∙ ap (pushed c b.shares) (none_left c db.shares),
        ap (find (λ (r : BatteryRow). r.community_id == c)) same ∙ ground arith,
      )
]

-- The share rows in the order that they are read in.
abbrev read_rows : (Text → Text → Bool) → ℕ → Db → List ShareRow
read_rows before c db =
    sort (λ s t. before s.building_id t.building_id) (select (of_community c) db.shares)

-- The rows of accepted shares pass the checks again.
read_rows-accepted :
    (before : Text → Text → Bool) (c : ℕ) (p : Text) (given : List (Option Text × Decimal))
    (shares : List (Text × ℕ)) (db : Db)
    → normalized_shares given ≡ ok shares
    → valid_split p shares ≡ ok tt
    → select (of_community c) db.shares ≡ pushed c shares []
    → (total_share (map pair (read_rows before c db)) ≡ share_max_pct)
      × All (λ r. IsGood (pair r)) (read_rows before c db)
      × (has_share p (map pair (read_rows before c db)) ≡ false)
read_rows-accepted before c p given shares db j v rows =
    let by : ShareRow → ShareRow → Bool = λ s t. before s.building_id t.building_id in
    let own = select (of_community c) db.shares in
    let (all_of_it, none_of_it) = valid_split-parts p shares v in
    let sum =
      sum_by-sort (λ (r : ShareRow). r.share_pct) by own
      ∙ ap (sum_by (λ (r : ShareRow). r.share_pct)) rows
      ∙ pushed-sum c shares [] in
    (
      total-pairs (sort by own) ∙ sum ∙ omega arith,
      sort-All _ by own (
          subst (All (λ r. IsGood (pair r))) (sym rows)
            (pushed-All IsGood c shares [] (normalized_shares-IsGood given j) tt)),
      All-no_share p (sort by own) (
          sort-All _ by own (
            subst (All (λ (r : ShareRow). text_eq r.building_id p ≡ false)) (sym rows) (
              pushed-All (λ ((q, n) : Text × ℕ). text_eq q p ≡ false) c shares []
                (no_share-All p shares none_of_it) tt))),
    )

read_shares-count :
    (before : Text → Text → Bool) (test : Text × ℕ → Bool) (c : ℕ) (shares : List (Text × ℕ))
    (db : Db)
    → select (of_community c) db.shares ≡ pushed c shares []
    → count test (map pair (read_rows before c db)) ≡ count test shares
read_shares-count before test c shares db rows =
    let by : ShareRow → ShareRow → Bool = λ s t. before s.building_id t.building_id in
    let listed = count-pairs test (sort by (select (of_community c) db.shares)) in
    let sorted = count-sort (λ r. test (pair r)) by (select (of_community c) db.shares) in
    let kept = ap (count (λ r. test (pair r))) rows in
    let all_rows = pushed-count test c shares [] in listed ∙ sorted ∙ kept ∙ all_rows ∙ omega arith

save_battery-parts :
    (c : ℕ) (config : Config) (db : Db) {db' : Db}
    → save_battery c config db ≡ ok db'
    → (b : Battery) × (validate_battery_config (some (record config { community_id = c })) ≡ ok b)
      × (store c b db ≡ ok db')
unfolding save_battery
save_battery-parts c config db h =
    elim (Result-cases (validate_battery_config (some (record config { community_id = c })))) [
      | inl (e, f) ↦ ground arith
      | inr (b, f) ↦ (b, f, ground arith)
    ]

-- A saved battery is read and accepted again with the values that were accepted, and the shares
-- are the same up to their order.
pub save_battery-get_battery :
    (before : Text → Text → Bool) (c : ℕ) (config : Config) (db : Db) {db' : Db}
    → save_battery c config db ≡ ok db'
    → (b : Battery) × (read : Config) × (shares : List (Text × ℕ)) × (validate_battery_config
          (some (record config { community_id = c }))
        ≡ ok b)
      × (get_battery before c db' ≡ some read)
      × (validate_battery_config (some read) ≡ ok (record b { shares = shares }))
      × ((test : Text × ℕ → Bool) → count test shares ≡ count test b.shares)
unfolding get_battery
save_battery-get_battery before c config db {db'} h =
    let (b, valid, saved) = save_battery-parts c config db h in
    let (p, k, a, given, shares, e, f, g, i, j, v, same) =
      validate-Stages (record config { community_id = c }) valid in
    let own : b.community_id ≡ c = ap (λ (x : Battery). x.community_id) (sym same) in
    let saved' : store c (battery c p k a shares) db ≡ ok db' =
      subst (λ x. store c x db ≡ ok db') (sym same) saved in
    let (rows, found) = store-rows c (battery c p k a shares) db refl saved' in
    let listed = read_rows before c db' in
    let (total, good, others) = read_rows-accepted before c p given shares db' j v rows in
    let config' : Config = record {
      community_id = c;
      participant_id = some p;
      capacity_kwh = column k;
      annual_cost_chf = column a;
      shares = some (map stored_share listed);
    } in
    (
      b,
      config',
      map pair listed,
      valid,
      ground arith,
      stages-validate config' p k a (map stored_share listed) (map pair listed)
            (valid_participant-again config.participant_id e)
            (within-column 1 max_capacity_kwh config.capacity_kwh f)
            (within-column 0 max_annual_cost_chf config.annual_cost_chf g)
            (some_shares-rows listed total) (normalized-of_good listed good)
            (split-again p (map pair listed) total others)
          ∙ ap (λ (x : Battery). ok (record x { shares = map pair listed })) same,
      λ test.
          let listed_count = read_shares-count before test c shares db' rows in
          let same_shares = ap (λ (x : Battery). count test x.shares) same in
          listed_count ∙ same_shares,
    )
