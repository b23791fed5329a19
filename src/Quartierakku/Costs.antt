-- ===== src/Quartierakku/Costs.antt =====
-- quartierakku.py, `cost_share_chf`: the annual cost of a valid battery, split over its shares.
use openleg.Prelude.Text.{Text}
use openleg.Prelude.Decimals.{Decimal}
use openleg.Prelude.{
  ℕ, ◌+◌, ◌*◌, ◌/◌, ◌^◌, ◌≡◌, false, Option, none, some, List, [], ◌∷◌, inl, inr, ok, ◌>>◌, bind_ok,
  arith, Result-cases,
}
use mathlib.Core.Path.{subst}
use openleg.Quartierakku.{
  Config, Battery, Invalid, within, valid_participant, or_invalid, normalized_shares, total_share,
  has_share, valid_split, some_shares, validate_battery_config, share_max_pct, max_annual_cost_chf,
  max_capacity_kwh,
}

-- ROUND_HALF_UP of a quotient that is not negative.
abbrev round_half_up : ℕ → ℕ → ℕ
round_half_up n d = (2 * n + d) / (2 * d)

-- `(annual_cost * share / 100).quantize(Decimal("0.000001"), rounding=ROUND_HALF_UP)`, in
-- millionths of a franc. The cost and the share have `cost_places` and `share_places` decimals.
unfoldable pub cost_share_chf : ℕ → ℕ → ℕ → ℕ → ℕ
cost_share_chf cost_places annual_cost share_places share_pct =
    round_half_up (annual_cost * share_pct * 1_000_000) (10 ^ (cost_places + share_places + 2))

-- Hundredths of a franc times hundredths of a percent are millionths: nothing is rounded.
cost_share_chf-exact : (cost share : ℕ) → cost_share_chf 2 cost 2 share ≡ cost * share
unfolding cost_share_chf
cost_share_chf-exact cost share = let x = cost * share in omega arith

abbrev pub sum_cost_shares : ℕ → List (Text × ℕ) → ℕ
sum_cost_shares cost [] = 0
sum_cost_shares cost ((p, share) ∷ rest) = cost_share_chf 2 cost 2 share + sum_cost_shares cost rest

sum_cost_shares-total :
    (cost : ℕ) (shares : List (Text × ℕ)) → sum_cost_shares cost shares ≡ cost * total_share shares
sum_cost_shares-total cost [] = omega arith
sum_cost_shares-total cost ((p, share) ∷ rest) =
    let h = sum_cost_shares-total cost rest in
    let first = cost_share_chf-exact cost share in grind arith

pub valid_split-parts :
    (participant_id : Text) (shares : List (Text × ℕ))
    → valid_split participant_id shares ≡ ok tt
    → (total_share shares ≡ share_max_pct) × (has_share participant_id shares ≡ false)
unfolding valid_split
valid_split-parts participant_id shares h = ground arith

abbrev pub battery : ℕ → Text → ℕ → ℕ → List (Text × ℕ) → Battery
battery community_id p k a shares = record {
  community_id = community_id;
  participant_id = p;
  capacity_kwh = k;
  annual_cost_chf = a;
  shares = shares;
}

-- What each check gave, if all passed.
abbrev pub Stages : Config → Battery → Type 0
Stages c b =
    (p : Text) × (k a : ℕ) × (given : List (Option Text × Decimal)) × (shares : List (Text × ℕ))
    × (valid_participant c.participant_id ≡ ok p)
    × (within 1 max_capacity_kwh c.capacity_kwh ≡ some k)
    × (within 0 max_annual_cost_chf c.annual_cost_chf ≡ some a)
    × (some_shares c.shares ≡ ok given)
    × (normalized_shares given ≡ ok shares)
    × (valid_split p shares ≡ ok tt)
    × (battery c.community_id p k a shares ≡ b)

or_invalid-some : (e : Invalid) (o : Option ℕ) {n : ℕ} → or_invalid e o ≡ ok n → o ≡ some n
or_invalid-some e none h = cc
or_invalid-some e (some m) h = ground arith

split-last :
    (p : Text) (shares : List (Text × ℕ)) (b x : Battery)
    → valid_split p shares >> ok b ≡ ok x
    → (valid_split p shares ≡ ok tt) × (b ≡ x)
split-last p shares b x h = elim (Result-cases (valid_split p shares)) [
  | inl (e, f) ↦ ground arith
  | inr (u, f) ↦ (f, ground arith)
]

pub validate-Stages :
    (c : Config) {b : Battery} → validate_battery_config (some c) ≡ ok b → Stages c b
unfolding validate_battery_config
validate-Stages c {b} h =
    let (p, e, h1) = bind_ok (valid_participant c.participant_id) _ h in
    let (k, f, h2) =
      bind_ok (or_invalid Invalid.bad_capacity (within 1 max_capacity_kwh c.capacity_kwh)) _ h1 in
    let (a, g, h3) =
      bind_ok (or_invalid Invalid.bad_cost (within 0 max_annual_cost_chf c.annual_cost_chf)) _ h2 in
    let (given, i, h4) = bind_ok (some_shares c.shares) _ h3 in
    let (shares, j, h5) = bind_ok (normalized_shares given) _ h4 in
    let (v, same) = split-last p shares (battery c.community_id p k a shares) b h5 in
    (
      p,
      k,
      a,
      given,
      shares,
      e,
      or_invalid-some Invalid.bad_capacity _ f,
      or_invalid-some Invalid.bad_cost _ g,
      i,
      j,
      v,
      same,
    )

validate-split :
    (c : Config) {b : Battery}
    → validate_battery_config (some c) ≡ ok b
    → (total_share b.shares ≡ share_max_pct) × (has_share b.participant_id b.shares ≡ false)
validate-split c {b} h =
    let (p, k, a, given, shares, e, f, g, i, j, v, same) = validate-Stages c h in
    subst
      (λ (x : Battery).
        (total_share x.shares ≡ share_max_pct) × (has_share x.participant_id x.shares ≡ false))
      same (valid_split-parts p shares v)

-- The cost shares of a battery that is accepted sum to its annual cost, to the last millionth of a
-- franc, and the participant at whose metering point it stands pays none.
pub validate_battery_config-cost_shares :
    (c : Config) {b : Battery}
    → validate_battery_config (some c) ≡ ok b
    → (sum_cost_shares b.annual_cost_chf b.shares ≡ 10_000 * b.annual_cost_chf)
      × (has_share b.participant_id b.shares ≡ false)
validate_battery_config-cost_shares c {b} h =
    let (all_of_it, none_of_it) = validate-split c h in
    let sum = sum_cost_shares-total b.annual_cost_chf b.shares in (grind arith, none_of_it)
