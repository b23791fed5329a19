-- ===== src/Quartierakku/Form.antt =====
-- quartierakku.py, `validate_battery_form`: the form that an administrator submits. `digit` gives
-- the value of a character that is a decimal digit, as `\d` and `Decimal` read it.
use openleg.Prelude.Int.{pos, negate}
use openleg.Prelude.Text.{Text, codes, text_eq, is_empty, strip}
use openleg.Prelude.Decimals.{Number, Decimal}
use openleg.Prelude.{
  ℕ, ◌+◌, ◌*◌, ◌==◌, false, ◌&&◌, ◌||◌, not, Option, none, some, List, [], ◌∷◌, ◌++◌, length, any,
  ltb, if◌then◌else◌, Result, ok, err,
}
use openleg.Quartierakku.{
  Invalid, Config, within, total_share, has_share, share_max_pct, max_capacity_kwh,
  max_annual_cost_chf,
}

-- The digits at the start of a text: the number they spell after `value`, how many there are, and
-- what follows.
unfoldable pub digits : (ℕ → Option ℕ) → ℕ → Text → ℕ × ℕ × Text
digits digit value [] = (value, 0, [])
digits digit value (c ∷ s) = elim (digit c) [
  | none ↦ (value, 0, c ∷ s)
  | some d ↦ let (v, n, rest) = digits digit (value * 10 + d) s in (v, n + 1, rest)
]

-- The decimals after the point.
abbrev fraction : (ℕ → Option ℕ) → ℕ → Text → Option Number
fraction digit value s =
    let (v, n, rest) = digits digit value s in
    if (n == 0) || not (is_empty rest)
    then none
    else some (record { negative = false; coefficient = v; exponent = negate n })

abbrev after_digits : (ℕ → Option ℕ) → ℕ → Text → Option Number
after_digits digit value [] =
    some (record { negative = false; coefficient = value; exponent = pos 0 })
after_digits digit value (c ∷ s) = if c == 46 then fraction digit value s else none

-- `^\d+(\.\d+)?$`, and the Decimal of a text that matches.
unfoldable pub plain_decimal : (ℕ → Option ℕ) → Text → Option Number
unfolding digits
plain_decimal digit s =
    let (v, n, rest) = digits digit 0 s in if n == 0 then none else after_digits digit v rest

-- `_form_value`: the names of a form are distinct.
unfoldable pub form_value : List (Text × Text) → Text → Text
form_value [] name = []
form_value ((n, value) ∷ form) name = if text_eq n name then strip value else form_value form name

-- A number with its value in hundredths, where it is in the bounds.
abbrev pub bounded : ℕ → ℕ → Option Number → Option (Decimal × ℕ)
bounded low high none = none
bounded low high (some n) = elim (within low high (Decimal.number n)) [
  | none ↦ none
  | some m ↦ some (Decimal.number n, m)
]

abbrev pub zero_share : Decimal × ℕ
zero_share = (Decimal.number (record { negative = false; coefficient = 0; exponent = pos 0 }), 0)

abbrev pub share_of : (ℕ → Option ℕ) → Text → Option (Decimal × ℕ)
share_of digit text =
    if is_empty text then some zero_share else bounded 0 share_max_pct (plain_decimal digit text)

abbrev pub remove_prefix : Text → Text → Option Text
remove_prefix [] s = some s
remove_prefix (p ∷ ps) [] = none
remove_prefix (p ∷ ps) (c ∷ s) = if p == c then remove_prefix ps s else none

-- A field of the form: the errors, and the shares with their participants.
abbrev pub Shares : Type 0
Shares = List (Text × Invalid) × List (Text × Decimal × ℕ)

abbrev pub add_share : Text → Text → Option (Decimal × ℕ) → Shares → Shares
add_share name participant none r = ((name, Invalid.bad_share) ∷ r.0, r.1)
add_share name participant (some (value, n)) r = (r.0, (participant, value, n) ∷ r.1)

abbrev pub read_share : (ℕ → Option ℕ) → List Text → Text → Text → Option Text → Shares → Shares
read_share digit member_ids name value none r = r
read_share digit member_ids name value (some participant) r =
    if any (text_eq participant) member_ids && not (is_empty participant)
    then add_share name participant (share_of digit (strip value)) r
    else ((codes "shares", Invalid.unknown_share) ∷ r.0, r.1)

unfoldable pub form_shares : (ℕ → Option ℕ) → List Text → List (Text × Text) → Shares
unfolding plain_decimal
form_shares digit member_ids [] = ([], [])
form_shares digit member_ids ((name, value) ∷ form) =
    read_share digit member_ids name value (remove_prefix (codes "share:") name)
      (form_shares digit member_ids form)

abbrev pub missing : Text → Invalid → Option (Decimal × ℕ) → List (Text × Invalid)
missing field e none = (field, e) ∷ []
missing field e (some amount) = []

abbrev pub participant_errors : Text → List (Text × Invalid)
participant_errors p =
    if is_empty p || ltb 64 (length p)
    then (codes "participant_id", Invalid.bad_participant) ∷ []
    else []

abbrev pub values : List (Text × Decimal × ℕ) → List (Text × ℕ)
values [] = []
values ((p, d, n) ∷ rest) = (p, n) ∷ values rest

abbrev pub given : List (Text × Decimal × ℕ) → List (Option Text × Decimal)
given [] = []
given ((p, d, n) ∷ rest) = (some p, d) ∷ given rest

-- The checks of all shares, once no field has an error. The config has no community yet:
-- `save_battery` sets it. The amounts are there, since a missing one is an error.
abbrev pub accept :
    Text
    → Option (Decimal × ℕ)
    → Option (Decimal × ℕ)
    → List (Text × Decimal × ℕ)
    → Result (List (Text × Invalid)) Config
accept p (some (capacity, k)) (some (cost, a)) shares =
    if not (total_share (values shares) == share_max_pct)
    then err ((codes "shares", Invalid.bad_share_sum) ∷ [])
    else if has_share p (values shares)
    then err ((codes "participant_id", Invalid.owner_has_share) ∷ [])
    else ok (record {
      community_id = 0;
      participant_id = some p;
      capacity_kwh = capacity;
      annual_cost_chf = cost;
      shares = some (given shares);
    })
accept p _ _ shares = err []

abbrev pub finish :
    List (Text × Invalid)
    → Result (List (Text × Invalid)) Config
    → Result (List (Text × Invalid)) Config
finish [] result = result
finish (e ∷ es) result = err (e ∷ es)

unfoldable pub validate_battery_form :
    (ℕ → Option ℕ) → List (Text × Text) → List Text → Result (List (Text × Invalid)) Config
unfolding form_value plain_decimal form_shares
validate_battery_form digit form member_ids =
    let p = form_value form (codes "participant_id") in
    let capacity =
      bounded 1 max_capacity_kwh (plain_decimal digit (form_value form (codes "capacity_kwh"))) in
    let cost =
      bounded 0 max_annual_cost_chf
        (plain_decimal digit (form_value form (codes "annual_cost_chf"))) in
    let (share_errors, shares) = form_shares digit member_ids form in
    let errors =
      participant_errors p
      ++ (missing (codes "capacity_kwh") Invalid.bad_capacity capacity
          ++ (missing (codes "annual_cost_chf") Invalid.bad_cost cost ++ share_errors)) in
    finish errors (accept p capacity cost shares)
