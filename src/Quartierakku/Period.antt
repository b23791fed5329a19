-- ===== src/Quartierakku/Period.antt =====
-- quartierakku.py, `period_fraction`: the part of a year that a billing period takes, year by year.
-- Moments have one timezone, whole seconds and a year below 9999, after which `datetime` has none;
-- a year starts at second 0.
use openleg.Prelude.{
  ℕ, zero, suc, ◌+◌, ◌-◌, ◌*◌, ◌/◌, ◌%◌, ◌==◌, Bool, ◌&&◌, ◌||◌, not, Option, none, some, List, [],
  ◌∷◌, ltb, if◌then◌else◌, Result, err, or_raise,
}

pub record Moment : Type 0 where
  pub year : ℕ
  pub second : ℕ

-- `calendar.isleap`
abbrev pub is_leap : ℕ → Bool
is_leap y = (y % 4 == 0) && (not (y % 100 == 0) || (y % 400 == 0))

unfoldable pub days_in_year : ℕ → ℕ
days_in_year y = if is_leap y then 366 else 365

abbrev pub year_seconds : ℕ → ℕ
year_seconds y = days_in_year y * 86_400

-- The days from the start of the calendar to the start of a year, as `datetime` counts them.
unfoldable pub days_before_year : ℕ → ℕ
days_before_year y = let p = y - 1 in p * 365 + p / 4 - p / 100 + p / 400

abbrev pub timestamp : Moment → ℕ
timestamp m = days_before_year m.year * 86_400 + m.second

-- `a < b`
abbrev pub is_before : Moment → Moment → Bool
is_before a b = ltb a.year b.year || ((a.year == b.year) && ltb a.second b.second)

-- `datetime(cursor.year + 1, 1, 1)`
abbrev pub year_end : Moment → Moment
year_end m = record { year = m.year + 1; second = 0 }

abbrev pub minimum : Moment → Moment → Moment
minimum a b = if is_before b a then b else a

abbrev pub add_segment : Moment → Moment → Option (List (ℕ × ℕ)) → Option (List (ℕ × ℕ))
add_segment from until none = none
add_segment from until (some rest) =
    some ((timestamp until - timestamp from, year_seconds from.year) ∷ rest)

-- The loop, with the quotients that it adds to the fraction: seconds over seconds of the year.
unfoldable pub segments : ℕ → Moment → Moment → Option (List (ℕ × ℕ))
unfolding days_before_year
segments zero cursor end = if is_before cursor end then none else some []
segments (suc fuel) cursor end =
    let segment_end = minimum end (year_end cursor) in
    let rest = segments fuel segment_end end in
    if is_before cursor end then add_segment cursor segment_end rest else some []

pub data Error : Type 0 where
  -- "Die Abrechnungsperiode ist ungültig."
  invalid_period : Error
  -- the model's loop ran out of fuel
  stuck : Error

-- The quotients of the sum; the program divides and adds them as decimals of 28 digits.
unfoldable pub period_fraction : Moment → Moment → Result Error (List (ℕ × ℕ))
unfolding segments
period_fraction start end =
    if not (is_before start end)
    then err Error.invalid_period
    else or_raise (segments (end.year - start.year + 1) start end) Error.stuck
