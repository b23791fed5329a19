-- ===== src/Quartierakku/Years.antt =====
-- quartierakku.py, `period_fraction`: the loop over the years of a period ends.
use openleg.Prelude.{
  ◌⊎◌, ℕ, zero, suc, ◌+◌, ◌-◌, ◌*◌, ◌≤◌, ◌<◌, ◌≡◌, refl, sym, ap, ◌∙◌, Bool, true, false, Option,
  some, List, [], ◌∷◌, All, if◌then◌else◌, ok, arith, inl, inr, Bool-cases,
}
use mathlib.Core.Path.{subst}
use openleg.Quartierakku.Period.{
  Moment, days_in_year, year_seconds, days_before_year, timestamp, is_before, year_end, minimum,
  add_segment, segments, period_fraction,
}

days_before_next : (y : ℕ) → 1 ≤ y → days_before_year (y + 1) ≡ days_before_year y + days_in_year y
unfolding days_before_year days_in_year
days_before_next y h = ground arith

-- A moment of a year of the calendar.
abbrev pub IsMoment : Moment → Type 0
IsMoment m = (1 ≤ m.year) × (m.second < year_seconds m.year)

-- The time that the segments cover.
abbrev pub covered : List (ℕ × ℕ) → ℕ
covered [] = 0
covered ((seconds, year) ∷ rest) = seconds + covered rest

abbrev pub IsPart : ℕ × ℕ → Type 0
IsPart (seconds, year) = (1 ≤ seconds) × (seconds ≤ year)

-- What the loop gives: the segments are parts of years, and cover the time to the end.
abbrev IsSplit : Moment → Moment → Option (List (ℕ × ℕ)) → Type 0
IsSplit cursor end o =
    (parts : List (ℕ × ℕ)) × (o ≡ some parts)
    × (timestamp cursor + covered parts ≡ timestamp end)
    × All IsPart parts

segment-IsSplit :
    (cursor until end : Moment) (rest : Option (List (ℕ × ℕ)))
    → timestamp cursor < timestamp until
    → timestamp until ≤ timestamp cursor + year_seconds cursor.year
    → IsSplit until end rest
    → IsSplit cursor end (add_segment cursor until rest)
segment-IsSplit cursor until end rest l u (parts, e, sum, all_parts) =
    let seconds = timestamp until - timestamp cursor in
    (
      (seconds, year_seconds cursor.year) ∷ parts,
      ap (add_segment cursor until) e,
      omega arith,
      ((omega arith, omega arith), all_parts),
    )

year_end-timestamp :
    (m : Moment)
    → 1 ≤ m.year
    → timestamp (year_end m) ≡ days_before_year m.year * 86_400 + year_seconds m.year
year_end-timestamp m h = let next = days_before_next m.year h in omega arith

is_before-years :
    (a b : Moment)
    → is_before a b ≡ true
    → (a.year < b.year) ⊎ ((a.year ≡ b.year) × (a.second < b.second))
is_before-years a b h = ground arith

not_before-same :
    (a b : Moment)
    → is_before a b ≡ false
    → (a.year < b.year) ⊎ ((a.year ≡ b.year) × (a.second ≤ b.second))
    → a ≡ b
not_before-same a b h k = ground arith

is_before_self : (a : Moment) → is_before a a ≡ false
is_before_self a = ground arith

never_before : (a b : Moment) → is_before a b ≡ true → (a ≡ b) → Path Bool true false
never_before a b h same = sym h ∙ ap (λ x. is_before x b) same ∙ is_before_self b

year_end-IsMoment : (m : Moment) → IsMoment (year_end m)
unfolding days_in_year
year_end-IsMoment m = (omega arith, ground arith)

segments-stop :
    (fuel : ℕ) (cursor end : Moment)
    → is_before cursor end ≡ false
    → segments fuel cursor end ≡ some []
unfolding segments
segments-stop zero cursor end e = rw e refl
segments-stop (suc fuel) cursor end e = rw e refl

segments-step :
    (fuel : ℕ) (cursor until end : Moment)
    → is_before cursor end ≡ true
    → minimum end (year_end cursor) ≡ until
    → segments (suc fuel) cursor end ≡ add_segment cursor until (segments fuel until end)
unfolding segments
segments-step fuel cursor until end e m =
    ap
      (λ b.
        if b
        then add_segment cursor (minimum end (year_end cursor))
            (segments fuel (minimum end (year_end cursor)) end)
        else some [])
      e
    ∙ ap (λ u. add_segment cursor u (segments fuel u end)) m

-- The end of the segment is in the cursor's year, or where the next year starts.
last-timestamps :
    (cursor end : Moment)
    → IsMoment cursor
    → IsMoment end
    → is_before cursor end ≡ true
    → is_before (year_end cursor) end ≡ false
    → (timestamp cursor < timestamp end)
      × (timestamp end ≤ timestamp cursor + year_seconds cursor.year)
last-timestamps cursor end (y, m) (y', n) e f = elim (is_before-years cursor end e) [
  | inl later ↦
      let same : year_end cursor ≡ end = ground arith in
      let at = sym (ap timestamp same) ∙ year_end-timestamp cursor y in (omega arith, omega arith)
  | inr (year, second) ↦
      let days = ap days_before_year year in
      let lengths = ap year_seconds year in (omega arith, omega arith)
]

-- Fuel for each year up to the end is enough.
segments-IsSplit :
    (fuel : ℕ) (cursor end : Moment)
    → IsMoment cursor
    → IsMoment end
    → (cursor.year < end.year) ⊎ ((cursor.year ≡ end.year) × (cursor.second ≤ end.second))
    → (end.year < cursor.year + fuel) ⊎ (cursor ≡ end)
    → IsSplit cursor end (segments fuel cursor end)
segments-IsSplit zero cursor end m n le f =
    let same : cursor ≡ end = elim f [ inl h ↦ absurd (ground arith) | inr s ↦ s ] in
    let stop = ap (λ x. is_before x end) same ∙ is_before_self end in
    ([], segments-stop zero cursor end stop, let at = ap timestamp same in omega arith, tt)
segments-IsSplit (suc fuel) cursor end m n le f = elim (Bool-cases (is_before cursor end)) [
  | inr e ↦
      let same = not_before-same cursor end e le in
      ([], segments-stop (suc fuel) cursor end e, let at = ap timestamp same in omega arith, tt)
  | inl e ↦ elim (Bool-cases (is_before (year_end cursor) end)) [
    | inl y ↦
        let next = year_end cursor in
        let at = year_end-timestamp cursor m.0 in
        let later : (next.year < end.year) ⊎ ((next.year ≡ end.year) × (next.second ≤ end.second)) =
          ground (arith, is_before-years next end y) in
        let enough : (end.year < next.year + fuel) ⊎ (next ≡ end) = elim f [
          | inl h ↦ inl (omega arith)
          | inr same ↦ absurd (ground (arith, never_before cursor end e same))
        ] in
        subst (IsSplit cursor end) (sym (segments-step fuel cursor next end e (ground arith))) (
          segment-IsSplit cursor next end (segments fuel next end) (omega arith) (omega arith)
            (segments-IsSplit fuel next end (year_end-IsMoment cursor) n later enough))
    | inr y ↦
        let (l, u) = last-timestamps cursor end m n e y in
        subst (IsSplit cursor end) (sym (segments-step fuel cursor end end e (ground arith))) (
          segment-IsSplit cursor end end (segments fuel end end) l u
            (segments-IsSplit fuel end end n n (inr (refl, omega arith)) (inr refl)))
  ]
]

-- The loop over the years of a period ends. Its segments cover the period, from the start to the
-- end, and each is a part of a year that is not empty.
pub period_fraction-ends :
    (start end : Moment)
    → IsMoment start
    → IsMoment end
    → is_before start end ≡ true
    → (parts : List (ℕ × ℕ)) × (period_fraction start end ≡ ok parts)
      × (timestamp start + covered parts ≡ timestamp end)
      × All IsPart parts
unfolding period_fraction
period_fraction-ends start end m n e =
    let later : (start.year < end.year) ⊎ ((start.year ≡ end.year) × (start.second ≤ end.second)) =
      ground (arith, is_before-years start end e) in
    let (parts, split, sum, all_parts) =
      segments-IsSplit (end.year - start.year + 1) start end m n later (inl (ground arith)) in
    (parts, ground arith, sum, all_parts)
