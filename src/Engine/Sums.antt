-- ===== src/Engine/Sums.antt =====
-- billing_engine.py and billing_approval.py: the totals that the approval finds in a priced split.
use openleg.Prelude.{
  ℕ, zero, suc, ◌+◌, ◌*◌, ◌≤◌, ◌≡◌, refl, ap, ◌∙◌, Bool, true, false, List, [], ◌∷◌, ltb, length,
  arith, if◌then◌else◌,
}
use openleg.Prelude.Int.{ℤ, pos, negate, ◌+ℤ◌, ◌-ℤ◌, int_laws}
use openleg.Approval.Lines.{priced}
use openleg.Approval.Totals.{Totals, smallest}
use openleg.Approval.Reconciliation.{sum_kwh}
use openleg.Engine.{priced_total}
use openleg.Engine.Loop.{charged, with_fee, credited, after_consumers, after_credits}

+ℤ_pos : (a : ℤ) (m n : ℕ) → (a +ℤ pos m) +ℤ pos n ≡ a +ℤ pos (m + n)
+ℤ_pos a m n = omega int_laws

+ℤ_pos_zero : (a : ℤ) → a ≡ a +ℤ pos 0
+ℤ_pos_zero a = omega int_laws

-- What the consumers add.
abbrev pub Consumed : ℕ → List (ℕ × ℕ) → Totals → Totals → Type 0
Consumed price rows t t' =
    (t'.consumer_qty_total ≡ sum_kwh rows + t.consumer_qty_total)
    × (t'.consumer_count ≡ length rows + t.consumer_count)
    × (t'.non_rounding_total ≡ t.non_rounding_total +ℤ pos (priced_total price rows))
    × (t'.producer_qty_total ≡ t.producer_qty_total)
    × (t'.producer_count ≡ t.producer_count)
    × (t'.production_kwh ≡ t.production_kwh)
    × (t'.rounding_items ≡ t.rounding_items)

pub after_consumers-Consumed :
    (has_fee : Bool) (price : ℕ) (rows : List (ℕ × ℕ)) (t : Totals)
    → Consumed price rows t (after_consumers has_fee price rows t)
unfolding priced_total
after_consumers-Consumed has_fee price [] t =
    (omega arith, omega arith, +ℤ_pos_zero t.non_rounding_total, refl, refl, refl, refl)
after_consumers-Consumed true price ((p, q) ∷ rows) t =
    let (a, b, c, d, e, f, g) =
      after_consumers-Consumed true price rows (with_fee (p, q) (charged price (p, q) t)) in
    (
      omega arith,
      omega arith,
      c ∙ +ℤ_pos t.non_rounding_total (priced q price) (priced_total price rows),
      d,
      e,
      f,
      g,
    )
after_consumers-Consumed false price ((p, q) ∷ rows) t =
    let (a, b, c, d, e, f, g) =
      after_consumers-Consumed false price rows (charged price (p, q) t) in
    (
      omega arith,
      omega arith,
      c ∙ +ℤ_pos t.non_rounding_total (priced q price) (priced_total price rows),
      d,
      e,
      f,
      g,
    )

-- What the producers add.
abbrev pub Produced : ℕ → List (ℕ × ℕ) → Totals → Totals → Type 0
Produced price rows t t' =
    (t'.producer_qty_total ≡ sum_kwh rows + t.producer_qty_total)
    × (t'.producer_count ≡ length rows + t.producer_count)
    × (t'.non_rounding_total ≡ t.non_rounding_total -ℤ pos (priced_total price rows))
    × (t'.consumer_qty_total ≡ t.consumer_qty_total)
    × (t'.consumer_count ≡ t.consumer_count)
    × (t'.consumption_kwh ≡ t.consumption_kwh)
    × (t'.settlement_quantities ≡ t.settlement_quantities)
    × (t'.rounding_items ≡ t.rounding_items)

-ℤ_none : (a : ℤ) → a ≡ a -ℤ pos 0
-ℤ_none a = omega int_laws

minus_pos : (a : ℤ) (m n : ℕ) → (a +ℤ negate m) -ℤ pos n ≡ a -ℤ pos (m + n)
minus_pos a zero n = omega int_laws
minus_pos a (suc m) n = omega int_laws

pub after_credits-Produced :
    (price : ℕ) (rows : List (ℕ × ℕ)) (t : Totals)
    → Produced price rows t (after_credits price rows t)
unfolding priced_total
after_credits-Produced price [] t =
    (omega arith, omega arith, -ℤ_none t.non_rounding_total, refl, refl, refl, refl, refl)
after_credits-Produced price ((p, q) ∷ rows) t =
    let (a, b, c, d, e, f, g, h) = after_credits-Produced price rows (credited price (p, q) t) in
    (
      omega arith,
      omega arith,
      c ∙ minus_pos t.non_rounding_total (priced q price) (priced_total price rows),
      d,
      e,
      f,
      g,
      h,
    )

-- Rounding moves each amount by at most half a millionth.
pub priced_total-near :
    (price : ℕ) (rows : List (ℕ × ℕ))
    → (priced_total price rows * 1_000_000 ≤ sum_kwh rows * price + 500_000 * length rows)
      × (sum_kwh rows * price ≤ priced_total price rows * 1_000_000 + 500_000 * length rows)
unfolding priced_total priced
priced_total-near price [] = (omega arith, omega arith)
priced_total-near price ((p, q) ∷ rows) =
    let (a, b) = priced_total-near price rows in (omega arith, omega arith)

-- The smallest participant does not depend on the order.
abbrev least : ℕ → ℕ → ℕ
least a b = if ltb b a then b else a

least_assoc : (a b c : ℕ) → least (least a b) c ≡ least a (least b c)
least_assoc a b c = ground arith

least_comm : (a b : ℕ) → least a b ≡ least b a
least_comm a b = ground arith

smallest-least :
    (a b : ℕ) (rows : List (ℕ × ℕ)) → smallest (least a b) rows ≡ least a (smallest b rows)
smallest-least a b [] = refl
smallest-least a b ((q, k) ∷ rows) =
    ap (λ x. smallest x rows) (least_assoc a b q) ∙ smallest-least a (least b q) rows

-- The approval collects the producers in the opposite order.
pub smallest-after_credits :
    (price p k : ℕ) (kwhs rows : List (ℕ × ℕ)) (t : Totals)
    → t.production_kwh ≡ (p, k) ∷ kwhs
    → (r : ℕ × ℕ) × (rs : List (ℕ × ℕ)) × ((after_credits price rows t).production_kwh ≡ r ∷ rs)
      × (smallest r.0 rs ≡ smallest (smallest p kwhs) rows)
smallest-after_credits price p k kwhs [] t h = ((p, k), kwhs, h, refl)
smallest-after_credits price p k kwhs ((q, l) ∷ rows) t h =
    let (r, rs, e, m) =
      smallest-after_credits price q l ((p, k) ∷ kwhs) rows (credited price (q, l) t)
        (ap (λ ps. (q, l) ∷ ps) h) in
    (
      r,
      rs,
      e,
      m ∙ ap (λ x. smallest x rows) (smallest-least q p kwhs ∙ least_comm q (smallest p kwhs)),
    )
