-- ===== src/Engine/Accepted.antt =====
-- billing_engine.py and billing_approval.py: the approval accepts what the engine prices.
use openleg.Prelude.{
  ℕ, ◌+◌, ◌*◌, ◌≤◌, ◌<◌, ◌≡◌, refl, sym, ap, ◌∙◌, true, false, List, [], ◌∷◌, ◌++◌, ltb, length,
  arith, Bool-cases, inl, inr, ok,
}
use openleg.Prelude.Int.{ℤ, pos, eq_ℤ, ◌+ℤ◌, ◌-ℤ◌, abs_ℤ, int_laws}
use openleg.Approval.Lines.{Item, ItemType, validated_line_item, validated_by}
use openleg.Approval.Totals.{
  Totals, no_totals, add_line, add_items, non_rounding_count, smallest, require_totals,
  require_wellformed_line_items,
}
use openleg.Approval.Reconciliation.{sum_kwh}
use openleg.Engine.{
  credit_lines, priced_total, rounding_line, rounding_lines, line_items, billed_quantities,
  generate_line_items,
}
use openleg.Engine.Loop.{
  Distinct, after_consumers, after_credits, credited, add_consumers, add_credits,
  after_consumers-credits, AllUnseen-none,
}
use openleg.Engine.Sums.{
  after_consumers-Consumed, after_credits-Produced, priced_total-near, smallest-after_credits,
}
use openleg.Engine.Checks.{
  fees-accepted, abs_distance, totals-accepted, no_producer-accepted, balanced-accepted,
  adjusted-accepted, fees-rounding,
}

-- The totals of a priced split, before the rounding adjustment.
abbrev split_totals : List (ℕ × ℕ) → List (ℕ × ℕ) → ℕ → ℕ → Totals
split_totals c p price fee = after_credits price p (after_consumers (ltb 0 fee) price c no_totals)

abbrev difference : List (ℕ × ℕ) → List (ℕ × ℕ) → ℕ → ℤ
difference c p price = pos (priced_total price c) -ℤ pos (priced_total price p)

-- The loop runs through the charges, fees and credits.
add_split :
    (c p : List (ℕ × ℕ)) (price fee : ℕ)
    → Distinct c
    → Distinct p
    → add_items price fee (line_items c p price fee) no_totals
      ≡ add_items price fee
          (rounding_lines price p (difference c p price))
          (split_totals c p price fee)
unfolding line_items
add_split c p price fee dc dp =
    let rounding = rounding_lines price p (difference c p price) in
    add_consumers (ltb 0 fee) price fee c (credit_lines price p ++ rounding) no_totals dc
      (AllUnseen-none ItemType.consumer_charge c) (AllUnseen-none ItemType.settlement_fee c)
    ∙ add_credits price fee p rounding (after_consumers (ltb 0 fee) price c no_totals) dp (
        after_consumers-credits (ltb 0 fee) price c p no_totals
          (AllUnseen-none ItemType.producer_credit p))

total_difference : (m n : ℕ) → (pos 0 +ℤ pos m) -ℤ pos n ≡ pos m -ℤ pos n
total_difference m n = omega int_laws

-- What the totals are.
split_totals-sums :
    (c p : List (ℕ × ℕ)) (price fee : ℕ)
    → let t = split_totals c p price fee in
      (t.consumer_qty_total ≡ sum_kwh c)
      × (t.producer_qty_total ≡ sum_kwh p)
      × (non_rounding_count t ≡ length c + length p)
      × (t.non_rounding_total ≡ difference c p price)
      × (t.rounding_items ≡ [])
split_totals-sums c p price fee =
    let t1 = after_consumers (ltb 0 fee) price c no_totals in
    let (a, b, m, d, e, f, g) = after_consumers-Consumed (ltb 0 fee) price c no_totals in
    let (a', b', m', d', e', f', g', h') = after_credits-Produced price p t1 in
    (
      omega arith,
      omega arith,
      omega arith,
      m'
          ∙ ap (λ x. x -ℤ pos (priced_total price p)) m
          ∙ total_difference (priced_total price c) (priced_total price p),
      h' ∙ g,
    )

-- The rounding of a balanced split is in the bound.
difference-bound :
    (c p : List (ℕ × ℕ)) (price : ℕ)
    → sum_kwh c ≡ sum_kwh p
    → abs_ℤ (difference c p price) * 1_000_000 ≤ 500_000 * (length c + length p)
difference-bound c p price same =
    let (a, b) = priced_total-near price c in
    let (a', b') = priced_total-near price p in
    let size = abs_distance (priced_total price c) (priced_total price p) in
    let scaled = ap (λ kwh. kwh * price) same in omega arith

abbrev Accepted : List (ℕ × ℕ) → List (ℕ × ℕ) → ℕ → ℕ → Type 0
Accepted c p price fee =
    (t : Totals) × (add_items price fee (rounding_lines price p (difference c p price))
        (split_totals c p price fee)
      ≡ ok t)
    × (require_totals price fee t ≡ ok tt)

-- Without producers, without a difference, and with one.
none-Accepted :
    (c : List (ℕ × ℕ)) (price fee : ℕ) → sum_kwh c ≡ 0 → Distinct c → Accepted c [] price fee
unfolding rounding_lines add_items
none-Accepted c price fee same dc =
    let t = split_totals c [] price fee in
    let (a, b, n, m, i) = split_totals-sums c [] price fee in
    let empty = (after_consumers-Consumed (ltb 0 fee) price c no_totals).5 in
    (
      t,
      refl,
      totals-accepted price fee t (a ∙ same ∙ sym b)
          (fees-accepted (ltb 0 fee) c [] price fee refl dc)
          (no_producer-accepted price t.production_kwh t empty i),
    )

collected :
    (c : List (ℕ × ℕ)) (q k : ℕ) (rows : List (ℕ × ℕ)) (price fee : ℕ)
    → (r : ℕ × ℕ) × (rs : List (ℕ × ℕ)) × ((split_totals c ((q, k) ∷ rows) price fee).production_kwh
        ≡ r ∷ rs)
      × (smallest r.0 rs ≡ smallest q rows)
collected c q k rows price fee =
    let t1 = after_consumers (ltb 0 fee) price c no_totals in
    let empty = (after_consumers-Consumed (ltb 0 fee) price c no_totals).5 in
    smallest-after_credits price q k [] rows (credited price (q, k) t1)
      (ap (λ ps. (q, k) ∷ ps) empty)

balanced-Accepted :
    (c : List (ℕ × ℕ)) (q k : ℕ) (rows : List (ℕ × ℕ)) (price fee : ℕ)
    → let p = (q, k) ∷ rows in
      sum_kwh c ≡ sum_kwh p
      → Distinct c
      → eq_ℤ (difference c p price) (pos 0) ≡ true
      → Accepted c p price fee
unfolding rounding_lines add_items
balanced-Accepted c q k rows price fee same dc e =
    let p = (q, k) ∷ rows in
    let t = split_totals c p price fee in
    let (a, b, n, m, i) = split_totals-sums c p price fee in
    let (r, rs, listed, least) = collected c q k rows price fee in
    let no_line : rounding_lines price p (difference c p price) ≡ [] = ground arith in
    (
      t,
      ap (λ items. add_items price fee items t) no_line,
      totals-accepted price fee t (a ∙ same ∙ sym b)
          (fees-accepted (ltb 0 fee) c p price fee refl dc)
          (balanced-accepted price t.production_kwh rs r t listed i
            (ap (λ d. eq_ℤ d (pos 0)) m ∙ e)),
    )

adjusted-Accepted :
    (c : List (ℕ × ℕ)) (q k : ℕ) (rows : List (ℕ × ℕ)) (price fee : ℕ)
    → let p = (q, k) ∷ rows in
      sum_kwh c ≡ sum_kwh p
      → Distinct c
      → eq_ℤ (difference c p price) (pos 0) ≡ false
      → Accepted c p price fee
unfolding rounding_lines add_items validated_line_item validated_by add_line
adjusted-Accepted c q k rows price fee same dc e =
    let p = (q, k) ∷ rows in
    let t = split_totals c p price fee in
    let (a, b, n, m, i) = split_totals-sums c p price fee in
    let (r, rs, listed, least) = collected c q k rows price fee in
    let amount = pos 0 -ℤ difference c p price in
    let t' : Totals = record t { rounding_items = (smallest q rows, amount) ∷ t.rounding_items } in
    let one : rounding_lines price p (difference c p price)
        ≡ rounding_line (smallest q rows) amount ∷ [] =
      ground arith in
    let near = difference-bound c p price same in
    (
      t',
      ap (λ items. add_items price fee items t) one,
      totals-accepted price fee t' (a ∙ same ∙ sym b)
          (fees-rounding fee t ((smallest q rows, amount) ∷ t.rounding_items)
            (fees-accepted (ltb 0 fee) c p price fee refl dc))
          (adjusted-accepted price (smallest q rows) t.production_kwh rs r t' listed least
            (ap (λ d. (smallest q rows, pos 0 -ℤ d) ∷ t.rounding_items) (sym m)
              ∙ ap (λ l. (smallest q rows, pos 0 -ℤ t.non_rounding_total) ∷ l) i)
            (ap (λ d. eq_ℤ d (pos 0)) m ∙ e) (let size = ap abs_ℤ m in omega arith)),
    )

split-Accepted :
    (c p : List (ℕ × ℕ)) (price fee : ℕ)
    → sum_kwh c ≡ sum_kwh p
    → Distinct c
    → Accepted c p price fee
split-Accepted c [] price fee same dc = none-Accepted c price fee same dc
split-Accepted c ((q, k) ∷ rows) price fee same dc =
    elim (Bool-cases (eq_ℤ (difference c ((q, k) ∷ rows) price) (pos 0))) [
      | inl e ↦ balanced-Accepted c q k rows price fee same dc e
      | inr e ↦ adjusted-Accepted c q k rows price fee same dc e
    ]

generate-parts :
    (c p : List (ℕ × ℕ)) (consumers producers : List ℕ) (price fee : ℕ) {items : List Item}
    → generate_line_items c p consumers producers price fee ≡ ok items
    → (sum_kwh c ≡ sum_kwh p) × (items ≡ line_items c p price fee)
unfolding generate_line_items billed_quantities
generate-parts c p consumers producers price fee h = (ground arith, ground arith)

wellformed-from :
    (items : List Item) (price fee : ℕ) (t : Totals)
    → 0 < length items
    → add_items price fee items no_totals ≡ ok t
    → require_totals price fee t ≡ ok tt
    → require_wellformed_line_items items price fee ≡ ok t
unfolding require_wellformed_line_items
wellformed-from [] price fee t l a r = ground arith
wellformed-from (i ∷ is) price fee t l a r = ground arith

-- If the engine prices a split in which each consumer and each producer has one row, then the
-- approval accepts its line items, if there are any, at the same prices.
pub generate_line_items-wellformed :
    (consumption production : List (ℕ × ℕ)) (consumers producers : List ℕ) (price fee : ℕ)
    {items : List Item}
    → Distinct consumption
    → Distinct production
    → generate_line_items consumption production consumers producers price fee ≡ ok items
    → 0 < length items
    → (t : Totals) × (require_wellformed_line_items items price fee ≡ ok t)
generate_line_items-wellformed c p consumers producers price fee {items} dc dp h l =
    let (same, e) = generate-parts c p consumers producers price fee h in
    let (t, loop, totals) = split-Accepted c p price fee same dc in
    (
      t,
      wellformed-from items price fee t l
          (ap (λ is. add_items price fee is no_totals) e ∙ add_split c p price fee dc dp ∙ loop)
          totals,
    )
