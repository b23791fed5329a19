-- ===== src/Approval/Bounds.antt =====
-- billing_approval.py: the bounds that `_require_wellformed_line_items` keeps, on the energy that a
-- draft bills twice and on its rounding adjustment.
use openleg.Prelude.{
  ℕ, ◌+◌, ◌*◌, ◌≤◌, ◌≡◌, Bool, true, false, ◌||◌, inl, inr, Option, none, some, List, [], ◌∷◌,
  count, length, arith, if◌then◌else◌, ok, or_raise, Option-cases, bind_ok, Bool-cases,
}
use native.Mathlib.Nat.{mul-le-mul_left}
use openleg.Prelude.Int.{ℤ, pos, abs_ℤ}
use openleg.Approval.Lines.{ItemType, Item, Error, validated_by, validated_line_item, priced_item}
use openleg.Approval.Totals.{
  Totals, no_totals, add_line, add_items, quantity_mismatch, non_rounding_count, smallest, distance,
  require_rounding_adjustment, require_rounding, require_wellformed_line_items,
}
use openleg.Approval.Balance.{is_credit}
use openleg.Approval.Passed.{wellformed-parts, add_items-step, validated_line_item-amount}

abbrev is_charge : ItemType → Bool
is_charge ItemType.consumer_charge = true
is_charge _ = false

abbrev pub is_rounding : ItemType → Bool
is_rounding ItemType.rounding_adjustment = true
is_rounding _ = false

abbrev kwh_of : Option ℤ → ℕ
kwh_of (some (pos n)) = n
kwh_of _ = 0

-- The energy of the items of a type.
abbrev billed_kwh : (ItemType → Bool) → List Item → ℕ
billed_kwh p [] = 0
billed_kwh p (item ∷ items) =
    let rest = billed_kwh p items in
    (if p item.item_type then kwh_of item.quantity_kwh + rest else rest)

abbrev pub count_of : (ItemType → Bool) → List Item → ℕ
count_of p items = count (λ item. p item.item_type) items

-- The sizes of the rounding adjustments together.
abbrev adjusted_by : List Item → ℕ
adjusted_by [] = 0
adjusted_by (item ∷ items) =
    let rest = adjusted_by items in
    elim item.amount_chf [
      | none ↦ rest
      | some amount ↦ if is_rounding item.item_type then abs_ℤ amount + rest else rest
    ]

abbrev adjusted_so_far : List (ℕ × ℤ) → ℕ
adjusted_so_far [] = 0
adjusted_so_far ((p, amount) ∷ rows) = abs_ℤ amount + adjusted_so_far rows

abbrev quantity_of : Option ℕ → ℕ
quantity_of none = 0
quantity_of (some q) = q

-- What a line adds to the counts and the totals.
add_line-energy :
    (type : ItemType) (p : ℕ) (amount : ℤ) (quantity : Option ℕ) (t : Totals) {t' : Totals}
    → add_line type p amount quantity t ≡ ok t'
    → (t'.consumer_count ≡ (if is_charge type then 1 else 0) + t.consumer_count)
      × (t'.producer_count ≡ (if is_credit type then 1 else 0) + t.producer_count)
      × (t'.consumer_qty_total
          ≡ (if is_charge type then quantity_of quantity else 0) + t.consumer_qty_total)
      × (t'.producer_qty_total
          ≡ (if is_credit type then quantity_of quantity else 0) + t.producer_qty_total)
      × (adjusted_so_far t'.rounding_items
          ≡ (if is_rounding type then abs_ℤ amount else 0) + adjusted_so_far t.rounding_items)
      × (length t'.rounding_items ≡ (if is_rounding type then 1 else 0) + length t.rounding_items)
unfolding add_line
add_line-energy type p amount quantity t h = elim type [
  | ItemType.rounding_adjustment ↦
      (ground arith, ground arith, ground arith, ground arith, ground arith, ground arith)
  | ItemType.battery_cost_share ↦
      (ground arith, ground arith, ground arith, ground arith, ground arith, ground arith)
  | _ ↦ elim quantity [
    | none ↦ ground arith
    | some q ↦ (ground arith, ground arith, ground arith, ground arith, ground arith, ground arith)
  ]
]

priced_item-quantity :
    (type : ItemType) (item : Item) (amount : ℤ) (price : ℕ) {a : ℤ} {quantity : Option ℕ}
    → priced_item type item amount price ≡ ok (a, quantity)
    → quantity_of quantity ≡ kwh_of item.quantity_kwh
unfolding priced_item
priced_item-quantity type item amount price h = elim (Option-cases item.quantity_kwh) [
  | inl e ↦ ground arith
  | inr (q, e) ↦ ground arith
]

-- A charge or a credit is accepted with its own quantity.
validated_by-quantity :
    (type : ItemType) (item : Item) (amount : ℤ) (price fee : ℕ) {a : ℤ} {quantity : Option ℕ}
    → validated_by type item amount price fee ≡ ok (a, quantity)
    → (is_charge type || is_credit type) ≡ true
    → quantity_of quantity ≡ kwh_of item.quantity_kwh
unfolding validated_by
validated_by-quantity ItemType.consumer_charge item amount price fee h e =
    priced_item-quantity ItemType.consumer_charge item amount price h
validated_by-quantity ItemType.producer_credit item amount price fee h e =
    priced_item-quantity ItemType.producer_credit item amount price h
validated_by-quantity ItemType.settlement_fee item amount price fee h e = ground arith
validated_by-quantity ItemType.rounding_adjustment item amount price fee h e = ground arith
validated_by-quantity ItemType.battery_cost_share item amount price fee h e = ground arith

validated_line_item-quantity :
    (item : Item) (price fee : ℕ) {amount : ℤ} {quantity : Option ℕ}
    → validated_line_item item price fee ≡ ok (amount, quantity)
    → (is_charge item.item_type || is_credit item.item_type) ≡ true
    → quantity_of quantity ≡ kwh_of item.quantity_kwh
unfolding validated_line_item
validated_line_item-quantity item price fee h e =
    let (a, e1, h') =
      bind_ok (or_raise item.amount_chf Error.invalid_amount)
        (λ amount. validated_by item.item_type item amount price fee) h in
    validated_by-quantity item.item_type item a price fee h' e

-- What the loop has collected from the items.
abbrev Collected : List Item → Totals → Totals → Type 0
Collected items t t' =
    (t'.consumer_count ≡ count_of is_charge items + t.consumer_count)
    × (t'.producer_count ≡ count_of is_credit items + t.producer_count)
    × (t'.consumer_qty_total ≡ billed_kwh is_charge items + t.consumer_qty_total)
    × (t'.producer_qty_total ≡ billed_kwh is_credit items + t.producer_qty_total)
    × (adjusted_so_far t'.rounding_items ≡ adjusted_by items + adjusted_so_far t.rounding_items)
    × (length t'.rounding_items ≡ count_of is_rounding items + length t.rounding_items)

add_items-Collected :
    (price fee : ℕ) (items : List Item) (t : Totals) {t' : Totals}
    → add_items price fee items t ≡ ok t'
    → Collected items t t'
unfolding add_items
add_items-Collected price fee [] t h =
    (ground arith, ground arith, ground arith, ground arith, ground arith, ground arith)
add_items-Collected price fee (item ∷ items) t h =
    let (amount, quantity, t1, e, e1, h1) = add_items-step price fee item items t h in
    let (c, p, cq, pq, a, l) =
      add_line-energy item.item_type item.participant_id amount quantity t e1 in
    let (c', p', cq', pq', a', l') = add_items-Collected price fee items t1 h1 in
    let own = validated_line_item-amount item price fee e in
    let kwh = validated_line_item-quantity item price fee e in
    (
      ground arith,
      ground arith,
      elim (Bool-cases (is_charge item.item_type)) [
        | inl b ↦ let own = kwh (ground arith) in ground arith
        | inr b ↦ ground arith
      ],
      elim (Bool-cases (is_credit item.item_type)) [
        | inl b ↦ let own = kwh (ground arith) in ground arith
        | inr b ↦ ground arith
      ],
      ground arith,
      ground arith,
    )

-- If a draft passes, then the energy of its charges and of its credits differs by at most half a
-- millionth of a kWh for each of these lines.
wellformed-energy_bound :
    (items : List Item) (price fee : ℕ) {t : Totals}
    → require_wellformed_line_items items price fee ≡ ok t
    → 2 * distance (billed_kwh is_charge items) (billed_kwh is_credit items)
      ≤ count_of is_charge items + count_of is_credit items
wellformed-energy_bound items price fee h =
    let (loop, energy, fees, rounding) = wellformed-parts items price fee h in
    let (c, p, cq, pq, a, l) = add_items-Collected price fee items no_totals loop in ground arith

require_rounding_adjustment-bound :
    (producer : ℕ) (rows : List (ℕ × ℤ)) (total : ℤ) (bound : ℕ)
    → require_rounding_adjustment producer rows total bound ≡ ok tt
    → (length rows ≤ 1) × (adjusted_so_far rows * 1_000_000 ≤ bound)
unfolding require_rounding_adjustment
require_rounding_adjustment-bound producer [] total bound h = (ground arith, ground arith)
require_rounding_adjustment-bound producer ((p, amount) ∷ []) total bound h =
    (ground arith, ground arith)
require_rounding_adjustment-bound producer (r ∷ s ∷ rs) total bound h = ground arith

require_rounding-bound :
    (price : ℕ) (rows : List (ℕ × ℕ)) (t : Totals)
    → require_rounding price rows t ≡ ok tt
    → (length t.rounding_items ≤ 1)
      × (adjusted_so_far t.rounding_items * 1_000_000
          ≤ quantity_mismatch t * price + 500_000 * non_rounding_count t)
unfolding require_rounding
require_rounding-bound price [] t h = elim (t.rounding_items) [
  | [] ↦ (ground arith, ground arith)
  | r ∷ rs ↦ ground arith
]
require_rounding-bound price ((p, kwh) ∷ rows) t h =
    require_rounding_adjustment-bound (smallest p rows) t.rounding_items t.non_rounding_total
      (quantity_mismatch t * price + 500_000 * non_rounding_count t) h

halved :
    (m n price a : ℕ)
    → 2 * m ≤ n
    → a * 1_000_000 ≤ m * price + 500_000 * n
    → 2_000_000 * a ≤ n * (price + 1_000_000)
halved m n price a half bound = let scaled = mul-le-mul_left price half in omega arith

-- If a draft passes, then it has at most one rounding adjustment, of a size of at most half a
-- millionth of a franc, and half the price of a millionth of a kWh, for each charge and credit.
pub wellformed-rounding_bound :
    (items : List Item) (price fee : ℕ) {t : Totals}
    → require_wellformed_line_items items price fee ≡ ok t
    → (count_of is_rounding items ≤ 1)
      × (2_000_000 * adjusted_by items
          ≤ (count_of is_charge items + count_of is_credit items) * (price + 1_000_000))
wellformed-rounding_bound items price fee {t} h =
    let (loop, energy, fees, rounding) = wellformed-parts items price fee h in
    let (c, p, cq, pq, a, l) = add_items-Collected price fee items no_totals loop in
    let (one, adjusted) = require_rounding-bound price t.production_kwh t rounding in
    (
      ground arith,
      halved (quantity_mismatch t) (count_of is_charge items + count_of is_credit items) price
          (adjusted_by items) (ground arith) (ground arith),
    )
