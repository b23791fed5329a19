-- ===== src/Approval/Balance.antt =====
-- billing_approval.py: what `_require_wellformed_line_items` promises of the amounts in the pool, that
-- is the charges, the credits and the rounding adjustment.
use openleg.Prelude.{
  ℕ, ◌+◌, ◌*◌, ◌<◌, ◌≡◌, sym, ◌∙◌, ap, Bool, true, false, inl, inr, Option, none, some, List, [],
  ◌∷◌, count, length, arith, if◌then◌else◌, ok, Bool-cases,
}
use openleg.Prelude.Int.{ℤ, pos, ◌+ℤ◌, ◌-ℤ◌, int_laws, eq_of_eq_ℤ}
use openleg.Approval.Lines.{ItemType, Item}
use openleg.Approval.Totals.{
  Totals, no_totals, add_line, add_items, smallest, quantity_mismatch, non_rounding_count,
  require_rounding_adjustment, require_rounding, require_wellformed_line_items,
}
use openleg.Approval.Passed.{validated_line_item-amount, add_items-step, wellformed-parts}

-- Whether an amount of the type is in the pool.
abbrev pub is_pooled : ItemType → Bool
is_pooled ItemType.consumer_charge = true
is_pooled ItemType.producer_credit = true
is_pooled ItemType.rounding_adjustment = true
is_pooled _ = false

abbrev pub is_credit : ItemType → Bool
is_credit ItemType.producer_credit = true
is_credit _ = false

abbrev or_zero : Option ℤ → ℤ
or_zero none = pos 0
or_zero (some amount) = amount

abbrev pub amount_of : Item → ℤ
amount_of item = or_zero item.amount_chf

-- The sum of the amounts in the pool.
unfoldable pub pooled_total : List Item → ℤ
pooled_total [] = pos 0
pooled_total (item ∷ items) =
    (if is_pooled item.item_type then amount_of item else pos 0) +ℤ pooled_total items

unfoldable rounding_total : List (ℕ × ℤ) → ℤ
rounding_total [] = pos 0
rounding_total ((p, amount) ∷ rows) = amount +ℤ rounding_total rows

-- What the loop has put into the pool.
unfoldable pooled_so_far : Totals → ℤ
pooled_so_far t = t.non_rounding_total +ℤ rounding_total t.rounding_items

+ℤ_swap : (a b c : ℤ) → a +ℤ (b +ℤ c) ≡ (a +ℤ c) +ℤ b
+ℤ_swap a b c = omega int_laws

+ℤ_swap' : (a b c : ℤ) → (a +ℤ b) +ℤ c ≡ (a +ℤ c) +ℤ b
+ℤ_swap' a b c = omega int_laws

pub +ℤ_assoc : (a b c : ℤ) → (a +ℤ b) +ℤ c ≡ a +ℤ (b +ℤ c)
+ℤ_assoc a b c = omega int_laws

+ℤ_negate : (a : ℤ) → a +ℤ ((pos 0 -ℤ a) +ℤ pos 0) ≡ pos 0
+ℤ_negate a = omega int_laws

pub +ℤ_zero : (a : ℤ) → a ≡ a +ℤ pos 0
+ℤ_zero a = omega int_laws

-- A round of the loop adds an amount of the pool, and nothing else.
add_line-pool :
    (type : ItemType) (p : ℕ) (amount : ℤ) (quantity : Option ℕ) (t : Totals) {t' : Totals}
    → add_line type p amount quantity t ≡ ok t'
    → pooled_so_far t' ≡ pooled_so_far t +ℤ (if is_pooled type then amount else pos 0)
unfolding add_line pooled_so_far rounding_total
add_line-pool ItemType.rounding_adjustment p amount quantity t h =
    ground (arith, +ℤ_swap t.non_rounding_total amount (rounding_total t.rounding_items))
add_line-pool ItemType.battery_cost_share p amount quantity t h =
    ground (arith, +ℤ_zero (t.non_rounding_total +ℤ rounding_total t.rounding_items))
add_line-pool ItemType.consumer_charge p amount (some q) t h =
    ground (arith, +ℤ_swap' t.non_rounding_total amount (rounding_total t.rounding_items))
add_line-pool ItemType.producer_credit p amount (some q) t h =
    ground (arith, +ℤ_swap' t.non_rounding_total amount (rounding_total t.rounding_items))
add_line-pool ItemType.settlement_fee p amount (some q) t h =
    ground (arith, +ℤ_zero (t.non_rounding_total +ℤ rounding_total t.rounding_items))
add_line-pool ItemType.settlement_fee p amount none t h = ground arith
add_line-pool ItemType.producer_credit p amount none t h = ground arith
add_line-pool ItemType.consumer_charge p amount none t h = ground arith

-- A round of the loop notes a credit of a participant exactly for a credit.
add_line-credits :
    (type : ItemType) (p : ℕ) (amount : ℤ) (quantity : Option ℕ) (t : Totals) {t' : Totals}
    → add_line type p amount quantity t ≡ ok t'
    → length t'.production_kwh ≡ (if is_credit type then 1 else 0) + length t.production_kwh
unfolding add_line
add_line-credits type p amount quantity t h = elim type [
  | ItemType.rounding_adjustment ↦ ground arith
  | ItemType.battery_cost_share ↦ ground arith
  | _ ↦ elim quantity [ none ↦ ground arith | some q ↦ ground arith ]
]

-- The rounds of the loop together.
add_items-pool :
    (price fee : ℕ) (items : List Item) (t : Totals) {t' : Totals}
    → add_items price fee items t ≡ ok t'
    → pooled_so_far t' ≡ pooled_so_far t +ℤ pooled_total items
unfolding add_items pooled_total
add_items-pool price fee [] t h = ground (arith, +ℤ_zero (pooled_so_far t))
add_items-pool price fee (item ∷ items) t h =
    let (amount, quantity, t1, e, e1, h1) = add_items-step price fee item items t h in
    let line = add_line-pool item.item_type item.participant_id amount quantity t e1 in
    let rest = add_items-pool price fee items t1 h1 in
    let own = ap or_zero (validated_line_item-amount item price fee e) in
    elim (Bool-cases (is_pooled item.item_type)) [
      | inl c ↦ ground (arith, +ℤ_assoc (pooled_so_far t) amount (pooled_total items))
      | inr c ↦ ground (arith, +ℤ_assoc (pooled_so_far t) (pos 0) (pooled_total items))
    ]

-- The number of the credits.
abbrev pub credit_count : List Item → ℕ
credit_count items = count (λ item. is_credit item.item_type) items

add_items-credits :
    (price fee : ℕ) (items : List Item) (t : Totals) {t' : Totals}
    → add_items price fee items t ≡ ok t'
    → length t'.production_kwh ≡ credit_count items + length t.production_kwh
unfolding add_items
add_items-credits price fee [] t h = ground arith
add_items-credits price fee (item ∷ items) t h =
    let (amount, quantity, t1, e, e1, h1) = add_items-step price fee item items t h in
    let line = add_line-credits item.item_type item.participant_id amount quantity t e1 in
    let rest = add_items-credits price fee items t1 h1 in
    elim (Bool-cases (is_credit item.item_type)) [ inl c ↦ ground arith | inr c ↦ ground arith ]

-- The adjustment closes the pool.
require_rounding_adjustment-closes :
    (producer : ℕ) (rows : List (ℕ × ℤ)) (total : ℤ) (bound : ℕ)
    → require_rounding_adjustment producer rows total bound ≡ ok tt
    → total +ℤ rounding_total rows ≡ pos 0
unfolding require_rounding_adjustment rounding_total
require_rounding_adjustment-closes producer [] total bound h =
    ground (arith, +ℤ_zero total, eq_of_eq_ℤ total (pos 0))
require_rounding_adjustment-closes producer ((p, amount) ∷ []) total bound h =
    ground (arith, +ℤ_negate total, eq_of_eq_ℤ amount (pos 0 -ℤ total))
require_rounding_adjustment-closes producer (r ∷ s ∷ rs) total bound h = ground arith

require_rounding-closes :
    (price : ℕ) (rows : List (ℕ × ℕ)) (t : Totals)
    → require_rounding price rows t ≡ ok tt
    → 0 < length rows
    → pooled_so_far t ≡ pos 0
unfolding require_rounding pooled_so_far
require_rounding-closes price [] t h l = ground arith
require_rounding-closes price ((p, kwh) ∷ rows) t h l =
    require_rounding_adjustment-closes (smallest p rows) t.rounding_items t.non_rounding_total
      (quantity_mismatch t * price + 500_000 * non_rounding_count t) h

+ℤ_none : (a : ℤ) → (pos 0 +ℤ pos 0) +ℤ a ≡ a
+ℤ_none a = omega int_laws

-- If a draft with a credit passes, then the amounts of its charges, credits and rounding adjustment
-- sum to zero.
pub wellformed-balanced :
    (items : List Item) (price fee : ℕ) {t : Totals}
    → require_wellformed_line_items items price fee ≡ ok t
    → 0 < credit_count items
    → pooled_total items ≡ pos 0
unfolding pooled_so_far rounding_total
wellformed-balanced items price fee {t} h c =
    let (loop, energy, fees, rounding) = wellformed-parts items price fee h in
    let noted = add_items-credits price fee items no_totals loop in
    let closed = require_rounding-closes price t.production_kwh t rounding (ground arith) in
    let pooled = add_items-pool price fee items no_totals loop in
    sym (+ℤ_none (pooled_total items)) ∙ sym pooled ∙ closed
