-- ===== src/Approval/Settlement.antt =====
-- billing_approval.py: what the invoices of `prepare_invoice_snapshots` charge together.
use openleg.Prelude.{
  ℕ, suc, ◌*◌, ◌≤◌, ◌<◌, ◌≡◌, refl, ap, sym, ◌∙◌, Bool, false, List, [], ◌∷◌, map, length, arith,
  inl, inr, if◌then◌else◌, ok, Result-cases, any,
}
use openleg.Prelude.Int.{ℤ, pos, ◌+ℤ◌, int_laws}
use openleg.Approval.Lines.{ItemType, Item, type_eq}
use openleg.Approval.Totals.{Totals, require_wellformed_line_items}
use openleg.Approval.Balance.{is_pooled, pooled_total, credit_count, wellformed-balanced, amount_of}
use openleg.Approval.Policy.{ValidPolicy}
use openleg.Approval.Participants.{
  participants, items_of, sum_amounts, split_total, split_total-participants,
}
use openleg.Approval.Snapshots.{
  Period, Date, Snapshot, half_up, times, snapshot_of, require_period, valid_policy,
  prepare_invoice_snapshots,
}
use openleg.Approval.Reconciliation.{require_canonical_reconciliation}
use openleg.Approval.Rounding.{distance_ℤ, distance-pos, half_up-near, times-add, distance-add}

-- The nets of the invoices together, in cents.
unfoldable pub sum_nets : List Snapshot → ℤ
sum_nets [] = pos 0
sum_nets (s ∷ ss) = s.net_chf +ℤ sum_nets ss

sum_nets-near :
    (period : Period) (date : Date) (policy : ValidPolicy) (items : List Item) (ps : List ℕ)
    → 2
        * distance_ℤ
            (times (sum_nets (map (snapshot_of period date policy items) ps)) 10_000)
            (split_total ps items)
      ≤ 10_000 * length ps
unfolding sum_nets snapshot_of split_total
sum_nets-near period date policy items [] = ground (arith, distance-pos 0 0)
sum_nets-near period date policy items (p ∷ ps) =
    let own = sum_amounts (items_of p items) in
    let near = half_up-near own in
    let rest = sum_nets-near period date policy items ps in
    let nets = sum_nets (map (snapshot_of period date policy items) ps) in
    let sum = times-add (half_up own) nets in
    let both =
      distance-add (times (half_up own) 10_000) (times nets 10_000) own (split_total ps items) in
    let all = ap (λ t. distance_ℤ t (own +ℤ split_total ps items)) sum in omega arith

-- The sum of the settlement fees.
unfoldable pub fee_total : List Item → ℤ
fee_total [] = pos 0
fee_total (item ∷ items) =
    (if type_eq item.item_type ItemType.settlement_fee then amount_of item else pos 0)
    +ℤ fee_total items

abbrev is_share : Item → Bool
is_share item = type_eq item.item_type ItemType.battery_cost_share

pool_apart : (a b c : ℤ) → a +ℤ (b +ℤ c) ≡ (a +ℤ b) +ℤ (pos 0 +ℤ c)
pool_apart a b c = omega int_laws

fee_apart : (a b c : ℤ) → a +ℤ (b +ℤ c) ≡ (pos 0 +ℤ b) +ℤ (a +ℤ c)
fee_apart a b c = omega int_laws

pool_or_fee :
    (type : ItemType) (a rest pool fees : ℤ)
    → type_eq type ItemType.battery_cost_share ≡ false
    → rest ≡ pool +ℤ fees
    → a +ℤ rest
      ≡ ((if is_pooled type then a else pos 0) +ℤ pool)
        +ℤ ((if type_eq type ItemType.settlement_fee then a else pos 0) +ℤ fees)
pool_or_fee ItemType.battery_cost_share a rest pool fees h e = ground arith
pool_or_fee ItemType.settlement_fee a rest pool fees h e =
    ap (λ r. a +ℤ r) e ∙ fee_apart a pool fees
pool_or_fee ItemType.consumer_charge a rest pool fees h e =
    ap (λ r. a +ℤ r) e ∙ pool_apart a pool fees
pool_or_fee ItemType.producer_credit a rest pool fees h e =
    ap (λ r. a +ℤ r) e ∙ pool_apart a pool fees
pool_or_fee ItemType.rounding_adjustment a rest pool fees h e =
    ap (λ r. a +ℤ r) e ∙ pool_apart a pool fees

-- Without battery shares an amount is in the pool or a fee.
sum_amounts-split :
    (items : List Item)
    → any is_share items ≡ false
    → sum_amounts items ≡ pooled_total items +ℤ fee_total items
unfolding sum_amounts pooled_total fee_total
sum_amounts-split [] h = omega int_laws
sum_amounts-split (item ∷ items) h =
    let rest = sum_amounts-split items (ground arith) in
    pool_or_fee item.item_type (amount_of item) (sum_amounts items) (pooled_total items)
      (fee_total items) (ground arith) rest

length-map : {A B : Type 0} (f : A → B) (xs : List A) → length (map f xs) ≡ length xs
length-map f [] = refl
length-map f (x ∷ xs) = ap suc (length-map f xs)

prepare-parts :
    (period : Period) (items : List Item) (date : Date) {ss : List Snapshot}
    → prepare_invoice_snapshots period items date ≡ ok ss
    → (policy : ValidPolicy) × (t : Totals) × (require_wellformed_line_items items
          policy.internal_price policy.settlement_fee
        ≡ ok t)
      × (any is_share items ≡ false)
      × (ss ≡ map (snapshot_of period date policy items) (participants items))
unfolding prepare_invoice_snapshots
prepare-parts period items date h = elim (Result-cases (require_period period)) [
  | inl (x, e) ↦ ground arith
  | inr (u, e) ↦ elim (Result-cases (valid_policy period)) [
    | inl (x, f) ↦ ground arith
    | inr (policy, f) ↦
        elim (Result-cases
          (require_wellformed_line_items items policy.internal_price policy.settlement_fee)) [
            | inl (x, g) ↦ ground arith
            | inr (t, g) ↦
                elim (Result-cases (
                  require_canonical_reconciliation period.reconciliation t.consumption_kwh
                    t.production_kwh false)) [
                      | inl (x, k) ↦ ground arith
                      | inr (v, k) ↦ (policy, t, g, ground arith, ground arith)
                    ]
          ]
  ]
]

zero_left : (a : ℤ) → pos 0 +ℤ a ≡ a
zero_left a = omega int_laws

-- If the invoices of a draft with a credit are prepared, then their net amounts together differ from
-- its settlement fees by at most half a cent for each invoice.
pub prepare-settles :
    (period : Period) (items : List Item) (date : Date) {ss : List Snapshot}
    → prepare_invoice_snapshots period items date ≡ ok ss
    → 0 < credit_count items
    → 2 * distance_ℤ (times (sum_nets ss) 10_000) (fee_total items) ≤ 10_000 * length ss
prepare-settles period items date {ss} h c =
    let (policy, t, wellformed, shares, same) = prepare-parts period items date h in
    let balanced =
      wellformed-balanced items policy.internal_price policy.settlement_fee wellformed c in
    let fees =
      split_total-participants items
      ∙ sum_amounts-split items shares
      ∙ ap (λ pool. pool +ℤ fee_total items) balanced
      ∙ zero_left (fee_total items) in
    let near = sum_nets-near period date policy items (participants items) in
    let few = length-map (snapshot_of period date policy items) (participants items) in
    let off = ap (λ total. distance_ℤ (times (sum_nets ss) 10_000) total) (sym fees) in
    let nets =
      ap (λ s. distance_ℤ (times (sum_nets s) 10_000) (split_total (participants items) items))
        same in
    let many = ap length same in omega arith
