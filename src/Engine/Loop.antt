-- ===== src/Engine/Loop.antt =====
-- billing_engine.py and billing_approval.py: the loop of the approval over the lines of the engine.
use openleg.Prelude.{
  ℕ, zero, suc, ◌+◌, ◌==◌, ◌≡◌, refl, ◌∙◌, Bool, true, false, some, List, [], ◌∷◌, ◌++◌, All, arith,
  ok, ==_refl,
}
use openleg.Prelude.Int.{ℤ, pos, negsuc, negate, eq_ℤ, ltb_ℤ, ◌+ℤ◌}
use openleg.Approval.Lines.{
  ItemType, type_eq, Item, priced, validated_line_item, validated_by, priced_item,
}
use openleg.Approval.Totals.{Totals, add_line, add_items, is_seen}
use openleg.Engine.{charge_line, fee_line, credit_line, priced_lines, credit_lines}

pub eq_ℤ_refl : (a : ℤ) → eq_ℤ a a ≡ true
eq_ℤ_refl (pos n) = ==_refl n
eq_ℤ_refl (negsuc n) = ==_refl n

charge_line-valid :
    (price fee : ℕ) (r : ℕ × ℕ)
    → validated_line_item (charge_line price r) price fee ≡ ok (pos (priced r.1 price), some r.1)
unfolding validated_line_item validated_by priced_item
charge_line-valid price fee r = ground (arith, ==_refl price, ==_refl (priced r.1 price))

fee_line-valid :
    (price fee : ℕ) (r : ℕ × ℕ)
    → validated_line_item (fee_line fee r) price fee ≡ ok (pos (priced r.1 fee), some r.1)
unfolding validated_line_item validated_by priced_item
fee_line-valid price fee r = ground (arith, ==_refl fee, ==_refl (priced r.1 fee))

credit_line-valid :
    (price fee : ℕ) (r : ℕ × ℕ)
    → validated_line_item (credit_line price r) price fee ≡ ok (negate (priced r.1 price), some r.1)
unfolding validated_line_item validated_by priced_item
credit_line-valid price fee r = ground (arith, ==_refl price, eq_ℤ_refl (negate (priced r.1 price)))

-- The totals behind a line.
abbrev pub charged : ℕ → ℕ × ℕ → Totals → Totals
charged price (p, q) t = record t {
  seen_non_rounding_keys = (p, ItemType.consumer_charge) ∷ t.seen_non_rounding_keys;
  consumption_kwh = (p, q) ∷ t.consumption_kwh;
  consumer_count = t.consumer_count + 1;
  consumer_qty_total = t.consumer_qty_total + q;
  non_rounding_total = t.non_rounding_total +ℤ pos (priced q price);
}

abbrev pub with_fee : ℕ × ℕ → Totals → Totals
with_fee (p, q) t = record t {
  seen_non_rounding_keys = (p, ItemType.settlement_fee) ∷ t.seen_non_rounding_keys;
  settlement_quantities = (p, q) ∷ t.settlement_quantities;
}

abbrev pub credited : ℕ → ℕ × ℕ → Totals → Totals
credited price (p, q) t = record t {
  seen_non_rounding_keys = (p, ItemType.producer_credit) ∷ t.seen_non_rounding_keys;
  production_kwh = (p, q) ∷ t.production_kwh;
  producer_count = t.producer_count + 1;
  producer_qty_total = t.producer_qty_total + q;
  non_rounding_total = t.non_rounding_total +ℤ negate (priced q price);
}

abbrev Unseen : ItemType → ℕ → Totals → Type 0
Unseen type p t = is_seen p type t.seen_non_rounding_keys ≡ false

abbrev AllUnseen : ItemType → List (ℕ × ℕ) → List (ℕ × ItemType) → Type 0
AllUnseen type rows seen = All (λ r. is_seen r.0 type seen ≡ false) rows

abbrev pub Apart : ℕ → List (ℕ × ℕ) → Type 0
Apart p rows = All (λ r. (p == r.0) ≡ false) rows

-- Each participant has one row.
abbrev pub Distinct : List (ℕ × ℕ) → Type 0
Distinct [] = Unit
Distinct (r ∷ rows) = Apart r.0 rows × Distinct rows

AllUnseen-apart :
    (type other : ItemType) (p : ℕ) (rows : List (ℕ × ℕ)) (seen : List (ℕ × ItemType))
    → Apart p rows
    → AllUnseen type rows seen
    → AllUnseen type rows ((p, other) ∷ seen)
AllUnseen-apart type other p [] seen a h = tt
AllUnseen-apart type other p (r ∷ rows) seen (a, rest) (h, hs) =
    (ground arith, AllUnseen-apart type other p rows seen rest hs)

add_charge :
    (price fee : ℕ) (r : ℕ × ℕ) (items : List Item) (t : Totals)
    → Unseen ItemType.consumer_charge r.0 t
    → add_items price fee (charge_line price r ∷ items) t
      ≡ add_items price fee items (charged price r t)
unfolding add_items add_line
add_charge price fee r items t h = ground (arith, charge_line-valid price fee r)

add_fee :
    (price fee : ℕ) (r : ℕ × ℕ) (items : List Item) (t : Totals)
    → Unseen ItemType.settlement_fee r.0 t
    → add_items price fee (fee_line fee r ∷ items) t ≡ add_items price fee items (with_fee r t)
unfolding add_items add_line
add_fee price fee r items t h = ground (arith, fee_line-valid price fee r)

negate-not_positive : (n : ℕ) → ltb_ℤ (pos 0) (negate n) ≡ false
negate-not_positive zero = refl
negate-not_positive (suc n) = ground arith

add_credit :
    (price fee : ℕ) (r : ℕ × ℕ) (items : List Item) (t : Totals)
    → Unseen ItemType.producer_credit r.0 t
    → add_items price fee (credit_line price r ∷ items) t
      ≡ add_items price fee items (credited price r t)
unfolding add_items add_line
add_credit price fee r items t h =
    ground (arith, credit_line-valid price fee r, negate-not_positive (priced r.1 price))

-- The totals behind the lines of a consumer, of all consumers, and of all producers.
abbrev pub after_consumers : Bool → ℕ → List (ℕ × ℕ) → Totals → Totals
after_consumers has_fee price [] t = t
after_consumers true price (r ∷ rows) t =
    after_consumers true price rows (with_fee r (charged price r t))
after_consumers false price (r ∷ rows) t = after_consumers false price rows (charged price r t)

abbrev pub after_credits : ℕ → List (ℕ × ℕ) → Totals → Totals
after_credits price [] t = t
after_credits price (r ∷ rows) t = after_credits price rows (credited price r t)

pub add_consumers :
    (has_fee : Bool) (price fee : ℕ) (rows : List (ℕ × ℕ)) (items : List Item) (t : Totals)
    → Distinct rows
    → AllUnseen ItemType.consumer_charge rows t.seen_non_rounding_keys
    → AllUnseen ItemType.settlement_fee rows t.seen_non_rounding_keys
    → add_items price fee (priced_lines has_fee price fee rows ++ items) t
      ≡ add_items price fee items (after_consumers has_fee price rows t)
unfolding priced_lines
add_consumers has_fee price fee [] items t d c f = refl
add_consumers true price fee ((p, q) ∷ rows) items t (a, d) (c, cs) (f, fs) =
    let seen = t.seen_non_rounding_keys in
    let seen' = (p, ItemType.consumer_charge) ∷ seen in
    add_charge price fee (p, q) (fee_line fee (p, q) ∷ priced_lines true price fee rows ++ items) t
      c
    ∙ add_fee price fee (p, q) (priced_lines true price fee rows ++ items) (charged price (p, q) t)
        (ground arith)
    ∙ add_consumers true price fee rows items (with_fee (p, q) (charged price (p, q) t)) d
        (AllUnseen-apart ItemType.consumer_charge ItemType.settlement_fee p rows seen' a
          (AllUnseen-apart ItemType.consumer_charge ItemType.consumer_charge p rows seen a cs))
        (AllUnseen-apart ItemType.settlement_fee ItemType.settlement_fee p rows seen' a
          (AllUnseen-apart ItemType.settlement_fee ItemType.consumer_charge p rows seen a fs))
add_consumers false price fee ((p, q) ∷ rows) items t (a, d) (c, cs) (f, fs) =
    let seen = t.seen_non_rounding_keys in
    add_charge price fee (p, q) (priced_lines false price fee rows ++ items) t c
    ∙ add_consumers false price fee rows items (charged price (p, q) t) d
        (AllUnseen-apart ItemType.consumer_charge ItemType.consumer_charge p rows seen a cs)
        (AllUnseen-apart ItemType.settlement_fee ItemType.consumer_charge p rows seen a fs)

pub add_credits :
    (price fee : ℕ) (rows : List (ℕ × ℕ)) (items : List Item) (t : Totals)
    → Distinct rows
    → AllUnseen ItemType.producer_credit rows t.seen_non_rounding_keys
    → add_items price fee (credit_lines price rows ++ items) t
      ≡ add_items price fee items (after_credits price rows t)
unfolding credit_lines
add_credits price fee [] items t d c = refl
add_credits price fee ((p, q) ∷ rows) items t (a, d) (c, cs) =
    add_credit price fee (p, q) (credit_lines price rows ++ items) t c
    ∙ add_credits price fee rows items (credited price (p, q) t) d (
        AllUnseen-apart ItemType.producer_credit ItemType.producer_credit p rows
          t.seen_non_rounding_keys a cs)

AllUnseen-other :
    (type other : ItemType) (p : ℕ) (rows : List (ℕ × ℕ)) (seen : List (ℕ × ItemType))
    → type_eq other type ≡ false
    → AllUnseen type rows seen
    → AllUnseen type rows ((p, other) ∷ seen)
AllUnseen-other type other p [] seen a h = tt
AllUnseen-other type other p (r ∷ rows) seen a (h, hs) =
    (ground arith, AllUnseen-other type other p rows seen a hs)

-- The lines of the consumers leave the credits unseen.
pub after_consumers-credits :
    (has_fee : Bool) (price : ℕ) (rows producers : List (ℕ × ℕ)) (t : Totals)
    → AllUnseen ItemType.producer_credit producers t.seen_non_rounding_keys
    → AllUnseen ItemType.producer_credit producers
        (after_consumers has_fee price rows t).seen_non_rounding_keys
after_consumers-credits has_fee price [] producers t h = h
after_consumers-credits true price ((p, q) ∷ rows) producers t h =
    after_consumers-credits true price rows producers (with_fee (p, q) (charged price (p, q) t)) (
      AllUnseen-other ItemType.producer_credit ItemType.settlement_fee p producers
        ((p, ItemType.consumer_charge) ∷ t.seen_non_rounding_keys) refl
        (AllUnseen-other ItemType.producer_credit ItemType.consumer_charge p producers
          t.seen_non_rounding_keys refl h))
after_consumers-credits false price ((p, q) ∷ rows) producers t h =
    after_consumers-credits false price rows producers (charged price (p, q) t) (
      AllUnseen-other ItemType.producer_credit ItemType.consumer_charge p producers
        t.seen_non_rounding_keys refl h)

pub AllUnseen-none : (type : ItemType) (rows : List (ℕ × ℕ)) → AllUnseen type rows []
AllUnseen-none type [] = tt
AllUnseen-none type (r ∷ rows) = (refl, AllUnseen-none type rows)
