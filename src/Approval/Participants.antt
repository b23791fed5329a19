-- ===== src/Approval/Participants.antt =====
-- billing_approval.py: `sorted({item["participant_id"] for item in line_items})`, and the sum of what
-- is split by the participants.
use openleg.Prelude.{
  ℕ, ◌<◌, ◌⊎◌, ◌==◌, ◌≡◌, refl, sym, ap, ◌∙◌, inl, inr, List, [], ◌∷◌, All, count, select, arith,
  if◌then◌else◌, ltb, Bool-cases,
}
use mathlib.Core.Path.{subst}
use openleg.Prelude.Int.{ℤ, pos, ◌+ℤ◌, int_laws}
use openleg.Approval.Lines.{Item}
use openleg.Approval.Balance.{amount_of, +ℤ_assoc, +ℤ_zero}

abbrev insert : ℕ → List ℕ → List ℕ
insert p [] = p ∷ []
insert p (q ∷ qs) =
    let rest = insert p qs in if ltb p q then p ∷ q ∷ qs else if p == q then q ∷ qs else q ∷ rest

unfoldable pub participants : List Item → List ℕ
participants [] = []
participants (item ∷ items) = insert item.participant_id (participants items)

abbrev pub items_of : ℕ → List Item → List Item
items_of p items = select (λ item. item.participant_id == p) items

-- The sum of the amounts.
unfoldable pub sum_amounts : List Item → ℤ
sum_amounts [] = pos 0
sum_amounts (item ∷ items) = amount_of item +ℤ sum_amounts items

-- In ascending order, each once.
abbrev Ascending : List ℕ → Type 0
Ascending [] = Unit
Ascending (p ∷ ps) = All (λ q. p < q) ps × Ascending ps

All-below : (p q : ℕ) (ps : List ℕ) → p < q → All (λ r. q < r) ps → All (λ r. p < r) ps
All-below p q [] l h = tt
All-below p q (r ∷ rs) l (h, hs) = (omega arith, All-below p q rs l hs)

insert-cases :
    (p q : ℕ) (qs : List ℕ)
    → ((p < q) × (insert p (q ∷ qs) ≡ p ∷ q ∷ qs))
      ⊎ (((p ≡ q) × (insert p (q ∷ qs) ≡ q ∷ qs))
          ⊎ ((q < p) × (insert p (q ∷ qs) ≡ q ∷ insert p qs)))
insert-cases p q qs = elim (Bool-cases (ltb p q)) [
  | inl e ↦ inl (ground arith, ground arith)
  | inr e ↦ elim (Bool-cases (p == q)) [
    | inl f ↦ inr (inl (ground arith, ground arith))
    | inr f ↦ inr (inr (ground arith, ground arith))
  ]
]

All-insert : (m p : ℕ) (ps : List ℕ) → m < p → All (λ q. m < q) ps → All (λ q. m < q) (insert p ps)
All-insert m p [] l h = (l, tt)
All-insert m p (q ∷ qs) l (h, hs) = elim (insert-cases p q qs) [
  | inl (c, e) ↦ subst (All (λ q. m < q)) (sym e) (l, (h, hs))
  | inr (inl (c, e)) ↦ subst (All (λ q. m < q)) (sym e) (h, hs)
  | inr (inr (c, e)) ↦ subst (All (λ q. m < q)) (sym e) (h, All-insert m p qs l hs)
]

insert-Ascending : (p : ℕ) (ps : List ℕ) → Ascending ps → Ascending (insert p ps)
insert-Ascending p [] h = (tt, tt)
insert-Ascending p (q ∷ qs) (h, hs) = elim (insert-cases p q qs) [
  | inl (c, e) ↦ subst Ascending (sym e) ((c, All-below p q qs c h), (h, hs))
  | inr (inl (c, e)) ↦ subst Ascending (sym e) (h, hs)
  | inr (inr (c, e)) ↦ subst Ascending (sym e) (All-insert q p qs c h, insert-Ascending p qs hs)
]

count-above : (p r : ℕ) (ps : List ℕ) → p ≡ r → All (λ q. p < q) ps → count (λ q. q == r) ps ≡ 0
count-above p r [] same h = refl
count-above p r (q ∷ qs) same (h, hs) = ground (arith, count-above p r qs same hs)

count-insert :
    (p r : ℕ) (ps : List ℕ)
    → Ascending ps
    → count (λ q. q == r) (insert p ps) ≡ (if p == r then 1 else count (λ q. q == r) ps)
count-insert p r [] h = ground arith
count-insert p r (q ∷ qs) (h, hs) = elim (insert-cases p q qs) [
  | inl (c, e) ↦ ap (count (λ q. q == r)) e ∙ elim (Bool-cases (p == r)) [
    | inl f ↦
        let none_above = count-above p r (q ∷ qs) (ground arith) (c, All-below p q qs c h) in
        ground arith
    | inr f ↦ ground arith
  ]
  | inr (inl (c, e)) ↦ ap (count (λ q. q == r)) e ∙ elim (Bool-cases (p == r)) [
    | inl f ↦ let none_above = count-above q r qs (ground arith) h in ground arith
    | inr f ↦ ground arith
  ]
  | inr (inr (c, e)) ↦ ap (count (λ q. q == r)) e ∙ elim (Bool-cases (p == r)) [
    | inl f ↦ ground (arith, count-insert p r qs hs)
    | inr f ↦ ground (arith, count-insert p r qs hs)
  ]
]

participants-Ascending : (items : List Item) → Ascending (participants items)
unfolding participants
participants-Ascending [] = tt
participants-Ascending (item ∷ items) =
    insert-Ascending item.participant_id (participants items) (participants-Ascending items)

-- What a list of participants splits off, together.
unfoldable pub split_total : List ℕ → List Item → ℤ
split_total [] items = pos 0
split_total (p ∷ ps) items = sum_amounts (items_of p items) +ℤ split_total ps items

+ℤ_left_comm : (a b c : ℤ) → a +ℤ (b +ℤ c) ≡ b +ℤ (a +ℤ c)
+ℤ_left_comm a b c = omega int_laws

sum-items_of :
    (p : ℕ) (item : Item) (items : List Item)
    → sum_amounts (items_of p (item ∷ items)) ≡ (
        if item.participant_id == p
        then amount_of item +ℤ sum_amounts (items_of p items)
        else sum_amounts (items_of p items))
unfolding sum_amounts
sum-items_of p item items = elim (Bool-cases (item.participant_id == p)) [
  | inl e ↦ ground arith
  | inr e ↦ ground arith
]

split_total-skips :
    (ps : List ℕ) (item : Item) (items : List Item)
    → count (λ q. q == item.participant_id) ps ≡ 0
    → split_total ps (item ∷ items) ≡ split_total ps items
unfolding split_total
split_total-skips [] item items h = refl
split_total-skips (p ∷ ps) item items h =
    ground (arith, sum-items_of p item items, split_total-skips ps item items)

split_total-takes :
    (ps : List ℕ) (item : Item) (items : List Item)
    → count (λ q. q == item.participant_id) ps ≡ 1
    → split_total ps (item ∷ items) ≡ amount_of item +ℤ split_total ps items
unfolding split_total
split_total-takes [] item items h = ground arith
split_total-takes (p ∷ ps) item items h = ground (
  arith,
  sum-items_of p item items,
  split_total-skips ps item items,
  split_total-takes ps item items,
  +ℤ_assoc (amount_of item) (sum_amounts (items_of p items)) (split_total ps items),
  +ℤ_left_comm (sum_amounts (items_of p items)) (amount_of item) (split_total ps items),
)

-- Each item has its participant in the list, once.
abbrev Covers : List ℕ → List Item → Type 0
Covers ps items = All (λ item. count (λ q. q == item.participant_id) ps ≡ 1) items

insert-Covers :
    (p : ℕ) (ps : List ℕ) (items : List Item)
    → Ascending ps
    → Covers ps items
    → Covers (insert p ps) items
insert-Covers p ps [] h c = tt
insert-Covers p ps (item ∷ items) h (c, cs) =
    (ground (arith, count-insert p item.participant_id ps h), insert-Covers p ps items h cs)

participants-Covers : (items : List Item) → Covers (participants items) items
unfolding participants
participants-Covers [] = tt
participants-Covers (item ∷ items) =
    let ascending = participants-Ascending items in
    (
      ground (
        arith,
        count-insert item.participant_id item.participant_id (participants items) ascending,
      ),
      insert-Covers item.participant_id (participants items) items ascending
          (participants-Covers items),
    )

split_total-none : (ps : List ℕ) → split_total ps [] ≡ pos 0
unfolding split_total sum_amounts
split_total-none [] = refl
split_total-none (p ∷ ps) = ground (arith, split_total-none ps, +ℤ_zero (pos 0))

split_total-Covers :
    (ps : List ℕ) (items : List Item) → Covers ps items → split_total ps items ≡ sum_amounts items
unfolding sum_amounts
split_total-Covers ps [] c = split_total-none ps
split_total-Covers ps (item ∷ items) (c, cs) =
    split_total-takes ps item items c
    ∙ ap (λ rest. amount_of item +ℤ rest) (split_total-Covers ps items cs)

-- The participants split the sum of the amounts without a rest.
pub split_total-participants :
    (items : List Item) → split_total (participants items) items ≡ sum_amounts items
split_total-participants items =
    split_total-Covers (participants items) items (participants-Covers items)
