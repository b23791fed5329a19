-- ===== src/Quartierakku/Stored.antt =====
-- quartierakku.py and store/battery.py: a battery that was saved, read and validated again.
use openleg.Prelude.Sorting.{sum_by}
use openleg.Prelude.Text.{Text, is_empty, strip}
use openleg.Prelude.Text.Strip.{strip-strip}
use openleg.Prelude.Decimals.{Decimal, hundredths, column, hundredths-column}
use openleg.Prelude.{
  ℕ, ◌+◌, ◌≡◌, refl, sym, ap, ◌∙◌, Bool, false, ◌||◌, Option, none, some, List, [], ◌∷◌, inl, inr,
  map, ltb, select, count, if◌then◌else◌, Result, ok, err, ◌>>=◌, bind_ok, arith, Option-cases,
  Bool-cases, All, length,
}
use mathlib.Core.Path.{subst}
use openleg.Quartierakku.{
  Invalid, within, valid_participant, valid_share_participant, or_invalid, normalized_shares,
  total_share, share_max_pct,
}
use openleg.Quartierakku.Store.{Db, ShareRow, of_community, may_insert, insert_shares, stored_share}

pub valid_participant-again :
    (o : Option Text) {p : Text} → valid_participant o ≡ ok p → valid_participant (some p) ≡ ok p
valid_participant-again none h = cc
valid_participant-again (some t) {p} h =
    elim (Bool-cases (is_empty (strip t) || ltb 64 (length (strip t)))) [
      | inl e ↦ ground arith
      | inr e ↦
          let same : strip t ≡ p = ground arith in
          let again : strip p ≡ p = ap strip (sym same) ∙ strip-strip t ∙ same in
          let test : is_empty p || ltb 64 (length p) ≡ false =
            subst (λ (x : Text). is_empty x || ltb 64 (length x) ≡ false) same e in
          let tests : is_empty (strip p) || ltb 64 (length (strip p)) ≡ false =
            ap (λ (x : Text). is_empty x || ltb 64 (length x)) again ∙ test in
          ap (λ b. if b then err Invalid.bad_participant else ok (strip p)) tests ∙ ap ok again
    ]

pub within-column :
    (low high : ℕ) (value : Decimal) {n : ℕ}
    → within low high value ≡ some n
    → within low high (column n) ≡ some n
unfolding within
within-column low high value {n} h = elim (Option-cases (hundredths value)) [
  | inl e ↦ ground arith
  | inr (z, e) ↦ ground (arith, hundredths-column n)
]

abbrev pub pair : ShareRow → Text × ℕ
pair s = (s.building_id, s.share_pct)

-- A share that the loop accepted.
abbrev pub IsGood : Text × ℕ → Type 0
IsGood (p, n) = (is_empty (strip p) ≡ false) × (within 0 share_max_pct (column n) ≡ some n)

valid_share_participant-nonblank :
    (o : Option Text) {p : Text} → valid_share_participant o ≡ ok p → is_empty (strip p) ≡ false
valid_share_participant-nonblank none h = cc
valid_share_participant-nonblank (some t) {p} h = elim (Bool-cases (is_empty (strip t))) [
  | inl e ↦ ground arith
  | inr e ↦
      let same : t ≡ p = ground arith in subst (λ (x : Text). is_empty (strip x) ≡ false) same e
]

or_invalid-within :
    (low high : ℕ) (value : Decimal) (e : Invalid) {n : ℕ}
    → or_invalid e (within low high value) ≡ ok n
    → within low high (column n) ≡ some n
or_invalid-within low high value e {n} h = elim (Option-cases (within low high value)) [
  | inl f ↦ ground arith
  | inr (m, f) ↦
      let same : m ≡ n = ground arith in
      within-column low high value (subst (λ x. within low high value ≡ some x) same f)
]

cons-end :
    (p : Text) (n : ℕ) (r : Result Invalid (List (Text × ℕ))) {out : List (Text × ℕ)}
    → r >>= (λ others. ok ((p, n) ∷ others)) ≡ ok out
    → (others : List (Text × ℕ)) × (r ≡ ok others) × ((p, n) ∷ others ≡ out)
cons-end p n (ok others) h = (others, refl, ground arith)
cons-end p n (err e) h = cc

pub normalized_shares-IsGood :
    (given : List (Option Text × Decimal)) {shares : List (Text × ℕ)}
    → normalized_shares given ≡ ok shares
    → All IsGood shares
unfolding normalized_shares
normalized_shares-IsGood [] {shares} h =
    let same : [] ≡ shares = ground arith in subst (All IsGood) same tt
normalized_shares-IsGood ((participant, share) ∷ rest) {shares} h =
    let (p, e, h1) = bind_ok (valid_share_participant participant) _ h in
    let (n, f, h2) = bind_ok (or_invalid Invalid.bad_share (within 0 share_max_pct share)) _ h1 in
    let (others, g, same) = cons-end p n (normalized_shares rest) h2 in
    subst (All IsGood) same (
      (
        valid_share_participant-nonblank participant e,
        or_invalid-within 0 share_max_pct share Invalid.bad_share f,
      ),
      normalized_shares-IsGood rest g,
    )

pub normalized-of_good :
    (rows : List ShareRow)
    → All (λ r. IsGood (pair r)) rows
    → normalized_shares (map stored_share rows) ≡ ok (map pair rows)
unfolding normalized_shares
normalized-of_good [] h = refl
normalized-of_good (r ∷ rs) ((e, f), hs) = ground (arith, normalized-of_good rs hs)

-- The rows that the loop of INSERTs leaves, in the order of the table.
abbrev pub pushed : ℕ → List (Text × ℕ) → List ShareRow → List ShareRow
pushed c [] rows = rows
pushed c ((p, n) ∷ rest) rows =
    pushed c rest (record { community_id = c; building_id = p; share_pct = n } ∷ rows)

pub insert_shares-rows :
    (c : ℕ) (xs : List (Text × ℕ)) (db : Db) {db' : Db}
    → insert_shares c xs db ≡ ok db'
    → (select (of_community c) db'.shares ≡ pushed c xs (select (of_community c) db.shares))
      × (db'.batteries ≡ db.batteries)
unfolding insert_shares
insert_shares-rows c [] db {db'} h =
    let same : db ≡ db' = ground arith in
    (
      ap (λ (x : Db). select (of_community c) x.shares) (sym same),
      ap (λ (x : Db). x.batteries) (sym same),
    )
insert_shares-rows c ((p, n) ∷ rest) db {db'} h = elim (Bool-cases (may_insert c p db)) [
  | inr e ↦ ground arith
  | inl e ↦
      let row : ShareRow = record { community_id = c; building_id = p; share_pct = n } in
      let next : Db = record db { shares = row ∷ db.shares } in
      let (rows, same) = insert_shares-rows c rest next {db' = db'} (ground arith) in
      let own : select (of_community c) next.shares ≡ row ∷ select (of_community c) db.shares =
        ground arith in
      (rows ∙ ap (pushed c rest) own, same)
]

pub pushed-All :
    (P : Text × ℕ → Type 0) (c : ℕ) (xs : List (Text × ℕ)) (rows : List ShareRow)
    → All P xs
    → All (λ r. P (pair r)) rows
    → All (λ r. P (pair r)) (pushed c xs rows)
pushed-All P c [] rows h k = k
pushed-All P c ((p, n) ∷ rest) rows (h, hs) k = pushed-All P c rest _ hs (h, k)

pub pushed-count :
    (test : Text × ℕ → Bool) (c : ℕ) (xs : List (Text × ℕ)) (rows : List ShareRow)
    → count (λ r. test (pair r)) (pushed c xs rows)
      ≡ count test xs + count (λ r. test (pair r)) rows
pushed-count test c [] rows = omega arith
pushed-count test c ((p, n) ∷ rest) rows = ground (
  arith,
  pushed-count test c rest (record { community_id = c; building_id = p; share_pct = n } ∷ rows),
)

pub pushed-sum :
    (c : ℕ) (xs : List (Text × ℕ)) (rows : List ShareRow)
    → sum_by (λ (r : ShareRow). r.share_pct) (pushed c xs rows)
      ≡ total_share xs + sum_by (λ (r : ShareRow). r.share_pct) rows
pushed-sum c [] rows = omega arith
pushed-sum c ((p, n) ∷ rest) rows =
    ground (
      arith,
      pushed-sum c rest (record { community_id = c; building_id = p; share_pct = n } ∷ rows),
    )
