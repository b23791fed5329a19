-- ===== src/Vnb/Cases.antt =====
-- store/vnb_exchange.py: the operations as a step relation, where claims may interleave, and the
-- open cases of a participant.
use openleg.Prelude.{
  ℕ, suc, ◌+◌, ◌≤◌, ◌==◌, ◌≡◌, refl, sym, ◌∙◌, Bool, Bool-cases, Result-cases, true, false, List,
  [], ◌∷◌, any, find, count, update, arith, Option-cases, inl, inr, ok,
}
use openleg.Vnb.Rows.{CaseState, Case, Db, Claim, Outcome}
use openleg.Vnb.Operations.{
  is_mutation, is_open, is_claimed_case, with_outcome, is_prepared_case, delivered_case, is_case_of,
  with_response, new_case, check_claim, insert_case, claim_mutation, record_mutation_outcome,
  mark_mutation_manual_delivered, record_mutation_response,
}

-- An operation that succeeds. The case id of a claim, and what the grid operator answers, are free.
-- A claim runs without another between its reads and its INSERT, or it inserts late: after its
-- reads, of which nothing is known then, other operations ran.
pub data Step (db db' : Db) : Type 0 where
  claim : (i : ℕ) (s : Claim) (c : Case) → claim_mutation i s db ≡ ok (c, db') → Step db db'
  insert_late : (i : ℕ) (s : Claim) (c : Case) → insert_case i s db ≡ ok (c, db') → Step db db'
  outcome :
      (i : ℕ) (o : Outcome) (c : Case) → record_mutation_outcome i o db ≡ ok (c, db') → Step db db'
  deliver_by_hand :
      (g i a : ℕ) (c : Case) → mark_mutation_manual_delivered g i a db ≡ ok (c, db') → Step db db'
  response :
      (g i : ℕ) (s : CaseState) (r t e : ℕ) (c : Case)
      → record_mutation_response g i s r t e db ≡ ok (c, db')
      → Step db db'

pub data Reach (db : Db) : Db → Type 0 where
  here : Reach db db
  next : {db' db'' : Db} → Reach db db' → Step db' db'' → Reach db db''

abbrev pub is_late : {db db' : Db} → Step db db' → ℕ
is_late (Step.insert_late i s c h) = 1
is_late (Step.claim i s c h) = 0
is_late (Step.outcome i o c h) = 0
is_late (Step.deliver_by_hand g i a c h) = 0
is_late (Step.response g i s r t e c h) = 0

-- How many claims inserted late.
abbrev pub late_inserts : {db db' : Db} → Reach db db' → ℕ
late_inserts Reach.here = 0
late_inserts (Reach.next r s) = is_late s + late_inserts r

count-update-le :
    {A : Type 0} (p is : A → Bool) (f : A → A) (xs : List A)
    → ((x : A) → is x ≡ true → p (f x) ≡ true → p x ≡ true)
    → count p (update is f xs) ≤ count p xs
count-update-le p is f [] less = omega arith
count-update-le p is f (x ∷ xs) less = ground (arith, count-update-le p is f xs less, less x)

module _ (g p : ℕ) where
  count-closed :
      (g' p' : ℕ) (xs : List Case)
      → (g' == g) ≡ true
      → (p' == p) ≡ true
      → any (is_open g' p') xs ≡ false
      → count (is_open g p) xs ≡ 0
  count-closed g' p' [] e k h = refl
  count-closed g' p' (x ∷ xs) e k h = ground (arith, count-closed g' p' xs)

  claim-open :
      (i : ℕ) (s : Claim) (db : Db) (n : ℕ) {c : Case} {db' : Db}
      → claim_mutation i s db ≡ ok (c, db')
      → count (is_open g p) db.cases ≤ suc n
      → count (is_open g p) db'.cases ≤ suc n
  unfolding claim_mutation insert_case
  claim-open i s db n h once =
      elim (Option-cases (find (is_mutation s.community_id s.mutation_id) db.cases)) [
        | inr (existing, e) ↦ ground arith
        | inl fresh ↦ ground (arith, count-closed s.community_id s.participant_id db.cases)
      ]

  outcome-open :
      (i : ℕ) (o : Outcome) (db : Db) {c : Case} {db' : Db}
      → record_mutation_outcome i o db ≡ ok (c, db')
      → count (is_open g p) db'.cases ≤ count (is_open g p) db.cases
  unfolding record_mutation_outcome
  outcome-open i o db h = ground (
    arith,
    count-update-le (is_open g p) (is_claimed_case i) (with_outcome o) db.cases
        (λ c k l. ground arith),
  )

  delivered-open :
      (g' i a : ℕ) (db : Db) {c : Case} {db' : Db}
      → mark_mutation_manual_delivered g' i a db ≡ ok (c, db')
      → count (is_open g p) db'.cases ≤ count (is_open g p) db.cases
  unfolding mark_mutation_manual_delivered
  delivered-open g' i a db h = ground (
    arith,
    count-update-le (is_open g p) (is_prepared_case g' i) delivered_case db.cases
        (λ c k l. ground arith),
  )

  response-open :
      (g' i : ℕ) (s : CaseState) (r t e : ℕ) (db : Db) {c : Case} {db' : Db}
      → record_mutation_response g' i s r t e db ≡ ok (c, db')
      → count (is_open g p) db'.cases ≤ count (is_open g p) db.cases
  unfolding record_mutation_response
  response-open g' i s r t e db h =
      ground (arith, count-update-le (is_open g p) (is_case_of g' i) (with_response s r t) db.cases)

  Step-open :
      {db db' : Db} (n : ℕ) (s : Step db db')
      → count (is_open g p) db.cases ≤ 1 + n
      → count (is_open g p) db'.cases ≤ 1 + (is_late s + n)
  unfolding insert_case
  Step-open {db} n (Step.claim i s c h) once =
      let kept = claim-open i s db n h (omega arith) in omega arith
  Step-open {db} n (Step.insert_late i s c h) once = ground arith
  Step-open {db} n (Step.outcome i o c h) once = omega (arith, outcome-open i o db h)
  Step-open {db} n (Step.deliver_by_hand g' i a c h) once =
      omega (arith, delivered-open g' i a db h)
  Step-open {db} n (Step.response g' i s r t e c h) once =
      omega (arith, response-open g' i s r t e db h)

module _ (g m : ℕ) where
  count-absent :
      (xs : List Case) → any (is_mutation g m) xs ≡ false → count (is_mutation g m) xs ≡ 0
  count-absent [] h = refl
  count-absent (x ∷ xs) h = ground (arith, count-absent xs)

  count-changed :
      (is : Case → Bool) (f : Case → Case) (xs : List Case)
      → ((x : Case) → is_mutation g m (f x) ≡ is_mutation g m x)
      → count (is_mutation g m) xs ≤ 1
      → count (is_mutation g m) (update is f xs) ≤ 1
  count-changed is f xs same once =
      omega (arith, count-update-le (is_mutation g m) is f xs (λ x k l. sym (same x) ∙ l), once)

  insert-mutation :
      (i : ℕ) (s : Claim) (db : Db) {c : Case} {db' : Db}
      → insert_case i s db ≡ ok (c, db')
      → count (is_mutation g m) db.cases ≤ 1
      → count (is_mutation g m) db'.cases ≤ 1
  unfolding insert_case
  insert-mutation i s db h once = elim (Bool-cases (is_mutation g m (new_case i s))) [
    | inl same ↦
        let is_g : s.community_id ≡ g = ground arith in
        let is_m : s.mutation_id ≡ m = ground arith in ground (arith, count-absent db.cases)
    | inr other ↦ ground arith
  ]

  claim-mutation :
      (i : ℕ) (s : Claim) (db : Db) {c : Case} {db' : Db}
      → claim_mutation i s db ≡ ok (c, db')
      → count (is_mutation g m) db.cases ≤ 1
      → count (is_mutation g m) db'.cases ≤ 1
  unfolding claim_mutation
  claim-mutation i s db {c} {db'} h once = elim (Result-cases (check_claim s db)) [
    | inl (x, e) ↦ absurd (ground arith)
    | inr (known, e) ↦ elim (Option-cases known) [
      | inr (existing, f) ↦ ground arith
      | inl fresh ↦
          let inserted : insert_case i s db ≡ ok (c, db') = ground arith in
          insert-mutation i s db inserted once
    ]
  ]

  Step-mutation :
      {db db' : Db}
      → Step db db'
      → count (is_mutation g m) db.cases ≤ 1
      → count (is_mutation g m) db'.cases ≤ 1
  unfolding record_mutation_outcome mark_mutation_manual_delivered record_mutation_response
  Step-mutation {db} (Step.claim i s c h) once = claim-mutation i s db h once
  Step-mutation {db} (Step.insert_late i s c h) once = insert-mutation i s db h once
  Step-mutation {db} (Step.outcome i o c h) once =
      ground (arith, count-changed (is_claimed_case i) (with_outcome o) db.cases (λ x. refl))
  Step-mutation {db} (Step.deliver_by_hand g' i a c h) once =
      ground (arith, count-changed (is_prepared_case g' i) delivered_case db.cases (λ x. refl))
  Step-mutation {db} (Step.response g' i s r t e c h) once =
      ground (arith, count-changed (is_case_of g' i) (with_response s r t) db.cases (λ x. refl))

-- However claims interleave with the other operations on an empty table, a community has at most one
-- case of a mutation, and a participant has at most one open mutation in it, beside one for each
-- claim that inserted late. Where each claim runs alone, none does.
pub Reach-is_open :
    (g p m : ℕ) {db db' : Db} (r : Reach db db')
    → db.cases ≡ []
    → (count (is_open g p) db'.cases ≤ 1 + late_inserts r) × (count (is_mutation g m) db'.cases ≤ 1)
Reach-is_open g p m {db} Reach.here empty = rw empty (omega arith, omega arith)
Reach-is_open g p m (Reach.next r s) empty =
    let (once, key) = Reach-is_open g p m r empty in
    (Step-open g p (late_inserts r) s once, Step-mutation g m s key)
