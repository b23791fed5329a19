-- ===== src/Vnb/Final.antt =====
-- A mutation case in a final state stays as it is.
use openleg.Prelude.{
  ℕ, ◌==◌, ◌≡◌, refl, Bool, true, false, some, List, [], ◌∷◌, any, find, update, arith, Bool-cases,
  Option-cases, inl, inr, ok,
}
use openleg.Vnb.Rows.{CaseState, Case, Db, Claim}
use openleg.Vnb.Operations.{
  is_mutation, is_case, is_claimed_case, with_outcome, is_prepared_case, delivered_case, is_final,
  is_case_of, with_response, insert_case, claim_mutation, record_mutation_outcome,
  mark_mutation_manual_delivered, record_mutation_response,
}
use openleg.Vnb.Cases.{Step, Reach}

module _ (i : ℕ) where
  -- An update that leaves final cases alone, or cases of other ids, keeps a final case.
  find-update-final :
      (is : Case → Bool) (f : Case → Case) (xs : List Case) (x : Case)
      → ((y : Case) → is y ≡ true → is_final y.state ≡ false)
      → ((y : Case) → (f y).case_id ≡ y.case_id)
      → find (is_case i) xs ≡ some x
      → is_final x.state ≡ true
      → find (is_case i) (update is f xs) ≡ some x
  find-update-final is f [] x touch same h final = h
  find-update-final is f (y ∷ ys) x touch same h final =
      ground (arith, find-update-final is f ys x touch same, touch y, same y)

  find-update-other :
      (is : Case → Bool) (f : Case → Case) (xs : List Case) (x : Case)
      → ((y : Case) → is y ≡ true → is_case i y ≡ false)
      → ((y : Case) → (f y).case_id ≡ y.case_id)
      → find (is_case i) xs ≡ some x
      → find (is_case i) (update is f xs) ≡ some x
  find-update-other is f [] x other same h = h
  find-update-other is f (y ∷ ys) x other same h =
      ground (arith, find-update-other is f ys x other same, other y, same y)

  -- The same for an answer on an open case of the id in some community.
  find-response :
      (g i' : ℕ) (s : CaseState) (r t : ℕ) (xs : List Case) (x existing : Case)
      → (i' == i) ≡ true
      → find (is_case_of g i') xs ≡ some existing
      → is_final existing.state ≡ false
      → find (is_case i) xs ≡ some x
      → is_final x.state ≡ true
      → find (is_case i) (update (is_case_of g i') (with_response s r t) xs) ≡ some x
  find-response g i' s r t [] x existing e f touch h final = h
  find-response g i' s r t (y ∷ ys) x existing e f touch h final =
      ground (arith, find-response g i' s r t ys x existing e)

  find-distinct :
      (j : ℕ) (xs : List Case) (x : Case)
      → any (is_case j) xs ≡ false
      → find (is_case i) xs ≡ some x
      → (j == i) ≡ false
  find-distinct j [] x h found = ground arith
  find-distinct j (y ∷ ys) x h found = ground (arith, find-distinct j ys x)

  claim-final :
      (j : ℕ) (s : Claim) (db : Db) (x : Case) {c : Case} {db' : Db}
      → claim_mutation j s db ≡ ok (c, db')
      → find (is_case i) db.cases ≡ some x
      → find (is_case i) db'.cases ≡ some x
  unfolding claim_mutation insert_case
  claim-final j s db x h found =
      elim (Option-cases (find (is_mutation s.community_id s.mutation_id) db.cases)) [
        | inr (existing, e) ↦ ground arith
        | inl fresh ↦ ground (arith, find-distinct j db.cases x)
      ]

  insert-final :
      (j : ℕ) (s : Claim) (db : Db) (x : Case) {c : Case} {db' : Db}
      → insert_case j s db ≡ ok (c, db')
      → find (is_case i) db.cases ≡ some x
      → find (is_case i) db'.cases ≡ some x
  unfolding insert_case
  insert-final j s db x h found = ground (arith, find-distinct j db.cases x)

  response-final :
      (g j : ℕ) (s : CaseState) (r t e : ℕ) (db : Db) (x : Case) {c : Case} {db' : Db}
      → record_mutation_response g j s r t e db ≡ ok (c, db')
      → find (is_case i) db.cases ≡ some x
      → is_final x.state ≡ true
      → find (is_case i) db'.cases ≡ some x
  unfolding record_mutation_response
  response-final g j s r t e db x h found final =
      elim (Option-cases (find (is_case_of g j) db.cases)) [
        | inl missing ↦ ground arith
        | inr (existing, known) ↦ elim (Bool-cases (j == i)) [
          | inl same ↦ ground (arith, find-response g j s r t db.cases x existing same)
          | inr other ↦
              let kept =
                find-update-other (is_case_of g j) (with_response s r t) db.cases x
                  (λ y k. ground arith) (λ y. refl) found in
              ground arith
        ]
      ]

  Step-is_final :
      {db db' : Db}
      → Step db db'
      → (x : Case) → find (is_case i) db.cases ≡ some x
      → is_final x.state ≡ true
      → find (is_case i) db'.cases ≡ some x
  unfolding record_mutation_outcome mark_mutation_manual_delivered
  Step-is_final {db} (Step.claim j s c h) x found final = claim-final j s db x h found
  Step-is_final {db} (Step.insert_late j s c h) x found final = insert-final j s db x h found
  Step-is_final {db} (Step.outcome j o c h) x found final = ground (
    arith,
    find-update-final (is_claimed_case j) (with_outcome o) db.cases x (λ y k. ground arith)
        (λ y. refl) found final,
  )
  Step-is_final {db} (Step.deliver_by_hand g j a c h) x found final = ground (
    arith,
    find-update-final (is_prepared_case g j) delivered_case db.cases x (λ y k. ground arith)
        (λ y. refl) found final,
  )
  Step-is_final {db} (Step.response g j s r t e c h) x found final =
      response-final g j s r t e db x h found final

  -- A mutation that is acknowledged, rejected or superseded stays as it is, whatever operations run,
  -- also where claims interleave.
  pub Reach-is_final :
      {db db' : Db}
      → Reach db db'
      → (x : Case) → find (is_case i) db.cases ≡ some x
      → is_final x.state ≡ true
      → find (is_case i) db'.cases ≡ some x
  Reach-is_final Reach.here x found final = found
  Reach-is_final (Reach.next r s) x found final =
      Step-is_final s x (Reach-is_final r x found final) final
