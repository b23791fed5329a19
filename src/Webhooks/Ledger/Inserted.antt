-- ===== src/Webhooks/Ledger/Inserted.antt =====
-- What an inserted delivery keeps.
use openleg.Prelude.{
  ℕ, ◌==◌, ◌≡◌, refl, sym, false, none, some, List, [], ◌∷◌, any, find, count, arith, inl, inr,
  Bool-cases,
}
use mathlib.Core.Path.{subst}
use openleg.Webhooks.{Status, Delivery, has_id, repeats, insert_delivery}
use openleg.Webhooks.Ledger.{Outcome, World, outcome_of, success_of}
use openleg.Webhooks.Ledger.Sound.{IsSoundAt, IsLedger}

pub new_id :
    (i event_id client_id : ℕ) (ds : List Delivery)
    → any (repeats i event_id client_id) ds ≡ false
    → any (has_id i) ds ≡ false
new_id i event_id client_id [] h = refl
new_id i event_id client_id (d ∷ ds) h = ground (arith, new_id i event_id client_id ds)

any-none : (i : ℕ) (ds : List Delivery) → any (has_id i) ds ≡ false → find (has_id i) ds ≡ none
any-none i [] h = refl
any-none i (d ∷ ds) h = ground (arith, any-none i ds)

any-count : (i : ℕ) (ds : List Delivery) → any (has_id i) ds ≡ false → count (has_id i) ds ≡ 0
any-count i [] h = refl
any-count i (d ∷ ds) h = ground (arith, any-count i ds)

success-none :
    (i : ℕ) (log : List Outcome) → count (outcome_of i) log ≡ 0 → count (success_of i) log ≡ 0
success-none i [] h = refl
success-none i (o ∷ log) h = ground (arith, success-none i log)

pub insert-IsLedger :
    (max i event_id client_id now : ℕ) (w : World)
    → IsLedger max w
    → IsLedger max (record w { db = insert_delivery i event_id client_id now w.db })
unfolding insert_delivery
insert-IsLedger max i event_id client_id now w l =
    let row : Delivery = record {
      delivery_id = i;
      event_id = event_id;
      client_id = client_id;
      status = Status.pending;
      attempt_count = 0;
      response_status = none;
      next_attempt_at = now;
      last_attempt_at = none;
      claimed_at = none;
      claim_id = none;
    } in
    let ds = w.db.deliveries in
    elim (Bool-cases (any (repeats i event_id client_id) ds)) [
      | inl e ↦ rw e l
      | inr e ↦ rw e (record {
        key = λ j.
            let once = l.key j in
            let none_there = any-count i ds (new_id i event_id client_id ds e) in
            elim (Bool-cases (i == j)) [
              | inl t ↦
                  let same : i ≡ j = ground arith in
                  let no_row = subst (λ x. count (has_id x) ds ≡ 0) same none_there in ground arith
              | inr t ↦ ground arith
            ];
        rows = λ j. elim (Bool-cases (i == j)) [
          | inl t ↦
              let same : i ≡ j = ground arith in
              let found : find (has_id j) (row ∷ ds) ≡ some row = ground arith in
              let none_before : count (outcome_of j) w.log ≡ 0 =
                subst (λ x. count (outcome_of x) w.log ≡ 0) same
                  (subst (λ r. IsSoundAt max i r w.issued w.log)
                    (any-none i ds (new_id i event_id client_id ds e)) (l.rows i)) in
              subst (λ r. IsSoundAt max j r w.issued w.log) (sym found)
                (record {
                  counted = sym none_before;
                  succeeded = success-none j w.log none_before;
                  bounded = omega arith;
                  free = λ h. cc;
                  exhausted = λ h. cc;
                  agreed = λ c h. ground arith;
                  unlogged = λ c h. ground arith;
                })
          | inr t ↦
              let found : find (has_id j) (row ∷ ds) ≡ find (has_id j) ds = ground arith in
              subst (λ r. IsSoundAt max j r w.issued w.log) (sym found) (l.rows j)
        ];
        once = l.once;
        given = l.given;
      })
    ]
