-- ===== src/Webhooks/Ledger/Invariant.antt =====
-- What holds of all deliveries and outcomes after any operations.
use openleg.Clients.{Client}
use openleg.Prelude.Int.{ℤ}
use openleg.Prelude.{
  ℕ, ◌<◌, ◌≤◌, ◌==◌, ◌≡◌, refl, sym, ap, ◌∙◌, Bool, true, false, Option, none, some, List, ◌++◌,
  map, any, all, find, find_test, count, if◌then◌else◌, arith, inl, inr, Bool-cases,
}
use mathlib.Core.Path.{subst}
use openleg.Webhooks.{
  Status, status_eq, OperatorEvent, Delivery, has_id, claimed, claim_all, candidates, rows_of,
  retried, can_retry, get_pending_deliveries, retry_delivery,
}
use openleg.Webhooks.Rows.{changed, find-update, count-update, id_of, candidate-due, rows_of-IsRow}
use openleg.Webhooks.Ledger.{
  Claim, Outcome, World, is_claim, is_outcome, outcome_of, success_of, given, start, Step, Reach,
}
use openleg.Webhooks.Ledger.Inserted.{insert-IsLedger}
use openleg.Webhooks.Ledger.Outcomes.{report-IsLedger}
use openleg.Webhooks.Ledger.Sound.{
  agrees, bit, IsRowSound, IsSoundAt, IsLedger, given-agrees, any-append-false, due-parts,
  claimed-IsRowSound, kept-IsRowSound, retried-IsRowSound,
}

found-id :
    (i : ℕ) (ds : List Delivery) {d : Delivery} → find (has_id i) ds ≡ some d → d.delivery_id ≡ i
found-id i ds f = let t = find_test (has_id i) ds f in ground arith

claim-at :
    (max i now : ℕ) (uuids : ℕ → ℕ) (p : Delivery → Bool) (r : Option Delivery)
    (issued issued' : List Claim) (log : List Outcome)
    → IsSoundAt max i r issued log
    → ((d : Delivery) → r ≡ some d → d.delivery_id ≡ i)
    → ((d : Delivery)
        → r ≡ some d
        → p d ≡ true
        → (status_eq d.status Status.delivered ≡ false) × (d.attempt_count < max))
    → ((d : Delivery) (c : ℕ)
        → changed p (claimed uuids now) r ≡ some d
        → all (agrees i c d.attempt_count) issued' ≡ true)
    → any (is_claim i (uuids i)) issued ≡ false
    → count (is_outcome i (uuids i)) log ≡ 0
    → IsSoundAt max i (changed p (claimed uuids now) r) (issued' ++ issued) log
claim-at max i now uuids p none issued issued' log s own due new fresh unlogged = s
claim-at max i now uuids p (some d) issued issued' log s own due new fresh unlogged =
    elim (Bool-cases (p d)) [
      | inl e ↦
          subst
            (λ b. IsRowSound max i (if b then claimed uuids now d else d) (issued' ++ issued) log)
            (sym e)
            (claimed-IsRowSound max i now uuids d issued issued' log s (own d refl) (due d refl e)
              (λ c.
                new (claimed uuids now d) c
                  (ap (λ b. some (if b then claimed uuids now d else d)) e))
              fresh unlogged)
      | inr e ↦
          subst
            (λ b. IsRowSound max i (if b then claimed uuids now d else d) (issued' ++ issued) log)
            (sym e)
            (kept-IsRowSound max i d issued issued' log s
              (λ c. new d c (ap (λ b. some (if b then claimed uuids now d else d)) e)))
    ]

claim-IsLedger :
    (max : ℕ) (uuids : ℕ → ℕ) (scope : Option ℕ) (limit : ℤ) (now : ℕ) (w : World)
    → IsLedger max w
    → ((i : ℕ) → any (is_claim i (uuids i)) w.issued ≡ false)
    → let (rows, db) = get_pending_deliveries uuids max scope limit now w.db in
      IsLedger max (record w { db = db; issued = map given rows ++ w.issued })
unfolding get_pending_deliveries
claim-IsLedger max uuids scope limit now w l fresh =
    let ids = map id_of (candidates max scope limit now w.db) in
    let p : Delivery → Bool = λ d. any (λ i. i == d.delivery_id) ids in
    let ds' = claim_all uuids now ids w.db.deliveries in
    let rows = rows_of ds' ids in
    record {
      key = λ i.
          let same = count-update i p (claimed uuids now) w.db.deliveries (λ d. refl) in
          let once = l.key i in omega arith;
      rows = λ i.
          let moved = find-update i p (claimed uuids now) w.db.deliveries (λ d. refl) in
          subst (λ r. IsSoundAt max i r (map given rows ++ w.issued) w.log) (sym moved)
            (claim-at max i now uuids p (find (has_id i) w.db.deliveries) w.issued (map given rows)
              w.log (l.rows i) (λ d f. found-id i w.db.deliveries f)
              (λ d f e. due-parts max scope now w.db d (
                candidate-due max scope limit now i w.db l.key f
                  (subst (λ j. any (λ x. x == j) ids ≡ true) (found-id i w.db.deliveries f) e)))
              (λ d c f. given-agrees ds' i c d rows (moved ∙ f) (rows_of-IsRow ds' ids)) (fresh i)
              (l.given i (uuids i) (fresh i)));
      once = l.once;
      given = λ i c h. l.given i c (any-append-false (is_claim i c) (map given rows) w.issued h);
    }

retry-at :
    (max i now : ℕ) (p : Delivery → Bool) (r : Option Delivery) (issued : List Claim)
    (log : List Outcome)
    → IsSoundAt max i r issued log
    → ((d : Delivery) → p d ≡ true → status_eq d.status Status.failed ≡ true)
    → IsSoundAt max i (changed p (retried now) r) issued log
retry-at max i now p none issued log s f = s
retry-at max i now p (some d) issued log s f = elim (Bool-cases (p d)) [
  | inl e ↦
      subst (λ b. IsRowSound max i (if b then retried now d else d) issued log) (sym e)
        (retried-IsRowSound max i now d issued log s (f d e))
  | inr e ↦ subst (λ b. IsRowSound max i (if b then retried now d else d) issued log) (sym e) s
]

retry-IsLedger :
    (max community_id i now : ℕ) (w : World)
    → IsLedger max w
    → IsLedger max (record w { db = (retry_delivery community_id i now w.db).1 })
unfolding retry_delivery
retry-IsLedger max community_id i now w l =
    let p = can_retry w.db community_id i in
    record {
      key = λ j.
          let same = count-update j p (retried now) w.db.deliveries (λ d. refl) in
          let once = l.key j in omega arith;
      rows = λ j.
          subst (λ r. IsSoundAt max j r w.issued w.log)
            (sym (find-update j p (retried now) w.db.deliveries (λ d. refl)))
            (retry-at max j now p (find (has_id j) w.db.deliveries) w.issued w.log (l.rows j)
              (λ d e. ground arith));
      once = l.once;
      given = l.given;
    }

pub Step-IsLedger :
    (max : ℕ) (w : World) {w' : World} → IsLedger max w → Step max w w' → IsLedger max w'
Step-IsLedger max w l (Step.clients cs) = record {
  key = l.key;
  rows = l.rows;
  once = l.once;
  given = l.given;
}
Step-IsLedger max w l (Step.events es) = record {
  key = l.key;
  rows = l.rows;
  once = l.once;
  given = l.given;
}
Step-IsLedger max w l (Step.insert i event_id client_id now) =
    insert-IsLedger max i event_id client_id now w l
Step-IsLedger max w l (Step.claim uuids scope limit now fresh) =
    claim-IsLedger max uuids scope limit now w l fresh
Step-IsLedger max w l (Step.report i c n code now g h) = report-IsLedger max i c n code now w l g h
Step-IsLedger max w l (Step.retry community_id i now) = retry-IsLedger max community_id i now w l

pub Reach-kept :
    (max : ℕ) (w : World) {w' : World} → IsLedger max w → Reach max w w' → IsLedger max w'
Reach-kept max w l Reach.here = l
Reach-kept max w l (Reach.next {w' = middle} r s) =
    Step-IsLedger max middle (Reach-kept max w l r) s

pub Reach-IsLedger :
    (max : ℕ) (clients : List Client) (events : List OperatorEvent) {w : World}
    → Reach max (start clients events) w
    → IsLedger max w
Reach-IsLedger max clients events r =
    Reach-kept max (start clients events)
      (record {
        key = λ i. omega arith;
        rows = λ i. refl;
        once = λ i c. omega arith;
        given = λ i c h. refl;
      })
      r

-- After any operations of the application and its workers on an empty table, the attempt count of
-- a delivery is the number of outcomes recorded for it and at most `max`, a delivery was recorded
-- as successful once if it is delivered and else never, and no claim has two recorded outcomes.
pub Reach-recorded_once :
    (max : ℕ) (clients : List Client) (events : List OperatorEvent) {w : World} (i : ℕ)
    {d : Delivery}
    → Reach max (start clients events) w
    → find (has_id i) w.db.deliveries ≡ some d
    → (d.attempt_count ≡ count (outcome_of i) w.log)
      × (d.attempt_count ≤ max)
      × (count (success_of i) w.log ≡ bit (status_eq d.status Status.delivered))
      × ((c : ℕ) → count (is_outcome i c) w.log ≤ 1)
Reach-recorded_once max clients events {w} i {d} r f =
    let l = Reach-IsLedger max clients events r in
    let s = subst (λ x. IsSoundAt max i x w.issued w.log) f (l.rows i) in
    (s.counted, s.bounded, s.succeeded, l.once i)
