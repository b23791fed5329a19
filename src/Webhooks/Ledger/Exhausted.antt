-- ===== src/Webhooks/Ledger/Exhausted.antt =====
-- A delivery that has failed, and what a retry does for it.
use openleg.Clients.{Client}
use openleg.Prelude.Int.{ℤ}
use openleg.Prelude.{
  ℕ, ◌==◌, ◌≡◌, refl, sym, ap, ◌∙◌, Bool, true, false, Option, some, List, [], ◌∷◌, map, any, find,
  find_test, count, update, if◌then◌else◌, arith, inl, inr, Bool-cases,
}
use mathlib.Core.Path.{subst}
use openleg.Webhooks.{
  Status, status_eq, OperatorEvent, Delivery, Db, has_id, repeats, holds, claimed, candidates,
  attempted, retried, can_retry, get_pending_deliveries, record_attempt, retry_delivery,
  insert_delivery,
}
use openleg.Webhooks.Dispatch.{is_retryable, state_of}
use openleg.Webhooks.Rows.{changed, find-update, id_of, candidate-due}
use openleg.Webhooks.Ledger.{World, outcome_of, start, Step, Reach}
use openleg.Webhooks.Ledger.Sound.{IsSoundAt, IsLedger, due-parts}
use openleg.Webhooks.Ledger.Inserted.{new_id}
use openleg.Webhooks.Ledger.Outcomes.{recorded-rows}
use openleg.Webhooks.Ledger.Invariant.{Reach-IsLedger, Reach-kept}

-- The delivery used all its attempts, and no worker has it.
abbrev IsSpent : ℕ → ℕ → World → Type 0
IsSpent max i w =
    (d : Delivery) × (find (has_id i) w.db.deliveries ≡ some d)
    × (d.attempt_count ≡ max)
    × (status_eq d.status Status.processing ≡ false)

found-any :
    (i : ℕ) (ds : List Delivery) {d : Delivery}
    → find (has_id i) ds ≡ some d
    → any (has_id i) ds ≡ true
found-any i [] {d} h = cc
found-any i (x ∷ xs) {d} h = ground (arith, found-any i xs {d = d})

insert-find :
    (k event_id client_id now i : ℕ) (db : Db) {d : Delivery}
    → find (has_id i) db.deliveries ≡ some d
    → find (has_id i) (insert_delivery k event_id client_id now db).deliveries ≡ some d
unfolding insert_delivery
insert-find k event_id client_id now i db {d} f =
    elim (Bool-cases (any (repeats k event_id client_id) db.deliveries)) [
      | inl e ↦ rw e f
      | inr e ↦
          let there = found-any i db.deliveries f in
          elim (Bool-cases (k == i)) [
            | inl t ↦
                let same : k ≡ i = ground arith in
                let missing : any (has_id i) db.deliveries ≡ false =
                  subst (λ x. any (has_id x) db.deliveries ≡ false) same
                    (new_id k event_id client_id db.deliveries e) in
                cc
            | inr t ↦ ground arith
          ]
    ]

changed-found :
    (i : ℕ) (p : Delivery → Bool) (f : Delivery → Delivery) (ds : List Delivery) (d : Delivery)
    → ((x : Delivery) → (f x).delivery_id ≡ x.delivery_id)
    → find (has_id i) ds ≡ some d
    → find (has_id i) (update p f ds) ≡ some (if p d then f d else d)
changed-found i p f ds d keeps e = find-update i p f ds keeps ∙ ap (changed p f) e

claim-IsSpent :
    (max : ℕ) (uuids : ℕ → ℕ) (scope : Option ℕ) (limit : ℤ) (now i : ℕ) (w : World)
    → IsLedger max w
    → (d : Delivery) → find (has_id i) w.db.deliveries ≡ some d
    → d.attempt_count ≡ max
    → find (has_id i) (get_pending_deliveries uuids max scope limit now w.db).1.deliveries ≡ some d
unfolding get_pending_deliveries
claim-IsSpent max uuids scope limit now i w l d f a =
    let ids = map id_of (candidates max scope limit now w.db) in
    let p : Delivery → Bool = λ d. any (λ i. i == d.delivery_id) ids in
    let own : d.delivery_id ≡ i = let t = find_test (has_id i) w.db.deliveries f in ground arith in
    let moved = changed-found i p (claimed uuids now) w.db.deliveries d (λ x. refl) f in
    elim (Bool-cases (p d)) [
      | inl e ↦
          let due =
            candidate-due max scope limit now i w.db l.key f
              (subst (λ j. any (λ x. x == j) ids ≡ true) own e) in
          let left = (due-parts max scope now w.db d due).1 in absurd (omega arith)
      | inr e ↦ moved ∙ ap (λ b. some (if b then claimed uuids now d else d)) e
    ]

not_held :
    (i c : ℕ) (d : Delivery) → status_eq d.status Status.processing ≡ false → holds i c d ≡ false
not_held i c d h = ground arith

report-found :
    (k c : ℕ) (status : Status) (code : ℕ) (retryable : Bool) (now i : ℕ) (db : Db) {db' : Db}
    {d : Delivery}
    → record_attempt k c status code retryable now db ≡ some db'
    → find (has_id i) db.deliveries ≡ some d
    → status_eq d.status Status.processing ≡ false
    → find (has_id i) db'.deliveries ≡ some d
report-found k c status code retryable now i db {d = d} h f idle =
    let rows = recorded-rows k c status code retryable now db h in
    let moved =
      changed-found i (holds k c) (attempted status code retryable now) db.deliveries d (λ x. refl)
        f in
    subst (λ (x : Db). find (has_id i) x.deliveries ≡ some d) rows
      (moved
        ∙ ap (λ b. some (if b then attempted status code retryable now d else d))
            (not_held k c d idle))

retry-IsSpent :
    (max community_id k now i : ℕ) (w : World)
    → IsSpent max i w
    → IsSpent max i (record w { db = (retry_delivery community_id k now w.db).1 })
unfolding retry_delivery
retry-IsSpent max community_id k now i w (d, f, a, idle) =
    let p = can_retry w.db community_id k in
    let moved = changed-found i p (retried now) w.db.deliveries d (λ x. refl) f in
    elim (Bool-cases (p d)) [
      | inl e ↦ (retried now d, moved ∙ ap (λ b. some (if b then retried now d else d)) e, a, refl)
      | inr e ↦ (d, moved ∙ ap (λ b. some (if b then retried now d else d)) e, a, idle)
    ]

-- Each step leaves a spent delivery spent.
Step-IsSpent :
    (max i : ℕ) (w : World) {w' : World}
    → IsLedger max w
    → Step max w w'
    → IsSpent max i w
    → IsSpent max i w'
Step-IsSpent max i w l (Step.clients cs) s = s
Step-IsSpent max i w l (Step.events es) s = s
Step-IsSpent max i w l (Step.insert k event_id client_id now) (d, f, a, idle) =
    (d, insert-find k event_id client_id now i w.db f, a, idle)
Step-IsSpent max i w l (Step.claim uuids scope limit now fresh) (d, f, a, idle) =
    (d, claim-IsSpent max uuids scope limit now i w l d f a, a, idle)
Step-IsSpent max i w l (Step.report k c n code now g h) (d, f, a, idle) = (
  d,
  report-found k c (state_of max n code) code (is_retryable max n code) now i w.db h f idle,
  a,
  idle,
)
Step-IsSpent max i w l (Step.retry community_id k now) (d, f, a, idle) =
    retry-IsSpent max community_id k now i w (d, f, a, idle)

Reach-IsSpent :
    (max i : ℕ) (w : World) {w' : World}
    → IsLedger max w
    → Reach max w w'
    → IsSpent max i w
    → IsSpent max i w'
Reach-IsSpent max i w l Reach.here s = s
Reach-IsSpent max i w l (Reach.next {w' = middle} r step) s =
    Step-IsSpent max i middle (Reach-kept max w l r) step (Reach-IsSpent max i w l r s)

-- A delivery that has failed is never sent again, whatever is done: no worker has it, and no
-- further outcome is recorded for it, also after `retry_delivery` set it to be retried.
pub failed-never_sent :
    (max : ℕ) (clients : List Client) (events : List OperatorEvent) {w w' : World} (i : ℕ)
    {d : Delivery}
    → Reach max (start clients events) w
    → find (has_id i) w.db.deliveries ≡ some d
    → d.status ≡ Status.failed
    → Reach max w w'
    → (count (outcome_of i) w'.log ≡ count (outcome_of i) w.log)
      × (d' : Delivery) × (find (has_id i) w'.db.deliveries ≡ some d')
      × (status_eq d'.status Status.processing ≡ false)
failed-never_sent max clients events {w} {w'} i {d} r f failed more =
    let l = Reach-IsLedger max clients events r in
    let row = subst (λ x. IsSoundAt max i x w.issued w.log) f (l.rows i) in
    let used = row.exhausted (ap (λ s. status_eq s Status.failed) failed) in
    let idle = ap (λ s. status_eq s Status.processing) failed in
    let (d', f', a', idle') = Reach-IsSpent max i w l more (d, f, used, idle) in
    let row' =
      subst (λ x. IsSoundAt max i x w'.issued w'.log) f' ((Reach-kept max w l more).rows i) in
    (sym row'.counted ∙ a' ∙ sym used ∙ row.counted, d', f', idle')
