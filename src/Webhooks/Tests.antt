-- ===== src/Webhooks/Tests.antt =====
-- Runs of the webhook deliveries on a small table, and the theorems there.
use openleg.Clients.{Client}
use openleg.Prelude.Int.{pos}
use openleg.Prelude.Sorting.{Ordered}
use openleg.Prelude.Text.{codes}
use openleg.Prelude.{
  ℕ, ◌+◌, ◌≤◌, ◌==◌, ◌≡◌, refl, Bool, true, false, Option, none, some, List, [], ◌∷◌, map, length,
  All, any, find, count, if◌then◌else◌, arith,
}
use openleg.Webhooks.{
  Status, status_eq, OperatorEvent, Delivery, Db, has_id, is_due, earlier, safe_limit, claimed,
  backoff, candidates, get_pending_deliveries, record_attempt, retry_delivery,
}
use openleg.Webhooks.Dispatch.{Answer, Totals, is_delivered, batch_limit, dispatch_pending_webhooks}
use openleg.Webhooks.Batch.{IsHandedOver, get_pending_deliveries-due, get_pending_deliveries-fair}
use openleg.Webhooks.Sent.{IsAnswered}
use openleg.Webhooks.Run.{answer, dispatch_pending_webhooks-Reach}
use openleg.Webhooks.Ledger.{World, Step, Reach, start, outcome_of, success_of, is_outcome}
use openleg.Webhooks.Ledger.Sound.{bit}
use openleg.Webhooks.Ledger.Invariant.{Reach-recorded_once}
use openleg.Webhooks.Ledger.Exhausted.{failed-never_sent}

abbrev client : Client
client = record {
  id = 1;
  community_id = 1;
  created_by = 4;
  name = codes "Tool";
  capabilities = 7 ∷ [];
  token_hash = 10;
  webhook_url = some (codes "https://example.org/hook");
  webhook_secret_version = 1;
  rate_limit_per_hour = 100;
  active = true;
  rotated_at = none;
  revoked_at = none;
  last_used_at = none;
}

abbrev two_events : List OperatorEvent
two_events =
    record { event_id = 5; community_id = 1; occurred_at = 80; current = true }
    ∷ record { event_id = 6; community_id = 1; occurred_at = 40; current = true }
    ∷ []

abbrev pending : ℕ → ℕ → Delivery
pending i e = record {
  delivery_id = i;
  event_id = e;
  client_id = 1;
  status = Status.pending;
  attempt_count = 0;
  response_status = none;
  next_attempt_at = 100;
  last_attempt_at = none;
  claimed_at = none;
  claim_id = none;
}

abbrev db_of : List Delivery → Db
db_of ds = record { clients = client ∷ []; events = two_events; deliveries = ds }

abbrev inserted : World
inserted = record { db = db_of (pending 9 5 ∷ []); issued = []; log = [] }

abbrev given : World
given = record {
  db = db_of (
      record (pending 9 5) {
        status = Status.processing;
        claimed_at = some 100;
        claim_id = some 709;
      }
      ∷ []);
  issued = record { delivery_id = 9; claim_id = 709; attempt_count = 0 } ∷ [];
  log = [];
}

abbrev sent : Delivery
sent = record (pending 9 5) {
  status = Status.failed;
  attempt_count = 1;
  response_status = some 500;
  last_attempt_at = some 110;
  claimed_at = some 100;
}

abbrev after : World
after = record given {
  db = db_of (sent ∷ []);
  log = record { delivery_id = 9; claim_id = 709; status = Status.failed } ∷ [];
}

abbrev again : World
again = record after {
  db = db_of (record sent { status = Status.retry; next_attempt_at = 200 } ∷ []);
}

insertion : Reach 1 (start (client ∷ []) two_events) inserted
unfolding openleg.Webhooks.insert_delivery
insertion = Reach.next {w'' = inserted} Reach.here (Step.insert 9 5 1 100)

failure : Reach 1 (start (client ∷ []) two_events) after
unfolding get_pending_deliveries openleg.Prelude.Sorting.sort record_attempt
failure =
    Reach.next {w'' = after}
      (Reach.next {w'' = given} insertion (Step.claim (λ i. i + 700) none (pos 50) 100 (λ i. refl)))
      (Step.report 9 709 0 500 110 {db = after.db} refl refl)

retry : Reach 1 after again
unfolding retry_delivery
retry = Reach.next {w'' = again} Reach.here (Step.retry 1 9 200)

-- The delivery is shown as one to be retried, and no worker is given it.
shown_again :
    (retry_delivery 1 9 200 after.db).0
    ≡ some (record sent { status = Status.retry; next_attempt_at = 200 })
unfolding retry_delivery
shown_again = refl

not_claimed : candidates 1 none (pos 50) 300 again.db ≡ []
unfolding candidates openleg.Prelude.Sorting.sort
not_claimed = refl

waits : map backoff (0 ∷ 1 ∷ 4 ∷ 7 ∷ []) ≡ 30 ∷ 60 ∷ 480 ∷ 3_600 ∷ []
unfolding backoff
waits = refl

-- Another worker may take a delivery over after fifteen minutes, and a stale claim writes nothing.
taken_over : length (candidates 5 none (pos 50) 1_001 given.db) ≡ 1
unfolding candidates openleg.Prelude.Sorting.sort
taken_over = refl

not_yet : length (candidates 5 none (pos 50) 1_000 given.db) ≡ 0
unfolding candidates openleg.Prelude.Sorting.sort
not_yet = refl

stale : record_attempt 9 708 Status.delivered 200 false 120 given.db ≡ some given.db
unfolding record_attempt
stale = refl

invalid : record_attempt 9 709 Status.pending 200 false 120 given.db ≡ none
unfolding record_attempt
invalid = refl

Reach-recorded_once_example :
    (sent.attempt_count ≡ count (outcome_of 9) after.log)
    × (sent.attempt_count ≤ 1)
    × (count (success_of 9) after.log ≡ bit (status_eq sent.status Status.delivered))
    × ((c : ℕ) → count (is_outcome 9 c) after.log ≤ 1)
Reach-recorded_once_example =
    Reach-recorded_once 1 (client ∷ []) two_events 9 {d = sent} failure refl

failed-never_sent_example :
    (count (outcome_of 9) again.log ≡ count (outcome_of 9) after.log)
    × (d : Delivery) × (find (has_id 9) again.db.deliveries ≡ some d)
    × (status_eq d.status Status.processing ≡ false)
failed-never_sent_example =
    failed-never_sent 1 (client ∷ []) two_events 9 {d = sent} failure refl refl retry

abbrev two : Db
two = db_of (pending 9 5 ∷ pending 8 6 ∷ [])

two-key : (i : ℕ) → count (has_id i) two.deliveries ≤ 1
two-key i = ground arith

get_pending_deliveries-due_example :
    let cs = candidates 5 none (pos 1) 100 two in
    let (batch, next) = get_pending_deliveries (λ i. i + 700) 5 none (pos 1) 100 two in
    (batch ≡ map (claimed (λ i. i + 700) 100) cs)
    × (length cs ≤ safe_limit (pos 1))
    × Ordered (earlier two) cs
    × All
        (λ d.
          (find (has_id d.delivery_id) two.deliveries ≡ some d) × (is_due 5 none 100 two d ≡ true))
        cs
    × All (IsHandedOver (λ i. i + 700) 100 next) cs
    × ((i : ℕ)
        → any (has_id i) cs ≡ false
        → find (has_id i) next.deliveries ≡ find (has_id i) two.deliveries)
    × (next.clients ≡ two.clients)
    × (next.events ≡ two.events)
get_pending_deliveries-due_example =
    get_pending_deliveries-due (λ i. i + 700) 5 none (pos 1) 100 two two-key

get_pending_deliveries-fair_example :
    let cs = candidates 5 none (pos 1) 100 two in
    (length cs ≡ safe_limit (pos 1)) × All (λ c. earlier two c (pending 9 5) ≡ true) cs
unfolding is_due candidates openleg.Prelude.Sorting.sort
get_pending_deliveries-fair_example =
    get_pending_deliveries-fair 5 none (pos 1) 100 two (pending 9 5) two-key refl refl refl

-- The server takes the delivery of the event 5 and refuses that of the event 6.
abbrev server : Delivery → Answer
server d = if d.event_id == 5 then Answer.returned 204 else Answer.http_error 500

dispatch_pending_webhooks-Reach_example :
    let cs = candidates 1 none (pos (batch_limit (pos 50))) 100 inserted.db in
    (t : Totals) × (w' : World) × (dispatch_pending_webhooks server
        (λ i. 110)
        (λ i. i + 700)
        1
        none
        (pos 50)
        100
        inserted.db
      ≡ some (t, w'.db))
    × Reach 1 inserted w'
    × All (λ d. IsAnswered (λ i. 110) 1 (answer server (λ i. i + 700) 100 d) w'.db d) cs
    × ((i : ℕ)
        → any (has_id i) cs ≡ false
        → find (has_id i) w'.db.deliveries ≡ find (has_id i) inserted.db.deliveries)
    × (t.attempted ≡ length cs)
    × (t.delivered ≡ count (λ d. is_delivered (answer server (λ i. i + 700) 100 d)) cs)
    × (t.delivered + t.failed ≡ t.attempted)
dispatch_pending_webhooks-Reach_example =
    dispatch_pending_webhooks-Reach server (λ i. 110) (λ i. i + 700) 1 none 100 (pos 50)
      (client ∷ []) two_events insertion (λ i. refl)
