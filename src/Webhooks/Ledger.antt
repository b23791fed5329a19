-- ===== src/Webhooks/Ledger.antt =====
-- store/operator_api.py: deliveries over any operations, beside the claims that were given to
-- workers and the outcomes that were recorded for them.
pub mod Sound
pub mod Outcomes
pub mod Inserted
pub mod Invariant
pub mod Exhausted
use openleg.Clients.{Client}
use openleg.Prelude.Int.{ℤ}
use openleg.Prelude.{
  ℕ, ◌==◌, ◌≡◌, Bool, true, false, ◌&&◌, Option, none, some, List, [], ◌∷◌, ◌++◌, map, any, find,
  count, if◌then◌else◌,
}
use openleg.Webhooks.{
  Status, status_eq, OperatorEvent, Delivery, Db, has_id, holds, get_pending_deliveries,
  record_attempt, retry_delivery, insert_delivery,
}
use openleg.Webhooks.Dispatch.{Answer, code_of, is_retryable, state_of, claim_of}

-- What a worker was given: a delivery, its claim and its attempt count then.
pub record Claim : Type 0 where
  pub delivery_id : ℕ
  pub claim_id : ℕ
  pub attempt_count : ℕ

-- An outcome that was written under a claim.
pub record Outcome : Type 0 where
  pub delivery_id : ℕ
  pub claim_id : ℕ
  pub status : Status

pub record World : Type 0 where
  pub db : Db
  pub issued : List Claim
  pub log : List Outcome

abbrev pub is_claim : ℕ → ℕ → Claim → Bool
is_claim i c e = (e.delivery_id == i) && (e.claim_id == c)

abbrev pub is_outcome : ℕ → ℕ → Outcome → Bool
is_outcome i c o = (o.delivery_id == i) && (o.claim_id == c)

abbrev pub outcome_of : ℕ → Outcome → Bool
outcome_of i o = o.delivery_id == i

abbrev pub success_of : ℕ → Outcome → Bool
success_of i o = (o.delivery_id == i) && status_eq o.status Status.delivered

abbrev pub given : Delivery → Claim
given d = record {
  delivery_id = d.delivery_id;
  claim_id = claim_of d;
  attempt_count = d.attempt_count;
}

-- An UPDATE under a claim writes an outcome if the row holds the claim.
abbrev pub logged : ℕ → ℕ → Status → Option Delivery → List Outcome → List Outcome
logged i c status none log = log
logged i c status (some d) log =
    if holds i c d then record { delivery_id = i; claim_id = c; status = status } ∷ log else log

abbrev pub start : List Client → List OperatorEvent → World
start clients events = record {
  db = record { clients = clients; events = events; deliveries = [] };
  issued = [];
  log = [];
}

module _ (max_attempts : ℕ) where
  -- A step of the web application or of a worker. A worker that was given a claim records an
  -- outcome at any time, also after another worker took the delivery over.
  pub data Step (w : World) : World → Type 0 where
    clients : (cs : List Client) → Step w (record w { db = record w.db { clients = cs } })
    events : (es : List OperatorEvent) → Step w (record w { db = record w.db { events = es } })
    insert :
        (i event_id client_id now : ℕ)
        → Step w (record w { db = insert_delivery i event_id client_id now w.db })
    claim :
        (uuids : ℕ → ℕ) (scope : Option ℕ) (limit : ℤ) (now : ℕ)
        -- a drawn id is new
        → ((i : ℕ) → any (is_claim i (uuids i)) w.issued ≡ false)
        → Step w (record w {
          db = (get_pending_deliveries uuids max_attempts scope limit now w.db).1;
          issued =
              map given (get_pending_deliveries uuids max_attempts scope limit now w.db).0
              ++ w.issued;
        })
    report :
        (i c n code now : ℕ) {db : Db}
        → any (λ e. is_claim i c e && (e.attempt_count == n)) w.issued ≡ true
        → record_attempt i c
            (state_of max_attempts n code)
            code
            (is_retryable max_attempts n code)
            now
            w.db
          ≡ some db
        → Step w (record w {
          db = db;
          log = logged i c (state_of max_attempts n code) (find (has_id i) w.db.deliveries) w.log;
        })
    retry :
        (community_id i now : ℕ)
        → Step w (record w { db = (retry_delivery community_id i now w.db).1 })

  pub data Reach (w : World) : World → Type 0 where
    here : Reach w w
    next : {w' w'' : World} → Reach w w' → Step w' w'' → Reach w w''
