-- ===== src/Vnb/Rows.antt =====
-- The tables `vnb_mutation_cases` and `vnb_mutation_events`, and what callers of the operations on
-- them hand over.
use openleg.Prelude.{ℕ, Bool, Option, List}
use openleg.Outbox.{Outbox}

pub data CaseState : Type 0 where
  claimed prepared delivered acknowledged rejected failed superseded : CaseState

abbrev pub state_rank : CaseState → ℕ
state_rank CaseState.claimed = 0
state_rank CaseState.prepared = 1
state_rank CaseState.delivered = 2
state_rank CaseState.acknowledged = 3
state_rank CaseState.rejected = 4
state_rank CaseState.failed = 5
state_rank CaseState.superseded = 6

pub data NextAction : Type 0 where
  deliver download_and_deliver await_acknowledgement review_rejection retry contact_vnb : NextAction
  no_action : NextAction

-- A row of `vnb_mutation_cases`.
pub record Case : Type 0 where
  pub case_id : ℕ
  pub mutation_id : ℕ
  pub community_id : ℕ
  pub participant_id : ℕ
  pub created_by : ℕ
  pub facts : ℕ
  pub payload_fingerprint : ℕ
  pub state : CaseState
  pub next_action : NextAction
  pub external_request_id : Option ℕ
  pub response_status : Option ℕ
  pub manual_package : Option ℕ
  pub retryable : Bool
  pub failure_code : Option ℕ

-- A row of `vnb_mutation_events`.
pub record Event : Type 0 where
  pub case_id : ℕ
  pub state : CaseState
  pub external_request_id : Option ℕ
  pub response_status : Option ℕ
  pub evidence : Option ℕ
  pub retryable : Bool
  pub failure_code : Option ℕ

pub record Db : Type 0 where
  pub cases : List Case
  pub events : List Event
  pub outbox : Outbox

-- `MutationClaim` and `MutationOutcome`
pub record Claim : Type 0 where
  pub mutation_id : ℕ
  pub community_id : ℕ
  pub participant_id : ℕ
  pub actor_building_id : ℕ
  pub facts : ℕ
  pub payload_fingerprint : ℕ

pub record Outcome : Type 0 where
  pub state : CaseState
  pub next_action : NextAction
  pub request_id : Option ℕ
  pub response_status : Option ℕ
  pub evidence : Option ℕ
  pub manual_package : Option ℕ
  pub retryable : Bool
  pub failure_code : Option ℕ

-- `VnbSubmissionConflict`, by its message, and `VnbExchangeStoreError`
pub data Error : Type 0 where
  other_content already_open being_claimed : Error
  outcome_not_recorded not_ready invalid_state case_not_found : Error
