-- ===== src/Vnb/Operations.antt =====
-- The operations of store/vnb_exchange.py on the cases of mutations.
use openleg.Prelude.{
  ℕ, ◌==◌, Bool, true, false, ◌&&◌, ◌||◌, not, Option, none, some, List, [], ◌∷◌, any, find, update,
  if◌then◌else◌, Result, ok, err, ◌>>=◌, ◌>>◌, raise_if, or_raise, option_eq,
}
use openleg.Outbox.{Outbox, Kind, enqueue_event}
use openleg.Vnb.Rows.{CaseState, state_rank, NextAction, Case, Event, Db, Claim, Outcome, Error}

abbrev pub is_mutation : ℕ → ℕ → Case → Bool
is_mutation community_id mutation_id c =
    c.community_id == community_id && c.mutation_id == mutation_id

abbrev pub is_open_state : CaseState → Bool
is_open_state CaseState.claimed = true
is_open_state CaseState.prepared = true
is_open_state CaseState.delivered = true
is_open_state _ = false

-- WHERE community_id = ... AND participant_id = ... AND state IN ('claimed', 'prepared', 'delivered')
abbrev pub is_open : ℕ → ℕ → Case → Bool
is_open community_id participant_id c =
    c.community_id == community_id && c.participant_id == participant_id && is_open_state c.state

abbrev pub new_case : ℕ → Claim → Case
new_case case_id s = record {
  case_id = case_id;
  mutation_id = s.mutation_id;
  community_id = s.community_id;
  participant_id = s.participant_id;
  created_by = s.actor_building_id;
  facts = s.facts;
  payload_fingerprint = s.payload_fingerprint;
  state = CaseState.claimed;
  next_action = NextAction.deliver;
  external_request_id = none;
  response_status = none;
  manual_package = none;
  retryable = false;
  failure_code = none;
}

abbrev pub is_case : ℕ → Case → Bool
is_case case_id c = c.case_id == case_id

-- What `claim_mutation` reads: the case of the mutation, if the community has one, and else that no
-- other is open. Its SELECT ... FOR UPDATE locks no row then, so other claims may insert after it.
check_known : Claim → Db → Option Case → Result Error (Option Case)
check_known s db none =
    if any (is_open s.community_id s.participant_id) db.cases
    then err Error.already_open
    else ok none
check_known s db (some existing) =
    if existing.payload_fingerprint == s.payload_fingerprint
    then ok (some existing)
    else err Error.other_content

unfoldable pub check_claim : Claim → Db → Result Error (Option Case)
unfolding check_known
check_claim s db = check_known s db (find (is_mutation s.community_id s.mutation_id) db.cases)

-- The INSERT of `claim_mutation`, with the primary key and the key of mutations in a community.
unfoldable pub insert_case : ℕ → Claim → Db → Result Error (Case × Db)
insert_case case_id s db =
    if any (is_case case_id) db.cases || any (is_mutation s.community_id s.mutation_id) db.cases
    then err Error.being_claimed
    else ok (new_case case_id s, record db { cases = new_case case_id s ∷ db.cases })

finish_claim : ℕ → Claim → Db → Option Case → Result Error (Case × Db)
unfolding insert_case
finish_claim case_id s db none = insert_case case_id s db
finish_claim case_id s db (some existing) = ok (existing, db)

-- `claim_mutation`, where nothing runs between its reads and its INSERT; `case_id` is the drawn uuid
unfoldable pub claim_mutation : ℕ → Claim → Db → Result Error (Case × Db)
unfolding check_claim finish_claim
claim_mutation case_id s db = do known ← check_claim s db; finish_claim case_id s db known

abbrev pub is_claimed : CaseState → Bool
is_claimed CaseState.claimed = true
is_claimed _ = false

abbrev pub is_prepared : CaseState → Bool
is_prepared CaseState.prepared = true
is_prepared _ = false

-- The unique index of `vnb_mutation_events`, in which two NULLs are the same.
abbrev same_event : Event → Event → Bool
same_event a b =
    a.case_id == b.case_id
    && state_rank a.state == state_rank b.state
    && option_eq ◌==◌ a.external_request_id b.external_request_id
    && option_eq ◌==◌ a.response_status b.response_status

-- INSERT ... ON CONFLICT DO NOTHING
abbrev insert_event : Event → List Event → List Event
insert_event e es = if any (same_event e) es then es else e ∷ es

abbrev outbox_event : ℕ → ℕ → CaseState → Outbox → Outbox
outbox_event case_id community_id state =
    enqueue_event (Kind.mutation (state_rank state)) (case_id ∷ []) community_id (case_id ∷ [])

abbrev pub is_claimed_case : ℕ → Case → Bool
is_claimed_case case_id c = c.case_id == case_id && is_claimed c.state

abbrev pub with_outcome : Outcome → Case → Case
with_outcome o c = record c {
  state = o.state;
  next_action = o.next_action;
  external_request_id = o.request_id;
  response_status = o.response_status;
  manual_package = o.manual_package;
  retryable = o.retryable;
  failure_code = o.failure_code;
}

-- `record_mutation_outcome`
unfoldable pub record_mutation_outcome : ℕ → Outcome → Db → Result Error (Case × Db)
record_mutation_outcome case_id o db = do
  row ← or_raise (find (is_claimed_case case_id) db.cases) Error.outcome_not_recorded
  let e : Event = record {
    case_id = case_id;
    state = o.state;
    external_request_id = o.request_id;
    response_status = o.response_status;
    evidence = o.evidence;
    retryable = o.retryable;
    failure_code = o.failure_code;
  }
  ok (
    with_outcome o row,
    record db {
      events = insert_event e db.events;
      cases = update (is_claimed_case case_id) (with_outcome o) db.cases;
      outbox = outbox_event case_id row.community_id o.state db.outbox;
    },
  )

abbrev pub is_prepared_case : ℕ → ℕ → Case → Bool
is_prepared_case community_id case_id c =
    c.community_id == community_id && c.case_id == case_id && is_prepared c.state

abbrev pub delivered_case : Case → Case
delivered_case c = record c {
  state = CaseState.delivered;
  next_action = NextAction.await_acknowledgement;
}

-- `mark_mutation_manual_delivered`; the response status names the actor
unfoldable pub mark_mutation_manual_delivered : ℕ → ℕ → ℕ → Db → Result Error (Case × Db)
mark_mutation_manual_delivered community_id case_id actor_building_id db = do
  row ← or_raise (find (is_prepared_case community_id case_id) db.cases) Error.not_ready
  let e : Event = record {
    case_id = case_id;
    state = CaseState.delivered;
    external_request_id = none;
    response_status = some actor_building_id;
    evidence = none;
    retryable = false;
    failure_code = none;
  }
  ok (
    delivered_case row,
    record db {
      events = insert_event e db.events;
      cases = update (is_prepared_case community_id case_id) delivered_case db.cases;
      outbox = outbox_event case_id community_id CaseState.delivered db.outbox;
    },
  )

abbrev is_response_state : CaseState → Bool
is_response_state CaseState.acknowledged = true
is_response_state CaseState.rejected = true
is_response_state CaseState.failed = true
is_response_state CaseState.superseded = true
is_response_state _ = false

abbrev pub is_final : CaseState → Bool
is_final CaseState.acknowledged = true
is_final CaseState.rejected = true
is_final CaseState.superseded = true
is_final _ = false

abbrev response_action : CaseState → NextAction
response_action CaseState.rejected = NextAction.review_rejection
response_action CaseState.failed = NextAction.retry
response_action _ = NextAction.no_action

abbrev pub is_case_of : ℕ → ℕ → Case → Bool
is_case_of community_id case_id c = c.community_id == community_id && c.case_id == case_id

abbrev pub with_response : CaseState → ℕ → ℕ → Case → Case
with_response state request_id response_status c = record c {
  state = state;
  next_action = response_action state;
  external_request_id = some request_id;
  response_status = some response_status;
}

respond : ℕ → ℕ → CaseState → ℕ → ℕ → ℕ → Case → Db → Result Error (Case × Db)
respond community_id case_id state request_id response_status evidence existing db =
    let e : Event = record {
      case_id = case_id;
      state = state;
      external_request_id = some request_id;
      response_status = some response_status;
      evidence = some evidence;
      retryable = false;
      failure_code = none;
    } in
    if is_final existing.state
    then ok (existing, db)
    else ok (
      with_response state request_id response_status existing,
      record db {
        events = insert_event e db.events;
        cases =
            update (is_case_of community_id case_id)
              (with_response state request_id response_status) db.cases;
        outbox =
            if any (same_event e) db.events
            then db.outbox
            else outbox_event case_id community_id state db.outbox;
      },
    )

-- `record_mutation_response`
unfoldable pub record_mutation_response :
    ℕ → ℕ → CaseState → ℕ → ℕ → ℕ → Db → Result Error (Case × Db)
unfolding respond
record_mutation_response community_id case_id state request_id response_status evidence db = do
  raise_if (not (is_response_state state)) Error.invalid_state
  existing ← or_raise (find (is_case_of community_id case_id) db.cases) Error.case_not_found
  respond community_id case_id state request_id response_status evidence existing db
