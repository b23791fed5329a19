-- ===== src/Vnb/Tests.antt =====
-- The theorems on mutation cases at a concrete case.
use openleg.Prelude.{◌+◌, ◌≡◌, ◌≤◌, refl, false, find, count, some, none, [], ok, err, Result}
use openleg.Vnb.Rows.{CaseState, NextAction, Case, Db, Claim, Outcome, Error}
use openleg.Vnb.Operations.{
  is_open, is_mutation, is_case, new_case, with_response, check_claim, insert_case, claim_mutation,
  record_mutation_outcome, mark_mutation_manual_delivered, record_mutation_response, with_outcome,
  delivered_case,
}
use openleg.Vnb.Cases.{Step, Reach, late_inserts, Reach-is_open}
use openleg.Vnb.Final.{Reach-is_final}

abbrev no_cases : Db
no_cases = record {
  cases = [];
  events = [];
  outbox = record { clients = []; events = []; deliveries = [] };
}

abbrev exit_claim : Claim
exit_claim = record {
  mutation_id = 11;
  community_id = 7;
  participant_id = 3;
  actor_building_id = 9;
  facts = 0;
  payload_fingerprint = 77;
}

abbrev handover : Outcome
handover = record {
  state = CaseState.prepared;
  next_action = NextAction.download_and_deliver;
  request_id = none;
  response_status = none;
  evidence = none;
  manual_package = some 5;
  retryable = false;
  failure_code = none;
}

abbrev db_after : Result Error (Case × Db) → Db
db_after (err e) = no_cases
db_after (ok (c, db)) = db

unfoldable claimed_db : Db
unfolding claim_mutation
claimed_db = db_after (claim_mutation 100 exit_claim no_cases)

unfoldable prepared_db : Db
unfolding record_mutation_outcome claimed_db
prepared_db = db_after (record_mutation_outcome 100 handover claimed_db)

unfoldable delivered_db : Db
unfolding mark_mutation_manual_delivered prepared_db
delivered_db = db_after (mark_mutation_manual_delivered 7 100 9 prepared_db)

unfoldable answered_db : Db
unfolding record_mutation_response delivered_db
answered_db = db_after (record_mutation_response 7 100 CaseState.acknowledged 40 41 42 delivered_db)

abbrev run : Reach no_cases answered_db
unfolding claim_mutation record_mutation_outcome mark_mutation_manual_delivered
    record_mutation_response claimed_db prepared_db delivered_db answered_db
run =
    Reach.next
      (Reach.next
        (Reach.next (Reach.next Reach.here (Step.claim 100 exit_claim _ refl))
          (Step.outcome 100 handover _ refl))
        (Step.deliver_by_hand 7 100 9 _ refl))
      (Step.response 7 100 CaseState.acknowledged 40 41 42 _ refl)

-- Two claims that both read an empty table insert both, so the participant has two open mutations.
abbrev move_claim : Claim
move_claim = record exit_claim { mutation_id = 12 }

both_read :
    (check_claim exit_claim no_cases ≡ ok none) × (check_claim move_claim no_cases ≡ ok none)
unfolding check_claim
both_read = (refl, refl)

unfoldable two_open : Db
unfolding insert_case claimed_db
two_open = db_after (insert_case 101 move_claim claimed_db)

both_inserted : count (is_open 7 3) two_open.cases ≡ 2
unfolding two_open claim_mutation insert_case claimed_db
both_inserted = refl

abbrev racing : Reach no_cases two_open
unfolding two_open claim_mutation insert_case claimed_db
racing =
    Reach.next (Reach.next Reach.here (Step.claim 100 exit_claim _ refl))
      (Step.insert_late 101 move_claim _ refl)

Reach-is_open_example :
    (count (is_open 7 3) two_open.cases ≤ 1 + late_inserts racing)
    × (count (is_mutation 7 11) two_open.cases ≤ 1)
Reach-is_open_example = Reach-is_open 7 3 11 racing refl

abbrev final_case : Case
final_case =
    with_response CaseState.acknowledged 40 41
      (delivered_case (with_outcome handover (new_case 100 exit_claim)))

-- A late rejection of the acknowledged case.
abbrev late : Reach answered_db answered_db
unfolding record_mutation_response answered_db
late = Reach.next Reach.here (Step.response 7 100 CaseState.rejected 50 51 52 _ refl)

Reach-is_final_example : find (is_case 100) answered_db.cases ≡ some final_case
unfolding answered_db
Reach-is_final_example = Reach-is_final 100 late final_case refl refl
