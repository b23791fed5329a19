-- ===== src/Clients/Tests.antt =====
-- Runs of store/operator_api.py and operator_api.py on a small table, and the theorems there.
use openleg.Prelude.Text.{Text, codes}
use openleg.Prelude.{ℕ, ◌*◌, ◌≡◌, ◌≤◌, ◌≢◌, refl, true, none, some, [], ◌∷◌, count, err}
use openleg.Clients.{
  Client, Db, create_client, rotate_client, revoke_client, get_client_by_token_hash, usage_count,
  record_usage,
}
use openleg.Clients.Gate.{Refusal, require_operator, require_operator-admits, revoke_client-refused}
use openleg.Clients.Window.{Step, Reach, in_window, Reach-window}

abbrev path : Text
path = codes "/billing/periods"

abbrev client : ℕ → ℕ → Client
client id limit = record {
  id = id;
  community_id = 1;
  created_by = 4;
  name = codes "Tool";
  capabilities = 7 ∷ [];
  token_hash = id * 10;
  webhook_url = none;
  webhook_secret_version = 1;
  rate_limit_per_hour = limit;
  active = true;
  rotated_at = none;
  revoked_at = none;
  last_used_at = none;
}

abbrev created : Db
created = record { clients = client 1 2 ∷ []; calls = [] }

abbrev after_one : Db
after_one = record {
  clients = record (client 1 2) { last_used_at = some 100 } ∷ [];
  calls = record { client_id = 1; endpoint = path; called_at = 100 } ∷ [];
}

abbrev after_two : Db
after_two = record {
  clients = record (client 1 2) { last_used_at = some 2_000 } ∷ [];
  calls =
      record { client_id = 1; endpoint = path; called_at = 2_000 }
      ∷ record { client_id = 1; endpoint = path; called_at = 100 }
      ∷ [];
}

abbrev three : Db
three = record { clients = client 2 5 ∷ client 3 5 ∷ []; calls = [] }

-- The third request in an hour is refused, and one an hour after the first is not.
third : (require_operator 7 (some 10) 1 path 3_000 after_two).0 ≡ err Refusal.rate_limited
unfolding require_operator
third = refl

later : usage_count 1 3_700 after_two ≡ 1
unfolding usage_count
later = refl

no_token : (require_operator 7 none 1 path 0 after_one).0 ≡ err Refusal.authentication_required
unfolding require_operator
no_token = refl

wrong_token : (require_operator 7 (some 11) 1 path 0 after_one).0 ≡ err Refusal.invalid_credential
unfolding require_operator
wrong_token = refl

elsewhere : (require_operator 7 (some 10) 2 path 0 after_one).0 ≡ err Refusal.not_found
unfolding require_operator
elsewhere = refl

not_allowed : (require_operator 8 (some 10) 1 path 0 after_one).0 ≡ err Refusal.capability_denied
unfolding require_operator
not_allowed = refl

rotated_token : get_client_by_token_hash 10 (rotate_client 1 1 77 9 created).1 ≡ none
unfolding get_client_by_token_hash rotate_client
rotated_token = refl

two_requests : Reach (λ id. 2) after_two
unfolding create_client require_operator
two_requests =
    Reach.next {db' = after_two}
      (Reach.next {db' = after_one}
        (Reach.next {db' = created} Reach.start
          (Step.create 1 1 4 (codes "Tool") (7 ∷ []) 10 none {c = client 1 2} refl))
        (Step.request 7 (some 10) 1 path 100))
      (Step.request 7 (some 10) 1 path 2_000)

Reach-window_example : count (in_window 1 3_000) after_two.calls ≤ 2
Reach-window_example = Reach-window (λ id. 2) after_two two_requests 1 3_000

require_operator-admits_example :
    (require_operator 7 (some 10) 1 path 2_000 after_one).1 ≡ record_usage 1 path 2_000 after_one
unfolding require_operator
require_operator-admits_example =
    (require_operator-admits 7 (some 10) 1 path 2_000 after_one).1
      (record (client 1 2) { last_used_at = some 100 }) refl

revoke_client-refused_example : (client 3 5).id ≢ 2
unfolding require_operator revoke_client
revoke_client-refused_example =
    revoke_client-refused 1 2 50 7 (some 30) path 60 three (client 3 5) refl
