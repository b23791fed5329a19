-- ===== src/Clients.antt =====
-- store/operator_api.py: the credentials of the operator API and the requests they made.
-- Identifiers, capabilities and token hashes are numbers, and times are seconds.
pub mod Gate
pub mod Window
mod Tests
use openleg.Prelude.Text.{Text}
use openleg.Prelude.{
  ℕ, ◌+◌, ◌==◌, Bool, true, false, ◌&&◌, Option, none, some, List, [], ◌∷◌, any, find, select,
  count, update, ltb, leb, if◌then◌else◌,
}

pub record Client : Type 0 where
  pub id : ℕ
  pub community_id : ℕ
  pub created_by : ℕ
  pub name : Text
  pub capabilities : List ℕ
  pub token_hash : ℕ
  pub webhook_url : Option Text
  pub webhook_secret_version : ℕ
  pub rate_limit_per_hour : ℕ
  pub active : Bool
  pub rotated_at : Option ℕ
  pub revoked_at : Option ℕ
  pub last_used_at : Option ℕ

-- A row of operator_api_usage.
pub record Call : Type 0 where
  pub client_id : ℕ
  pub endpoint : Text
  pub called_at : ℕ

pub record Db : Type 0 where
  pub clients : List Client
  pub calls : List Call

-- The id is a fresh uuid, and the token hash a column that is UNIQUE: the INSERT raises where a
-- client has either already.
unfoldable pub create_client :
    ℕ → ℕ → ℕ → Text → List ℕ → ℕ → Option Text → ℕ → Db → Option (Client × Db)
create_client uuid community_id created_by name capabilities token_hash webhook_url limit db =
    let row : Client = record {
      id = uuid;
      community_id = community_id;
      created_by = created_by;
      name = name;
      capabilities = capabilities;
      token_hash = token_hash;
      webhook_url = webhook_url;
      webhook_secret_version = 1;
      rate_limit_per_hour = limit;
      active = true;
      rotated_at = none;
      revoked_at = none;
      last_used_at = none;
    } in
    if any (λ c. c.id == uuid) db.clients
    then none
    else if any (λ c. c.token_hash == token_hash) db.clients
    then none
    else some (row, record db { clients = row ∷ db.clients })

unfoldable pub get_client_by_token_hash : ℕ → Db → Option Client
get_client_by_token_hash token_hash db =
    find (λ c. (c.token_hash == token_hash) && c.active) db.clients

-- The row that an UPDATE for a client of the community changes.
abbrev pub is_client : ℕ → ℕ → Client → Bool
is_client community_id client_id c = (c.id == client_id) && (c.community_id == community_id)

abbrev rotated : ℕ → ℕ → Client → Client
rotated token_hash now c = record c {
  token_hash = token_hash;
  active = true;
  webhook_secret_version = c.webhook_secret_version + 1;
  rotated_at = some now;
}

-- UPDATE ... RETURNING, with `fetchone`. The hash is that of a new secret, which no row has.
unfoldable pub rotate_client : ℕ → ℕ → ℕ → ℕ → Db → Option Client × Db
rotate_client community_id client_id token_hash now db =
    let is = is_client community_id client_id in
    let clients = update is (rotated token_hash now) db.clients in
    (find is clients, record db { clients = clients })

abbrev pub revoked : ℕ → Client → Client
revoked now c = record c { active = false; revoked_at = some now }

unfoldable pub revoke_client : ℕ → ℕ → ℕ → Db → Option Client × Db
revoke_client community_id client_id now db =
    let is = is_client community_id client_id in
    let clients = update is (revoked now) db.clients in
    (find is clients, record db { clients = clients })

-- called_at > CURRENT_TIMESTAMP - INTERVAL '1 hour'
abbrev pub in_hour : ℕ → ℕ → Call → Bool
in_hour client_id now c = (c.client_id == client_id) && ltb now (c.called_at + 3_600)

unfoldable pub usage_count : ℕ → ℕ → Db → ℕ
usage_count client_id now db = count (in_hour client_id now) db.calls

abbrev used : ℕ → Client → Client
used now c = record c { last_used_at = some now }

unfoldable pub record_usage : ℕ → Text → ℕ → Db → Db
record_usage client_id endpoint now db = record {
  clients = update (λ c. c.id == client_id) (used now) db.clients;
  calls = record { client_id = client_id; endpoint = endpoint; called_at = now } ∷ db.calls;
}

-- One transaction under an advisory lock of the client.
unfoldable pub claim_usage : ℕ → Text → ℕ → ℕ → Db → Bool × Db
unfolding usage_count record_usage
claim_usage client_id endpoint limit now db =
    if leb limit (usage_count client_id now db)
    then (false, db)
    else (true, record_usage client_id endpoint now db)
