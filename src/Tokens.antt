-- ===== src/Tokens.antt =====
-- access_token.py and store/access_token.py: magic links. A token is drawn by the caller; the table
-- keeps its digest, which `sha256` stands for. A moment is a number of seconds, and a refused
-- statement of the database is not modelled.
pub mod Laws
mod Tests
use openleg.Prelude.{
  ℕ, ◌+◌, ◌==◌, Bool, true, false, ◌&&◌, ◌||◌, not, Option, none, some, List, [], ◌∷◌, any, all,
  find, count, update, if◌then◌else◌, ltb, leb, length, is_some,
}
use openleg.Prelude.Int.{ℤ, pos, eq_ℤ}
use openleg.Prelude.Text.{Text, text_eq, is_empty, strip}

-- A subject as a caller hands it over: a `str`, an `int` or anything else, `True` included.
pub data Value : Type 0 where
  text : Text → Value
  int : ℤ → Value
  other : Value

abbrev pub value_eq : Value → Value → Bool
value_eq (Value.text a) (Value.text b) = text_eq a b
value_eq (Value.int a) (Value.int b) = eq_ℤ a b
value_eq Value.other Value.other = true
value_eq _ _ = false

-- `_normalize_building_id`
unfoldable pub normalize_building_id : Value → Option Value
normalize_building_id (Value.text t) =
    if is_empty (strip t) then none else some (Value.text (strip t))
normalize_building_id _ = none

-- `_normalize_municipality_id`
unfoldable pub normalize_municipality_id : Value → Option Value
normalize_municipality_id (Value.int (pos n)) = if n == 0 then none else some (Value.int (pos n))
normalize_municipality_id _ = none

-- `DASHBOARD` and `MUNICIPALITY`
pub data Kind : Type 0 where
  dashboard municipality : Kind

unfoldable pub normalize_subject : Kind → Value → Option Value
unfolding normalize_building_id normalize_municipality_id
normalize_subject Kind.dashboard v = normalize_building_id v
normalize_subject Kind.municipality v = normalize_municipality_id v

-- A row of `dashboard_access_tokens` or `municipality_access_tokens`.
pub record Token : Type 0 where
  pub token_hash : Text
  pub subject : Value
  pub expires_at : ℕ
  pub used_at : Option ℕ
  pub revoked_at : Option ℕ

pub record Db : Type 0 where
  pub dashboard_tokens : List Token
  pub municipality_tokens : List Token

abbrev pub tokens : Kind → Db → List Token
tokens Kind.dashboard db = db.dashboard_tokens
tokens Kind.municipality db = db.municipality_tokens

abbrev pub set_tokens : Kind → List Token → Db → Db
set_tokens Kind.dashboard ts db = record db { dashboard_tokens = ts }
set_tokens Kind.municipality ts db = record db { municipality_tokens = ts }

abbrev pub is_token : Text → Token → Bool
is_token token_hash t = text_eq t.token_hash token_hash

-- `_save_token`, on the rows of the table
unfoldable pub save_token : ℕ → Text → Value → ℕ → List Token → Bool × List Token
save_token now token_hash subject ttl_seconds ts =
    if any (is_token token_hash) ts then (false, ts) else (
      true,
      record {
        token_hash = token_hash;
        subject = subject;
        expires_at = now + ttl_seconds;
        used_at = none;
        revoked_at = none;
      }
          ∷ ts,
    )

-- WHERE token_hash = ... AND expires_at > now AND used_at IS NULL AND revoked_at IS NULL
abbrev pub is_usable : ℕ → Text → Token → Bool
is_usable now token_hash t =
    is_token token_hash t
    && ltb now t.expires_at
    && not (is_some t.used_at)
    && not (is_some t.revoked_at)

abbrev pub subject_of : Option Token → Option Value
subject_of none = none
subject_of (some t) = some t.subject

-- `_consume_token`: the subject of the row that was updated, and the rows
unfoldable pub consume_token : ℕ → Text → List Token → Option Value × List Token
consume_token now token_hash ts = (
  subject_of (find (is_usable now token_hash) ts),
  update (is_usable now token_hash) (λ t. record t { used_at = some now }) ts,
)

abbrev pub is_open : Value → Token → Bool
is_open subject t =
    value_eq t.subject subject && not (is_some t.used_at) && not (is_some t.revoked_at)

-- `_revoke_tokens`: how many rows were updated, and the rows
unfoldable pub revoke_tokens : ℕ → Value → List Token → ℕ × List Token
revoke_tokens now subject ts = (
  count (is_open subject) ts,
  update (is_open subject) (λ t. record t { revoked_at = some now }) ts,
)

-- `revoke_dashboard_access_tokens` and `revoke_municipality_access_tokens`
unfoldable pub revoke_access_tokens : Kind → ℕ → Value → Db → ℕ × Db
unfolding revoke_tokens
revoke_access_tokens kind now subject db =
    let (revoked, ts) = revoke_tokens now subject (tokens kind db) in
    (revoked, set_tokens kind ts db)

-- A character of `_URLSAFE_TOKEN_RE`.
abbrev is_urlsafe : ℕ → Bool
is_urlsafe c =
    (leb 65 c && leb c 90)
    || (leb 97 c && leb c 122)
    || (leb 48 c && leb c 57)
    || c == 95
    || c == 45

-- `_is_valid_token`
unfoldable pub is_valid_token : Text → Bool
is_valid_token raw_token =
    leb 32 (length raw_token) && leb (length raw_token) 128 && all is_urlsafe raw_token

module _ (sha256 : Text → Text) where
  -- The part of `issue` behind the normalisation.
  issue_for : Kind → ℕ → Option Value → ℕ → Text → Db → Option Text × Db
  unfolding save_token is_valid_token
  issue_for kind now none ttl_seconds raw_token db = (none, db)
  issue_for kind now (some subject) ttl_seconds raw_token db =
      if ltb ttl_seconds 60 || ltb 86400 ttl_seconds || not (is_valid_token raw_token)
      then (none, db)
      else (let (saved, ts) =
            save_token now (sha256 raw_token) subject ttl_seconds (tokens kind db) in
          (if saved then some raw_token else none, set_tokens kind ts db))

  -- `issue`; a negative lifetime is refused as zero is.
  unfoldable pub issue : Kind → ℕ → Value → ℕ → Text → Db → Option Text × Db
  unfolding issue_for normalize_subject
  issue kind now subject ttl_seconds raw_token db =
      issue_for kind now (normalize_subject kind subject) ttl_seconds raw_token db

  -- `consume`
  unfoldable pub consume : Kind → ℕ → Text → Db → Option Value × Db
  unfolding consume_token is_valid_token
  consume kind now raw_token db =
      if not (is_valid_token raw_token)
      then (none, db)
      else (let (subject, ts) = consume_token now (sha256 raw_token) (tokens kind db) in
          (subject, set_tokens kind ts db))
