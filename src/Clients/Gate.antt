-- ===== src/Clients/Gate.antt =====
-- operator_api.py, `require_operator`: the checks in front of every view of the operator API.
use openleg.Prelude.Text.{Text}
use openleg.Prelude.{
  ℕ, ◌<◌, ◌==◌, ◌≡◌, ◌↔◌, refl, sym, ◌∙◌, ap, true, false, not, ◌&&◌, Option, none, some, List, [],
  ◌∷◌, any, find, update, ◌≢◌, if◌then◌else◌, Result, ok, err, arith, inl, inr, Bool-cases,
}
use mathlib.Core.Path.{subst}
use openleg.Clients.{
  Client, Db, is_client, revoked, revoke_client, usage_count, get_client_by_token_hash,
  record_usage, claim_usage,
}

-- The statuses of the refusals: 401 twice, 404, 403 and 429.
pub data Refusal : Type 0 where
  authentication_required invalid_credential not_found capability_denied rate_limited : Refusal

-- The token is that of the Authorization header, where it is a bearer token, by its hash. The view
-- gets the client; a refusal may not be told apart by what it stored, so the tables come with it.
unfoldable pub admit : ℕ → ℕ → Text → ℕ → Client → Db → Result Refusal Client × Db
unfolding claim_usage
admit capability community_id path now c db =
    if not (c.community_id == community_id)
    then (err Refusal.not_found, db)
    else if not (any (λ x. x == capability) c.capabilities)
    then (err Refusal.capability_denied, db)
    else let request = claim_usage c.id path c.rate_limit_per_hour now db in
      (if request.0 then ok c else err Refusal.rate_limited, request.1)

unfoldable pub by_client : ℕ → ℕ → Text → ℕ → Option Client → Db → Result Refusal Client × Db
unfolding admit
by_client capability community_id path now none db = (err Refusal.invalid_credential, db)
by_client capability community_id path now (some c) db = admit capability community_id path now c db

unfoldable pub require_operator : ℕ → Option ℕ → ℕ → Text → ℕ → Db → Result Refusal Client × Db
unfolding by_client get_client_by_token_hash
require_operator capability none community_id path now db =
    (err Refusal.authentication_required, db)
require_operator capability (some token_hash) community_id path now db =
    by_client capability community_id path now (get_client_by_token_hash token_hash db) db

-- What a request needs.
abbrev pub Admitted : ℕ → Option ℕ → ℕ → ℕ → Client → Db → Type 0
Admitted capability token community_id now c db =
    (token_hash : ℕ) × (token ≡ some token_hash)
    × (get_client_by_token_hash token_hash db ≡ some c)
    × (c.community_id ≡ community_id)
    × (any (λ x. x == capability) c.capabilities ≡ true)
    × (usage_count c.id now db < c.rate_limit_per_hour)

admit-admits :
    (capability community_id : ℕ) (path : Text) (now : ℕ) (x c : Client) (db : Db)
    → (admit capability community_id path now x db).0 ≡ ok c
    → (x ≡ c)
      × (x.community_id ≡ community_id)
      × (any (λ a. a == capability) x.capabilities ≡ true)
      × (usage_count x.id now db < x.rate_limit_per_hour)
      × ((admit capability community_id path now x db).1 ≡ record_usage x.id path now db)
unfolding admit claim_usage
admit-admits capability community_id path now x c db h =
    elim (Bool-cases (any (λ a. a == capability) x.capabilities)) [
      | inl e ↦ ground arith
      | inr e ↦ ground arith
    ]

admits-admit :
    (capability community_id : ℕ) (path : Text) (now : ℕ) (c : Client) (db : Db)
    → c.community_id ≡ community_id
    → any (λ a. a == capability) c.capabilities ≡ true
    → usage_count c.id now db < c.rate_limit_per_hour
    → (admit capability community_id path now c db).0 ≡ ok c
unfolding admit claim_usage
admits-admit capability community_id path now c db e a u = ground arith

refused-unchanged :
    (capability community_id : ℕ) (path : Text) (now : ℕ) (c : Client) (db : Db) {r : Refusal}
    → (admit capability community_id path now c db).0 ≡ err r
    → (admit capability community_id path now c db).1 ≡ db
unfolding admit claim_usage
refused-unchanged capability community_id path now c db h = ground arith

by_client-admits :
    (capability community_id : ℕ) (path : Text) (now : ℕ) (x : Option Client) (c : Client) (db : Db)
    → (by_client capability community_id path now x db).0 ≡ ok c
    → (x ≡ some c)
      × (c.community_id ≡ community_id)
      × (any (λ a. a == capability) c.capabilities ≡ true)
      × (usage_count c.id now db < c.rate_limit_per_hour)
      × ((by_client capability community_id path now x db).1 ≡ record_usage c.id path now db)
unfolding by_client
by_client-admits capability community_id path now none c db h = cc
by_client-admits capability community_id path now (some x) c db h =
    let (same, e, a, u, r) = admit-admits capability community_id path now x c db h in
    (
      ap some same,
      ap (λ (y : Client). y.community_id) (sym same) ∙ e,
      ap (λ (y : Client). any (λ a. a == capability) y.capabilities) (sym same) ∙ a,
      subst (λ (y : Client). usage_count y.id now db < y.rate_limit_per_hour) same u,
      r ∙ ap (λ (y : Client). record_usage y.id path now db) same,
    )

by_client-refused :
    (capability community_id : ℕ) (path : Text) (now : ℕ) (x : Option Client) (db : Db)
    {r : Refusal}
    → (by_client capability community_id path now x db).0 ≡ err r
    → (by_client capability community_id path now x db).1 ≡ db
unfolding by_client
by_client-refused capability community_id path now none db h = refl
by_client-refused capability community_id path now (some x) db h =
    refused-unchanged capability community_id path now x db h

-- A request is answered for a client exactly if it bears the token of an active client of the
-- community that has the capability and requests left in this hour. It is then counted, and a
-- request that is refused changes nothing.
pub require_operator-admits :
    (capability : ℕ) (token : Option ℕ) (community_id : ℕ) (path : Text) (now : ℕ) (db : Db)
    → let answer = require_operator capability token community_id path now db in
      ((c : Client) → (answer.0 ≡ ok c) ↔ Admitted capability token community_id now c db)
      × ((c : Client) → answer.0 ≡ ok c → answer.1 ≡ record_usage c.id path now db)
      × ((r : Refusal) → answer.0 ≡ err r → answer.1 ≡ db)
unfolding require_operator by_client
require_operator-admits capability none community_id path now db =
    (λ c. (λ h. cc, λ (t, e, f, g, a, u). cc), λ c h. cc, λ r h. refl)
require_operator-admits capability (some token) community_id path now db =
    let found = get_client_by_token_hash token db in
    (
      λ c. (
        λ h.
            let (f, e, a, u, s) = by_client-admits capability community_id path now found c db h in
            (token, refl, f, e, a, u),
        λ (t, e, f, g, a, u).
            let same : found ≡ some c = ground arith in
            subst (λ x. (by_client capability community_id path now x db).0 ≡ ok c) (sym same)
              (admits-admit capability community_id path now c db g a u),
      ),
      λ c h. (by_client-admits capability community_id path now found c db h).4,
      λ r h. by_client-refused capability community_id path now found db h,
    )

find-revoked :
    (token_hash community_id client_id now : ℕ) (cs : List Client) {c : Client}
    → find
        (λ x. (x.token_hash == token_hash) && x.active)
        (update (is_client community_id client_id) (revoked now) cs)
      ≡ some c
    → (c.id == client_id) && (c.community_id == community_id) ≡ false
find-revoked token_hash community_id client_id now [] h = cc
find-revoked token_hash community_id client_id now (x ∷ xs) {c} h =
    elim (Bool-cases (is_client community_id client_id x)) [
      | inl e ↦ find-revoked token_hash community_id client_id now xs {c = c} (ground arith)
      | inr e ↦ elim (Bool-cases ((x.token_hash == token_hash) && x.active)) [
        | inl t ↦ let same : x ≡ c = ground arith in rw same at e
        | inr t ↦ find-revoked token_hash community_id client_id now xs {c = c} (ground arith)
      ]
    ]

-- Right after a credential of a community is revoked, no request to the community is answered for
-- that client, whatever token it bears.
pub revoke_client-refused :
    (community_id client_id t capability : ℕ) (token : Option ℕ) (path : Text) (now : ℕ) (db : Db)
    (c : Client)
    → let after = (revoke_client community_id client_id t db).1 in
      (require_operator capability token community_id path now after).0 ≡ ok c → c.id ≢ client_id
unfolding revoke_client get_client_by_token_hash
revoke_client-refused community_id client_id t capability token path now db c h same =
    let after = (revoke_client community_id client_id t db).1 in
    let (token_hash, e, f, g, a, u) =
      ((require_operator-admits capability token community_id path now after).0 c).0 h in
    let other = find-revoked token_hash community_id client_id t db.clients f in ground arith
