-- ===== src/Clients/Window.antt =====
-- store/operator_api.py and operator_api.py: the hourly budget of a credential over any requests.
use openleg.Prelude.Text.{Text}
use openleg.Prelude.{
  ℕ, ◌+◌, ◌≤◌, ◌==◌, ◌≡◌, refl, sym, Bool, true, ◌&&◌, Option, none, some, List, [], ◌∷◌, All,
  All-find, any, count, update, ltb, leb, arith, inl, inr, Bool-cases,
}
use mathlib.Core.Path.{subst}
use openleg.Clients.{
  Client, Call, Db, in_hour, usage_count, is_client, create_client, rotate_client, revoke_client,
  get_client_by_token_hash, record_usage, claim_usage,
}
use openleg.Clients.Gate.{admit, by_client, require_operator}

-- The requests of a client in the hour that ends at a time.
abbrev pub in_window : ℕ → ℕ → Call → Bool
in_window client_id t c =
    (c.client_id == client_id) && leb c.called_at t && ltb t (c.called_at + 3_600)

abbrev pub empty_db : Db
empty_db = record { clients = []; calls = [] }

-- Each client is created with the limit that `limit` gives its id.
module _ (limit : ℕ → ℕ) where
  pub data Step (db : Db) : Db → Type 0 where
    create :
        (uuid community_id created_by : ℕ) (name : Text) (capabilities : List ℕ) (token_hash : ℕ)
        (url : Option Text) {c : Client} {db' : Db}
        → create_client uuid community_id created_by name capabilities token_hash url
            (limit uuid)
            db
          ≡ some (c, db')
        → Step db db'
    rotate :
        (community_id client_id token_hash now : ℕ)
        → Step db (rotate_client community_id client_id token_hash now db).1
    revoke :
        (community_id client_id now : ℕ) → Step db (revoke_client community_id client_id now db).1
    request :
        (capability : ℕ) (token_hash : Option ℕ) (community_id : ℕ) (path : Text) (now : ℕ)
        → Step db (require_operator capability token_hash community_id path now db).1

  pub data Reach : Db → Type 0 where
    start : Reach empty_db
    next : {db db' : Db} → Reach db → Step db db' → Reach db'

  abbrev HasLimit : Client → Type 0
  HasLimit c = c.rate_limit_per_hour ≡ limit c.id

  record IsWithin (db : Db) : Type 0 where
    limits : All HasLimit db.clients
    within : (client_id t : ℕ) → count (in_window client_id t) db.calls ≤ limit client_id

  All-update :
      (p : Client → Bool) (f : Client → Client) (cs : List Client)
      → ((c : Client) → HasLimit c → HasLimit (f c))
      → All HasLimit cs
      → All HasLimit (update p f cs)
  All-update p f [] keeps h = tt
  All-update p f (c ∷ cs) keeps (h, hs) = elim (Bool-cases (p c)) [
    | inl e ↦ rw e (keeps c h, All-update p f cs keeps hs)
    | inr e ↦ rw e (h, All-update p f cs keeps hs)
  ]

  window-le-hour :
      (client_id t now : ℕ) (cs : List Call)
      → now ≤ t
      → count (in_window client_id t) cs ≤ count (in_hour client_id now) cs
  window-le-hour client_id t now [] h = omega arith
  window-le-hour client_id t now (c ∷ cs) h = ground (arith, window-le-hour client_id t now cs h)

  claim_usage-IsWithin :
      (client_id : ℕ) (endpoint : Text) (now : ℕ) (db : Db)
      → IsWithin db
      → IsWithin (claim_usage client_id endpoint (limit client_id) now db).1
  unfolding claim_usage usage_count record_usage
  claim_usage-IsWithin client_id endpoint now db w =
      elim (Bool-cases (leb (limit client_id) (count (in_hour client_id now) db.calls))) [
        | inl e ↦ rw e w
        | inr e ↦ rw e (record {
          limits = All-update (λ c. c.id == client_id) _ db.clients (λ c h. h) w.limits;
          within = λ i t. elim (Bool-cases (leb now t)) [
            | inl l ↦
                ground (arith, w.within i t, window-le-hour client_id t now db.calls (ground arith))
            | inr l ↦ ground (arith, w.within i t)
          ];
        })
      ]

  admit-IsWithin :
      (capability community_id : ℕ) (path : Text) (now : ℕ) (c : Client) (db : Db)
      → HasLimit c
      → IsWithin db
      → IsWithin (admit capability community_id path now c db).1
  unfolding admit
  admit-IsWithin capability community_id path now c db h w =
      elim (Bool-cases (c.community_id == community_id)) [
        | inr e ↦ rw e w
        | inl e ↦ elim (Bool-cases (any (λ x. x == capability) c.capabilities)) [
          | inr a ↦ rw e (rw a w)
          | inl a ↦ rw e (
              rw a (
                subst (λ n. IsWithin (claim_usage c.id path n now db).1) (sym h)
                  (claim_usage-IsWithin c.id path now db w)))
        ]
      ]

  by_client-IsWithin :
      (capability community_id : ℕ) (path : Text) (now : ℕ) (c : Option Client) (db : Db)
      → ((x : Client) → c ≡ some x → HasLimit x)
      → IsWithin db
      → IsWithin (by_client capability community_id path now c db).1
  unfolding by_client
  by_client-IsWithin capability community_id path now none db h w = w
  by_client-IsWithin capability community_id path now (some c) db h w =
      admit-IsWithin capability community_id path now c db (h c refl) w

  request-IsWithin :
      (capability : ℕ) (token_hash : Option ℕ) (community_id : ℕ) (path : Text) (now : ℕ) (db : Db)
      → IsWithin db
      → IsWithin (require_operator capability token_hash community_id path now db).1
  unfolding require_operator get_client_by_token_hash
  request-IsWithin capability none community_id path now db w = w
  request-IsWithin capability (some token_hash) community_id path now db w =
      by_client-IsWithin capability community_id path now _ db
        (λ x e.
          All-find HasLimit (λ c. (c.token_hash == token_hash) && c.active) db.clients w.limits e)
        w

  create_client-IsWithin :
      (uuid community_id created_by : ℕ) (name : Text) (capabilities : List ℕ) (token_hash : ℕ)
      (url : Option Text) (db : Db) {c : Client} {db' : Db}
      → IsWithin db
      → create_client uuid community_id created_by name capabilities token_hash url (limit uuid) db
        ≡ some (c, db')
      → IsWithin db'
  unfolding create_client
  create_client-IsWithin uuid community_id created_by name capabilities token_hash url db {c} {db'}
        w e =
      let row : Client = record {
        id = uuid;
        community_id = community_id;
        created_by = created_by;
        name = name;
        capabilities = capabilities;
        token_hash = token_hash;
        webhook_url = url;
        webhook_secret_version = 1;
        rate_limit_per_hour = limit uuid;
        active = true;
        rotated_at = none;
        revoked_at = none;
        last_used_at = none;
      } in
      let same : record db { clients = row ∷ db.clients } ≡ db' = ground arith in
      subst IsWithin same (record { limits = (refl, w.limits); within = w.within })

  step-IsWithin : (db : Db) {db' : Db} → IsWithin db → Step db db' → IsWithin db'
  unfolding rotate_client revoke_client
  step-IsWithin db w (Step.create uuid community_id created_by name capabilities token_hash url e) =
      create_client-IsWithin uuid community_id created_by name capabilities token_hash url db w e
  step-IsWithin db w (Step.rotate community_id client_id token_hash now) = record {
    limits = All-update (is_client community_id client_id) _ db.clients (λ c h. h) w.limits;
    within = w.within;
  }
  step-IsWithin db w (Step.revoke community_id client_id now) = record {
    limits = All-update (is_client community_id client_id) _ db.clients (λ c h. h) w.limits;
    within = w.within;
  }
  step-IsWithin db w (Step.request capability token_hash community_id path now) =
      request-IsWithin capability token_hash community_id path now db w

  Reach-IsWithin : (db : Db) → Reach db → IsWithin db
  Reach-IsWithin db Reach.start = record { limits = tt; within = λ i t. omega arith }
  Reach-IsWithin db' (Reach.next {db = old} r s) = step-IsWithin old (Reach-IsWithin old r) s

  -- After any operations on empty tables, a client has in each hour, whenever it ends, at most as
  -- many requests as its limit.
  pub Reach-window :
      (db : Db)
      → Reach db
      → (client_id t : ℕ) → count (in_window client_id t) db.calls ≤ limit client_id
  Reach-window db r = (Reach-IsWithin db r).within
