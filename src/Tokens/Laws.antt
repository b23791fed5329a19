-- ===== src/Tokens/Laws.antt =====
-- What a token is good for: one use, before it expires and unless it is revoked.
use openleg.Prelude.{
  ℕ, ◌+◌, ◌≡◌, ◌≤◌, refl, false, none, some, List, [], ◌∷◌, any, find, update, if◌then◌else◌, ltb,
  arith, Option-cases, inl, inr,
}
use openleg.Prelude.Text.{Text, text_eq_refl}
use openleg.Tokens.{
  Value, Kind, Token, Db, is_token, is_usable, save_token, consume_token, revoke_tokens, issue,
  consume, normalize_subject,
}

find-missing :
    (now : ℕ) (h : Text) (ts : List Token)
    → any (is_token h) ts ≡ false
    → find (is_usable now h) ts ≡ none
find-missing now h [] none_h = refl
find-missing now h (t ∷ ts) none_h = ground (arith, find-missing now h ts)

revoke-missing :
    (now : ℕ) (s : Value) (h : Text) (ts : List Token)
    → any (is_token h) ts ≡ false
    → any (is_token h) (revoke_tokens now s ts).1 ≡ false
unfolding revoke_tokens
revoke-missing now s h [] none_h = refl
revoke-missing now s h (t ∷ ts) none_h = ground (arith, revoke-missing now s h ts)

-- A used token is used up at every later moment.
used_up :
    (now later : ℕ) (h : Text) (ts : List Token)
    → now ≤ later
    → find
        (is_usable later h)
        (update (is_usable now h) (λ (t : Token). record t { used_at = some now }) ts)
      ≡ none
used_up now later h [] after = refl
used_up now later h (t ∷ ts) after = ground (arith, used_up now later h ts)

module _ (sha256 : Text → Text) where
  -- A token that `issue` handed out gives back its subject at every moment before it expires, and
  -- nothing from then on.
  pub issue-consume :
      (kind : Kind) (now : ℕ) (v : Value) (ttl : ℕ) (raw : Text) (db : Db) {t : Text} {db' : Db}
      (later : ℕ)
      → issue sha256 kind now v ttl raw db ≡ (some t, db')
      → (consume sha256 kind later t db').0
        ≡ (if ltb later (now + ttl) then normalize_subject kind v else none)
  unfolding issue consume consume_token save_token
  issue-consume Kind.dashboard now v ttl raw db later h =
      elim (Option-cases (normalize_subject Kind.dashboard v)) [
        | inl e ↦ ground arith
        | inr (s, e) ↦
            ground (
              arith,
              find-missing later (sha256 raw) db.dashboard_tokens,
              text_eq_refl (sha256 raw),
            )
      ]
  issue-consume Kind.municipality now v ttl raw db later h =
      elim (Option-cases (normalize_subject Kind.municipality v)) [
        | inl e ↦ ground arith
        | inr (s, e) ↦ ground (
          arith,
          find-missing later (sha256 raw) db.municipality_tokens,
          text_eq_refl (sha256 raw),
        )
      ]

  -- A token that was handed to `consume` gives nothing at that moment or a later one.
  pub consume-consume :
      (kind : Kind) (now : ℕ) (raw : Text) (db : Db) (later : ℕ)
      → now ≤ later
      → (consume sha256 kind later raw (consume sha256 kind now raw db).1).0 ≡ none
  unfolding consume consume_token
  consume-consume Kind.dashboard now raw db later after =
      ground (arith, used_up now later (sha256 raw) db.dashboard_tokens after)
  consume-consume Kind.municipality now raw db later after =
      ground (arith, used_up now later (sha256 raw) db.municipality_tokens after)
