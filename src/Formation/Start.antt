-- ===== src/Formation/Start.antt =====
-- What the activation of a community rests on, and that a recorded confirmation leads to it.
use mathlib.Core.Path.{subst}
use openleg.Prelude.{
  ℕ, ◌≤◌, ◌≡◌, refl, sym, true, false, none, some, List, [], ◌∷◌, find, update, length, arith, ok,
  Option-cases, Bool-cases, Result-cases, inl, inr,
}
use openleg.Prelude.Text.{Text, is_empty, strip, eq_of_text_eq, text_eq_refl}
use openleg.Access.{Member, is_row, is_confirmed_admin}
use openleg.Formation.Membership.{Proof, Community, Correspondence, Db, is_community}
use openleg.Formation.Activation.{
  locked_community, is_evidence, is_active_status, is_approved_status, is_reference, approve,
  activated, evidence_hash, record_vnb_start_confirmation, activate_community, activate_proven,
}

find-update :
    (c : ℕ) (f : Community → Community) (ks : List Community) (k : Community)
    → ((x : Community) → (f x).community_id ≡ x.community_id)
    → find (is_community c) ks ≡ some k
    → find (is_community c) (update (is_community c) f ks) ≡ some (f k)
find-update c f [] k same h = ground arith
find-update c f (x ∷ ks) k same h = ground (arith, find-update c f ks k same, same x)

-- The community that was locked, and the administrator who asked.
locked_community_lem :
    (c a : ℕ) (db : Db) (k : Community)
    → locked_community c a db ≡ ok k
    → (find (is_community c) db.communities ≡ some k)
      × (m : Member) × (find (is_row c a) db.members ≡ some m)
      × (is_confirmed_admin m ≡ true)
unfolding locked_community
locked_community_lem c a db k h = elim (Option-cases (find (is_community c) db.communities)) [
  | inl missing ↦ ground arith
  | inr (x, e) ↦ elim (Option-cases (find (is_row c a) db.members)) [
    | inl stranger ↦ ground arith
    | inr (m, f) ↦ (ground arith, m, f, ground arith)
  ]
]

module _ (sha256 : Text → Text) where
  evidence_hash_lem :
      (c n : ℕ) (db : Db) (t : Text)
      → evidence_hash sha256 c n db ≡ ok t
      → (e : Correspondence) × (find (is_evidence c n) db.correspondence ≡ some e)
        × (is_empty e.attachment_data ≡ false)
        × (sha256 e.attachment_data ≡ t)
  unfolding evidence_hash
  evidence_hash_lem c n db t h = elim (Option-cases (find (is_evidence c n) db.correspondence)) [
    | inl missing ↦ ground arith
    | inr (e, f) ↦ (e, f, ground arith, ground arith)
  ]

  proven_lem :
      (c a today : ℕ) (k : Community) (p : Proof) (db db' : Db)
      → find (is_community c) db.communities ≡ some k
      → activate_proven sha256 c a today k p db ≡ ok db'
      → (is_approved_status k.status ≡ true)
        × (p.effective_date ≤ today)
        × (evidence_hash sha256 c p.correspondence_id db ≡ ok p.evidence_sha256)
        × ((k' : Community) × (find (is_community c) db'.communities ≡ some k')
            × (is_active_status k'.status ≡ true))
  unfolding activate_proven
  proven_lem c a today k p db db' found h =
      elim (Result-cases (evidence_hash sha256 c p.correspondence_id db)) [
        | inl (e, missing) ↦ ground arith
        | inr (t, e) ↦
            let same : t ≡ p.evidence_sha256 = ground (arith, eq_of_text_eq t p.evidence_sha256) in
            (
              ground arith,
              ground arith,
              ground arith,
              elim (Bool-cases (is_active_status k.status)) [
                | inl already ↦ (k, ground arith, already)
                | inr fresh ↦ (
                  activated p a k,
                  ground (arith, find-update c (activated p a) db.communities k (λ x. refl) found),
                  refl,
                )
              ],
            )
      ]

  -- A community that `activate_community` accepts was approved and has a stored start confirmation
  -- whose date has come and whose incoming evidence still has the recorded digest; a confirmed
  -- administrator asked; and the community is active afterwards.
  pub activate_community-is_active_status :
      (c a today : ℕ) (db : Db) {db' : Db}
      → activate_community sha256 c a today db ≡ ok db'
      → (k k' : Community) × (p : Proof) × (m : Member) × (e : Correspondence) × (find
            (is_community c)
            db.communities
          ≡ some k)
        × (find (is_row c a) db.members ≡ some m)
        × (is_confirmed_admin m ≡ true)
        × (k.vnb_start_confirmation ≡ some p)
        × (is_approved_status k.status ≡ true)
        × (p.effective_date ≤ today)
        × (find (is_evidence c p.correspondence_id) db.correspondence ≡ some e)
        × (sha256 e.attachment_data ≡ p.evidence_sha256)
        × (find (is_community c) db'.communities ≡ some k')
        × (is_active_status k'.status ≡ true)
  unfolding activate_community
  activate_community-is_active_status c a today db {db'} h =
      elim (Result-cases (locked_community c a db)) [
        | inl (e, refused) ↦ ground arith
        | inr (k, locked) ↦ elim (Option-cases k.vnb_start_confirmation) [
          | inl missing ↦ ground arith
          | inr (p, stored) ↦
              let (found, m, row, admin) = locked_community_lem c a db k locked in
              let (approved, due, hashed, after) =
                proven_lem c a today k p db db' found (ground arith) in
              let (k', found', active) = after in
              let (e, evidence, full, digest) =
                evidence_hash_lem c p.correspondence_id db _ hashed in
              (
                k, k', p, m, e, found, row, admin, stored, approved, due, evidence, digest, found',
                active,
              )
        ]
      ]

  -- The confirmation that `record_vnb_start_confirmation` stores where none is stored.
  recorded_lem :
      (c a n start : ℕ) (reference : Text) (db : Db) (k : Community) {db' : Db}
      → find (is_community c) db.communities ≡ some k
      → k.vnb_start_confirmation ≡ none
      → record_vnb_start_confirmation sha256 c a (some n) (some start) reference db ≡ ok db'
      → (p : Proof) × (db'
          ≡ record db { communities = update (is_community c) (approve p) db.communities })
        × (p.effective_date ≡ start)
        × (p.correspondence_id ≡ n)
        × (is_empty p.reference ≡ false)
        × (evidence_hash sha256 c n db ≡ ok p.evidence_sha256)
        × (locked_community c a db ≡ ok k)
  unfolding record_vnb_start_confirmation is_reference
  recorded_lem c a n start reference db k found fresh h =
      elim (Result-cases (locked_community c a db)) [
        | inl (e, refused) ↦ ground arith
        | inr (x, locked) ↦ elim (Result-cases (evidence_hash sha256 c n db)) [
          | inl (e, refused) ↦ ground arith
          | inr (t, hashed) ↦
              let same : x ≡ k = ground (arith, locked_community_lem c a db x locked) in
              let none_stored : x.vnb_start_confirmation ≡ none = ground arith in
              (
                record {
                  correspondence_id = n;
                  effective_date = start;
                  reference = strip reference;
                  evidence_sha256 = t;
                  recorded_by = a;
                  activated_by = none;
                },
                ground arith,
                refl,
                refl,
                ground arith,
                hashed,
                ground arith,
              )
        ]
      ]

  approved_activates :
      (c a today : ℕ) (p : Proof) (db : Db) (k : Community)
      → find (is_community c) db.communities ≡ some k
      → length p.evidence_sha256 ≡ 64
      → p.effective_date ≤ today
      → is_empty p.reference ≡ false
      → evidence_hash sha256 c p.correspondence_id db ≡ ok p.evidence_sha256
      → locked_community c a db ≡ ok k
      → (db'' : Db) × (activate_community sha256 c a today
            (record db { communities = update (is_community c) (approve p) db.communities })
          ≡ ok db'')
  unfolding activate_community locked_community evidence_hash
  approved_activates c a today p db k found digits due named hashed locked =
      let located = find-update c (approve p) db.communities k (λ x. refl) found in
      let recorded : Db = record db {
        communities = update (is_community c) (approve p) db.communities;
      } in
      (
        record recorded {
          communities = update (is_community c) (activated p a) recorded.communities;
        },
        ground (arith, text_eq_refl p.evidence_sha256),
      )

  -- Once a confirmed administrator has recorded the first start confirmation of a community, a call
  -- of `activate_community` by the same administrator on or after the date makes it active, for a
  -- digest of 64 characters.
  pub record_vnb_start_confirmation-activate_community :
      (c a n start today : ℕ) (reference : Text) (db : Db) (k : Community) {db' : Db}
      → ((t : Text) → length (sha256 t) ≡ 64)
      → find (is_community c) db.communities ≡ some k
      → k.vnb_start_confirmation ≡ none
      → record_vnb_start_confirmation sha256 c a (some n) (some start) reference db ≡ ok db'
      → start ≤ today
      → (db'' : Db) × (k' : Community) × (activate_community sha256 c a today db' ≡ ok db'')
        × (find (is_community c) db''.communities ≡ some k')
        × (is_active_status k'.status ≡ true)
  record_vnb_start_confirmation-activate_community c a n start today reference db k {db'} digits
        found fresh h due =
      let (p, stored, date, entry, named, hashed, locked) =
        recorded_lem c a n start reference db k found fresh h in
      let (e, evidence, full, digest) = evidence_hash_lem c n db p.evidence_sha256 hashed in
      let (db'', called) =
        approved_activates c a today p db k found
          (subst (λ t. length t ≡ 64) digest (digits e.attachment_data)) (rw date due) named
          (rw entry hashed) locked in
      let done : activate_community sha256 c a today db' ≡ ok db'' =
        subst (λ d. activate_community sha256 c a today d ≡ ok db'') (sym stored) called in
      let (_, k', _, _, _, _, _, _, _, _, _, _, _, found', active) =
        activate_community-is_active_status c a today db' done in
      (db'', k', done, found', active)
