-- ===== src/Formation/Activation.antt =====
-- store/formation_activation.py: the start confirmation of the grid operator, and the activation. The
-- digest is a parameter; a date is its ordinal, and none where the text is no date.
use openleg.Prelude.{
  ℕ, ◌==◌, Bool, true, false, ◌&&◌, not, Option, none, some, any, find, update, if◌then◌else◌, ltb,
  leb, length, Result, ok, err, ◌>>=◌, ◌>>◌, raise_if, or_raise,
}
use openleg.Prelude.Text.{Text, text_eq, is_empty, strip}
use openleg.Access.{Member, is_row, is_confirmed_admin}
use openleg.Formation.Membership.{Status, Proof, Community, Correspondence, Db, is_community}

-- `ValueError`, `ActivationDenied` and `ActivationConflict`, the last by its message
pub data Error : Type 0 where
  invalid_input denied no_evidence other_confirmation not_submitted : Error
  not_confirmed evidence_changed in_future : Error

abbrev confirmed_admin? : Option Member → Bool
confirmed_admin? none = false
confirmed_admin? (some m) = is_confirmed_admin m

-- `_locked_community`
unfoldable pub locked_community : ℕ → ℕ → Db → Result Error Community
locked_community community_id actor_building_id db = do
  community ← or_raise (find (is_community community_id) db.communities) Error.denied
  raise_if (not (confirmed_admin? (find (is_row community_id actor_building_id) db.members)))
      Error.denied
  ok community

abbrev pub is_evidence : ℕ → ℕ → Correspondence → Bool
is_evidence community_id entry_id e =
    e.id == entry_id && e.community_id == community_id && e.is_incoming

abbrev is_dso_submitted : Status → Bool
is_dso_submitted Status.dso_submitted = true
is_dso_submitted _ = false

abbrev pub is_active_status : Status → Bool
is_active_status Status.active = true
is_active_status _ = false

abbrev pub is_approved_status : Status → Bool
is_approved_status Status.dso_approved = true
is_approved_status Status.active = true
is_approved_status _ = false

-- The comparison with a confirmation that is stored already.
abbrev same_source : Proof → Proof → Bool
same_source p q =
    p.correspondence_id == q.correspondence_id
    && p.effective_date == q.effective_date
    && text_eq p.reference q.reference
    && text_eq p.evidence_sha256 q.evidence_sha256

-- The checks of the reference.
unfoldable pub is_reference : Text → Bool
is_reference t = not (is_empty t) && leb (length t) 255 && not (any (λ c. ltb c 32) t)

abbrev pub approve : Proof → Community → Community
approve p c = record c {
  status = Status.dso_approved;
  is_approved = true;
  vnb_start_confirmation = some p;
}

abbrev pub activated : Proof → ℕ → Community → Community
activated p actor_building_id c = record c {
  status = Status.active;
  vnb_start_confirmation = some (record p { activated_by = some actor_building_id });
}

-- The part of `record_vnb_start_confirmation` behind the evidence.
unfoldable pub store_confirmation : ℕ → Community → Option Proof → Proof → Db → Result Error Db
store_confirmation community_id c (some previous) p db =
    if same_source previous p then ok db else err Error.other_confirmation
store_confirmation community_id c none p db = do
  raise_if (not (is_dso_submitted c.status)) Error.not_submitted
  ok (record db { communities = update (is_community community_id) (approve p) db.communities })

module _ (sha256 : Text → Text) where
  -- `_evidence_hash`
  unfoldable pub evidence_hash : ℕ → ℕ → Db → Result Error Text
  evidence_hash community_id entry_id db = do
    e ← or_raise (find (is_evidence community_id entry_id) db.correspondence) Error.no_evidence
    raise_if (is_empty e.attachment_data) Error.no_evidence
    ok (sha256 e.attachment_data)

  -- `record_vnb_start_confirmation`
  unfoldable pub record_vnb_start_confirmation :
      ℕ → ℕ → Option ℕ → Option ℕ → Text → Db → Result Error Db
  unfolding store_confirmation
  record_vnb_start_confirmation community_id actor_building_id entry date reference_text db = do
    entry_id ← or_raise entry Error.invalid_input
    start ← or_raise date Error.invalid_input
    raise_if (entry_id == 0) Error.invalid_input
    let reference = strip reference_text
    raise_if (not (is_reference reference)) Error.invalid_input
    community ← locked_community community_id actor_building_id db
    digest ← evidence_hash community_id entry_id db
    store_confirmation community_id community community.vnb_start_confirmation
        (record {
          correspondence_id = entry_id;
          effective_date = start;
          reference = reference;
          evidence_sha256 = digest;
          recorded_by = actor_building_id;
          activated_by = none;
        })
        db

  -- The part of `activate_community` on a stored confirmation.
  unfoldable pub activate_proven : ℕ → ℕ → ℕ → Community → Proof → Db → Result Error Db
  activate_proven community_id actor_building_id today c p db = do
    raise_if
        (not (
          not (is_empty p.reference)
          && length p.evidence_sha256 == 64
          && c.is_approved
          && is_approved_status c.status))
        Error.not_confirmed
    digest ← evidence_hash community_id p.correspondence_id db
    raise_if (not (text_eq digest p.evidence_sha256)) Error.evidence_changed
    raise_if (ltb today p.effective_date) Error.in_future
    if is_active_status c.status
        then ok db
        else ok (record db {
          communities =
              update (is_community community_id) (activated p actor_building_id) db.communities;
        })

  -- `activate_community`
  unfoldable pub activate_community : ℕ → ℕ → ℕ → Db → Result Error Db
  unfolding activate_proven
  activate_community community_id actor_building_id today db = do
    c ← locked_community community_id actor_building_id db
    p ← or_raise c.vnb_start_confirmation Error.not_confirmed
    activate_proven community_id actor_building_id today c p db
