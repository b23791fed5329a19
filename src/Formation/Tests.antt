-- ===== src/Formation/Tests.antt =====
-- The theorems on formation at a concrete community. The digest of the tests is no hash.
use openleg.Prelude.{
  ℕ, zero, suc, ◌≤◌, ◌≡◌, refl, ap, Bool, true, false, count, find, length, Option, some, none,
  List, [], ◌∷◌, ok, err, Result, arith,
}
use openleg.Prelude.Text.{Text, codes, take}
use openleg.Access.{Role, Member, MemberStatus, is_row, is_confirmed_admin}
use openleg.Access.Administration.{has_administrator}
use openleg.Formation.Membership.{
  Status, Proof, Community, Correspondence, Db, is_community, create_community_record,
  insert_invited_member, confirm_invited_member,
}
use openleg.Formation.Admission.{
  Step, Reach, Reach-is_row, create_community_record-has_administrator,
}
use openleg.Formation.Activation.{
  Error, is_evidence, is_active_status, is_approved_status, record_vnb_start_confirmation,
  activate_community,
}
use openleg.Formation.Start.{
  activate_community-is_active_status, record_vnb_start_confirmation-activate_community,
}

abbrev no_communities : Db
no_communities = record { communities = []; members = []; correspondence = [] }

unfoldable founded : Db
unfolding create_community_record
founded = (create_community_record 7 1 no_communities).1

unfoldable joined : Db
unfolding insert_invited_member confirm_invited_member founded
joined = (confirm_invited_member 7 2 (insert_invited_member 7 2 founded).1).1

abbrev joining : Reach founded joined
unfolding insert_invited_member confirm_invited_member founded joined
joining = Reach.next (Reach.next Reach.here (Step.invite 7 2)) (Step.accept 7 2)

abbrev run : Reach no_communities joined
unfolding create_community_record insert_invited_member confirm_invited_member founded joined
run =
    Reach.next (Reach.next (Reach.next Reach.here (Step.create 7 1)) (Step.invite 7 2))
      (Step.accept 7 2)

Reach-is_row_example : count (is_row 7 2) joined.members ≤ 1
Reach-is_row_example = Reach-is_row 7 2 run refl

create_community_record-has_administrator_example : has_administrator 7 joined.members ≡ true
unfolding create_community_record founded
create_community_record-has_administrator_example =
    create_community_record-has_administrator 7 1 7 no_communities refl joining

-- The first 64 characters of the padded text.
abbrev pad : ℕ → Text → Text
pad zero t = []
pad (suc n) [] = 48 ∷ pad n []
pad (suc n) (c ∷ t) = c ∷ pad n t

abbrev digest : Text → Text
digest = pad 64

length-pad : (n : ℕ) (t : Text) → length (pad n t) ≡ n
length-pad zero t = refl
length-pad (suc n) [] = ap suc (length-pad n [])
length-pad (suc n) (c ∷ t) = ap suc (length-pad n t)

abbrev submitted_community : Community
submitted_community = record {
  community_id = 7;
  status = Status.dso_submitted;
  is_approved = false;
  vnb_start_confirmation = none;
}

abbrev submitted : Db
submitted = record {
  communities = submitted_community ∷ [];
  members =
      record {
        community_id = 7;
        building_id = 1;
        is_legacy_admin = true;
        access_roles = some Role.admin ∷ [];
        status = MemberStatus.confirmed;
      }
      ∷ [];
  correspondence =
      record { id = 30; community_id = 7; is_incoming = true; attachment_data = codes "Brief" }
      ∷ [];
}

abbrev db_of : Result Error Db → Db
db_of (ok db) = db
db_of (err e) = submitted

unfoldable approved : Db
unfolding record_vnb_start_confirmation
approved =
    db_of
      (record_vnb_start_confirmation digest 7 1 (some 30) (some 738000) (codes "VNB 12") submitted)

unfoldable active : Db
unfolding activate_community approved
active = db_of (activate_community digest 7 1 738000 approved)

activate_community-is_active_status_example :
    (k k' : Community) × (p : Proof) × (m : Member) × (e : Correspondence) × (find
        (is_community 7)
        approved.communities
      ≡ some k)
    × (find (is_row 7 1) approved.members ≡ some m)
    × (is_confirmed_admin m ≡ true)
    × (k.vnb_start_confirmation ≡ some p)
    × (is_approved_status k.status ≡ true)
    × (p.effective_date ≤ 738000)
    × (find (is_evidence 7 p.correspondence_id) approved.correspondence ≡ some e)
    × (digest e.attachment_data ≡ p.evidence_sha256)
    × (find (is_community 7) active.communities ≡ some k')
    × (is_active_status k'.status ≡ true)
unfolding activate_community approved active openleg.Formation.Activation.locked_community
    openleg.Formation.Activation.is_reference openleg.Prelude.Text.strip
    openleg.Access.is_administrator openleg.Formation.Activation.evidence_hash
activate_community-is_active_status_example =
    activate_community-is_active_status digest 7 1 738000 approved refl

record_vnb_start_confirmation-activate_community_example :
    (db'' : Db) × (k' : Community) × (activate_community digest 7 1 738010 approved ≡ ok db'')
    × (find (is_community 7) db''.communities ≡ some k')
    × (is_active_status k'.status ≡ true)
unfolding record_vnb_start_confirmation approved openleg.Formation.Activation.is_reference
    openleg.Prelude.Text.strip openleg.Formation.Activation.locked_community
    openleg.Access.is_administrator openleg.Formation.Activation.evidence_hash
record_vnb_start_confirmation-activate_community_example =
    record_vnb_start_confirmation-activate_community digest 7 1 30 738000 738010 (codes "VNB 12")
      submitted submitted_community (length-pad 64) refl refl refl (omega arith)
