-- ===== src/Formation/Membership.antt =====
-- store/formation.py: creation, invitation, confirmation, start and submission of a community, with
-- `start_formation` of formation_wizard.py. Tracked events are left out.
use openleg.Prelude.{
  ℕ, ◌==◌, Bool, true, false, ◌&&◌, ◌||◌, Option, none, some, List, [], ◌∷◌, any, count, update,
  if◌then◌else◌, ltb,
}
use openleg.Prelude.Text.{Text}
use openleg.Access.{Role, Member, MemberStatus, is_row, is_confirmed}

-- The states of a community.
pub data Status : Type 0 where
  interested formation_started documents_generated signatures_pending : Status
  dso_submitted dso_approved active rejected : Status

-- The start confirmation of the grid operator, as it is stored in the community.
pub record Proof : Type 0 where
  pub correspondence_id : ℕ
  pub effective_date : ℕ
  pub reference : Text
  pub evidence_sha256 : Text
  pub recorded_by : ℕ
  pub activated_by : Option ℕ

pub record Community : Type 0 where
  pub community_id : ℕ
  pub status : Status
  pub is_approved : Bool
  pub vnb_start_confirmation : Option Proof

-- A row of `correspondence_log`; an empty attachment is NULL or empty.
pub record Correspondence : Type 0 where
  pub id : ℕ
  pub community_id : ℕ
  pub is_incoming : Bool
  pub attachment_data : Text

pub record Db : Type 0 where
  pub communities : List Community
  pub members : List Member
  pub correspondence : List Correspondence

abbrev pub is_community : ℕ → Community → Bool
is_community community_id c = c.community_id == community_id

-- `create_community_record`; `community_id` is the drawn uuid, and a known one is refused
unfoldable pub create_community_record : ℕ → ℕ → Db → Option ℕ × Db
create_community_record community_id admin_building_id db =
    if any (is_community community_id) db.communities
      || any (is_row community_id admin_building_id) db.members
    then (none, db)
    else (
      some community_id,
      record db {
        communities =
            record {
              community_id = community_id;
              status = Status.interested;
              is_approved = false;
              vnb_start_confirmation = none;
            }
            ∷ db.communities;
        members =
            record {
              community_id = community_id;
              building_id = admin_building_id;
              is_legacy_admin = true;
              access_roles = some Role.admin ∷ [];
              status = MemberStatus.confirmed;
            }
            ∷ db.members;
      },
    )

-- `insert_invited_member`
unfoldable pub insert_invited_member : ℕ → ℕ → Db → Bool × Db
insert_invited_member community_id building_id db =
    if any (is_row community_id building_id) db.members then (false, db) else (
      true,
      record db {
        members =
            record {
              community_id = community_id;
              building_id = building_id;
              is_legacy_admin = false;
              access_roles = [];
              status = MemberStatus.invited;
            }
            ∷ db.members;
      },
    )

abbrev pub is_invited : MemberStatus → Bool
is_invited MemberStatus.invited = true
is_invited _ = false

abbrev pub is_invitation : ℕ → ℕ → Member → Bool
is_invitation community_id building_id m = is_row community_id building_id m && is_invited m.status

abbrev pub confirm_member : Member → Member
confirm_member m = record m { status = MemberStatus.confirmed }

-- `confirm_invited_member`
unfoldable pub confirm_invited_member : ℕ → ℕ → Db → Bool × Db
confirm_invited_member community_id building_id db = (
  any (is_invitation community_id building_id) db.members,
  record db { members = update (is_invitation community_id building_id) confirm_member db.members },
)

-- `count_confirmed_members`
unfoldable pub count_confirmed_members : ℕ → Db → ℕ
count_confirmed_members community_id db =
    count (λ m. m.community_id == community_id && is_confirmed m.status) db.members

-- `mark_formation_started`
unfoldable pub mark_formation_started : ℕ → Db → Bool × Db
mark_formation_started community_id db = (
  true,
  record db {
    communities =
        update (is_community community_id) (λ c. record c { status = Status.formation_started })
          db.communities;
  },
)

abbrev min_community_size : ℕ
min_community_size = 3

-- `start_formation`
unfoldable pub start_formation : ℕ → Db → Bool × Db
start_formation community_id db =
    if ltb (count_confirmed_members community_id db) min_community_size
    then (false, db)
    else mark_formation_started community_id db

abbrev is_signing : Status → Bool
is_signing Status.signatures_pending = true
is_signing _ = false

-- `submit_community_to_dso`
unfoldable pub submit_community_to_dso : ℕ → Db → Bool × Db
submit_community_to_dso community_id db = (
  any (λ c. is_community community_id c && is_signing c.status) db.communities,
  record db {
    communities =
        update (λ c. is_community community_id c && is_signing c.status)
          (λ c. record c { status = Status.dso_submitted }) db.communities;
  },
)
