-- ===== src/Access/Tests.antt =====
-- The theorems on roles at a concrete community.
use openleg.Prelude.{
  ℕ, ◌≡◌, refl, Bool, true, false, ◌⊎◌, Option, some, List, [], ◌∷◌, find, ok, err, Result, arith,
}
use openleg.Access.{
  capabilities_for, Role, Member, MemberStatus, Db, is_row, roles_for, give_roles, validate_roles,
  allows, Capability, is_administrator, has_admin_role, is_confirmed_admin, set_member_access_roles,
  RoleError,
}
use openleg.Access.Administration.{
  has_administrator, set_member_access_roles-has_administrator, set_member_access_roles-allows,
}

abbrev member_of : ℕ → Bool → Member
member_of b admin_column = record {
  community_id = 7;
  building_id = b;
  is_legacy_admin = admin_column;
  access_roles = [];
  status = MemberStatus.confirmed;
}

abbrev two_members : Db
two_members = record {
  members = member_of 1 true ∷ member_of 2 false ∷ [];
  role_events = [];
  policies = [];
  tracked = [];
}

abbrev asked : List (Option Role)
asked = some Role.metering ∷ some Role.admin ∷ []

abbrev given : List Role
given = Role.admin ∷ Role.metering ∷ []

abbrev db_after : Result RoleError (Bool × Db) → Db
db_after (err e) = two_members
db_after (ok (changed, db)) = db

unfoldable changed_db : Db
unfolding set_member_access_roles
changed_db = db_after (set_member_access_roles 7 2 asked 1 two_members)

set_member_access_roles-has_administrator_example : has_administrator 7 changed_db.members ≡ true
unfolding set_member_access_roles changed_db validate_roles is_administrator
set_member_access_roles-has_administrator_example =
    set_member_access_roles-has_administrator 7 2 1 asked two_members (omega arith) refl refl

set_member_access_roles-allows_example :
    (actor : Member) × (target : Member) × (roles : List Role) × (validate_roles asked ≡ ok roles)
    × (find (is_row 7 1) two_members.members ≡ some actor)
    × (find (is_row 7 2) two_members.members ≡ some target)
    × (allows (find (is_row 7 1) two_members.members) Capability.manage_members true ≡ true)
    × ((is_administrator (find (is_row 7 2) two_members.members) ≡ has_admin_role roles)
        ⊎ (is_confirmed_admin actor ≡ true))
unfolding set_member_access_roles validate_roles openleg.Access.may_set_roles allows
    is_administrator openleg.Access.canonical_roles
set_member_access_roles-allows_example = set_member_access_roles-allows 7 2 1 asked two_members refl
