-- ===== src/Access.antt =====
-- community_access.py and the role and dual-control updates of store/formation.py: who may do what
-- in a community. A set of roles is the list of its members in alphabetical order, as the program
-- stores it; a stored value that is no role is none.
pub mod Roles
pub mod Administration
mod Tests
use openleg.Prelude.{
  ℕ, suc, ◌==◌, Bool, true, false, ◌&&◌, ◌||◌, not, Option, none, some, List, [], ◌∷◌, any, find,
  select, count, update, map, if◌then◌else◌, Result, ok, err, ◌>>=◌, is_some,
}

pub data Role : Type 0 where
  admin auditor billing_approver billing_preparer documents membership metering : Role

-- `ROLES`, sorted
abbrev pub all_roles : List Role
all_roles =
    Role.admin ∷ Role.auditor ∷ Role.billing_approver ∷ Role.billing_preparer ∷ Role.documents
    ∷ Role.membership ∷ Role.metering ∷ []

abbrev pub role_eq : Role → Role → Bool
role_eq Role.admin Role.admin = true
role_eq Role.auditor Role.auditor = true
role_eq Role.billing_approver Role.billing_approver = true
role_eq Role.billing_preparer Role.billing_preparer = true
role_eq Role.documents Role.documents = true
role_eq Role.membership Role.membership = true
role_eq Role.metering Role.metering = true
role_eq _ _ = false

pub data Capability : Type 0 where
  view_community manage_members manage_documents manage_metering : Capability
  prepare_billing approve_billing audit_billing : Capability

-- `_CAPABILITIES`
abbrev pub capabilities : Role → Capability → Bool
capabilities Role.admin c = true
capabilities _ Capability.view_community = true
capabilities Role.membership Capability.manage_members = true
capabilities Role.documents Capability.manage_documents = true
capabilities Role.metering Capability.manage_metering = true
capabilities Role.billing_preparer Capability.prepare_billing = true
capabilities Role.billing_preparer Capability.audit_billing = true
capabilities Role.billing_approver Capability.approve_billing = true
capabilities Role.billing_approver Capability.audit_billing = true
capabilities Role.auditor Capability.audit_billing = true
capabilities _ _ = false

-- The column `status` of a member, a text of which the program writes the first two.
pub data MemberStatus : Type 0 where
  invited confirmed other_status : MemberStatus

-- A row of `community_members`; `is_legacy_admin` is whether its column `role` is 'admin'.
pub record Member : Type 0 where
  pub community_id : ℕ
  pub building_id : ℕ
  pub is_legacy_admin : Bool
  pub access_roles : List (Option Role)
  pub status : MemberStatus

abbrev pub is_role : Role → Option Role → Bool
is_role r none = false
is_role r (some s) = role_eq r s

abbrev pub is_admin_role : Role → Bool
is_admin_role = role_eq Role.admin

abbrev granted : Member → Role → Bool
granted m r = any (is_role r) m.access_roles || (is_admin_role r && m.is_legacy_admin)

-- `roles_for`
unfoldable pub roles_for : Option Member → List Role
roles_for none = []
roles_for (some m) = select (granted m) all_roles

abbrev pub is_confirmed : MemberStatus → Bool
is_confirmed MemberStatus.confirmed = true
is_confirmed _ = false

-- `allows`, whose flag `confirmed` asks for a confirmed membership
unfoldable pub allows : Option Member → Capability → Bool → Bool
unfolding roles_for
allows none c only_confirmed = false
allows (some m) c only_confirmed =
    if only_confirmed && not (is_confirmed m.status)
    then false
    else any (λ r. capabilities r c) (roles_for (some m))

-- `is_administrator`
unfoldable pub is_administrator : Option Member → Bool
unfolding roles_for
is_administrator m = any is_admin_role (roles_for m)

all_capabilities : List Capability
all_capabilities =
    Capability.audit_billing ∷ Capability.approve_billing ∷ Capability.prepare_billing
    ∷ Capability.view_community ∷ Capability.manage_documents ∷ Capability.manage_members
    ∷ Capability.manage_metering ∷ []

-- `capabilities_for`
unfoldable pub capabilities_for : Option Member → List Capability
unfolding roles_for all_capabilities
capabilities_for none = []
capabilities_for (some m) =
    if is_confirmed m.status
    then select (λ c. any (λ r. capabilities r c) (roles_for (some m))) all_capabilities
    else []

pub data RoleError : Type 0 where
  unknown_role : RoleError

-- The canonical form of a list of values.
unfoldable pub canonical_roles : List (Option Role) → List Role
canonical_roles roles = select (λ r. any (is_role r) roles) all_roles

-- `validate_roles`, for a list of values
unfoldable pub validate_roles : List (Option Role) → Result RoleError (List Role)
validate_roles roles =
    if any (λ r. not (is_some r)) roles
    then err RoleError.unknown_role
    else ok (canonical_roles roles)

pub record RoleEvent : Type 0 where
  pub community_id : ℕ
  pub building_id : ℕ
  pub actor_building_id : ℕ
  pub previous_roles : List Role
  pub new_roles : List Role

-- A row of `communities`, as far as these updates write it.
pub record Policy : Type 0 where
  pub community_id : ℕ
  pub require_dual_control : Bool

pub record Db : Type 0 where
  pub members : List Member
  pub role_events : List RoleEvent
  pub policies : List Policy
  -- the tracked events 'community_dual_control_changed', by community, actor and value
  pub tracked : List (ℕ × ℕ × Bool)

abbrev pub is_row : ℕ → ℕ → Member → Bool
is_row community_id building_id m = m.community_id == community_id && m.building_id == building_id

abbrev pub has_admin_role : List Role → Bool
has_admin_role = any is_admin_role

abbrev pub is_confirmed_admin : Member → Bool
is_confirmed_admin m = is_administrator (some m) && is_confirmed m.status

-- The administrators of a community that remain without one building.
unfoldable pub remaining_admins : ℕ → ℕ → Db → ℕ
remaining_admins community_id building_id db =
    count
      (λ m.
        m.community_id == community_id
        && not (m.building_id == building_id)
        && is_confirmed_admin m)
      db.members

-- The tests of `set_member_access_roles` on the actor and the target.
unfoldable pub may_set_roles : ℕ → Member → Member → List Role → Db → Bool
may_set_roles community_id actor target new_roles db =
    let was_admin = is_administrator (some target) in
    let is_admin = has_admin_role new_roles in
    allows (some actor) Capability.manage_members true
    && ((if was_admin then is_admin else not is_admin) || is_confirmed_admin actor)
    && not (not is_admin && was_admin && remaining_admins community_id target.building_id db == 0)

-- UPDATE community_members SET role, access_roles
unfoldable pub give_roles : List Role → Member → Member
give_roles new_roles m = record m {
  is_legacy_admin = has_admin_role new_roles;
  access_roles = map some new_roles;
}

write_roles : ℕ → Member → Member → List Role → Db → Db
write_roles community_id actor target new_roles db = record db {
  members = update (is_row community_id target.building_id) (give_roles new_roles) db.members;
  role_events =
      record {
        community_id = community_id;
        building_id = target.building_id;
        actor_building_id = actor.building_id;
        previous_roles = roles_for (some target);
        new_roles = new_roles;
      }
      ∷ db.role_events;
}

-- The part of `set_member_access_roles` behind the two searches.
change_roles : ℕ → Option Member → Option Member → List Role → Db → Bool × Db
unfolding write_roles
change_roles community_id (some actor) (some target) new_roles db =
    if may_set_roles community_id actor target new_roles db
    then (true, write_roles community_id actor target new_roles db)
    else (false, db)
change_roles community_id _ _ new_roles db = (false, db)

-- `set_member_access_roles`
unfoldable pub set_member_access_roles :
    ℕ → ℕ → List (Option Role) → ℕ → Db → Result RoleError (Bool × Db)
unfolding change_roles
set_member_access_roles community_id building_id roles actor_building_id db = do
  new_roles ← validate_roles roles
  ok (
      change_roles community_id (find (is_row community_id actor_building_id) db.members)
        (find (is_row community_id building_id) db.members) new_roles db)

abbrev is_policy : ℕ → Policy → Bool
is_policy community_id p = p.community_id == community_id

set_policy : ℕ → Bool → ℕ → Db → Bool × Db
set_policy community_id enabled actor_building_id db =
    let changed = any (is_policy community_id) db.policies in
    (
      changed,
      record db {
        policies =
            update (is_policy community_id) (λ p. record p { require_dual_control = enabled })
              db.policies;
        tracked =
            if changed then (community_id, actor_building_id, enabled) ∷ db.tracked else db.tracked;
      },
    )

abbrev confirmed_admin? : Option Member → Bool
confirmed_admin? none = false
confirmed_admin? (some m) = is_confirmed_admin m

-- `set_community_dual_control`
unfoldable pub set_community_dual_control : ℕ → Bool → ℕ → Db → Bool × Db
unfolding set_policy
set_community_dual_control community_id enabled actor_building_id db =
    if confirmed_admin? (find (is_row community_id actor_building_id) db.members)
    then set_policy community_id enabled actor_building_id db
    else (false, db)
