-- ===== src/Access/Administration.antt =====
-- What a change of roles keeps: a community with a confirmed administrator has one afterwards, and
-- only such an administrator makes or unmakes another.
use mathlib.Core.Path.{subst}
use openleg.Prelude.{
  ℕ, ◌==◌, ◌≡◌, ◌≤◌, refl, sym, ap, ◌⊎◌, inl, inr, Bool, true, false, ◌&&◌, not, Option, none, some,
  List, [], ◌∷◌, any, find, find_test, count, update, arith, Bool-cases, Result-cases, ok,
}
use openleg.Access.{
  Role, Capability, Member, Db, is_row, is_administrator, is_confirmed_admin, has_admin_role,
  remaining_admins, may_set_roles, give_roles, validate_roles, set_member_access_roles,
  change_roles, allows, is_admin_role,
}
use openleg.Access.Roles.{roles_for-give_roles}

-- A row of the community that is a confirmed administrator.
abbrev pub is_admin_of : ℕ → Member → Bool
is_admin_of c m = m.community_id == c && is_confirmed_admin m

-- The community has a confirmed administrator.
abbrev pub has_administrator : ℕ → List Member → Bool
has_administrator c = any (is_admin_of c)

-- A row with the roles that `validate_roles` gave is an administrator exactly if they say so.
given_admin :
    (m : Member) (values : List (Option Role)) {roles : List Role}
    → validate_roles values ≡ ok roles
    → is_administrator (some (give_roles roles m)) ≡ has_admin_role roles
unfolding is_administrator
given_admin m values {roles} h = ap (any is_admin_role) (roles_for-give_roles m values h)

any-update :
    {A : Type 0} (p q is : A → Bool) (f : A → A) (xs : List A)
    → ((x : A) → p x ≡ true → is x ≡ true → q (f x) ≡ true)
    → ((x : A) → p x ≡ true → is x ≡ false → q x ≡ true)
    → any p xs ≡ true
    → any q (update is f xs) ≡ true
any-update p q is f [] hit miss h = h
any-update p q is f (x ∷ xs) hit miss h =
    ground (arith, any-update p q is f xs hit miss, hit x, miss x)

any-positive :
    {A : Type 0} (p : A → Bool) (xs : List A) → (count p xs == 0) ≡ false → any p xs ≡ true
any-positive p [] h = ground arith
any-positive p (x ∷ xs) h = ground (arith, any-positive p xs)

any-zero : {A : Type 0} (p : A → Bool) (xs : List A) → count p xs ≡ 0 → any p xs ≡ false
any-zero p [] h = refl
any-zero p (x ∷ xs) h = ground (arith, any-zero p xs)

-- The administrators besides one building.
abbrev is_other : ℕ → ℕ → Member → Bool
is_other c b m = m.community_id == c && not (m.building_id == b) && is_confirmed_admin m

other_without :
    (c b : ℕ) (ms : List Member)
    → any (is_row c b) ms ≡ false
    → has_administrator c ms ≡ true
    → any (is_other c b) ms ≡ true
other_without c b [] none_b h = h
other_without c b (m ∷ ms) none_b h = ground (arith, other_without c b ms)

-- If the row of a building is no administrator, the administrator is another one.
other_administrator :
    (c b : ℕ) (ms : List Member) (target : Member)
    → count (is_row c b) ms ≤ 1
    → find (is_row c b) ms ≡ some target
    → is_administrator (some target) ≡ false
    → has_administrator c ms ≡ true
    → any (is_other c b) ms ≡ true
other_administrator c b [] target unique found no_admin h = h
other_administrator c b (m ∷ ms) target unique found no_admin h =
    ground
      (arith, other_administrator c b ms target, other_without c b ms, any-zero (is_row c b) ms)

-- A role change that leaves another administrator, or gives the role, keeps an administrator.
update_keeps :
    (c b : ℕ) (ms : List Member) (values : List (Option Role)) {roles : List Role}
    → validate_roles values ≡ ok roles
    → has_administrator c ms ≡ true
    → (has_admin_role roles ≡ true) ⊎ (any (is_other c b) ms ≡ true)
    → has_administrator c (update (is_row c b) (give_roles roles) ms) ≡ true
unfolding give_roles
update_keeps c b ms values {roles} valid h (inl gives) =
    any-update (is_admin_of c) (is_admin_of c) (is_row c b) (give_roles roles) ms
      (λ m p e. ground (arith, given_admin m values valid)) (λ m p e. p) h
update_keeps c b ms values {roles} valid h (inr other) =
    any-update (is_other c b) (is_admin_of c) (is_row c b) (give_roles roles) ms
      (λ m p e. ground arith) (λ m p e. ground arith) other

-- What the tests leave: the role is given, or another administrator is there.
remains :
    (c b : ℕ) (actor target : Member) (roles : List Role) (db : Db)
    → target.building_id ≡ b
    → count (is_row c b) db.members ≤ 1
    → find (is_row c b) db.members ≡ some target
    → may_set_roles c actor target roles db ≡ true
    → has_administrator c db.members ≡ true
    → (has_admin_role roles ≡ true) ⊎ (any (is_other c b) db.members ≡ true)
unfolding may_set_roles remaining_admins
remains c b actor target roles db same unique found may h =
    ground
      (arith, other_administrator c b db.members target, any-positive (is_other c b) db.members)

row_building :
    (c b : ℕ) (ms : List Member) (target : Member)
    → find (is_row c b) ms ≡ some target
    → target.building_id ≡ b
row_building c b ms target found = ground (arith, find_test (is_row c b) ms found)

change_keeps :
    (c b : ℕ) (actor target : Option Member) (values : List (Option Role)) (db : Db)
    {roles : List Role}
    → validate_roles values ≡ ok roles
    → count (is_row c b) db.members ≤ 1
    → find (is_row c b) db.members ≡ target
    → has_administrator c db.members ≡ true
    → has_administrator c (change_roles c actor target roles db).1.members ≡ true
unfolding change_roles
change_keeps c b none _ values db valid unique found has = has
change_keeps c b (some actor) none values db valid unique found has = has
change_keeps c b (some actor) (some target) values db {roles} valid unique found has =
    let same = row_building c b db.members target found in
    elim (Bool-cases (may_set_roles c actor target roles db)) [
      | inr denied ↦ rw denied has
      | inl may ↦ rw may (
          subst
            (λ t. has_administrator c (update (is_row c t) (give_roles roles) db.members) ≡ true)
            (sym same)
            (update_keeps c b db.members values valid has
              (remains c b actor target roles db same unique found may has)))
    ]

-- A community that has a confirmed administrator has one after `set_member_access_roles`, whatever
-- roles are set, for a table that holds a building at most once in the community.
pub set_member_access_roles-has_administrator :
    (c b a : ℕ) (values : List (Option Role)) (db : Db) {changed : Bool} {db' : Db}
    → count (is_row c b) db.members ≤ 1
    → set_member_access_roles c b values a db ≡ ok (changed, db')
    → has_administrator c db.members ≡ true
    → has_administrator c db'.members ≡ true
unfolding set_member_access_roles
set_member_access_roles-has_administrator c b a values db {changed} {db'} unique h has =
    elim (Result-cases (validate_roles values)) [
      | inl (e, invalid) ↦ ground arith
      | inr (roles, valid) ↦
          let actor = find (is_row c a) db.members in
          let target = find (is_row c b) db.members in
          let same : (change_roles c actor target roles db).1 ≡ db' = ground arith in
          subst (λ d. has_administrator c d.members ≡ true) same
            (change_keeps c b actor target values db valid unique refl has)
    ]

changed_by :
    (c b : ℕ) (actor target : Option Member) (roles : List Role) (db : Db) {db' : Db}
    → change_roles c actor target roles db ≡ (true, db')
    → (x : Member) × (y : Member) × (actor ≡ some x)
      × (target ≡ some y)
      × (allows actor Capability.manage_members true ≡ true)
      × ((is_administrator target ≡ has_admin_role roles) ⊎ (is_confirmed_admin x ≡ true))
unfolding change_roles may_set_roles
changed_by c b none _ roles db h = ground arith
changed_by c b (some x) none roles db h = ground arith
changed_by c b (some x) (some y) roles db h = (x, y, refl, refl, ground arith, ground arith)

-- A role change that `set_member_access_roles` makes has an actor whose confirmed membership grants
-- the management of members; and the target stays or stays no administrator, or the actor is a
-- confirmed administrator.
pub set_member_access_roles-allows :
    (c b a : ℕ) (values : List (Option Role)) (db : Db) {db' : Db}
    → set_member_access_roles c b values a db ≡ ok (true, db')
    → (actor : Member) × (target : Member) × (roles : List Role) × (validate_roles values
        ≡ ok roles)
      × (find (is_row c a) db.members ≡ some actor)
      × (find (is_row c b) db.members ≡ some target)
      × (allows (find (is_row c a) db.members) Capability.manage_members true ≡ true)
      × ((is_administrator (find (is_row c b) db.members) ≡ has_admin_role roles)
          ⊎ (is_confirmed_admin actor ≡ true))
unfolding set_member_access_roles
set_member_access_roles-allows c b a values db {db'} h =
    elim (Result-cases (validate_roles values)) [
      | inl (e, invalid) ↦ ground arith
      | inr (roles, valid) ↦
          let actor = find (is_row c a) db.members in
          let target = find (is_row c b) db.members in
          let done : change_roles c actor target roles db ≡ (true, db') = ground arith in
          let (x, y, e, f, g, p) = changed_by c b actor target roles db done in
          (x, y, roles, valid, e, f, g, p)
    ]
