-- ===== src/Formation/Admission.antt =====
-- What holds of the members of a community after any operations on them.
use openleg.Prelude.{
  ℕ, ◌≤◌, ◌==◌, ◌≡◌, refl, true, false, some, List, [], ◌∷◌, any, count, update, arith,
}
use openleg.Access.{Role, Member, MemberStatus, is_row, is_administrator, roles_for}
use openleg.Access.Administration.{has_administrator}
use openleg.Formation.Membership.{
  Db, is_invitation, confirm_member, create_community_record, insert_invited_member,
  confirm_invited_member,
}

-- One of the operations on the members.
pub data Step (db : Db) : Db → Type 0 where
  create : (c a : ℕ) → Step db (create_community_record c a db).1
  invite : (c b : ℕ) → Step db (insert_invited_member c b db).1
  accept : (c b : ℕ) → Step db (confirm_invited_member c b db).1

pub data Reach (db : Db) : Db → Type 0 where
  here : Reach db db
  next : {db' db'' : Db} → Reach db db' → Step db' db'' → Reach db db''

module _ (g b : ℕ) where
  count-update-row :
      (c d : ℕ) (ms : List Member)
      → count (is_row g b) (update (is_invitation c d) confirm_member ms) ≡ count (is_row g b) ms
  count-update-row c d [] = refl
  count-update-row c d (m ∷ ms) = ground (arith, count-update-row c d ms)

  count-absent :
      (c d : ℕ) (ms : List Member)
      → (c == g) ≡ true
      → (d == b) ≡ true
      → any (is_row c d) ms ≡ false
      → count (is_row g b) ms ≡ 0
  count-absent c d [] e k h = refl
  count-absent c d (m ∷ ms) e k h = ground (arith, count-absent c d ms)

  Step-row :
      {db db' : Db}
      → Step db db'
      → count (is_row g b) db.members ≤ 1
      → count (is_row g b) db'.members ≤ 1
  unfolding create_community_record insert_invited_member confirm_invited_member
  Step-row {db} (create c a) h = ground (arith, count-absent c a db.members)
  Step-row {db} (invite c d) h = ground (arith, count-absent c d db.members)
  Step-row {db} (accept c d) h = ground (arith, count-update-row c d db.members)

  -- After any creations, invitations and confirmations from an empty table a building is at most
  -- once a member of a community.
  pub Reach-is_row :
      {db db' : Db} → Reach db db' → db.members ≡ [] → count (is_row g b) db'.members ≤ 1
  Reach-is_row {db} here empty = rw empty (omega arith)
  Reach-is_row (next r s) empty = Step-row s (Reach-is_row r empty)

confirm_member-is_administrator :
    (m : Member) → is_administrator (some (confirm_member m)) ≡ is_administrator (some m)
unfolding is_administrator roles_for
confirm_member-is_administrator m = refl

new_administrator :
    (c a : ℕ)
    → is_administrator (
        some (record {
          community_id = c;
          building_id = a;
          is_legacy_admin = true;
          access_roles = some Role.admin ∷ [];
          status = MemberStatus.confirmed;
        }))
      ≡ true
unfolding is_administrator roles_for
new_administrator c a = refl

update-has_administrator :
    (g c b : ℕ) (ms : List Member)
    → has_administrator g ms ≡ true
    → has_administrator g (update (is_invitation c b) confirm_member ms) ≡ true
update-has_administrator g c b [] h = h
update-has_administrator g c b (m ∷ ms) h =
    ground (arith, update-has_administrator g c b ms, confirm_member-is_administrator m)

Step-has_administrator :
    (g : ℕ) {db db' : Db}
    → Step db db'
    → has_administrator g db.members ≡ true
    → has_administrator g db'.members ≡ true
unfolding create_community_record insert_invited_member confirm_invited_member
Step-has_administrator g {db} (create c a) h = ground arith
Step-has_administrator g {db} (invite c b) h = ground arith
Step-has_administrator g {db} (accept c b) h = update-has_administrator g c b db.members h

Reach-has_administrator :
    (g : ℕ) {db db' : Db}
    → Reach db db'
    → has_administrator g db.members ≡ true
    → has_administrator g db'.members ≡ true
Reach-has_administrator g here h = h
Reach-has_administrator g (next r s) h = Step-has_administrator g s (Reach-has_administrator g r h)

-- A community that was created has a confirmed administrator after any creations, invitations and
-- confirmations.
pub create_community_record-has_administrator :
    (c a g : ℕ) (db : Db) {db' db'' : Db}
    → create_community_record c a db ≡ (some g, db')
    → Reach db' db''
    → has_administrator g db''.members ≡ true
unfolding create_community_record
create_community_record-has_administrator c a g db {db'} h r =
    let made : has_administrator g db'.members ≡ true = ground (arith, new_administrator c a) in
    Reach-has_administrator g r made
