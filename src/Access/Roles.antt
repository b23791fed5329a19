-- ===== src/Access/Roles.antt =====
-- What roles grant, and how a set of roles is stored and read back.
use mathlib.Core.Path.{subst}
use openleg.Prelude.{
  ◌≡◌, refl, ap, ◌∙◌, inl, inr, Bool, ◌&&◌, ◌||◌, Option, some, List, [], ◌∷◌, any, select, map,
  arith, Bool-cases, ok,
}
use openleg.Access.{
  Role, all_roles, role_eq, Member, is_role, is_admin_role, granted, roles_for, canonical_roles,
  validate_roles, give_roles, has_admin_role,
}

any-select :
    {A : Type 0} (p g : A → Bool) (xs : List A) → any p (select g xs) ≡ any (λ x. p x && g x) xs
any-select p g [] = refl
any-select p g (x ∷ xs) = elim (Bool-cases (g x)) [
  | inl e ↦ rw e (ground (arith, any-select p g xs))
  | inr e ↦ rw e (ground (arith, any-select p g xs))
]

any-map-some : (r : Role) (xs : List Role) → any (is_role r) (map some xs) ≡ any (role_eq r) xs
any-map-some r [] = refl
any-map-some r (x ∷ xs) = ap (λ b. role_eq r x || b) (any-map-some r xs)

-- A role is in a selection of all roles exactly if it passes the test.
any-role : (g : Role → Bool) (r : Role) → any (λ x. role_eq r x && g x) all_roles ≡ g r
any-role g Role.admin = ground arith
any-role g _ = ground arith

any-select_roles : (g : Role → Bool) (r : Role) → any (role_eq r) (select g all_roles) ≡ g r
any-select_roles g r = any-select (role_eq r) g all_roles ∙ any-role g r

select-ext :
    {A : Type 0} (p q : A → Bool) (xs : List A) → ((x : A) → p x ≡ q x) → select p xs ≡ select q xs
select-ext p q [] h = refl
select-ext p q (x ∷ xs) h = ground (arith, select-ext p q xs h, h x)

absorb_admin : (g : Role → Bool) (r : Role) → (g r || (is_admin_role r && g Role.admin)) ≡ g r
absorb_admin g Role.admin = ground arith
absorb_admin g _ = ground arith

given_granted :
    (m : Member) (g : Role → Bool) (r : Role) → granted (give_roles (select g all_roles) m) r ≡ g r
unfolding give_roles
given_granted m g r =
    let given = select g all_roles in
    ap (λ b. b || (is_admin_role r && has_admin_role given))
      (any-map-some r given ∙ any-select_roles g r)
    ∙ ap (λ b. g r || (is_admin_role r && b)) (any-select_roles g Role.admin)
    ∙ absorb_admin g r

roles_for-given :
    (m : Member) (g : Role → Bool)
    → roles_for (some (give_roles (select g all_roles) m)) ≡ select g all_roles
unfolding roles_for
roles_for-given m g =
    select-ext (granted (give_roles (select g all_roles) m)) g all_roles (given_granted m g)

pub validate_roles_lem :
    (values : List (Option Role)) {roles : List Role}
    → validate_roles values ≡ ok roles
    → canonical_roles values ≡ roles
unfolding validate_roles
validate_roles_lem values h = ground arith

-- The roles that a set of values stands for, written to a row, are read back as they were written,
-- whatever roles the row had.
pub roles_for-give_roles :
    (m : Member) (values : List (Option Role)) {roles : List Role}
    → validate_roles values ≡ ok roles
    → roles_for (some (give_roles roles m)) ≡ roles
unfolding canonical_roles
roles_for-give_roles m values h =
    subst (λ rs. roles_for (some (give_roles rs m)) ≡ rs) (validate_roles_lem values h)
      (roles_for-given m (λ r. any (is_role r) values))
