-- ===== src/Saas/Tenants/Switching.antt =====
-- Switching to a tenant.
use django_project_test.Base.{
  ◌∙◌, if◌then◌else◌, refl, ap, ==→≡, arith, inr, Bool-cases, inl, ◌⊎◌, nat_eq, some, All, false,
  none, ◌==◌, true, Option, ◌&&◌, ◌≡◌, Bool, List, ℕ, [], ◌∷◌, ◌++◌,
}
use django_project_test.Saas.Tenants.{
  find_tenant, User, Tenant, TenantMember, no_access, switched, switch_tenant, find_member,
  is_member, enter_tenant,
}

-- The member row that a switch finds.
pub record Membership (user : User) (id : ℕ) (members : List TenantMember) (tenant : Tenant)
    : Type 0 where
  pub member : TenantMember
  pub before : List TenantMember
  pub after : List TenantMember
  pub stored : members ≡ before ++ member ∷ after
  pub of_user : is_member user member ≡ true
  pub of_tenant : member.tenant ≡ tenant
  pub same_id : tenant.id ≡ id

abbrev pub is_row : User → ℕ → TenantMember → Bool
is_row user id m = is_member user m && m.tenant.id == id

find_member_lem :
    (user : User) (id : ℕ) (members : List TenantMember)
    → ((find_member user id members ≡ none) × All (λ m. is_row user id m ≡ false) members)
      ⊎ ((tenant : Tenant) × (find_member user id members ≡ some tenant)
          × Membership user id members tenant)
unfolding find_member
find_member_lem user id [] = inl (refl, tt)
find_member_lem user id (m ∷ ms) = elim (Bool-cases (is_row user id m)) [
  | inl e ↦ inr (
    m.tenant,
    rw e refl,
    record {
      member = m;
      before = [];
      after = ms;
      stored = refl;
      of_user = ground arith;
      of_tenant = refl;
      same_id = ==→≡ m.tenant.id id (ground arith);
    },
  )
  | inr e ↦ elim (find_member_lem user id ms) [
    | inl (nothing, all) ↦ inl (rw e nothing, (e, all))
    | inr (tenant, found, row) ↦ inr (
      tenant,
      rw e found,
      record {
        member = row.member;
        before = m ∷ row.before;
        after = row.after;
        stored = ap (λ xs. m ∷ xs) row.stored;
        of_user = row.of_user;
        of_tenant = row.of_tenant;
        same_id = row.same_id;
      },
    )
  ]
]

if_off : (b : Bool) (x y : Option Tenant) → b ≡ false → (if b then x else y) ≡ y
if_off b x y off = rw off refl

-- A user who is no superuser gets into a tenant only as an active member of it: either there is no
-- such member row, and the switch is refused and leaves the session as it is, or there is one, and its
-- tenant is the current one from then on.
pub switch_only_as_member :
    (user : User) (id : ℕ) (tenants : List Tenant) (members : List TenantMember)
    (session : Option ℕ)
    → user.is_superuser ≡ false
    → ((switch_tenant user (some id) tenants members session ≡ (no_access, session))
        × All (λ m. is_row user id m ≡ false) members)
      ⊎ ((tenant : Tenant) × Membership user id members tenant
          × (switch_tenant user (some id) tenants members session ≡ (switched tenant, some id)))
unfolding switch_tenant enter_tenant
switch_only_as_member user id tenants members session ordinary =
    let looked_up =
      if_off user.is_superuser (find_tenant id tenants) (find_member user id members) ordinary in
    elim (find_member_lem user id members) [
      | inl (nothing, all) ↦ inl (ap (λ o. enter_tenant o session) (looked_up ∙ nothing), all)
      | inr (tenant, found, row) ↦ inr (
        tenant,
        row,
        ap (λ o. enter_tenant o session) (looked_up ∙ found)
            ∙ ap (λ i. (switched tenant, some i)) row.same_id,
      )
    ]
