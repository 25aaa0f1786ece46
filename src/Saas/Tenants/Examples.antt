-- ===== src/Saas/Tenants/Examples.antt =====
-- A member of two tenants, of which one is suspended.
use django_project_test.Base.{
  ◌⊎◌, refl, All, ◌≡◌, none, false, some, string_eq, List, true, [], ◌∷◌,
}
use django_project_test.Saas.Tenants.{
  Role, User, Tenant, TenantMember, active, suspended, is_super_admin, has_permission, has_slug,
  get_user_permissions, switch_tenant, no_access, switched,
}
use django_project_test.Saas.Tenants.Grants.{listed-has_permission}
use django_project_test.Saas.Tenants.Switching.{Membership, is_row, switch_only_as_member}

abbrev editor : Role
editor = record {
  slug = "editor";
  is_active = true;
  permissions =
      record { slug = "tenant.view"; is_active = true }
      ∷ record { slug = "tenant.manage"; is_active = false }
      ∷ [];
}

abbrev user : User
user = record { id = 1; is_authenticated = true; is_superuser = false; role = none }

abbrev shop : Tenant
shop = record { id = 10; name = "Shop"; slug = "shop"; status = active }

abbrev closed_shop : Tenant
closed_shop = record { id = 11; name = "Old shop"; slug = "old"; status = suspended }

abbrev members : List TenantMember
members =
    record { tenant = shop; user = 1; role = some editor; is_active = true }
    ∷ record { tenant = closed_shop; user = 1; role = none; is_active = true }
    ∷ []

listed-has_permission_example :
    has_slug "tenant.view" (get_user_permissions (λ ss. ss) [] user none members).permissions
    ≡ has_permission user "tenant.view" members
unfolding is_super_admin string_eq
listed-has_permission_example =
    listed-has_permission (λ ss. ss) [] user "tenant.view" members (λ s ss. refl) refl refl refl

switch_only_as_member_example :
    ((switch_tenant user (some 11) [] members none ≡ (no_access, none))
      × All (λ m. is_row user 11 m ≡ false) members)
    ⊎ ((tenant : Tenant) × Membership user 11 members tenant
        × (switch_tenant user (some 11) [] members none ≡ (switched tenant, some 11)))
switch_only_as_member_example = switch_only_as_member user 11 [] members none refl
