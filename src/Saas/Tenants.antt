-- ===== src/Saas/Tenants.antt =====
-- Who may do what: `HasTenantPermission` of permissions.py, and `PermissionService` and `TenantService`
-- of services.py. Rows that a query joins stand in the row that asks for them.
mod Grants
mod Switching
mod Examples
use django_project_test.Base.{
  string_eq, nat_eq, [], ◌||◌, not, ◌&&◌, some, none, true, ◌∷◌, ◌==◌, if◌then◌else◌, false, List,
  Bool, Option, ℕ, String,
}

pub record Permission : Type 0 where
  pub slug : String
  pub is_active : Bool

pub record Role : Type 0 where
  pub slug : String
  pub is_active : Bool
  pub permissions : List Permission

pub record User : Type 0 where
  pub id : ℕ
  pub is_authenticated : Bool
  pub is_superuser : Bool
  pub role : Option Role

pub data Status : Type 0 where
  active suspended cancelled pending : Status

pub record Tenant : Type 0 where
  pub id : ℕ
  pub name : String
  pub slug : String
  pub status : Status

pub record TenantMember : Type 0 where
  pub tenant : Tenant
  pub user : ℕ
  pub role : Option Role
  pub is_active : Bool

role_is_super : Option Role → Bool
role_is_super none = false
role_is_super (some role) = role.is_active && role.slug == "super-admin"

unfoldable pub is_super_admin : User → Bool
unfolding role_is_super
is_super_admin user =
    if not user.is_authenticated then false else user.is_superuser || role_is_super user.role

-- `permissions.filter(slug=slug, is_active=True).exists()`
unfoldable pub grants : String → List Permission → Bool
grants slug [] = false
grants slug (p ∷ ps) = (slug == p.slug && p.is_active) || grants slug ps

unfoldable pub role_grants : String → Option Role → Bool
role_grants slug none = false
role_grants slug (some role) = role.is_active && grants slug role.permissions

abbrev pub is_member : User → TenantMember → Bool
is_member user m = m.user == user.id && m.is_active

unfoldable pub any_grants : User → String → List TenantMember → Bool
any_grants user slug [] = false
any_grants user slug (m ∷ ms) =
    (is_member user m && role_grants slug m.role) || any_grants user slug ms

unfoldable pub user_has_slug : User → String → List TenantMember → Bool
user_has_slug user slug members =
    if is_super_admin user then true else any_grants user slug members || role_grants slug user.role

-- An empty `required_slug` asks for a login only.
unfoldable pub has_permission : User → String → List TenantMember → Bool
has_permission user required_slug members =
    if is_super_admin user
    then true
    else if not user.is_authenticated
    then false
    else if required_slug == ""
    then true
    else user_has_slug user required_slug members

unfoldable pub has_slug : String → List String → Bool
has_slug slug [] = false
has_slug slug (s ∷ ss) = slug == s || has_slug slug ss

-- `slugs.add(perm.slug)` for the active permissions
unfoldable pub add_slugs : List Permission → List String → List String
add_slugs [] slugs = slugs
add_slugs (p ∷ ps) slugs =
    add_slugs ps (if p.is_active && not (has_slug p.slug slugs) then p.slug ∷ slugs else slugs)

unfoldable pub add_role : Option Role → List String → List String
add_role none slugs = slugs
add_role (some role) slugs = if role.is_active then add_slugs role.permissions slugs else slugs

is_of : Option ℕ → TenantMember → Bool
is_of none m = true
is_of (some tenant) m = m.tenant.id == tenant

unfoldable pub add_members : User → Option ℕ → List TenantMember → List String → List String
unfolding is_of
add_members user tenant [] slugs = slugs
add_members user tenant (m ∷ ms) slugs =
    add_members user tenant ms
      (if is_member user m && is_of tenant m then add_role m.role slugs else slugs)

pub record Permissions : Type 0 where
  pub is_super_admin : Bool
  pub permissions : List String

-- `sort` is `sorted`, `all_slugs` the registry's ALL_PERMISSION_SLUGS.
unfoldable pub get_user_permissions :
    (List String → List String) → List String → User → Option ℕ → List TenantMember → Permissions
get_user_permissions sort all_slugs user tenant members =
    if is_super_admin user
    then record { is_super_admin = true; permissions = all_slugs }
    else record {
      is_super_admin = false;
      permissions = sort (add_role user.role (add_members user tenant members []));
    }

abbrev pub is_active_tenant : Status → Bool
is_active_tenant active = true
is_active_tenant suspended = false
is_active_tenant cancelled = false
is_active_tenant pending = false

unfoldable pub active_tenants : List Tenant → List Tenant
active_tenants [] = []
active_tenants (t ∷ ts) =
    let rest = active_tenants ts in if is_active_tenant t.status then t ∷ rest else rest

unfoldable pub member_tenants : User → List TenantMember → List Tenant
member_tenants user [] = []
member_tenants user (m ∷ ms) =
    let rest = member_tenants user ms in
    if is_member user m && is_active_tenant m.tenant.status then m.tenant ∷ rest else rest

unfoldable pub get_accessible_tenants : User → List Tenant → List TenantMember → List Tenant
get_accessible_tenants user tenants members =
    if is_super_admin user then active_tenants tenants else member_tenants user members

unfoldable pub find_tenant : ℕ → List Tenant → Option Tenant
find_tenant id [] = none
find_tenant id (t ∷ ts) = let rest = find_tenant id ts in if t.id == id then some t else rest

unfoldable pub find_member : User → ℕ → List TenantMember → Option Tenant
find_member user id [] = none
find_member user id (m ∷ ms) =
    let rest = find_member user id ms in
    if is_member user m && m.tenant.id == id then some m.tenant else rest

pub data SwitchResult : Type 0 where
  global_view no_access : SwitchResult
  switched : Tenant → SwitchResult

-- The session keeps the id of the current tenant.
enter_tenant : Option Tenant → Option ℕ → SwitchResult × Option ℕ
enter_tenant none session = (no_access, session)
enter_tenant (some tenant) session = (switched tenant, some tenant.id)

-- A role is a row, so that the comparison of `user.role` with "admin" is false.
unfoldable pub switch_tenant :
    User → Option ℕ → List Tenant → List TenantMember → Option ℕ → SwitchResult × Option ℕ
unfolding enter_tenant
switch_tenant user none tenants members session = (global_view, none)
switch_tenant user (some id) tenants members session =
    enter_tenant (if user.is_superuser then find_tenant id tenants else find_member user id members)
      session
