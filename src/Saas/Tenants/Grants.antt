-- ===== src/Saas/Tenants/Grants.antt =====
-- The permissions that a user is listed to have, and those that a view checks.
use django_project_test.Base.{
  ==→≡, string_eq, none, inr, inl, Bool-cases, ◌==◌, refl, some, ap, not, true, sym, ◌∙◌, ◌&&◌,
  false, ◌≡◌, if◌then◌else◌, Option, ◌||◌, List, Bool, String, [], ◌∷◌,
}
use django_project_test.Saas.Tenants.{
  Permission, Role, User, TenantMember, is_super_admin, grants, role_grants, is_member, any_grants,
  user_has_slug, has_permission, has_slug, add_slugs, add_role, add_members, is_of,
  get_user_permissions,
}

or_false : (a : Bool) → (a || false) ≡ a
or_false true = refl
or_false false = refl

or_true : (a : Bool) → (a || true) ≡ true
or_true true = refl
or_true false = refl

-- Adding what is there already changes nothing.
add_once :
    (active there same found : Bool)
    → (same ≡ true → found ≡ there)
    → (if active && not there then same || found else found) ≡ (found || (same && active))
add_once false there true found h = sym (or_false found)
add_once false there false found h = sym (or_false found)
add_once true true true found h = h refl ∙ sym (or_true found)
add_once true true false found h = sym (or_false found)
add_once true false true found h = sym (or_true found)
add_once true false false found h = sym (or_false found)

has_slug-if :
    (test : Bool) (slug s : String) (slugs : List String)
    → has_slug slug (if test then s ∷ slugs else slugs)
      ≡ (if test then slug == s || has_slug slug slugs else has_slug slug slugs)
unfolding has_slug
has_slug-if true slug s slugs = refl
has_slug-if false slug s slugs = refl

has_slug-add :
    (slug : String) (p : Permission) (slugs : List String)
    → has_slug slug (if p.is_active && not (has_slug p.slug slugs) then p.slug ∷ slugs else slugs)
      ≡ (has_slug slug slugs || (slug == p.slug && p.is_active))
has_slug-add slug p slugs =
    has_slug-if (p.is_active && not (has_slug p.slug slugs)) slug p.slug slugs
    ∙ add_once p.is_active (has_slug p.slug slugs) (slug == p.slug) (has_slug slug slugs)
        (λ e. ap (λ s. has_slug s slugs) (==→≡ {A = String} slug p.slug e))

or_assoc : (a b c : Bool) → ((a || b) || c) ≡ (a || (b || c))
or_assoc true b c = refl
or_assoc false b c = refl

has_slug-add_slugs :
    (slug : String) (ps : List Permission) (slugs : List String)
    → has_slug slug (add_slugs ps slugs) ≡ (has_slug slug slugs || grants slug ps)
unfolding add_slugs grants
has_slug-add_slugs slug [] slugs = sym (or_false (has_slug slug slugs))
has_slug-add_slugs slug (p ∷ ps) slugs =
    has_slug-add_slugs slug ps _
    ∙ ap (λ b. b || grants slug ps) (has_slug-add slug p slugs)
    ∙ or_assoc (has_slug slug slugs) (slug == p.slug && p.is_active) (grants slug ps)

has_slug-add_role :
    (slug : String) (role : Option Role) (slugs : List String)
    → has_slug slug (add_role role slugs) ≡ (has_slug slug slugs || role_grants slug role)
unfolding add_role role_grants
has_slug-add_role slug none slugs = sym (or_false (has_slug slug slugs))
has_slug-add_role slug (some role) slugs = elim (Bool-cases role.is_active) [
  | inl e ↦ rw e (has_slug-add_slugs slug role.permissions slugs)
  | inr e ↦ rw e (sym (or_false (has_slug slug slugs)))
]

has_slug-add_members :
    (user : User) (slug : String) (ms : List TenantMember) (slugs : List String)
    → has_slug slug (add_members user none ms slugs)
      ≡ (has_slug slug slugs || any_grants user slug ms)
unfolding add_members any_grants is_of
has_slug-add_members user slug [] slugs = sym (or_false (has_slug slug slugs))
has_slug-add_members user slug (m ∷ ms) slugs = elim (Bool-cases (is_member user m)) [
  | inl e ↦ rw e (
      has_slug-add_members user slug ms (add_role m.role slugs)
      ∙ ap (λ b. b || any_grants user slug ms) (has_slug-add_role slug m.role slugs)
      ∙ or_assoc (has_slug slug slugs) (role_grants slug m.role) (any_grants user slug ms))
  | inr e ↦ rw e (has_slug-add_members user slug ms slugs)
]

-- For a user who is logged in and is no super administrator, and a sorting that keeps what is in a list:
-- the permissions listed for the user, without a tenant, are those that a view with that permission
-- lets through.
pub listed-has_permission :
    (sort : List String → List String) (all_slugs : List String) (user : User) (slug : String)
    (members : List TenantMember)
    → ((s : String) (ss : List String) → has_slug s (sort ss) ≡ has_slug s ss)
    → user.is_authenticated ≡ true
    → is_super_admin user ≡ false
    → (slug == "") ≡ false
    → has_slug slug (get_user_permissions sort all_slugs user none members).permissions
      ≡ has_permission user slug members
unfolding get_user_permissions has_permission user_has_slug add_members any_grants
listed-has_permission sort all_slugs user slug members sorted logged_in ordinary named =
    rw (ordinary, logged_in, named)
      (sorted slug _
        ∙ has_slug-add_role slug user.role (add_members user none members [])
        ∙ ap (λ b. b || role_grants slug user.role)
            (has_slug-add_members user slug members [] ∙ unfold has_slug in refl))
