-- ===== src/Organizations.antt =====
-- OrganizationsService of api/src/organizations/organizations.service.ts, with the reserved slugs of
-- api/src/common/slug.ts. `start` is what a transaction reads before it locks, `app` the database behind its
-- locks. `nfd` and `lower` are as in Slug. Endings has the transfer and the deletion.
pub mod Endings
pub mod Exact
pub mod Handover
pub mod Deletion
pub mod Owners
pub mod Created
pub mod History
use systemvitals.Base.{
  ℕ, zero, suc, ◌+◌, ◌≡◌, Bool, true, false, ◌&&◌, ◌||◌, not, Option, none, some, List, [], ◌∷◌,
  ◌++◌, ◌==◌, leb, ltb, map, is_some, any, find, filter, count, elem, if◌then◌else◌, or_else,
}
use systemvitals.Base.Int.{ℤ, pos, pos_part, neg_part, sub_ℕ, ltb_ℤ}
use systemvitals.Base.Table.{find_key, update_key, delete_key}
use systemvitals.Base.Text.{Text, codes, text_eq, truthy, trim}
use systemvitals.Base.Result.{map_err, Result, ok, err, guard, require, ◌>>=◌, ◌>>◌}
use systemvitals.Schema.{Role, owner, admin, member, Db, Check, NotificationChannel}
use systemvitals.Plan.{
  max_ℤ, PlanLimits, AccountEntitlements, EntitlementError, assert_can_add_organization,
}
use systemvitals.Tenancy.{
  App, User, Organization, Project, Membership, LegacySubscription, find_organization, find_project,
  find_membership, is_owner, account_of,
}
use systemvitals.Members.{is_owner_role, same_role}
use systemvitals.Slug.{slugify, is_valid_slug, is_taken}
use systemvitals.SlugCreation.{create_with_unique_slug}

pub data OrganizationsError : Type 0 where
  name_required nothing_to_update invalid_slug reserved_slug requires_manager slug_exists
        slug_conflict no_unique_slug not_the_creator same_user creator_changed no_longer_owner
        recipient_not_owner legacy_billing recipient_check_limit requires_owner deletion_raced
        only_organization not_a_member record_missing no_project :
      OrganizationsError
  not_entitled : EntitlementError → OrganizationsError

-- `RESERVED_ORG_SLUGS`
abbrev pub reserved_org_slugs : List Text
reserved_org_slugs =
    codes "account"
    ∷ codes "admin"
    ∷ codes "api"
    ∷ codes "auth"
    ∷ codes "billing"
    ∷ codes "channels"
    ∷ codes "checks"
    ∷ codes "dashboard"
    ∷ codes "invite"
    ∷ codes "login"
    ∷ codes "opengraph-image"
    ∷ codes "organizations"
    ∷ codes "privacy"
    ∷ codes "signup"
    ∷ codes "status"
    ∷ codes "status-pages"
    ∷ codes "team"
    ∷ codes "terms"
    ∷ codes "twitter-image"
    ∷ codes "verify-email"
    ∷ codes "ping"
    ∷ codes "settings"
    ∷ codes "docs"
    ∷ codes "help"
    ∷ codes "new"
    ∷ codes "org"
    ∷ codes "orgs"
    ∷ codes "teams"
    ∷ codes "projects"
    ∷ codes "pricing"
    ∷ codes "about"
    ∷ codes "blog"
    ∷ codes "contact"
    ∷ codes "support"
    ∷ codes "_next"
    ∷ codes "static"
    ∷ codes "favicon.ico"
    ∷ codes "robots.txt"
    ∷ codes "sitemap.xml"
    ∷ []

unfoldable pub is_reserved_org_slug : (Text → Text) → Text → Bool
is_reserved_org_slug lower slug = is_taken (lower slug) reserved_org_slugs

-- `{ used, limit, remaining }`; a limit below what is used leaves nothing.
pub record OrganizationCheckAllowance : Type 0 where
  pub used : ℕ
  pub limit : ℤ
  pub remaining : ℤ

unfoldable pub remaining_of : ℕ → ℤ → ℤ
remaining_of used limit = max_ℤ (pos 0) (sub_ℕ (pos_part limit) (neg_part limit + used))

unfoldable pub organization_check_allowance :
    ℕ → ℕ → App → Result OrganizationsError OrganizationCheckAllowance
unfolding find_membership find_organization remaining_of
organization_check_allowance user organization app = do
  m ← require (find_membership user organization app) not_a_member
  o ← require (find_organization m.organization_id app) record_missing
  let account = account_of o.creator_user_id app
  ok (record {
    used = account.check_count;
    limit = account.limits.max_checks;
    remaining = remaining_of account.check_count account.limits.max_checks;
  })

-- The keys of the rows of a new organization.
pub record NewKeys : Type 0 where
  pub organization : ℕ
  pub membership : ℕ
  pub project : ℕ

abbrev pub add_organization : NewKeys → ℕ → Text → Text → ℕ → App → App
add_organization keys user name slug now app = record app {
  organizations =
      app.organizations
      ++ record { id = keys.organization; name = name; slug = slug; creator_user_id = user } ∷ [];
  memberships =
      app.memberships
      ++ record {
        id = keys.membership;
        user_id = user;
        organization_id = keys.organization;
        role = owner;
        created_at = now;
      }
        ∷ [];
  projects =
      app.projects
      ++ record { id = keys.project; slug = codes "default"; organization_id = keys.organization }
        ∷ [];
}

-- The transaction of `create`: the unique index on slugs refuses one that is taken.
unfoldable pub create_commit : NewKeys → ℕ → Text → ℕ → App → Text → Result OrganizationsError App
create_commit keys user name now app slug = do
  map_err not_entitled (assert_can_add_organization (account_of user app))
  creator ← require (find_key (λ u. u.id) user app.users) record_missing
  guard (not (is_taken slug (map (λ o. o.slug) app.organizations))) slug_conflict
  ok (add_organization keys user name slug now app)

abbrev pub is_slug_conflict : OrganizationsError → Bool
is_slug_conflict slug_conflict = true
is_slug_conflict _ = false

-- One attempt: the database when it loads the slugs, and behind the lock of the account.
pub record CreateAttempt : Type 0 where
  pub read : App
  pub locked : App

unfoldable pub base_slug : (Text → Text) → (Text → Text) → Text → Text
unfolding is_reserved_org_slug
base_slug nfd lower name =
    let base = slugify nfd lower name in
    if is_reserved_org_slug lower base then base ++ codes "-org" else base

unfoldable pub create_organization :
    (Text → Text)
    → (Text → Text)
    → NewKeys
    → ℕ
    → Text
    → ℕ
    → (ℕ → CreateAttempt)
    → Result OrganizationsError App
unfolding create_commit base_slug
create_organization nfd lower keys user name now attempts = do
  guard (truthy (trim name)) name_required
  create_with_unique_slug is_slug_conflict no_unique_slug (base_slug nfd lower (trim name))
      (λ n. ok (map (λ o. o.slug) (attempts n).read.organizations))
      (λ n slug. create_commit keys user (trim name) now (attempts n).locked slug)

-- A missing and an empty field are not told apart here.
pub record UpdateOrganizationInput : Type 0 where
  pub name : Option Text
  pub slug : Option Text

abbrev pub valid_name : Option Text → Result OrganizationsError (Option Text)
valid_name none = ok none
valid_name (some name) = guard (truthy (trim name)) name_required >> ok (some (trim name))

unfoldable pub valid_slug : (Text → Text) → Option Text → Result OrganizationsError (Unit {0})
unfolding is_reserved_org_slug
valid_slug lower none = ok tt
valid_slug lower (some slug) =
    guard (is_valid_slug slug) invalid_slug
    >> guard (not (is_reserved_org_slug lower slug)) reserved_slug

abbrev pub set_fields : Option Text → Option Text → Organization → Organization
set_fields name slug o = record o { name = or_else name o.name; slug = or_else slug o.slug }

-- Whether the unique index on slugs refuses this one for an organization.
abbrev pub slug_clashes : ℕ → Option Text → App → Bool
slug_clashes organization none app = false
slug_clashes organization (some slug) app =
    any (λ o. not (o.id == organization) && text_eq o.slug slug) app.organizations

abbrev pub has_project : ℕ → App → Bool
has_project organization app = any (λ p. p.organization_id == organization) app.projects

abbrev pub is_manager_of : ℕ → ℕ → App → Bool
is_manager_of user organization app = elim (find_membership user organization app) [
  | none ↦ false
  | some m ↦ is_owner_role m.role || same_role m.role admin
]

unfoldable pub update_organization :
    (Text → Text) → ℕ → ℕ → UpdateOrganizationInput → App → Result OrganizationsError App
unfolding valid_slug find_membership
update_organization lower user organization input app = do
  guard (is_some input.name || is_some input.slug) nothing_to_update
  name ← valid_name input.name
  valid_slug lower input.slug
  guard (is_manager_of user organization app) requires_manager
  o ← require (find_organization organization app) record_missing
  guard (not (slug_clashes organization input.slug app)) slug_exists
  guard (has_project organization app) no_project
  ok (record app {
    organizations =
        update_key (λ o. o.id) organization (set_fields name input.slug) app.organizations;
  })
