-- ===== src/Tenancy.antt =====
-- The tables around the monitor (database/prisma/schema.prisma): organizations with their projects,
-- members, subscriptions and status pages.
use systemvitals.Base.{ℕ, Bool, true, false, ◌&&◌, Option, none, some, List, ◌==◌, find, count}
use systemvitals.Base.Text.{Text}
use systemvitals.Schema.{Db, Role, owner, admin, member}
use systemvitals.Plan.{Subscription, AccountEntitlements, for_user}

pub record User : Type 0 where
  pub id : ℕ
  pub email : Text

pub record Organization : Type 0 where
  pub id : ℕ
  pub name : Text
  pub slug : Text
  pub creator_user_id : ℕ

pub record Project : Type 0 where
  pub id : ℕ
  pub slug : Text
  pub organization_id : ℕ

pub record Membership : Type 0 where
  pub id : ℕ
  pub user_id : ℕ
  pub organization_id : ℕ
  pub role : Role
  pub created_at : ℕ

pub record Invite : Type 0 where
  pub id : ℕ
  pub email : Text
  pub organization_id : ℕ
  pub role : Role
  pub token : Text
  pub invited_by_user_id : ℕ
  pub expires_at : ℕ
  pub accepted_at : Option ℕ
  pub revoked_at : Option ℕ
  pub created_at : ℕ

pub record StatusPage : Type 0 where
  pub id : ℕ
  pub project_id : ℕ
  pub check_ids : List ℕ

pub record UserSubscription : Type 0 where
  pub user_id : ℕ
  pub subscription : Subscription

-- A subscription row without a user, from before subscriptions belonged to users.
pub record LegacySubscription : Type 0 where
  pub organization_id : Option ℕ
  pub stripe_subscription_id : Option Text
  pub status : Text
  pub plan : Text

pub record App : Type 0 where
  pub monitor : Db
  pub users : List User
  pub organizations : List Organization
  pub projects : List Project
  pub memberships : List Membership
  pub invites : List Invite
  pub subscriptions : List UserSubscription
  pub legacy_subscriptions : List LegacySubscription
  pub status_pages : List StatusPage

unfoldable pub find_project : ℕ → App → Option Project
find_project id app = find (λ p. p.id == id) app.projects

unfoldable pub find_organization : ℕ → App → Option Organization
find_organization id app = find (λ o. o.id == id) app.organizations

unfoldable pub find_membership : ℕ → ℕ → App → Option Membership
find_membership user organization app =
    find (λ m. m.user_id == user && m.organization_id == organization) app.memberships

unfoldable pub is_member : ℕ → ℕ → App → Bool
unfolding find_membership
is_member user organization app = elim (find_membership user organization app) [
  | none ↦ false
  | some m ↦ true
]

-- `membership?.role === 'OWNER'`
unfoldable pub is_owner : ℕ → ℕ → App → Bool
unfolding find_membership
is_owner user organization app = elim (find_membership user organization app) [
  | none ↦ false
  | some m ↦ elim m.role [ owner ↦ true | admin ↦ false | member ↦ false ]
]

-- Whether a project stands in an organization that the user created.
unfoldable pub is_created_by : ℕ → App → ℕ → Bool
unfolding find_project find_organization
is_created_by user app project = elim (find_project project app) [
  | none ↦ false
  | some p ↦ elim (find_organization p.organization_id app) [
    | none ↦ false
    | some o ↦ o.creator_user_id == user
  ]
]

abbrev pub subscription_of : Option UserSubscription → Option Subscription
subscription_of none = none
subscription_of (some s) = some s.subscription

-- `AccountEntitlementsService.forUser` on the tables.
unfoldable pub account_of : ℕ → App → AccountEntitlements
unfolding is_created_by
account_of user app =
    for_user (subscription_of (find (λ s. s.user_id == user) app.subscriptions))
      (count (λ c. is_created_by user app c.project_id) app.monitor.checks)
      (count (λ o. o.creator_user_id == user) app.organizations)
