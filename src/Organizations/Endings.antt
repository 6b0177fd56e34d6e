-- ===== src/Organizations/Endings.antt =====
-- The transfer and the deletion of an organization: transferCreatorship and remove of
-- api/src/organizations/organizations.service.ts, with api/src/billing/legacy-billing-provenance.ts.
use systemvitals.Base.{
  ℕ, ◌+◌, Bool, false, ◌&&◌, ◌||◌, not, none, some, ◌==◌, ltb, map, is_some, any, filter, count,
  if◌then◌else◌,
}
use systemvitals.Base.Int.{pos, ltb_ℤ}
use systemvitals.Base.Table.{update_key, delete_key}
use systemvitals.Base.Text.{codes, text_eq}
use systemvitals.Base.Result.{map_err, Result, ok, guard, require, ◌>>=◌, ◌>>◌}
use systemvitals.Schema.{Db, Check, NotificationChannel}
use systemvitals.Plan.{assert_can_add_organization}
use systemvitals.Tenancy.{
  App, Organization, LegacySubscription, find_organization, find_project, is_owner, account_of,
}
use systemvitals.Organizations.{
  OrganizationsError, creator_changed, deletion_raced, has_project, legacy_billing, no_longer_owner,
  no_project, not_entitled, not_the_creator, only_organization, recipient_check_limit,
  recipient_not_owner, requires_owner, same_user,
}

-- `assertNoUnresolvedLegacyBilling`
unfoldable pub is_unresolved : ℕ → LegacySubscription → Bool
is_unresolved organization s =
    elim s.organization_id [ none ↦ false | some o ↦ o == organization ]
    && is_some s.stripe_subscription_id
    && not (text_eq s.status (codes "canceled"))
    && not (text_eq s.status (codes "incomplete_expired"))
    && (text_eq s.plan (codes "SIGNAL") || text_eq s.plan (codes "FLEET"))

unfoldable pub assert_no_unresolved_legacy_billing : ℕ → App → Result OrganizationsError (Unit {0})
unfolding is_unresolved
assert_no_unresolved_legacy_billing organization app =
    guard (not (any (is_unresolved organization) app.legacy_subscriptions)) legacy_billing

-- Whether a project stands in the organization.
unfoldable pub in_organization : ℕ → App → ℕ → Bool
unfolding find_project
in_organization organization app project = elim (find_project project app) [
  | none ↦ false
  | some p ↦ p.organization_id == organization
]

abbrev pub checks_of : ℕ → App → ℕ
checks_of organization app =
    count (λ c. in_organization organization app c.project_id) app.monitor.checks

unfoldable pub set_creator : ℕ → Organization → Organization
set_creator user o = record o { creator_user_id = user }

-- The limit of checks, with those that come along.
unfoldable pub assert_recipient : ℕ → ℕ → App → Result OrganizationsError (Unit {0})
unfolding in_organization
assert_recipient recipient organization app = do
  let account = account_of recipient app
  map_err not_entitled (assert_can_add_organization account)
  guard
      (not
        (ltb_ℤ account.limits.max_checks (pos (account.check_count + checks_of organization app))))
      recipient_check_limit

-- Behind the locks; the creator is the one first read.
unfoldable pub transfer_commit : ℕ → ℕ → ℕ → ℕ → App → Result OrganizationsError App
unfolding find_organization is_owner assert_no_unresolved_legacy_billing assert_recipient
    set_creator
transfer_commit caller organization recipient creator app = do
  o ← require (find_organization organization app) no_longer_owner
  guard (o.creator_user_id == creator) creator_changed
  guard (o.creator_user_id == caller && is_owner caller organization app) no_longer_owner
  guard (is_owner recipient organization app) recipient_not_owner
  assert_no_unresolved_legacy_billing organization app
  assert_recipient recipient organization app
  guard (has_project organization app) no_project
  ok (record app {
    organizations = update_key (λ o. o.id) organization (set_creator recipient) app.organizations;
  })

unfoldable pub transfer_creatorship : ℕ → ℕ → ℕ → App → App → Result OrganizationsError App
unfolding find_organization transfer_commit
transfer_creatorship caller organization recipient start app = do
  initial ← require (find_organization organization start) not_the_creator
  guard (not (caller == recipient)) same_user
  transfer_commit caller organization recipient initial.creator_user_id app

-- The deletion of a row takes the rows with it that hang on it (`onDelete: Cascade`).
abbrev pub cascade_checks : (ℕ → Bool) → Db → Db
cascade_checks gone db =
    let kept = λ (id : ℕ). any (λ (c : Check). (c.id == id) && not (gone c.project_id)) db.checks in
    let kept_channel = λ (id : ℕ).
      any (λ (n : NotificationChannel). (n.id == id) && not (gone n.project_id)) db.channels in
    record db {
      checks = filter (λ c. not (gone c.project_id)) db.checks;
      events = filter (λ e. kept e.check_id) db.events;
      channels = filter (λ n. not (gone n.project_id)) db.channels;
      exclusions = filter (λ x. kept x.check_id && kept_channel x.channel_id) db.exclusions;
    }

abbrev pub clear_organization : ℕ → LegacySubscription → LegacySubscription
clear_organization organization s = record s {
  organization_id = elim s.organization_id [
    | none ↦ none
    | some o ↦ if o == organization then none else some o
  ];
}

unfoldable pub delete_organization : ℕ → App → App
unfolding in_organization
delete_organization organization app = record app {
  monitor = cascade_checks (in_organization organization app) app.monitor;
  organizations = delete_key (λ o. o.id) organization app.organizations;
  projects = filter (λ p. not (p.organization_id == organization)) app.projects;
  memberships = filter (λ m. not (m.organization_id == organization)) app.memberships;
  invites = filter (λ i. not (i.organization_id == organization)) app.invites;
  legacy_subscriptions = map (clear_organization organization) app.legacy_subscriptions;
  status_pages = filter (λ s. not (in_organization organization app s.project_id)) app.status_pages;
}

abbrev pub memberships_of : ℕ → App → ℕ
memberships_of user app = count (λ m. m.user_id == user) app.memberships

-- Behind the locks; the creator is the one first read.
unfoldable pub delete_commit : ℕ → ℕ → ℕ → App → Result OrganizationsError App
unfolding is_owner find_organization assert_no_unresolved_legacy_billing delete_organization
delete_commit user organization creator app = do
  guard (is_owner user organization app) requires_owner
  o ← require (find_organization organization app) deletion_raced
  guard (o.creator_user_id == creator) deletion_raced
  guard (ltb 1 (memberships_of user app)) only_organization
  assert_no_unresolved_legacy_billing organization app
  ok (delete_organization organization app)

unfoldable pub remove_organization : ℕ → ℕ → App → App → Result OrganizationsError App
unfolding find_organization delete_commit
remove_organization user organization start app = do
  initial ← require (find_organization organization start) requires_owner
  delete_commit user organization initial.creator_user_id app
