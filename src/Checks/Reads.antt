-- ===== src/Checks/Reads.antt =====
-- The reads of api/src/checks/checks.service.ts.
use systemvitals.Base.{
  ℕ, Bool, true, false, ◌&&◌, not, Option, none, some, List, [], ◌∷◌, map, ◌==◌, leb, any, elem,
  filter, find, sort, take,
}
use systemvitals.Base.Text.{Text, text_eq}
use systemvitals.Base.Result.{Result, ok, guard, require, ◌>>=◌, ◌>>◌}
use systemvitals.Schema.{
  Check, CheckEvent, NotificationChannel, CheckChannelExclusion, Db, find_check,
}
use systemvitals.Routing.{created_before}
use systemvitals.Tenancy.{App, Project, find_project, find_organization, is_member}
use systemvitals.Checks.{
  ChecksError, not_a_member, project_not_found, check_not_found, broken_reference,
}
use systemvitals.Checks.Operation.{effective_notification_channel_ids}

unfoldable pub assert_project_access : ℕ → ℕ → App → Result ChecksError Project
unfolding find_project is_member
assert_project_access user project app = do
  p ← require (find_project project app) project_not_found
  guard (is_member user p.organization_id app) not_a_member
  ok p

unfoldable pub assert_check_access : ℕ → ℕ → App → Result ChecksError Check
unfolding find_check find_project is_member
assert_check_access user check_id app = do
  c ← require (find_check check_id app.monitor) check_not_found
  p ← require (find_project c.project_id app) broken_reference
  guard (is_member user p.organization_id app) not_a_member
  ok c

abbrev pub oldest_first : Check → Check → Bool
oldest_first a b = leb a.created_at b.created_at

-- The channels that are excluded for a check, from the rows that were read.
abbrev pub excluded_by : ℕ → List CheckChannelExclusion → List ℕ
excluded_by check_id exclusions =
    map (λ x. x.channel_id) (filter (λ x. x.check_id == check_id) exclusions)

-- All channels where a check has no entry, else those that are not in it.
abbrev pub without_excluded : List ℕ → List ℕ → List ℕ
without_excluded ids [] = ids
without_excluded ids (x ∷ xs) = filter (λ id. not (elem id (x ∷ xs))) ids

abbrev pub checks_in : ℕ → App → List Check
checks_in project app = sort oldest_first (filter (λ c. c.project_id == project) app.monitor.checks)

abbrev pub enabled_channels : ℕ → Db → List NotificationChannel
enabled_channels project db =
    sort created_before (filter (λ h. (h.project_id == project) && h.enabled) db.channels)

unfoldable pub list : ℕ → ℕ → App → Result ChecksError (List (Check × List ℕ))
unfolding assert_project_access created_before
list user project app = do
  p ← assert_project_access user project app
  let checks = checks_in project app
  let ids = map (λ h. h.id) (enabled_channels project app.monitor)
  let exclusions = filter (λ x. any (λ c. c.id == x.check_id) checks) app.monitor.exclusions
  ok (map (λ c. (c, without_excluded ids (excluded_by c.id exclusions))) checks)

-- A check with the channels that are effective for it.
unfoldable pub with_channels : App → Check → Check × List ℕ
unfolding effective_notification_channel_ids
with_channels app c = (c, effective_notification_channel_ids c.id c.project_id app.monitor)

unfoldable pub find_one : ℕ → ℕ → App → Result ChecksError (Check × List ℕ)
unfolding assert_check_access with_channels
find_one user check_id app = do c ← assert_check_access user check_id app; ok (with_channels app c)

unfoldable pub project_id_for_check : ℕ → ℕ → App → Result ChecksError ℕ
unfolding assert_check_access
project_id_for_check user check_id app = do
  c ← assert_check_access user check_id app
  ok c.project_id

-- `boundProjectId ? { id: boundProjectId } : {}`
abbrev pub is_bound : Option ℕ → ℕ → Bool
is_bound none project = true
is_bound (some bound) project = project == bound

-- The `where` of a lookup on the organization of a project.
unfoldable pub is_visible_org : ℕ → Text → ℕ → App → Bool
unfolding find_organization is_member
is_visible_org user org_slug organization app = elim (find_organization organization app) [
  | none ↦ false
  | some o ↦ text_eq o.slug org_slug && is_member user o.id app
]

-- The `where` of a lookup on a project; `findByOrganizationSlug` asks for no project slug.
unfoldable pub is_visible_project : ℕ → Text → Option Text → Option ℕ → ℕ → App → Bool
unfolding find_project is_visible_org
is_visible_project user org_slug project_slug bound project app = elim (find_project project app) [
  | none ↦ false
  | some p ↦
      is_bound bound p.id
      && elim project_slug [ none ↦ true | some s ↦ text_eq p.slug s ]
      && is_visible_org user org_slug p.organization_id app
]

abbrev pub lookup : ℕ → Text → Option Text → Text → Option ℕ → App → Option Check
lookup user org_slug project_slug check_slug bound app =
    find
      (λ c.
        text_eq c.slug check_slug
        && is_visible_project user org_slug project_slug bound c.project_id app)
      app.monitor.checks

unfoldable pub find_by_slug :
    ℕ → Text → Text → Text → Option ℕ → App → Result ChecksError (Check × List ℕ)
unfolding is_visible_project with_channels
find_by_slug user org_slug project_slug check_slug bound app = do
  c ← require (lookup user org_slug (some project_slug) check_slug bound app) check_not_found
  ok (with_channels app c)

unfoldable pub find_by_organization_slug :
    ℕ → Text → Text → Option ℕ → App → Result ChecksError (Check × List ℕ)
unfolding is_visible_project with_channels
find_by_organization_slug user org_slug check_slug bound app = do
  c ← require (lookup user org_slug none check_slug bound app) check_not_found
  ok (with_channels app c)

abbrev pub latest_first : CheckEvent → CheckEvent → Bool
latest_first a b = leb b.timestamp a.timestamp

unfoldable pub events_for_check : ℕ → ℕ → App → List CheckEvent
events_for_check check_id limit app =
    take limit (sort latest_first (filter (λ e. e.check_id == check_id) app.monitor.events))
