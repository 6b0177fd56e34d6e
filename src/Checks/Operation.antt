-- ===== src/Checks/Operation.antt =====
-- `setCheckChannelEnabled` and `update` of api/src/checks/checks.service.ts.
use systemvitals.Base.{
  ℕ, Bool, ◌&&◌, not, Option, none, some, List, ◌∷◌, map, ◌==◌, any, find, filter, if◌then◌else◌,
}
use systemvitals.Base.Int.{ℤ}
use systemvitals.Base.Text.{Text, text_eq}
use systemvitals.Base.Result.{map_err, Result, ok, guard, require, ◌>>=◌, ◌>>◌}
use systemvitals.Schema.{Check, NotificationChannel, Db}
use systemvitals.Routing.{selected_channels, is_excluded}
use systemvitals.Plan.{assert_interval}
use systemvitals.CheckUpdate.{resolve_check_update, apply_update}
use systemvitals.CheckUpdate.Fields.{CronLib, CheckUpdateInput, ResolvedCheckUpdate}
use systemvitals.Tenancy.{App, account_of}
use systemvitals.Checks.{
  ChecksError, channel_not_found, channel_not_enabled, slug_taken, invalid, not_entitled, Attempt,
  Locked, with_creator_stable_expected_check, write_check,
}

-- `checkChannelExclusion.deleteMany({ where: { checkId, channelId } })`
unfoldable pub delete_exclusion : ℕ → ℕ → Db → Db
delete_exclusion check_id channel_id db = record db {
  exclusions =
      filter (λ x. not (x.check_id == check_id && x.channel_id == channel_id)) db.exclusions;
}

-- `checkChannelExclusion.upsert` with nothing to update.
unfoldable pub upsert_exclusion : ℕ → ℕ → Db → Db
unfolding is_excluded
upsert_exclusion check_id channel_id db =
    if is_excluded db.exclusions check_id channel_id then db else record db {
      exclusions = record { check_id = check_id; channel_id = channel_id } ∷ db.exclusions;
    }

unfoldable pub find_channel : ℕ → ℕ → Db → Option NotificationChannel
find_channel channel_id project_id db =
    find (λ h. h.id == channel_id && h.project_id == project_id) db.channels

unfoldable pub effective_notification_channel_ids : ℕ → ℕ → Db → List ℕ
unfolding selected_channels
effective_notification_channel_ids check_id project_id db =
    map (λ h. h.id) (selected_channels db check_id project_id)

unfoldable pub toggle_exclusion : Bool → ℕ → ℕ → Db → Db
unfolding delete_exclusion upsert_exclusion
toggle_exclusion enabled check_id channel_id db =
    if enabled
    then delete_exclusion check_id channel_id db
    else upsert_exclusion check_id channel_id db

-- The operation behind the locks; the answer has the channels that are effective afterwards.
unfoldable pub toggle_channel : ℕ → ℕ → Bool → Locked → Result ChecksError (App × List ℕ)
unfolding find_channel toggle_exclusion effective_notification_channel_ids
toggle_channel check_id channel_id enabled l = do
  channel ← require (find_channel channel_id l.check.project_id l.app.monitor) channel_not_found
  guard channel.enabled channel_not_enabled
  let db = toggle_exclusion enabled check_id channel_id l.app.monitor
  ok (
    record l.app { monitor = db },
    effective_notification_channel_ids check_id l.check.project_id db,
  )

unfoldable pub set_check_channel_enabled :
    ℕ → ℕ → ℕ → ℕ → Bool → (ℕ → Attempt) → Result ChecksError (App × List ℕ)
unfolding with_creator_stable_expected_check toggle_channel
set_check_channel_enabled user check_id expected channel_id enabled =
    with_creator_stable_expected_check user check_id expected
      (toggle_channel check_id channel_id enabled)

-- The unique index on a project's slugs, for a row that is written.
unfoldable pub slug_clash : ℕ → Text → ℕ → Db → Bool
slug_clash project_id slug check_id db =
    any (λ c. c.project_id == project_id && text_eq c.slug slug && not (c.id == check_id)) db.checks

-- `{ ...resolved.data }`, with a fresh ping slug where one is due.
unfoldable pub resolved_row : Text → ResolvedCheckUpdate → Check → Check
unfolding apply_update
resolved_row uuid r c =
    let row = apply_update r.update c in
    if r.mint_ping_slug then record row { ping_slug = some uuid } else row

-- An interval that the plan has to allow, where there is one to validate.
unfoldable pub assert_resolved_interval : ℕ → App → Option ℤ → Result ChecksError (Unit {0})
unfolding account_of assert_interval
assert_resolved_interval creator app none = ok tt
assert_resolved_interval creator app (some interval) =
    map_err not_entitled (assert_interval (account_of creator app) interval)

unfoldable pub update_locked :
    CronLib → Text → ℕ → CheckUpdateInput → Locked → Result ChecksError App
unfolding resolve_check_update assert_resolved_interval slug_clash resolved_row write_check
update_locked lib uuid check_id input l = do
  resolved ← map_err invalid (resolve_check_update lib l.check input)
  assert_resolved_interval l.creator l.app resolved.interval_to_validate
  guard
      (not (
        slug_clash l.check.project_id (resolved_row uuid resolved l.check).slug check_id
          l.app.monitor))
      slug_taken
  write_check check_id (resolved_row uuid resolved) l.app

unfoldable pub update :
    CronLib → Text → ℕ → ℕ → ℕ → CheckUpdateInput → (ℕ → Attempt) → Result ChecksError App
unfolding with_creator_stable_expected_check update_locked
update lib uuid user check_id expected input =
    with_creator_stable_expected_check user check_id expected
      (update_locked lib uuid check_id input)
