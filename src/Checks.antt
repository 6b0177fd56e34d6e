-- ===== src/Checks.antt =====
-- ChecksService of api/src/checks/checks.service.ts: the operations that change a check. A transaction
-- takes its locks one after another and reads again behind each; what others commit before each of
-- them is part of its `Attempt`. A transaction that fails leaves nothing behind. The retry is over
-- attempts that each start from the database as it then is.
pub mod Operation
pub mod Transfer
pub mod Toggle
pub mod Guarded
pub mod Slugs
pub mod Moved
pub mod Lifecycle
pub mod Creation
pub mod Created
pub mod NewChecks
pub mod Reads
pub mod Listed
pub mod Found
use systemvitals.Base.{
  ℕ, zero, suc, ◌≡◌, Bool, true, false, ◌&&◌, not, Option, none, some, List, [], ◌∷◌, map, ◌==◌,
  any, elem, filter, is_some, if◌then◌else◌,
}
use systemvitals.Base.Int.{ℤ}
use systemvitals.Base.Text.{Text, text_eq}
use systemvitals.Base.Result.{Result, ok, err, guard, require, ◌>>=◌, ◌>>◌}
use systemvitals.Schema.{
  Check, NotificationChannel, CheckChannelExclusion, Db, CheckStatus, paused, new, find_check,
  update_check,
}
use systemvitals.Routing.{selected_channels}
use systemvitals.Plan.{EntitlementError, AccountEntitlements, assert_interval, assert_can_add_check}
use systemvitals.CheckUpdate.{resolve_check_update, apply_update}
use systemvitals.CheckUpdate.Fields.{
  CronLib, CheckUpdateInput, CheckValidationError, ResolvedCheckUpdate,
}
use systemvitals.Tenancy.{
  App, Project, Organization, StatusPage, find_project, find_organization, is_member, is_owner,
  account_of,
}

pub data ChecksError : Type 0 where
  check_not_found wrong_project not_a_member creator_changed still_changing broken_reference
        record_missing channel_not_found channel_not_enabled destination_not_found already_there
        not_the_owner slug_taken project_not_found not_one_cadence bad_cron bad_timezone
        no_further_fire unknown_type bad_target no_unique_slug transaction_aborted :
      ChecksError
  invalid : CheckValidationError → ChecksError
  not_entitled : EntitlementError → ChecksError

-- One run of a transaction: the database where it starts, and what others commit before it has locked
-- the creators' accounts, the check, the membership, the second membership and the status pages.
pub record Attempt : Type 0 where
  pub start : App
  pub before_users : App → App
  pub before_check : App → App
  pub before_membership : App → App
  pub before_destination : App → App
  pub before_pages : App → App

abbrev pub creator_stability_retries : ℕ
creator_stability_retries = 3

-- `error instanceof CreatorChangedDuringCheckOperation`
unfoldable pub is_creator_changed : ChecksError → Bool
is_creator_changed creator_changed = true
is_creator_changed _ = false

-- The loop of `withCreatorRetry`, from an attempt on, with the number of further attempts.
unfoldable pub retry_from : {A : Type 0} → (ℕ → Result ChecksError A) → ℕ → ℕ → Result ChecksError A
unfolding is_creator_changed
retry_from operation attempt zero = elim (operation attempt) [
  | ok a ↦ ok a
  | err e ↦ if is_creator_changed e then err still_changing else err e
]
retry_from operation attempt (suc more) =
    let rest = retry_from operation (suc attempt) more in
    elim (operation attempt) [ ok a ↦ ok a | err e ↦ if is_creator_changed e then rest else err e ]

unfoldable pub with_creator_retry : {A : Type 0} → (ℕ → Result ChecksError A) → Result ChecksError A
unfolding retry_from
with_creator_retry operation = retry_from operation 1 2

-- The user who created the organization of a project.
unfoldable pub creator_of : Project → App → Result ChecksError ℕ
unfolding find_organization
creator_of p app = do
  o ← require (find_organization p.organization_id app) broken_reference
  ok o.creator_user_id

-- What an operation on a locked check is given.
pub record Locked : Type 0 where
  pub app : App
  pub check : Check
  pub project : Project
  pub creator : ℕ

-- `lockAndAssertExpectedCheck`, from the database behind the lock of the check.
unfoldable pub lock_and_assert_expected_check :
    (App → App) → ℕ → ℕ → ℕ → ℕ → App → Result ChecksError Locked
unfolding find_check find_project is_member
lock_and_assert_expected_check before_membership user check_id expected creator app = do
  check ← require (find_check check_id app.monitor) check_not_found
  project ← require (find_project check.project_id app) broken_reference
  guard (check.project_id == expected) wrong_project
  let app' = before_membership app
  guard (is_member user project.organization_id app') not_a_member
  ok (record { app = app'; check = check; project = project; creator = creator })

-- The transaction of `withCreatorStableExpectedCheck` up to its operation.
unfoldable pub expected_check : ℕ → ℕ → ℕ → Attempt → Result ChecksError Locked
unfolding creator_of lock_and_assert_expected_check find_check find_project
expected_check user check_id expected a = do
  initial ← require (find_check check_id a.start.monitor) check_not_found
  initial_project ← require (find_project initial.project_id a.start) broken_reference
  initial_creator ← creator_of initial_project a.start
  guard (initial.project_id == expected) wrong_project
  let app = a.before_users a.start
  stable ← require (find_project initial.project_id app) check_not_found
  stable_creator ← creator_of stable app
  guard (stable_creator == initial_creator) creator_changed
  lock_and_assert_expected_check a.before_membership user check_id expected initial_creator
      (a.before_check app)

unfoldable pub with_creator_stable_expected_check :
    {A : Type 0}
    → ℕ
    → ℕ
    → ℕ
    → (Locked → Result ChecksError A)
    → (ℕ → Attempt)
    → Result ChecksError A
unfolding with_creator_retry expected_check
with_creator_stable_expected_check user check_id expected operation attempts =
    with_creator_retry λ n. expected_check user check_id expected (attempts n) >>= operation

-- `check.update` of a row that has to be there.
unfoldable pub write_check : ℕ → (Check → Check) → App → Result ChecksError App
unfolding find_check update_check
write_check id f app = do
  row ← require (find_check id app.monitor) record_missing
  ok (record app { monitor = update_check id f app.monitor })

unfoldable pub set_paused : Check → Check
set_paused c = record c { status = paused }

unfoldable pub set_new : Check → Check
set_new c = record c { status = new }

unfoldable pub pause : ℕ → ℕ → ℕ → (ℕ → Attempt) → Result ChecksError App
unfolding with_creator_stable_expected_check write_check set_paused
pause user check_id expected =
    with_creator_stable_expected_check user check_id expected
      λ l. write_check check_id set_paused l.app

unfoldable pub resume : ℕ → ℕ → ℕ → (ℕ → Attempt) → Result ChecksError App
unfolding with_creator_stable_expected_check write_check set_new
resume user check_id expected =
    with_creator_stable_expected_check user check_id expected
      λ l. write_check check_id set_new l.app

-- `check.delete`, with what the foreign keys take along.
unfoldable pub delete_check : ℕ → Db → Db
delete_check id db = record db {
  checks = filter (λ c. not (c.id == id)) db.checks;
  events = filter (λ e. not (e.check_id == id)) db.events;
  exclusions = filter (λ x. not (x.check_id == id)) db.exclusions;
}

unfoldable pub delete : ℕ → ℕ → ℕ → (ℕ → Attempt) → Result ChecksError App
unfolding with_creator_stable_expected_check delete_check find_check
delete user check_id expected = with_creator_stable_expected_check user check_id expected λ l. do
  row ← require (find_check check_id l.app.monitor) record_missing
  ok (record l.app { monitor = delete_check check_id l.app.monitor })
