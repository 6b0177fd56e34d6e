-- ===== src/Tests/Births.antt =====
-- New checks of a project.
use systemvitals.Base.{ℕ, ◌*◌, refl, true, none, some, arith}
use systemvitals.Base.Int.{pos}
use systemvitals.Base.{List, [], ◌≡◌, ◌⊎◌, In}
use systemvitals.Base.Text.{codes}
use systemvitals.Base.Result.{Result, ok, err}
use systemvitals.Tenancy.{App, account_of, is_created_by}
use systemvitals.Plan.{
  assert_can_add_check, assert_interval, for_user, effective_limits, plan_limits_for,
}
use systemvitals.Members.Roles.{set_role}
use systemvitals.CheckUpdate.Fields.{CronLib}
use systemvitals.Base.Decimal.{decimal}
use systemvitals.Slug.{
  candidate, unique_slug, is_taken, slugify, trim_hyphens, trim_end_hyphens, trim_start_hyphens,
  hyphenate, fold_text, is_slug_char,
}
use systemvitals.SlugCreation.{create_with_unique_slug}
use systemvitals.Checks.{ChecksError, check_not_found}
use systemvitals.Checks.Creation.{CreationAttempt}
use systemvitals.Checks.Creation.Kinds.{
  NewCheck, HeartbeatInput, ActiveInput, create, create_active_check,
}
use systemvitals.Checks.NewChecks.{IsHeartbeat, IsActive, create_exact, create_active_check_exact}
use systemvitals.Schema.{Check}
use systemvitals.Checks.Reads.{find_by_slug}
use systemvitals.Checks.Found.{IsVisible, find_by_slug_exact}
use systemvitals.Checks.Operation.{effective_notification_channel_ids}
use systemvitals.Tests.Firms.{firm}

abbrev attempts : ℕ → CreationAttempt
attempts n = record {
  start = firm;
  before_users = λ app. app;
  before_membership = λ app. app;
  before_load = λ k app. app;
  before_insert = λ k app. app;
  resumes = true;
}

abbrev clock : CronLib
clock = record {
  is_valid_cron = λ s. true;
  is_valid_tz = λ s. true;
  fire = λ expr tz k. some (k * 3600000);
}

abbrev nightly : NewCheck
nightly = record {
  id = 90;
  name = codes "site";
  now = 5;
  raw_description = none;
  raw_agent_instructions = none;
}

abbrev beat : HeartbeatInput
beat = record {
  ping_slug = codes "p";
  grace_seconds = pos 60;
  period_seconds = none;
  schedule = some (codes "@hourly");
  tz = none;
}

abbrev web : ActiveInput
web = record {
  type = codes "HTTP";
  target = codes "http://a.b";
  interval_seconds = pos 300;
  timeout_ms = pos 1000;
  method = none;
  expected_status = none;
}

abbrev result : Result ChecksError App → App
result (ok app) = app
result (err e) = firm

create_exact_example :
    IsHeartbeat clock 3 7 nightly beat attempts
      (result (create (λ s. s) (λ s. s) clock 3 7 nightly beat attempts))
unfolding create assert_interval account_of for_user effective_limits plan_limits_for
    assert_can_add_check unique_slug is_taken candidate slugify trim_hyphens trim_end_hyphens
    trim_start_hyphens hyphenate fold_text is_slug_char create_with_unique_slug decimal set_role
    is_created_by
create_exact_example =
    create_exact (λ s. s) (λ s. s) clock 3 7 nightly beat attempts
      (result (create (λ s. s) (λ s. s) clock 3 7 nightly beat attempts)) (λ n k. omega arith) refl

create_active_check_exact_example :
    IsActive 3 7 nightly web attempts
      (result (create_active_check (λ s. s) (λ s. s) 3 7 nightly web attempts))
unfolding create_active_check assert_interval account_of for_user effective_limits plan_limits_for
    assert_can_add_check unique_slug is_taken candidate slugify trim_hyphens trim_end_hyphens
    trim_start_hyphens hyphenate fold_text is_slug_char create_with_unique_slug decimal set_role
    is_created_by
create_active_check_exact_example =
    create_active_check_exact (λ s. s) (λ s. s) 3 7 nightly web attempts
      (result (create_active_check (λ s. s) (λ s. s) 3 7 nightly web attempts)) (λ n k. omega arith)
      refl

abbrev rows : Result ChecksError (List (Check × List ℕ)) → List (Check × List ℕ)
rows (ok r) = r
rows (err e) = []

find_by_slug_exact_example :
    ((c : Check) × In c firm.monitor.checks
      × IsVisible 4 (codes "home") (codes "default") (codes "site") none firm c
      × (find_by_slug 4 (codes "home") (codes "default") (codes "site") none firm
          ≡ ok (c, effective_notification_channel_ids c.id c.project_id firm.monitor)))
    ⊎ (((c : Check)
          → In c firm.monitor.checks
          → IsVisible 4 (codes "home") (codes "default") (codes "site") none firm c
          → ⊥)
        × (find_by_slug 4 (codes "home") (codes "default") (codes "site") none firm
            ≡ err check_not_found))
find_by_slug_exact_example =
    find_by_slug_exact 4 (codes "home") (codes "default") (codes "site") none firm
