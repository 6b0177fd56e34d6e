-- ===== src/Checks/Creation.antt =====
-- createWithinAccountQuota of api/src/checks/checks.service.ts; Kinds has its callers. The identifier
-- and the ping slug of a new check are arguments.
pub mod Kinds
use systemvitals.Base.{
  ℕ, Bool, true, false, ◌||◌, not, Option, none, some, List, [], ◌∷◌, ◌++◌, map, ◌==◌, any, filter,
  if◌then◌else◌,
}
use systemvitals.Base.Int.{ℤ}
use systemvitals.Base.Text.{Text, codes, text_eq, starts_with, includes}
use systemvitals.Base.Result.{map_err, Result, ok, err, guard, require, ◌>>=◌, ◌>>◌}
use systemvitals.Schema.{Check, CheckType, heartbeat, http, tcp, new}
use systemvitals.Plan.{assert_interval, assert_can_add_check}
use systemvitals.CheckUpdate.Fields.{
  CronLib, max_check_description_length, max_check_agent_instructions_length, normalize_check_text,
  min_cron_gap_seconds, non_empty, or_text,
}
use systemvitals.Tenancy.{App, find_project, is_member, account_of}
use systemvitals.Slug.{slugify}
use systemvitals.SlugCreation.{create_with_unique_slug}
use systemvitals.Checks.{
  ChecksError, slug_taken, project_not_found, not_one_cadence, bad_cron, bad_timezone, unknown_type,
  bad_target, no_unique_slug, transaction_aborted, not_a_member, creator_changed, broken_reference,
  invalid, not_entitled, creator_of, with_creator_retry,
}

-- One run of the transaction: where it starts, what others commit before it has locked the creator's account
-- and the membership, and, from there on, what they commit before each load of the slugs and each
-- insertion. `resumes` tells whether the database serves a transaction in which an insertion was refused.
pub record CreationAttempt : Type 0 where
  pub start : App
  pub before_users : App → App
  pub before_membership : App → App
  pub before_load : ℕ → App → App
  pub before_insert : ℕ → App → App
  pub resumes : Bool

unfoldable pub within_account_quota :
    ℕ → ℕ → ℤ → (App → Result ChecksError App) → CreationAttempt → Result ChecksError App
unfolding find_project creator_of is_member
within_account_quota user project interval create a = do
  initial ← require (find_project project a.start) project_not_found
  creator ← creator_of initial a.start
  let app = a.before_users a.start
  stable ← require (find_project project app) project_not_found
  stable_creator ← creator_of stable app
  guard (stable_creator == creator) creator_changed
  let locked = a.before_membership app
  guard (is_member user stable.organization_id locked) not_a_member
  map_err not_entitled (assert_interval (account_of stable_creator locked) interval)
  map_err not_entitled (assert_can_add_check (account_of stable_creator locked))
  create locked

abbrev pub taken_check_slugs : ℕ → App → List Text
taken_check_slugs project app =
    map (λ c. c.slug) (filter (λ c. c.project_id == project) app.monitor.checks)

abbrev pub add_check : Check → App → App
add_check row app = record app {
  monitor = record app.monitor { checks = app.monitor.checks ++ row ∷ [] };
}

-- `check.create`, with the unique index on project and slug.
unfoldable pub insert_check : Check → App → Result ChecksError App
unfolding find_project
insert_check row app = do
  project ← require (find_project row.project_id app) broken_reference
  guard (not (any (λ s. text_eq s row.slug) (taken_check_slugs row.project_id app))) slug_taken
  ok (add_check row app)

abbrev pub is_slug_taken : ChecksError → Bool
is_slug_taken slug_taken = true
is_slug_taken _ = false

-- The slugs that a load finds: after a refused insertion only where the transaction may go on.
abbrev pub load_slugs : CreationAttempt → ℕ → App → ℕ → Result ChecksError (List Text)
load_slugs a project locked n =
    if a.resumes || (n == 1)
    then ok (taken_check_slugs project (a.before_load n locked))
    else err transaction_aborted

unfoldable pub create_row :
    Text → ℕ → (Text → Check) → CreationAttempt → App → Result ChecksError App
unfolding insert_check create_with_unique_slug
create_row base project row a locked =
    create_with_unique_slug is_slug_taken no_unique_slug base (load_slugs a project locked)
      (λ n slug. insert_check (row slug) (a.before_insert n locked))

unfoldable pub create_within_account_quota :
    ℕ → ℕ → ℤ → Text → (Text → Check) → (ℕ → CreationAttempt) → Result ChecksError App
unfolding with_creator_retry within_account_quota create_row
create_within_account_quota user project interval base row attempts = with_creator_retry λ n.
    within_account_quota user project interval (create_row base project row (attempts n))
      (attempts n)

unfoldable pub parse_check_text : ℕ → Option Text → Result ChecksError (Option Text)
unfolding normalize_check_text
parse_check_text max_length raw = map_err invalid (normalize_check_text max_length raw)
