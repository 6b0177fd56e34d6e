-- ===== src/Checks/Creation/Kinds.antt =====
-- The two kinds of new check: create and createActiveCheck of api/src/checks/checks.service.ts.
use systemvitals.Base.{ℕ, ◌||◌, Option, none, some, if◌then◌else◌}
use systemvitals.Base.Int.{ℤ}
use systemvitals.Base.Text.{Text, codes, text_eq, starts_with, includes}
use systemvitals.Base.Result.{Result, ok, err, guard, require, ◌>>=◌, ◌>>◌}
use systemvitals.Schema.{Check, CheckType, heartbeat, http, tcp, new}
use systemvitals.CheckUpdate.Fields.{
  CronLib, max_check_description_length, max_check_agent_instructions_length, min_cron_gap_seconds,
  non_empty, or_text,
}
use systemvitals.Tenancy.{App}
use systemvitals.Slug.{slugify}
use systemvitals.Checks.{
  ChecksError, not_one_cadence, bad_cron, bad_timezone, no_further_fire, unknown_type, bad_target,
}
use systemvitals.Checks.Creation.{CreationAttempt, create_within_account_quota, parse_check_text}

-- What both kinds of new check are given.
pub record NewCheck : Type 0 where
  pub id : ℕ
  pub name : Text
  pub now : ℕ
  pub raw_description : Option Text
  pub raw_agent_instructions : Option Text

-- The arguments of `create`.
pub record HeartbeatInput : Type 0 where
  pub ping_slug : Text
  pub grace_seconds : ℤ
  pub period_seconds : Option ℤ
  pub schedule : Option Text
  pub tz : Option Text

-- A schedule with its zone, or a period.
pub record Cadence : Type 0 where
  pub period_seconds : Option ℤ
  pub schedule : Option Text
  pub tz : Option Text
  pub interval : ℤ

unfoldable pub cron_cadence : CronLib → Text → Option Text → Result ChecksError Cadence
unfolding min_cron_gap_seconds
cron_cadence lib schedule tz = do
  guard (lib.is_valid_cron schedule) bad_cron
  let zone = or_text tz (codes "UTC")
  guard (lib.is_valid_tz zone) bad_timezone
  gap ← require (min_cron_gap_seconds lib schedule zone) no_further_fire
  ok (record { period_seconds = none; schedule = some schedule; tz = some zone; interval = gap })

-- Exactly one of a period and a schedule that is not empty.
abbrev pub one_cadence : CronLib → Option Text → Option ℤ → Option Text → Result ChecksError Cadence
one_cadence lib tz none none = err not_one_cadence
one_cadence lib tz none (some schedule) = cron_cadence lib schedule tz
one_cadence lib tz (some period) none =
    ok (record { period_seconds = some period; schedule = none; tz = none; interval = period })
one_cadence lib tz (some period) (some schedule) = err not_one_cadence

unfoldable pub cadence_of : CronLib → HeartbeatInput → Result ChecksError Cadence
unfolding cron_cadence
cadence_of lib input = one_cadence lib input.tz input.period_seconds (non_empty input.schedule)

unfoldable pub heartbeat_row :
    NewCheck → HeartbeatInput → Cadence → ℕ → Option Text → Option Text → Text → Check
heartbeat_row c input cadence project description agent_instructions slug = record {
  id = c.id;
  name = c.name;
  slug = slug;
  description = description;
  agent_instructions = agent_instructions;
  type = heartbeat;
  status = new;
  project_id = project;
  ping_slug = some input.ping_slug;
  period_seconds = cadence.period_seconds;
  grace_seconds = some input.grace_seconds;
  schedule = cadence.schedule;
  tz = cadence.tz;
  target = none;
  method = none;
  expected_status = none;
  interval_seconds = none;
  timeout_ms = none;
  last_event_at = none;
  created_at = c.now;
}

unfoldable pub create :
    (Text → Text)
    → (Text → Text)
    → CronLib
    → ℕ
    → ℕ
    → NewCheck
    → HeartbeatInput
    → (ℕ → CreationAttempt)
    → Result ChecksError App
unfolding parse_check_text cadence_of heartbeat_row create_within_account_quota
create nfd lower lib user project c input attempts = do
  description ← parse_check_text max_check_description_length c.raw_description
  agent_instructions ← parse_check_text max_check_agent_instructions_length c.raw_agent_instructions
  cadence ← cadence_of lib input
  create_within_account_quota user project cadence.interval (slugify nfd lower c.name)
      (heartbeat_row c input cadence project description agent_instructions) attempts

-- The arguments of `createActiveCheck`.
pub record ActiveInput : Type 0 where
  pub type : Text
  pub target : Text
  pub interval_seconds : ℤ
  pub timeout_ms : ℤ
  pub method : Option Text
  pub expected_status : Option ℤ

unfoldable pub active_type : ActiveInput → Result ChecksError CheckType
active_type input =
    if text_eq input.type (codes "HTTP")
    then (guard
          (starts_with input.target (codes "http://")
            || starts_with input.target (codes "https://"))
          bad_target
        >> ok http)
    else if text_eq input.type (codes "TCP")
    then guard (includes input.target (codes ":")) bad_target >> ok tcp
    else err unknown_type

abbrev pub resolved_method : CheckType → Option Text → Option Text
resolved_method http none = some (codes "GET")
resolved_method _ m = m

unfoldable pub active_row :
    NewCheck → ActiveInput → CheckType → ℕ → Option Text → Option Text → Text → Check
active_row c input type project description agent_instructions slug = record {
  id = c.id;
  name = c.name;
  slug = slug;
  description = description;
  agent_instructions = agent_instructions;
  type = type;
  status = new;
  project_id = project;
  ping_slug = none;
  period_seconds = none;
  grace_seconds = none;
  schedule = none;
  tz = none;
  target = some input.target;
  method = resolved_method type input.method;
  expected_status = input.expected_status;
  interval_seconds = some input.interval_seconds;
  timeout_ms = some input.timeout_ms;
  last_event_at = none;
  created_at = c.now;
}

unfoldable pub create_active_check :
    (Text → Text)
    → (Text → Text)
    → ℕ
    → ℕ
    → NewCheck
    → ActiveInput
    → (ℕ → CreationAttempt)
    → Result ChecksError App
unfolding parse_check_text active_type active_row create_within_account_quota
create_active_check nfd lower user project c input attempts = do
  description ← parse_check_text max_check_description_length c.raw_description
  agent_instructions ← parse_check_text max_check_agent_instructions_length c.raw_agent_instructions
  type ← active_type input
  create_within_account_quota user project input.interval_seconds (slugify nfd lower c.name)
      (active_row c input type project description agent_instructions) attempts
