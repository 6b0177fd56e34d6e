-- ===== src/CheckUpdate.antt =====
-- api/src/checks/check-update.ts: an edit of a check is resolved against the stored row. A field of
-- the input is `none` where it is absent and `some none` where it is null. Messages of errors are
-- left out; cron-parser and Intl are the parameter `CronLib`.
pub mod Formats
pub mod Fields
pub mod Gaps
pub mod Heartbeat
pub mod Shape
pub mod Accepted
use systemvitals.Base.{
  ℕ, zero, suc, ◌-◌, ◌/◌, ◌≤◌, Bool, true, false, ◌&&◌, ◌||◌, not, Option, none, some, List, [],
  ◌∷◌, if◌then◌else◌, min, is_some, or_else, length, leb, ltb,
}
use systemvitals.Base.Int.{ℤ, pos, eqb_ℤ}
use systemvitals.Base.Text.{Text, codes, text_eq, truthy, starts_with, trim}
use systemvitals.Base.Result.{Result, ok, err, guard, require, ◌>>=◌, ◌>>◌}
use systemvitals.Schema.{Check, CheckType, CheckStatus, heartbeat, http, tcp, ping, new}
use systemvitals.Slug.{is_valid_slug}
use systemvitals.CheckUpdate.Formats.{is_valid_tcp_target}
use systemvitals.CheckUpdate.Fields.{
  CheckUpdateData, CheckUpdateInput, CheckValidationError, CronLib, Field, ResolvedCheckUpdate,
  bad_http_target, bad_slug, bad_tcp_target, bad_type, editable_current, editable_type, empty_name,
  exactly_one_cadence, grace_required, interval_required, invalid_cron, invalid_timezone, least_gap,
  max_check_agent_instructions_length, max_check_description_length, min_cron_gap_seconds,
  non_empty, normalize_check_text, opt_text_eq, opt_ℤ_eq, or_text, pick, requested_type,
  resolve_name, resolve_slug, resolve_text, same_type, target_required, text_too_long,
  timeout_required,
}
use systemvitals.CheckUpdate.Heartbeat.{
  base_update, resolve_cadence, resolve_heartbeat, restart, with_cadence, with_cron, with_period,
}

-- `validateIfChanged`
unfoldable pub validate_if_changed : ℤ → Option ℤ → Option ℤ
validate_if_changed new_interval previous =
    if opt_ℤ_eq (some new_interval) previous then none else some new_interval

abbrev pub is_http : CheckType → Bool
is_http http = true
is_http _ = false

-- The end of `resolveActive`, where target, interval and timeout are given.
unfoldable pub resolved_active : Check → Bool → ℤ → CheckUpdateData → ResolvedCheckUpdate
unfolding validate_if_changed
resolved_active current is_conversion interval_seconds d = record {
  update = d;
  interval_to_validate =
      if is_conversion
      then some interval_seconds
      else validate_if_changed interval_seconds current.interval_seconds;
  mint_ping_slug = false;
}

unfoldable pub with_target :
    Check
    → CheckUpdateInput
    → CheckUpdateData
    → Bool
    → Text
    → ℤ
    → ℤ
    → Result CheckValidationError ResolvedCheckUpdate
unfolding pick resolved_active
with_target current input d is_conversion target interval_seconds timeout_ms =
    let d' : CheckUpdateData = record d {
      target = some target;
      interval_seconds = some interval_seconds;
      timeout_ms = some timeout_ms;
    } in
    let is_url = starts_with target (codes "http://") || starts_with target (codes "https://") in
    let http_data : CheckUpdateData = record d' {
      method = some (or_else (pick input.method current.method is_conversion) (codes "GET"));
      expected_status = pick input.expected_status current.expected_status is_conversion;
    } in
    if is_http d.type
    then if is_url
      then ok (resolved_active current is_conversion interval_seconds http_data)
      else err bad_http_target
    else if is_valid_tcp_target target
    then ok (resolved_active current is_conversion interval_seconds d')
    else err bad_tcp_target

unfoldable pub resolve_active :
    Check
    → CheckUpdateInput
    → CheckUpdateData
    → Bool
    → Result CheckValidationError ResolvedCheckUpdate
unfolding pick with_target
resolve_active current input d is_conversion = do
  target ← require (non_empty (pick input.target current.target is_conversion)) target_required
  interval_seconds ←
      require (pick input.interval_seconds current.interval_seconds is_conversion) interval_required
  timeout_ms ← require (pick input.timeout_ms current.timeout_ms is_conversion) timeout_required
  with_target current input d is_conversion target interval_seconds timeout_ms

abbrev pub is_heartbeat_type : CheckType → Bool
is_heartbeat_type heartbeat = true
is_heartbeat_type _ = false

unfoldable pub resolve_mode :
    CronLib
    → Check
    → CheckUpdateInput
    → CheckUpdateData
    → Result CheckValidationError ResolvedCheckUpdate
unfolding resolve_heartbeat resolve_active
resolve_mode lib current input d =
    let is_conversion = not (same_type d.type current.type) in
    if is_heartbeat_type d.type
    then resolve_heartbeat lib current input d is_conversion
    else resolve_active current input d is_conversion

-- The part of `resolveCheckUpdate` after the type is known.
unfoldable pub resolve_fields :
    CronLib → Check → CheckUpdateInput → CheckType → Result CheckValidationError ResolvedCheckUpdate
unfolding resolve_name resolve_slug resolve_text base_update resolve_mode
resolve_fields lib current input target_type = do
  name ← resolve_name input.name
  slug ← resolve_slug input.slug
  description ← resolve_text max_check_description_length input.description
  agent_instructions ← resolve_text max_check_agent_instructions_length input.agent_instructions
  resolve_mode lib current input (base_update target_type name slug description agent_instructions)

unfoldable pub resolve_check_update :
    CronLib → Check → CheckUpdateInput → Result CheckValidationError ResolvedCheckUpdate
unfolding requested_type resolve_fields
resolve_check_update lib current input = do
  target_type ← require (requested_type input.type current.type) bad_type
  resolve_fields lib current input target_type

-- `check.update({ data })`: the row with the written columns.
unfoldable pub apply_update : CheckUpdateData → Check → Check
apply_update d c = record c {
  type = d.type;
  name = or_else d.name c.name;
  slug = or_else d.slug c.slug;
  description = or_else d.description c.description;
  agent_instructions = or_else d.agent_instructions c.agent_instructions;
  status = or_else d.status c.status;
  last_event_at = or_else d.last_event_at c.last_event_at;
  period_seconds = d.period_seconds;
  grace_seconds = d.grace_seconds;
  schedule = d.schedule;
  tz = d.tz;
  target = d.target;
  method = d.method;
  expected_status = d.expected_status;
  interval_seconds = d.interval_seconds;
  timeout_ms = d.timeout_ms;
}
