-- ===== src/CheckUpdate/Heartbeat.antt =====
-- `resolveHeartbeat` of api/src/checks/check-update.ts, and what both modes start from.
use systemvitals.Base.{
  Bool, true, false, ◌&&◌, ◌||◌, not, Option, none, some, if◌then◌else◌, is_some, or_else,
}
use systemvitals.Base.Int.{ℤ}
use systemvitals.Base.Text.{Text, codes, text_eq, truthy}
use systemvitals.Base.Result.{Result, ok, err, guard, require, ◌>>=◌, ◌>>◌}
use systemvitals.Schema.{Check, CheckType, new}
use systemvitals.CheckUpdate.Fields.{
  CheckUpdateData, CheckUpdateInput, CheckValidationError, CronLib, ResolvedCheckUpdate,
  exactly_one_cadence, grace_required, invalid_cron, invalid_timezone, no_further_fire,
  min_cron_gap_seconds, non_empty, opt_text_eq, opt_ℤ_eq, or_text, pick,
}

-- What both modes start from.
unfoldable pub base_update :
    CheckType
    → Option Text
    → Option Text
    → Option (Option Text)
    → Option (Option Text)
    → CheckUpdateData
base_update type name slug description agent_instructions = record {
  type = type;
  name = name;
  slug = slug;
  description = description;
  agent_instructions = agent_instructions;
  status = none;
  last_event_at = none;
  period_seconds = none;
  grace_seconds = none;
  schedule = none;
  tz = none;
  target = none;
  method = none;
  expected_status = none;
  interval_seconds = none;
  timeout_ms = none;
}

-- The period and the schedule that the edit asks for: the mode that is given wins, both together are
-- refused, and with neither the stored values count unless the type changes.
unfoldable pub resolve_cadence :
    Check → CheckUpdateInput → Bool → Result CheckValidationError (Option ℤ × Option Text)
unfolding pick
resolve_cadence current input is_conversion =
    let explicit_period = is_some input.period_seconds in
    let explicit_schedule : Bool = elim input.schedule [
      | none ↦ false
      | some s ↦ elim s [ none ↦ true | some t ↦ truthy t ]
    ] in
    if explicit_period && explicit_schedule
    then err exactly_one_cadence
    else if explicit_period || explicit_schedule
    then ok (
      if explicit_period then or_else input.period_seconds none else none,
      if explicit_schedule then or_else input.schedule none else none,
    )
    else ok (
      pick input.period_seconds current.period_seconds is_conversion,
      pick input.schedule current.schedule is_conversion,
    )

-- A heartbeat check starts afresh after a change of type.
unfoldable pub restart : Bool → CheckUpdateData → CheckUpdateData
restart is_conversion d =
    if is_conversion then record d { status = some new; last_event_at = some none } else d

-- The end of `resolveHeartbeat` for a cron schedule.
unfoldable pub with_cron :
    CronLib
    → Check
    → CheckUpdateInput
    → CheckUpdateData
    → Bool
    → ℤ
    → Text
    → Result CheckValidationError ResolvedCheckUpdate
unfolding pick restart
with_cron lib current input d is_conversion grace_seconds expr = do
  guard (lib.is_valid_cron expr) invalid_cron
  let zone = or_text (pick input.tz current.tz is_conversion) (codes "UTC")
  guard (lib.is_valid_tz zone) invalid_timezone
  gap ← require (min_cron_gap_seconds lib expr zone) no_further_fire
  let cadence_changed =
      not (opt_text_eq current.schedule (some expr))
      || not (text_eq (or_text current.tz (codes "UTC")) zone)
  ok (record {
    update =
        restart is_conversion
          (record d { grace_seconds = some grace_seconds; schedule = some expr; tz = some zone });
    interval_to_validate = if is_conversion || cadence_changed then some gap else none;
    mint_ping_slug = not (is_some current.ping_slug);
  })

-- The end of `resolveHeartbeat` for a period.
unfoldable pub with_period : Check → CheckUpdateData → Bool → ℤ → ℤ → ResolvedCheckUpdate
unfolding restart
with_period current d is_conversion grace_seconds period =
    let cadence_changed =
      is_some current.schedule || not (opt_ℤ_eq current.period_seconds (some period)) in
    record {
      update =
          restart is_conversion
            (record d { grace_seconds = some grace_seconds; period_seconds = some period });
      interval_to_validate = if is_conversion || cadence_changed then some period else none;
      mint_ping_slug = not (is_some current.ping_slug);
    }

unfoldable pub with_cadence :
    CronLib
    → Check
    → CheckUpdateInput
    → CheckUpdateData
    → Bool
    → ℤ
    → Option Text
    → Option ℤ
    → Result CheckValidationError ResolvedCheckUpdate
unfolding with_cron with_period
with_cadence lib current input d is_conversion grace_seconds (some expr) period_seconds =
    with_cron lib current input d is_conversion grace_seconds expr
with_cadence lib current input d is_conversion grace_seconds none (some period) =
    ok (with_period current d is_conversion grace_seconds period)
with_cadence lib current input d is_conversion grace_seconds none none = err exactly_one_cadence

-- The columns of the active modes stay null, as `base_update` has them.
unfoldable pub resolve_heartbeat :
    CronLib
    → Check
    → CheckUpdateInput
    → CheckUpdateData
    → Bool
    → Result CheckValidationError ResolvedCheckUpdate
unfolding resolve_cadence pick with_cadence
resolve_heartbeat lib current input d is_conversion = do
  (period_seconds, schedule) ← resolve_cadence current input is_conversion
  let cron_expr = non_empty schedule
  guard
      (not (is_some period_seconds && is_some cron_expr)
        && (is_some period_seconds || is_some cron_expr))
      exactly_one_cadence
  grace_seconds ←
      require (pick input.grace_seconds current.grace_seconds is_conversion) grace_required
  with_cadence lib current input d is_conversion grace_seconds cron_expr period_seconds
