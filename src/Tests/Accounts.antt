-- ===== src/Tests/Accounts.antt =====
-- Plans, an edit of the heartbeat check into an HTTP check, and retries.
use systemvitals.Base.{ℕ, refl, true, false, none, some, ◌*◌, ltb}
use systemvitals.Base.Int.{pos, ◌≤ℤ◌}
use systemvitals.Base.Text.{codes}
use systemvitals.Base.Result.{Result, ok, err}
use systemvitals.Schema.{http}
use systemvitals.Plan.{Subscription, assert_interval, for_user, is_paid, effective_limits}
use systemvitals.Plan.Laws.{paid_interval_floor}
use systemvitals.CheckUpdate.{resolve_check_update}
use systemvitals.CheckUpdate.Heartbeat.{base_update}
use systemvitals.CheckUpdate.Fields.{
  CronLib, CheckUpdateInput, ResolvedCheckUpdate, CheckValidationError, requested_type,
}
use systemvitals.CheckUpdate.Accepted.{Edited, resolve_check_update-Edited}
use systemvitals.Checks.{ChecksError, creator_changed}
use systemvitals.Tests.Sample.{backup}

abbrev signal : Subscription
signal = record {
  plan = codes "SIGNAL";
  limits = some (record { max_checks = none; min_interval_seconds = some (pos 10) });
}

paid_interval_floor_example : pos 60 ≤ℤ pos 90
unfolding assert_interval for_user is_paid effective_limits
paid_interval_floor_example = paid_interval_floor signal 3 1 (pos 90) refl refl

-- Every expression parses and fires once a minute.
abbrev pub minutes : CronLib
minutes = record {
  is_valid_cron = λ _. true;
  is_valid_tz = λ _. true;
  fire = λ _ _ n. some (n * 60000);
}

abbrev pub unchanged : CheckUpdateInput
unchanged = record {
  name = none;
  slug = none;
  description = none;
  agent_instructions = none;
  type = none;
  period_seconds = none;
  grace_seconds = none;
  schedule = none;
  tz = none;
  target = none;
  method = none;
  expected_status = none;
  interval_seconds = none;
  timeout_ms = none;
}

abbrev to_http : CheckUpdateInput
to_http = record unchanged {
  type = some (some (codes "HTTP"));
  target = some (some (codes "https://example.com"));
  interval_seconds = some (some (pos 60));
  timeout_ms = some (some (pos 5000));
}

abbrev resolved_or :
    ResolvedCheckUpdate → Result CheckValidationError ResolvedCheckUpdate → ResolvedCheckUpdate
resolved_or r (ok s) = s
resolved_or r (err e) = r

abbrev nothing : ResolvedCheckUpdate
nothing = record {
  update = base_update http none none none none;
  interval_to_validate = none;
  mint_ping_slug = false;
}

abbrev became_http : ResolvedCheckUpdate
became_http = resolved_or nothing (resolve_check_update minutes backup to_http)

resolve_check_update-Edited_example : Edited minutes backup http became_http
unfolding requested_type resolve_check_update
resolve_check_update-Edited_example =
    resolve_check_update-Edited minutes backup to_http http became_http refl refl

-- Two attempts find the creator changed, the third answers 9.
abbrev third : ℕ → Result ChecksError ℕ
third n = elim (ltb n 3) [ true ↦ err creator_changed | false ↦ ok 9 ]

abbrev never : ℕ → Result ChecksError ℕ
never n = err creator_changed
