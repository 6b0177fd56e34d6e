-- ===== src/Watchdog.antt =====
-- worker/src/watchdog.ts and worker/src/cron.ts: the sweep that marks heartbeat checks DOWN when
-- no ping has come within their window. cron-parser is a parameter: `next_cron_fire expr tz after`
-- is the next fire in milliseconds, and `none` where `parseExpression` throws.
pub mod Guard
pub mod Sweep
pub mod Accounts
use mathlib.Core.Option
use systemvitals.Base.{
  ℕ, zero, suc, ◌+◌, Bool, true, false, ◌&&◌, ◌||◌, Option, none, some, List, [], ◌∷◌, ◌++◌,
  if◌then◌else◌, is_some, or_else, filter,
}
use systemvitals.Base.Int.{ℤ, pos, ◌+ℤ◌, ltb_ℤ, millis}
use systemvitals.Base.Text.{Text, codes, truthy}
use systemvitals.Base.Result.{Result, ok, err}
use systemvitals.Schema.{
  Check, CheckStatus, CheckEvent, Db, AlertKind, AlertJob, up, grace, find_check, update_check,
  create_event,
}
use systemvitals.Routing.{snapshot_selected_channel_ids}

-- `status: { in: [UP, GRACE] }`
unfoldable pub is_sweepable : CheckStatus → Bool
is_sweepable up = true
is_sweepable grace = true
is_sweepable _ = false

-- `OR: [{ periodSeconds: { not: null } }, { schedule: { not: null } }]`
unfoldable pub has_cadence : Check → Bool
has_cadence c = is_some c.period_seconds || is_some c.schedule

unfoldable pub is_candidate : Check → Bool
unfolding is_sweepable has_cadence
is_candidate c = is_sweepable c.status && is_some c.last_event_at && has_cadence c

-- `if (check.schedule)`: null and the empty string are no schedule.
unfoldable pub cron_schedule : Option Text → Option Text
cron_schedule none = none
cron_schedule (some s) = if truthy s then some s else none

module _ (next_cron_fire : Text → Text → ℕ → Option ℕ) where
  unfoldable pub is_cron_overdue : ℕ → Text → Text → ℤ → ℕ → Option Bool
  unfolding ◌+ℤ◌
  is_cron_overdue last_event_at schedule tz grace_seconds now =
      Option.map (λ expected. ltb_ℤ (pos expected +ℤ millis grace_seconds) (pos now))
        (next_cron_fire schedule tz last_event_at)

  -- The test of `candidates.filter`, for a check that was last heard of at `last_event_at`.
  unfoldable pub is_overdue_since : ℕ → Check → ℕ → Bool
  unfolding is_cron_overdue cron_schedule ◌+ℤ◌
  is_overdue_since now c last_event_at =
      let grace_seconds = or_else c.grace_seconds (pos 0) in
      elim (cron_schedule c.schedule) [
        | some schedule ↦
            or_else
              (is_cron_overdue last_event_at schedule (or_else c.tz (codes "UTC")) grace_seconds
                now)
              false
        | none ↦ elim c.period_seconds [
          | none ↦ false
          | some period ↦ ltb_ℤ (pos last_event_at +ℤ millis (period +ℤ grace_seconds)) (pos now)
        ]
      ]

  -- A candidate has a `last_event_at`, so the case `none` does not arise in a sweep.
  unfoldable pub is_overdue : ℕ → Check → Bool
  unfolding is_overdue_since
  is_overdue now c = elim c.last_event_at [ none ↦ false | some last ↦ is_overdue_since now c last ]

  unfoldable pub overdue_checks : ℕ → Db → List Check
  unfolding is_candidate
  overdue_checks now db = filter (is_overdue now) (filter is_candidate db.checks)

pub record Transition : Type 0 where
  pub event_id : ℕ
  pub channel_ids : List ℕ

unfoldable pub missed_heartbeat : ℕ → ℕ → ℕ → CheckEvent
missed_heartbeat check_id at id = record {
  id = id;
  check_id = check_id;
  timestamp = at;
  status = CheckStatus.down;
  response_time_ms = none;
  status_code = none;
  error = some (codes "missed heartbeat");
  source_ip = none;
}

abbrev pub set_down : Check → Check
set_down c = record c { status = CheckStatus.down }

-- The transaction of one overdue check, at the database clock `at`.
unfoldable pub mark_down : ℕ → ℕ → Db → Db × Option Transition
unfolding find_check update_check create_event missed_heartbeat is_sweepable has_cadence
mark_down at check_id db = elim (find_check check_id db) [
  | none ↦ (db, none)
  | some current ↦
      if is_sweepable current.status && has_cadence current
      then (
        create_event (missed_heartbeat check_id at) (update_check check_id set_down db),
        some (record {
          event_id = db.next_event_id;
          channel_ids = snapshot_selected_channel_ids db current;
        }),
      )
      else (db, none)
]

-- `watchdogAlertJobId`. The text `alert-down-<check>-<event>` is not printed: cuids hold no dash.
pub data JobId : Type 0 where
  alert_down : (check_id event_id : ℕ) → JobId

-- What surrounds one turn of the loop: the changes that others commit before its transaction,
-- whether the signal is aborted before it commits, its clock, and whether the queue refuses.
pub record Turn : Type 0 where
  pub others : Db → Db
  pub aborted : Bool
  pub at : ℕ
  pub enqueue_fails : Bool

pub data SweepError : Type 0 where
  was_aborted enqueue_failed : SweepError

pub record Swept : Type 0 where
  pub db : Db
  pub alerts : List (AlertJob × JobId)
  pub outcome : Result SweepError ℕ

unfoldable pub down_alert : ℕ → Transition → AlertJob × JobId
down_alert check_id t = (
  record { check_id = check_id; kind = AlertKind.down; channel_ids = some t.channel_ids },
  alert_down check_id t.event_id,
)

-- One turn of the loop; `rest` is what follows it.
unfoldable pub sweep_turn :
    Turn
    → Check
    → (Db → List (AlertJob × JobId) → ℕ → Swept)
    → Db
    → List (AlertJob × JobId)
    → ℕ
    → Swept
sweep_turn turn c rest db alerts count =
    let seen = turn.others db in
    let (db', transition) = mark_down turn.at c.id seen in
    if turn.aborted
    then record { db = seen; alerts = alerts; outcome = err was_aborted }
    else elim transition [
      | none ↦ rest db' alerts count
      | some t ↦
          if turn.enqueue_fails
          then record { db = db'; alerts = alerts; outcome = err enqueue_failed }
          else rest db' (alerts ++ down_alert c.id t ∷ []) (count + 1)
    ]

-- The loop over the overdue checks; `k` numbers its turns.
unfoldable pub sweep_each : (ℕ → Turn) → ℕ → List Check → Db → List (AlertJob × JobId) → ℕ → Swept
sweep_each turns k [] db alerts count = record { db = db; alerts = alerts; outcome = ok count }
sweep_each turns k (c ∷ cs) db alerts count =
    sweep_turn (turns k) c (sweep_each turns (suc k) cs) db alerts count

-- `start_aborted`: the signal is aborted before or right after the candidates are read.
unfoldable pub sweep_overdue : (Text → Text → ℕ → Option ℕ) → Bool → (ℕ → Turn) → ℕ → Db → Swept
sweep_overdue next_cron_fire start_aborted turns now db =
    if start_aborted
    then record { db = db; alerts = []; outcome = err was_aborted }
    else sweep_each turns 0 (overdue_checks next_cron_fire now db) db [] 0
