-- ===== src/Tests/Monitor.antt =====
-- The monitor on the sample database.
use systemvitals.Base.{
  ℕ, ◌+◌, ◌≡◌, refl, true, false, Option, none, some, [], ◌∷◌, map, length, is_some, In, inl, take,
  ◌<◌, ◌≢◌, ◌↔◌, arith, count,
}
use systemvitals.Base.Int.{pos, ◌+ℤ◌}
use systemvitals.Base.Text.{Text, codes}
use systemvitals.Base.Result.{ok}
use systemvitals.Schema.{
  CheckStatus, up, Check, NotificationChannel, AlertKind, AlertJob, find_check,
}
use systemvitals.Routing.{snapshot_selected_channel_ids}
use systemvitals.Ping.{
  find_by_ping_slug, record_ping, ping_transaction, set_up, is_heartbeat, is_down,
}
use systemvitals.Ping.Laws.{record_ping_heartbeat}
use systemvitals.Probe.{ProbeResult, handle_probe}
use systemvitals.Probe.Laws.{handle_probe_exact}
use systemvitals.ProbeScheduler.{find_due_probes, schedule_due_probes, accepted, Attempt, due_at}
use systemvitals.ProbeScheduler.Laws.{
  IsDue, due_probe, job_of, Ended, find_due_probes_exact, schedule_due_probes_prefix,
}
use systemvitals.Alert.{handle_alert, alert_channels}
use systemvitals.Alert.Laws.{recipients, succeeded, handle_alert_exact, snapshot_reaches_selected}
use systemvitals.Watchdog.{
  Turn, sweep_overdue, sweep_each, sweep_turn, mark_down, set_down, overdue_checks, is_overdue,
  has_cadence, cron_schedule,
}
use systemvitals.Watchdog.Sweep.{IsQuiet, after_sweep, sweep_exact}
use systemvitals.Watchdog.Accounts.{reported, stranded, sweep_accounts}
use systemvitals.Monitor.{World, here, next, swept, push, watchdog_alert}
use systemvitals.Monitor.History.{Told, Reach-Told}
use systemvitals.Monitor.Races.{ping_then_sweep, sweep_overtakes_ping}
use systemvitals.Tests.Sample.{backup, site, sample, sample-Keyed}

abbrev no_cron : Text → Text → ℕ → Option ℕ
no_cron expr tz after = none

abbrev quiet : ℕ → Turn
quiet k = record { others = λ db. db; aborted = false; at = 90000; enqueue_fails = false }

quiet-IsQuiet : (k : ℕ) → IsQuiet (quiet k)
quiet-IsQuiet k = record { alone = λ db. refl; not_aborted = refl; accepted = refl }

sweep_exact_example :
    find_check 1 (sweep_overdue no_cron false quiet 80000 sample).db
    ≡ elim (find_check 1 sample) [ none ↦ none | some c ↦ some (after_sweep no_cron 80000 c) ]
sweep_exact_example = sweep_exact no_cron 80000 quiet sample 1 quiet-IsQuiet sample-Keyed

-- The overdue heartbeat check is marked DOWN.
sweep_run : (sweep_overdue no_cron false quiet 80000 sample).outcome ≡ ok 1
unfolding sweep_overdue overdue_checks is_overdue sweep_each sweep_turn mark_down
sweep_run = refl

sweep_accounts_example :
    let r = sweep_overdue no_cron false quiet 80000 sample in
    (length r.db.events ≡ length sample.events + length r.alerts + stranded r.outcome)
    × (reported r.outcome (length r.alerts) ≡ length r.alerts)
sweep_accounts_example = sweep_accounts no_cron false quiet 80000 sample (λ k db. refl)

abbrev start : World
start = record { db = sample; history = [] }

no_one_down : (j : ℕ) (c : Check) → find_check j sample ≡ some c → is_down c.status ≡ false
unfolding find_check is_down
no_one_down j c h = ground arith

abbrev swept_world : World
swept_world = record {
  db = (mark_down 90000 1 sample).0;
  history = push (watchdog_alert 1 (mark_down 90000 1 sample).1) [];
}

Reach-Told_example : Told swept_world.db swept_world.history
Reach-Told_example = Reach-Told no_one_down refl (next here (swept start 90000 1))

ping_then_sweep_example :
    find_check 1
      (sweep_overdue no_cron false quiet 70000 (ping_transaction 2000 none 1 sample).db).db
    ≡ some (set_up 2000 backup)
unfolding find_check is_heartbeat cron_schedule ◌+ℤ◌
ping_then_sweep_example =
    ping_then_sweep no_cron quiet 2000 70000 none sample backup (pos 60) quiet-IsQuiet sample-Keyed
      refl refl refl refl

sweep_overtakes_ping_example :
    let pinged = (ping_transaction 79000 none 1 sample).db in
    (find_check 1 (mark_down 90000 1 pinged).0 ≡ some (set_down (set_up 79000 backup)))
    × (is_some (mark_down 90000 1 pinged).1 ≡ true)
unfolding find_check is_heartbeat has_cadence
sweep_overtakes_ping_example = sweep_overtakes_ping 90000 79000 none sample backup refl refl refl

record_ping_heartbeat_example :
    let r = record_ping (codes "ping-1") none (λ db. db) 2000 sample in
    (backup.ping_slug ≡ some (codes "ping-1"))
    × (r.answer ≡ ok (record { recovered = false; check_id = 1 }))
    × (r.alert ≡ none)
    × (find_check 1 r.db ≡ some (record backup { status = up; last_event_at = some 2000 }))
    × ((j : ℕ) → 1 ≢ j → find_check j r.db ≡ find_check j sample)
    × (r.db.events
        ≡ record {
          id = 100;
          check_id = 1;
          timestamp = 2000;
          status = up;
          response_time_ms = none;
          status_code = none;
          error = none;
          source_ip = none;
        }
          ∷ [])
unfolding find_by_ping_slug find_check
record_ping_heartbeat_example =
    record_ping_heartbeat (codes "ping-1") none (λ db. db) 2000 sample backup backup refl refl refl
      refl

abbrev refused_connection : ProbeResult
refused_connection = record {
  up = false;
  response_time_ms = 12;
  status_code = none;
  error = some (codes "ECONNREFUSED");
}

handle_probe_exact_example :
    let (db', alert) = handle_probe (λ c. refused_connection) (λ db. db) 9 8 2 sample in
    (find_check 2 db' ≡ some (record site { status = CheckStatus.down; last_event_at = some 8 }))
    × ((j : ℕ) → 2 ≢ j → find_check j db' ≡ find_check j sample)
    × (db'.events
        ≡ record {
          id = 100;
          check_id = 2;
          timestamp = 9;
          status = CheckStatus.down;
          response_time_ms = some 12;
          status_code = none;
          error = some (codes "ECONNREFUSED");
          source_ip = none;
        }
          ∷ [])
    × (alert
        ≡ some (record {
          check_id = 2;
          kind = AlertKind.down;
          channel_ids = some (snapshot_selected_channel_ids sample site);
        }))
unfolding find_check
handle_probe_exact_example =
    handle_probe_exact (λ c. refused_connection) (λ db. db) 9 8 2 sample site site refl
      (inl refl, λ e. cc) refl (inl refl, λ e. cc)

-- The older channel comes first; the heartbeat check leaves the mail channel out.
snapshot_runs :
    (snapshot_selected_channel_ids sample site ≡ 6 ∷ 5 ∷ [])
    × (snapshot_selected_channel_ids sample backup ≡ 6 ∷ [])
unfolding snapshot_selected_channel_ids
snapshot_runs = (refl, refl)

find_due_probes_exact_example :
    In (due_probe site) (find_due_probes 80000 sample)
    ↔ ((c : Check) × In c sample.checks × (c.id ≡ 2) × IsDue 80000 c (due_at site))
find_due_probes_exact_example = find_due_probes_exact 80000 sample (due_probe site)

schedule_due_probes_prefix_example :
    let r = schedule_due_probes false (λ k. accepted) 80000 sample in
    (sent : ℕ) × (r.0 ≡ map job_of (take sent (find_due_probes 80000 sample)))
    × ((i : ℕ) → i < sent → ◌≡◌ {A = Attempt} accepted accepted)
    × Ended (λ k. accepted) 0 sent (find_due_probes 80000 sample) r.1
schedule_due_probes_prefix_example = schedule_due_probes_prefix (λ k. accepted) 80000 sample

abbrev down_job : AlertJob
down_job = record { check_id = 1; kind = AlertKind.down; channel_ids = some (6 ∷ []) }

abbrev mute : Text → Text → NotificationChannel → Option Text
mute subject text ch = some (codes "timeout")

handle_alert_exact_example :
    let (logs, successes) = handle_alert mute (λ ch. none) (codes "now") sample down_job in
    (successes ≡ count succeeded logs)
    × (logs
        ≡ map
            (λ ch. record {
              check_id = 1;
              channel_id = ch.id;
              status = CheckStatus.down;
              error = some (codes "timeout");
            })
            (recipients sample backup (some (6 ∷ []))))
unfolding find_check
handle_alert_exact_example = handle_alert_exact mute (λ ch. none) (codes "now") sample down_job

snapshot_reaches_selected_example :
    alert_channels sample site (some (snapshot_selected_channel_ids sample site))
    ≡ alert_channels sample site none
snapshot_reaches_selected_example = snapshot_reaches_selected sample site
