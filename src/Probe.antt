-- ===== src/Probe.antt =====
-- worker/src/probe-handler.ts: the result of a probe becomes an event, a status and perhaps an
-- alert. The prober is a parameter: `result` is what `probeFn(check)` returned.
pub mod Laws
use systemvitals.Base.{ℕ, Bool, true, false, ◌&&◌, ◌||◌, not, Option, none, some, if◌then◌else◌}
use systemvitals.Base.Text.{Text}
use systemvitals.Schema.{
  Check, CheckType, CheckStatus, CheckEvent, Db, AlertKind, AlertJob, http, tcp, up, paused,
  find_check, update_check, create_event,
}
use systemvitals.Routing.{snapshot_selected_channel_ids}
use systemvitals.Ping.{is_down}

pub record ProbeResult : Type 0 where
  pub up : Bool
  pub response_time_ms : ℕ
  pub status_code : Option ℕ
  pub error : Option Text

unfoldable pub is_paused : CheckStatus → Bool
is_paused paused = true
is_paused _ = false

unfoldable pub is_active : CheckType → Bool
is_active http = true
is_active tcp = true
is_active _ = false

-- `type` is HTTP or TCP, and the check is not paused: the guard before and after the probe.
unfoldable pub is_probed : Check → Bool
unfolding is_paused is_active
is_probed c = not (is_paused c.status) && is_active c.type

abbrev pub new_status : ProbeResult → CheckStatus
new_status r = if r.up then up else CheckStatus.down

unfoldable pub probe_event : ℕ → ℕ → ProbeResult → ℕ → CheckEvent
probe_event check_id at r id = record {
  id = id;
  check_id = check_id;
  timestamp = at;
  status = new_status r;
  response_time_ms = some r.response_time_ms;
  status_code = r.status_code;
  error = r.error;
  source_ip = none;
}

unfoldable pub alert_kind : ProbeResult → CheckStatus → Option AlertKind
unfolding is_down
alert_kind r status =
    if not r.up && not (is_down status)
    then some AlertKind.down
    else if r.up && is_down status
    then some AlertKind.recovery
    else none

abbrev pub set_status : ProbeResult → ℕ → Check → Check
set_status r now c = record c { status = new_status r; last_event_at = some now }

unfoldable pub probe_commit : ℕ → ℕ → ProbeResult → ℕ → Db → Db
unfolding probe_event create_event update_check
probe_commit at now r check_id db =
    update_check check_id (set_status r now) (create_event (probe_event check_id at r) db)

-- The transaction, at the database clock `at`: the row is read again under its lock.
unfoldable pub probe_transaction : ℕ → ℕ → ProbeResult → ℕ → Db → Db × Option AlertJob
unfolding is_probed find_check probe_commit alert_kind
probe_transaction at now r check_id db = elim (find_check check_id db) [
  | none ↦ (db, none)
  | some current ↦
      let db' = probe_commit at now r check_id db in
      if is_probed current
      then (
        db',
        elim (alert_kind r current.status) [
          | none ↦ none
          | some kind ↦ some (record {
            check_id = check_id;
            kind = kind;
            channel_ids = some (snapshot_selected_channel_ids db' current);
          })
        ],
      )
      else (db, none)
]

-- `others` is what is committed while the probe runs.
unfoldable pub handle_probe :
    (Check → ProbeResult) → (Db → Db) → ℕ → ℕ → ℕ → Db → Db × Option AlertJob
unfolding probe_transaction
handle_probe probe_fn others at now check_id db = elim (find_check check_id db) [
  | none ↦ (db, none)
  | some check ↦
      if is_probed check
      then probe_transaction at now (probe_fn check) check_id (others db)
      else (db, none)
]
