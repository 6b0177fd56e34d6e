-- ===== src/Ping.antt =====
-- api/src/ping/ping.service.ts: a ping of a heartbeat check. The check is read by its slug first;
-- what others commit before the transaction is the function `others`.
pub mod Laws
use systemvitals.Base.{ℕ, Bool, true, false, Option, none, some, ◌==◌, if◌then◌else◌, find}
use systemvitals.Base.Text.{Text, text_eq}
use systemvitals.Base.Result.{Result, ok, err}
use systemvitals.Schema.{
  Check, CheckType, CheckStatus, CheckEvent, Db, AlertKind, AlertJob, heartbeat, up, find_check,
  update_check, create_event,
}
use systemvitals.Routing.{snapshot_selected_channel_ids}

unfoldable pub is_heartbeat : CheckType → Bool
is_heartbeat heartbeat = true
is_heartbeat _ = false

unfoldable pub is_down : CheckStatus → Bool
is_down CheckStatus.down = true
is_down _ = false

abbrev pub has_slug : Text → Option Text → Bool
has_slug slug none = false
has_slug slug (some s) = text_eq s slug

-- `check.findUnique({ where: { pingSlug } })`
unfoldable pub find_by_ping_slug : Text → Db → Option Check
find_by_ping_slug slug db = find (λ c. has_slug slug c.ping_slug) db.checks

pub data PingError : Type 0 where
  not_found : PingError

pub record PingResult : Type 0 where
  pub recovered : Bool
  pub check_id : ℕ

-- The database afterwards, the alert that was enqueued, and the answer.
pub record Pinged : Type 0 where
  pub db : Db
  pub alert : Option AlertJob
  pub answer : Result PingError PingResult

unfoldable pub ping_event : ℕ → ℕ → Option Text → ℕ → CheckEvent
ping_event check_id now source_ip id = record {
  id = id;
  check_id = check_id;
  timestamp = now;
  status = up;
  response_time_ms = none;
  status_code = none;
  error = none;
  source_ip = source_ip;
}

abbrev pub set_up : ℕ → Check → Check
set_up now c = record c { status = up; last_event_at = some now }

unfoldable pub ping_commit : ℕ → Option Text → Check → Db → Db
unfolding ping_event create_event update_check
ping_commit now source_ip locked db =
    update_check locked.id (set_up now) (create_event (ping_event locked.id now source_ip) db)

-- The transaction: the status before it decides whether the check recovered, and the channels are
-- read after the writes.
unfoldable pub ping_transaction : ℕ → Option Text → ℕ → Db → Pinged
unfolding is_heartbeat is_down find_check ping_commit
ping_transaction now source_ip check_id db = elim (find_check check_id db) [
  | none ↦ record { db = db; alert = none; answer = err not_found }
  | some locked ↦
      let db' = ping_commit now source_ip locked db in
      let alert : AlertJob = record {
        check_id = check_id;
        kind = AlertKind.recovery;
        channel_ids = some (snapshot_selected_channel_ids db' locked);
      } in
      if is_heartbeat locked.type
      then record {
        db = db';
        alert = if is_down locked.status then some alert else none;
        answer = ok (record { recovered = is_down locked.status; check_id = check_id });
      }
      else record { db = db; alert = none; answer = err not_found }
]

unfoldable pub record_ping : Text → Option Text → (Db → Db) → ℕ → Db → Pinged
unfolding ping_transaction find_by_ping_slug
record_ping slug source_ip others now db = elim (find_by_ping_slug slug db) [
  | none ↦ record { db = db; alert = none; answer = err not_found }
  | some check ↦
      if is_heartbeat check.type
      then ping_transaction now source_ip check.id (others db)
      else record { db = db; alert = none; answer = err not_found }
]
