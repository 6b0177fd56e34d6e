-- ===== src/Monitor.antt =====
-- The monitor as a whole: pings (api/src/ping), probe results and watchdog turns (worker/src) commit
-- their transactions in any order, between changes that the API makes to checks and channels.
pub mod History
pub mod Races
use systemvitals.Base.{ℕ, ◌≡◌, Bool, true, Option, none, some, List, [], ◌∷◌}
use systemvitals.Base.Text.{Text}
use systemvitals.Schema.{Check, Db, AlertJob, AlertKind, find_check}
use systemvitals.Ping.{is_down, ping_transaction}
use systemvitals.Probe.{ProbeResult, probe_transaction}
use systemvitals.Watchdog.{Transition, down_alert, mark_down}

-- The database, and the alerts of all transitions that were committed, the newest first.
pub record World : Type 0 where
  pub db : Db
  pub history : List AlertJob

abbrev pub push : Option AlertJob → List AlertJob → List AlertJob
push none h = h
push (some a) h = a ∷ h

abbrev pub watchdog_alert : ℕ → Option Transition → Option AlertJob
watchdog_alert id none = none
watchdog_alert id (some t) = some (down_alert id t).0

-- A change by which no check becomes DOWN.
abbrev pub SetsNoDown : Db → Db → Type 0
SetsNoDown db db' =
    (j : ℕ) (c' : Check)
    → find_check j db' ≡ some c'
    → is_down c'.status ≡ true
    → (c : Check) × (find_check j db ≡ some c) × (is_down c.status ≡ true)

pub data Step : World → World → Type 0 where
  pinged :
      (w : World) (now : ℕ) (source_ip : Option Text) (id : ℕ)
      → Step w (record {
        db = (ping_transaction now source_ip id w.db).db;
        history = push (ping_transaction now source_ip id w.db).alert w.history;
      })
  probed :
      (w : World) (at now : ℕ) (r : ProbeResult) (id : ℕ)
      → Step w (record {
        db = (probe_transaction at now r id w.db).0;
        history = push (probe_transaction at now r id w.db).1 w.history;
      })
  swept :
      (w : World) (at id : ℕ)
      → Step w (record {
        db = (mark_down at id w.db).0;
        history = push (watchdog_alert id (mark_down at id w.db).1) w.history;
      })
  managed : (w : World) (db' : Db) → SetsNoDown w.db db' → Step w (record w { db = db' })

pub data Reach (s : World) : World → Type 0 where
  here : Reach s s
  next : {t u : World} → Reach s t → Step t u → Reach s u
