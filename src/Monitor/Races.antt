-- ===== src/Monitor/Races.antt =====
-- Pings against sweeps: in one order the sweep sees the ping, in the other it does not.
use mathlib.Core.Path.{subst}
use systemvitals.Base.{
  ℕ, ◌≡◌, refl, ap, ◌∙◌, true, false, Option, none, some, arith, if◌then◌else◌, or_else, is_some,
  Bool-cases, Option-cases, inl, inr,
}
use systemvitals.Base.Int.{ℤ, pos, ◌+ℤ◌, ltb_ℤ, millis}
use systemvitals.Base.Text.{Text}
use systemvitals.Schema.{Check, CheckStatus, Db, find_check, update_check, create_event}
use systemvitals.Schema.Laws.{Keyed, Keyed-update_check}
use systemvitals.Ping.{is_heartbeat, set_up, ping_event, ping_transaction}
use systemvitals.Ping.Laws.{find-ping_transaction}
use systemvitals.Watchdog.{
  cron_schedule, is_candidate, is_overdue, has_cadence, is_sweepable, set_down, mark_down, Turn,
  sweep_overdue,
}
use systemvitals.Watchdog.Guard.{mark_down_hit}
use systemvitals.Watchdog.Sweep.{IsQuiet, after_sweep, sweep_exact}

Keyed-ping_transaction :
    (now : ℕ) (ip : Option Text) (id : ℕ) (db : Db)
    → Keyed db
    → Keyed (ping_transaction now ip id db).db
unfolding ping_transaction
Keyed-ping_transaction now ip id db keyed = elim (Option-cases (find_check id db)) [
  | inl e ↦
      let same : db ≡ (ping_transaction now ip id db).db = ground (arith, e) in
      subst Keyed same keyed
  | inr (c, e) ↦ elim (Bool-cases (is_heartbeat c.type)) [
    | inl beat ↦
        let logged = create_event (ping_event c.id now ip) db in
        let same : update_check c.id (set_up now) logged ≡ (ping_transaction now ip id db).db =
          ground (arith, e, beat) in
        subst Keyed same (Keyed-update_check c.id (set_up now) logged (λ d. refl) keyed)
    | inr other ↦
        let same : db ≡ (ping_transaction now ip id db).db = ground (arith, e, other) in
        subst Keyed same keyed
  ]
]

overdue-set_up :
    (next_cron_fire : Text → Text → ℕ → Option ℕ) (c : Check) (p : ℤ) (now later : ℕ)
    → cron_schedule c.schedule ≡ none
    → c.period_seconds ≡ some p
    → is_overdue next_cron_fire later (set_up now c)
      ≡ ltb_ℤ (pos now +ℤ millis (p +ℤ or_else c.grace_seconds (pos 0))) (pos later)
unfolding is_overdue
overdue-set_up fire c p now later s e = ground arith

after :
    (next_cron_fire : Text → Text → ℕ → Option ℕ) (c : Check) (p : ℤ) (now later : ℕ)
    → cron_schedule c.schedule ≡ none
    → c.period_seconds ≡ some p
    → after_sweep next_cron_fire later (set_up now c) ≡ (
        if ltb_ℤ (pos now +ℤ millis (p +ℤ or_else c.grace_seconds (pos 0))) (pos later)
        then record c { status = CheckStatus.down; last_event_at = some now }
        else set_up now c)
unfolding is_candidate
after fire c p now later cron period = rw (overdue-set_up fire c p now later cron period, period)

-- A heartbeat check with a period and no cron schedule is pinged at `now` and the watchdog sweeps at
-- `later`, with nothing in between: the check stays UP exactly until its period and grace have run
-- out, and is DOWN after that.
pub ping_then_sweep :
    (next_cron_fire : Text → Text → ℕ → Option ℕ) (turns : ℕ → Turn) (now later : ℕ)
    (source_ip : Option Text) (db : Db) (c : Check) (p : ℤ)
    → ((k : ℕ) → IsQuiet (turns k))
    → Keyed db
    → find_check c.id db ≡ some c
    → is_heartbeat c.type ≡ true
    → cron_schedule c.schedule ≡ none
    → c.period_seconds ≡ some p
    → find_check c.id
        (sweep_overdue next_cron_fire false turns later
          (ping_transaction now source_ip c.id db).db).db
      ≡ some (
          if ltb_ℤ (pos now +ℤ millis (p +ℤ or_else c.grace_seconds (pos 0))) (pos later)
          then record c { status = CheckStatus.down; last_event_at = some now }
          else set_up now c)
ping_then_sweep fire turns now later ip db c p quiet keyed found beat cron period =
    let pinged = (ping_transaction now ip c.id db).db in
    let row : find_check c.id pinged ≡ some (set_up now c) =
      ground (arith, found, find-ping_transaction now ip c.id c.id db) in
    sweep_exact fire later turns pinged c.id quiet (Keyed-ping_transaction now ip c.id db keyed)
    ∙ rw row (ap some (after fire c p now later cron period))

-- The other order. A sweep picks its checks before it locks them one by one. A ping that commits
-- between the two leaves its check UP with a new `last_event_at`, and the turn marks the check DOWN
-- all the same, with a missed heartbeat alert: the guard under the lock reads the status and the
-- cadence, and not the time of the last event.
pub sweep_overtakes_ping :
    (at now : ℕ) (source_ip : Option Text) (db : Db) (c : Check)
    → find_check c.id db ≡ some c
    → is_heartbeat c.type ≡ true
    → has_cadence c ≡ true
    → let pinged = (ping_transaction now source_ip c.id db).db in
      (find_check c.id (mark_down at c.id pinged).0 ≡ some (set_down (set_up now c)))
      × (is_some (mark_down at c.id pinged).1 ≡ true)
sweep_overtakes_ping at now ip db c found beat cadence =
    let pinged = (ping_transaction now ip c.id db).db in
    let row : find_check c.id pinged ≡ some (set_up now c) =
      ground (arith, found, find-ping_transaction now ip c.id c.id db) in
    let h =
      mark_down_hit at c.id pinged (set_up now c) row (unfold is_sweepable in refl)
        (unfold has_cadence in cadence) in
    (h.2, ground (arith, h.0))
