-- ===== src/Watchdog/Accounts.antt =====
-- The alerts of a sweep against the events that it writes, also when it is aborted or the queue
-- refuses an alert.
use systemvitals.Base.{
  ℕ, suc, ◌+◌, ◌≡◌, refl, Bool, true, false, Option, none, some, List, [], ◌∷◌, ◌++◌, arith, length,
  length-append, Bool-cases, Option-cases, inl, inr,
}
use systemvitals.Base.Text.{Text}
use systemvitals.Base.Result.{Result, ok, err}
use systemvitals.Schema.{Check, Db, AlertJob}
use systemvitals.Watchdog.{
  missed_heartbeat, mark_down, down_alert, JobId, Turn, Swept, SweepError, was_aborted,
  enqueue_failed, sweep_turn, sweep_each, sweep_overdue, overdue_checks,
}

-- How many alerts the caller is told of, and how many committed transitions have none.
abbrev pub reported : Result SweepError ℕ → ℕ → ℕ
reported (ok n) k = n
reported (err e) k = k

abbrev pub stranded : Result SweepError ℕ → ℕ
stranded (ok n) = 0
stranded (err was_aborted) = 0
stranded (err enqueue_failed) = 1

abbrev pub IsAlone : Turn → Type 0
IsAlone t = (db : Db) → t.others db ≡ db

-- The events that a transaction writes: one with a transition, none without.
events-mark_down :
    (at id : ℕ) (db : Db)
    → length (mark_down at id db).0.events
      ≡ length db.events + elim (mark_down at id db).1 [ none ↦ 0 | some t ↦ 1 ]
unfolding mark_down
events-mark_down at id db =
    ground (arith, length-append db.events (missed_heartbeat id at db.next_event_id ∷ []))

-- From `db` with `alerts` already sent, the outcome `r` accounts for every event written since.
pub record Accounts (db : Db) (alerts : List (AlertJob × JobId)) (r : Swept) : Type 0 where
  pub balanced :
      length r.db.events + length alerts ≡ length db.events + length r.alerts + stranded r.outcome
  pub counted : reported r.outcome (length r.alerts) ≡ length r.alerts

sweep_turn-Accounts :
    (turn : Turn) (c : Check) (rest : Db → List (AlertJob × JobId) → ℕ → Swept) (db : Db)
    (alerts : List (AlertJob × JobId)) (n : ℕ)
    → IsAlone turn
    → n ≡ length alerts
    → ((db' : Db) (sent : List (AlertJob × JobId)) (m : ℕ)
        → m ≡ length sent
        → Accounts db' sent (rest db' sent m))
    → Accounts db alerts (sweep_turn turn c rest db alerts n)
unfolding sweep_turn
sweep_turn-Accounts turn c rest db alerts n alone same follow =
    rw (alone db) (elim (Bool-cases turn.aborted) [
      | inl a ↦ rw a (record { balanced = omega arith; counted = refl })
      | inr a ↦ rw a (elim (Option-cases (mark_down turn.at c.id db).1) [
        | inl e ↦
            let h = follow (mark_down turn.at c.id db).0 alerts n same in
            rw (e, alone db)
              (record {
                balanced = ground (arith, e, h.balanced, events-mark_down turn.at c.id db);
                counted = h.counted;
              })
        | inr (t, e) ↦
            let db' = (mark_down turn.at c.id db).0 in
            let sent = alerts ++ down_alert c.id t ∷ [] in
            let one = events-mark_down turn.at c.id db in
            let more = length-append alerts (down_alert c.id t ∷ []) in
            rw (e, alone db)
              (elim (Bool-cases turn.enqueue_fails) [
                | inl f ↦ rw f (record { balanced = ground (arith, e, one); counted = refl })
                | inr f ↦
                    let h = follow db' sent (n + 1) (omega (arith, more)) in
                    rw f (record {
                      balanced = ground (arith, e, h.balanced, one, more);
                      counted = h.counted;
                    })
              ])
      ])
    ])

sweep_each-Accounts :
    (turns : ℕ → Turn) (k : ℕ) (cs : List Check) (db : Db) (alerts : List (AlertJob × JobId))
    (n : ℕ)
    → ((i : ℕ) → IsAlone (turns i))
    → n ≡ length alerts
    → Accounts db alerts (sweep_each turns k cs db alerts n)
unfolding sweep_each
sweep_each-Accounts turns k [] db alerts n alone same = record {
  balanced = omega arith;
  counted = same;
}
sweep_each-Accounts turns k (c ∷ cs) db alerts n alone same =
    sweep_turn-Accounts (turns k) c (sweep_each turns (suc k) cs) db alerts n (alone k) same
      λ db' sent m e. sweep_each-Accounts turns (suc k) cs db' sent m alone e

-- When nobody else writes meanwhile, a sweep that returns `n` has sent `n` alerts and written `n`
-- events; one that is aborted has an alert for every event that it wrote; and one that the queue
-- refuses has written exactly one event more than it sent alerts.
pub sweep_accounts :
    (next_cron_fire : Text → Text → ℕ → Option ℕ) (start_aborted : Bool) (turns : ℕ → Turn)
    (now : ℕ) (db : Db)
    → ((k : ℕ) → IsAlone (turns k))
    → let r = sweep_overdue next_cron_fire start_aborted turns now db in
      (length r.db.events ≡ length db.events + length r.alerts + stranded r.outcome)
      × (reported r.outcome (length r.alerts) ≡ length r.alerts)
unfolding sweep_overdue
sweep_accounts next_cron_fire true turns now db alone = (omega arith, refl)
sweep_accounts next_cron_fire false turns now db alone =
    let h = sweep_each-Accounts turns 0 (overdue_checks next_cron_fire now db) db [] 0 alone refl in
    (omega (arith, h.balanced), h.counted)
