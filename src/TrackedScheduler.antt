-- ===== src/TrackedScheduler.antt =====
-- worker/src/tracked-scheduler.ts: the runs of a scheduler and its stop. A run is a task with an abort
-- controller; what the tasks do is left open, only that they settle one at a time.
pub mod Laws
use systemvitals.Base.{
  ℕ, suc, ◌≡◌, Bool, true, false, ◌&&◌, not, Option, none, some, List, [], ◌∷◌, ◌++◌, map, ◌==◌,
  find, filter, if◌then◌else◌,
}

pub record Run : Type 0 where
  pub id : ℕ
  pub aborted : Bool

pub record Scheduler : Type 0 where
  pub active_runs : List Run
  pub stopping : Bool
  pub next_id : ℕ

abbrev pub initial : Scheduler
initial = record { active_runs = []; stopping = false; next_id = 0 }

-- How a task ends: the error, and whether it is the reason of the run's own signal.
pub data Outcome : Type 0 where
  fulfilled : Outcome
  rejected : ℕ → Bool → Outcome

-- `run`: the new run, unless the scheduler stops.
unfoldable pub run : Scheduler → Scheduler × Option Run
run s =
    let r : Run = record { id = s.next_id; aborted = false } in
    if s.stopping
    then (s, none)
    else (record s { active_runs = s.active_runs ++ r ∷ []; next_id = suc s.next_id }, some r)

-- The rejection handler: the error that is reported, if any.
unfoldable pub reported : Run → Outcome → Option ℕ
reported r fulfilled = none
reported r (rejected error is_reason) = if r.aborted && is_reason then none else some error

-- `this.activeRuns.delete(run)`, when the run has settled.
unfoldable pub settle : Run → Scheduler → Scheduler
settle r s = record s { active_runs = filter (λ x. not (x.id == r.id)) s.active_runs }

unfoldable pub abort : Run → Run
abort r = record r { aborted = true }

-- `stop` up to its wait: the runs that it waits for.
unfoldable pub stop : Scheduler → Scheduler × List Run
unfolding abort
stop s =
    let runs = map abort s.active_runs in (record s { stopping = true; active_runs = runs }, runs)

-- What may happen to a scheduler, one call or one settled task at a time.
pub data Step : Scheduler → Scheduler → Type 0 where
  runs : (s : Scheduler) → Step s (run s).0
  settles : (s : Scheduler) (r : Run) → Step s (settle r s)
  stops : (s : Scheduler) → Step s (stop s).0

pub data Steps (s : Scheduler) : Scheduler → Type 0 where
  here : Steps s s
  next : {t u : Scheduler} → Steps s t → Step t u → Steps s u
