-- ===== src/Tests/Scheduler.antt =====
-- Two runs, a stop, and the runs settling.
use systemvitals.Base.{inl, inr, ◌≡◌, refl, false, [], ◌∷◌}
use systemvitals.TrackedScheduler.{
  Scheduler, Run, Steps, here, next, settles, runs, settle, run, stop,
}
use systemvitals.TrackedScheduler.Laws.{IsStopped, awaited, stop_is_final, stop_drains}

abbrev first : Run
first = record { id = 0; aborted = false }

abbrev second : Run
second = record { id = 1; aborted = false }

abbrev busy : Scheduler
busy = record { active_runs = first ∷ second ∷ []; stopping = false; next_id = 2 }

abbrev later : Scheduler
later = settle second (settle first (run (stop busy).0).0)

abbrev later-Steps : Steps (stop busy).0 later
later-Steps =
    next (next (next here (runs (stop busy).0)) (settles (run (stop busy).0).0 first))
      (settles (settle first (run (stop busy).0).0) second)

stop_is_final_example : IsStopped (awaited busy) later
stop_is_final_example = stop_is_final busy later later-Steps

stop_drains_example : later.active_runs ≡ []
unfolding settle run stop
stop_drains_example = stop_drains busy later later-Steps (inl (inr refl), (inr refl, tt))
