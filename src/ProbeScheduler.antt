-- ===== src/ProbeScheduler.antt =====
-- worker/src/probe-scheduler.ts: which active checks are due, and the jobs that are enqueued.
pub mod Laws
use systemvitals.Base.{
  ℕ, zero, suc, ◌+◌, Bool, true, false, ◌&&◌, not, Option, none, some, List, [], ◌∷◌, ◌++◌,
  if◌then◌else◌, is_some, or_else, filter,
}
use systemvitals.Base.Int.{ℤ, pos, ◌+ℤ◌, ltb_ℤ, millis}
use systemvitals.Schema.{Check, Db}
use systemvitals.Probe.{is_active, is_paused}

-- The `where` of the query.
unfoldable pub is_probe_candidate : Check → Bool
unfolding is_active is_paused
is_probe_candidate c = is_active c.type && not (is_paused c.status) && is_some c.interval_seconds

-- When the check's next probe is due. A candidate has an interval, so `pos 0` does not arise.
unfoldable pub due_at : Check → ℤ
unfolding ◌+ℤ◌
due_at c = elim c.last_event_at [
  | none ↦ pos c.created_at
  | some last ↦ pos last +ℤ millis (or_else c.interval_seconds (pos 0))
]

-- `dueKey` is the decimal text of `due_at`; the model keeps the number.
pub record DueProbe : Type 0 where
  pub id : ℕ
  pub due_key : ℤ

unfoldable pub due_probes_of : ℕ → List Check → List DueProbe
unfolding due_at
due_probes_of now [] = []
due_probes_of now (c ∷ cs) =
    let rest = due_probes_of now cs in
    if ltb_ℤ (due_at c) (pos now) then record { id = c.id; due_key = due_at c } ∷ rest else rest

unfoldable pub find_due_probes : ℕ → Db → List DueProbe
unfolding is_probe_candidate due_probes_of
find_due_probes now db = due_probes_of now (filter is_probe_candidate db.checks)

-- `probe-<checkId>-<dueKey>`
pub data ProbeJobId : Type 0 where
  probe : (check_id : ℕ) (due_key : ℤ) → ProbeJobId

pub data ScheduleOutcome : Type 0 where
  scheduled : ℕ → ScheduleOutcome
  was_aborted enqueue_failed : ScheduleOutcome

-- What meets the job numbered `k`: an aborted signal, a queue that refuses, or neither.
pub data Attempt : Type 0 where
  accepted aborted refused : Attempt

unfoldable pub enqueue_each :
    (ℕ → Attempt) → ℕ → List DueProbe → List ProbeJobId → List ProbeJobId × ScheduleOutcome
enqueue_each attempt k [] jobs = (jobs, scheduled k)
enqueue_each attempt k (d ∷ ds) jobs =
    let rest = enqueue_each attempt (suc k) ds (jobs ++ probe d.id d.due_key ∷ []) in
    elim (attempt k) [
      | accepted ↦ rest
      | aborted ↦ (jobs, was_aborted)
      | refused ↦ (jobs, enqueue_failed)
    ]

-- `start_aborted`: the signal is aborted before or right after the due checks are read.
unfoldable pub schedule_due_probes :
    Bool → (ℕ → Attempt) → ℕ → Db → List ProbeJobId × ScheduleOutcome
unfolding enqueue_each find_due_probes
schedule_due_probes start_aborted attempt now db =
    if start_aborted then ([], was_aborted) else enqueue_each attempt 0 (find_due_probes now db) []
