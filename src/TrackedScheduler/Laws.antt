-- ===== src/TrackedScheduler/Laws.antt =====
-- What holds of a scheduler after any calls, in any order.
use mathlib.Core.Path.{subst}
use systemvitals.Base.{
  ℕ, ◌≡◌, ◌⊎◌, All-map, inl, inr, refl, sym, Bool, true, false, not, none, List, [], ◌∷◌, ◌++◌, map,
  arith, ◌==◌, filter, All, Bool-cases, if◌then◌else◌, any, elem, ==_refl,
}
use systemvitals.TrackedScheduler.{
  Run, Scheduler, run, settle, abort, stop, Step, runs, settles, stops, Steps, here, next,
}

All-filter :
    {A : Type 0} (P : A → Type 0) (p : A → Bool) (xs : List A) → All P xs → All P (filter p xs)
All-filter P p [] h = tt
All-filter P p (x ∷ xs) h = elim (Bool-cases (p x)) [
  | inl e ↦ rw e (h.0, All-filter P p xs h.1)
  | inr e ↦ rw e (All-filter P p xs h.1)
]

All-abort : (rs : List Run) → All (λ r. r.aborted ≡ true) (map abort rs)
unfolding abort
All-abort [] = tt
All-abort (r ∷ rs) = (refl, All-abort rs)

All-append_one :
    {A : Type 0} (P : A → Type 0) (xs : List A) (a : A) → All P xs → P a → All P (xs ++ a ∷ [])
All-append_one P [] a h k = (k, tt)
All-append_one P (x ∷ xs) a h k = (h.0, All-append_one P xs a h.1 k)

-- A scheduler that stops has only aborted runs, each of which was already there.
abbrev pub IsStopped : List ℕ → Scheduler → Type 0
IsStopped ids s =
    (s.stopping ≡ true)
    × All (λ r. r.aborted ≡ true) s.active_runs
    × All (λ r. elem r.id ids ≡ true) s.active_runs

All-abort_ids :
    (ids : List ℕ) (rs : List Run)
    → All (λ r. elem r.id ids ≡ true) rs
    → All (λ r. elem r.id ids ≡ true) (map abort rs)
unfolding abort
All-abort_ids ids [] h = tt
All-abort_ids ids (r ∷ rs) h = (h.0, All-abort_ids ids rs h.1)

if-true : {A : Type 0} (b : Bool) (x y : A) → b ≡ true → (if b then x else y) ≡ x
if-true true x y h = refl
if-true false x y h = ground arith

run-stopping : (s : Scheduler) → s.stopping ≡ true → run s ≡ (s, none)
unfolding run
run-stopping s h = if-true s.stopping (s, none) _ h

IsStopped-step : (ids : List ℕ) {s t : Scheduler} → Step s t → IsStopped ids s → IsStopped ids t
unfolding settle stop
IsStopped-step ids (runs s) q = subst (λ x. IsStopped ids x.0) (sym (run-stopping s q.0)) q
IsStopped-step ids (settles s r) (a, b, c) = (
  a,
  All-filter (λ x. x.aborted ≡ true) (λ x. not (x.id == r.id)) s.active_runs b,
  All-filter (λ x. elem x.id ids ≡ true) (λ x. not (x.id == r.id)) s.active_runs c,
)
IsStopped-step ids (stops s) (a, b, c) =
    (refl, All-abort s.active_runs, All-abort_ids ids s.active_runs c)

IsStopped-Steps : (ids : List ℕ) {s t : Scheduler} → Steps s t → IsStopped ids s → IsStopped ids t
IsStopped-Steps ids here q = q
IsStopped-Steps ids (next path step) q = IsStopped-step ids step (IsStopped-Steps ids path q)

elem-weaken :
    (i : ℕ) (ids : List ℕ) (rs : List Run)
    → All (λ r. elem r.id ids ≡ true) rs
    → All (λ r. elem r.id (i ∷ ids) ≡ true) rs
elem-weaken i ids [] h = tt
elem-weaken i ids (r ∷ rs) h = (ground arith, elem-weaken i ids rs h.1)

All-own : (rs : List Run) → All (λ r. elem r.id (map (λ x. x.id) rs) ≡ true) rs
All-own [] = tt
All-own (r ∷ rs) = (rw (==_refl r.id) refl, elem-weaken r.id (map (λ x. x.id) rs) rs (All-own rs))

-- The keys of the runs that `stop` waits for.
abbrev pub awaited : Scheduler → List ℕ
awaited s = map (λ r. r.id) (stop s).1

-- After a stop, whatever is called and whatever settles: the scheduler goes on stopping, no run starts,
-- and the runs that are left are aborted and among those that the stop waits for.
pub stop_is_final : (s t : Scheduler) → Steps (stop s).0 t → IsStopped (awaited s) t
unfolding stop
stop_is_final s t path =
    IsStopped-Steps (awaited s) path
      (refl, All-abort s.active_runs, All-own (map abort s.active_runs))

still_there :
    (ids : List ℕ) (r : Run) (rs : List Run)
    → elem r.id ids ≡ true
    → All (λ i. any (λ x. x.id == i) (r ∷ rs) ≡ false) ids
    → ⊥
still_there [] r rs h k = ground arith
still_there (i ∷ ids) r rs h k = elim (Bool-cases (r.id == i)) [
  | inl e ↦ ground arith
  | inr e ↦ still_there ids r rs (ground arith) k.1
]

drained :
    (ids : List ℕ) (rs : List Run)
    → All (λ r. elem r.id ids ≡ true) rs
    → All (λ i. any (λ r. r.id == i) rs ≡ false) ids
    → rs ≡ []
drained ids [] h k = refl
drained ids (r ∷ rs) h k = absurd (still_there ids r rs h.0 k)

-- The run with the key `i` settles in a step, or somewhere on a path.
abbrev pub SettlesIn : ℕ → {s t : Scheduler} → Step s t → Type 0
SettlesIn i (runs s) = ⊥
SettlesIn i (settles s r) = r.id ≡ i
SettlesIn i (stops s) = ⊥

abbrev pub Settles : ℕ → {s t : Scheduler} → Steps s t → Type 0
Settles i here = ⊥
Settles i (next path step) = Settles i path ⊎ SettlesIn i step

abbrev IsAbsent : ℕ → Scheduler → Type 0
IsAbsent i s = any (λ r. r.id == i) s.active_runs ≡ false

absent-filter :
    (i : ℕ) (p : Run → Bool) (rs : List Run)
    → any (λ r. r.id == i) rs ≡ false
    → any (λ r. r.id == i) (filter p rs) ≡ false
absent-filter i p [] h = refl
absent-filter i p (r ∷ rs) h = ground (arith, absent-filter i p rs)

absent-settled :
    (i : ℕ) (rs : List Run) → any (λ r. r.id == i) (filter (λ x. not (x.id == i)) rs) ≡ false
absent-settled i [] = refl
absent-settled i (r ∷ rs) = ground (arith, absent-settled i rs)

absent-abort :
    (i : ℕ) (rs : List Run)
    → any (λ r. r.id == i) rs ≡ false
    → any (λ r. r.id == i) (map abort rs) ≡ false
unfolding abort
absent-abort i [] h = refl
absent-abort i (r ∷ rs) h = ground (arith, absent-abort i rs)

-- In a scheduler that stops, a run that is gone does not come back, and one that settles goes.
IsAbsent-step :
    (i : ℕ) {s t : Scheduler} (step : Step s t)
    → s.stopping ≡ true
    → IsAbsent i s ⊎ SettlesIn i step
    → IsAbsent i t
unfolding settle stop
IsAbsent-step i (runs s) q (inl h) = subst (λ x. IsAbsent i x.0) (sym (run-stopping s q)) h
IsAbsent-step i (runs s) q (inr h) = absurd h
IsAbsent-step i (settles s r) q (inl h) = absent-filter i (λ x. not (x.id == r.id)) s.active_runs h
IsAbsent-step i (settles s r) q (inr h) =
    subst (λ k. any (λ r. r.id == i) (filter (λ (x : Run). not (x.id == k)) s.active_runs) ≡ false)
      (sym h) (absent-settled i s.active_runs)
IsAbsent-step i (stops s) q (inl h) = absent-abort i s.active_runs h
IsAbsent-step i (stops s) q (inr h) = absurd h

settled-IsAbsent :
    (ids : List ℕ) (i : ℕ) {s t : Scheduler} (path : Steps s t)
    → IsStopped ids s
    → Settles i path
    → IsAbsent i t
settled-IsAbsent ids i here q h = absurd h
settled-IsAbsent ids i (next path step) q (inl h) =
    IsAbsent-step i step (IsStopped-Steps ids path q).0 (inl (settled-IsAbsent ids i path q h))
settled-IsAbsent ids i (next path step) q (inr h) =
    IsAbsent-step i step (IsStopped-Steps ids path q).0 (inr h)

-- Once every run that a stop waits for has settled, in any order and whatever else is called, nothing
-- runs: no run is started meanwhile, and a run that settles is struck out.
pub stop_drains :
    (s t : Scheduler) (path : Steps (stop s).0 t)
    → All (λ i. Settles i path) (awaited s)
    → t.active_runs ≡ []
unfolding stop
stop_drains s t path settled =
    let stopped : IsStopped (awaited s) (stop s).0 =
      (refl, All-abort s.active_runs, All-own (map abort s.active_runs)) in
    drained (awaited s) t.active_runs (stop_is_final s t path).2 (
      All-map (λ i. Settles i path) (λ i. any (λ r. r.id == i) t.active_runs ≡ false)
        (λ i h. settled-IsAbsent (awaited s) i path stopped h) (awaited s) settled)
