-- ===== src/ProbeScheduler/Laws.antt =====
-- The due checks and the jobs made of them.
use mathlib.Core.List.{append_assoc, append-nil}
use mathlib.Core.Path.{subst}
use systemvitals.Base.{
  ℕ, zero, suc, ◌+◌, ◌<◌, ◌≡◌, refl, sym, ap, ◌∙◌, ◌↔◌, ◌⊎◌, inl, inr, true, false, none, some,
  List, [], ◌∷◌, ◌++◌, map, take, arith, is_some, filter, length, In, Bool-cases, Option-cases,
}
use systemvitals.Base.Int.{ℤ, pos, ltb_ℤ, ◌+ℤ◌, millis}
use systemvitals.Schema.{Check, Db, http, tcp, paused}
use systemvitals.ProbeScheduler.{
  is_probe_candidate, due_at, DueProbe, due_probes_of, find_due_probes, ProbeJobId, probe,
  ScheduleOutcome, scheduled, was_aborted, enqueue_failed, Attempt, accepted, aborted, refused,
  enqueue_each, schedule_due_probes,
}

abbrev pub due_probe : Check → DueProbe
due_probe c = record { id = c.id; due_key = due_at c }

-- The time at which a check with an interval is due: its creation, or its last event plus the interval.
abbrev pub FallsDue : Check → ℤ → Type 0
FallsDue c time =
    (i : ℤ) × (c.interval_seconds ≡ some i)
    × (((c.last_event_at ≡ none) × (time ≡ pos c.created_at))
        ⊎ ((last : ℕ) × (c.last_event_at ≡ some last) × (time ≡ pos last +ℤ millis i)))

-- What makes a check due at `now`, from its columns, since `time`.
pub record IsDue (now : ℕ) (c : Check) (time : ℤ) : Type 0 where
  pub active : (c.type ≡ http) ⊎ (c.type ≡ tcp)
  pub running : c.status ≡ paused → ⊥
  pub falls : FallsDue c time
  pub past : ltb_ℤ time (pos now) ≡ true

due_at-FallsDue : (c : Check) → is_some c.interval_seconds ≡ true → FallsDue c (due_at c)
unfolding due_at
due_at-FallsDue c h = elim (Option-cases c.interval_seconds) [
  | inl e ↦ absurd (ground arith)
  | inr (i, e) ↦ elim (Option-cases c.last_event_at) [
    | inl k ↦ (i, e, inl (k, rw k refl))
    | inr (last, k) ↦ (i, e, inr (last, k, rw (k, e) refl))
  ]
]

FallsDue-due_at : (c : Check) (time : ℤ) → FallsDue c time → time ≡ due_at c
unfolding due_at
FallsDue-due_at c time (i, e, inl (k, t)) = rw k t
FallsDue-due_at c time (i, e, inr (last, k, t)) = rw (k, e) t

abbrev Picked : ℕ → DueProbe → List Check → Type 0
Picked now d cs =
    (c : Check) × In c cs
    × (is_probe_candidate c ≡ true)
    × (ltb_ℤ (due_at c) (pos now) ≡ true)
    × (due_probe c ≡ d)

Picked-of_In :
    (now : ℕ) (d : DueProbe) (cs : List Check)
    → In d (due_probes_of now (filter is_probe_candidate cs))
    → Picked now d cs
unfolding due_probes_of
Picked-of_In now d [] h = absurd h
Picked-of_In now d (x ∷ xs) h = elim (Bool-cases (is_probe_candidate x)) [
  | inr e ↦ let (c, m, k, l, same) = Picked-of_In now d xs (rw e at h) in (c, inr m, k, l, same)
  | inl e ↦ elim (Bool-cases (ltb_ℤ (due_at x) (pos now))) [
    | inr f ↦
        let (c, m, k, l, same) = Picked-of_In now d xs (rw (e, f) at h) in (c, inr m, k, l, same)
    | inl f ↦ elim (rw (e, f) at h) [
      | inl same ↦ (x, inl refl, e, f, same)
      | inr t ↦ let (c, m, k, l, same) = Picked-of_In now d xs t in (c, inr m, k, l, same)
    ]
  ]
]

In-of_Picked :
    (now : ℕ) (d : DueProbe) (cs : List Check)
    → Picked now d cs
    → In d (due_probes_of now (filter is_probe_candidate cs))
unfolding due_probes_of
In-of_Picked now d [] (c, m, k, l, same) = absurd m
In-of_Picked now d (x ∷ xs) (c, inl here, k, l, same) =
    let kx : is_probe_candidate x ≡ true = ap is_probe_candidate here ∙ k in
    let lx : ltb_ℤ (due_at x) (pos now) ≡ true = ap (λ y. ltb_ℤ (due_at y) (pos now)) here ∙ l in
    rw (kx, lx) (inl (ap due_probe here ∙ same))
In-of_Picked now d (x ∷ xs) (c, inr m, k, l, same) =
    let rest = In-of_Picked now d xs (c, m, k, l, same) in
    elim (Bool-cases (is_probe_candidate x)) [
      | inr e ↦ rw e rest
      | inl e ↦ elim (Bool-cases (ltb_ℤ (due_at x) (pos now))) [
        | inl f ↦ rw (e, f) (inr rest)
        | inr f ↦ rw (e, f) rest
      ]
    ]

candidate_iff :
    (c : Check)
    → (is_probe_candidate c ≡ true) ↔ (
        ((c.type ≡ http) ⊎ (c.type ≡ tcp))
        × (c.status ≡ paused → ⊥)
        × (is_some c.interval_seconds ≡ true))
unfolding is_probe_candidate
candidate_iff c = (λ h. (ground arith, (λ e. ground arith), ground arith), λ h. ground arith)

-- The due checks are exactly the HTTP and TCP checks that are not paused, have an interval, and whose
-- creation, where there was no event, or else last event plus interval, lies before `now`; each comes
-- with that time as its key.
pub find_due_probes_exact :
    (now : ℕ) (db : Db) (d : DueProbe)
    → In d (find_due_probes now db)
      ↔ ((c : Check) × In c db.checks × (c.id ≡ d.id) × IsDue now c d.due_key)
unfolding find_due_probes
find_due_probes_exact now db d = (
  (λ h.
      let (c, m, k, l, same) = Picked-of_In now d db.checks h in
      let (t, r, i) = (candidate_iff c).0 k in
      let key : due_at c ≡ d.due_key = ap (λ (x : DueProbe). x.due_key) same in
      (
        c,
        m,
        ap (λ (x : DueProbe). x.id) same,
        record {
          active = t;
          running = r;
          falls = subst (FallsDue c) key (due_at-FallsDue c i);
          past = subst (λ t. ltb_ℤ t (pos now) ≡ true) key l;
        },
      )),
  λ (c, m, id, due).
      let key : d.due_key ≡ due_at c = FallsDue-due_at c d.due_key due.falls in
      let timed : is_some c.interval_seconds ≡ true = rw due.falls.1 refl in
      In-of_Picked now d db.checks (
        c,
        m,
        (candidate_iff c).1 (due.active, due.running, timed),
        subst (λ t. ltb_ℤ t (pos now) ≡ true) key due.past,
        cc (id, key),
      ),
)

abbrev pub job_of : DueProbe → ProbeJobId
job_of d = probe d.id d.due_key

-- How a pass ends that has `sent` jobs of `due`, the first of them as number `from`: none is left, or the
-- next attempt was aborted or refused.
abbrev pub Ended : (ℕ → Attempt) → ℕ → ℕ → List DueProbe → ScheduleOutcome → Type 0
Ended attempt from sent due outcome =
    ((sent ≡ length due) × (outcome ≡ scheduled (from + sent)))
    ⊎ ((sent < length due)
        × (((attempt (from + sent) ≡ aborted) × (outcome ≡ was_aborted))
            ⊎ ((attempt (from + sent) ≡ refused) × (outcome ≡ enqueue_failed))))

-- What a pass from the job number `from` on sends, behind the `jobs` sent before.
abbrev Sends :
    (ℕ → Attempt) → ℕ → List ProbeJobId → List DueProbe → List ProbeJobId × ScheduleOutcome → Type 0
Sends attempt from jobs due r =
    (sent : ℕ) × (r.0 ≡ (jobs ++ map job_of (take sent due)))
    × ((i : ℕ) → i < sent → attempt (from + i) ≡ accepted)
    × Ended attempt from sent due r.1

Attempt-cases : (a : Attempt) → (a ≡ accepted) ⊎ (a ≡ aborted) ⊎ (a ≡ refused)
Attempt-cases accepted = inl refl
Attempt-cases aborted = inr (inl refl)
Attempt-cases refused = inr (inr refl)

Ended-suc :
    (attempt : ℕ → Attempt) (from sent : ℕ) (d : DueProbe) (due : List DueProbe)
    (o : ScheduleOutcome)
    → Ended attempt (suc from) sent due o
    → Ended attempt from (suc sent) (d ∷ due) o
Ended-suc attempt from sent d due o h =
    let same : suc from + sent ≡ from + suc sent = omega arith in
    let h' =
      subst
        (λ k.
          ((sent ≡ length due) × (o ≡ scheduled k))
          ⊎ ((sent < length due)
              × (((attempt k ≡ aborted) × (o ≡ was_aborted))
                  ⊎ ((attempt k ≡ refused) × (o ≡ enqueue_failed)))))
        same h in
    elim h' [ inl (l, e) ↦ inl (omega (arith, l), e) | inr (l, e) ↦ inr (omega (arith, l), e) ]

at_first :
    (attempt : ℕ → Attempt) (from : ℕ) (a : Attempt) → attempt from ≡ a → attempt (from + 0) ≡ a
at_first attempt from a h =
    let same : from ≡ from + 0 = omega arith in subst (λ n. attempt n ≡ a) same h

accepted_before :
    (attempt : ℕ → Attempt) (from sent : ℕ)
    → attempt from ≡ accepted
    → ((i : ℕ) → i < sent → attempt (suc from + i) ≡ accepted)
    → (i : ℕ) → i < suc sent
    → attempt (from + i) ≡ accepted
accepted_before attempt from sent h k zero l = at_first attempt from accepted h
accepted_before attempt from sent h k (suc i) l =
    let same : suc from + i ≡ from + suc i = omega arith in
    subst (λ n. attempt n ≡ accepted) same (k i (omega arith))

enqueue_each-Sends :
    (attempt : ℕ → Attempt) (from : ℕ) (jobs : List ProbeJobId) (due : List DueProbe)
    → Sends attempt from jobs due (enqueue_each attempt from due jobs)
unfolding enqueue_each
enqueue_each-Sends attempt from jobs [] = (
  0,
  sym (append-nil jobs),
  (λ i l. absurd (omega arith)),
  inl (refl, ap scheduled (omega arith)),
)
enqueue_each-Sends attempt from jobs (d ∷ ds) =
    let (sent, same, all, end) = enqueue_each-Sends attempt (suc from) (jobs ++ job_of d ∷ []) ds in
    elim (Attempt-cases (attempt from)) [
      | inl e ↦
          rw (e, enqueue_each)
            (
              suc sent,
              same ∙ append_assoc jobs (job_of d ∷ []) (map job_of (take sent ds)),
              accepted_before attempt from sent e all,
              Ended-suc attempt from sent d ds _ end,
            )
      | inr (inl e) ↦
          rw (e, enqueue_each)
            (
              0,
              sym (append-nil jobs),
              (λ i l. absurd (omega arith)),
              inr (omega arith, inl (at_first attempt from aborted e, refl)),
            )
      | inr (inr e) ↦
          rw (e, enqueue_each)
            (
              0,
              sym (append-nil jobs),
              (λ i l. absurd (omega arith)),
              inr (omega arith, inr (at_first attempt from refused e, refl)),
            )
    ]

-- A pass that is not aborted at its start enqueues the due checks in order, a first stretch of them, whose
-- attempts were all accepted. It has enqueued all of them and returns their number, or the attempt at the
-- next one was aborted or refused, which is what it throws.
pub schedule_due_probes_prefix :
    (attempt : ℕ → Attempt) (now : ℕ) (db : Db)
    → let r = schedule_due_probes false attempt now db in
      (sent : ℕ) × (r.0 ≡ map job_of (take sent (find_due_probes now db)))
      × ((i : ℕ) → i < sent → attempt i ≡ accepted)
      × Ended attempt 0 sent (find_due_probes now db) r.1
unfolding schedule_due_probes
schedule_due_probes_prefix attempt now db =
    let (sent, same, all, end) = enqueue_each-Sends attempt 0 [] (find_due_probes now db) in
    (
      sent,
      same,
      λ i l. let at : 0 + i ≡ i = omega arith in subst (λ n. attempt n ≡ accepted) at (all i l),
      end,
    )
