-- ===== src/CheckUpdate/Shape.antt =====
-- The columns of each mode, and what the two modes of api/src/checks/check-update.ts make of a row.
use systemvitals.Base.{
  ◌≡◌, refl, ◌⊎◌, inl, inr, Bool, true, false, ◌&&◌, ◌||◌, not, Option, none, some, arith,
  if◌then◌else◌, is_some, Bool-cases,
}
use systemvitals.Base.Int.{ℤ}
use systemvitals.Base.Text.{Text, codes, truthy, starts_with}
use systemvitals.Base.Result.{
  Accepts, Accepts-guard, Accepts-require, Accepts-if, Accepts->>=, Accepts-require,
}
use systemvitals.Schema.{Check, CheckType, heartbeat, http, tcp, ping, new}
use systemvitals.CheckUpdate.Formats.{is_valid_tcp_target}
use systemvitals.CheckUpdate.{with_target, resolved_active, resolve_active, apply_update, is_http}
use systemvitals.CheckUpdate.Heartbeat.{
  resolve_cadence, restart, with_cron, with_period, with_cadence, resolve_heartbeat,
}
use systemvitals.CheckUpdate.Fields.{
  CronLib, min_cron_gap_seconds, CheckUpdateInput, CheckUpdateData, pick, non_empty, or_text,
}

-- A heartbeat check has a period, or a cron schedule with its zone, never both.
abbrev pub HasPeriod : Check → Type 0
HasPeriod c = (is_some c.period_seconds ≡ true) × (c.schedule ≡ none) × (c.tz ≡ none)

abbrev pub HasCron : CronLib → Check → Type 0
HasCron lib c =
    (c.period_seconds ≡ none)
    × ((s : Text) × (c.schedule ≡ some s) × (truthy s ≡ true) × (lib.is_valid_cron s ≡ true))
    × ((z : Text) × (c.tz ≡ some z) × (truthy z ≡ true) × (lib.is_valid_tz z ≡ true))

pub record IsHeartbeatRow (lib : CronLib) (c : Check) : Type 0 where
  pub type : c.type ≡ heartbeat
  pub cadence : HasPeriod c ⊎ HasCron lib c
  pub grace : is_some c.grace_seconds ≡ true
  pub no_target : c.target ≡ none
  pub no_method : c.method ≡ none
  pub no_expected_status : c.expected_status ≡ none
  pub no_interval : c.interval_seconds ≡ none
  pub no_timeout : c.timeout_ms ≡ none

-- A target that the type of the check accepts.
abbrev pub FitsType : CheckType → Text → Type 0
FitsType http t = (starts_with t (codes "http://") || starts_with t (codes "https://")) ≡ true
FitsType tcp t = is_valid_tcp_target t ≡ true
FitsType _ t = ⊥

pub record IsActiveRow (c : Check) : Type 0 where
  pub target : (t : Text) × (c.target ≡ some t) × (truthy t ≡ true) × FitsType c.type t
  pub interval : is_some c.interval_seconds ≡ true
  pub timeout : is_some c.timeout_ms ≡ true
  pub method : is_some c.method ≡ is_http c.type
  pub no_period : c.period_seconds ≡ none
  pub no_grace : c.grace_seconds ≡ none
  pub no_schedule : c.schedule ≡ none
  pub no_tz : c.tz ≡ none

abbrev pub HasShape : CronLib → CheckType → Check → Type 0
HasShape lib heartbeat c = IsHeartbeatRow lib c
HasShape lib http c = IsActiveRow c
HasShape lib tcp c = IsActiveRow c
HasShape lib ping c = ⊥

-- The data that both modes start from.
pub record IsBlank (d : CheckUpdateData) : Type 0 where
  pub status : d.status ≡ none
  pub last_event_at : d.last_event_at ≡ none
  pub period_seconds : d.period_seconds ≡ none
  pub grace_seconds : d.grace_seconds ≡ none
  pub schedule : d.schedule ≡ none
  pub tz : d.tz ≡ none
  pub target : d.target ≡ none
  pub method : d.method ≡ none
  pub expected_status : d.expected_status ≡ none
  pub interval_seconds : d.interval_seconds ≡ none
  pub timeout_ms : d.timeout_ms ≡ none

-- The status and the last event after an edit: a check that becomes a heartbeat check starts anew.
abbrev pub Restarts : Bool → CheckUpdateData → Check → Type 0
Restarts fresh d c =
    ((apply_update d c).status ≡ (if fresh then new else c.status))
    × ((apply_update d c).last_event_at ≡ (if fresh then none else c.last_event_at))

non_empty-truthy : (o : Option Text) (t : Text) → non_empty o ≡ some t → truthy t ≡ true
non_empty-truthy none t h = ground arith
non_empty-truthy (some s) t h = elim (Bool-cases (truthy s)) [
  | inl e ↦ ground arith
  | inr e ↦ ground arith
]

module _ (lib : CronLib) (c : Check) where
  restart-IsHeartbeatRow :
      (conv : Bool) (e : CheckUpdateData)
      → IsHeartbeatRow lib (apply_update e c)
      → e.status ≡ none
      → e.last_event_at ≡ none
      → IsHeartbeatRow lib (apply_update (restart conv e) c) × Restarts conv (restart conv e) c
  unfolding apply_update restart
  restart-IsHeartbeatRow true e h s l = (
    record {
      type = h.type;
      cadence = h.cadence;
      grace = h.grace;
      no_target = h.no_target;
      no_method = h.no_method;
      no_expected_status = h.no_expected_status;
      no_interval = h.no_interval;
      no_timeout = h.no_timeout;
    },
    (refl, refl),
  )
  restart-IsHeartbeatRow false e h s l = (h, (rw s refl, rw l refl))

module _ (lib : CronLib) (c : Check) (d : CheckUpdateData) (blank : IsBlank d) where
  with_period-IsHeartbeatRow :
      (conv : Bool) (g p : ℤ)
      → d.type ≡ heartbeat
      → IsHeartbeatRow lib (apply_update (with_period c d conv g p).update c)
        × Restarts conv (with_period c d conv g p).update c
  unfolding with_period apply_update
  with_period-IsHeartbeatRow conv g p ht =
      restart-IsHeartbeatRow lib c conv
        (record d { grace_seconds = some g; period_seconds = some p })
        (record {
          type = ht;
          cadence = inl (refl, blank.schedule, blank.tz);
          grace = refl;
          no_target = blank.target;
          no_method = blank.method;
          no_expected_status = blank.expected_status;
          no_interval = blank.interval_seconds;
          no_timeout = blank.timeout_ms;
        })
        blank.status blank.last_event_at

  cron_row :
      (g : ℤ) (expr zone : Text)
      → truthy expr ≡ true
      → lib.is_valid_cron expr ≡ true
      → truthy zone ≡ true
      → lib.is_valid_tz zone ≡ true
      → d.type ≡ heartbeat
      → IsHeartbeatRow lib (
          apply_update
            (record d { grace_seconds = some g; schedule = some expr; tz = some zone })
            c)
  unfolding apply_update
  cron_row g expr zone te ve tz vz ht = record {
    type = ht;
    cadence = inr (blank.period_seconds, (expr, refl, te, ve), (zone, refl, tz, vz));
    grace = refl;
    no_target = blank.target;
    no_method = blank.method;
    no_expected_status = blank.expected_status;
    no_interval = blank.interval_seconds;
    no_timeout = blank.timeout_ms;
  }

  or_text-truthy : (o : Option Text) → truthy (or_text o (codes "UTC")) ≡ true
  or_text-truthy none = refl
  or_text-truthy (some s) = elim (Bool-cases (truthy s)) [
    | inl e ↦ rw (e, e) refl
    | inr e ↦ rw e refl
  ]

  with_cron-IsHeartbeatRow :
      (conv : Bool) (input : CheckUpdateInput) (g : ℤ) (expr : Text)
      → truthy expr ≡ true
      → d.type ≡ heartbeat
      → Accepts
          (λ r. IsHeartbeatRow lib (apply_update r.update c) × Restarts conv r.update c)
          (with_cron lib c input d conv g expr)
  unfolding with_cron
  with_cron-IsHeartbeatRow conv input g expr t ht =
      Accepts-guard _ (lib.is_valid_cron expr) _ _ λ ve.
        Accepts-guard _ (lib.is_valid_tz (or_text (pick input.tz c.tz conv) (codes "UTC"))) _ _
          λ vz.
            Accepts-require _
              (min_cron_gap_seconds lib expr (or_text (pick input.tz c.tz conv) (codes "UTC"))) _ _
              λ gap eg.
                restart-IsHeartbeatRow lib c conv
                  (record d {
                    grace_seconds = some g;
                    schedule = some expr;
                    tz = some (or_text (pick input.tz c.tz conv) (codes "UTC"));
                  })
                  (cron_row g expr _ t ve (or_text-truthy (pick input.tz c.tz conv)) vz ht)
                  blank.status blank.last_event_at

  with_target-IsActiveRow :
      (conv : Bool) (input : CheckUpdateInput) (target : Text) (i t : ℤ)
      → (d.type ≡ http) ⊎ (d.type ≡ tcp)
      → truthy target ≡ true
      → Accepts
          (λ r.
            IsActiveRow (apply_update r.update c)
            × Restarts false r.update c
            × (r.update.type ≡ d.type))
          (with_target c input d conv target i t)
  unfolding with_target apply_update resolved_active
  with_target-IsActiveRow conv input target i t (inl a) e = rw a (
      Accepts-if _ (starts_with target (codes "http://") || starts_with target (codes "https://")) _
        _
        (λ u. (
          record {
            target = (target, refl, e, u);
            interval = refl;
            timeout = refl;
            method = refl;
            no_period = blank.period_seconds;
            no_grace = blank.grace_seconds;
            no_schedule = blank.schedule;
            no_tz = blank.tz;
          },
          (rw (blank.status) refl, rw (blank.last_event_at) refl),
          refl,
        ))
        (λ u. tt))
  with_target-IsActiveRow conv input target i t (inr a) e = rw a (
      Accepts-if _ (is_valid_tcp_target target) _ _
        (λ u. (
          record {
            target = (target, refl, e, u);
            interval = refl;
            timeout = refl;
            method = rw (blank.method) refl;
            no_period = blank.period_seconds;
            no_grace = blank.grace_seconds;
            no_schedule = blank.schedule;
            no_tz = blank.tz;
          },
          (rw (blank.status) refl, rw (blank.last_event_at) refl),
          refl,
        ))
        (λ u. tt))

  pub resolve_active-IsActiveRow :
      (conv : Bool) (input : CheckUpdateInput)
      → (d.type ≡ http) ⊎ (d.type ≡ tcp)
      → Accepts
          (λ r.
            IsActiveRow (apply_update r.update c)
            × Restarts false r.update c
            × (r.update.type ≡ d.type))
          (resolve_active c input d conv)
  unfolding resolve_active
  resolve_active-IsActiveRow conv input a =
      Accepts-require _ (non_empty (pick input.target c.target conv)) _ _ λ target e.
        Accepts-require _ (pick input.interval_seconds c.interval_seconds conv) _ _ λ i ei.
          Accepts-require _ (pick input.timeout_ms c.timeout_ms conv) _ _ λ t et.
            with_target-IsActiveRow conv input target i t a
              (non_empty-truthy (pick input.target c.target conv) target e)

  with_cadence-IsHeartbeatRow :
      (conv : Bool) (input : CheckUpdateInput) (g : ℤ) (cron : Option Text) (period : Option ℤ)
      → ((s : Text) → cron ≡ some s → truthy s ≡ true)
      → d.type ≡ heartbeat
      → Accepts
          (λ r. IsHeartbeatRow lib (apply_update r.update c) × Restarts conv r.update c)
          (with_cadence lib c input d conv g cron period)
  unfolding with_cadence
  with_cadence-IsHeartbeatRow conv input g (some expr) period t ht =
      with_cron-IsHeartbeatRow conv input g expr (t expr refl) ht
  with_cadence-IsHeartbeatRow conv input g none (some p) t ht =
      with_period-IsHeartbeatRow conv g p ht
  with_cadence-IsHeartbeatRow conv input g none none t ht = tt

  pub resolve_heartbeat-IsHeartbeatRow :
      (conv : Bool) (input : CheckUpdateInput)
      → d.type ≡ heartbeat
      → Accepts
          (λ r. IsHeartbeatRow lib (apply_update r.update c) × Restarts conv r.update c)
          (resolve_heartbeat lib c input d conv)
  unfolding resolve_heartbeat
  resolve_heartbeat-IsHeartbeatRow conv input ht =
      Accepts->>= _ (resolve_cadence c input conv) _ λ a got.
        Accepts-guard _
          (not (is_some a.0 && is_some (non_empty a.1)) && (is_some a.0 || is_some (non_empty a.1)))
          _ _
          λ one. Accepts-require _ (pick input.grace_seconds c.grace_seconds conv) _ _ λ g eg.
            with_cadence-IsHeartbeatRow conv input g (non_empty a.1) a.0
              (λ s e. non_empty-truthy a.1 s e) ht
