-- ===== src/Checks/NewChecks.antt =====
-- The two kinds of new check.
use systemvitals.Base.{
  ℕ, ◌≤◌, ◌≡◌, ◌≢◌, ◌⊎◌, refl, sym, inl, inr, Bool, true, false, ◌||◌, Option, none, some, [], ◌∷◌,
  arith, if◌then◌else◌, ltb, length, or_else, Bool-cases,
}
use systemvitals.Base.Int.{ℤ, pos}
use systemvitals.CheckUpdate.Gaps.{IsLeastGap, min_cron_gap_seconds-IsLeastGap}
use systemvitals.Base.Text.{Text, codes, text_eq, text_eq_iff, truthy, trim, starts_with, includes}
use systemvitals.Base.Result.{
  ok, >>=-ok, Accepts, Accepts-at, Accepts-guard, Accepts-require, Accepts-if,
}
use systemvitals.Schema.{CheckType, heartbeat, http, tcp, new}
use systemvitals.Tenancy.{App}
use systemvitals.CheckUpdate.Fields.{
  CronLib, normalize_check_text, min_cron_gap_seconds, non_empty, or_text,
  max_check_description_length, max_check_agent_instructions_length,
}
use systemvitals.Slug.{slugify}
use systemvitals.Slug.Shape.{slugify_valid}
use systemvitals.Checks.Creation.{CreationAttempt, parse_check_text}
use systemvitals.Checks.Creation.Kinds.{
  NewCheck, HeartbeatInput, Cadence, cadence_of, heartbeat_row, create, ActiveInput, active_type,
  active_row, create_active_check, cron_cadence, one_cadence, resolved_method,
}
use systemvitals.Checks.{bad_target}
use systemvitals.Checks.Created.{IsCounted, IsDone, create_within_account_quota-IsDone}

-- A text that may be given, with the white space around it removed; one that is then empty is null.
abbrev pub IsTrimmed : ℕ → Option Text → Option Text → Type 0
IsTrimmed max_length none value = value ≡ none
IsTrimmed max_length (some raw) value =
    (length (trim raw) ≤ max_length)
    × (((trim raw ≡ []) × (value ≡ none)) ⊎ ((trim raw ≢ []) × (value ≡ some (trim raw))))

parse_check_text-IsTrimmed :
    (max_length : ℕ) (raw value : Option Text)
    → parse_check_text max_length raw ≡ ok value
    → IsTrimmed max_length raw value
unfolding parse_check_text normalize_check_text
parse_check_text-IsTrimmed max_length none value h = ground arith
parse_check_text-IsTrimmed max_length (some raw) value h =
    elim (Bool-cases (ltb max_length (length (trim raw)))) [
      | inl e ↦ absurd (ground arith)
      | inr e ↦ (ground arith, kept (trim raw) (ground arith))
    ]
  where
    kept :
        (s : Text)
        → (if truthy s then some s else none) ≡ value
        → ((s ≡ []) × (value ≡ none)) ⊎ ((s ≢ []) × (value ≡ some s))
    kept [] k = inl (refl, sym k)
    kept (c ∷ s) k = inr ((λ e. ground arith), sym k)

-- Of a period and a schedule that is not empty exactly one is given. A schedule parses, in a known zone,
-- which is UTC where none is given; the least of its first ten gaps then counts
-- as the interval.
pub data IsScheduled (lib : CronLib) (input : HeartbeatInput) (c : Cadence) : Type 0 where
  by_period :
      (period : ℤ)
      → input.period_seconds ≡ some period
      → non_empty input.schedule ≡ none
      → c ≡ record { period_seconds = some period; schedule = none; tz = none; interval = period }
      → IsScheduled lib input c
  by_schedule :
      (schedule zone : Text) (gap : ℕ)
      → input.period_seconds ≡ none
      → input.schedule ≡ some schedule
      → schedule ≢ []
      → zone ≡ or_text input.tz (codes "UTC")
      → lib.is_valid_cron schedule ≡ true
      → lib.is_valid_tz zone ≡ true
      → IsLeastGap (lib.fire schedule zone) 0 10 gap
      → c ≡ record {
        period_seconds = none;
        schedule = some schedule;
        tz = some zone;
        interval = pos gap;
      }
      → IsScheduled lib input c

non_empty-some : (o : Option Text) (s : Text) → non_empty o ≡ some s → (o ≡ some s) × (s ≢ [])
non_empty-some none s h = absurd (ground arith)
non_empty-some (some []) s h = absurd (ground arith)
non_empty-some (some (c ∷ t)) s h = (h, λ e. ground arith)

one_cadence-IsScheduled :
    (lib : CronLib) (input : HeartbeatInput) (period : Option ℤ) (schedule : Option Text)
    → input.period_seconds ≡ period
    → non_empty input.schedule ≡ schedule
    → Accepts (IsScheduled lib input) (one_cadence lib input.tz period schedule)
unfolding cron_cadence
one_cadence-IsScheduled lib input none none p s = tt
one_cadence-IsScheduled lib input none (some schedule) p s =
    let (given, full) = non_empty-some input.schedule schedule s in
    Accepts-guard (IsScheduled lib input) (lib.is_valid_cron schedule) _ _ λ parses.
      Accepts-guard (IsScheduled lib input) (lib.is_valid_tz (or_text input.tz (codes "UTC"))) _ _
        λ known.
          Accepts-require (IsScheduled lib input)
            (min_cron_gap_seconds lib schedule (or_text input.tz (codes "UTC"))) _ _
            λ gap found.
              let (g, same, least) =
                min_cron_gap_seconds-IsLeastGap lib schedule (or_text input.tz (codes "UTC")) gap
                  found in
              by_schedule schedule (or_text input.tz (codes "UTC")) g p given full refl parses known
                least (rw same refl)
one_cadence-IsScheduled lib input (some period) none p s = by_period period p s refl
one_cadence-IsScheduled lib input (some period) (some schedule) p s = tt

cadence_of-IsScheduled :
    (lib : CronLib) (input : HeartbeatInput)
    → Accepts (IsScheduled lib input) (cadence_of lib input)
unfolding cadence_of
cadence_of-IsScheduled lib input =
    one_cadence-IsScheduled lib input input.period_seconds (non_empty input.schedule) refl refl

-- The parts of a new heartbeat check.
pub record IsHeartbeat (lib : CronLib) (user project : ℕ) (c : NewCheck) (input : HeartbeatInput)
    (attempts : ℕ → CreationAttempt) (next : App) : Type 0 where
  pub description : Option Text
  pub described : IsTrimmed 2000 c.raw_description description
  pub agent_instructions : Option Text
  pub instructed : IsTrimmed 4000 c.raw_agent_instructions agent_instructions
  pub cadence : Cadence
  pub scheduled : IsScheduled lib input cadence
  pub done :
      IsDone user project cadence.interval
        (λ slug. record {
          id = c.id;
          name = c.name;
          slug = slug;
          description = description;
          agent_instructions = agent_instructions;
          type = heartbeat;
          status = new;
          project_id = project;
          ping_slug = some input.ping_slug;
          period_seconds = cadence.period_seconds;
          grace_seconds = some input.grace_seconds;
          schedule = cadence.schedule;
          tz = cadence.tz;
          target = none;
          method = none;
          expected_status = none;
          interval_seconds = none;
          timeout_ms = none;
          last_event_at = none;
          created_at = c.now;
        })
        attempts
        next

-- A check that is created with a period or a schedule, but not both, is a NEW heartbeat check of the
-- project with no last event, and the only row that is added; its texts are trimmed and not too long; a
-- schedule parses, its zone is known, and the least of its first ten gaps is its interval. Its slug is valid and no other check of the project has it. The
-- caller is a member; the plan of the organization's creator allows the interval, and the creator's account
-- has fewer checks than the plan allows. Assumed: fewer than 10 ^ 20 slugs are loaded.
pub create_exact :
    (nfd lower : Text → Text) (lib : CronLib) (user project : ℕ) (c : NewCheck)
    (input : HeartbeatInput) (attempts : ℕ → CreationAttempt) (next : App)
    → ((n : ℕ) → IsCounted project (attempts n))
    → create nfd lower lib user project c input attempts ≡ ok next
    → IsHeartbeat lib user project c input attempts next
unfolding create heartbeat_row
create_exact nfd lower lib user project c input attempts next few h =
    let (description, described, h1) =
      >>=-ok (parse_check_text max_check_description_length c.raw_description) _ next h in
    let (agent_instructions, instructed, h2) =
      >>=-ok (parse_check_text max_check_agent_instructions_length c.raw_agent_instructions) _ next
        h1 in
    let (cadence, scheduled, h3) = >>=-ok (cadence_of lib input) _ next h2 in
    record {
      description = description;
      described = parse_check_text-IsTrimmed 2000 c.raw_description description described;
      agent_instructions = agent_instructions;
      instructed =
          parse_check_text-IsTrimmed 4000 c.raw_agent_instructions agent_instructions instructed;
      cadence = cadence;
      scheduled =
          Accepts-at (IsScheduled lib input) (cadence_of lib input) cadence
            (cadence_of-IsScheduled lib input) scheduled;
      done =
          create_within_account_quota-IsDone user project cadence.interval
            (slugify nfd lower c.name) _ attempts next (λ s. refl) (λ s. refl)
            (slugify_valid nfd lower c.name) few h3;
    }

-- The type of a check that probes a target, with what its target looks like and the method it is given: an
-- HTTP check has a URL and GET for a method that is left out, and a TCP check has a colon in its target.
pub data IsProbeOf (input : ActiveInput) : CheckType → Option Text → Type 0 where
  by_http :
      (type : CheckType) (method : Option Text)
      → type ≡ http
      → method ≡ some (or_else input.method (codes "GET"))
      → input.type ≡ codes "HTTP"
      → (starts_with input.target (codes "http://") ≡ true)
        ⊎ (starts_with input.target (codes "https://") ≡ true)
      → IsProbeOf input type method
  by_tcp :
      (type : CheckType) (method : Option Text)
      → type ≡ tcp
      → method ≡ input.method
      → input.type ≡ codes "TCP"
      → includes input.target (codes ":") ≡ true
      → IsProbeOf input type method

resolved_method-http : (m : Option Text) → resolved_method http m ≡ some (or_else m (codes "GET"))
resolved_method-http none = refl
resolved_method-http (some m) = refl

either : (a b : Bool) → (a || b) ≡ true → (a ≡ true) ⊎ (b ≡ true)
either true b h = inl refl
either false b h = inr h

active_type-IsProbeOf :
    (input : ActiveInput)
    → Accepts (λ type. IsProbeOf input type (resolved_method type input.method)) (active_type input)
unfolding active_type
active_type-IsProbeOf input =
    let P : CheckType → Type 0 = λ type. IsProbeOf input type (resolved_method type input.method) in
    Accepts-if P (text_eq input.type (codes "HTTP")) _ _
      (λ e.
        Accepts-guard P
          (starts_with input.target (codes "http://")
            || starts_with input.target (codes "https://"))
          bad_target (ok http)
          λ url.
            by_http http _ refl (resolved_method-http input.method)
              ((text_eq_iff input.type (codes "HTTP")).0 e)
              (either (starts_with input.target (codes "http://"))
                (starts_with input.target (codes "https://")) url))
      (λ _.
        Accepts-if P (text_eq input.type (codes "TCP")) _ _
          (λ e.
            Accepts-guard P (includes input.target (codes ":")) bad_target (ok tcp)
              λ colon. by_tcp tcp _ refl refl ((text_eq_iff input.type (codes "TCP")).0 e) colon)
          (λ _. tt))

-- The parts of a new check that probes a target.
pub record IsActive (user project : ℕ) (c : NewCheck) (input : ActiveInput)
    (attempts : ℕ → CreationAttempt) (next : App) : Type 0 where
  pub description : Option Text
  pub described : IsTrimmed 2000 c.raw_description description
  pub agent_instructions : Option Text
  pub instructed : IsTrimmed 4000 c.raw_agent_instructions agent_instructions
  pub type : CheckType
  pub method : Option Text
  pub typed : IsProbeOf input type method
  pub done :
      IsDone user project input.interval_seconds
        (λ slug. record {
          id = c.id;
          name = c.name;
          slug = slug;
          description = description;
          agent_instructions = agent_instructions;
          type = type;
          status = new;
          project_id = project;
          ping_slug = none;
          period_seconds = none;
          grace_seconds = none;
          schedule = none;
          tz = none;
          target = some input.target;
          method = method;
          expected_status = input.expected_status;
          interval_seconds = some input.interval_seconds;
          timeout_ms = some input.timeout_ms;
          last_event_at = none;
          created_at = c.now;
        })
        attempts
        next

-- A check that is created with a target is a NEW check of the project with no last event, and the only row that
-- is added. It is an HTTP check whose target starts with http:// or https:// and whose method is GET
-- where none is given, or a TCP check whose target has a colon; its texts are trimmed and not too long.
-- Its slug is valid and no other check of the project has it. The caller is a member; the plan of the
-- organization's creator allows the interval, and the creator's account has fewer checks than the plan
-- allows. Assumed: fewer than 10 ^ 20 slugs are loaded.
pub create_active_check_exact :
    (nfd lower : Text → Text) (user project : ℕ) (c : NewCheck) (input : ActiveInput)
    (attempts : ℕ → CreationAttempt) (next : App)
    → ((n : ℕ) → IsCounted project (attempts n))
    → create_active_check nfd lower user project c input attempts ≡ ok next
    → IsActive user project c input attempts next
unfolding create_active_check active_row
create_active_check_exact nfd lower user project c input attempts next few h =
    let (description, described, h1) =
      >>=-ok (parse_check_text max_check_description_length c.raw_description) _ next h in
    let (agent_instructions, instructed, h2) =
      >>=-ok (parse_check_text max_check_agent_instructions_length c.raw_agent_instructions) _ next
        h1 in
    let (type, typed, h3) = >>=-ok (active_type input) _ next h2 in
    record {
      description = description;
      described = parse_check_text-IsTrimmed 2000 c.raw_description description described;
      agent_instructions = agent_instructions;
      instructed =
          parse_check_text-IsTrimmed 4000 c.raw_agent_instructions agent_instructions instructed;
      type = type;
      method = resolved_method type input.method;
      typed =
          Accepts-at (λ type. IsProbeOf input type (resolved_method type input.method))
            (active_type input) type (active_type-IsProbeOf input) typed;
      done =
          create_within_account_quota-IsDone user project input.interval_seconds
            (slugify nfd lower c.name) _ attempts next (λ s. refl) (λ s. refl)
            (slugify_valid nfd lower c.name) few h3;
    }
