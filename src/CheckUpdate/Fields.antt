-- ===== src/CheckUpdate/Fields.antt =====
-- The input of an edit, api/src/checks/check-update.ts: its types, and the fields that stand alone. A
-- field of the input is `none` where it is absent and `some none` where it is null.
use mathlib.Core.Option
use systemvitals.Base.{
  ℕ, zero, suc, ◌-◌, ◌/◌, Bool, true, false, Option, none, some, [], if◌then◌else◌, min, length,
  ltb,
}
use systemvitals.Base.Int.{ℤ, pos, eqb_ℤ}
use systemvitals.Base.Text.{Text, codes, text_eq, truthy, trim}
use systemvitals.Base.Result.{Result, ok, err, ◌>>=◌}
use systemvitals.Schema.{CheckType, CheckStatus, heartbeat, http, tcp, ping}
use systemvitals.Slug.{is_valid_slug}

-- What cron-parser and Intl are asked: whether an expression parses, whether a zone is known, and the
-- fires after the epoch in milliseconds, in order; `none` where `next()` throws.
pub record CronLib : Type 0 where
  pub is_valid_cron : Text → Bool
  pub is_valid_tz : Text → Bool
  pub fire : Text → Text → ℕ → Option ℕ

-- The loop of `minCronGapSeconds` (api/src/checks/cron.ts), for `k` more rounds: the fire of the next
-- round has the number `i`, and the last one was at `prev`.
unfoldable pub least_gap : (ℕ → Option ℕ) → ℕ → ℕ → ℕ → ℕ → Option ℕ
least_gap fire zero i prev least = some least
least_gap fire (suc k) i prev least = elim (fire i) [
  | none ↦ none
  | some next ↦ least_gap fire k (suc i) next (min least ((next - prev) / 1000))
]

-- The gaps from the second fire on, where the first is at `first`.
unfoldable pub gap_after : (ℕ → Option ℕ) → ℕ → Option ℤ
unfolding least_gap
gap_after fire first = elim (fire 1) [
  | none ↦ none
  | some second ↦ Option.map pos (least_gap fire 9 2 second ((second - first) / 1000))
]

-- The smallest of the first ten gaps between fires, in seconds.
unfoldable pub min_cron_gap_seconds : CronLib → Text → Text → Option ℤ
unfolding gap_after
min_cron_gap_seconds lib expr tz = elim (lib.fire expr tz 0) [
  | none ↦ none
  | some first ↦ gap_after (lib.fire expr tz) first
]

abbrev pub Field : Type 0 → Type 0
Field A = Option (Option A)

pub record CheckUpdateInput : Type 0 where
  pub name : Field Text
  pub slug : Field Text
  pub description : Field Text
  pub agent_instructions : Field Text
  pub type : Field Text
  pub period_seconds : Field ℤ
  pub grace_seconds : Field ℤ
  pub schedule : Field Text
  pub tz : Field Text
  pub target : Field Text
  pub method : Field Text
  pub expected_status : Field ℤ
  pub interval_seconds : Field ℤ
  pub timeout_ms : Field ℤ

-- The columns that an update writes; those under a further `Option` only where it is `some`.
pub record CheckUpdateData : Type 0 where
  pub type : CheckType
  pub name : Option Text
  pub slug : Option Text
  pub description : Option (Option Text)
  pub agent_instructions : Option (Option Text)
  pub status : Option CheckStatus
  pub last_event_at : Option (Option ℕ)
  pub period_seconds : Option ℤ
  pub grace_seconds : Option ℤ
  pub schedule : Option Text
  pub tz : Option Text
  pub target : Option Text
  pub method : Option Text
  pub expected_status : Option ℤ
  pub interval_seconds : Option ℤ
  pub timeout_ms : Option ℤ

pub record ResolvedCheckUpdate : Type 0 where
  pub update : CheckUpdateData
  pub interval_to_validate : Option ℤ
  pub mint_ping_slug : Bool

-- `no_further_fire` is what cron-parser throws, not a CheckValidationError of the code.
pub data CheckValidationError : Type 0 where
  bad_type empty_name bad_slug text_too_long exactly_one_cadence grace_required invalid_cron
        invalid_timezone target_required interval_required timeout_required bad_http_target
        bad_tcp_target no_further_fire :
      CheckValidationError

abbrev pub max_check_description_length : ℕ
max_check_description_length = 2000

abbrev pub max_check_agent_instructions_length : ℕ
max_check_agent_instructions_length = 4000

-- `normalizeCheckText`, of a value that was provided.
unfoldable pub normalize_check_text : ℕ → Option Text → Result CheckValidationError (Option Text)
normalize_check_text max_length none = ok none
normalize_check_text max_length (some raw) =
    let value = trim raw in
    if ltb max_length (length value)
    then err text_too_long
    else ok (if truthy value then some value else none)

-- `if (input.x !== undefined) data.x = normalize(input.x)`
unfoldable pub resolve_text : ℕ → Field Text → Result CheckValidationError (Option (Option Text))
unfolding normalize_check_text
resolve_text max_length none = ok none
resolve_text max_length (some raw) = do v ← normalize_check_text max_length raw; ok (some v)

unfoldable pub resolve_name : Field Text → Result CheckValidationError (Option Text)
resolve_name none = ok none
resolve_name (some raw) =
    let name : Text = elim raw [ none ↦ [] | some s ↦ trim s ] in
    if truthy name then ok (some name) else err empty_name

unfoldable pub resolve_slug : Field Text → Result CheckValidationError (Option Text)
resolve_slug none = ok none
resolve_slug (some none) = err bad_slug
resolve_slug (some (some s)) = if is_valid_slug s then ok (some s) else err bad_slug

unfoldable pub pick : {A : Type 0} → Field A → Option A → Bool → Option A
pick (some provided) stored is_conversion = provided
pick none stored is_conversion = if is_conversion then none else stored

-- `isEditableCheckType`: PING is a type of the table that no edit may have.
unfoldable pub editable_type : Text → Option CheckType
editable_type t =
    if text_eq t (codes "HEARTBEAT")
    then some heartbeat
    else if text_eq t (codes "HTTP")
    then some http
    else if text_eq t (codes "TCP")
    then some tcp
    else none

abbrev pub editable_current : CheckType → Option CheckType
editable_current ping = none
editable_current t = some t

-- `input.type ?? current.type`
unfoldable pub requested_type : Field Text → CheckType → Option CheckType
unfolding editable_type
requested_type none current = editable_current current
requested_type (some none) current = editable_current current
requested_type (some (some t)) current = editable_type t

abbrev pub same_type : CheckType → CheckType → Bool
same_type heartbeat heartbeat = true
same_type http http = true
same_type tcp tcp = true
same_type ping ping = true
same_type _ _ = false

abbrev pub opt_text_eq : Option Text → Option Text → Bool
opt_text_eq none none = true
opt_text_eq (some a) (some b) = text_eq a b
opt_text_eq _ _ = false

abbrev pub opt_ℤ_eq : Option ℤ → Option ℤ → Bool
opt_ℤ_eq none none = true
opt_ℤ_eq (some a) (some b) = eqb_ℤ a b
opt_ℤ_eq _ _ = false

-- `x || d`
abbrev pub or_text : Option Text → Text → Text
or_text none d = d
or_text (some s) d = if truthy s then s else d

-- A string with characters in it, or null.
abbrev pub non_empty : Option Text → Option Text
non_empty none = none
non_empty (some s) = if truthy s then some s else none
