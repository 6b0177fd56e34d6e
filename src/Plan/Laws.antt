-- ===== src/Plan/Laws.antt =====
-- What an account may do, from its subscription and its counts.
use systemvitals.Base.{ℕ, suc, ◌≡◌, true, Option, none, some, arith, Bool-cases, inl, inr}
use systemvitals.Base.Int.{ℤ, pos, ◌≤ℤ◌}
use systemvitals.Base.Text.{Text, codes, text_eq}
use systemvitals.Base.Result.{ok}
use systemvitals.Plan.{
  AccountEntitlements, assert_can_add_check, Subscription, LimitsJson, plan_limits_for,
  effective_limits, is_paid, assert_interval, for_user,
}

-- The account has fewer checks than its plan allows.
abbrev pub HasRoom : AccountEntitlements → Type 0
HasRoom e = pos (suc e.check_count) ≤ℤ e.limits.max_checks

-- The interval is not shorter than the least one of the plan.
abbrev pub AllowsInterval : AccountEntitlements → ℤ → Type 0
AllowsInterval e interval = e.limits.min_interval_seconds ≤ℤ interval

pub assert_can_add_check-HasRoom :
    (e : AccountEntitlements) → assert_can_add_check e ≡ ok tt → HasRoom e
unfolding assert_can_add_check
assert_can_add_check-HasRoom e h = ground arith

pub assert_interval-AllowsInterval :
    (e : AccountEntitlements) (interval : ℤ)
    → assert_interval e interval ≡ ok tt
    → AllowsInterval e interval
unfolding assert_interval
assert_interval-AllowsInterval e interval h = ground arith

paid_plan_floor :
    (plan : Text) → is_paid plan ≡ true → (plan_limits_for plan).min_interval_seconds ≡ pos 60
unfolding is_paid plan_limits_for
paid_plan_floor plan h = elim (Bool-cases (text_eq plan (codes "SIGNAL"))) [
  | inl e ↦ rw e
  | inr e ↦ rw (e, rw e at h)
]

floor :
    (plan : Text) (limits : Option LimitsJson)
    → is_paid plan ≡ true
    → pos 60 ≤ℤ (effective_limits plan limits).min_interval_seconds
unfolding effective_limits
floor plan none h = rw (paid_plan_floor plan h) (omega arith)
floor plan (some o) h = rw h (ground arith)

-- No paid account gets below an interval of 60 seconds, whatever its overriding limits say: every
-- interval that is accepted for it is at least that long.
pub paid_interval_floor :
    (s : Subscription) (checks organizations : ℕ) (interval : ℤ)
    → is_paid s.plan ≡ true
    → assert_interval (for_user (some s) checks organizations) interval ≡ ok tt
    → pos 60 ≤ℤ interval
unfolding assert_interval for_user
paid_interval_floor s checks organizations interval p h = ground (arith, floor s.plan s.limits p)
