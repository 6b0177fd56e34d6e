-- ===== src/Plan.antt =====
-- api/src/billing/plan-limits.ts and account-entitlements.service.ts: what a plan allows. Limits and
-- intervals are integers here; JSON numbers with a fraction are not modelled.
pub mod Laws
use systemvitals.Base.{
  ℕ, Bool, true, false, ◌||◌, ◌&&◌, not, Option, none, some, List, if◌then◌else◌, leb, or_else,
}
use systemvitals.Base.Int.{ℤ, pos, ltb_ℤ}
use systemvitals.Base.Text.{Text, codes, text_eq}
use systemvitals.Base.Result.{Result, ok, err, guard}

pub record PlanLimits : Type 0 where
  pub max_checks : ℤ
  pub min_interval_seconds : ℤ

abbrev pub paid_min_interval_seconds : ℤ
paid_min_interval_seconds = pos 60

-- `PLAN_LIMITS`
abbrev pub solo_limits : PlanLimits
solo_limits = record { max_checks = pos 5; min_interval_seconds = pos 300 }

abbrev pub signal_limits : PlanLimits
signal_limits = record { max_checks = pos 100; min_interval_seconds = paid_min_interval_seconds }

abbrev pub fleet_limits : PlanLimits
fleet_limits = record { max_checks = pos 1000; min_interval_seconds = paid_min_interval_seconds }

unfoldable pub plan_limits_for : Text → PlanLimits
plan_limits_for plan =
    if text_eq plan (codes "SIGNAL")
    then signal_limits
    else if text_eq plan (codes "FLEET")
    then fleet_limits
    else solo_limits

unfoldable pub is_paid : Text → Bool
is_paid plan = text_eq plan (codes "SIGNAL") || text_eq plan (codes "FLEET")

-- `limitsJson` where it is an object: a field is `some` where it holds a number.
pub record LimitsJson : Type 0 where
  pub max_checks : Option ℤ
  pub min_interval_seconds : Option ℤ

abbrev pub max_ℤ : ℤ → ℤ → ℤ
max_ℤ a b = if ltb_ℤ a b then b else a

unfoldable pub effective_limits : Text → Option LimitsJson → PlanLimits
effective_limits plan none = plan_limits_for plan
effective_limits plan (some o) =
    let base = plan_limits_for plan in
    let overridden = or_else o.min_interval_seconds base.min_interval_seconds in
    record {
      max_checks = or_else o.max_checks base.max_checks;
      min_interval_seconds =
          if is_paid plan then max_ℤ overridden paid_min_interval_seconds else overridden;
    }

pub record AccountEntitlements : Type 0 where
  pub plan : Text
  pub limits : PlanLimits
  pub check_count : ℕ
  pub organization_count : ℕ

pub data EntitlementError : Type 0 where
  interval_too_short check_limit_reached organization_limit_reached : EntitlementError

unfoldable pub assert_interval : AccountEntitlements → ℤ → Result EntitlementError (Unit {0})
assert_interval e interval_seconds =
    guard (not (ltb_ℤ interval_seconds e.limits.min_interval_seconds)) interval_too_short

unfoldable pub assert_can_add_check : AccountEntitlements → Result EntitlementError (Unit {0})
assert_can_add_check e = guard (ltb_ℤ (pos e.check_count) e.limits.max_checks) check_limit_reached

abbrev pub solo_organization_limit : ℕ
solo_organization_limit = 10

unfoldable pub assert_can_add_organization :
    AccountEntitlements → Result EntitlementError (Unit {0})
assert_can_add_organization e =
    guard (not (text_eq e.plan (codes "SOLO") && leb solo_organization_limit e.organization_count))
      organization_limit_reached

-- A subscription row: the plan and the overriding limits.
pub record Subscription : Type 0 where
  pub plan : Text
  pub limits : Option LimitsJson

-- `forUser`, from the subscription row and the two counts.
unfoldable pub for_user : Option Subscription → ℕ → ℕ → AccountEntitlements
for_user none checks organizations = record {
  plan = codes "SOLO";
  limits = effective_limits (codes "SOLO") none;
  check_count = checks;
  organization_count = organizations;
}
for_user (some s) checks organizations = record {
  plan = s.plan;
  limits = effective_limits s.plan s.limits;
  check_count = checks;
  organization_count = organizations;
}
