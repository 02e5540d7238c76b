-- ===== src/ControlPlane/Billing.antt =====
-- services/control-plane/src/billing/plans.ts, and the quota checks of modules/billing/billing.ts.
-- A subscription to a plan that is not in the catalog is `none` here, like no subscription.
pub mod Subscribe
use fleet_tracking_system.Common.{ℕ, Bool, Option, none, some, text_eq, leb, nat_eq}

pub data PlanId : Type 0 where
  trial free pro enterprise : PlanId

pub record PlanLimits : Type 0 where
  pub devices : ℕ
  pub users : ℕ

-- `PLANS`, the limits
unfoldable pub plan_limits : PlanId → PlanLimits
plan_limits trial = record { devices = 2; users = 1 }
plan_limits free = record { devices = 25; users = 10 }
plan_limits pro = record { devices = 1000; users = 100 }
plan_limits enterprise = record { devices = 100000; users = 5000 }

abbrev pub default_plan : PlanId
default_plan = free

unfoldable pub plan_for : Option PlanId → PlanId
plan_for none = default_plan
plan_for (some id) = id

unfoldable pub would_exceed : ℕ → ℕ → Bool
would_exceed usage limit = leb limit usage
