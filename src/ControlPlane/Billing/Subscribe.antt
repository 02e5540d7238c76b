-- ===== src/ControlPlane/Billing/Subscribe.antt =====
-- The subscriptions of services/control-plane/src/modules/billing/billing.ts, with the in-memory repository of
-- domain/in-memory.repository.ts. The payment provider is a parameter, that throws (`none`) or gives a status; what
-- the tenant has in use is counted by the caller.
use fleet_tracking_system.Common.{
  ℕ, ◌≡◌, refl, ap, ◌∙◌, Option, none, some, ◌==◌, nat_eq, if◌then◌else◌, Bool-cases, inl, inr,
}
use fleet_tracking_system.Common.Dict
use fleet_tracking_system.Common.Dict.{Dict}
use fleet_tracking_system.ControlPlane.Http.{ok, err, Exec, internal}
use fleet_tracking_system.ControlPlane.Billing.{PlanId, PlanLimits, plan_limits, plan_for}

pub data SubscriptionStatus : Type 0 where
  active past_due canceled : SubscriptionStatus

pub record Subscription : Type 0 where
  pub tenant_id : ℕ
  pub plan_id : PlanId
  pub status : SubscriptionStatus
  pub created_at : ℕ

abbrev pub Subscriptions : Type 0
Subscriptions = Dict ℕ Subscription

unfoldable pub plan_named : Option Subscription → PlanId
plan_named none = plan_for none
plan_named (some sub) = plan_for (some sub.plan_id)

unfoldable pub plan_of : ℕ → Subscriptions → PlanId
plan_of tenant subs = plan_named (Dict.get tenant subs)

pub record Summary : Type 0 where
  pub plan : PlanId
  pub limits : PlanLimits
  pub usage : PlanLimits

unfoldable pub summary : (ℕ → PlanLimits) → ℕ → Subscriptions → Summary
summary usage tenant subs = record {
  plan = plan_of tenant subs;
  limits = plan_limits (plan_of tenant subs);
  usage = usage tenant;
}

unfoldable pub subscribed :
    (ℕ → PlanLimits) → ℕ → ℕ → PlanId → Option SubscriptionStatus → Exec Subscriptions Summary
subscribed usage now tenant plan none subs = (err internal, subs)
subscribed usage now tenant plan (some status) subs =
    let next =
      Dict.set tenant
        (record { tenant_id = tenant; plan_id = plan; status = status; created_at = now }) subs in
    (ok (summary usage tenant next), next)

unfoldable pub subscribe :
    (ℕ → PlanId → Option SubscriptionStatus)
    → (ℕ → PlanLimits)
    → ℕ
    → ℕ
    → PlanId
    → Exec Subscriptions Summary
subscribe payments usage now tenant plan = subscribed usage now tenant plan (payments tenant plan)

plan_of-set :
    (tenant other : ℕ) (sub : Subscription) (subs : Subscriptions)
    → plan_of other (Dict.set tenant sub subs)
      ≡ (if tenant == other then sub.plan_id else plan_of other subs)
unfolding plan_of plan_named plan_for
plan_of-set tenant other sub subs = elim (Bool-cases (tenant == other)) [
  | inl same ↦ ap plan_named (Dict.get-set tenant other sub subs) ∙ rw same refl
  | inr apart ↦ ap plan_named (Dict.get-set tenant other sub subs) ∙ rw apart refl
]

-- A plan that is paid is the tenant's plan from then on, whatever the status of the payment, and no other
-- tenant's plan changes.
subscribed-plan_of :
    (usage : ℕ → PlanLimits) (now tenant : ℕ) (plan : PlanId) (status : SubscriptionStatus)
    (subs : Subscriptions) (other : ℕ)
    → plan_of other (subscribed usage now tenant plan (some status) subs).1
      ≡ (if tenant == other then plan else plan_of other subs)
unfolding subscribed
subscribed-plan_of usage now tenant plan status subs other =
    plan_of-set tenant other
      (record { tenant_id = tenant; plan_id = plan; status = status; created_at = now }) subs
