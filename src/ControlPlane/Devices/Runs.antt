-- ===== src/ControlPlane/Devices/Runs.antt =====
-- Sequences of requests to devices.service.ts, and the quota of a tenant's plan.
use fleet_tracking_system.Common.{
  ℕ, ◌≤◌, ◌≡◌, arith, Option, none, Text, text_eq, nat_eq, Bool-cases, Option-cases, inl, inr,
}
use fleet_tracking_system.Common.Dict
use fleet_tracking_system.ControlPlane.Http.{ok}
use fleet_tracking_system.ControlPlane.Billing.{plan_limits, plan_for, would_exceed}
use fleet_tracking_system.ControlPlane.Devices.{
  Device, DeviceStatus, Store, AuthUser, tally, counted, find_by_imei, put, allow,
  assert_can_add_device, assert_imei_free, new_device, provision, rename, set_asset_type,
  set_status, assign_department, remove, restore, or_own, is_live,
}
use fleet_tracking_system.ControlPlane.Devices.Tally.{tally-set_new}
use fleet_tracking_system.ControlPlane.Devices.Changes.{Consistent}
use fleet_tracking_system.ControlPlane.Devices.Consistency.{
  rename-Consistent, set_asset_type-Consistent, set_status-Consistent, assign_department-Consistent,
  remove-Consistent, provision-Consistent, restore-Consistent, department_cases,
}

-- One request of a user, whatever its answer. A generated identifier is not in use.
pub data Step (s : Store) : Store → Type 0 where
  provisions :
      (user : AuthUser) (fresh : ℕ) (imei : Text) (model : ℕ) (department : Option (Option ℕ))
      (name : Option ℕ) (asset_type : ℕ)
      → Dict.get fresh s.by_id ≡ none
      → Step s (provision user fresh imei model department name asset_type s).1
  renames : (user : AuthUser) (id : ℕ) (name : Option ℕ) → Step s (rename user id name s).1
  sets_asset_type :
      (user : AuthUser) (id asset_type : ℕ) → Step s (set_asset_type user id asset_type s).1
  sets_status :
      (user : AuthUser) (id : ℕ) (status : DeviceStatus) → Step s (set_status user id status s).1
  assigns :
      (user : AuthUser) (id : ℕ) (department : Option ℕ)
      → Step s (assign_department user id department s).1
  removes : (user : AuthUser) (id at : ℕ) → Step s (remove user id at s).1
  restores : (user : AuthUser) (id : ℕ) → Step s (restore user id s).1

-- Requests one after the other.
pub data Run (s : Store) : Store → Type 0 where
  start : Run s s
  next : {t u : Store} → Run s t → Step t u → Run s u

Step-Consistent : (s t : Store) → Step s t → Consistent s → Consistent t
Step-Consistent s _ (provisions user fresh imei model department name asset_type new) c =
    provision-Consistent user fresh imei model department name asset_type s new c
Step-Consistent s _ (renames user id name) c = rename-Consistent user id name s c
Step-Consistent s _ (sets_asset_type user id asset_type) c =
    set_asset_type-Consistent user id asset_type s c
Step-Consistent s _ (sets_status user id status) c = set_status-Consistent user id status s c
Step-Consistent s _ (assigns user id department) c =
    assign_department-Consistent user id department s c
Step-Consistent s _ (removes user id at) c = remove-Consistent user id at s c
Step-Consistent s _ (restores user id) c = restore-Consistent user id s c

-- Whatever requests follow one another, and whether they succeed or fail: if at the start no two
-- live devices had the same IMEI, and the allow-list held exactly the IMEIs of the live devices that may
-- send, then both hold at the end.
pub Run-Consistent : (s t : Store) → Run s t → Consistent s → Consistent t
Run-Consistent s _ start c = c
Run-Consistent s u (next {t = t} run step) c = Step-Consistent t u step (Run-Consistent s t run c)

-- A device that is provisioned has room in the plan of its tenant: when the identifier generated is not in use,
-- the tenant has at most as many live devices afterwards as its plan allows.
pub provision_within_quota :
    (user : AuthUser) (fresh : ℕ) (imei : Text) (model : ℕ) (department : Option (Option ℕ))
    (name : Option ℕ) (asset_type : ℕ) (s : Store) (d : Device)
    → Dict.get fresh s.by_id ≡ none
    → let result = provision user fresh imei model department name asset_type s in
      result.0 ≡ ok d
      → (tally (counted user.tenant_id) result.1.by_id
          ≤ (plan_limits (plan_for (s.plan_of user.tenant_id))).devices)
unfolding provision assert_imei_free assert_can_add_device would_exceed counted is_live new_device
    put allow
provision_within_quota user fresh imei model department name asset_type s d new h =
    elim (Option-cases (find_by_imei imei s.by_id)) [
      | inr (other, taken) ↦ absurd (ground arith)
      | inl free ↦
          elim (Bool-cases (
            would_exceed (tally (counted user.tenant_id) s.by_id)
              (plan_limits (plan_for (s.plan_of user.tenant_id))).devices)) [
                | inl over ↦ absurd (ground arith)
                | inr room ↦ elim (department_cases user (or_own user department) s) [
                  | inr (e, no_way) ↦ absurd (ground arith)
                  | inl may ↦
                      let d' =
                        new_device user fresh imei model (or_own user department) name asset_type in
                      ground (arith, tally-set_new (counted user.tenant_id) fresh d' s.by_id new)
                ]
              ]
    ]
