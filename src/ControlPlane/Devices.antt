-- ===== src/ControlPlane/Devices.antt =====
-- services/control-plane/src/modules/devices/devices.service.ts, with InMemoryDeviceRepository of
-- domain/in-memory.repository.ts. Identifiers, models, names and times are numbers; an IMEI is a text. Each method runs to its
-- end before the next one starts, and the allow-list takes every change. The department repository's list is `units` of the store.
pub mod Tally
pub mod Changes
pub mod Consistency
pub mod Runs
pub mod Lists
pub mod Bootstrap
use fleet_tracking_system.Common.{
  ℕ, zero, suc, ◌+◌, ◌-◌, ◌*◌, ◌/◌, ◌%◌, ◌≤◌, ◌<◌, List, [], ◌∷◌, ◌++◌, ◌≡◌, ◌≢◌, refl, sym, ap,
  ◌∙◌, arith, Bool, ◌&&◌, ◌||◌, not, true, false, Option, none, some, Text, text_eq, length, take,
  drop, ltb, leb, nat_beq, ◌==◌, nat_eq, if◌then◌else◌, Bool-cases, Option-cases, ◌⊎◌, inl, inr,
  All, map, length-append, length-take, length-drop, append-nil, append_assoc, take-append_le,
  drop-append_le, take-append_eq, drop-append_eq, drop_two, take-append-drop,
}
use fleet_tracking_system.Common.{contains, map}
use fleet_tracking_system.Common.Dict
use fleet_tracking_system.Common.Dict.{Dict}
use fleet_tracking_system.ControlPlane.Http.{
  Fault, Result, ok, err, Exec, ◌>>=◌, ◌>>◌, pure, throw, payment_required, forbidden, not_found,
  conflict, internal,
}
use fleet_tracking_system.ControlPlane.Billing.{PlanId, plan_limits, plan_for, would_exceed}
use fleet_tracking_system.ControlPlane.Org.{OrgNode, descendant_ids}

pub data DeviceStatus : Type 0 where
  provisioned active suspended retired : DeviceStatus

pub record Device : Type 0 where
  pub id : ℕ
  pub tenant_id : ℕ
  pub imei : Text
  pub name : Option ℕ
  pub model : ℕ
  pub asset_type : ℕ
  pub status : DeviceStatus
  pub department_id : Option ℕ
  pub deleted_at : Option ℕ

pub record OrgUnit : Type 0 where
  pub tenant_id : ℕ
  pub node : OrgNode

-- `allowed` is the allow-list that ingestion reads, `forgotten` the IMEIs that the telemetry consumer was
-- told to forget.
pub record Store : Type 0 where
  pub by_id : Dict ℕ Device
  pub units : List OrgUnit
  pub plan_of : ℕ → Option PlanId
  pub allowed : List Text
  pub forgotten : List Text

pub record AuthUser : Type 0 where
  pub tenant_id : ℕ
  pub department_id : Option ℕ

-- InMemoryDeviceRepository
unfoldable pub is_live : Device → Bool
is_live d = elim d.deleted_at [ none ↦ true | some at ↦ false ]

unfoldable pub visible : ℕ → Bool → Option Device → Option Device
visible tenant include_deleted none = none
visible tenant include_deleted (some d) =
    if d.tenant_id == tenant && (include_deleted || is_live d) then some d else none

unfoldable pub find_by_id : ℕ → ℕ → Bool → Store → Option Device
find_by_id tenant id include_deleted s = visible tenant include_deleted (Dict.get id s.by_id)

unfoldable pub find_by_imei : Text → Dict ℕ Device → Option Device
find_by_imei imei [] = none
find_by_imei imei ((k, d) ∷ devices) =
    let rest = find_by_imei imei devices in if d.imei == imei && is_live d then some d else rest

-- The number of rows that a test holds of: `count` is `tally` of the tenant's live ones.
unfoldable pub tally : (Device → Bool) → Dict ℕ Device → ℕ
tally p [] = 0
tally p ((k, d) ∷ devices) = let rest = tally p devices in if p d then suc rest else rest

unfoldable pub counted : ℕ → Device → Bool
counted tenant d = d.tenant_id == tenant && is_live d

unfoldable pub put : ℕ → Device → Store → Store
put id d s = record s { by_id = Dict.set id d s.by_id }

unfoldable pub update : ℕ → ℕ → (Device → Device) → Exec Store Device
update tenant id patch s = elim (find_by_id tenant id false s) [
  | none ↦ (err not_found, s)
  | some d ↦
      let next = record (patch d) { id = d.id; tenant_id = d.tenant_id } in (ok next, put id next s)
]

unfoldable pub soft_delete : ℕ → ℕ → ℕ → Store → Store
soft_delete tenant id at s = elim (find_by_id tenant id false s) [
  | none ↦ s
  | some d ↦ put id (record d { deleted_at = some at }) s
]

-- `none` where the repository answers false.
unfoldable pub restore_row : ℕ → ℕ → Store → Option Store
restore_row tenant id s = elim (find_by_id tenant id true s) [
  | none ↦ none
  | some d ↦ if is_live d then none else (elim (find_by_imei d.imei s.by_id) [
    | some other ↦ none
    | none ↦ some (put id (record d { deleted_at = none }) s)
  ])
]

-- AllowListPublisher
unfoldable pub allow : Text → Store → Store
allow imei s = record s {
  allowed = if contains imei s.allowed then s.allowed else imei ∷ s.allowed;
}

unfoldable pub without : Text → List Text → List Text
without imei [] = []
without imei (x ∷ xs) = let rest = without imei xs in if x == imei then rest else x ∷ rest

unfoldable pub disallow : Text → Store → Store
disallow imei s = record s { allowed = without imei s.allowed }

unfoldable pub forget_imei : Text → Store → Store
forget_imei imei s = record s { forgotten = imei ∷ s.forgotten }

-- SENDING_STATUSES
unfoldable pub sending : DeviceStatus → Bool
sending provisioned = true
sending active = true
sending suspended = false
sending retired = false

unfoldable pub units_of : ℕ → List OrgUnit → List OrgNode
units_of tenant [] = []
units_of tenant (u ∷ units) =
    let rest = units_of tenant units in if u.tenant_id == tenant then u.node ∷ rest else rest

-- `none` is the whole tenant. The walk of the tree has an answer always.
unfoldable pub scope_for : AuthUser → Store → Option (List ℕ)
scope_for user s = elim user.department_id [
  | none ↦ none
  | some root ↦ elim (descendant_ids (units_of user.tenant_id s.units) root) [
    | none ↦ some []
    | some ids ↦ some ids
  ]
]

unfoldable pub in_scope : Option (List ℕ) → Option ℕ → Bool
in_scope none department = true
in_scope (some ids) none = false
in_scope (some ids) (some department) = contains department ids

unfoldable pub get_scoped : AuthUser → ℕ → Bool → Exec Store Device
get_scoped user id include_deleted s = elim (find_by_id user.tenant_id id include_deleted s) [
  | none ↦ (err not_found, s)
  | some d ↦ ((if in_scope (scope_for user s) d.department_id then ok d else err not_found), s)
]

unfoldable pub get : AuthUser → ℕ → Exec Store Device
get user id = get_scoped user id false

unfoldable pub unit_exists : ℕ → ℕ → List OrgUnit → Bool
unit_exists tenant id [] = false
unit_exists tenant id (u ∷ units) =
    (u.node.id == id && u.tenant_id == tenant) || unit_exists tenant id units

unfoldable pub assert_department_in_scope : AuthUser → Option ℕ → Exec Store (Unit {0})
assert_department_in_scope user none s = elim user.department_id [
  | none ↦ (ok tt, s)
  | some own ↦ (err forbidden, s)
]
assert_department_in_scope user (some department) s =
    if unit_exists user.tenant_id department s.units
    then (if in_scope (scope_for user s) (some department) then (ok tt, s) else (err forbidden, s))
    else (err not_found, s)

unfoldable pub assert_can_add_device : ℕ → Exec Store (Unit {0})
assert_can_add_device tenant s =
    if would_exceed (tally (counted tenant) s.by_id)
      (plan_limits (plan_for (s.plan_of tenant))).devices
    then (err payment_required, s)
    else (ok tt, s)

unfoldable pub assert_imei_free : Text → Exec Store (Unit {0})
assert_imei_free imei s = elim (find_by_imei imei s.by_id) [
  | none ↦ (ok tt, s)
  | some other ↦ (err conflict, s)
]

unfoldable pub or_own : AuthUser → Option (Option ℕ) → Option ℕ
or_own user none = user.department_id
or_own user (some department) = department

unfoldable pub new_device : AuthUser → ℕ → Text → ℕ → Option ℕ → Option ℕ → ℕ → Device
new_device user id imei model department name asset_type = record {
  id = id;
  tenant_id = user.tenant_id;
  imei = imei;
  name = name;
  model = model;
  asset_type = asset_type;
  status = provisioned;
  department_id = department;
  deleted_at = none;
}

unfoldable pub provision :
    AuthUser → ℕ → Text → ℕ → Option (Option ℕ) → Option ℕ → ℕ → Exec Store Device
provision user fresh imei model department name asset_type = do
  assert_imei_free imei
  assert_can_add_device user.tenant_id
  assert_department_in_scope user (or_own user department)
  let device = new_device user fresh imei model (or_own user department) name asset_type
  (λ s. (ok tt, allow imei (put fresh device s)))
  pure device

unfoldable pub rename : AuthUser → ℕ → Option ℕ → Exec Store Device
rename user id name = do
  found ← get user id
  update user.tenant_id id (λ d. record d { name = name })

unfoldable pub set_asset_type : AuthUser → ℕ → ℕ → Exec Store Device
set_asset_type user id asset_type = do
  found ← get user id
  update user.tenant_id id (λ d. record d { asset_type = asset_type })

unfoldable pub publish : DeviceStatus → Text → Store → Store
publish status imei s = if sending status then allow imei s else disallow imei s

unfoldable pub set_status : AuthUser → ℕ → DeviceStatus → Exec Store Device
set_status user id status = do
  existing ← get user id
  updated ← update user.tenant_id id (λ d. record d { status = status })
  (λ s. (ok tt, publish status existing.imei s))
  pure updated

unfoldable pub assign_department : AuthUser → ℕ → Option ℕ → Exec Store Device
assign_department user id department = do
  found ← get user id
  assert_department_in_scope user department
  update user.tenant_id id (λ d. record d { department_id = department })

unfoldable pub remove : AuthUser → ℕ → ℕ → Exec Store (Unit {0})
remove user id at = do
  existing ← get user id
  λ s. (
    ok tt,
    forget_imei existing.imei (disallow existing.imei (soft_delete user.tenant_id id at s)),
  )

unfoldable pub find_deleted : AuthUser → ℕ → Exec Store Device
find_deleted user id s = elim (find_by_id user.tenant_id id true s) [
  | none ↦ (err not_found, s)
  | some d ↦ (
    (if not (is_live d) && in_scope (scope_for user s) d.department_id
        then ok d
        else err not_found),
    s,
  )
]

unfoldable pub restored : AuthUser → ℕ → Exec Store Device
restored user id s = elim (find_by_id user.tenant_id id false s) [
  | none ↦ (err internal, s)
  | some d ↦ (ok d, forget_imei d.imei (if sending d.status then allow d.imei s else s))
]

unfoldable pub restore : AuthUser → ℕ → Exec Store Device
restore user id = do
  d ← find_deleted user id
  assert_can_add_device user.tenant_id
  (λ s. elim (restore_row user.tenant_id id s) [
    | none ↦ (err conflict, s)
    | some t ↦ restored user id t
  ])
