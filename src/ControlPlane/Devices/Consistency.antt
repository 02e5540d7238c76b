-- ===== src/ControlPlane/Devices/Consistency.antt =====
-- What every operation of devices.service.ts keeps: one live device for an IMEI, and the allow-list
-- of ingestion in step with the devices.
use fleet_tracking_system.Common.{
  ℕ, ◌≡◌, refl, arith, ◌&&◌, not, true, false, Option, none, some, Text, text_eq, nat_eq,
  if◌then◌else◌, Bool-cases, Option-cases, ◌⊎◌, inl, inr,
}
use fleet_tracking_system.Common.{==_refl}
use fleet_tracking_system.Common.Dict
use fleet_tracking_system.Common.Dict.{Dict}
use fleet_tracking_system.ControlPlane.Http.{Fault, ok, err, forbidden, not_found, payment_required}
use fleet_tracking_system.ControlPlane.Devices.{
  Device, DeviceStatus, Store, AuthUser, is_live, find_by_imei, find_by_id, visible, put, update,
  soft_delete, restore_row, allow, forget_imei, sending, scope_for, in_scope, get_scoped, get,
  assert_department_in_scope, assert_can_add_device, assert_imei_free, new_device, provision,
  rename, set_asset_type, publish, set_status, assign_department, remove, find_deleted, restored,
  restore, or_own, unit_exists,
}
use mathlib.Core.Path.{subst}
use fleet_tracking_system.ControlPlane.Devices.Changes.{
  Consistent, found_live, put_same, put_status, put_deleted, put_restored, put_new,
}

pub get_cases :
    (user : AuthUser) (id : ℕ) (s : Store)
    → (get user id s ≡ (err not_found, s))
      ⊎ ((d : Device) × ((get user id s ≡ (ok d, s))
            × ((find_by_id user.tenant_id id false s ≡ some d)
                × (in_scope (scope_for user s) d.department_id ≡ true))))
unfolding get get_scoped
get_cases user id s = elim (Option-cases (find_by_id user.tenant_id id false s)) [
  | inl missing ↦ inl (ground arith)
  | inr (d, found) ↦ elim (Bool-cases (in_scope (scope_for user s) d.department_id)) [
    | inl within ↦ inr (d, (ground arith, (found, within)))
    | inr beyond ↦ inl (ground arith)
  ]
]

update_found :
    (tenant id : ℕ) (patch : Device → Device) (s : Store) (d : Device)
    → find_by_id tenant id false s ≡ some d
    → let next = record (patch d) { id = d.id; tenant_id = d.tenant_id } in
      update tenant id patch s ≡ (ok next, put id next s)
unfolding update
update_found tenant id patch s d found = ground arith

pub rename-Consistent :
    (user : AuthUser) (id : ℕ) (name : Option ℕ) (s : Store)
    → Consistent s
    → Consistent (rename user id name s).1
unfolding rename
rename-Consistent user id name s c = elim (get_cases user id s) [
  | inl refused ↦ subst Consistent (ground arith) c
  | inr (d, (got, (found, within))) ↦
      let d' = record d { name = name } in
      let (there, live) = found_live user.tenant_id id s d found in
      let done = update_found user.tenant_id id (λ x. record x { name = name }) s d found in
      subst Consistent (ground arith) (put_same id d d' s there refl refl refl c)
]

pub set_asset_type-Consistent :
    (user : AuthUser) (id asset_type : ℕ) (s : Store)
    → Consistent s
    → Consistent (set_asset_type user id asset_type s).1
unfolding set_asset_type
set_asset_type-Consistent user id asset_type s c = elim (get_cases user id s) [
  | inl refused ↦ subst Consistent (ground arith) c
  | inr (d, (got, (found, within))) ↦
      let d' = record d { asset_type = asset_type } in
      let (there, live) = found_live user.tenant_id id s d found in
      let done =
        update_found user.tenant_id id (λ x. record x { asset_type = asset_type }) s d found in
      subst Consistent (ground arith) (put_same id d d' s there refl refl refl c)
]

pub set_status-Consistent :
    (user : AuthUser) (id : ℕ) (status : DeviceStatus) (s : Store)
    → Consistent s
    → Consistent (set_status user id status s).1
unfolding set_status
set_status-Consistent user id status s c = elim (get_cases user id s) [
  | inl refused ↦ subst Consistent (ground arith) c
  | inr (d, (got, (found, within))) ↦
      let (there, live) = found_live user.tenant_id id s d found in
      let done = update_found user.tenant_id id (λ x. record x { status = status }) s d found in
      subst Consistent (ground arith) (put_status id d status s there live c)
]

pub department_cases :
    (user : AuthUser) (department : Option ℕ) (s : Store)
    → (assert_department_in_scope user department s ≡ (ok tt, s))
      ⊎ ((e : Fault) × (assert_department_in_scope user department s ≡ (err e, s)))
unfolding assert_department_in_scope
department_cases user none s = elim (Option-cases user.department_id) [
  | inl whole ↦ inl (ground arith)
  | inr (own, has) ↦ inr (forbidden, ground arith)
]
department_cases user (some department) s =
    elim (Bool-cases (unit_exists user.tenant_id department s.units)) [
      | inr missing ↦ inr (not_found, ground arith)
      | inl there ↦ elim (Bool-cases (in_scope (scope_for user s) (some department))) [
        | inl within ↦ inl (ground arith)
        | inr beyond ↦ inr (forbidden, ground arith)
      ]
    ]

pub assign_department-Consistent :
    (user : AuthUser) (id : ℕ) (department : Option ℕ) (s : Store)
    → Consistent s
    → Consistent (assign_department user id department s).1
unfolding assign_department
assign_department-Consistent user id department s c = elim (get_cases user id s) [
  | inl refused ↦ subst Consistent (ground arith) c
  | inr (d, (got, (found, within))) ↦ elim (department_cases user department s) [
    | inr (e, no_way) ↦ subst Consistent (ground arith) c
    | inl may ↦
        let d' = record d { department_id = department } in
        let (there, live) = found_live user.tenant_id id s d found in
        let done =
          update_found user.tenant_id id (λ x. record x { department_id = department }) s d found in
        subst Consistent (ground arith) (put_same id d d' s there refl refl refl c)
  ]
]

forget-Consistent : (imei : Text) (s : Store) → Consistent s → Consistent (forget_imei imei s)
unfolding forget_imei
forget-Consistent imei s c = record { unique = c.unique; synced = c.synced }

pub remove-Consistent :
    (user : AuthUser) (id at : ℕ) (s : Store) → Consistent s → Consistent (remove user id at s).1
unfolding remove soft_delete
remove-Consistent user id at s c = elim (get_cases user id s) [
  | inl refused ↦ subst Consistent (ground arith) c
  | inr (d, (got, (found, within))) ↦
      let (there, live) = found_live user.tenant_id id s d found in
      subst Consistent (ground arith)
        (forget-Consistent d.imei _ (put_deleted id at d s there live c))
]

pub quota_cases :
    (tenant : ℕ) (s : Store)
    → (assert_can_add_device tenant s ≡ (ok tt, s))
      ⊎ (assert_can_add_device tenant s ≡ (err payment_required, s))
unfolding assert_can_add_device
quota_cases tenant s = ground arith

pub provision-Consistent :
    (user : AuthUser) (fresh : ℕ) (imei : Text) (model : ℕ) (department : Option (Option ℕ))
    (name : Option ℕ) (asset_type : ℕ) (s : Store)
    → Dict.get fresh s.by_id ≡ none
    → Consistent s
    → Consistent (provision user fresh imei model department name asset_type s).1
unfolding provision assert_imei_free new_device publish sending is_live
provision-Consistent user fresh imei model department name asset_type s new c =
    elim (Option-cases (find_by_imei imei s.by_id)) [
      | inr (other, taken) ↦ subst Consistent (ground arith) c
      | inl free ↦ elim (quota_cases user.tenant_id s) [
        | inr over ↦ subst Consistent (ground arith) c
        | inl room ↦ elim (department_cases user (or_own user department) s) [
          | inr (e, no_way) ↦ subst Consistent (ground arith) c
          | inl may ↦
              let d = new_device user fresh imei model (or_own user department) name asset_type in
              subst Consistent (ground arith) (put_new fresh d s new refl free c)
        ]
      ]
    ]

find_deleted_cases :
    (user : AuthUser) (id : ℕ) (s : Store)
    → (find_deleted user id s ≡ (err not_found, s))
      ⊎ ((d : Device) × ((find_deleted user id s ≡ (ok d, s))
            × ((find_by_id user.tenant_id id true s ≡ some d) × (is_live d ≡ false))))
unfolding find_deleted
find_deleted_cases user id s = elim (Option-cases (find_by_id user.tenant_id id true s)) [
  | inl missing ↦ inl (ground arith)
  | inr (d, found) ↦
      elim (Bool-cases (not (is_live d) && in_scope (scope_for user s) d.department_id)) [
        | inl within ↦ inr (d, (ground arith, (found, ground arith)))
        | inr beyond ↦ inl (ground arith)
      ]
]

found_any :
    (tenant id : ℕ) (s : Store) (d : Device)
    → find_by_id tenant id true s ≡ some d
    → (Dict.get id s.by_id ≡ some d) × (d.tenant_id ≡ tenant)
unfolding find_by_id visible
found_any tenant id s d h = elim (Option-cases (Dict.get id s.by_id)) [
  | inl missing ↦ absurd (ground arith)
  | inr (e, there) ↦ (ground arith, ground (arith, nat_eq.beq_iff e.tenant_id tenant))
]

restored_row :
    (user : AuthUser) (id : ℕ) (d : Device) (s : Store)
    → Dict.get id s.by_id ≡ some d
    → d.tenant_id ≡ user.tenant_id
    → let d' = record d { deleted_at = none } in
      restored user id (put id d' s) ≡ (
        ok d',
        forget_imei d.imei (if sending d.status then allow d.imei (put id d' s) else put id d' s),
      )
unfolding restored find_by_id visible put is_live
restored_row user id d s there mine =
    let d' = record d { deleted_at = none } in
    ground (
      arith,
      Dict.get-set id id d' s.by_id,
      ==_refl id,
      (nat_eq.beq_iff d.tenant_id user.tenant_id).1 mine,
    )

pub restore-Consistent :
    (user : AuthUser) (id : ℕ) (s : Store) → Consistent s → Consistent (restore user id s).1
unfolding restore restore_row
restore-Consistent user id s c = elim (find_deleted_cases user id s) [
  | inl refused ↦ subst Consistent (ground arith) c
  | inr (d, (got, (found, dead))) ↦ elim (quota_cases user.tenant_id s) [
    | inr over ↦ subst Consistent (ground arith) c
    | inl room ↦ elim (Option-cases (find_by_imei d.imei s.by_id)) [
      | inr (other, taken) ↦ subst Consistent (ground arith) c
      | inl free ↦
          let (there, mine) = found_any user.tenant_id id s d found in
          subst Consistent (ground (arith, restored_row user id d s there mine))
            (forget-Consistent d.imei _ (put_restored id d s there dead free c))
    ]
  ]
]
