-- ===== src/ControlPlane/Devices/Lists.antt =====
-- The queries of devices.service.ts, with those of InMemoryDeviceRepository.
use fleet_tracking_system.Common.{
  ℕ, List, [], ◌∷◌, ◌&&◌, not, true, Option, none, some, text_eq, ltb, ◌==◌, nat_eq, if◌then◌else◌,
}
use fleet_tracking_system.Common.Dict.{Dict}
use fleet_tracking_system.ControlPlane.Http.{Exec}
use fleet_tracking_system.ControlPlane.Devices.{
  Device, Store, AuthUser, is_live, scope_for, in_scope, get_scoped,
}

unfoldable pub listed : ℕ → Option (List ℕ) → Dict ℕ Device → List Device
listed tenant scope [] = []
listed tenant scope ((k, d) ∷ devices) =
    let rest = listed tenant scope devices in
    if d.tenant_id == tenant && (is_live d && in_scope scope d.department_id)
    then d ∷ rest
    else rest

unfoldable pub list_devices : AuthUser → Store → List Device
list_devices user s = listed user.tenant_id (scope_for user s) s.by_id

unfoldable pub deleted_time : Device → ℕ
deleted_time d = elim d.deleted_at [ none ↦ 0 | some at ↦ at ]

-- The latest deletion first; devices deleted at one time stay in order.
unfoldable pub insert_deleted : Device → List Device → List Device
insert_deleted d [] = d ∷ []
insert_deleted d (e ∷ devices) =
    let later = insert_deleted d devices in
    if ltb (deleted_time d) (deleted_time e) then e ∷ later else d ∷ e ∷ devices

unfoldable pub deleted_of : ℕ → Dict ℕ Device → List Device
deleted_of tenant [] = []
deleted_of tenant ((k, d) ∷ devices) =
    let rest = deleted_of tenant devices in
    if d.tenant_id == tenant && not (is_live d) then insert_deleted d rest else rest

unfoldable pub within : Option (List ℕ) → List Device → List Device
within scope [] = []
within scope (d ∷ devices) =
    let rest = within scope devices in if in_scope scope d.department_id then d ∷ rest else rest

unfoldable pub list_deleted : AuthUser → Store → List Device
list_deleted user s = within (scope_for user s) (deleted_of user.tenant_id s.by_id)

unfoldable pub get_including_deleted : AuthUser → ℕ → Exec Store Device
get_including_deleted user id = get_scoped user id true
