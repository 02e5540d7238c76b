-- ===== src/ControlPlane/Vehicles.antt =====
-- services/control-plane/src/modules/vehicles/vehicles.ts, with InMemoryVehicleRepository. The link of a
-- device to its vehicle is the device's `vehicleId`, here a map of its own beside the devices.
pub mod Links
use fleet_tracking_system.Common.{
  ℕ, zero, suc, ◌+◌, ◌-◌, ◌*◌, ◌/◌, ◌%◌, ◌≤◌, ◌<◌, List, [], ◌∷◌, ◌++◌, ◌≡◌, ◌≢◌, refl, sym, ap,
  ◌∙◌, arith, Bool, ◌&&◌, ◌||◌, not, true, false, Option, none, some, Text, text_eq, length, take,
  drop, ltb, leb, nat_beq, ◌==◌, nat_eq, if◌then◌else◌, Bool-cases, Option-cases, ◌⊎◌, inl, inr,
  All, map, length-append, length-take, length-drop, append-nil, append_assoc, take-append_le,
  drop-append_le, take-append_eq, drop-append_eq, drop_two, take-append-drop,
}
use fleet_tracking_system.Common.Dict
use fleet_tracking_system.Common.Dict.{Dict}
use fleet_tracking_system.ControlPlane.Http.{Fault, Result, ok, err, not_found, internal}

pub record Vehicle : Type 0 where
  pub id : ℕ
  pub tenant_id : ℕ
  pub name : ℕ
  pub device_id : Option ℕ

-- `has_device` tells whether a tenant has a live device of an id; `vehicle_of` is the devices' `vehicleId`.
pub record Fleet : Type 0 where
  pub vehicles : Dict ℕ Vehicle
  pub has_device : ℕ → ℕ → Bool
  pub vehicle_of : Dict ℕ ℕ

unfoldable pub owned : ℕ → Option Vehicle → Option Vehicle
owned tenant none = none
owned tenant (some v) = if v.tenant_id == tenant then some v else none

unfoldable pub find_by_id : ℕ → ℕ → Fleet → Option Vehicle
find_by_id tenant id s = owned tenant (Dict.get id s.vehicles)

unfoldable pub create : ℕ → ℕ → ℕ → Fleet → Result Vehicle × Fleet
create tenant fresh name s =
    let v : Vehicle = record { id = fresh; tenant_id = tenant; name = name; device_id = none } in
    (ok v, record s { vehicles = Dict.set fresh v s.vehicles })

unfoldable pub set_device : ℕ → ℕ → ℕ → Fleet → Result (Option Vehicle) × Fleet
set_device tenant id device s = elim (find_by_id tenant id s) [
  | none ↦ (ok none, s)
  | some v ↦
      let next : Vehicle = record v { device_id = some device } in
      (ok (some next), record s { vehicles = Dict.set id next s.vehicles })
]

unfoldable pub link_device : ℕ → ℕ → ℕ → Fleet → Result (Option Vehicle) × Fleet
link_device tenant vehicle device s = elim (find_by_id tenant vehicle s) [
  | none ↦ (err not_found, s)
  | some v ↦
      let linked : Fleet = record s { vehicle_of = Dict.set device vehicle s.vehicle_of } in
      if s.has_device tenant device
      then set_device tenant vehicle device linked
      else (err not_found, s)
]
