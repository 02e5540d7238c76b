-- ===== src/ControlPlane/Vehicles/Links.antt =====
-- What linking a device to a vehicle does to both sides.
use fleet_tracking_system.Common.{
  ℕ, ◌≡◌, ◌≢◌, arith, ◌&&◌, some, text_eq, ◌==◌, nat_eq, Bool-cases, Option-cases, ◌⊎◌, inl, inr,
}
use fleet_tracking_system.Common.{==_refl}
use fleet_tracking_system.Common.Dict
use fleet_tracking_system.ControlPlane.Http.{err, not_found}
use fleet_tracking_system.ControlPlane.Vehicles.{
  Vehicle, Fleet, owned, find_by_id, set_device, link_device,
}

-- A link is refused, with nothing changed, where the tenant has no such vehicle or no such device; else the device
-- points to the vehicle and the vehicle to the device. But a vehicle that pointed to the device before keeps pointing to
-- it: afterwards two vehicles claim one device.
pub link_device_outcome :
    (tenant vehicle device : ℕ) (s : Fleet)
    → (link_device tenant vehicle device s ≡ (err not_found, s))
      ⊎ ((v : Vehicle) × ((find_by_id tenant vehicle s ≡ some v)
            × ((find_by_id tenant vehicle (link_device tenant vehicle device s).1
                  ≡ some (record v { device_id = some device }))
                × ((Dict.get device (link_device tenant vehicle device s).1.vehicle_of
                      ≡ some vehicle)
                    × ((other : ℕ)
                        → other ≢ vehicle
                        → Dict.get other (link_device tenant vehicle device s).1.vehicles
                          ≡ Dict.get other s.vehicles)))))
unfolding link_device set_device find_by_id owned
link_device_outcome tenant vehicle device s = elim (Option-cases (Dict.get vehicle s.vehicles)) [
  | inl missing ↦ inl (ground arith)
  | inr (v, there) ↦ elim (Bool-cases (v.tenant_id == tenant && s.has_device tenant device)) [
    | inr refused ↦ inl (ground arith)
    | inl may ↦
        let next : Vehicle = record v { device_id = some device } in
        inr (
          v,
          (
            ground arith,
            (
              ground (arith, Dict.get-set vehicle vehicle next s.vehicles, ==_refl vehicle),
              (
                ground (arith, Dict.get-set device device vehicle s.vehicle_of, ==_refl device),
                λ other ne. ground (
                  arith,
                  Dict.get-set vehicle other next s.vehicles,
                  nat_eq.beq_iff vehicle other,
                  ne,
                ),
              ),
            ),
          ),
        )
  ]
]
