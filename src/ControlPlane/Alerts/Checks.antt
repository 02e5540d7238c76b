-- ===== src/ControlPlane/Alerts/Checks.antt =====
-- What each check of alerts.ts leaves alone, and which geofences it takes for crossed.
use fleet_tracking_system.Common.{
  ℕ, List, [], ◌∷◌, ◌≡◌, refl, arith, Bool, not, Option, none, some, nat_eq, map,
}
use fleet_tracking_system.Common.{select, contains}
use fleet_tracking_system.ControlPlane.Alerts.{
  Position, AlertType, DeviceAlertState, emit, check_overspeed, check_ignition, crossings,
  check_geofences,
}

pub crossings_exact :
    (kind : ℕ → AlertType) (pos : Position) (ids others : List ℕ)
    → crossings kind pos ids others
      ≡ map (λ id. emit pos (kind id)) (select (λ id. not (contains id others)) ids)
unfolding crossings
crossings_exact kind pos [] others = refl
crossings_exact kind pos (id ∷ ids) others = ground (arith, crossings_exact kind pos ids others)

pub overspeed_keeps :
    (pos : Position) (limit : Option ℕ) (st : DeviceAlertState)
    → ((check_overspeed pos limit st).1.last_ignition ≡ st.last_ignition)
      × ((check_overspeed pos limit st).1.inside_geofences ≡ st.inside_geofences)
unfolding check_overspeed
overspeed_keeps pos none st = (refl, refl)
overspeed_keeps pos (some limit) st = (refl, refl)

pub ignition_keeps :
    (pos : Position) (alerts : Bool) (ignition : Option Bool) (st : DeviceAlertState)
    → ((check_ignition pos alerts ignition st).1.overspeed_active ≡ st.overspeed_active)
      × ((check_ignition pos alerts ignition st).1.inside_geofences ≡ st.inside_geofences)
unfolding check_ignition
ignition_keeps pos alerts none st = (refl, refl)
ignition_keeps pos alerts (some on) st = (ground arith, ground arith)

pub geofences_keep :
    (pos : Position) (alerts : Bool) (now_inside : List ℕ) (st : DeviceAlertState)
    → ((check_geofences pos alerts now_inside st).1.overspeed_active ≡ st.overspeed_active)
      × ((check_geofences pos alerts now_inside st).1.last_ignition ≡ st.last_ignition)
unfolding check_geofences
geofences_keep pos alerts now_inside st = (ground arith, ground arith)
