-- ===== src/ControlPlane/Geofences.antt =====
-- services/control-plane/src/modules/geofences/geofences.ts, with InMemoryGeofenceRepository. Coordinates and
-- radii are floating-point in the code, a parameter type here, with the test whether a radius is a number other than zero.
pub mod Shapes
use fleet_tracking_system.Common.{
  ℕ, zero, suc, ◌+◌, ◌-◌, ◌*◌, ◌/◌, ◌%◌, ◌≤◌, ◌<◌, List, [], ◌∷◌, ◌++◌, ◌≡◌, ◌≢◌, refl, sym, ap,
  ◌∙◌, arith, Bool, ◌&&◌, ◌||◌, not, true, false, Option, none, some, Text, text_eq, length, take,
  drop, ltb, leb, nat_beq, ◌==◌, nat_eq, if◌then◌else◌, Bool-cases, Option-cases, ◌⊎◌, inl, inr,
  All, map, length-append, length-take, length-drop, append-nil, append_assoc, take-append_le,
  drop-append_le, take-append_eq, drop-append_eq, drop_two, take-append-drop,
}
use fleet_tracking_system.Common.Dict
use fleet_tracking_system.Common.Dict.{Dict}
use fleet_tracking_system.ControlPlane.Http.{Fault, Result, ok, err, bad_request, not_found}

pub data Kind : Type 0 where
  circle polygon : Kind

module _ (F : Type 0) where
  pub record CreateGeofenceDto : Type 0 where
    pub name : ℕ
    pub kind : Kind
    pub center_lat : Option F
    pub center_lon : Option F
    pub radius_m : Option F
    pub ring : Option (List (F × F))

  pub data Shape : Type 0 where
    circle_shape : F → F → F → Shape
    polygon_shape : List (F × F) → Shape

  pub record Geofence : Type 0 where
    pub id : ℕ
    pub tenant_id : ℕ
    pub name : ℕ
    pub shape : Shape

module _ {F : Type 0} (nonzero : F → Bool) where
  unfoldable pub circle_of : Option F → Option F → Option F → Option (Shape F)
  circle_of (some lat) (some lon) (some radius) =
      if nonzero radius then some (circle_shape lat lon radius) else none
  circle_of none lon radius = none
  circle_of (some lat) none radius = none
  circle_of (some lat) (some lon) none = none

  unfoldable pub polygon_of : Option (List (F × F)) → Option (Shape F)
  polygon_of none = none
  polygon_of (some ring) = if ltb (length ring) 3 then none else some (polygon_shape ring)

  unfoldable pub shape_of : CreateGeofenceDto F → Option (Shape F)
  shape_of dto = elim dto.kind [
    | circle ↦ circle_of dto.center_lat dto.center_lon dto.radius_m
    | polygon ↦ polygon_of dto.ring
  ]

  unfoldable pub create :
      ℕ → ℕ → CreateGeofenceDto F → Dict ℕ (Geofence F) → Result (Geofence F) × Dict ℕ (Geofence F)
  create tenant fresh dto fences = elim (shape_of dto) [
    | none ↦ (err bad_request, fences)
    | some shape ↦
        let g : Geofence F = record {
          id = fresh;
          tenant_id = tenant;
          name = dto.name;
          shape = shape;
        } in
        (ok g, Dict.set fresh g fences)
  ]

unfoldable pub owned : {F : Type 0} → ℕ → Option (Geofence F) → Option (Geofence F)
owned tenant none = none
owned tenant (some g) = if g.tenant_id == tenant then some g else none

unfoldable pub remove :
    {F : Type 0} → ℕ → ℕ → Dict ℕ (Geofence F) → Result (Unit {0}) × Dict ℕ (Geofence F)
remove tenant id fences = elim (owned tenant (Dict.get id fences)) [
  | none ↦ (err not_found, fences)
  | some g ↦ (ok tt, Dict.delete id fences)
]
