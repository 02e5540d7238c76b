-- ===== src/ControlPlane/Geofences/Shapes.antt =====
-- The geofences that can be stored.
use fleet_tracking_system.Common.{
  ℕ, ◌≤◌, List, ◌≡◌, arith, Bool, true, Option, none, some, text_eq, length, ltb, nat_eq,
  Bool-cases, Option-cases, inl, inr, All,
}
use mathlib.Core.Path.{subst}
use fleet_tracking_system.Common.Dict
use fleet_tracking_system.Common.Dict.{Dict}
use fleet_tracking_system.ControlPlane.Geofences.{
  CreateGeofenceDto, Shape, circle_shape, polygon_shape, Geofence, circle, polygon, circle_of,
  polygon_of, shape_of, create, owned, remove,
}

module _ {F : Type 0} (nonzero : F → Bool) where
  -- A circle has a radius, a polygon three corners at least.
  abbrev pub Sound : Shape F → Type 0
  Sound (circle_shape lat lon radius) = nonzero radius ≡ true
  Sound (polygon_shape ring) = 3 ≤ length ring

  abbrev pub AllSound : Dict ℕ (Geofence F) → Type 0
  AllSound = All (λ entry. Sound entry.1.shape)

  abbrev SoundIfAny : Option (Shape F) → Type 0
  SoundIfAny none = Unit
  SoundIfAny (some shape) = Sound shape

  circle_of-Sound : (lat lon radius : Option F) → SoundIfAny (circle_of nonzero lat lon radius)
  unfolding circle_of
  circle_of-Sound none lon radius = tt
  circle_of-Sound (some lat) none radius = tt
  circle_of-Sound (some lat) (some lon) none = tt
  circle_of-Sound (some lat) (some lon) (some radius) = elim (Bool-cases (nonzero radius)) [
    | inl fine ↦ rw fine fine
    | inr flat ↦ rw flat tt
  ]

  polygon_of-Sound : (ring : Option (List (F × F))) → SoundIfAny (polygon_of nonzero ring)
  unfolding polygon_of
  polygon_of-Sound none = tt
  polygon_of-Sound (some ring) = elim (Bool-cases (ltb (length ring) 3)) [
    | inl few ↦ rw few tt
    | inr many ↦ rw many (ground arith)
  ]

  shape_of-Sound : (dto : CreateGeofenceDto F) → SoundIfAny (shape_of nonzero dto)
  unfolding shape_of
  shape_of-Sound dto =
      elim dto.kind
        as (λ k. SoundIfAny (elim k [
          | circle ↦ circle_of nonzero dto.center_lat dto.center_lon dto.radius_m
          | polygon ↦ polygon_of nonzero dto.ring
        ])) [
          | circle ↦ circle_of-Sound dto.center_lat dto.center_lon dto.radius_m
          | polygon ↦ polygon_of-Sound dto.ring
        ]

  create-AllSound :
      (tenant fresh : ℕ) (dto : CreateGeofenceDto F) (fences : Dict ℕ (Geofence F))
      → AllSound fences
      → AllSound (create nonzero tenant fresh dto fences).1
  unfolding create
  create-AllSound tenant fresh dto fences h = elim (Option-cases (shape_of nonzero dto)) [
    | inl bad ↦ subst AllSound (ground arith) h
    | inr (shape, e) ↦
        let g : Geofence F = record {
          id = fresh;
          tenant_id = tenant;
          name = dto.name;
          shape = shape;
        } in
        subst AllSound (ground arith) (
          Dict.All-set (λ entry. Sound entry.1.shape) fresh g fences
            (subst SoundIfAny e (shape_of-Sound dto)) h)
  ]

  remove-AllSound :
      (tenant id : ℕ) (fences : Dict ℕ (Geofence F))
      → AllSound fences
      → AllSound (remove tenant id fences).1
  unfolding remove
  remove-AllSound tenant id fences h = elim (Option-cases (owned tenant (Dict.get id fences))) [
    | inl missing ↦ subst AllSound (ground arith) h
    | inr (g, e) ↦
        subst AllSound (ground arith) (Dict.All-delete (λ entry. Sound entry.1.shape) id fences h)
  ]

  -- The requests on geofences, one after the other.
  pub data Run (fences : Dict ℕ (Geofence F)) : Dict ℕ (Geofence F) → Type 0 where
    start : Run fences fences
    created :
        {later : Dict ℕ (Geofence F)} (tenant fresh : ℕ) (dto : CreateGeofenceDto F)
        → Run fences later
        → Run fences (create nonzero tenant fresh dto later).1
    removed :
        {later : Dict ℕ (Geofence F)} (tenant id : ℕ)
        → Run fences later
        → Run fences (remove tenant id later).1

  -- Whatever geofences are created and removed, each that is stored is a circle with a radius other than zero or a
  -- polygon of at least three corners.
  pub Run-AllSound :
      {fences later : Dict ℕ (Geofence F)} → AllSound fences → Run fences later → AllSound later
  Run-AllSound h start = h
  Run-AllSound h (created {later = l} tenant fresh dto r) =
      create-AllSound tenant fresh dto l (Run-AllSound h r)
  Run-AllSound h (removed {later = l} tenant id r) = remove-AllSound tenant id l (Run-AllSound h r)
