-- ===== src/ControlPlane/Trips.antt =====
-- services/control-plane/src/engine/trips.ts. A distance is floating-point in the code, so its type,
-- its sum, its rounding and the distance of two points (engine/geometry.ts) are parameters. Timestamps are
-- milliseconds. The ids of trips are left out.
pub mod Parked
use fleet_tracking_system.Common.{
  ℕ, zero, suc, ◌+◌, ◌-◌, ◌*◌, ◌/◌, ◌%◌, ◌≤◌, ◌<◌, List, [], ◌∷◌, ◌++◌, ◌≡◌, ◌≢◌, refl, sym, ap,
  ◌∙◌, arith, Bool, ◌&&◌, ◌||◌, not, true, false, Option, none, some, Text, text_eq, length, take,
  drop, ltb, leb, nat_beq, ◌==◌, nat_eq, if◌then◌else◌, Bool-cases, Option-cases, ◌⊎◌, inl, inr,
  All, map, length-append, length-take, length-drop, append-nil, append_assoc, take-append_le,
  drop-append_le, take-append_eq, drop-append_eq, drop_two, take-append-drop,
}
use fleet_tracking_system.Common.{max}
use fleet_tracking_system.Common.Int.{ℤ}
use fleet_tracking_system.Common.Dict
use fleet_tracking_system.Common.Dict.{Dict}
use fleet_tracking_system.ControlPlane.Alerts.{Position}

pub record TripDetectorOptions : Type 0 where
  pub move_speed_kph : ℕ
  pub stop_speed_kph : ℕ
  pub stop_min_sec : ℕ

abbrev pub default_options : TripDetectorOptions
default_options = record { move_speed_kph = 5; stop_speed_kph = 3; stop_min_sec = 180 }

pub record Trip (D : Type 0) : Type 0 where
  pub tenant_id : ℕ
  pub device_id : ℕ
  pub start_ts : ℕ
  pub end_ts : ℕ
  pub distance_m : D
  pub max_speed_kph : ℕ
  pub points : ℕ

pub record TripState (D : Type 0) : Type 0 where
  pub moving : Bool
  pub start_ts : ℕ
  pub last_lat : ℤ
  pub last_lon : ℤ
  pub distance_m : D
  pub max_speed_kph : ℕ
  pub points : ℕ
  pub stopped_since_ms : Option ℕ

module _ {D : Type 0} (zero_m : D) (add : D → D → D) (round : D → D)
    (haversine_meters : ℤ → ℤ → ℤ → ℤ → D) (opts : TripDetectorOptions) where
  unfoldable pub idle_state : Position → TripState D
  idle_state pos = record {
    moving = false;
    start_ts = pos.ts;
    last_lat = pos.latitude;
    last_lon = pos.longitude;
    distance_m = zero_m;
    max_speed_kph = 0;
    points = 0;
    stopped_since_ms = none;
  }

  unfoldable pub moving_state : Position → TripState D
  moving_state pos = record {
    moving = true;
    start_ts = pos.ts;
    last_lat = pos.latitude;
    last_lon = pos.longitude;
    distance_m = zero_m;
    max_speed_kph = pos.speed_kph;
    points = 1;
    stopped_since_ms = none;
  }

  unfoldable pub advanced : Position → TripState D → TripState D
  advanced pos st = record st {
    distance_m =
        add st.distance_m (haversine_meters st.last_lat st.last_lon pos.latitude pos.longitude);
    last_lat = pos.latitude;
    last_lon = pos.longitude;
    max_speed_kph = max st.max_speed_kph pos.speed_kph;
    points = st.points + 1;
  }

  unfoldable pub trip_of : Position → TripState D → Trip D
  trip_of pos st = record {
    tenant_id = pos.tenant_id;
    device_id = pos.device_id;
    start_ts = st.start_ts;
    end_ts = pos.ts;
    distance_m = round st.distance_m;
    max_speed_kph = st.max_speed_kph;
    points = st.points;
  }

  unfoldable pub stopped : Position → TripState D → Option ℕ → Option (Trip D) × TripState D
  stopped pos st none = (none, record st { stopped_since_ms = some pos.ts })
  stopped pos st (some since) =
      if leb (since + opts.stop_min_sec * 1000) pos.ts
      then (some (trip_of pos st), idle_state pos)
      else (none, st)

  unfoldable pub on_move : Position → TripState D → Option (Trip D) × TripState D
  on_move pos st =
      let moved = advanced pos st in
      if leb pos.speed_kph opts.stop_speed_kph
      then stopped pos moved moved.stopped_since_ms
      else (none, record moved { stopped_since_ms = none })

  unfoldable pub next_state : Position → Option (TripState D) → Option (Trip D) × TripState D
  next_state pos none =
      (none, (if leb opts.move_speed_kph pos.speed_kph then moving_state pos else idle_state pos))
  next_state pos (some st) =
      if st.moving
      then on_move pos st
      else (none, (if leb opts.move_speed_kph pos.speed_kph then moving_state pos else st))

  unfoldable pub update : Position → Dict ℕ (TripState D) → Option (Trip D) × Dict ℕ (TripState D)
  update pos states =
      let next = next_state pos (Dict.get pos.device_id states) in
      (next.0, Dict.set pos.device_id next.1 states)

  -- Positions one after the other.
  unfoldable pub updates :
      List Position → Dict ℕ (TripState D) → List (Trip D) × Dict ℕ (TripState D)
  updates [] states = ([], states)
  updates (pos ∷ later) states =
      let first = update pos states in
      let rest = updates later first.1 in
      ((elim first.0 [ none ↦ rest.0 | some trip ↦ trip ∷ rest.0 ]), rest.1)
