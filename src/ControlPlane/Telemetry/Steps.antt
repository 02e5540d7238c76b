-- ===== src/ControlPlane/Telemetry/Steps.antt =====
-- The loop of `process`, one message at a time.
use fleet_tracking_system.Common.{
  ℕ, List, [], ◌∷◌, ◌++◌, ◌≡◌, refl, arith, none, some, text_eq, nat_eq, Option-cases, inl, inr,
  append_assoc,
}
use fleet_tracking_system.Common.Dict.{Dict}
use fleet_tracking_system.ControlPlane.Alerts.{Position, AlertEvent, evaluate}
use fleet_tracking_system.ControlPlane.Trips
use fleet_tracking_system.ControlPlane.Trips.{Trip, TripState, TripDetectorOptions}
use fleet_tracking_system.ControlPlane.Telemetry.{
  TelemetryMessage, Engines, Normalized, DeviceRef, Consumer, to_position, resolve_device,
  config_for, geofences_for, raise_alerts, publish_alerts, insert_trip, keep_latest,
  evaluate_alerts, detect_trip, process_messages,
}
use fleet_tracking_system.ControlPlane.Telemetry.Current.{
  Frame, config_for-Frame, geofences_for-Frame,
}

-- The entries of `latestPerDevice` after positions, one after the other.
abbrev pub keep_all : List Position → Dict ℕ Position → Dict ℕ Position
keep_all [] latest = latest
keep_all (pos ∷ later) latest = keep_all later (keep_latest pos latest)

publish_alerts-Frame :
    {G D : Type 0} (events : List AlertEvent) (c : Consumer G D) → Frame c (publish_alerts events c)
unfolding publish_alerts
publish_alerts-Frame [] c = ground arith
publish_alerts-Frame (a ∷ events) c =
    let f =
      publish_alerts-Frame events
        (record c { live_alerts = c.live_alerts ++ a ∷ []; notified = c.notified ++ a ∷ [] }) in
    record {
      imei_cache = f.imei_cache;
      devices = f.devices;
      positions = f.positions;
      hot = f.hot;
      live = f.live;
      trips = f.trips;
      trip_states = f.trip_states;
    }

pub raise_alerts-Frame :
    {G D : Type 0} (events : List AlertEvent) (c : Consumer G D) → Frame c (raise_alerts events c)
unfolding raise_alerts
raise_alerts-Frame events c =
    let f = publish_alerts-Frame events (record c { alerts = c.alerts ++ events }) in
    record {
      imei_cache = f.imei_cache;
      devices = f.devices;
      positions = f.positions;
      hot = f.hot;
      live = f.live;
      trips = f.trips;
      trip_states = f.trip_states;
    }

module _ {G D : Type 0} (engines : Engines G D) where
  abbrev pub run :
      ℕ
      → List (ℕ × TelemetryMessage)
      → List Position
      → Dict ℕ Position
      → Consumer G D
      → List Position × (Dict ℕ Position × Consumer G D)
  run = process_messages engines

  abbrev pub alert : ℕ → ℕ → Position → Consumer G D → Consumer G D
  alert = evaluate_alerts engines

  abbrev pub trip : Position → Consumer G D → Consumer G D
  trip = detect_trip engines

  abbrev pub all_trips : List Position → Dict ℕ (TripState D) → List (Trip D) × Dict ℕ (TripState D)
  all_trips =
      Trips.updates engines.zero_m engines.add engines.round engines.haversine_meters engines.opts

  pub alert-Frame : (now at : ℕ) (pos : Position) (c : Consumer G D) → Frame c (alert now at pos c)
  unfolding evaluate_alerts
  alert-Frame now at pos c =
      let (config, c1) = config_for at pos.tenant_id c in
      let (fences, c2) = geofences_for at pos.tenant_id c1 in
      let (events, states) =
        evaluate engines.geofences_containing pos config fences now c2.alert_states in
      ground (
        arith,
        config_for-Frame at pos.tenant_id c,
        geofences_for-Frame at pos.tenant_id c1,
        raise_alerts-Frame events (record c2 { alert_states = states }),
      )

  pub step_none :
      (now : ℕ) (rows : List Position) (latest : Dict ℕ Position) (c : Consumer G D)
      → run now [] rows latest c ≡ (rows, (latest, c))
  unfolding process_messages
  step_none now rows latest c = refl

  pub step_skip :
      (now at : ℕ) (msg : TelemetryMessage) (batch : List (ℕ × TelemetryMessage))
      (rows : List Position) (latest : Dict ℕ Position) (c : Consumer G D)
      → (resolve_device at msg.imei c).0 ≡ none
      → run now ((at, msg) ∷ batch) rows latest c
        ≡ run now batch rows latest (resolve_device at msg.imei c).1
  unfolding process_messages
  step_skip now at msg batch rows latest c e = ground arith

  pub step_unread :
      (now at : ℕ) (msg : TelemetryMessage) (batch : List (ℕ × TelemetryMessage))
      (rows : List Position) (latest : Dict ℕ Position) (c : Consumer G D) (ref : DeviceRef)
      → (resolve_device at msg.imei c).0 ≡ some ref
      → engines.parse msg.payload ≡ none
      → run now ((at, msg) ∷ batch) rows latest c
        ≡ run now batch rows latest (resolve_device at msg.imei c).1
  unfolding process_messages
  step_unread now at msg batch rows latest c ref e p = ground arith

  pub step_take :
      (now at : ℕ) (msg : TelemetryMessage) (batch : List (ℕ × TelemetryMessage))
      (rows : List Position) (latest : Dict ℕ Position) (c : Consumer G D) (ref : DeviceRef)
      (n : Normalized)
      → (resolve_device at msg.imei c).0 ≡ some ref
      → engines.parse msg.payload ≡ some n
      → run now ((at, msg) ∷ batch) rows latest c
        ≡ run now batch (rows ++ to_position ref n ∷ []) (keep_latest (to_position ref n) latest) (
            trip
              (to_position ref n)
              (alert now at (to_position ref n) (resolve_device at msg.imei c).1))
  unfolding process_messages
  step_take now at msg batch rows latest c ref n e p = ground arith

  pub trip-step :
      (pos : Position) (later : List Position) (c : Consumer G D)
      → ((trip pos c).trips ++ (all_trips later (trip pos c).trip_states).0
          ≡ c.trips ++ (all_trips (pos ∷ later) c.trip_states).0)
        × ((all_trips later (trip pos c).trip_states).1 ≡ (all_trips (pos ∷ later) c.trip_states).1)
  unfolding detect_trip insert_trip Trips.updates
  trip-step pos later c =
      elim (Option-cases
        (Trips.update engines.zero_m engines.add engines.round engines.haversine_meters engines.opts
          pos c.trip_states).0) [
            | inl quiet ↦ ground arith
            | inr (closed, e) ↦ ground (
              arith,
              append_assoc c.trips (closed ∷ [])
                  (all_trips later
                    (Trips.update engines.zero_m engines.add engines.round engines.haversine_meters
                      engines.opts pos c.trip_states).1).0,
            )
          ]

  pub trip_frame :
      (pos : Position) (c : Consumer G D)
      → ((trip pos c).imei_cache ≡ c.imei_cache)
        × (((trip pos c).devices ≡ c.devices)
            × (((trip pos c).positions ≡ c.positions)
                × (((trip pos c).hot ≡ c.hot) × ((trip pos c).live ≡ c.live))))
  unfolding detect_trip insert_trip
  trip_frame pos c =
      elim (Option-cases
        (Trips.update engines.zero_m engines.add engines.round engines.haversine_meters engines.opts
          pos c.trip_states).0) [ inl quiet ↦ ground arith | inr (closed, e) ↦ ground arith ]
