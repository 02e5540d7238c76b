-- ===== src/ControlPlane/Telemetry/Stored.antt =====
-- What `process` stores of a batch.
use fleet_tracking_system.Common.{
  ℕ, List, [], ◌∷◌, ◌++◌, ◌≡◌, refl, sym, ap, ◌∙◌, arith, Text, text_eq, nat_eq, Option-cases, inl,
  inr, append-nil, append_assoc,
}
use mathlib.Core.Path.{subst}
use fleet_tracking_system.Common.Dict.{Dict}
use fleet_tracking_system.ControlPlane.Devices.{Device, find_by_imei}
use fleet_tracking_system.ControlPlane.Alerts.{Position}
use fleet_tracking_system.ControlPlane.Trips
use fleet_tracking_system.ControlPlane.Trips.{Trip, TripState, TripDetectorOptions}
use fleet_tracking_system.ControlPlane.Telemetry.{
  TelemetryMessage, Engines, Hit, Consumer, ref_of, to_position, resolve_device, keep_latest,
  process_messages,
}
use fleet_tracking_system.ControlPlane.Telemetry.Current.{
  Current, Current-eq, From, resolve_device_frame, resolve_device-Current, attributed,
  attributed_none, attributed_skip, attributed_unread, attributed_take,
}
use fleet_tracking_system.ControlPlane.Telemetry.Steps.{
  keep_all, run, alert, trip, all_trips, alert-Frame, step_skip, step_unread, step_take, trip-step,
  trip_frame,
}

module _ {G D : Type 0} (engines : Engines G D) where
  -- What the loop of `process` gives from `c`, when the batch's positions are `found`.
  pub record Outcome (t : ℕ) (c : Consumer G D) (found : List Position) (rows : List Position)
      (latest : Dict ℕ Position) (r : List Position × (Dict ℕ Position × Consumer G D))
      : Type 0 where
    pub collected : r.0 ≡ rows ++ found
    pub kept : r.1.0 ≡ keep_all found latest
    pub trips : r.1.1.trips ≡ c.trips ++ (all_trips engines found c.trip_states).0
    pub trip_states : r.1.1.trip_states ≡ (all_trips engines found c.trip_states).1
    pub positions : r.1.1.positions ≡ c.positions
    pub hot : r.1.1.hot ≡ c.hot
    pub live : r.1.1.live ≡ c.live
    pub devices : r.1.1.devices ≡ c.devices
    pub current : Current t r.1.1.imei_cache c.devices

  abbrev found_in : Dict ℕ Device → List (ℕ × TelemetryMessage) → List Position
  found_in = attributed engines.parse

  -- The outcome from a consumer that differs in its cache only.
  Outcome-cache :
      (t : ℕ) (c : Consumer G D) (cache : Dict Text Hit) (found rows : List Position)
      (latest : Dict ℕ Position) (r : List Position × (Dict ℕ Position × Consumer G D))
      → Outcome t (record c { imei_cache = cache }) found rows latest r
      → Outcome t c found rows latest r
  Outcome-cache t c cache found rows latest r o = record {
    collected = o.collected;
    kept = o.kept;
    trips = o.trips;
    trip_states = o.trip_states;
    positions = o.positions;
    hot = o.hot;
    live = o.live;
    devices = o.devices;
    current = o.current;
  }

  -- One more position before the others.
  Outcome-take :
      (t now at : ℕ) (c : Consumer G D) (pos : Position) (found rows : List Position)
      (latest : Dict ℕ Position) (r : List Position × (Dict ℕ Position × Consumer G D))
      → Outcome t
          (trip engines pos (alert engines now at pos c))
          found
          (rows ++ pos ∷ [])
          (keep_latest pos latest)
          r
      → Outcome t c (pos ∷ found) rows latest r
  Outcome-take t now at c pos found rows latest r o =
      let a = alert-Frame engines now at pos c in
      let d = alert engines now at pos c in
      let s = trip-step engines pos found d in
      let f = trip_frame engines pos d in
      record {
        collected = ground (arith, o.collected, append_assoc rows (pos ∷ []) found);
        kept = o.kept;
        trips = ground (arith, o.trips, s, a.trips, a.trip_states);
        trip_states = ground (arith, o.trip_states, s, a.trip_states);
        positions = ground (arith, o.positions, f, a.positions);
        hot = ground (arith, o.hot, f, a.hot);
        live = ground (arith, o.live, f, a.live);
        devices = ground (arith, o.devices, f, a.devices);
        current = rw (← a.devices, ← f.1.0) (o.current);
      }

  Outcome-at :
      (t : ℕ) (c : Consumer G D) (cache : Dict Text Hit) {found found' rows : List Position}
      {latest : Dict ℕ Position} {r r' : List Position × (Dict ℕ Position × Consumer G D)}
      → found ≡ found'
      → r ≡ r'
      → Outcome t (record c { imei_cache = cache }) found' rows latest r'
      → Outcome t c found rows latest r
  Outcome-at t c cache e f o = rw (e, f) (Outcome-cache t c cache _ _ _ _ o)

  process_messages_none :
      (t now : ℕ) (rows : List Position) (latest : Dict ℕ Position) (c : Consumer G D)
      → Current t c.imei_cache c.devices
      → Outcome t c [] rows latest (run engines now [] rows latest c)
  unfolding process_messages Trips.updates
  process_messages_none t now rows latest c h = record {
    collected = sym (append-nil rows);
    kept = refl;
    trips = sym (append-nil c.trips);
    trip_states = refl;
    positions = refl;
    hot = refl;
    live = refl;
    devices = refl;
    current = h;
  }

  pub process_messages-Outcome :
      (t now : ℕ) (batch : List (ℕ × TelemetryMessage)) (rows : List Position)
      (latest : Dict ℕ Position) (c : Consumer G D)
      → Current t c.imei_cache c.devices
      → From t batch
      → Outcome t c
          (attributed engines.parse c.devices batch)
          rows
          latest
          (run engines now batch rows latest c)
  process_messages-Outcome t now [] rows latest c h from =
      rw (attributed_none engines.parse c.devices) (process_messages_none t now rows latest c h)
  process_messages-Outcome t now ((at, msg) ∷ batch) rows latest c h (le, from) =
      let (same, cur) = resolve_device-Current t at msg.imei c h le in
      let frame = resolve_device_frame at msg.imei c in
      let cache = (resolve_device at msg.imei c).1.imei_cache in
      let d = record c { imei_cache = cache } in
      elim (Option-cases (ref_of (find_by_imei msg.imei c.devices))) [
        | inl unknown ↦
            Outcome-at t c cache (attributed_skip engines.parse c.devices at msg batch unknown)
              (step_skip engines now at msg batch rows latest c (same ∙ unknown)
                ∙ ap (λ b. run engines now batch rows latest b) frame)
              (process_messages-Outcome t now batch rows latest d cur from)
        | inr (ref, e) ↦ elim (Option-cases (engines.parse msg.payload)) [
          | inl bad ↦
              Outcome-at t c cache
                (attributed_unread engines.parse c.devices at msg batch ref e bad)
                (step_unread engines now at msg batch rows latest c ref (same ∙ e) bad
                  ∙ ap (λ b. run engines now batch rows latest b) frame)
                (process_messages-Outcome t now batch rows latest d cur from)
          | inr (n, p) ↦
              let pos = to_position ref n in
              let d' = trip engines pos (alert engines now at pos d) in
              let a = alert-Frame engines now at pos d in
              let f = trip_frame engines pos (alert engines now at pos d) in
              Outcome-at t c cache (attributed_take engines.parse c.devices at msg batch ref n e p)
                (step_take engines now at msg batch rows latest c ref n (same ∙ e) p
                  ∙ ap
                      (λ b.
                        run engines now batch (rows ++ pos ∷ []) (keep_latest pos latest)
                          (trip engines pos (alert engines now at pos b)))
                      frame)
                (Outcome-take t now at d pos _ rows latest _ (
                  subst
                    (λ ds.
                      Outcome t d' (attributed engines.parse ds batch) (rows ++ pos ∷ [])
                        (keep_latest pos latest)
                        (run engines now batch (rows ++ pos ∷ []) (keep_latest pos latest) d'))
                    (f.1.0 ∙ a.devices)
                    (process_messages-Outcome t now batch _ _ d'
                      (Current-eq t (f.0 ∙ a.imei_cache) (f.1.0 ∙ a.devices) cur) from)))
        ]
      ]
