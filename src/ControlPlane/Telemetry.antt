-- ===== src/ControlPlane/Telemetry.antt =====
-- services/control-plane/src/modules/telemetry/telemetry.consumer.ts, with the in-memory position,
-- alert and trip repositories (domain/in-memory.repository.ts) and the in-memory hot state and realtime publisher
-- (integrations/in-memory.ts) that it writes to. A clock stands still while one message is handled; each message
-- comes with its time. `payload` is the field `data`. Timestamps are milliseconds, which compare as the ISO texts of the
-- code do in the years 0 to 9999. A payload is JSON of the normalizer of ingestion or cannot be read: JSON without
-- `fields`, at which the code throws and the batch is lost, is left out.
pub mod Current
pub mod Steps
pub mod Stored
pub mod Hot
pub mod Kept
pub mod Batches
pub mod History
pub mod Removed
use fleet_tracking_system.Common.{
  ℕ, zero, suc, ◌+◌, ◌-◌, ◌*◌, ◌/◌, ◌%◌, ◌≤◌, ◌<◌, List, [], ◌∷◌, ◌++◌, ◌≡◌, ◌≢◌, refl, sym, ap,
  ◌∙◌, arith, Bool, ◌&&◌, ◌||◌, not, true, false, Option, none, some, Text, text_eq, length, take,
  drop, ltb, leb, nat_beq, ◌==◌, nat_eq, if◌then◌else◌, Bool-cases, Option-cases, ◌⊎◌, inl, inr,
  All, map, length-append, length-take, length-drop, append-nil, append_assoc, take-append_le,
  drop-append_le, take-append_eq, drop-append_eq, drop_two, take-append-drop,
}
use fleet_tracking_system.Common.{pair_eq}
use fleet_tracking_system.Common.Int.{ℤ}
use fleet_tracking_system.Common.Dict
use fleet_tracking_system.Common.Dict.{Dict}
use fleet_tracking_system.ControlPlane.Devices.{Device, find_by_imei}
use fleet_tracking_system.ControlPlane.Alerts.{
  Position, AlertConfig, AlertEvent, States, default_alert_config, evaluate, sweep_offline,
}
use fleet_tracking_system.ControlPlane.Trips
use fleet_tracking_system.ControlPlane.Trips.{Trip, TripState, TripDetectorOptions}

pub record TelemetryMessage : Type 0 where
  pub imei : Text
  pub payload : Text

-- `ignition` is `fields.ignition`; the fields that no decision depends on are left out, as in `Position`.
pub record Normalized : Type 0 where
  pub imei : Text
  pub ts : ℕ
  pub latitude : ℤ
  pub longitude : ℤ
  pub speed_kph : ℕ
  pub ignition : Option ℕ

-- What is taken as given: the geometry and the distances of the engines, the options of the trip detector,
-- and JSON.parse.
pub record Engines (G D : Type 0) : Type 0 where
  pub geofences_containing : List G → Position → List ℕ
  pub zero_m : D
  pub add : D → D → D
  pub round : D → D
  pub haversine_meters : ℤ → ℤ → ℤ → ℤ → D
  pub opts : TripDetectorOptions
  pub parse : Text → Option Normalized

pub record DeviceRef : Type 0 where
  pub tenant_id : ℕ
  pub device_id : ℕ

pub record Hit : Type 0 where
  pub ref : Option DeviceRef
  pub expires_at : ℕ

abbrev pub negative_cache_ms : ℕ
negative_cache_ms = 10000

abbrev pub positive_cache_ms : ℕ
positive_cache_ms = 30000

abbrev pub cache_ttl_ms : ℕ
cache_ttl_ms = 15000

-- The consumer with all that it reads and writes: `devices`, `geofences` and `alert_config` are the
-- repositories that requests change, `live` and `live_alerts` what went out to browsers, `notified`
-- the alerts given to the dispatcher.
pub record Consumer (G D : Type 0) : Type 0 where
  pub imei_cache : Dict Text Hit
  pub geofence_cache : Dict ℕ (ℕ × List G)
  pub config_cache : Dict ℕ (ℕ × AlertConfig)
  pub alert_states : States
  pub trip_states : Dict ℕ (TripState D)
  pub devices : Dict ℕ Device
  pub geofences : ℕ → List G
  pub alert_config : ℕ → AlertConfig
  pub positions : List Position
  pub hot : Dict (ℕ × ℕ) Position
  pub live : List Position
  pub alerts : List AlertEvent
  pub live_alerts : List AlertEvent
  pub notified : List AlertEvent
  pub trips : List (Trip D)

unfoldable pub ref_of : Option Device → Option DeviceRef
ref_of none = none
ref_of (some d) = some (record { tenant_id = d.tenant_id; device_id = d.id })

unfoldable pub ttl : Option DeviceRef → ℕ
ttl none = negative_cache_ms
ttl (some ref) = positive_cache_ms

-- What the caches answer at a time, where an entry is there and has not ended.
unfoldable pub fresh_hit : ℕ → Option Hit → Option Hit
fresh_hit at none = none
fresh_hit at (some hit) = if ltb at hit.expires_at then some hit else none

unfoldable pub fresh_value {ℓ} : {A : Type ℓ} → ℕ → Option (ℕ × A) → Option A
fresh_value at none = none
fresh_value at (some (since, a)) = if ltb (at - since) cache_ttl_ms then some a else none

unfoldable pub to_position : DeviceRef → Normalized → Position
to_position ref n = record {
  tenant_id = ref.tenant_id;
  device_id = ref.device_id;
  imei = n.imei;
  ts = n.ts;
  latitude = n.latitude;
  longitude = n.longitude;
  speed_kph = n.speed_kph;
  ignition = elim n.ignition [ none ↦ none | some ign ↦ some (ign == 1) ];
}

module _ {G D : Type 0} where
  unfoldable pub look_up : ℕ → Text → Consumer G D → Option DeviceRef × Consumer G D
  look_up at imei c =
      let ref = ref_of (find_by_imei imei c.devices) in
      (
        ref,
        record c {
          imei_cache = Dict.set imei (record { ref = ref; expires_at = at + ttl ref }) c.imei_cache;
        },
      )

  unfoldable pub resolve_device : ℕ → Text → Consumer G D → Option DeviceRef × Consumer G D
  resolve_device at imei c = elim (fresh_hit at (Dict.get imei c.imei_cache)) [
    | none ↦ look_up at imei c
    | some hit ↦ (hit.ref, c)
  ]

  unfoldable pub forget_imei : Text → Consumer G D → Consumer G D
  forget_imei imei c = record c { imei_cache = Dict.delete imei c.imei_cache }

  unfoldable pub geofences_for : ℕ → ℕ → Consumer G D → List G × Consumer G D
  geofences_for at tenant c = elim (fresh_value at (Dict.get tenant c.geofence_cache)) [
    | none ↦
        let fences = c.geofences tenant in
        (fences, record c { geofence_cache = Dict.set tenant (at, fences) c.geofence_cache })
    | some fences ↦ (fences, c)
  ]

  unfoldable pub config_for : ℕ → ℕ → Consumer G D → AlertConfig × Consumer G D
  config_for at tenant c = elim (fresh_value at (Dict.get tenant c.config_cache)) [
    | none ↦
        let config = c.alert_config tenant in
        (config, record c { config_cache = Dict.set tenant (at, config) c.config_cache })
    | some config ↦ (config, c)
  ]

  -- `publishAlert` and `dispatchNotification` of each alert, one after the other.
  unfoldable pub publish_alerts : List AlertEvent → Consumer G D → Consumer G D
  publish_alerts [] c = c
  publish_alerts (a ∷ events) c =
      publish_alerts events
        (record c { live_alerts = c.live_alerts ++ a ∷ []; notified = c.notified ++ a ∷ [] })

  -- `insertMany`, which does not fail in memory, and then the alerts go out.
  unfoldable pub raise_alerts : List AlertEvent → Consumer G D → Consumer G D
  raise_alerts events c = publish_alerts events (record c { alerts = c.alerts ++ events })

  unfoldable pub run_offline_sweep : ℕ → Consumer G D → Consumer G D
  run_offline_sweep now c =
      let swept = sweep_offline now default_alert_config c.alert_states in
      raise_alerts swept.0 (record c { alert_states = swept.1 })

  unfoldable pub insert_trip : Option (Trip D) → Consumer G D → Consumer G D
  insert_trip none c = c
  insert_trip (some trip) c = record c { trips = c.trips ++ trip ∷ [] }

  unfoldable pub insert_many : List Position → Consumer G D → Consumer G D
  insert_many rows c = record c { positions = c.positions ++ rows }

  -- The last loop of `process`: setLast and publish.
  unfoldable pub publish_latest : Dict ℕ Position → Consumer G D → Consumer G D
  publish_latest [] c = c
  publish_latest ((id, pos) ∷ latest) c = publish_latest latest (record c {
    hot = Dict.set (pos.tenant_id, pos.device_id) pos c.hot;
    live = c.live ++ pos ∷ [];
  })

unfoldable pub newer : Position → Option Position → Bool
newer pos none = true
newer pos (some prev) = ltb prev.ts pos.ts

-- The update of `latestPerDevice`.
unfoldable pub keep_latest : Position → Dict ℕ Position → Dict ℕ Position
keep_latest pos latest =
    if newer pos (Dict.get pos.device_id latest) then Dict.set pos.device_id pos latest else latest

module _ {G D : Type 0} (engines : Engines G D) where
  unfoldable pub evaluate_alerts : ℕ → ℕ → Position → Consumer G D → Consumer G D
  evaluate_alerts now at pos c =
      let (config, c1) = config_for at pos.tenant_id c in
      let (fences, c2) = geofences_for at pos.tenant_id c1 in
      let (events, states) =
        evaluate engines.geofences_containing pos config fences now c2.alert_states in
      raise_alerts events (record c2 { alert_states = states })

  unfoldable pub detect_trip : Position → Consumer G D → Consumer G D
  detect_trip pos c =
      let (trip, states) =
        Trips.update engines.zero_m engines.add engines.round engines.haversine_meters engines.opts
          pos c.trip_states in
      insert_trip trip (record c { trip_states = states })

  -- The loop of `process`, from what it has collected.
  unfoldable pub process_messages :
      ℕ
      → List (ℕ × TelemetryMessage)
      → List Position
      → Dict ℕ Position
      → Consumer G D
      → List Position × (Dict ℕ Position × Consumer G D)
  process_messages now [] rows latest c = (rows, (latest, c))
  process_messages now ((at, msg) ∷ batch) rows latest c =
      let (ref, c1) = resolve_device at msg.imei c in
      elim ref [
        | none ↦ process_messages now batch rows latest c1
        | some ref ↦ elim (engines.parse msg.payload) [
          | none ↦ process_messages now batch rows latest c1
          | some n ↦
              let pos = to_position ref n in
              process_messages now batch (rows ++ pos ∷ []) (keep_latest pos latest)
                (detect_trip pos (evaluate_alerts now at pos c1))
        ]
      ]

  unfoldable pub process : ℕ → List (ℕ × TelemetryMessage) → Consumer G D → Consumer G D
  process now batch c =
      let (rows, (latest, c1)) = process_messages now batch [] [] c in
      publish_latest latest (insert_many rows c1)
