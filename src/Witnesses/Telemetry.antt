-- ===== src/Witnesses/Telemetry.antt =====
-- The theorems on the telemetry consumer at concrete values.
use fleet_tracking_system.Common.{
  ℕ, ◌+◌, List, [], ◌∷◌, ◌≡◌, refl, arith, none, some, text_eq, nat_eq, pair_eq,
}
use fleet_tracking_system.Common.Dict
use fleet_tracking_system.Common.Dict.{Dict}
use fleet_tracking_system.Common.Decimal.{codes}
use fleet_tracking_system.Common.Int.{pos}
use fleet_tracking_system.ControlPlane.Http.{ok}
use fleet_tracking_system.ControlPlane.Alerts.{default_alert_config}
use fleet_tracking_system.ControlPlane.Trips.{default_options}
use fleet_tracking_system.ControlPlane.Devices
use fleet_tracking_system.ControlPlane.Devices.{Device, AuthUser, provisioned, tally, remove}
use fleet_tracking_system.ControlPlane.Devices.Changes.{Consistent}
use fleet_tracking_system.ControlPlane.Telemetry.{
  TelemetryMessage, Engines, Consumer, resolve_device, forget_imei, process,
}
use fleet_tracking_system.ControlPlane.Telemetry.Current.{Current, attributed}
use fleet_tracking_system.ControlPlane.Telemetry.Hot.{view, record_all, shown, newest, process_hot}
use fleet_tracking_system.ControlPlane.Telemetry.Batches.{
  Batches, turns, process_all, process_refines,
}
use fleet_tracking_system.ControlPlane.Telemetry.Kept.{first}
use fleet_tracking_system.ControlPlane.Telemetry.History.{
  History, start, handled, at_once, then_handled, process_after_change,
}
use fleet_tracking_system.ControlPlane.Telemetry.Removed.{remove_unattributed}

-- Geofences are not used, distances are numbers, and each payload reads as one position.
abbrev plain : Engines ℕ ℕ
plain = record {
  geofences_containing = λ fences p. [];
  zero_m = 0;
  add = λ a b. a + b;
  round = λ a. a;
  haversine_meters = λ a b c d. 0;
  opts = default_options;
  parse = λ t. some (record {
    imei = codes "356";
    ts = 9;
    latitude = pos 1;
    longitude = pos 2;
    speed_kph = 95;
    ignition = some 1;
  });
}

abbrev tracker : Device
tracker = record {
  id = 20;
  tenant_id = 1;
  imei = codes "356";
  name = none;
  model = 0;
  asset_type = 0;
  status = provisioned;
  department_id = none;
  deleted_at = none;
}

abbrev one_device : Dict ℕ Device
one_device = (20, tracker) ∷ []

abbrev cold : Consumer ℕ ℕ
cold = first one_device (λ t. []) (λ t. default_alert_config)

abbrev message : TelemetryMessage
message = record { imei = codes "356"; payload = [] }

abbrev batch : List (ℕ × TelemetryMessage)
batch = (5, message) ∷ []

cold-Current : Current 0 [] one_device
unfolding Dict.get
cold-Current imei hit e = absurd (ground arith)

abbrev batches : Batches
batches = (5, batch) ∷ (50000, (60000, message) ∷ batch) ∷ []

process_refines_example :
    (view plain (process_all plain batches cold)
      ≡ record_all plain (attributed plain.parse one_device (turns batches)) (view plain cold))
    × Current 0 (process_all plain batches cold).imei_cache (process_all plain batches cold).devices
process_refines_example =
    process_refines plain 0 batches cold cold-Current
      ((omega arith, tt), ((omega arith, (omega arith, tt)), tt))

process_hot_example :
    Dict.get (1, 20) (process plain 5 batch cold).hot
    ≡ shown 1 (newest 20 (attributed plain.parse one_device batch)) (Dict.get (1, 20) cold.hot)
process_hot_example = process_hot plain 0 5 1 20 batch cold cold-Current (omega arith, tt)

after_batch : History plain 6 (process plain 5 batch cold)
after_batch =
    handled 6 5 batch (start one_device (λ t. []) (λ t. default_alert_config)) (omega arith)
      (omega arith, tt)

-- The device is removed, and a batch comes at once, when the cache is still read.
abbrev changed_consumer : Consumer ℕ ℕ
changed_consumer = record (process plain 5 batch cold) { devices = [] }

abbrev busy_consumer : Consumer ℕ ℕ
busy_consumer = process plain 7 ((7, message) ∷ []) changed_consumer

process_after_change_example :
    view plain (process plain 40000 ((40000, message) ∷ []) busy_consumer)
    ≡ record_all plain
        (attributed plain.parse [] ((40000, message) ∷ []))
        (view plain busy_consumer)
process_after_change_example =
    process_after_change plain 40000 [] ((40000, message) ∷ []) busy_consumer after_batch
      (then_handled 7 ((7, message) ∷ []) at_once) (omega arith, tt)

abbrev administrator : AuthUser
administrator = record { tenant_id = 1; department_id = none }

abbrev one_store : Devices.Store
one_store = record {
  by_id = one_device;
  units = [];
  plan_of = λ t. none;
  allowed = codes "356" ∷ [];
  forgotten = [];
}

one_store-Consistent : Consistent one_store
unfolding tally Devices.is_live Devices.sending
one_store-Consistent = record {
  unique = λ i. ground arith;
  synced = λ i. ground (arith, text_eq.beq_iff (codes "356") i);
}

tracker_found : Devices.get administrator 20 one_store ≡ (ok tracker, one_store)
unfolding Devices.get Devices.get_scoped Devices.find_by_id Devices.visible Devices.is_live
    Devices.in_scope Devices.scope_for Dict.get
tracker_found = refl

remove_unattributed_example :
    (resolve_device 7 (codes "356") (
      forget_imei
        (codes "356")
        (record cold { devices = (remove administrator 20 6 one_store).1.by_id }))).0
    ≡ none
remove_unattributed_example =
    remove_unattributed administrator 20 6 7 one_store tracker cold one_store-Consistent
      tracker_found
