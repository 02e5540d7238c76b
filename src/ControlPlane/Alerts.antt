-- ===== src/ControlPlane/Alerts.antt =====
-- services/control-plane/src/engine/alerts.ts. Identifiers and times are numbers, speeds whole
-- numbers; the ids and the messages of events are left out. The test which geofences contain a position
-- works on floating-point numbers and is a parameter, `geofences_containing`.
pub mod Checks
pub mod Edges
use fleet_tracking_system.Common.{
  ℕ, zero, suc, ◌+◌, ◌-◌, ◌*◌, ◌/◌, ◌%◌, ◌≤◌, ◌<◌, List, [], ◌∷◌, ◌++◌, ◌≡◌, ◌≢◌, refl, sym, ap,
  ◌∙◌, arith, Bool, ◌&&◌, ◌||◌, not, true, false, Option, none, some, Text, text_eq, length, take,
  drop, ltb, leb, nat_beq, ◌==◌, nat_eq, if◌then◌else◌, Bool-cases, Option-cases, ◌⊎◌, inl, inr,
  All, map, length-append, length-take, length-drop, append-nil, append_assoc, take-append_le,
  drop-append_le, take-append_eq, drop-append_eq, drop_two, take-append-drop,
}
use fleet_tracking_system.Common.{contains}
use fleet_tracking_system.Common.Int.{ℤ}
use fleet_tracking_system.Common.Dict
use fleet_tracking_system.Common.Dict.{Dict}

pub record AlertConfig : Type 0 where
  pub overspeed_kph : Option ℕ
  pub ignition_alerts : Bool
  pub geofence_alerts : Bool
  pub offline_after_sec : ℕ

abbrev pub default_alert_config : AlertConfig
default_alert_config = record {
  overspeed_kph = some 90;
  ignition_alerts = true;
  geofence_alerts = true;
  offline_after_sec = 600;
}

pub record Position : Type 0 where
  pub tenant_id : ℕ
  pub device_id : ℕ
  pub imei : Text
  pub ts : ℕ
  pub latitude : ℤ
  pub longitude : ℤ
  pub speed_kph : ℕ
  pub ignition : Option Bool

-- With the numbers of `meta`.
pub data AlertType : Type 0 where
  overspeed : ℕ → ℕ → AlertType
  ignition_on ignition_off device_offline : AlertType
  geofence_enter geofence_exit : ℕ → AlertType

pub record AlertEvent : Type 0 where
  pub tenant_id : ℕ
  pub device_id : ℕ
  pub imei : Text
  pub type : AlertType
  pub ts : ℕ

pub record DeviceAlertState : Type 0 where
  pub device_id : ℕ
  pub tenant_id : ℕ
  pub imei : Text
  pub last_seen_ms : ℕ
  pub last_ignition : Option Bool
  pub overspeed_active : Bool
  pub inside_geofences : List ℕ
  pub offline_alerted : Bool

abbrev pub States : Type 0
States = Dict ℕ DeviceAlertState

unfoldable pub fresh_state : Position → ℕ → DeviceAlertState
fresh_state pos now_ms = record {
  device_id = pos.device_id;
  tenant_id = pos.tenant_id;
  imei = pos.imei;
  last_seen_ms = now_ms;
  last_ignition = none;
  overspeed_active = false;
  inside_geofences = [];
  offline_alerted = false;
}

-- The device's state, seen now and so not offline.
unfoldable pub seen : Position → ℕ → Option DeviceAlertState → DeviceAlertState
seen pos now_ms none = fresh_state pos now_ms
seen pos now_ms (some st) = record st { last_seen_ms = now_ms; offline_alerted = false }

unfoldable pub emit : Position → AlertType → AlertEvent
emit pos type = record {
  tenant_id = pos.tenant_id;
  device_id = pos.device_id;
  imei = pos.imei;
  type = type;
  ts = pos.ts;
}

unfoldable pub check_overspeed :
    Position → Option ℕ → DeviceAlertState → List AlertEvent × DeviceAlertState
check_overspeed pos none st = ([], st)
check_overspeed pos (some limit) st =
    let over = ltb limit pos.speed_kph in
    (
      (if over && not st.overspeed_active
          then emit pos (overspeed pos.speed_kph limit) ∷ []
          else []),
      record st { overspeed_active = over },
    )

unfoldable pub flipped : Position → Bool → Option Bool → List AlertEvent
flipped pos on none = []
flipped pos true (some last) = if last then [] else emit pos ignition_on ∷ []
flipped pos false (some last) = if last then emit pos ignition_off ∷ [] else []

unfoldable pub check_ignition :
    Position → Bool → Option Bool → DeviceAlertState → List AlertEvent × DeviceAlertState
check_ignition pos alerts none st = ([], st)
check_ignition pos alerts (some on) st =
    if alerts
    then (flipped pos on st.last_ignition, record st { last_ignition = some on })
    else ([], st)

-- The events of one kind, for the geofences of the first list that the second has not.
unfoldable pub crossings : (ℕ → AlertType) → Position → List ℕ → List ℕ → List AlertEvent
crossings kind pos [] others = []
crossings kind pos (id ∷ ids) others =
    let rest = crossings kind pos ids others in
    if contains id others then rest else emit pos (kind id) ∷ rest

unfoldable pub check_geofences :
    Position → Bool → List ℕ → DeviceAlertState → List AlertEvent × DeviceAlertState
check_geofences pos alerts now_inside st =
    if alerts
    then (
      crossings geofence_enter pos now_inside st.inside_geofences
          ++ crossings geofence_exit pos st.inside_geofences now_inside,
      record st { inside_geofences = now_inside },
    )
    else ([], st)

module _ {G : Type 0} (geofences_containing : List G → Position → List ℕ) where
  unfoldable pub any : List G → Bool
  any [] = false
  any (g ∷ gs) = true

  unfoldable pub evaluate : Position → AlertConfig → List G → ℕ → States → List AlertEvent × States
  evaluate pos config geofences now_ms states =
      let st = seen pos now_ms (Dict.get pos.device_id states) in
      let speed = check_overspeed pos config.overspeed_kph st in
      let key = check_ignition pos config.ignition_alerts pos.ignition speed.1 in
      let fence =
        check_geofences pos (config.geofence_alerts && any geofences)
          (geofences_containing geofences pos) key.1 in
      (speed.0 ++ (key.0 ++ fence.0), Dict.set pos.device_id fence.1 states)

-- One device of the sweep.
unfoldable pub overdue : ℕ → AlertConfig → DeviceAlertState → Bool
overdue now_ms config st =
    not st.offline_alerted && ltb (st.last_seen_ms + config.offline_after_sec * 1000) now_ms

unfoldable pub sweep_offline : ℕ → AlertConfig → States → List AlertEvent × States
sweep_offline now_ms config [] = ([], [])
sweep_offline now_ms config ((id, st) ∷ states) =
    let rest = sweep_offline now_ms config states in
    if overdue now_ms config st
    then (
      record {
        tenant_id = st.tenant_id;
        device_id = st.device_id;
        imei = st.imei;
        type = device_offline;
        ts = now_ms;
      }
          ∷ rest.0,
      (id, record st { offline_alerted = true }) ∷ rest.1,
    )
    else (rest.0, (id, st) ∷ rest.1)
