-- ===== src/ControlPlane/AlertStore.antt =====
-- services/control-plane/src/modules/alerts/alerts.ts, with the in-memory alert and alert-configuration
-- repositories, and `alertsInRange` of modules/reports/reports.ts. Types of alerts are their texts; the filter's empty device is `none`.
pub mod Clearing
pub mod InRange
use fleet_tracking_system.Common.{
  ℕ, zero, suc, ◌+◌, ◌-◌, ◌*◌, ◌/◌, ◌%◌, ◌≤◌, ◌<◌, List, [], ◌∷◌, ◌++◌, ◌≡◌, ◌≢◌, refl, sym, ap,
  ◌∙◌, arith, Bool, ◌&&◌, ◌||◌, not, true, false, Option, none, some, Text, text_eq, length, take,
  drop, ltb, leb, nat_beq, ◌==◌, nat_eq, if◌then◌else◌, Bool-cases, Option-cases, ◌⊎◌, inl, inr,
  All, map, length-append, length-take, length-drop, append-nil, append_assoc, take-append_le,
  drop-append_le, take-append_eq, drop-append_eq, drop_two, take-append-drop,
}
use fleet_tracking_system.Common.{contains, select}
use fleet_tracking_system.Common.Decimal.{codes}
use fleet_tracking_system.Common.Dict
use fleet_tracking_system.Common.Dict.{Dict}
use fleet_tracking_system.ControlPlane.Http.{Result, ok, err, bad_request}
use fleet_tracking_system.ControlPlane.Alerts.{
  AlertConfig, AlertEvent, AlertType, overspeed, ignition_on, ignition_off, device_offline,
  geofence_enter, geofence_exit, default_alert_config,
}

unfoldable pub type_name : AlertType → Text
type_name (overspeed speed limit) = codes "overspeed"
type_name ignition_on = codes "ignition_on"
type_name ignition_off = codes "ignition_off"
type_name device_offline = codes "device_offline"
type_name (geofence_enter id) = codes "geofence_enter"
type_name (geofence_exit id) = codes "geofence_exit"

-- ALERT_TYPES
abbrev pub alert_types : List Text
alert_types =
    codes "overspeed"
    ∷ codes "ignition_on"
    ∷ codes "ignition_off"
    ∷ codes "geofence_enter"
    ∷ codes "geofence_exit"
    ∷ codes "device_offline"
    ∷ []

unfoldable pub for_device : Option ℕ → AlertEvent → Bool
for_device none a = true
for_device (some id) a = a.device_id == id

-- Newest first, stable.
unfoldable pub insert_newest : AlertEvent → List AlertEvent → List AlertEvent
insert_newest a [] = a ∷ []
insert_newest a (b ∷ bs) =
    let rest = insert_newest a bs in if leb b.ts a.ts then a ∷ b ∷ bs else b ∷ rest

unfoldable pub sort_newest : List AlertEvent → List AlertEvent
sort_newest [] = []
sort_newest (a ∷ as_) = insert_newest a (sort_newest as_)

unfoldable pub listed : ℕ → Option ℕ → AlertEvent → Bool
listed tenant device a = a.tenant_id == tenant && for_device device a

unfoldable pub list_rows : ℕ → Option ℕ → ℕ → List AlertEvent → List AlertEvent
list_rows tenant device limit rows = take limit (sort_newest (select (listed tenant device) rows))

-- AlertsService.list
unfoldable pub list : ℕ → Option ℕ → ℕ → List AlertEvent → List AlertEvent
list tenant device limit rows = list_rows tenant device (if leb limit 500 then limit else 500) rows

-- An empty list of types is every type.
unfoldable pub of_types : Option (List Text) → AlertEvent → Bool
of_types none a = true
of_types (some []) a = true
of_types (some (t ∷ types)) a = contains (type_name a.type) (t ∷ types)

unfoldable pub cleared : ℕ → Option (List Text) → Option ℕ → AlertEvent → Bool
cleared tenant types device a = a.tenant_id == tenant && (for_device device a && of_types types a)

-- The number of rows deleted, and the rows that stay.
unfoldable pub clear : ℕ → Option (List Text) → Option ℕ → List AlertEvent → ℕ × List AlertEvent
clear tenant types device rows =
    let rest = select (λ a. not (cleared tenant types device a)) rows in
    (length rows - length rest, rest)

unfoldable pub all_known : List Text → Bool
all_known [] = true
all_known (t ∷ types) = contains t alert_types && all_known types

-- The request, with the types of its query already split at the commas.
unfoldable pub request_clear :
    ℕ → Option (List Text) → Option ℕ → List AlertEvent → Result ℕ × List AlertEvent
request_clear tenant none device rows =
    let done = clear tenant none device rows in (ok done.0, done.1)
request_clear tenant (some types) device rows =
    let done = clear tenant (some types) device rows in
    if all_known types then (ok done.0, done.1) else (err bad_request, rows)

-- A patch of the configuration, a field that is left out being `none`.
pub record AlertConfigPatch : Type 0 where
  pub overspeed_kph : Option (Option ℕ)
  pub ignition_alerts : Option Bool
  pub geofence_alerts : Option Bool
  pub offline_after_sec : Option ℕ

unfoldable pub or_current {ℓ} : {A : Type ℓ} → Option A → A → A
or_current none a = a
or_current (some b) a = b

unfoldable pub get_config : ℕ → Dict ℕ AlertConfig → AlertConfig
get_config tenant configs = elim (Dict.get tenant configs) [
  | none ↦ default_alert_config
  | some config ↦ config
]

unfoldable pub set_config :
    ℕ → AlertConfigPatch → Dict ℕ AlertConfig → AlertConfig × Dict ℕ AlertConfig
set_config tenant patch configs =
    let current = get_config tenant configs in
    let config : AlertConfig = record {
      overspeed_kph = or_current patch.overspeed_kph current.overspeed_kph;
      ignition_alerts = or_current patch.ignition_alerts current.ignition_alerts;
      geofence_alerts = or_current patch.geofence_alerts current.geofence_alerts;
      offline_after_sec = or_current patch.offline_after_sec current.offline_after_sec;
    } in
    (config, Dict.set tenant config configs)

-- LIMIT of the reports.
abbrev pub report_limit : ℕ
report_limit = 5000

unfoldable pub alerts_in_range : ℕ → ℕ → ℕ → ℕ → List AlertEvent → List AlertEvent
alerts_in_range tenant device from to rows =
    select (λ a. leb from a.ts && leb a.ts to) (list_rows tenant (some device) report_limit rows)
