-- ===== src/Witnesses/Services.antt =====
-- The theorems on the smaller services at concrete values.
use fleet_tracking_system.Common.{
  ℕ, ◌≤◌, [], ◌∷◌, ◌++◌, ◌≡◌, ◌≢◌, refl, arith, true, false, none, some, Text, text_eq, nat_eq,
  pair_eq, length, take, drop, if◌then◌else◌, ◌⊎◌, ap, ltb, Option,
}
use fleet_tracking_system.Common.Dict
use fleet_tracking_system.Common.Dict.{Dict}
use fleet_tracking_system.Common.Decimal.{codes}
use fleet_tracking_system.Common.Int.{pos}
use fleet_tracking_system.Protocol.Imei.{is_imei}
use fleet_tracking_system.Protocol.Ascii.{all_digits}
use fleet_tracking_system.Ingestion.Health
use fleet_tracking_system.Ingestion.Health.{
  Body, CommandSender, Commands, Request, starts_with, presented, handle_command,
}
use fleet_tracking_system.Ingestion.Health.Relay.{Authorized, handle_command_guarded}
use fleet_tracking_system.ControlPlane.Http.{ok}
use fleet_tracking_system.ControlPlane.Alerts.{Position, AlertEvent, device_offline}
use fleet_tracking_system.ControlPlane.Guard.{JwtPayload}
use fleet_tracking_system.ControlPlane.Devices
use fleet_tracking_system.ControlPlane.Devices.{Device, AuthUser, provisioned, tally, get_scoped}
use fleet_tracking_system.ControlPlane.Devices.Tally.{live_imei}
use fleet_tracking_system.ControlPlane.Devices.Changes.{Consistent}
use fleet_tracking_system.ControlPlane.Devices.Bootstrap.{on_module_init, on_module_init-Consistent}
use fleet_tracking_system.ControlPlane.Realtime.{position, publish}
use fleet_tracking_system.ControlPlane.Realtime.Isolation.{
  connection, empty, received, run, session, delivered, received-publish,
}
use fleet_tracking_system.ControlPlane.DeviceCommander.{response, send}
use fleet_tracking_system.ControlPlane.DeviceCommander.EndToEnd.{expected, send_end_to_end}
use fleet_tracking_system.ControlPlane.Notifications
use fleet_tracking_system.ControlPlane.Notifications.{NotificationConfig, deliver, get_config}
use fleet_tracking_system.ControlPlane.Notifications.Retries.{Settled, deliver-Settled}
use fleet_tracking_system.ControlPlane.Notifications.Settings.{
  Change, Signed, set_configs, set_configs-Signed,
}
use fleet_tracking_system.ControlPlane.Positions.{Views, of_device, better, latest_from, latest}

abbrev tracker : Device
tracker = record {
  id = 20;
  tenant_id = 1;
  imei = codes "356";
  name = none;
  model = 0;
  asset_type = 0;
  status = provisioned;
  department_id = none;
  deleted_at = none;
}

-- Its allow-list is empty, out of step with the device.
abbrev lost_store : Devices.Store
lost_store = record {
  by_id = (20, tracker) ∷ [];
  units = [];
  plan_of = λ t. none;
  allowed = [];
  forgotten = [];
}

lost_store_unique : (i : Text) → tally (live_imei i) lost_store.by_id ≤ 1
unfolding tally Devices.is_live
lost_store_unique i = ground arith

on_module_init-Consistent_example : Consistent (on_module_init lost_store)
on_module_init-Consistent_example = on_module_init-Consistent lost_store lost_store_unique

abbrev place : Position
place = record {
  tenant_id = 1;
  device_id = 20;
  imei = codes "356";
  ts = 9;
  latitude = pos 1;
  longitude = pos 2;
  speed_kph = 95;
  ignition = some true;
}

abbrev sign_in : Text → Option JwtPayload
sign_in t =
    some (record {
      sub = 1;
      tenant_id = 1;
      role = 0;
      email = [];
      department_id = none;
      is_mfa = false;
    })

received-publish_example :
    received 7
      (publish (λ c. true) 1 place (run sign_in (connection 7 (codes "t") ∷ []) empty)).sent
    ≡ received 7 (run sign_in (connection 7 (codes "t") ∷ []) empty).sent
      ++ delivered true (session sign_in (connection 7 (codes "t") ∷ []) 7 none) 1 (position place)
received-publish_example =
    received-publish sign_in (connection 7 (codes "t") ∷ []) (λ c. true) 1 7 place

-- The body is the length of the IMEI, the IMEI and the command.
abbrev write_body : Text → Text → Text
write_body imei command = length imei ∷ imei ++ command

abbrev read_back : Text → Option Body
read_back [] = none
read_back (n ∷ rest) = some (record { imei = some (take n rest); command = some (drop n rest) })

abbrev imei : Text
imei = codes "356307042441013"

abbrev commands : Commands
commands = record {
  sender = record { send_command = λ i c. Health.replied (codes "done"); is_connected = λ i. true };
  secret = codes "s3cret";
}

body_read :
    read_back (write_body imei (codes "getver"))
    ≡ some (record { imei = some imei; command = some (codes "getver") })
unfolding take drop
body_read = refl

imei_good : is_imei imei ≡ true
unfolding is_imei all_digits
imei_good = refl

send_end_to_end_example :
    send
      (λ req. response (handle_command read_back (λ t. t) (some commands) req).0)
      write_body
      (codes "s3cret")
      imei
      (codes "getver")
    ≡ expected (Health.replied (codes "done"))
send_end_to_end_example =
    send_end_to_end read_back (λ t. t) write_body commands imei (codes "getver") body_read
      (omega arith) refl (λ e. ground (arith, ap length e)) imei_good (omega arith) (omega arith)

abbrev request : Request
request = record {
  authorization = some (codes "Bearer s3cret");
  body = write_body imei (codes "getver");
}

handle_command_guarded_example :
    ((handle_command read_back (λ t. t) (some commands) request).1 ≡ [])
    ⊎ ((i : Text) × ((c : Text) × (((handle_command read_back (λ t. t) (some commands) request).1
              ≡ (i, c) ∷ [])
            × Authorized read_back (λ t. t) (some commands) request i c)))
handle_command_guarded_example = handle_command_guarded read_back (λ t. t) (some commands) request

abbrev flaky : ℕ → Notifications.Fetched
flaky k = if ltb k 3 then Notifications.network_error else Notifications.response 200

deliver-Settled_example : Settled flaky 1 3 (deliver 3 flaky)
deliver-Settled_example = deliver-Settled 3 flaky

abbrev change : Change
change = record {
  fresh = codes "k1";
  tenant_id = 1;
  patch = record {
    webhook_urls = some (codes "http://a" ∷ []);
    email_recipients = none;
    types = none;
  };
}

no_settings-Signed : Signed []
unfolding get_config Notifications.empty_notification_config Dict.get
no_settings-Signed tenant urls e = urls refl

set_configs-Signed_example :
    Signed (set_configs (change ∷ change ∷ []) [])
    × ((tenant : ℕ)
        → (get_config tenant []).webhook_secret ≢ []
        → (get_config tenant (set_configs (change ∷ change ∷ []) [])).webhook_secret
          ≡ (get_config tenant []).webhook_secret)
set_configs-Signed_example =
    set_configs-Signed (change ∷ change ∷ []) []
      (λ e. ground (arith, ap length e), (λ e. ground (arith, ap length e), tt)) no_settings-Signed

abbrev only_speeding : NotificationConfig
only_speeding = record {
  tenant_id = 1;
  webhook_urls = codes "http://a" ∷ [];
  email_recipients = [];
  webhook_secret = codes "k1";
  types = some (codes "overspeed" ∷ []);
}

abbrev administrator : AuthUser
administrator = record { tenant_id = 1; department_id = none }

abbrev views : Views
views = record { devices = lost_store; rows = place ∷ []; hot = [] }

tracker_seen : (get_scoped administrator 20 true lost_store).0 ≡ ok tracker
unfolding get_scoped Devices.find_by_id Devices.visible Devices.is_live Devices.in_scope
    Devices.scope_for Dict.get
tracker_seen = refl

latest-place : latest 1 20 (place ∷ []) ≡ some place
unfolding latest latest_from of_device better
latest-place = refl

nothing_hot : Dict.get (1, 20) views.hot ≡ none
unfolding Dict.get
nothing_hot = refl

abbrev offline : AlertEvent
offline = record { tenant_id = 1; device_id = 20; imei = imei; type = device_offline; ts = 3 }
