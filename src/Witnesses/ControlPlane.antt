-- ===== src/Witnesses/ControlPlane.antt =====
-- The theorems on the API server's parts at concrete values.
use fleet_tracking_system.Common.{
  ◌++◌, if◌then◌else◌, ltb, ℕ, ◌≤◌, List, [], ◌∷◌, ◌≡◌, ◌≢◌, refl, arith, Bool, true, false, none,
  some, text_eq, nat_eq,
}
use fleet_tracking_system.Common.{contains}
use fleet_tracking_system.Common.Dict
use mathlib.Core.Logic.{◌↔◌}
use fleet_tracking_system.Common.Decimal.{codes}
use fleet_tracking_system.ControlPlane.Http.{ok, err, unauthorized}
use fleet_tracking_system.ControlPlane.Auth.{
  User, RefreshToken, find_by_hash, refresh, logout, revoke_family, issue_tokens, exchange, rotate,
  active_user, TokenPair,
}
use fleet_tracking_system.ControlPlane.Auth
use fleet_tracking_system.ControlPlane.Auth.Tokens.{Dead}
use fleet_tracking_system.ControlPlane.Auth.Rotation.{refresh_twice}
use fleet_tracking_system.ControlPlane.ImmobilizerCommand.{
  build_set_digout, safe_to_immobilize, state_string, place,
}
use fleet_tracking_system.ControlPlane.Immobilizer
use fleet_tracking_system.ControlPlane.Immobilizer.{
  ImmobilizerConfig, actuate, immobilize, replied, get_config,
}
use fleet_tracking_system.ControlPlane.Immobilizer.Safety.{Sends, actuate_guarded}
use fleet_tracking_system.ControlPlane.Org.{OrgNode, descendant_ids, would_create_cycle}
use fleet_tracking_system.ControlPlane.Org.Kids.{Under}
use fleet_tracking_system.ControlPlane.Org.Subtree.{descendant_ids_exact, would_create_cycle_exact}
use fleet_tracking_system.Common.Int.{pos}
use fleet_tracking_system.ControlPlane.Alerts.{
  Position, default_alert_config, evaluate, emit, any, overspeed, ignition_on, geofence_enter,
}
use fleet_tracking_system.ControlPlane.Alerts.Edges.{
  edges, newest, known_ignition, states_after, evaluate-edges,
}
use fleet_tracking_system.ControlPlane.Billing.{plan_limits, plan_for, would_exceed}
use fleet_tracking_system.ControlPlane.Devices
use fleet_tracking_system.ControlPlane.Devices.{
  Device, AuthUser, tally, counted, provision, find_by_imei, assert_can_add_device,
  assert_imei_free, assert_department_in_scope, or_own, new_device, allow, put,
}
use fleet_tracking_system.ControlPlane.Devices.Changes.{Consistent}
use fleet_tracking_system.ControlPlane.Devices.Runs.{
  start, next, provisions, Run-Consistent, provision_within_quota,
}

-- A signed-in user, with one refresh token of family 7.
abbrev alice : User
alice = record {
  id = 1;
  tenant_id = 1;
  email = codes "a@b";
  password_hash = [];
  role = 0;
  active = true;
  mfa_enabled = false;
  mfa_secret = none;
  department_id = none;
}

abbrev first_token : RefreshToken
first_token = record {
  id = 10;
  user_id = 1;
  token_hash = codes "t1";
  family_id = 7;
  expires_at = 1000;
  used_at = none;
  revoked_at = none;
  created_at = 0;
}

abbrev signed_in_store : Auth.Store
signed_in_store = record { users = (1, alice) ∷ []; tokens = (10, first_token) ∷ [] }

abbrev auth_env : Auth.Env
auth_env = record {
  now = 5;
  refresh_days = 30;
  fresh_token = codes "t2";
  fresh_id = 11;
  fresh_family = 8;
  fresh_secret = [];
  hash_token = λ t. t;
  verify_password = λ p h. true;
  verify_totp = λ a b c. true;
  sign = λ p. [];
  verify = λ t. none;
}

abbrev second_pair : TokenPair
second_pair = record { access_token = []; refresh_token = codes "t2" }

first_refreshed : (refresh auth_env (codes "t1") signed_in_store).0 ≡ ok second_pair
unfolding refresh exchange rotate issue_tokens active_user find_by_hash Dict.get
first_refreshed = refl

first_keyed : Dict.get 11 signed_in_store.tokens ≡ none
unfolding Dict.get
first_keyed = refl

first_alone : Dict.get {K = ℕ} {V = RefreshToken} 10 [] ≡ none
unfolding Dict.get
first_alone = refl

refresh_twice_example :
    (t : RefreshToken) × ((find_by_hash (codes "t1") signed_in_store.tokens ≡ some t)
      × (((refresh auth_env (codes "t1") (refresh auth_env (codes "t1") signed_in_store).1).0
            ≡ err unauthorized)
          × Dead t.family_id
              (refresh auth_env
                (codes "t1")
                (refresh auth_env (codes "t1") signed_in_store).1).1.tokens))
refresh_twice_example =
    refresh_twice auth_env auth_env (codes "t1") signed_in_store second_pair refl
      (refl, (first_alone, tt)) first_keyed first_refreshed

-- A department 1 with a department 2 in it, and 3 in that.
abbrev three_units : List OrgNode
three_units =
    record { id = 1; parent_id = none }
    ∷ record { id = 2; parent_id = some 1 }
    ∷ record { id = 3; parent_id = some 2 }
    ∷ []

descendant_ids_exact_example :
    (ids : List ℕ) × ((descendant_ids three_units 2 ≡ some ids)
      × ((x : ℕ) → (contains x ids ≡ true) ↔ Under three_units 2 x))
descendant_ids_exact_example = descendant_ids_exact three_units 2

would_create_cycle_exact_example :
    (answer : Bool) × ((would_create_cycle three_units 1 (some 3) ≡ some answer)
      × ((answer ≡ true) ↔ Under three_units 1 3))
would_create_cycle_exact_example = would_create_cycle_exact three_units 1 3

-- An immobilizer that is enabled, on a device that stands.
abbrev standing_config : ImmobilizerConfig
standing_config = record {
  device_id = 4;
  tenant_id = 1;
  enabled = true;
  wiring = record { dout = 1; active_high = true; max_engage_kph = 5 };
  immobilized = false;
  last_command = none;
  last_reply = none;
  last_by = none;
  last_at = none;
  tested_at = none;
  created_at = 0;
}

abbrev standing_store : Immobilizer.Store
standing_store = record { by_device = (4, standing_config) ∷ []; log = []; relayed = [] }

abbrev standing_env : Immobilizer.Env
standing_env = record {
  tenant_id = 1;
  user_id = 1;
  now = 5;
  find_device = λ d. some (codes "356");
  hot_speed = λ d. some 0;
  stored_speed = λ d. none;
  commander = some (λ i c. replied (codes "ok"));
}

standing_sent : (actuate standing_env 4 true immobilize standing_store).1.relayed ≢ []
unfolding actuate Immobilizer.require_enabled Immobilizer.require_device Immobilizer.get_config
    Immobilizer.of_tenant Immobilizer.speed_guard Immobilizer.built Immobilizer.relay
    Immobilizer.answered Immobilizer.record_event Immobilizer.add_event Immobilizer.sent_out
    Immobilizer.patch_reply Immobilizer.upsert Immobilizer.last_speed safe_to_immobilize
    build_set_digout state_string place Dict.get
standing_sent h = absurd (ground arith)

actuate_guarded_example :
    (g : Sends standing_env 4 true standing_store) × ((actuate standing_env 4 true immobilize
        standing_store).1.relayed
      ≡ standing_store.relayed ++ (g.imei, g.command) ∷ [])
actuate_guarded_example =
    actuate_guarded standing_env 4 true immobilize standing_store standing_sent

-- A tenant without devices, and its administrator.
abbrev no_devices : Devices.Store
no_devices = record { by_id = []; units = []; plan_of = λ t. none; allowed = []; forgotten = [] }

abbrev administrator : AuthUser
administrator = record { tenant_id = 1; department_id = none }

no_devices-Consistent : Consistent no_devices
unfolding tally
no_devices-Consistent = record { unique = λ i. omega arith; synced = λ i. ground arith }

no_row : Dict.get 20 no_devices.by_id ≡ none
unfolding Dict.get
no_row = refl

Run-Consistent_example :
    Consistent (provision administrator 20 (codes "356") 0 none none 0 no_devices).1
Run-Consistent_example =
    Run-Consistent no_devices (provision administrator 20 (codes "356") 0 none none 0 no_devices).1
      (next start (provisions administrator 20 (codes "356") 0 none none 0 no_row))
      no_devices-Consistent

provisioned_ok :
    ((provision administrator 20 (codes "356") 0 none none 0 no_devices).0
      ≡ ok (new_device administrator 20 (codes "356") 0 none none 0))
unfolding provision assert_imei_free find_by_imei assert_can_add_device would_exceed tally
    plan_limits plan_for assert_department_in_scope or_own
provisioned_ok = refl

provision_within_quota_example :
    (tally (counted 1) (provision administrator 20 (codes "356") 0 none none 0 no_devices).1.by_id
      ≤ (plan_limits (plan_for none)).devices)
provision_within_quota_example =
    provision_within_quota administrator 20 (codes "356") 0 none none 0 no_devices
      (new_device administrator 20 (codes "356") 0 none none 0) no_row provisioned_ok

abbrev fast_position : Position
fast_position = record {
  tenant_id = 1;
  device_id = 4;
  imei = codes "356";
  ts = 0;
  latitude = pos 0;
  longitude = pos 0;
  speed_kph = 120;
  ignition = some true;
}

abbrev slow_position : Position
slow_position = record fast_position { speed_kph = 40; ignition = some false }

-- The device was slow, with its ignition off, outside of the geofence 6, which a position at a speed over 100 is in.
abbrev at_speed : List ℕ → Position → List ℕ
at_speed fences p = if ltb 100 p.speed_kph then 6 ∷ [] else []

evaluate-edges_example :
    (evaluate at_speed fast_position default_alert_config
      (6 ∷ [])
      50
      (states_after at_speed default_alert_config (6 ∷ []) ((0, slow_position) ∷ []))).0
    ≡ edges at_speed default_alert_config (6 ∷ []) fast_position (slow_position ∷ [])
evaluate-edges_example =
    evaluate-edges at_speed default_alert_config (6 ∷ []) fast_position 50 ((0, slow_position) ∷ [])

-- It is over the limit, the ignition has come on, and it has entered the geofence.
edges_test :
    edges at_speed default_alert_config (6 ∷ []) fast_position (slow_position ∷ [])
    ≡ emit fast_position (overspeed 120 90)
      ∷ emit fast_position ignition_on
      ∷ emit fast_position (geofence_enter 6)
      ∷ []
unfolding newest known_ignition any emit
edges_test = refl
