-- ===== src/ControlPlane/Immobilizer.antt =====
-- services/control-plane/src/modules/devices/immobilizer.ts, with the repository that they use (InMemoryImmobilizerRepository of domain/in-memory.repository.ts).
-- Identifiers are numbers, and so are speeds and times. What other parts answer is in `Env`: the
-- device lookup in the user's tenant and scope, the last known speeds, and the channel to devices.
pub mod Safety
pub mod History
use fleet_tracking_system.Common.{
  ℕ, zero, suc, ◌+◌, ◌-◌, ◌*◌, ◌/◌, ◌%◌, ◌≤◌, ◌<◌, List, [], ◌∷◌, ◌++◌, ◌≡◌, ◌≢◌, refl, sym, ap,
  ◌∙◌, arith, Bool, ◌&&◌, ◌||◌, not, true, false, Option, none, some, Text, length, take, drop, ltb,
  leb, nat_beq, ◌==◌, nat_eq, if◌then◌else◌, Bool-cases, Option-cases, ◌⊎◌, inl, inr, All, map,
  length-append, length-take, length-drop, append-nil, append_assoc, take-append_le, drop-append_le,
  take-append_eq, drop-append_eq, drop_two, take-append-drop,
}
use fleet_tracking_system.Common.Dict
use fleet_tracking_system.Common.Dict.{Dict}
use fleet_tracking_system.ControlPlane.ImmobilizerCommand.{
  Wiring, bool_eq, build_set_digout, safe_to_immobilize,
}
use fleet_tracking_system.Common.Decimal.{codes}
use fleet_tracking_system.ControlPlane.Http.{
  Fault, Result, ok, err, Exec, ◌>>=◌, ◌>>◌, pure, throw, bad_request, not_found, conflict,
  service_unavailable, gateway_timeout, bad_gateway, internal,
}

pub data Action : Type 0 where
  immobilize mobilize enable disable test : Action

pub record ImmobilizerConfig : Type 0 where
  pub device_id : ℕ
  pub tenant_id : ℕ
  pub enabled : Bool
  pub wiring : Wiring
  pub immobilized : Bool
  pub last_command : Option Text
  pub last_reply : Option Text
  pub last_by : Option ℕ
  pub last_at : Option ℕ
  pub tested_at : Option ℕ
  pub created_at : ℕ

pub record ImmobilizerEvent : Type 0 where
  pub tenant_id : ℕ
  pub device_id : ℕ
  pub action : Action
  pub actor_id : ℕ
  pub command : Option Text
  pub reply : Option Text
  pub succeeded : Bool
  pub ts : ℕ

-- The repository, and the commands that have gone out to devices by IMEI.
pub record Store : Type 0 where
  pub by_device : Dict ℕ ImmobilizerConfig
  pub log : List ImmobilizerEvent
  pub relayed : List (Text × Text)

pub data CommandErrorCode : Type 0 where
  not_connected timeout disabled unavailable rejected : CommandErrorCode

-- The end of one `commander.send`: a reply, a `DeviceCommandError`, or another error, by its text.
pub data Sent : Type 0 where
  replied : Text → Sent
  refused : CommandErrorCode → Text → Sent
  crashed : Text → Sent

pub record Env : Type 0 where
  pub tenant_id : ℕ
  pub user_id : ℕ
  pub now : ℕ
  pub find_device : ℕ → Option Text
  pub hot_speed : ℕ → Option ℕ
  pub stored_speed : ℕ → Option ℕ
  pub commander : Option (Text → Text → Sent)

unfoldable pub of_tenant : ℕ → Option ImmobilizerConfig → Option ImmobilizerConfig
of_tenant tenant none = none
of_tenant tenant (some c) = if c.tenant_id == tenant then some c else none

unfoldable pub get_config : ℕ → ℕ → Store → Option ImmobilizerConfig
unfolding of_tenant
get_config tenant device s = of_tenant tenant (Dict.get device s.by_device)

unfoldable pub upsert : ImmobilizerConfig → Store → Store
upsert c s = record s { by_device = Dict.set c.device_id c s.by_device }

unfoldable pub add_event : ImmobilizerEvent → Store → Store
add_event e s = record s { log = s.log ++ e ∷ [] }

unfoldable pub require_device : Env → ℕ → Exec Store Text
require_device env device s = elim (env.find_device device) [
  | none ↦ (err not_found, s)
  | some imei ↦ (ok imei, s)
]

-- `log`
unfoldable pub record_event :
    Env → ℕ → Action → Option Text → Option Text → Bool → Exec Store (Unit {0})
record_event env device action command reply succeeded s = (
  ok tt,
  add_event
      (record {
        tenant_id = env.tenant_id;
        device_id = device;
        action = action;
        actor_id = env.user_id;
        command = command;
        reply = reply;
        succeeded = succeeded;
        ts = env.now;
      })
      s,
)

unfoldable pub default_config : Env → ℕ → ImmobilizerConfig
default_config env device = record {
  device_id = device;
  tenant_id = env.tenant_id;
  enabled = false;
  wiring = record { dout = 1; active_high = true; max_engage_kph = 5 };
  immobilized = false;
  last_command = none;
  last_reply = none;
  last_by = none;
  last_at = none;
  tested_at = none;
  created_at = env.now;
}

unfoldable pub or_default : Env → ℕ → Option ImmobilizerConfig → ImmobilizerConfig
or_default env device none = default_config env device
or_default env device (some c) = c

unfoldable pub read_config : Env → ℕ → Exec Store ImmobilizerConfig
read_config env device = do
  imei ← require_device env device
  λ s. (ok (or_default env device (get_config env.tenant_id device s)), s)

unfoldable pub or_else {ℓ} : {A : Type ℓ} → Option A → A → A
or_else none a = a
or_else (some b) a = b

pub record ConfigDto : Type 0 where
  pub enabled : Bool
  pub dout : Option ℕ
  pub active_high : Option Bool
  pub max_engage_kph : Option ℕ

unfoldable pub wiring_changed : ConfigDto → Wiring → Bool
wiring_changed dto w =
    not (or_else dto.dout w.dout == w.dout)
    || not (bool_eq (or_else dto.active_high w.active_high) w.active_high)

-- The row that `configure` writes. What is not given stays, or has its default on a new row.
unfoldable pub configured : ConfigDto → ImmobilizerConfig → ImmobilizerConfig
configured dto c = record c {
  enabled = dto.enabled;
  wiring = record {
    dout = or_else dto.dout c.wiring.dout;
    active_high = or_else dto.active_high c.wiring.active_high;
    max_engage_kph = or_else dto.max_engage_kph c.wiring.max_engage_kph;
  };
  tested_at = if wiring_changed dto c.wiring then none else c.tested_at;
}

unfoldable pub configure : Env → ℕ → ConfigDto → Exec Store ImmobilizerConfig
configure env device dto = do
  imei ← require_device env device
  current ← (λ s. (ok (or_default env device (get_config env.tenant_id device s)), s))
  let next = record (configured dto current) { device_id = device; tenant_id = env.tenant_id }
  (λ s. (ok tt, upsert next s))
  record_event env device (if dto.enabled then enable else disable) none none true
  pure next

unfoldable pub require_enabled : Env → ℕ → Exec Store ImmobilizerConfig
require_enabled env device = do
  imei ← require_device env device
  λ s. elim (get_config env.tenant_id device s) [
    | none ↦ (err bad_request, s)
    | some c ↦ ((if c.enabled then ok c else err bad_request), s)
  ]

unfoldable pub fault_of : CommandErrorCode → Fault
fault_of not_connected = conflict
fault_of timeout = gateway_timeout
fault_of disabled = service_unavailable
fault_of unavailable = bad_gateway
fault_of rejected = bad_gateway

-- The command has gone out when `send` is called, whatever comes back.
unfoldable pub sent_out : Text → Text → Store → Store
sent_out imei command s = record s { relayed = s.relayed ++ (imei, command) ∷ [] }

unfoldable pub answered : Env → ℕ → Action → Text → Sent → Exec Store Text
answered env device action command (replied reply) = do
  record_event env device action (some command) (some reply) true
  pure reply
answered env device action command (refused code msg) = do
  record_event env device action (some command) (some msg) false
  throw (fault_of code)
answered env device action command (crashed msg) = do
  record_event env device action (some command) (some msg) false
  throw internal

-- A device that is gone by now is logged as a failed command.
unfoldable pub relay : Env → ℕ → Text → Action → Exec Store Text
relay env device command action s = elim env.commander [
  | none ↦ (err service_unavailable, s)
  | some send ↦ elim (env.find_device device) [
    | none ↦
        (do
          record_event env device action (some command) (some (codes "Device not found")) false
          throw not_found)
          s
    | some imei ↦
        (do
          (λ t. (ok tt, sent_out imei command t))
          answered env device action command (send imei command))
          s
  ]
]

-- `repo.patch` after a reply, on the row that is there.
unfoldable pub patch_reply :
    Env → ℕ → (ImmobilizerConfig → ImmobilizerConfig) → Text → Text → Exec Store ImmobilizerConfig
patch_reply env device change command reply s = elim (get_config env.tenant_id device s) [
  | none ↦ (err internal, s)
  | some c ↦
      let next = record (change c) {
        last_command = some command;
        last_reply = some reply;
        last_by = some env.user_id;
        last_at = some env.now;
        device_id = device;
        tenant_id = env.tenant_id;
      } in
      (ok next, upsert next s)
]

-- The last known speed: the hot state's, or else that of the last stored position.
unfoldable pub last_speed : Env → ℕ → Option ℕ
last_speed env device = elim (env.hot_speed device) [
  | none ↦ env.stored_speed device
  | some v ↦ some v
]

unfoldable pub built : Option Text → Exec Store Text
built none = throw internal
built (some command) = pure command

unfoldable pub speed_guard : Env → ℕ → Bool → ImmobilizerConfig → Exec Store (Unit {0})
speed_guard env device engage c =
    if engage && not (safe_to_immobilize (last_speed env device) c.wiring.max_engage_kph)
    then throw conflict
    else pure tt

unfoldable pub actuate : Env → ℕ → Bool → Action → Exec Store ImmobilizerConfig
actuate env device engage action = do
  c ← require_enabled env device
  speed_guard env device engage c
  command ← built (build_set_digout engage c.wiring)
  reply ← relay env device command action
  patch_reply env device (λ row. record row { immobilized = engage }) command reply

unfoldable pub immobilize_device : Env → ℕ → Exec Store ImmobilizerConfig
immobilize_device env device = actuate env device true immobilize

unfoldable pub mobilize_device : Env → ℕ → Exec Store ImmobilizerConfig
mobilize_device env device = actuate env device false mobilize

unfoldable pub test_relay : Env → ℕ → Exec Store ImmobilizerConfig
test_relay env device = do
  c ← require_enabled env device
  command ← built (build_set_digout false c.wiring)
  reply ← relay env device command test
  patch_reply env device (λ row. record row { tested_at = some env.now }) command reply
