-- ===== src/ControlPlane/DeviceConfig.antt =====
-- services/control-plane/src/modules/devices/device-config.ts: reading and writing the reporting profile of a
-- tracker. Devices are the store of `Devices`; what the commander's `send` comes to is given by the
-- commands that have gone out so far, the present one included.
pub mod Steps
pub mod Write
pub mod Sends
use fleet_tracking_system.Common.{
  ℕ, zero, suc, ◌+◌, ◌-◌, ◌*◌, ◌/◌, ◌%◌, ◌≤◌, ◌<◌, List, [], ◌∷◌, ◌++◌, ◌≡◌, ◌≢◌, refl, sym, ap,
  ◌∙◌, arith, Bool, ◌&&◌, ◌||◌, not, true, false, Option, none, some, Text, length, take, drop, ltb,
  leb, nat_beq, ◌==◌, nat_eq, if◌then◌else◌, Bool-cases, Option-cases, ◌⊎◌, inl, inr, All, map,
  length-append, length-take, length-drop, append-nil, append_assoc, take-append_le, drop-append_le,
  take-append_eq, drop-append_eq, drop_two, take-append-drop,
}
use fleet_tracking_system.Common.Int.{ℤ}
use fleet_tracking_system.ControlPlane.Http.{
  Fault, Result, ok, err, Exec, ◌>>=◌, ◌>>◌, pure, throw, bad_request, conflict,
  service_unavailable, internal,
}
use fleet_tracking_system.ControlPlane.Immobilizer.{Sent, replied, refused, crashed, fault_of}
use fleet_tracking_system.ControlPlane.Devices
use fleet_tracking_system.ControlPlane.Devices.{Device, AuthUser}
use fleet_tracking_system.Protocol.Params.{
  NetworkMode, MotionMode, Field, build_set_param, build_get_param,
}
use fleet_tracking_system.Protocol.Params.Replies.{parse_get_param_response, set_param_accepted}

-- The commands that have gone out, with the IMEI each went to.
abbrev pub Outbox : Type 0
Outbox = List (Text × Text)

abbrev pub Commander : Type 0
Commander = Outbox → Sent

pub record ProfileReadResult : Type 0 where
  pub network : NetworkMode
  pub motion : MotionMode
  pub values : List (Field × ℤ)
  pub raw : Text

pub record ProfileWriteResult : Type 0 where
  pub held : ProfileReadResult
  pub applied : Bool
  pub command : Text

-- The `catch` of `relay`.
unfoldable pub answer : Sent → Result Text
answer (replied reply) = ok reply
answer (refused code msg) = err (fault_of code)
answer (crashed msg) = err internal

unfoldable pub relay : Option Commander → Text → Text → Exec Outbox Text
relay none imei command sent = (err service_unavailable, sent)
relay (some send) imei command sent =
    let out = sent ++ (imei, command) ∷ [] in (answer (send out), out)

-- `devices.get`
unfoldable pub get_device : AuthUser → ℕ → Devices.Store → Exec Outbox Device
get_device user id devices sent = ((Devices.get user id devices).0, sent)

unfoldable pub command_of : Option Text → Exec Outbox Text
command_of none = throw bad_request
command_of (some command) = pure command

unfoldable pub require_applied : Text → Exec Outbox (Unit {0})
require_applied reply sent = ((if set_param_accepted reply then ok tt else err conflict), sent)

unfoldable pub profile : NetworkMode → MotionMode → Text → ProfileReadResult
profile network motion raw = record {
  network = network;
  motion = motion;
  values = parse_get_param_response network motion raw;
  raw = raw;
}

unfoldable pub write_result : Text → ProfileReadResult → ProfileWriteResult
write_result command held = record { held = held; applied = true; command = command }

module _ (commander : Option Commander) (devices : Devices.Store) (user : AuthUser) (id : ℕ)
    (network : NetworkMode) (motion : MotionMode) where
  unfoldable pub read_back : Text → Exec Outbox ProfileReadResult
  read_back imei = do
    raw ← relay commander imei (build_get_param network motion)
    pure (profile network motion raw)

  unfoldable pub read : Exec Outbox ProfileReadResult
  read = do device ← get_device user id devices; read_back device.imei

  -- The end of `write`: what has been set is read back.
  unfoldable pub verify : Text → Text → Exec Outbox ProfileWriteResult
  verify imei command = do held ← read_back imei; pure (write_result command held)

  unfoldable pub apply : Text → Text → Exec Outbox ProfileWriteResult
  apply imei command = do
    raw ← relay commander imei command
    require_applied raw
    verify imei command

  unfoldable pub write : List (Field × ℕ) → Exec Outbox ProfileWriteResult
  write values = do
    device ← get_device user id devices
    command ← command_of (build_set_param network motion values)
    apply device.imei command
