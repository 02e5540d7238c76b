-- ===== src/ControlPlane/DeviceCommander.antt =====
-- HttpDeviceCommander of services/control-plane/src/integrations/device-commander.ts. What `fetch` gives is
-- a parameter; JSON.stringify of the body is `serialise`.
pub mod EndToEnd
use fleet_tracking_system.Common.{
  ℕ, zero, suc, ◌+◌, ◌-◌, ◌*◌, ◌/◌, ◌%◌, ◌≤◌, ◌<◌, List, [], ◌∷◌, ◌++◌, ◌≡◌, ◌≢◌, refl, sym, ap,
  ◌∙◌, arith, Bool, ◌&&◌, ◌||◌, not, true, false, Option, none, some, Text, text_eq, length, take,
  drop, ltb, leb, nat_beq, ◌==◌, nat_eq, if◌then◌else◌, Bool-cases, Option-cases, ◌⊎◌, inl, inr,
  All, map, length-append, length-take, length-drop, append-nil, append_assoc, take-append_le,
  drop-append_le, take-append_eq, drop-append_eq, drop_two, take-append-drop,
}
use fleet_tracking_system.Common.Decimal.{codes, decimal}
use fleet_tracking_system.Ingestion.Health.{Response, Request}
use fleet_tracking_system.ControlPlane.Immobilizer.{
  CommandErrorCode, Sent, replied, refused, not_connected, timeout, disabled, unavailable, rejected,
}

pub data Fetched : Type 0 where
  response : Response → Fetched
  unreachable : Text → Fetched

unfoldable pub command_request : (Text → Text → Text) → Text → Text → Text → Request
command_request serialise secret imei command = record {
  authorization = some (codes "Bearer " ++ secret);
  body = serialise imei command;
}

unfoldable pub error_text : Response → Text
error_text res = elim res.error [
  | none ↦ codes "ingestion returned " ++ decimal res.status
  | some error ↦ error
]

-- The `switch` on the status.
unfoldable pub refusal : Response → Sent
refusal res =
    if nat_beq res.status 404
    then refused not_connected
        (codes "Device is not currently connected — it must be online to receive settings")
    else if nat_beq res.status 504
    then refused timeout (codes "Device did not answer in time")
    else if nat_beq res.status 503
    then refused disabled (codes "Remote configuration is not enabled on the ingestion service")
    else if nat_beq res.status 401
    then refused disabled (codes "Ingestion rejected the command secret")
    else refused rejected (error_text res)

unfoldable pub is_ok : ℕ → Bool
is_ok status = leb 200 status && leb status 299

unfoldable pub outcome : Fetched → Sent
outcome (unreachable msg) = refused unavailable (codes "ingestion service unreachable: " ++ msg)
outcome (response res) = elim res.reply [
  | none ↦ refusal res
  | some reply ↦ if is_ok res.status then replied reply else refusal res
]

unfoldable pub send : (Request → Fetched) → (Text → Text → Text) → Text → Text → Text → Sent
send fetch serialise secret imei command =
    outcome (fetch (command_request serialise secret imei command))
