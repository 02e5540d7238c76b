-- ===== src/Ingestion/Health.antt =====
-- services/ingestion/src/health.ts: the endpoint that relays a command to a connected device. JSON.parse
-- of a body, `parse`, and String.prototype.trim are parameters, and so are what the server of the devices
-- answers; a response is its status with the two fields of its body that a caller reads. The connection's errors while a
-- body is read are left out, and so is the body `null`, at which the code throws and sends nothing.
pub mod Relay
use fleet_tracking_system.Common.{
  ℕ, zero, suc, ◌+◌, ◌-◌, ◌*◌, ◌/◌, ◌%◌, ◌≤◌, ◌<◌, List, [], ◌∷◌, ◌++◌, ◌≡◌, ◌≢◌, refl, sym, ap,
  ◌∙◌, arith, Bool, ◌&&◌, ◌||◌, not, true, false, Option, none, some, Text, text_eq, length, take,
  drop, ltb, leb, nat_beq, ◌==◌, nat_eq, if◌then◌else◌, Bool-cases, Option-cases, ◌⊎◌, inl, inr,
  All, map, length-append, length-take, length-drop, append-nil, append_assoc, take-append_le,
  drop-append_le, take-append_eq, drop-append_eq, drop_two, take-append-drop,
}
use fleet_tracking_system.Common.Decimal.{codes}
use fleet_tracking_system.Protocol.Imei.{is_imei}

-- What of a JSON body has type string.
pub record Body : Type 0 where
  pub imei : Option Text
  pub command : Option Text

pub record Response : Type 0 where
  pub status : ℕ
  pub reply : Option Text
  pub error : Option Text

-- The end of `sendCommand`: the reply, or the message of the error.
pub data Answer : Type 0 where
  replied : Text → Answer
  failed : Text → Answer

pub record CommandSender : Type 0 where
  pub send_command : Text → Text → Answer
  pub is_connected : Text → Bool

pub record Commands : Type 0 where
  pub sender : CommandSender
  pub secret : Text

pub record Request : Type 0 where
  pub authorization : Option Text
  pub body : Text

abbrev pub or_empty : Option Text → Text
or_empty none = []
or_empty (some t) = t

unfoldable pub starts_with : Text → Text → Bool
starts_with [] s = true
starts_with (c ∷ prefix) [] = false
starts_with (c ∷ prefix) (d ∷ s) = nat_beq c d && starts_with prefix s

unfoldable pub includes : Text → Text → Bool
includes pattern [] = starts_with pattern []
includes pattern (c ∷ s) = starts_with pattern (c ∷ s) || includes pattern s

unfoldable pub lower : Text → Text
lower [] = []
lower (c ∷ s) = (if leb 65 c && leb c 90 then c + 32 else c) ∷ lower s

-- `/timed out/i`
unfoldable pub timed_out : Text → Bool
timed_out msg = includes (codes "timed out") (lower msg)

-- The token of `Bearer <token>`.
unfoldable pub presented : Option Text → Text
presented authorization =
    let auth = or_empty authorization in
    if starts_with (codes "Bearer ") auth then drop 7 auth else []

-- `readBody`: none where the body is too large.
unfoldable pub read_body : ℕ → Text → Option Text
read_body limit body = if ltb limit (length body) then none else some body

unfoldable pub failure : ℕ → Text → Response
failure status error = record { status = status; reply = none; error = some error }

unfoldable pub answered : Answer → Response
answered (replied reply) = record { status = 200; reply = some reply; error = none }
answered (failed msg) = failure (if timed_out msg then 504 else 502) msg

module _ (parse : Text → Option Body) (trim : Text → Text) where
  -- The checks of the fields, and the relay: the response, and the command that went to a device.
  unfoldable pub relay : CommandSender → Text → Text → Response × List (Text × Text)
  relay sender imei command =
      if not (is_imei imei)
      then (failure 400 (codes "imei must be 15 digits"), [])
      else if nat_beq (length command) 0 || ltb 160 (length command)
      then (failure 400 (codes "command must be 1..160 chars"), [])
      else if not (sender.is_connected imei)
      then (failure 404 (codes "device not connected"), [])
      else (answered (sender.send_command imei command), (imei, command) ∷ [])

  unfoldable pub read_command : CommandSender → Option Body → Response × List (Text × Text)
  read_command sender none = (failure 400 (codes "invalid JSON body"), [])
  read_command sender (some body) = relay sender (or_empty body.imei) (trim (or_empty body.command))

  unfoldable pub parsed : Option Text → Option Body
  parsed none = none
  parsed (some text) = parse text

  unfoldable pub handle_command : Option Commands → Request → Response × List (Text × Text)
  handle_command none req = (failure 503 (codes "command endpoint disabled"), [])
  handle_command (some commands) req =
      if nat_beq (length commands.secret) 0
      then (failure 503 (codes "command endpoint disabled"), [])
      else if not (presented req.authorization == commands.secret)
      then (failure 401 (codes "unauthorized"), [])
      else read_command commands.sender (parsed (read_body 4096 req.body))
