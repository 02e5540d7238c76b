-- ===== src/ControlPlane/DeviceCommander/EndToEnd.antt =====
-- The commander of the API server against the endpoint of ingestion.
use fleet_tracking_system.Common.{
  ◌≤◌, ◌<◌, [], ◌∷◌, ◌++◌, ◌≡◌, ◌≢◌, refl, ap, ◌∙◌, arith, true, Option, some, Text, text_eq,
  length, drop, nat_beq, nat_eq, if◌then◌else◌, Bool-cases, inl, inr,
}
use fleet_tracking_system.Common.{text_beq_iff}
use fleet_tracking_system.Common.Decimal.{codes}
use fleet_tracking_system.Protocol.Imei.{is_imei}
use fleet_tracking_system.Ingestion.Health.{
  Body, Response, CommandSender, Commands, Request, Answer, or_empty, starts_with, presented,
  read_body, failure, timed_out, relay, read_command, parsed, handle_command, answered,
}
use fleet_tracking_system.Ingestion.Health
use fleet_tracking_system.ControlPlane.DeviceCommander.{
  Fetched, response, command_request, error_text, refusal, is_ok, outcome, send,
}
use fleet_tracking_system.ControlPlane.Immobilizer.{
  Sent, replied, refused, not_connected, timeout, rejected,
}

-- What an end-to-end command should come to, by what the device does.
abbrev pub expected : Answer → Sent
expected (Health.replied reply) = replied reply
expected (Health.failed msg) =
    if timed_out msg
    then refused timeout (codes "Device did not answer in time")
    else refused rejected msg

module _ (parse : Text → Option Body) (trim : Text → Text) (serialise : Text → Text → Text) where
  abbrev endpoint : Option Commands → Request → Fetched
  endpoint configured req = response (handle_command parse trim configured req).0

  presented_token : (secret : Text) → presented (some (codes "Bearer " ++ secret)) ≡ secret
  unfolding presented starts_with drop
  presented_token secret = refl

  length_none : (t : Text) → nat_beq (length t) 0 ≡ true → t ≡ []
  length_none [] h = refl
  length_none (c ∷ t) h = absurd (ground arith)

  reaches_relay :
      (commands : Commands) (imei command : Text)
      → parse (serialise imei command) ≡ some (record { imei = some imei; command = some command })
      → length (serialise imei command) ≤ 4096
      → trim command ≡ command
      → commands.secret ≢ []
      → handle_command parse trim
          (some commands)
          (command_request serialise commands.secret imei command)
        ≡ relay parse trim commands.sender imei command
  unfolding handle_command command_request parsed read_body read_command
  reaches_relay commands imei command p fits t secret = ground (
    arith,
    length_none commands.secret,
    presented_token commands.secret,
    text_beq_iff commands.secret commands.secret,
  )

  relay_ends :
      (sender : CommandSender) (imei command : Text)
      → is_imei imei ≡ true
      → 0 < length command
      → length command ≤ 160
      → (relay parse trim sender imei command).0 ≡ (
          if sender.is_connected imei
          then answered (sender.send_command imei command)
          else failure 404 (codes "device not connected"))
  unfolding relay
  relay_ends sender imei command i l m = elim (Bool-cases (sender.is_connected imei)) [
    | inl on ↦ ground arith
    | inr off ↦ ground arith
  ]

  outcome-answered : (answer : Answer) → outcome (response (answered answer)) ≡ expected answer
  unfolding outcome answered failure refusal is_ok error_text
  outcome-answered (Health.replied reply) = refl
  outcome-answered (Health.failed msg) = elim (Bool-cases (timed_out msg)) [
    | inl late ↦ rw late refl
    | inr other ↦ rw other refl
  ]

  -- If both services have one secret that is not empty, the body is read back as it was written, and the IMEI and the command pass
  -- the endpoint's checks, then `send` comes to what the device does: its reply, a timeout
  -- where the error of ingestion says that it timed out, a rejection with ingestion's text on any other error, and "not
  -- connected" where the device is not.
  pub send_end_to_end :
      (commands : Commands) (imei command : Text)
      → parse (serialise imei command) ≡ some (record { imei = some imei; command = some command })
      → length (serialise imei command) ≤ 4096
      → trim command ≡ command
      → commands.secret ≢ []
      → is_imei imei ≡ true
      → 0 < length command
      → length command ≤ 160
      → send (endpoint (some commands)) serialise commands.secret imei command ≡ (
          if commands.sender.is_connected imei
          then expected (commands.sender.send_command imei command)
          else refused not_connected
              (codes "Device is not currently connected — it must be online to receive settings"))
  unfolding send outcome failure refusal
  send_end_to_end commands imei command p fits t s i l m =
      ap (λ r. outcome (response r.0)) (reaches_relay commands imei command p fits t s)
      ∙ ap (λ r. outcome (response r)) (relay_ends commands.sender imei command i l m)
      ∙ (elim (Bool-cases (commands.sender.is_connected imei)) [
        | inl on ↦ rw on (outcome-answered (commands.sender.send_command imei command))
        | inr off ↦ rw off refl
      ])
