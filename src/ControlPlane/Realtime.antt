-- ===== src/ControlPlane/Realtime.antt =====
-- services/control-plane/src/realtime/realtime.gateway.ts. Sockets are numbers; the token of a connection's URL is
-- given, the empty text standing for none; `verify` is JwtService.verify, of which only the tenant is read, and
-- the sockets that are open at a time are a parameter.
pub mod Isolation
use fleet_tracking_system.Common.{
  ℕ, zero, suc, ◌+◌, ◌-◌, ◌*◌, ◌/◌, ◌%◌, ◌≤◌, ◌<◌, List, [], ◌∷◌, ◌++◌, ◌≡◌, ◌≢◌, refl, sym, ap,
  ◌∙◌, arith, Bool, ◌&&◌, ◌||◌, not, true, false, Option, none, some, Text, text_eq, length, take,
  drop, ltb, leb, nat_beq, ◌==◌, nat_eq, if◌then◌else◌, Bool-cases, Option-cases, ◌⊎◌, inl, inr,
  All, map, length-append, length-take, length-drop, append-nil, append_assoc, take-append_le,
  drop-append_le, take-append_eq, drop-append_eq, drop_two, take-append-drop,
}
use fleet_tracking_system.Common.Dict
use fleet_tracking_system.Common.Dict.{Dict}
use fleet_tracking_system.ControlPlane.Alerts.{Position, AlertEvent}
use fleet_tracking_system.ControlPlane.Guard.{JwtPayload}

pub data Message : Type 0 where
  connected : ℕ → Message
  error : Message
  position : Position → Message
  alert : AlertEvent → Message

-- `sent` is all that was sent, with the socket it went to.
pub record Gateway : Type 0 where
  pub tenant_of : Dict ℕ ℕ
  pub sent : List (ℕ × Message)
  pub closed : List ℕ

unfoldable pub send : ℕ → Message → Gateway → Gateway
send client msg g = record g { sent = g.sent ++ (client, msg) ∷ [] }

unfoldable pub verified : (Text → Option JwtPayload) → Text → Option JwtPayload
verified verify [] = none
verified verify (c ∷ token) = verify (c ∷ token)

unfoldable pub handle_connection : (Text → Option JwtPayload) → ℕ → Text → Gateway → Gateway
handle_connection verify client token g = elim (verified verify token) [
  | none ↦ let refused = send client error g in record refused { closed = client ∷ refused.closed }
  | some payload ↦
      let tenant = payload.tenant_id in
      send client (connected tenant) (record g { tenant_of = Dict.set client tenant g.tenant_of })
]

unfoldable pub handle_disconnect : ℕ → Gateway → Gateway
handle_disconnect client g = record g { tenant_of = Dict.delete client g.tenant_of }

-- The loop of `broadcast`.
unfoldable pub fan_out : (ℕ → Bool) → ℕ → Message → Dict ℕ ℕ → Gateway → Gateway
fan_out is_open tenant msg [] g = g
fan_out is_open tenant msg ((client, t) ∷ others) g =
    fan_out is_open tenant msg others
      (if t == tenant && is_open client then send client msg g else g)

unfoldable pub broadcast : (ℕ → Bool) → ℕ → Message → Gateway → Gateway
broadcast is_open tenant msg g = fan_out is_open tenant msg g.tenant_of g

unfoldable pub publish : (ℕ → Bool) → ℕ → Position → Gateway → Gateway
publish is_open tenant p = broadcast is_open tenant (position p)

unfoldable pub publish_alert : (ℕ → Bool) → ℕ → AlertEvent → Gateway → Gateway
publish_alert is_open tenant a = broadcast is_open tenant (alert a)
