-- ===== src/Ingestion/TcpServer.antt =====
-- services/ingestion/src/tcp-server.ts: the sockets that are open, with the IMEI that the session of
-- each has accepted, and the registry that routes a command to a session. A socket is a number.
pub mod Routing
use fleet_tracking_system.Common.{
  ℕ, zero, suc, ◌+◌, ◌-◌, ◌*◌, ◌/◌, ◌%◌, ◌≤◌, ◌<◌, List, [], ◌∷◌, ◌++◌, ◌≡◌, ◌≢◌, refl, sym, ap,
  ◌∙◌, arith, Bool, ◌&&◌, ◌||◌, not, true, false, Option, none, some, Text, length, take, drop, ltb,
  leb, nat_beq, ◌==◌, nat_eq, if◌then◌else◌, Bool-cases, Option-cases, ◌⊎◌, inl, inr, All, map,
  length-append, length-take, length-drop, append-nil, append_assoc, take-append_le, drop-append_le,
  take-append_eq, drop-append_eq, drop_two, take-append-drop,
}
use fleet_tracking_system.Common.{text_eq}
use fleet_tracking_system.Common.Dict
use fleet_tracking_system.Common.Dict.{Dict}

pub record TcpServer : Type 0 where
  pub max_connections : ℕ
  pub connections : Dict ℕ (Option Text)
  pub by_imei : Dict Text ℕ
  pub draining : Bool

-- A socket over the limit, or one that comes while the server drains, is destroyed: `false`.
unfoldable pub on_connection : ℕ → TcpServer → Bool × TcpServer
on_connection socket server =
    if server.draining || leb server.max_connections (length server.connections)
    then (false, server)
    else (true, record server { connections = Dict.set socket none server.connections })

-- `session.imei` of a socket that is open. The session of one that has closed is not seen by the server again.
unfoldable pub mark : Text → ℕ → Option (Option Text) → Dict ℕ (Option Text) → Dict ℕ (Option Text)
mark imei socket none connections = connections
mark imei socket (some before) connections = Dict.set socket (some imei) connections

-- The session of `socket` has accepted `imei`: `this.byImei.set(imei, s)`. The socket may have closed while the session
-- waited for the allow-list.
unfoldable pub on_authenticated : Text → ℕ → TcpServer → TcpServer
on_authenticated imei socket server = record server {
  connections = mark imei socket (Dict.get socket server.connections) server.connections;
  by_imei = Dict.set imei socket server.by_imei;
}

-- `if (session.imei) this.byImei.delete(session.imei)`
unfoldable pub forget : Option (Option Text) → Dict Text ℕ → Dict Text ℕ
forget none routes = routes
forget (some none) routes = routes
forget (some (some imei)) routes = Dict.delete imei routes

unfoldable pub on_close : ℕ → TcpServer → TcpServer
unfolding forget
on_close socket server = record server {
  connections = Dict.delete socket server.connections;
  by_imei = forget (Dict.get socket server.connections) server.by_imei;
}

-- The socket whose session gets a command; `none` is the error that the device is not connected.
unfoldable pub route : Text → TcpServer → Option ℕ
route imei server = Dict.get imei server.by_imei

unfoldable pub is_connected : Text → TcpServer → Bool
unfolding route
is_connected imei server = elim (route imei server) [ none ↦ false | some s ↦ true ]

-- The first step of `drain`; the sockets that stay are closed after it, one `on_close` each.
unfoldable pub start_draining : TcpServer → TcpServer
start_draining server = record server { draining = true }
