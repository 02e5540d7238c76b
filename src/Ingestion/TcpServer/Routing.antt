-- ===== src/Ingestion/TcpServer/Routing.antt =====
-- The registry of tcp-server.ts over any order of connections, logins and closes.
use fleet_tracking_system.Common.{
  ℕ, ◌≤◌, [], ◌≡◌, ◌≢◌, refl, sym, ap, ◌∙◌, ◌==◌, Bool-cases, ◌⊎◌, inl, inr, arith, false, Option,
  none, some, Text, length, nat_eq,
}
use mathlib.Core.Path.{subst}
use fleet_tracking_system.Common.{text_eq, text_beq_iff, ==_refl}
use fleet_tracking_system.Common.Dict
use fleet_tracking_system.Common.Dict.{Dict, get-set, get-delete, length-delete, length-set_le}
use fleet_tracking_system.Ingestion.TcpServer.{
  TcpServer, on_connection, on_authenticated, mark, forget, on_close, is_connected, start_draining,
}

-- What happens on the server: a new socket, a login on an open socket whose session has none, a login that ends after
-- its socket has closed, a close, the start of the drain. A new socket is none that is open or routed to.
pub data Step : TcpServer → TcpServer → Type 0 where
  connects :
      (socket : ℕ) (server : TcpServer)
      → Dict.get socket server.connections ≡ none
      → ((imei : Text) → Dict.get imei server.by_imei ≢ some socket)
      → Step server (on_connection socket server).1
  logs_in :
      (imei : Text) (socket : ℕ) (server : TcpServer)
      → Dict.get socket server.connections ≡ some none
      → Step server (on_authenticated imei socket server)
  logs_in_late :
      (imei : Text) (socket : ℕ) (server : TcpServer)
      → Dict.get socket server.connections ≡ none
      → Step server (on_authenticated imei socket server)
  closes : (socket : ℕ) (server : TcpServer) → Step server (on_close socket server)
  drains : (server : TcpServer) → Step server (start_draining server)

pub data Reach (start : TcpServer) : TcpServer → Type 0 where
  here : Reach start start
  next : {s t : TcpServer} → Reach start s → Step s t → Reach start t

pub record Inv (server : TcpServer) : Type 0 where
  pub bounded : length server.connections ≤ server.max_connections
  pub routed :
      (imei : Text) (socket : ℕ)
      → Dict.get imei server.by_imei ≡ some socket
      → (Dict.get socket server.connections ≡ some (some imei))
        ⊎ (Dict.get socket server.connections ≡ none)

connects-Inv :
    (socket : ℕ) (server : TcpServer)
    → Dict.get socket server.connections ≡ none
    → ((imei : Text) → Dict.get imei server.by_imei ≢ some socket)
    → Inv server
    → Inv (on_connection socket server).1
unfolding on_connection
connects-Inv socket server fresh unrouted v = record {
  bounded = ground (arith, v.bounded, length-set_le socket none server.connections);
  routed = λ imei s h.
      let before : Dict.get imei server.by_imei ≡ some s = ground arith in
      let other : s ≢ socket = λ same. unrouted imei (before ∙ ap some same) in
      elim (v.routed imei s before) [
        | inl open_ ↦ inl (ground (arith, get-set socket s none server.connections))
        | inr gone ↦ inr (ground (arith, get-set socket s none server.connections))
      ];
}

logs_in-Inv :
    (imei : Text) (socket : ℕ) (server : TcpServer)
    → Dict.get socket server.connections ≡ some none
    → Inv server
    → Inv (on_authenticated imei socket server)
unfolding on_authenticated mark
logs_in-Inv imei socket server open_ v =
    let marked : mark imei socket (Dict.get socket server.connections) server.connections
        ≡ Dict.set socket (some imei) server.connections =
      ap (λ o. mark imei socket o server.connections) open_ in
    record {
      bounded = ground (
        arith,
        marked,
        v.bounded,
        Dict.length-set socket (some imei) none server.connections open_,
      );
      routed = λ j s h. elim (Bool-cases (imei == j)) [
        | inl same ↦ inl (
            ground (
              arith,
              marked,
              get-set socket s (some imei) server.connections,
              get-set imei j socket server.by_imei,
              text_beq_iff imei j,
            ))
        | inr other ↦
            let before : Dict.get j server.by_imei ≡ some s =
              ground (arith, marked, get-set imei j socket server.by_imei) in
            elim (v.routed j s before) [
              | inl there ↦
                  inl (ground (arith, marked, get-set socket s (some imei) server.connections))
              | inr gone ↦
                  inr (ground (arith, marked, get-set socket s (some imei) server.connections))
            ]
      ];
    }

logs_in_late-Inv :
    (imei : Text) (socket : ℕ) (server : TcpServer)
    → Dict.get socket server.connections ≡ none
    → Inv server
    → Inv (on_authenticated imei socket server)
unfolding on_authenticated mark
logs_in_late-Inv imei socket server closed v =
    let marked : mark imei socket (Dict.get socket server.connections) server.connections
        ≡ server.connections =
      ap (λ o. mark imei socket o server.connections) closed in
    record {
      bounded = ground (arith, marked, v.bounded);
      routed = λ j s h. elim (Bool-cases (imei == j)) [
        | inl same ↦ inr (ground (arith, marked, get-set imei j socket server.by_imei))
        | inr other ↦
            subst (λ m. (Dict.get s m ≡ some (some j)) ⊎ (Dict.get s m ≡ none)) (sym marked)
              (v.routed j s (ground (arith, get-set imei j socket server.by_imei)))
      ];
    }

closes-Inv : (socket : ℕ) (server : TcpServer) → Inv server → Inv (on_close socket server)
unfolding on_close
closes-Inv socket server v = record {
  bounded = ground (arith, v.bounded, length-delete socket server.connections);
  routed = λ imei s h. routed imei s (Dict.get socket server.connections) refl h;
}
  where
    kept :
        (imei : Text) (s : ℕ)
        → Dict.get imei server.by_imei ≡ some s
        → (Dict.get s (Dict.delete socket server.connections) ≡ some (some imei))
          ⊎ (Dict.get s (Dict.delete socket server.connections) ≡ none)
    kept imei s h = elim (v.routed imei s h) [
      | inl open_ ↦ elim (Bool-cases (socket == s)) [
        | inl same ↦ inr (ground (arith, get-delete socket s server.connections))
        | inr other ↦ inl (ground (arith, get-delete socket s server.connections))
      ]
      | inr gone ↦ inr (ground (arith, get-delete socket s server.connections))
    ]

    routed :
        (imei : Text) (s : ℕ) (o : Option (Option Text))
        → Dict.get socket server.connections ≡ o
        → Dict.get imei (forget o server.by_imei) ≡ some s
        → (Dict.get s (Dict.delete socket server.connections) ≡ some (some imei))
          ⊎ (Dict.get s (Dict.delete socket server.connections) ≡ none)
    routed imei s none e h = kept imei s h
    routed imei s (some none) e h = kept imei s h
    routed imei s (some (some j)) e h =
        kept imei s (ground (arith, get-delete j imei server.by_imei))

Step-Inv : {s t : TcpServer} → Step s t → Inv s → Inv t
Step-Inv (connects socket server fresh unrouted) v = connects-Inv socket server fresh unrouted v
Step-Inv (logs_in imei socket server open_) v = logs_in-Inv imei socket server open_ v
Step-Inv (logs_in_late imei socket server closed) v = logs_in_late-Inv imei socket server closed v
Step-Inv (closes socket server) v = closes-Inv socket server v
Step-Inv (drains server) v =
    unfold start_draining in record { bounded = v.bounded; routed = v.routed }

Reach-Inv : {start server : TcpServer} → Inv start → Reach start server → Inv server
Reach-Inv v here = v
Reach-Inv v (next r st) = Step-Inv st (Reach-Inv v r)

unfoldable pub empty_server : ℕ → TcpServer
empty_server max = record {
  max_connections = max;
  connections = [];
  by_imei = [];
  draining = false;
}

empty-Inv : (max : ℕ) → Inv (empty_server max)
unfolding empty_server Dict.get
empty-Inv max = record { bounded = omega arith; routed = λ imei s h. absurd (ground arith) }

-- After any connections, logins, closes and starts of the drain, no more sockets are open than the limit allows, and a
-- command for an IMEI is routed to an open socket only if the session of that socket has accepted that IMEI; else
-- the socket it is routed to has closed.
pub route_sound : (max : ℕ) (server : TcpServer) → Reach (empty_server max) server → Inv server
route_sound max server r = Reach-Inv (empty-Inv max) r

-- A device that connects again before its old socket closes cannot be reached any more once that
-- close is seen: the close takes the entry of the new session, whose socket is still open.
pub close_unroutes :
    (imei : Text) (old new : ℕ) (server : TcpServer)
    → old ≢ new
    → Dict.get old server.connections ≡ some (some imei)
    → Dict.get new server.connections ≡ some none
    → let after = on_close old (on_authenticated imei new server) in
      (Dict.get new after.connections ≡ some (some imei)) × (is_connected imei after ≡ false)
unfolding on_close on_authenticated mark is_connected
close_unroutes imei old new server ne h_old h_new =
    let c1 = get-set new new (some imei) server.connections in
    let c2 = get-set new old (some imei) server.connections in
    let conns = Dict.set new (some imei) server.connections in
    ground (
      arith,
      c1,
      c2,
      get-delete old new conns,
      get-delete imei imei (Dict.set imei new server.by_imei),
      ==_refl imei,
    )
