-- ===== src/ControlPlane/Realtime/Isolation.antt =====
-- What a socket receives.
use fleet_tracking_system.Common.{
  ℕ, List, [], ◌∷◌, ◌++◌, ◌≡◌, refl, sym, ap, ◌∙◌, arith, Bool, ◌&&◌, Option, none, some, Text,
  text_eq, ◌==◌, nat_eq, if◌then◌else◌, Bool-cases, Option-cases, inl, inr, append-nil,
}
use mathlib.Core.Path.{subst}
use fleet_tracking_system.Common.{nat_beq_iff}
use fleet_tracking_system.Common.Dict
use fleet_tracking_system.Common.Dict.{Dict, Distinct, Distinct-set, Distinct-delete}
use fleet_tracking_system.ControlPlane.Alerts.{Position, AlertEvent}
use fleet_tracking_system.ControlPlane.Guard.{JwtPayload}
use fleet_tracking_system.ControlPlane.Realtime.{
  Message, position, alert, Gateway, send, verified, handle_connection, handle_disconnect, fan_out,
  broadcast, publish, publish_alert,
}

-- What comes in at the gateway.
pub data Event : Type 0 where
  connection : ℕ → Text → Event
  disconnection : ℕ → Event
  published : (ℕ → Bool) → ℕ → Position → Event
  alerted : (ℕ → Bool) → ℕ → AlertEvent → Event

abbrev pub empty : Gateway
empty = record { tenant_of = []; sent = []; closed = [] }

-- The messages of one socket, in their order.
abbrev pub received : ℕ → List (ℕ × Message) → List Message
received client [] = []
received client ((c, msg) ∷ sent) =
    let rest = received client sent in if c == client then msg ∷ rest else rest

module _ (verify : Text → Option JwtPayload) where
  unfoldable pub handle : Event → Gateway → Gateway
  handle (connection client token) = handle_connection verify client token
  handle (disconnection client) = handle_disconnect client
  handle (published is_open tenant p) = publish is_open tenant p
  handle (alerted is_open tenant a) = publish_alert is_open tenant a

  unfoldable pub run : List Event → Gateway → Gateway
  run [] g = g
  run (e ∷ events) g = run events (handle e g)

  -- The tenant that a socket is signed in for after events, from the one before: that of its last valid
  -- token, until it disconnects.
  unfoldable pub session : List Event → ℕ → Option ℕ → Option ℕ
  session [] client before = before
  session (connection c token ∷ events) client before = session events client (
      if c == client
      then (elim (verified verify token) [ none ↦ before | some payload ↦ some payload.tenant_id ])
      else before)
  session (disconnection c ∷ events) client before =
      session events client (if c == client then none else before)
  session (published is_open tenant p ∷ events) client before = session events client before
  session (alerted is_open tenant a ∷ events) client before = session events client before

received-append :
    (client : ℕ) (xs ys : List (ℕ × Message))
    → received client (xs ++ ys) ≡ received client xs ++ received client ys
received-append client [] ys = refl
received-append client ((c, msg) ∷ xs) ys = ground (arith, received-append client xs ys)

-- What `broadcast` sends to a socket of a tenant, if to any.
abbrev pub delivered : Bool → Option ℕ → ℕ → Message → List Message
delivered is_open none tenant msg = []
delivered is_open (some t) tenant msg = if t == tenant && is_open then msg ∷ [] else []

received-fan_out :
    (is_open : ℕ → Bool) (tenant client : ℕ) (msg : Message) (sockets : Dict ℕ ℕ) (g : Gateway)
    → Distinct sockets
    → received client (fan_out is_open tenant msg sockets g).sent
      ≡ received client g.sent ++ delivered (is_open client) (Dict.get client sockets) tenant msg
unfolding fan_out send Dict.get
received-fan_out is_open tenant client msg [] g d = sym (append-nil (received client g.sent))
received-fan_out is_open tenant client msg ((c, t) ∷ others) g (new, d) =
    let got = received client g.sent in
    let on = received-fan_out is_open tenant client msg others in
    let added = received-append client g.sent ((c, msg) ∷ []) in
    elim (Bool-cases (t == tenant && is_open c)) [
      | inr quiet ↦ elim (Bool-cases (c == client)) [
        | inl same ↦
            let it = (nat_beq_iff c client).0 same in
            ground (arith, on g d, ap is_open it, ap (λ x. Dict.get x others) it)
        | inr other ↦ ground (arith, on g d)
      ]
      | inl sends ↦ elim (Bool-cases (c == client)) [
        | inl same ↦
            let it = (nat_beq_iff c client).0 same in
            ground (
              arith,
              on (send c msg g) d,
              added,
              append-nil (got ++ msg ∷ []),
              ap is_open it,
              ap (λ x. Dict.get x others) it,
            )
        | inr other ↦ ground (arith, on (send c msg g) d, added, append-nil got)
      ]
    ]

fan_out_tenants :
    (is_open : ℕ → Bool) (tenant : ℕ) (msg : Message) (sockets : Dict ℕ ℕ) (g : Gateway)
    → (fan_out is_open tenant msg sockets g).tenant_of ≡ g.tenant_of
unfolding fan_out send
fan_out_tenants is_open tenant msg [] g = refl
fan_out_tenants is_open tenant msg ((c, t) ∷ others) g = ground (
  arith,
  fan_out_tenants is_open tenant msg others (if t == tenant && is_open c then send c msg g else g),
)

module _ (verify : Text → Option JwtPayload) where
  connection_refused :
      (client : ℕ) (token : Text) (g : Gateway)
      → verified verify token ≡ none
      → (handle verify (connection client token) g).tenant_of ≡ g.tenant_of
  unfolding handle handle_connection send
  connection_refused client token g e = ground arith

  connection_made :
      (client : ℕ) (token : Text) (g : Gateway) (p : JwtPayload)
      → verified verify token ≡ some p
      → (handle verify (connection client token) g).tenant_of
        ≡ Dict.set client p.tenant_id g.tenant_of
  unfolding handle handle_connection send
  connection_made client token g p e = ground arith

  fanned :
      (is_open : ℕ → Bool) (tenant : ℕ) (msg : Message) (g : Gateway)
      → (broadcast is_open tenant msg g).tenant_of ≡ g.tenant_of
  unfolding broadcast
  fanned is_open tenant msg g = fan_out_tenants is_open tenant msg g.tenant_of g

  handle-Distinct :
      (e : Event) (g : Gateway) → Distinct g.tenant_of → Distinct (handle verify e g).tenant_of
  unfolding handle handle_disconnect publish publish_alert
  handle-Distinct (connection client token) g d = elim (Option-cases (verified verify token)) [
    | inl bad ↦ subst Distinct (sym (connection_refused client token g bad)) d
    | inr (p, e) ↦
        subst Distinct (sym (connection_made client token g p e))
          (Distinct-set client p.tenant_id g.tenant_of d)
  ]
  handle-Distinct (disconnection client) g d = Distinct-delete client g.tenant_of d
  handle-Distinct (published is_open tenant p) g d =
      subst Distinct (sym (fanned is_open tenant (position p) g)) d
  handle-Distinct (alerted is_open tenant a) g d =
      subst Distinct (sym (fanned is_open tenant (alert a) g)) d

  run-Distinct :
      (events : List Event) (g : Gateway)
      → Distinct g.tenant_of
      → Distinct (run verify events g).tenant_of
  unfolding run
  run-Distinct [] g d = d
  run-Distinct (e ∷ events) g d = run-Distinct events (handle verify e g) (handle-Distinct e g d)

  run_session :
      (events : List Event) (client : ℕ) (g : Gateway)
      → Dict.get client (run verify events g).tenant_of
        ≡ session verify events client (Dict.get client g.tenant_of)
  unfolding run session handle handle_disconnect publish publish_alert
  run_session [] client g = refl
  run_session (connection c token ∷ events) client g =
      run_session events client (handle verify (connection c token) g)
      ∙ ap (session verify events client) (elim (Option-cases (verified verify token)) [
        | inl bad ↦ ap (Dict.get client) (connection_refused c token g bad) ∙ ground arith
        | inr (p, e) ↦
            ap (Dict.get client) (connection_made c token g p e)
            ∙ ground (arith, Dict.get-set c client p.tenant_id g.tenant_of)
      ])
  run_session (disconnection c ∷ events) client g =
      run_session events client (handle verify (disconnection c) g)
      ∙ ap (session verify events client) (Dict.get-delete c client g.tenant_of)
  run_session (published is_open tenant p ∷ events) client g =
      run_session events client (handle verify (published is_open tenant p) g)
      ∙ ap (λ m. session verify events client (Dict.get client m))
          (fanned is_open tenant (position p) g)
  run_session (alerted is_open tenant a ∷ events) client g =
      run_session events client (handle verify (alerted is_open tenant a) g)
      ∙ ap (λ m. session verify events client (Dict.get client m))
          (fanned is_open tenant (alert a) g)

  -- After any connections, disconnections and messages, what a position that is published for a tenant adds to what a
  -- socket receives is this position, once, if the last valid token that the socket has presented since it last
  -- disconnected is of this tenant and the socket is open, and nothing otherwise.
  pub received-publish :
      (events : List Event) (is_open : ℕ → Bool) (tenant client : ℕ) (p : Position)
      → let g = run verify events empty in
        received client (publish is_open tenant p g).sent
        ≡ received client g.sent
          ++ delivered (is_open client) (session verify events client none) tenant (position p)
  unfolding publish broadcast Dict.get
  received-publish events is_open tenant client p =
      let g = run verify events empty in
      received-fan_out is_open tenant client (position p) g.tenant_of g
        (run-Distinct events empty tt)
      ∙ ap (λ s. received client g.sent ++ delivered (is_open client) s tenant (position p))
          (run_session events client empty)
