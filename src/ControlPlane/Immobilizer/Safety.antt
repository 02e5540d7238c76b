-- ===== src/ControlPlane/Immobilizer/Safety.antt =====
-- When immobilizer.ts sends a command, and what an action leaves in the store.
use fleet_tracking_system.Common.{
  ℕ, ◌+◌, ◌≤◌, [], ◌∷◌, ◌++◌, ◌≡◌, ◌≢◌, refl, ap, arith, Bool, true, Option, none, some, Text,
  length, nat_eq, Bool-cases, Option-cases, ◌⊎◌, inl, inr, length-append,
}
use fleet_tracking_system.ControlPlane.ImmobilizerCommand.{build_set_digout, safe_to_immobilize}
use fleet_tracking_system.ControlPlane.Http.{
  Fault, ok, err, ◌>>=◌, bad_request, not_found, conflict, service_unavailable, internal,
}
use fleet_tracking_system.ControlPlane.Immobilizer.{
  Action, ImmobilizerConfig, ImmobilizerEvent, Store, Sent, replied, refused, crashed, Env,
  get_config, add_event, upsert, require_device, record_event, require_enabled, fault_of, sent_out,
  answered, relay, patch_reply, last_speed, built, speed_guard, actuate,
}

-- What has to hold for a command to go out, and what it is.
pub record Sends (env : Env) (device : ℕ) (engage : Bool) (s : Store) : Type 0 where
  pub config : ImmobilizerConfig
  pub found : get_config env.tenant_id device s ≡ some config
  pub enabled : config.enabled ≡ true
  pub slow :
      engage ≡ true → (v : ℕ) → last_speed env device ≡ some v → v ≤ config.wiring.max_engage_kph
  pub imei : Text
  pub is_device : env.find_device device ≡ some imei
  pub command : Text
  pub is_command : build_set_digout engage config.wiring ≡ some command
  pub send : Text → Text → Sent
  pub channel : env.commander ≡ some send

slow_of :
    (o : Option ℕ) (limit : ℕ)
    → safe_to_immobilize o limit ≡ true
    → (v : ℕ) → o ≡ some v
    → v ≤ limit
unfolding safe_to_immobilize
slow_of none limit h v e = cc
slow_of (some w) limit h v e = ground arith

guard_slow :
    (engage : Bool) (env : Env) (device : ℕ) (c : ImmobilizerConfig) (s : Store)
    → (speed_guard env device engage c s).0 ≡ ok tt
    → engage ≡ true
    → (v : ℕ) → last_speed env device ≡ some v
    → v ≤ c.wiring.max_engage_kph
unfolding speed_guard
guard_slow engage env device c s h e =
    slow_of (last_speed env device) c.wiring.max_engage_kph (ground arith)

guard-same :
    (env : Env) (device : ℕ) (engage : Bool) (c : ImmobilizerConfig) (s : Store)
    → (speed_guard env device engage c s ≡ (ok tt, s))
      ⊎ (speed_guard env device engage c s ≡ (err conflict, s))
unfolding speed_guard
guard-same env device engage c s = ground arith

-- An action either throws before anything happens, or it has sent its command.
actuate_cases :
    (env : Env) (device : ℕ) (engage : Bool) (action : Action) (s : Store)
    → ((e : Fault) × (actuate env device engage action s ≡ (err e, s)))
      ⊎ ((g : Sends env device engage s) × (actuate env device engage action s
            ≡ (do
              reply ← answered env device action g.command (g.send g.imei g.command)
              patch_reply env device (λ row. record row { immobilized = engage }) g.command reply)
                (sent_out g.imei g.command s)))
unfolding actuate require_enabled require_device built relay
actuate_cases env device engage action s = elim (Option-cases (env.find_device device)) [
  | inl e ↦ inl (not_found, ground arith)
  | inr (imei, ed) ↦ elim (Option-cases (get_config env.tenant_id device s)) [
    | inl e ↦ inl (bad_request, ground arith)
    | inr (c, ec) ↦ elim (Bool-cases c.enabled) [
      | inr off ↦ inl (bad_request, ground arith)
      | inl on ↦ elim (guard-same env device engage c s) [
        | inr e ↦ inl (conflict, ground arith)
        | inl e ↦ elim (Option-cases (build_set_digout engage c.wiring)) [
          | inl eb ↦ inl (internal, ground arith)
          | inr (command, eb) ↦ elim (Option-cases env.commander) [
            | inl es ↦ inl (service_unavailable, ground arith)
            | inr (send, es) ↦ inr (
              record {
                config = c;
                found = ec;
                enabled = on;
                slow = guard_slow engage env device c s (ground arith);
                imei = imei;
                is_device = ed;
                command = command;
                is_command = eb;
                send = send;
                channel = es;
              },
              ground arith,
            )
          ]
        ]
      ]
    ]
  ]
]

answered_cases :
    (env : Env) (device : ℕ) (action : Action) (command : Text) (sent : Sent) (s : Store)
    → ((reply : Text) × (e : ImmobilizerEvent) × (answered env device action command sent s
          ≡ (ok reply, add_event e s)))
      ⊎ ((f : Fault) × (e : ImmobilizerEvent) × (answered env device action command sent s
            ≡ (err f, add_event e s)))
unfolding answered record_event
answered_cases env device action command (replied reply) s = inl (reply, _, refl)
answered_cases env device action command (refused code msg) s = inr (fault_of code, _, refl)
answered_cases env device action command (crashed msg) s = inr (internal, _, refl)

-- If an action has put a command on the channel to devices, the immobilizer was enabled for that
-- device and tenant, and, when the action is to stop the vehicle, the last known speed was not over the limit of
-- the configuration; and what went out is one command, to that device, the one that is built for the wiring to
-- do this action. So there is no command without these.
pub actuate_guarded :
    (env : Env) (device : ℕ) (engage : Bool) (action : Action) (s : Store)
    → (actuate env device engage action s).1.relayed ≢ s.relayed
    → (g : Sends env device engage s) × ((actuate env device engage action s).1.relayed
        ≡ s.relayed ++ (g.imei, g.command) ∷ [])
unfolding patch_reply add_event sent_out upsert get_config
actuate_guarded env device engage action s ne = elim (actuate_cases env device engage action s) [
  | inl (e, same) ↦ absurd (ne (ap (λ r. r.1.relayed) same))
  | inr (g, same) ↦
      elim (answered_cases env device action g.command (g.send g.imei g.command)
        (sent_out g.imei g.command s)) [
          | inl (reply, ev, ra) ↦ let found = g.found in (g, ground arith)
          | inr (f, ev, ra) ↦ (g, ground arith)
        ]
]

-- An action that throws leaves every configuration as it was.
pub actuate_error_keeps :
    (env : Env) (device : ℕ) (engage : Bool) (action : Action) (s : Store) (e : Fault)
    → (actuate env device engage action s).0 ≡ err e
    → (actuate env device engage action s).1.by_device ≡ s.by_device
unfolding patch_reply get_config add_event sent_out
actuate_error_keeps env device engage action s e h =
    elim (actuate_cases env device engage action s) [
      | inl (f, same) ↦ ap (λ r. r.1.by_device) same
      | inr (g, same) ↦
          elim (answered_cases env device action g.command (g.send g.imei g.command)
            (sent_out g.imei g.command s)) [
              | inl (reply, ev, ra) ↦ let found = g.found in ground arith
              | inr (f, ev, ra) ↦ ground arith
            ]
    ]

-- An action adds one event to the log for each command that it puts on the channel to devices: an
-- event for one command, whatever the device answers, and no event where no command went out.
pub actuate_logged :
    (env : Env) (device : ℕ) (engage : Bool) (action : Action) (s : Store)
    → (length (actuate env device engage action s).1.log + length s.relayed
        ≡ length s.log + length (actuate env device engage action s).1.relayed)
unfolding patch_reply add_event sent_out upsert get_config
actuate_logged env device engage action s = elim (actuate_cases env device engage action s) [
  | inl (f, same) ↦
      let rel = ap (λ r. r.1.relayed) same in let lg = ap (λ r. r.1.log) same in ground arith
  | inr (g, same) ↦
      elim (answered_cases env device action g.command (g.send g.imei g.command)
        (sent_out g.imei g.command s)) [
          | inl (reply, ev, ra) ↦ elim (Option-cases (get_config env.tenant_id device s)) [
            | inl missing ↦
                let found = g.found in
                ground (
                  arith,
                  length-append s.log (ev ∷ []),
                  length-append s.relayed ((g.imei, g.command) ∷ []),
                )
            | inr (c, there) ↦ ground (
              arith,
              length-append s.log (ev ∷ []),
              length-append s.relayed ((g.imei, g.command) ∷ []),
            )
          ]
          | inr (f, ev, ra) ↦ ground (
            arith,
            length-append s.log (ev ∷ []),
            length-append s.relayed ((g.imei, g.command) ∷ []),
          )
        ]
]
