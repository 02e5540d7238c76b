-- ===== src/Ingestion/Health/Relay.antt =====
-- When a command goes to a device.
use fleet_tracking_system.Common.{
  ◌≤◌, ◌<◌, [], ◌∷◌, ◌≡◌, ◌≢◌, refl, ap, arith, ◌||◌, true, Option, none, some, Text, text_eq,
  length, ltb, nat_beq, ◌==◌, nat_eq, Bool-cases, ◌⊎◌, inl, inr,
}
use fleet_tracking_system.Common.{text_beq_iff}
use fleet_tracking_system.Protocol.Imei.{is_imei}
use fleet_tracking_system.Ingestion.Health.{
  Body, CommandSender, Commands, Request, or_empty, presented, read_body, relay, read_command,
  parsed, handle_command,
}

module _ (parse : Text → Option Body) (trim : Text → Text) where
  -- All that has to hold for a command to go out.
  pub record Authorized (configured : Option Commands) (req : Request) (imei command : Text)
      : Type 0 where
    pub commands : Commands
    pub enabled : configured ≡ some commands
    pub secret_set : commands.secret ≢ []
    pub secret_shown : presented req.authorization ≡ commands.secret
    pub device : is_imei imei ≡ true
    pub not_empty : 0 < length command
    pub short : length command ≤ 160
    pub online : commands.sender.is_connected imei ≡ true

  relay_cases :
      (sender : CommandSender) (imei command : Text)
      → ((relay parse trim sender imei command).1 ≡ [])
        ⊎ (((relay parse trim sender imei command).1 ≡ (imei, command) ∷ [])
            × ((is_imei imei ≡ true)
                × ((0 < length command)
                    × ((length command ≤ 160) × (sender.is_connected imei ≡ true)))))
  unfolding relay
  relay_cases sender imei command = elim (Bool-cases (is_imei imei)) [
    | inr bad ↦ inl (ground arith)
    | inl good ↦ elim (Bool-cases (nat_beq (length command) 0 || ltb 160 (length command))) [
      | inl wrong ↦ inl (ground arith)
      | inr fits ↦ elim (Bool-cases (sender.is_connected imei)) [
        | inr off ↦ inl (ground arith)
        | inl on ↦ inr (ground arith, (good, (ground arith, (ground arith, on))))
      ]
    ]
  ]

  read_command_cases :
      (sender : CommandSender) (body : Option Body)
      → ((read_command parse trim sender body).1 ≡ [])
        ⊎ ((imei : Text) × ((command : Text) × (((read_command parse trim sender body).1
                  ≡ (imei, command) ∷ [])
                × ((is_imei imei ≡ true)
                    × ((0 < length command)
                        × ((length command ≤ 160) × (sender.is_connected imei ≡ true)))))))
  unfolding read_command
  read_command_cases sender none = inl refl
  read_command_cases sender (some body) =
      elim (relay_cases sender (or_empty body.imei) (trim (or_empty body.command))) [
        | inl quiet ↦ inl quiet
        | inr done ↦ inr (or_empty body.imei, (trim (or_empty body.command), done))
      ]

  -- The endpoint relays at most one command, and only if it is enabled with a secret that is not empty, the caller has
  -- shown this secret, the IMEI has 15 digits, the command has 1 to 160 characters and the device is
  -- connected.
  pub handle_command_guarded :
      (configured : Option Commands) (req : Request)
      → ((handle_command parse trim configured req).1 ≡ [])
        ⊎ ((imei : Text) × ((command : Text) × (((handle_command parse trim configured req).1
                  ≡ (imei, command) ∷ [])
                × Authorized configured req imei command)))
  unfolding handle_command
  handle_command_guarded none req = inl refl
  handle_command_guarded (some commands) req =
      elim (Bool-cases (nat_beq (length commands.secret) 0)) [
        | inl unset ↦ inl (ground arith)
        | inr set ↦ elim (Bool-cases (presented req.authorization == commands.secret)) [
          | inr wrong ↦ inl (ground arith)
          | inl shown ↦
              elim (read_command_cases commands.sender
                (parsed parse trim (read_body 4096 req.body))) [
                  | inl quiet ↦ inl (ground arith)
                  | inr (imei, (command, (out, (device, (long, (short, online)))))) ↦ inr (
                    imei,
                    (
                      command,
                      (
                        ground arith,
                        record {
                          commands = commands;
                          enabled = refl;
                          secret_set = λ e. ground (arith, ap length e);
                          secret_shown = (text_beq_iff _ _).0 shown;
                          device = device;
                          not_empty = long;
                          short = short;
                          online = online;
                        },
                      ),
                    ),
                  )
                ]
        ]
      ]
