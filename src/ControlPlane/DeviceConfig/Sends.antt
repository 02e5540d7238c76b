-- ===== src/ControlPlane/DeviceConfig/Sends.antt =====
-- What device-config.ts sends to trackers, whatever comes of it.
use fleet_tracking_system.Common.{
  ℕ, List, [], ◌∷◌, ◌++◌, ◌≡◌, refl, sym, ap, ◌∙◌, arith, true, Option, none, some, Text, nat_eq,
  Bool-cases, ◌⊎◌, inl, inr, All, append-nil, append_assoc,
}
use fleet_tracking_system.ControlPlane.Http.{Result, ok, err, Exec, ◌>>=◌, pure}
use fleet_tracking_system.ControlPlane.Devices
use fleet_tracking_system.ControlPlane.Devices.{Device, AuthUser}
use fleet_tracking_system.Protocol.Params.{
  NetworkMode, MotionMode, Field, validate_profile, build_set_param, build_get_param,
}
use fleet_tracking_system.ControlPlane.DeviceConfig.{
  Outbox, Commander, ProfileWriteResult, relay, get_device, command_of, require_applied, read_back,
  profile, write_result, verify, apply, write,
}

-- What a method of which each part keeps a property leaves.
bound_keeps :
    {S A B : Type 0} (P : S → Type 0) (r : Result A × S) (f : A → Exec S B) (s : S)
    → P r.1
    → ((a : A) → r.0 ≡ ok a → P (f a r.1).1)
    → P (((λ _. r) >>= f) s).1
bound_keeps P (ok a, t) f s h k = k a refl
bound_keeps P (err e, t) f s h k = h

bind_keeps :
    {S A B : Type 0} (P : S → Type 0) (m : Exec S A) (f : A → Exec S B) (s : S)
    → P (m s).1
    → ((a : A) → (m s).0 ≡ ok a → P (f a (m s).1).1)
    → P ((m >>= f) s).1
bind_keeps P m f s h k = bound_keeps P (m s) f s h k

command_of_built :
    (built : Option Text) (sent : Outbox) (command : Text)
    → (command_of built sent).0 ≡ ok command
    → built ≡ some command
unfolding command_of
command_of_built none sent command h = cc
command_of_built (some c) sent command h = cc

build_set_param_valid :
    (network : NetworkMode) (motion : MotionMode) (values : List (Field × ℕ)) (command : Text)
    → build_set_param network motion values ≡ some command
    → validate_profile motion values ≡ true
unfolding build_set_param
build_set_param_valid network motion [] command h = cc
build_set_param_valid network motion (e ∷ values) command h =
    elim (Bool-cases (validate_profile motion (e ∷ values))) [
      | inl fine ↦ fine
      | inr bad ↦ ground arith
    ]

module _ (commander : Option Commander) (devices : Devices.Store) (user : AuthUser) (id : ℕ)
    (network : NetworkMode) (motion : MotionMode) (values : List (Field × ℕ)) where
  -- A command for the device of the request, if the user may see it: the reading of the profile, or the
  -- setting of the values, which are valid.
  pub record Proper (command : Text × Text) : Type 0 where
    pub device : Device
    pub visible : (Devices.get user id devices).0 ≡ ok device
    pub to_device : command.0 ≡ device.imei
    pub catalogued :
        (command.1 ≡ build_get_param network motion)
        ⊎ ((validate_profile motion values ≡ true)
            × (build_set_param network motion values ≡ some command.1))

  -- The outbox with some proper commands more.
  abbrev pub Grown : Outbox → Outbox → Type 0
  Grown sent out = (more : Outbox) × (out ≡ sent ++ more) × All Proper more

  All-snoc : (xs : Outbox) (c : Text × Text) → All Proper xs → Proper c → All Proper (xs ++ c ∷ [])
  All-snoc [] c h p = (p, tt)
  All-snoc (x ∷ xs) c (hx, h) p = (hx, All-snoc xs c h p)

  relay-Grown :
      (channel : Option Commander) (imei command : Text) (sent out : Outbox)
      → Proper (imei, command)
      → Grown sent out
      → Grown sent (relay channel imei command out).1
  unfolding relay
  relay-Grown none imei command sent out p g = g
  relay-Grown (some send) imei command sent out p (more, is_more, proper) = (
    more ++ (imei, command) ∷ [],
    ap (λ o. o ++ (imei, command) ∷ []) is_more ∙ append_assoc sent more ((imei, command) ∷ []),
    All-snoc more (imei, command) proper p,
  )

  command_of-Grown :
      (built : Option Text) (sent : Outbox) → Grown sent sent → Grown sent (command_of built sent).1
  unfolding command_of
  command_of-Grown none sent g = g
  command_of-Grown (some command) sent g = g

  read_back-Grown :
      (imei : Text) (sent out : Outbox)
      → Proper (imei, build_get_param network motion)
      → Grown sent out
      → Grown sent (read_back commander devices user id network motion imei out).1
  unfolding read_back
  read_back-Grown imei sent out p g =
      let reading = build_get_param network motion in
      let after = relay-Grown commander imei reading sent out p g in
      bind_keeps (Grown sent) (relay commander imei reading)
        (λ raw. pure (profile network motion raw)) out after (λ raw _. after)

  apply-Grown :
      (imei command : Text) (sent out : Outbox)
      → Proper (imei, command)
      → Proper (imei, build_get_param network motion)
      → Grown sent out
      → Grown sent (apply commander devices user id network motion imei command out).1
  unfolding apply verify require_applied
  apply-Grown imei command sent out p q g =
      let finish = verify commander devices user id network motion imei command in
      let ended : (o : Outbox) → Grown sent o → Grown sent (finish o).1 = λ o h.
        let back = read_back-Grown imei sent o q h in
        bind_keeps (Grown sent) (read_back commander devices user id network motion imei)
          (λ held. pure (write_result command held)) o back (λ held _. back) in
      let relayed = relay-Grown commander imei command sent out p g in
      bind_keeps (Grown sent) (relay commander imei command)
        (λ raw. require_applied raw >>= (λ _. finish)) out relayed
        (λ raw _.
          bind_keeps (Grown sent) (require_applied raw) (λ _. finish)
            (relay commander imei command out).1 relayed
            (λ _ _. ended (relay commander imei command out).1 relayed))

  -- Whatever a write and the tracker do, all that goes out is for the device of the request, which the user may
  -- see, and is the reading of the profile or the setting of the values, which have passed the checks of
  -- their ranges.
  pub write_sends :
      (sent : Outbox) → Grown sent (write commander devices user id network motion values sent).1
  unfolding write get_device command_of
  write_sends sent =
      let next : Device → Exec Outbox ProfileWriteResult = λ device.
        command_of (build_set_param network motion values)
        >>= apply commander devices user id network motion device.imei in
      let unsent : Grown sent sent = ([], sym (append-nil sent), tt) in
      bind_keeps (Grown sent) (get_device user id devices) next sent unsent (λ device visible.
        bind_keeps (Grown sent) (command_of (build_set_param network motion values))
          (apply commander devices user id network motion device.imei) sent
          (command_of-Grown (build_set_param network motion values) sent unsent)
          (λ command built.
            let is_command =
              command_of_built (build_set_param network motion values) sent command built in
            apply-Grown device.imei command sent
              (command_of (build_set_param network motion values) sent).1
              (record {
                device = device;
                visible = visible;
                to_device = refl;
                catalogued =
                    inr
                      (build_set_param_valid network motion values command is_command, is_command);
              })
              (record {
                device = device;
                visible = visible;
                to_device = refl;
                catalogued = inl refl;
              })
              (command_of-Grown (build_set_param network motion values) sent unsent)))
