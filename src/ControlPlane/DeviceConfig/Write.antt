-- ===== src/ControlPlane/DeviceConfig/Write.antt =====
-- What a write of device-config.ts reports.
use fleet_tracking_system.Common.{
  ℕ, List, [], ◌∷◌, ◌++◌, ◌≡◌, refl, sym, ap, ◌∙◌, true, Option, some, Text, nat_eq,
}
use mathlib.Core.Path.{subst}
use fleet_tracking_system.ControlPlane.Http.{ok, Exec, ◌>>=◌, pure}
use fleet_tracking_system.ControlPlane.Immobilizer.{replied}
use fleet_tracking_system.ControlPlane.Devices
use fleet_tracking_system.ControlPlane.Devices.{Device, AuthUser}
use fleet_tracking_system.Protocol.Params.{
  NetworkMode, MotionMode, Field, build_set_param, build_get_param,
}
use fleet_tracking_system.Protocol.Params.Replies.{set_param_accepted}
use fleet_tracking_system.ControlPlane.DeviceConfig.{
  Outbox, Commander, ProfileReadResult, ProfileWriteResult, answer, relay, get_device, command_of,
  require_applied, read_back, read, profile, write_result, verify, apply, write,
}
use fleet_tracking_system.ControlPlane.DeviceConfig.Steps.{
  bind_ok, returned_injective, command_of_ok, require_applied_ok, bind_run, require_applied_run,
  relay_ok,
}

module _ (commander : Option Commander) (devices : Devices.Store) (user : AuthUser) (id : ℕ)
    (network : NetworkMode) (motion : MotionMode) where
  -- A profile that has been read back, with what was sent for it.
  pub record ReadBack (imei : Text) (sent sent' : Outbox) (r : ProfileReadResult) : Type 0 where
    pub send : Commander
    pub channel : commander ≡ some send
    pub went_out : sent' ≡ sent ++ (imei, build_get_param network motion) ∷ []
    pub raw : Text
    pub is_reply : send sent' ≡ replied raw
    pub is_profile : r ≡ profile network motion raw

  read_back_ok :
      (imei : Text) (sent sent' : Outbox) (r : ProfileReadResult)
      → read_back commander devices user id network motion imei sent ≡ (ok r, sent')
      → ReadBack imei sent sent' r
  unfolding read_back
  read_back_ok imei sent sent' r h =
      let (raw, t, relayed, done) =
        bind_ok (relay commander imei (build_get_param network motion))
          (λ raw. pure (profile network motion raw)) sent sent' r h in
      let (send, channel, out, is_reply) =
        relay_ok commander imei (build_get_param network motion) sent t raw relayed in
      let (same_r, same_out) = returned_injective (profile network motion raw) r t sent' done in
      record {
        send = send;
        channel = channel;
        went_out = sym same_out ∙ out;
        raw = raw;
        is_reply = ap send (sym same_out) ∙ is_reply;
        is_profile = sym same_r;
      }

  -- A setting that a device has taken, and the profile read back after it.
  pub record Applied (imei command : Text) (sent sent' : Outbox) (r : ProfileWriteResult)
      : Type 0 where
    pub is_result : r ≡ write_result command r.held
    pub send : Commander
    pub channel : commander ≡ some send
    pub reply : Text
    pub is_reply : send (sent ++ (imei, command) ∷ []) ≡ replied reply
    pub accepted : set_param_accepted reply ≡ true
    pub verified : ReadBack imei (sent ++ (imei, command) ∷ []) sent' r.held

  verify_ok :
      (imei command : Text) (sent sent' : Outbox) (r : ProfileWriteResult)
      → verify commander devices user id network motion imei command sent ≡ (ok r, sent')
      → (r ≡ write_result command r.held) × ReadBack imei sent sent' r.held
  unfolding verify write_result
  verify_ok imei command sent sent' r h =
      let (held, t, read, done) =
        bind_ok (read_back commander devices user id network motion imei)
          (λ held. pure (write_result command held)) sent sent' r h in
      let (same_r, same_out) = returned_injective (write_result command held) r t sent' done in
      (
        sym same_r ∙ ap (λ w. write_result command w.held) same_r,
        subst (λ w. ReadBack imei sent sent' w.held) same_r
            (subst (λ out. ReadBack imei sent out held) same_out
              (read_back_ok imei sent t held read)),
      )

  apply_ok :
      (imei command : Text) (sent sent' : Outbox) (r : ProfileWriteResult)
      → apply commander devices user id network motion imei command sent ≡ (ok r, sent')
      → Applied imei command sent sent' r
  unfolding apply
  apply_ok imei command sent sent' r h =
      let finish = verify commander devices user id network motion imei command in
      let (reply, t, relayed, rest) =
        bind_ok (relay commander imei command) (λ raw. require_applied raw >>= (λ _. finish)) sent
          sent' r h in
      let (done, u, applied, last) = bind_ok (require_applied reply) (λ _. finish) t sent' r rest in
      let (send, channel, out, is_reply) = relay_ok commander imei command sent t reply relayed in
      let (accepted, same) = require_applied_ok reply t u applied in
      let (is_result, verified) = verify_ok imei command u sent' r last in
      record {
        is_result = is_result;
        send = send;
        channel = channel;
        reply = reply;
        is_reply = ap send (sym out) ∙ is_reply;
        accepted = accepted;
        verified = subst (λ o. ReadBack imei o sent' r.held) (same ∙ out) verified;
      }

  get_device_ok :
      (sent t : Outbox) (device : Device)
      → get_device user id devices sent ≡ (ok device, t)
      → ((Devices.get user id devices).0 ≡ ok device) × (t ≡ sent)
  unfolding get_device
  get_device_ok sent t device h = (ap (λ p. p.0) h, sym (ap (λ p. p.1) h))

  -- A write that has been reported.
  pub record Written (values : List (Field × ℕ)) (sent sent' : Outbox) (r : ProfileWriteResult)
      : Type 0 where
    pub device : Device
    pub visible : (Devices.get user id devices).0 ≡ ok device
    pub command : Text
    pub is_command : build_set_param network motion values ≡ some command
    pub applied : Applied device.imei command sent sent' r

  write_ok :
      (values : List (Field × ℕ)) (sent sent' : Outbox) (r : ProfileWriteResult)
      → write commander devices user id network motion values sent ≡ (ok r, sent')
      → Written values sent sent' r
  unfolding write
  write_ok values sent sent' r h =
      let next : Device → Exec Outbox ProfileWriteResult = λ device.
        command_of (build_set_param network motion values)
        >>= apply commander devices user id network motion device.imei in
      let (device, t, found, rest) = bind_ok (get_device user id devices) next sent sent' r h in
      let (command, u, built, last) =
        bind_ok (command_of (build_set_param network motion values))
          (apply commander devices user id network motion device.imei) t sent' r rest in
      let (visible, same) = get_device_ok sent t device found in
      let (is_command, again) =
        command_of_ok (build_set_param network motion values) t u command built in
      record {
        device = device;
        visible = visible;
        command = command;
        is_command = is_command;
        applied =
            subst (λ o. Applied device.imei command o sent' r) (again ∙ same)
              (apply_ok device.imei command u sent' r last);
      }

  relay_run :
      (send : Commander) (imei command reply : Text) (sent : Outbox)
      → commander ≡ some send
      → send (sent ++ (imei, command) ∷ []) ≡ replied reply
      → relay commander imei command sent ≡ (ok reply, sent ++ (imei, command) ∷ [])
  unfolding relay answer
  relay_run send imei command reply sent channel is_reply = rw channel (rw is_reply refl)

  read_back_run :
      (imei : Text) (sent sent' : Outbox) (r : ProfileReadResult)
      → ReadBack imei sent sent' r
      → read_back commander devices user id network motion imei sent ≡ (ok r, sent')
  unfolding read_back
  read_back_run imei sent sent' r w =
      let reading = build_get_param network motion in
      let relayed =
        relay_run w.send imei reading w.raw sent w.channel
          (ap w.send (sym w.went_out) ∙ w.is_reply) in
      bind_run (relay commander imei reading) (λ raw. pure (profile network motion raw)) sent
        (sent ++ (imei, reading) ∷ []) w.raw relayed
      ∙ ap (λ o. (ok (profile network motion w.raw), o)) (sym w.went_out)
      ∙ ap (λ p. (ok p, sent')) (sym w.is_profile)

  verify_run :
      (imei command : Text) (sent sent' : Outbox) (held : ProfileReadResult)
      → ReadBack imei sent sent' held
      → verify commander devices user id network motion imei command sent
        ≡ (ok (write_result command held), sent')
  unfolding verify
  verify_run imei command sent sent' held w =
      bind_run (read_back commander devices user id network motion imei)
        (λ h. pure (write_result command h)) sent sent' held (read_back_run imei sent sent' held w)

  apply_run :
      (imei command : Text) (sent sent' : Outbox) (r : ProfileWriteResult)
      → Applied imei command sent sent' r
      → apply commander devices user id network motion imei command sent ≡ (ok r, sent')
  unfolding apply
  apply_run imei command sent sent' r w =
      let finish = verify commander devices user id network motion imei command in
      let out = sent ++ (imei, command) ∷ [] in
      bind_run (relay commander imei command) (λ raw. require_applied raw >>= (λ _. finish)) sent
        out w.reply (relay_run w.send imei command w.reply sent w.channel w.is_reply)
      ∙ bind_run (require_applied w.reply) (λ _. finish) out out tt
          (require_applied_run w.reply out w.accepted)
      ∙ verify_run imei command out sent' r.held w.verified
      ∙ ap (λ x. (ok x, sent')) (sym w.is_result)

  write_run :
      (values : List (Field × ℕ)) (sent sent' : Outbox) (r : ProfileWriteResult)
      → Written values sent sent' r
      → write commander devices user id network motion values sent ≡ (ok r, sent')
  unfolding write get_device command_of
  write_run values sent sent' r w =
      let next : Device → Exec Outbox ProfileWriteResult = λ device.
        command_of (build_set_param network motion values)
        >>= apply commander devices user id network motion device.imei in
      bind_run (get_device user id devices) next sent sent w.device (ap (λ d. (d, sent)) w.visible)
      ∙ bind_run (command_of (build_set_param network motion values))
          (apply commander devices user id network motion w.device.imei) sent sent w.command
          (ap (λ c. command_of c sent) w.is_command)
      ∙ apply_run w.device.imei w.command sent sent' r w.applied

  -- A write returns a result exactly when the device is visible to the user, the values make a setting, the device
  -- answers to that setting with a reply that is not a refusal, and answers to the reading of the
  -- profile that goes out next; the values returned are parsed from that last reply, and nothing else goes out.
  pub write_exact :
      (values : List (Field × ℕ)) (sent sent' : Outbox) (r : ProfileWriteResult)
      → (write commander devices user id network motion values sent ≡ (ok r, sent')
          → Written values sent sent' r)
        × (Written values sent sent' r
            → write commander devices user id network motion values sent ≡ (ok r, sent'))
  write_exact values sent sent' r = (write_ok values sent sent' r, write_run values sent sent' r)
