-- ===== src/Witnesses/Config.antt =====
-- The theorems on the configuration of devices at a concrete device.
use fleet_tracking_system.Common.{
  ℕ, List, [], ◌∷◌, ◌≡◌, refl, true, false, none, some, length, ltb, nat_eq, if◌then◌else◌,
}
use fleet_tracking_system.Common.Decimal.{codes}
use fleet_tracking_system.Common.Int.{pos, negsuc}
use fleet_tracking_system.ControlPlane.Http.{ok}
use fleet_tracking_system.ControlPlane.Immobilizer.{Sent, replied}
use fleet_tracking_system.ControlPlane.Devices
use fleet_tracking_system.ControlPlane.Devices.{Device, AuthUser, provisioned}
use fleet_tracking_system.Protocol.Ascii
use fleet_tracking_system.Protocol.Params
use fleet_tracking_system.Protocol.Params.{
  Field, home, moving, min_period_sec, min_distance_m, build_get_param, build_set_param,
}
use fleet_tracking_system.Protocol.Params.Replies
use fleet_tracking_system.Protocol.Params.Replies.{parse_get_param_response, set_param_accepted}
use fleet_tracking_system.Common.Dict
use fleet_tracking_system.Common.Decimal
use fleet_tracking_system.ControlPlane.DeviceConfig
use fleet_tracking_system.ControlPlane.DeviceConfig.{
  Outbox, Commander, ProfileReadResult, ProfileWriteResult, profile, write_result, write,
}
use fleet_tracking_system.ControlPlane.DeviceConfig.Write.{Written, write_exact}
use fleet_tracking_system.ControlPlane.DeviceConfig.Sends.{Grown, write_sends}

parse_test :
    parse_get_param_response home moving (codes "Param ID: 10050 Val:5;10051: -300;99999:1")
    ≡ (min_period_sec, pos 5) ∷ (min_distance_m, negsuc 299) ∷ []
unfolding parse_get_param_response Replies.tokens Replies.token_at Replies.pair_at Replies.digits
    Replies.separator Replies.signed_value Replies.skip_spaces Replies.after Replies.is_space
    Replies.collect Replies.field_of Replies.put Replies.negative Replies.is_id Ascii.is_digit
    Params.profile_fields Params.param_id Params.is_stop Params.profile_base Params.field_offset
parse_test = refl

accepted_test : set_param_accepted (codes "New value 10050:5 was successfully applied") ≡ true
unfolding set_param_accepted Replies.contains_lower Replies.starts_lower Replies.lower
accepted_test = refl

rejected_test : set_param_accepted (codes "Unknown command") ≡ false
unfolding set_param_accepted Replies.contains_lower Replies.starts_lower Replies.lower
rejected_test = refl

abbrev tracker : Device
tracker = record {
  id = 20;
  tenant_id = 1;
  imei = codes "356";
  name = none;
  model = 0;
  asset_type = 0;
  status = provisioned;
  department_id = none;
  deleted_at = none;
}

abbrev one_store : Devices.Store
one_store = record {
  by_id = (20, tracker) ∷ [];
  units = [];
  plan_of = λ t. none;
  allowed = codes "356" ∷ [];
  forgotten = [];
}

abbrev administrator : AuthUser
administrator = record { tenant_id = 1; department_id = none }

abbrev five_seconds : List (Field × ℕ)
five_seconds = (min_period_sec, 5) ∷ []

-- The first command is a setting, and the second one the reading.
abbrev tracker_replies : Outbox → Sent
tracker_replies out =
    replied (if ltb (length out) 2 then codes "New value 10050:5" else codes "Param ID:10050 Val:5")

abbrev reported : ProfileWriteResult
reported =
    write_result (codes "setparam 10050:5") (profile home moving (codes "Param ID:10050 Val:5"))

abbrev sent_then : Outbox
sent_then =
    (codes "356", codes "setparam 10050:5")
    ∷ (codes "356", codes "getparam 10050;10051;10052;10053;10054;10055")
    ∷ []

write_test :
    write (some tracker_replies) one_store administrator 20 home moving five_seconds []
    ≡ (ok reported, sent_then)
unfolding write DeviceConfig.get_device DeviceConfig.command_of DeviceConfig.apply
    DeviceConfig.relay DeviceConfig.answer DeviceConfig.read_back DeviceConfig.require_applied
    DeviceConfig.verify write_result profile Devices.get Devices.get_scoped Devices.find_by_id
    Devices.visible Devices.is_live Devices.in_scope Devices.scope_for Dict.get build_set_param
    build_get_param Params.validate_profile Params.valid_entry Params.param_range Params.is_stop
    Params.id_list Params.id_text Params.moving_only Params.param_id Params.parts
    Params.profile_base Params.profile_fields Params.field_offset Decimal.decimal
    Decimal.decimal_fuel set_param_accepted Replies.contains_lower Replies.starts_lower
    Replies.lower
write_test = refl

write_exact_example :
    (write (some tracker_replies) one_store administrator 20 home moving five_seconds []
        ≡ (ok reported, sent_then)
      → Written
          (some tracker_replies)
          one_store
          administrator
          20
          home
          moving
          five_seconds
          []
          sent_then
          reported)
    × (Written
          (some tracker_replies)
          one_store
          administrator
          20
          home
          moving
          five_seconds
          []
          sent_then
          reported
        → write (some tracker_replies) one_store administrator 20 home moving five_seconds []
          ≡ (ok reported, sent_then))
write_exact_example =
    write_exact (some tracker_replies) one_store administrator 20 home moving five_seconds []
      sent_then reported

write_sends_example :
    Grown
      (some tracker_replies)
      one_store
      administrator
      20
      home
      moving
      five_seconds
      []
      (write (some tracker_replies) one_store administrator 20 home moving five_seconds []).1
write_sends_example =
    write_sends (some tracker_replies) one_store administrator 20 home moving five_seconds []
