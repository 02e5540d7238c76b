-- ===== src/ControlPlane/Devices/Bootstrap.antt =====
-- services/control-plane/src/allowlist.bootstrap.ts, with activeImeis of the in-memory device repository
-- and InMemoryAllowList.replaceAll: the resynchronization of the allow-list when the API server starts.
use fleet_tracking_system.Common.{
  ℕ, ◌≤◌, ◌<◌, List, [], ◌∷◌, ◌≡◌, refl, arith, ◌&&◌, ◌||◌, true, Text, text_eq, nat_eq,
  if◌then◌else◌,
}
use mathlib.Core.Logic.{◌↔◌}
use fleet_tracking_system.Common.{contains, text_beq_iff}
use fleet_tracking_system.Common.Dict.{Dict}
use fleet_tracking_system.ControlPlane.Devices.{Device, Store, is_live, sending, tally}
use fleet_tracking_system.ControlPlane.Devices.Tally.{live_imei, sends}
use fleet_tracking_system.ControlPlane.Devices.Changes.{Consistent}

unfoldable pub active_imeis : Dict ℕ Device → List Text
active_imeis [] = []
active_imeis ((k, d) ∷ devices) =
    let rest = active_imeis devices in if is_live d && sending d.status then d.imei ∷ rest else rest

-- The loop of `replaceAll`, from what the set holds.
unfoldable pub add_all : List Text → List Text → List Text
add_all [] set = set
add_all (imei ∷ imeis) set = add_all imeis (if contains imei set then set else imei ∷ set)

unfoldable pub on_module_init : Store → Store
on_module_init s = record s { allowed = add_all (active_imeis s.by_id) [] }

contains-add_all :
    (imei : Text) (imeis set : List Text)
    → contains imei (add_all imeis set) ≡ (contains imei imeis || contains imei set)
unfolding add_all
contains-add_all imei [] set = refl
contains-add_all imei (x ∷ xs) set =
    ground (
      arith,
      contains-add_all imei xs (if contains x set then set else x ∷ set),
      text_beq_iff x imei,
    )

contains-active_imeis :
    (imei : Text) (devices : Dict ℕ Device)
    → (contains imei (active_imeis devices) ≡ true) ↔ (0 < tally (sends imei) devices)
unfolding active_imeis tally
contains-active_imeis imei [] = ground arith
contains-active_imeis imei ((k, d) ∷ devices) = ground (arith, contains-active_imeis imei devices)

-- The resynchronization repairs any allow-list: whatever it held before, if no two live devices have one
-- IMEI, then afterwards ingestion accepts an IMEI if and only if a live device with it is in a status that may
-- send.
pub on_module_init-Consistent :
    (s : Store)
    → ((imei : Text) → tally (live_imei imei) s.by_id ≤ 1)
    → Consistent (on_module_init s)
unfolding on_module_init
on_module_init-Consistent s one = record {
  unique = one;
  synced = λ imei.
      ground (
        arith,
        contains-add_all imei (active_imeis s.by_id) [],
        contains-active_imeis imei s.by_id,
      );
}
