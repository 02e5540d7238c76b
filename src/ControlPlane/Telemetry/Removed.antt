-- ===== src/ControlPlane/Telemetry/Removed.antt =====
-- The removal of a device (devices.service.ts) together with the consumer that it tells to forget the IMEI.
use fleet_tracking_system.Common.{
  ℕ, [], ◌∷◌, ◌≡◌, refl, ap, ◌∙◌, arith, none, some, Text, text_eq, text_beq_iff, nat_eq,
  Bool-cases, inl, inr, ◌&&◌, ◌==◌,
}
use fleet_tracking_system.Common.Dict
use fleet_tracking_system.Common.Dict.{Dict}
use fleet_tracking_system.ControlPlane.Http.{ok}
use fleet_tracking_system.ControlPlane.Devices
use fleet_tracking_system.ControlPlane.Devices.{
  Device, Store, AuthUser, is_live, find_by_imei, tally, put, soft_delete, disallow, remove,
}
use fleet_tracking_system.ControlPlane.Devices.Tally.{live_imei, tally-set}
use fleet_tracking_system.ControlPlane.Devices.Changes.{Consistent, found_live}
use fleet_tracking_system.ControlPlane.Devices.Consistency.{get_cases}
use fleet_tracking_system.ControlPlane.Telemetry.{
  Consumer, ref_of, resolve_device, fresh_hit, look_up, forget_imei,
}

tally-none :
    (imei : Text) (m : Dict ℕ Device) → tally (live_imei imei) m ≡ 0 → find_by_imei imei m ≡ none
unfolding tally find_by_imei
tally-none imei [] h = refl
tally-none imei ((k, d) ∷ m) h = elim (Bool-cases (d.imei == imei && is_live d)) [
  | inl is ↦ absurd (ground arith)
  | inr other ↦ ground (arith, tally-none imei m)
]

removed_find :
    (user : AuthUser) (id at : ℕ) (s : Store) (d : Device)
    → Consistent s
    → Devices.get user id s ≡ (ok d, s)
    → find_by_imei d.imei (remove user id at s).1.by_id ≡ none
unfolding remove soft_delete put disallow Devices.forget_imei is_live
removed_find user id at s d c got = elim (get_cases user id s) [
  | inl refused ↦ absurd (ground arith)
  | inr (e, (got', (found, within))) ↦
      let same : e ≡ d = ground arith in
      let (there, live) = found_live user.tenant_id id s e found in
      let gone =
        tally-set (live_imei e.imei) id e (record e { deleted_at = some at }) s.by_id there in
      let none_left =
        tally-none e.imei (Dict.set id (record e { deleted_at = some at }) s.by_id)
          (ground (arith, gone, c.unique e.imei, live, text_beq_iff e.imei e.imei)) in
      ground (arith, none_left)
]

forgotten_resolve :
    {G D : Type 0} (now : ℕ) (imei : Text) (c : Consumer G D)
    → (resolve_device now imei (forget_imei imei c)).0 ≡ ref_of (find_by_imei imei c.devices)
unfolding resolve_device forget_imei look_up fresh_hit
forgotten_resolve now imei c =
    ground (arith, Dict.get-delete imei imei c.imei_cache, text_beq_iff imei imei)

-- In a consistent store, once a user's device has been removed and the consumer has been told to forget
-- its IMEI, the next message with this IMEI is attributed to no device, whatever the consumer's cache held.
pub remove_unattributed :
    {G D : Type 0} (user : AuthUser) (id at now : ℕ) (s : Store) (d : Device) (c : Consumer G D)
    → Consistent s
    → Devices.get user id s ≡ (ok d, s)
    → (resolve_device now d.imei
        (forget_imei d.imei (record c { devices = (remove user id at s).1.by_id }))).0
      ≡ none
unfolding ref_of
remove_unattributed user id at now s d c ok_s got =
    forgotten_resolve now d.imei (record c { devices = (remove user id at s).1.by_id })
    ∙ ap ref_of (removed_find user id at s d ok_s got)
