-- ===== src/ControlPlane/Telemetry/Current.antt =====
-- What a batch stores, against the device repository: which positions and trips `process` adds when the
-- cache of IMEIs holds nothing out of date that is still read.
use fleet_tracking_system.Common.{
  ℕ, ◌≤◌, ◌<◌, List, [], ◌∷◌, ◌≡◌, refl, arith, Option, none, some, Text, text_eq, ltb, ◌==◌,
  nat_eq, Bool-cases, Option-cases, ◌⊎◌, inl, inr, All,
}
use fleet_tracking_system.Common.{text_beq_iff}
use fleet_tracking_system.Common.Dict
use fleet_tracking_system.Common.Dict.{Dict}
use fleet_tracking_system.ControlPlane.Devices.{Device, find_by_imei}
use fleet_tracking_system.ControlPlane.Alerts.{Position}
use fleet_tracking_system.ControlPlane.Telemetry.{
  TelemetryMessage, Normalized, DeviceRef, Hit, Consumer, ref_of, fresh_hit, fresh_value,
  to_position, look_up, resolve_device, geofences_for, config_for,
}

-- Each entry of the cache has ended at time `t`, or says what the repository says.
abbrev pub Current : ℕ → Dict Text Hit → Dict ℕ Device → Type 0
Current t cache devices =
    (imei : Text) (hit : Hit)
    → Dict.get imei cache ≡ some hit
    → (hit.expires_at ≤ t) ⊎ (hit.ref ≡ ref_of (find_by_imei imei devices))

-- No message is handled before `t`.
abbrev pub From : ℕ → List (ℕ × TelemetryMessage) → Type 0
From t = All (λ turn. t ≤ turn.0)

pub Current-eq :
    (t : ℕ) {cache cache' : Dict Text Hit} {devices devices' : Dict ℕ Device}
    → cache ≡ cache'
    → devices ≡ devices'
    → Current t cache' devices'
    → Current t cache devices
Current-eq t e f h imei hit g = rw f (h imei hit (rw (← e) g))

Current-set :
    (t : ℕ) (cache : Dict Text Hit) (devices : Dict ℕ Device) (imei : Text) (until : ℕ)
    → Current t cache devices
    → Current t
        (Dict.set imei
          (record { ref = ref_of (find_by_imei imei devices); expires_at = until })
          cache)
        devices
Current-set t cache devices imei until h j hit e =
    let entry : Hit = record { ref = ref_of (find_by_imei imei devices); expires_at = until } in
    elim (Bool-cases (imei == j)) [
      | inl same ↦
          inr (ground (arith, e, Dict.get-set imei j entry cache, text_beq_iff imei j, same))
      | inr other ↦ h j hit (ground (arith, e, Dict.get-set imei j entry cache))
    ]

module _ {G D : Type 0} where
  -- `resolve_device` changes nothing but its cache.
  pub resolve_device_frame :
      (at : ℕ) (imei : Text) (c : Consumer G D)
      → (resolve_device at imei c).1
        ≡ record c { imei_cache = (resolve_device at imei c).1.imei_cache }
  unfolding resolve_device look_up
  resolve_device_frame at imei c = elim (Option-cases (fresh_hit at (Dict.get imei c.imei_cache))) [
    | inl miss ↦ ground arith
    | inr (hit, e) ↦ ground arith
  ]

  pub resolve_device_cases :
      (at : ℕ) (imei : Text) (c : Consumer G D)
      → ((hit : Hit) × ((Dict.get imei c.imei_cache ≡ some hit)
            × ((at < hit.expires_at) × (resolve_device at imei c ≡ (hit.ref, c)))))
        ⊎ (resolve_device at imei c ≡ look_up at imei c)
  unfolding resolve_device fresh_hit
  resolve_device_cases at imei c = elim (Option-cases (Dict.get imei c.imei_cache)) [
    | inl miss ↦ inr (ground arith)
    | inr (hit, e) ↦ elim (Bool-cases (ltb at hit.expires_at)) [
      | inl fresh ↦ inl (hit, (e, (ground arith, ground arith)))
      | inr over ↦ inr (ground arith)
    ]
  ]

  -- A cache that holds at `t` no entry that is both wrong and still read answers as the repository.
  pub resolve_device-Current :
      (t at : ℕ) (imei : Text) (c : Consumer G D)
      → Current t c.imei_cache c.devices
      → t ≤ at
      → ((resolve_device at imei c).0 ≡ ref_of (find_by_imei imei c.devices))
        × Current t (resolve_device at imei c).1.imei_cache c.devices
  unfolding look_up
  resolve_device-Current t at imei c h le = elim (resolve_device_cases at imei c) [
    | inl (hit, (e, (fresh, r))) ↦
        rw r ((elim (h imei hit e) [ inl over ↦ absurd (omega arith) | inr same ↦ same ]), h)
    | inr r ↦ rw r (refl, Current-set t c.imei_cache c.devices imei _ h)
  ]

  -- Whenever it answers, a cache stays as current as it was.
  pub resolve_device_keeps :
      (t at : ℕ) (imei : Text) (c : Consumer G D)
      → Current t c.imei_cache c.devices
      → Current t (resolve_device at imei c).1.imei_cache c.devices
  unfolding look_up
  resolve_device_keeps t at imei c h = elim (resolve_device_cases at imei c) [
    | inl (hit, (e, (fresh, r))) ↦ rw r h
    | inr r ↦ rw r (Current-set t c.imei_cache c.devices imei _ h)
  ]

  -- What an alert evaluation leaves alone.
  pub record Frame (c d : Consumer G D) : Type 0 where
    pub imei_cache : d.imei_cache ≡ c.imei_cache
    pub devices : d.devices ≡ c.devices
    pub positions : d.positions ≡ c.positions
    pub hot : d.hot ≡ c.hot
    pub live : d.live ≡ c.live
    pub trips : d.trips ≡ c.trips
    pub trip_states : d.trip_states ≡ c.trip_states

  pub config_for-Frame : (at tenant : ℕ) (c : Consumer G D) → Frame c (config_for at tenant c).1
  unfolding config_for
  config_for-Frame at tenant c =
      elim (Option-cases (fresh_value at (Dict.get tenant c.config_cache))) [
        | inl miss ↦ ground arith
        | inr (config, e) ↦ ground arith
      ]

  pub geofences_for-Frame :
      (at tenant : ℕ) (c : Consumer G D) → Frame c (geofences_for at tenant c).1
  unfolding geofences_for
  geofences_for-Frame at tenant c =
      elim (Option-cases (fresh_value at (Dict.get tenant c.geofence_cache))) [
        | inl miss ↦ ground arith
        | inr (fences, e) ↦ ground arith
      ]

-- The positions of a batch, by what the device repository holds: those of messages for a live device with
-- a payload that can be read.
unfoldable pub attributed :
    (Text → Option Normalized) → Dict ℕ Device → List (ℕ × TelemetryMessage) → List Position
attributed parse devices [] = []
attributed parse devices ((at, msg) ∷ batch) =
    let rest = attributed parse devices batch in
    elim (ref_of (find_by_imei msg.imei devices)) [
      | none ↦ rest
      | some ref ↦ elim (parse msg.payload) [ none ↦ rest | some n ↦ to_position ref n ∷ rest ]
    ]

module _ (parse : Text → Option Normalized) (devices : Dict ℕ Device) where
  pub attributed_none : attributed parse devices [] ≡ []
  unfolding attributed
  attributed_none = refl

  module _ (at : ℕ) (msg : TelemetryMessage) (batch : List (ℕ × TelemetryMessage)) where
    pub attributed_skip :
        ref_of (find_by_imei msg.imei devices) ≡ none
        → attributed parse devices ((at, msg) ∷ batch) ≡ attributed parse devices batch
    unfolding attributed
    attributed_skip e = ground arith

    pub attributed_unread :
        (ref : DeviceRef)
        → ref_of (find_by_imei msg.imei devices) ≡ some ref
        → parse msg.payload ≡ none
        → attributed parse devices ((at, msg) ∷ batch) ≡ attributed parse devices batch
    unfolding attributed
    attributed_unread ref e p = ground arith

    pub attributed_take :
        (ref : DeviceRef) (n : Normalized)
        → ref_of (find_by_imei msg.imei devices) ≡ some ref
        → parse msg.payload ≡ some n
        → attributed parse devices ((at, msg) ∷ batch)
          ≡ to_position ref n ∷ attributed parse devices batch
    unfolding attributed
    attributed_take ref n e p = ground arith
