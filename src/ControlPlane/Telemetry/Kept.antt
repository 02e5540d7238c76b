-- ===== src/ControlPlane/Telemetry/Kept.antt =====
-- What the loop of the consumer keeps: the age of its cache, and that it agrees with the repository.
use fleet_tracking_system.Common.{
  ℕ, ◌+◌, ◌≤◌, List, [], ◌∷◌, ◌≡◌, refl, sym, ap, ◌∙◌, arith, Option, none, some, Text, text_eq,
  ◌==◌, nat_eq, Bool-cases, Option-cases, inl, inr, All,
}
use mathlib.Core.Path.{subst}
use fleet_tracking_system.Common.{pair_eq}
use fleet_tracking_system.Common.Dict
use fleet_tracking_system.Common.Dict.{Dict}
use fleet_tracking_system.ControlPlane.Devices.{Device, find_by_imei}
use fleet_tracking_system.ControlPlane.Alerts.{Position, AlertConfig}
use fleet_tracking_system.ControlPlane.Telemetry.{
  TelemetryMessage, Engines, DeviceRef, Hit, Consumer, ref_of, ttl, positive_cache_ms, to_position,
  look_up, resolve_device, forget_imei, insert_many, publish_latest, process,
}
use fleet_tracking_system.ControlPlane.Telemetry.Current.{
  Current, resolve_device_frame, resolve_device_cases, resolve_device_keeps,
}
use fleet_tracking_system.ControlPlane.Telemetry.Steps.{
  run, trip, alert, step_none, step_skip, step_unread, step_take, alert-Frame, trip_frame,
}
use fleet_tracking_system.ControlPlane.Telemetry.Hot.{process_parts, publish_latest_frame}

-- Each entry of the cache was made by `t`.
abbrev pub Aged : ℕ → Dict Text Hit → Type 0
Aged t cache =
    (imei : Text) (hit : Hit)
    → Dict.get imei cache ≡ some hit
    → hit.expires_at ≤ t + positive_cache_ms

ttl_le : (ref : Option DeviceRef) → ttl ref ≤ positive_cache_ms
unfolding ttl
ttl_le none = omega arith
ttl_le (some ref) = omega arith

abbrev pub first : {G D : Type 0} → Dict ℕ Device → (ℕ → List G) → (ℕ → AlertConfig) → Consumer G D
first devices geofences alert_config = record {
  imei_cache = [];
  geofence_cache = [];
  config_cache = [];
  alert_states = [];
  trip_states = [];
  devices = devices;
  geofences = geofences;
  alert_config = alert_config;
  positions = [];
  hot = [];
  live = [];
  alerts = [];
  live_alerts = [];
  notified = [];
  trips = [];
}

module _ {G D : Type 0} where
  resolve_device-Aged :
      (t at : ℕ) (imei : Text) (c : Consumer G D)
      → at ≤ t
      → Aged t c.imei_cache
      → Aged t (resolve_device at imei c).1.imei_cache
  unfolding look_up
  resolve_device-Aged t at imei c le h = elim (resolve_device_cases at imei c) [
    | inl (hit, (e, (fresh, r))) ↦ rw r h
    | inr r ↦ rw r (λ j hit e.
        let ref = ref_of (find_by_imei imei c.devices) in
        let entry : Hit = record { ref = ref; expires_at = at + ttl ref } in
        elim (Bool-cases (imei == j)) [
          | inl same ↦ ground (arith, e, Dict.get-set imei j entry c.imei_cache, ttl_le ref)
          | inr other ↦ h j hit (ground (arith, e, Dict.get-set imei j entry c.imei_cache))
        ])
  ]

  pub forget_imei-Aged :
      (t : ℕ) (imei : Text) (c : Consumer G D)
      → Aged t c.imei_cache
      → Aged t (forget_imei imei c).imei_cache
  unfolding forget_imei
  forget_imei-Aged t imei c h j hit e =
      h j hit (ground (arith, e, Dict.get-delete imei j c.imei_cache))

  publish_latest_devices :
      (latest : Dict ℕ Position) (c : Consumer G D) → (publish_latest latest c).devices ≡ c.devices
  unfolding publish_latest
  publish_latest_devices [] c = refl
  publish_latest_devices ((k, pos) ∷ latest) c = publish_latest_devices latest _

module _ {G D : Type 0} (engines : Engines G D) where
  -- What each part of the loop keeps, the loop keeps.
  process_messages_keeps :
      (P : Consumer G D → Type 0) (Q : ℕ → Type 0) (now : ℕ)
      → ((at : ℕ) (imei : Text) (c : Consumer G D) → Q at → P c → P (resolve_device at imei c).1)
      → ((at : ℕ) (pos : Position) (c : Consumer G D)
          → P c
          → P (trip engines pos (alert engines now at pos c)))
      → (batch : List (ℕ × TelemetryMessage)) (rows : List Position) (latest : Dict ℕ Position)
        (c : Consumer G D)
      → All (λ turn. Q turn.0) batch
      → P c
      → P (run engines now batch rows latest c).1.1
  process_messages_keeps P Q now res eng [] rows latest c le h =
      subst (λ r. P r.1.1) (sym (step_none engines now rows latest c)) h
  process_messages_keeps P Q now res eng ((at, msg) ∷ batch) rows latest c (le, les) h =
      let c1 = (resolve_device at msg.imei c).1 in
      let h1 = res at msg.imei c le h in
      let on = process_messages_keeps P Q now res eng batch in
      elim (Option-cases (resolve_device at msg.imei c).0) [
        | inl unknown ↦
            subst (λ r. P r.1.1) (sym (step_skip engines now at msg batch rows latest c unknown))
              (on rows latest c1 les h1)
        | inr (ref, e) ↦ elim (Option-cases (engines.parse msg.payload)) [
          | inl bad ↦
              subst (λ r. P r.1.1)
                (sym (step_unread engines now at msg batch rows latest c ref e bad))
                (on rows latest c1 les h1)
          | inr (n, p) ↦
              subst (λ r. P r.1.1)
                (sym (step_take engines now at msg batch rows latest c ref n e p))
                (on _ _ _ les (eng at (to_position ref n) c1 h1))
        ]
      ]

  pub process-Aged :
      (t now : ℕ) (batch : List (ℕ × TelemetryMessage)) (c : Consumer G D)
      → All (λ turn. turn.0 ≤ t) batch
      → Aged t c.imei_cache
      → Aged t (process engines now batch c).imei_cache
  unfolding insert_many
  process-Aged t now batch c le h =
      let r = run engines now batch [] [] c in
      let f = publish_latest_frame r.1.0 (insert_many r.0 r.1.1) in
      subst (Aged t) (sym (ap (λ d. d.imei_cache) (process_parts engines now batch c) ∙ f.1.1.1)) (
        process_messages_keeps (λ d. Aged t d.imei_cache) (λ at. at ≤ t) now (resolve_device-Aged t)
          (λ at pos d a.
            subst (Aged t)
              (sym (
                (trip_frame engines pos (alert engines now at pos d)).0
                ∙ (alert-Frame engines now at pos d).imei_cache))
              a)
          batch [] [] c le h)

  -- The cache against a repository that does not change.
  abbrev pub Agrees : ℕ → Dict ℕ Device → Consumer G D → Type 0
  Agrees t devices c = (c.devices ≡ devices) × Current t c.imei_cache devices

  any_time : (batch : List (ℕ × TelemetryMessage)) → All {0, 0} (λ turn. Unit) batch
  any_time [] = tt
  any_time (turn ∷ batch) = (tt, any_time batch)

  resolve_device-Agrees :
      (t : ℕ) (devices : Dict ℕ Device) (at : ℕ) (imei : Text) (c : Consumer G D)
      → Agrees t devices c
      → Agrees t devices (resolve_device at imei c).1
  resolve_device-Agrees t devices at imei c (same, h) = (
    ap (λ d. d.devices) (resolve_device_frame at imei c) ∙ same,
    subst (Current t _) same (resolve_device_keeps t at imei c (subst (Current t _) (sym same) h)),
  )

  engines-Agrees :
      (t : ℕ) (devices : Dict ℕ Device) (now at : ℕ) (pos : Position) (c : Consumer G D)
      → Agrees t devices c
      → Agrees t devices (trip engines pos (alert engines now at pos c))
  engines-Agrees t devices now at pos c (same, h) =
      let f = trip_frame engines pos (alert engines now at pos c) in
      let a = alert-Frame engines now at pos c in
      (
        f.1.0 ∙ a.devices ∙ same,
        subst (λ cache. Current t cache devices) (sym (f.0 ∙ a.imei_cache)) h,
      )

  -- A batch, at whatever times, keeps a cache that agrees with the repository so.
  pub process-Agrees :
      (t : ℕ) (devices : Dict ℕ Device) (now : ℕ) (batch : List (ℕ × TelemetryMessage))
      (c : Consumer G D)
      → Agrees t devices c
      → Agrees t devices (process engines now batch c)
  unfolding insert_many
  process-Agrees t devices now batch c h =
      let r = run engines now batch [] [] c in
      let f = publish_latest_frame r.1.0 (insert_many r.0 r.1.1) in
      let (same, current) =
        process_messages_keeps (Agrees t devices) (λ at. Unit) now
          (λ at imei d _ a. resolve_device-Agrees t devices at imei d a)
          (engines-Agrees t devices now) batch [] [] c (any_time batch) h in
      (
        ap (λ d. d.devices) (process_parts engines now batch c)
            ∙ publish_latest_devices r.1.0 (insert_many r.0 r.1.1)
            ∙ same,
        subst (λ cache. Current t cache devices)
            (sym (ap (λ d. d.imei_cache) (process_parts engines now batch c) ∙ f.1.1.1)) current,
      )
