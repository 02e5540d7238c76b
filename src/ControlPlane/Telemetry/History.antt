-- ===== src/ControlPlane/Telemetry/History.antt =====
-- The consumer over its life: batches, sweeps, and changes of the device repository.
use fleet_tracking_system.Common.{
  ℕ, ◌+◌, ◌≤◌, List, ◌≡◌, refl, sym, ap, ◌∙◌, arith, Text, nat_eq, inl, All,
}
use mathlib.Core.Path.{subst}
use fleet_tracking_system.Common.{pair_eq, text_eq}
use fleet_tracking_system.Common.Dict
use fleet_tracking_system.Common.Dict.{Dict}
use fleet_tracking_system.ControlPlane.Devices.{Device}
use fleet_tracking_system.ControlPlane.Alerts.{AlertConfig, sweep_offline, default_alert_config}
use fleet_tracking_system.ControlPlane.Telemetry.{
  TelemetryMessage, Engines, Hit, Consumer, forget_imei, run_offline_sweep, process,
}
use fleet_tracking_system.ControlPlane.Telemetry.Current.{Current, From, attributed}
use fleet_tracking_system.ControlPlane.Telemetry.Steps.{raise_alerts-Frame}
use fleet_tracking_system.ControlPlane.Telemetry.Hot.{view, record_all, process_stores}
use fleet_tracking_system.ControlPlane.Telemetry.Kept.{
  Aged, first, forget_imei-Aged, process-Aged, Agrees, process-Agrees,
}

module _ {G D : Type 0} (engines : Engines G D) where
  -- What happens to the consumer up to a time: batches, offline sweeps, IMEIs that it is told to forget,
  -- and any change of the device repository.
  pub data History : ℕ → Consumer G D → Type 0 where
    start :
        (devices : Dict ℕ Device) (geofences : ℕ → List G) (alert_config : ℕ → AlertConfig)
        → History 0 (first devices geofences alert_config)
    handled :
        {s : ℕ} {c : Consumer G D} (t now : ℕ) (batch : List (ℕ × TelemetryMessage))
        → History s c
        → s ≤ t
        → All (λ turn. turn.0 ≤ t) batch
        → History t (process engines now batch c)
    swept :
        {s : ℕ} {c : Consumer G D} (t : ℕ) → History s c → s ≤ t → History t (run_offline_sweep t c)
    forgot : {s : ℕ} {c : Consumer G D} (imei : Text) → History s c → History s (forget_imei imei c)
    changed :
        {s : ℕ} {c : Consumer G D} (t : ℕ) (devices : Dict ℕ Device)
        → History s c
        → s ≤ t
        → History t (record c { devices = devices })

  later : {s t : ℕ} (cache : Dict Text Hit) → s ≤ t → Aged s cache → Aged t cache
  later cache le h imei hit e = let a = h imei hit e in omega arith

  History-Aged : {t : ℕ} {c : Consumer G D} → History t c → Aged t c.imei_cache
  unfolding run_offline_sweep Dict.get
  History-Aged (start devices geofences alert_config) = λ imei hit e. absurd (ground arith)
  History-Aged (handled {c = c} t now batch h le les) =
      process-Aged engines t now batch c les (later c.imei_cache le (History-Aged h))
  History-Aged (swept {c = c} t h le) =
      let swept = sweep_offline t default_alert_config c.alert_states in
      let f = raise_alerts-Frame swept.0 (record c { alert_states = swept.1 }) in
      subst (Aged t) (sym f.imei_cache) (later c.imei_cache le (History-Aged h))
  History-Aged (forgot {s = s} {c = c} imei h) = forget_imei-Aged s imei c (History-Aged h)
  History-Aged (changed {c = c} t devices h le) = later c.imei_cache le (History-Aged h)

  forget_imei-Agrees :
      (t : ℕ) (devices : Dict ℕ Device) (imei : Text) (c : Consumer G D)
      → Agrees engines t devices c
      → Agrees engines t devices (forget_imei imei c)
  unfolding forget_imei
  forget_imei-Agrees t devices imei c (same, h) =
      (same, λ j hit e. h j hit (ground (arith, e, Dict.get-delete imei j c.imei_cache)))

  -- What may happen to the consumer while the device repository stays as it is: batches at any times, sweeps and IMEIs to
  -- forget.
  pub data Since (c : Consumer G D) : Consumer G D → Type 0 where
    at_once : Since c c
    then_handled :
        {d : Consumer G D} (now : ℕ) (batch : List (ℕ × TelemetryMessage))
        → Since c d
        → Since c (process engines now batch d)
    then_swept : {d : Consumer G D} (at : ℕ) → Since c d → Since c (run_offline_sweep at d)
    then_forgot : {d : Consumer G D} (imei : Text) → Since c d → Since c (forget_imei imei d)

  Since-Agrees :
      (t : ℕ) (devices : Dict ℕ Device) {c d : Consumer G D}
      → Agrees engines t devices c
      → Since c d
      → Agrees engines t devices d
  unfolding run_offline_sweep
  Since-Agrees t devices h at_once = h
  Since-Agrees t devices h (then_handled {d = d} now batch since) =
      process-Agrees engines t devices now batch d (Since-Agrees t devices h since)
  Since-Agrees t devices h (then_swept {d = d} at since) =
      let (same, current) = Since-Agrees t devices h since in
      let swept = sweep_offline at default_alert_config d.alert_states in
      let f = raise_alerts-Frame swept.0 (record d { alert_states = swept.1 }) in
      (f.devices ∙ same, subst (λ cache. Current t cache devices) (sym f.imei_cache) current)
  Since-Agrees t devices h (then_forgot {d = d} imei since) =
      forget_imei-Agrees t devices imei d (Since-Agrees t devices h since)

  -- Whatever has happened to the consumer, a change of the device repository at a time `t`, such as the
  -- removal of a device, holds for every batch handled 30 seconds later or more, whatever batches, sweeps
  -- and forgotten IMEIs come in between while the repository stays as it is: the batch stores exactly the
  -- positions and trips of the messages of devices that are then live, under the tenants and ids that
  -- these devices then have.
  pub process_after_change :
      {t : ℕ} {c : Consumer G D} (now : ℕ) (devices : Dict ℕ Device)
      (batch : List (ℕ × TelemetryMessage)) (d : Consumer G D)
      → History t c
      → Since (record c { devices = devices }) d
      → From (t + 30000) batch
      → view engines (process engines now batch d)
        ≡ record_all engines (attributed engines.parse devices batch) (view engines d)
  process_after_change {t} {c} now devices batch d h since from =
      let (same, current) =
        Since-Agrees (t + 30000) devices (refl, λ imei hit e. inl (History-Aged h imei hit e))
          since in
      process_stores engines (t + 30000) now batch d
        (subst (Current (t + 30000) d.imei_cache) (sym same) current) from
      ∙ ap (λ ds. record_all engines (attributed engines.parse ds batch) (view engines d)) same
