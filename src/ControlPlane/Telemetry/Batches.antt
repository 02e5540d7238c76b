-- ===== src/ControlPlane/Telemetry/Batches.antt =====
-- What several batches store, one after the other.
use fleet_tracking_system.Common.{
  ℕ, List, [], ◌∷◌, ◌++◌, ◌≡◌, refl, sym, ap, ◌∙◌, arith, Option, Text, nat_eq, Option-cases, inl,
  inr, All, append-nil, append_assoc,
}
use mathlib.Core.Path.{subst}
use fleet_tracking_system.Common.Dict.{Dict}
use fleet_tracking_system.ControlPlane.Devices.{Device, find_by_imei}
use fleet_tracking_system.ControlPlane.Alerts.{Position}
use fleet_tracking_system.ControlPlane.Trips
use fleet_tracking_system.ControlPlane.Trips.{Trip, TripState, TripDetectorOptions}
use fleet_tracking_system.ControlPlane.Telemetry.{
  TelemetryMessage, Engines, Normalized, Consumer, ref_of, process,
}
use fleet_tracking_system.ControlPlane.Telemetry.Current.{
  Current, From, attributed, attributed_none,
}
use fleet_tracking_system.ControlPlane.Telemetry.Steps.{all_trips}
use fleet_tracking_system.ControlPlane.Telemetry.Hot.{View, view, record_all, process_stores}
use fleet_tracking_system.ControlPlane.Telemetry.Kept.{process-Agrees}

-- Batches, each with the time at which it starts.
abbrev pub Batches : Type 0
Batches = List (ℕ × List (ℕ × TelemetryMessage))

-- All their messages.
abbrev pub turns : Batches → List (ℕ × TelemetryMessage)
turns [] = []
turns ((now, batch) ∷ batches) = batch ++ turns batches

abbrev pub AllFrom : ℕ → Batches → Type 0
AllFrom t = All (λ b. From t b.1)

attributed-append :
    (parse : Text → Option Normalized) (devices : Dict ℕ Device)
    (xs ys : List (ℕ × TelemetryMessage))
    → attributed parse devices (xs ++ ys)
      ≡ attributed parse devices xs ++ attributed parse devices ys
unfolding attributed
attributed-append parse devices [] ys = refl
attributed-append parse devices ((at, msg) ∷ xs) ys =
    let rest = attributed-append parse devices xs ys in
    elim (Option-cases (ref_of (find_by_imei msg.imei devices))) [
      | inl unknown ↦ ground (arith, rest)
      | inr (ref, e) ↦ elim (Option-cases (parse msg.payload)) [
        | inl bad ↦ ground (arith, rest)
        | inr (n, p) ↦ ground (arith, rest)
      ]
    ]

module _ {G D : Type 0} (engines : Engines G D) where
  all_trips-append :
      (xs ys : List Position) (states : Dict ℕ (TripState D))
      → ((all_trips engines (xs ++ ys) states).0
          ≡ (all_trips engines xs states).0
            ++ (all_trips engines ys (all_trips engines xs states).1).0)
        × ((all_trips engines (xs ++ ys) states).1
            ≡ (all_trips engines ys (all_trips engines xs states).1).1)
  unfolding Trips.updates
  all_trips-append [] ys states = (refl, refl)
  all_trips-append (pos ∷ xs) ys states =
      let first =
        Trips.update engines.zero_m engines.add engines.round engines.haversine_meters engines.opts
          pos states in
      let (trips, after) = all_trips-append xs ys first.1 in
      elim (Option-cases first.0) [
        | inl quiet ↦ (ground (arith, trips), after)
        | inr (trip, e) ↦ (ground (arith, trips), after)
      ]

  record_all_none : (v : View engines) → v ≡ record_all engines [] v
  unfolding Trips.updates
  record_all_none v = ground (arith, append-nil v.positions, append-nil v.trips)

  record_all-append :
      (xs ys : List Position) (v : View engines)
      → record_all engines ys (record_all engines xs v) ≡ record_all engines (xs ++ ys) v
  record_all-append xs ys v =
      let (trips, states) = all_trips-append xs ys v.trip_states in
      ground (
        arith,
        trips,
        states,
        append_assoc v.positions xs ys,
        append_assoc v.trips (all_trips engines xs v.trip_states).0
            (all_trips engines ys (all_trips engines xs v.trip_states).1).0,
      )

  unfoldable pub process_all : Batches → Consumer G D → Consumer G D
  process_all [] c = c
  process_all ((now, batch) ∷ batches) c = process_all batches (process engines now batch c)

  -- If each entry of the cache of IMEIs has ended at a time `t` or agrees with the device repository, no message of any of
  -- the batches is handled before `t`, and the repository does not change meanwhile, then what batches add to the
  -- stored positions and trips is what the one stream of their attributed positions gives, however the messages
  -- are split into batches: a position for each message of a live device with a readable payload, under
  -- the tenant and the id of that device, and the trips that the trip detector finds in them, after the others;
  -- and the cache is then again so.
  pub process_refines :
      (t : ℕ) (batches : Batches) (c : Consumer G D)
      → Current t c.imei_cache c.devices
      → AllFrom t batches
      → (view engines (process_all batches c)
          ≡ record_all engines
              (attributed engines.parse c.devices (turns batches))
              (view engines c))
        × Current t (process_all batches c).imei_cache (process_all batches c).devices
  unfolding process_all
  process_refines t [] c h from = (
    record_all_none (view engines c)
        ∙ ap (λ f. record_all engines f (view engines c))
            (sym (attributed_none engines.parse c.devices)),
    h,
  )
  process_refines t ((now, batch) ∷ batches) c h (le, from) =
      let (same, current) = process-Agrees engines t c.devices now batch c (refl, h) in
      let next = process engines now batch c in
      let (stored, after) =
        process_refines t batches next (subst (Current t next.imei_cache) (sym same) current)
          from in
      let one = process_stores engines t now batch c h le in
      let now_found = attributed engines.parse c.devices batch in
      let then_found = attributed engines.parse c.devices (turns batches) in
      (
        stored
            ∙ ap
                (λ ds.
                  record_all engines (attributed engines.parse ds (turns batches))
                    (view engines next))
                same
            ∙ ap (record_all engines then_found) one
            ∙ record_all-append now_found then_found (view engines c)
            ∙ ap (λ f. record_all engines f (view engines c))
                (sym (attributed-append engines.parse c.devices batch (turns batches))),
        after,
      )
