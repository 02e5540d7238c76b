-- ===== src/ControlPlane/Trips/Parked.antt =====
-- Vehicles that do not move make no trips in trips.ts.
use fleet_tracking_system.Common.{
  ℕ, ◌<◌, List, [], ◌∷◌, ◌≡◌, refl, arith, false, Option, none, some, text_eq, ◌==◌, nat_eq,
  Bool-cases, inl, inr, All,
}
use fleet_tracking_system.Common.Int.{ℤ}
use fleet_tracking_system.Common.Dict
use fleet_tracking_system.Common.Dict.{Dict}
use fleet_tracking_system.ControlPlane.Alerts.{Position}
use fleet_tracking_system.ControlPlane.Trips.{
  TripDetectorOptions, TripState, idle_state, next_state, update, updates,
}

module _ {D : Type 0} (zero_m : D) (add : D → D → D) (round : D → D)
    (haversine_meters : ℤ → ℤ → ℤ → ℤ → D) (opts : TripDetectorOptions) where
  -- No device is on a trip.
  abbrev pub AllIdle : Dict ℕ (TripState D) → Type 0
  AllIdle states = (id : ℕ) (st : TripState D) → Dict.get id states ≡ some st → st.moving ≡ false

  next_state_idle :
      (pos : Position) (o : Option (TripState D))
      → pos.speed_kph < opts.move_speed_kph
      → ((st : TripState D) → o ≡ some st → st.moving ≡ false)
      → ((next_state zero_m add round haversine_meters opts pos o).0 ≡ none)
        × ((next_state zero_m add round haversine_meters opts pos o).1.moving ≡ false)
  unfolding next_state idle_state
  next_state_idle pos none slow h = (refl, ground arith)
  next_state_idle pos (some st) slow h = let idle = h st refl in (ground arith, ground arith)

  update-AllIdle :
      (pos : Position) (states : Dict ℕ (TripState D))
      → pos.speed_kph < opts.move_speed_kph
      → AllIdle states
      → ((update zero_m add round haversine_meters opts pos states).0 ≡ none)
        × AllIdle (update zero_m add round haversine_meters opts pos states).1
  unfolding update
  update-AllIdle pos states slow h =
      let o = Dict.get pos.device_id states in
      let (no_trip, idle) = next_state_idle pos o slow (h pos.device_id) in
      let next = next_state zero_m add round haversine_meters opts pos o in
      (
        no_trip,
        λ id st e. elim (Bool-cases (pos.device_id == id)) [
          | inl same ↦ ground (arith, Dict.get-set pos.device_id id next.1 states)
          | inr other ↦ h id st (ground (arith, Dict.get-set pos.device_id id next.1 states))
        ],
      )

  -- While no device is on a trip and each position is slower than the speed at which a trip
  -- starts, no trip is reported, whatever the positions, their devices and their order.
  pub updates_parked :
      (positions : List Position) (states : Dict ℕ (TripState D))
      → All (λ pos. pos.speed_kph < opts.move_speed_kph) positions
      → AllIdle states
      → (updates zero_m add round haversine_meters opts positions states).0 ≡ []
  unfolding updates
  updates_parked [] states slow h = refl
  updates_parked (pos ∷ later) states (s, slow) h =
      let (no_trip, idle) = update-AllIdle pos states s h in
      let rest =
        updates_parked later (update zero_m add round haversine_meters opts pos states).1 slow
          idle in
      ground arith
