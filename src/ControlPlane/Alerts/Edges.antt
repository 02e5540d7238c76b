-- ===== src/ControlPlane/Alerts/Edges.antt =====
-- The alerts of alerts.ts come at changes, not at every packet: what a position raises, by the positions of its
-- device before it.
use fleet_tracking_system.Common.{
  ℕ, List, [], ◌∷◌, ◌++◌, ◌≡◌, refl, sym, ap, ◌∙◌, arith, Bool, ◌&&◌, not, true, false, Option,
  none, some, ltb, ◌==◌, nat_eq, if◌then◌else◌, Bool-cases, inl, inr, map,
}
use mathlib.Core.Path.{subst}
use fleet_tracking_system.Common.{select, contains, ==_refl, nat_beq_iff, text_eq}
use fleet_tracking_system.Common.Dict
use fleet_tracking_system.ControlPlane.Alerts.Checks.{
  crossings_exact, overspeed_keeps, ignition_keeps, geofences_keep,
}
use fleet_tracking_system.ControlPlane.Alerts.{
  AlertConfig, AlertEvent, Position, overspeed, ignition_on, ignition_off, geofence_enter,
  geofence_exit, DeviceAlertState, States, seen, fresh_state, emit, check_overspeed, flipped,
  check_ignition, check_geofences, any, evaluate,
}

-- The newest position of a device, and the newest ignition that is known of it, newest positions first.
unfoldable pub newest : ℕ → List Position → Option Position
newest id [] = none
newest id (p ∷ before) = let rest = newest id before in if p.device_id == id then some p else rest

abbrev or_else : Option Bool → Option Bool → Option Bool
or_else none later = later
or_else (some on) later = some on

unfoldable pub known_ignition : ℕ → List Position → Option Bool
known_ignition id [] = none
known_ignition id (p ∷ before) =
    let rest = known_ignition id before in
    if p.device_id == id then or_else p.ignition rest else rest

module _ {G : Type 0} (geofences_containing : List G → Position → List ℕ) (config : AlertConfig)
    (geofences : List G) where
  abbrev was_over : ℕ → Option Position → Bool
  was_over limit none = false
  was_over limit (some p) = ltb limit p.speed_kph

  abbrev was_inside : Option Position → List ℕ
  was_inside none = []
  was_inside (some p) = geofences_containing geofences p

  -- A position over the limit of a device that was not over it at its position before.
  abbrev pub speed_alerts : Option ℕ → Position → Option Position → List AlertEvent
  speed_alerts none pos before = []
  speed_alerts (some limit) pos before =
      if ltb limit pos.speed_kph && not (was_over limit before)
      then emit pos (overspeed pos.speed_kph limit) ∷ []
      else []

  -- An ignition other than the one that was known last; none where none was known.
  abbrev pub ignition_changes : Position → Option Bool → Option Bool → List AlertEvent
  ignition_changes pos none known = []
  ignition_changes pos (some on) none = []
  ignition_changes pos (some true) (some true) = []
  ignition_changes pos (some false) (some false) = []
  ignition_changes pos (some true) (some false) = emit pos ignition_on ∷ []
  ignition_changes pos (some false) (some true) = emit pos ignition_off ∷ []

  -- The geofences that contain the position and did not contain the one before, and the other way round.
  abbrev pub fence_alerts : Position → Option Position → List AlertEvent
  fence_alerts pos before =
      let now = geofences_containing geofences pos in
      map (λ id. emit pos (geofence_enter id))
        (select (λ id. not (contains id (was_inside before))) now)
      ++ map (λ id. emit pos (geofence_exit id))
          (select (λ id. not (contains id now)) (was_inside before))

  abbrev pub edges : Position → List Position → List AlertEvent
  edges pos before =
      speed_alerts config.overspeed_kph pos (newest pos.device_id before)
      ++ ((if config.ignition_alerts
            then ignition_changes pos pos.ignition (known_ignition pos.device_id before)
            else [])
          ++ (if config.geofence_alerts && any geofences_containing geofences
              then fence_alerts pos (newest pos.device_id before)
              else []))

  -- The states of a new engine after positions, each at its time, the newest first.
  unfoldable pub states_after : List (ℕ × Position) → States
  states_after [] = []
  states_after ((now_ms, p) ∷ before) =
      (evaluate geofences_containing p config geofences now_ms (states_after before)).1

  abbrev pub positions_of : List (ℕ × Position) → List Position
  positions_of [] = []
  positions_of ((now_ms, p) ∷ before) = p ∷ positions_of before

  -- A device's state says what its positions say.
  record Tracked (last : Option Position) (known : Option Bool) (st : DeviceAlertState)
      : Type 0 where
    over :
        (limit : ℕ) → config.overspeed_kph ≡ some limit → st.overspeed_active ≡ was_over limit last
    ignition : config.ignition_alerts ≡ true → st.last_ignition ≡ known
    inside :
        (config.geofence_alerts && any geofences_containing geofences) ≡ true
        → st.inside_geofences ≡ was_inside last

  speed_lem :
      (limit : Option ℕ) (pos : Position) (last : Option Position) (st : DeviceAlertState)
      → ((l : ℕ) → limit ≡ some l → st.overspeed_active ≡ was_over l last)
      → (check_overspeed pos limit st).0 ≡ speed_alerts limit pos last
  unfolding check_overspeed
  speed_lem none pos last st h = refl
  speed_lem (some limit) pos last st h = ground (arith, h limit refl)

  flipped_lem :
      (pos : Position) (on : Bool) (known : Option Bool)
      → flipped pos on known ≡ ignition_changes pos (some on) known
  unfolding flipped
  flipped_lem pos true none = refl
  flipped_lem pos false none = refl
  flipped_lem pos true (some true) = refl
  flipped_lem pos true (some false) = refl
  flipped_lem pos false (some true) = refl
  flipped_lem pos false (some false) = refl

  ignition_lem :
      (alerts : Bool) (pos : Position) (ignition known : Option Bool) (st : DeviceAlertState)
      → (alerts ≡ true → st.last_ignition ≡ known)
      → (check_ignition pos alerts ignition st).0
        ≡ (if alerts then ignition_changes pos ignition known else [])
  unfolding check_ignition
  ignition_lem false pos none known st h = refl
  ignition_lem false pos (some on) known st h = refl
  ignition_lem true pos none known st h = refl
  ignition_lem true pos (some on) known st h =
      ap (flipped pos on) (h refl) ∙ flipped_lem pos on known

  fence_lem :
      (alerts : Bool) (pos : Position) (last : Option Position) (st : DeviceAlertState)
      → (alerts ≡ true → st.inside_geofences ≡ was_inside last)
      → (check_geofences pos alerts (geofences_containing geofences pos) st).0
        ≡ (if alerts then fence_alerts pos last else [])
  unfolding check_geofences
  fence_lem false pos last st h = refl
  fence_lem true pos last st h =
      let now = geofences_containing geofences pos in
      rw
        (
          crossings_exact geofence_enter pos now st.inside_geofences,
          crossings_exact geofence_exit pos st.inside_geofences now,
          h refl,
        )
        refl

  abbrev TrackedAt : Option Position → Option Bool → Option DeviceAlertState → Type 0
  TrackedAt last known none = (last ≡ none) × (known ≡ none)
  TrackedAt last known (some st) = Tracked last known st

  seen-Tracked :
      (pos : Position) (now_ms : ℕ) (last : Option Position) (known : Option Bool)
      (o : Option DeviceAlertState)
      → TrackedAt last known o
      → Tracked last known (seen pos now_ms o)
  unfolding seen fresh_state
  seen-Tracked pos now_ms last known none (l, k) = record {
    over = λ limit e. rw l refl;
    ignition = λ e. sym k;
    inside = λ e. rw l refl;
  }
  seen-Tracked pos now_ms last known (some st) h = record {
    over = h.over;
    ignition = h.ignition;
    inside = h.inside;
  }

  over_after :
      (limit : Option ℕ) (pos : Position) (st : DeviceAlertState) (l : ℕ)
      → limit ≡ some l
      → (check_overspeed pos limit st).1.overspeed_active ≡ ltb l pos.speed_kph
  unfolding check_overspeed
  over_after none pos st l e = cc
  over_after (some limit) pos st l e = ground (arith, e)

  ignition_after :
      (alerts : Bool) (pos : Position) (ignition known : Option Bool) (st : DeviceAlertState)
      → alerts ≡ true
      → st.last_ignition ≡ known
      → (check_ignition pos alerts ignition st).1.last_ignition ≡ or_else ignition known
  unfolding check_ignition
  ignition_after alerts pos none known st on h = h
  ignition_after alerts pos (some ign) known st on h = rw on refl

  inside_after :
      (alerts : Bool) (pos : Position) (now : List ℕ) (st : DeviceAlertState)
      → alerts ≡ true
      → (check_geofences pos alerts now st).1.inside_geofences ≡ now
  unfolding check_geofences
  inside_after alerts pos now st on = rw on refl

  -- The parts of one evaluation, from the device's state.
  module _ (pos : Position) (last : Option Position) (known : Option Bool) (st : DeviceAlertState)
      (h : Tracked last known st) where
    abbrev speed : List AlertEvent × DeviceAlertState
    speed = check_overspeed pos config.overspeed_kph st

    abbrev key : List AlertEvent × DeviceAlertState
    key = check_ignition pos config.ignition_alerts pos.ignition speed.1

    abbrev fence : List AlertEvent × DeviceAlertState
    fence =
        check_geofences pos (config.geofence_alerts && any geofences_containing geofences)
          (geofences_containing geofences pos) key.1

    parts_lem :
        speed.0 ++ (key.0 ++ fence.0)
        ≡ speed_alerts config.overspeed_kph pos last
          ++ ((if config.ignition_alerts then ignition_changes pos pos.ignition known else [])
              ++ (if config.geofence_alerts && any geofences_containing geofences
                  then fence_alerts pos last
                  else []))
    parts_lem =
        let (o1, o2) = overspeed_keeps pos config.overspeed_kph st in
        let (i1, i2) = ignition_keeps pos config.ignition_alerts pos.ignition speed.1 in
        let same_speed = speed_lem config.overspeed_kph pos last st h.over in
        let same_key =
          ignition_lem config.ignition_alerts pos pos.ignition known speed.1
            (λ on. o1 ∙ h.ignition on) in
        let same_fence =
          fence_lem (config.geofence_alerts && any geofences_containing geofences) pos last key.1
            (λ on. i2 ∙ (o2 ∙ h.inside on)) in
        cc

    after-Tracked : Tracked (some pos) (or_else pos.ignition known) fence.1
    after-Tracked =
        let alerts = config.geofence_alerts && any geofences_containing geofences in
        let (g1, g2) = geofences_keep pos alerts (geofences_containing geofences pos) key.1 in
        let (o1, o2) = overspeed_keeps pos config.overspeed_kph st in
        let (i1, i2) = ignition_keeps pos config.ignition_alerts pos.ignition speed.1 in
        record {
          over = λ l e. g1 ∙ (i1 ∙ over_after config.overspeed_kph pos st l e);
          ignition = λ on.
              g2
              ∙ ignition_after config.ignition_alerts pos pos.ignition known speed.1 on
                  (o1 ∙ h.ignition on);
          inside = λ on. inside_after alerts pos (geofences_containing geofences pos) key.1 on;
        }

  evaluate_lem :
      (pos : Position) (now_ms : ℕ) (last : Option Position) (known : Option Bool) (states : States)
      → TrackedAt last known (Dict.get pos.device_id states)
      → ((evaluate geofences_containing pos config geofences now_ms states).0
          ≡ speed_alerts config.overspeed_kph pos last
            ++ ((if config.ignition_alerts then ignition_changes pos pos.ignition known else [])
                ++ (if config.geofence_alerts && any geofences_containing geofences
                    then fence_alerts pos last
                    else [])))
        × TrackedAt (some pos) (or_else pos.ignition known) (
            Dict.get pos.device_id
              (evaluate geofences_containing pos config geofences now_ms states).1)
        × ((other : ℕ)
            → (pos.device_id == other) ≡ false
            → Dict.get other (evaluate geofences_containing pos config geofences now_ms states).1
              ≡ Dict.get other states)
  unfolding evaluate
  evaluate_lem pos now_ms last known states h =
      let st = seen pos now_ms (Dict.get pos.device_id states) in
      let tracked = seen-Tracked pos now_ms last known (Dict.get pos.device_id states) h in
      let after = fence pos last known st tracked in
      let back : Dict.get pos.device_id (Dict.set pos.device_id after.1 states) ≡ some after.1 =
        ground
          (arith, Dict.get-set pos.device_id pos.device_id after.1 states, ==_refl pos.device_id) in
      (
        parts_lem pos last known st tracked,
        subst (TrackedAt (some pos) (or_else pos.ignition known)) (sym back)
            (after-Tracked pos last known st tracked),
        λ other apart. ground (arith, Dict.get-set pos.device_id other after.1 states, apart),
      )

  history-Tracked :
      (id : ℕ) (history : List (ℕ × Position))
      → TrackedAt
          (newest id (positions_of history))
          (known_ignition id (positions_of history))
          (Dict.get id (states_after history))
  unfolding states_after newest known_ignition Dict.get
  history-Tracked id [] = (refl, refl)
  history-Tracked id ((now_ms, p) ∷ before) =
      let past = positions_of before in
      let (events, own, others) =
        evaluate_lem p now_ms (newest p.device_id past) (known_ignition p.device_id past)
          (states_after before) (history-Tracked p.device_id before) in
      elim (Bool-cases (p.device_id == id)) [
        | inl same ↦
            let it : p.device_id ≡ id = (nat_beq_iff p.device_id id).0 same in
            rw same (
              subst
                (λ i. TrackedAt (some p) (or_else p.ignition (known_ignition i past)) (
                  Dict.get i
                    (evaluate geofences_containing p config geofences now_ms
                      (states_after before)).1))
                it own)
        | inr other ↦ rw other (
            subst (TrackedAt (newest id past) (known_ignition id past)) (sym (others id other))
              (history-Tracked id before))
      ]

  -- Whatever positions of whatever devices a new engine has evaluated under one configuration and one list of geofences, the
  -- alerts of the next position are those of the changes since its device's position before it: one of overspeed if
  -- it is over the limit and the position before was not, one of the ignition if it differs from the one
  -- last known, and one for each geofence entered or left; a first position raises none of the ignition.
  pub evaluate-edges :
      (pos : Position) (now_ms : ℕ) (history : List (ℕ × Position))
      → (evaluate geofences_containing pos config geofences now_ms (states_after history)).0
        ≡ edges pos (positions_of history)
  evaluate-edges pos now_ms history =
      (evaluate_lem pos now_ms (newest pos.device_id (positions_of history))
        (known_ignition pos.device_id (positions_of history)) (states_after history)
        (history-Tracked pos.device_id history)).0
