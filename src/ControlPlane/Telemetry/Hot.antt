-- ===== src/ControlPlane/Telemetry/Hot.antt =====
-- What a batch leaves in the hot state and in the stores.
use fleet_tracking_system.Common.{
  ℕ, List, [], ◌∷◌, ◌++◌, ◌≡◌, refl, sym, ◌∙◌, arith, Option, none, some, text_eq, ltb, ◌==◌,
  nat_eq, if◌then◌else◌, Bool-cases, Option-cases, inl, inr, All,
}
use fleet_tracking_system.Common.{pair_eq, pair_beq_iff, nat_beq_iff}
use fleet_tracking_system.Common.Dict
use fleet_tracking_system.Common.Dict.{Dict, Distinct, Distinct-set}
use fleet_tracking_system.ControlPlane.Alerts.{Position}
use fleet_tracking_system.ControlPlane.Trips.{Trip, TripState}
use fleet_tracking_system.ControlPlane.Telemetry.{
  TelemetryMessage, Engines, Consumer, insert_many, publish_latest, newer, keep_latest, process,
}
use fleet_tracking_system.ControlPlane.Telemetry.Current.{Current, From, attributed}
use fleet_tracking_system.ControlPlane.Telemetry.Steps.{keep_all, run, all_trips}
use fleet_tracking_system.ControlPlane.Telemetry.Stored.{process_messages-Outcome}

-- Each entry is under its device.
abbrev Filed : Dict ℕ Position → Type 0
Filed = All (λ entry. entry.1.device_id ≡ entry.0)

Filed-set : (pos : Position) (m : Dict ℕ Position) → Filed m → Filed (Dict.set pos.device_id pos m)
unfolding Dict.set
Filed-set pos [] h = (refl, tt)
Filed-set pos ((j, w) ∷ m) (e, h) = elim (Bool-cases (j == pos.device_id)) [
  | inl same ↦ rw same (ground (arith, nat_beq_iff j pos.device_id), h)
  | inr other ↦ rw other (e, Filed-set pos m h)
]

-- The newest of a device's positions; of several, the first.
unfoldable pub newest : ℕ → List Position → Option Position
newest id [] = none
newest id (pos ∷ later) =
    let rest = newest id later in
    if pos.device_id == id
    then (elim rest [ none ↦ some pos | some p ↦ if ltb pos.ts p.ts then some p else some pos ])
    else rest

-- A position held, against later ones.
abbrev over : Option Position → Option Position → Option Position
over none p = p
over (some held) none = some held
over (some held) (some p) = if ltb held.ts p.ts then some p else some held

get-keep_latest :
    (id : ℕ) (pos : Position) (latest : Dict ℕ Position)
    → Dict.get id (keep_latest pos latest)
      ≡ (if pos.device_id == id then over (Dict.get id latest) (some pos) else Dict.get id latest)
unfolding keep_latest newer
get-keep_latest id pos latest = elim (Option-cases (Dict.get pos.device_id latest)) [
  | inl e ↦ ground (arith, Dict.get-set pos.device_id id pos latest, nat_beq_iff pos.device_id id)
  | inr (prev, e) ↦
      ground (arith, Dict.get-set pos.device_id id pos latest, nat_beq_iff pos.device_id id)
]

over_assoc : (a b c : Option Position) → over (over a b) c ≡ over a (over b c)
over_assoc none b c = refl
over_assoc (some x) none none = refl
over_assoc (some x) none (some z) = refl
over_assoc (some x) (some y) none = ground arith
over_assoc (some x) (some y) (some z) = ground arith

over-none : (a : Option Position) → over a none ≡ a
over-none none = refl
over-none (some x) = refl

get-keep_all :
    (id : ℕ) (found : List Position) (latest : Dict ℕ Position)
    → Dict.get id (keep_all found latest) ≡ over (Dict.get id latest) (newest id found)
unfolding newest
get-keep_all id [] latest = sym (over-none (Dict.get id latest))
get-keep_all id (pos ∷ later) latest = ground (
  arith,
  get-keep_all id later (keep_latest pos latest),
  get-keep_latest id pos latest,
  over_assoc (Dict.get id latest) (some pos) (newest id later),
)

keep_all-Distinct :
    (found : List Position) (latest : Dict ℕ Position)
    → Distinct latest × Filed latest
    → Distinct (keep_all found latest) × Filed (keep_all found latest)
unfolding keep_latest
keep_all-Distinct [] latest h = h
keep_all-Distinct (pos ∷ later) latest (d, f) =
    keep_all-Distinct later (keep_latest pos latest)
      (elim (Bool-cases (newer pos (Dict.get pos.device_id latest))) [
        | inl put ↦ rw put (Distinct-set pos.device_id pos latest d, Filed-set pos latest f)
        | inr stale ↦ rw stale (d, f)
      ])

-- The position to be found in the hot state for a tenant's device.
abbrev pub shown : ℕ → Option Position → Option Position → Option Position
shown tenant none old = old
shown tenant (some pos) old = if pos.tenant_id == tenant then some pos else old

module _ {G D : Type 0} where
  publish_latest_hot :
      (tenant id : ℕ) (latest : Dict ℕ Position) (c : Consumer G D)
      → Distinct latest
      → Filed latest
      → Dict.get (tenant, id) (publish_latest latest c).hot
        ≡ shown tenant (Dict.get id latest) (Dict.get (tenant, id) c.hot)
  unfolding publish_latest Dict.get
  publish_latest_hot tenant id [] c d f = refl
  publish_latest_hot tenant id ((k, pos) ∷ latest) c (new, d) (e, f) =
      let c' : Consumer G D = record c {
        hot = Dict.set (pos.tenant_id, pos.device_id) pos c.hot;
        live = c.live ++ pos ∷ [];
      } in
      ground (
        arith,
        e,
        new,
        nat_beq_iff k id,
        nat_beq_iff pos.tenant_id tenant,
        pair_beq_iff (pos.tenant_id, pos.device_id) (tenant, id),
        publish_latest_hot tenant id latest c' d f,
        Dict.get-set (pos.tenant_id, pos.device_id) (tenant, id) pos c.hot,
      )

  pub publish_latest_frame :
      (latest : Dict ℕ Position) (c : Consumer G D)
      → ((publish_latest latest c).positions ≡ c.positions)
        × (((publish_latest latest c).trips ≡ c.trips)
            × (((publish_latest latest c).trip_states ≡ c.trip_states)
                × ((publish_latest latest c).imei_cache ≡ c.imei_cache)))
  unfolding publish_latest
  publish_latest_frame [] c = (refl, (refl, (refl, refl)))
  publish_latest_frame ((k, pos) ∷ latest) c = publish_latest_frame latest _

module _ {G D : Type 0} (engines : Engines G D) where
  pub process_parts :
      (now : ℕ) (batch : List (ℕ × TelemetryMessage)) (c : Consumer G D)
      → let r = run engines now batch [] [] c in
        process engines now batch c ≡ publish_latest r.1.0 (insert_many r.0 r.1.1)
  unfolding process
  process_parts now batch c = refl

  -- The consumer's stored rows and the state of its trip detector.
  pub record View : Type 0 where
    pub positions : List Position
    pub trips : List (Trip D)
    pub trip_states : Dict ℕ (TripState D)

  abbrev pub view : Consumer G D → View
  view c = record { positions = c.positions; trips = c.trips; trip_states = c.trip_states }

  -- The same rows, from a stream of positions.
  abbrev pub record_all : List Position → View → View
  record_all found v = record {
    positions = v.positions ++ found;
    trips = v.trips ++ (all_trips engines found v.trip_states).0;
    trip_states = (all_trips engines found v.trip_states).1;
  }

  -- If each entry of the cache of IMEIs has ended at a time `t` or agrees with the device repository, and
  -- no message of a batch is handled before `t`, a batch adds to the stored positions and trips what the stream
  -- of its attributed positions gives.
  pub process_stores :
      (t now : ℕ) (batch : List (ℕ × TelemetryMessage)) (c : Consumer G D)
      → Current t c.imei_cache c.devices
      → From t batch
      → view (process engines now batch c)
        ≡ record_all (attributed engines.parse c.devices batch) (view c)
  unfolding insert_many
  process_stores t now batch c h from =
      let o = process_messages-Outcome engines t now batch [] [] c h from in
      let r = run engines now batch [] [] c in
      let f = publish_latest_frame r.1.0 (insert_many r.0 r.1.1) in
      rw (process_parts now batch c)
        (ground (arith, o.collected, o.trips, o.trip_states, o.positions, f))

  -- If each entry of the cache of IMEIs has ended at a time `t` or agrees with the device repository, and no message of a
  -- batch is handled before `t`, a batch leaves in the hot state of a tenant's device the newest of the batch's
  -- positions attributed to that device, the first of them where several have one timestamp, and leaves
  -- the hot state as it was where the batch has none.
  pub process_hot :
      (t now tenant id : ℕ) (batch : List (ℕ × TelemetryMessage)) (c : Consumer G D)
      → Current t c.imei_cache c.devices
      → From t batch
      → Dict.get (tenant, id) (process engines now batch c).hot
        ≡ shown tenant
            (newest id (attributed engines.parse c.devices batch))
            (Dict.get (tenant, id) c.hot)
  unfolding insert_many Dict.get
  process_hot t now tenant id batch c h from =
      let found = attributed engines.parse c.devices batch in
      let o = process_messages-Outcome engines t now batch [] [] c h from in
      let r = run engines now batch [] [] c in
      let (d, f) = keep_all-Distinct found [] (tt, tt) in
      let p = publish_latest_hot tenant id (keep_all found []) (insert_many r.0 r.1.1) d f in
      rw (process_parts now batch c, o.kept) (p ∙ ground (arith, get-keep_all id found [], o.hot))
