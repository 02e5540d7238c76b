-- ===== src/ControlPlane/Devices/Changes.antt =====
-- What the changes of one device row, and of the allow-list with it, keep: one live device for an IMEI,
-- and the allow-list of ingestion in step with the devices.
use fleet_tracking_system.Common.{
  ℕ, ◌≤◌, ◌<◌, ◌≡◌, refl, arith, ◌&&◌, ◌||◌, not, true, false, none, some, Text, text_eq, ◌==◌,
  nat_eq, if◌then◌else◌, Bool-cases, Option-cases, inl, inr,
}
use mathlib.Core.Path.{subst}
use mathlib.Core.Logic.{◌↔◌}
use fleet_tracking_system.Common.{contains, ==_refl}
use fleet_tracking_system.Common.Dict
use fleet_tracking_system.Common.Dict.{Dict}
use fleet_tracking_system.ControlPlane.Devices.{
  Device, DeviceStatus, Store, is_live, tally, find_by_imei, find_by_id, visible, put, allow,
  disallow, sending, publish,
}
use fleet_tracking_system.ControlPlane.Devices.Tally.{
  bit, live_imei, sends, tally-set, tally-set_new, tally-sends_le, tally-get, tally-find_none,
  contains-without, without_absent,
}

-- No two live devices have the same IMEI, and ingestion accepts an IMEI if and only if a live device with
-- it is in a status that may send.
pub record Consistent (s : Store) : Type 0 where
  pub unique : (imei : Text) → tally (live_imei imei) s.by_id ≤ 1
  pub synced : (imei : Text) → (contains imei s.allowed ≡ true) ↔ (0 < tally (sends imei) s.by_id)

pub found_live :
    (tenant id : ℕ) (s : Store) (d : Device)
    → find_by_id tenant id false s ≡ some d
    → (Dict.get id s.by_id ≡ some d) × (is_live d ≡ true)
unfolding find_by_id visible
found_live tenant id s d h = elim (Option-cases (Dict.get id s.by_id)) [
  | inl missing ↦ absurd (ground arith)
  | inr (e, there) ↦ (ground arith, ground arith)
]

-- A row changed in what is no part of the invariant.
pub put_same :
    (id : ℕ) (d d' : Device) (s : Store)
    → Dict.get id s.by_id ≡ some d
    → d'.imei ≡ d.imei
    → d'.deleted_at ≡ d.deleted_at
    → d'.status ≡ d.status
    → Consistent s
    → Consistent (put id d' s)
unfolding put is_live
put_same id d d' s there ei ed es c = record {
  unique = λ imei. ground (arith, tally-set (live_imei imei) id d d' s.by_id there, c.unique imei);
  synced = λ imei. ground (arith, tally-set (sends imei) id d d' s.by_id there, c.synced imei);
}

publish-allowed :
    (status : DeviceStatus) (imei other : Text) (s : Store)
    → (contains other (publish status imei s).allowed ≡ (
        if sending status
        then (imei == other || contains other s.allowed)
        else (not (imei == other) && contains other s.allowed)))
unfolding publish allow disallow
publish-allowed status imei other s =
    ground (arith, contains-without imei other s.allowed, text_eq.beq_iff imei other)

publish-by_id :
    (status : DeviceStatus) (imei : Text) (s : Store) → (publish status imei s).by_id ≡ s.by_id
unfolding publish allow disallow
publish-by_id status imei s = ground arith

-- One row changed, or added, such that a row of its IMEI is live afterwards, and the only one; and the allow-list told of
-- that row's status.
Consistent-publish :
    (imei : Text) (status : DeviceStatus) (s t : Store)
    → ((other : Text)
        → (imei == other) ≡ false
        → (tally (live_imei other) t.by_id ≡ tally (live_imei other) s.by_id)
          × (tally (sends other) t.by_id ≡ tally (sends other) s.by_id))
    → t.allowed ≡ s.allowed
    → tally (live_imei imei) t.by_id ≡ 1
    → tally (sends imei) t.by_id ≡ bit (sending status)
    → Consistent s
    → Consistent (publish status imei t)
Consistent-publish imei status s t others same one mine c = record {
  unique = λ other. elim (Bool-cases (imei == other)) [
    | inl eq ↦
        let is = (text_eq.beq_iff imei other).0 eq in ground (arith, publish-by_id status imei t)
    | inr ne ↦ ground (arith, publish-by_id status imei t, others other ne, c.unique other)
  ];
  synced = λ other. elim (Bool-cases (imei == other)) [
    | inl eq ↦
        let is = (text_eq.beq_iff imei other).0 eq in
        ground (arith, publish-by_id status imei t, publish-allowed status imei other t)
    | inr ne ↦ ground (
      arith,
      publish-by_id status imei t,
      publish-allowed status imei other t,
      others other ne,
      c.synced other,
    )
  ];
}

-- The one live row of an IMEI says whether it may send.
only_sends :
    (id : ℕ) (d : Device) (m : Dict ℕ Device)
    → Dict.get id m ≡ some d
    → is_live d ≡ true
    → tally (live_imei d.imei) m ≤ 1
    → (tally (live_imei d.imei) m ≡ 1) × (tally (sends d.imei) m ≡ bit (sending d.status))
unfolding is_live
only_sends id d m there live one =
    let gone = record d { deleted_at = some 0 } in
    (
      ground (arith, ==_refl d.imei, tally-get (live_imei d.imei) id d m there),
      ground (
        arith,
        ==_refl d.imei,
        tally-set (live_imei d.imei) id d gone m there,
        tally-set (sends d.imei) id d gone m there,
        tally-sends_le d.imei (Dict.set id gone m),
      ),
    )

-- A live row's status changed, and the allow-list told so.
pub put_status :
    (id : ℕ) (d : Device) (status : DeviceStatus) (s : Store)
    → Dict.get id s.by_id ≡ some d
    → is_live d ≡ true
    → Consistent s
    → Consistent (publish status d.imei (put id (record d { status = status }) s))
unfolding put is_live
put_status id d status s there live c =
    let d' = record d { status = status } in
    let (one, mine) = only_sends id d s.by_id there live (c.unique d.imei) in
    Consistent-publish d.imei status s (put id d' s)
      (λ other ne. (
        ground (arith, tally-set (live_imei other) id d d' s.by_id there),
        ground (arith, tally-set (sends other) id d d' s.by_id there),
      ))
      refl (ground (arith, ==_refl d.imei, tally-set (live_imei d.imei) id d d' s.by_id there))
      (ground (arith, ==_refl d.imei, tally-set (sends d.imei) id d d' s.by_id there)) c

-- A live row deleted, and its IMEI taken off the allow-list.
pub put_deleted :
    (id at : ℕ) (d : Device) (s : Store)
    → Dict.get id s.by_id ≡ some d
    → is_live d ≡ true
    → Consistent s
    → Consistent (disallow d.imei (put id (record d { deleted_at = some at }) s))
unfolding put is_live disallow
put_deleted id at d s there live c =
    let d' = record d { deleted_at = some at } in
    let (one, mine) = only_sends id d s.by_id there live (c.unique d.imei) in
    record {
      unique = λ other.
          ground (arith, tally-set (live_imei other) id d d' s.by_id there, c.unique other);
      synced = λ other. elim (Bool-cases (d.imei == other)) [
        | inl eq ↦
            let is = (text_eq.beq_iff d.imei other).0 eq in
            ground (
              arith,
              contains-without d.imei other s.allowed,
              tally-set (sends other) id d d' s.by_id there,
            )
        | inr ne ↦ ground (
          arith,
          contains-without d.imei other s.allowed,
          tally-set (sends other) id d d' s.by_id there,
          c.synced other,
        )
      ];
    }

restore_row-publish :
    (id : ℕ) (d d' : Device) (s : Store)
    → find_by_imei d.imei s.by_id ≡ none
    → Consistent s
    → (publish d.status d.imei (put id d' s)
        ≡ (if sending d.status then allow d.imei (put id d' s) else put id d' s))
unfolding publish disallow put allow
restore_row-publish id d d' s free c = ground (
  arith,
  without_absent d.imei s.allowed,
  c.synced d.imei,
  tally-sends_le d.imei s.by_id,
  tally-find_none d.imei s.by_id free,
)

-- A deleted row restored, while no live row had its IMEI.
pub put_restored :
    (id : ℕ) (d : Device) (s : Store)
    → Dict.get id s.by_id ≡ some d
    → is_live d ≡ false
    → find_by_imei d.imei s.by_id ≡ none
    → Consistent s
    → let t = put id (record d { deleted_at = none }) s in
      Consistent (if sending d.status then allow d.imei t else t)
unfolding put is_live
put_restored id d s there dead free c =
    let d' = record d { deleted_at = none } in
    let no_live = tally-find_none d.imei s.by_id free in
    subst Consistent (restore_row-publish id d d' s free c) (
      Consistent-publish d.imei d.status s (put id d' s)
        (λ other ne. (
          ground (arith, tally-set (live_imei other) id d d' s.by_id there),
          ground (arith, tally-set (sends other) id d d' s.by_id there),
        ))
        refl (ground (arith, ==_refl d.imei, tally-set (live_imei d.imei) id d d' s.by_id there))
        (ground (
          arith,
          ==_refl d.imei,
          tally-set (sends d.imei) id d d' s.by_id there,
          tally-sends_le d.imei s.by_id,
        ))
        c)

-- A new row, while no live row had its IMEI.
pub put_new :
    (id : ℕ) (d : Device) (s : Store)
    → Dict.get id s.by_id ≡ none
    → is_live d ≡ true
    → find_by_imei d.imei s.by_id ≡ none
    → Consistent s
    → Consistent (publish d.status d.imei (put id d s))
unfolding put is_live
put_new id d s fresh live free c =
    let no_live = tally-find_none d.imei s.by_id free in
    Consistent-publish d.imei d.status s (put id d s)
      (λ other ne. (
        ground (arith, tally-set_new (live_imei other) id d s.by_id fresh),
        ground (arith, tally-set_new (sends other) id d s.by_id fresh),
      ))
      refl (ground (arith, ==_refl d.imei, tally-set_new (live_imei d.imei) id d s.by_id fresh))
      (ground (
        arith,
        ==_refl d.imei,
        tally-set_new (sends d.imei) id d s.by_id fresh,
        tally-sends_le d.imei s.by_id,
      ))
      c
