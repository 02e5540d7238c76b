-- ===== src/ControlPlane/Positions.antt =====
-- InMemoryPositionRepository of services/control-plane/src/domain/in-memory.repository.ts, and the two
-- requests of modules/telemetry/positions.controller.ts, whose access check is `get_scoped` of Devices.
pub mod Sorting
pub mod Laws
use fleet_tracking_system.Common.{
  ℕ, zero, suc, ◌+◌, ◌-◌, ◌*◌, ◌/◌, ◌%◌, ◌≤◌, ◌<◌, List, [], ◌∷◌, ◌++◌, ◌≡◌, ◌≢◌, refl, sym, ap,
  ◌∙◌, arith, Bool, ◌&&◌, ◌||◌, not, true, false, Option, none, some, Text, text_eq, length, take,
  drop, ltb, leb, nat_beq, ◌==◌, nat_eq, if◌then◌else◌, Bool-cases, Option-cases, ◌⊎◌, inl, inr,
  All, map, length-append, length-take, length-drop, append-nil, append_assoc, take-append_le,
  drop-append_le, take-append_eq, drop-append_eq, drop_two, take-append-drop,
}
use fleet_tracking_system.Common.{pair_eq, select}
use fleet_tracking_system.Common.Dict
use fleet_tracking_system.Common.Dict.{Dict}
use fleet_tracking_system.ControlPlane.Http.{Fault, Result, ok, err, not_found}
use fleet_tracking_system.ControlPlane.Alerts.{Position}
use fleet_tracking_system.ControlPlane.Devices
use fleet_tracking_system.ControlPlane.Devices.{AuthUser, get_scoped}

-- Insertion before the first position that is not older: the sort of JavaScript is stable.
unfoldable pub insert_by_ts : Position → List Position → List Position
insert_by_ts p [] = p ∷ []
insert_by_ts p (q ∷ qs) =
    let rest = insert_by_ts p qs in if leb p.ts q.ts then p ∷ q ∷ qs else q ∷ rest

unfoldable pub sort_by_ts : List Position → List Position
sort_by_ts [] = []
sort_by_ts (p ∷ ps) = insert_by_ts p (sort_by_ts ps)

unfoldable pub of_device : ℕ → ℕ → Position → Bool
of_device tenant device p = p.tenant_id == tenant && p.device_id == device

unfoldable pub in_range : ℕ → ℕ → ℕ → ℕ → Position → Bool
in_range tenant device from to p = of_device tenant device p && (leb from p.ts && leb p.ts to)

unfoldable pub history : ℕ → ℕ → ℕ → ℕ → ℕ → List Position → List Position
history tenant device from to limit rows =
    take limit (sort_by_ts (select (in_range tenant device from to) rows))

unfoldable pub better : Position → Option Position → Bool
better p none = true
better p (some best) = ltb best.ts p.ts

-- The loop of `latest`, from the best so far.
unfoldable pub latest_from : ℕ → ℕ → List Position → Option Position → Option Position
latest_from tenant device [] best = best
latest_from tenant device (p ∷ rows) best =
    latest_from tenant device rows
      (if of_device tenant device p && better p best then some p else best)

unfoldable pub latest : ℕ → ℕ → List Position → Option Position
latest tenant device rows = latest_from tenant device rows none

-- What the requests read: the devices, the rows, and the hot state.
pub record Views : Type 0 where
  pub devices : Devices.Store
  pub rows : List Position
  pub hot : Dict (ℕ × ℕ) Position

-- The rest of `latest`, once access is granted: the hot state, or the rows, with the hot state warmed.
unfoldable pub latest_position : ℕ → ℕ → Views → Result Position × Views
latest_position tenant device v = elim (Dict.get (tenant, device) v.hot) [
  | some p ↦ (ok p, v)
  | none ↦ elim (latest tenant device v.rows) [
    | none ↦ (err not_found, v)
    | some p ↦ (ok p, record v { hot = Dict.set (p.tenant_id, p.device_id) p v.hot })
  ]
]

unfoldable pub granted :
    {A : Type 0} → Result A → (Views → Result Position × Views) → Views → Result Position × Views
granted (err e) next v = (err e, v)
granted (ok a) next v = next v

unfoldable pub request_latest : AuthUser → ℕ → Views → Result Position × Views
request_latest user device v =
    granted (get_scoped user device true v.devices).0 (latest_position user.tenant_id device) v

unfoldable pub request_history : AuthUser → ℕ → ℕ → ℕ → ℕ → Views → Result (List Position)
request_history user device from to limit v = elim (get_scoped user device true v.devices).0 [
  | err e ↦ err e
  | ok d ↦
      ok (history user.tenant_id device from to (if leb limit 10000 then limit else 10000) v.rows)
]
