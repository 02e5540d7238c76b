-- ===== src/ControlPlane/Positions/Laws.antt =====
-- The latest position, from the rows and from the hot state.
use fleet_tracking_system.Common.{
  ℕ, ◌≤◌, List, [], ◌∷◌, ◌≡◌, refl, sym, ap, ◌∙◌, arith, ◌&&◌, true, false, none, some, text_eq,
  ltb, nat_eq, Bool-cases, ◌⊎◌, inl, inr, All,
}
use mathlib.Core.Path.{subst}
use fleet_tracking_system.Common.{pair_eq, pair_beq_iff}
use fleet_tracking_system.Common.Dict
use fleet_tracking_system.Common.Dict.{Dict}
use fleet_tracking_system.ControlPlane.Http.{ok}
use fleet_tracking_system.ControlPlane.Alerts.{Position}
use fleet_tracking_system.ControlPlane.Devices.{AuthUser, Device, get_scoped}
use fleet_tracking_system.ControlPlane.Positions.{
  of_device, better, latest_from, latest, Views, latest_position, granted, request_latest,
}

-- No position of the device among the rows is newer.
abbrev pub Newest : ℕ → ℕ → List Position → Position → Type 0
Newest tenant device rows best = All (λ p. of_device tenant device p ≡ true → p.ts ≤ best.ts) rows

latest_from_grows :
    (tenant device : ℕ) (rows : List Position) (best : Position)
    → of_device tenant device best ≡ true
    → (p : Position) × ((latest_from tenant device rows (some best) ≡ some p)
        × ((of_device tenant device p ≡ true) × ((best.ts ≤ p.ts) × Newest tenant device rows p)))
unfolding latest_from better
latest_from_grows tenant device [] best own = (best, (refl, (own, (omega arith, tt))))
latest_from_grows tenant device (q ∷ rows) best own =
    elim (Bool-cases (of_device tenant device q && ltb best.ts q.ts)) [
      | inl newer ↦
          let (p, (e, (mine, (le, all)))) = latest_from_grows tenant device rows q (ground arith) in
          (p, (rw newer e, (mine, (ground arith, (λ m. le, all)))))
      | inr older ↦
          let (p, (e, (mine, (le, all)))) = latest_from_grows tenant device rows best own in
          (p, (rw older e, (mine, (le, (λ m. ground arith, all)))))
    ]

-- `latest` gives none exactly where the rows have no position of the device, and else a position of the
-- device than which none among the rows is newer.
pub latest-Newest :
    (tenant device : ℕ) (rows : List Position)
    → ((latest tenant device rows ≡ none) × All (λ p. of_device tenant device p ≡ false) rows)
      ⊎ ((p : Position) × ((latest tenant device rows ≡ some p)
            × ((of_device tenant device p ≡ true) × Newest tenant device rows p)))
unfolding latest latest_from better
latest-Newest tenant device [] = inl (refl, tt)
latest-Newest tenant device (q ∷ rows) = elim (Bool-cases (of_device tenant device q)) [
  | inl own ↦
      let (p, (e, (mine, (le, all)))) = latest_from_grows tenant device rows q own in
      inr (p, (rw own e, (mine, (λ m. le, all))))
  | inr other ↦ elim (latest-Newest tenant device rows) [
    | inl (e, absent) ↦ inl (rw other e, (other, absent))
    | inr (p, (e, (mine, all))) ↦ inr (p, (rw other e, (mine, (λ m. ground arith, all))))
  ]
]

warmed :
    (tenant device : ℕ) (v : Views) (p : Position)
    → Dict.get (tenant, device) v.hot ≡ none
    → latest tenant device v.rows ≡ some p
    → of_device tenant device p ≡ true
    → let w = record v { hot = Dict.set (p.tenant_id, p.device_id) p v.hot } in
      (latest_position tenant device v ≡ (ok p, w)) × (latest_position tenant device w ≡ (ok p, w))
unfolding latest_position of_device
warmed tenant device v p cold e own = (
  ground arith,
  ground (
    arith,
    Dict.get-set (p.tenant_id, p.device_id) (tenant, device) p v.hot,
    pair_beq_iff (p.tenant_id, p.device_id) (tenant, device),
  ),
)

granted_latest :
    (user : AuthUser) (device : ℕ) (v : Views) (d : Device)
    → (get_scoped user device true v.devices).0 ≡ ok d
    → request_latest user device v ≡ latest_position user.tenant_id device v
unfolding request_latest granted
granted_latest user device v d may =
    ap (λ r. granted r (latest_position user.tenant_id device) v) may

-- Where the hot state of a device is lost, the request for its latest position is answered, to a user with access to
-- the device and where the device has any stored position, by a newest of the stored ones, and the next
-- request is answered alike from the hot state, with nothing changed.
pub request_latest_cold :
    (user : AuthUser) (device : ℕ) (v : Views) (d : Device) (p : Position)
    → (get_scoped user device true v.devices).0 ≡ ok d
    → Dict.get (user.tenant_id, device) v.hot ≡ none
    → latest user.tenant_id device v.rows ≡ some p
    → let w = (request_latest user device v).1 in
      ((request_latest user device v).0 ≡ ok p)
      × ((request_latest user device w ≡ (ok p, w)) × Newest user.tenant_id device v.rows p)
unfolding granted
request_latest_cold user device v d p may cold e =
    elim (latest-Newest user.tenant_id device v.rows) [
      | inl (gone, absent) ↦ absurd (ground arith)
      | inr (q, (e', (mine, all))) ↦
          let same : q ≡ p = ground arith in
          let (one, two) =
            warmed user.tenant_id device v p cold e
              (subst (λ r. of_device user.tenant_id device r ≡ true) same mine) in
          subst
            (λ r.
              (r.0 ≡ ok p)
              × ((request_latest user device r.1 ≡ (ok p, r.1))
                  × Newest user.tenant_id device v.rows p))
            (sym (granted_latest user device v d may ∙ one))
            (
              refl,
              (
                granted_latest user device _ d may ∙ two,
                subst (λ r. Newest user.tenant_id device v.rows r) same all,
              ),
            )
    ]
