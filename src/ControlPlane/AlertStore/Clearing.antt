-- ===== src/ControlPlane/AlertStore/Clearing.antt =====
-- What clearing deletes, and what the reports see.
use fleet_tracking_system.Common.{
  ℕ, ◌+◌, List, [], ◌∷◌, ◌≡◌, ◌≢◌, refl, ap, arith, Bool, not, true, Option, none, some, Text,
  text_eq, length, ◌==◌, nat_eq, if◌then◌else◌, Bool-cases, ◌⊎◌, inl, inr,
}
use fleet_tracking_system.Common.{select}
use fleet_tracking_system.ControlPlane.Http.{ok, err, bad_request}
use fleet_tracking_system.ControlPlane.Alerts.{AlertEvent}
use fleet_tracking_system.ControlPlane.AlertStore.{cleared, clear, all_known, request_clear}

-- How many rows a test holds of.
abbrev pub count : (AlertEvent → Bool) → List AlertEvent → ℕ
count p [] = 0
count p (a ∷ rows) = (if p a then 1 else 0) + count p rows

length-select :
    (p : AlertEvent → Bool) (rows : List AlertEvent)
    → length rows ≡ count p rows + length (select (λ a. not (p a)) rows)
length-select p [] = omega arith
length-select p (a ∷ rows) = ground (arith, length-select p rows)

select-select :
    (p q : AlertEvent → Bool) (rows : List AlertEvent)
    → ((a : AlertEvent) → q a ≡ true → p a ≡ true)
    → select q (select p rows) ≡ select q rows
select-select p q [] h = refl
select-select p q (a ∷ rows) h = ground (arith, select-select p q rows h, h a)

cleared-tenant :
    (tenant other : ℕ) (types : Option (List Text)) (device : Option ℕ) (a : AlertEvent)
    → other ≢ tenant
    → (a.tenant_id == other) ≡ true
    → not (cleared tenant types device a) ≡ true
unfolding cleared
cleared-tenant tenant other types device a ne mine =
    ground (arith, nat_eq.beq_iff a.tenant_id other, nat_eq.beq_iff a.tenant_id tenant, ne)

-- A request to clear alerts either names an unknown type, and then is refused with nothing deleted, or answers the
-- number of the tenant's alerts that it selects, deletes exactly these, and leaves the alerts of every other
-- tenant as they were, in their order.
pub request_clear_exact :
    (tenant : ℕ) (types : Option (List Text)) (device : Option ℕ) (rows : List AlertEvent)
    → (request_clear tenant types device rows ≡ (err bad_request, rows))
      ⊎ (((request_clear tenant types device rows).0
            ≡ ok (count (cleared tenant types device) rows))
          × (((request_clear tenant types device rows).1
                ≡ select (λ a. not (cleared tenant types device a)) rows)
              × ((other : ℕ)
                  → other ≢ tenant
                  → select (λ a. a.tenant_id == other) (request_clear tenant types device rows).1
                    ≡ select (λ a. a.tenant_id == other) rows)))
unfolding request_clear clear
request_clear_exact tenant none device rows =
    let p = cleared tenant none device in
    inr (
      ap ok (omega (arith, length-select p rows)),
      (
        refl,
        λ other ne.
            select-select (λ a. not (p a)) (λ a. a.tenant_id == other) rows
              (λ a. cleared-tenant tenant other none device a ne),
      ),
    )
request_clear_exact tenant (some types) device rows =
    let p = cleared tenant (some types) device in
    elim (Bool-cases (all_known types)) [
      | inr bad ↦ inl (rw bad refl)
      | inl good ↦ inr (
          rw good (
            ap ok (omega (arith, length-select p rows)),
            (
              refl,
              λ other ne.
                  select-select (λ a. not (p a)) (λ a. a.tenant_id == other) rows
                    (λ a. cleared-tenant tenant other (some types) device a ne),
            ),
          ))
    ]
