-- ===== src/ControlPlane/Departments/Walk.antt =====
-- The walk of `update` up from the proposed parent.
use fleet_tracking_system.Common.{
  ℕ, zero, suc, ◌+◌, ◌<◌, List, [], ◌∷◌, ◌≡◌, ◌≢◌, refl, sym, ap, ◌∙◌, arith, Bool, true, false,
  Option, none, some, text_eq, length, ◌==◌, nat_eq, Bool-cases, Option-cases, inl, inr,
}
use mathlib.Core.Path.{subst}
use mathlib.Core.Logic.{◌↔◌}
use fleet_tracking_system.Common.{==_refl, contains}
use fleet_tracking_system.Common.Dict
use fleet_tracking_system.Common.Dict.{Dict, Distinct}
use fleet_tracking_system.ControlPlane.Departments.{
  OrgUnit, Units, truthy, owned, find_by_id, list, parent_map, climbs, reaches,
}
use fleet_tracking_system.ControlPlane.Departments.Forest.{
  up, Rooted, top, under, Above, here, step, Filed, Forest,
}
use fleet_tracking_system.ControlPlane.Departments.Ancestors.{
  missing, missing_le, missing-cons, parent_in, get-parent_map, no_loop,
}

module _ (tenant id : ℕ) (units : Units) (filed : Filed units) where
  abbrev f : ℕ → Option ℕ
  f = up tenant units

  abbrev m : Dict ℕ (Option ℕ)
  m = parent_map (list tenant units) []

  parent_in-m : (x : ℕ) → parent_in (Dict.get x m) ≡ f x
  unfolding up Dict.get
  parent_in-m x = get-parent_map tenant x units [] filed.distinct filed.keyed

  climbs_stop : (n hop : ℕ) → truthy hop ≡ false → climbs (suc n) id m hop ≡ some false
  unfolding climbs
  climbs_stop n hop h = ground arith

  climbs_at :
      (n hop : ℕ) → truthy hop ≡ true → hop == id ≡ true → climbs (suc n) id m hop ≡ some true
  unfolding climbs
  climbs_at n hop h e = ground arith

  climbs_end :
      (n hop : ℕ)
      → truthy hop ≡ true
      → hop == id ≡ false
      → f hop ≡ none
      → climbs (suc n) id m hop ≡ some false
  unfolding climbs
  climbs_end n hop h e g = elim (Option-cases (Dict.get hop m)) [
    | inl gone ↦ ground arith
    | inr (cell, c) ↦ ground (arith, parent_in-m hop)
  ]

  climbs_on :
      (n hop p : ℕ)
      → truthy hop ≡ true
      → hop == id ≡ false
      → f hop ≡ some p
      → climbs (suc n) id m hop ≡ climbs n id m p
  unfolding climbs
  climbs_on n hop p h e g = elim (Option-cases (Dict.get hop m)) [
    | inl gone ↦ ground (arith, parent_in-m hop)
    | inr (cell, c) ↦ ground (arith, parent_in-m hop)
  ]

  up_found : (x p : ℕ) → f x ≡ some p → (o : OrgUnit) × (find_by_id tenant x units ≡ some o)
  unfolding up
  up_found x p e = elim (Option-cases (find_by_id tenant x units)) [
    | inl gone ↦ absurd (ground arith)
    | inr (o, found) ↦ (o, found)
  ]

  up_named : (x p : ℕ) → f x ≡ some p → truthy x ≡ true
  unfolding up find_by_id owned
  up_named x p e = elim (Bool-cases (x == 0)) [
    | inr named ↦ ground arith
    | inl empty ↦
        absurd (ground (arith, filed.not_empty, ap (λ y. f y) ((nat_eq.beq_iff x 0).0 empty)))
  ]

  climbs_out : (hop : ℕ) → climbs 0 id m hop ≡ none
  unfolding climbs
  climbs_out hop = refl

  -- The walk from a unit of a forest ends; `seen` is what it has come by.
  climbs_ends :
      (n hop : ℕ) (seen : List ℕ)
      → Rooted f hop
      → ((y : ℕ) → contains y seen ≡ true → Above f y hop → ⊥)
      → missing seen (list tenant units) < n
      → (b : Bool) × (climbs n id m hop ≡ some b)
  climbs_ends zero hop seen r h lt = absurd (omega arith)
  climbs_ends (suc n) hop seen (top e) h lt = elim (Bool-cases (truthy hop)) [
    | inr empty ↦ (false, climbs_stop n hop empty)
    | inl named ↦ elim (Bool-cases (hop == id)) [
      | inl at ↦ (true, climbs_at n hop named at)
      | inr other ↦ (false, climbs_end n hop named other e)
    ]
  ]
  climbs_ends (suc n) hop seen (under {p = p} e r) h lt = elim (Bool-cases (truthy hop)) [
    | inr empty ↦ (false, climbs_stop n hop empty)
    | inl named ↦ elim (Bool-cases (hop == id)) [
      | inl at ↦ (true, climbs_at n hop named at)
      | inr other ↦
          let (o, found) = up_found hop p e in
          let unseen : contains hop seen ≡ false = elim (Bool-cases (contains hop seen)) [
            | inl old ↦ absurd (h hop old here)
            | inr fresh ↦ fresh
          ] in
          let (b, ends) =
            climbs_ends n p (hop ∷ seen) r
              (λ y hy above. elim (Bool-cases (contains y seen)) [
                | inl old ↦ h y old (step e above)
                | inr fresh ↦
                    no_loop hop r e (
                      subst (λ z. Above f z p) (sym ((nat_eq.beq_iff hop y).0 (ground arith)))
                        above)
              ])
              (omega (arith, missing-cons tenant hop o seen units filed.keyed found unseen, lt)) in
          (b, climbs_on n hop p named other e ∙ ends)
    ]
  ]

  climbs-Above : (n hop : ℕ) → climbs n id m hop ≡ some true → Above f id hop
  climbs-Above zero hop h = absurd (ground (arith, climbs_out hop, h))
  climbs-Above (suc n) hop h = elim (Bool-cases (truthy hop)) [
    | inr empty ↦ absurd (ground (arith, climbs_stop n hop empty, h))
    | inl named ↦ elim (Bool-cases (hop == id)) [
      | inl at ↦ subst (λ y. Above f id y) (sym ((nat_eq.beq_iff hop id).0 at)) here
      | inr other ↦ elim (Option-cases (f hop)) [
        | inl e ↦ absurd (ground (arith, climbs_end n hop named other e, h))
        | inr (p, e) ↦ step e (climbs-Above n p (sym (climbs_on n hop p named other e) ∙ h))
      ]
    ]
  ]

  climbs_finds :
      id ≢ 0 → (n hop : ℕ) (b : Bool) → Above f id hop → climbs n id m hop ≡ some b → b ≡ true
  climbs_finds pos zero hop b a h = absurd (ground (arith, climbs_out hop, h))
  climbs_finds pos (suc n) hop b here h =
      ground (arith, climbs_at n id (ground arith) (==_refl id), h)
  climbs_finds pos (suc n) hop b (step {p = p} e a) h = elim (Bool-cases (hop == id)) [
    | inl at ↦ ground (arith, climbs_at n hop (up_named hop p e) at, h)
    | inr other ↦ climbs_finds pos n p b a (sym (climbs_on n hop p (up_named hop p e) other e) ∙ h)
  ]

-- In a forest of departments, the walk of `update` up from a proposed parent always ends within the
-- fuel, and it finds the group that is to be moved if and only if that group is the
-- proposed parent or lies above it.
pub reaches_exact :
    (tenant id hop : ℕ) (units : Units)
    → Filed units
    → Forest units
    → id ≢ 0
    → (inside : Bool) × ((reaches tenant id hop units ≡ some inside)
        × ((inside ≡ true) ↔ Above (up tenant units) id hop))
unfolding reaches
reaches_exact tenant id hop units filed forest pos =
    let (b, e) =
      climbs_ends tenant id units filed (length (list tenant units) + 1) hop [] (forest tenant hop)
        (λ y h a. ground arith) (omega (arith, missing_le (list tenant units))) in
    (
      b,
      (
        e,
        (
          λ yes. climbs-Above tenant id units filed _ hop (e ∙ ap some yes),
          λ a. climbs_finds tenant id units filed pos _ hop b a e,
        ),
      ),
    )
