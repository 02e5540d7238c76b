-- ===== src/ControlPlane/Departments/Ancestors.antt =====
-- The map `parentOf`, what a walk up has still to see, and that a forest has no unit above itself.
use fleet_tracking_system.Common.{
  ℕ, suc, ◌≤◌, ◌<◌, List, [], ◌∷◌, ◌≡◌, refl, ap, arith, false, Option, none, some, text_eq, length,
  ◌==◌, nat_eq, if◌then◌else◌, Bool-cases, ◌⊎◌, inl, inr, All,
}
use mathlib.Core.Path.{subst}
use fleet_tracking_system.Common.{contains}
use fleet_tracking_system.Common.Dict
use fleet_tracking_system.Common.Dict.{Dict, Distinct}
use fleet_tracking_system.ControlPlane.Departments.{
  OrgUnit, Units, owned, find_by_id, list, parent_map,
}
use fleet_tracking_system.ControlPlane.Departments.Forest.{Rooted, top, under, Above, here, step}

-- The units of a list that are not in `seen`.
abbrev pub missing : List ℕ → List OrgUnit → ℕ
missing seen [] = 0
missing seen (o ∷ all) = if contains o.id seen then missing seen all else suc (missing seen all)

pub missing_le : (all : List OrgUnit) → missing [] all ≤ length all
missing_le [] = omega arith
missing_le (o ∷ all) = ground (arith, missing_le all)

pub missing-cons_le :
    (x : ℕ) (seen : List ℕ) (all : List OrgUnit) → missing (x ∷ seen) all ≤ missing seen all
missing-cons_le x seen [] = omega arith
missing-cons_le x seen (o ∷ all) = ground (arith, missing-cons_le x seen all)

pub missing-cons :
    (tenant x : ℕ) (o : OrgUnit) (seen : List ℕ) (units : Units)
    → All (λ entry. entry.1.id ≡ entry.0) units
    → find_by_id tenant x units ≡ some o
    → contains x seen ≡ false
    → missing (x ∷ seen) (list tenant units) < missing seen (list tenant units)
unfolding find_by_id owned list Dict.get
missing-cons tenant x o seen [] k e new = absurd (ground arith)
missing-cons tenant x o seen ((j, u) ∷ units) (k, ks) e new = elim (Bool-cases (j == x)) [
  | inl same ↦ ground (arith, k, nat_eq.beq_iff j x, missing-cons_le x seen (list tenant units))
  | inr other ↦ ground (arith, k, missing-cons tenant x o seen units ks, nat_eq.beq_iff x u.id)
]

-- A cell of `parentOf`, where one is looked up.
abbrev pub parent_in : Option (Option ℕ) → Option ℕ
parent_in none = none
parent_in (some p) = p

pub get-parent_map :
    (tenant x : ℕ) (units : Units) (m : Dict ℕ (Option ℕ))
    → Distinct units
    → All (λ entry. entry.1.id ≡ entry.0) units
    → parent_in (Dict.get x (parent_map (list tenant units) m))
      ≡ (elim (find_by_id tenant x units) [
        | none ↦ parent_in (Dict.get x m)
        | some o ↦ o.parent_id
      ])
unfolding find_by_id owned list parent_map Dict.get
get-parent_map tenant x [] m d k = refl
get-parent_map tenant x ((j, u) ∷ units) m (new, d) (k, ks) =
    elim (Bool-cases (u.tenant_id == tenant)) [
      | inl own ↦ ground (
        arith,
        new,
        k,
        get-parent_map tenant x units (Dict.set u.id u.parent_id m) d ks,
        Dict.get-set u.id x u.parent_id m,
        nat_eq.beq_iff j x,
        nat_eq.beq_iff u.id x,
      )
      | inr other ↦ ground (arith, new, k, get-parent_map tenant x units m d ks, nat_eq.beq_iff j x)
    ]

-- A forest has no unit above itself.
pub Above-trans : {f : ℕ → Option ℕ} {a b c : ℕ} → Above f a b → Above f b c → Above f a c
Above-trans p here = p
Above-trans p (step e q) = step e (Above-trans p q)

pub Above-cases :
    {f : ℕ → Option ℕ} {a x : ℕ}
    → Above f a x
    → (a ≡ x) ⊎ ((p : ℕ) × ((f x ≡ some p) × Above f a p))
Above-cases here = inl refl
Above-cases (step {p = p} e r) = inr (p, (e, r))

pub no_loop : {f : ℕ → Option ℕ} {q : ℕ} (x : ℕ) → Rooted f q → f x ≡ some q → Above f x q → ⊥
no_loop {f} {q} x (top e) h a = elim (Above-cases a) [
  | inl same ↦ ground (arith, ap f same)
  | inr (p, (e', r)) ↦ ground arith
]
no_loop {f} {q} x (under {p = p} e r) h a = elim (Above-cases a) [
  | inl same ↦
      let loop : q ≡ p = ground (arith, ap f same) in
      no_loop q r e (subst (λ y. Above f q y) loop here)
  | inr (p', (e', above)) ↦
      let one : p' ≡ p = ground arith in
      no_loop q r e (Above-trans (step h here) (subst (λ y. Above f x y) one above))
]
