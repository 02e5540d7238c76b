-- ===== src/ControlPlane/Departments/Requests.antt =====
-- The requests on departments: what each does to the forest.
use fleet_tracking_system.Common.{
  ℕ, List, ◌≡◌, ◌≢◌, sym, ap, ◌∙◌, arith, true, none, some, text_eq, ◌==◌, nat_eq, Bool-cases,
  Option-cases, inl, inr,
}
use mathlib.Core.Path.{subst}
use mathlib.Core.Logic.{◌↔◌}
use fleet_tracking_system.Common.{contains}
use fleet_tracking_system.Common.Dict
use fleet_tracking_system.Common.Dict.{Dict, Distinct}
use fleet_tracking_system.ControlPlane.Http.{ok}
use fleet_tracking_system.ControlPlane.Departments.{
  OrgUnit, Units, owned, find_by_id, delete_all, remove_row, remove,
}
use fleet_tracking_system.ControlPlane.Departments.Forest.{
  up, Above, Filed, Forest, Rooted-less, Filed-delete_all, get-delete_all,
}
use fleet_tracking_system.ControlPlane.Departments.Cascade.{doom_exact}

-- Rows under their ids, and the parents of each tenant's units a forest.
pub record WellFormed (units : Units) : Type 0 where
  pub filed : Filed units
  pub forest : Forest units

-- A new id: not empty, no unit's and no unit's parent.
pub record IsFresh (id : ℕ) (units : Units) : Type 0 where
  pub named : id ≢ 0
  pub unused : Dict.get id units ≡ none
  pub no_parent : (tenant x : ℕ) → up tenant units x ≢ some id

pub found_row :
    (tenant id : ℕ) (units : Units) (o : OrgUnit)
    → find_by_id tenant id units ≡ some o
    → (Dict.get id units ≡ some o) × (o.tenant_id ≡ tenant)
unfolding find_by_id owned
found_row tenant id units o h = elim (Option-cases (Dict.get id units)) [
  | inl gone ↦ absurd (ground arith)
  | inr (u, e) ↦ elim (Bool-cases (u.tenant_id == tenant)) [
    | inl own ↦ (ground arith, ground (arith, nat_eq.beq_iff u.tenant_id tenant))
    | inr other ↦ absurd (ground arith)
  ]
]

pub found_named :
    (tenant id : ℕ) (units : Units) (o : OrgUnit)
    → Filed units
    → find_by_id tenant id units ≡ some o
    → id ≢ 0
found_named tenant id units o filed h e =
    let (row, own) = found_row tenant id units o h in
    ground (arith, filed.not_empty, ap (λ i. Dict.get i units) e)

remove_row_exact :
    (tenant id : ℕ) (units : Units) (o : OrgUnit)
    → WellFormed units
    → find_by_id tenant id units ≡ some o
    → (r : List ℕ) × ((remove tenant id units ≡ (ok tt, delete_all r units))
        × ((x : ℕ) → (contains x r ≡ true) ↔ Above (up tenant units) id x))
unfolding remove remove_row
remove_row_exact tenant id units o w h =
    let (r, (e, iff)) = doom_exact tenant id units w.filed w.forest in (r, (ground arith, iff))

-- In well-formed departments, the removal of a tenant's group always ends, succeeds, and takes away
-- exactly its subtree: each unit of the subtree is gone and any other is as it was.
pub remove_exact :
    (tenant id : ℕ) (units : Units) (o : OrgUnit)
    → WellFormed units
    → find_by_id tenant id units ≡ some o
    → ((remove tenant id units).0 ≡ ok tt)
      × ((x : ℕ)
          → (Above (up tenant units) id x → Dict.get x (remove tenant id units).1 ≡ none)
            × ((Above (up tenant units) id x → ⊥)
                → Dict.get x (remove tenant id units).1 ≡ Dict.get x units))
remove_exact tenant id units o w h =
    let (r, (e, iff)) = remove_row_exact tenant id units o w h in
    (
      ground arith,
      λ x. (
        λ a. ap (λ p. Dict.get x p.1) e ∙ ground (arith, get-delete_all x r units, (iff x).1 a),
        λ off. elim (Bool-cases (contains x r)) [
          | inl there ↦ absurd (off ((iff x).0 there))
          | inr apart ↦ ap (λ p. Dict.get x p.1) e ∙ ground (arith, get-delete_all x r units)
        ],
      ),
    )

WellFormed-delete_all :
    (victims : List ℕ) (units : Units) → WellFormed units → WellFormed (delete_all victims units)
unfolding up find_by_id owned
WellFormed-delete_all victims units w = record {
  filed = Filed-delete_all victims units w.filed;
  forest = λ tenant x.
      Rooted-less (up tenant units) (up tenant (delete_all victims units))
        (λ y. elim (Bool-cases (contains y victims)) [
          | inl gone ↦ inl (ground (arith, get-delete_all y victims units))
          | inr kept ↦ inr (ground (arith, get-delete_all y victims units))
        ])
        x (w.forest tenant x);
}

pub remove-WellFormed :
    (tenant id : ℕ) (units : Units) → WellFormed units → WellFormed (remove tenant id units).1
unfolding remove remove_row
remove-WellFormed tenant id units w = elim (Option-cases (find_by_id tenant id units)) [
  | inl missing ↦ subst WellFormed (ground arith) w
  | inr (o, found) ↦
      let (r, (e, iff)) = remove_row_exact tenant id units o w found in
      subst WellFormed (sym (ap (λ p. p.1) e)) (WellFormed-delete_all r units w)
]
