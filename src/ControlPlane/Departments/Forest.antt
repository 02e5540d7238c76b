-- ===== src/ControlPlane/Departments/Forest.antt =====
-- The departments of a tenant as a forest, and that each request keeps it.
use fleet_tracking_system.Common.{
  ℕ, List, [], ◌∷◌, ◌≡◌, ◌≢◌, refl, ◌∙◌, arith, false, Option, none, some, text_eq, ◌==◌, nat_eq,
  if◌then◌else◌, Bool-cases, ◌⊎◌, inl, inr, All,
}
use mathlib.Core.Path.{subst}
use fleet_tracking_system.Common.{contains}
use fleet_tracking_system.Common.Dict
use fleet_tracking_system.Common.Dict.{Dict, Distinct, Distinct-set, Distinct-delete}
use fleet_tracking_system.ControlPlane.Departments.{OrgUnit, Units, owned, find_by_id, delete_all}

-- The parent of a tenant's unit.
unfoldable pub up : ℕ → Units → ℕ → Option ℕ
up tenant units x = elim (find_by_id tenant x units) [ none ↦ none | some o ↦ o.parent_id ]

-- From `x` up, parent by parent, one comes to a unit without a parent, or to an id that is no unit.
pub data Rooted (f : ℕ → Option ℕ) : ℕ → Type 0 where
  top : {x : ℕ} → f x ≡ none → Rooted f x
  under : {x p : ℕ} → f x ≡ some p → Rooted f p → Rooted f x

-- `a` is `x`, or above it.
pub data Above (f : ℕ → Option ℕ) (a : ℕ) : ℕ → Type 0 where
  here : Above f a a
  step : {x p : ℕ} → f x ≡ some p → Above f a p → Above f a x

-- Rows are under their ids, and no id is the empty text.
pub record Filed (units : Units) : Type 0 where
  pub distinct : Distinct units
  pub keyed : All (λ entry. entry.1.id ≡ entry.0) units
  pub not_empty : Dict.get 0 units ≡ none

abbrev pub Forest : Units → Type 0
Forest units = (tenant x : ℕ) → Rooted (up tenant units) x

-- Parents only taken away.
pub Rooted-less :
    (f g : ℕ → Option ℕ)
    → ((x : ℕ) → (g x ≡ none) ⊎ (g x ≡ f x))
    → (x : ℕ) → Rooted f x
    → Rooted g x
Rooted-less f g h x (top e) = elim (h x) [ inl gone ↦ top gone | inr same ↦ top (same ∙ e) ]
Rooted-less f g h x (under e r) = elim (h x) [
  | inl gone ↦ top gone
  | inr same ↦ under (same ∙ e) (Rooted-less f g h _ r)
]

-- One parent set.
module _ (f : ℕ → Option ℕ) (id p : ℕ) (g : ℕ → Option ℕ) (at : g id ≡ some p)
    (off : (x : ℕ) → (id == x) ≡ false → g x ≡ f x) where
  Rooted-off : (x : ℕ) → Rooted f x → (Above f id x → ⊥) → Rooted g x
  Rooted-off x (top e) h = elim (Bool-cases (id == x)) [
    | inl same ↦ absurd (h (subst (λ y. Above f id y) ((nat_eq.beq_iff id x).0 same) here))
    | inr other ↦ top (off x other ∙ e)
  ]
  Rooted-off x (under {p = q} e r) h = elim (Bool-cases (id == x)) [
    | inl same ↦ absurd (h (subst (λ y. Above f id y) ((nat_eq.beq_iff id x).0 same) here))
    | inr other ↦ under (off x other ∙ e) (Rooted-off q r (λ a. h (step e a)))
  ]

  Rooted-to : Rooted g p → (x : ℕ) → Rooted f x → Rooted g x
  Rooted-to rp x (top e) = elim (Bool-cases (id == x)) [
    | inl same ↦ subst (λ y. Rooted g y) ((nat_eq.beq_iff id x).0 same) (under at rp)
    | inr other ↦ top (off x other ∙ e)
  ]
  Rooted-to rp x (under {p = q} e r) = elim (Bool-cases (id == x)) [
    | inl same ↦ subst (λ y. Rooted g y) ((nat_eq.beq_iff id x).0 same) (under at rp)
    | inr other ↦ under (off x other ∙ e) (Rooted-to rp q r)
  ]

  -- A unit put under one that is not below it.
  pub Rooted-moved : ((x : ℕ) → Rooted f x) → (Above f id p → ⊥) → (x : ℕ) → Rooted g x
  Rooted-moved h off_p x = Rooted-to (Rooted-off p (h p) off_p) x (h x)

-- What `up` becomes when a row is set.
pub up-set :
    (tenant id : ℕ) (o : OrgUnit) (units : Units) (x : ℕ)
    → up tenant (Dict.set id o units) x ≡ (
        if id == x
        then (if o.tenant_id == tenant then o.parent_id else none)
        else up tenant units x)
unfolding up find_by_id owned
up-set tenant id o units x = elim (Bool-cases (id == x)) [
  | inl same ↦ ground (arith, Dict.get-set id x o units)
  | inr other ↦ ground (arith, Dict.get-set id x o units)
]

pub Filed-set :
    (id : ℕ) (o : OrgUnit) (units : Units)
    → o.id ≡ id
    → id ≢ 0
    → Filed units
    → Filed (Dict.set id o units)
Filed-set id o units e pos h = record {
  distinct = Distinct-set id o units h.distinct;
  keyed = Dict.All-set (λ entry. entry.1.id ≡ entry.0) id o units e h.keyed;
  not_empty = ground (arith, Dict.get-set id 0 o units, pos, h.not_empty);
}

pub Filed-delete_all :
    (victims : List ℕ) (units : Units) → Filed units → Filed (delete_all victims units)
unfolding delete_all
Filed-delete_all [] units h = h
Filed-delete_all (v ∷ vs) units h = Filed-delete_all vs (Dict.delete v units) (record {
  distinct = Distinct-delete v units h.distinct;
  keyed = Dict.All-delete (λ entry. entry.1.id ≡ entry.0) v units h.keyed;
  not_empty = ground (arith, Dict.get-delete v 0 units, h.not_empty);
})

pub get-delete_all :
    (x : ℕ) (victims : List ℕ) (units : Units)
    → Dict.get x (delete_all victims units)
      ≡ (if contains x victims then none else Dict.get x units)
unfolding delete_all
get-delete_all x [] units = refl
get-delete_all x (v ∷ vs) units =
    ground (arith, get-delete_all x vs (Dict.delete v units), Dict.get-delete v x units)
