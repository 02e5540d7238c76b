-- ===== src/ControlPlane/Departments/Children.antt =====
-- The children of a unit, and what the loop of `remove` has still to push.
use fleet_tracking_system.Common.{
  ℕ, suc, ◌+◌, ◌≤◌, List, [], ◌∷◌, ◌++◌, ◌≡◌, refl, ap, arith, Bool, ◌&&◌, not, true, false, Option,
  none, some, text_eq, length, ◌==◌, nat_eq, if◌then◌else◌, Bool-cases, Option-cases, inl, inr, All,
}
use fleet_tracking_system.Common.{==_refl, contains}
use fleet_tracking_system.Common.Dict
use fleet_tracking_system.Common.Dict.{Dict, Distinct}
use fleet_tracking_system.ControlPlane.Org.Kids.{contains-append}
use fleet_tracking_system.ControlPlane.Departments.{Units, owned, find_by_id, children_of}
use fleet_tracking_system.ControlPlane.Departments.Forest.{up}

-- Whether a parent is a given one.
abbrev pub is_parent : ℕ → Option ℕ → Bool
is_parent x none = false
is_parent x (some p) = p == x

pub contains-children_of :
    (tenant x c : ℕ) (units : Units)
    → Distinct units
    → All (λ entry. entry.1.id ≡ entry.0) units
    → contains c (children_of tenant x units) ≡ is_parent x (up tenant units c)
unfolding children_of up find_by_id owned Dict.get
contains-children_of tenant x c [] d k = refl
contains-children_of tenant x c ((j, u) ∷ units) (new, d) (k, ks) =
    elim (Option-cases u.parent_id) [
      | inl root ↦ ground (
        arith,
        new,
        k,
        contains-children_of tenant x c units d ks,
        nat_eq.beq_iff j c,
        nat_eq.beq_iff u.id c,
      )
      | inr (p, e) ↦ ground (
        arith,
        new,
        k,
        contains-children_of tenant x c units d ks,
        nat_eq.beq_iff j c,
        nat_eq.beq_iff u.id c,
      )
    ]

pub is_parent-some : (x : ℕ) (o : Option ℕ) → is_parent x o ≡ true → o ≡ some x
is_parent-some x none h = ground arith
is_parent-some x (some p) h = ap some ((nat_eq.beq_iff p x).0 h)

abbrev pub Nodup : List ℕ → Type 0
Nodup [] = Unit
Nodup (x ∷ xs) = (contains x xs ≡ false) × Nodup xs

pub Nodup-append :
    (xs ys : List ℕ)
    → Nodup xs
    → Nodup ys
    → ((y : ℕ) → contains y ys ≡ true → contains y xs ≡ false)
    → Nodup (xs ++ ys)
Nodup-append [] ys hx hy h = hy
Nodup-append (x ∷ xs) ys (new, hx) hy h = (
  elim (Bool-cases (contains x ys)) [
    | inl both ↦ absurd (ground (arith, h x both, ==_refl x))
    | inr apart ↦ ground (arith, contains-append x xs ys)
  ],
  Nodup-append xs ys hx hy (λ y e. ground (arith, h y e)),
)

pub Nodup-if : (b : Bool) (xs ys : List ℕ) → Nodup xs → Nodup ys → Nodup (if b then xs else ys)
Nodup-if true xs ys hx hy = hx
Nodup-if false xs ys hx hy = hy

pub children_of-Nodup :
    (tenant x : ℕ) (units : Units)
    → Distinct units
    → All (λ entry. entry.1.id ≡ entry.0) units
    → Nodup (children_of tenant x units)
unfolding children_of up find_by_id owned
children_of-Nodup tenant x [] d k = tt
children_of-Nodup tenant x ((j, u) ∷ units) (new, d) (k, ks) =
    let rest = children_of-Nodup tenant x units d ks in
    let apart : contains u.id (children_of tenant x units) ≡ false =
      ground
        (arith, contains-children_of tenant x u.id units d ks, new, ap (λ i. Dict.get i units) k) in
    Nodup-if (u.tenant_id == tenant && is_parent x u.parent_id) (u.id ∷ children_of tenant x units)
      (children_of tenant x units) (apart, rest) rest

-- The rows whose parent is not in `done`.
abbrev pub pending : ℕ → List ℕ → Units → ℕ
pending tenant done [] = 0
pending tenant done ((k, u) ∷ units) = elim u.parent_id [
  | none ↦ pending tenant done units
  | some p ↦
      if u.tenant_id == tenant && not (contains p done)
      then suc (pending tenant done units)
      else pending tenant done units
]

pub pending_le :
    (tenant : ℕ) (done : List ℕ) (units : Units) → pending tenant done units ≤ length units
pending_le tenant done [] = omega arith
pending_le tenant done ((k, u) ∷ units) = elim (Option-cases u.parent_id) [
  | inl root ↦ ground (arith, pending_le tenant done units)
  | inr (p, e) ↦ ground (arith, pending_le tenant done units)
]

pub pending-add :
    (tenant x : ℕ) (done : List ℕ) (units : Units)
    → contains x done ≡ false
    → pending tenant done units
      ≡ pending tenant (done ++ x ∷ []) units + length (children_of tenant x units)
unfolding children_of
pending-add tenant x done [] new = omega arith
pending-add tenant x done ((k, u) ∷ units) new = elim (Option-cases u.parent_id) [
  | inl root ↦ ground (arith, pending-add tenant x done units new)
  | inr (p, e) ↦ ground (
    arith,
    pending-add tenant x done units new,
    contains-append p done (x ∷ []),
    nat_eq.beq_iff x p,
    nat_eq.beq_iff p x,
  )
]
