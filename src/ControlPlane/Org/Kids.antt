-- ===== src/ControlPlane/Org/Kids.antt =====
-- The map of `childrenMap` and the stack of `descendantIds`, and the subtree on its own terms.
use fleet_tracking_system.Common.{
  ℕ, ◌+◌, List, [], ◌∷◌, ◌++◌, ◌≡◌, refl, sym, arith, ◌||◌, true, none, some, length, ◌==◌, nat_eq,
  if◌then◌else◌, Option-cases, inl, inr, append-nil, append_assoc,
}
use fleet_tracking_system.Common.{contains}
use fleet_tracking_system.Common.Dict
use fleet_tracking_system.Common.Dict.{Dict}
use fleet_tracking_system.ControlPlane.Org.{OrgNode, children, add_child, children_map, push_all}

-- The units whose parent is `p`.
abbrev pub kids : ℕ → List OrgNode → List ℕ
kids p [] = []
kids p (u ∷ units) = elim u.parent_id [
  | none ↦ kids p units
  | some q ↦ if q == p then u.id ∷ kids p units else kids p units
]

-- The departments in the subtree of `root`: itself, and each child of one of them.
pub data Under (units : List OrgNode) (root : ℕ) : ℕ → Type 0 where
  here : Under units root root
  below : {p c : ℕ} → Under units root p → contains c (kids p units) ≡ true → Under units root c

add_child-children :
    (p : ℕ) (u : OrgNode) (m : Dict ℕ (List ℕ))
    → children p (add_child u m) ≡ children p m ++ kids p (u ∷ [])
unfolding children add_child
add_child-children p u m = elim (Option-cases u.parent_id) [
  | inl root ↦ ground (arith, append-nil (children p m))
  | inr (q, e) ↦
      ground (arith, append-nil (children p m), Dict.get-set q p (children q m ++ u.id ∷ []) m)
]

kids_cons :
    (p : ℕ) (u : OrgNode) (units : List OrgNode)
    → kids p (u ∷ units) ≡ kids p (u ∷ []) ++ kids p units
kids_cons p u units = elim (Option-cases u.parent_id) [
  | inl root ↦ ground arith
  | inr (q, e) ↦ ground arith
]

children-children_map :
    (p : ℕ) (units : List OrgNode) (m : Dict ℕ (List ℕ))
    → children p (children_map units m) ≡ children p m ++ kids p units
unfolding children_map
children-children_map p [] m = sym (append-nil (children p m))
children-children_map p (u ∷ units) m = ground (
  arith,
  children-children_map p units (add_child u m),
  add_child-children p u m,
  kids_cons p u units,
  append_assoc (children p m) (kids p (u ∷ [])) (kids p units),
)

pub children_is_kids :
    (p : ℕ) (units : List OrgNode) → children p (children_map units []) ≡ kids p units
unfolding children Dict.get
children_is_kids p units = ground (arith, children-children_map p units [])

pub contains-append :
    (c : ℕ) (xs ys : List ℕ) → contains c (xs ++ ys) ≡ (contains c xs || contains c ys)
contains-append c [] ys = refl
contains-append c (x ∷ xs) ys = ground (arith, contains-append c xs ys)

pub contains-push_all :
    (c : ℕ) (xs ys : List ℕ) → contains c (push_all xs ys) ≡ (contains c xs || contains c ys)
unfolding push_all
contains-push_all c [] ys = refl
contains-push_all c (x ∷ xs) ys = ground (arith, contains-push_all c xs (x ∷ ys))

pub length-push_all : (xs ys : List ℕ) → length (push_all xs ys) ≡ length xs + length ys
unfolding push_all
length-push_all [] ys = omega arith
length-push_all (x ∷ xs) ys = omega (arith, length-push_all xs (x ∷ ys))
