-- ===== src/ControlPlane/Org.antt =====
-- services/control-plane/src/engine/org.ts: the subtree of a department and the test for a cycle.
-- Identifiers are numbers. `descendant_ids` runs on fuel, the number of units and one more.
pub mod Kids
pub mod Subtree
use fleet_tracking_system.Common.{
  ℕ, zero, suc, ◌+◌, ◌-◌, ◌*◌, ◌/◌, ◌%◌, ◌≤◌, ◌<◌, List, [], ◌∷◌, ◌++◌, ◌≡◌, ◌≢◌, refl, sym, ap,
  ◌∙◌, arith, Bool, ◌&&◌, ◌||◌, not, true, false, Option, none, some, Text, length, take, drop, ltb,
  leb, nat_beq, ◌==◌, nat_eq, if◌then◌else◌, Bool-cases, Option-cases, ◌⊎◌, inl, inr, All, map,
  length-append, length-take, length-drop, append-nil, append_assoc, take-append_le, drop-append_le,
  take-append_eq, drop-append_eq, drop_two, take-append-drop,
}
use fleet_tracking_system.Common.{contains}
use fleet_tracking_system.Common.Dict
use fleet_tracking_system.Common.Dict.{Dict}

pub record OrgNode : Type 0 where
  pub id : ℕ
  pub parent_id : Option ℕ

-- `m.get(id) ?? []`
unfoldable pub children : ℕ → Dict ℕ (List ℕ) → List ℕ
children id m = elim (Dict.get id m) [ none ↦ [] | some ids ↦ ids ]

unfoldable pub add_child : OrgNode → Dict ℕ (List ℕ) → Dict ℕ (List ℕ)
add_child u m = elim u.parent_id [ none ↦ m | some p ↦ Dict.set p (children p m ++ u.id ∷ []) m ]

-- The rest of the loop of `childrenMap`, from the map so far.
unfoldable pub children_map : List OrgNode → Dict ℕ (List ℕ) → Dict ℕ (List ℕ)
children_map [] m = m
children_map (u ∷ units) m = children_map units (add_child u m)

-- The stack has its top first.
unfoldable pub push_all : List ℕ → List ℕ → List ℕ
push_all [] stack = stack
push_all (c ∷ cs) stack = push_all cs (c ∷ stack)

-- `none` where the fuel runs out.
unfoldable pub visit : ℕ → Dict ℕ (List ℕ) → List ℕ → List ℕ → Option (List ℕ)
visit zero m [] out = some out
visit zero m (id ∷ stack) out = none
visit (suc n) m [] out = some out
visit (suc n) m (id ∷ stack) out =
    visit n m (if contains id out then stack else push_all (children id m) stack)
      (if contains id out then out else out ++ id ∷ [])

unfoldable pub descendant_ids : List OrgNode → ℕ → Option (List ℕ)
descendant_ids units root = visit (length units + 1) (children_map units []) (root ∷ []) []

unfoldable pub would_create_cycle : List OrgNode → ℕ → Option ℕ → Option Bool
would_create_cycle units node none = some false
would_create_cycle units node (some parent) =
    if parent == node
    then some true
    else (elim (descendant_ids units node) [ none ↦ none | some ids ↦ some (contains parent ids) ])
