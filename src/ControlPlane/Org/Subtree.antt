-- ===== src/ControlPlane/Org/Subtree.antt =====
-- What the loops of org.ts find: the departments under a root.
use fleet_tracking_system.Common.{
  ℕ, zero, suc, ◌+◌, ◌≤◌, List, [], ◌∷◌, ◌++◌, ◌≡◌, refl, sym, arith, Bool, ◌||◌, true, false, none,
  some, length, ◌==◌, nat_eq, if◌then◌else◌, Bool-cases, Option-cases, inl, inr,
}
use mathlib.Core.Path.{subst}
use mathlib.Core.Logic.{◌↔◌}
use fleet_tracking_system.Common.{contains, ==_refl}
use fleet_tracking_system.ControlPlane.Org.Kids.{
  kids, Under, here, below, children_is_kids, contains-append, contains-push_all, length-push_all,
}
use fleet_tracking_system.ControlPlane.Org.{
  OrgNode, children, children_map, push_all, visit, descendant_ids, would_create_cycle,
}

-- The units whose parent is not in `out` yet: what the loop may still push.
abbrev pending : List ℕ → List OrgNode → ℕ
pending out [] = 0
pending out (u ∷ units) = elim u.parent_id [
  | none ↦ pending out units
  | some q ↦ if contains q out then pending out units else suc (pending out units)
]

pending-add :
    (id : ℕ) (out : List ℕ) (units : List OrgNode)
    → contains id out ≡ false
    → pending out units ≡ pending (out ++ id ∷ []) units + length (kids id units)
pending-add id out [] h = omega arith
pending-add id out (u ∷ units) h = elim (Option-cases u.parent_id) [
  | inl root ↦ ground (arith, pending-add id out units h)
  | inr (q, e) ↦ ground (
    arith,
    pending-add id out units h,
    contains-append q out (id ∷ []),
    nat_eq.beq_iff id q,
    nat_eq.beq_iff q id,
  )
]

module _ (units : List OrgNode) where
  visit_total :
      (n : ℕ) (stack out : List ℕ)
      → length stack + pending out units ≤ n
      → (r : List ℕ) × (visit n (children_map units []) stack out ≡ some r)
  unfolding visit
  visit_total zero [] out h = (out, refl)
  visit_total zero (id ∷ stack) out h = absurd (omega arith)
  visit_total (suc n) [] out h = (out, refl)
  visit_total (suc n) (id ∷ stack) out h = elim (Bool-cases (contains id out)) [
    | inl seen ↦ let (r, e) = visit_total n stack out (omega arith) in (r, ground arith)
    | inr new ↦
        let m = children_map units [] in
        let kids_at = children_is_kids id units in
        let pushed = length-push_all (children id m) stack in
        let fewer = pending-add id out units new in
        let (r, e) =
          visit_total n (push_all (children id m) stack) (out ++ id ∷ []) (ground arith) in
        (r, ground arith)
  ]

  visit-Under :
      (root : ℕ) (n : ℕ) (stack out r : List ℕ)
      → ((x : ℕ) → contains x stack ≡ true → Under units root x)
      → ((x : ℕ) → contains x out ≡ true → Under units root x)
      → visit n (children_map units []) stack out ≡ some r
      → (x : ℕ) → contains x r ≡ true
      → Under units root x
  unfolding visit
  visit-Under root zero [] out r hs ho e x hx = ho x (ground arith)
  visit-Under root zero (id ∷ stack) out r hs ho e x hx = absurd (ground arith)
  visit-Under root (suc n) [] out r hs ho e x hx = ho x (ground arith)
  visit-Under root (suc n) (id ∷ stack) out r hs ho e x hx = elim (Bool-cases (contains id out)) [
    | inl seen ↦ visit-Under root n stack out r (λ y hy. hs y (ground arith)) ho (ground arith) x hx
    | inr new ↦
        let m = children_map units [] in
        visit-Under root n (push_all (children id m) stack) (out ++ id ∷ []) r
          (λ y hy. elim (Bool-cases (contains y (kids id units))) [
            | inl kid ↦ below (hs id (ground (arith, ==_refl id))) kid
            | inr other ↦ hs y (
                ground
                  (arith, children_is_kids id units, contains-push_all y (children id m) stack))
          ])
          (λ y hy. elim (Bool-cases (contains y out)) [
            | inl old ↦ ho y old
            | inr fresh ↦ hs y (ground (arith, contains-append y out (id ∷ [])))
          ])
          (ground arith) x hx
  ]

  visit_closed :
      (n : ℕ) (stack out r : List ℕ)
      → ((p c : ℕ)
          → contains p out ≡ true
          → contains c (kids p units) ≡ true
          → (contains c out || contains c stack) ≡ true)
      → visit n (children_map units []) stack out ≡ some r
      → ((x : ℕ) → (contains x out || contains x stack) ≡ true → contains x r ≡ true)
        × ((p c : ℕ) → contains p r ≡ true → contains c (kids p units) ≡ true → contains c r ≡ true)
  unfolding visit
  visit_closed zero [] out r h e =
      (λ x hx. ground arith, λ p c hp hc. let w = h p c (ground arith) hc in ground arith)
  visit_closed zero (id ∷ stack) out r h e = absurd (ground arith)
  visit_closed (suc n) [] out r h e =
      (λ x hx. ground arith, λ p c hp hc. let w = h p c (ground arith) hc in ground arith)
  visit_closed (suc n) (id ∷ stack) out r h e = elim (Bool-cases (contains id out)) [
    | inl seen ↦
        let (a, b) =
          visit_closed n stack out r
            (λ p c hp hc. let w = h p c hp hc in ground (arith, nat_eq.beq_iff id c))
            (ground arith) in
        (λ x hx. a x (ground (arith, nat_eq.beq_iff id x)), b)
    | inr new ↦
        let m = children_map units [] in
        let (a, b) =
          visit_closed n (push_all (children id m) stack) (out ++ id ∷ []) r
            (λ p c hp hc. elim (Bool-cases (contains p out)) [
              | inl old ↦
                  let w = h p c old hc in
                  ground (
                    arith,
                    contains-append c out (id ∷ []),
                    contains-push_all c (children id m) stack,
                  )
              | inr fresh ↦ ground (
                arith,
                nat_eq.beq_iff id p,
                contains-append p out (id ∷ []),
                children_is_kids id units,
                contains-push_all c (children id m) stack,
              )
            ])
            (ground arith) in
        (
          λ x hx. a x (
              ground (
                arith,
                contains-append x out (id ∷ []),
                contains-push_all x (children id m) stack,
              )),
          b,
        )
  ]

pending_le : (units : List OrgNode) → pending [] units ≤ length units
pending_le [] = omega arith
pending_le (u ∷ units) = elim (Option-cases u.parent_id) [
  | inl root ↦ ground (arith, pending_le units)
  | inr (q, e) ↦ ground (arith, pending_le units)
]

reached :
    (units : List OrgNode) (root : ℕ) (r : List ℕ)
    → contains root r ≡ true
    → ((p c : ℕ) → contains p r ≡ true → contains c (kids p units) ≡ true → contains c r ≡ true)
    → (x : ℕ) → Under units root x
    → contains x r ≡ true
reached units root r base closed x here = base
reached units root r base closed x (below {p = p} u k) =
    closed p x (reached units root r base closed p u) k

-- The walk of the tree always ends, even when the parents form a cycle, and what it gives is exactly the
-- departments in the subtree: one is in the result if and only if it is the root or, step by
-- step, a child of one in the subtree.
pub descendant_ids_exact :
    (units : List OrgNode) (root : ℕ)
    → (ids : List ℕ) × ((descendant_ids units root ≡ some ids)
        × ((x : ℕ) → (contains x ids ≡ true) ↔ Under units root x))
unfolding descendant_ids
descendant_ids_exact units root =
    let (ids, e) =
      visit_total units (length units + 1) (root ∷ []) [] (omega (arith, pending_le units)) in
    let (a, b) =
      visit_closed units (length units + 1) (root ∷ []) [] ids (λ p c hp hc. absurd (ground arith))
        e in
    (
      ids,
      (
        e,
        λ x. (
          visit-Under units root (length units + 1) (root ∷ []) [] ids
              (λ y hy.
                subst (λ z. Under units root z) ((nat_eq.beq_iff root y).0 (ground arith)) here)
              (λ y hy. absurd (ground arith)) e x,
          reached units root ids (a root (ground (arith, ==_refl root))) b x,
        ),
      ),
    )

-- The test for a cycle always has an answer, and it is yes if and only if the new parent is in the subtree of the
-- department itself.
pub would_create_cycle_exact :
    (units : List OrgNode) (node parent : ℕ)
    → (answer : Bool) × ((would_create_cycle units node (some parent) ≡ some answer)
        × ((answer ≡ true) ↔ Under units node parent))
unfolding would_create_cycle
would_create_cycle_exact units node parent =
    let (ids, (e, iff)) = descendant_ids_exact units node in
    elim (Bool-cases (parent == node)) [
      | inl same ↦ (
        true,
        (
          ground arith,
          (
            λ h. subst (λ z. Under units node z) (sym ((nat_eq.beq_iff parent node).0 same)) here,
            λ u. refl,
          ),
        ),
      )
      | inr other ↦ (contains parent ids, (ground arith, iff parent))
    ]
