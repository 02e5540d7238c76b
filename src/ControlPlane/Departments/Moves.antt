-- ===== src/ControlPlane/Departments/Moves.antt =====
-- What `create` and `update` do to the forest.
use fleet_tracking_system.Common.{
  ℕ, ◌≡◌, ◌≢◌, refl, sym, ap, ◌∙◌, arith, none, some, text_eq, ◌==◌, nat_eq, Bool-cases,
  Option-cases, ◌⊎◌, inl, inr,
}
use mathlib.Core.Path.{subst}
use fleet_tracking_system.Common.{==_refl}
use fleet_tracking_system.Common.Dict
use fleet_tracking_system.Common.Dict.{Dict, Distinct}
use fleet_tracking_system.ControlPlane.Http.{Fault, ok, err, bad_request, not_found}
use fleet_tracking_system.ControlPlane.Departments.{
  OrgUnit, Units, CreateDepartmentDto, UpdateDepartmentDto, truthy, find_by_id, patched, update_row,
  create, check_parent, update, remove,
}
use fleet_tracking_system.ControlPlane.Departments.Forest.{
  up, Rooted, Above, here, step, Rooted-less, Rooted-moved, up-set, Filed-set,
}
use fleet_tracking_system.ControlPlane.Departments.Walk.{reaches_exact}
use fleet_tracking_system.ControlPlane.Departments.Requests.{
  WellFormed, IsFresh, found_row, found_named, remove-WellFormed,
}

-- A row that may be set: its parent is none, the one from before, or none of the units below it.
abbrev Safe : ℕ → OrgUnit → Units → Type 0
Safe id o units =
    (o.parent_id ≡ none)
    ⊎ ((o.parent_id ≡ up o.tenant_id units id)
        ⊎ ((p : ℕ) × ((o.parent_id ≡ some p) × (Above (up o.tenant_id units) id p → ⊥))))

set_row_less :
    (t id : ℕ) (o : OrgUnit) (units : Units)
    → (up t (Dict.set id o units) id ≡ none) ⊎ (up t (Dict.set id o units) id ≡ up t units id)
    → ((x : ℕ) → Rooted (up t units) x)
    → (x : ℕ) → Rooted (up t (Dict.set id o units)) x
set_row_less t id o units h forest x =
    let g = up t (Dict.set id o units) in
    Rooted-less (up t units) g
      (λ y. elim (Bool-cases (id == y)) [
        | inl at ↦ subst (λ z. (g z ≡ none) ⊎ (g z ≡ up t units z)) ((nat_eq.beq_iff id y).0 at) h
        | inr off ↦ inr (ground (arith, up-set t id o units y))
      ])
      x (forest x)

set_row-WellFormed :
    (id : ℕ) (o : OrgUnit) (units : Units)
    → id ≢ 0
    → o.id ≡ id
    → Safe id o units
    → WellFormed units
    → WellFormed (Dict.set id o units)
set_row-WellFormed id o units named same safe w = record {
  filed = Filed-set id o units same named w.filed;
  forest = λ t. elim (Bool-cases (o.tenant_id == t)) [
    | inr other ↦
        set_row_less t id o units (inl (ground (arith, up-set t id o units id))) (w.forest t)
    | inl own ↦
        let at = up-set t id o units id in
        let mine : o.tenant_id ≡ t = (nat_eq.beq_iff o.tenant_id t).0 own in
        elim safe [
          | inl root ↦ set_row_less t id o units (inl (ground (arith, at, ==_refl id))) (w.forest t)
          | inr (inl kept) ↦
              set_row_less t id o units
                (inr (ground (arith, at, ==_refl id, ap (λ i. up i units id) mine))) (w.forest t)
          | inr (inr (p, (e, off_p))) ↦
              Rooted-moved (up t units) id p (up t (Dict.set id o units))
                (ground (arith, at, ==_refl id)) (λ y off. ground (arith, up-set t id o units y))
                (w.forest t) (λ a. off_p (subst (λ i. Above (up i units) id p) (sym mine) a))
        ]
  ];
}

fresh_off :
    (tenant fresh : ℕ) (units : Units) (x : ℕ)
    → IsFresh fresh units
    → Above (up tenant units) fresh x
    → x ≡ fresh
fresh_off tenant fresh units x h here = refl
fresh_off tenant fresh units x h (step {p = p} e a) =
    absurd (h.no_parent tenant x (e ∙ ap some (fresh_off tenant fresh units p h a)))

pub create-WellFormed :
    (tenant fresh : ℕ) (dto : CreateDepartmentDto) (units : Units)
    → IsFresh fresh units
    → WellFormed units
    → WellFormed (create tenant fresh dto units).1
unfolding create
create-WellFormed tenant fresh dto units h w =
    let o : OrgUnit = record {
      id = fresh;
      tenant_id = tenant;
      name = dto.name;
      parent_id = dto.parent_id;
    } in
    let set_it : Safe fresh o units → WellFormed (Dict.set fresh o units) =
      λ safe. set_row-WellFormed fresh o units h.named refl safe w in
    elim (Option-cases dto.parent_id) [
      | inl root ↦ subst WellFormed (ground arith) (set_it (inl root))
      | inr (p, e) ↦ elim (Option-cases (find_by_id tenant p units)) [
        | inr (parent, found) ↦ subst WellFormed (ground arith) (
            set_it (
              inr (
                inr (
                  p,
                  (
                    e,
                    λ a.
                        let (row, own) = found_row tenant p units parent found in
                        ground (
                          arith,
                          h.unused,
                          ap (λ i. Dict.get i units) (fresh_off tenant fresh units p h a),
                        ),
                  ),
                ))))
        | inl missing ↦ elim (Bool-cases (truthy p)) [
          | inl named ↦ subst WellFormed (ground arith) w
          | inr empty ↦ subst WellFormed (ground arith) (
              set_it (
                inr
                  (inr (p, (e, λ a. ground (arith, h.named, fresh_off tenant fresh units p h a))))))
        ]
      ]
    ]

check_parent_cases :
    (tenant id p : ℕ) (units : Units) (o : OrgUnit)
    → WellFormed units
    → find_by_id tenant id units ≡ some o
    → ((e : Fault) × (check_parent tenant id p units ≡ err e))
      ⊎ ((check_parent tenant id p units ≡ ok tt) × (Above (up tenant units) id p → ⊥))
unfolding check_parent
check_parent_cases tenant id p units o w found = elim (Bool-cases (p == id)) [
  | inl self ↦ inl (bad_request, ground arith)
  | inr other ↦ elim (Option-cases (find_by_id tenant p units)) [
    | inl missing ↦ inl (not_found, ground arith)
    | inr (parent, there) ↦
        let (b, (e, iff)) =
          reaches_exact tenant id p units w.filed w.forest
            (found_named tenant id units o w.filed found) in
        elim (Bool-cases b) [
          | inl inside ↦ inl (bad_request, ground arith)
          | inr out ↦ inr (ground arith, λ a. ground (arith, iff.1 a))
        ]
  ]
]

-- In well-formed departments, to move one of a tenant's groups under another of its groups is
-- refused, with nothing changed, if the new parent lies in the subtree of the group itself, and done otherwise: the walk
-- gives an answer always.
pub update_move :
    (tenant id p : ℕ) (dto : UpdateDepartmentDto) (units : Units) (o parent : OrgUnit)
    → WellFormed units
    → find_by_id tenant id units ≡ some o
    → find_by_id tenant p units ≡ some parent
    → dto.parent_id ≡ some (some p)
    → (Above (up tenant units) id p → update tenant id dto units ≡ (err bad_request, units))
      × ((Above (up tenant units) id p → ⊥)
          → update tenant id dto units ≡ (ok (patched dto o), Dict.set id (patched dto o) units))
unfolding update update_row check_parent
update_move tenant id p dto units o parent w found there asks =
    let (b, (e, iff)) =
      reaches_exact tenant id p units w.filed w.forest
        (found_named tenant id units o w.filed found) in
    (
      λ a. ground (arith, iff.1 a),
      λ off. elim (Bool-cases b) [
        | inl inside ↦ absurd (off (iff.0 inside))
        | inr out ↦ elim (Bool-cases (p == id)) [
          | inl self ↦ absurd (
              off (
                subst (λ y. Above (up tenant units) id y) (sym ((nat_eq.beq_iff p id).0 self))
                  here))
          | inr other ↦ ground arith
        ]
      ],
    )

pub update-WellFormed :
    (tenant id : ℕ) (dto : UpdateDepartmentDto) (units : Units)
    → WellFormed units
    → WellFormed (update tenant id dto units).1
unfolding update update_row patched up
update-WellFormed tenant id dto units w = elim (Option-cases (find_by_id tenant id units)) [
  | inl missing ↦ subst WellFormed (ground arith) w
  | inr (o, found) ↦
      let (row, own) = found_row tenant id units o found in
      let o' = patched dto o in
      let set_it : Safe id o' units → WellFormed (Dict.set id o' units) = λ safe.
        set_row-WellFormed id o' units (found_named tenant id units o w.filed found)
          (Dict.All-get (λ entry. entry.1.id ≡ entry.0) id o units w.filed.keyed row) safe w in
      elim (Option-cases dto.parent_id) [
        | inl alone ↦
            subst WellFormed (ground arith)
              (set_it (inr (inl (ground (arith, found, ap (λ i. up i units id) own)))))
        | inr (parent, e) ↦ elim (Option-cases parent) [
          | inl root ↦ subst WellFormed (ground arith) (set_it (inl (ground arith)))
          | inr (p, e') ↦ elim (check_parent_cases tenant id p units o w found) [
            | inl (fault, refused) ↦ subst WellFormed (ground arith) w
            | inr (fine, off) ↦ subst WellFormed (ground arith) (
                set_it (
                  inr (
                    inr
                      (p, (ground arith, λ a. off (subst (λ i. Above (up i units) id p) own a))))))
          ]
        ]
      ]
]

-- The requests on departments, each with a fresh id where it makes one.
pub data Step (u : Units) : Units → Type 0 where
  creates :
      (tenant fresh : ℕ) (dto : CreateDepartmentDto)
      → IsFresh fresh u
      → Step u (create tenant fresh dto u).1
  updates : (tenant id : ℕ) (dto : UpdateDepartmentDto) → Step u (update tenant id dto u).1
  removes : (tenant id : ℕ) → Step u (remove tenant id u).1

pub data Run (u : Units) : Units → Type 0 where
  start : Run u u
  next : {v w : Units} → Run u v → Step v w → Run u w

Step-WellFormed : {u v : Units} → Step u v → WellFormed u → WellFormed v
Step-WellFormed {u} (creates tenant fresh dto h) w = create-WellFormed tenant fresh dto u h w
Step-WellFormed {u} (updates tenant id dto) w = update-WellFormed tenant id dto u w
Step-WellFormed {u} (removes tenant id) w = remove-WellFormed tenant id u w

-- No sequence of requests on departments makes a cycle: from well-formed departments, whatever
-- groups are created, moved, renamed and removed, by whatever tenants, from each unit of a tenant one comes, parent
-- by parent, to an end.
pub Run-WellFormed : {u v : Units} → WellFormed u → Run u v → WellFormed v
Run-WellFormed h start = h
Run-WellFormed h (next r s) = Step-WellFormed s (Run-WellFormed h r)
