-- ===== src/ControlPlane/Departments.antt =====
-- services/control-plane/src/modules/departments/departments.ts and InMemoryOrgUnitRepository of
-- domain/in-memory.repository.ts. Identifiers and names are numbers; the number zero stands for the empty text,
-- which JavaScript takes for false. The loops of `update` and of the repository's `remove` run
-- on fuel.
pub mod Forest
pub mod Ancestors
pub mod Walk
pub mod Children
pub mod Cascade
pub mod Requests
pub mod Moves
use fleet_tracking_system.Common.{
  ℕ, zero, suc, ◌+◌, ◌-◌, ◌*◌, ◌/◌, ◌%◌, ◌≤◌, ◌<◌, List, [], ◌∷◌, ◌++◌, ◌≡◌, ◌≢◌, refl, sym, ap,
  ◌∙◌, arith, Bool, ◌&&◌, ◌||◌, not, true, false, Option, none, some, Text, text_eq, length, take,
  drop, ltb, leb, nat_beq, ◌==◌, nat_eq, if◌then◌else◌, Bool-cases, Option-cases, ◌⊎◌, inl, inr,
  All, map, length-append, length-take, length-drop, append-nil, append_assoc, take-append_le,
  drop-append_le, take-append_eq, drop-append_eq, drop_two, take-append-drop,
}
use fleet_tracking_system.Common.Dict
use fleet_tracking_system.Common.Dict.{Dict}
use fleet_tracking_system.ControlPlane.Http.{
  Fault, Result, ok, err, Exec, bad_request, not_found, internal,
}

pub record OrgUnit : Type 0 where
  pub id : ℕ
  pub tenant_id : ℕ
  pub name : ℕ
  pub parent_id : Option ℕ

abbrev pub Units : Type 0
Units = Dict ℕ OrgUnit

pub record CreateDepartmentDto : Type 0 where
  pub name : ℕ
  pub parent_id : Option ℕ

-- `none` of `parent_id` leaves the parent alone, `some none` is `null`.
pub record UpdateDepartmentDto : Type 0 where
  pub name : Option ℕ
  pub parent_id : Option (Option ℕ)

abbrev pub truthy : ℕ → Bool
truthy id = not (id == 0)

unfoldable pub owned : ℕ → Option OrgUnit → Option OrgUnit
owned tenant none = none
owned tenant (some o) = if o.tenant_id == tenant then some o else none

unfoldable pub find_by_id : ℕ → ℕ → Units → Option OrgUnit
find_by_id tenant id units = owned tenant (Dict.get id units)

unfoldable pub list : ℕ → Units → List OrgUnit
list tenant [] = []
list tenant ((k, o) ∷ units) =
    let rest = list tenant units in if o.tenant_id == tenant then o ∷ rest else rest

unfoldable pub patched : UpdateDepartmentDto → OrgUnit → OrgUnit
patched patch o = record o {
  name = elim patch.name [ none ↦ o.name | some name ↦ name ];
  parent_id = elim patch.parent_id [ none ↦ o.parent_id | some parent ↦ parent ];
}

unfoldable pub update_row : ℕ → ℕ → UpdateDepartmentDto → Exec Units OrgUnit
update_row tenant id patch units = elim (find_by_id tenant id units) [
  | none ↦ (err not_found, units)
  | some o ↦ (ok (patched patch o), Dict.set id (patched patch o) units)
]

-- The ids of a unit's children, in the order of the map.
unfoldable pub children_of : ℕ → ℕ → Units → List ℕ
children_of tenant id [] = []
children_of tenant id ((k, child) ∷ units) =
    let rest = children_of tenant id units in
    if child.tenant_id == tenant && (elim child.parent_id [ none ↦ false | some p ↦ p == id ])
    then child.id ∷ rest
    else rest

-- The loop over `doomed`: the units before the index, and those from it on. `none` where the fuel runs out.
unfoldable pub doom : ℕ → ℕ → Units → List ℕ → List ℕ → Option (List ℕ)
doom zero tenant units done [] = some done
doom zero tenant units done (id ∷ ahead) = none
doom (suc n) tenant units done [] = some done
doom (suc n) tenant units done (id ∷ ahead) =
    doom n tenant units (done ++ id ∷ []) (ahead ++ children_of tenant id units)

unfoldable pub delete_all : List ℕ → Units → Units
delete_all [] units = units
delete_all (victim ∷ victims) units = delete_all victims (Dict.delete victim units)

-- The answer of the repository, and its units afterwards; `none` where the fuel runs out.
unfoldable pub remove_row : ℕ → ℕ → Units → Option (Bool × Units)
remove_row tenant id units = elim (find_by_id tenant id units) [
  | none ↦ some (false, units)
  | some o ↦ elim (doom (length units + 1) tenant units [] (id ∷ [])) [
    | none ↦ none
    | some doomed ↦ some (true, delete_all doomed units)
  ]
]

-- `parentOf`, from the map so far.
unfoldable pub parent_map : List OrgUnit → Dict ℕ (Option ℕ) → Dict ℕ (Option ℕ)
parent_map [] m = m
parent_map (o ∷ all) m = parent_map all (Dict.set o.id o.parent_id m)

-- The walk up from `hop`: whether it comes to `id`. `none` where the fuel runs out.
unfoldable pub climbs : ℕ → ℕ → Dict ℕ (Option ℕ) → ℕ → Option Bool
climbs zero id m hop = none
climbs (suc n) id m hop =
    let on : Option Bool = elim (Dict.get hop m) [
      | none ↦ some false
      | some parent ↦ elim parent [ none ↦ some false | some up ↦ climbs n id m up ]
    ] in
    if truthy hop then (if hop == id then some true else on) else some false

unfoldable pub reaches : ℕ → ℕ → ℕ → Units → Option Bool
reaches tenant id hop units =
    let all = list tenant units in climbs (length all + 1) id (parent_map all []) hop

unfoldable pub create : ℕ → ℕ → CreateDepartmentDto → Exec Units OrgUnit
create tenant fresh dto units =
    let o : OrgUnit = record {
      id = fresh;
      tenant_id = tenant;
      name = dto.name;
      parent_id = dto.parent_id;
    } in
    let done : Result OrgUnit × Units = (ok o, Dict.set fresh o units) in
    elim dto.parent_id [
      | none ↦ done
      | some p ↦ elim (find_by_id tenant p units) [
        | some parent ↦ done
        | none ↦ if truthy p then (err not_found, units) else done
      ]
    ]

-- The checks of `update` on a new parent; the walk has an answer where the units are a forest.
unfoldable pub check_parent : ℕ → ℕ → ℕ → Units → Result (Unit {0})
check_parent tenant id p units =
    if p == id then err bad_request else (elim (find_by_id tenant p units) [
      | none ↦ err not_found
      | some parent ↦ elim (reaches tenant id p units) [
        | none ↦ err internal
        | some inside ↦ if inside then err bad_request else ok tt
      ]
    ])

unfoldable pub update : ℕ → ℕ → UpdateDepartmentDto → Exec Units OrgUnit
update tenant id dto units = elim (find_by_id tenant id units) [
  | none ↦ (err not_found, units)
  | some current ↦ elim dto.parent_id [
    | none ↦ update_row tenant id dto units
    | some parent ↦ elim parent [
      | none ↦ update_row tenant id dto units
      | some p ↦ elim (check_parent tenant id p units) [
        | err e ↦ (err e, units)
        | ok done ↦ update_row tenant id dto units
      ]
    ]
  ]
]

unfoldable pub remove : ℕ → ℕ → Exec Units (Unit {0})
remove tenant id units = elim (remove_row tenant id units) [
  | none ↦ (err internal, units)
  | some answer ↦ ((if answer.0 then ok tt else err not_found), answer.1)
]
