-- ===== src/Witnesses/Departments.antt =====
-- The theorems on departments at concrete values.
use fleet_tracking_system.Common.{ℕ, [], ◌∷◌, ◌≡◌, refl, arith, none, some, nat_eq}
use mathlib.Core.Path.{subst}
use fleet_tracking_system.Common.Dict
use fleet_tracking_system.ControlPlane.Http.{ok, err, bad_request}
use fleet_tracking_system.ControlPlane.Departments.{
  OrgUnit, Units, CreateDepartmentDto, UpdateDepartmentDto, owned, find_by_id, create, update,
  remove, patched,
}
use fleet_tracking_system.ControlPlane.Departments.Forest.{up, top, Above}
use fleet_tracking_system.ControlPlane.Departments.Requests.{WellFormed, IsFresh, remove_exact}
use fleet_tracking_system.ControlPlane.Departments.Moves.{
  create-WellFormed, update_move, creates, removes, start, next, Run-WellFormed,
}

no_units-WellFormed : WellFormed []
unfolding up find_by_id owned Dict.get
no_units-WellFormed = record {
  filed = record { distinct = tt; keyed = tt; not_empty = refl };
  forest = λ tenant x. top refl;
}

abbrev root_dto : CreateDepartmentDto
root_dto = record { name = 1; parent_id = none }

abbrev child_dto : CreateDepartmentDto
child_dto = record { name = 2; parent_id = some 5 }

abbrev root_unit : OrgUnit
root_unit = record { id = 5; tenant_id = 1; name = 1; parent_id = none }

abbrev child_unit : OrgUnit
child_unit = record { id = 6; tenant_id = 1; name = 2; parent_id = some 5 }

abbrev one_unit : Units
one_unit = (5, root_unit) ∷ []

abbrev two_units : Units
two_units = (5, root_unit) ∷ (6, child_unit) ∷ []

five_IsFresh : IsFresh 5 []
unfolding up find_by_id owned Dict.get
five_IsFresh = record {
  named = λ h. omega (arith, h);
  unused = refl;
  no_parent = λ tenant x h. ground arith;
}

six_IsFresh : IsFresh 6 one_unit
unfolding up find_by_id owned Dict.get
six_IsFresh = record {
  named = λ h. omega (arith, h);
  unused = refl;
  no_parent = λ tenant x h. ground arith;
}

one_made : (create 1 5 root_dto []).1 ≡ one_unit
unfolding create Dict.set
one_made = refl

two_made : (create 1 6 child_dto one_unit).1 ≡ two_units
unfolding create find_by_id owned Dict.get Dict.set
two_made = refl

one_unit-WellFormed : WellFormed one_unit
one_unit-WellFormed =
    subst WellFormed one_made (create-WellFormed 1 5 root_dto [] five_IsFresh no_units-WellFormed)

two_units-WellFormed : WellFormed two_units
two_units-WellFormed =
    subst WellFormed two_made
      (create-WellFormed 1 6 child_dto one_unit six_IsFresh one_unit-WellFormed)

root_found : find_by_id 1 5 two_units ≡ some root_unit
unfolding find_by_id owned Dict.get
root_found = refl

child_found : find_by_id 1 6 two_units ≡ some child_unit
unfolding find_by_id owned Dict.get
child_found = refl

remove_exact_example :
    ((remove 1 5 two_units).0 ≡ ok tt)
    × ((x : ℕ)
        → (Above (up 1 two_units) 5 x → Dict.get x (remove 1 5 two_units).1 ≡ none)
          × ((Above (up 1 two_units) 5 x → ⊥)
              → Dict.get x (remove 1 5 two_units).1 ≡ Dict.get x two_units))
remove_exact_example = remove_exact 1 5 two_units root_unit two_units-WellFormed root_found

abbrev move_dto : UpdateDepartmentDto
move_dto = record { name = none; parent_id = some (some 6) }

update_move_example :
    (Above (up 1 two_units) 5 6 → update 1 5 move_dto two_units ≡ (err bad_request, two_units))
    × ((Above (up 1 two_units) 5 6 → ⊥)
        → update 1 5 move_dto two_units
          ≡ (ok (patched move_dto root_unit), Dict.set 5 (patched move_dto root_unit) two_units))
update_move_example =
    update_move 1 5 6 move_dto two_units root_unit child_unit two_units-WellFormed root_found
      child_found refl

Run-WellFormed_example : WellFormed (remove 1 5 (create 1 5 root_dto []).1).1
Run-WellFormed_example =
    Run-WellFormed no_units-WellFormed
      (next (next start (creates 1 5 root_dto five_IsFresh)) (removes 1 5))
