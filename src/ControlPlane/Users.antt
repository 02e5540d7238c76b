-- ===== src/ControlPlane/Users.antt =====
-- services/control-plane/src/modules/users/users.ts, with InMemoryUserRepository and the quota check of
-- modules/billing/billing.ts. Roles are numbers.
use fleet_tracking_system.Common.{
  ℕ, List, [], ◌∷◌, Bool, ◌&&◌, not, true, false, Option, none, some, Text, text_eq, length, ◌==◌,
  nat_eq, if◌then◌else◌, map,
}
use fleet_tracking_system.Common.Dict
use fleet_tracking_system.Common.Dict.{Dict}
use fleet_tracking_system.ControlPlane.Http.{
  ok, err, Exec, ◌>>◌, pure, payment_required, not_found, conflict,
}
use fleet_tracking_system.ControlPlane.Billing.{PlanId, plan_limits, plan_for, would_exceed}
use fleet_tracking_system.ControlPlane.Auth.{User, find_by_email}

pub record Store : Type 0 where
  pub users : Dict ℕ User
  pub plan_of : ℕ → Option PlanId

-- A user without the password's hash and the second factor's secret.
pub record PublicUser : Type 0 where
  pub id : ℕ
  pub tenant_id : ℕ
  pub email : Text
  pub role : ℕ
  pub active : Bool
  pub mfa_enabled : Bool
  pub department_id : Option ℕ

unfoldable pub to_public : User → PublicUser
to_public u = record {
  id = u.id;
  tenant_id = u.tenant_id;
  email = u.email;
  role = u.role;
  active = u.active;
  mfa_enabled = u.mfa_enabled;
  department_id = u.department_id;
}

-- InMemoryUserRepository.list
unfoldable pub users_of : ℕ → Dict ℕ User → List User
users_of tenant [] = []
users_of tenant ((k, u) ∷ users) =
    let rest = users_of tenant users in if u.tenant_id == tenant then u ∷ rest else rest

unfoldable pub list_users : ℕ → Store → List PublicUser
list_users tenant s = map to_public (users_of tenant s.users)

unfoldable pub assert_email_free : Text → Exec Store (Unit {0})
assert_email_free email s = elim (find_by_email email s.users) [
  | none ↦ (ok tt, s)
  | some other ↦ (err conflict, s)
]

unfoldable pub assert_can_add_user : ℕ → Exec Store (Unit {0})
assert_can_add_user tenant s =
    if would_exceed (length (users_of tenant s.users))
      (plan_limits (plan_for (s.plan_of tenant))).users
    then (err payment_required, s)
    else (ok tt, s)

unfoldable pub new_user : ℕ → ℕ → Text → Text → ℕ → Option ℕ → User
new_user tenant fresh email hash role department = record {
  id = fresh;
  tenant_id = tenant;
  email = email;
  password_hash = hash;
  role = role;
  active = true;
  mfa_enabled = false;
  mfa_secret = none;
  department_id = department;
}

-- `fresh` is the generated id, and `hash` the hash of the password.
unfoldable pub create_user : ℕ → ℕ → Text → Text → ℕ → Option ℕ → Exec Store PublicUser
create_user tenant fresh email hash role department = do
  assert_email_free email
  assert_can_add_user tenant
  let user = new_user tenant fresh email hash role department
  (λ s. (ok tt, record s { users = Dict.set fresh user s.users }))
  pure (to_public user)

-- What is given of an update; a department that is given may be none.
pub record UpdateUserDto : Type 0 where
  pub role : Option ℕ
  pub active : Option Bool
  pub department_id : Option (Option ℕ)
  pub hash : Option Text

unfoldable pub given {ℓ} : {A : Type ℓ} → Option A → A → A
given none a = a
given (some b) a = b

unfoldable pub patched : UpdateUserDto → User → User
patched dto u = record u {
  role = given dto.role u.role;
  active = given dto.active u.active;
  department_id = given dto.department_id u.department_id;
  password_hash = given dto.hash u.password_hash;
}

unfoldable pub update_target : ℕ → ℕ → ℕ → UpdateUserDto → User → Exec Store PublicUser
update_target tenant id acting dto u s =
    let next = patched dto u in
    if not (u.tenant_id == tenant)
    then (err not_found, s)
    else if id == acting && not (given dto.active true)
    then (err conflict, s)
    else (ok (to_public next), record s { users = Dict.set id next s.users })

unfoldable pub update_of : ℕ → ℕ → ℕ → UpdateUserDto → Exec Store PublicUser
update_of tenant id acting dto s = elim (Dict.get id s.users) [
  | none ↦ (err not_found, s)
  | some u ↦ update_target tenant id acting dto u s
]
