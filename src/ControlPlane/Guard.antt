-- ===== src/ControlPlane/Guard.antt =====
-- services/control-plane/src/common/auth.ts: the guards before every route. What a token's signature
-- check gives is a parameter, `verify`. Roles and identifiers are numbers.
use fleet_tracking_system.Common.{
  ℕ, List, [], ◌∷◌, Bool, Option, none, some, Text, text_eq, take, drop, ◌==◌, nat_eq,
  if◌then◌else◌,
}
use fleet_tracking_system.Common.{contains}
use fleet_tracking_system.Common.Decimal.{codes}
use fleet_tracking_system.ControlPlane.Http.{Result, ok, err, unauthorized, forbidden}

pub record AuthUser : Type 0 where
  pub user_id : ℕ
  pub tenant_id : ℕ
  pub role : ℕ
  pub email : Text
  pub department_id : Option ℕ

-- `is_mfa` is the purpose `mfa`.
pub record JwtPayload : Type 0 where
  pub sub : ℕ
  pub tenant_id : ℕ
  pub role : ℕ
  pub email : Text
  pub department_id : Option ℕ
  pub is_mfa : Bool

unfoldable pub user_of : JwtPayload → AuthUser
user_of p = record {
  user_id = p.sub;
  tenant_id = p.tenant_id;
  role = p.role;
  email = p.email;
  department_id = p.department_id;
}

unfoldable pub bearer : (Text → Option JwtPayload) → Text → Result AuthUser
bearer verify token = elim (verify token) [
  | none ↦ err unauthorized
  | some p ↦ if p.is_mfa then err unauthorized else ok (user_of p)
]

unfoldable pub with_header : (Text → Option JwtPayload) → Option Text → Result AuthUser
with_header verify none = err unauthorized
with_header verify (some header) =
    if take 7 header == codes "Bearer " then bearer verify (drop 7 header) else err unauthorized

-- `JwtAuthGuard`: the user of the request, which a public route leaves as it is.
unfoldable pub jwt_guard :
    (Text → Option JwtPayload) → Bool → Option Text → Option AuthUser → Result (Option AuthUser)
jwt_guard verify is_public header user =
    if is_public
    then ok user
    else (elim (with_header verify header) [ err e ↦ err e | ok u ↦ ok (some u) ])

-- `RolesGuard`
unfoldable pub roles_guard : Option (List ℕ) → Option AuthUser → Result (Unit {0})
roles_guard none user = ok tt
roles_guard (some []) user = ok tt
roles_guard (some (r ∷ required)) none = err forbidden
roles_guard (some (r ∷ required)) (some user) =
    if contains user.role (r ∷ required) then ok tt else err forbidden
