-- ===== src/ControlPlane/Auth.antt =====
-- services/control-plane/src/modules/auth/auth.service.ts: refresh tokens, login and the second factor,
-- with the repositories that they use (InMemoryUserRepository and InMemoryRefreshTokenRepository of
-- domain/in-memory.repository.ts). Identifiers are numbers, and so are times. The hash, the password
-- check, the second factor's codes, the signed tokens and the generated values are in `Env`.
pub mod Tokens
pub mod Rotation
use fleet_tracking_system.Common.{
  ℕ, zero, suc, ◌+◌, ◌-◌, ◌*◌, ◌/◌, ◌%◌, ◌≤◌, ◌<◌, List, [], ◌∷◌, ◌++◌, ◌≡◌, ◌≢◌, refl, sym, ap,
  ◌∙◌, arith, Bool, ◌&&◌, ◌||◌, not, true, false, Option, none, some, Text, text_eq, length, take,
  drop, ltb, leb, nat_beq, ◌==◌, nat_eq, if◌then◌else◌, Bool-cases, Option-cases, ◌⊎◌, inl, inr,
  All, map, length-append, length-take, length-drop, append-nil, append_assoc, take-append_le,
  drop-append_le, take-append_eq, drop-append_eq, drop_two, take-append-drop,
}
use fleet_tracking_system.Common.Dict
use fleet_tracking_system.Common.Dict.{Dict}
use fleet_tracking_system.ControlPlane.Http.{
  Result, ok, err, Exec, ◌>>=◌, ◌>>◌, pure, throw, bad_request, unauthorized,
}

pub record User : Type 0 where
  pub id : ℕ
  pub tenant_id : ℕ
  pub email : Text
  pub password_hash : Text
  pub role : ℕ
  pub active : Bool
  pub mfa_enabled : Bool
  pub mfa_secret : Option Text
  pub department_id : Option ℕ

pub record RefreshToken : Type 0 where
  pub id : ℕ
  pub user_id : ℕ
  pub token_hash : Text
  pub family_id : ℕ
  pub expires_at : ℕ
  pub used_at : Option ℕ
  pub revoked_at : Option ℕ
  pub created_at : ℕ

pub record Store : Type 0 where
  pub users : Dict ℕ User
  pub tokens : Dict ℕ RefreshToken

-- What the request's claims say.
pub record JwtPayload : Type 0 where
  pub sub : ℕ
  pub tenant_id : ℕ
  pub role : ℕ
  pub email : Text
  pub is_mfa : Bool

-- `fresh_token`, `fresh_id`, `fresh_family` and `fresh_secret` are what the generators give in this call.
pub record Env : Type 0 where
  pub now : ℕ
  pub refresh_days : ℕ
  pub fresh_token : Text
  pub fresh_id : ℕ
  pub fresh_family : ℕ
  pub fresh_secret : Text
  pub hash_token : Text → Text
  pub verify_password : Text → Text → Bool
  pub verify_totp : Text → Text → ℕ → Bool
  pub sign : JwtPayload → Text
  pub verify : Text → Option JwtPayload

-- InMemoryUserRepository
unfoldable pub find_by_email : Text → Dict ℕ User → Option User
find_by_email email [] = none
find_by_email email ((k, u) ∷ users) =
    let rest = find_by_email email users in if u.email == email then some u else rest

unfoldable pub update_user : ℕ → (User → User) → Exec Store (Unit {0})
update_user id patch s = elim (Dict.get id s.users) [
  | none ↦ (ok tt, s)
  | some u ↦ (ok tt, record s { users = Dict.set id (patch u) s.users })
]

-- InMemoryRefreshTokenRepository
unfoldable pub find_by_hash : Text → Dict ℕ RefreshToken → Option RefreshToken
find_by_hash hash [] = none
find_by_hash hash ((k, t) ∷ tokens) =
    let rest = find_by_hash hash tokens in if t.token_hash == hash then some t else rest

unfoldable pub with_used : ℕ → RefreshToken → RefreshToken
with_used used_at t = record t { used_at = some used_at }

unfoldable pub mark_used : ℕ → ℕ → Dict ℕ RefreshToken → Dict ℕ RefreshToken
mark_used id used_at tokens = elim (Dict.get id tokens) [
  | none ↦ tokens
  | some t ↦ Dict.set id (with_used used_at t) tokens
]

unfoldable pub revoked : ℕ → ℕ → RefreshToken → RefreshToken
revoked family revoked_at t = elim t.revoked_at [
  | none ↦ if t.family_id == family then record t { revoked_at = some revoked_at } else t
  | some at ↦ t
]

unfoldable pub revoke_family : ℕ → ℕ → Dict ℕ RefreshToken → Dict ℕ RefreshToken
revoke_family family revoked_at [] = []
revoke_family family revoked_at ((k, t) ∷ tokens) =
    (k, revoked family revoked_at t) ∷ revoke_family family revoked_at tokens

pub record TokenPair : Type 0 where
  pub access_token : Text
  pub refresh_token : Text

unfoldable pub claims : User → Bool → JwtPayload
claims user mfa = record {
  sub = user.id;
  tenant_id = user.tenant_id;
  role = user.role;
  email = user.email;
  is_mfa = mfa;
}

unfoldable pub fresh_record : Env → User → ℕ → RefreshToken
fresh_record env user family = record {
  id = env.fresh_id;
  user_id = user.id;
  token_hash = env.hash_token env.fresh_token;
  family_id = family;
  expires_at = env.now + env.refresh_days * 86400000;
  used_at = none;
  revoked_at = none;
  created_at = env.now;
}

unfoldable pub issue_tokens : Env → User → ℕ → Exec Store TokenPair
issue_tokens env user family s = (
  ok (record { access_token = env.sign (claims user false); refresh_token = env.fresh_token }),
  record s { tokens = Dict.set env.fresh_id (fresh_record env user family) s.tokens },
)

-- The account of a token that can still be exchanged: there, and active.
unfoldable pub active_user : ℕ → Store → Option User
active_user id s = elim (Dict.get id s.users) [
  | none ↦ none
  | some u ↦ if u.active then some u else none
]

unfoldable pub rotate : Env → RefreshToken → Exec Store TokenPair
rotate env t s = elim (active_user t.user_id s) [
  | none ↦ (err unauthorized, s)
  | some u ↦ issue_tokens env u t.family_id (record s { tokens = mark_used t.id env.now s.tokens })
]

unfoldable pub exchange : Env → RefreshToken → Exec Store TokenPair
exchange env t s = elim t.used_at [
  | some at ↦ (err unauthorized, record s { tokens = revoke_family t.family_id env.now s.tokens })
  | none ↦ elim t.revoked_at [
    | some at ↦ (err unauthorized, s)
    | none ↦
        let rotated = rotate env t s in
        if leb t.expires_at env.now then (err unauthorized, s) else rotated
  ]
]

unfoldable pub refresh : Env → Text → Exec Store TokenPair
refresh env token s = elim (find_by_hash (env.hash_token token) s.tokens) [
  | none ↦ (err unauthorized, s)
  | some t ↦ exchange env t s
]

unfoldable pub logout : Env → Text → Exec Store (Unit {0})
logout env token s = elim (find_by_hash (env.hash_token token) s.tokens) [
  | none ↦ (ok tt, s)
  | some t ↦ (ok tt, record s { tokens = revoke_family t.family_id env.now s.tokens })
]

pub data LoginResult : Type 0 where
  signed_in : TokenPair → LoginResult
  mfa_required : Text → LoginResult

unfoldable pub enter : Env → User → Exec Store LoginResult
enter env user =
    if user.mfa_enabled
    then pure (mfa_required (env.sign (claims user true)))
    else (do pair ← issue_tokens env user env.fresh_family; pure (signed_in pair))

unfoldable pub login : Env → Text → Text → Exec Store LoginResult
login env email password s = elim (find_by_email email s.users) [
  | none ↦ (err unauthorized, s)
  | some u ↦
      let entered = enter env u s in
      if not u.active || not (env.verify_password password u.password_hash)
      then (err unauthorized, s)
      else entered
]

-- Whether the account has a second factor whose code this is.
unfoldable pub code_holds : Env → Option Text → Text → Bool
code_holds env none code = false
code_holds env (some secret) code = env.verify_totp secret code env.now

unfoldable pub verify_mfa : Env → Text → Text → Exec Store TokenPair
verify_mfa env mfa_token code s = elim (env.verify mfa_token) [
  | none ↦ (err unauthorized, s)
  | some payload ↦ elim (Dict.get payload.sub s.users) [
    | none ↦ (err unauthorized, s)
    | some u ↦
        let issued = issue_tokens env u env.fresh_family s in
        if payload.is_mfa && (u.mfa_enabled && code_holds env u.mfa_secret code)
        then issued
        else (err unauthorized, s)
  ]
]

unfoldable pub must_find : ℕ → Exec Store User
must_find id s = elim (Dict.get id s.users) [ none ↦ (err unauthorized, s) | some u ↦ (ok u, s) ]

unfoldable pub setup_mfa : Env → ℕ → Exec Store Text
setup_mfa env id = do
  user ← must_find id
  update_user id (λ u. record u { mfa_secret = some env.fresh_secret; mfa_enabled = false })
  pure env.fresh_secret

unfoldable pub enable_mfa : Env → ℕ → Text → Exec Store (Unit {0})
enable_mfa env id code = do
  user ← must_find id
  if code_holds env user.mfa_secret code
      then update_user id (λ u. record u { mfa_enabled = true })
      else throw bad_request

unfoldable pub disable_mfa : Env → ℕ → Text → Exec Store (Unit {0})
disable_mfa env id code = do
  user ← must_find id
  if user.mfa_enabled && not (code_holds env user.mfa_secret code)
      then throw bad_request
      else update_user id (λ u. record u { mfa_enabled = false; mfa_secret = none })
