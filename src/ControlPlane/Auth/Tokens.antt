-- ===== src/ControlPlane/Auth/Tokens.antt =====
-- The store of refresh tokens: what its look-ups and its changes preserve.
use fleet_tracking_system.Common.{
  ℕ, [], ◌∷◌, ◌++◌, ◌≡◌, ◌≢◌, arith, true, false, none, some, Text, text_eq, ◌==◌, nat_eq,
  if◌then◌else◌, Bool-cases, Option-cases, inl, inr, All,
}
use mathlib.Core.Path.{subst}
use fleet_tracking_system.Common.Dict
use fleet_tracking_system.Common.Dict.{Dict}
use fleet_tracking_system.ControlPlane.Auth.{
  RefreshToken, find_by_hash, with_used, revoked, revoke_family,
}

-- No token of the family is left that can be exchanged.
abbrev pub Dead : ℕ → Dict ℕ RefreshToken → Type 0
Dead family tokens = All (λ e. e.1.family_id ≡ family → e.1.revoked_at ≢ none) tokens

-- Each token stands under its identifier, once.
abbrev pub Keyed : Dict ℕ RefreshToken → Type 0
Keyed [] = Unit
Keyed ((k, t) ∷ tokens) = (t.id ≡ k) × ((Dict.get k tokens ≡ none) × Keyed tokens)

revoked-dead :
    (family at : ℕ) (t : RefreshToken)
    → (revoked family at t).family_id ≡ family
    → (revoked family at t).revoked_at ≢ none
unfolding revoked
revoked-dead family at t h e = elim (Option-cases t.revoked_at) [
  | inl none_yet ↦ ground arith
  | inr (b, was) ↦ ground arith
]

pub revoke_family-Dead :
    (family at : ℕ) (tokens : Dict ℕ RefreshToken) → Dead family (revoke_family family at tokens)
unfolding revoke_family
revoke_family-Dead family at [] = tt
revoke_family-Dead family at ((k, t) ∷ tokens) =
    (revoked-dead family at t, revoke_family-Dead family at tokens)

head_is :
    (k : ℕ) (u t : RefreshToken) (hash : Text) (tokens : Dict ℕ RefreshToken)
    → (u.token_hash == hash) ≡ true
    → find_by_hash hash ((k, u) ∷ tokens) ≡ some t
    → u ≡ t
unfolding find_by_hash
head_is k u t hash tokens eq e = ground arith

pub find-All :
    (P : RefreshToken → Type 0) (hash : Text) (tokens : Dict ℕ RefreshToken) (t : RefreshToken)
    → All (λ e. P e.1) tokens
    → find_by_hash hash tokens ≡ some t
    → P t
unfolding find_by_hash
find-All P hash [] t h e = absurd (ground arith)
find-All P hash ((k, u) ∷ tokens) t (hu, h) e = elim (Bool-cases (u.token_hash == hash)) [
  | inl eq ↦ subst P (head_is k u t hash tokens eq e) hu
  | inr ne ↦ find-All P hash tokens t h (ground arith)
]

pub find-get :
    (hash : Text) (tokens : Dict ℕ RefreshToken) (t : RefreshToken)
    → Keyed tokens
    → find_by_hash hash tokens ≡ some t
    → Dict.get t.id tokens ≡ some t
unfolding find_by_hash Dict.get
find-get hash [] t h e = ground arith
find-get hash ((k, u) ∷ tokens) t (hu, (hn, h)) e = elim (Bool-cases (u.token_hash == hash)) [
  | inl eq ↦ ground arith
  | inr ne ↦ let found = find-get hash tokens t h (ground arith) in ground arith
]

pub find-set :
    (hash : Text) (tokens : Dict ℕ RefreshToken) (t : RefreshToken) (at : ℕ)
    → Keyed tokens
    → find_by_hash hash tokens ≡ some t
    → find_by_hash hash (Dict.set t.id (with_used at t) tokens) ≡ some (with_used at t)
unfolding find_by_hash Dict.get Dict.set with_used
find-set hash [] t at h e = ground arith
find-set hash ((k, u) ∷ tokens) t at (hu, (hn, h)) e = elim (Bool-cases (u.token_hash == hash)) [
  | inl eq ↦ ground arith
  | inr ne ↦
      let found = find-get hash tokens t h (ground arith) in
      let rest = find-set hash tokens t at h (ground arith) in ground arith
]

pub find-append :
    (hash : Text) (tokens more : Dict ℕ RefreshToken) (t : RefreshToken)
    → find_by_hash hash tokens ≡ some t
    → find_by_hash hash (tokens ++ more) ≡ some t
unfolding find_by_hash
find-append hash [] more t e = ground arith
find-append hash ((k, u) ∷ tokens) more t e = ground (arith, find-append hash tokens more t)

pub set-All :
    (P : RefreshToken → Type 0) (k : ℕ) (t : RefreshToken) (tokens : Dict ℕ RefreshToken)
    → P t
    → All (λ e. P e.1) tokens
    → All (λ e. P e.1) (Dict.set k t tokens)
unfolding Dict.set
set-All P k t [] pt h = (pt, tt)
set-All P k t ((j, u) ∷ tokens) pt (pu, h) =
    elim (j == k)
      as (λ b. All (λ e. P e.1) (if b then (j, t) ∷ tokens else (j, u) ∷ Dict.set k t tokens)) [
        | true ↦ (pt, h)
        | false ↦ (pu, set-All P k t tokens pt h)
      ]

pub revoke_family_keeps :
    (f family at : ℕ) (tokens : Dict ℕ RefreshToken)
    → Dead f tokens
    → Dead f (revoke_family family at tokens)
unfolding revoke_family revoked
revoke_family_keeps f family at [] h = tt
revoke_family_keeps f family at ((k, t) ∷ tokens) (ht, h) = (
  elim (Option-cases t.revoked_at) [
    | inl live ↦ let dead = ht in ground arith
    | inr (b, was) ↦ let dead = ht in ground arith
  ],
  revoke_family_keeps f family at tokens h,
)

pub get-All :
    (P : RefreshToken → Type 0) (k : ℕ) (tokens : Dict ℕ RefreshToken) (t : RefreshToken)
    → All (λ e. P e.1) tokens
    → Dict.get k tokens ≡ some t
    → P t
unfolding Dict.get
get-All P k [] t h e = absurd (ground arith)
get-All P k ((j, u) ∷ tokens) t (pu, h) e = elim (Bool-cases (j == k)) [
  | inl eq ↦ subst P (ground arith) pu
  | inr ne ↦ get-All P k tokens t h (ground arith)
]
