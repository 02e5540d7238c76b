-- ===== src/ControlPlane/Auth/Rotation.antt =====
-- What `refresh` and `logout` of auth.service.ts make of a family of refresh tokens.
use fleet_tracking_system.Common.{
  ℕ, ◌<◌, [], ◌∷◌, ◌≡◌, ◌≢◌, refl, sym, arith, none, some, Text, text_eq, leb, nat_eq, Bool-cases,
  Option-cases, ◌⊎◌, inl, inr,
}
use mathlib.Core.Path.{subst}
use fleet_tracking_system.Common.Dict
use fleet_tracking_system.Common.Dict.{Dict}
use fleet_tracking_system.ControlPlane.Http.{ok, err, unauthorized}
use fleet_tracking_system.ControlPlane.Auth.Tokens.{
  Dead, Keyed, revoke_family-Dead, find-All, find-get, find-set, find-append, set-All,
  revoke_family_keeps, get-All,
}
use fleet_tracking_system.ControlPlane.Auth.{
  User, RefreshToken, Store, Env, TokenPair, find_by_hash, mark_used, with_used, revoke_family,
  fresh_record, issue_tokens, active_user, rotate, exchange, refresh, logout,
}

-- If a refresh token is presented that was exchanged before, the request is refused, and no token of
-- its family can be exchanged afterwards.
pub refresh_replay :
    (env : Env) (token : Text) (s : Store) (t : RefreshToken) (at : ℕ)
    → find_by_hash (env.hash_token token) s.tokens ≡ some t
    → t.used_at ≡ some at
    → ((refresh env token s).0 ≡ err unauthorized) × Dead t.family_id (refresh env token s).1.tokens
unfolding refresh exchange
refresh_replay env token s t at found used = (
  ground arith,
  subst (Dead t.family_id) (ground arith) (revoke_family-Dead t.family_id env.now s.tokens),
)

-- After signing out with a refresh token that the store has, no token of its family can be exchanged.
pub logout-Dead :
    (env : Env) (token : Text) (s : Store) (t : RefreshToken)
    → find_by_hash (env.hash_token token) s.tokens ≡ some t
    → ((logout env token s).0 ≡ ok tt) × Dead t.family_id (logout env token s).1.tokens
unfolding logout
logout-Dead env token s t found = (
  ground arith,
  subst (Dead t.family_id) (ground arith) (revoke_family-Dead t.family_id env.now s.tokens),
)

-- What a refresh that gives a pair has found, and what it leaves.
pub record Rotated (env : Env) (token : Text) (s : Store) : Type 0 where
  pub spent : RefreshToken
  pub user : User
  pub found : find_by_hash (env.hash_token token) s.tokens ≡ some spent
  pub unused : spent.used_at ≡ none
  pub live : spent.revoked_at ≡ none
  pub in_time : env.now < spent.expires_at
  pub is_active : active_user spent.user_id s ≡ some user
  pub left : (refresh env token s).1 ≡ record s {
    tokens =
        Dict.set env.fresh_id
          (fresh_record env user spent.family_id)
          (mark_used spent.id env.now s.tokens);
  }

-- A refresh changes nothing but, on a replay, to revoke the family; or it finds a token that is in the store, never
-- used, not revoked and in time, with an active user; then it marks that token used and adds a new token
-- of the same family.
pub refresh_outcome :
    (env : Env) (token : Text) (s : Store)
    → (((refresh env token s).0 ≡ err unauthorized)
        × (((refresh env token s).1 ≡ s)
            ⊎ ((family : ℕ) × ((refresh env token s).1
                  ≡ record s { tokens = revoke_family family env.now s.tokens }))))
      ⊎ Rotated env token s
unfolding refresh exchange rotate issue_tokens
refresh_outcome env token s = elim (Option-cases (find_by_hash (env.hash_token token) s.tokens)) [
  | inl unknown ↦ inl (ground arith, inl (ground arith))
  | inr (t, found) ↦ elim (Option-cases t.used_at) [
    | inr (at, used) ↦ inl (ground arith, inr (t.family_id, ground arith))
    | inl unused ↦ elim (Option-cases t.revoked_at) [
      | inr (at, dead) ↦ inl (ground arith, inl (ground arith))
      | inl live ↦ elim (Bool-cases (leb t.expires_at env.now)) [
        | inl late ↦ inl (ground arith, inl (ground arith))
        | inr soon ↦ elim (Option-cases (active_user t.user_id s)) [
          | inl gone ↦ inl (ground arith, inl (ground arith))
          | inr (u, there) ↦ inr (record {
            spent = t;
            user = u;
            found = found;
            unused = unused;
            live = live;
            in_time = ground arith;
            is_active = there;
            left = ground arith;
          })
        ]
      ]
    ]
  ]
]

mark_used-Dead :
    (f id at : ℕ) (tokens : Dict ℕ RefreshToken) → Dead f tokens → Dead f (mark_used id at tokens)
unfolding mark_used with_used
mark_used-Dead f id at tokens h = elim (Option-cases (Dict.get id tokens)) [
  | inl missing ↦ subst (Dead f) (ground arith) h
  | inr (t, there) ↦
      let dead = get-All (λ u. u.family_id ≡ f → u.revoked_at ≢ none) id tokens t h there in
      subst (Dead f) (ground arith) (
        set-All (λ u. u.family_id ≡ f → u.revoked_at ≢ none) id (with_used at t) tokens
          (λ e. dead e) h)
]

-- No refresh brings a family back of which no token can be exchanged: neither by the new
-- token that it adds nor by the one that it marks.
pub refresh-Dead :
    (f : ℕ) (env : Env) (token : Text) (s : Store)
    → Dead f s.tokens
    → Dead f (refresh env token s).1.tokens
unfolding fresh_record
refresh-Dead f env token s h = elim (refresh_outcome env token s) [
  | inl (_, inl same) ↦ subst (λ r. Dead f r.tokens) (sym same) h
  | inl (_, inr (family, same)) ↦
      subst (λ r. Dead f r.tokens) (sym same) (revoke_family_keeps f family env.now s.tokens h)
  | inr r ↦
      let dead =
        find-All (λ u. u.family_id ≡ f → u.revoked_at ≢ none) (env.hash_token token) s.tokens
          r.spent h r.found in
      subst (λ t. Dead f t.tokens) (sym r.left)
        (set-All (λ u. u.family_id ≡ f → u.revoked_at ≢ none) env.fresh_id
          (fresh_record env r.user r.spent.family_id) (mark_used r.spent.id env.now s.tokens)
          (λ e. absurd (dead e r.live)) (mark_used-Dead f r.spent.id env.now s.tokens h))
]

-- A refresh token can be exchanged once. If the store keeps each token under its own identifier
-- and the new identifier is not in it, then after a refresh that gave a pair, the same token
-- presented again, at any time, is refused, and no token of its family can be exchanged then, the
-- new one of that pair included.
pub refresh_twice :
    (env env' : Env) (token : Text) (s : Store) (pair : TokenPair)
    → env'.hash_token ≡ env.hash_token
    → Keyed s.tokens
    → Dict.get env.fresh_id s.tokens ≡ none
    → (refresh env token s).0 ≡ ok pair
    → let again = refresh env' token (refresh env token s).1 in
      (t : RefreshToken) × ((find_by_hash (env.hash_token token) s.tokens ≡ some t)
        × ((again.0 ≡ err unauthorized) × Dead t.family_id again.1.tokens))
unfolding mark_used with_used
refresh_twice env env' token s pair same keyed fresh h = elim (refresh_outcome env token s) [
  | inl (refused, _) ↦ absurd (ground arith)
  | inr r ↦
      let there = find-get (env.hash_token token) s.tokens r.spent keyed r.found in
      let marked = find-set (env.hash_token token) s.tokens r.spent env.now keyed r.found in
      let new = Dict.get-set r.spent.id env.fresh_id (with_used env.now r.spent) s.tokens in
      let added =
        Dict.set_new env.fresh_id (fresh_record env r.user r.spent.family_id)
          (Dict.set r.spent.id (with_used env.now r.spent) s.tokens) (ground (arith, new)) in
      let spent =
        find-append (env.hash_token token)
          (Dict.set r.spent.id (with_used env.now r.spent) s.tokens)
          ((env.fresh_id, fresh_record env r.user r.spent.family_id) ∷ [])
          (with_used env.now r.spent) marked in
      let left = r.left in
      (
        r.spent,
        (
          r.found,
          refresh_replay env' token (refresh env token s).1 (with_used env.now r.spent) env.now
              (ground (arith, added)) refl,
        ),
      )
]
