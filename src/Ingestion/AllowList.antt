-- ===== src/Ingestion/AllowList.antt =====
-- services/ingestion/src/allowlist.ts: the static list, and the list in Redis behind a cache. The
-- answer of Redis at the time of the call is an argument.
pub mod Staleness
use fleet_tracking_system.Common.{
  ℕ, zero, suc, ◌+◌, ◌-◌, ◌*◌, ◌/◌, ◌%◌, ◌≤◌, ◌<◌, List, [], ◌∷◌, ◌++◌, ◌≡◌, ◌≢◌, refl, sym, ap,
  ◌∙◌, arith, Bool, ◌&&◌, ◌||◌, not, true, false, Option, none, some, Text, length, take, drop, ltb,
  leb, nat_beq, ◌==◌, nat_eq, if◌then◌else◌, Bool-cases, Option-cases, ◌⊎◌, inl, inr, All, map,
  length-append, length-take, length-drop, append-nil, append_assoc, take-append_le, drop-append_le,
  take-append_eq, drop-append_eq, drop_two, take-append-drop,
}
use fleet_tracking_system.Common.{text_eq, contains}
use fleet_tracking_system.Common.Dict
use fleet_tracking_system.Common.Dict.{Dict}

-- `StaticAllowList`: an empty list allows every device.
unfoldable pub static_is_allowed : List Text → Text → Bool
static_is_allowed set imei = length set == 0 || contains imei set

pub record Cached : Type 0 where
  pub allowed : Bool
  pub exp : ℕ

abbrev pub Cache : Type 0
Cache = Dict Text Cached

unfoldable pub cached : ℕ → Option Cached → Option Bool
cached t none = none
cached t (some hit) = if ltb t hit.exp then some hit.allowed else none

-- `RedisAllowList.isAllowed` at the time `t`; `member` is what SISMEMBER answers then.
unfoldable pub redis_is_allowed : ℕ → ℕ → Bool → Text → Cache → Bool × Cache
unfolding cached
redis_is_allowed ttl t member imei cache = elim (cached t (Dict.get imei cache)) [
  | some allowed ↦ (allowed, cache)
  | none ↦ (member, Dict.set imei (record { allowed = member; exp = t + ttl }) cache)
]
