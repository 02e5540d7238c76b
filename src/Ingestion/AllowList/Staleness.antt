-- ===== src/Ingestion/AllowList/Staleness.antt =====
-- The cached answers of allowlist.ts are at most one term old.
use fleet_tracking_system.Common.{
  ℕ, ◌+◌, ◌≤◌, ◌<◌, [], ◌≡◌, refl, arith, Bool, some, Text, ltb, ◌==◌, nat_eq, Bool-cases,
  Option-cases, ◌⊎◌, inl, inr,
}
use fleet_tracking_system.Common.{text_eq, text_beq_iff}
use fleet_tracking_system.Common.Dict
use fleet_tracking_system.Common.Dict.{Dict, get-set}
use fleet_tracking_system.Ingestion.AllowList.{Cached, Cache, cached, redis_is_allowed}

-- `members t imei` is what Redis answers at the time `t`.
module _ (ttl : ℕ) (members : ℕ → Text → Bool) where
  -- What an answer at the time `t` rests on: what Redis held, less than a term ago or at `t`.
  pub record Backed (t : ℕ) (imei : Text) (allowed : Bool) : Type 0 where
    pub asked : ℕ
    pub past : asked ≤ t
    pub recent : t < asked + ttl ⊎ (asked ≡ t)
    pub answer : allowed ≡ members asked imei

  pub record EntryOk (t : ℕ) (imei : Text) (hit : Cached) : Type 0 where
    pub asked : ℕ
    pub past : asked ≤ t
    pub term : hit.exp ≡ asked + ttl
    pub answer : hit.allowed ≡ members asked imei

  -- Every entry of the cache was an answer of Redis, one term before it runs out.
  abbrev pub CacheOk : ℕ → Cache → Type 0
  CacheOk t cache =
      (imei : Text) (hit : Cached) → Dict.get imei cache ≡ some hit → EntryOk t imei hit

  -- The calls of a history: each at its time and for its IMEI, the latest last.
  pub data History : ℕ → Cache → Type 0 where
    start : (t : ℕ) → History t []
    call :
        {s : ℕ} {cache : Cache} (t : ℕ) (imei : Text)
        → History s cache
        → s ≤ t
        → History t (redis_is_allowed ttl t (members t imei) imei cache).1

  later : {s t : ℕ} (cache : Cache) → s ≤ t → CacheOk s cache → CacheOk t cache
  later cache l h imei hit e =
      let o = h imei hit e in
      record { asked = o.asked; past = ground (arith, o.past); term = o.term; answer = o.answer }

  call-CacheOk :
      (t : ℕ) (imei : Text) (cache : Cache)
      → CacheOk t cache
      → CacheOk t (redis_is_allowed ttl t (members t imei) imei cache).1
  unfolding redis_is_allowed
  call-CacheOk t imei cache h j hit e = elim (Option-cases (cached t (Dict.get imei cache))) [
    | inr (a, hit_) ↦ h j hit (ground (arith, e))
    | inl miss ↦ elim (Bool-cases (imei == j)) [
      | inl same ↦ record {
        asked = t;
        past = omega arith;
        term =
            ground
              (arith, e, get-set imei j (record { allowed = members t imei; exp = t + ttl }) cache);
        answer = ground (
          arith,
          e,
          get-set imei j (record { allowed = members t imei; exp = t + ttl }) cache,
          text_beq_iff imei j,
        );
      }
      | inr other ↦ h j hit (
          ground
            (arith, e, get-set imei j (record { allowed = members t imei; exp = t + ttl }) cache))
    ]
  ]

  History-CacheOk : {t : ℕ} {cache : Cache} → History t cache → CacheOk t cache
  History-CacheOk (start t) = λ imei hit e. absurd (unfold Dict.get in ground (arith, e))
  History-CacheOk (call {s} {cache} t imei r l) =
      call-CacheOk t imei cache (later cache l (History-CacheOk r))

  -- After any calls in the order of time, an answer is one that Redis gave for that IMEI less than a
  -- term ago, or gives now: a device that is provisioned or revoked is seen within the term.
  pub redis_is_allowed_recent :
      (s t : ℕ) (imei : Text) (cache : Cache)
      → History s cache
      → s ≤ t
      → Backed t imei (redis_is_allowed ttl t (members t imei) imei cache).0
  unfolding redis_is_allowed
  redis_is_allowed_recent s t imei cache r l = elim (Option-cases (Dict.get imei cache)) [
    | inl none_ ↦ record { asked = t; past = omega arith; recent = inr refl; answer = ground arith }
    | inr (hit, e) ↦
        let o = later cache l (History-CacheOk r) imei hit e in
        elim (Bool-cases (ltb t hit.exp)) [
          | inl live ↦ record {
            asked = o.asked;
            past = o.past;
            recent = inl (ground (arith, o.term));
            answer = ground (arith, o.answer);
          }
          | inr over ↦ record {
            asked = t;
            past = omega arith;
            recent = inr refl;
            answer = ground arith;
          }
        ]
  ]
