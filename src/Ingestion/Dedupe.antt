-- ===== src/Ingestion/Dedupe.antt =====
-- services/ingestion/src/dedupe.ts: the key of a record, and the deduper that keeps keys in memory.
-- `sha1_hex`, the digest of node:crypto, is a parameter: the characters of its hexadecimal form.
-- Numbers are printed as JavaScript prints them: a coordinate of v units of 1e-7 degree has at most
-- ten digits, so its shortest form is v / 1e7 with the zeros at the end dropped.
pub mod Key
pub mod Memory
use fleet_tracking_system.Common.{
  ℕ, zero, suc, ◌+◌, ◌-◌, ◌*◌, ◌/◌, ◌%◌, ◌≤◌, ◌<◌, List, [], ◌∷◌, ◌++◌, ◌≡◌, ◌≢◌, refl, sym, ap,
  ◌∙◌, arith, Bool, ◌&&◌, ◌||◌, not, true, false, Option, none, some, Text, length, take, drop, ltb,
  leb, nat_beq, ◌==◌, nat_eq, if◌then◌else◌, Bool-cases, Option-cases, ◌⊎◌, inl, inr, All, map,
  length-append, length-take, length-drop, append-nil, append_assoc, take-append_le, drop-append_le,
  take-append_eq, drop-append_eq, drop_two, take-append-drop,
}
use fleet_tracking_system.Common.{◌^◌, text_eq}
use fleet_tracking_system.Common.Int.{ℤ, pos, negsuc}
use fleet_tracking_system.Common.Dict
use fleet_tracking_system.Common.Decimal.{decimal}
use fleet_tracking_system.Common.Dict.{Dict}
use fleet_tracking_system.Protocol.Fault.{Result, ok, err}
use fleet_tracking_system.Protocol.Codec8.{Values, AvlRecord}

-- `n` digits of `v` over ten millions, with the zeros at the end dropped.
unfoldable pub fraction : ℕ → ℕ → Text
fraction zero v = []
fraction (suc n) v =
    let rest = fraction n (v * 10 % 10000000) in
    if v == 0 then [] else (48 + v * 10 / 10000000) ∷ rest

unfoldable pub degrees : ℕ → Text
unfolding decimal fraction
degrees v =
    if ltb 0 v && ltb v 10
    then decimal v ++ (b'e' ∷ b'-' ∷ b'7' ∷ [])
    else if v % 10000000 == 0
    then decimal (v / 10000000)
    else decimal (v / 10000000) ++ (b'.' ∷ fraction 7 (v % 10000000))

unfoldable pub coordinate_text : ℤ → Text
unfolding degrees
coordinate_text (pos v) = degrees v
coordinate_text (negsuc v) = b'-' ∷ degrees (suc v)

-- `String(rec.timestamp.getTime())`, `NaN` for an invalid date.
unfoldable pub time_text : Option ℕ → Text
unfolding decimal
time_text none = b'N' ∷ b'a' ∷ b'N' ∷ []
time_text (some ms) = decimal ms

unfoldable pub text_ltb : Text → Text → Bool
text_ltb [] [] = false
text_ltb [] (d ∷ t) = true
text_ltb (c ∷ s) [] = false
text_ltb (c ∷ s) (d ∷ t) = let rest = text_ltb s t in if c == d then rest else ltb c d

-- What `sort` compares of an entry: the texts of its key and its value, joined by a comma.
unfoldable pub entry_text : ℕ → ℕ × ℕ → Text
unfolding decimal
entry_text separator (k, v) = decimal k ++ (separator ∷ decimal v)

unfoldable pub insert_entry : ℕ × ℕ → Values ℕ → Values ℕ
unfolding text_ltb entry_text
insert_entry e [] = e ∷ []
insert_entry e (x ∷ xs) =
    let later = insert_entry e xs in
    if text_ltb (entry_text b',' e) (entry_text b',' x) then e ∷ x ∷ xs else x ∷ later

unfoldable pub sort_entries : Values ℕ → Values ℕ
unfolding insert_entry
sort_entries [] = []
sort_entries (x ∷ xs) = insert_entry x (sort_entries xs)

unfoldable pub entries_text : Values ℕ → Text
unfolding entry_text
entries_text [] = []
entries_text (e ∷ es) = entry_text b'=' e ++ entries_text es

-- What the `update` calls feed to the digest, one after the other.
unfoldable pub hash_input : Text → AvlRecord → Text
unfolding time_text decimal coordinate_text entries_text sort_entries
hash_input imei rec =
    imei
    ++ (time_text rec.timestamp
        ++ (decimal rec.priority
            ++ (coordinate_text rec.gps.latitude
                ++ (b','
                    ∷ (coordinate_text rec.gps.longitude
                        ++ (b','
                            ∷ (decimal rec.gps.speed
                                ++ (b','
                                    ∷ (decimal rec.gps.angle
                                        ++ (decimal rec.io.event_id
                                            ++ entries_text (sort_entries rec.io.values)))))))))))

unfoldable pub dedupe_key : (Text → Text) → Text → AvlRecord → Text
dedupe_key sha1_hex imei rec =
    imei ++ (b':' ∷ (time_text rec.timestamp ++ (b':' ∷ take 16 (sha1_hex (hash_input imei rec)))))

-- What a session needs of a deduper: its state, the test that also enters a key and may throw, as one that
-- asks Redis does, and an invariant under which a key that was new is known when it is tested again
-- at the same instant.
pub record Deduper : Type 1 where
  pub State : Type 0
  pub check_and_set : Text → State → Result Bool × State
  pub Valid : State → Type 0
  pub check_and_set-Valid : (k : Text) (s : State) → Valid s → Valid (check_and_set k s).1
  pub again :
      (k : Text) (s : State)
      → Valid s
      → (check_and_set k s).0 ≡ ok true
      → check_and_set k (check_and_set k s).1 ≡ (ok false, (check_and_set k s).1)

-- `res !== null` of an answer of Redis, which may be an error.
unfoldable pub created : Result (Option Text) → Result Bool
created (err e) = err e
created (ok none) = ok false
created (ok (some reply)) = ok true

-- `RedisDeduper.checkAndSet`, over what Redis does at SET key 1 NX EX term.
unfoldable pub redis_check_and_set :
    {S : Type 0} → (Text → ℕ → S → Result (Option Text) × S) → ℕ → Text → Text → S → Result Bool × S
redis_check_and_set set_nx ttl_seconds prefix key s =
    let (res, s') = set_nx (prefix ++ key) ttl_seconds s in (created res, s')

pub record MemoryConfig : Type 0 where
  pub ttl_ms : ℕ
  pub max_entries : ℕ

-- `InMemoryDeduper.seen`: the keys with the time at which each runs out.
abbrev pub Seen : Type 0
Seen = Dict Text ℕ

-- The first loop of `evict`, over the entries as they stood; `size <= 0.9 * max` ends it.
unfoldable pub evict_expired : ℕ → ℕ → Seen → Seen → Seen
evict_expired max t [] seen = seen
evict_expired max t ((k, exp) ∷ rest) seen =
    let seen' = if leb exp t then Dict.delete k seen else seen in
    let next = evict_expired max t rest seen' in
    if leb (10 * length seen') (9 * max) then seen' else next

-- The second loop: the oldest go until the size fits.
unfoldable pub drop_oldest : ℕ → Seen → Seen
drop_oldest max [] = []
drop_oldest max (e ∷ seen) =
    let next = drop_oldest max seen in if ltb max (length (e ∷ seen)) then next else e ∷ seen

unfoldable pub evict : ℕ → ℕ → Seen → Seen
evict max t seen = drop_oldest max (evict_expired max t seen seen)

unfoldable pub is_live : ℕ → Option ℕ → Bool
is_live t none = false
is_live t (some exp) = ltb t exp

unfoldable pub check_and_set : MemoryConfig → ℕ → Text → Seen → Bool × Seen
check_and_set config t key seen =
    if is_live t (Dict.get key seen)
    then (false, seen)
    else (let seen' = Dict.set key (t + config.ttl_ms) seen in
        (
          true,
          (if ltb config.max_entries (length seen')
              then evict config.max_entries t seen'
              else seen'),
        ))
