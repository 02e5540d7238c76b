-- ===== src/Ingestion/Dedupe/Memory.antt =====
-- `InMemoryDeduper` of dedupe.ts: its size stays within the limit, and it is a deduper as a session
-- needs one.
use fleet_tracking_system.Common.{
  List, All, Bool, ℕ, suc, ◌+◌, ◌*◌, ◌≤◌, ◌<◌, [], ◌∷◌, ◌++◌, ◌≡◌, refl, arith, true, false, none,
  some, Text, length, ltb, leb, ◌==◌, nat_eq, if◌then◌else◌, Bool-cases, Option-cases, inl, inr,
}
use fleet_tracking_system.Protocol.Fault.{Result, ok}
use fleet_tracking_system.Common.{text_eq, ==_refl}
use fleet_tracking_system.Common.Dict
use fleet_tracking_system.Common.Dict.{
  Dict, get-set, get-delete, get-append_none, set_new, length-set, delete-append_ne,
}
use fleet_tracking_system.Ingestion.Dedupe.{
  Deduper, MemoryConfig, Seen, evict_expired, drop_oldest, evict, is_live, check_and_set,
}

length-drop_oldest : (max : ℕ) (m : Seen) → length (drop_oldest max m) ≤ max
unfolding drop_oldest
length-drop_oldest max [] = omega arith
length-drop_oldest max (e ∷ m) = ground (arith, length-drop_oldest max m)

-- However many keys come in, no more than `maxEntries` are held.
pub check_and_set-bounded :
    (config : MemoryConfig) (t : ℕ) (key : Text) (seen : Seen)
    → length seen ≤ config.max_entries
    → length (check_and_set config t key seen).1 ≤ config.max_entries
unfolding check_and_set evict
check_and_set-bounded config t key seen h =
    let seen' = Dict.set key (t + config.ttl_ms) seen in
    ground (
      arith,
      length-drop_oldest config.max_entries (evict_expired config.max_entries t seen' seen'),
    )

-- The key `k` stands at the end of `m`, and nowhere else.
abbrev IsLast : Text → ℕ → Seen → Type 0
IsLast k v m = (front : Seen) × (m ≡ front ++ (k, v) ∷ []) × (Dict.get k front ≡ none)

IsLast-get : (k : Text) (v : ℕ) (m : Seen) → IsLast k v m → Dict.get k m ≡ some v
IsLast-get k v m (front, e, absent) = rw e (get-append_none k v front absent)

delete-IsLast :
    (j k : Text) (v : ℕ) (m : Seen) → (j == k) ≡ false → IsLast k v m → IsLast k v (Dict.delete j m)
delete-IsLast j k v m ne (front, e, absent) = (
  Dict.delete j front,
  rw e (delete-append_ne j k v front ne),
  rw (get-delete j k front) (ground arith),
)

drop_oldest-IsLast :
    (max : ℕ) (k : Text) (v : ℕ) (front : Seen)
    → 1 ≤ max
    → Dict.get k front ≡ none
    → IsLast k v (drop_oldest max (front ++ (k, v) ∷ []))
unfolding drop_oldest Dict.get
drop_oldest-IsLast max k v [] h absent = ([], ground arith, refl)
drop_oldest-IsLast max k v ((j, w) ∷ front) h absent =
    elim (Bool-cases (ltb max (suc (length (front ++ (k, v) ∷ []))))) [
      | inl over ↦
          let (f, e, a) = drop_oldest-IsLast max k v front h (ground arith) in (f, rw over e, a)
      | inr fits ↦ ((j, w) ∷ front, rw fits, absent)
    ]

-- Entries that have run out have other keys.
abbrev Spares : ℕ → Text → Seen → Type 0
Spares t k [] = Unit
Spares t k ((j, exp) ∷ m) = (exp ≤ t → (j == k) ≡ false) × Spares t k m

Spares-last :
    (t : ℕ) (k : Text) (v : ℕ) (front : Seen)
    → t < v
    → Dict.get k front ≡ none
    → Spares t k (front ++ (k, v) ∷ [])
unfolding Dict.get
Spares-last t k v [] h absent = ((λ l. absurd (omega arith)), tt)
Spares-last t k v ((j, w) ∷ front) h absent =
    ((λ l. ground arith), Spares-last t k v front h (ground arith))

evict_expired-IsLast :
    (max t : ℕ) (k : Text) (v : ℕ) (es m : Seen)
    → Spares t k es
    → IsLast k v m
    → IsLast k v (evict_expired max t es m)
unfolding evict_expired
evict_expired-IsLast max t k v [] m sp h = h
evict_expired-IsLast max t k v ((j, exp) ∷ es) m sp h = elim (Bool-cases (leb exp t)) [
  | inl over ↦
      let h' = delete-IsLast j k v m (sp.0 (ground arith)) h in
      rw over (choose max (Dict.delete j m) h' (evict_expired-IsLast max t k v es _ sp.1 h'))
  | inr live ↦ rw live (choose max m h (evict_expired-IsLast max t k v es m sp.1 h))
]
  where
    choose :
        (max : ℕ) (m' : Seen) {next : Seen}
        → IsLast k v m'
        → IsLast k v next
        → IsLast k v (if leb (10 * length m') (9 * max) then m' else next)
    choose max m' a b = elim (Bool-cases (leb (10 * length m') (9 * max))) [
      | inl e ↦ rw e a
      | inr e ↦ rw e b
    ]

evict-IsLast :
    (max t : ℕ) (k : Text) (v : ℕ) (seen : Seen)
    → 1 ≤ max
    → t < v
    → Dict.get k seen ≡ none
    → IsLast k v (evict max t (Dict.set k v seen))
unfolding evict
evict-IsLast max t k v seen hm hv absent =
    let e = set_new k v seen absent in
    let (front, e', a) =
      evict_expired-IsLast max t k v (Dict.set k v seen) (Dict.set k v seen)
        (rw e (Spares-last t k v seen hv absent)) (seen, e, absent) in
    rw e' (drop_oldest-IsLast max k v front hm a)

-- A key that was new is held afterwards, with the end of its term, whatever had to be evicted.
pub get-check_and_set :
    (config : MemoryConfig) (t : ℕ) (key : Text) (seen : Seen)
    → 1 ≤ config.max_entries
    → 0 < config.ttl_ms
    → length seen ≤ config.max_entries
    → (check_and_set config t key seen).0 ≡ true
    → Dict.get key (check_and_set config t key seen).1 ≡ some (t + config.ttl_ms)
unfolding check_and_set
get-check_and_set config t key seen hm ht hl h = elim (Bool-cases (is_live t (Dict.get key seen))) [
  | inl live ↦ absurd (ground arith)
  | inr dead ↦ elim (Option-cases (Dict.get key seen)) [
    | inl absent ↦ elim (Bool-cases (ltb config.max_entries (length seen'))) [
      | inl over ↦
          rw (dead, over)
            (IsLast-get key exp _
              (evict-IsLast config.max_entries t key exp seen hm (ground arith) absent))
      | inr fits ↦ rw (dead, fits, get-set, ==_refl key) refl
    ]
    | inr (w, there) ↦
        let fits : ltb config.max_entries (length seen') ≡ false =
          ground (arith, length-set key exp w seen there) in
        rw (dead, fits, get-set, ==_refl key) refl
  ]
]
  where
    exp : ℕ
    exp = t + config.ttl_ms

    seen' : Seen
    seen' = Dict.set key exp seen

returned_true : (b : Bool) → ◌≡◌ {A = Result Bool} (ok b) (ok true) → b ≡ true
returned_true b h = cc

-- Checks of keys, each at its time.
abbrev pub Checks : Type 0
Checks = List (ℕ × Text)

unfoldable pub check_all : MemoryConfig → Checks → Seen → Seen
check_all config [] seen = seen
check_all config ((t, key) ∷ checks) seen =
    check_all config checks (check_and_set config t key seen).1

known :
    (config : MemoryConfig) (later exp : ℕ) (key : Text) (seen : Seen)
    → later < exp
    → Dict.get key seen ≡ some exp
    → check_and_set config later key seen ≡ (false, seen)
unfolding check_and_set is_live
known config later exp key seen lt held = ground (arith, held)

-- A check that need not evict keeps a key that has not run out, and adds one entry at most.
other_check :
    (config : MemoryConfig) (t exp : ℕ) (other key : Text) (seen : Seen)
    → t < exp
    → Dict.get key seen ≡ some exp
    → suc (length seen) ≤ config.max_entries
    → (Dict.get key (check_and_set config t other seen).1 ≡ some exp)
      × (length (check_and_set config t other seen).1 ≤ suc (length seen))
unfolding check_and_set
other_check config t exp other key seen lt held room = elim (Bool-cases (other == key)) [
  | inl same ↦
      let it : other ≡ key = (text_eq.beq_iff other key).0 same in
      rw it (rw (known config t exp key seen lt held) (held, omega arith))
  | inr apart ↦
      let grows = Dict.length-set_le other (t + config.ttl_ms) seen in
      let fits : ltb config.max_entries (length (Dict.set other (t + config.ttl_ms) seen)) ≡ false =
        ground (arith, room, grows) in
      (
        ground (arith, get-set other key (t + config.ttl_ms) seen, fits, apart, held),
        ground (arith, fits, grows),
      )
]

-- The deduper at the time `t`, for a positive term and room for one key.
module _ (config : MemoryConfig) (t : ℕ) (room : 1 ≤ config.max_entries)
    (term : 0 < config.ttl_ms) where
  still_held :
      (exp : ℕ) (key : Text) (checks : Checks) (seen : Seen)
      → All (λ c. c.0 < exp) checks
      → Dict.get key seen ≡ some exp
      → length seen + length checks ≤ config.max_entries
      → Dict.get key (check_all config checks seen) ≡ some exp
  unfolding check_all
  still_held exp key [] seen before held fits = held
  still_held exp key ((at, other) ∷ checks) seen (lt, before) held fits =
      let (held', size) = other_check config at exp other key seen lt held (omega (arith, fits)) in
      still_held exp key checks (check_and_set config at other seen).1 before held'
        (omega (arith, fits, size))

  -- A key that was new is a duplicate at any later time before its term ends, whatever keys are checked in between
  -- before that end, as long as no more keys are checked than there is room for: then none is evicted.
  pub check_and_set_again :
      (later : ℕ) (key : Text) (seen : Seen) (checks : Checks)
      → later < t + config.ttl_ms
      → length seen ≤ config.max_entries
      → (check_and_set config t key seen).0 ≡ true
      → All (λ c. c.0 < t + config.ttl_ms) checks
      → length (check_and_set config t key seen).1 + length checks ≤ config.max_entries
      → let held = check_all config checks (check_and_set config t key seen).1 in
        check_and_set config later key held ≡ (false, held)
  check_and_set_again later key seen checks hl hv h before fits =
      let first = (check_and_set config t key seen).1 in
      known config later (t + config.ttl_ms) key (check_all config checks first) hl (
        still_held (t + config.ttl_ms) key checks first before
          (get-check_and_set config t key seen room term hv h) fits)

  abbrev pub memory_check : Text → Seen → Result Bool × Seen
  memory_check k s = (ok (check_and_set config t k s).0, (check_and_set config t k s).1)

  pub memory_again :
      (k : Text) (s : Seen)
      → length s ≤ config.max_entries
      → (memory_check k s).0 ≡ ok true
      → memory_check k (memory_check k s).1 ≡ (ok false, (memory_check k s).1)
  memory_again k s v h =
      let twice =
        known config t (t + config.ttl_ms) k (check_and_set config t k s).1 (omega (arith, term)) (
          get-check_and_set config t k s room term v
            (returned_true (check_and_set config t k s).0 h)) in
      rw twice refl

  -- The in-memory deduper never throws.
  abbrev pub memory_deduper : Deduper
  memory_deduper = record {
    State = Seen;
    check_and_set = memory_check;
    Valid = λ s. length s ≤ config.max_entries;
    check_and_set-Valid = check_and_set-bounded config t;
    again = memory_again;
  }
