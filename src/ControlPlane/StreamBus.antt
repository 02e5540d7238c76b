-- ===== src/ControlPlane/StreamBus.antt =====
-- RedisStreamBus of services/control-plane/src/integrations/redis.ts: the loop that takes telemetry from the
-- stream of ingestion. The stream and its consumer group are Redis, the interface `StreamGroup`; the handler is
-- a parameter, that throws or returns. Ids of entries are numbers.
pub mod Once
use fleet_tracking_system.Common.{
  ℕ, zero, suc, ◌+◌, ◌-◌, ◌*◌, ◌/◌, ◌%◌, ◌≤◌, ◌<◌, List, [], ◌∷◌, ◌++◌, ◌≡◌, ◌≢◌, refl, sym, ap,
  ◌∙◌, arith, Bool, ◌&&◌, ◌||◌, not, true, false, Option, none, some, Text, text_eq, length, take,
  drop, ltb, leb, nat_beq, ◌==◌, nat_eq, if◌then◌else◌, Bool-cases, Option-cases, ◌⊎◌, inl, inr,
  All, map, length-append, length-take, length-drop, append-nil, append_assoc, take-append_le,
  drop-append_le, take-append_eq, drop-append_eq, drop_two, take-append-drop,
}
use fleet_tracking_system.Common.Dict
use fleet_tracking_system.Common.Dict.{Dict}
use fleet_tracking_system.Common.Decimal.{codes}

pub record Entry : Type 0 where
  pub id : ℕ
  pub fields : List Text

-- The ids of entries, each below the next ones, and all above a number.
abbrev pub Rising : ℕ → List ℕ → Type 0
Rising low [] = Unit
Rising low (id ∷ ids) = (low < id) × Rising id ids

abbrev pub ids_of : List Entry → List ℕ
ids_of [] = []
ids_of (e ∷ entries) = e.id ∷ ids_of entries

-- The last of the ids, or a number where there is none.
abbrev pub last_of : ℕ → List ℕ → ℕ
last_of low [] = low
last_of low (id ∷ ids) = last_of id ids

-- What XGROUP CREATE replies: the group is made, it was there (BUSYGROUP), or another error.
pub data GroupReply : Type 0 where
  made busy_group failed : GroupReply

-- A consumer group as Redis documents it: XREADGROUP with the id `>` gives entries that were never delivered to
-- the group, the next ones of the stream in their order, and moves the last delivered id to the last of
-- them; XACK and XADD leave the last delivered id as it is. XGROUP CREATE with `$` makes a group at the end
-- of the stream, and a group that is there stays.
pub record StreamGroup (S : Type 0) : Type 0 where
  pub create : S → GroupReply × S
  pub read_new : S → List Entry × S
  pub ack : List ℕ → S → S
  pub append : List Text → S → S
  pub last_delivered : S → ℕ
  pub read_rising : (s : S) → Rising (last_delivered s) (ids_of (read_new s).0)
  pub read_moves :
      (s : S) → last_delivered (read_new s).1 ≡ last_of (last_delivered s) (ids_of (read_new s).0)
  pub ack_keeps : (ids : List ℕ) (s : S) → last_delivered (ack ids s) ≡ last_delivered s
  pub create_keeps : (s : S) → last_delivered s ≤ last_delivered (create s).1
  pub append_keeps :
      (fields : List Text) (s : S) → last_delivered (append fields s) ≡ last_delivered s

-- A field that an entry has not is undefined.
pub record Message : Type 0 where
  pub imei : Option Text
  pub ts : Option Text
  pub payload : Option Text

unfoldable pub fields_to_object : List Text → Dict Text (Option Text) → Dict Text (Option Text)
fields_to_object [] o = o
fields_to_object (k ∷ []) o = Dict.set k none o
fields_to_object (k ∷ v ∷ fields) o = fields_to_object fields (Dict.set k (some v) o)

unfoldable pub field : Text → Dict Text (Option Text) → Option Text
field name o = elim (Dict.get name o) [ none ↦ none | some value ↦ value ]

unfoldable pub to_message : Entry → Message
to_message e =
    let obj = fields_to_object e.fields [] in
    record {
      imei = field (codes "imei") obj;
      ts = field (codes "ts") obj;
      payload = field (codes "data") obj;
    }

unfoldable pub to_batch : List Entry → List Message
to_batch [] = []
to_batch (e ∷ entries) = to_message e ∷ to_batch entries

-- The bus in its surroundings: the group, the handler's state, whether its loop is alive, the ids handed to the
-- handler and those acknowledged.
pub record Bus (S H : Type 0) : Type 0 where
  pub group : S
  pub world : H
  pub running : Bool
  pub looping : Bool
  pub handed : List ℕ
  pub acked : List ℕ

module _ {S H : Type 0} (redis : StreamGroup S) (handler : List Message → H → Bool × H) where
  -- A failed XGROUP is thrown to the caller.
  unfoldable pub start_with : GroupReply × S → Bus S H → Bus S H
  start_with (failed, group) b = record b { group = group }
  start_with (made, group) b = record b { group = group; running = true; looping = true }
  start_with (busy_group, group) b = record b { group = group; running = true; looping = true }

  unfoldable pub start : Bus S H → Bus S H
  start b = start_with (redis.create b.group) b

  unfoldable pub stop : Bus S H → Bus S H
  stop b = record b { running = false }

  -- A handler that throws ends the loop before XACK.
  unfoldable pub deliver : List Entry → S → Bus S H → Bus S H
  deliver entries group b =
      let ids = ids_of entries in
      let done = handler (to_batch entries) b.world in
      if done.0
      then record b {
        group = redis.ack ids group;
        world = done.1;
        handed = b.handed ++ ids;
        acked = b.acked ++ ids;
      }
      else record b { group = group; world = done.1; handed = b.handed ++ ids; looping = false }

  unfoldable pub read : List Entry × S → Bus S H → Bus S H
  read ([], group) b = record b { group = group }
  read (e ∷ entries, group) b = deliver (e ∷ entries) group b

  -- One round of the loop.
  unfoldable pub round : Bus S H → Bus S H
  round b =
      if b.looping
      then (if b.running then read (redis.read_new b.group) b else record b { looping = false })
      else b

  -- What happens to the bus: a start, a stop, a round of its loop, an entry that ingestion adds.
  pub data Step : Bus S H → Bus S H → Type 0 where
    starts : (b : Bus S H) → Step b (start b)
    stops : (b : Bus S H) → Step b (stop b)
    rounds : (b : Bus S H) → Step b (round b)
    adds :
        (fields : List Text) (b : Bus S H)
        → Step b (record b { group = redis.append fields b.group })

  pub data Run : Bus S H → Bus S H → Type 0 where
    stay : (b : Bus S H) → Run b b
    then_step : {b₁ b₂ b₃ : Bus S H} → Run b₁ b₂ → Step b₂ b₃ → Run b₁ b₃
