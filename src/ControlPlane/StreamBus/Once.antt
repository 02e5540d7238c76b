-- ===== src/ControlPlane/StreamBus/Once.antt =====
-- How often an entry of the stream is handed to the handler.
use fleet_tracking_system.Common.{
  ℕ, ◌≤◌, List, [], ◌∷◌, ◌++◌, ◌≡◌, refl, arith, Bool, true, false, text_eq, nat_eq, if◌then◌else◌,
  Bool-cases, inl, inr,
}
use fleet_tracking_system.ControlPlane.StreamBus.{
  Entry, Rising, ids_of, last_of, StreamGroup, Message, to_batch, Bus, start, stop, start_with,
  start, stop, deliver, read, round, GroupReply, made, busy_group, failed, Step, starts, stops,
  rounds, adds, Run, stay, then_step,
}

Rising-append :
    (low mid : ℕ) (xs ys : List ℕ)
    → Rising low xs
    → last_of low xs ≤ mid
    → Rising mid ys
    → Rising low (xs ++ ys)
Rising-append low mid [] [] hx le hy = tt
Rising-append low mid [] (y ∷ ys) hx le (lt, hy) = (omega (arith, le, lt), hy)
Rising-append low mid (x ∷ xs) ys (lt, hx) le hy = (lt, Rising-append x mid xs ys hx le hy)

last_of-append : (low : ℕ) (xs ys : List ℕ) → last_of low (xs ++ ys) ≡ last_of (last_of low xs) ys
last_of-append low [] ys = refl
last_of-append low (x ∷ xs) ys = last_of-append x xs ys

last_of_le : (low : ℕ) (ys : List ℕ) → Rising low ys → low ≤ last_of low ys
last_of_le low [] h = omega arith
last_of_le low (y ∷ ys) (lt, h) = omega (arith, lt, last_of_le y ys h)

last_of_mono :
    (low high : ℕ) (ys : List ℕ) → low ≤ high → Rising high ys → last_of low ys ≤ last_of high ys
last_of_mono low high [] le h = le
last_of_mono low high (y ∷ ys) le h = omega arith

module _ {S H : Type 0} (redis : StreamGroup S) (handler : List Message → H → Bool × H) where
  -- Between two rounds: the ids handed so far rise, and are delivered.
  pub record Ordered (b : Bus S H) : Type 0 where
    pub rising : Rising 0 b.handed
    pub delivered : last_of 0 b.handed ≤ redis.last_delivered b.group

  module _ (b : Bus S H) (h : Ordered b) (entries : List Entry) (group : S)
      (rises : Rising (redis.last_delivered b.group) (ids_of entries))
      (moves : redis.last_delivered group
        ≡ last_of (redis.last_delivered b.group) (ids_of entries)) where
    deliver-Ordered : Ordered (deliver redis handler entries group b)
    unfolding deliver
    deliver-Ordered =
        let ids = ids_of entries in
        let rising =
          Rising-append 0 (redis.last_delivered b.group) b.handed ids h.rising h.delivered rises in
        let at : last_of 0 (b.handed ++ ids) ≤ redis.last_delivered group = omega (
          arith,
          last_of-append 0 b.handed ids,
          last_of_mono (last_of 0 b.handed) (redis.last_delivered b.group) ids h.delivered rises,
          moves,
        ) in
        elim (Bool-cases (handler (to_batch entries) b.world).0) [
          | inl fine ↦
              rw fine (record {
                rising = rising;
                delivered = omega (arith, at, redis.ack_keeps ids group);
              })
          | inr threw ↦ rw threw (record { rising = rising; delivered = at })
        ]

  if-Ordered : (c : Bool) (x y : Bus S H) → Ordered x → Ordered y → Ordered (if c then x else y)
  if-Ordered true x y hx hy = hx
  if-Ordered false x y hx hy = hy

  regroup-Ordered :
      (b : Bus S H)
      → Ordered b
      → (group : S) → redis.last_delivered b.group ≤ redis.last_delivered group
      → Ordered (record b { group = group })
  regroup-Ordered b h group le = record {
    rising = h.rising;
    delivered = omega (arith, le, h.delivered);
  }

  read-Ordered :
      (b : Bus S H)
      → Ordered b
      → (r : List Entry × S) → Rising (redis.last_delivered b.group) (ids_of r.0)
      → redis.last_delivered r.1 ≡ last_of (redis.last_delivered b.group) (ids_of r.0)
      → Ordered (read redis handler r b)
  unfolding read
  read-Ordered b h ([], group) rises moves = regroup-Ordered b h group (omega (arith, moves))
  read-Ordered b h (e ∷ entries, group) rises moves =
      deliver-Ordered b h (e ∷ entries) group rises moves

  round-Ordered : (b : Bus S H) → Ordered b → Ordered (round redis handler b)
  unfolding round
  round-Ordered b h =
      if-Ordered b.looping
        (if b.running
          then read redis handler (redis.read_new b.group) b
          else record b { looping = false })
        b
        (if-Ordered b.running (read redis handler (redis.read_new b.group) b)
          (record b { looping = false })
          (read-Ordered b h (redis.read_new b.group) (redis.read_rising b.group)
            (redis.read_moves b.group))
          (record { rising = h.rising; delivered = h.delivered }))
        h

  start_with-Ordered :
      (b : Bus S H)
      → Ordered b
      → (r : GroupReply × S) → redis.last_delivered b.group ≤ redis.last_delivered r.1
      → Ordered (start_with redis handler r b)
  unfolding start_with
  start_with-Ordered b h (failed, group) le = regroup-Ordered b h group le
  start_with-Ordered b h (made, group) le = record {
    rising = h.rising;
    delivered = omega (arith, le, h.delivered);
  }
  start_with-Ordered b h (busy_group, group) le = record {
    rising = h.rising;
    delivered = omega (arith, le, h.delivered);
  }

  Step-Ordered : {b b' : Bus S H} → Ordered b → Step redis handler b b' → Ordered b'
  unfolding start stop
  Step-Ordered h (starts b) =
      start_with-Ordered b h (redis.create b.group) (redis.create_keeps b.group)
  Step-Ordered h (stops b) = record { rising = h.rising; delivered = h.delivered }
  Step-Ordered h (rounds b) = round-Ordered b h
  Step-Ordered h (adds fields b) =
      regroup-Ordered b h (redis.append fields b.group)
        (omega (arith, redis.append_keeps fields b.group))

  Run-Ordered : {b b' : Bus S H} → Ordered b → Run redis handler b b' → Ordered b'
  Run-Ordered h (stay b) = h
  Run-Ordered h (then_step run step) = Step-Ordered (Run-Ordered h run) step

  -- A bus that has handed nothing to its handler hands, in any run of starts, stops, rounds of its loop and added
  -- entries, ids that strictly rise: no entry is handed twice, also when the handler threw on it and it
  -- was never acknowledged.
  pub handed_at_most_once :
      (b b' : Bus S H) → b.handed ≡ [] → Run redis handler b b' → Rising 0 b'.handed
  handed_at_most_once b b' fresh run =
      (Run-Ordered (record { rising = rw fresh tt; delivered = rw fresh (omega arith) }) run).rising
