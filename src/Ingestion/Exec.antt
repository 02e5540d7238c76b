-- ===== src/Ingestion/Exec.antt =====
-- Asynchronous methods of services/ingestion that change what they share and may throw: what was
-- done before a throw stays done. `World` is what a session touches besides its own fields: the
-- deduper's state, the records that the sink holds durably, the outcomes of the sink's coming
-- writes, the bytes sent to the device, whether the socket is closed, and the counters' increments.
-- Log lines and the latency histogram are left out.
use fleet_tracking_system.Common.{ℕ, List, [], ◌∷◌, ◌++◌, Bool, true, false, Text, if◌then◌else◌}
use fleet_tracking_system.Protocol.Fault.{Result, ok, err, sink_error}
use fleet_tracking_system.Ingestion.AvlMap.{NormalizedTelemetry}

pub data Transport : Type 0 where
  tcp udp : Transport

pub data FailReason : Type 0 where
  decode handler udp_decode : FailReason

-- One `inc` of a counter.
pub data Metric : Type 0 where
  rejected_imei duplicate_dropped : Metric
  packet : Transport → Metric
  records : Text → ℕ → Metric
  decode_failure : FailReason → Metric
  downlink_sent : Text → Metric

pub record World (S : Type 0) : Type 0 where
  pub seen : S
  pub durable : List NormalizedTelemetry
  pub sink_plan : List Bool
  pub sent : List (List ℕ)
  pub closed : Bool
  pub metrics : List Metric

abbrev pub Exec : Type 0 → Type 0 → Type 0
Exec W A = W → Result A × W

abbrev continue : {W A B : Type 0} → Result A → (A → Exec W B) → Exec W B
continue (ok a) f w = f a w
continue (err e) f w = (err e, w)

infixl 5 ◌>>=◌ ◌>>◌
abbrev pub ◌>>=◌ : {W A B : Type 0} → Exec W A → (A → Exec W B) → Exec W B
◌>>=◌ m f w = let (r, w') = m w in continue r f w'

abbrev pub ◌>>◌ : {W B : Type 0} → Exec W (Unit {0}) → Exec W B → Exec W B
m >> k = m >>= λ _. k

abbrev pub pure : {W A : Type 0} → A → Exec W A
pure a w = (ok a, w)

abbrev pub lift : {W A : Type 0} → Result A → Exec W A
lift r w = (r, w)

module _ {S : Type 0} where
  unfoldable pub count : Metric → Exec (World S) Unit
  count m w = (ok tt, record w { metrics = w.metrics ++ m ∷ [] })

  -- `if (!socket.destroyed) socket.write(buf)`
  unfoldable pub send : List ℕ → Exec (World S) Unit
  send buf w = (ok tt, (if w.closed then w else record w { sent = w.sent ++ buf ∷ [] }))

  unfoldable pub close : Exec (World S) Unit
  close w = (ok tt, record w { closed = true })

  unfoldable pub write_planned : List Bool → List NormalizedTelemetry → Exec (World S) Unit
  write_planned [] ts w = (ok tt, record w { durable = w.durable ++ ts })
  write_planned (true ∷ plan) ts w =
      (ok tt, record w { durable = w.durable ++ ts; sink_plan = plan })
  write_planned (false ∷ plan) ts w = (err sink_error, record w { sink_plan = plan })

  -- `sink.write`: nothing to do for no records; else the next outcome, success where none is given.
  unfoldable pub write : List NormalizedTelemetry → Exec (World S) Unit
  write [] w = (ok tt, w)
  write (t ∷ ts) w = write_planned w.sink_plan (t ∷ ts) w
