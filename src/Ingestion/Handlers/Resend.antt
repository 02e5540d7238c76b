-- ===== src/Ingestion/Handlers/Resend.antt =====
-- A packet that is sent again after its write failed. `checkAndSet` enters the key of a record before
-- the write, and a failing write does not take it out again.
use fleet_tracking_system.Common.{
  ℕ, List, [], ◌∷◌, ◌++◌, ◌≡◌, arith, Bool, true, false, Text, nat_eq,
}
use fleet_tracking_system.Protocol.Fault.{ok, err, sink_error}
use fleet_tracking_system.Protocol.Codec8.{AvlRecord, DecodedAvl, decode_tcp_packet, build_tcp_ack}
use fleet_tracking_system.Ingestion.AvlMap.{NormalizedTelemetry, normalize}
use fleet_tracking_system.Ingestion.Dedupe.{Deduper, dedupe_key}
use fleet_tracking_system.Ingestion.Exec.{World, count, send, write, write_planned}
use fleet_tracking_system.Ingestion.Records.{fresh_records, check_and_set}
use fleet_tracking_system.Ingestion.Handlers.{handle_avl}

-- The device has connected again.
abbrev pub reconnect : {S : Type 0} → World S → World S
reconnect w = record w { closed = false }

module _ (d : Deduper) (sha1_hex : Text → Text) where
  open d use {State as Seen}

  -- A packet of one new record whose write fails is not acknowledged. When the device sends it again
  -- while the deduper still knows the key, it is acknowledged although the record was never written:
  -- the sink holds what it held before, and the device drops the record.
  pub handle_avl_resend_lost :
      (imei : Text) (frame : List ℕ) (w : World Seen) (pkt : DecodedAvl) (rec : AvlRecord)
      (t : NormalizedTelemetry) (ack : List ℕ) (plan : List Bool)
      → decode_tcp_packet frame ≡ ok pkt
      → pkt.records ≡ rec ∷ []
      → normalize imei rec ≡ ok t
      → build_tcp_ack pkt.record_count ≡ ok ack
      → d.Valid w.seen
      → (d.check_and_set (dedupe_key sha1_hex imei rec) w.seen).0 ≡ ok true
      → w.sink_plan ≡ false ∷ plan
      → let first = handle_avl d sha1_hex imei frame w in
        let second = handle_avl d sha1_hex imei frame (reconnect first.1) in
        (first.0 ≡ err sink_error)
        × (first.1.sent ≡ w.sent)
        × (second.0 ≡ ok tt)
        × (second.1.sent ≡ w.sent ++ ack ∷ [])
        × (second.1.durable ≡ w.durable)
  unfolding handle_avl fresh_records check_and_set write write_planned send count
  handle_avl_resend_lost imei frame w pkt rec t ack plan hd hr hn ha hv hnew hp =
      let again = d.again (dedupe_key sha1_hex imei rec) w.seen hv hnew in
      (
        ground arith,
        ground arith,
        ground (arith, again),
        ground (arith, again),
        ground (arith, again),
      )
