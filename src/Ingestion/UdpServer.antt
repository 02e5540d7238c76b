-- ===== src/Ingestion/UdpServer.antt =====
-- services/ingestion/src/udp-server.ts: one datagram, decoded, tested, written and acknowledged. The
-- acknowledgement goes to the sender's address.
pub mod Laws
use fleet_tracking_system.Common.{
  ℕ, zero, suc, ◌+◌, ◌-◌, ◌*◌, ◌/◌, ◌%◌, ◌≤◌, ◌<◌, List, [], ◌∷◌, ◌++◌, ◌≡◌, ◌≢◌, refl, sym, ap,
  ◌∙◌, arith, Bool, ◌&&◌, ◌||◌, not, true, false, Option, none, some, Text, length, take, drop, ltb,
  leb, nat_beq, ◌==◌, nat_eq, if◌then◌else◌, Bool-cases, Option-cases, ◌⊎◌, inl, inr, All, map,
  length-append, length-take, length-drop, append-nil, append_assoc, take-append_le, drop-append_le,
  take-append_eq, drop-append_eq, drop_two, take-append-drop,
}
use fleet_tracking_system.Protocol.Fault.{Result, ok, err, Fault}
use fleet_tracking_system.Protocol.Udp.{DecodedUdp, decode_udp_datagram, build_udp_ack}
use fleet_tracking_system.Ingestion.Dedupe.{Deduper}
use fleet_tracking_system.Ingestion.Exec.{
  World, Exec, ◌>>=◌, ◌>>◌, pure, lift, count, send, write, udp, rejected_imei, packet, records,
  decode_failure, udp_decode,
}
use fleet_tracking_system.Ingestion.Records.{fresh_records}

module _ (d : Deduper) (sha1_hex : Text → Text) (is_allowed : Text → Bool) where
  open d use {State as Seen}

  -- What stands inside the `try`, behind the test of the IMEI.
  unfoldable pub accept_datagram : DecodedUdp → Exec (World Seen) Unit
  accept_datagram dgram = do
    count (packet udp)
    fresh ← fresh_records d sha1_hex dgram.imei dgram.avl.records
    write fresh
    ack ← lift (build_udp_ack dgram.packet_id dgram.avl_packet_id dgram.avl.record_count)
    send ack
    count (records dgram.imei (length fresh))

  unfoldable pub try_message : List ℕ → Exec (World Seen) Unit
  try_message msg = do
    dgram ← lift (decode_udp_datagram msg)
    if not (is_allowed dgram.imei) then count rejected_imei else accept_datagram dgram

  unfoldable pub caught : Result (Unit {0}) × World Seen → World Seen
  caught (ok u, w) = w
  caught (err e, w) = record w { metrics = w.metrics ++ decode_failure udp_decode ∷ [] }

  -- The `catch` counts the error; nothing is thrown further.
  unfoldable pub on_message : List ℕ → World Seen → World Seen
  unfolding caught
  on_message msg w = caught (try_message msg w)
