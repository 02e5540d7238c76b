-- ===== src/Ingestion/UdpServer/Laws.antt =====
-- The order of `onMessage` in udp-server.ts: an acknowledgement follows the write.
use fleet_tracking_system.Common.{
  ℕ, ◌+◌, List, [], ◌∷◌, ◌++◌, ◌≡◌, arith, Bool, true, false, Text, length, nat_eq, Bool-cases, ◌⊎◌,
  inl, inr,
}
use mathlib.Core.Path.{subst}
use fleet_tracking_system.Protocol.Fault.{ok}
use fleet_tracking_system.Protocol.Udp.{DecodedUdp, decode_udp_datagram, build_udp_ack}
use fleet_tracking_system.Ingestion.AvlMap.{NormalizedTelemetry}
use fleet_tracking_system.Ingestion.Dedupe.{Deduper}
use fleet_tracking_system.Ingestion.Exec.{World, packet, udp, count, send, write}
use fleet_tracking_system.Ingestion.Records.{fresh_records}
use fleet_tracking_system.Ingestion.Records.Laws.{
  Result-cases, Kept, fresh_records-Untouched, fresh_records_accounted,
}
use fleet_tracking_system.Ingestion.Handlers.Acks.{write-Written}
use fleet_tracking_system.Ingestion.UdpServer.{accept_datagram, try_message, on_message}

module _ (d : Deduper) (sha1_hex : Text → Text) (is_allowed : Text → Bool) where
  open d use {State as Seen}

  -- A datagram that was acknowledged: from an allowed device, the records whose keys were new written, the others
  -- known to the deduper.
  pub record Acked (msg : List ℕ) (w w' : World Seen) : Type 0 where
    pub dgram : DecodedUdp
    pub decoded : decode_udp_datagram msg ≡ ok dgram
    pub allowed : is_allowed dgram.imei ≡ true
    pub fresh : List NormalizedTelemetry
    pub duplicates : ℕ
    pub all_records : length fresh + duplicates ≡ length (dgram.avl.records)
    pub kept : Kept d sha1_hex dgram.imei dgram.avl.records w.seen fresh w'.seen
    pub stored : w'.durable ≡ w.durable ++ fresh
    pub ack : List ℕ
    pub ack_built :
        build_udp_ack dgram.packet_id dgram.avl_packet_id dgram.avl.record_count ≡ ok ack
    pub ack_sent : w'.sent ≡ w.sent ++ ack ∷ []

  accepted :
      (msg : List ℕ) (w : World Seen) (dgram : DecodedUdp)
      → w.closed ≡ false
      → decode_udp_datagram msg ≡ ok dgram
      → is_allowed dgram.imei ≡ true
      → ((on_message d sha1_hex is_allowed msg w).sent ≡ w.sent)
        ⊎ Acked msg w (on_message d sha1_hex is_allowed msg w)
  unfolding on_message try_message accept_datagram count send
  accepted msg w dgram open_ ed ea =
      let w1 : World Seen = record w { metrics = w.metrics ++ packet udp ∷ [] } in
      let loop = fresh_records d sha1_hex dgram.imei dgram.avl.records w1 in
      let same = fresh_records-Untouched d sha1_hex dgram.imei dgram.avl.records w1 in
      elim (Result-cases loop.0) [
        | inr (e, ee) ↦ inl (ground (arith, same))
        | inl (fresh, ef) ↦
            let (k, em, el, kept) =
              fresh_records_accounted d sha1_hex dgram.imei dgram.avl.records w1 ef in
            let wr = write-Written fresh loop.1 in
            elim (Result-cases (write fresh loop.1).0) [
              | inr (e, ee) ↦ inl (ground (arith, same, wr.sent))
              | inl (u, eu) ↦
                  elim (Result-cases
                    (build_udp_ack dgram.packet_id dgram.avl_packet_id dgram.avl.record_count)) [
                      | inr (e, ee) ↦ inl (ground (arith, same, wr.sent))
                      | inl (ack, eack) ↦ inr (record {
                        dgram = dgram;
                        decoded = ed;
                        allowed = ea;
                        fresh = fresh;
                        duplicates = k;
                        all_records = el;
                        kept =
                            subst (Kept d sha1_hex dgram.imei dgram.avl.records w.seen fresh)
                              (ground (arith, wr.seen)) kept;
                        stored = ground (arith, same, wr.on_ok eu);
                        ack = ack;
                        ack_built = eack;
                        ack_sent = ground (arith, same, wr.sent, wr.closed);
                      })
                    ]
            ]
      ]

  -- Over an open socket a message either sends nothing, or is a datagram of an allowed device that is
  -- acknowledged once, with each of its records whose key the deduper took for new written durably, and
  -- each other one known to the deduper when its turn came.
  pub on_message_outcome :
      (msg : List ℕ) (w : World Seen)
      → w.closed ≡ false
      → ((on_message d sha1_hex is_allowed msg w).sent ≡ w.sent)
        ⊎ Acked msg w (on_message d sha1_hex is_allowed msg w)
  unfolding on_message try_message count
  on_message_outcome msg w open_ = elim (Result-cases (decode_udp_datagram msg)) [
    | inr (e, ee) ↦ inl (ground arith)
    | inl (dgram, ed) ↦ elim (Bool-cases (is_allowed dgram.imei)) [
      | inl ea ↦ accepted msg w dgram open_ ed ea
      | inr ea ↦ inl (ground arith)
    ]
  ]
