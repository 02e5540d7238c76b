-- ===== src/Ingestion/Handlers/Acks.antt =====
-- The order of `handleAvl` in session.ts: decode, deduplicate, write, acknowledge.
use fleet_tracking_system.Common.{
  ℕ, ◌+◌, List, [], ◌∷◌, ◌++◌, ◌≡◌, refl, sym, arith, Bool, true, false, Text, length, nat_eq,
  if◌then◌else◌, ◌⊎◌, inl, inr, append-nil,
}
use mathlib.Core.Path.{subst}
use fleet_tracking_system.Protocol.Fault.{ok, err, Fault}
use fleet_tracking_system.Protocol.Codec8.{DecodedAvl, decode_tcp_packet, build_tcp_ack}
use fleet_tracking_system.Ingestion.AvlMap.{NormalizedTelemetry}
use fleet_tracking_system.Ingestion.Dedupe.{Deduper}
use fleet_tracking_system.Ingestion.Exec.{World, packet, tcp, count, send, write, write_planned}
use fleet_tracking_system.Ingestion.Records.{fresh_records}
use fleet_tracking_system.Ingestion.Records.Laws.{
  Result-cases, Kept, fresh_records-Untouched, fresh_records_accounted,
}
use fleet_tracking_system.Ingestion.Handlers.{handle_avl}

-- What a write does to the sink: all of the records, or none.
pub record Written {S : Type 0} (ts : List NormalizedTelemetry) (w : World S) : Type 0 where
  pub on_ok : (write ts w).0 ≡ ok tt → (write ts w).1.durable ≡ w.durable ++ ts
  pub on_err : {e : Fault} → (write ts w).0 ≡ err e → (write ts w).1.durable ≡ w.durable
  pub sent : (write ts w).1.sent ≡ w.sent
  pub closed : (write ts w).1.closed ≡ w.closed
  pub seen : (write ts w).1.seen ≡ w.seen

planned-cases :
    (plan : List Bool) → (plan ≡ []) ⊎ ((b : Bool) × (rest : List Bool) × (plan ≡ b ∷ rest))
planned-cases [] = inl refl
planned-cases (b ∷ rest) = inr (b, rest, refl)

pub write-Written : {S : Type 0} (ts : List NormalizedTelemetry) (w : World S) → Written ts w
unfolding write write_planned
write-Written [] w = record {
  on_ok = λ h. sym (append-nil w.durable);
  on_err = λ h. cc;
  sent = refl;
  closed = refl;
  seen = refl;
}
write-Written (t ∷ ts) w = elim (planned-cases w.sink_plan) [
  | inl e ↦ record {
    on_ok = λ h. ground arith;
    on_err = λ h. ground arith;
    sent = ground arith;
    closed = ground arith;
    seen = ground arith;
  }
  | inr (true, rest, e) ↦ record {
    on_ok = λ h. ground arith;
    on_err = λ h. ground arith;
    sent = ground arith;
    closed = ground arith;
    seen = ground arith;
  }
  | inr (false, rest, e) ↦ record {
    on_ok = λ h. ground arith;
    on_err = λ h. ground arith;
    sent = ground arith;
    closed = ground arith;
    seen = ground arith;
  }
]

module _ (d : Deduper) (sha1_hex : Text → Text) where
  open d use {State as Seen}

  -- An accepted packet: its records were decoded, those whose keys were new to the deduper were written, those left
  -- out had keys that it knew, and the acknowledgement of all of them was sent to a socket that is open.
  pub record Acked (imei : Text) (frame : List ℕ) (w w' : World Seen) : Type 0 where
    pub packet : DecodedAvl
    pub decoded : decode_tcp_packet frame ≡ ok packet
    pub fresh : List NormalizedTelemetry
    pub duplicates : ℕ
    pub all_records : length fresh + duplicates ≡ length (packet.records)
    pub kept : Kept d sha1_hex imei packet.records w.seen fresh w'.seen
    pub stored : w'.durable ≡ w.durable ++ fresh
    pub ack : List ℕ
    pub ack_built : build_tcp_ack packet.record_count ≡ ok ack
    pub ack_sent : w'.sent ≡ (if w.closed then w.sent else w.sent ++ ack ∷ [])

  -- If `handleAvl` returns, the packet was decoded, each of its records whose key the deduper took for new was
  -- written durably, normalized, each other one had a key that the deduper knew when its turn came, and
  -- one acknowledgement, of all its records, was sent if the socket was open. If it throws, at any step,
  -- nothing was sent.
  pub handle_avl_outcome :
      (imei : Text) (frame : List ℕ) (w : World Seen)
      → ((handle_avl d sha1_hex imei frame w).0 ≡ ok tt
          → Acked imei frame w (handle_avl d sha1_hex imei frame w).1)
        × ((e : Fault)
            → (handle_avl d sha1_hex imei frame w).0 ≡ err e
            → (handle_avl d sha1_hex imei frame w).1.sent ≡ w.sent)
  unfolding handle_avl count send
  handle_avl_outcome imei frame w = elim (Result-cases (decode_tcp_packet frame)) [
    | inr (e, ee) ↦ (λ h. absurd (ground arith), λ e' h. ground arith)
    | inl (pkt, ep) ↦
        let w1 : World Seen = record w { metrics = w.metrics ++ packet tcp ∷ [] } in
        let loop = fresh_records d sha1_hex imei pkt.records w1 in
        let same = fresh_records-Untouched d sha1_hex imei pkt.records w1 in
        elim (Result-cases loop.0) [
          | inr (e, ee) ↦ (λ h. absurd (ground arith), λ e' h. ground (arith, same))
          | inl (fresh, ef) ↦
              let (k, em, el, kept) = fresh_records_accounted d sha1_hex imei pkt.records w1 ef in
              let wr = write-Written fresh loop.1 in
              elim (Result-cases (write fresh loop.1).0) [
                | inr (e, ee) ↦ (λ h. absurd (ground arith), λ e' h. ground (arith, same, wr.sent))
                | inl (u, eu) ↦ elim (Result-cases (build_tcp_ack pkt.record_count)) [
                  | inr (e, ee) ↦
                      (λ h. absurd (ground arith), λ e' h. ground (arith, same, wr.sent))
                  | inl (ack, ea) ↦ (
                    λ h. record {
                      packet = pkt;
                      decoded = ep;
                      fresh = fresh;
                      duplicates = k;
                      all_records = el;
                      kept =
                          subst (Kept d sha1_hex imei pkt.records w.seen fresh)
                            (ground (arith, wr.seen)) kept;
                      stored = ground (arith, same, wr.on_ok eu);
                      ack = ack;
                      ack_built = ea;
                      ack_sent = ground (arith, same, wr.sent, wr.closed);
                    },
                    λ e' h. absurd (ground arith),
                  )
                ]
              ]
        ]
  ]
