-- ===== src/Ingestion/Handlers.antt =====
-- services/ingestion/src/session.ts: the handlers of a session that need the deduper and the
-- allow-list: packets, the login, and the drain that routes whole frames.
pub mod Acks
pub mod Resend
pub mod Drain
use fleet_tracking_system.Common.{
  ℕ, zero, suc, ◌+◌, ◌-◌, ◌*◌, ◌/◌, ◌%◌, ◌≤◌, ◌<◌, List, [], ◌∷◌, ◌++◌, ◌≡◌, ◌≢◌, refl, sym, ap,
  ◌∙◌, arith, Bool, ◌&&◌, ◌||◌, not, true, false, Option, none, some, Text, length, take, drop, ltb,
  leb, nat_beq, ◌==◌, nat_eq, if◌then◌else◌, Bool-cases, Option-cases, ◌⊎◌, inl, inr, All, map,
  length-append, length-take, length-drop, append-nil, append_assoc, take-append_le, drop-append_le,
  take-append_eq, drop-append_eq, drop_two, take-append-drop,
}
use fleet_tracking_system.Common.{text_eq, contains, select}
use fleet_tracking_system.Protocol.Fault.{
  Result, ok, err, Fault, plain_error, decode_error, Reason, unknown_codec, not_logged_in,
}
use fleet_tracking_system.Protocol.Reader.{u8}
use fleet_tracking_system.Protocol.Imei.{ImeiParseResult, parse_imei, accept, reject}
use fleet_tracking_system.Protocol.Codec8.{
  AvlRecord, DecodedAvl, codec_8_id, codec_8_ext_id, codec_16_id, extract_frame, decode_tcp_packet,
  build_tcp_ack,
}
use fleet_tracking_system.Protocol.Codec12.{
  Codec12Message, codec_12_id, type_response, decode_codec12, encode_command,
}
use fleet_tracking_system.Ingestion.AvlMap.{NormalizedTelemetry, normalize}
use fleet_tracking_system.Ingestion.Dedupe.{Deduper}
use fleet_tracking_system.Ingestion.Records.{fresh_records}
use fleet_tracking_system.Ingestion.Exec.{
  World, Exec, ◌>>=◌, ◌>>◌, pure, lift, count, send, close, write, tcp, rejected_imei,
  duplicate_dropped, packet, records, decode_failure, downlink_sent, decode, handler, FailReason,
}
use fleet_tracking_system.Ingestion.Session.{
  Session, State, outside, modify, extracted, set_buffer, resolve_oldest, handle_codec12, fail,
  after,
}

module _ (d : Deduper) (sha1_hex : Text → Text) where
  open d use {State as Seen}

  -- The records are written before the acknowledgement is sent.
  unfoldable pub handle_avl : Text → List ℕ → Exec (World Seen) Unit
  handle_avl imei frame = do
    pkt ← lift (decode_tcp_packet frame)
    count (packet tcp)
    fresh ← fresh_records d sha1_hex imei pkt.records
    write fresh
    ack ← lift (build_tcp_ack pkt.record_count)
    send ack
    count (records imei (length fresh))

  -- Routing by the byte behind the length.
  unfoldable pub handle_frame : Text → List ℕ → Exec (State Seen) Unit
  handle_frame imei frame = do
    (codec_id, r) ← lift (u8 (drop 8 frame))
    if codec_id == codec_12_id
        then handle_codec12 frame
        else if codec_id == codec_8_id || codec_id == codec_8_ext_id || codec_id == codec_16_id
        then outside (handle_avl imei frame)
        else lift (err (decode_error unknown_codec))

  -- Phase 2, on fuel.
  unfoldable pub drain_frames : ℕ → Text → Exec (State Seen) Unit
  drain_frames zero imei = pure tt
  drain_frames (suc n) imei = extracted >>= λ f. elim f [
    | none ↦ pure tt
    | some (frame, rest) ↦ (do
      modify (set_buffer rest)
      handle_frame imei frame
      drain_frames n imei)
  ]

  -- Phase 2 on all the buffer: a frame has 12 bytes, so as many rounds as bytes are enough.
  unfoldable pub drain_all : Text → Exec (State Seen) Unit
  drain_all imei s = drain_frames (suc (length s.session.buffer)) imei s

  -- Phase 1, and phase 2 where a login is there. `is_allowed` is the allow-list.
  unfoldable pub log_in : (Text → Bool) → Option ImeiParseResult → Exec (State Seen) Unit
  log_in is_allowed none = pure tt
  log_in is_allowed (some login) = do
    modify (λ s. record s { buffer = drop login.bytes_consumed s.buffer })
    if not (is_allowed login.imei)
        then (do outside (count rejected_imei); outside (send reject); outside close)
        else (do
          modify (λ s. record s { imei = some login.imei })
          outside (send accept)
          drain_all login.imei)

  unfoldable pub drain : (Text → Bool) → Exec (State Seen) Unit
  drain is_allowed s = elim s.session.imei [
    | some imei ↦ drain_all imei s
    | none ↦ (lift (parse_imei s.session.buffer) >>= log_in is_allowed) s
  ]

  unfoldable pub on_data : (Text → Bool) → List ℕ → State Seen → State Seen
  on_data is_allowed chunk s =
      after
        (drain is_allowed (record s { session = set_buffer (s.session.buffer ++ chunk) s.session }))
