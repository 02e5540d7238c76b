-- ===== src/Witnesses/Ingestion.antt =====
-- The theorems on the ingestion service at concrete values.
use fleet_tracking_system.Common.{
  ℕ, ◌≤◌, List, [], ◌∷◌, ◌≡◌, refl, ◌∙◌, arith, true, false, none, some, Text, text_eq, length,
  nat_eq, ◌⊎◌, ap, take, ◌≢◌, ◌+◌, drop,
}
use fleet_tracking_system.Common.Dict
use fleet_tracking_system.Common.Decimal.{codes}
use fleet_tracking_system.Protocol.Fault.{ok, err, sink_error, Fault}
use fleet_tracking_system.Protocol.Crc16.{crc16_ibm}
use fleet_tracking_system.Protocol.Frame.{framed, header}
use fleet_tracking_system.Protocol.Codec8
use fleet_tracking_system.Protocol.Codec8.{
  DecodedAvl, encode_tcp_packet, decode_tcp_packet, extract_frame, build_tcp_ack, to_date,
}
use fleet_tracking_system.Protocol.Codec8.Packet.{decode-encode_tcp_packet}
use fleet_tracking_system.Protocol.Codec8.Layout
use fleet_tracking_system.Protocol.Codec8.Layout.{data_array, meant}
use fleet_tracking_system.Protocol.Codec8.RoundTrip.{decode_avl_array-data_array}
use fleet_tracking_system.Protocol.Udp.Laws.{datagram}
use fleet_tracking_system.Protocol.Reader.{write_u16, write_u32, be16, be32, u8, u16, u32, read_be}
use fleet_tracking_system.Ingestion.AvlMap.{NormalizedTelemetry, normalize}
use fleet_tracking_system.Ingestion.Dedupe
use fleet_tracking_system.Ingestion.Dedupe.{Deduper, MemoryConfig, Seen, dedupe_key}
use fleet_tracking_system.Ingestion.Dedupe.Memory.{
  memory_deduper, check_all, check_and_set-bounded, check_and_set_again,
}
use fleet_tracking_system.Ingestion.Exec.{World, packet, tcp, records, write, send, count}
use fleet_tracking_system.Ingestion.Records.{fresh_records}
use fleet_tracking_system.Ingestion.Session.{
  State, fresh_session, extracted, modify, outside, set_buffer,
}
use fleet_tracking_system.Ingestion.Handlers.{handle_avl, handle_frame, drain_frames, drain_all}
use fleet_tracking_system.Ingestion.Handlers.Acks
use fleet_tracking_system.Ingestion.Handlers.Acks.{handle_avl_outcome}
use fleet_tracking_system.Ingestion.Handlers.Resend.{reconnect, handle_avl_resend_lost}
use fleet_tracking_system.Ingestion.Handlers.Drain.{extend, drain_frames_done, drain_all-extend}
use fleet_tracking_system.Ingestion.TcpServer.{
  TcpServer, on_connection, on_authenticated, mark, on_close, is_connected,
}
use fleet_tracking_system.Ingestion.TcpServer.Routing.{
  empty_server, here, next, connects, logs_in, logs_in_late, Inv, route_sound, close_unroutes,
}
use fleet_tracking_system.Ingestion.UdpServer.{on_message}
use fleet_tracking_system.Ingestion.UdpServer.Laws
use fleet_tracking_system.Ingestion.UdpServer.Laws.{on_message_outcome}
use fleet_tracking_system.Ingestion.AllowList.{redis_is_allowed}
use fleet_tracking_system.Ingestion.AllowList.Staleness.{
  Backed, start, call, redis_is_allowed_recent,
}
use fleet_tracking_system.Witnesses.Protocol.{wire_record, wire_record-Fits, imei_text}

abbrev small_config : MemoryConfig
small_config = record { ttl_ms = 1000; max_entries = 2 }

abbrev deduper : Deduper
deduper = memory_deduper small_config 0 (omega arith) (omega arith)

-- The digest is the text itself.
abbrev digest : Text → Text
digest t = t

-- A connection whose sink refuses its first write.
abbrev failing_world : World Seen
failing_world = record {
  seen = [];
  durable = [];
  sink_plan = false ∷ [];
  sent = [];
  closed = false;
  metrics = [];
}

abbrev array : List ℕ
array = data_array 8 false (wire_record ∷ [])

abbrev frame : List ℕ
frame = framed (length array) array (crc16_ibm array)

frame_encoded : encode_tcp_packet array ≡ ok frame
unfolding encode_tcp_packet write_u32 data_array Layout.record_list Layout.record_fields Layout.be64
    Layout.gps_fields be16 Layout.io_fields Layout.size Layout.group Layout.entries Layout.value
    Layout.variable_group write_u16 crc16_ibm framed
frame_encoded = refl

abbrev decoded_frame : DecodedAvl
decoded_frame = record { codec_id = 8; record_count = 1; records = meant false wire_record ∷ [] }

frame_decoded : decode_tcp_packet frame ≡ ok decoded_frame
frame_decoded =
    (decode-encode_tcp_packet array [] frame frame_encoded).1
    ∙ decode_avl_array-data_array false (wire_record ∷ []) (omega arith) (wire_record-Fits, tt)

record_normalized :
    (t : NormalizedTelemetry) × (normalize imei_text (meant false wire_record) ≡ ok t)
unfolding normalize meant to_date
record_normalized = (_, refl)

record_new :
    (Dedupe.check_and_set small_config 0
      (dedupe_key digest imei_text (meant false wire_record))
      []).0
    ≡ true
unfolding Dedupe.check_and_set Dedupe.is_live Dict.get
record_new = refl

ack_built : build_tcp_ack 1 ≡ ok (0 ∷ 0 ∷ 0 ∷ 1 ∷ [])
unfolding build_tcp_ack write_u32 be32
ack_built = refl

handle_avl_resend_lost_example :
    let first = handle_avl deduper digest imei_text frame failing_world in
    let second = handle_avl deduper digest imei_text frame (reconnect first.1) in
    (first.0 ≡ err sink_error)
    × (first.1.sent ≡ [])
    × (second.0 ≡ ok tt)
    × (second.1.sent ≡ (0 ∷ 0 ∷ 0 ∷ 1 ∷ []) ∷ [])
    × (second.1.durable ≡ [])
handle_avl_resend_lost_example =
    handle_avl_resend_lost deduper digest imei_text frame failing_world decoded_frame
      (meant false wire_record) record_normalized.0 (0 ∷ 0 ∷ 0 ∷ 1 ∷ []) [] frame_decoded refl
      record_normalized.1 ack_built (omega arith) (ap ok record_new) refl

-- A connection whose sink writes.
abbrev world : World Seen
world = record failing_world { sink_plan = [] }

handle_avl_outcome_example :
    let result = handle_avl deduper digest imei_text frame world in
    (result.0 ≡ ok tt → Acks.Acked deduper digest imei_text frame world result.1)
    × ((e : Fault) → result.0 ≡ err e → result.1.sent ≡ [])
handle_avl_outcome_example = handle_avl_outcome deduper digest imei_text frame world

check_and_set-bounded_example : length (Dedupe.check_and_set small_config 5 (codes "k") []).1 ≤ 2
check_and_set-bounded_example = check_and_set-bounded small_config 5 (codes "k") [] (omega arith)

key_new : (Dedupe.check_and_set small_config 5 (codes "k") []).0 ≡ true
unfolding Dedupe.check_and_set Dedupe.is_live Dict.get
key_new = refl

-- Another key is checked in between.
abbrev held : Seen
held =
    check_all small_config ((6, codes "m") ∷ [])
      (Dedupe.check_and_set small_config 5 (codes "k") []).1

room_for_both : length (Dedupe.check_and_set small_config 5 (codes "k") []).1 + 1 ≤ 2
unfolding Dedupe.check_and_set Dedupe.is_live Dict.get Dict.set
room_for_both = omega arith

check_and_set_again_example : Dedupe.check_and_set small_config 900 (codes "k") held ≡ (false, held)
check_and_set_again_example =
    check_and_set_again small_config 5 (omega arith) (omega arith) 900 (codes "k") []
      ((6, codes "m") ∷ []) (omega arith) (omega arith) key_new (omega arith, tt) room_for_both

-- A buffer with no whole frame in it.
abbrev short_state : State Seen
short_state = record {
  session = record fresh_session { buffer = 0 ∷ 0 ∷ [] };
  world = failing_world;
}

short_drained : drain_all deduper digest imei_text short_state ≡ (ok tt, short_state)
unfolding drain_all drain_frames extract_frame extracted
short_drained = refl

-- A packet without records, and the buffer of a session that holds it.
abbrev empty_packet : List ℕ
empty_packet = framed 3 (8 ∷ 0 ∷ 0 ∷ []) (crc16_ibm (8 ∷ 0 ∷ 0 ∷ []))

abbrev full_state : State Seen
full_state = record { session = record fresh_session { buffer = empty_packet }; world = world }

-- The packet is acknowledged, and the buffer is empty.
abbrev drained_state : State Seen
drained_state = record {
  session = fresh_session;
  world = record world {
    sent = (0 ∷ 0 ∷ 0 ∷ 0 ∷ []) ∷ [];
    metrics = packet tcp ∷ records imei_text 0 ∷ [];
  };
}

full_drained : drain_all deduper digest imei_text full_state ≡ (ok tt, drained_state)
unfolding drain_all drain_frames extract_frame extracted modify outside set_buffer handle_frame
    handle_avl fresh_records decode_tcp_packet Codec8.decode_avl_array Codec8.is_codec_8
    Codec8.read_records build_tcp_ack write_u32 be32 be16 crc16_ibm framed header u8 u16 u32 read_be
    write send count drop take
full_drained = refl

-- The next packet follows in two pieces.
drain_all-extend_example :
    drain_all deduper digest imei_text (extend (take 5 frame) full_state)
    ≡ drain_all deduper digest imei_text (extend (take 5 frame) drained_state)
drain_all-extend_example =
    drain_all-extend deduper digest imei_text (take 5 frame) full_state drained_state full_drained

short_returns : (drain_frames deduper digest 3 imei_text short_state).0 ≡ ok tt
unfolding drain_frames extract_frame extracted
short_returns = refl

drain_frames_done_example :
    extract_frame (drain_frames deduper digest 3 imei_text short_state).1.session.buffer ≡ ok none
drain_frames_done_example =
    drain_frames_done deduper digest 3 imei_text short_state (omega arith) short_returns

socket_is_new : Dict.get 1 (empty_server 5).connections ≡ none
unfolding Dict.get empty_server
socket_is_new = refl

nothing_routed : (imei : Text) → Dict.get imei (empty_server 5).by_imei ≢ some 1
unfolding Dict.get empty_server
nothing_routed imei = λ h. cc

-- A device connects and logs in, and another login ends after its socket 9 has closed.
abbrev connected : TcpServer
connected = (on_connection 1 (empty_server 5)).1

abbrev logged_in : TcpServer
logged_in = on_authenticated imei_text 1 connected

socket_open : Dict.get 1 connected.connections ≡ some none
unfolding on_connection empty_server Dict.get Dict.set
socket_open = refl

socket_closed : Dict.get 9 logged_in.connections ≡ none
unfolding on_authenticated mark on_connection empty_server Dict.get Dict.set
socket_closed = refl

route_sound_example : Inv (on_authenticated (codes "356") 9 logged_in)
route_sound_example = route_sound 5 (on_authenticated (codes "356") 9 logged_in) (
    next
      (next (next here (connects 1 (empty_server 5) socket_is_new nothing_routed))
        (logs_in imei_text 1 connected socket_open))
      (logs_in_late (codes "356") 9 logged_in socket_closed))

-- One device on socket 1, and its new socket 2 before the login.
abbrev two_sockets : TcpServer
two_sockets = record (empty_server 5) {
  connections = (1, some imei_text) ∷ (2, none) ∷ [];
  by_imei = (imei_text, 1) ∷ [];
}

old_socket : Dict.get 1 two_sockets.connections ≡ some (some imei_text)
unfolding Dict.get empty_server
old_socket = refl

new_socket : Dict.get 2 two_sockets.connections ≡ some none
unfolding Dict.get empty_server
new_socket = refl

close_unroutes_example :
    let after = on_close 1 (on_authenticated imei_text 2 two_sockets) in
    (Dict.get 2 after.connections ≡ some (some imei_text)) × (is_connected imei_text after ≡ false)
close_unroutes_example =
    close_unroutes imei_text 1 2 two_sockets (λ h. absurd (omega (arith, h))) old_socket new_socket

-- A datagram with one record, from an allowed device.
abbrev message : List ℕ
message = datagram 5 0 6 imei_text array

on_message_outcome_example :
    ((on_message deduper digest (λ i. true) message world).sent ≡ [])
    ⊎ Laws.Acked deduper digest
        (λ i. true)
        message
        world
        (on_message deduper digest (λ i. true) message world)
on_message_outcome_example = on_message_outcome deduper digest (λ i. true) message world refl

redis_is_allowed_recent_example :
    (Backed 30
      (λ t i. true)
      5
      imei_text
      (redis_is_allowed 30 5 true imei_text (redis_is_allowed 30 0 true imei_text []).1).0)
redis_is_allowed_recent_example =
    redis_is_allowed_recent 30 (λ t i. true) 0 5 imei_text
      (redis_is_allowed 30 0 true imei_text []).1 (call 0 imei_text (start 0) (omega arith))
      (omega arith)
