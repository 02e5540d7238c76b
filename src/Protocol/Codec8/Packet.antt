-- ===== src/Protocol/Codec8/Packet.antt =====
-- `decodeTcpPacket` of codec8.ts on whole frames: what `encodeTcpPacket` makes is accepted, and
-- what is accepted has the layout and the CRC.
use fleet_tracking_system.Common.{
  ℕ, ◌<◌, List, [], ◌∷◌, ◌++◌, ◌≡◌, ◌≢◌, arith, some, length, ◌==◌, nat_eq, if◌then◌else◌,
  append-nil, take-append_eq, drop-append_eq,
}
use fleet_tracking_system.Protocol.Fault.{ok, err, decode_error, crc_mismatch}
use fleet_tracking_system.Protocol.Reader.{be16, write_u16, write_u32}
use fleet_tracking_system.Protocol.Crc16.{crc16_ibm, crc16_ibm-lt}
use fleet_tracking_system.Protocol.Frame.{
  header, framed, length-framed, size-header, preamble-header, drop-header, drop_eight-header,
  crc-tail,
}
use fleet_tracking_system.Protocol.Codec8.{
  extract_frame, encode_tcp_packet, decode_tcp_packet, decode_avl_array,
}
use fleet_tracking_system.Protocol.Codec8.Framing.{extract_frame-framed}

-- On a frame with the right layout the CRC alone decides.
pub decode_tcp_packet-framed :
    (field : List ℕ) (c : ℕ)
    → length field < 4294967296
    → c < 65536
    → decode_tcp_packet (framed (length field) field c)
      ≡ (if crc16_ibm field == c then decode_avl_array field else err (decode_error crc_mismatch))
unfolding decode_tcp_packet framed
decode_tcp_packet-framed field c hn hc =
    let y = field ++ (0 ∷ 0 ∷ be16 c) in
    let n : ℕ = length field in
    ground (
      arith,
      length-framed n field c,
      preamble-header n y,
      size-header n y hn,
      drop_eight-header n y,
      drop-header n n y,
      take-append_eq n field (0 ∷ 0 ∷ be16 c),
      drop-append_eq n field (0 ∷ 0 ∷ be16 c),
      append-nil (be16 c),
      crc-tail c [] hc,
    )

encode_tcp_packet-eq :
    (field : List ℕ) {frame : List ℕ}
    → encode_tcp_packet field ≡ ok frame
    → (length field < 4294967296) × (frame ≡ framed (length field) field (crc16_ibm field))
unfolding encode_tcp_packet framed header write_u32 write_u16
encode_tcp_packet-eq field h = ground (arith, crc16_ibm-lt field)

-- A data array that `encodeTcpPacket` wraps is split off the stream as one frame, before any bytes
-- that follow, and the frame decodes as the data array does.
pub decode-encode_tcp_packet :
    (field rest frame : List ℕ)
    → encode_tcp_packet field ≡ ok frame
    → (extract_frame (frame ++ rest) ≡ ok (some (frame, rest)))
      × (decode_tcp_packet frame ≡ decode_avl_array field)
decode-encode_tcp_packet field rest frame h =
    let (short, e) = encode_tcp_packet-eq field h in
    rw e (
      extract_frame-framed field (crc16_ibm field) rest short,
      ground (arith, decode_tcp_packet-framed field (crc16_ibm field) short (crc16_ibm-lt field)),
    )

-- A packet whose CRC field is not the CRC of its data is refused, whatever the data are.
pub decode_tcp_packet_bad_crc :
    (field : List ℕ) (c : ℕ)
    → length field < 4294967296
    → c < 65536
    → c ≢ crc16_ibm field
    → decode_tcp_packet (framed (length field) field c) ≡ err (decode_error crc_mismatch)
decode_tcp_packet_bad_crc field c hn hc ne = ground (arith, decode_tcp_packet-framed field c hn hc)
