-- ===== src/Protocol/Codec12/RoundTrip.antt =====
-- A message that codec12.ts encodes is framed and decoded as it was.
use fleet_tracking_system.Common.{
  ℕ, ◌<◌, List, [], ◌∷◌, ◌++◌, ◌≡◌, refl, arith, some, Text, length, ◌==◌, nat_eq, if◌then◌else◌,
  append-nil, take-append_eq, drop-append_eq,
}
use fleet_tracking_system.Protocol.Fault.{ok, err, codec12_error, crc_mismatch}
use fleet_tracking_system.Protocol.Reader.{bytes, be16, be32, write_u16, write_u32}
use fleet_tracking_system.Protocol.Reader.RoundTrip.{u8_cons, u32-be32}
use fleet_tracking_system.Protocol.Crc16.{crc16_ibm, crc16_ibm-lt}
use fleet_tracking_system.Protocol.Ascii.{ascii_bytes, IsAscii, ascii_text-ascii_bytes}
use fleet_tracking_system.Protocol.Frame.{
  header, framed, length-framed, size-header, preamble-header, drop-header, drop_eight-header,
  crc-tail,
}
use fleet_tracking_system.Protocol.Codec8.{extract_frame}
use fleet_tracking_system.Protocol.Codec8.Framing.{extract_frame-framed}
use fleet_tracking_system.Protocol.Codec12.{
  codec_12_id, type_command, type_response, encode_message, encode_command, encode_response,
  read_message, decode_codec12,
}

-- The data field of a message.
abbrev message_field : ℕ → Text → List ℕ
message_field type text =
    codec_12_id ∷ 1 ∷ type ∷ (be32 (length (ascii_bytes text)) ++ (ascii_bytes text ++ (1 ∷ [])))

read_message-message_field :
    (type : ℕ) (text : Text)
    → IsAscii text
    → length (ascii_bytes text) < 4294967296
    → read_message (message_field type text) ≡ ok (record { type = type; payload = text })
unfolding read_message bytes
read_message-message_field type text h hn = rw (
  u8_cons,
  u8_cons,
  u8_cons,
  u32-be32 (length (ascii_bytes text)) _ hn,
  take-append_eq (length (ascii_bytes text)) (ascii_bytes text) (1 ∷ []) refl,
  ascii_text-ascii_bytes text h,
)

decode_codec12-framed :
    (field : List ℕ) (c : ℕ)
    → length field < 4294967296
    → c < 65536
    → decode_codec12 (framed (length field) field c)
      ≡ (if crc16_ibm field == c then read_message field else err (codec12_error crc_mismatch))
unfolding decode_codec12 framed
decode_codec12-framed field c hn hc =
    let y = field ++ (0 ∷ 0 ∷ be16 c) in
    let n : ℕ = length field in
    ground (
      arith,
      length-framed n field c,
      preamble-header n y,
      size-header n y hn,
      drop_eight-header n y,
      drop-header n n y,
      take-append_eq n field (0 ∷ 0 ∷ be16 c),
      drop-append_eq n field (0 ∷ 0 ∷ be16 c),
      append-nil (be16 c),
      crc-tail c [] hc,
    )

encode_message-eq :
    (type : ℕ) (text : Text) {frame : List ℕ}
    → encode_message type text ≡ ok frame
    → (length (ascii_bytes text) < 4294967296)
      × (length (message_field type text) < 4294967296)
      × (frame
          ≡ framed
              (length (message_field type text))
              (message_field type text)
              (crc16_ibm (message_field type text)))
unfolding encode_message framed header write_u32 write_u16
encode_message-eq type text h = ground (arith, crc16_ibm-lt (message_field type text))

decode-encode_message :
    (type : ℕ) (text : Text) (rest frame : List ℕ)
    → IsAscii text
    → encode_message type text ≡ ok frame
    → (extract_frame (frame ++ rest) ≡ ok (some (frame, rest)))
      × (decode_codec12 frame ≡ ok (record { type = type; payload = text }))
decode-encode_message type text rest frame ha h =
    let (small, short, e) = encode_message-eq type text h in
    let field = message_field type text in
    rw e (
      extract_frame-framed field (crc16_ibm field) rest short,
      ground (
        arith,
        decode_codec12-framed field (crc16_ibm field) short (crc16_ibm-lt field),
        read_message-message_field type text ha small,
      ),
    )

-- An ASCII command, as `encodeCommand` sends it, is split off the stream as one frame and decoded
-- to the same text with type 5; a response of `encodeResponse` likewise with type 6.
pub decode-encode_command :
    (text : Text) (rest command response : List ℕ)
    → IsAscii text
    → encode_command text ≡ ok command
    → encode_response text ≡ ok response
    → (extract_frame (command ++ rest) ≡ ok (some (command, rest)))
      × (decode_codec12 command ≡ ok (record { type = type_command; payload = text }))
      × (extract_frame (response ++ rest) ≡ ok (some (response, rest)))
      × (decode_codec12 response ≡ ok (record { type = type_response; payload = text }))
unfolding encode_command encode_response
decode-encode_command text rest command response ha hc hr =
    let (c1, c2) = decode-encode_message type_command text rest command ha hc in
    let (r1, r2) = decode-encode_message type_response text rest response ha hr in (c1, c2, r1, r2)
