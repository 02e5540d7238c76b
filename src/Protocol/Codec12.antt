-- ===== src/Protocol/Codec12.antt =====
-- packages/protocol-teltonika/src/codec12.ts: GPRS commands to a device, and its responses.
pub mod RoundTrip
use fleet_tracking_system.Common.{
  ℕ, zero, suc, ◌+◌, ◌-◌, ◌*◌, ◌/◌, ◌%◌, ◌≤◌, ◌<◌, List, [], ◌∷◌, ◌++◌, ◌≡◌, ◌≢◌, refl, sym, ap,
  ◌∙◌, arith, Bool, ◌&&◌, ◌||◌, not, true, false, Option, none, some, Text, length, take, drop, ltb,
  leb, nat_beq, ◌==◌, nat_eq, if◌then◌else◌, Bool-cases, Option-cases, ◌⊎◌, inl, inr, All, map,
  length-append, length-take, length-drop, append-nil, append_assoc, take-append_le, drop-append_le,
  take-append_eq, drop-append_eq, drop_two, take-append-drop,
}
use fleet_tracking_system.Protocol.Fault.{
  Result, ok, err, codec12_error, too_short, bad_preamble, incomplete, crc_mismatch, not_codec_12,
  ◌>>=◌,
}
use fleet_tracking_system.Protocol.Reader.{Reader, u8, u32, bytes, write_u32, write_u16}
use fleet_tracking_system.Protocol.Crc16.{crc16_ibm}
use fleet_tracking_system.Protocol.Ascii.{ascii_bytes, ascii_text}

abbrev pub codec_12_id : ℕ
codec_12_id = 0x0c

abbrev pub type_command : ℕ
type_command = 0x05

abbrev pub type_response : ℕ
type_response = 0x06

-- The data field around a payload, and the packet around the data field.
unfoldable pub encode_message : ℕ → Text → Result (List ℕ)
encode_message type text = do
  let body = ascii_bytes text
  size ← write_u32 (length body)
  let field = codec_12_id ∷ 1 ∷ type ∷ (size ++ (body ++ (1 ∷ [])))
  data_size ← write_u32 (length field)
  crc ← write_u16 (crc16_ibm field)
  ok (0 ∷ 0 ∷ 0 ∷ 0 ∷ (data_size ++ (field ++ (0 ∷ 0 ∷ crc))))

unfoldable pub encode_command : Text → Result (List ℕ)
encode_command command = encode_message type_command command

unfoldable pub encode_response : Text → Result (List ℕ)
encode_response text = encode_message type_response text

pub record Codec12Message : Type 0 where
  pub type : ℕ
  pub payload : Text

-- What `decodeCodec12` reads once the frame has passed its checks.
unfoldable pub read_message : List ℕ → Result Codec12Message
read_message field = do
  (codec_id, r1) ← u8 field
  if not (codec_id == codec_12_id) then err (codec12_error not_codec_12) else do
    (qty1, r2) ← u8 r1
    (type, r3) ← u8 r2
    (size, r4) ← u32 r3
    (payload, r5) ← bytes size r4
    ok (record { type = type; payload = ascii_text payload })

unfoldable pub decode_codec12 : List ℕ → Result Codec12Message
decode_codec12 frame = if ltb (length frame) 12 then err (codec12_error too_short) else do
  (preamble, r1) ← u32 frame
  if not (preamble == 0) then err (codec12_error bad_preamble) else do
    (data_size, r2) ← u32 (drop 4 frame)
    let field = take data_size (drop 8 frame)
    if not (length field == data_size) then err (codec12_error incomplete) else do
      (crc, r3) ← u32 (drop (8 + data_size) frame)
      if not (crc16_ibm field == crc % 65536)
          then err (codec12_error crc_mismatch)
          else read_message field
