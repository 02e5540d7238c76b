-- ===== src/Witnesses/Protocol.antt =====
-- The theorems on the wire formats at concrete values.
use fleet_tracking_system.Common.{
  ℕ, List, [], ◌∷◌, ◌++◌, ◌≡◌, refl, arith, true, false, some, Text, text_eq, nat_eq,
}
use fleet_tracking_system.Common.Decimal.{codes}
use fleet_tracking_system.Protocol.Fault.{ok, ◌>>=◌}
use fleet_tracking_system.Protocol.Reader.{write_u16, write_u32, be32}
use fleet_tracking_system.Protocol.Crc16.{crc16_ibm}
use fleet_tracking_system.Protocol.Ascii.{ascii_bytes, all_digits}
use fleet_tracking_system.Protocol.Frame.{framed, header}
use fleet_tracking_system.Protocol.Imei.{is_imei}
use fleet_tracking_system.Protocol.Codec8.{
  encode_tcp_packet, decode_tcp_packet, extract_frame, decode_avl_array,
}
use fleet_tracking_system.Protocol.Codec8.Packet.{decode-encode_tcp_packet}
use fleet_tracking_system.Protocol.Codec8.Layout.{WireRecord, Fits, data_array, meant}
use fleet_tracking_system.Protocol.Codec8.RoundTrip.{decode_avl_array-data_array}
use fleet_tracking_system.Protocol.Codec12.{
  encode_message, encode_command, encode_response, decode_codec12, type_command, type_response,
}
use fleet_tracking_system.Protocol.Codec12.RoundTrip.{decode-encode_command}
use fleet_tracking_system.Protocol.Udp.{decode_udp_datagram}
use fleet_tracking_system.Protocol.Udp.Laws.{datagram, decode_udp_datagram-datagram}

abbrev field : List ℕ
field = 8 ∷ 0 ∷ 0 ∷ []

field_encoded : encode_tcp_packet field ≡ ok (framed 3 field (crc16_ibm field))
unfolding encode_tcp_packet write_u32 framed header be32 write_u16 crc16_ibm
field_encoded = refl

decode-encode_tcp_packet_example :
    (extract_frame (framed 3 field (crc16_ibm field) ++ 1 ∷ [])
      ≡ ok (some (framed 3 field (crc16_ibm field), 1 ∷ [])))
    × (decode_tcp_packet (framed 3 field (crc16_ibm field)) ≡ decode_avl_array field)
decode-encode_tcp_packet_example =
    decode-encode_tcp_packet field (1 ∷ []) (framed 3 field (crc16_ibm field)) field_encoded

abbrev pub wire_record : WireRecord
wire_record = record {
  ms = 1700000000000;
  priority = 1;
  longitude = 4294967295;
  latitude = 5;
  altitude = 10;
  angle = 90;
  satellites = 7;
  speed = 40;
  event_id = 0;
  total = 1;
  ones = (21, 4) ∷ [];
  twos = [];
  fours = [];
  eights = [];
  variable = [];
}

pub wire_record-Fits : Fits false wire_record
wire_record-Fits = record {
  ms = omega arith;
  priority = omega arith;
  longitude = omega arith;
  latitude = omega arith;
  altitude = omega arith;
  angle = omega arith;
  satellites = omega arith;
  speed = omega arith;
  event_id = omega arith;
  total = omega arith;
  ones = record { count = omega arith; each = (omega arith, omega arith, tt) };
  twos = record { count = omega arith; each = tt };
  fours = record { count = omega arith; each = tt };
  eights = record { count = omega arith; each = tt };
  variable_count = omega arith;
  variable = tt;
}

decode_avl_array-data_array_example :
    (decode_avl_array (data_array 8 false (wire_record ∷ []))
      ≡ ok (record { codec_id = 8; record_count = 1; records = meant false wire_record ∷ [] }))
decode_avl_array-data_array_example =
    decode_avl_array-data_array false (wire_record ∷ []) (omega arith) (wire_record-Fits, tt)

abbrev pub imei_text : Text
imei_text = codes "356307042441013"

imei_is : is_imei imei_text ≡ true
unfolding is_imei all_digits
imei_is = refl

decode_udp_datagram-datagram_example :
    (decode_udp_datagram (datagram 5 0 6 imei_text field) ≡ (do
      avl ← decode_avl_array field
      ok (record { packet_id = 5; avl_packet_id = 6; imei = imei_text; avl = avl })))
decode_udp_datagram-datagram_example =
    decode_udp_datagram-datagram 5 0 6 imei_text field (omega arith) imei_is (omega arith)

abbrev command_text : Text
command_text = codes "go"

command_encoded : (frame : List ℕ) × (encode_command command_text ≡ ok frame)
unfolding encode_command encode_message write_u32 ascii_bytes write_u16 crc16_ibm
command_encoded = (_, refl)

response_encoded : (frame : List ℕ) × (encode_response command_text ≡ ok frame)
unfolding encode_response encode_message write_u32 ascii_bytes write_u16 crc16_ibm
response_encoded = (_, refl)

decode-encode_command_example :
    (extract_frame (command_encoded.0 ++ 7 ∷ []) ≡ ok (some (command_encoded.0, 7 ∷ [])))
    × (decode_codec12 command_encoded.0
        ≡ ok (record { type = type_command; payload = command_text }))
    × (extract_frame (response_encoded.0 ++ 7 ∷ []) ≡ ok (some (response_encoded.0, 7 ∷ [])))
    × (decode_codec12 response_encoded.0
        ≡ ok (record { type = type_response; payload = command_text }))
decode-encode_command_example =
    decode-encode_command command_text (7 ∷ []) command_encoded.0 response_encoded.0
      (omega arith, (omega arith, tt)) command_encoded.1 response_encoded.1
