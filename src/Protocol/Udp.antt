-- ===== src/Protocol/Udp.antt =====
-- packages/protocol-teltonika/src/udp.ts: one datagram with its own length, and the acknowledgement
-- that echoes its ids.
pub mod Laws
use fleet_tracking_system.Common.{
  ℕ, zero, suc, ◌+◌, ◌-◌, ◌*◌, ◌/◌, ◌%◌, ◌≤◌, ◌<◌, List, [], ◌∷◌, ◌++◌, ◌≡◌, ◌≢◌, refl, sym, ap,
  ◌∙◌, arith, Bool, ◌&&◌, ◌||◌, not, true, false, Option, none, some, Text, length, take, drop, ltb,
  leb, nat_beq, ◌==◌, nat_eq, if◌then◌else◌, Bool-cases, Option-cases, ◌⊎◌, inl, inr, All, map,
  length-append, length-take, length-drop, append-nil, append_assoc, take-append_le, drop-append_le,
  take-append_eq, drop-append_eq, drop_two, take-append-drop,
}
use fleet_tracking_system.Protocol.Fault.{
  Result, ok, err, udp_error, too_short, bad_length, not_digits, ◌>>=◌,
}
use fleet_tracking_system.Protocol.Reader.{Reader, u8, u16, write_u8, write_u16}
use fleet_tracking_system.Protocol.Ascii.{ascii_text}
use fleet_tracking_system.Protocol.Imei.{is_imei}
use fleet_tracking_system.Protocol.Codec8.{DecodedAvl, decode_avl_array}

pub record DecodedUdp : Type 0 where
  pub packet_id : ℕ
  pub avl_packet_id : ℕ
  pub imei : Text
  pub avl : DecodedAvl

unfoldable pub decode_udp_datagram : List ℕ → Result DecodedUdp
decode_udp_datagram dgram = if ltb (length dgram) 5 then err (udp_error too_short) else do
  (len, r1) ← u16 dgram
  if not (length dgram == len + 2) then err (udp_error bad_length) else do
    (packet_id, r2) ← u16 (drop 2 dgram)
    (avl_packet_id, r3) ← u8 (drop 5 dgram)
    (imei_len, r4) ← u16 (drop 6 dgram)
    if not (imei_len == 15) then err (udp_error bad_length) else do
      let imei = ascii_text (take 15 (drop 8 dgram))
      if not (is_imei imei) then err (udp_error not_digits) else do
        avl ← decode_avl_array (drop 23 dgram)
        ok (record { packet_id = packet_id; avl_packet_id = avl_packet_id; imei = imei; avl = avl })

-- The buffer of seven bytes, its five writes in order.
unfoldable pub build_udp_ack : ℕ → ℕ → ℕ → Result (List ℕ)
build_udp_ack packet_id avl_packet_id accepted_count = do
  size ← write_u16 5
  id ← write_u16 packet_id
  not_usable ← write_u8 1
  avl_id ← write_u8 avl_packet_id
  count ← write_u8 (accepted_count % 256)
  ok (size ++ (id ++ (not_usable ++ (avl_id ++ count))))
