-- ===== src/Protocol/Udp/Laws.antt =====
-- A datagram with the layout that udp.ts states is decoded, and its acknowledgement echoes it.
use fleet_tracking_system.Common.{
  ℕ, ◌+◌, ◌/◌, ◌%◌, ◌<◌, List, [], ◌∷◌, ◌++◌, ◌≡◌, refl, ◌∙◌, arith, true, Text, length, drop,
  nat_eq, length-append, take-append_eq, drop-append_eq,
}
use fleet_tracking_system.Protocol.Fault.{ok, ◌>>=◌}
use fleet_tracking_system.Protocol.Reader.{u16, be16, write_u8, write_u16}
use fleet_tracking_system.Protocol.Reader.RoundTrip.{u8_cons, u16-be16}
use fleet_tracking_system.Protocol.Ascii.{
  ascii_bytes, ascii_text-ascii_bytes, length-ascii_bytes, all_digits-IsAscii,
}
use fleet_tracking_system.Protocol.Imei.{is_imei}
use fleet_tracking_system.Protocol.Imei.Laws.{is_imei-length, is_imei-all_digits}
use fleet_tracking_system.Protocol.Codec8.{decode_avl_array}
use fleet_tracking_system.Protocol.Udp.{decode_udp_datagram, build_udp_ack}

-- What stands behind the length of a datagram: the ids, the unused byte, the IMEI, the data array.
unfoldable pub payload : ℕ → ℕ → ℕ → Text → List ℕ → List ℕ
payload packet_id unused avl_packet_id imei array =
    be16 packet_id ++ (unused ∷ avl_packet_id ∷ 0 ∷ 15 ∷ (ascii_bytes imei ++ array))

unfoldable pub datagram : ℕ → ℕ → ℕ → Text → List ℕ → List ℕ
datagram packet_id unused avl_packet_id imei array =
    be16 (length array + 21) ++ payload packet_id unused avl_packet_id imei array

length-datagram :
    (p x a : ℕ) (imei : Text) (array : List ℕ)
    → is_imei imei ≡ true
    → length (datagram p x a imei array) ≡ length array + 21 + 2
unfolding datagram payload be16
length-datagram p x a imei array h =
    omega (
      arith,
      length-append (ascii_bytes imei) array,
      length-ascii_bytes imei,
      is_imei-length imei h,
    )

drops :
    (p x a : ℕ) (imei : Text) (array : List ℕ)
    → is_imei imei ≡ true
    → let d = datagram p x a imei array in
      (drop 2 d ≡ payload p x a imei array)
      × (drop 5 d ≡ a ∷ 0 ∷ 15 ∷ (ascii_bytes imei ++ array))
      × (drop 6 d ≡ be16 15 ++ (ascii_bytes imei ++ array))
      × (drop 8 d ≡ ascii_bytes imei ++ array)
      × (drop 23 d ≡ array)
unfolding datagram payload be16 drop
drops p x a imei array h = (
  refl,
  refl,
  refl,
  refl,
  drop-append_eq 15 (ascii_bytes imei) array (length-ascii_bytes imei ∙ is_imei-length imei h),
)

-- A datagram of up to 65,514 bytes of data array, from an IMEI of 15 digits, decodes to its ids, its
-- IMEI and what its data array decodes to, and throws as the data array does.
pub decode_udp_datagram-datagram :
    (packet_id unused avl_packet_id : ℕ) (imei : Text) (array : List ℕ)
    → packet_id < 65536
    → is_imei imei ≡ true
    → length array + 21 < 65536
    → decode_udp_datagram (datagram packet_id unused avl_packet_id imei array) ≡ (do
      avl ← decode_avl_array array
      ok (record { packet_id = packet_id; avl_packet_id = avl_packet_id; imei = imei; avl = avl }))
unfolding decode_udp_datagram
decode_udp_datagram-datagram p x a imei array hp hi hn =
    let (d2, d5, d6, d8, d23) = drops p x a imei array hi in
    let rest = ascii_bytes imei ++ array in
    ground (
      arith,
      d2,
      d5,
      d6,
      d8,
      d23,
      length-datagram p x a imei array hi,
      u16_length p x a imei array hn,
      u16_packet p x a imei array hp,
      u8_cons a (0 ∷ 15 ∷ rest),
      u16-be16 15 rest,
      take-append_eq 15 (ascii_bytes imei) array (length-ascii_bytes imei ∙ is_imei-length imei hi),
      ascii_text-ascii_bytes imei (all_digits-IsAscii imei (is_imei-all_digits imei hi)),
    )
  where
    u16_length :
        (p x a : ℕ) (imei : Text) (array : List ℕ)
        → length array + 21 < 65536
        → u16 (datagram p x a imei array) ≡ ok (length array + 21, payload p x a imei array)
    u16_length p x a imei array h = unfold datagram in u16-be16 (length array + 21) _ h

    u16_packet :
        (p x a : ℕ) (imei : Text) (array : List ℕ)
        → p < 65536
        → u16 (payload p x a imei array) ≡ ok (p, x ∷ a ∷ 0 ∷ 15 ∷ (ascii_bytes imei ++ array))
    u16_packet p x a imei array h = unfold payload in u16-be16 p _ h

-- The acknowledgement of a datagram's ids is seven bytes: the length 5, the packet id, the byte 1,
-- the AVL packet id and the low byte of the count; its ids are read back as they were sent.
pub build_udp_ack_echoes :
    (packet_id avl_packet_id count : ℕ)
    → packet_id < 65536
    → avl_packet_id < 256
    → (ack : List ℕ) × (build_udp_ack packet_id avl_packet_id count ≡ ok ack)
      × (length ack ≡ 7)
      × (u16 ack ≡ ok (5, drop 2 ack))
      × (u16 (drop 2 ack) ≡ ok (packet_id, drop 4 ack))
      × (drop 4 ack ≡ 1 ∷ avl_packet_id ∷ count % 256 ∷ [])
unfolding build_udp_ack write_u8 write_u16 be16 drop u16
build_udp_ack_echoes p a c hp ha = (
  0 ∷ 5 ∷ (p / 256 % 256) ∷ (p % 256) ∷ 1 ∷ a ∷ (c % 256) ∷ [],
  ground arith,
  ground arith,
  ground arith,
  ground arith,
  ground arith,
)
