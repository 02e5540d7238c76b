-- ===== src/Protocol/Codec8.antt =====
-- packages/protocol-teltonika/src/codec8.ts: Codec 8 and Codec 8 Extended.
-- A coordinate is the signed number that the frame carries, in units of 1e-7 degree; `/ 1e7` is not
-- computed. A value of 8 bytes is a number, as `number | bigint` is. A `Date` is its milliseconds,
-- or `none` for an invalid date.
pub mod Framing
pub mod Packet
pub mod Layout
pub mod RoundTrip
use fleet_tracking_system.Common.{
  ℕ, zero, suc, ◌+◌, ◌-◌, ◌*◌, ◌/◌, ◌%◌, ◌≤◌, ◌<◌, List, [], ◌∷◌, ◌++◌, ◌≡◌, ◌≢◌, refl, sym, ap,
  ◌∙◌, arith, Bool, ◌&&◌, ◌||◌, not, true, false, Option, none, some, Text, length, take, drop, ltb,
  leb, nat_beq, ◌==◌, nat_eq, if◌then◌else◌, Bool-cases, Option-cases, ◌⊎◌, inl, inr, All, map,
  length-append, length-take, length-drop, append-nil, append_assoc, take-append_le, drop-append_le,
  take-append_eq, drop-append_eq, drop_two, take-append-drop,
}
use fleet_tracking_system.Common.Int.{ℤ}
use fleet_tracking_system.Protocol.Fault.{
  Result, ok, err, decode_error, too_short, bad_preamble, incomplete, crc_mismatch, codec_16,
  unsupported_codec, count_mismatch, ◌>>=◌,
}
use fleet_tracking_system.Protocol.Reader.{
  Reader, u8, u16, u32, u64, i16, i32, bytes, write_u32, write_u16,
}
use fleet_tracking_system.Protocol.Crc16.{crc16_ibm}

abbrev pub codec_8_id : ℕ
codec_8_id = 0x08

abbrev pub codec_8_ext_id : ℕ
codec_8_ext_id = 0x8e

abbrev pub codec_16_id : ℕ
codec_16_id = 0x10

pub record GpsElement : Type 0 where
  pub longitude : ℤ
  pub latitude : ℤ
  pub altitude : ℤ
  pub angle : ℕ
  pub satellites : ℕ
  pub speed : ℕ

-- An object whose keys are integers: a loop over it goes by ascending key.
abbrev pub Values {ℓ} : Type ℓ → Type ℓ
Values A = List (ℕ × A)

pub record IoElement : Type 0 where
  pub event_id : ℕ
  pub values : Values ℕ
  pub variable : Option (Values (List ℕ))

pub record AvlRecord : Type 0 where
  pub timestamp : Option ℕ
  pub priority : ℕ
  pub gps : GpsElement
  pub io : IoElement

pub record DecodedAvl : Type 0 where
  pub codec_id : ℕ
  pub record_count : ℕ
  pub records : List AvlRecord

-- `values[id] = v`
unfoldable pub put {ℓ} : {A : Type ℓ} → ℕ → A → Values A → Values A
put id v [] = (id, v) ∷ []
put id v ((j, w) ∷ m) =
    let later = put id v m in
    if ltb id j then (id, v) ∷ (j, w) ∷ m else if id == j then (id, v) ∷ m else (j, w) ∷ later

-- `new Date(ms)`: a time value beyond 8.64e15 is no date.
unfoldable pub to_date : ℕ → Option ℕ
to_date ms = if leb ms 8640000000000000 then some ms else none

pub data Width : Type 0 where
  one two four eight : Width

unfoldable pub read_width : Width → Reader → Result (ℕ × Reader)
read_width one r = u8 r
read_width two r = u16 r
read_width four r = u32 r
read_width eight r = u64 r

-- `extended ? r.u16() : r.u8()`
unfoldable pub read_size : Bool → Reader → Result (ℕ × Reader)
read_size extended r = if extended then u16 r else u8 r

unfoldable pub read_entries : ℕ → Bool → Width → Values ℕ → Reader → Result (Values ℕ × Reader)
read_entries zero extended width values r = ok (values, r)
read_entries (suc n) extended width values r = do
  (id, r1) ← read_size extended r
  (v, r2) ← read_width width r1
  read_entries n extended width (put id v values) r2

unfoldable pub read_group : Bool → Width → Values ℕ → Reader → Result (Values ℕ × Reader)
read_group extended width values r = do
  (n, r1) ← read_size extended r
  read_entries n extended width values r1

unfoldable pub read_variable_entries :
    ℕ → Values (List ℕ) → Reader → Result (Values (List ℕ) × Reader)
read_variable_entries zero variable r = ok (variable, r)
read_variable_entries (suc n) variable r = do
  (id, r1) ← u16 r
  (len, r2) ← u16 r1
  (payload, r3) ← bytes len r2
  read_variable_entries n (put id payload variable) r3

unfoldable pub read_variable : Bool → Reader → Result (Option (Values (List ℕ)) × Reader)
read_variable false r = ok (none, r)
read_variable true r = do
  (nx, r1) ← u16 r
  (variable, r2) ← read_variable_entries nx [] r1
  ok ((if ltb 0 nx then some variable else none), r2)

unfoldable pub read_gps : Reader → Result (GpsElement × Reader)
read_gps r = do
  (longitude, r1) ← i32 r
  (latitude, r2) ← i32 r1
  (altitude, r3) ← i16 r2
  (angle, r4) ← u16 r3
  (satellites, r5) ← u8 r4
  (speed, r6) ← u16 r5
  ok (
    record {
      longitude = longitude;
      latitude = latitude;
      altitude = altitude;
      angle = angle;
      satellites = satellites;
      speed = speed;
    },
    r6,
  )

unfoldable pub read_io : Bool → Reader → Result (IoElement × Reader)
read_io extended r = do
  (event_id, r1) ← read_size extended r
  (total, r2) ← read_size extended r1
  (v1, r3) ← read_group extended one [] r2
  (v2, r4) ← read_group extended two v1 r3
  (v4, r5) ← read_group extended four v2 r4
  (v8, r6) ← read_group extended eight v4 r5
  (variable, r7) ← read_variable extended r6
  ok (record { event_id = event_id; values = v8; variable = variable }, r7)

unfoldable pub read_record : Bool → Reader → Result (AvlRecord × Reader)
read_record extended r = do
  (ms, r1) ← u64 r
  (priority, r2) ← u8 r1
  (gps, r3) ← read_gps r2
  (io, r4) ← read_io extended r3
  ok (record { timestamp = to_date ms; priority = priority; gps = gps; io = io }, r4)

unfoldable pub read_records : ℕ → Bool → Reader → Result (List AvlRecord × Reader)
read_records zero extended r = ok ([], r)
read_records (suc n) extended r = do
  (rec, r1) ← read_record extended r
  (recs, r2) ← read_records n extended r1
  ok (rec ∷ recs, r2)

unfoldable pub is_codec_8 : ℕ → Bool
is_codec_8 codec_id = codec_id == codec_8_id || codec_id == codec_8_ext_id

unfoldable pub decode_avl_array : List ℕ → Result DecodedAvl
decode_avl_array field = do
  (codec_id, r1) ← u8 field
  (record_count, r2) ← u8 r1
  if codec_id == codec_16_id
      then err (decode_error codec_16)
      else if not (is_codec_8 codec_id)
      then err (decode_error unsupported_codec)
      else (do
        (records, r3) ← read_records record_count (codec_id == codec_8_ext_id) r2
        (trailing, r4) ← u8 r3
        if not (trailing == record_count)
            then err (decode_error count_mismatch)
            else ok
                (record { codec_id = codec_id; record_count = record_count; records = records }))

-- The checks on a whole frame: length, preamble, length field, CRC.
unfoldable pub decode_tcp_packet : List ℕ → Result DecodedAvl
decode_tcp_packet frame = if ltb (length frame) 12 then err (decode_error too_short) else do
  (preamble, r1) ← u32 frame
  if not (preamble == 0) then err (decode_error bad_preamble) else do
    (data_len, r2) ← u32 (drop 4 frame)
    let field = take data_len (drop 8 frame)
    if not (length field == data_len) then err (decode_error incomplete) else do
      (crc, r3) ← u32 (drop (8 + data_len) frame)
      if not (crc16_ibm field == crc % 65536)
          then err (decode_error crc_mismatch)
          else decode_avl_array field

unfoldable pub build_tcp_ack : ℕ → Result (List ℕ)
build_tcp_ack record_count = write_u32 record_count

-- `none` is the `null` of a frame that is not buffered whole.
unfoldable pub extract_frame : List ℕ → Result (Option (List ℕ × List ℕ))
extract_frame buf = if ltb (length buf) 8 then ok none else do
  (data_len, r) ← u32 (drop 4 buf)
  let total = 8 + data_len + 4
  ok (if ltb (length buf) total then none else some (take total buf, drop total buf))

unfoldable pub encode_tcp_packet : List ℕ → Result (List ℕ)
encode_tcp_packet field = do
  len ← write_u32 (length field)
  crc ← write_u16 (crc16_ibm field)
  ok (0 ∷ 0 ∷ 0 ∷ 0 ∷ (len ++ (field ++ (0 ∷ 0 ∷ crc))))
