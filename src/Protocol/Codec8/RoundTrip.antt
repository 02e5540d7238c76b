-- ===== src/Protocol/Codec8/RoundTrip.antt =====
-- The decoder of codec8.ts reads back every data array that has the layout.
use fleet_tracking_system.Common.{
  ℕ, ◌<◌, List, [], ◌∷◌, ◌++◌, ◌≡◌, refl, arith, Bool, true, false, length, nat_eq, if◌then◌else◌,
  map, take-append_eq, drop-append_eq,
}
use fleet_tracking_system.Protocol.Fault.{ok}
use fleet_tracking_system.Protocol.Reader.{u64, i16, i32, bytes, be16}
use fleet_tracking_system.Protocol.Reader.RoundTrip.{u8_cons, u16-be16, u32-be32}
use fleet_tracking_system.Protocol.Codec8.{
  Width, one, two, four, eight, Values, codec_8_id, codec_8_ext_id, read_width, read_size,
  read_entries, read_group, read_variable_entries, read_variable, read_gps, read_io, read_record,
  read_records, decode_avl_array, is_codec_8,
}
use fleet_tracking_system.Protocol.Codec8.Layout.{
  be64, WireRecord, size, value, entries, group, variable_entries, variable_group, gps_fields,
  io_fields, record_fields, record_list, data_array, put_all, meant_variable, meant_gps, meant_io,
  meant, size_limit, width_limit, EntriesFit, GroupFits, VariableFit, Fits, AllFit,
}

u64-be64 : (v : ℕ) (t : List ℕ) → v < 18446744073709551616 → u64 (be64 v t) ≡ ok (v, t)
unfolding u64 be64
u64-be64 v t h = ground arith

read_size-size :
    (extended : Bool) (v : ℕ) (t : List ℕ)
    → v < size_limit extended
    → read_size extended (size extended v t) ≡ ok (v, t)
unfolding read_size size
read_size-size true v t h = u16-be16 v t h
read_size-size false v t h = u8_cons v t

read_width-value :
    (width : Width) (v : ℕ) (t : List ℕ)
    → v < width_limit width
    → read_width width (value width v t) ≡ ok (v, t)
unfolding read_width value
read_width-value one v t h = u8_cons v t
read_width-value two v t h = u16-be16 v t h
read_width-value four v t h = u32-be32 v t h
read_width-value eight v t h = u64-be64 v t h

read_entries-entries :
    (extended : Bool) (width : Width) (m : List (ℕ × ℕ)) (values : Values ℕ) (t : List ℕ)
    → EntriesFit extended width m
    → read_entries (length m) extended width values (entries extended width m t)
      ≡ ok (put_all m values, t)
unfolding read_entries entries put_all
read_entries-entries extended width [] values t h = refl
read_entries-entries extended width ((id, v) ∷ m) values t (hid, hv, hm) =
    rw (read_size-size extended id _ hid, read_width-value width v _ hv)
      (read_entries-entries extended width m _ t hm)

read_group-group :
    (extended : Bool) (width : Width) (m : List (ℕ × ℕ)) (values : Values ℕ) (t : List ℕ)
    → GroupFits extended width m
    → read_group extended width values (group extended width m t) ≡ ok (put_all m values, t)
unfolding read_group group
read_group-group extended width m values t h =
    rw (read_size-size extended (length m) _ h.count)
      (read_entries-entries extended width m values t h.each)

read_variable_entries-variable_entries :
    (m : List (ℕ × List ℕ)) (values : Values (List ℕ)) (t : List ℕ)
    → VariableFit m
    → read_variable_entries (length m) values (variable_entries m t) ≡ ok (put_all m values, t)
unfolding read_variable_entries variable_entries put_all bytes
read_variable_entries-variable_entries [] values t h = refl
read_variable_entries-variable_entries ((id, p) ∷ m) values t (hid, hp, hm) =
    rw
      (
        u16-be16 id (be16 (length p) ++ (p ++ variable_entries m t)) hid,
        u16-be16 (length p) (p ++ variable_entries m t) hp,
        take-append_eq (length p) p (variable_entries m t) refl,
        drop-append_eq (length p) p (variable_entries m t) refl,
      )
      (read_variable_entries-variable_entries m _ t hm)

read_variable-variable_group :
    (extended : Bool) (m : List (ℕ × List ℕ)) (t : List ℕ)
    → length m < 65536
    → VariableFit m
    → read_variable extended (variable_group extended m t) ≡ ok (meant_variable extended m, t)
unfolding read_variable variable_group meant_variable
read_variable-variable_group false m t hn h = refl
read_variable-variable_group true m t hn h =
    rw (u16-be16 (length m) _ hn, read_variable_entries-variable_entries m [] t h) refl

read_gps-gps_fields :
    (extended : Bool) (w : WireRecord) (t : List ℕ)
    → Fits extended w
    → read_gps (gps_fields w t) ≡ ok (meant_gps w, t)
unfolding read_gps gps_fields meant_gps i16 i32
read_gps-gps_fields extended w t h = rw (
  u32-be32 w.longitude _ h.longitude,
  u32-be32 w.latitude _ h.latitude,
  u16-be16 w.altitude _ h.altitude,
  u16-be16 w.angle _ h.angle,
  u8_cons w.satellites,
  u16-be16 w.speed _ h.speed,
)

read_io-io_fields :
    (extended : Bool) (w : WireRecord) (t : List ℕ)
    → Fits extended w
    → read_io extended (io_fields extended w t) ≡ ok (meant_io extended w, t)
unfolding read_io io_fields meant_io
read_io-io_fields extended w t h = rw (
  read_size-size extended w.event_id _ h.event_id,
  read_size-size extended w.total _ h.total,
  read_group-group extended one w.ones [] _ h.ones,
  read_group-group extended two w.twos _ _ h.twos,
  read_group-group extended four w.fours _ _ h.fours,
  read_group-group extended eight w.eights _ _ h.eights,
  read_variable-variable_group extended w.variable t h.variable_count h.variable,
)

-- A record of the wire decodes to what it means, and the bytes behind it are left.
pub read_record-record_fields :
    (extended : Bool) (w : WireRecord) (t : List ℕ)
    → Fits extended w
    → read_record extended (record_fields extended w t) ≡ ok (meant extended w, t)
unfolding read_record record_fields meant
read_record-record_fields extended w t h = rw (
  u64-be64 w.ms _ h.ms,
  u8_cons w.priority,
  read_gps-gps_fields extended w _ h,
  read_io-io_fields extended w t h,
)

read_records-record_list :
    (extended : Bool) (ws : List WireRecord) (t : List ℕ)
    → AllFit extended ws
    → read_records (length ws) extended (record_list extended ws t)
      ≡ ok (map (meant extended) ws, t)
unfolding read_records record_list
read_records-record_list extended [] t h = refl
read_records-record_list extended (w ∷ ws) t (hw, hs) = rw (
  read_record-record_fields extended w (record_list extended ws t) hw,
  read_records-record_list extended ws t hs,
)

-- Every data array of Codec 8 or Codec 8 Extended, of up to 255 records with fields that fit, is
-- decoded to the records that it means, in order.
pub decode_avl_array-data_array :
    (extended : Bool) (ws : List WireRecord)
    → length ws < 256
    → AllFit extended ws
    → let codec_id = (if extended then codec_8_ext_id else codec_8_id) in
      decode_avl_array (data_array codec_id extended ws)
      ≡ ok (record {
        codec_id = codec_id;
        record_count = length ws;
        records = map (meant extended) ws;
      })
unfolding decode_avl_array data_array is_codec_8
decode_avl_array-data_array true ws hn h =
    rw (u8_cons, u8_cons, read_records-record_list true ws (length ws ∷ []) h, u8_cons)
      (ground arith)
decode_avl_array-data_array false ws hn h =
    rw (u8_cons, u8_cons, read_records-record_list false ws (length ws ∷ []) h, u8_cons)
      (ground arith)
