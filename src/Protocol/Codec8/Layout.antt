-- ===== src/Protocol/Codec8/Layout.antt =====
-- The layout of an AVL data array, written down on its own: the fields of each record in the order
-- of the wire, big-endian, with ids and counts of one byte in Codec 8 and of two in Codec 8
-- Extended. `AvlRecord`s are what such a record means. The decoder is proved against it.
use fleet_tracking_system.Common.{
  ℕ, ◌/◌, ◌%◌, ◌<◌, List, [], ◌∷◌, ◌++◌, Bool, true, false, Option, none, some, length, ltb,
  if◌then◌else◌,
}
use fleet_tracking_system.Protocol.Reader.{be16, be32, signed}
use fleet_tracking_system.Protocol.Codec8.{
  Width, one, two, four, eight, Values, put, to_date, GpsElement, IoElement, AvlRecord,
}

unfoldable pub be64 : ℕ → List ℕ → List ℕ
be64 v t =
    v / 72057594037927936 % 256
    ∷ v / 281474976710656 % 256
    ∷ v / 1099511627776 % 256
    ∷ v / 4294967296 % 256
    ∷ v / 16777216 % 256
    ∷ v / 65536 % 256
    ∷ v / 256 % 256
    ∷ v % 256
    ∷ t

pub record WireRecord : Type 0 where
  pub ms : ℕ
  pub priority : ℕ
  pub longitude : ℕ
  pub latitude : ℕ
  pub altitude : ℕ
  pub angle : ℕ
  pub satellites : ℕ
  pub speed : ℕ
  pub event_id : ℕ
  pub total : ℕ
  pub ones : List (ℕ × ℕ)
  pub twos : List (ℕ × ℕ)
  pub fours : List (ℕ × ℕ)
  pub eights : List (ℕ × ℕ)
  pub variable : List (ℕ × List ℕ)

-- Each writer puts its field before the bytes `t` that follow.
unfoldable pub size : Bool → ℕ → List ℕ → List ℕ
size extended v t = if extended then be16 v ++ t else v ∷ t

unfoldable pub value : Width → ℕ → List ℕ → List ℕ
value one v t = v ∷ t
value two v t = be16 v ++ t
value four v t = be32 v ++ t
value eight v t = be64 v t

unfoldable pub entries : Bool → Width → List (ℕ × ℕ) → List ℕ → List ℕ
entries extended width [] t = t
entries extended width ((id, v) ∷ m) t =
    size extended id (value width v (entries extended width m t))

unfoldable pub group : Bool → Width → List (ℕ × ℕ) → List ℕ → List ℕ
group extended width m t = size extended (length m) (entries extended width m t)

unfoldable pub variable_entries : List (ℕ × List ℕ) → List ℕ → List ℕ
variable_entries [] t = t
variable_entries ((id, p) ∷ m) t = be16 id ++ (be16 (length p) ++ (p ++ variable_entries m t))

unfoldable pub variable_group : Bool → List (ℕ × List ℕ) → List ℕ → List ℕ
variable_group false m t = t
variable_group true m t = be16 (length m) ++ variable_entries m t

unfoldable pub gps_fields : WireRecord → List ℕ → List ℕ
gps_fields w t =
    be32 w.longitude
    ++ (be32 w.latitude
        ++ (be16 w.altitude ++ (be16 w.angle ++ (w.satellites ∷ (be16 w.speed ++ t)))))

unfoldable pub io_fields : Bool → WireRecord → List ℕ → List ℕ
io_fields extended w t = size extended w.event_id (
    size extended w.total (
      group extended one w.ones (
        group extended two w.twos (
          group extended four w.fours
            (group extended eight w.eights (variable_group extended w.variable t))))))

unfoldable pub record_fields : Bool → WireRecord → List ℕ → List ℕ
record_fields extended w t = be64 w.ms (w.priority ∷ gps_fields w (io_fields extended w t))

unfoldable pub record_list : Bool → List WireRecord → List ℕ → List ℕ
record_list extended [] t = t
record_list extended (w ∷ ws) t = record_fields extended w (record_list extended ws t)

unfoldable pub data_array : ℕ → Bool → List WireRecord → List ℕ
data_array codec_id extended ws = codec_id ∷ length ws ∷ record_list extended ws (length ws ∷ [])

-- What a record of the wire means.
unfoldable pub put_all {ℓ} : {A : Type ℓ} → List (ℕ × A) → Values A → Values A
put_all [] values = values
put_all ((id, v) ∷ m) values = put_all m (put id v values)

unfoldable pub meant_variable : Bool → List (ℕ × List ℕ) → Option (Values (List ℕ))
meant_variable false m = none
meant_variable true m = if ltb 0 (length m) then some (put_all m []) else none

unfoldable pub meant_gps : WireRecord → GpsElement
meant_gps w = record {
  longitude = signed 32 w.longitude;
  latitude = signed 32 w.latitude;
  altitude = signed 16 w.altitude;
  angle = w.angle;
  satellites = w.satellites;
  speed = w.speed;
}

unfoldable pub meant_io : Bool → WireRecord → IoElement
meant_io extended w = record {
  event_id = w.event_id;
  values = put_all w.eights (put_all w.fours (put_all w.twos (put_all w.ones [])));
  variable = meant_variable extended w.variable;
}

unfoldable pub meant : Bool → WireRecord → AvlRecord
meant extended w = record {
  timestamp = to_date w.ms;
  priority = w.priority;
  gps = meant_gps w;
  io = meant_io extended w;
}

-- The fields fit their widths.
abbrev pub size_limit : Bool → ℕ
size_limit extended = if extended then 65536 else 256

abbrev pub width_limit : Width → ℕ
width_limit one = 256
width_limit two = 65536
width_limit four = 4294967296
width_limit eight = 18446744073709551616

abbrev pub EntriesFit : Bool → Width → List (ℕ × ℕ) → Type 0
EntriesFit extended width [] = Unit
EntriesFit extended width ((id, v) ∷ m) =
    (id < size_limit extended) × (v < width_limit width) × EntriesFit extended width m

pub record GroupFits (extended : Bool) (width : Width) (m : List (ℕ × ℕ)) : Type 0 where
  pub count : length m < size_limit extended
  pub each : EntriesFit extended width m

abbrev pub VariableFit : List (ℕ × List ℕ) → Type 0
VariableFit [] = Unit
VariableFit ((id, p) ∷ m) = (id < 65536) × (length p < 65536) × VariableFit m

pub record Fits (extended : Bool) (w : WireRecord) : Type 0 where
  pub ms : w.ms < 18446744073709551616
  pub priority : w.priority < 256
  pub satellites : w.satellites < 256
  pub longitude : w.longitude < 4294967296
  pub latitude : w.latitude < 4294967296
  pub altitude : w.altitude < 65536
  pub angle : w.angle < 65536
  pub speed : w.speed < 65536
  pub event_id : w.event_id < size_limit extended
  pub total : w.total < size_limit extended
  pub ones : GroupFits extended one w.ones
  pub twos : GroupFits extended two w.twos
  pub fours : GroupFits extended four w.fours
  pub eights : GroupFits extended eight w.eights
  pub variable_count : length w.variable < 65536
  pub variable : VariableFit w.variable

abbrev pub AllFit : Bool → List WireRecord → Type 0
AllFit extended [] = Unit
AllFit extended (w ∷ ws) = Fits extended w × AllFit extended ws
