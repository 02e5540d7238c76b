-- ===== src/Ingestion/AvlMap.antt =====
-- services/ingestion/src/avl-map.ts: AVL ids become named fields, and the rest is kept by id.
-- A time is its milliseconds. A value with a scale of 0.001 is kept as `thousandths` of its raw
-- number: the product is not computed.
use fleet_tracking_system.Common.{
  ℕ, zero, suc, ◌+◌, ◌*◌, ◌/◌, ◌%◌, [], ◌∷◌, Bool, ◌&&◌, ◌||◌, true, false, Option, none, some,
  Text, ltb, ◌==◌, nat_eq, if◌then◌else◌,
}
use fleet_tracking_system.Common.{◌^◌, String, string_eq}
use fleet_tracking_system.Common.Int.{ℤ}
use fleet_tracking_system.Common.Dict
use fleet_tracking_system.Common.Dict.{Dict}
use fleet_tracking_system.Protocol.Fault.{Result, ok, err, range_error}
use fleet_tracking_system.Protocol.Codec8.{Values, put, AvlRecord}

pub record Spec : Type 0 where
  pub name : String
  pub scaled : Bool

abbrev plain : String → Option Spec
plain name = some (record { name = name; scaled = false })

-- The second half of the table `FTC927`.
unfoldable pub ftc927_high : ℕ → Option Spec
ftc927_high id =
    if id == 181
    then plain "gnssPdop"
    else if id == 182
    then plain "gnssHdop"
    else if id == 199
    then plain "tripOdometerM"
    else if id == 200
    then plain "sleepMode"
    else if id == 237
    then plain "networkType"
    else if id == 239
    then plain "ignition"
    else if id == 240
    then plain "movement"
    else if id == 241
    then plain "gsmOperator"
    else if id == 449
    then plain "ignitionOnCounterS"
    else if id == 800
    then plain "externalVoltageMv"
    else if id == 1148
    then plain "connectivityQuality"
    else if id == 1433
    then plain "deadReckoningStatus"
    else none

-- The table `FTC927`.
unfoldable pub ftc927 : ℕ → Option Spec
ftc927 id =
    if id == 1
    then plain "digitalInput1"
    else if id == 9
    then some (record { name = "analogInput1V"; scaled = true })
    else if id == 16
    then plain "totalOdometerM"
    else if id == 17
    then plain "accelX"
    else if id == 18
    then plain "accelY"
    else if id == 19
    then plain "accelZ"
    else if id == 21
    then plain "gsmSignal"
    else if id == 66
    then plain "externalVoltageMv"
    else if id == 67
    then plain "batteryVoltageMv"
    else if id == 68
    then plain "batteryCurrentMa"
    else if id == 69
    then plain "gnssStatus"
    else if id == 113
    then plain "batteryLevelPct"
    else if id == 179
    then plain "digitalOutput1"
    else ftc927_high id

pub data FieldValue : Type 0 where
  whole thousandths : ℕ → FieldValue

pub record NormalizedTelemetry : Type 0 where
  pub imei : Text
  pub ts : ℕ
  pub latitude : ℤ
  pub longitude : ℤ
  pub altitude : ℤ
  pub heading : ℕ
  pub speed_kph : ℕ
  pub satellites : ℕ
  pub priority : ℕ
  pub event_id : ℕ
  pub fields : Dict String FieldValue
  pub attrs : Values ℕ

-- `Number(raw)` of a number below 2 ^ 64: the nearest of 53 bits, the even one of two.
unfoldable pub excess_bits : ℕ → ℕ → ℕ → ℕ
excess_bits zero k v = k
excess_bits (suc n) k v =
    let more = excess_bits n (k + 1) v in if ltb v (2 ^ (53 + k)) then k else more

unfoldable pub round_bits : ℕ → ℕ → ℕ
round_bits k v =
    let unit = 2 ^ k in
    let q = v / unit in
    let r = v % unit in
    if ltb (2 * r) unit || (2 * r == unit && q % 2 == 0) then q * unit else (q + 1) * unit

unfoldable pub to_number : ℕ → ℕ
unfolding excess_bits round_bits
to_number v = if ltb v 9007199254740992 then v else round_bits (excess_bits 11 1 v) v

unfoldable pub scale : Spec → ℕ → FieldValue
scale spec n = if spec.scaled then thousandths n else whole n

-- The loop of `normalize` over the entries of `values`.
unfoldable pub map_values :
    Values ℕ → Dict String FieldValue → Values ℕ → Dict String FieldValue × Values ℕ
map_values [] fields attrs = (fields, attrs)
map_values ((id, raw) ∷ rest) fields attrs =
    let n = to_number raw in
    let step : Dict String FieldValue × Values ℕ = elim (ftc927 id) [
      | some spec ↦ (Dict.set spec.name (scale spec n) fields, attrs)
      | none ↦ (fields, put id n attrs)
    ] in
    map_values rest step.0 step.1

-- An invalid date throws in `toISOString`.
unfoldable pub normalize : Text → AvlRecord → Result NormalizedTelemetry
normalize imei rec = elim rec.timestamp [
  | none ↦ err range_error
  | some ms ↦
      let (fields, attrs) = map_values rec.io.values [] [] in
      ok (record {
        imei = imei;
        ts = ms;
        latitude = rec.gps.latitude;
        longitude = rec.gps.longitude;
        altitude = rec.gps.altitude;
        heading = rec.gps.angle;
        speed_kph = rec.gps.speed;
        satellites = rec.gps.satellites;
        priority = rec.priority;
        event_id = rec.io.event_id;
        fields = fields;
        attrs = attrs;
      })
]
