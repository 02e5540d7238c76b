-- ===== src/Protocol/Params.antt =====
-- packages/protocol-teltonika/src/params.ts: the ids of the settings of a tracker, and the commands that
-- write and read them. Values are whole numbers. Replies has the readers of the device's replies.
pub mod Ids
pub mod Replies
use fleet_tracking_system.Common.{
  ℕ, zero, suc, ◌+◌, ◌-◌, ◌*◌, ◌/◌, ◌%◌, ◌≤◌, ◌<◌, List, [], ◌∷◌, ◌++◌, ◌≡◌, ◌≢◌, refl, sym, ap,
  ◌∙◌, arith, Bool, ◌&&◌, ◌||◌, not, true, false, Option, none, some, Text, text_eq, length, take,
  drop, ltb, leb, nat_beq, ◌==◌, nat_eq, if◌then◌else◌, Bool-cases, Option-cases, ◌⊎◌, inl, inr,
  All, map, length-append, length-take, length-drop, append-nil, append_assoc, take-append_le,
  drop-append_le, take-append_eq, drop-append_eq, drop_two, take-append-drop,
}
use fleet_tracking_system.Common.Decimal.{codes, decimal}

pub data NetworkMode : Type 0 where
  home roaming unknown : NetworkMode

pub data MotionMode : Type 0 where
  stop moving : MotionMode

pub data Field : Type 0 where
  min_period_sec min_distance_m min_angle_deg min_speed_delta_kph min_saved_records
        send_period_sec :
      Field

unfoldable pub profile_base : NetworkMode → MotionMode → ℕ
profile_base home stop = 10000
profile_base home moving = 10050
profile_base roaming stop = 10100
profile_base roaming moving = 10150
profile_base unknown stop = 10200
profile_base unknown moving = 10250

-- `OFF`
unfoldable pub field_offset : Field → ℕ
field_offset min_period_sec = 0
field_offset min_distance_m = 1
field_offset min_angle_deg = 2
field_offset min_speed_delta_kph = 3
field_offset min_saved_records = 4
field_offset send_period_sec = 5

-- `PARAM_RANGE`, the least and the greatest value
unfoldable pub param_range : Field → ℕ × ℕ
param_range min_period_sec = (0, 2592000)
param_range min_distance_m = (0, 65535)
param_range min_angle_deg = (0, 180)
param_range min_speed_delta_kph = (0, 100)
param_range min_saved_records = (1, 255)
param_range send_period_sec = (0, 2592000)

-- The settings that the On-Stop profile does not have.
unfoldable pub moving_only : Field → Bool
moving_only min_period_sec = false
moving_only min_distance_m = true
moving_only min_angle_deg = true
moving_only min_speed_delta_kph = true
moving_only min_saved_records = false
moving_only send_period_sec = false

unfoldable pub is_stop : MotionMode → Bool
is_stop stop = true
is_stop moving = false

-- `none` where the code throws.
unfoldable pub param_id : NetworkMode → MotionMode → Field → Option ℕ
param_id net motion field =
    if is_stop motion && moving_only field
    then none
    else some (profile_base net motion + field_offset field)

unfoldable pub profile_fields : MotionMode → List Field
profile_fields moving =
    min_period_sec ∷ min_distance_m ∷ min_angle_deg ∷ min_speed_delta_kph ∷ min_saved_records
    ∷ send_period_sec ∷ []
profile_fields stop = min_period_sec ∷ min_saved_records ∷ send_period_sec ∷ []

-- `validateProfile` of one entry
unfoldable pub valid_entry : MotionMode → Field × ℕ → Bool
valid_entry motion (field, v) =
    (not (ltb v (param_range field).0) && not (ltb (param_range field).1 v))
    && not (is_stop motion && moving_only field)

unfoldable pub validate_profile : MotionMode → List (Field × ℕ) → Bool
validate_profile motion [] = true
validate_profile motion (e ∷ values) = valid_entry motion e && validate_profile motion values

unfoldable pub id_text : Option ℕ → Text
id_text none = []
id_text (some id) = decimal id

-- The entries, with a semicolon between each two.
unfoldable pub parts : NetworkMode → MotionMode → List (Field × ℕ) → Text
parts net motion [] = []
parts net motion ((field, v) ∷ values) =
    let one = id_text (param_id net motion field) ++ (b':' ∷ decimal v) in
    let rest = parts net motion values in elim values [ [] ↦ one | e ∷ es ↦ one ++ (b';' ∷ rest) ]

unfoldable pub build_set_param : NetworkMode → MotionMode → List (Field × ℕ) → Option Text
build_set_param net motion [] = none
build_set_param net motion (e ∷ values) =
    if validate_profile motion (e ∷ values)
    then some (codes "setparam " ++ parts net motion (e ∷ values))
    else none

unfoldable pub id_list : NetworkMode → MotionMode → List Field → Text
id_list net motion [] = []
id_list net motion (field ∷ fields) =
    let one = id_text (param_id net motion field) in
    let rest = id_list net motion fields in elim fields [ [] ↦ one | f ∷ fs ↦ one ++ (b';' ∷ rest) ]

unfoldable pub build_get_param : NetworkMode → MotionMode → Text
build_get_param net motion = codes "getparam " ++ id_list net motion (profile_fields motion)
