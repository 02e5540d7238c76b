-- ===== src/Protocol/Params/Ids.antt =====
-- The ids of params.ts.
use fleet_tracking_system.Common.{
  ℕ, ◌+◌, ◌%◌, ◌<◌, ◌≡◌, refl, sym, ap, ◌∙◌, arith, some, text_eq, ltb, ◌==◌, nat_eq, if◌then◌else◌,
}
use fleet_tracking_system.Protocol.Params.{
  NetworkMode, home, roaming, unknown, MotionMode, stop, moving, Field, min_period_sec,
  min_distance_m, min_angle_deg, min_speed_delta_kph, min_saved_records, send_period_sec,
  profile_base, field_offset, param_id,
}

field_of : ℕ → Field
field_of n =
    if n == 0
    then min_period_sec
    else if n == 1
    then min_distance_m
    else if n == 2
    then min_angle_deg
    else if n == 3
    then min_speed_delta_kph
    else if n == 4
    then min_saved_records
    else send_period_sec

net_of : ℕ → NetworkMode
net_of id = if ltb id 10100 then home else if ltb id 10200 then roaming else unknown

motion_of : ℕ → MotionMode
motion_of id = if ltb (id % 100) 50 then stop else moving

field_of-field_offset :
    (field : Field) → (field_of (field_offset field) ≡ field) × (field_offset field < 6)
unfolding field_of field_offset
field_of-field_offset min_period_sec = (refl, omega arith)
field_of-field_offset min_distance_m = (refl, omega arith)
field_of-field_offset min_angle_deg = (refl, omega arith)
field_of-field_offset min_speed_delta_kph = (refl, omega arith)
field_of-field_offset min_saved_records = (refl, omega arith)
field_of-field_offset send_period_sec = (refl, omega arith)

net_motion_of :
    (net : NetworkMode) (motion : MotionMode) (o : ℕ)
    → o < 6
    → (net_of (profile_base net motion + o) ≡ net)
      × ((motion_of (profile_base net motion + o) ≡ motion)
          × ((profile_base net motion + o) % 50 ≡ o))
unfolding net_of motion_of profile_base
net_motion_of home stop o h = (ground arith, (ground arith, omega arith))
net_motion_of home moving o h = (ground arith, (ground arith, omega arith))
net_motion_of roaming stop o h = (ground arith, (ground arith, omega arith))
net_motion_of roaming moving o h = (ground arith, (ground arith, omega arith))
net_motion_of unknown stop o h = (ground arith, (ground arith, omega arith))
net_motion_of unknown moving o h = (ground arith, (ground arith, omega arith))

-- What an id says can be read off it.
read_id :
    (net : NetworkMode) (motion : MotionMode) (field : Field)
    → let id = profile_base net motion + field_offset field in
      (net_of id ≡ net) × ((motion_of id ≡ motion) × (field_of (id % 50) ≡ field))
read_id net motion field =
    let (back, small) = field_of-field_offset field in
    let (n, (m, f)) = net_motion_of net motion (field_offset field) small in
    (n, (m, ap field_of f ∙ back))

-- No two settings share an id: the network, the motion and the field of a setting follow from its
-- id.
pub param_id_unique :
    (net net' : NetworkMode) (motion motion' : MotionMode) (field field' : Field) (id : ℕ)
    → param_id net motion field ≡ some id
    → param_id net' motion' field' ≡ some id
    → (net ≡ net') × ((motion ≡ motion') × (field ≡ field'))
unfolding param_id
param_id_unique net net' motion motion' field field' id h h' =
    let (a, (b, c)) = read_id net motion field in
    let (a', (b', c')) = read_id net' motion' field' in
    let same : profile_base net motion + field_offset field
        ≡ profile_base net' motion' + field_offset field' =
      ground arith in
    (
      sym a ∙ (ap net_of same ∙ a'),
      (sym b ∙ (ap motion_of same ∙ b'), sym c ∙ (ap (λ i. field_of (i % 50)) same ∙ c')),
    )
