-- ===== src/Driver/Rd/Detect.antt =====
-- src/driver/rd_driver/pc_opt.cpp: what the lidar driver remembers, one frame (process_msg, on the
-- thread of processCloud) and one tick of the timer that start() sets up. A lock makes each access
-- of the result whole; a frame and a tick are taken as single steps. `none` is the use of a null
-- cloud, or an access out of range in the filter.
pub mod Framed
pub mod Latch
pub mod Offline
pub mod Seen
use auto_drop.Prelude.{
  ℕ, ◌+◌, Bool, true, false, not, if◌then◌else◌, leb, Option, none, some, List, [], ◌∷◌, ◌++◌,
}
use auto_drop.Prelude.Loops.{◌>>=◌}
use auto_drop.Driver.Common.{
  Position, begin, middle, ending, out, RdResult, CommonDriver, init_driver, sim_vehicle_position,
  sim_vehicle_stuff, sim_full_offset, set_side_top_z,
}
use auto_drop.Driver.Rd.{FloatOps}
use auto_drop.Driver.Rd.Offsets.{Filters, reset_both, calc_filtered_full_offset}
use auto_drop.Driver.Rd.Cloud.{
  Cloud, Echo, Pcl, Ini, color_cloud, split_cloud_to_side_and_content, pc_range_filter,
  pc_vox_filter, pc_transform, make_cloud_by_msg,
}
use auto_drop.Driver.Rd.Position.{KeySegParams, get_position_state_from_cloud}

-- The globals: null clouds are `none`. `cloud_bin` is the file /tmp/cloud.bin.
pub record Detector (F : Type 0) : Type 0 where
  pub filters : Filters F
  pub result : RdResult F
  pub distance : F
  pub cur_cloud : Option (Cloud F)
  pub output_cloud : Option (Cloud F)
  pub full_cloud : Option (List (Echo F))
  pub update_counter : ℕ
  pub cloud_bin : Option (Cloud F)

abbrev pub is_out : Position → Bool
is_out out = true
is_out begin = false
is_out middle = false
is_out ending = false

abbrev pub grow : {F : Type 0} → Cloud F → Option (Cloud F) → Option (Cloud F)
grow c none = none
grow c (some old) = some (old ++ c)

module _ {F : Type 0} where
  unfoldable pub put_cloud : Cloud F → Detector F → Detector F
  put_cloud c s = record s { cur_cloud = grow c s.cur_cloud }

  unfoldable pub update_cur_cloud : Detector F → Detector F
  update_cur_cloud s = record s { output_cloud = s.cur_cloud; cur_cloud = some [] }

  unfoldable pub get_cur_cloud : Detector F → Option (Cloud F)
  get_cur_cloud s = s.output_cloud

  unfoldable pub get_full_cloud : Detector F → List (Echo F)
  get_full_cloud s = elim s.full_cloud [ none ↦ [] | some c ↦ c ]

  unfoldable pub save_full_cloud : List (Echo F) → Detector F → Detector F
  save_full_cloud c s = record s { full_cloud = some c }

  unfoldable pub save_detect_result : RdResult F → Detector F → Detector F
  save_detect_result r s = record s { result = r }

  unfoldable pub get_detect_result : Detector F → RdResult F
  get_detect_result s = s.result

  unfoldable pub serial_pc : Detector F → Option (Detector F)
  unfolding get_cur_cloud
  serial_pc s =
      if leb 5 (s.update_counter + 1)
      then (do
        cloud ← get_cur_cloud s
        some (record s { update_counter = 0; cloud_bin = some cloud }))
      else some (record s { update_counter = s.update_counter + 1 })

module _ {F : Type 0} (ops : FloatOps F) where
  unfoldable pub reset_filters : Detector F → Detector F
  unfolding reset_both
  reset_filters s = record s { filters = reset_both ops s.filters }

  module _ (ini : Ini F) where
    unfoldable pub calc_xlrd_z : Detector F → F
    calc_xlrd_z s = ops.add (ops.neg s.distance) ini.distance_offset

    unfoldable pub vehilce_disappeared : Detector F → Bool
    unfolding calc_xlrd_z
    vehilce_disappeared s = ops.lt (calc_xlrd_z s) ini.bottom_z

    -- is_full and full_offset
    unfoldable pub vehicle_is_full : F → Detector F → Option (Bool × F × Detector F)
    vehicle_is_full max_z s = do
      let top = ops.add (ops.neg s.distance) ini.distance_offset
      (offset, f) ← calc_filtered_full_offset ops (ops.sub top max_z) ini.filter_length s.filters
      some (ops.lt ini.full_rate offset, offset, record s { filters = f })

    -- The state and side_top_z that pc_get_state returns.
    abbrev pub found_of : KeySegParams F → Position × F
    found_of key = (key.state, if is_out key.state then ops.zero_f else key.z)

    unfoldable pub found_in : Pcl F → Cloud F → Position × F
    found_in pcl cloud =
        let split = split_cloud_to_side_and_content pcl ini cloud in
        found_of (get_position_state_from_cloud ops pcl ini split.legal_side).0

    unfoldable pub pc_get_state : Pcl F → Cloud F → Detector F → (Position × F) × Detector F
    unfolding reset_filters put_cloud update_cur_cloud
    pc_get_state pcl cloud s =
        let split = split_cloud_to_side_and_content pcl ini cloud in
        let drawn = (get_position_state_from_cloud ops pcl ini split.legal_side).1 in
        let found = found_in pcl cloud in
        let side = if is_out found.0 then drawn else color_cloud 0 255 0 drawn in
        let s' = if is_out found.0 then reset_filters s else s in
        (
          found,
          update_cur_cloud
              (put_cloud split.illegal_side (put_cloud side (put_cloud split.content s'))),
        )

    unfoldable pub prepare : Pcl F → List (Echo F) → Cloud F
    prepare pcl msg =
        pc_vox_filter pcl ini
          (pc_range_filter pcl ini (pc_transform pcl ini (make_cloud_by_msg ops ini msg)))

    -- The result so far stays once it is not out; nothing stays when the vehicle is gone.
    abbrev pub hold : RdResult F → Position × F → Position × F
    hold orig found = if is_out orig.state then found else (orig.state, orig.side_top_z)

    unfoldable pub process_msg : Pcl F → Option (List (Echo F)) → Detector F → Option (Detector F)
    unfolding save_full_cloud get_detect_result reset_filters save_detect_result
    process_msg pcl none s = some s
    process_msg pcl (some msg) s = do
      let (found, s1) = pc_get_state pcl (prepare pcl msg) (save_full_cloud msg s)
      let held = hold (get_detect_result s1) found
      let gone = vehilce_disappeared s1
      let position : Position × F = if gone then (out, ops.zero_f) else held
      let s2 = if gone then reset_filters s1 else s1
      (full, offset, s3) ← vehicle_is_full position.1 s2
      let r : RdResult F = record {
        state = position.0;
        is_full = full;
        full_offset = offset;
        side_top_z = position.1;
      }
      some (save_detect_result r s3)

-- RS_DRIVER: a common_driver with the globals; the lidar has been started.
abbrev pub RsDriver : Type 0 → Type 0
RsDriver F = CommonDriver F (Detector F)

unfoldable pub start : {F : Type 0} → FloatOps F → Filters F → RsDriver F
unfolding init_driver
start ops f = init_driver ops.zero_f (record {
  filters = f;
  result = record {
    state = out;
    is_full = false;
    full_offset = ops.zero_f;
    side_top_z = ops.zero_f;
  };
  distance = ops.zero_f;
  cur_cloud = none;
  output_cloud = none;
  full_cloud = none;
  update_counter = 0;
  cloud_bin = none;
})

-- The callback of startTimer, for the distance that the modbus thread has read last.
unfoldable pub tick : {F : Type 0} → F → RsDriver F → Option (RsDriver F)
unfolding get_detect_result sim_vehicle_position sim_vehicle_stuff sim_full_offset set_side_top_z
tick d c = do
  let s = c.sub
  let r = get_detect_result s
  let c' =
      set_side_top_z r.side_top_z (
        sim_full_offset r.full_offset
          (sim_vehicle_stuff r.is_full (sim_vehicle_position r.state c)))
  s' ← serial_pc (record s { distance = d })
  some (record c' { sub = s'; published = c'.published + 1 })

pub data Event (F : Type 0) : Type 0 where
  frame : List (Echo F) → Event F
  ticked : F → Event F

module _ {F : Type 0} (ops : FloatOps F) (ini : Ini F) (pcl : Pcl F) where
  unfoldable pub handle : Event F → RsDriver F → Option (RsDriver F)
  handle (frame msg) c = do
    s ← process_msg ops ini pcl (some msg) c.sub
    some (record c { sub = s })
  handle (ticked d) c = tick d c

  unfoldable pub handle_all : List (Event F) → RsDriver F → Option (RsDriver F)
  unfolding handle
  handle_all [] c = some c
  handle_all (e ∷ es) c = do c' ← handle e c; handle_all es c'
