-- ===== src/Driver/Rd/Position.antt =====
-- src/driver/rd_driver/pc_opt.cpp: the position of a vehicle from the points of its side.
pub mod Segment
use auto_drop.Prelude.{
  ℕ, zero, suc, ◌+◌, Bool, true, false, not, ◌&&◌, if◌then◌else◌, List, [], ◌∷◌, ◌++◌, length,
}
use auto_drop.Prelude.Int.{ℤ, pos}
use auto_drop.Driver.Common.{Position, begin, middle, ending, out}
use auto_drop.Driver.Rd.{FloatOps}
use auto_drop.Driver.Rd.Cloud.{Point, Cloud, Pcl, Ini}

-- x_min, x_max and y_bar of the first loop of find_max_or_min_z_point
pub record Extent (F : Type 0) : Type 0 where
  pub x_min : F
  pub x_max : F
  pub y_bar : F

pub record KeySegParams (F : Type 0) : Type 0 where
  pub x_min : F
  pub x_max : F
  pub y : F
  pub z : F
  pub state : Position

module _ {F : Type 0} (ops : FloatOps F) where
  abbrev pub point_at : F → F → F → Point F
  point_at x y z = record { x = x; y = y; z = z; r = 0; g = 0; b = 0 }

  unfoldable pub extent : Cloud F → Extent F → Extent F
  extent [] e = e
  extent (p ∷ ps) e = extent ps (record {
    x_min = if ops.lt p.x e.x_min then p.x else e.x_min;
    x_max = if ops.lt e.x_max p.x then p.x else e.x_max;
    y_bar = ops.add e.y_bar p.y;
  })

  -- One part of the 30: the extreme z of the points that are near its x.
  unfoldable pub part_z : Bool → F → F → Cloud F → F → F
  part_z is_min threshold x [] best = best
  part_z is_min threshold x (p ∷ ps) best = part_z is_min threshold x ps (
      if ops.lt (ops.abs (ops.sub p.x x)) threshold
      then (if (if is_min then ops.lt p.z best else ops.lt best p.z) then p.z else best)
      else best)

  -- all_z, from the part `i` on, added up: `n` parts are left.
  unfoldable pub total_z : Bool → F → Extent F → Cloud F → ℕ → ℕ → F → F
  unfolding part_z
  total_z is_min threshold e cloud i zero total = total
  total_z is_min threshold e cloud i (suc n) total =
      let x =
        ops.add e.x_min (
          ops.div (ops.mul (ops.sub e.x_max e.x_min) (ops.of_int (pos i))) (ops.of_int (pos 30))) in
      let worst = if is_min then ops.highest else ops.lowest in
      total_z is_min threshold e cloud (suc i) n
        (ops.add total (part_z is_min threshold x cloud worst))

  unfoldable pub find_max_or_min_z_point : Cloud F → F → Bool → Point F
  unfolding extent total_z
  find_max_or_min_z_point cloud threshold is_min =
      let e =
        extent cloud (record { x_min = ops.highest; x_max = ops.lowest; y_bar = ops.zero_f }) in
      point_at ops.zero_f (ops.div e.y_bar (ops.of_int (pos (length cloud))))
        (ops.div (total_z is_min threshold e cloud 0 30 ops.zero_f) (ops.of_int (pos 30)))

  -- The points from p1 to p2, with `n` of the hundred between them left from `i` on.
  unfoldable pub between : Point F → Point F → Bool → ℕ → ℕ → Cloud F
  between p1 p2 is_red i zero = p2 ∷ []
  between p1 p2 is_red i (suc n) =
      let t = ops.div (ops.of_int (pos i)) (ops.of_int (pos 101)) in
      record {
        x = ops.add p1.x (ops.mul t (ops.sub p2.x p1.x));
        y = ops.add p1.y (ops.mul t (ops.sub p2.y p1.y));
        z = ops.add p1.z (ops.mul t (ops.sub p2.z p1.z));
        r = if is_red then 255 else 127;
        g = if is_red then 0 else 100;
        b = if is_red then 0 else 255;
      }
      ∷ between p1 p2 is_red (suc i) n

  unfoldable pub insert_several_points : Cloud F → Point F → Point F → Bool → Cloud F
  unfolding between
  insert_several_points cloud p1 p2 is_red = cloud ++ p1 ∷ between p1 p2 is_red 1 100

  unfoldable pub draw_line_x : F → F → Cloud F
  unfolding insert_several_points
  draw_line_x x z =
      insert_several_points [] (point_at x (ops.neg (ops.of_int (pos 2))) z)
        (point_at x (ops.of_int (pos 2)) z) true

  -- The last loop of get_key_seg: `tmp_x` and `end`, and the points that are left.
  unfoldable pub last_near : F → F → Point F → Cloud F → Point F
  last_near threshold tmp_x end [] = end
  last_near threshold tmp_x end (p ∷ ps) =
      let rest = last_near threshold p.x p ps in
      if ops.lt (ops.sub p.x tmp_x) threshold then rest else end

  module _ (pcl : Pcl F) where
    unfoldable pub point_to_line_distance : Point F → Point F → F
    point_to_line_distance p on_line = ops.div (pcl.cross_norm p on_line) pcl.dir_norm

    unfoldable pub near_line : F → Point F → Cloud F → Cloud F
    unfolding point_to_line_distance
    near_line threshold m [] = []
    near_line threshold m (p ∷ ps) =
        let rest = near_line threshold m ps in
        if ops.lt (point_to_line_distance (record p { y = m.y }) m) threshold
        then p ∷ rest
        else rest

    abbrev pub by_x : Point F → Point F → Bool
    by_x a b = ops.lt a.x b.x

    unfoldable pub key_seg_of : F → F → Point F → Cloud F → Point F × Point F
    unfolding last_near
    key_seg_of threshold y_offset m [] = (m, m)
    key_seg_of threshold y_offset m (first ∷ rest) =
        let end = last_near threshold first.x first (first ∷ rest) in
        let y = ops.add m.y y_offset in
        (record first { y = y; z = m.z }, record end { y = y; z = m.z })

    unfoldable pub get_key_seg : Cloud F → F → F → F → Point F × Point F
    unfolding find_max_or_min_z_point near_line key_seg_of
    get_key_seg cloud threshold y_offset z_offset =
        let top = find_max_or_min_z_point cloud threshold false in
        let m = point_at ops.zero_f top.y (ops.add top.z z_offset) in
        key_seg_of threshold y_offset m (pcl.sort by_x (near_line threshold m cloud))

    module _ (ini : Ini F) where
      unfoldable pub position_of : F → F → Position
      position_of ex bx =
          if ops.le ex ini.e0 && (ops.le ini.b0 bx && ops.le bx ini.b1)
          then begin
          else if ops.le ex ini.e0 && ops.le ini.b1 bx
          then middle
          else if ops.le ini.e0 ex && (ops.le ex ini.e1 && ops.le ini.b1 bx)
          then ending
          else out

      unfoldable pub key_seg_params : Point F × Point F → KeySegParams F
      unfolding position_of
      key_seg_params (first, second) =
          if ops.eq first.x second.x
          then record {
            x_min = ops.zero_f;
            x_max = ops.zero_f;
            y = ops.zero_f;
            z = ops.zero_f;
            state = out;
          }
          else record {
            x_min = first.x;
            x_max = second.x;
            y = first.y;
            z = first.z;
            state = position_of first.x second.x;
          }

      -- Also the cloud, with the lines that are drawn into it.
      unfoldable pub get_position_state_from_cloud : Cloud F → KeySegParams F × Cloud F
      unfolding get_key_seg key_seg_params insert_several_points draw_line_x
      get_position_state_from_cloud cloud =
          let seg = get_key_seg cloud ini.line_distance_threshold ops.zero_f ini.full_z_offset in
          let z = seg.0.z in
          (
            key_seg_params seg,
            insert_several_points cloud seg.0 seg.1 false
                ++ draw_line_x ini.e0 z
                ++ draw_line_x ini.e1 z
                ++ draw_line_x ini.b0 z
                ++ draw_line_x ini.b1 z,
          )
