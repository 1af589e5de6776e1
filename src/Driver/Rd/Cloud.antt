-- ===== src/Driver/Rd/Cloud.antt =====
-- src/driver/rd_driver/pc_opt.cpp: what is computed from one point cloud. `Pcl` is what is used of
-- the point cloud library, of Eigen and of std::sort; `Ini` has the value of each key that is read
-- (its default where it is missing).
pub mod Cluster
use auto_drop.Prelude.{
  ℕ, zero, suc, ◌+◌, Bool, true, false, not, ◌&&◌, ◌||◌, if◌then◌else◌, ltb, List, [], ◌∷◌, ◌++◌,
  map, length,
}
use auto_drop.Prelude.Int.{ℤ, pos, negsuc}
use auto_drop.Driver.Common.{Position, begin, middle, ending, out}
use auto_drop.Driver.Rd.{FloatOps}

-- myPoint
pub record Point (F : Type 0) : Type 0 where
  pub x : F
  pub y : F
  pub z : F
  pub r : ℕ
  pub g : ℕ
  pub b : ℕ

abbrev pub Cloud : Type 0 → Type 0
Cloud F = List (Point F)

-- A point of pcMsg
pub record Echo (F : Type 0) : Type 0 where
  pub x : F
  pub y : F
  pub z : F
  pub intensity : F

pub data Field : Type 0 where
  field_x field_y field_z : Field

pub record Pcl (F : Type 0) : Type 0 where
  -- PassThrough: a field, its limits, and whether what is outside them is kept
  pub pass_through : Field → F → F → Bool → Cloud F → Cloud F
  -- EuclideanClusterExtraction: the clusters, for a tolerance and a least size
  pub euclidean_clusters : F → ℤ → Cloud F → List (Cloud F)
  -- SACSegmentation, for a plane perpendicular to the y axis: the indices of its points
  pub segment : F → F → Cloud F → List ℕ
  -- ExtractIndices: what has the indices, or what has not
  pub extract_indices : List ℕ → Bool → Cloud F → Cloud F
  pub voxel_grid : F → Cloud F → Cloud F
  pub transform_cloud : (ℕ → ℕ → F) → Cloud F → Cloud F
  -- std::sort
  pub sort : (Point F → Point F → Bool) → Cloud F → Cloud F
  -- of two points, the norm of (their difference × (1, 0, 0)), and the norm of (1, 0, 0)
  pub cross_norm : Point F → Point F → F
  pub dir_norm : F

pub record Ini (F : Type 0) : Type 0 where
  pub plane_distance_threshold : F
  pub cluster_distance_threshold : F
  pub angle_threshold : F
  pub cluster_require_points : ℤ
  pub line_distance_threshold : F
  pub e0 : F
  pub e1 : F
  pub b0 : F
  pub b1 : F
  pub full_z_offset : F
  pub x_min : F
  pub x_max : F
  pub y_min : F
  pub y_max : F
  pub filter_length : ℤ
  pub full_rate : F
  pub distance_offset : F
  pub bottom_z : F
  pub range_x_min : F
  pub range_x_max : F
  pub range_y_min : F
  pub range_y_max : F
  pub range_z_min : F
  pub range_z_max : F
  pub i_min : F
  pub i_max : F
  pub leaf_size : F
  pub transform : ℕ → ℕ → F

pub record AfterPickup (F : Type 0) : Type 0 where
  pub last : Cloud F
  pub picked : Cloud F

pub record AfterSplit (F : Type 0) : Type 0 where
  pub legal_side : Cloud F
  pub illegal_side : Cloud F
  pub content : Cloud F

unfoldable pub color_cloud : {F : Type 0} → ℕ → ℕ → ℕ → Cloud F → Cloud F
color_cloud {F} r g b cloud = map {A = Point F} (λ p. record p { r = r; g = g; b = b }) cloud

module _ {F : Type 0} where
  -- The `for` over the clusters that are left.
  unfoldable pub pick_larger : List (Cloud F) → AfterPickup F → AfterPickup F
  pick_larger [] s = s
  pick_larger (c ∷ cs) s = pick_larger cs (record {
    picked = if ltb (length s.picked) (length c) then c else s.picked;
    last = s.last ++ c;
  })

  unfoldable pub max_cluster : Cloud F → List (Cloud F) → AfterPickup F
  unfolding pick_larger
  max_cluster cloud [] = record { last = []; picked = cloud }
  max_cluster cloud (c ∷ cs) = pick_larger cs (record { last = []; picked = c })

module _ {F : Type 0} (pcl : Pcl F) where
  -- The points within the limits, and the others.
  unfoldable pub split_cloud_by_pt : Cloud F → Field → F → F → Cloud F × Cloud F
  split_cloud_by_pt cloud field lo hi =
      (pcl.pass_through field lo hi false cloud, pcl.pass_through field lo hi true cloud)

  unfoldable pub cluster_plane_points : Cloud F → F → ℤ → List (Cloud F)
  cluster_plane_points [] tolerance min_size = []
  cluster_plane_points (p ∷ ps) tolerance min_size =
      pcl.euclidean_clusters tolerance min_size (p ∷ ps)

  unfoldable pub find_max_cluster : Cloud F → F → ℤ → AfterPickup F
  unfolding cluster_plane_points max_cluster
  find_max_cluster cloud threshold require_points =
      max_cluster cloud (cluster_plane_points cloud threshold require_points)

  unfoldable pub find_points_on_plane : Cloud F → F → F → AfterPickup F
  find_points_on_plane cloud distance_threshold angle_threshold =
      let one_plane = pcl.segment distance_threshold angle_threshold cloud in
      record {
        picked = pcl.extract_indices one_plane false cloud;
        last = pcl.extract_indices one_plane true cloud;
      }

  module _ (ini : Ini F) where
    unfoldable pub pickup_pc_from_spec_range : Cloud F → AfterPickup F
    unfolding split_cloud_by_pt
    pickup_pc_from_spec_range cloud =
        let (in_x, out_x) = split_cloud_by_pt cloud field_x ini.x_min ini.x_max in
        let (in_y, out_y) = split_cloud_by_pt in_x field_y ini.y_min ini.y_max in
        record { picked = in_y; last = out_x ++ out_y }

    unfoldable pub split_cloud_to_side_and_content : Cloud F → AfterSplit F
    unfolding pickup_pc_from_spec_range find_points_on_plane find_max_cluster color_cloud
    split_cloud_to_side_and_content cloud =
        let pickup = pickup_pc_from_spec_range cloud in
        let plane =
          find_points_on_plane pickup.picked ini.plane_distance_threshold ini.angle_threshold in
        let cluster =
          find_max_cluster plane.picked ini.cluster_distance_threshold ini.cluster_require_points in
        record {
          content = color_cloud 90 23 255 (pickup.last ++ plane.last);
          legal_side = color_cloud 255 255 0 cluster.picked;
          illegal_side = cluster.last;
        }

    unfoldable pub pc_range_filter : Cloud F → Cloud F
    pc_range_filter cloud = pcl.pass_through field_z ini.range_z_min ini.range_z_max false (
        pcl.pass_through field_y ini.range_y_min ini.range_y_max false
          (pcl.pass_through field_x ini.range_x_min ini.range_x_max false cloud))

    unfoldable pub pc_vox_filter : Cloud F → Cloud F
    pc_vox_filter cloud = pcl.voxel_grid ini.leaf_size cloud

    unfoldable pub pc_transform : Cloud F → Cloud F
    pc_transform cloud = pcl.transform_cloud ini.transform cloud

-- The points of the message whose intensity is within the limits, in white.
unfoldable pub make_cloud_by_msg : {F : Type 0} → FloatOps F → Ini F → List (Echo F) → Cloud F
make_cloud_by_msg ops ini [] = []
make_cloud_by_msg ops ini (e ∷ es) =
    let rest = make_cloud_by_msg ops ini es in
    if ops.lt e.intensity ini.i_min || ops.lt ini.i_max e.intensity
    then rest
    else record { x = e.x; y = e.y; z = e.z; r = 255; g = 255; b = 255 } ∷ rest
