-- ===== src/Driver/Rd/Examples.antt =====
-- The lidar driver with whole numbers for its floats.
use auto_drop.Prelude.{
  ℕ, zero, suc, ◌+◌, ◌%◌, ◌<◌, ◌-◌, ◌/◌, ◌≡◌, ◌≢◌, ◌↔◌, refl, none, some, false, length, List, ◌&&◌,
  if◌then◌else◌, ◌++◌, [], ◌∷◌, arith,
}
use auto_drop.Prelude.Int.{ℤ, pos, negsuc, ◌+ℤ◌, ◌-ℤ◌, ◌*ℤ◌, tdiv, ltb_ℤ, leb_ℤ, pos_part, neg_part}
use auto_drop.Prelude.Loops.{Ok, ◌>>=◌}
use auto_drop.Driver.Rd.{FloatOps}
use auto_drop.Driver.Rd.SgFilter.{RealTimeSgFilter, make_filter, process_all, solve_system}
use auto_drop.Driver.Rd.SgFilter.Construction.{out_of_range, constructed}
use auto_drop.Driver.Rd.SgFilter.Solve.{solve_system-Ok}
use auto_drop.Driver.Rd.SgFilter.Order.{make_filter-out_of_range_iff}
use auto_drop.Driver.Rd.SgFilter.Window.{process_all-returns_iff}
use auto_drop.Driver.Rd.Offsets.{Filters, calc_filtered_full_offset, run_filters}
use auto_drop.Driver.Rd.Offsets.Mean.{average, calc_filtered-mean}
use auto_drop.Driver.Rd.Cloud.{Point, Cloud, Echo, Pcl, Ini, cluster_plane_points, find_max_cluster}
use auto_drop.Driver.Rd.Cloud.Cluster.{PicksLargest, find_max_cluster-Largest}
use auto_drop.Driver.Rd.Position.{
  get_key_seg, near_line, find_max_or_min_z_point, extent, total_z, part_z, point_to_line_distance,
}
use auto_drop.Driver.Rd.Position.Segment.{get_key_seg-LinkedUpTo, line_of, line_points, LinkedUpTo}
use auto_drop.Driver.Rd.Detect.{start, tick, Event, frame, ticked, handle_all}
use auto_drop.Driver.Rd.Detect.Latch.{first_seen, since_gone, sightings}
use auto_drop.Driver.Rd.Detect.Seen.{shown, tick-first_seen}
use auto_drop.Driver.Rd.Detect.Offline.{fifth_tick-faults}

power : ℤ → ℕ → ℤ
power x zero = pos 1
power x (suc n) = x *ℤ power x n

abbrev whole : FloatOps ℤ
whole = record {
  zero_f = pos 0;
  of_int = λ x. x;
  add = ◌+ℤ◌;
  sub = ◌-ℤ◌;
  mul = ◌*ℤ◌;
  div = tdiv;
  neg = λ x. pos 0 -ℤ x;
  lt = ltb_ℤ;
  le = leb_ℤ;
  eq = λ x y. leb_ℤ x y && leb_ℤ y x;
  abs = λ x. pos (pos_part x + neg_part x);
  pow = λ x y. power x (pos_part y);
  lowest = negsuc 999;
  highest = pos 1000;
}

abbrev small : RealTimeSgFilter ℤ
small = record {
  data_window = [];
  coefficients = pos 0 ∷ pos 0 ∷ pos 0 ∷ [];
  window_size = 3;
  poly_order = 2;
}

abbrev points : List ℤ
points = pos 4 ∷ pos 7 ∷ pos 5 ∷ pos 9 ∷ []

made : make_filter whole 3 2 ≡ constructed small
unfolding make_filter power ◌+ℤ◌ ◌*ℤ◌ tdiv
made = refl

-- g_sg_filter
make_filter-out_of_range_iff_example :
    (make_filter whole 11 2 ≡ out_of_range) ↔ ((11 % 2 ≢ 0) × (2 < 11) × (2 < (11 - 1) / 2))
make_filter-out_of_range_iff_example = make_filter-out_of_range_iff whole 11 2

process_all-returns_iff_example : (process_all whole points small ≢ none) ↔ ◌≡◌ {A = ℕ} 3 3
process_all-returns_iff_example = process_all-returns_iff whole 3 2 small points made (omega arith)

-- x + 2 y = 5 and 3 x + 4 y = 11
solve_system-Ok_example :
    Ok
      (λ x. length x ≡ 2)
      (solve_system whole ((pos 1 ∷ pos 2 ∷ []) ∷ (pos 3 ∷ pos 4 ∷ []) ∷ []) (pos 5 ∷ pos 11 ∷ []))
solve_system-Ok_example =
    solve_system-Ok whole 2 ((pos 1 ∷ pos 2 ∷ []) ∷ (pos 3 ∷ pos 4 ∷ []) ∷ []) (pos 5 ∷ pos 11 ∷ [])
      (refl, ((refl, (refl, tt)))) (omega arith)

-- A library that keeps every point, finds one cluster per point and one more with them all, and
-- takes a cloud as sorted.
abbrev singles : Cloud ℤ → List (Cloud ℤ)
singles [] = []
singles (p ∷ ps) = (p ∷ []) ∷ singles ps

abbrev simple : Pcl ℤ
simple = record {
  pass_through = λ f lo hi neg c. if neg then [] else c;
  euclidean_clusters = λ t n c. singles c ++ c ∷ [];
  segment = λ d a c. [];
  extract_indices = λ is neg c. if neg then [] else c;
  voxel_grid = λ l c. c;
  transform_cloud = λ t c. c;
  sort = λ lt c. c;
  cross_norm = λ p q. whole.abs (p.z -ℤ q.z);
  dir_norm = pos 1;
}

abbrev ini : Ini ℤ
ini = record {
  plane_distance_threshold = pos 1;
  cluster_distance_threshold = pos 1;
  angle_threshold = pos 1;
  cluster_require_points = pos 1;
  line_distance_threshold = pos 3;
  e0 = pos 2;
  e1 = pos 5;
  b0 = pos 4;
  b1 = pos 9;
  full_z_offset = pos 0;
  x_min = pos 0;
  x_max = pos 20;
  y_min = pos 0;
  y_max = pos 20;
  filter_length = pos 2;
  full_rate = pos 1;
  distance_offset = pos 0;
  bottom_z = negsuc 9;
  range_x_min = pos 0;
  range_x_max = pos 20;
  range_y_min = pos 0;
  range_y_max = pos 20;
  range_z_min = pos 0;
  range_z_max = pos 20;
  i_min = pos 0;
  i_max = pos 400;
  leaf_size = pos 1;
  transform = λ i j. pos 0;
}

abbrev echo : ℤ → Echo ℤ
echo x = record { x = x; y = pos 1; z = pos 4; intensity = pos 7 }

abbrev point : ℤ → Point ℤ
point x = record { x = x; y = pos 1; z = pos 4; r = 0; g = 0; b = 0 }

abbrev side : Cloud ℤ
side = point (pos 1) ∷ point (pos 3) ∷ point (pos 8) ∷ []

abbrev filters : Filters ℤ
filters = record {
  sg_filter = small;
  lp_filter = record { alpha = pos 1; prev_output = pos 0; initialized = false };
  full_offset_array = [];
}

abbrev echoes : List (Echo ℤ)
echoes = echo (pos 1) ∷ echo (pos 3) ∷ echo (pos 5) ∷ []

abbrev more : List (Event ℤ)
more = ticked (pos 12) ∷ frame echoes ∷ ticked (pos 3) ∷ frame echoes ∷ []

tick-first_seen_example :
    Ok
      (λ c.
        shown c
        ≡ first_seen whole (
            since_gone whole (sightings whole ini simple (pos 0) (frame echoes ∷ frame [] ∷ more))))
      (handle_all whole ini simple (frame echoes ∷ frame [] ∷ more) (start whole filters)
        >>= tick (pos 3))
tick-first_seen_example =
    tick-first_seen whole ini simple filters echoes [] more (pos 3) (omega arith)

abbrev ticks_only : List (Event ℤ)
ticks_only =
    ticked (pos 1)
    ∷ ticked (pos 1)
    ∷ frame echoes
    ∷ ticked (pos 1)
    ∷ ticked (pos 1)
    ∷ ticked (pos 1)
    ∷ []

fifth_tick-faults_example : handle_all whole ini simple ticks_only (start whole filters) ≡ none
fifth_tick-faults_example =
    fifth_tick-faults whole ini simple filters ticks_only (omega arith) (omega arith)

clusters_of_side :
    cluster_plane_points simple side (pos 1) (pos 1)
    ≡ (point (pos 1) ∷ []) ∷ (point (pos 3) ∷ []) ∷ (point (pos 8) ∷ []) ∷ side ∷ []
unfolding cluster_plane_points
clusters_of_side = refl

find_max_cluster-Largest_example :
    PicksLargest
      (point (pos 1) ∷ [])
      ((point (pos 3) ∷ []) ∷ (point (pos 8) ∷ []) ∷ side ∷ [])
      (find_max_cluster simple side (pos 1) (pos 1))
find_max_cluster-Largest_example =
    find_max_cluster-Largest simple side (pos 1) (pos 1) (point (pos 1) ∷ [])
      ((point (pos 3) ∷ []) ∷ (point (pos 8) ∷ []) ∷ side ∷ []) clusters_of_side

calc_filtered-mean_example :
    Ok
      (λ r. r.0 ≡ average whole (pos 6 ∷ pos 9 ∷ []))
      (run_filters whole (pos 2) (some (pos 4) ∷ some (pos 6) ∷ none ∷ []) filters
        >>= calc_filtered_full_offset whole (pos 9) (pos 2))
calc_filtered-mean_example =
    calc_filtered-mean whole 2 (some (pos 4) ∷ some (pos 6) ∷ none ∷ []) (pos 9) filters
      (omega arith) refl

line_of_side : line_points whole simple (pos 3) (pos 0) side ≡ side
unfolding near_line find_max_or_min_z_point extent total_z part_z point_to_line_distance ◌+ℤ◌ ◌-ℤ◌
    ◌*ℤ◌ tdiv
line_of_side = refl

get_key_seg-LinkedUpTo_example :
    let seg = get_key_seg whole simple side (pos 3) (pos 0) (pos 0) in
    let m = line_of whole simple (pos 3) (pos 0) side in
    (seg.0.x ≡ pos 1)
    × ((p : Point ℤ) × LinkedUpTo whole (pos 3) (point (pos 1)) side p × (seg.1.x ≡ p.x))
    × (seg.0.z ≡ m.z)
    × (seg.1.z ≡ m.z)
    × (seg.0.y ≡ m.y +ℤ pos 0)
    × (seg.1.y ≡ m.y +ℤ pos 0)
get_key_seg-LinkedUpTo_example =
    get_key_seg-LinkedUpTo whole simple side (pos 3) (pos 0) (pos 0) (point (pos 1))
      (point (pos 3) ∷ point (pos 8) ∷ []) line_of_side
