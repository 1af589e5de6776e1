-- ===== src/Driver/Rd/Position/Segment.antt =====
-- src/driver/rd_driver/pc_opt.cpp: the segment from which the position is told.
use auto_drop.Prelude.{true, false, Bool-cases, inl, inr, [], ◌∷◌, ◌++◌, ◌≡◌, refl, ap}
use auto_drop.Driver.Rd.{FloatOps}
use auto_drop.Driver.Rd.Cloud.{Point, Cloud, Pcl}
use auto_drop.Driver.Rd.Position.{
  last_near, near_line, by_x, point_at, find_max_or_min_z_point, key_seg_of, get_key_seg,
}

module _ {F : Type 0} (ops : FloatOps F) where
  abbrev pub final : Point F → Cloud F → Point F
  final p [] = p
  final p (q ∷ qs) = final q qs

  -- Each point is nearer than the threshold to the one before it, the first to x.
  abbrev pub Linked : F → F → Cloud F → Type 0
  Linked threshold x [] = Unit
  Linked threshold x (q ∷ qs) = (ops.lt (ops.sub q.x x) threshold ≡ true) × Linked threshold q.x qs

  -- The first point, if any, is not nearer than the threshold to x.
  abbrev pub Breaks : F → F → Cloud F → Type 0
  Breaks threshold x [] = Unit
  Breaks threshold x (q ∷ qs) = ops.lt (ops.sub q.x x) threshold ≡ false

  -- The points fall into a linked part that ends with `p`, and the rest behind a gap.
  abbrev pub LinkedUpTo : F → Point F → Cloud F → Point F → Type 0
  LinkedUpTo threshold first points p =
      (near : Cloud F) × (far : Cloud F) × (points ≡ near ++ far)
      × Linked threshold first.x near
      × (p ≡ final first near)
      × Breaks threshold p.x far

  last_near-LinkedUpTo :
      (threshold : F) (end : Point F) (points : Cloud F)
      → LinkedUpTo threshold end points (last_near ops threshold end.x end points)
  unfolding last_near
  last_near-LinkedUpTo threshold end [] = ([], [], refl, tt, refl, tt)
  last_near-LinkedUpTo threshold end (q ∷ qs) =
      elim (Bool-cases (ops.lt (ops.sub q.x end.x) threshold)) [
        | inl e ↦
            let (near, far, split, linked, is_end, gap) = last_near-LinkedUpTo threshold q qs in
            rw e (q ∷ near, far, ap (◌∷◌ q) split, (e, linked), is_end, gap)
        | inr e ↦ rw e ([], q ∷ qs, refl, tt, refl, e)
      ]

module _ {F : Type 0} (ops : FloatOps F) (pcl : Pcl F) where
  -- The line on which get_key_seg looks, and the points near it in the order of x.
  abbrev pub line_of : F → F → Cloud F → Point F
  line_of threshold z_offset cloud =
      let top = find_max_or_min_z_point ops cloud threshold false in
      point_at ops ops.zero_f top.y (ops.add top.z z_offset)

  abbrev pub line_points : F → F → Cloud F → Cloud F
  line_points threshold z_offset cloud =
      pcl.sort (by_x ops pcl) (near_line ops pcl threshold (line_of threshold z_offset cloud) cloud)

  -- When some points are near the line: the segment lies on the line (with the offset of y), begins
  -- at the first of them in the order of the sort, and ends at the last that is reached from it by
  -- steps below the threshold; the next point, if there is one, lies behind a gap.
  pub get_key_seg-LinkedUpTo :
      (cloud : Cloud F) (threshold y_offset z_offset : F) (first : Point F) (rest : Cloud F)
      → line_points threshold z_offset cloud ≡ first ∷ rest
      → let seg = get_key_seg ops pcl cloud threshold y_offset z_offset in
        let m = line_of threshold z_offset cloud in
        (seg.0.x ≡ first.x)
        × ((p : Point F) × LinkedUpTo ops threshold first (first ∷ rest) p × (seg.1.x ≡ p.x))
        × (seg.0.z ≡ m.z)
        × (seg.1.z ≡ m.z)
        × (seg.0.y ≡ ops.add m.y y_offset)
        × (seg.1.y ≡ ops.add m.y y_offset)
  unfolding get_key_seg key_seg_of
  get_key_seg-LinkedUpTo cloud threshold y_offset z_offset first rest e = rw e (
    refl,
    (
      last_near ops threshold first.x first (first ∷ rest),
      last_near-LinkedUpTo ops threshold first (first ∷ rest),
      refl,
    ),
    refl,
    refl,
    refl,
    refl,
  )
