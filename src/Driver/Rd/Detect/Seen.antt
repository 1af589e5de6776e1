-- ===== src/Driver/Rd/Detect/Seen.antt =====
-- src/driver/rd_driver/pc_opt.cpp: frames and ticks in any order.
use auto_drop.Prelude.{
  ◌+◌, false, leb, Bool-cases, inl, inr, Option, none, some, List, [], ◌∷◌, ◌≡◌, ◌≢◌, refl, sym, ap,
  ◌∙◌, arith,
}
use auto_drop.Prelude.Int.{pos, ◌≤ℤ◌}
use auto_drop.Prelude.Loops.{◌>>=◌, Ok, Ok-bind, Ok-weaken}
use auto_drop.Driver.Common.{
  Position, init_driver, vehicle_rd_detect, sim_vehicle_position, sim_vehicle_stuff,
  sim_full_offset, set_side_top_z,
}
use auto_drop.Driver.Rd.{FloatOps}
use auto_drop.Driver.Rd.Offsets.{Filters}
use auto_drop.Driver.Rd.Cloud.{Echo, Pcl, Ini}
use auto_drop.Driver.Rd.Detect.{
  Detector, get_cur_cloud, get_detect_result, serial_pc, process_msg, RsDriver, start, tick, Event,
  frame, ticked, handle, handle_all,
}
use auto_drop.Driver.Rd.Detect.Latch.{
  Sighting, nothing, first_seen, any_gone, since_gone, latch_all, latch_all-seen, sightings,
  sightings-Clean,
}
use auto_drop.Driver.Rd.Detect.Framed.{Framed, process_msg-Framed}

-- The clouds are not null.
abbrev HasClouds : {F : Type 0} → Detector F → Type 0
HasClouds s = (s.cur_cloud ≢ none) × (s.output_cloud ≢ none)

Ok-some : {A : Type 0} (o : Option A) → o ≢ none → Ok (λ a. Unit {0}) o
Ok-some none h = h refl
Ok-some (some a) h = tt

serial_pc-Ok :
    {F : Type 0} (s : Detector F)
    → HasClouds s
    → Ok
        (λ s'.
          (s'.cur_cloud ≡ s.cur_cloud)
          × (s'.output_cloud ≡ s.output_cloud)
          × (s'.result ≡ s.result)
          × (s'.distance ≡ s.distance))
        (serial_pc s)
unfolding serial_pc get_cur_cloud
serial_pc-Ok s h = elim (Bool-cases (leb 5 (s.update_counter + 1))) [
  | inl e ↦ rw e (
      Ok-bind _ _ s.output_cloud _ (Ok-some s.output_cloud h.1) λ cloud u. (refl, refl, refl, refl))
  | inr e ↦ rw e (refl, refl, refl, refl)
]

module _ {F : Type 0} where
  -- The position and the top of the side: what is held, and what an RPC is answered.
  abbrev pub held : RsDriver F → Position × F
  held c = (c.sub.result.state, c.sub.result.side_top_z)

  abbrev pub shown : RsDriver F → Position × F
  shown c = ((vehicle_rd_detect c).state, (vehicle_rd_detect c).side_top_z)

  tick-Ok :
      (d : F) (c : RsDriver F)
      → HasClouds c.sub
      → Ok
          (λ c'.
            HasClouds c'.sub × (held c' ≡ held c) × (shown c' ≡ held c) × (c'.sub.distance ≡ d))
          (tick d c)
  unfolding tick get_detect_result sim_vehicle_position sim_vehicle_stuff sim_full_offset
      set_side_top_z
  tick-Ok d c h =
      let s = c.sub in
      Ok-bind _ _ (serial_pc (record s { distance = d })) _
        (serial_pc-Ok (record s { distance = d }) h)
        λ s' k. (
          (λ n. h.0 (sym k.0 ∙ n), λ n. h.1 (sym k.1 ∙ n)),
          ap (λ r. (r.state, r.side_top_z)) k.2,
          refl,
          k.3,
        )

module _ {F : Type 0} (ops : FloatOps F) (ini : Ini F) (pcl : Pcl F) where
  frame-Ok :
      (msg : List (Echo F)) (c : RsDriver F)
      → pos 1 ≤ℤ ini.filter_length
      → Ok (λ c'. Framed ops ini pcl msg c.sub c'.sub) (handle ops ini pcl (frame msg) c)
  unfolding handle
  frame-Ok msg c le =
      Ok-bind _ _ (process_msg ops ini pcl (some msg) c.sub) _
        (process_msg-Framed ops ini pcl msg c.sub le) λ s k. k

  frame-step :
      (msg : List (Echo F)) (es : List (Event F)) (c c1 : RsDriver F)
      → Framed ops ini pcl msg c.sub c1.sub
      → latch_all ops (held c1) (sightings ops ini pcl c1.sub.distance es)
        ≡ latch_all ops (held c) (sightings ops ini pcl c.sub.distance (frame msg ∷ es))
  unfolding Framed sightings
  frame-step msg es c c1 k =
      ap (λ h. latch_all ops h (sightings ops ini pcl c1.sub.distance es)) k.3
      ∙ ap
          (λ d.
            latch_all ops
              (latch_all ops (held c) (sightings ops ini pcl c.sub.distance (frame msg ∷ [])))
              (sightings ops ini pcl d es))
          k.2

  -- From then on the clouds are there, and the held position is what the sightings leave.
  Follows : List (Event F) → RsDriver F → RsDriver F → Type 0
  Follows es c c' =
      HasClouds c'.sub
      × (held c' ≡ latch_all ops (held c) (sightings ops ini pcl c.sub.distance es))

  handle_all-Follows :
      (es : List (Event F)) (c : RsDriver F)
      → pos 1 ≤ℤ ini.filter_length
      → HasClouds c.sub
      → Ok (Follows es c) (handle_all ops ini pcl es c)
  unfolding handle_all Follows Framed sightings
  handle_all-Follows [] c le h = (h, refl)
  handle_all-Follows (frame msg ∷ es) c le h =
      Ok-bind _ _ (handle ops ini pcl (frame msg) c) _ (frame-Ok msg c le) λ c1 k.
        Ok-weaken _ _ (handle_all ops ini pcl es c1) (handle_all-Follows es c1 le (k.0, k.1 h.0))
          λ c2 m. (m.0, m.1 ∙ frame-step msg es c c1 k)
  handle_all-Follows (ticked d ∷ es) c le h =
      Ok-bind _ _ (handle ops ini pcl (ticked d) c) _ (tick-Ok d c h) λ c1 k.
        Ok-weaken _ _ (handle_all ops ini pcl es c1) (handle_all-Follows es c1 le k.0) λ c2 m. (
          m.0,
          m.1
              ∙ ap (λ h. latch_all ops h (sightings ops ini pcl c1.sub.distance es)) k.1
              ∙ ap (λ d. latch_all ops (held c) (sightings ops ini pcl d es)) k.3,
        )

  two_frames-Follows :
      (a b : List (Echo F)) (es : List (Event F)) (c : RsDriver F)
      → pos 1 ≤ℤ ini.filter_length
      → Ok (Follows (frame a ∷ frame b ∷ es) c) (handle_all ops ini pcl (frame a ∷ frame b ∷ es) c)
  unfolding handle_all Follows Framed
  two_frames-Follows a b es c le =
      Ok-bind _ _ (handle ops ini pcl (frame a) c) _ (frame-Ok a c le) λ c1 k.
        Ok-bind _ _ (handle ops ini pcl (frame b) c1) _ (frame-Ok b c1 le) λ c2 l.
          Ok-weaken _ _ (handle_all ops ini pcl es c2) (handle_all-Follows es c2 le (l.0, l.1 k.0))
            λ c3 m. (m.0, m.1 ∙ frame-step b es c1 c2 l ∙ frame-step a (frame b ∷ es) c c1 k)

  since_gone-none : (ss : List (Sighting F)) → any_gone ops ss ≡ false → since_gone ops ss ≡ ss
  since_gone-none [] e = refl
  since_gone-none (s ∷ ss) e = ground (arith, e)

  -- From the start, nothing is held but what was first seen since the vehicle was gone.
  seen-start :
      (es : List (Event F)) (d : F)
      → latch_all ops (nothing ops) (sightings ops ini pcl d es)
        ≡ first_seen ops (since_gone ops (sightings ops ini pcl d es))
  seen-start es d =
      let ss = sightings ops ini pcl d es in
      latch_all-seen ops (nothing ops) ss (λ e. refl) (sightings-Clean ops ini pcl d es)
      ∙ elim (Bool-cases (any_gone ops ss)) [
        | inl e ↦ rw e refl
        | inr e ↦ rw e (ap (first_seen ops) (sym (since_gone-none ss e)))
      ]

  -- The driver is started, and two frames come before the first tick of the timer; then frames and
  -- ticks follow in any order, and a tick comes last. With filter_length at least 1 nothing faults,
  -- and vehicle_rd_detect then answers with the position and the top of the side of the first frame
  -- that found a vehicle among the frames after the last one at which the vehicle was gone (by the
  -- distance of the tick before it): with out and zero when no such frame found any.
  pub tick-first_seen :
      (f : Filters F) (a b : List (Echo F)) (es : List (Event F)) (d : F)
      → pos 1 ≤ℤ ini.filter_length
      → Ok
          (λ c.
            shown c
            ≡ first_seen ops
                (since_gone ops (sightings ops ini pcl ops.zero_f (frame a ∷ frame b ∷ es))))
          (handle_all ops ini pcl (frame a ∷ frame b ∷ es) (start ops f) >>= tick d)
  unfolding Follows start init_driver
  tick-first_seen f a b es d le =
      Ok-bind _ _ (handle_all ops ini pcl (frame a ∷ frame b ∷ es) (start ops f)) (tick d)
        (two_frames-Follows a b es (start ops f) le)
        λ c m.
          Ok-weaken _ _ (tick d c) (tick-Ok d c m.0)
            λ c' k. k.2 ∙ m.1 ∙ seen-start (frame a ∷ frame b ∷ es) ops.zero_f
