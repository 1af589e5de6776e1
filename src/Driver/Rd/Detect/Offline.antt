-- ===== src/Driver/Rd/Detect/Offline.antt =====
-- src/driver/rd_driver/pc_opt.cpp: the timer before the lidar has given two frames. The first frame's
-- clouds are put into a null cloud, and the second update_cur_cloud is the first that leaves a cloud.
use auto_drop.Prelude.{
  ℕ, suc, ◌+◌, ◌≤◌, if◌then◌else◌, leb, Bool-cases, inl, inr, Option, none, some, List, [], ◌∷◌,
  ◌≡◌, refl, sym, ap, subst, ◌∙◌, arith,
}
use auto_drop.Prelude.Loops.{Post, Post-bind, Post-none}
use auto_drop.Driver.Common.{
  init_driver, sim_vehicle_position, sim_vehicle_stuff, sim_full_offset, set_side_top_z,
}
use auto_drop.Driver.Rd.{FloatOps}
use auto_drop.Driver.Rd.Offsets.{Filters, calc_filtered_full_offset}
use auto_drop.Driver.Rd.Cloud.{Cloud, Echo, Pcl, Ini}
use auto_drop.Driver.Rd.Detect.Framed.{reset-keeps}
use auto_drop.Driver.Rd.Detect.{
  Detector, is_out, grow, put_cloud, update_cur_cloud, get_cur_cloud, get_detect_result,
  save_full_cloud, save_detect_result, serial_pc, reset_filters, vehilce_disappeared,
  vehicle_is_full, found_in, pc_get_state, prepare, process_msg, RsDriver, start, tick, Event,
  frame, ticked, handle, handle_all,
}

abbrev pub frames : {F : Type 0} → List (Event F) → ℕ
frames [] = 0
frames (frame msg ∷ es) = suc (frames es)
frames (ticked d ∷ es) = frames es

abbrev pub ticks : {F : Type 0} → List (Event F) → ℕ
ticks [] = 0
ticks (frame msg ∷ es) = ticks es
ticks (ticked d ∷ es) = suc (ticks es)

-- The frames that still leave the output cloud null.
abbrev spare : {A : Type 0} → Option A → ℕ
spare none = 1
spare (some a) = 0

spare-none : {A : Type 0} (o : Option A) → 1 ≤ spare o → o ≡ none
spare-none none h = refl
spare-none (some a) h = absurd (omega arith)

module _ {F : Type 0} (ops : FloatOps F) (ini : Ini F) (pcl : Pcl F) where
  vehicle_is_full-Post :
      (z : F) (s : Detector F)
      → Post (λ r. r.2 ≡ record s { filters = r.2.filters }) (vehicle_is_full ops ini z s)
  unfolding vehicle_is_full
  vehicle_is_full-Post z s =
      Post-bind (λ r. Unit {0}) _ (calc_filtered_full_offset ops _ ini.filter_length s.filters) _
        (anything _) λ r u. refl
    where
      anything : {A : Type 0} (o : Option A) → Post (λ a. Unit {0}) o
      anything none = tt
      anything (some a) = tt

  pc_get_state-blank :
      (cloud : Cloud F) (s : Detector F)
      → s.cur_cloud ≡ none
      → ((pc_get_state ops ini pcl cloud s).1.output_cloud ≡ none)
        × ((pc_get_state ops ini pcl cloud s).1.cur_cloud ≡ some [])
        × ((pc_get_state ops ini pcl cloud s).1.update_counter ≡ s.update_counter)
  unfolding pc_get_state put_cloud update_cur_cloud
  pc_get_state-blank cloud s e =
      let k = reset-keeps ops ini pcl (is_out (found_in ops ini pcl cloud).0) s in
      (ap (grow _) (ap (grow _) (ap (grow _) (k.2 ∙ e))), refl, k.4)

  process_msg-blank :
      (msg : List (Echo F)) (s : Detector F)
      → s.cur_cloud ≡ none
      → Post
          (λ s'.
            (s'.output_cloud ≡ none)
            × (s'.cur_cloud ≡ some [])
            × (s'.update_counter ≡ s.update_counter))
          (process_msg ops ini pcl (some msg) s)
  unfolding process_msg save_full_cloud get_detect_result save_detect_result
  process_msg-blank msg s e =
      let s0 = save_full_cloud msg s in
      let k = pc_get_state-blank (prepare ops ini pcl msg) s0 e in
      let x = pc_get_state ops ini pcl (prepare ops ini pcl msg) s0 in
      let gone = vehilce_disappeared ops ini x.1 in
      let s2 = if gone then reset_filters ops x.1 else x.1 in
      let m = reset-keeps ops ini pcl gone x.1 in
      Post-bind _ _ (vehicle_is_full ops ini _ s2) _ (vehicle_is_full-Post _ s2) λ r q. (
        ap (λ t. t.output_cloud) q ∙ m.3 ∙ k.0,
        ap (λ t. t.cur_cloud) q ∙ m.2 ∙ k.1,
        ap (λ t. t.update_counter) q ∙ m.4 ∙ k.2,
      )

  serial_pc-blank :
      (s : Detector F)
      → s.output_cloud ≡ none
      → Post
          (λ s'.
            (s' ≡ record s { update_counter = s.update_counter + 1 }) × (s.update_counter + 1 ≤ 4))
          (serial_pc s)
  unfolding serial_pc get_cur_cloud
  serial_pc-blank s e = elim (Bool-cases (leb 5 (s.update_counter + 1))) [
    | inl h ↦ rw h (rw e tt)
    | inr h ↦ rw h (refl, ground (arith, h))
  ]

  tick-blank :
      (d : F) (c : RsDriver F)
      → c.sub.output_cloud ≡ none
      → Post
          (λ c'.
            (c'.sub.output_cloud ≡ none)
            × (c'.sub.cur_cloud ≡ c.sub.cur_cloud)
            × (c'.sub.update_counter ≡ c.sub.update_counter + 1)
            × (c.sub.update_counter + 1 ≤ 4))
          (tick d c)
  unfolding tick get_detect_result sim_vehicle_position sim_vehicle_stuff sim_full_offset
      set_side_top_z
  tick-blank d c e =
      let s = c.sub in
      Post-bind _ _ (serial_pc (record s { distance = d })) _
        (serial_pc-blank (record s { distance = d }) e)
        λ s' k. (
          ap (λ t. t.output_cloud) k.0 ∙ e,
          ap (λ t. t.cur_cloud) k.0,
          ap (λ t. t.update_counter) k.0,
          k.1,
        )

  handle_all-blank :
      (es : List (Event F)) (c : RsDriver F)
      → c.sub.output_cloud ≡ none
      → frames es ≤ spare c.sub.cur_cloud
      → 5 ≤ c.sub.update_counter + ticks es
      → c.sub.update_counter ≤ 4
      → handle_all ops ini pcl es c ≡ none
  unfolding handle_all handle
  handle_all-blank [] c e few many low = absurd (omega arith)
  handle_all-blank (frame msg ∷ es) c e few many low =
      let blank = spare-none c.sub.cur_cloud (omega (arith, few)) in
      Post-none _ (handle ops ini pcl (frame msg) c) _
        (Post-bind _
          (λ c'.
            (c'.sub.output_cloud ≡ none)
            × (c'.sub.cur_cloud ≡ some [])
            × (c'.sub.update_counter ≡ c.sub.update_counter))
          (process_msg ops ini pcl (some msg) c.sub) _ (process_msg-blank msg c.sub blank) λ s k. k)
        λ c' k.
          handle_all-blank es c' k.0
            (subst (λ o. frames es ≤ spare o) (sym k.1)
              (let one = subst (λ o. suc (frames es) ≤ spare o) blank few in omega (arith, one)))
            (omega (arith, k.2)) (omega (arith, k.2))
  handle_all-blank (ticked d ∷ es) c e few many low =
      Post-none _ (tick d c) _ (tick-blank d c e) λ c' k.
        handle_all-blank es c' k.0 (subst (λ o. frames es ≤ spare o) (sym k.1) few)
          (omega (arith, k.2)) (omega (arith, k.2, k.3))

  -- The driver is started, and frames and ticks follow in any order, at least five ticks and at most
  -- one frame: a null cloud is used, whatever the frame holds.
  pub fifth_tick-faults :
      (f : Filters F) (es : List (Event F))
      → frames es ≤ 1
      → 5 ≤ ticks es
      → handle_all ops ini pcl es (start ops f) ≡ none
  unfolding start init_driver
  fifth_tick-faults f es few many =
      handle_all-blank es (start ops f) refl few (omega (arith, many)) (omega arith)
