-- ===== src/Driver/Rd/Detect/Framed.antt =====
-- src/driver/rd_driver/pc_opt.cpp: what one frame leaves.
use auto_drop.Prelude.{
  Bool, true, false, if◌then◌else◌, Bool-cases, Option, none, some, List, [], ◌∷◌, inl, inr, ◌≡◌,
  ◌≢◌, refl, sym, ap, ◌∙◌, arith,
}
use auto_drop.Prelude.Int.{ℤ, pos, ◌≤ℤ◌, eqb_ℤ, ltb_ℤ}
use auto_drop.Prelude.Loops.{Ok, Ok-bind}
use auto_drop.Driver.Common.{Position}
use auto_drop.Driver.Rd.{FloatOps}
use auto_drop.Driver.Rd.Offsets.{Filters, calc_filtered_full_offset}
use auto_drop.Driver.Rd.Cloud.{Cloud, Echo, Pcl, Ini}
use auto_drop.Driver.Rd.Detect.{
  Detector, save_full_cloud, get_detect_result, save_detect_result, is_out, grow, put_cloud,
  update_cur_cloud, reset_filters, vehilce_disappeared, vehicle_is_full, found_in, pc_get_state,
  prepare, hold, process_msg, frame,
}
use auto_drop.Driver.Rd.Detect.Latch.{nothing, latch_all, sightings}

module _ {F : Type 0} (ops : FloatOps F) (ini : Ini F) (pcl : Pcl F) where
  calc-Ok :
      (x : F) (f : Filters F)
      → pos 1 ≤ℤ ini.filter_length
      → Ok (λ r. Unit {0}) (calc_filtered_full_offset ops x ini.filter_length f)
  unfolding calc_filtered_full_offset
  calc-Ok x f le = elim (Bool-cases (eqb_ℤ ini.filter_length (pos 1))) [
    | inl e ↦ rw e tt
    | inr e ↦ rw e (rw (more ini.filter_length le e) tt)
  ]
    where
      more : (n : ℤ) → pos 1 ≤ℤ n → eqb_ℤ n (pos 1) ≡ false → ltb_ℤ (pos 1) n ≡ true
      more n le e = ground (arith, le)

  vehicle_is_full-Ok :
      (z : F) (s : Detector F)
      → pos 1 ≤ℤ ini.filter_length
      → Ok (λ r. r.2 ≡ record s { filters = r.2.filters }) (vehicle_is_full ops ini z s)
  unfolding vehicle_is_full
  vehicle_is_full-Ok z s le =
      Ok-bind _ _ (calc_filtered_full_offset ops _ ini.filter_length s.filters) _
        (calc-Ok _ s.filters le) λ r u. refl

  -- What no branch of pc_get_state changes before the clouds are put.
  pub reset-keeps :
      (b : Bool) (s : Detector F)
      → ((if b then reset_filters ops s else s).result ≡ s.result)
        × ((if b then reset_filters ops s else s).distance ≡ s.distance)
        × ((if b then reset_filters ops s else s).cur_cloud ≡ s.cur_cloud)
        × ((if b then reset_filters ops s else s).output_cloud ≡ s.output_cloud)
        × ((if b then reset_filters ops s else s).update_counter ≡ s.update_counter)
  unfolding reset_filters
  reset-keeps true s = (refl, refl, refl, refl, refl)
  reset-keeps false s = (refl, refl, refl, refl, refl)

  grow-some : (c : Cloud F) (o : Option (Cloud F)) → o ≢ none → grow c o ≢ none
  grow-some c none h e = h refl
  grow-some c (some old) h e = cc e

  pc_get_state-keeps :
      (cloud : Cloud F) (s : Detector F)
      → ((pc_get_state ops ini pcl cloud s).0 ≡ found_in ops ini pcl cloud)
        × ((pc_get_state ops ini pcl cloud s).1.result ≡ s.result)
        × ((pc_get_state ops ini pcl cloud s).1.distance ≡ s.distance)
        × ((pc_get_state ops ini pcl cloud s).1.cur_cloud ≡ some [])
        × (s.cur_cloud ≢ none → (pc_get_state ops ini pcl cloud s).1.output_cloud ≢ none)
  unfolding pc_get_state put_cloud update_cur_cloud
  pc_get_state-keeps cloud s =
      let k = reset-keeps (is_out (found_in ops ini pcl cloud).0) s in
      (
        refl,
        k.0,
        k.1,
        refl,
        λ some_cloud. grow-some _ _ (grow-some _ _ (grow-some _ _ (λ e. some_cloud (sym k.2 ∙ e)))),
      )

  -- One frame: the clouds, the distance and what is held after it.
  unfoldable pub Framed : List (Echo F) → Detector F → Detector F → Type 0
  Framed msg s s' =
      (s'.cur_cloud ≢ none)
      × (s.cur_cloud ≢ none → s'.output_cloud ≢ none)
      × (s'.distance ≡ s.distance)
      × ((s'.result.state, s'.result.side_top_z)
          ≡ latch_all ops (s.result.state, s.result.side_top_z)
              (sightings ops ini pcl s.distance (frame msg ∷ [])))

  -- What process_msg holds, from what pc_get_state has left.
  position_after : Position × F → Detector F → Position × F
  position_after found s1 =
      if vehilce_disappeared ops ini s1 then nothing ops else hold ops ini s1.result found

  position_after-latch :
      (msg : List (Echo F)) (s s1 : Detector F) (found : Position × F)
      → found ≡ found_in ops ini pcl (prepare ops ini pcl msg)
      → s1.result ≡ s.result
      → s1.distance ≡ s.distance
      → position_after found s1
        ≡ latch_all ops
            (s.result.state, s.result.side_top_z)
            (sightings ops ini pcl s.distance (frame msg ∷ []))
  unfolding position_after vehilce_disappeared sightings
  position_after-latch msg s s1 found ef er ed = rw ef (rw er (rw ed refl))

  pub process_msg-Framed :
      (msg : List (Echo F)) (s : Detector F)
      → pos 1 ≤ℤ ini.filter_length
      → Ok (Framed msg s) (process_msg ops ini pcl (some msg) s)
  unfolding process_msg Framed save_full_cloud get_detect_result save_detect_result position_after
  process_msg-Framed msg s le =
      let s0 = save_full_cloud msg s in
      let k = pc_get_state-keeps (prepare ops ini pcl msg) s0 in
      let x = pc_get_state ops ini pcl (prepare ops ini pcl msg) s0 in
      let gone = vehilce_disappeared ops ini x.1 in
      let s2 = if gone then reset_filters ops x.1 else x.1 in
      let m = reset-keeps gone x.1 in
      Ok-bind _ _ (vehicle_is_full ops ini (position_after x.0 x.1).1 s2) _
        (vehicle_is_full-Ok (position_after x.0 x.1).1 s2 le)
        λ r e. (
          λ n. some_none (sym k.3 ∙ sym m.2 ∙ sym (ap (λ t. t.cur_cloud) e) ∙ n),
          λ some_cloud n. k.4 some_cloud (sym m.3 ∙ sym (ap (λ t. t.output_cloud) e) ∙ n),
          ap (λ t. t.distance) e ∙ m.1 ∙ k.2,
          position_after-latch msg s x.1 x.0 k.0 k.1 k.2,
        )
    where
      some_none : {A : Type 0} {a : A} → some a ≢ none
      some_none e = cc e
