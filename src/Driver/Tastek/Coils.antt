-- ===== src/Driver/Tastek/Coils.antt =====
-- What one run of the Modbus timer of tastek/main.cpp leaves on the device.
use auto_drop.Prelude.{ℕ, ◌≡◌, Bool, true, false, if◌then◌else◌, some, [], ◌∷◌, Str, arith}
use auto_drop.Driver.Tastek.{
  Coils4, get_coil, put_coil, differ, Tastek, Modbus, lc_get_coil, sync_coil, sync_coils,
  modbus_loop,
}

-- The documented behaviour of a reachable Modbus device: a connection succeeds and touches no coil,
-- a write sets its coil, and a read returns the coils.
pub record Works {W : Type 0} (mb : Modbus W) (coils : W → Coils4) : Type 0 where
  pub connects : (h : Str) (w : W) → (mb.connect h w).0 ≡ true
  pub connect_keeps : (h : Str) (w : W) → coils (mb.connect h w).1 ≡ coils w
  pub writes : (i : ℕ) (b : Bool) (w : W) → (mb.write_bit i b w).0 ≡ true
  pub write_sets :
      (i : ℕ) (b : Bool) (w : W) → coils (mb.write_bit i b w).1 ≡ put_coil i b (coils w)
  pub reads : (w : W) → (mb.read_bits w).0 ≡ some (coils w)
  pub read_keeps : (w : W) → coils (mb.read_bits w).1 ≡ coils w

module _ {W : Type 0} (mb : Modbus W) (coils : W → Coils4) (ok : Works mb coils) where
  abbrev Same : Tastek → Tastek → Type 0
  Same d' d = (d'.on_addr ≡ d.on_addr) × (d'.error ≡ d.error) × (d'.host_name ≡ d.host_name)

  lc_get_coil_lem :
      (d : Tastek) (w : W)
      → let (d', w') = lc_get_coil mb (d, w) in
        Same d' d × (d'.cur_retry_times ≡ 0) × (d'.real_addr ≡ coils w) × (coils w' ≡ coils w)
  unfolding lc_get_coil
  lc_get_coil_lem d w =
      let w1 = (mb.connect d.host_name w).1 in
      ground (
        arith,
        ok.connects d.host_name w,
        ok.connect_keeps d.host_name w,
        ok.reads w1,
        ok.read_keeps w1,
      )

  sync_coil_lem :
      (i : ℕ) (d : Tastek) (w : W)
      → let (d', w') = sync_coil mb i (d, w) in
        Same d' d
        × (d'.real_addr ≡ d.real_addr)
        × (d.cur_retry_times ≡ 0 → d'.cur_retry_times ≡ 0)
        × (coils w' ≡ (
            if differ (get_coil i d.real_addr) (get_coil i d.on_addr)
            then put_coil i (get_coil i d.on_addr) (coils w)
            else coils w))
  unfolding sync_coil
  sync_coil_lem i d w =
      let w1 = (mb.connect d.host_name w).1 in
      let b = get_coil i d.on_addr in
      ground (
        arith,
        ok.connects d.host_name w,
        ok.connect_keeps d.host_name w,
        ok.writes i b w1,
        ok.write_sets i b w1,
      )

  sync_all_lem :
      (d : Tastek) (w : W)
      → d.cur_retry_times ≡ 0
      → d.real_addr ≡ coils w
      → let (d', w') = sync_coils mb (0 ∷ 1 ∷ 2 ∷ 3 ∷ []) (d, w) in
        Same d' d × (d'.cur_retry_times ≡ 0) × (coils w' ≡ d.on_addr)
  unfolding sync_coils
  sync_all_lem d w z r =
      let (d1, w1) = sync_coil mb 0 (d, w) in
      let (d2, w2) = sync_coil mb 1 (d1, w1) in
      let (d3, w3) = sync_coil mb 2 (d2, w2) in
      ground (
        arith,
        sync_coil_lem 0 d w,
        sync_coil_lem 1 d1 w1,
        sync_coil_lem 2 d2 w2,
        sync_coil_lem 3 d3 w3,
      )

  -- On a working device, one run of the timer makes the device's four coils what the relay last
  -- commanded, keeps the commands and the error flag, and ends with a retry count of 0.
  pub modbus_loop_syncs :
      (d : Tastek) (w : W)
      → let (d', w') = modbus_loop mb (d, w) in
        (coils w' ≡ d.on_addr)
        × (d'.on_addr ≡ d.on_addr)
        × (d'.error ≡ d.error)
        × (d'.cur_retry_times ≡ 0)
  unfolding modbus_loop
  modbus_loop_syncs d w =
      let (d1, w1) = lc_get_coil mb (d, w) in
      let a = lc_get_coil_lem d w in ground (arith, a, sync_all_lem d1 w1 a.1 (ground (arith, a)))

  -- The device on which the relay turns from closing to opening: the close coil is on, and the
  -- commands are now open on and close off.
  abbrev pub TurnsToOpen : Tastek → W → Type 0
  TurnsToOpen d w =
      (get_coil 0 (coils w) ≡ false)
      × (get_coil 1 (coils w) ≡ true)
      × (get_coil 0 d.on_addr ≡ true)
      × (get_coil 1 d.on_addr ≡ false)

  -- On a working device, when the relay turns from closing to opening, the first write of the
  -- timer's loop leaves both coils of the device on, until the second write.
  pub turn_to_open_overlaps :
      (d : Tastek) (w : W)
      → TurnsToOpen d w
      → let w' = (sync_coil mb 0 (lc_get_coil mb (d, w))).1 in
        (get_coil 0 (coils w') ≡ true) × (get_coil 1 (coils w') ≡ true)
  turn_to_open_overlaps d w t =
      let (d1, w1) = lc_get_coil mb (d, w) in
      let a = lc_get_coil_lem d w in ground (arith, a, sync_coil_lem 0 d1 w1)
