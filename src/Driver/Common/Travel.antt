-- ===== src/Driver/Common/Travel.antt =====
-- Where the chute goes: the timer and set_lc_open of common_driver.cpp, for every subclass.
use auto_drop.Prelude.{
  ℕ, zero, suc, ◌+◌, ◌≡◌, ◌≢◌, Bool, Option, some, arith, ◌∙◌, ◌⊎◌, inl, inr, if◌then◌else◌, ◌==◌,
}
use auto_drop.Prelude.Int.{ℤ, pos, ◌+ℤ◌, ◌-ℤ◌, ◌*ℤ◌, tdiv}
use auto_drop.Driver.Common.{
  RelayState, stop, hold_open, hold_close, CommonDriver, Methods, relay_do_action, relay_move,
  relay_tick, drive_to, execute_to_threshold, set_lc_open, ticks, move_position, relay_cmds,
  relay_stop, ◌>>=◌,
}

-- The commands leave the coefficient alone, as in every subclass.
abbrev pub KeepsCoe : {D : Type 0} → Methods D → Type 0
KeepsCoe {D} m =
    (o n : Bool) (d : D) → m.get_position_coe (m.open_close_lc_cmd o n d) ≡ m.get_position_coe d

relay_cmds-coe :
    {D : Type 0} (m : Methods D)
    → KeepsCoe m
    → (r : RelayState) (d : D) → m.get_position_coe (relay_cmds m r d) ≡ m.get_position_coe d
unfolding relay_cmds
relay_cmds-coe m keeps stop d = rw (keeps, keeps)
relay_cmds-coe m keeps hold_open d = rw (keeps, keeps)
relay_cmds-coe m keeps hold_close d = rw (keeps, keeps)

module _ {F D : Type 0} (m : Methods D) where
  -- One second of opening, short of the expected position, and at it.
  move_opening :
      (c : CommonDriver F D) (n : ℕ)
      → c.relay_state ≡ hold_open
      → c.expect_position ≡ c.state_stay_position +ℤ pos (suc n)
      → ((relay_move m c).relay_state ≡ (if n == 0 then stop else hold_open))
        × ((relay_move m c).expect_position ≡ (relay_move m c).state_stay_position +ℤ pos n)
        × ((relay_move m c).expect_position ≡ c.expect_position)
  unfolding relay_move ◌+ℤ◌
  move_opening c n h e = ground arith

  move_closing :
      (c : CommonDriver F D) (n : ℕ)
      → c.relay_state ≡ hold_close
      → c.state_stay_position ≡ c.expect_position +ℤ pos (suc n)
      → ((relay_move m c).relay_state ≡ (if n == 0 then stop else hold_close))
        × ((relay_move m c).state_stay_position ≡ (relay_move m c).expect_position +ℤ pos n)
        × ((relay_move m c).expect_position ≡ c.expect_position)
  unfolding relay_move ◌+ℤ◌
  move_closing c n h e = ground arith

  -- The relay heads for the expected position, n steps away.
  abbrev pub Heads : CommonDriver F D → ℕ → Type 0
  Heads c n =
      ((c.relay_state ≡ hold_open) × (c.expect_position ≡ c.state_stay_position +ℤ pos n))
      ⊎ ((c.relay_state ≡ hold_close) × (c.state_stay_position ≡ c.expect_position +ℤ pos n))

  -- The relay is off at the position e, and the reported threshold is e times the coefficient.
  abbrev pub ArrivedAt : CommonDriver F D → ℤ → ℤ → Type 0
  ArrivedAt c e coef =
      (c.relay_state ≡ stop) × (c.state_stay_position ≡ e) × (c.lc_open_threshold ≡ e *ℤ coef)

  relay_move-Heads :
      (c : CommonDriver F D) (n : ℕ)
      → Heads c (suc (suc n))
      → Heads (relay_move m c) (suc n) × ((relay_move m c).expect_position ≡ c.expect_position)
  relay_move-Heads c n (inl (h, e)) =
      let f = move_opening c (suc n) h e in (inl (ground (arith, f), f.1), f.2)
  relay_move-Heads c n (inr (h, e)) =
      let f = move_closing c (suc n) h e in (inr (ground (arith, f), f.1), f.2)

  relay_move-last :
      (c : CommonDriver F D)
      → Heads c 1
      → ((relay_move m c).relay_state ≡ stop)
        × ((relay_move m c).state_stay_position ≡ c.expect_position)
  unfolding ◌+ℤ◌
  relay_move-last c (inl (h, e)) = ground (arith, move_opening c 0 h e)
  relay_move-last c (inr (h, e)) = ground (arith, move_closing c 0 h e)

  drive_to-Heads :
      (c : CommonDriver F D) (e : ℤ) (n : ℕ)
      → (e ≡ c.state_stay_position +ℤ pos (suc n)) ⊎ (c.state_stay_position ≡ e +ℤ pos (suc n))
      → Heads (drive_to m e c) (suc n) × ((drive_to m e c).expect_position ≡ e)
  unfolding drive_to relay_do_action ◌+ℤ◌ ◌-ℤ◌
  drive_to-Heads c e n (inl h) = ground arith
  drive_to-Heads c e n (inr h) = ground arith

  overshoot_move :
      (c : CommonDriver F D) (e : ℤ)
      → e ≡ c.state_stay_position
      → c.relay_state ≢ stop
      → let c' = relay_move m (drive_to m e c) in
        (c'.relay_state ≡ stop)
        × ((c'.state_stay_position ≡ e +ℤ pos 1) ⊎ (c'.state_stay_position ≡ e -ℤ pos 1))
  unfolding drive_to relay_move ◌+ℤ◌ ◌-ℤ◌
  overshoot_move c e h ne = ground arith

  abbrev coe_of : CommonDriver F D → Option ℤ
  coe_of c = m.get_position_coe c.sub

  module _ (keeps : KeepsCoe m) where
    relay_do_action-coe :
        (r : RelayState) (c : CommonDriver F D) → coe_of (relay_do_action m r c) ≡ coe_of c
    unfolding relay_do_action relay_stop
    relay_do_action-coe r c = ground (
      arith,
      relay_cmds-coe m keeps stop c.sub,
      relay_cmds-coe m keeps r c.sub,
      relay_cmds-coe m keeps r (relay_cmds m stop c.sub),
    )

    pub relay_move-coe : (c : CommonDriver F D) → coe_of (relay_move m c) ≡ coe_of c
    unfolding relay_move
    relay_move-coe c = ground (
      arith,
      relay_do_action-coe stop
          (record c { state_stay_position = move_position c.relay_state c.state_stay_position }),
    )

    pub drive_to-coe : (e : ℤ) (c : CommonDriver F D) → coe_of (drive_to m e c) ≡ coe_of c
    unfolding drive_to
    drive_to-coe e c = ground (
      arith,
      relay_do_action-coe hold_open (record c { expect_position = e }),
      relay_do_action-coe hold_close (record c { expect_position = e }),
    )

  -- What a second leaves behind: the moved relay, with the threshold reported and published.
  abbrev pub report : ℕ → CommonDriver F D → CommonDriver F D
  report k c = record c {
    lc_open_threshold = c.state_stay_position *ℤ pos (suc k);
    published = c.published + 1;
  }

  module _ (keeps : KeepsCoe m) (k : ℕ) where
    pub relay_tick_lem :
        (c : CommonDriver F D)
        → coe_of c ≡ some (pos (suc k))
        → relay_tick m c ≡ some (report k (relay_move m c))
    unfolding relay_tick
    relay_tick_lem c coef = ground (arith, coef, relay_move-coe keeps c)

    ticks_arrive :
        (n : ℕ) (c : CommonDriver F D)
        → coe_of c ≡ some (pos (suc k))
        → Heads c (suc n)
        → (c' : CommonDriver F D) × (ticks m (suc n) c ≡ some c')
          × ArrivedAt c' c.expect_position (pos (suc k))
    unfolding ticks
    ticks_arrive zero c coef h =
        let (a, b) = relay_move-last c h in
        (report k (relay_move m c), rw (relay_tick_lem c coef), (a, b, rw b))
    ticks_arrive (suc n) c coef h =
        let (h', e) = relay_move-Heads c n h in
        let (c', eq, a) =
          ticks_arrive n (report k (relay_move m c)) (relay_move-coe keeps c ∙ coef) h' in
        (c', rw (relay_tick_lem c coef) eq, rw e at a)

    -- If the commands leave the coefficient alone and it is positive, then whatever the relay was
    -- doing, a set_lc_open to a position n + 1 steps away from the present one succeeds, and after
    -- n + 1 seconds the relay has stopped exactly there and get_lc_open returns the position times
    -- the coefficient.
    pub set_lc_open_arrives :
        (c : CommonDriver F D) (t : ℤ) (n : ℕ)
        → m.get_position_coe c.sub ≡ some (pos (suc k))
        → (tdiv t (pos (suc k)) ≡ c.state_stay_position +ℤ pos (suc n))
          ⊎ (c.state_stay_position ≡ tdiv t (pos (suc k)) +ℤ pos (suc n))
        → (c' : CommonDriver F D) × ((set_lc_open m t c >>= ticks m (suc n)) ≡ some c')
          × ArrivedAt c' (tdiv t (pos (suc k))) (pos (suc k))
    unfolding execute_to_threshold
    set_lc_open_arrives c t n coef h =
        let e = tdiv t (pos (suc k)) in
        let (h', p) = drive_to-Heads c e n h in
        let (c', eq, a) = ticks_arrive n (drive_to m e c) (drive_to-coe keeps e c ∙ coef) h' in
        (c', rw coef eq, rw p at a)

    -- If the commands leave the coefficient alone and it is positive, then while the relay still
    -- opens or closes, a set_lc_open to the very position it is passing is not obeyed: after the
    -- next second the relay stops one step beyond.
    pub set_lc_open_overshoots :
        (c : CommonDriver F D) (t : ℤ)
        → m.get_position_coe c.sub ≡ some (pos (suc k))
        → tdiv t (pos (suc k)) ≡ c.state_stay_position
        → c.relay_state ≢ stop
        → (c' : CommonDriver F D) × ((set_lc_open m t c >>= relay_tick m) ≡ some c')
          × (c'.relay_state ≡ stop)
          × ((c'.state_stay_position ≡ tdiv t (pos (suc k)) +ℤ pos 1)
              ⊎ (c'.state_stay_position ≡ tdiv t (pos (suc k)) -ℤ pos 1))
    unfolding execute_to_threshold
    set_lc_open_overshoots c t coef h ne =
        let e = tdiv t (pos (suc k)) in
        let f = overshoot_move c e h ne in
        (
          report k (relay_move m (drive_to m e c)),
          rw coef (relay_tick_lem (drive_to m e c) (drive_to-coe keeps e c ∙ coef)),
          f.0,
          f.1,
        )
