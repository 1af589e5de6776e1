-- ===== src/Driver/Common/Interlock.antt =====
-- The commands that the relay of common_driver.cpp sends to the two coils, as a trace.
use auto_drop.Prelude.{
  ℕ, suc, ◌≡◌, refl, Bool, true, false, ◌&&◌, if◌then◌else◌, some, List, [], ◌∷◌, arith,
}
use auto_drop.Prelude.Int.{ℤ, pos, tdiv}
use auto_drop.Driver.Common.{
  RelayState, stop, hold_open, hold_close, CommonDriver, Methods, init_driver, relay_do_action,
  relay_move, relay_tick, move_position, drive_to, execute_to_threshold, Request, lc_open, second,
  serve, serve_all,
}

pub record Cmd : Type 0 where
  pub is_open : Bool
  pub is_on : Bool

-- Newest first; every command is recorded, and the coefficient is `k`.
abbrev pub recorder : ℤ → Methods (List Cmd)
recorder k = record {
  open_close_lc_cmd = λ o n t. record { is_open = o; is_on = n } ∷ t;
  get_position_coe = λ t. some k;
}

abbrev pub same_bool : Bool → Bool → Bool
same_bool true b = b
same_bool false true = false
same_bool false false = true

-- Whether a coil is on after a trace; both start off.
pub coil : Bool → List Cmd → Bool
coil which [] = false
coil which (c ∷ t) = if same_bool which c.is_open then c.is_on else coil which t

-- At no moment of the trace are both coils on.
abbrev pub Interlocked : List Cmd → Type 0
Interlocked [] = Unit
Interlocked (c ∷ t) = ((coil true (c ∷ t) && coil false (c ∷ t)) ≡ false) × Interlocked t

abbrev pub opens : RelayState → Bool
opens hold_open = true
opens _ = false

abbrev pub closes : RelayState → Bool
closes hold_close = true
closes _ = false

module _ {F : Type 0} where
  pub record CoilsMatch (c : CommonDriver F (List Cmd)) : Type 0 where
    pub open_coil : coil true c.sub ≡ opens c.relay_state
    pub close_coil : coil false c.sub ≡ closes c.relay_state
    pub interlocked : Interlocked c.sub

  relay_do_action-CoilsMatch :
      (k : ℤ) (r : RelayState) (c : CommonDriver F (List Cmd))
      → CoilsMatch c
      → CoilsMatch (relay_do_action (recorder k) r c)
  unfolding relay_do_action coil
  relay_do_action-CoilsMatch k r c v = ground arith

  drive_to-CoilsMatch :
      (k e : ℤ) (c : CommonDriver F (List Cmd))
      → CoilsMatch c
      → CoilsMatch (drive_to (recorder k) e c)
  unfolding drive_to
  drive_to-CoilsMatch k e c v = ground (
    arith,
    relay_do_action-CoilsMatch k hold_open (record c { expect_position = e }) v',
    relay_do_action-CoilsMatch k hold_close (record c { expect_position = e }) v',
  )
    where
      v' : CoilsMatch (record c { expect_position = e })
      v' = record {
        open_coil = v.open_coil;
        close_coil = v.close_coil;
        interlocked = v.interlocked;
      }

  relay_move-CoilsMatch :
      (k : ℤ) (c : CommonDriver F (List Cmd))
      → CoilsMatch c
      → CoilsMatch (relay_move (recorder k) c)
  unfolding relay_move
  relay_move-CoilsMatch k c v = ground (arith, relay_do_action-CoilsMatch k stop moved v')
    where
      moved : CommonDriver F (List Cmd)
      moved = record c { state_stay_position = move_position c.relay_state c.state_stay_position }

      v' : CoilsMatch moved
      v' = record {
        open_coil = v.open_coil;
        close_coil = v.close_coil;
        interlocked = v.interlocked;
      }

  abbrev pub Serves : Request → CommonDriver F (List Cmd) → ℤ → Type 0
  Serves r c k =
      (c' : CommonDriver F (List Cmd)) × (serve (recorder k) r c ≡ some c') × CoilsMatch c'

  serve-CoilsMatch :
      (k : ℕ) (r : Request) (c : CommonDriver F (List Cmd))
      → CoilsMatch c
      → Serves r c (pos (suc k))
  unfolding serve execute_to_threshold relay_tick
  serve-CoilsMatch k (lc_open t) c v =
      (_, refl, drive_to-CoilsMatch (pos (suc k)) (tdiv t (pos (suc k))) c v)
  serve-CoilsMatch k second c v =
      let w = relay_move-CoilsMatch (pos (suc k)) c v in
      (
        _,
        refl,
        record { open_coil = w.open_coil; close_coil = w.close_coil; interlocked = w.interlocked },
      )

  serve_all-CoilsMatch :
      (k : ℕ) (rs : List Request) (c : CommonDriver F (List Cmd))
      → CoilsMatch c
      → (c' : CommonDriver F (List Cmd)) × (serve_all (recorder (pos (suc k))) rs c ≡ some c')
        × CoilsMatch c'
  unfolding serve_all
  serve_all-CoilsMatch k [] c v = (c, refl, v)
  serve_all-CoilsMatch k (r ∷ rs) c v =
      let (c1, e, w) = serve-CoilsMatch k r c v in
      let (c2, e2, w2) = serve_all-CoilsMatch k rs c1 w in (c2, rw e e2, w2)

  init_driver-CoilsMatch : (z : F) → CoilsMatch (init_driver z [])
  unfolding init_driver coil
  init_driver-CoilsMatch z = record { open_coil = refl; close_coil = refl; interlocked = tt }

  -- From the initial state, with a positive position coefficient, any sequence of set_lc_open calls
  -- and timer seconds is served without a fault. After it the open coil is commanded on exactly in
  -- HOLD_OPEN and the close coil exactly in HOLD_CLOSE, and at no moment of the whole command trace
  -- are both coils on.
  pub serve_all-Interlocked :
      (z : F) (k : ℕ) (rs : List Request)
      → (c : CommonDriver F (List Cmd)) × (serve_all (recorder (pos (suc k))) rs (init_driver z [])
          ≡ some c)
        × (coil true c.sub ≡ opens c.relay_state)
        × (coil false c.sub ≡ closes c.relay_state)
        × Interlocked c.sub
  serve_all-Interlocked z k rs =
      let (c, e, v) = serve_all-CoilsMatch k rs (init_driver z []) (init_driver-CoilsMatch z) in
      (c, e, v.open_coil, v.close_coil, v.interlocked)
