-- ===== src/Driver/Common/Range.antt =====
-- How far the chute can go: the bounds of the position and of the reported threshold in
-- common_driver.cpp, under the thresholds that the command line accepts.
use native.Mathlib.Nat.{mul-zero, zero-mul, le-div_iff_mul-le}
use auto_drop.Prelude.{ℕ, suc, ◌*◌, ◌/◌, ◌≡◌, refl, some, List, [], ◌∷◌, All, arith, ◌∙◌}
use auto_drop.Prelude.Int.{ℤ, pos, negsuc, ◌+ℤ◌, ◌-ℤ◌, ◌*ℤ◌, tdiv, ◌≤ℤ◌}
use auto_drop.Driver.Common.Travel.{KeepsCoe, report, relay_tick_lem, relay_move-coe, drive_to-coe}
use auto_drop.Driver.Common.{
  hold_open, hold_close, CommonDriver, Methods, init_driver, relay_do_action, relay_move, drive_to,
  execute_to_threshold, Request, lc_open, second, serve, serve_all,
}

-- A request asks for a threshold between 0 and T.
abbrev pub Allowed : ℕ → Request → Type 0
Allowed T (lc_open t) = (pos 0 ≤ℤ t) × (t ≤ℤ pos T)
Allowed T second = Unit {0}

-- The position lies in [0, M], and a relay that is on has room for one more step.
pub record InRange {F D : Type 0} (M : ℕ) (c : CommonDriver F D) : Type 0 where
  pub low : pos 0 ≤ℤ c.state_stay_position
  pub high : c.state_stay_position ≤ℤ pos M
  pub goal_low : pos 0 ≤ℤ c.expect_position
  pub goal_high : c.expect_position ≤ℤ pos M
  pub room_above : c.relay_state ≡ hold_open → c.state_stay_position +ℤ pos 1 ≤ℤ pos M
  pub room_below : c.relay_state ≡ hold_close → pos 1 ≤ℤ c.state_stay_position

module _ {F D : Type 0} (m : Methods D) where
  drive_to-InRange :
      (M : ℕ) (e : ℤ) (c : CommonDriver F D)
      → pos 0 ≤ℤ e
      → e ≤ℤ pos M
      → InRange M c
      → InRange M (drive_to m e c)
  unfolding drive_to relay_do_action ◌+ℤ◌ ◌-ℤ◌
  drive_to-InRange M e c a b v = ground arith

  relay_move-InRange : (M : ℕ) (c : CommonDriver F D) → InRange M c → InRange M (relay_move m c)
  unfolding relay_move ◌+ℤ◌ ◌-ℤ◌
  relay_move-InRange M c v = ground arith

tdiv_range :
    (T k : ℕ) (t : ℤ)
    → pos 0 ≤ℤ t
    → t ≤ℤ pos T
    → (pos 0 ≤ℤ tdiv t (pos (suc k))) × (tdiv t (pos (suc k)) ≤ℤ pos (T / suc k))
unfolding tdiv
tdiv_range T k (pos t) a b = grind arith
tdiv_range T k (negsuc t) a b = absurd (omega arith)

mul_pos : (p k : ℕ) → pos p *ℤ pos k ≡ pos (p * k)
unfolding ◌*ℤ◌
mul_pos p k = ground (arith, mul-zero p, zero-mul k)

mul_range :
    (T k : ℕ) (p : ℤ)
    → pos 0 ≤ℤ p
    → p ≤ℤ pos (T / suc k)
    → (pos 0 ≤ℤ p *ℤ pos (suc k)) × (p *ℤ pos (suc k) ≤ℤ pos T)
mul_range T k (pos p) a b = rw (mul_pos p (suc k)) (
  omega arith,
  omega (arith, (le-div_iff_mul-le {k = suc k} {x = p} {y = T} (omega arith)).0 (omega arith)),
)
mul_range T k (negsuc p) a b = absurd (omega arith)

module _ {F D : Type 0} (m : Methods D) (keeps : KeepsCoe m) (T k : ℕ) where
  -- The position is in range, the reported threshold too, and the coefficient is the same.
  abbrev Good : CommonDriver F D → Type 0
  Good c =
      InRange (T / suc k) c
      × ((pos 0 ≤ℤ c.lc_open_threshold) × (c.lc_open_threshold ≤ℤ pos T))
      × (m.get_position_coe c.sub ≡ some (pos (suc k)))

  drive_to_reported :
      (e : ℤ) (c : CommonDriver F D) → (drive_to m e c).lc_open_threshold ≡ c.lc_open_threshold
  unfolding drive_to relay_do_action
  drive_to_reported e c = ground arith

  drive_to-Good :
      (e : ℤ) (c : CommonDriver F D)
      → pos 0 ≤ℤ e
      → e ≤ℤ pos (T / suc k)
      → Good c
      → Good (drive_to m e c)
  drive_to-Good e c l h (v, w, x) = (
    drive_to-InRange m (T / suc k) e c l h v,
    rw (drive_to_reported e c) w,
    drive_to-coe m keeps e c ∙ x,
  )

  report-Good : (c : CommonDriver F D) → Good c → Good (report m k (relay_move m c))
  report-Good c (v, _, x) =
      let u = relay_move-InRange m (T / suc k) c v in
      (
        record {
          low = u.low;
          high = u.high;
          goal_low = u.goal_low;
          goal_high = u.goal_high;
          room_above = u.room_above;
          room_below = u.room_below;
        },
        mul_range T k (relay_move m c).state_stay_position u.low u.high,
        relay_move-coe m keeps c ∙ x,
      )

  serve-Good :
      (r : Request) (c : CommonDriver F D)
      → Allowed T r
      → Good c
      → (c' : CommonDriver F D) × (serve m r c ≡ some c') × Good c'
  unfolding serve execute_to_threshold
  serve-Good (lc_open t) c (a, b) g =
      let e = tdiv t (pos (suc k)) in
      let (l, h) = tdiv_range T k t a b in (drive_to m e c, rw g.2, drive_to-Good e c l h g)
  serve-Good second c _ g =
      (report m k (relay_move m c), relay_tick_lem m keeps k c g.2, report-Good c g)

  serve_all-Good :
      (rs : List Request) (c : CommonDriver F D)
      → All (Allowed T) rs
      → Good c
      → (c' : CommonDriver F D) × (serve_all m rs c ≡ some c') × Good c'
  unfolding serve_all
  serve_all-Good [] c a g = (c, refl, g)
  serve_all-Good (r ∷ rs) c a g =
      let (c1, e, g1) = serve-Good r c a.0 g in
      let (c2, e2, g2) = serve_all-Good rs c1 a.1 g1 in (c2, rw e e2, g2)

  init_driver-Good :
      (z : F) (d : D) → m.get_position_coe d ≡ some (pos (suc k)) → Good (init_driver z d)
  unfolding init_driver ◌+ℤ◌
  init_driver-Good z d x = ground arith

  -- If the commands leave the coefficient alone, it is positive, and every requested threshold lies
  -- in [0, T], then any sequence of requests and timer seconds from the initial state is served
  -- without a fault, and the threshold that get_lc_open then returns lies in [0, T] as well, and the
  -- position in [0, T / coefficient].
  pub lc_open_bounded :
      (z : F) (d : D) (rs : List Request)
      → m.get_position_coe d ≡ some (pos (suc k))
      → All (Allowed T) rs
      → (c : CommonDriver F D) × (serve_all m rs (init_driver z d) ≡ some c)
        × (pos 0 ≤ℤ c.lc_open_threshold)
        × (c.lc_open_threshold ≤ℤ pos T)
        × (pos 0 ≤ℤ c.state_stay_position)
        × (c.state_stay_position ≤ℤ pos (T / suc k))
  lc_open_bounded z d rs x a =
      let (c, e, g) = serve_all-Good rs (init_driver z d) a (init_driver-Good z d x) in
      (c, e, g.1.0, g.1.1, g.0.low, g.0.high)
