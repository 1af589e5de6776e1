-- ===== src/Driver/Common.antt =====
-- src/driver/lib/common_driver.{h,cpp}: the state that all drivers share, the sim_* setters, and the
-- relay that moves the chute (LC) to a position. `F` stands for double, `D` for the fields of the
-- subclass; the two virtual methods that the relay calls are the record `Methods`.
pub mod Interlock
pub mod Range
pub mod Travel
use auto_drop.Prelude.{
  ℕ, zero, suc, ◌+◌, Bool, true, false, if◌then◌else◌, Option, none, some, List, [], ◌∷◌, Str,
}
use auto_drop.Prelude.Int.{ℤ, pos, ◌+ℤ◌, ◌-ℤ◌, ◌*ℤ◌, idiv, leb_ℤ, ltb_ℤ}

pub data RelayState : Type 0 where
  stop hold_open hold_close : RelayState

abbrev pub same_state : RelayState → RelayState → Bool
same_state stop stop = true
same_state hold_open hold_open = true
same_state hold_close hold_close = true
same_state _ _ = false

pub data Position : Type 0 where
  begin middle ending out : Position

pub record RdResult (F : Type 0) : Type 0 where
  pub state : Position
  pub is_full : Bool
  pub full_offset : F
  pub side_top_z : F

-- `published` counts the calls of ad_rpc_update_current_state, which reads the state and changes
-- none of it.
pub record CommonDriver (F D : Type 0) : Type 0 where
  pub latest_plate : Str
  pub rd_result : RdResult F
  pub gate_is_close : Bool
  pub current_weight : F
  pub lc_open_threshold : ℤ
  pub relay_state : RelayState
  pub state_stay_position : ℤ
  pub has_relay_timer : Bool
  pub expect_position : ℤ
  pub sm_port : ℕ
  pub published : ℕ
  pub sub : D

-- open_close_lc_cmd(is_open, is_on) and get_position_coe(), which may divide by zero: `none` is
-- that fault, here and below.
pub record Methods (D : Type 0) : Type 0 where
  pub open_close_lc_cmd : Bool → Bool → D → D
  pub get_position_coe : D → Option ℤ

module _ {F D : Type 0} where
  -- The values of the member initialisers; doubles start at `zero_f`.
  unfoldable pub init_driver : F → D → CommonDriver F D
  init_driver zero_f d = record {
    latest_plate = [];
    rd_result = record {
      state = begin;
      is_full = false;
      full_offset = zero_f;
      side_top_z = zero_f;
    };
    gate_is_close = false;
    current_weight = zero_f;
    lc_open_threshold = pos 0;
    relay_state = stop;
    state_stay_position = pos 0;
    has_relay_timer = false;
    expect_position = pos 0;
    sm_port = 0;
    published = 0;
    sub = d;
  }

  unfoldable pub set_sm : ℕ → CommonDriver F D → CommonDriver F D × Bool
  set_sm port c = (record c { sm_port = port }, true)

  unfoldable pub sim_vehicle_came : Str → CommonDriver F D → CommonDriver F D
  sim_vehicle_came plate c = record c { latest_plate = plate; published = c.published + 1 }

  unfoldable pub sim_gate_status : Bool → CommonDriver F D → CommonDriver F D
  sim_gate_status is_close c = record c { gate_is_close = is_close; published = c.published + 1 }

  unfoldable pub sim_scale_weight : F → CommonDriver F D → CommonDriver F D
  sim_scale_weight w c = record c { current_weight = w; published = c.published + 1 }

  unfoldable pub sim_vehicle_position : Position → CommonDriver F D → CommonDriver F D
  sim_vehicle_position p c = let r = c.rd_result in record c { rd_result = record r { state = p } }

  unfoldable pub sim_full_offset : F → CommonDriver F D → CommonDriver F D
  sim_full_offset x c = let r = c.rd_result in record c { rd_result = record r { full_offset = x } }

  unfoldable pub sim_vehicle_stuff : Bool → CommonDriver F D → CommonDriver F D
  sim_vehicle_stuff b c = let r = c.rd_result in record c { rd_result = record r { is_full = b } }

  unfoldable pub set_side_top_z : F → CommonDriver F D → CommonDriver F D
  set_side_top_z z c = let r = c.rd_result in record c { rd_result = record r { side_top_z = z } }

  abbrev pub get_trigger_vehicle_plate : CommonDriver F D → Str
  get_trigger_vehicle_plate c = c.latest_plate

  abbrev pub vehicle_rd_detect : CommonDriver F D → RdResult F
  vehicle_rd_detect c = c.rd_result

  abbrev pub vehicle_passed_gate : CommonDriver F D → Bool
  vehicle_passed_gate c = c.gate_is_close

  abbrev pub get_lc_open : CommonDriver F D → ℤ
  get_lc_open c = c.lc_open_threshold

  abbrev pub get_scale_weight : CommonDriver F D → F
  get_scale_weight c = c.current_weight

-- The `this` of open_close_lc_cmd is the subclass, so the commands act on `D` alone. The two
-- commands of each case of the switch are in the order of the source.
unfoldable pub relay_cmds : {D : Type 0} → Methods D → RelayState → D → D
relay_cmds m stop d = m.open_close_lc_cmd true false (m.open_close_lc_cmd false false d)
relay_cmds m hold_open d = m.open_close_lc_cmd true true (m.open_close_lc_cmd false false d)
relay_cmds m hold_close d = m.open_close_lc_cmd false true (m.open_close_lc_cmd true false d)

-- The first `if` of the timer's lambda, and its second test.
unfoldable pub move_position : RelayState → ℤ → ℤ
unfolding ◌+ℤ◌ ◌-ℤ◌
move_position stop p = p
move_position hold_open p = p +ℤ pos 1
move_position hold_close p = p -ℤ pos 1

abbrev pub reached : RelayState → ℤ → ℤ → Bool
reached stop p e = false
reached hold_open p e = leb_ℤ e p
reached hold_close p e = leb_ℤ p e

infixl 5 ◌>>=◌
abbrev pub ◌>>=◌ {ℓ κ} : {A : Type ℓ} {B : Type κ} → Option A → (A → Option B) → Option B
none >>= f = none
some a >>= f = f a

module _ {F D : Type 0} (m : Methods D) where
  -- relay_do_action(STOP): its guard holds the nested call off.
  unfoldable pub relay_stop : CommonDriver F D → CommonDriver F D
  unfolding relay_cmds
  relay_stop c =
      if same_state c.relay_state stop
      then c
      else record c { sub = relay_cmds m stop c.sub; relay_state = stop }

  unfoldable pub relay_do_action : RelayState → CommonDriver F D → CommonDriver F D
  unfolding relay_stop
  relay_do_action req c =
      if same_state c.relay_state req
      then c
      else (let c' = if same_state req stop then c else relay_stop c in
          record c' { sub = relay_cmds m req c'.sub; relay_state = req })

  -- The position and the relay after one second, before the threshold is computed.
  unfoldable pub relay_move : CommonDriver F D → CommonDriver F D
  unfolding move_position relay_do_action
  relay_move c =
      let p = move_position c.relay_state c.state_stay_position in
      let c' = record c { state_stay_position = p } in
      if reached c'.relay_state p c'.expect_position then relay_do_action stop c' else c'

  -- The lambda of start_relay_timer, run once a second.
  unfoldable pub relay_tick : CommonDriver F D → Option (CommonDriver F D)
  unfolding relay_move
  relay_tick c = do
    let c' = relay_move c
    k ← m.get_position_coe c'.sub
    some (record c' {
      lc_open_threshold = c'.state_stay_position *ℤ k;
      published = c'.published + 1;
    })

  -- The part of execute_to_threshold after the division.
  unfoldable pub drive_to : ℤ → CommonDriver F D → CommonDriver F D
  unfolding relay_do_action
  drive_to e c =
      let c' = record c { expect_position = e } in
      let diff = e -ℤ c'.state_stay_position in
      if ltb_ℤ (pos 0) diff
      then relay_do_action hold_open c'
      else if ltb_ℤ diff (pos 0)
      then relay_do_action hold_close c'
      else c'

  unfoldable pub execute_to_threshold : ℤ → CommonDriver F D → Option (CommonDriver F D)
  unfolding drive_to idiv
  execute_to_threshold threshold c = do
    k ← m.get_position_coe c.sub
    e ← idiv threshold k
    some (drive_to e c)

  abbrev pub set_lc_open : ℤ → CommonDriver F D → Option (CommonDriver F D)
  set_lc_open threshold c = execute_to_threshold threshold c

unfoldable pub start_relay_timer : {F D : Type 0} → CommonDriver F D → CommonDriver F D
start_relay_timer c = if c.has_relay_timer then c else record c { has_relay_timer = true }

-- What reaches the relay from outside: the RPC set_lc_open, and the one-second timer.
pub data Request : Type 0 where
  lc_open : ℤ → Request
  second : Request

module _ {F D : Type 0} (m : Methods D) where
  unfoldable pub serve : Request → CommonDriver F D → Option (CommonDriver F D)
  serve (lc_open t) c = set_lc_open m t c
  serve second c = relay_tick m c

  unfoldable pub serve_all : List Request → CommonDriver F D → Option (CommonDriver F D)
  serve_all [] c = some c
  serve_all (r ∷ rs) c = serve r c >>= serve_all rs

  unfoldable pub ticks : ℕ → CommonDriver F D → Option (CommonDriver F D)
  ticks zero c = some c
  ticks (suc n) c = relay_tick m c >>= ticks n
