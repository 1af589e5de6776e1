-- ===== src/Driver/Tastek.antt =====
-- src/driver/tastek/main.cpp: the driver that switches the chute's coils over Modbus TCP. libmodbus
-- and the device behind it are the parameter `Modbus`.
pub mod Coils
pub mod Errors
use auto_drop.Prelude.{
  ℕ, zero, suc, Bool, true, false, not, if◌then◌else◌, Option, none, some, List, [], ◌∷◌, Str,
}
use auto_drop.Prelude.Int.{ℤ, pos, idiv, ltb_ℤ}
use auto_drop.Driver.Common.{Methods}

-- An array bool[4]; the first two are the open and the close coil.
pub record Coils4 : Type 0 where
  pub c0 : Bool
  pub c1 : Bool
  pub c2 : Bool
  pub c3 : Bool

abbrev pub all_off : Coils4
all_off = record { c0 = false; c1 = false; c2 = false; c3 = false }

abbrev pub get_coil : ℕ → Coils4 → Bool
get_coil zero a = a.c0
get_coil (suc zero) a = a.c1
get_coil (suc (suc zero)) a = a.c2
get_coil (suc (suc (suc i))) a = a.c3

abbrev pub put_coil : ℕ → Bool → Coils4 → Coils4
put_coil zero b a = record a { c0 = b }
put_coil (suc zero) b a = record a { c1 = b }
put_coil (suc (suc zero)) b a = record a { c2 = b }
put_coil (suc (suc (suc i))) b a = record a { c3 = b }

abbrev pub differ : Bool → Bool → Bool
differ true b = not b
differ false b = b

pub record Tastek : Type 0 where
  pub host_name : Str
  pub full_spend_sec : ℤ
  pub modbus_retry_times : ℤ
  pub on_addr : Coils4
  pub real_addr : Coils4
  pub error : Bool
  pub cur_retry_times : ℕ
  pub has_loop_timer : Bool

unfoldable pub init_tastek : Str → ℤ → ℤ → Tastek
init_tastek host retry spend = record {
  host_name = host;
  full_spend_sec = spend;
  modbus_retry_times = retry;
  on_addr = all_off;
  real_addr = all_off;
  error = false;
  cur_retry_times = 0;
  has_loop_timer = false;
}

-- `connect` is modbus_new_tcp with modbus_connect, `write_bit` says whether the result is not -1,
-- and `read_bits` gives the four coils when 4 is returned. `W` is the device and the network.
pub record Modbus (W : Type 0) : Type 0 where
  pub connect : Str → W → Bool × W
  pub write_bit : ℕ → Bool → W → Bool × W
  pub read_bits : W → Option Coils4 × W

unfoldable pub challenge_error : Bool → Tastek → Tastek
challenge_error success d =
    if success
    then record d { cur_retry_times = 0 }
    else (let n = suc d.cur_retry_times in
        if ltb_ℤ d.modbus_retry_times (pos n)
        then record d { cur_retry_times = n; error = true }
        else record d { cur_retry_times = n })

unfoldable pub open_close_lc_cmd : Bool → Bool → Tastek → Tastek
open_close_lc_cmd is_open is_on d =
    if is_open
    then record d { on_addr = put_coil 0 is_on d.on_addr }
    else record d { on_addr = put_coil 1 is_on d.on_addr }

unfoldable pub get_position_coe : Tastek → Option ℤ
unfolding idiv
get_position_coe d = idiv (pos 100) d.full_spend_sec

-- The overrides of the two virtual methods.
abbrev pub tastek_methods : Methods Tastek
tastek_methods = record {
  open_close_lc_cmd = open_close_lc_cmd;
  get_position_coe = get_position_coe;
}

abbrev pub running_status_check : Tastek → Bool
running_status_check d = not d.error

module _ {W : Type 0} (mb : Modbus W) where
  unfoldable pub set_coil : ℕ → Bool → Tastek × W → Tastek × W
  unfolding challenge_error
  set_coil i on (d, w) =
      let (connected, w1) = mb.connect d.host_name w in
      let (written, w2) = mb.write_bit i on w1 in
      if connected then (challenge_error written d, w2) else (challenge_error false d, w1)

  unfoldable pub store_read : Option Coils4 → Tastek → Tastek
  unfolding challenge_error
  store_read none d = challenge_error false d
  store_read (some a) d = challenge_error true (record d { real_addr = a })

  unfoldable pub lc_get_coil : Tastek × W → Tastek × W
  unfolding store_read
  lc_get_coil (d, w) =
      let (connected, w1) = mb.connect d.host_name w in
      let (read, w2) = mb.read_bits w1 in
      if connected then (store_read read d, w2) else (challenge_error false d, w1)

  -- One round of the `for` in the timer's lambda.
  unfoldable pub sync_coil : ℕ → Tastek × W → Tastek × W
  unfolding set_coil
  sync_coil i (d, w) =
      if differ (get_coil i d.real_addr) (get_coil i d.on_addr)
      then set_coil i (get_coil i d.on_addr) (d, w)
      else (d, w)

  unfoldable pub sync_coils : List ℕ → Tastek × W → Tastek × W
  sync_coils [] s = s
  sync_coils (i ∷ is) s = sync_coils is (sync_coil i s)

  -- The timer's lambda of run_modbus_loop.
  unfoldable pub modbus_loop : Tastek × W → Tastek × W
  unfolding sync_coils
  modbus_loop s = sync_coils (0 ∷ 1 ∷ 2 ∷ 3 ∷ []) (lc_get_coil s)

unfoldable pub run_modbus_loop : Tastek → Tastek
run_modbus_loop d = if d.has_loop_timer then d else record d { has_loop_timer = true }
