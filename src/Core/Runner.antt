-- ===== src/Core/Runner.antt =====
-- src/core/rpc_imp_lib/runner.h and sm_rpc.{h,cpp}: the devices that a state machine uses, by name.
-- A call to a device yields the request that is sent, its port and the RPC; the answer, where the
-- code reads one, is an argument, `none` if the call fails.
pub mod Devices
mod Examples
use auto_drop.Prelude.{
  ℕ, zero, suc, Bool, true, false, if◌then◌else◌, ◌==◌, Option, none, some, List, [], ◌∷◌, Str,
  Dict, lookup, insert, erase, str_eq,
}
use auto_drop.Prelude.Int.{ℤ}

pub record Runner : Type 0 where
  pub device_map : Dict Str ℕ

unfoldable pub set_device : Str → ℕ → Runner → Runner
set_device name id r = record r { device_map = insert name id r.device_map }

unfoldable pub get_device : Str → Runner → ℕ × Runner
get_device name r = elim (lookup name r.device_map) [
  | none ↦ (0, r)
  | some zero ↦ (0, record r { device_map = erase name r.device_map })
  | some (suc p) ↦ (suc p, r)
]

-- The RPCs of a driver.
pub data Rpc : Type 0 where
  voice_broadcast : Str → ℤ → Rpc
  led_display : Str → Rpc
  voice_stop led_stop get_trigger_vehicle_plate vehicle_rd_detect vehicle_passed_gate : Rpc
  gate_control : Bool → Rpc
  save_ply_file : Str → Rpc
  set_lc_open : ℤ → Rpc
  set_sm : ℕ → Rpc

abbrev pub Request : Type 0
Request = ℕ × Rpc

unfoldable pub call_device : Str → Rpc → Runner → Request × Runner
unfolding get_device
call_device name c r = let (p, r') = get_device name r in ((p, c), r')

abbrev pub dev_voice_broadcast : Str → Str → ℤ → Runner → Request × Runner
dev_voice_broadcast name content times r = call_device name (voice_broadcast content times) r

abbrev pub dev_voice_stop : Str → Runner → Request × Runner
dev_voice_stop name r = call_device name voice_stop r

abbrev pub dev_led_display : Str → Str → Runner → Request × Runner
dev_led_display name content r = call_device name (led_display content) r

abbrev pub dev_led_stop : Str → Runner → Request × Runner
dev_led_stop name r = call_device name led_stop r

abbrev pub dev_gate_control : Str → Bool → Runner → Request × Runner
dev_gate_control name is_close r = call_device name (gate_control is_close) r

abbrev pub dev_save_ply : Str → Str → Runner → Request × Runner
dev_save_ply name reason r = call_device name (save_ply_file reason) r

abbrev pub dev_set_lc_open : Str → ℤ → Runner → Request × Runner
dev_set_lc_open name threshold r = call_device name (set_lc_open threshold) r

abbrev pub or_default {ℓ} : {A : Type ℓ} → A → Option A → A
or_default d none = d
or_default d (some a) = a

abbrev pub dev_get_trigger_vehicle_plate : Option Str → Str → Runner → Str × Request × Runner
dev_get_trigger_vehicle_plate answer name r =
    let (q, r') = call_device name get_trigger_vehicle_plate r in (or_default [] answer, q, r')

abbrev pub dev_vehicle_passed_gate : Option Bool → Str → Runner → Bool × Request × Runner
dev_vehicle_passed_gate answer name r =
    let (q, r') = call_device name vehicle_passed_gate r in (or_default false answer, q, r')

-- `listen_port` is the state machine's own port.
unfoldable pub match_device : ℕ → Option Bool → Str → ℕ → Runner → Bool × Request × Runner
unfolding set_device
match_device listen_port answer use_for port r =
    (or_default false answer, (port, set_sm listen_port), set_device use_for port r)

unfoldable pub clear_device : Option Bool → Str → Runner → Bool × Request × Runner
unfolding get_device set_device
clear_device answer use_for r =
    let (p, r') = get_device use_for r in
    let ret = or_default false answer in
    (ret, (p, set_sm 0), if ret then set_device use_for 0 r' else r')
