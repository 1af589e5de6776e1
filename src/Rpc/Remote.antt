-- ===== src/Rpc/Remote.antt =====
-- src/rpc/ad_rpc.cpp: the calls that find a running device by its name. The list of devices is what
-- get_device_list of the configuration daemon answers.
use auto_drop.Prelude.{
  ℕ, Bool, not, if◌then◌else◌, ltb, Option, none, some, List, [], ◌∷◌, Str, str_beq,
}
use auto_drop.Prelude.Int.{ℤ}
use auto_drop.Core.Daemons.{DeviceConfig}
use auto_drop.Core.Runner.{Rpc, Request, gate_control, save_ply_file, set_lc_open}

unfoldable pub ad_rpc_get_specific_dev_port : Str → List DeviceConfig → ℕ
ad_rpc_get_specific_dev_port name [] = 0
ad_rpc_get_specific_dev_port name (d ∷ ds) =
    let rest = ad_rpc_get_specific_dev_port name ds in
    if str_beq d.device_name name then d.port else rest

-- The request that is sent, if there is one.
unfoldable pub call_specific : Str → Rpc → List DeviceConfig → Option Request
unfolding ad_rpc_get_specific_dev_port
call_specific name c ds =
    let port = ad_rpc_get_specific_dev_port name ds in if ltb 0 port then some (port, c) else none

abbrev pub ad_rpc_device_save_ply : Str → List DeviceConfig → Option Request
ad_rpc_device_save_ply name ds = call_specific name (save_ply_file []) ds

abbrev pub ad_rpc_gate_ctrl : Str → Bool → List DeviceConfig → Option Request
ad_rpc_gate_ctrl name is_open ds = call_specific name (gate_control (not is_open)) ds

abbrev pub ad_rpc_set_lc_open : Str → ℤ → List DeviceConfig → Option Request
ad_rpc_set_lc_open name threshold ds = call_specific name (set_lc_open threshold) ds
