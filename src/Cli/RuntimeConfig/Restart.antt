-- ===== src/Cli/RuntimeConfig/Restart.antt =====
-- src/cli/runtime_config.cpp: restart, over the configuration daemon of config_rpc.cpp. The RPCs
-- arrive. The configuration file as it was read is an argument (`none` where it is missing or
-- empty), and so are the answers of epoll_ctl for each port and of the kernel for each start.
pub mod Devices
pub mod Starts
pub mod Stops
mod Examples
use auto_drop.Prelude.{
  ℕ, zero, suc, Bool, not, if◌then◌else◌, ◌==◌, true, false, Option, none, some, List, [], ◌∷◌, Str,
  Dict, str_beq, codes,
}
use auto_drop.Core.Daemons.{
  Config, DeviceConfig, SmConfig, Kernel, Outcome, returns, ◌>>=◌, start_device, start_sm,
  stop_device, stop_sm, get_device_list, get_sm_list,
}
use auto_drop.Cli.RuntimeConfig.{split_args}

-- An item of config["devices"].
pub record DeviceEntry : Type 0 where
  pub driver : Str
  pub name : Str
  pub args : Str

-- `init_state` is sm["init_state"], empty where config["sm"] is null.
pub record ConfigFile : Type 0 where
  pub devices : List DeviceEntry
  pub init_state : Str

-- What is printed.
pub data RestartReply : Type 0 where
  done : RestartReply
  device_failed : Str → RestartReply
  sm_failed : RestartReply

unfoldable pub stop_devices : (ℕ → Bool) → List DeviceConfig → Config → Config
stop_devices ok [] c = c
stop_devices ok (d ∷ ds) c = stop_devices ok ds (stop_device (ok d.port) d.port c)

unfoldable pub stop_sms : (ℕ → Bool) → List SmConfig → Config → Config
stop_sms ok [] c = c
stop_sms ok (d ∷ ds) c = stop_sms ok ds (stop_sm (ok d.port) d.port c)

-- What follows a start in the loop over the devices; `rest` is the rest of the loop.
abbrev pub if_started :
    Str
    → DeviceConfig × Config
    → (Config → Outcome (RestartReply × Config))
    → Outcome (RestartReply × Config)
if_started name (r, c) rest = if r.port == 0 then returns (device_failed name, c) else rest c

-- The `for` over the devices, with the kernel's answers from the i-th start on.
unfoldable pub start_devices :
    (ℕ → Kernel) → ℕ → List DeviceEntry → Config → Outcome (RestartReply × Config)
start_devices k i [] c = returns (done, c)
start_devices k i (e ∷ es) c =
    start_device (k i) e.driver (split_args e.args) e.name c >>= λ started.
    if_started e.name started (start_devices k (suc i) es)

-- AD_CONST_CONFIG_FILE
abbrev pub config_file : Str
config_file = codes "/conf/config.yaml"

abbrev pub sm_reply : SmConfig × Config → RestartReply × Config
sm_reply (r, c) = (if r.port == 0 then sm_failed else done, c)

unfoldable pub start_configured_sm : Kernel → Str → Config → Outcome (RestartReply × Config)
start_configured_sm k init_state c =
    if str_beq init_state []
    then returns (done, c)
    else (start_sm k (codes "sm") (config_file ∷ []) c >>= λ started. returns (sm_reply started))

-- What follows the loop: a failure has returned from restart.
abbrev pub after_devices : Kernel → Str → RestartReply → Config → Outcome (RestartReply × Config)
after_devices k init_state done c = start_configured_sm k init_state c
after_devices k init_state (device_failed name) c = returns (device_failed name, c)
after_devices k init_state sm_failed c = returns (sm_failed, c)

unfoldable pub start_all :
    (ℕ → Kernel) → Kernel → Option ConfigFile → Config → Outcome (RestartReply × Config)
unfolding start_devices start_configured_sm
start_all k k_sm none c = returns (done, c)
start_all k k_sm (some file) c =
    start_devices k 0 file.devices c >>= λ r. after_devices k_sm file.init_state r.0 r.1

unfoldable pub restart :
    (Dict ℕ DeviceConfig → List DeviceConfig)
    → (Dict ℕ SmConfig → List SmConfig)
    → (ℕ → Bool)
    → (ℕ → Kernel)
    → Kernel
    → Option ConfigFile
    → Config
    → Outcome (RestartReply × Config)
unfolding get_device_list get_sm_list stop_devices stop_sms start_all
restart walk walk_sm ok k k_sm file c =
    start_all k k_sm file
      (stop_sms ok (get_sm_list walk_sm c) (stop_devices ok (get_device_list walk c) c))
