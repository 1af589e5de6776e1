-- ===== src/Cli/DeviceConfig.antt =====
-- src/cli/device_config.cpp: the devices in the configuration file. The drivers installed are what
-- `ls` prints; the `devices` part of the file is the argument, whose texts are of one line and come
-- back from the file as they were written.
pub mod Restore
mod Examples
use auto_drop.Prelude.{
  ℕ, Bool, true, false, ◌&&◌, ◌||◌, if◌then◌else◌, List, [], ◌∷◌, ◌++◌, map, Str, str_beq, ◌==◌,
  codes,
}
use auto_drop.Cli.SmConfig.{has_param, param}

pub record Device : Type 0 where
  pub name : Str
  pub driver : Str
  pub args : Str

pub data Message : Type 0 where
  bad_params : Message
  no_driver : Str → Message
  device_exists : Str → Message
  done : Message

-- The `while` of get_all_driver: the lines of the output that end in a newline. `line` is what has
-- been read of the present one.
unfoldable pub lines_from : Str → Str → List Str
lines_from line [] = []
lines_from line (c ∷ s) =
    let more = lines_from (line ++ c ∷ []) s in
    let next = line ∷ lines_from [] s in if c == 10 then next else more

unfoldable pub get_all_driver : Str → List Str
unfolding lines_from
get_all_driver cmd_out = lines_from [] cmd_out

-- std::find over the drivers.
unfoldable pub installed : Str → List Str → Bool
installed name [] = false
installed name (d ∷ ds) = str_beq d name || installed name ds

unfoldable pub has_device : Str → List Device → Bool
has_device name [] = false
has_device name (d ∷ ds) = str_beq d.name name || has_device name ds

unfoldable pub make_new_device : Str → Str → Str → Device
make_new_device driver name args = record { name = name; driver = driver; args = args }

unfoldable pub add_device : List Str → List Str → List Device → List Device × Message
unfolding make_new_device installed has_device
add_device drivers params ds =
    let driver = param params 0 in
    let name = param params 1 in
    if has_param params 0 && has_param params 1 && has_param params 2
    then (if installed driver drivers
        then (if has_device name ds
            then (ds, device_exists name)
            else (ds ++ make_new_device driver name (param params 2) ∷ [], done))
        else (ds, no_driver driver))
    else (ds, bad_params)

-- The parameters of the add_device lines that make_bdr writes.
unfoldable pub make_bdr : List Device → List (List Str)
make_bdr [] = []
make_bdr (d ∷ ds) = (d.driver ∷ d.name ∷ d.args ∷ []) ∷ make_bdr ds

-- The lines of make_bdr, each without its newline.
unfoldable pub make_bdr_lines : List Device → List Str
make_bdr_lines [] = []
make_bdr_lines (d ∷ ds) =
    (codes "add_device "
      ++ (d.driver ++ (codes " " ++ (d.name ++ (codes " '" ++ (d.args ++ codes "'"))))))
    ∷ make_bdr_lines ds

unfoldable pub clear : List Device → List Device
clear ds = []

unfoldable pub add_devices : List Str → List (List Str) → List Device → List Device
add_devices drivers [] ds = ds
add_devices drivers (p ∷ ps) ds = add_devices drivers ps (add_device drivers p ds).0
