-- ===== src/Core/Runner/Examples.antt =====
-- A state machine that is given a gate, loses it, and asks for it.
use auto_drop.Prelude.{◌≡◌, true, some, none, List, [], ◌∷◌, codes}
use auto_drop.Core.Runner.{Runner, gate_control, voice_stop, call_device}
use auto_drop.Core.Runner.Devices.{
  Use, matched, cleared, called, use_devices, use_ports, port_of, use_devices-port,
}

abbrev no_devices : Runner
no_devices = record { device_map = [] }

abbrev uses : List Use
uses =
    matched (some true) (codes "gate") 50110
    ∷ called (codes "gate") (gate_control true)
    ∷ cleared (some true) (codes "gate")
    ∷ called (codes "gate") voice_stop
    ∷ matched none (codes "gate") 50111
    ∷ []

use_devices-port_example :
    (call_device (codes "gate") voice_stop (use_devices 50200 uses no_devices)).0
    ≡ (use_ports uses (port_of no_devices) (codes "gate"), voice_stop)
use_devices-port_example = use_devices-port 50200 uses no_devices (codes "gate") voice_stop
