-- ===== src/Core/Runner/Devices.antt =====
-- Which device a state machine reaches under a name.
use auto_drop.Prelude.{
  ℕ, ◌≡◌, refl, ◌∙◌, Bool, false, if◌then◌else◌, Option, List, [], ◌∷◌, Str, str_beq, str_eq,
  lookup-insert, lookup-erase, arith,
}
use auto_drop.Core.Runner.{
  Runner, set_device, get_device, Rpc, call_device, or_default, match_device, clear_device,
}

-- What reaches the map of devices: the two RPCs with the answer of the device, and the calls of the
-- Lua code.
pub data Use : Type 0 where
  matched : Option Bool → Str → ℕ → Use
  cleared : Option Bool → Str → Use
  called : Str → Rpc → Use

unfoldable pub use_device : ℕ → Use → Runner → Runner
unfolding match_device clear_device call_device
use_device listen_port (matched answer name port) r =
    (match_device listen_port answer name port r).2
use_device listen_port (cleared answer name) r = (clear_device answer name r).2
use_device listen_port (called name c) r = (call_device name c r).1

unfoldable pub use_devices : ℕ → List Use → Runner → Runner
use_devices listen_port [] r = r
use_devices listen_port (u ∷ us) r = use_devices listen_port us (use_device listen_port u r)

-- The map as a function: 0 for a name that has no device.
abbrev pub Ports : Type 0
Ports = Str → ℕ

abbrev pub use_port : Use → Ports → Ports
use_port (matched answer name port) f = λ n. if str_beq name n then port else f n
use_port (cleared answer name) f =
    λ n. if or_default false answer then (if str_beq name n then 0 else f n) else f n
use_port (called name c) f = f

abbrev pub use_ports : List Use → Ports → Ports
use_ports [] f = f
use_ports (u ∷ us) f = use_ports us (use_port u f)

abbrev pub port_of : Runner → Ports
port_of r = λ n. (get_device n r).0

get_device-keeps : (name n : Str) (r : Runner) → port_of (get_device name r).1 n ≡ port_of r n
unfolding get_device
get_device-keeps name n r = ground (arith, lookup-erase name n r.device_map, str_eq.beq_iff name n)

set_device-port :
    (name n : Str) (p : ℕ) (r : Runner)
    → port_of (set_device name p r) n ≡ (if str_beq name n then p else port_of r n)
unfolding get_device set_device
set_device-port name n p r = ground (arith, lookup-insert name n p r.device_map)

use_device-port :
    (listen_port : ℕ) (u : Use) (r : Runner) (n : Str)
    → port_of (use_device listen_port u r) n ≡ use_port u (port_of r) n
unfolding use_device match_device clear_device call_device
use_device-port l (matched answer name port) r n = set_device-port name n port r
use_device-port l (cleared answer name) r n =
    ground (arith, get_device-keeps name n r, set_device-port name n 0 (get_device name r).1)
use_device-port l (called name c) r n = get_device-keeps name n r

use_ports-same :
    (us : List Use) (f g : Ports)
    → ((n : Str) → f n ≡ g n)
    → (n : Str) → use_ports us f n ≡ use_ports us g n
use_ports-same [] f g h n = h n
use_ports-same (matched answer name port ∷ us) f g h n =
    use_ports-same us (use_port (matched answer name port) f)
      (use_port (matched answer name port) g) (λ m. rw (h m)) n
use_ports-same (cleared answer name ∷ us) f g h n =
    use_ports-same us (use_port (cleared answer name) f) (use_port (cleared answer name) g)
      (λ m. rw (h m)) n
use_ports-same (called name c ∷ us) f g h n = use_ports-same us f g h n

-- After any sequence of matches, clears and calls, a call under a name goes to the port that the
-- sequence gives the name: that of its last match, or 0 if a clear that the device acknowledged came
-- after it, or what the name had before, if there was neither; get_device erasing empty entries on
-- the way is not seen.
pub use_devices-port :
    (listen_port : ℕ) (us : List Use) (r : Runner) (name : Str) (c : Rpc)
    → (call_device name c (use_devices listen_port us r)).0 ≡ (use_ports us (port_of r) name, c)
unfolding use_devices call_device
use_devices-port l [] r name c = refl
use_devices-port l (u ∷ us) r name c =
    use_devices-port l us (use_device l u r) name c
    ∙ rw (
        use_ports-same us (port_of (use_device l u r)) (use_port u (port_of r))
          (use_device-port l u r) name)
