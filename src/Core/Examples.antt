-- ===== src/Core/Examples.antt =====
-- The configuration daemon with one device, and with all ports held.
use auto_drop.Prelude.{
  ◌≡◌, refl, true, false, some, [], ◌∷◌, ◌++◌, codes, lookup, insert, erase, has, nat_eq, arith,
  subst,
}
use auto_drop.Core.Daemons.{
  exec_args, Config, DeviceConfig, SmConfig, Subprocess, no_config, Kernel, returns, taken,
  free_from, free_port, min_port, max_port, register, new_node, start_device, stop_device_begin,
  stop_device, wait_stop_daemon, exited, handle_event, handle_event_begin, handle_event_end,
}
use auto_drop.Core.Daemons.Ports.{Least}
use auto_drop.Core.Daemons.Registry.{
  Fresh, Inv, no_config-Inv, add_device, add_device-Inv, add_sm, add_sm-Inv,
}
use auto_drop.Core.Daemons.Start.{
  device_config, started, spawned, spawned-Inv, spawned-Fresh, StartsDevice, start_device-Inv,
  sm_config,
}
use auto_drop.Core.Daemons.Stop.{stop_device-Inv, stop_start_race}
use auto_drop.Core.Daemons.Restart.{renewed, Ends, handle_event-Inv, restart_after_stop}

abbrev pub kernel : Kernel
kernel = record { fork = some 4242; pidfd = 7; epoll = true }

abbrev pub kernel_again : Kernel
kernel_again = record { fork = some 4243; pidfd = 8; epoll = true }

start_device-Inv_example :
    (r : DeviceConfig) × (c' : Config) × (start_device kernel
        (codes "tastek")
        (codes "-t" ∷ [])
        (codes "chute")
        no_config
      ≡ returns (r, c'))
    × Inv c'
    × StartsDevice (codes "tastek") (codes "-t" ∷ []) (codes "chute") no_config r c'
    × (lookup 4242 c'.programs
        ≡ some
            (codes "/bin/" ++ codes "tastek", exec_args (codes "chute") r.port (codes "-t" ∷ [])))
start_device-Inv_example =
    start_device-Inv kernel 4242 (codes "tastek") (codes "-t" ∷ []) (codes "chute") no_config refl
      no_config-Inv

-- The state after that call.
abbrev chute_config : DeviceConfig
chute_config = device_config (codes "tastek") min_port [] (codes "chute")

abbrev pub one_device : Config
one_device =
    add_device min_port chute_config 0
      (spawned kernel 4242 (codes "tastek") [] (codes "chute") no_config)

first_port : free_port no_config ≡ min_port
unfolding free_port free_from taken no_config has
first_port = refl

first_port-Least : Least no_config min_port max_port (free_port no_config)
unfolding no_config taken has
first_port-Least = rw first_port (omega arith, omega arith, refl, λ j a b. absurd (omega arith))

pub one_device-Inv : Inv one_device
unfolding no_config
one_device-Inv =
    add_device-Inv min_port chute_config 0
      (spawned kernel 4242 (codes "tastek") [] (codes "chute") no_config) refl
      (subst (λ p. Fresh (spawned kernel 4242 (codes "tastek") [] (codes "chute") no_config) p 0)
        first_port
        (spawned-Fresh kernel 4242 (codes "tastek") [] (codes "chute") no_config first_port-Least))
      (spawned-Inv kernel 4242 (codes "tastek") [] (codes "chute") no_config no_config-Inv)

chute_held : has min_port one_device.device_map ≡ true
unfolding add_device register new_node no_config has insert lookup
chute_held = refl

stop_device-Inv_example :
    let c' = stop_device true min_port one_device in
    Inv c'
    × (c'.device_map ≡ erase min_port one_device.device_map)
    × (c'.sm_map ≡ one_device.sm_map)
    × (taken min_port c' ≡ false)
stop_device-Inv_example = stop_device-Inv true min_port one_device chute_held one_device-Inv

stop_start_race_example :
    (r : DeviceConfig) × (c1 : Config) × (start_device kernel_again
        (codes "tastek")
        []
        (codes "gate")
        (stop_device_begin min_port one_device)
      ≡ returns (r, c1))
    × (r.port ≡ min_port)
    × (lookup min_port c1.subprocess_map ≡ some one_device.next_node)
    × (has min_port (wait_stop_daemon true min_port c1).device_map ≡ true)
    × (has min_port (wait_stop_daemon true min_port c1).subprocess_map ≡ false)
stop_start_race_example =
    stop_start_race kernel_again 4243 true min_port (codes "tastek") [] (codes "gate") one_device
      refl chute_held one_device-Inv (λ j a b. absurd (omega arith))

chute_process : lookup min_port one_device.subprocess_map ≡ some 0
unfolding add_device register new_node no_config has insert lookup
chute_process = refl

abbrev chute_node : Subprocess
chute_node = started (codes "tastek") [] (codes "chute") (free_port no_config) kernel 4242

chute_started : lookup 0 one_device.nodes ≡ some chute_node
unfolding add_device register new_node no_config has insert lookup
chute_started = refl

handle_event-Inv_example :
    (c' : Config) × (handle_event true (exited 1) kernel_again 0 one_device ≡ returns c')
    × Inv c'
    × (c'.device_map ≡ one_device.device_map)
    × (c'.sm_map ≡ one_device.sm_map)
    × (c'.subprocess_map ≡ one_device.subprocess_map)
    × Ends (exited 1) 4243 8 0 chute_node one_device c'
handle_event-Inv_example =
    handle_event-Inv true (exited 1) kernel_again 4243 0 chute_node one_device chute_started refl
      one_device-Inv

pidfd_new : has 8 (stop_device true min_port (handle_event_begin true 0 one_device)).watched ≡ false
unfolding stop_device wait_stop_daemon handle_event_begin add_device register new_node no_config has
    insert lookup erase
pidfd_new = refl

restart_after_stop_example :
    (c' : Config) × (handle_event_end kernel_again 0
        (stop_device true min_port (handle_event_begin true 0 one_device))
      ≡ returns c')
    × ((taken min_port c' ≡ false)
        × (has min_port c'.subprocess_map ≡ false)
        × (lookup 0 c'.nodes ≡ some (renewed 4243 8 chute_node))
        × (lookup 8 c'.watched ≡ some 0))
restart_after_stop_example =
    restart_after_stop true true kernel_again 4243 min_port 0 chute_node one_device one_device-Inv
      chute_held chute_process chute_started refl refl pidfd_new

-- One state machine.
abbrev lane : SmConfig
lane = sm_config (codes "lane") min_port []

abbrev one_sm : Config
one_sm =
    add_sm min_port lane 0 (spawned kernel 4242 (codes "sm_daemon") [] (codes "lane") no_config)

one_sm-Inv : Inv one_sm
unfolding no_config
one_sm-Inv =
    add_sm-Inv min_port lane 0 (spawned kernel 4242 (codes "sm_daemon") [] (codes "lane") no_config)
      refl
      (subst (λ p. Fresh (spawned kernel 4242 (codes "sm_daemon") [] (codes "lane") no_config) p 0)
        first_port
        (spawned-Fresh kernel 4242 (codes "sm_daemon") [] (codes "lane") no_config
          first_port-Least))
      (spawned-Inv kernel 4242 (codes "sm_daemon") [] (codes "lane") no_config no_config-Inv)

lane_held : has min_port one_sm.sm_map ≡ true
unfolding add_sm register new_node no_config has insert lookup
lane_held = refl
