-- ===== src/Core/Daemons/Start.antt =====
-- start_device and start_sm of config_rpc.cpp, when fork succeeds, when no port is left, and when
-- fork fails.
use auto_drop.Prelude.{
  ℕ, ◌≡◌, refl, ◌⊎◌, inl, inr, if◌then◌else◌, ltb, none, some, List, ◌++◌, Str, codes, insert,
  lookup, subst, ap, arith, lookup-insert, nat_eq, ◌∙◌, lt→ltb,
}
use auto_drop.Prelude.Decimal.{stoul-to_string}
use auto_drop.Core.Daemons.{
  Config, DeviceConfig, SmConfig, Subprocess, Kernel, returns, becomes, taken, free_port, min_port,
  max_port, execute, register, new_node, exec_args, start_daemon, start_device, start_sm, no_device,
  no_sm,
}
use auto_drop.Core.Daemons.Ports.{free_port-Least, Least, Full}
use auto_drop.Core.Daemons.Registry.{
  Inv, register-SameMaps, register-programs, Inv-SameMaps, new_node-Inv, Fresh, add_device, add_sm,
  add_device-Inv, add_sm-Inv,
}

-- The node that start_daemon makes.
abbrev pub started : Str → List Str → Str → ℕ → Kernel → ℕ → Subprocess
started path argv name port k pid = record {
  path = path;
  argv = exec_args name port argv;
  name = name;
  pid = pid;
  fd = k.pidfd;
}

-- The state after the process is started and before the maps are written.
abbrev pub spawned : Kernel → ℕ → Str → List Str → Str → Config → Config
spawned k pid path argv name c = register k.epoll c.next_node (
    new_node (started path argv name (free_port c) k pid)
      (execute pid (codes "/bin/" ++ path) (exec_args name (free_port c) argv) c))

start_daemon_lem :
    (k : Kernel) (pid : ℕ) (path : Str) (argv : List Str) (name : Str) (c : Config)
    → k.fork ≡ some pid
    → start_daemon k path argv name c
      ≡ returns (free_port c, c.next_node, spawned k pid path argv name c)
unfolding start_daemon
start_daemon_lem k pid path argv name c e = rw e

pub spawned-Inv :
    (k : Kernel) (pid : ℕ) (path : Str) (argv : List Str) (name : Str) (c : Config)
    → Inv c
    → Inv (spawned k pid path argv name c)
spawned-Inv k pid path argv name c v =
    let n = started path argv name (free_port c) k pid in
    let c1 = execute pid (codes "/bin/" ++ path) (exec_args name (free_port c) argv) c in
    Inv-SameMaps (register-SameMaps k.epoll c.next_node (new_node n c1))
      (new_node-Inv n c1 (Inv-SameMaps {c' = c1} {c = c} (refl, refl, refl, refl, refl) v))

-- The new process has executed the program.
spawned-programs :
    (k : Kernel) (pid : ℕ) (path : Str) (argv : List Str) (name : Str) (c : Config)
    → lookup pid (spawned k pid path argv name c).programs
      ≡ some (codes "/bin/" ++ path, exec_args name (free_port c) argv)
unfolding new_node
spawned-programs k pid path argv name c =
    let n = started path argv name (free_port c) k pid in
    let program : Str × List Str = (codes "/bin/" ++ path, exec_args name (free_port c) argv) in
    ap (lookup pid)
      (register-programs k.epoll c.next_node (new_node n (execute pid program.0 program.1 c)))
    ∙ ground (arith, lookup-insert pid pid program c.programs)

pub spawned-Fresh :
    (k : Kernel) (pid : ℕ) (path : Str) (argv : List Str) (name : Str) (c : Config)
    → Least c min_port max_port (free_port c)
    → Fresh (spawned k pid path argv name c) (free_port c) c.next_node
unfolding taken new_node exec_args
spawned-Fresh k pid path argv name c (a, b, t, l) =
    let n = started path argv name (free_port c) k pid in
    let c1 = execute pid (codes "/bin/" ++ path) (exec_args name (free_port c) argv) c in
    let s = register-SameMaps k.epoll c.next_node (new_node n c1) in
    (
      a,
      b,
      ground (arith, s, t),
      (
        n,
        ground (arith, s, lookup-insert c.next_node c.next_node n c.nodes),
        stoul-to_string (free_port c),
      ),
    )

abbrev pub device_config : Str → ℕ → List Str → Str → DeviceConfig
device_config driver port argv name = record {
  driver_name = driver;
  port = port;
  argv = argv;
  device_name = name;
}

-- What a successful start_device does to the two maps and returns, and what a refused one does.
abbrev pub StartsDevice : Str → List Str → Str → Config → DeviceConfig → Config → Type 0
StartsDevice driver argv name c r c' =
    ((r ≡ device_config driver r.port argv name)
      × Least c min_port max_port r.port
      × (c'.device_map ≡ insert r.port r c.device_map)
      × (c'.sm_map ≡ c.sm_map))
    ⊎ ((r ≡ no_device)
        × Full c min_port max_port
        × (c'.device_map ≡ c.device_map)
        × (c'.sm_map ≡ c.sm_map))

pub start_device_eq :
    (k : Kernel) (pid : ℕ) (driver : Str) (argv : List Str) (name : Str) (c : Config)
    → k.fork ≡ some pid
    → let c1 = spawned k pid driver argv name c in
      let d = device_config driver (free_port c) argv name in
      start_device k driver argv name c
      ≡ returns (
          if ltb 0 (free_port c)
          then (d, add_device (free_port c) d c.next_node c1)
          else (no_device, c1))
unfolding start_device add_device
start_device_eq k pid driver argv name c e = rw (start_daemon_lem k pid driver argv name c e)

-- With a successful fork, start_device keeps the invariant. Either it returns the configuration
-- asked for under the least free port, with exactly that entry added to the devices and the state
-- machines unchanged; or all ports are held, it returns the empty configuration, and both maps are
-- unchanged. Either way the new process has executed the driver's program, with the name, the port
-- that was returned (0 if none was free) and the arguments.
pub start_device-Inv :
    (k : Kernel) (pid : ℕ) (driver : Str) (argv : List Str) (name : Str) (c : Config)
    → k.fork ≡ some pid
    → Inv c
    → (r : DeviceConfig) × (c' : Config) × (start_device k driver argv name c ≡ returns (r, c'))
      × Inv c'
      × StartsDevice driver argv name c r c'
      × (lookup pid c'.programs ≡ some (codes "/bin/" ++ driver, exec_args name r.port argv))
unfolding add_device new_node
start_device-Inv k pid driver argv name c e v =
    let c1 = spawned k pid driver argv name c in
    let p = free_port c in
    let d = device_config driver p argv name in
    let w = spawned-Inv k pid driver argv name c v in
    let s = register-SameMaps k.epoll c.next_node (
      new_node (started driver argv name p k pid)
        (execute pid (codes "/bin/" ++ driver) (exec_args name p argv) c)) in
    let runs = spawned-programs k pid driver argv name c in
    let Runs : ℕ → Type 0 =
      λ q. lookup pid c1.programs ≡ some (codes "/bin/" ++ driver, exec_args name q argv) in
    elim (free_port-Least c) [
      | inl l ↦ (
        d,
        add_device p d c.next_node c1,
        start_device_eq k pid driver argv name c e ∙ rw (lt→ltb 0 p (omega (arith, l))),
        add_device-Inv p d c.next_node c1 refl (spawned-Fresh k pid driver argv name c l) w,
        inl (refl, l, ap (insert p d) s.0, s.1),
        runs,
      )
      | inr (z, full) ↦ (
        no_device,
        c1,
        start_device_eq k pid driver argv name c e ∙ rw z,
        w,
        inr (refl, full, s.0, s.1),
        subst Runs z runs,
      )
    ]

abbrev pub sm_config : Str → ℕ → List Str → SmConfig
sm_config name port argv = record { sm_name = name; port = port; argv = argv }

-- The same for start_sm.
abbrev pub StartsSm : Str → List Str → Config → SmConfig → Config → Type 0
StartsSm name argv c r c' =
    ((r ≡ sm_config name r.port argv)
      × Least c min_port max_port r.port
      × (c'.sm_map ≡ insert r.port r c.sm_map)
      × (c'.device_map ≡ c.device_map))
    ⊎ ((r ≡ no_sm)
        × Full c min_port max_port
        × (c'.sm_map ≡ c.sm_map)
        × (c'.device_map ≡ c.device_map))

start_sm_eq :
    (k : Kernel) (pid : ℕ) (name : Str) (argv : List Str) (c : Config)
    → k.fork ≡ some pid
    → let c1 = spawned k pid (codes "sm_daemon") argv name c in
      let d = sm_config name (free_port c) argv in
      start_sm k name argv c
      ≡ returns
          (if ltb 0 (free_port c) then (d, add_sm (free_port c) d c.next_node c1) else (no_sm, c1))
unfolding start_sm add_sm
start_sm_eq k pid name argv c e = rw (start_daemon_lem k pid (codes "sm_daemon") argv name c e)

-- With a successful fork, start_sm keeps the invariant. Either it returns the configuration asked
-- for under the least free port, with exactly that entry added to the state machines and the devices
-- unchanged; or all ports are held, it returns the empty configuration, and both maps are unchanged.
pub start_sm-Inv :
    (k : Kernel) (pid : ℕ) (name : Str) (argv : List Str) (c : Config)
    → k.fork ≡ some pid
    → Inv c
    → (r : SmConfig) × (c' : Config) × (start_sm k name argv c ≡ returns (r, c'))
      × Inv c'
      × StartsSm name argv c r c'
      × (lookup pid c'.programs ≡ some (codes "/bin/sm_daemon", exec_args name r.port argv))
unfolding add_sm new_node
start_sm-Inv k pid name argv c e v =
    let path = codes "sm_daemon" in
    let c1 = spawned k pid path argv name c in
    let p = free_port c in
    let d = sm_config name p argv in
    let w = spawned-Inv k pid path argv name c v in
    let s = register-SameMaps k.epoll c.next_node (
      new_node (started path argv name p k pid)
        (execute pid (codes "/bin/" ++ path) (exec_args name p argv) c)) in
    let runs = spawned-programs k pid path argv name c in
    let Runs : ℕ → Type 0 =
      λ q. lookup pid c1.programs ≡ some (codes "/bin/sm_daemon", exec_args name q argv) in
    elim (free_port-Least c) [
      | inl l ↦ (
        d,
        add_sm p d c.next_node c1,
        start_sm_eq k pid name argv c e ∙ rw (lt→ltb 0 p (omega (arith, l))),
        add_sm-Inv p d c.next_node c1 refl (spawned-Fresh k pid path argv name c l) w,
        inl (refl, l, ap (insert p d) s.1, s.0),
        runs,
      )
      | inr (z, full) ↦ (
        no_sm,
        c1,
        start_sm_eq k pid name argv c e ∙ rw z,
        w,
        inr (refl, full, s.1, s.0),
        subst Runs z runs,
      )
    ]

-- When fork fails, start_device does not return: the configuration daemon itself becomes the driver,
-- with the device's name, the least free port and the device's arguments.
start_device_fork_fails :
    (k : Kernel) (driver : Str) (argv : List Str) (name : Str) (c : Config)
    → k.fork ≡ none
    → start_device k driver argv name c
      ≡ becomes (codes "/bin/" ++ driver) (exec_args name (free_port c) argv)
unfolding start_device start_daemon
start_device_fork_fails k driver argv name c e = rw e
