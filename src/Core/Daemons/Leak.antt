-- ===== src/Core/Daemons/Leak.antt =====
-- start_device of config_rpc.cpp when no port is left.
mod Examples
use auto_drop.Prelude.{
  ℕ, ◌≡◌, ◌≢◌, ◌∙◌, sym, ap, inl, inr, true, false, some, List, Str, ◌++◌, codes, lookup, has,
  arith, lookup-insert, nat_eq,
}
use auto_drop.Core.Daemons.{
  Config, Kernel, returns, min_port, max_port, free_port, execute, register, new_node, exec_args,
  start_device, no_device,
}
use auto_drop.Core.Daemons.Ports.{Full, free_port-Least}
use auto_drop.Core.Daemons.Registry.{Inv, register-SameMaps}
use auto_drop.Core.Daemons.Start.{started, spawned, start_device_eq}

Full-no_port : (c : Config) → Full c min_port max_port → free_port c ≡ 0
Full-no_port c full = elim (free_port-Least c) [
  | inl (lo, hi, free, least) ↦ absurd (ground (arith, free, full (free_port c) lo hi))
  | inr (none_left, also_full) ↦ none_left
]

-- When the maps agree, all ports are held, fork and epoll_ctl succeed and the pidfd is not watched
-- yet, start_device refuses, and the devices and the processes of the ports are as before; but it has
-- started the driver all the same: its process has executed it with the port 0, no port leads to its
-- node, and the event loop watches it.
pub start_device_leaks :
    (k : Kernel) (pid : ℕ) (driver : Str) (argv : List Str) (name : Str) (c : Config)
    → k.fork ≡ some pid
    → k.epoll ≡ true
    → has k.pidfd c.watched ≡ false
    → Inv c
    → Full c min_port max_port
    → (c' : Config) × (start_device k driver argv name c ≡ returns (no_device, c'))
      × (c'.device_map ≡ c.device_map)
      × (c'.subprocess_map ≡ c.subprocess_map)
      × ((p : ℕ) → lookup p c'.subprocess_map ≢ some c.next_node)
      × (lookup pid c'.programs ≡ some (codes "/bin/" ++ driver, exec_args name 0 argv))
      × (lookup c.next_node c'.nodes ≡ some (started driver argv name 0 k pid))
      × (lookup k.pidfd c'.watched ≡ some c.next_node)
unfolding new_node register
start_device_leaks k pid driver argv name c e ok new v full =
    let z = Full-no_port c full in
    let n = started driver argv name 0 k pid in
    let program : Str × List Str = (codes "/bin/" ++ driver, exec_args name 0 argv) in
    let c1 = execute pid program.0 program.1 c in
    let at = lookup-insert c.next_node c.next_node n c.nodes in
    let on = lookup-insert k.pidfd k.pidfd c.next_node c.watched in
    let s = register-SameMaps k.epoll c.next_node (new_node n c1) in
    (
      register k.epoll c.next_node (new_node n c1),
      start_device_eq k pid driver argv name c e ∙ rw z,
      s.0,
      s.2,
      λ p leads. no_newer p (sym (ap (lookup p) s.2) ∙ leads),
      ground (arith, at, lookup-insert pid pid program c.programs),
      ground (arith, at),
      ground (arith, at, on),
    )
  where
    no_newer : (p : ℕ) → lookup p c.subprocess_map ≢ some c.next_node
    no_newer p leads =
        let (m, is, listens) = v.serving p c.next_node leads in
        absurd (omega (arith, v.allocated c.next_node m is))
