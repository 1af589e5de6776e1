-- ===== src/Core/Daemons/Stop.antt =====
-- stop_device and stop_sm of config_rpc.cpp, undisturbed and with a start in between.
use auto_drop.Prelude.{
  ℕ, ◌≤◌, ◌<◌, ◌≡◌, refl, ◌∙◌, inl, inr, Bool, true, false, ap, lt→ltb, Option, none, some, List,
  Str, lookup, erase, has, arith, Option-cases, has-lookup, lookup-insert, has-insert, has-erase,
  nat_eq,
}
use native.Mathlib.Decide.{dec_lt}
use auto_drop.Core.Daemons.{
  Config, DeviceConfig, Kernel, returns, taken, free_port, min_port, max_port, unregister,
  start_device, stop_device, stop_sm, stop_device_begin, stop_sm_begin, wait_stop_begin,
  wait_stop_daemon,
}
use auto_drop.Core.Daemons.Ports.{free_port-Least}
use auto_drop.Core.Daemons.Start.{spawned, start_device_eq, device_config}
use auto_drop.Core.Daemons.Registry.{
  add_device, Inv, SameMaps, unregister-SameMaps, Inv-SameMaps, drop_device-Inv, drop_sm-Inv,
}

wait_stop_begin-SameMaps : (ok : Bool) (p : ℕ) (c : Config) → SameMaps (wait_stop_begin ok p c) c
unfolding wait_stop_begin
wait_stop_begin-SameMaps ok p c = stop_cases (lookup p c.subprocess_map)
  where
    stop_cases :
        (o : Option ℕ) → SameMaps (elim o [ none ↦ c | some node ↦ unregister ok node c ]) c
    stop_cases none = (refl, refl, refl, refl, refl)
    stop_cases (some node) = unregister-SameMaps ok node c

-- Stopping a device whose port is held, with no other call in between, keeps the invariant, removes
-- exactly that entry from the devices, leaves the state machines as they were, and leaves the port
-- free.
pub stop_device-Inv :
    (ok : Bool) (p : ℕ) (c : Config)
    → has p c.device_map ≡ true
    → Inv c
    → let c' = stop_device ok p c in
      Inv c'
      × (c'.device_map ≡ erase p c.device_map)
      × (c'.sm_map ≡ c.sm_map)
      × (taken p c' ≡ false)
unfolding stop_device wait_stop_daemon taken
stop_device-Inv ok p c h v =
    let c1 = stop_device_begin p c in
    let s = wait_stop_begin-SameMaps ok p c1 in
    let held : has p c.subprocess_map ≡ true = ground (arith, v.processes p) in
    rw (h, held)
      (
        Inv-SameMaps (s.0, s.1, ap (erase p) s.2, s.3, s.4) (drop_device-Inv p c h v),
        s.0,
        s.1,
        ground (arith, s, has-erase p p c.device_map, v.apart p h),
      )

-- Stopping a state machine whose port is held, with no other call in between, keeps the invariant,
-- removes exactly that entry from the state machines, leaves the devices as they were, and leaves
-- the port free.
pub stop_sm-Inv :
    (ok : Bool) (p : ℕ) (c : Config)
    → has p c.sm_map ≡ true
    → Inv c
    → let c' = stop_sm ok p c in
      Inv c'
      × (c'.sm_map ≡ erase p c.sm_map)
      × (c'.device_map ≡ c.device_map)
      × (taken p c' ≡ false)
unfolding stop_sm wait_stop_daemon taken
stop_sm-Inv ok p c h v =
    let c1 = stop_sm_begin p c in
    let s = wait_stop_begin-SameMaps ok p c1 in
    let held : has p c.subprocess_map ≡ true = ground (arith, v.processes p) in
    rw (h, held)
      (
        Inv-SameMaps (s.0, s.1, ap (erase p) s.2, s.3, s.4) (drop_sm-Inv p c h v),
        s.1,
        s.0,
        ground (arith, s, has-erase p p c.sm_map, v.apart p),
      )

device_in_range :
    (p : ℕ) (c : Config) → has p c.device_map ≡ true → Inv c → (min_port ≤ p) × (p < max_port)
device_in_range p c h v = elim (Option-cases (lookup p c.device_map)) [
  | inl e ↦ absurd (ground (arith, has-lookup p c.device_map))
  | inr (d, e) ↦ let (x, y, z) = v.device_port p d e in (y, z)
]

freed :
    (p : ℕ) (c : Config)
    → has p c.device_map ≡ true
    → Inv c
    → taken p (stop_device_begin p c) ≡ false
unfolding stop_device_begin taken
freed p c h v = ground (arith, has-erase p p c.device_map, v.apart p h)

-- The least free port once p is given up is p itself, if every smaller one is held.
reuses_port :
    (p : ℕ) (c : Config)
    → has p c.device_map ≡ true
    → Inv c
    → ((j : ℕ) → min_port ≤ j → j < p → taken j c ≡ true)
    → free_port (stop_device_begin p c) ≡ p
unfolding stop_device_begin taken
reuses_port p c h v low =
    let q = free_port (stop_device_begin p c) in
    let (x, y) = device_in_range p c h v in
    let f = freed p c h v in
    elim (free_port-Least (stop_device_begin p c)) [
      | inl (a, b, t, l) ↦ elim (dec_lt q p) [
        | yes below ↦ absurd (ground (arith, low q a below, t, has-erase p q c.device_map))
        | no nb ↦ elim (dec_lt p q) [
          | yes above ↦ absurd (ground (arith, l p x above, f))
          | no na ↦ omega arith
        ]
      ]
      | inr (z, full) ↦ absurd (ground (arith, full p x y, f))
    ]

-- The port is given up before the old process has ended. If all smaller ports are held, a
-- start_device that runs while stop_device(p) waits for its RPC is given the same port p; when
-- stop_device then goes on, it takes the new process for the old one, and the new device is left
-- without its process.
pub stop_start_race :
    (k : Kernel) (pid : ℕ) (ok : Bool) (p : ℕ) (driver : Str) (argv : List Str) (name : Str)
    (c : Config)
    → k.fork ≡ some pid
    → has p c.device_map ≡ true
    → Inv c
    → ((j : ℕ) → min_port ≤ j → j < p → taken j c ≡ true)
    → (r : DeviceConfig) × (c1 : Config) × (start_device k driver argv name (stop_device_begin p c)
        ≡ returns (r, c1))
      × (r.port ≡ p)
      × (lookup p c1.subprocess_map ≡ some c.next_node)
      × (has p (wait_stop_daemon ok p c1).device_map ≡ true)
      × (has p (wait_stop_daemon ok p c1).subprocess_map ≡ false)
unfolding add_device wait_stop_daemon stop_device_begin
stop_start_race k pid ok p driver argv name c e h v low =
    let c0 = stop_device_begin p c in
    let d = device_config driver p argv name in
    let same = reuses_port p c h v low in
    let (x, y) = device_in_range p c h v in
    let s0 = spawned k pid driver argv name c0 in
    let c1 = add_device p d c0.next_node s0 in
    let s = wait_stop_begin-SameMaps ok p c1 in
    (
      d,
      c1,
      start_device_eq k pid driver argv name c0 e ∙ rw (same, lt→ltb 0 p (omega arith)),
      refl,
      ground (arith, lookup-insert p p c0.next_node s0.subprocess_map),
      ground (arith, s, has-insert p p d s0.device_map),
      ground (
        arith,
        s,
        has-erase p p (wait_stop_begin ok p c1).subprocess_map,
        has-insert p p c0.next_node s0.subprocess_map,
      ),
    )

pub stop_device-nodes : (ok : Bool) (p : ℕ) (c : Config) → (stop_device ok p c).nodes ≡ c.nodes
unfolding stop_device wait_stop_daemon
stop_device-nodes ok p c = ground (arith, wait_stop_begin-SameMaps ok p (stop_device_begin p c))
