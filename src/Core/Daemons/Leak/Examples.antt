-- ===== src/Core/Daemons/Leak/Examples.antt =====
-- A daemon that has given out all its ports.
use auto_drop.Prelude.{
  ℕ, zero, suc, ◌+◌, ◌≤◌, ◌≡◌, ◌≢◌, refl, sym, ap, subst, inl, inr, true, false, some, [], ◌++◌,
  codes, lookup, has, has-insert, nat_eq, arith, Bool-cases, ltb, lookup-insert,
}
use native.Mathlib.Decide.{dec_lt}
use auto_drop.Core.Daemons.{
  Config, DeviceConfig, Kernel, Outcome, returns, becomes, no_config, min_port, max_port, taken,
  free_port, register, new_node, exec_args, start_device, no_device,
}
use auto_drop.Core.Daemons.Leak.{start_device_leaks}
use auto_drop.Core.Daemons.Ports.{Full}
use auto_drop.Core.Daemons.Registry.{add_device, Inv, no_config-Inv}
use auto_drop.Core.Daemons.Start.{started, start_device-Inv, start_device_eq, spawned}

abbrev kernel : Kernel
kernel = record { fork = some 4242; pidfd = 7; epoll = true }

abbrev kernel_before : Kernel
kernel_before = record { fork = some 4241; pidfd = 6; epoll = true }

abbrev state_after : Config → Outcome (DeviceConfig × Config) → Config
state_after c (returns (r, c')) = c'
state_after c (becomes path argv) = c

-- After this many starts.
unfoldable filled : ℕ → Config
filled zero = no_config
filled (suc n) =
    state_after (filled n)
      (start_device kernel_before (codes "tastek") [] (codes "chute") (filled n))

-- What has been reached: the maps agree, and at least so many ports from the first on are held.
abbrev Reached : ℕ → Config → Type 0
Reached n c = Inv c × (min_port + n ≤ max_port → Full c min_port (min_port + n))

start-Reached :
    (n : ℕ) (c : Config)
    → Reached n c
    → Reached
        (suc n)
        (state_after c (start_device kernel_before (codes "tastek") [] (codes "chute") c))
unfolding taken
start-Reached n c (v, held) =
    let (r, c', eq, v', how, runs) =
      start_device-Inv kernel_before 4241 (codes "tastek") [] (codes "chute") c refl v in
    subst (Reached (suc n)) (sym (ap (state_after c) eq)) (
      v',
      λ room. λ j lo hi. elim how [
        | inr (none_left, full, ed, es) ↦ ground (arith, ed, es, full j lo)
        | inl (config, (a, b, free, least), ed, es) ↦ elim (dec_lt j (min_port + n)) [
          | yes low ↦
              ground
                (arith, ed, es, held (omega arith) j lo low, has-insert r.port j r c.device_map)
          | no high ↦ elim (dec_lt j r.port) [
            | yes below ↦
                ground (arith, ed, es, least j lo below, has-insert r.port j r c.device_map)
            | no above ↦ elim (dec_lt r.port j) [
              | yes over ↦ absurd (ground (arith, free, held (omega arith) r.port a (omega arith)))
              | no same ↦ ground (arith, ed, es, has-insert r.port j r c.device_map)
            ]
          ]
        ]
      ],
    )

filled-Reached : (n : ℕ) → Reached n (filled n)
unfolding filled
filled-Reached zero = (no_config-Inv, λ room j lo hi. absurd (omega arith))
filled-Reached (suc n) = start-Reached n (filled n) (filled-Reached n)

spawned-watched :
    (c : Config)
    → has 7 c.watched ≡ false
    → has 7 (spawned kernel_before 4241 (codes "tastek") [] (codes "chute") c).watched ≡ false
unfolding register new_node
spawned-watched c h =
    let n = started (codes "tastek") [] (codes "chute") (free_port c) kernel_before 4241 in
    ground (
      arith,
      lookup-insert c.next_node c.next_node n c.nodes,
      has-insert 6 7 c.next_node c.watched,
      h,
    )

start-watched :
    (c : Config)
    → has 7 c.watched ≡ false
    → has 7
        (state_after c (start_device kernel_before (codes "tastek") [] (codes "chute") c)).watched
      ≡ false
unfolding add_device
start-watched c h =
    rw (start_device_eq kernel_before 4241 (codes "tastek") [] (codes "chute") c refl)
      (elim (Bool-cases (ltb 0 (free_port c))) [
        | inl some_port ↦ rw some_port (spawned-watched c h)
        | inr no_port ↦ rw no_port (spawned-watched c h)
      ])

filled-watched : (n : ℕ) → has 7 (filled n).watched ≡ false
unfolding filled no_config has
filled-watched zero = refl
filled-watched (suc n) = start-watched (filled n) (filled-watched n)

abbrev full : Config
full = filled 2890

start_device_leaks_example :
    (c' : Config) × (start_device kernel (codes "tastek") [] (codes "gate") full
      ≡ returns (no_device, c'))
    × (c'.device_map ≡ full.device_map)
    × (c'.subprocess_map ≡ full.subprocess_map)
    × ((p : ℕ) → lookup p c'.subprocess_map ≢ some full.next_node)
    × (lookup 4242 c'.programs
        ≡ some (codes "/bin/" ++ codes "tastek", exec_args (codes "gate") 0 []))
    × (lookup full.next_node c'.nodes
        ≡ some (started (codes "tastek") [] (codes "gate") 0 kernel 4242))
    × (lookup 7 c'.watched ≡ some full.next_node)
start_device_leaks_example =
    start_device_leaks kernel 4242 (codes "tastek") [] (codes "gate") full refl refl
      (filled-watched 2890) (filled-Reached 2890).0 ((filled-Reached 2890).1 (omega arith))
