-- ===== src/Core/Daemons/Restart.antt =====
-- SUBPROCESS_EVENT_SC_NODE::handleEvent of config_rpc.cpp: which processes are started again, and
-- how that meets a stop.
use auto_drop.Prelude.{
  ℕ, ◌≡◌, refl, ap, inl, inr, Bool, true, false, ◌==◌, ◌++◌, zero, suc, ◌⊎◌, ◌≢◌, codes, some, ◌∙◌,
  lookup, has, arith, Bool-cases, lookup-insert, nat_eq,
}
use auto_drop.Core.Daemons.{
  Config, Subprocess, Kernel, returns, taken, register, unregister, renew_node, execute, WaitStatus,
  exited, signaled, need_restart, handle_event_begin, handle_event_end, handle_event, stop_device,
}
use auto_drop.Core.Daemons.Stop.{stop_device-Inv, stop_device-nodes}
use auto_drop.Core.Daemons.Registry.{
  Inv, SameMaps, register-programs, register-SameMaps, unregister-SameMaps, Inv-SameMaps,
}

renew_node-Inv :
    (id pid fd : ℕ) (n : Subprocess) (c : Config)
    → lookup id c.nodes ≡ some n
    → Inv c
    → Inv (renew_node id pid fd n c)
unfolding renew_node taken
renew_node-Inv id pid fd n c e v = record {
  device_port = v.device_port;
  sm_port = v.sm_port;
  apart = v.apart;
  processes = v.processes;
  serving = λ p i h. elim (Bool-cases (id == i)) [
    | inl same ↦
        let (m, f, l) = v.serving p i h in
        (
          record n { pid = pid; fd = fd },
          ground (arith, lookup-insert id i (record n { pid = pid; fd = fd }) c.nodes),
          ground (arith, f, l),
        )
    | inr other ↦
        let (m, f, l) = v.serving p i h in
        (m, ground (arith, lookup-insert id i (record n { pid = pid; fd = fd }) c.nodes, f), l)
  ];
  allocated = λ i m h. ground (
    arith,
    lookup-insert id i (record n { pid = pid; fd = fd }) c.nodes,
    v.allocated i m,
    v.allocated id n e,
  );
}

unfoldable pub renewed : ℕ → ℕ → Subprocess → Subprocess
renewed pid fd n = record n { pid = pid; fd = fd }

handle_event_end_lem :
    (k : Kernel) (pid id : ℕ) (n : Subprocess) (c : Config)
    → lookup id c.nodes ≡ some n
    → k.fork ≡ some pid
    → handle_event_end k id c
      ≡ returns (
          register k.epoll id
            (renew_node id pid k.pidfd n (execute pid (codes "/bin/" ++ n.path) n.argv c)))
unfolding handle_event_end
handle_event_end_lem k pid id n c e f = ground arith

restart_cases :
    (status : WaitStatus)
    → ((status ≡ exited 0) × (need_restart status ≡ false))
      ⊎ ((status ≢ exited 0) × (need_restart status ≡ true))
unfolding need_restart
restart_cases (exited zero) = inl (refl, refl)
restart_cases (exited (suc n)) = inr (λ e. cc e, ground arith)
restart_cases signaled = inr (λ e. cc e, refl)

unregister-programs : (ok : Bool) (id : ℕ) (c : Config) → (unregister ok id c).programs ≡ c.programs
unfolding unregister
unregister-programs ok id c = ground arith

-- What the end of a process leaves: the node as it was and nothing executed, after exit code 0;
-- otherwise the node with a new process, which has executed the node's program with its arguments.
abbrev pub Ends : WaitStatus → ℕ → ℕ → ℕ → Subprocess → Config → Config → Type 0
Ends status pid fd id n c c' =
    ((status ≡ exited 0) × (lookup id c'.nodes ≡ some n) × (c'.programs ≡ c.programs))
    ⊎ ((status ≢ exited 0)
        × (lookup id c'.nodes ≡ some (renewed pid fd n))
        × (lookup pid c'.programs ≡ some (codes "/bin/" ++ n.path, n.argv)))

-- When the process of a node ends and fork succeeds, the maps agree again and the three maps are as
-- before. If it exited with code 0, the node is as before and nothing is executed; if it exited with
-- another code or died by a signal, the node has the pid and the pidfd of a new process, which has
-- executed the node's program with the node's arguments.
pub handle_event-Inv :
    (ok : Bool) (status : WaitStatus) (k : Kernel) (pid id : ℕ) (n : Subprocess) (c : Config)
    → lookup id c.nodes ≡ some n
    → k.fork ≡ some pid
    → Inv c
    → (c' : Config) × (handle_event ok status k id c ≡ returns c')
      × Inv c'
      × (c'.device_map ≡ c.device_map)
      × (c'.sm_map ≡ c.sm_map)
      × (c'.subprocess_map ≡ c.subprocess_map)
      × Ends status pid k.pidfd id n c c'
unfolding handle_event handle_event_begin renew_node renewed
handle_event-Inv ok status k pid id n c e f v =
    let c1 = unregister ok id c in
    let s = unregister-SameMaps ok id c in
    let v1 = Inv-SameMaps s v in
    let e1 : lookup id c1.nodes ≡ some n = rw s.3 e in
    let prog = codes "/bin/" ++ n.path in
    let x1 = execute pid prog n.argv c1 in
    let vx = Inv-SameMaps {c' = x1} {c = c1} (refl, refl, refl, refl, refl) v1 in
    let c2 = renew_node id pid k.pidfd n x1 in
    let s2 = register-SameMaps k.epoll id c2 in
    elim (restart_cases status) [
      | inr (failed, again) ↦ rw again (
        register k.epoll id c2,
        handle_event_end_lem k pid id n c1 e1 f,
        Inv-SameMaps s2 (renew_node-Inv id pid k.pidfd n x1 e1 vx),
        s2.0 ∙ s.0,
        s2.1 ∙ s.1,
        s2.2 ∙ s.2,
        inr (
          failed,
          ground (arith, s2, lookup-insert id id (record n { pid = pid; fd = k.pidfd }) c1.nodes),
          ap (lookup pid) (register-programs k.epoll id c2)
              ∙ ground (arith, lookup-insert pid pid (prog, n.argv) c1.programs),
        ),
      )
      | inl (ended, done) ↦
          rw done (c1, refl, v1, s.0, s.1, s.2, inl (ended, e1, unregister-programs ok id c))
    ]

handle_event_begin-SameMaps :
    (ok : Bool) (id : ℕ) (c : Config) → SameMaps (handle_event_begin ok id c) c
unfolding handle_event_begin
handle_event_begin-SameMaps ok id c = unregister-SameMaps ok id c

-- What the second part of handleEvent does to a state in which no port leads to the node.
relaunch :
    (k : Kernel) (pid p id : ℕ) (n : Subprocess) (c : Config)
    → Inv c
    → taken p c ≡ false
    → lookup id c.nodes ≡ some n
    → k.epoll ≡ true
    → has k.pidfd c.watched ≡ false
    → let c' =
        register k.epoll id
          (renew_node id pid k.pidfd n (execute pid (codes "/bin/" ++ n.path) n.argv c)) in
      (taken p c' ≡ false)
      × (has p c'.subprocess_map ≡ false)
      × (lookup id c'.nodes ≡ some (renewed pid k.pidfd n))
      × (lookup k.pidfd c'.watched ≡ some id)
unfolding renew_node renewed register taken
relaunch k pid p id n c v t e ok new =
    let at = lookup-insert id id (record n { pid = pid; fd = k.pidfd }) c.nodes in
    let on = lookup-insert k.pidfd k.pidfd id c.watched in
    (
      ground (arith, at),
      ground (arith, at, v.processes p),
      ground (arith, at),
      ground (arith, at, on),
    )

-- If a device is stopped during the two seconds in which its failed process waits for its restart,
-- the process is started all the same: no port leads to it any more, and the event loop watches it
-- if its pidfd was not watched and epoll_ctl succeeds.
pub restart_after_stop :
    (ok ok' : Bool) (k : Kernel) (pid p id : ℕ) (n : Subprocess) (c : Config)
    → Inv c
    → has p c.device_map ≡ true
    → lookup p c.subprocess_map ≡ some id
    → lookup id c.nodes ≡ some n
    → k.fork ≡ some pid
    → k.epoll ≡ true
    → has k.pidfd (stop_device ok' p (handle_event_begin ok id c)).watched ≡ false
    → (c' : Config) × (handle_event_end k id (stop_device ok' p (handle_event_begin ok id c))
        ≡ returns c')
      × ((taken p c' ≡ false)
          × (has p c'.subprocess_map ≡ false)
          × (lookup id c'.nodes ≡ some (renewed pid k.pidfd n))
          × (lookup k.pidfd c'.watched ≡ some id))
restart_after_stop ok ok' k pid p id n c v h at e f kk new =
    let c1 = handle_event_begin ok id c in
    let s = handle_event_begin-SameMaps ok id c in
    let c2 = stop_device ok' p c1 in
    let (v2, _, _, t) = stop_device-Inv ok' p c1 (rw s.0 h) (Inv-SameMaps s v) in
    let e2 : lookup id c2.nodes ≡ some n = rw (stop_device-nodes ok' p c1) (rw s.3 e) in
    (
      register k.epoll id
          (renew_node id pid k.pidfd n (execute pid (codes "/bin/" ++ n.path) n.argv c2)),
      handle_event_end_lem k pid id n c2 e2 f,
      relaunch k pid p id n c2 v2 t e2 kk new,
    )
