-- ===== src/Core/Daemons/Runs.antt =====
-- src/core/rpc_imp_lib/config_rpc.cpp: any sequence of calls and ends of processes, one after the
-- other. Each comes with the answers of the kernel.
mod Examples
use auto_drop.Prelude.{
  ℕ, ◌≡◌, refl, ◌∙◌, ap, inl, inr, Bool, true, false, Option, none, some, List, [], ◌∷◌, Str, has,
  nat_eq, All, is_some, Bool-cases, Option-cases, lookup, arith,
}
use auto_drop.Core.Daemons.{
  Config, Kernel, Subprocess, WaitStatus, Outcome, returns, becomes, ◌>>=◌, start_device,
  stop_device, start_sm, stop_sm, handle_event, handle_event_begin, handle_event_end, unregister,
}
use auto_drop.Core.Daemons.Registry.{Inv, no_config-Inv}
use auto_drop.Core.Daemons.Start.{start_device-Inv, start_sm-Inv}
use auto_drop.Core.Daemons.Stop.{stop_device-Inv, stop_sm-Inv}
use auto_drop.Core.Daemons.Restart.{handle_event-Inv}

-- A call of an RPC that changes the maps, or the end of the process of a node.
pub data Call : Type 0 where
  device_start : Kernel → Str → List Str → Str → Call
  device_stop : Bool → ℕ → Call
  sm_start : Kernel → Str → List Str → Call
  sm_stop : Bool → ℕ → Call
  process_end : Bool → WaitStatus → Kernel → ℕ → Call

unfoldable pub perform : Call → Config → Outcome Config
perform (device_start k driver argv name) c = start_device k driver argv name c >>= λ r. returns r.1
perform (device_stop ok p) c = returns (stop_device ok p c)
perform (sm_start k name argv) c = start_sm k name argv c >>= λ r. returns r.1
perform (sm_stop ok p) c = returns (stop_sm ok p c)
perform (process_end ok status k id) c = handle_event ok status k id c

unfoldable pub perform_all : List Call → Config → Outcome Config
perform_all [] c = returns c
perform_all (r ∷ rs) c = perform r c >>= perform_all rs

-- The forks that the request makes succeed.
abbrev pub Forked : Call → Type 0
Forked (device_start k driver argv name) = (pid : ℕ) × (k.fork ≡ some pid)
Forked (device_stop ok p) = Unit {0}
Forked (sm_start k name argv) = (pid : ℕ) × (k.fork ≡ some pid)
Forked (sm_stop ok p) = Unit {0}
Forked (process_end ok status k id) = (pid : ℕ) × (k.fork ≡ some pid)

handle_event-no_node :
    (ok : Bool) (status : WaitStatus) (k : Kernel) (id : ℕ) (c : Config)
    → lookup id c.nodes ≡ none
    → handle_event ok status k id c ≡ returns c
unfolding handle_event handle_event_begin unregister handle_event_end
handle_event-no_node ok status k id c e = ground arith

stop_device-gone :
    (ok : Bool) (p : ℕ) (c : Config) → has p c.device_map ≡ false → stop_device ok p c ≡ c
unfolding stop_device
stop_device-gone ok p c gone = rw gone refl

stop_sm-gone : (ok : Bool) (p : ℕ) (c : Config) → has p c.sm_map ≡ false → stop_sm ok p c ≡ c
unfolding stop_sm
stop_sm-gone ok p c gone = rw gone refl

perform-Inv :
    (r : Call) (c : Config) → Forked r → Inv c → (c' : Config) × (perform r c ≡ returns c') × Inv c'
unfolding perform
perform-Inv (device_start k driver argv name) c (pid, f) v =
    let (d, c', eq, v', starts, runs) = start_device-Inv k pid driver argv name c f v in
    (c', ap (λ o. o >>= λ r. returns r.1) eq, v')
perform-Inv (sm_start k name argv) c (pid, f) v =
    let (d, c', eq, v', starts, runs) = start_sm-Inv k pid name argv c f v in
    (c', ap (λ o. o >>= λ r. returns r.1) eq, v')
perform-Inv (device_stop ok p) c f v = elim (Bool-cases (has p c.device_map)) [
  | inl held ↦ (stop_device ok p c, refl, (stop_device-Inv ok p c held v).0)
  | inr gone ↦ (c, ap returns (stop_device-gone ok p c gone), v)
]
perform-Inv (sm_stop ok p) c f v = elim (Bool-cases (has p c.sm_map)) [
  | inl held ↦ (stop_sm ok p c, refl, (stop_sm-Inv ok p c held v).0)
  | inr gone ↦ (c, ap returns (stop_sm-gone ok p c gone), v)
]
perform-Inv (process_end ok status k id) c (pid, f) v = elim (Option-cases (lookup id c.nodes)) [
  | inl gone ↦ (c, handle_event-no_node ok status k id c gone, v)
  | inr (n, is) ↦
      let (c', eq, v', same_devices, same_sms, same_processes, node) =
        handle_event-Inv ok status k pid id n c is f v in
      (c', eq, v')
]

-- From any state in which the maps agree, as at the start, under any sequence of calls and ends of
-- processes, one after the other and with forks that succeed, the daemon itself always goes on (it
-- never becomes another program), and at the end the maps agree: no port is held twice, each lies in
-- the range, a port has a process exactly if a device or a state machine holds it, and the node of
-- that process has the port where the process reads it from its arguments.
pub perform_all-Inv :
    (rs : List Call) (c : Config)
    → All Forked rs
    → Inv c
    → (c' : Config) × (perform_all rs c ≡ returns c') × Inv c'
unfolding perform_all
perform_all-Inv [] c f v = (c, refl, v)
perform_all-Inv (r ∷ rs) c f v =
    let (c1, eq, v1) = perform-Inv r c f.0 v in
    let (c', eq', v') = perform_all-Inv rs c1 f.1 v1 in
    (c', ap (λ o. o >>= perform_all rs) eq ∙ eq', v')
