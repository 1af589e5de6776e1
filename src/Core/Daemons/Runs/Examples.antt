-- ===== src/Core/Daemons/Runs/Examples.antt =====
-- A run of the configuration daemon.
use auto_drop.Prelude.{◌≡◌, refl, true, some, List, [], ◌∷◌, codes}
use auto_drop.Core.Daemons.{Config, Kernel, returns, signaled, no_config, min_port}
use auto_drop.Core.Daemons.Registry.{Inv, no_config-Inv}
use auto_drop.Core.Daemons.Runs.{
  Call, device_start, device_stop, sm_start, process_end, perform_all, perform_all-Inv,
}

abbrev kernel : Kernel
kernel = record { fork = some 4242; pidfd = 7; epoll = true }

abbrev kernel_again : Kernel
kernel_again = record { fork = some 4243; pidfd = 8; epoll = true }

-- A device is started, its process dies, and a state machine is started.
abbrev calls : List Call
calls =
    device_start kernel (codes "tastek") [] (codes "chute")
    ∷ process_end true signaled kernel_again 0
    ∷ sm_start kernel (codes "sm") []
    ∷ device_stop true min_port
    ∷ []

perform_all-Inv_example : (c' : Config) × (perform_all calls no_config ≡ returns c') × Inv c'
perform_all-Inv_example =
    perform_all-Inv calls no_config ((4242, refl), ((4243, refl), ((4242, refl), (tt, tt))))
      no_config-Inv
