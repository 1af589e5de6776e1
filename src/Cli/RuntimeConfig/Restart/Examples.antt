-- ===== src/Cli/RuntimeConfig/Restart/Examples.antt =====
-- A restart that replaces the running driver of a chute by a scale and a gate.
use mathlib.Core.List.Permᴰ as P
use auto_drop.Prelude.{ℕ, List, Dict, Permᴰ, true, refl, some, [], ◌∷◌, ◌≡◌, ◌≢◌, ◌⊎◌, codes}
use auto_drop.Core.Daemons.{Config, DeviceConfig, returns, values, Walks, min_port, max_port}
use auto_drop.Core.Daemons.Ports.{Full}
use auto_drop.Core.Daemons.Registry.{Inv}
use auto_drop.Core.Examples.{one_device, one_device-Inv, kernel, kernel_again}
use auto_drop.Cli.RuntimeConfig.Restart.{ConfigFile, RestartReply, done, restart}
use auto_drop.Cli.RuntimeConfig.Restart.Devices.{Configured, restart-Inv}
use auto_drop.Cli.RuntimeConfig.Restart.Starts.{SmRuns}

abbrev scale_and_gate : ConfigFile
scale_and_gate = record {
  devices =
      record { driver = codes "mock"; name = codes "scale"; args = codes "-p 1" }
      ∷ record { driver = codes "mock"; name = codes "gate"; args = codes "-p 2" }
      ∷ [];
  init_state = codes "idle";
}

-- A walk that begins with the second of the map.
abbrev swapped : List DeviceConfig → List DeviceConfig
swapped [] = []
swapped (d ∷ []) = d ∷ []
swapped (d ∷ e ∷ ds) = e ∷ d ∷ ds

abbrev second_first : Dict ℕ DeviceConfig → List DeviceConfig
second_first m = swapped (values m)

swapped-Perm : (ds : List DeviceConfig) → Permᴰ (swapped ds) ds
swapped-Perm [] = P.nil
swapped-Perm (d ∷ []) = P.refl (d ∷ [])
swapped-Perm (d ∷ e ∷ ds) = P.swap refl refl

second_first-Walks : Walks second_first
second_first-Walks m = swapped-Perm (values m)

restart-Inv_example :
    (reply : RestartReply) × (c' : Config) × (restart second_first values
        (λ p. true)
        (λ i. kernel)
        kernel_again
        (some scale_and_gate)
        one_device
      ≡ returns (reply, c'))
    × Inv c'
    × (((reply ≡ done)
          × Configured second_first scale_and_gate.devices c'
          × SmRuns (codes "idle") c')
        ⊎ ((reply ≢ done) × Full c' min_port max_port))
restart-Inv_example =
    restart-Inv second_first values (λ p. true) (λ i. kernel) kernel_again scale_and_gate one_device
      second_first-Walks (λ m. P.refl (values m)) (λ j. (4242, refl)) (4243, refl) one_device-Inv
