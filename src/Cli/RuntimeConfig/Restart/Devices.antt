-- ===== src/Cli/RuntimeConfig/Restart/Devices.antt =====
-- src/cli/runtime_config.cpp: what runs after restart.
use auto_drop.Prelude.{
  ℕ, Bool, inl, inr, ◌⊎◌, some, ◌++◌, ◌≡◌, ◌≢◌, sym, ap, subst, ◌∙◌, nat_eq, Dict, List, Permᴰ,
}
use auto_drop.Core.Daemons.{
  Config, Kernel, returns, ◌>>=◌, values, DeviceConfig, SmConfig, Walks, get_device_list,
  get_sm_list, min_port, max_port,
}
use auto_drop.Core.Daemons.Ports.{Full}
use auto_drop.Core.Daemons.Registry.{Inv}
use auto_drop.Cli.RuntimeConfig.Restart.{
  DeviceEntry, ConfigFile, RestartReply, done, device_failed, stop_devices, stop_sms, after_devices,
  start_all, restart,
}
use auto_drop.Cli.RuntimeConfig.Restart.Stops.{stop_sms-Inv}
use auto_drop.Cli.RuntimeConfig.Restart.Starts.{
  Matches, Forks, SmRuns, start_devices-Inv, start_configured_sm-Inv,
}

-- The devices that get_device_list gives are the configured ones, in some order.
abbrev pub Configured :
    (Dict ℕ DeviceConfig → List DeviceConfig) → List DeviceEntry → Config → Type 0
Configured walk es c = (ds : List DeviceConfig) × Matches es ds × Permᴰ (get_device_list walk c) ds

-- restart, when every fork succeeds: it returns, and keeps the agreement of the maps. Either it
-- prints nothing, and then the devices that get_device_list gives are, in some order, exactly those
-- of the configuration file, each with its driver, its name and its arguments split at the spaces,
-- and beside them the state machine runs if the file gives an initial state, and none otherwise,
-- whatever ran before; or it prints a failure, and then every port is held. The order in which the
-- maps are walked is any.
pub restart-Inv :
    (walk : Dict ℕ DeviceConfig → List DeviceConfig) (walk_sm : Dict ℕ SmConfig → List SmConfig)
    (ok : ℕ → Bool) (k : ℕ → Kernel) (k_sm : Kernel) (file : ConfigFile) (c : Config)
    → Walks walk
    → Walks walk_sm
    → ((j : ℕ) → Forks (k j))
    → Forks k_sm
    → Inv c
    → (reply : RestartReply) × (c' : Config) × (restart walk walk_sm ok k k_sm (some file) c
        ≡ returns (reply, c'))
      × Inv c'
      × (((reply ≡ done) × Configured walk file.devices c' × SmRuns file.init_state c')
          ⊎ ((reply ≢ done) × Full c' min_port max_port))
unfolding restart start_all get_device_list
restart-Inv walk walk_sm ok k k_sm file c walks walks_sm forks forks_sm v =
    let c1 = stop_sms ok (get_sm_list walk_sm c) (stop_devices ok (get_device_list walk c) c) in
    let (v1, no_devices, no_sms) = stop_sms-Inv walk walk_sm ok c walks walks_sm v in
    let (reply, c2, eq, v2, sm2, how) = start_devices-Inv k 0 file.devices c1 forks v1 in
    elim how [
      | inr ((name, failed), full) ↦ (
        device_failed name,
        c2,
        ap (λ o. o >>= λ r. after_devices k_sm file.init_state r.0 r.1) eq
            ∙ ap (λ a. after_devices k_sm file.init_state a c2) failed,
        v2,
        inr (λ e. cc e, full),
      )
      | inl (is_done, (ds, now, match)) ↦
          let (reply', c3, eq3, (v3, dev3, how3)) =
            start_configured_sm-Inv k_sm file.init_state c2 forks_sm v2 (sm2 ∙ no_sms) in
          (
            reply',
            c3,
            ap (λ o. o >>= λ r. after_devices k_sm file.init_state r.0 r.1) eq
                ∙ ap (λ a. after_devices k_sm file.init_state a c2) is_done
                ∙ eq3,
            v3,
            elim how3 [
              | inl (also_done, runs) ↦ inl (
                also_done,
                (
                  values c3.device_map,
                  subst (Matches file.devices)
                      (sym (ap values dev3 ∙ now ∙ ap (λ m. values m ++ ds) no_devices)) match,
                  walks c3.device_map,
                ),
                runs,
              )
              | inr no_port ↦ inr no_port
            ],
          )
    ]
