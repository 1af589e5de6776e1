-- ===== src/Cli/RuntimeConfig/Examples.antt =====
-- Runs of the runtime commands.
use auto_drop.Prelude.{
  ◌≡◌, ◌⊎◌, ◌++◌, length, refl, Option, some, List, [], ◌∷◌, Str, codes, str_beq,
}
use auto_drop.Prelude.Int.{ℤ, pos}
use auto_drop.Core.Daemons.{DeviceConfig}
use auto_drop.Core.Runner as R
use auto_drop.Rpc.Remote.{call_specific}
use auto_drop.Cli.RuntimeConfig.{set_lc_open, done, enable_log}
use auto_drop.Cli.RuntimeConfig.Follow.{print_events}
use auto_drop.Cli.RuntimeConfig.Follow.Keyed.{StandsIn, Keyed}
use auto_drop.Cli.RuntimeConfig.Follow.Shown.{Shows, concat, events_of, print_events-Shows}
use auto_drop.Cli.Words.Lines.{unlines}

abbrev fifty : Str → Option ℤ
fifty s = some (pos 50)

abbrev chute : DeviceConfig
chute = record { driver_name = codes "tastek"; port = 50110; argv = []; device_name = codes "lc" }

sends_fifty :
    set_lc_open fifty (codes "lc" ∷ codes "50" ∷ []) (chute ∷ [])
    ≡ done (some (50110, R.set_lc_open (pos 50)))
unfolding set_lc_open call_specific str_beq
sends_fifty = refl

-- A line of another level is left out, and one line of the two that come together.
abbrev chunks : List (List Str)
chunks = (codes "RPC INFO up" ∷ []) ∷ (codes "RPC DEBUG call" ∷ codes "SM DEBUG idle" ∷ []) ∷ []

shown :
    (print_events
      (enable_log (codes "RPC" ∷ codes "DEBUG" ∷ []) [])
      (events_of (codes "old") chunks)
      3).0
    ≡ codes "RPC DEBUG call\n"
unfolding print_events enable_log
shown = refl

print_events-Shows_example :
    let (out, at_end) =
      print_events
        (enable_log (codes "RPC" ∷ codes "DEBUG" ∷ []) [])
        (events_of (codes "old\n") chunks)
        4 in
    Shows
      (λ line. Keyed [] line ⊎ (StandsIn (codes "RPC") line × StandsIn (codes "DEBUG") line))
      (concat chunks)
      out
    × (at_end ≡ length (codes "old\n" ++ unlines (concat chunks)))
print_events-Shows_example =
    print_events-Shows (codes "RPC") (codes "DEBUG") [] chunks (codes "old\n")
      ((refl, tt), ((refl, (refl, tt)), tt))
