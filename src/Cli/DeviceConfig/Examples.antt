-- ===== src/Cli/DeviceConfig/Examples.antt =====
-- Two devices of two installed drivers.
use auto_drop.Prelude.{◌≡◌, refl, List, [], ◌∷◌, Str, codes, ◌++◌}
use auto_drop.Cli.DeviceConfig.{get_all_driver}

reads_drivers :
    get_all_driver (codes "a_driver" ++ 10 ∷ codes "b_driver" ++ 10 ∷ codes "c")
    ≡ codes "a_driver" ∷ codes "b_driver" ∷ []
unfolding get_all_driver
reads_drivers = refl

abbrev drivers : List Str
drivers = codes "a_driver" ∷ codes "b_driver" ∷ []

abbrev commands : List (List Str)
commands =
    (codes "a_driver" ∷ codes "gate" ∷ codes "-p" ∷ [])
    ∷ (codes "c_driver" ∷ codes "led" ∷ codes "" ∷ [])
    ∷ (codes "b_driver" ∷ codes "scale" ∷ codes "" ∷ [])
    ∷ []
