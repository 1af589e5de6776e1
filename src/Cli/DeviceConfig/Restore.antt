-- ===== src/Cli/DeviceConfig/Restore.antt =====
-- Saving the devices as commands, and running the commands again.
use auto_drop.Prelude.{
  ◌≡◌, refl, ◌∙◌, ap, inl, inr, true, false, ◌&&◌, ◌||◌, List, [], ◌∷◌, ◌++◌, Str, str_beq,
  str_beq_iff, All, All-append, append_assoc, append-nil, arith, Bool-cases,
}
use auto_drop.Cli.SmConfig.{has_param, param}
use auto_drop.Cli.DeviceConfig.{
  Device, installed, has_device, make_new_device, add_device, make_bdr, clear, add_devices,
}

abbrev pub Distinct : List Device → Type 0
Distinct [] = Unit {0}
Distinct (d ∷ ds) = (has_device d.name ds ≡ false) × Distinct ds

abbrev pub Installed : List Str → Device → Type 0
Installed drivers d = installed d.driver drivers ≡ true

abbrev pub NewTo : List Device → Device → Type 0
NewTo ds d = has_device d.name ds ≡ false

has_device-append :
    (n : Str) (ds es : List Device) → has_device n (ds ++ es) ≡ (has_device n ds || has_device n es)
unfolding has_device
has_device-append n [] es = refl
has_device-append n (d ∷ ds) es = ground (arith, has_device-append n ds es)

has_device-one : (n : Str) (d : Device) → has_device n (d ∷ []) ≡ str_beq d.name n
unfolding has_device
has_device-one n d = ground arith

Distinct-append :
    (ds : List Device) (m : Device) → Distinct ds → NewTo ds m → Distinct (ds ++ m ∷ [])
unfolding has_device
Distinct-append [] m d h = (refl, tt)
Distinct-append (n ∷ ds) m d h = ground (
  arith,
  has_device-append n.name ds (m ∷ []),
  has_device-one n.name m,
  str_beq_iff n.name m.name,
  str_beq_iff m.name n.name,
  Distinct-append ds m d.1,
)

add_device-keeps :
    (drivers params : List Str) (ds : List Device)
    → Distinct ds
    → All (Installed drivers) ds
    → let ds' = (add_device drivers params ds).0 in Distinct ds' × All (Installed drivers) ds'
unfolding add_device
add_device-keeps drivers params ds d a =
    elim (Bool-cases (has_param params 0 && has_param params 1 && has_param params 2)) [
      | inr short ↦ rw short (d, a)
      | inl enough ↦ elim (Bool-cases (installed (param params 0) drivers)) [
        | inr gone ↦ rw (enough, gone) (d, a)
        | inl known ↦ elim (Bool-cases (has_device (param params 1) ds)) [
          | inl old ↦ rw (enough, known, old) (d, a)
          | inr new ↦
              let m = make_new_device (param params 0) (param params 1) (param params 2) in
              rw (enough, known, new)
                (
                  Distinct-append ds m d new,
                  All-append (Installed drivers) ds (m ∷ []) a (known, tt),
                )
        ]
      ]
    ]

add_devices-keeps :
    (drivers : List Str) (ps : List (List Str)) (ds : List Device)
    → Distinct ds
    → All (Installed drivers) ds
    → let ds' = add_devices drivers ps ds in Distinct ds' × All (Installed drivers) ds'
unfolding add_devices
add_devices-keeps drivers [] ds d a = (d, a)
add_devices-keeps drivers (p ∷ ps) ds d a =
    let (d', a') = add_device-keeps drivers p ds d a in
    add_devices-keeps drivers ps (add_device drivers p ds).0 d' a'

NewTo-append :
    (acc es : List Device) (d : Device)
    → has_device d.name es ≡ false
    → All (NewTo acc) es
    → All (NewTo (acc ++ d ∷ [])) es
unfolding has_device
NewTo-append acc [] d h a = tt
NewTo-append acc (e ∷ es) d h a = (
  ground (
    arith,
    has_device-append e.name acc (d ∷ []),
    has_device-one e.name d,
    str_beq_iff d.name e.name,
    str_beq_iff e.name d.name,
    a.0,
  ),
  NewTo-append acc es d (ground (arith, h)) a.1,
)

add_device-own :
    (drivers : List Str) (d : Device) (acc : List Device)
    → Installed drivers d
    → NewTo acc d
    → (add_device drivers (d.driver ∷ d.name ∷ d.args ∷ []) acc).0 ≡ acc ++ d ∷ []
unfolding add_device
add_device-own drivers d acc i n = rw (i, n)

pub add_devices-make_bdr :
    (drivers : List Str) (ds acc : List Device)
    → All (Installed drivers) ds
    → Distinct ds
    → All (NewTo acc) ds
    → add_devices drivers (make_bdr ds) acc ≡ acc ++ ds
unfolding add_devices make_bdr
add_devices-make_bdr drivers [] acc i d n = ground (arith, append-nil acc)
add_devices-make_bdr drivers (e ∷ ds) acc i d n =
    ap (add_devices drivers (make_bdr ds)) (add_device-own drivers e acc i.0 n.0)
    ∙ (add_devices-make_bdr drivers ds (acc ++ e ∷ []) i.1 d.1 (NewTo-append acc ds e d.0 n.1)
        ∙ append_assoc acc (e ∷ []) ds)

pub NewTo-nil : (ds : List Device) → All (NewTo []) ds
unfolding has_device
NewTo-nil [] = tt
NewTo-nil (d ∷ ds) = (refl, NewTo-nil ds)

-- After any add_device commands from a cleared file, saving the devices as commands, clearing, and
-- running these commands with the same drivers installed gives exactly the same devices in the same
-- order.
pub restore-make_bdr :
    (drivers : List Str) (ps : List (List Str)) (ds : List Device)
    → let saved = add_devices drivers ps (clear ds) in
      add_devices drivers (make_bdr saved) (clear saved) ≡ saved
unfolding clear
restore-make_bdr drivers ps ds =
    let saved = add_devices drivers ps [] in
    let (d, a) = add_devices-keeps drivers ps [] tt tt in
    add_devices-make_bdr drivers saved [] a d (NewTo-nil saved)
