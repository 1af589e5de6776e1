-- ===== src/Cli/RuntimeConfig/Restart/Stops.antt =====
-- src/cli/runtime_config.cpp: restart stops all that runs.
use mathlib.Core.List.Permᴰ as P
use auto_drop.Prelude.{
  ℕ, Bool, true, false, not, ◌&&◌, ◌||◌, ◌==◌, Bool-cases, Option-cases, inl, inr, some, List, [],
  ◌∷◌, ◌≡◌, refl, ap, ◌∙◌, lookup, has, has-erase, has-lookup, nat_eq, Dict, Permᴰ, arith,
}
use auto_drop.Core.Daemons.{
  Config, DeviceConfig, SmConfig, stop_device, stop_sm, values, Walks, get_device_list, get_sm_list,
}
use auto_drop.Core.Daemons.Registry.{Inv}
use auto_drop.Core.Daemons.Stop.{stop_device-Inv, stop_sm-Inv}
use auto_drop.Cli.RuntimeConfig.Restart.{stop_devices, stop_sms}

abbrev lists : {V : Type 0} → (V → ℕ) → ℕ → List V → Bool
lists port p [] = false
lists port p (d ∷ ds) = (port d == p) || lists port p ds

-- After one stop: the invariant, and that port given up.
device_stopped :
    (ok : Bool) (q : ℕ) (c : Config)
    → Inv c
    → Inv (stop_device ok q c)
      × ((p : ℕ) → has p (stop_device ok q c).device_map ≡ (not (q == p) && has p c.device_map))
      × ((stop_device ok q c).sm_map ≡ c.sm_map)
unfolding stop_device
device_stopped ok q c v = elim (Bool-cases (has q c.device_map)) [
  | inl held ↦
      let (w, own, other, free) = stop_device-Inv ok q c held v in
      (w, λ p. ap (has p) own ∙ has-erase q p c.device_map, other)
  | inr free ↦ rw free (v, λ p. absent p free, refl)
]
  where
    absent :
        (p : ℕ)
        → has q c.device_map ≡ false
        → has p c.device_map ≡ (not (q == p) && has p c.device_map)
    absent p free = ground (arith, free)

devices_stopped :
    (ok : ℕ → Bool) (ds : List DeviceConfig) (c : Config)
    → Inv c
    → Inv (stop_devices ok ds c)
      × ((p : ℕ)
          → has p (stop_devices ok ds c).device_map
            ≡ (not (lists (λ d. d.port) p ds) && has p c.device_map))
      × ((stop_devices ok ds c).sm_map ≡ c.sm_map)
unfolding stop_devices
devices_stopped ok [] c v = (v, λ p. refl, refl)
devices_stopped ok (d ∷ ds) c v =
    let (w, own, other) = device_stopped (ok d.port) d.port c v in
    let (x, owns, others) = devices_stopped ok ds (stop_device (ok d.port) d.port c) w in
    (x, λ p. ground (arith, owns p, own p), others ∙ other)

-- After one stop: the invariant, and that port given up.
sm_stopped :
    (ok : Bool) (q : ℕ) (c : Config)
    → Inv c
    → Inv (stop_sm ok q c)
      × ((p : ℕ) → has p (stop_sm ok q c).sm_map ≡ (not (q == p) && has p c.sm_map))
      × ((stop_sm ok q c).device_map ≡ c.device_map)
unfolding stop_sm
sm_stopped ok q c v = elim (Bool-cases (has q c.sm_map)) [
  | inl held ↦
      let (w, own, other, free) = stop_sm-Inv ok q c held v in
      (w, λ p. ap (has p) own ∙ has-erase q p c.sm_map, other)
  | inr free ↦ rw free (v, λ p. absent p free, refl)
]
  where
    absent : (p : ℕ) → has q c.sm_map ≡ false → has p c.sm_map ≡ (not (q == p) && has p c.sm_map)
    absent p free = ground (arith, free)

sms_stopped :
    (ok : ℕ → Bool) (ds : List SmConfig) (c : Config)
    → Inv c
    → Inv (stop_sms ok ds c)
      × ((p : ℕ)
          → has p (stop_sms ok ds c).sm_map ≡ (not (lists (λ d. d.port) p ds) && has p c.sm_map))
      × ((stop_sms ok ds c).device_map ≡ c.device_map)
unfolding stop_sms
sms_stopped ok [] c v = (v, λ p. refl, refl)
sms_stopped ok (d ∷ ds) c v =
    let (w, own, other) = sm_stopped (ok d.port) d.port c v in
    let (x, owns, others) = sms_stopped ok ds (stop_sm (ok d.port) d.port c) w in
    (x, λ p. ground (arith, owns p, own p), others ∙ other)

module _ {V : Type 0} where
  lookup-lists :
      (port : V → ℕ) (p : ℕ) (d : V) (m : Dict ℕ V)
      → lookup p m ≡ some d
      → port d ≡ p
      → lists port p (values m) ≡ true
  unfolding lookup
  lookup-lists port p d [] e at = cc e
  lookup-lists port p d ((q, w) ∷ m) e at = elim (Bool-cases (q == p)) [
    | inl here ↦ ground (arith, e, at)
    | inr there ↦ ground (arith, lookup-lists port p d m (rw there at e) at)
  ]

  nothing-held : (m : Dict ℕ V) → ((p : ℕ) → has p m ≡ false) → m ≡ []
  unfolding has
  nothing-held [] h = refl
  nothing-held ((q, w) ∷ m) h = absurd (ground (arith, h q))

  lists-same :
      (port : V → ℕ) (p : ℕ) {xs ys : List V} → Permᴰ xs ys → lists port p xs ≡ lists port p ys
  lists-same port p P.nil = refl
  lists-same port p (P.cons {a = x} {b = y} {l₁ = xs} e h) =
      ap (λ z. (port z == p) || lists port p xs) e
      ∙ ap (λ b. (port y == p) || b) (lists-same port p h)
  lists-same port p (P.swap e f) = ground (arith, ap port e, ap port f)
  lists-same port p (P.trans h k) = lists-same port p h ∙ lists-same port p k

  all-listed :
      (walk : Dict ℕ V → List V) (port : V → ℕ) (m m' : Dict ℕ V)
      → Walks walk
      → ((p : ℕ) (d : V) → lookup p m ≡ some d → port d ≡ p)
      → ((p : ℕ) → has p m' ≡ (not (lists port p (walk m)) && has p m))
      → m' ≡ []
  all-listed walk port m m' walks ports left = nothing-held m' λ p.
      elim (Option-cases (lookup p m)) [
        | inl absent ↦ ground (arith, left p, has-lookup p m, absent)
        | inr (d, e) ↦
            ground
              (arith, left p, lookup-lists port p d m e (ports p d e), lists-same port p (walks m))
      ]

-- Stopping every device and then every state machine that get_device_list and get_sm_list have
-- named leaves neither, and keeps the invariant.
pub stop_sms-Inv :
    (walk : Dict ℕ DeviceConfig → List DeviceConfig) (walk_sm : Dict ℕ SmConfig → List SmConfig)
    (ok : ℕ → Bool) (c : Config)
    → Walks walk
    → Walks walk_sm
    → Inv c
    → let c' = stop_sms ok (get_sm_list walk_sm c) (stop_devices ok (get_device_list walk c) c) in
      Inv c' × (c'.device_map ≡ []) × (c'.sm_map ≡ [])
unfolding get_device_list get_sm_list
stop_sms-Inv walk walk_sm ok c walks walks_sm v =
    let c1 = stop_devices ok (walk c.device_map) c in
    let (w, devs, sms) = devices_stopped ok (walk c.device_map) c v in
    let (x, sms', devs') = sms_stopped ok (walk_sm c.sm_map) c1 w in
    (
      x,
      devs'
          ∙ all-listed walk (λ d. d.port) c.device_map c1.device_map walks
              (λ p d e. (v.device_port p d e).0) devs,
      all-listed walk_sm (λ d. d.port) c.sm_map _ walks_sm (λ p d e. (v.sm_port p d e).0)
          (λ p. sms' p ∙ ap (λ m. not (lists (λ d. d.port) p (walk_sm c.sm_map)) && has p m) sms),
    )
