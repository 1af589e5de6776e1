-- ===== src/Cli/RuntimeConfig/Restart/Starts.antt =====
-- src/cli/runtime_config.cpp: the starts of restart.
use auto_drop.Prelude.{
  ℕ, suc, false, if◌then◌else◌, ◌==◌, Bool-cases, inl, inr, ◌⊎◌, some, List, [], ◌∷◌, ◌++◌,
  append_assoc, append-nil, ◌≡◌, ◌≢◌, refl, sym, ap, ◌∙◌, Str, codes, str_beq, has, insert, nat_eq,
  Dict, arith,
}
use auto_drop.Core.Daemons.{
  Config, DeviceConfig, SmConfig, Kernel, Outcome, returns, ◌>>=◌, start_sm, values, no_device,
  taken, min_port, max_port,
}
use auto_drop.Core.Daemons.Ports.{Full}
use auto_drop.Core.Daemons.Registry.{Inv}
use auto_drop.Core.Daemons.Start.{start_device-Inv, start_sm-Inv, device_config, sm_config}
use auto_drop.Cli.RuntimeConfig.{split_args}
use auto_drop.Cli.RuntimeConfig.Restart.{
  DeviceEntry, RestartReply, done, device_failed, sm_failed, if_started, start_devices, config_file,
  sm_reply, start_configured_sm,
}

-- The devices are the configured ones, in their order.
abbrev pub Matches : List DeviceEntry → List DeviceConfig → Type 0
Matches [] [] = Unit
Matches (e ∷ es) (d ∷ ds) =
    (d.driver_name ≡ e.driver)
    × (d.argv ≡ split_args e.args)
    × (d.device_name ≡ e.name)
    × Matches es ds
Matches [] (d ∷ ds) = ⊥
Matches (e ∷ es) [] = ⊥

-- Every fork succeeds.
abbrev pub Forks : Kernel → Type 0
Forks k = (pid : ℕ) × (k.fork ≡ some pid)

pub values-insert :
    {V : Type 0} (p : ℕ) (d : V) (m : Dict ℕ V)
    → has p m ≡ false
    → values (insert p d m) ≡ values m ++ d ∷ []
unfolding insert has
values-insert p d [] h = refl
values-insert p d ((q, w) ∷ m) h = ground (arith, h, values-insert p d m)

pub Full-same :
    (c c' : Config)
    → c'.device_map ≡ c.device_map
    → c'.sm_map ≡ c.sm_map
    → Full c min_port max_port
    → Full c' min_port max_port
unfolding taken
Full-same c c' ed es full j lo hi = rw ed (rw es (full j lo hi))

-- What the loop over the devices does: all are started after those that run, or no port is left.
abbrev pub Starts : List DeviceEntry → Config → RestartReply → Config → Type 0
Starts es c reply c' =
    ((reply ≡ done)
      × ((ds : List DeviceConfig) × (values c'.device_map ≡ values c.device_map ++ ds)
          × Matches es ds))
    ⊎ (((name : Str) × (reply ≡ device_failed name)) × Full c' min_port max_port)

if_started-returns :
    (name : Str) (o : Outcome (DeviceConfig × Config)) (r : DeviceConfig) (c : Config)
    (rest : Config → Outcome (RestartReply × Config))
    → o ≡ returns (r, c)
    → (r.port == 0) ≡ false
    → (o >>= λ started. if_started name started rest) ≡ rest c
if_started-returns name o r c rest e nz =
    ap (λ o. o >>= λ started. if_started name started rest) e
    ∙ ap (λ b. if b then returns (device_failed name, c) else rest c) nz

if_started-failed :
    (name : Str) (o : Outcome (DeviceConfig × Config)) (r : DeviceConfig) (c : Config)
    (rest : Config → Outcome (RestartReply × Config))
    → o ≡ returns (r, c)
    → r ≡ no_device
    → (o >>= λ started. if_started name started rest) ≡ returns (device_failed name, c)
if_started-failed name o r c rest e empty =
    ap (λ o. o >>= λ started. if_started name started rest) e
    ∙ ap (λ r. if r.port == 0 then returns (device_failed name, c) else rest c) empty

-- A device that was started, before those that the rest of the loop starts.
cons-Starts :
    (e : DeviceEntry) (es : List DeviceEntry) (c c1 c2 : Config) (r : DeviceConfig)
    (reply : RestartReply)
    → r ≡ device_config e.driver r.port (split_args e.args) e.name
    → has r.port c.device_map ≡ false
    → c1.device_map ≡ insert r.port r c.device_map
    → Starts es c1 reply c2
    → Starts (e ∷ es) c reply c2
cons-Starts e es c c1 c2 r reply config free ed (inr how) = inr how
cons-Starts e es c c1 c2 r reply config free ed (inl (is_done, (ds, now, match))) = inl (
  is_done,
  (
    r ∷ ds,
    now
        ∙ ap (λ vs. vs ++ ds) (ap values ed ∙ values-insert r.port r c.device_map free)
        ∙ append_assoc (values c.device_map) (r ∷ []) ds,
    (
      ap (λ d. d.driver_name) config,
      ap (λ d. d.argv) config,
      ap (λ d. d.device_name) config,
      match,
    ),
  ),
)

pub start_devices-Inv :
    (k : ℕ → Kernel) (i : ℕ) (es : List DeviceEntry) (c : Config)
    → ((j : ℕ) → Forks (k j))
    → Inv c
    → (reply : RestartReply) × (c' : Config) × (start_devices k i es c ≡ returns (reply, c'))
      × Inv c'
      × (c'.sm_map ≡ c.sm_map)
      × Starts es c reply c'
unfolding start_devices taken
start_devices-Inv k i [] c forks v =
    (done, c, refl, v, refl, inl (refl, ([], sym (append-nil _), tt)))
start_devices-Inv k i (e ∷ es) c forks v =
    let (pid, f) = forks i in
    let (r, c1, eq, w, how, runs_now) =
      start_device-Inv (k i) pid e.driver (split_args e.args) e.name c f v in
    elim how [
      | inr (is_none, full, ed, esm) ↦ (
        device_failed e.name,
        c1,
        if_started-failed e.name _ r c1 _ eq is_none,
        w,
        esm,
        inr ((e.name, refl), Full-same c c1 ed esm full),
      )
      | inl (is_config, least, ed, esm) ↦
          let (reply, c2, eq2, x, esm2, how2) = start_devices-Inv k (suc i) es c1 forks w in
          (
            reply,
            c2,
            if_started-returns e.name _ r c1 _ eq (ground (arith, least)) ∙ eq2,
            x,
            esm2 ∙ esm,
            cons-Starts e es c c1 c2 r reply is_config (ground (arith, least)) ed how2,
          )
    ]

-- The state machine runs with the configuration file, if an initial state is configured.
abbrev pub SmRuns : Str → Config → Type 0
SmRuns init_state c =
    if str_beq init_state []
    then values c.sm_map ≡ []
    else ((p : ℕ) × (values c.sm_map ≡ sm_config (codes "sm") p (config_file ∷ []) ∷ []))

sm_starts :
    (k : Kernel) (init_state : Str) (c : Config) (r : SmConfig) (c1 : Config) (reply : RestartReply)
    → str_beq init_state [] ≡ false
    → start_sm k (codes "sm") (config_file ∷ []) c ≡ returns (r, c1)
    → (if r.port == 0 then sm_failed else done) ≡ reply
    → start_configured_sm k init_state c ≡ returns (reply, c1)
unfolding start_configured_sm
sm_starts k init_state c r c1 reply wanted eq e =
    ap
      (λ b.
        if b
        then returns (done, c)
        else (start_sm k (codes "sm") (config_file ∷ []) c >>= λ s. returns (sm_reply s)))
      wanted
    ∙ ap (λ o. o >>= λ s. returns (sm_reply s)) eq
    ∙ ap (λ a. returns (a, c1)) e

-- What the start of the state machine leaves: it runs, or no port was left.
abbrev pub SmStarts : Str → Config → RestartReply → Config → Type 0
SmStarts init_state c reply c' =
    Inv c'
    × (c'.device_map ≡ c.device_map)
    × (((reply ≡ done) × SmRuns init_state c') ⊎ ((reply ≢ done) × Full c' min_port max_port))

sm_failed-not_done : sm_failed ≢ done
sm_failed-not_done e = cc e

wanted_sm-Inv :
    (k : Kernel) (init_state : Str) (c : Config)
    → Forks k
    → Inv c
    → c.sm_map ≡ []
    → str_beq init_state [] ≡ false
    → (reply : RestartReply) × (c' : Config) × (start_configured_sm k init_state c
        ≡ returns (reply, c'))
      × SmStarts init_state c reply c'
unfolding taken insert
wanted_sm-Inv k init_state c (pid, f) v none_runs wanted =
    let (r, c1, eq, w, how, runs_now) = start_sm-Inv k pid (codes "sm") (config_file ∷ []) c f v in
    elim how [
      | inr (is_none, full, esm, ed) ↦ (
        sm_failed,
        c1,
        sm_starts k init_state c r c1 sm_failed wanted eq
            (ap (λ r. if r.port == 0 then sm_failed else done) is_none),
        (w, ed, inr (sm_failed-not_done, Full-same c c1 ed esm full)),
      )
      | inl (is_config, least, esm, ed) ↦
          let started : (r.port == 0) ≡ false = ground (arith, least) in
          let runs =
            ap values (esm ∙ ap (insert r.port r) none_runs) ∙ ap (λ r. r ∷ []) is_config in
          (
            done,
            c1,
            sm_starts k init_state c r c1 done wanted eq
                (ap (λ b. if b then sm_failed else done) started),
            (w, ed, inl (refl, rw wanted (r.port, runs))),
          )
    ]

pub start_configured_sm-Inv :
    (k : Kernel) (init_state : Str) (c : Config)
    → Forks k
    → Inv c
    → c.sm_map ≡ []
    → (reply : RestartReply) × (c' : Config) × (start_configured_sm k init_state c
        ≡ returns (reply, c'))
      × SmStarts init_state c reply c'
unfolding start_configured_sm
start_configured_sm-Inv k init_state c forks v none_runs =
    elim (Bool-cases (str_beq init_state [])) [
      | inr wanted ↦ wanted_sm-Inv k init_state c forks v none_runs wanted
      | inl idle ↦ (
        done,
        c,
        ap
            (λ b.
              if b
              then returns (done, c)
              else (start_sm k (codes "sm") (config_file ∷ []) c >>= λ s. returns (sm_reply s)))
            idle,
        (v, refl, inl (refl, rw idle (ap values none_runs))),
      )
    ]
