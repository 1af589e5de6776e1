-- ===== src/Cli/RuntimeConfig/Commands.antt =====
-- What the commands of runtime_config.cpp do.
use auto_drop.Prelude.{
  ℕ, ◌≡◌, refl, ◌∙◌, ap, inl, inr, Bool, true, false, ◌&&◌, ◌||◌, ◌==◌, Option, some, List, [], ◌∷◌,
  ◌++◌, Str, str_beq_iff, All, append_assoc, append-nil, arith, Bool-cases, Option-cases, ◌<◌,
  ltb→lt,
}
use auto_drop.Prelude.Int.{ℤ, pos, ltb_ℤ}
use auto_drop.Cli.SmConfig.{has_param, param}
use auto_drop.Core.Daemons.{DeviceConfig}
use auto_drop.Core.Runner as R
use auto_drop.Rpc.Remote.{ad_rpc_get_specific_dev_port, call_specific}
use auto_drop.Driver.Common.{lc_open}
use auto_drop.Driver.Common.Range.{Allowed}
use auto_drop.Cli.RuntimeConfig.{
  LogConfig, has_config, erase_config, config_of, enable_log, disable_log, split_from, split_args,
  set_lc_open, done,
}

-- The texts with a space between each two.
abbrev pub join : List Str → Str
join [] = []
join (a ∷ []) = a
join (a ∷ b ∷ more) = a ++ b' ' ∷ join (b ∷ more)

abbrev pub has_space : Str → Bool
has_space [] = false
has_space (c ∷ s) = (c == b' ') || has_space s

has_space-snoc : (s : Str) (c : ℕ) → has_space (s ++ c ∷ []) ≡ (has_space s || (c == b' '))
has_space-snoc [] c = ground arith
has_space-snoc (d ∷ s) c = ground (arith, has_space-snoc s c)

join-cons :
    (a : Str) (s arg : Str) → join (a ∷ split_from arg s) ≡ a ++ b' ' ∷ join (split_from arg s)
unfolding split_from
join-cons a [] arg = refl
join-cons a (c ∷ s) arg = elim (Bool-cases (c == b' ')) [
  | inl e ↦ rw e refl
  | inr e ↦ rw e (join-cons a s (arg ++ c ∷ []))
]

join-split_from : (s arg : Str) → join (split_from arg s) ≡ arg ++ s
unfolding split_from
join-split_from [] arg = ground (arith, append-nil arg)
join-split_from (c ∷ s) arg = elim (Bool-cases (c == b' ')) [
  | inl e ↦ rw e (
      join-cons arg s []
      ∙ ap (λ t. arg ++ b' ' ∷ t) (join-split_from s [])
      ∙ ap (λ d. arg ++ d ∷ s) (ground (arith, e)))
  | inr e ↦ rw e (join-split_from s (arg ++ c ∷ []) ∙ append_assoc arg (c ∷ []) s)
]

split_from-spaces :
    (s arg : Str) → has_space arg ≡ false → All (λ a. has_space a ≡ false) (split_from arg s)
unfolding split_from
split_from-spaces [] arg h = (h, tt)
split_from-spaces (c ∷ s) arg h = elim (Bool-cases (c == b' ')) [
  | inl e ↦ rw e (h, split_from-spaces s [] refl)
  | inr e ↦ rw e (split_from-spaces s (arg ++ c ∷ []) (ground (arith, has_space-snoc arg c)))
]

-- The arguments that restart makes of a text have no space in them, and joined by spaces they are the
-- text again.
pub join-split_args :
    (args : Str)
    → (join (split_args args) ≡ args) × All (λ a. has_space a ≡ false) (split_args args)
unfolding split_args
join-split_args args = (join-split_from args [], split_from-spaces args [] refl)

call_specific-port :
    (name : Str) (c : R.Rpc) (ds : List DeviceConfig) (q : R.Request)
    → call_specific name c ds ≡ some q
    → (0 < q.0) × (q.1 ≡ c)
unfolding call_specific
call_specific-port name c ds q h = ground (arith, ltb→lt 0 (ad_rpc_get_specific_dev_port name ds))

-- Whatever the parameters and the devices are: a request that the command set_lc_open sends has a
-- threshold between 0 and 100, and its port is not 0.
pub set_lc_open-Allowed :
    (stoi : Str → Option ℤ) (params : List Str) (ds : List DeviceConfig) (q : R.Request)
    → set_lc_open stoi params ds ≡ done (some q)
    → (t : ℤ) × (q.1 ≡ R.set_lc_open t) × Allowed 100 (lc_open t) × (0 < q.0)
unfolding set_lc_open
set_lc_open-Allowed stoi params ds q h =
    elim (Bool-cases (has_param params 0 && has_param params 1)) [
      | inr short ↦ absurd (ground arith)
      | inl enough ↦ elim (Option-cases (stoi (param params 1))) [
        | inl throws ↦ absurd (ground arith)
        | inr (t, is) ↦ elim (Bool-cases (ltb_ℤ t (pos 0) || ltb_ℤ (pos 100) t)) [
          | inl beyond ↦ absurd (ground arith)
          | inr within ↦
              let (p, c) =
                call_specific-port (param params 0) (R.set_lc_open t) ds q (ground arith) in
              (t, c, ground arith, p)
        ]
      ]
    ]

erase_config-snoc :
    (c : LogConfig) (cs : List LogConfig)
    → has_config c cs ≡ false
    → erase_config c (cs ++ c ∷ []) ≡ cs
unfolding has_config erase_config
erase_config-snoc c [] h =
    ground (arith, str_beq_iff c.log_level c.log_level, str_beq_iff c.log_module c.log_module)
erase_config-snoc c (d ∷ cs) h = ground (arith, erase_config-snoc c cs)

-- With a module and a level that are not enabled yet, disable_log after enable_log with the same
-- parameters gives the configuration from before; and enable_log twice is enable_log once.
pub disable_log-enable_log :
    (params : List Str) (cs : List LogConfig)
    → has_config (config_of params) cs ≡ false
    → (disable_log params (enable_log params cs) ≡ cs)
      × (enable_log params (enable_log params cs) ≡ enable_log params cs)
unfolding disable_log enable_log
disable_log-enable_log params cs h = elim (Bool-cases (has_param params 0 && has_param params 1)) [
  | inr short ↦ rw short (refl, refl)
  | inl enough ↦
      rw (enough, h)
        (erase_config-snoc (config_of params) cs h, rw (has_config-snoc (config_of params) cs))
]
  where
    has_config-snoc : (c : LogConfig) (cs : List LogConfig) → has_config c (cs ++ c ∷ []) ≡ true
    has_config-snoc c [] =
        ground (arith, str_beq_iff c.log_level c.log_level, str_beq_iff c.log_module c.log_module)
    has_config-snoc c (d ∷ cs) = ground (arith, has_config-snoc c cs)
