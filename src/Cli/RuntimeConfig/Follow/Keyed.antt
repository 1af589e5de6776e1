-- ===== src/Cli/RuntimeConfig/Follow/Keyed.antt =====
-- The lines that log_has_keyword of src/cli/runtime_config.cpp finds.
use auto_drop.Prelude.{
  ℕ, ◌≡◌, refl, sym, ◌∙◌, ap, subst, ◌↔◌, ◌⊎◌, inl, inr, Bool, true, ◌&&◌, is_some, Option, none,
  some, List, [], ◌∷◌, ◌++◌, Str, str_beq_iff, length, drop, ==_iff, arith, Bool-cases,
}
use auto_drop.Cli.RuntimeConfig.{LogConfig, same_config, has_config, config_of, enable_log}
use auto_drop.Cli.RuntimeConfig.Follow.{log_has_keyword}
use auto_drop.Utils.Split.{is_prefix, shift, find}
use auto_drop.Utils.Split.Join.{is_prefix-append}

-- The text stands somewhere in the line.
abbrev pub StandsIn : Str → Str → Type 0
StandsIn d s = (before : Str) × (after : Str) × (s ≡ before ++ (d ++ after))

is_prefix_self : (d s : Str) → is_prefix d (d ++ s) ≡ true
is_prefix_self [] s = refl
is_prefix_self (c ∷ d) s = ground (arith, ==_iff c c, is_prefix_self d s)

find-prefix : (d s : Str) → is_prefix d s ≡ true → is_some (find d s) ≡ true
unfolding find
find-prefix d [] h = rw h refl
find-prefix d (c ∷ s) h = rw h refl

is_some-shift : (o : Option ℕ) → is_some (shift o) ≡ is_some o
is_some-shift none = refl
is_some-shift (some i) = refl

find-later :
    (d : Str) (c : ℕ) (s : Str) → is_some (find d s) ≡ true → is_some (find d (c ∷ s)) ≡ true
unfolding find
find-later d c s h = elim (Bool-cases (is_prefix d (c ∷ s))) [
  | inl e ↦ rw e refl
  | inr e ↦ rw e (is_some-shift (find d s) ∙ h)
]

find-StandsIn : (d s : Str) → is_some (find d s) ≡ true → StandsIn d s
unfolding find
find-StandsIn d [] h = elim (Bool-cases (is_prefix d [])) [
  | inl e ↦ ([], drop (length d) [], is_prefix-append d [] e)
  | inr e ↦ absurd (ground (arith, h, e))
]
find-StandsIn d (c ∷ s) h = elim (Bool-cases (is_prefix d (c ∷ s))) [
  | inl e ↦ ([], drop (length d) (c ∷ s), is_prefix-append d (c ∷ s) e)
  | inr e ↦
      let (before, after, is) = find-StandsIn d s (sym (is_some-shift (find d s)) ∙ rw e at h) in
      (c ∷ before, after, ap (◌∷◌ c) is)
]

find-append : (before d after : Str) → is_some (find d (before ++ (d ++ after))) ≡ true
find-append [] d after = find-prefix d (d ++ after) (is_prefix_self d after)
find-append (c ∷ before) d after =
    find-later d c (before ++ (d ++ after)) (find-append before d after)

find_iff : (d s : Str) → (is_some (find d s) ≡ true) ↔ StandsIn d s
find_iff d s = (
  find-StandsIn d s,
  λ (before, after, is).
      subst (λ t. is_some (find d t) ≡ true) (sym is) (find-append before d after),
)

-- The module and the level of a filter stand in the line.
abbrev pub Keyed : List LogConfig → Str → Type 0
Keyed [] line = ⊥
Keyed (c ∷ cs) line = (StandsIn c.log_module line × StandsIn c.log_level line) ⊎ Keyed cs line

both_true : (a b : Bool) → (a && b) ≡ true → (a ≡ true) × (b ≡ true)
both_true a b h = ground (arith, h)

pub log_has_keyword-Keyed :
    (line : Str) (cs : List LogConfig) → log_has_keyword line cs ≡ true → Keyed cs line
unfolding log_has_keyword
log_has_keyword-Keyed line [] h = cc h
log_has_keyword-Keyed line (c ∷ cs) h =
    elim (Bool-cases (is_some (find c.log_module line) && is_some (find c.log_level line))) [
      | inl e ↦
          let (m, l) = both_true _ _ e in
          inl ((find_iff c.log_module line).0 m, (find_iff c.log_level line).0 l)
      | inr e ↦ inr (log_has_keyword-Keyed line cs (rw e at h))
    ]

pub Keyed-log_has_keyword :
    (line : Str) (cs : List LogConfig) → Keyed cs line → log_has_keyword line cs ≡ true
unfolding log_has_keyword
Keyed-log_has_keyword line [] k = absurd k
Keyed-log_has_keyword line (c ∷ cs) (inl (m, l)) =
    rw ((find_iff c.log_module line).1 m, (find_iff c.log_level line).1 l) refl
Keyed-log_has_keyword line (c ∷ cs) (inr k) = ground (arith, Keyed-log_has_keyword line cs k)

Keyed-has_config :
    (c : LogConfig) (cs : List LogConfig) (line : Str)
    → has_config c cs ≡ true
    → StandsIn c.log_module line × StandsIn c.log_level line
    → Keyed cs line
unfolding has_config
Keyed-has_config c [] line h both = absurd (cc h)
Keyed-has_config c (d ∷ cs) line h both = elim (Bool-cases (same_config d c)) [
  | inl e ↦
      let (level, module_) = both_true _ _ e in
      inl (
        subst (λ t. StandsIn t line) (sym ((str_beq_iff d.log_module c.log_module).0 module_))
            both.0,
        subst (λ t. StandsIn t line) (sym ((str_beq_iff d.log_level c.log_level).0 level)) both.1,
      )
  | inr e ↦ inr (Keyed-has_config c cs line (rw e at h) both)
]

Keyed-snoc :
    (c : LogConfig) (cs : List LogConfig) (line : Str)
    → Keyed (cs ++ c ∷ []) line
      ↔ (Keyed cs line ⊎ (StandsIn c.log_module line × StandsIn c.log_level line))
Keyed-snoc c cs line = (there cs, back cs)
  where
    Both : Type 0
    Both = StandsIn c.log_module line × StandsIn c.log_level line

    there : (cs : List LogConfig) → Keyed (cs ++ c ∷ []) line → Keyed cs line ⊎ Both
    there [] (inl both) = inr both
    there [] (inr k) = absurd k
    there (d ∷ cs) (inl both) = inl (inl both)
    there (d ∷ cs) (inr k) = elim (there cs k) [ inl k' ↦ inl (inr k') | inr both ↦ inr both ]

    back : (cs : List LogConfig) → Keyed cs line ⊎ Both → Keyed (cs ++ c ∷ []) line
    back [] (inl k) = absurd k
    back [] (inr both) = inl both
    back (d ∷ cs) (inl (inl both)) = inl both
    back (d ∷ cs) (inl (inr k)) = inr (back cs (inl k))
    back (d ∷ cs) (inr both) = inr (back cs (inr both))

pub Keyed-enable_log :
    (m l : Str) (cs : List LogConfig) (line : Str)
    → Keyed (enable_log (m ∷ l ∷ []) cs) line
      ↔ (Keyed cs line ⊎ (StandsIn m line × StandsIn l line))
unfolding enable_log
Keyed-enable_log m l cs line = elim (Bool-cases (has_config (config_of (m ∷ l ∷ [])) cs)) [
  | inl e ↦ rw e (
    λ k. inl k,
    λ s. elim s [ inl k ↦ k | inr both ↦ Keyed-has_config (config_of (m ∷ l ∷ [])) cs line e both ],
  )
  | inr e ↦ rw e (Keyed-snoc (config_of (m ∷ l ∷ [])) cs line)
]
