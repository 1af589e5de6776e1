-- ===== src/Core/Daemons/Ports.antt =====
-- The port that start_daemon of config_rpc.cpp picks.
use auto_drop.Prelude.{
  ℕ, zero, suc, ◌+◌, ◌-◌, ◌≤◌, ◌<◌, ◌≡◌, refl, ◌⊎◌, inl, inr, true, false, arith, Bool-cases, subst,
}
use native.Mathlib.Decide.{dec_lt}
use auto_drop.Core.Daemons.{Config, taken, free_from, free_port, min_port, max_port}

-- p is the least port of [lo, hi) that neither map holds.
abbrev pub Least : Config → ℕ → ℕ → ℕ → Type 0
Least c lo hi p =
    (lo ≤ p) × (p < hi) × (taken p c ≡ false) × ((j : ℕ) → lo ≤ j → j < p → taken j c ≡ true)

-- Both maps together hold every port of [lo, hi).
abbrev pub Full : Config → ℕ → ℕ → Type 0
Full c lo hi = (j : ℕ) → lo ≤ j → j < hi → taken j c ≡ true

free_from_lem :
    (c : Config) (n p : ℕ)
    → Least c p (p + n) (free_from c n p) ⊎ ((free_from c n p ≡ 0) × Full c p (p + n))
unfolding free_from
free_from_lem c zero p = inr (refl, λ j l h. absurd (omega arith))
free_from_lem c (suc n) p = elim (Bool-cases (taken p c)) [
  | inr free ↦ rw free (inl (omega arith, omega arith, free, λ j l h. absurd (omega arith)))
  | inl held ↦ rw held (elim (free_from_lem c n (suc p)) [
    | inl (l, h, f, least) ↦
        inl
          (omega arith, omega arith, f, λ j a b. below c p (free_from c n (suc p)) held least j a b)
    | inr (z, full) ↦
        inr (z, λ j a b. below c p (p + suc n) held (λ i x y. full i x (omega arith)) j a b)
  ])
]
  where
    below :
        (c : Config) (p q : ℕ)
        → taken p c ≡ true
        → ((j : ℕ) → suc p ≤ j → j < q → taken j c ≡ true)
        → (j : ℕ) → p ≤ j
        → j < q
        → taken j c ≡ true
    below c p q held rest j a b = elim (dec_lt p j) [
      | yes l ↦ rest j l b
      | no g ↦ subst (λ i. taken i c ≡ true) (omega arith) held
    ]

-- The port chosen is the least one of [50110, 53000) that no device and no state machine holds; only
-- if all of them are held is it 0.
pub free_port-Least :
    (c : Config)
    → Least c min_port max_port (free_port c) ⊎ ((free_port c ≡ 0) × Full c min_port max_port)
unfolding free_port
free_port-Least c = free_from_lem c (max_port - min_port) min_port
