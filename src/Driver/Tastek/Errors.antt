-- ===== src/Driver/Tastek/Errors.antt =====
-- The retry count of tastek/main.cpp.
use auto_drop.Prelude.{
  ℕ, zero, suc, ◌+◌, ◌≡◌, refl, Bool, true, false, ◌||◌, List, [], ◌∷◌, ◌++◌, ◌⊎◌, ◌↔◌, inl, inr,
  ap, arith, Str, Bool-cases,
}
use auto_drop.Prelude.Int.{ℤ, pos, ltb_ℤ}
use auto_drop.Driver.Tastek.{Tastek, init_tastek, challenge_error, running_status_check}

-- The outcomes of the Modbus operations, oldest first.
unfoldable pub challenge_all : List Bool → Tastek → Tastek
challenge_all [] d = d
challenge_all (b ∷ bs) d = challenge_all bs (challenge_error b d)

-- Whether some unbroken run of failures, one of `n` failures being under way, gets longer than
-- `limit`.
abbrev pub fails_beyond : ℤ → ℕ → List Bool → Bool
fails_beyond limit n [] = false
fails_beyond limit n (true ∷ bs) = fails_beyond limit 0 bs
fails_beyond limit n (false ∷ bs) = ltb_ℤ limit (pos (suc n)) || fails_beyond limit (suc n) bs

challenge_all_error :
    (bs : List Bool) (d : Tastek)
    → (challenge_all bs d).error
      ≡ (d.error || fails_beyond d.modbus_retry_times d.cur_retry_times bs)
unfolding challenge_all challenge_error
challenge_all_error [] d = ground arith
challenge_all_error (true ∷ bs) d = challenge_all_error bs (challenge_error true d)
challenge_all_error (false ∷ bs) d =
    ground (arith, challenge_all_error bs (challenge_error false d))

abbrev pub failures : ℕ → List Bool
failures zero = []
failures (suc n) = false ∷ failures n

-- A run of at least one failure, longer than `limit` with the `n` failures before it.
abbrev Run : ℤ → ℕ → List Bool → Type 0
Run limit n bs =
    (m : ℕ) × (post : List Bool) × (bs ≡ failures (suc m) ++ post)
    × (ltb_ℤ limit (pos (n + suc m)) ≡ true)

-- Somewhere in the outcomes there is such a run.
abbrev pub LongRun : ℤ → List Bool → Type 0
LongRun limit bs =
    (pre : List Bool) × (m : ℕ) × (post : List Bool) × (bs ≡ pre ++ (failures (suc m) ++ post))
    × (ltb_ℤ limit (pos (suc m)) ≡ true)

fails_beyond-runs :
    (limit : ℤ) (n : ℕ) (bs : List Bool)
    → fails_beyond limit n bs ≡ true
    → Run limit n bs ⊎ LongRun limit bs
fails_beyond-runs limit n [] h = cc
fails_beyond-runs limit n (true ∷ bs) h = elim (fails_beyond-runs limit 0 bs h) [
  | inl (m, post, e, l) ↦ inr (true ∷ [], m, post, ap (◌∷◌ true) e, ground arith)
  | inr (pre, m, post, e, l) ↦ inr (true ∷ pre, m, post, ap (◌∷◌ true) e, l)
]
fails_beyond-runs limit n (false ∷ bs) h = elim (Bool-cases (ltb_ℤ limit (pos (suc n)))) [
  | inl now ↦ inl (0, bs, refl, ground arith)
  | inr later ↦ elim (fails_beyond-runs limit (suc n) bs (ground arith)) [
    | inl (m, post, e, l) ↦ inl (suc m, post, ap (◌∷◌ false) e, ground arith)
    | inr (pre, m, post, e, l) ↦ inr (false ∷ pre, m, post, ap (◌∷◌ false) e, l)
  ]
]

fails_beyond-failures :
    (limit : ℤ) (m n : ℕ) (post : List Bool)
    → ltb_ℤ limit (pos (n + suc m)) ≡ true
    → fails_beyond limit n (failures (suc m) ++ post) ≡ true
fails_beyond-failures limit zero n post h = ground arith
fails_beyond-failures limit (suc m) n post h =
    ground (arith, fails_beyond-failures limit m (suc n) post (ground arith))

fails_beyond-append :
    (limit : ℤ) (xs pre : List Bool)
    → ((n : ℕ) → fails_beyond limit n xs ≡ true)
    → (n : ℕ) → fails_beyond limit n (pre ++ xs) ≡ true
fails_beyond-append limit xs [] h n = h n
fails_beyond-append limit xs (true ∷ pre) h n = fails_beyond-append limit xs pre h 0
fails_beyond-append limit xs (false ∷ pre) h n =
    ground (arith, fails_beyond-append limit xs pre h (suc n))

Run-from-LongRun : (limit : ℤ) (bs : List Bool) → Run limit 0 bs → LongRun limit bs
Run-from-LongRun limit bs (m, post, e, l) = ([], m, post, e, ground arith)

-- After any sequence of Modbus outcomes from the initial state, the driver reports itself failed
-- exactly when the sequence contains an unbroken run of failures that is longer than the configured
-- retry count.
pub failed_iff_LongRun :
    (host : Str) (retry spend : ℤ) (bs : List Bool)
    → (running_status_check (challenge_all bs (init_tastek host retry spend)) ≡ false)
      ↔ LongRun retry bs
unfolding init_tastek
failed_iff_LongRun host retry spend bs =
    let e = challenge_all_error bs (init_tastek host retry spend) in
    (
      λ h. elim (fails_beyond-runs retry 0 bs (ground (arith, e))) [
        | inl r ↦ Run-from-LongRun retry bs r
        | inr r ↦ r
      ],
      λ (pre, m, post, eq, l).
          let g =
            fails_beyond-append retry (failures (suc m) ++ post) pre
              (λ n. fails_beyond-failures retry m n post (ground arith)) 0 in
          ground (arith, e, rw (← eq) at g),
    )
