-- ===== src/Prelude/Loops.antt =====
-- Code whose accesses are checked: `none` is the read or write out of range. The counting loop, and
-- what holds after code that does not fault.
use Prim.Native.Nat.{ℕ, zero, suc, ◌+◌, ◌≤◌, ◌<◌}
use mathlib.Core.Path.{◌≡◌, refl, ap, subst}
use mathlib.Core.Option.{Option, none, some}
use mathlib.Core.List.{List, [], ◌∷◌}
use native.Mathlib.Decide.{dec_lt}
use native.Mathlib.Omega.{arith}
use auto_drop.Prelude.Lists.{All, length, get_elem?}

infixl 5 ◌>>=◌
abbrev pub ◌>>=◌ {ℓ κ} : {A : Type ℓ} {B : Type κ} → Option A → (A → Option B) → Option B
none >>= f = none
some a >>= f = f a

-- for (i = from; n times; ++i)
unfoldable pub for_each {ℓ} : {S : Type ℓ} → (ℕ → S → Option S) → ℕ → ℕ → S → Option S
for_each f from zero s = some s
for_each f from (suc n) s = f from s >>= for_each f (suc from) n

abbrev pub set_elem? {ℓ} : {A : Type ℓ} → List A → ℕ → A → Option (List A)
set_elem? [] i v = none
set_elem? (x ∷ xs) zero v = some (v ∷ xs)
set_elem? (x ∷ xs) (suc i) v = set_elem? xs i v >>= λ ys. some (x ∷ ys)

abbrev pub replicate {ℓ} : {A : Type ℓ} → ℕ → A → List A
replicate zero a = []
replicate (suc n) a = a ∷ replicate n a

-- The code does not fault, and P holds of what it returns.
abbrev pub Ok {ℓ} : {A : Type ℓ} → (A → Type 0) → Option A → Type 0
Ok P none = ⊥
Ok P (some a) = P a

pub Ok-bind {ℓ κ} :
    {A : Type ℓ} {B : Type κ} (P : A → Type 0) (Q : B → Type 0) (o : Option A) (f : A → Option B)
    → Ok P o
    → ((a : A) → P a → Ok Q (f a))
    → Ok Q (o >>= f)
Ok-bind P Q none f h k = absurd h
Ok-bind P Q (some a) f h k = k a h

pub Ok-weaken {ℓ} :
    {A : Type ℓ} (P Q : A → Type 0) (o : Option A) → Ok P o → ((a : A) → P a → Q a) → Ok Q o
Ok-weaken P Q none h k = h
Ok-weaken P Q (some a) h k = k a h

pub bind-none {ℓ κ} :
    {A : Type ℓ} {B : Type κ} (o : Option A) (f : A → Option B)
    → ((a : A) → f a ≡ none)
    → (o >>= f) ≡ none
bind-none none f k = refl
bind-none (some a) f k = k a

-- P holds of what the code returns, if it does not fault.
abbrev pub Post {ℓ} : {A : Type ℓ} → (A → Type 0) → Option A → Type 0
Post P none = Unit
Post P (some a) = P a

pub Post-bind {ℓ κ} :
    {A : Type ℓ} {B : Type κ} (P : A → Type 0) (Q : B → Type 0) (o : Option A) (f : A → Option B)
    → Post P o
    → ((a : A) → P a → Post Q (f a))
    → Post Q (o >>= f)
Post-bind P Q none f h k = tt
Post-bind P Q (some a) f h k = k a h

pub Post-none {ℓ κ} :
    {A : Type ℓ} {B : Type κ} (P : A → Type 0) (o : Option A) (f : A → Option B)
    → Post P o
    → ((a : A) → P a → f a ≡ none)
    → (o >>= f) ≡ none
Post-none P none f h k = refl
Post-none P (some a) f h k = k a h

module _ {ℓ} {A : Type ℓ} where
  pub Ok-get_elem? :
      (P : A → Type 0) (xs : List A) (i : ℕ) → All P xs → i < length xs → Ok P (get_elem? xs i)
  Ok-get_elem? P [] i h lt = absurd (omega arith)
  Ok-get_elem? P (x ∷ xs) zero h lt = h.0
  Ok-get_elem? P (x ∷ xs) (suc i) h lt = Ok-get_elem? P xs i h.1 (omega arith)

  pub All-unit : (xs : List A) → All (λ x. Unit {0}) xs
  All-unit [] = tt
  All-unit (x ∷ xs) = (tt, All-unit xs)

  pub Ok-set_elem? :
      (P : A → Type 0) (xs : List A) (i : ℕ) (v : A)
      → All P xs
      → P v
      → i < length xs
      → Ok (λ ys. (length ys ≡ length xs) × All P ys) (set_elem? xs i v)
  Ok-set_elem? P [] i v h p lt = absurd (omega arith)
  Ok-set_elem? P (x ∷ xs) zero v h p lt = (refl, (p, h.1))
  Ok-set_elem? P (x ∷ xs) (suc i) v h p lt =
      Ok-bind _ _ (set_elem? xs i v) (λ ys. some (x ∷ ys))
        (Ok-set_elem? P xs i v h.1 p (omega arith)) λ ys q. (ap suc q.0, (h.0, q.1))

  pub All-replicate : (P : A → Type 0) (n : ℕ) (a : A) → P a → All P (replicate n a)
  All-replicate P zero a h = tt
  All-replicate P (suc n) a h = (h, All-replicate P n a h)

  pub length-replicate : (n : ℕ) (a : A) → length (replicate n a) ≡ n
  length-replicate zero a = refl
  length-replicate (suc n) a = ap suc (length-replicate n a)

  -- A loop whose body keeps P keeps P, and does not fault.
  pub Ok-for_each :
      (P : A → Type 0) (f : ℕ → A → Option A) (from n : ℕ) (s : A)
      → P s
      → ((i : ℕ) (a : A) → from ≤ i → i < from + n → P a → Ok P (f i a))
      → Ok P (for_each f from n s)
  unfolding for_each
  Ok-for_each P f from zero s h k = h
  Ok-for_each P f from (suc n) s h k =
      Ok-bind P P (f from s) (for_each f (suc from) n) (k from s (omega arith) (omega arith) h)
        λ a p. Ok-for_each P f (suc from) n a p λ i b ge lt q. k i b (omega arith) (omega arith) q

  -- A loop that comes to an index at which the body faults.
  pub for_each-none :
      (f : ℕ → A → Option A) (j from n : ℕ) (s : A)
      → from ≤ j
      → j < from + n
      → ((a : A) → f j a ≡ none)
      → for_each f from n s ≡ none
  unfolding for_each
  for_each-none f j from zero s ge lt k = absurd (omega arith)
  for_each-none f j from (suc n) s ge lt k = elim (dec_lt from j) [
    | yes lt' ↦
        bind-none (f from s) (for_each f (suc from) n)
          λ a. for_each-none f j (suc from) n a (omega arith) (omega arith) k
    | no ge' ↦
        let e : j ≡ from = omega arith in
        subst (λ i. (f i s >>= for_each f (suc from) n) ≡ none) e (rw (k s))
  ]
