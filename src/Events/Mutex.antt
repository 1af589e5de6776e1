-- ===== src/Events/Mutex.antt =====
-- AD_CO_MUTEX of src/public/event_sc/ad_event_sc.{h,cpp}: a reentrant lock between the coroutines of
-- one event loop. A coroutine is a number. A call of lock ends by getting the lock or by yielding
-- inside its `while`; the loop goes on when the coroutine is resumed.
pub mod Safety
use auto_drop.Prelude.{
  ℕ, zero, suc, ◌-◌, Bool, true, false, if◌then◌else◌, ◌==◌, Option, none, some, List, [], ◌∷◌,
  ◌++◌, ◌≡◌,
}

pub record Mutex : Type 0 where
  pub wait_co : List ℕ
  pub holder : Option ℕ
  pub self_count : ℕ

unfoldable pub no_mutex : Mutex
no_mutex = record { wait_co = []; holder = none; self_count = 0 }

-- What a coroutine does next: it got the lock, or it has yielded.
pub data Locking : Type 0 where
  locked yielded : Locking

-- One test of `while (m_holder)`, and what follows it.
unfoldable pub lock_wait : ℕ → Mutex → Mutex × Locking
lock_wait cur m = elim m.holder [
  | some h ↦ (record m { wait_co = m.wait_co ++ cur ∷ [] }, yielded)
  | none ↦ (record m { holder = some cur }, locked)
]

abbrev pub is_holder : ℕ → Option ℕ → Bool
is_holder cur none = false
is_holder cur (some h) = h == cur

unfoldable pub lock : ℕ → Mutex → Mutex × Locking
unfolding lock_wait
lock cur m =
    if is_holder cur m.holder
    then (record m { self_count = suc m.self_count }, locked)
    else lock_wait cur m

-- The front of the waiting list, made ready, if there is one.
unfoldable pub wake : Mutex → Mutex × Option ℕ
wake m = elim m.wait_co [ [] ↦ (m, none) | co ∷ rest ↦ (record m { wait_co = rest }, some co) ]

-- The second `if` of unlock.
unfoldable pub wake_if_free : Mutex → Mutex × Option ℕ
unfolding wake
wake_if_free m = elim m.holder [ none ↦ wake m | some h ↦ (m, none) ]

unfoldable pub unlock : Mutex → Mutex × Option ℕ
unfolding wake_if_free
unlock m = wake_if_free (
    if m.self_count == 0
    then record m { holder = none }
    else record m { self_count = m.self_count - 1 })

-- Where a coroutine stands: it has locked the mutex `d` times more than unlocked, it waits in lock
-- (suspended), or it was made ready there and has not run since.
pub data Phase : Type 0 where
  at_depth : ℕ → Phase
  waiting : Phase
  woken : Phase

pub record System : Type 0 where
  pub mutex : Mutex
  pub phase : ℕ → Phase

abbrev pub update : (ℕ → Phase) → ℕ → Phase → ℕ → Phase
update f k v j = if k == j then v else f j

abbrev pub after_lock : Locking → ℕ → Phase
after_lock locked d = at_depth (suc d)
after_lock yielded d = waiting

abbrev pub wake_phase : Option ℕ → (ℕ → Phase) → ℕ → Phase
wake_phase none f = f
wake_phase (some co) f = update f co woken

unfoldable pub call_lock : ℕ → ℕ → System → System
unfolding lock
call_lock i d s =
    let (m, r) = lock i s.mutex in record { mutex = m; phase = update s.phase i (after_lock r d) }

unfoldable pub resume_lock : ℕ → System → System
unfolding lock_wait
resume_lock i s =
    let (m, r) = lock_wait i s.mutex in
    record { mutex = m; phase = update s.phase i (after_lock r 0) }

unfoldable pub call_unlock : ℕ → ℕ → System → System
unfolding unlock
call_unlock i d s =
    let (m, w) = unlock s.mutex in
    record { mutex = m; phase = wake_phase w (update s.phase i (at_depth d)) }

-- Coroutines in any order: each calls lock, goes on in lock once it was made ready, or calls unlock
-- when it has locked.
pub data Step (s : System) : System → Type 0 where
  locks : (i d : ℕ) → s.phase i ≡ at_depth d → Step s (call_lock i d s)
  resumes : (i : ℕ) → s.phase i ≡ woken → Step s (resume_lock i s)
  unlocks : (i d : ℕ) → s.phase i ≡ at_depth (suc d) → Step s (call_unlock i d s)

pub data Reach (s : System) : System → Type 0 where
  here : Reach s s
  next : {t u : System} → Reach s t → Step t u → Reach s u

unfoldable pub start : System
unfolding no_mutex
start = record { mutex = no_mutex; phase = λ i. at_depth 0 }
