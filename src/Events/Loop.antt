-- ===== src/Events/Loop.antt =====
-- AD_EVENT_SC::runEventLoop of src/public/event_sc/ad_event_sc.{h,cpp}: which coroutines run. A
-- coroutine is a number. What one does between being resumed and its next yield or its end, to the
-- loop and to the world `W`, is the parameter `body`.
pub mod Settle
mod Examples
use auto_drop.Prelude.{
  ℕ, zero, suc, ◌+◌, Bool, true, false, not, if◌then◌else◌, ◌==◌, Option, none, some, List, [], ◌∷◌,
  ◌++◌, Dict, has, nat_eq,
}

pub data CoState : Type 0 where
  ready running suspended dead : CoState

abbrev pub is_ready : CoState → Bool
is_ready ready = true
is_ready _ = false

abbrev pub is_dead : CoState → Bool
is_dead dead = true
is_dead _ = false

-- The coroutines that are ready, in order.
unfoldable pub filter_ready : (ℕ → CoState) → List ℕ → List ℕ
filter_ready st [] = []
filter_ready st (c ∷ cs) =
    let rest = filter_ready st cs in if is_ready (st c) then c ∷ rest else rest

-- The `for` that erases the dead coroutines.
unfoldable pub filter_alive : (ℕ → CoState) → List ℕ → List ℕ
filter_alive st [] = []
filter_alive st (c ∷ cs) =
    let rest = filter_alive st cs in if is_dead (st c) then rest else c ∷ rest

abbrev pub is_nil : List ℕ → Bool
is_nil [] = true
is_nil (c ∷ cs) = false

-- `fd_to_node` keeps for each descriptor the number of its node.
pub record Loop (W : Type 0) : Type 0 where
  pub co_routines : List ℕ
  pub co_state : ℕ → CoState
  pub next_co : ℕ
  pub fd_to_node : Dict ℕ ℕ
  pub world : W

module _ {W : Type 0} where
  unfoldable pub set_co_state : ℕ → CoState → Loop W → Loop W
  set_co_state co s l = record l { co_state = λ j. if co == j then s else l.co_state j }

  unfoldable pub add_co : Loop W → Loop W
  unfolding set_co_state
  add_co l =
      set_co_state l.next_co ready
        (record l { co_routines = l.co_routines ++ l.next_co ∷ []; next_co = suc l.next_co })

  abbrev pub ready_co : Loop W → List ℕ
  ready_co l = filter_ready l.co_state l.co_routines

  unfoldable pub reap : Loop W → Loop W
  unfolding filter_alive
  reap l = record l { co_routines = filter_alive l.co_state l.co_routines }

  -- An event on a descriptor that epoll_wait returns: its handler becomes a coroutine.
  unfoldable pub dispatch : ℕ → Loop W → Loop W
  unfolding add_co
  dispatch fd l = if has fd l.fd_to_node then add_co l else l

  module _ (body : ℕ → Loop W → Loop W) where
    unfoldable pub resume_co : ℕ → Loop W → Loop W
    unfolding set_co_state
    resume_co co l = body co (set_co_state co running l)

    unfoldable pub resume_all : List ℕ → Loop W → Loop W
    unfolding resume_co
    resume_all [] l = l
    resume_all (c ∷ cs) l = resume_all cs (resume_co c l)

    -- One round of the inner `while`: those ready at its start run, in order.
    unfoldable pub round : Loop W → Loop W
    unfolding resume_all reap filter_ready
    round l = reap (resume_all (ready_co l) l)

    -- The inner `while`; `none` means that it is still running.
    unfoldable pub run_ready : ℕ → Loop W → Option (Loop W)
    unfolding round filter_ready
    run_ready zero l = none
    run_ready (suc f) l =
        let rest = run_ready f (round l) in if is_nil (ready_co l) then some (round l) else rest

    unfoldable pub rounds : ℕ → Loop W → Loop W
    rounds zero l = l
    rounds (suc n) l = rounds n (round l)
