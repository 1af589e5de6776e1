-- ===== src/Events/Wait.antt =====
-- AD_CO_EVENT_NODE and yield_by_fd of src/public/event_sc/ad_event_sc.{h,cpp}: a coroutine that waits
-- for a descriptor, with or without a time limit. epoll_ctl succeeds; the descriptor of the timer is
-- what timerfd_create gives.
pub mod Nodes
pub mod Results
mod Examples
use auto_drop.Prelude.{
  ℕ, Bool, true, false, if◌then◌else◌, ◌==◌, Option, none, some, List, [], ◌∷◌, Dict, lookup,
  insert, erase, has, nat_eq,
}

-- AD_CO_EVENT_NODE: the coroutine, the descriptor, and that of m_timer.
pub record Wait : Type 0 where
  pub co : ℕ
  pub fd : ℕ
  pub timer : Option ℕ

-- What stands in m_fdToNode: a waiting node, or the timer of one.
pub data WaitNode : Type 0 where
  on_fd on_timer : Wait → WaitNode

-- `ready` and `yield_result` are those of each coroutine.
pub record WaitLoop : Type 0 where
  pub fd_to_node : Dict ℕ WaitNode
  pub ready : ℕ → Bool
  pub yield_result : ℕ → Bool

unfoldable pub register_node : ℕ → WaitNode → WaitLoop → WaitLoop
register_node fd n l =
    if has fd l.fd_to_node then l else record l { fd_to_node = insert fd n l.fd_to_node }

-- The node is found by its descriptor alone.
unfoldable pub unregister_node : ℕ → WaitLoop → WaitLoop
unregister_node fd l =
    if has fd l.fd_to_node then record l { fd_to_node = erase fd l.fd_to_node } else l

abbrev pub set_ready : ℕ → Bool → WaitLoop → WaitLoop
set_ready co b l = record l { ready = λ j. if co == j then b else l.ready j }

abbrev pub set_yield_result : ℕ → Bool → WaitLoop → WaitLoop
set_yield_result co b l = record l { yield_result = λ j. if co == j then b else l.yield_result j }

abbrev pub start_limit : Wait → Option ℕ → WaitLoop → WaitLoop
start_limit w none l = l
start_limit w (some tfd) l = register_node tfd (on_timer w) l

-- yield_by_fd up to yield_co; the timer is there if a time limit above 0 is asked for.
unfoldable pub yield_by_fd : Wait → WaitLoop → WaitLoop
unfolding register_node
yield_by_fd w l = set_ready w.co false (register_node w.fd (on_fd w) (start_limit w w.timer l))

abbrev pub stop_limit : Option ℕ → WaitLoop → WaitLoop
stop_limit none l = l
stop_limit (some tfd) l = unregister_node tfd l

-- AD_CO_EVENT_NODE::handleEvent
unfoldable pub handle_wait : Wait → WaitLoop → WaitLoop
unfolding unregister_node
handle_wait w l =
    unregister_node w.fd (set_yield_result w.co true (set_ready w.co true (stop_limit w.timer l)))

abbrev pub handle_node : Option WaitNode → WaitLoop → WaitLoop
handle_node none l = l
handle_node (some (on_fd w)) l = handle_wait w l
handle_node (some (on_timer w)) l = set_yield_result w.co false (handle_wait w l)

-- epoll_wait gives the descriptor, and its handler runs.
unfoldable pub event_on : ℕ → WaitLoop → WaitLoop
unfolding handle_wait
event_on fd l = handle_node (lookup fd l.fd_to_node) l

unfoldable pub events_on : List ℕ → WaitLoop → WaitLoop
unfolding event_on
events_on [] l = l
events_on (fd ∷ fds) l = events_on fds (event_on fd l)

-- non_block_system in the parent, on what pidfd_open gives: it waits for the end of the command, or
-- goes on at once.
unfoldable pub non_block_system : ℕ → Option ℕ → WaitLoop → WaitLoop
unfolding yield_by_fd
non_block_system co none l = l
non_block_system co (some fd) l = yield_by_fd (record { co = co; fd = fd; timer = none }) l
