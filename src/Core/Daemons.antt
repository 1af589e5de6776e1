-- ===== src/Core/Daemons.antt =====
-- src/core/rpc_imp_lib/config_rpc.{h,cpp}: the configuration daemon, which gives each device driver
-- and each state machine a port and a process. The kernel's answers (fork, pidfd_open, epoll_ctl)
-- are the argument `Kernel` of each call; the RPC to a stopped process changes nothing here.
pub mod Leak
pub mod Ports
pub mod Registry
pub mod Restart
pub mod Runs
pub mod Start
pub mod Stop
use auto_drop.Prelude.{
  ℕ, zero, suc, ◌+◌, ◌-◌, Bool, true, false, not, ◌||◌, ◌&&◌, if◌then◌else◌, ltb, ◌==◌, Option,
  none, some, List, [], ◌∷◌, map, Str, codes, Dict, lookup, insert, erase, has, nat_eq, ◌++◌, Permᴰ,
}
use auto_drop.Prelude.Decimal.{to_string}

pub record DeviceConfig : Type 0 where
  pub driver_name : Str
  pub port : ℕ
  pub argv : List Str
  pub device_name : Str

pub record SmConfig : Type 0 where
  pub sm_name : Str
  pub port : ℕ
  pub argv : List Str

-- A default-constructed _return of the RPC.
abbrev pub no_device : DeviceConfig
no_device = record { driver_name = []; port = 0; argv = []; device_name = [] }

abbrev pub no_sm : SmConfig
no_sm = record { sm_name = []; port = 0; argv = [] }

-- SUBPROCESS_EVENT_SC_NODE; `fd` is the pidfd.
pub record Subprocess : Type 0 where
  pub path : Str
  pub argv : List Str
  pub name : Str
  pub pid : ℕ
  pub fd : ℕ

-- The nodes are shared objects, so they stand in a heap: `nodes` gives the object behind each
-- SUBPROCESS_EVENT_SC_NODE_PTR, and `next_node` is the next one to be allocated. A null pointer is
-- never stored, since create_sub_process returns only with a pid above 0. `watched` is the part of
-- the event loop's m_fdToNode that holds these nodes. `programs` gives, by its pid, what each process
-- that fork made has executed: its path and its arguments.
pub record Config : Type 0 where
  pub device_map : Dict ℕ DeviceConfig
  pub sm_map : Dict ℕ SmConfig
  pub subprocess_map : Dict ℕ ℕ
  pub nodes : Dict ℕ Subprocess
  pub next_node : ℕ
  pub watched : Dict ℕ ℕ
  pub programs : Dict ℕ (Str × List Str)

unfoldable pub no_config : Config
no_config = record {
  device_map = [];
  sm_map = [];
  subprocess_map = [];
  nodes = [];
  next_node = 0;
  watched = [];
  programs = [];
}

-- fork gives a pid above 0 or fails; pidfd_open gives a descriptor; epoll_ctl succeeds or not.
pub record Kernel : Type 0 where
  pub fork : Option ℕ
  pub pidfd : ℕ
  pub epoll : Bool

-- A call either returns, or the calling process itself becomes the program: that is what
-- `pid <= 0` does when fork has failed.
pub data Outcome {ℓ} (A : Type ℓ) : Type ℓ where
  returns : A → Outcome A
  becomes : Str → List Str → Outcome A

infixl 5 ◌>>=◌
abbrev pub ◌>>=◌ {ℓ κ} : {A : Type ℓ} {B : Type κ} → Outcome A → (A → Outcome B) → Outcome B
returns a >>= f = f a
becomes p a >>= f = becomes p a

-- The process of this pid executes the program.
abbrev pub execute : ℕ → Str → List Str → Config → Config
execute pid path argv c = record c { programs = insert pid (path, argv) c.programs }

-- The child of a fork that succeeds executes the program, the parent returns; where fork fails, it is
-- the caller that executes it.
unfoldable pub create_sub_process : Kernel → Str → List Str → Config → Outcome (ℕ × Config)
create_sub_process k path argv c = elim k.fork [
  | none ↦ becomes (codes "/bin/" ++ path) argv
  | some pid ↦ returns (pid, execute pid (codes "/bin/" ++ path) argv c)
]

-- registerNode and unregisterNode of the event loop, on these nodes.
unfoldable pub register : Bool → ℕ → Config → Config
register ok id c = elim (lookup id c.nodes) [
  | none ↦ c
  | some n ↦
      if has n.fd c.watched
      then c
      else if ok
      then record c { watched = insert n.fd id c.watched }
      else c
]

unfoldable pub unregister : Bool → ℕ → Config → Config
unregister ok id c = elim (lookup id c.nodes) [
  | none ↦ c
  | some n ↦
      if has n.fd c.watched
      then (if ok then record c { watched = erase n.fd c.watched } else c)
      else c
]

-- std::make_shared
unfoldable pub new_node : Subprocess → Config → Config
new_node n c = record c { nodes = insert c.next_node n c.nodes; next_node = c.next_node + 1 }

abbrev pub min_port : ℕ
min_port = 50110

abbrev pub max_port : ℕ
max_port = 53000

unfoldable pub taken : ℕ → Config → Bool
taken p c = has p c.device_map || has p c.sm_map

-- The `for` over the ports, with `n` of them left from `p` on; 0 when none is free.
unfoldable pub free_from : Config → ℕ → ℕ → ℕ
free_from c zero p = 0
free_from c (suc n) p = let rest = free_from c n (suc p) in if taken p c then rest else p

unfoldable pub free_port : Config → ℕ
free_port c = free_from c (max_port - min_port) min_port

unfoldable pub exec_args : Str → ℕ → List Str → List Str
exec_args name port argv = name ∷ to_string port ∷ argv

unfoldable pub start_daemon : Kernel → Str → List Str → Str → Config → Outcome (ℕ × ℕ × Config)
unfolding create_sub_process register exec_args new_node
start_daemon k path argv name c = do
  let port = free_port c
  let args = exec_args name port argv
  (pid, c') ← create_sub_process k path args c
  let node : Subprocess = record { path = path; argv = args; name = name; pid = pid; fd = k.pidfd }
  returns (port, c'.next_node, register k.epoll c'.next_node (new_node node c'))

unfoldable pub start_device :
    Kernel → Str → List Str → Str → Config → Outcome (DeviceConfig × Config)
start_device k driver argv name c = do
  (port, node, c') ← start_daemon k driver argv name c
  let tmp : DeviceConfig = record {
    driver_name = driver;
    port = port;
    argv = argv;
    device_name = name;
  }
  returns (
      if ltb 0 port
      then (
        tmp,
        record c' {
          device_map = insert port tmp c'.device_map;
          subprocess_map = insert port node c'.subprocess_map;
        },
      )
      else (no_device, c'))

unfoldable pub start_sm : Kernel → Str → List Str → Config → Outcome (SmConfig × Config)
start_sm k name argv c = do
  (port, node, c') ← start_daemon k (codes "sm_daemon") argv name c
  let tmp : SmConfig = record { sm_name = name; port = port; argv = argv }
  returns (
      if ltb 0 port
      then (
        tmp,
        record c' {
          sm_map = insert port tmp c'.sm_map;
          subprocess_map = insert port node c'.subprocess_map;
        },
      )
      else (no_sm, c'))

-- wait_stop_daemon up to yield_by_fd, and after it. Other calls may run between the two, and
-- between the erase and the first part, while the RPC is under way.
unfoldable pub wait_stop_begin : Bool → ℕ → Config → Config
unfolding unregister
wait_stop_begin ok port c = elim (lookup port c.subprocess_map) [
  | none ↦ c
  | some node ↦ unregister ok node c
]

unfoldable pub wait_stop_end : ℕ → Config → Config
wait_stop_end port c = record c { subprocess_map = erase port c.subprocess_map }

unfoldable pub wait_stop_daemon : Bool → ℕ → Config → Config
unfolding wait_stop_begin wait_stop_end
wait_stop_daemon ok port c =
    if has port c.subprocess_map then wait_stop_end port (wait_stop_begin ok port c) else c

-- stop_device up to the RPC.
unfoldable pub stop_device_begin : ℕ → Config → Config
stop_device_begin port c = record c { device_map = erase port c.device_map }

unfoldable pub stop_device : Bool → ℕ → Config → Config
unfolding stop_device_begin
stop_device ok port c =
    if has port c.device_map then wait_stop_daemon ok port (stop_device_begin port c) else c

unfoldable pub stop_sm_begin : ℕ → Config → Config
stop_sm_begin port c = record c { sm_map = erase port c.sm_map }

unfoldable pub stop_sm : Bool → ℕ → Config → Config
unfolding stop_sm_begin
stop_sm ok port c = if has port c.sm_map then wait_stop_daemon ok port (stop_sm_begin port c) else c

-- What waitpid stores: an exit code, or a death by signal.
pub data WaitStatus : Type 0 where
  exited : ℕ → WaitStatus
  signaled : WaitStatus

unfoldable pub need_restart : WaitStatus → Bool
need_restart (exited code) = not (code == 0)
need_restart signaled = true

-- SUBPROCESS_EVENT_SC_NODE::handleEvent up to yield_by_timer(2), and after it.
unfoldable pub handle_event_begin : Bool → ℕ → Config → Config
unfolding unregister
handle_event_begin ok id c = unregister ok id c

unfoldable pub renew_node : ℕ → ℕ → ℕ → Subprocess → Config → Config
unfolding register
renew_node id pid fd n c = record c { nodes = insert id (record n { pid = pid; fd = fd }) c.nodes }

unfoldable pub handle_event_end : Kernel → ℕ → Config → Outcome Config
unfolding create_sub_process renew_node register
handle_event_end k id c = elim (lookup id c.nodes) [
  | none ↦ returns c
  | some n ↦ do
    (pid, c') ← create_sub_process k n.path n.argv c
    returns (register k.epoll id (renew_node id pid k.pidfd n c'))
]

-- Both parts with nothing between them; `ok` is the first epoll_ctl.
unfoldable pub handle_event : Bool → WaitStatus → Kernel → ℕ → Config → Outcome Config
unfolding need_restart handle_event_begin handle_event_end
handle_event ok status k id c =
    if need_restart status
    then handle_event_end k id (handle_event_begin ok id c)
    else returns (handle_event_begin ok id c)

abbrev pub values : {V : Type 0} → Dict ℕ V → List V
values [] = []
values ((k, v) ∷ m) = v ∷ values m

-- The order in which a std::unordered_map is walked is not specified: `walk` is any.
abbrev pub Walks : {V : Type 0} → (Dict ℕ V → List V) → Type 0
Walks walk = (m : _) → Permᴰ (walk m) (values m)

unfoldable pub get_device_list :
    (Dict ℕ DeviceConfig → List DeviceConfig) → Config → List DeviceConfig
get_device_list walk c = walk c.device_map

unfoldable pub get_sm_list : (Dict ℕ SmConfig → List SmConfig) → Config → List SmConfig
get_sm_list walk c = walk c.sm_map
