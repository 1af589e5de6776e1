-- ===== src/Events/Redis.antt =====
-- src/public/event_sc/ad_redis.{h,cpp} (AD_REDIS_EVENT_NODE), core/action/ad_action.cpp
-- (create_redis_event_node) and restart_redis_subscriber of core/rpc_imp_lib/config_rpc.cpp: the
-- subscriber of the configuration daemon. hiredis is not modelled: what a connection attempt gives (a
-- descriptor, or none for any failure) and what redisGetReply reads are arguments. epoll_ctl succeeds
-- for a descriptor that is not -1. `none` is the use of a null redisContext.
pub mod Reconnect
mod Examples
use auto_drop.Prelude.{
  ℕ, zero, suc, ◌+◌, Bool, true, false, if◌then◌else◌, Option, none, some, List, [], ◌∷◌, ◌++◌, Str,
  codes, Dict, lookup, insert, erase, has, nat_eq, str_eq,
}
use auto_drop.Prelude.Loops.{◌>>=◌}

-- A callback is the index of its line in g_sb_map.
pub record RedisNode : Type 0 where
  pub redis : Option ℕ
  pub callbacks : Dict Str ℕ

-- The nodes in their heap, the part of m_fdToNode that holds them, and m_redis_node.
pub record Subscriber : Type 0 where
  pub nodes : Dict ℕ RedisNode
  pub next_node : ℕ
  pub watched : Dict ℕ ℕ
  pub redis_node : Option ℕ

unfoldable pub no_subscriber : Subscriber
no_subscriber = record { nodes = []; next_node = 0; watched = []; redis_node = none }

-- What redisGetReply reads: an array of three strings, another reply, the end of the stream, or
-- another error.
pub data RedisReply : Type 0 where
  message : Str → Str → RedisReply
  other_reply eof other_error : RedisReply

unfoldable pub subscribe : Str → ℕ → RedisNode → Option RedisNode
subscribe channel cb n = elim n.redis [
  | none ↦ none
  | some fd ↦ some (record n { callbacks = insert channel cb n.callbacks })
]

unfoldable pub subscribe_all : List (Str × ℕ) → RedisNode → Option RedisNode
unfolding subscribe
subscribe_all [] n = some n
subscribe_all ((channel, cb) ∷ cs) n = do n' ← subscribe channel cb n; subscribe_all cs n'

-- std::make_shared, and the constructor with the descriptor that the connection attempt gave.
unfoldable pub connected : Option ℕ → RedisNode
connected conn = record { redis = conn; callbacks = [] }

abbrev pub store : RedisNode → Subscriber → Subscriber
store n s = record s { nodes = insert s.next_node n s.nodes; next_node = s.next_node + 1 }

-- registerNode and unregisterNode of the event loop; a node that is not connected has fd -1.
unfoldable pub register_redis : ℕ → Option ℕ → Subscriber → Subscriber
register_redis id none s = s
register_redis id (some fd) s =
    if has fd s.watched then s else record s { watched = insert fd id s.watched }

unfoldable pub unregister_redis : Option ℕ → Subscriber → Subscriber
unregister_redis none s = s
unregister_redis (some fd) s = record s { watched = erase fd s.watched }

abbrev pub redis_of : Option RedisNode → Option ℕ
redis_of none = none
redis_of (some n) = n.redis

-- g_sb_map, with the names of its channels for this appliance.
unfoldable pub channels : Str → List (Str × ℕ)
channels serial =
    (codes "save_ply_" ++ serial, 0)
    ∷ (codes "current_state_" ++ serial, 1)
    ∷ (codes "gate_ctrl_" ++ serial, 2)
    ∷ []

unfoldable pub create_redis_event_node : Option ℕ → Str → Option RedisNode
unfolding connected subscribe_all channels
create_redis_event_node conn serial = subscribe_all (channels serial) (connected conn)

-- The callbacks that are called, and what is left.
unfoldable pub handle_redis :
    RedisReply → Option ℕ → ℕ → RedisNode → Subscriber → Option (List ℕ × Subscriber)
unfolding connected subscribe_all register_redis unregister_redis
handle_redis (message channel text) conn id n s = elim (lookup channel n.callbacks) [
  | none ↦ some ([], s)
  | some cb ↦ some (cb ∷ [], s)
]
handle_redis other_reply conn id n s = some ([], s)
handle_redis eof conn id n s = do
  n' ← subscribe_all n.callbacks (connected conn)
  some ([], register_redis s.next_node conn (store n' (unregister_redis n.redis s)))
handle_redis other_error conn id n s = some ([], s)

abbrev pub node_at : Option ℕ → Subscriber → Option RedisNode
node_at none s = none
node_at (some id) s = lookup id s.nodes

unfoldable pub restart_redis_subscriber : Option ℕ → Str → Subscriber → Option Subscriber
unfolding create_redis_event_node register_redis unregister_redis
restart_redis_subscriber conn serial s = do
  let s1 = unregister_redis (redis_of (node_at s.redis_node s)) s
  n ← create_redis_event_node conn serial
  let s2 = store n s1
  some (register_redis s1.next_node conn (record s2 { redis_node = some s1.next_node }))
