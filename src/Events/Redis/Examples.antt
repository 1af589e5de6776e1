-- ===== src/Events/Redis/Examples.antt =====
-- A subscriber of the appliance A1 whose connection ends, and a restart after that.
use auto_drop.Prelude.{
  ℕ, none, some, [], ◌∷◌, Str, codes, lookup, has, nat_eq, str_eq, ◌≡◌, refl, arith,
}
use auto_drop.Events.Redis.{
  RedisNode, Subscriber, eof, channels, handle_redis, restart_redis_subscriber,
}
use auto_drop.Events.Redis.Reconnect.{handle_redis-eof, restart_redis_subscriber-keeps_other}

abbrev serial : Str
serial = codes "A1"

abbrev node : ℕ → RedisNode
node fd = record { redis = some fd; callbacks = (codes "gate_ctrl_A1", 2) ∷ [] }

abbrev one : Subscriber
one = record {
  nodes = (0, node 10) ∷ [];
  next_node = 1;
  watched = (10, 0) ∷ [];
  redis_node = some 0;
}

handle_redis-eof_example :
    (s' : Subscriber) × (handle_redis eof (some 11) 0 (node 10) one ≡ some ([], s'))
    × (lookup 11 s'.watched ≡ some 1)
    × (lookup 1 s'.nodes ≡ some (node 11))
    × (lookup 10 s'.watched ≡ none)
    × (s'.redis_node ≡ some 0)
unfolding has
handle_redis-eof_example =
    handle_redis-eof 10 11 0 ((codes "gate_ctrl_A1", 2) ∷ []) one (refl, tt) refl (omega arith)

-- What that leaves.
abbrev two : Subscriber
two = record {
  nodes = (0, node 10) ∷ (1, node 11) ∷ [];
  next_node = 2;
  watched = (11, 1) ∷ [];
  redis_node = some 0;
}

restart_redis_subscriber-keeps_other_example :
    (s' : Subscriber) × (restart_redis_subscriber (some 12) serial two ≡ some s')
    × (lookup 11 s'.watched ≡ some 1)
    × (lookup 1 s'.nodes ≡ some (node 11))
    × (lookup 12 s'.watched ≡ some 2)
    × (lookup 2 s'.nodes ≡ some (record { redis = some 12; callbacks = channels serial }))
unfolding has lookup
restart_redis_subscriber-keeps_other_example =
    restart_redis_subscriber-keeps_other serial 10 11 12 0 1 (node 10) (node 11) two refl refl refl
      refl refl (omega arith) (omega arith) (omega arith) refl
