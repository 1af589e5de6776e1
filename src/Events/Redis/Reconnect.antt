-- ===== src/Events/Redis/Reconnect.antt =====
-- src/public/event_sc/ad_redis.cpp: the subscriber when the connection has ended.
use auto_drop.Prelude.{
  ℕ, ◌<◌, false, if◌then◌else◌, none, some, [], ◌∷◌, ◌++◌, append_assoc, append-nil, Str, str_beq,
  str_beq_iff, Dict, lookup, insert, erase, has, nat_eq, str_eq, lookup-insert, lookup-erase,
  has-erase, ◌≡◌, ◌≢◌, refl, sym, ap, ◌∙◌, arith,
}
use auto_drop.Prelude.Loops.{◌>>=◌}
use auto_drop.Events.Redis.{
  RedisNode, Subscriber, eof, subscribe, subscribe_all, connected, store, register_redis,
  unregister_redis, redis_of, channels, create_redis_event_node, handle_redis, node_at,
  restart_redis_subscriber,
}

-- The keys of a std::map are distinct.
abbrev pub Distinct : Dict Str ℕ → Type 0
Distinct [] = Unit
Distinct ((k, v) ∷ m) = (has k m ≡ false) × Distinct m

insert-absent :
    (k : Str) (v : ℕ) (m : Dict Str ℕ) → has k m ≡ false → insert k v m ≡ m ++ (k, v) ∷ []
unfolding insert has
insert-absent k v [] h = refl
insert-absent k v ((j, w) ∷ m) h = ground (arith, h, insert-absent k v m)

-- None of the keys of the second is in the first.
abbrev Apart : Dict Str ℕ → Dict Str ℕ → Type 0
Apart done [] = Unit
Apart done ((k, v) ∷ m) = (has k done ≡ false) × Apart done m

has-snoc :
    (j k : Str) (v : ℕ) (m : Dict Str ℕ)
    → has j m ≡ false
    → str_beq k j ≡ false
    → has j (m ++ (k, v) ∷ []) ≡ false
unfolding has
has-snoc j k v [] h ne = ground (arith, ne)
has-snoc j k v ((i, w) ∷ m) h ne = ground (arith, h, has-snoc j k v m)

Apart-snoc :
    (done m : Dict Str ℕ) (k : Str) (v : ℕ)
    → Apart done m
    → has k m ≡ false
    → Apart (done ++ (k, v) ∷ []) m
unfolding has
Apart-snoc done [] k v a h = tt
Apart-snoc done ((j, w) ∷ m) k v a h =
    let ne : str_beq k j ≡ false = ground (arith, h, str_beq_iff j k, str_beq_iff k j) in
    (has-snoc j k v done a.0 ne, Apart-snoc done m k v a.1 (ground (arith, h)))

subscribe_all-connected :
    (cs done : Dict Str ℕ) (fd : ℕ)
    → Distinct cs
    → Apart done cs
    → subscribe_all cs (record { redis = some fd; callbacks = done })
      ≡ some (record { redis = some fd; callbacks = done ++ cs })
unfolding subscribe_all subscribe
subscribe_all-connected [] done fd d a =
    ap (λ m. some (record { redis = some fd; callbacks = m })) (sym (append-nil done))
subscribe_all-connected ((k, v) ∷ cs) done fd d a =
    ap (λ m. subscribe_all cs (record { redis = some fd; callbacks = m }))
      (insert-absent k v done a.0)
    ∙ subscribe_all-connected cs (done ++ (k, v) ∷ []) fd d.1 (Apart-snoc done cs k v a.1 d.0)
    ∙ ap (λ m. some (record { redis = some fd; callbacks = m }))
        (append_assoc done ((k, v) ∷ []) cs)

Apart-nothing : (m : Dict Str ℕ) → Apart [] m
unfolding has
Apart-nothing [] = tt
Apart-nothing ((k, v) ∷ m) = (refl, Apart-nothing m)

reconnected :
    (cs : Dict Str ℕ) (fd : ℕ)
    → Distinct cs
    → subscribe_all cs (connected (some fd)) ≡ some (record { redis = some fd; callbacks = cs })
unfolding connected
reconnected cs fd d = subscribe_all-connected cs [] fd d (Apart-nothing cs)

-- The stream of a registered subscriber has ended, and the new connection has a descriptor that is
-- not watched. The end calls no callback; a node with the same callbacks is watched for the new
-- descriptor, and the old descriptor is no longer watched; but m_redis_node is what it was, so that
-- it is not the node that is watched now.
pub handle_redis-eof :
    (fd fd' id : ℕ) (cs : Dict Str ℕ) (s : Subscriber)
    → Distinct cs
    → has fd' s.watched ≡ false
    → fd ≢ fd'
    → (s' : Subscriber) × (handle_redis eof
          (some fd')
          id
          (record { redis = some fd; callbacks = cs })
          s
        ≡ some ([], s'))
      × (lookup fd' s'.watched ≡ some s.next_node)
      × (lookup s.next_node s'.nodes ≡ some (record { redis = some fd'; callbacks = cs }))
      × (lookup fd s'.watched ≡ none)
      × (s'.redis_node ≡ s.redis_node)
unfolding handle_redis register_redis unregister_redis
handle_redis-eof fd fd' id cs s d fresh ne =
    let s1 = store (record { redis = some fd'; callbacks = cs }) (unregister_redis (some fd) s) in
    let not_watched : has fd' (erase fd s.watched) ≡ false =
      ground (arith, has-erase fd fd' s.watched, fresh) in
    (
      record s1 { watched = insert fd' s.next_node s1.watched },
      ap
            (λ o. o >>= λ n'.
              some (
                [],
                register_redis s.next_node (some fd') (store n' (unregister_redis (some fd) s)),
              ))
            (reconnected cs fd' d)
          ∙ ap
              (λ b.
                some
                  ([], if b then s1 else record s1 { watched = insert fd' s.next_node s1.watched }))
              not_watched,
      ground (arith, lookup-insert fd' fd' s.next_node (erase fd s.watched)),
      ground (
        arith,
        lookup-insert s.next_node s.next_node (record { redis = some fd'; callbacks = cs }) s.nodes,
      ),
      ground (
        arith,
        lookup-insert fd' fd s.next_node (erase fd s.watched),
        lookup-erase fd fd s.watched,
        ne,
      ),
      refl,
    )

channels-Distinct : (serial : Str) → Distinct (channels serial)
unfolding channels has str_beq
channels-Distinct serial = (refl, (refl, (refl, tt)))

created :
    (fd : ℕ) (serial : Str)
    → create_redis_event_node (some fd) serial
      ≡ some (record { redis = some fd; callbacks = channels serial })
unfolding create_redis_event_node
created fd serial = reconnected (channels serial) fd (channels-Distinct serial)

-- What restart_redis_subscriber leaves of the nodes when m_redis_node has the descriptor fd1.
restart-replaces :
    (serial : Str) (fd1 fd3 id : ℕ) (n1 : RedisNode) (s : Subscriber)
    → s.redis_node ≡ some id
    → lookup id s.nodes ≡ some n1
    → n1.redis ≡ some fd1
    → has fd3 s.watched ≡ false
    → (s' : Subscriber) × (restart_redis_subscriber (some fd3) serial s ≡ some s')
      × (s'.watched ≡ insert fd3 s.next_node (erase fd1 s.watched))
      × (s'.nodes
          ≡ insert s.next_node (record { redis = some fd3; callbacks = channels serial }) s.nodes)
unfolding restart_redis_subscriber register_redis unregister_redis
restart-replaces serial fd1 fd3 id n1 s member at old fresh =
    let n3 : RedisNode = record { redis = some fd3; callbacks = channels serial } in
    let s1 = record s { watched = erase fd1 s.watched } in
    let s2 = record (store n3 s1) { redis_node = some s.next_node } in
    let not_watched : has fd3 (erase fd1 s.watched) ≡ false =
      ground (arith, has-erase fd1 fd3 s.watched, fresh) in
    let is_old : redis_of (node_at s.redis_node s) ≡ some fd1 =
      ap (λ o. redis_of (node_at o s)) member ∙ ap redis_of at ∙ old in
    (
      record s2 { watched = insert fd3 s.next_node (erase fd1 s.watched) },
      ap
            (λ o. create_redis_event_node (some fd3) serial >>= λ n. some (
              register_redis (unregister_redis o s).next_node (some fd3)
                (record (store n (unregister_redis o s)) {
                  redis_node = some (unregister_redis o s).next_node;
                })))
            is_old
          ∙ ap
              (λ o. o >>= λ n. some (
                register_redis s.next_node (some fd3)
                  (record (store n s1) { redis_node = some s.next_node })))
              (created fd3 serial)
          ∙ ap
              (λ b. some (
                if b
                then s2
                else record s2 { watched = insert fd3 s.next_node (erase fd1 s.watched) }))
              not_watched,
      refl,
      refl,
    )

-- m_redis_node has the descriptor fd1, and another node, which a reconnect has left, is watched for
-- fd2. restart_redis_subscriber with a new connection fd3 then leaves both this node and the new one
-- watched, each with its callbacks: a message on a channel of both is handled twice.
pub restart_redis_subscriber-keeps_other :
    (serial : Str) (fd1 fd2 fd3 id j : ℕ) (n1 n2 : RedisNode) (s : Subscriber)
    → s.redis_node ≡ some id
    → lookup id s.nodes ≡ some n1
    → n1.redis ≡ some fd1
    → lookup fd2 s.watched ≡ some j
    → lookup j s.nodes ≡ some n2
    → j < s.next_node
    → fd1 ≢ fd2
    → fd3 ≢ fd2
    → has fd3 s.watched ≡ false
    → (s' : Subscriber) × (restart_redis_subscriber (some fd3) serial s ≡ some s')
      × (lookup fd2 s'.watched ≡ some j)
      × (lookup j s'.nodes ≡ some n2)
      × (lookup fd3 s'.watched ≡ some s.next_node)
      × (lookup s.next_node s'.nodes
          ≡ some (record { redis = some fd3; callbacks = channels serial }))
restart_redis_subscriber-keeps_other serial fd1 fd2 fd3 id j n1 n2 s member at old watched at2 below
      ne1 ne3 fresh =
    let n3 : RedisNode = record { redis = some fd3; callbacks = channels serial } in
    let (s', eq, w, ns) = restart-replaces serial fd1 fd3 id n1 s member at old fresh in
    (
      s',
      eq,
      ground (
        arith,
        w,
        lookup-insert fd3 fd2 s.next_node (erase fd1 s.watched),
        lookup-erase fd1 fd2 s.watched,
        watched,
        ne1,
        ne3,
      ),
      ground (arith, ns, lookup-insert s.next_node j n3 s.nodes, at2, below),
      ground (arith, w, lookup-insert fd3 fd3 s.next_node (erase fd1 s.watched)),
      ground (arith, ns, lookup-insert s.next_node s.next_node n3 s.nodes),
    )
