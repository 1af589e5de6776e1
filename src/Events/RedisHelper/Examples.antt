-- ===== src/Events/RedisHelper/Examples.antt =====
-- A server that keeps one list of fields for each key.
use auto_drop.Prelude.{
  ◌≡◌, ◌≢◌, refl, ◌∙◌, ap, Option, none, some, List, [], ◌∷◌, Str, codes, str_beq_iff, Dict, lookup,
  insert, lookup-insert, str_eq, arith,
}
use auto_drop.Events.RedisHelper.{Server, failed, connected, lost_after, World, set, get}
use auto_drop.Events.RedisHelper.Kept.{HelperCall, set_call, get_call, good, do_calls, get-set}

-- The hashes, by key and field.
abbrev Hashes : Type 0
Hashes = Dict Str (Dict Str Str)

abbrev fields : Str → Hashes → Dict Str Str
fields k s = elim (lookup k s) [ none ↦ [] | some d ↦ d ]

abbrev hset : Str → Str → Str → Hashes → Hashes
hset k f v s = insert k (insert f v (fields k s)) s

abbrev hget : Str → Str → Hashes → Option Str
hget k f s = lookup f (fields k s)

fields-hset : (k f v : Str) (s : Hashes) → fields k (hset k f v s) ≡ insert f v (fields k s)
fields-hset k f v s = ground (arith, lookup-insert k k (insert f v (fields k s)) s, str_beq_iff k k)

hget-hset : (k f v : Str) (s : Hashes) → hget k f (hset k f v s) ≡ some v
hget-hset k f v s =
    ap (lookup f) (fields-hset k f v s)
    ∙ lookup-insert f f v (fields k s)
    ∙ rw ((str_beq_iff f f).1 refl) refl

hget-hset_other : (k f g v : Str) (s : Hashes) → f ≢ g → hget k g (hset k f v s) ≡ hget k g s
hget-hset_other k f g v s other =
    ap (lookup g) (fields-hset k f v s)
    ∙ lookup-insert f g v (fields k s)
    ∙ ground (arith, str_beq_iff f g, other)

abbrev server : Server Hashes
server = record {
  hset = hset;
  hget = hget;
  hget-hset = hget-hset;
  hget-hset_other = hget-hset_other;
}

abbrev start : World Hashes
start = record { server = []; opened = 0; freed = 0; published = [] }

-- Another key is set, its reply is lost, and a connection fails.
abbrev calls : List HelperCall
calls =
    set_call (record { connect = connected; reply = lost_after }) (codes "b") (codes "2")
    ∷ get_call (record { connect = failed; reply = lost_after }) (codes "a")
    ∷ []

get-set_example :
    let w' =
      do_calls server
        (codes "s1")
        calls
        (set server (codes "s1") good (codes "a") (codes "1") start) in
    let (text, w'') = get server (codes "s1") good (codes "a") w' in
    (text ≡ codes "1") × (w''.opened ≡ w''.freed)
get-set_example =
    get-set server (codes "s1") calls (codes "a") (codes "1") start refl
      ((λ e. ground (arith, e)), (tt, tt))
