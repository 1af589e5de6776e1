-- ===== src/Rpc/Examples.antt =====
-- Frames on concrete bytes.
use auto_drop.Prelude.{
  min, ◌≡◌, refl, none, some, List, [], ◌∷◌, ◌++◌, length, Str, codes, All, arith,
}
use auto_drop.Rpc.Transport.{Transport, no_transport, read_more, read_virt, write_virt}
use auto_drop.Rpc.Transport.Frames.{Fits, write_all, payload, read_virt-write_all}
use auto_drop.Rpc.Transport.Stall.{begun, read_more_stalls}

abbrev messages : List Str
messages = codes "ab" ∷ codes "c" ∷ []

write_virt_ab : write_virt (codes "ab") ≡ 0 ∷ 0 ∷ 0 ∷ 2 ∷ 97 ∷ 98 ∷ []
unfolding write_virt
write_virt_ab = refl

messages_fit : All Fits messages
messages_fit = ground arith

read_virt-write_all_example :
    (got : Str) × (t : Transport) × (read_virt 3 (write_all messages ++ []) 2 no_transport
      ≡ some (got, t))
    × (got ++ t.buffered ≡ payload messages)
    × (length got ≡ min 2 (length (payload messages)))
    × (t.recv_buf ≡ [])
read_virt-write_all_example =
    read_virt-write_all messages [] 2 3 messages_fit (omega arith) (omega arith)

read_more_stalls_example :
    read_more 1000
      (write_all messages ++ begun (codes "abc") 1)
      (record { recv_buf = []; buffered = [] })
    ≡ none
read_more_stalls_example =
    read_more_stalls messages (codes "abc") [] 1 1000 messages_fit (omega arith) (omega arith)
