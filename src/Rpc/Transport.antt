-- ===== src/Rpc/Transport.antt =====
-- AD_RPC_TRANSPORT of src/rpc/ad_rpc.h: the length-prefixed frames between thrift's binary protocol
-- and the socket. A chunk is what one read of the transport below returned, 1024 bytes at most. The
-- loop of read_more takes fuel; `none` means that it is still running.
pub mod Frames
pub mod Stall
use auto_drop.Prelude.{
  ℕ, zero, suc, ◌+◌, ◌*◌, ◌/◌, ◌%◌, ◌^◌, min, Bool, true, false, if◌then◌else◌, ltb, leb, Option,
  none, some, List, [], ◌∷◌, ◌++◌, length, take, drop, Str,
}

abbrev pub u32_mod : ℕ
u32_mod = 4294967296

-- htonl and the four bytes of the result in memory.
unfoldable pub htonl_bytes : ℕ → Str
htonl_bytes n = (n / 16777216) % 256 ∷ (n / 65536) % 256 ∷ (n / 256) % 256 ∷ n % 256 ∷ []

-- The first four bytes by memcpy and ntohl; never called on fewer.
unfoldable pub ntohl_bytes : Str → ℕ
ntohl_bytes (a ∷ b ∷ c ∷ d ∷ s) = a * 16777216 + b * 65536 + c * 256 + d
ntohl_bytes _ = 0

-- m_recv_buf and m_bufferd_recv_data.
pub record Transport : Type 0 where
  pub recv_buf : Str
  pub buffered : Str

unfoldable pub no_transport : Transport
no_transport = record { recv_buf = []; buffered = [] }

-- What write_virt hands to the transport below.
unfoldable pub write_virt : Str → Str
unfolding htonl_bytes
write_virt buf = htonl_bytes (length buf) ++ buf

-- `4 + msg_len` is a uint32_t.
unfoldable pub frame_end : Transport → ℕ
unfolding ntohl_bytes
frame_end t = (4 + ntohl_bytes t.recv_buf) % u32_mod

-- One round of the `while`.
unfoldable pub extract : Transport → Transport
extract t =
    if leb (frame_end t) (length t.recv_buf)
    then record {
      recv_buf = drop (frame_end t) t.recv_buf;
      buffered = t.buffered ++ take (ntohl_bytes t.recv_buf) (drop 4 t.recv_buf);
    }
    else t

unfoldable pub extract_all : ℕ → Transport → Option Transport
extract_all zero t = none
extract_all (suc f) t =
    let rest = extract_all f (extract t) in if leb 4 (length t.recv_buf) then rest else some t

unfoldable pub read_more : ℕ → Str → Transport → Option Transport
read_more f chunk t = extract_all f (record t { recv_buf = t.recv_buf ++ chunk })

-- The copied bytes, and the transport after the call.
unfoldable pub hand_out : ℕ → Transport → Str × Transport
hand_out len t =
    let copy_len = min len (length t.buffered) in
    (take copy_len t.buffered, record t { buffered = drop copy_len t.buffered })

infixl 5 ◌>>=◌
abbrev pub ◌>>=◌ {ℓ κ} : {A : Type ℓ} {B : Type κ} → Option A → (A → Option B) → Option B
none >>= f = none
some a >>= f = f a

abbrev pub is_empty : Str → Bool
is_empty [] = true
is_empty (c ∷ s) = false

-- `chunk` is what the read below returns, if there is one.
unfoldable pub read_virt : ℕ → Str → ℕ → Transport → Option (Str × Transport)
unfolding read_more hand_out
read_virt f chunk len t = do
  t' ← (if is_empty t.buffered then read_more f chunk t else some t)
  some (hand_out len t')
