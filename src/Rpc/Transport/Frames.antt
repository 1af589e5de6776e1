-- ===== src/Rpc/Transport/Frames.antt =====
-- What write_virt writes, read_more reads.
use auto_drop.Prelude.{
  ℕ, zero, suc, ◌+◌, ◌≤◌, ◌<◌, min, ◌≡◌, refl, ◌∙◌, some, List, [], ◌∷◌, ◌++◌, length, take, drop,
  Str, All, append_assoc, append-nil, length-append, take-append_length, drop-append_length, arith,
  le→leb, take-append-drop, length-take,
}
use auto_drop.Rpc.Transport.{
  u32_mod, htonl_bytes, ntohl_bytes, Transport, no_transport, write_virt, frame_end, extract,
  extract_all, read_more, read_virt,
}

pub ntohl-htonl : (n : ℕ) (s : Str) → n < u32_mod → ntohl_bytes (htonl_bytes n ++ s) ≡ n
unfolding ntohl_bytes htonl_bytes
ntohl-htonl n s h = omega arith

-- A length for which `4 + msg_len` does not wrap.
abbrev pub Fits : Str → Type 0
Fits m = length m + 4 < u32_mod

-- Several writes, one after the other.
abbrev pub write_all : List Str → Str
write_all [] = []
write_all (m ∷ ms) = write_virt m ++ write_all ms

abbrev pub payload : List Str → Str
payload [] = []
payload (m ∷ ms) = m ++ payload ms

pub frame_end_lem :
    (t : Transport) (n : ℕ)
    → ntohl_bytes t.recv_buf ≡ n
    → n + 4 < u32_mod
    → frame_end t ≡ suc (suc (suc (suc n)))
unfolding frame_end
frame_end_lem t n e h = omega arith

extract_complete :
    (t : Transport) (n : ℕ)
    → ntohl_bytes t.recv_buf ≡ n
    → n + 4 < u32_mod
    → suc (suc (suc (suc n))) ≤ length t.recv_buf
    → extract t ≡ record {
      recv_buf = drop (suc (suc (suc (suc n)))) t.recv_buf;
      buffered = t.buffered ++ take n (drop 4 t.recv_buf);
    }
unfolding extract
extract_complete t n e h l =
    rw (frame_end_lem t n e h, e, le→leb (suc (suc (suc (suc n)))) (length t.recv_buf) l)

pub extract_frame :
    (m rest out : Str)
    → Fits m
    → extract (record { recv_buf = write_virt m ++ rest; buffered = out })
      ≡ record { recv_buf = rest; buffered = out ++ m }
unfolding write_virt htonl_bytes
extract_frame m rest out h =
    extract_complete (record { recv_buf = htonl_bytes (length m) ++ (m ++ rest); buffered = out })
      (length m) (ntohl-htonl (length m) (m ++ rest) (omega arith)) h
      (omega (arith, length-append m rest))
    ∙ rw (drop-append_length m rest, take-append_length m rest)

pub frame_long : (m s : Str) → 4 ≤ length (write_virt m ++ s)
unfolding write_virt htonl_bytes
frame_long m s = omega arith

-- A whole sequence of frames is taken out, in order, and fewer than four bytes are left over.
extract_all_frames :
    (ms : List Str) (tail out : Str) (f : ℕ)
    → All Fits ms
    → length tail < 4
    → length ms < f
    → extract_all f (record { recv_buf = write_all ms ++ tail; buffered = out })
      ≡ some (record { recv_buf = tail; buffered = out ++ payload ms })
unfolding extract_all
extract_all_frames ms tail out zero a l h = absurd (omega arith)
extract_all_frames [] tail out (suc f) a l h = ground (arith, append-nil out)
extract_all_frames (m ∷ ms) tail out (suc f) a l h = rw (
  append_assoc (write_virt m) (write_all ms) tail,
  le→leb 4 (length (write_virt m ++ (write_all ms ++ tail))) (frame_long m (write_all ms ++ tail)),
  extract_frame m (write_all ms ++ tail) out a.0,
  extract_all_frames ms tail (out ++ m) f a.1 l (omega arith),
  append_assoc out m (payload ms),
)

-- If what is received is a sequence of frames that write_virt wrote (each below 2^32 - 4 bytes),
-- with fewer than four bytes after them, and nothing was pending, read_more ends (fuel above the
-- number of frames is enough) with the payloads in order in m_bufferd_recv_data and the few bytes
-- left in m_recv_buf.
pub read_more-write_all :
    (ms : List Str) (tail out : Str) (f : ℕ)
    → All Fits ms
    → length tail < 4
    → length ms < f
    → read_more f (write_all ms ++ tail) (record { recv_buf = []; buffered = out })
      ≡ some (record { recv_buf = tail; buffered = out ++ payload ms })
unfolding read_more
read_more-write_all ms tail out f a l h = extract_all_frames ms tail out f a l h

-- If the buffers are empty and the chunk received is a sequence of frames that write_virt wrote (each
-- below 2^32 - 4 bytes) with fewer than four bytes after them, a read of `len` bytes succeeds with
-- fuel above the number of frames: the bytes handed out, as many as possible and at most `len`,
-- followed by those kept are exactly the payloads, and the few bytes are left in m_recv_buf.
pub read_virt-write_all :
    (ms : List Str) (tail : Str) (len f : ℕ)
    → All Fits ms
    → length tail < 4
    → length ms < f
    → (got : Str) × (t : Transport) × (read_virt f (write_all ms ++ tail) len no_transport
        ≡ some (got, t))
      × (got ++ t.buffered ≡ payload ms)
      × (length got ≡ min len (length (payload ms)))
      × (t.recv_buf ≡ tail)
unfolding read_virt no_transport
read_virt-write_all ms tail len f a l h =
    let n = min len (length (payload ms)) in
    (
      take n (payload ms),
      record { recv_buf = tail; buffered = drop n (payload ms) },
      rw (read_more-write_all ms tail [] f a l h) refl,
      take-append-drop n (payload ms),
      omega (arith, length-take n (payload ms)),
      refl,
    )
