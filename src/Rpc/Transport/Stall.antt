-- ===== src/Rpc/Transport/Stall.antt =====
-- What read_more does with a frame that has not arrived whole.
use auto_drop.Prelude.{
  ℕ, zero, suc, ◌≤◌, ◌<◌, ◌≡◌, refl, none, List, [], ◌∷◌, ◌++◌, length, take, Str, All,
  append_assoc, length-take, arith, le→leb, lt→leb,
}
use auto_drop.Rpc.Transport.{htonl_bytes, Transport, write_virt, extract, extract_all, read_more}
use auto_drop.Rpc.Transport.Frames.{
  Fits, write_all, ntohl-htonl, frame_end_lem, extract_frame, frame_long,
}

-- The length of the message `m` and the first `j` bytes of it.
abbrev pub begun : Str → ℕ → Str
begun m j = htonl_bytes (length m) ++ take j m

extract-begun :
    (m out : Str) (j : ℕ)
    → Fits m
    → j < length m
    → let t : Transport = record { recv_buf = begun m j; buffered = out } in
      (extract t ≡ t) × (4 ≤ length t.recv_buf)
unfolding extract htonl_bytes
extract-begun m out j h l =
    let t : Transport = record { recv_buf = begun m j; buffered = out } in
    let e = frame_end_lem t (length m) (ntohl-htonl (length m) (take j m) (omega arith)) h in
    (
      rw (
        e,
        lt→leb (suc (suc (suc (suc (length m))))) (length t.recv_buf)
            (omega (arith, length-take j m)),
      ),
      omega arith,
    )

extract_all-begun :
    (m out : Str) (j : ℕ)
    → Fits m
    → j < length m
    → (f : ℕ) → extract_all f (record { recv_buf = begun m j; buffered = out }) ≡ none
unfolding extract_all
extract_all-begun m out j h l zero = refl
extract_all-begun m out j h l (suc f) =
    let (same, long) = extract-begun m out j h l in
    rw (le→leb 4 (length (begun m j)) long, same, extract_all-begun m out j h l f)

extract_all_stalls :
    (ms : List Str) (m out : Str) (j : ℕ)
    → All Fits ms
    → Fits m
    → j < length m
    → (f : ℕ)
    → extract_all f (record { recv_buf = write_all ms ++ begun m j; buffered = out }) ≡ none
unfolding extract_all
extract_all_stalls ms m out j a h l zero = refl
extract_all_stalls [] m out j a h l (suc f) = extract_all-begun m out j h l (suc f)
extract_all_stalls (n ∷ ms) m out j a h l (suc f) = rw (
  append_assoc (write_virt n) (write_all ms) (begun m j),
  le→leb 4 (length (write_virt n ++ (write_all ms ++ begun m j)))
      (frame_long n (write_all ms ++ begun m j)),
  extract_frame n (write_all ms ++ begun m j) out a.0,
  extract_all_stalls ms m (out ++ n) j a.1 h l f,
)

-- If a chunk ends inside a frame, after the frame's length and before its last byte, read_more never
-- ends: no number of rounds is enough, whatever whole frames come first.
pub read_more_stalls :
    (ms : List Str) (m out : Str) (j f : ℕ)
    → All Fits ms
    → Fits m
    → j < length m
    → read_more f (write_all ms ++ begun m j) (record { recv_buf = []; buffered = out }) ≡ none
unfolding read_more
read_more_stalls ms m out j f a h l = extract_all_stalls ms m out j a h l f
