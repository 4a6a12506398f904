-- ===== src/Tcp/Segment.antt =====
-- How tcp_data_from_tap() reads a segment from a packet of its pool.
use passt.Base.{
  ℕ, ◌+◌, ◌-◌, ◌*◌, ◌^◌, ◌≤◌, ◌<◌, ◌≡◌, ◌⊎◌, ◌%◌, inl, inr, refl, sym, ap, ◌∙◌, arith, Bool, true,
  false, ◌||◌, ltb, if◌then◌else◌, Option, none, some, List, map, take, length, length-drop, drop,
  Run, done, aborted, Bool-cases,
}
use passt.Iov.{IovTail, Memory, load, iov_tail_size, iov_tail_prune, iov_drop_header}
use passt.Iov.Bytes.{addrs, tail_addrs}
use passt.Iov.Tail.{iov_tail_size_lem, iov_tail_prune_lem, iov_drop_header_lem}
use passt.Iov.Copy.{NoNull}
use passt.Iov.Header.{iov_peek_header}
use passt.Iov.Header.Peek.{Peeked, found, short, pruned_off, iov_peek_header-Peeked}
use passt.Packet.{Pool, packet_get_do}
use passt.Tcp.Gather.{Segment}

-- The fields of `struct tcphdr` that the code reads, in host order.
pub record Tcphdr : Type 0 where
  pub doff : ℕ
  pub rst : Bool
  pub fin : Bool
  pub ack : Bool
  pub seq : ℕ
  pub ack_seq : ℕ
  pub window : ℕ

-- sizeof(struct tcphdr)
abbrev pub sizeof_tcphdr : ℕ
sizeof_tcphdr = 20

-- A segment with the header `th`, of the bytes in the tail: `none` for a bad data offset.
unfoldable pub segment_of : Tcphdr → IovTail → Option Segment
segment_of th tail =
    let (len, t) = iov_tail_size tail in
    let off = th.doff * 4 in
    if ltb off sizeof_tcphdr || ltb len off
    then none
    else some (record {
      rst = th.rst;
      fin = th.fin;
      ack = th.ack;
      seq = th.seq;
      ack_seq = th.ack_seq;
      window = th.window;
      payload = (iov_drop_header t off).1;
      len = len - off;
    })

-- The start of a round of the loop, up to the drop of the header, for a tail of the packet's bytes.
-- The layout of the header is that of libc's `struct tcphdr`; its copy goes to `storage`.
module _ (tcphdr : List ℕ → Tcphdr) (constant_p : Bool) (m : Memory) (storage align : ℕ) where
  unfoldable pub read_segment : IovTail → Run (Option Segment)
  read_segment tail = elim (iov_peek_header constant_p m tail storage sizeof_tcphdr align) [
    | aborted ↦ aborted
    | done (none, m', t) ↦ done none
    | done (some th, m', t) ↦ done (segment_of (tcphdr (load m' th sizeof_tcphdr)) t)
  ]

  unfoldable pub tcp_segment : Pool → ℕ → Run (Option Segment)
  tcp_segment p i = elim (packet_get_do p i) [
    | aborted ↦ aborted
    | done none ↦ done none
    | done (some tail) ↦ read_segment tail
  ]

-- The segment has the flags and numbers of the header.
pub record HasHeader (th : Tcphdr) (s : Segment) : Type 0 where
  pub rst : s.rst ≡ th.rst
  pub fin : s.fin ≡ th.fin
  pub ack : s.ack ≡ th.ack
  pub seq : s.seq ≡ th.seq
  pub ack_seq : s.ack_seq ≡ th.ack_seq
  pub window : s.window ≡ th.window

-- What is read of a header and the bytes that it starts.
pub data ReadOf (th : Tcphdr) (bytes : List ℕ) : Option Segment → Type 0 where
  bad_offset : (th.doff * 4 < sizeof_tcphdr) ⊎ (length bytes < th.doff * 4) → ReadOf th bytes none
  segment :
      (s : Segment)
      → HasHeader th s
      → sizeof_tcphdr ≤ th.doff * 4
      → th.doff * 4 ≤ length bytes
      → tail_addrs s.payload ≡ drop (th.doff * 4) bytes
      → s.len ≡ length (tail_addrs s.payload)
      → s.payload.off + s.len < 2 ^ 64
      → ReadOf th bytes (some s)

off_test :
    (off len : ℕ)
    → (ltb off sizeof_tcphdr || ltb len off) ≡ true
    → (off < sizeof_tcphdr) ⊎ (len < off)
off_test off len e = ground arith

off_fits :
    (off len : ℕ)
    → (ltb off sizeof_tcphdr || ltb len off) ≡ false
    → (sizeof_tcphdr ≤ off) × (off ≤ len)
off_fits off len e = ground arith

iov_drop_header-off :
    (t : IovTail) (n : ℕ) → t.off + n < 2 ^ 64 → (iov_drop_header t n).1.off ≤ t.off + n
unfolding iov_drop_header
iov_drop_header-off t n l =
    let wrap : (t.off + n) % 2 ^ 64 ≡ t.off + n = omega arith in
    rw wrap (pruned_off (record t { off = t.off + n }))

segment_of-ReadOf :
    (th : Tcphdr) (t : IovTail) (bytes : List ℕ)
    → tail_addrs t ≡ bytes
    → 0 < length bytes
    → t.off + length bytes < 2 ^ 64
    → ReadOf th bytes (segment_of th t)
unfolding segment_of iov_tail_size
segment_of-ReadOf th t bytes same some_bytes l =
    let n = length-drop t.off (addrs t.iov) in
    let count : length (tail_addrs t) ≡ length bytes = ap (λ x. length x) same in
    let size : (iov_tail_size t).0 ≡ length bytes =
      iov_tail_size_lem t (omega (arith, n, count)) (omega (arith, n, count)) ∙ count in
    let t1 = (iov_tail_prune t).1 in
    let off = th.doff * 4 in
    let below = pruned_off t in
    elim (Bool-cases (ltb off sizeof_tcphdr || ltb (length bytes) off)) [
      | inl e ↦ rw (size, e) (bad_offset (off_test off (length bytes) e))
      | inr e ↦
          let (low, fits) = off_fits off (length bytes) e in
          let no_wrap : t1.off + off < 2 ^ 64 = omega (arith, below, fits, l) in
          let rest : tail_addrs (iov_drop_header t1 off).1 ≡ drop off bytes =
            (iov_drop_header_lem t1 off no_wrap).0
            ∙ ap (drop off) ((iov_tail_prune_lem t).0 ∙ same) in
          let whole : length bytes - off ≡ length (tail_addrs (iov_drop_header t1 off).1) =
            sym (ap (λ x. length x) rest ∙ length-drop off bytes) in
          rw (size, e)
            (segment _
              (record {
                rst = refl;
                fin = refl;
                ack = refl;
                seq = refl;
                ack_seq = refl;
                window = refl;
              })
              low fits rest whole
              (omega (arith, iov_drop_header-off t1 off no_wrap, below, fits, l)))
    ]

module _ (tcphdr : List ℕ → Tcphdr) (constant_p : Bool) (m : Memory) (storage align : ℕ) where
  -- What is read of a packet: nothing if it has no header, or what its header says.
  pub data SegmentRead (tail : IovTail) : Option Segment → Type 0 where
    no_header : length (tail_addrs tail) < sizeof_tcphdr → SegmentRead tail none
    with_header :
        (o : Option Segment)
        → sizeof_tcphdr ≤ length (tail_addrs tail)
        → ReadOf (tcphdr (map m (take sizeof_tcphdr (tail_addrs tail)))) (tail_addrs tail) o
        → SegmentRead tail o

  read-SegmentRead :
      (tail : IovTail) (r : Option ℕ × Memory × IovTail)
      → tail.off + length (tail_addrs tail) < 2 ^ 64
      → iov_peek_header constant_p m tail storage sizeof_tcphdr align ≡ done r
      → Peeked m tail sizeof_tcphdr r
      → (o : Option Segment) × (read_segment tcphdr constant_p m storage align tail ≡ done o)
        × SegmentRead tail o
  unfolding read_segment
  read-SegmentRead tail _ l e (found p m' t same below fits reads) = (
    segment_of (tcphdr (load m' p sizeof_tcphdr)) t,
    rw (e, read_segment) refl,
    with_header _ (omega arith)
        (rw reads (segment_of-ReadOf _ t (tail_addrs tail) same (omega arith) (omega arith))),
  )
  read-SegmentRead tail _ l e (short m' t same small) =
      (none, rw (e, read_segment) refl, no_header small)

  -- Of a packet without null addresses and of less than 2^64 bytes, what tcp_data_from_tap() reads passes
  -- all assertions: without a whole header, or with a data offset below the header or past the end,
  -- it is an error; else the flags and numbers are those of the header, which is the packet's first bytes,
  -- the data are those from the data offset on, and the length is theirs.
  pub read_segment-SegmentRead :
      (tail : IovTail)
      → NoNull tail.iov
      → tail.off + length (tail_addrs tail) < 2 ^ 64
      → (o : Option Segment) × (read_segment tcphdr constant_p m storage align tail ≡ done o)
        × SegmentRead tail o
  read_segment-SegmentRead tail nn l =
      let (r, e, p) =
        iov_peek_header-Peeked constant_p m tail storage sizeof_tcphdr align nn (omega arith) in
      read-SegmentRead tail r l e p
