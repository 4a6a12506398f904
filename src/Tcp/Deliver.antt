-- ===== src/Tcp/Deliver.antt =====
-- What the loop of tcp_data_from_tap() gathers: the stream's next bytes, in order.
use mathlib.Core.Path.{ap₂}
use mathlib.Core.List.{map-append}
use passt.Base.{
  ℕ, ◌+◌, ◌-◌, ◌%◌, ◌^◌, ◌≤◌, ◌<◌, ◌≡◌, ◌⊎◌, inl, inr, sym, subst, ap, ◌∙◌, arith, true, false,
  some, List, [], ◌∷◌, ◌++◌, map, length, length-append, length-map, drop, ◌==◌, ◌&&◌, ==_iff,
  sub_u32, add_u32, sub_size, Bool-cases,
}
use passt.Iov.{Iovec, Memory, iov_drop_header, iov_tail_clone}
use passt.Iov.Bytes.{addrs, tail_addrs}
use passt.Iov.Tail.{iov_drop_header_lem, iov_tail_clone_lem}
use passt.Iov.Clone.{addrs-append, length-iov_tail_clone}
use passt.Tcp.{max_window, seq_ge, seq_le, seq_lt}
use passt.Tcp.Gather.{uio_maxiov, Segment, Batch, Fate, discard, later, use_now, fate}
use passt.Tcp.Stream.{stream_from, append-stream, drop-stream, drop-map, length-stream, Carries}

-- What becomes of a segment at the position `pos` when `p` is next.
pub data FateOf (s : Segment) (pos p : ℕ) : Fate → Type 0 where
  is_old : (s.len ≡ 0) ⊎ (pos + s.len ≤ p) → FateOf s pos p discard
  is_ahead : p < pos → FateOf s pos p later
  is_next : pos ≤ p → p < pos + s.len → FateOf s pos p use_now

-- The tests of the loop, on positions within one window.
module _ (lo pos p len : ℕ) (l : lo ≤ pos) (l' : lo ≤ p) (h : pos + len < lo + max_window)
    (h' : p < lo + max_window) where
  old_lem :
      (q s : ℕ)
      → q ≡ p % 2 ^ 32
      → s ≡ pos % 2 ^ 32
      → (seq_ge q s && seq_le ((s + len) % 2 ^ 32) q) ≡ true
      → pos + len ≤ p
  old_lem q s eq es e = ground arith

  pub ahead_lem : (q s : ℕ) → q ≡ p % 2 ^ 32 → s ≡ pos % 2 ^ 32 → seq_lt q s ≡ true → p < pos
  ahead_lem q s eq es e = ground arith

  next_lem :
      (q s : ℕ)
      → q ≡ p % 2 ^ 32
      → s ≡ pos % 2 ^ 32
      → (seq_ge q s && seq_le ((s + len) % 2 ^ 32) q) ≡ false
      → seq_lt q s ≡ false
      → (pos ≤ p) × (p < pos + len)
  next_lem q s eq es e e' = let below : pos ≤ p = ground arith in (below, ground arith)

pub fate-FateOf :
    (s : Segment) (b : Batch) (lo pos p : ℕ)
    → s.seq ≡ pos % 2 ^ 32
    → b.seq_from_tap ≡ p % 2 ^ 32
    → lo ≤ pos
    → lo ≤ p
    → pos + s.len < lo + max_window
    → p < lo + max_window
    → FateOf s pos p (fate s b)
unfolding fate
fate-FateOf s b lo pos p es eb l l' h h' = elim (Bool-cases (s.len == 0)) [
  | inl z ↦ rw (z, fate) (is_old (inl ((==_iff s.len 0).0 z)))
  | inr nz ↦
      elim (Bool-cases
        (seq_ge b.seq_from_tap s.seq && seq_le ((s.seq + s.len) % 2 ^ 32) b.seq_from_tap)) [
          | inl old ↦
              rw (nz, old, fate)
                (is_old (inr (old_lem lo pos p s.len l l' h h' b.seq_from_tap s.seq eb es old)))
          | inr new ↦ elim (Bool-cases (seq_lt b.seq_from_tap s.seq)) [
            | inl ahead ↦
                rw (nz, new, ahead, fate)
                  (is_ahead (ahead_lem lo pos p s.len l l' h h' b.seq_from_tap s.seq eb es ahead))
            | inr next ↦
                let (a, z) =
                  next_lem lo pos p s.len l l' h h' b.seq_from_tap s.seq eb es new next in
                rw (nz, new, next, fate) (is_next a z)
          ]
        ]
]

pub offset_lem :
    (lo pos p : ℕ)
    → lo ≤ pos
    → pos ≤ p
    → p < lo + max_window
    → sub_u32 (p % 2 ^ 32) (pos % 2 ^ 32) ≡ p - pos
offset_lem lo pos p l k h = ground arith

module _ (m : Memory) (f : ℕ → ℕ) (lo pos0 : ℕ) where
  -- The first `n` bytes of the stream from `pos0` on are gathered.
  pub record HasBytes (b : Batch) (n : ℕ) : Type 0 where
    pub next : b.seq_from_tap ≡ (pos0 + n) % 2 ^ 32
    pub low : lo ≤ pos0
    pub high : pos0 + n < lo + max_window
    pub bytes : map m (addrs b.iov) ≡ stream_from f pos0 n
    pub room : length b.iov ≤ uio_maxiov

  pub HasBytes-eq :
      (b b' : Batch) (n : ℕ)
      → b'.seq_from_tap ≡ b.seq_from_tap
      → b'.iov ≡ b.iov
      → HasBytes b n
      → HasBytes b' n
  HasBytes-eq b b' n e e' h = record {
    next = e ∙ h.next;
    low = h.low;
    high = h.high;
    bytes = ap (λ l. map m (addrs l)) e' ∙ h.bytes;
    room = subst (λ l. length l ≤ uio_maxiov) (sym e') h.room;
  }

  -- The bytes of a segment past the position `p`.
  rest_bytes :
      (s : Segment) (pos : ℕ) (c : Carries m f lo pos s) (p : ℕ)
      → pos ≤ p
      → p < pos + s.len
      → map m (tail_addrs (iov_drop_header s.payload (p - pos)).1)
        ≡ stream_from f p (pos + s.len - p)
  rest_bytes s pos c p l h =
      let in_range = c.in_range in
      ap (map m) (iov_drop_header_lem s.payload (p - pos) (omega arith)).0
      ∙ sym (drop-map m (p - pos) (tail_addrs s.payload))
      ∙ ap (drop (p - pos)) c.bytes
      ∙ drop-stream f (p - pos) pos s.len
      ∙ ap₂ (stream_from f) {x = pos + (p - pos)} {y = p} (omega arith) (omega arith)

  nonempty : (dst : List Iovec) (n : ℕ) → 0 < n → length (addrs dst) ≡ n → 0 < length dst
  nonempty [] n l e = absurd (omega arith)
  nonempty (v ∷ vs) n l e = omega arith

  -- The next segment's data, cloned to the end of what is gathered.
  pub cloned-HasBytes :
      (s : Segment) (b : Batch) (n : ℕ) (pos : ℕ) (c : Carries m f lo pos s) (dst : List Iovec)
      → pos ≤ pos0 + n
      → pos0 + n < pos + s.len
      → HasBytes b n
      → iov_tail_clone (uio_maxiov - length b.iov) (iov_drop_header s.payload (pos0 + n - pos)).1
        ≡ some dst
      → HasBytes
          (record b {
            seq_from_tap = add_u32 b.seq_from_tap (sub_size s.len (pos0 + n - pos));
            iov = b.iov ++ dst;
          })
          (pos + s.len - pos0)
        × (length b.iov < length (b.iov ++ dst))
  cloned-HasBytes s b n pos c dst l h hb e =
      let k = pos + s.len - (pos0 + n) in
      let rest = (iov_drop_header s.payload (pos0 + n - pos)).1 in
      let same : addrs dst ≡ tail_addrs rest =
        (iov_tail_clone_lem (uio_maxiov - length b.iov) rest).1 dst e in
      let new : map m (addrs dst) ≡ stream_from f (pos0 + n) k =
        ap (map m) same ∙ rest_bytes s pos c (pos0 + n) l h in
      let fits = length-iov_tail_clone (uio_maxiov - length b.iov) rest dst e in
      let count : length (addrs dst) ≡ k =
        sym (length-map m (addrs dst)) ∙ ap (λ x. length x) new ∙ length-stream f (pos0 + n) k in
      let some_new = nonempty dst k (omega arith) count in
      (
        record {
          next = omega (arith, hb.next, c.high, hb.high);
          low = hb.low;
          high = omega (arith, c.high, hb.high);
          bytes =
              ap (map m) (addrs-append b.iov dst)
              ∙ map-append m (addrs b.iov) (addrs dst)
              ∙ ap₂ (λ x y. x ++ y) hb.bytes new
              ∙ append-stream f pos0 n k
              ∙ ap (stream_from f pos0) {x = n + k} {y = pos + s.len - pos0} (omega arith);
          room = omega (arith, length-append b.iov dst, fits, hb.room);
        },
        omega (arith, length-append b.iov dst, some_new),
      )
