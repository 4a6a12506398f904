-- ===== src/Iov/Header/Remove.antt =====
-- iov_remove_header_() and iov_push_header_().
use mathlib.Core.Path.{ap₂}
use passt.Base.{
  ℕ, ◌+◌, ◌-◌, ◌%◌, ◌^◌, ◌≤◌, ◌<◌, ◌≡◌, ◌≢◌, refl, sym, ap, ◌∙◌, arith, Bool, true, false, Option,
  none, some, map, ◌==◌, length, take, drop, done, length-drop, min,
}
use passt.Iov.{IovTail, Memory, load, iov_tail_prune, iov_from_buf, first_base}
use passt.Iov.Bytes.{addrs, tail_addrs, drop-drop}
use passt.Iov.Tail.{iov_tail_prune_lem}
use passt.Iov.Store.{scatter, iov_from_buf_lem}
use passt.Iov.Copy.{length-load, NoNull}
use passt.Iov.Header.{iov_peek_header, iov_remove_header, iov_push_header}
use passt.Iov.Header.Peek.{Peeked, found, short, pruned_off, iov_peek_header-Peeked}

-- What iov_remove_header_() promises.
pub data Removed (m : Memory) (tail : IovTail) (len : ℕ)
    : Option ℕ × Memory × IovTail → Type 0 where
  removed :
      (p : ℕ) (m' : Memory) (t : IovTail)
      → len ≤ length (tail_addrs tail)
      → load m' p len ≡ map m (take len (tail_addrs tail))
      → tail_addrs t ≡ drop len (tail_addrs tail)
      → Removed m tail len (some p, m', t)
  too_short :
      (m' : Memory) (t : IovTail)
      → length (tail_addrs tail) < len
      → tail_addrs t ≡ tail_addrs tail
      → Removed m tail len (none, m', t)

remove-Removed :
    (constant_p : Bool) (m : Memory) (tail : IovTail) (v len align : ℕ)
    (r : Option ℕ × Memory × IovTail)
    → tail.off + len < 2 ^ 64
    → iov_peek_header constant_p m tail v len align ≡ done r
    → Peeked m tail len r
    → (r' : Option ℕ × Memory × IovTail) × (iov_remove_header constant_p m tail v len align
        ≡ done r')
      × Removed m tail len r'
unfolding iov_remove_header
remove-Removed constant_p m tail v len align _ l e (found p m' t same below fits reads) =
    let wrap : (t.off + len) % 2 ^ 64 ≡ t.off + len = omega (arith, below, l) in
    (
      (some p, m', record t { off = t.off + len }),
      rw (e, iov_remove_header, wrap) refl,
      removed p m' _ fits reads (sym (drop-drop len t.off (addrs t.iov)) ∙ ap (drop len) same),
    )
remove-Removed constant_p m tail v len align _ l e (short m' t same small) =
    ((none, m', t), rw (e, iov_remove_header) refl, too_short m' t small same)

-- Of a tail without null addresses and with an offset that does not overflow, iov_remove_header_() returns
-- an address at which the first `len` bytes of the tail can be read and drops them from the
-- tail, or, if the tail has fewer bytes, NULL with the tail's bytes as they were.
pub iov_remove_header-Removed :
    (constant_p : Bool) (m : Memory) (tail : IovTail) (v len align : ℕ)
    → NoNull tail.iov
    → tail.off + len < 2 ^ 64
    → (r : Option ℕ × Memory × IovTail) × (iov_remove_header constant_p m tail v len align ≡ done r)
      × Removed m tail len r
iov_remove_header-Removed constant_p m tail v len align nn l =
    let (r, e, p) = iov_peek_header-Peeked constant_p m tail v len align nn (omega arith) in
    remove-Removed constant_p m tail v len align r l e p

-- iov_push_header_() of bytes that are not in place already and fit into the tail stores them there, and
-- the tail goes on behind them.
pub iov_push_header_lem :
    (constant_p : Bool) (m : Memory) (tail : IovTail) (v len : ℕ)
    → tail.off + len < 2 ^ 64
    → 0 < len
    → len ≤ length (tail_addrs tail)
    → first_base (iov_tail_prune tail).1.iov + (iov_tail_prune tail).1.off ≢ v
    → (t : IovTail) × (iov_push_header constant_p m tail v len
        ≡ (len, scatter m (tail_addrs tail) (load m v len), t))
      × (tail_addrs t ≡ drop len (tail_addrs tail))
unfolding iov_push_header
iov_push_header_lem constant_p m tail v len l pos fits ne =
    let t = (iov_tail_prune tail).1 in
    let bs = load m v len in
    let (same, pruned, left_iff) = iov_tail_prune_lem tail in
    let left : (iov_tail_prune tail).0 ≡ true =
      left_iff.1 (omega (arith, fits, length-drop tail.off (addrs tail.iov))) in
    let other : (first_base t.iov + t.off == v) ≡ false = ground (arith, ne) in
    let n : length bs ≡ len = length-load m v len in
    let count : min (length bs) (length (addrs t.iov) - t.off) ≡ len =
      omega (arith, n, fits, ap (λ x. length x) same, length-drop t.off (addrs t.iov)) in
    let run : iov_from_buf constant_p m t.iov t.off bs ≡ (len, scatter m (tail_addrs tail) bs) =
      iov_from_buf_lem constant_p m t.iov t.off bs ∙ ap₂ (λ x y. (x, scatter m y bs)) count same in
    let wrap : (t.off + len) % 2 ^ 64 ≡ t.off + len = omega (arith, pruned_off tail, l) in
    (
      record t { off = t.off + len },
      simp (left, other, run, wrap) refl,
      sym (drop-drop len t.off (addrs t.iov)) ∙ ap (drop len) same,
    )
