-- ===== src/Iov/Header.antt =====
-- The headers at the front of a tail: iov_check_header(), iov_peek_header_(), iov_remove_header_()
-- and iov_push_header_(). The buffer for a copy does not overlap the vector.
pub mod Peek
pub mod Remove
pub mod Byte
use mathlib.Core.Path.{ap₂}
use passt.Base.{
  ℕ, zero, suc, ◌+◌, ◌-◌, ◌%◌, ◌^◌, ◌≤◌, ◌<◌, ◌≡◌, ◌≢◌, ◌⊎◌, ◌↔◌, inl, inr, refl, sym, ap, ◌∙◌,
  subst, arith, Bool, true, false, not, Option, none, some, List, [], ◌∷◌, map, ltb, ◌==◌,
  if◌then◌else◌, length, take, drop, update, update_self, update_ne, Run, done, aborted, add_size,
  Bool-cases, ltb→lt, not_ltb, ==_iff, length-drop, length-take, length-append, min, Option-cases,
}
use passt.Iov.{
  Iovec, IovTail, Memory, load, store, iov_tail_prune, iov_to_buf, iov_from_buf, first_base,
  iov_skip_bytes,
}
use passt.Iov.Bytes.{addrs, tail_addrs, range, take_all, drop-drop, length-range}
use passt.Iov.Skip.{InEntry, iov_skip_bytes-Skipped}
use passt.Iov.Tail.{IsPruned, iov_tail_prune_lem}
use passt.Iov.Store.{scatter, iov_from_buf_lem}
use passt.Iov.Copy.{length-load, NoNull, NoNull-drop, load-range, iov_to_buf_lem, first_entry}

abbrev pub first_len : List Iovec → ℕ
first_len [] = 0
first_len (v ∷ vs) = v.iov_len

-- iov_check_header() on a tail that has been pruned and has bytes left: the header's address
unfoldable pub header_in_first : IovTail → ℕ → ℕ → Option ℕ
header_in_first t len align =
    let end = add_size t.off len in
    let p = first_base t.iov + t.off in
    if ltb end t.off
    then none
    else if ltb (first_len t.iov) end
    then none
    else if p == 0
    then none
    else if p % align == 0
    then some p
    else none

-- iov_check_header()
unfoldable pub iov_check_header : IovTail → ℕ → ℕ → Option ℕ × IovTail
iov_check_header tail len align =
    let (left, t) = iov_tail_prune tail in (if left then header_in_first t len align else none, t)

-- The end of iov_peek_header_(): the header at `p`, or a copy of it at `v`.
unfoldable pub header_or_copy :
    Bool → Memory → IovTail → ℕ → ℕ → Option ℕ → Run (Option ℕ × Memory × IovTail)
header_or_copy constant_p m t v len (some p) = done (some p, m, t)
header_or_copy constant_p m t v len none = elim (iov_to_buf constant_p m t.iov t.off len) [
  | aborted ↦ aborted
  | done bytes ↦ done (if length bytes == len then some v else none, store m v bytes, t)
]

module _ (constant_p : Bool) (m : Memory) (tail : IovTail) (v len align : ℕ) where
  -- iov_peek_header_(): the header's address, `none` for NULL, the memory and the tail
  unfoldable pub iov_peek_header : Run (Option ℕ × Memory × IovTail)
  iov_peek_header =
      let (p, t) = iov_check_header tail len align in header_or_copy constant_p m t v len p

  -- iov_remove_header_()
  unfoldable pub iov_remove_header : Run (Option ℕ × Memory × IovTail)
  iov_remove_header = elim iov_peek_header [
    | aborted ↦ aborted
    | done (none, m', t) ↦ done (none, m', t)
    | done (some p, m', t) ↦ done (some p, m', record t { off = add_size t.off len })
  ]

module _ (constant_p : Bool) (m : Memory) (tail : IovTail) (v len : ℕ) where
  -- iov_push_header_(), of the `len` bytes at `v`: the count of bytes, the memory and the tail
  unfoldable pub iov_push_header : ℕ × Memory × IovTail
  iov_push_header =
      let (left, t) = iov_tail_prune tail in
      let (l, m') =
        if first_base t.iov + t.off == v
        then (len, m)
        else iov_from_buf constant_p m t.iov t.off (load m v len) in
      if left then (l, m', record t { off = add_size t.off l }) else (0, m, t)
