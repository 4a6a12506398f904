-- ===== src/Iov.antt =====
-- iov.c and iov.h: IO vectors and their tails.
pub mod Bytes
pub mod Skip
pub mod Tail
pub mod Copy
pub mod Store
pub mod Clone
pub mod Load
pub mod Header
mod Tests
use passt.Base.{
  ℕ, ◌+◌, ◌-◌, ◌%◌, min, Bool, true, false, not, ◌&&◌, Option, none, some, List, [], ◌∷◌, ◌++◌, map,
  ltb, leb, ◌==◌, if◌then◌else◌, length, take, drop, replicate, update, Run, done, aborted, ◌>>=◌,
  ◌>>◌, assert, add_size, sub_size,
}

-- `struct iovec`: an address and a length. An array of them is a list.
pub record Iovec : Type 0 where
  pub iov_base : ℕ
  pub iov_len : ℕ

-- `struct iov_tail`: `iov` and `cnt` are a list.
pub record IovTail : Type 0 where
  pub iov : List Iovec
  pub off : ℕ

-- The loop of iov_skip_bytes() from the entry `i` on: the index and the offset in its entry.
unfoldable pub skip_from : List Iovec → ℕ → ℕ → ℕ × ℕ
skip_from [] off i = (i, off)
skip_from (v ∷ vs) off i =
    if ltb off v.iov_len then (i, off) else skip_from vs (off - v.iov_len) (i + 1)

-- iov_skip_bytes()
unfoldable pub iov_skip_bytes : List Iovec → ℕ → ℕ × ℕ
unfolding skip_from
iov_skip_bytes iov skip = skip_from iov skip 0

-- iov_size(): `size_t` addition
size_from : List Iovec → ℕ → ℕ
size_from [] len = len
size_from (v ∷ vs) len = size_from vs (add_size len v.iov_len)

unfoldable pub iov_size : List Iovec → ℕ
unfolding size_from
iov_size iov = size_from iov 0

-- `iov[i].iov_len = len`, where there is such an entry
set_len : List Iovec → ℕ → ℕ → List Iovec
set_len [] i len = []
set_len (v ∷ vs) ℕ.zero len = record v { iov_len = len } ∷ vs
set_len (v ∷ vs) (ℕ.suc i) len = v ∷ set_len vs i len

-- iov_truncate(): the count of entries that still hold data, and the array
unfoldable pub iov_truncate : List Iovec → ℕ → ℕ × List Iovec
unfolding iov_skip_bytes set_len
iov_truncate iov size =
    let (i, offset) = iov_skip_bytes iov size in
    if ltb i (length iov)
    then (i + (if offset == 0 then 0 else 1), set_len iov i offset)
    else (i, iov)

-- iov_tail_prune(): whether bytes are left, and the tail
unfoldable pub iov_tail_prune : IovTail → Bool × IovTail
unfolding iov_skip_bytes
iov_tail_prune tail =
    let (i, off) = iov_skip_bytes tail.iov tail.off in
    let iov = drop i tail.iov in (not (length iov == 0), record { iov = iov; off = off })

-- iov_tail_size(): `size_t` subtraction
unfoldable pub iov_tail_size : IovTail → ℕ × IovTail
unfolding iov_tail_prune iov_size
iov_tail_size tail = let (left, t) = iov_tail_prune tail in (sub_size (iov_size t.iov) t.off, t)

-- iov_drop_header()
unfoldable pub iov_drop_header : IovTail → ℕ → Bool × IovTail
unfolding iov_tail_prune
iov_drop_header tail len = iov_tail_prune (record tail { off = add_size tail.off len })

-- The loop of iov_tail_clone() over the entries left, with room for `room` more: the new entries,
-- and whether entries are left at the end.
clone_from : List Iovec → ℕ → ℕ → List Iovec × Bool
clone_from [] offset room = ([], false)
clone_from (v ∷ vs) offset ℕ.zero = ([], true)
clone_from (v ∷ vs) offset (ℕ.suc room) =
    let (dst, left) = clone_from vs 0 room in
    (record { iov_base = v.iov_base + offset; iov_len = v.iov_len - offset } ∷ dst, left)

-- iov_tail_clone(): `none` is the -1 where the destination is too small
unfoldable pub iov_tail_clone : ℕ → IovTail → Option (List Iovec)
unfolding iov_skip_bytes clone_from
iov_tail_clone room tail =
    let (i, offset) = iov_skip_bytes tail.iov tail.off in
    let (dst, left) = clone_from (drop i tail.iov) offset room in if left then none else some dst

-- The loop of iov_tail_trim(): the entries kept, and the bytes still wanted.
unfoldable pub trim_from : List Iovec → ℕ → List Iovec × ℕ
trim_from [] left = ([], left)
trim_from (v ∷ vs) left =
    let len = min v.iov_len left in
    let (dst, left') = trim_from vs (left - len) in
    if left == 0 then ([], left) else (record v { iov_len = len } ∷ dst, left')

-- iov_tail_trim(): `none` is failure, where the tail stays as it is
unfoldable pub iov_tail_trim : IovTail → ℕ → ℕ → Option IovTail
iov_tail_trim tail len room = elim (iov_tail_clone room tail) [
  | none ↦ none
  | some scratch ↦
      let (dst, left) = trim_from scratch len in
      if left == 0 then some (record { iov = dst; off = 0 }) else none
]

-- Memory, by address; memcpy() from it and to it.
abbrev pub Memory : Type 0
Memory = ℕ → ℕ

unfoldable pub load : Memory → ℕ → ℕ → List ℕ
load m a ℕ.zero = []
load m a (ℕ.suc n) = m a ∷ load m (a + 1) n

unfoldable pub store : Memory → ℕ → List ℕ → Memory
store m a [] = m
store m a (b ∷ bs) = store (update m a b) (a + 1) bs

-- The loop of iov_to_buf() over the entries left: `out` is what has been copied. A null address is
-- a failed assertion.
unfoldable pub to_buf_from : Memory → List Iovec → ℕ → ℕ → List ℕ → Run (List ℕ)
to_buf_from m [] offset bytes out = done out
to_buf_from m (v ∷ vs) offset bytes out =
    let len = min (v.iov_len - offset) (bytes - length out) in
    let rest = to_buf_from m vs 0 bytes (out ++ load m (v.iov_base + offset) len) in
    if ltb (length out) bytes then (if v.iov_base == 0 then aborted else rest) else done out

-- `iov_cnt && offset <= iov[0].iov_len && bytes <= iov[0].iov_len - offset`
in_first : List Iovec → ℕ → ℕ → Bool
in_first [] offset bytes = false
in_first (v ∷ vs) offset bytes = leb offset v.iov_len && leb bytes (v.iov_len - offset)

unfoldable pub first_base : List Iovec → ℕ
first_base [] = 0
first_base (v ∷ vs) = v.iov_base

-- iov_to_buf(): the bytes copied. `constant_p` is what the compiler makes of
-- __builtin_constant_p(bytes).
unfoldable pub iov_to_buf : Bool → Memory → List Iovec → ℕ → ℕ → Run (List ℕ)
unfolding in_first first_base
iov_to_buf constant_p m iov offset bytes =
    if constant_p && in_first iov offset bytes
    then done (load m (first_base iov + offset) bytes)
    else let (i, off) = iov_skip_bytes iov offset in to_buf_from m (drop i iov) off bytes []

-- The loop of iov_from_buf() over the entries left: the count of bytes copied, and the memory.
unfoldable pub from_buf_from : Memory → List Iovec → ℕ → List ℕ → ℕ → ℕ × Memory
from_buf_from m [] offset buf copied = (copied, m)
from_buf_from m (v ∷ vs) offset buf copied =
    let len = min (v.iov_len - offset) (length buf - copied) in
    let rest =
      from_buf_from (store m (v.iov_base + offset) (take len (drop copied buf))) vs 0 buf
        (copied + len) in
    if ltb copied (length buf) then rest else (copied, m)

-- iov_from_buf(): `buf` is the list of the `bytes` bytes to copy
unfoldable pub iov_from_buf : Bool → Memory → List Iovec → ℕ → List ℕ → ℕ × Memory
unfolding in_first first_base
iov_from_buf constant_p m iov offset buf =
    if constant_p && in_first iov offset (length buf)
    then (length buf, store m (first_base iov + offset) buf)
    else let (i, off) = iov_skip_bytes iov offset in from_buf_from m (drop i iov) off buf 0

-- The loop of iov_memset() over the entries left.
unfoldable pub memset_from : Memory → List Iovec → ℕ → ℕ → ℕ → Memory
memset_from m [] offset c count = m
memset_from m (v ∷ vs) offset c count =
    let n = min (v.iov_len - offset) count in
    let rest =
      memset_from (store m (v.iov_base + offset) (replicate n (c % 256))) vs 0 c (count - n) in
    if count == 0 then m else rest

-- iov_memset()
unfoldable pub iov_memset : Memory → List Iovec → ℕ → ℕ → ℕ → Memory
iov_memset m iov offset c count =
    let (i, off) = iov_skip_bytes iov offset in memset_from m (drop i iov) off c count
