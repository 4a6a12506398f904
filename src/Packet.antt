-- ===== src/Packet.antt =====
-- packet.c: pools of packets in a buffer, and the range check of vu_common.c for vhost-user memory.
pub mod Loop
pub mod Get
pub mod Roundtrip
mod Tests
use passt.Base.{
  ℕ, zero, suc, ◌+◌, ◌-◌, ◌%◌, ◌^◌, Bool, true, false, not, ◌&&◌, Option, none, some, List, [], ◌∷◌,
  ltb, leb, ◌==◌, if◌then◌else◌, length, update, Run, done, aborted,
}
use passt.Iov.{Iovec, IovTail, iov_tail_prune}

-- `struct vu_dev_region`, by the members that the check uses
pub record Region : Type 0 where
  pub size : ℕ
  pub mmap_offset : ℕ
  pub mmap_addr : ℕ

-- `struct pool`. In vhost-user mode `buf` points at a `struct vdev_memory`, which is `regions`.
pub record Pool : Type 0 where
  pub buf : ℕ
  pub buf_size : ℕ
  pub regions : List Region
  pub size : ℕ
  pub count : ℕ
  pub pkt : ℕ → Iovec

abbrev pub packet_max_len : ℕ
packet_max_len = 2 ^ 16 - 1

-- vu_packet_check_range(): `true` for the 0 of a range in a region
unfoldable pub vu_packet_check_range : List Region → ℕ → ℕ → Run Bool
vu_packet_check_range [] ptr len = done false
vu_packet_check_range (r ∷ rs) ptr len =
    let rest = vu_packet_check_range rs ptr len in
    let base = (r.mmap_addr + r.mmap_offset) % 2 ^ 64 in
    if ltb base r.mmap_addr
    then aborted
    else if leb len r.size && leb base ptr && leb (ptr - base) (r.size - len)
    then done true
    else rest

-- packet_check_range(): `true` for the 0 of a valid range
unfoldable pub packet_check_range : Pool → ℕ → ℕ → Run Bool
packet_check_range p ptr len =
    if p.buf == 0
    then aborted
    else if ltb packet_max_len len
    then done false
    else if p.buf_size == 0
    then vu_packet_check_range p.regions ptr len
    else if ltb ptr p.buf
    then done false
    else if ltb p.buf_size len
    then done false
    else if ltb (p.buf_size - len) (ptr - p.buf)
    then done false
    else done true

-- pool_can_fit(), and the tail as it prunes it
unfoldable pub pool_can_fit : Pool → IovTail → Bool × IovTail
pool_can_fit p tail =
    let d = (iov_tail_prune tail).1 in
    (leb (p.count + length d.iov + (if ltb 1 (length d.iov) then 1 else 0)) p.size, d)

-- The loop of packet_add_do() over the entries left: the next index, or `none` for the return where
-- a range is not valid.
unfoldable pub add_from : Pool → (ℕ → Iovec) → List Iovec → ℕ → ℕ → Run (Option ℕ × (ℕ → Iovec))
add_from p pkt [] idx offset = done (some idx, pkt)
add_from p pkt (v ∷ vs) idx offset =
    let len = v.iov_len - offset in
    let start = v.iov_base + offset in
    elim (packet_check_range p start len) [
      | aborted ↦ aborted
      | done false ↦ done (none, pkt)
      | done true ↦
          add_from p (update pkt idx (record { iov_base = start; iov_len = len })) vs (idx + 1) 0
    ]

-- The descriptor in front of a packet of several entries, and the index after it.
abbrev pub add_head : (ℕ → Iovec) → ℕ → ℕ → ℕ × (ℕ → Iovec)
add_head pkt idx cnt =
    if ltb 1 cnt
    then (idx + 1, update pkt idx (record { iov_base = 0; iov_len = cnt }))
    else (idx, pkt)

-- The end of packet_add_do(): the new count, but for a packet that is not valid.
abbrev pub added : Pool → Option ℕ × (ℕ → Iovec) → Pool
added p (none, pkt) = record p { pkt = pkt }
added p (some idx, pkt) = record p { pkt = pkt; count = idx }

-- packet_add_do(), without the tail as it is pruned
unfoldable pub packet_add_do : Pool → IovTail → Run Pool
packet_add_do p tail =
    let (fits, d) = pool_can_fit p tail in
    let (left, e) = iov_tail_prune d in
    let (idx, pkt) = add_head p.pkt p.count (length e.iov) in
    if not fits
    then done p
    else if not left
    then done p
    else elim (add_from p pkt e.iov idx e.off) [ aborted ↦ aborted | done r ↦ done (added p r) ]

-- `cnt` descriptors from `idx` on
unfoldable pub read_pkt : (ℕ → Iovec) → ℕ → ℕ → List Iovec
read_pkt pkt idx zero = []
read_pkt pkt idx (suc cnt) = pkt idx ∷ read_pkt pkt (idx + 1) cnt

-- The loop of packet_get_do(): an entry with a range that is not valid is a failed assertion.
unfoldable pub check_all : Pool → List Iovec → Run (Unit {0})
check_all p [] = done tt
check_all p (v ∷ vs) =
    let rest = check_all p vs in
    elim (packet_check_range p v.iov_base v.iov_len) [
      | aborted ↦ aborted
      | done false ↦ aborted
      | done true ↦ rest
    ]

-- packet_get_do(): `none` for an index past the last packet
unfoldable pub packet_get_do : Pool → ℕ → Run (Option IovTail)
packet_get_do p idx =
    let v = p.pkt idx in
    let iov = if v.iov_base == 0 then read_pkt p.pkt (idx + 1) v.iov_len else v ∷ [] in
    if ltb p.size p.count
    then aborted
    else if leb p.count idx
    then done none
    else elim (check_all p iov) [
      | aborted ↦ aborted
      | done u ↦ done (some (record { iov = iov; off = 0 }))
    ]

-- pool_flush()
abbrev pub pool_flush : Pool → Pool
pool_flush p = record p { count = 0 }
