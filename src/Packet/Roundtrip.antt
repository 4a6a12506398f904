-- ===== src/Packet/Roundtrip.antt =====
-- A packet that packet_add_do() adds is read back by packet_get_do().
use passt.Base.{
  ◌≡◌, ◌≤◌, ◌<◌, ℕ, ◌+◌, some, List, ltb, if◌then◌else◌, [], length, Run, done, aborted,
}
use passt.Iov.{Iovec, IovTail, iov_tail_prune}
use passt.Iov.Bytes.{tail_addrs}
use passt.Packet.{Pool, packet_get_do, check_all}
use passt.Packet.Loop.{trimmed, Outside}

-- The descriptors that a packet takes: one for each entry with bytes left, and one more for their count if
-- there are several.
abbrev pub descriptors : IovTail → ℕ
descriptors t = let n = length (iov_tail_prune t).1.iov in n + (if ltb 1 n then 1 else 0)

-- The entries that packet_add_do() stores.
abbrev pub entries : IovTail → List Iovec
entries t = trimmed (iov_tail_prune t).1.iov (iov_tail_prune t).1.off

-- Why a packet is not added.
pub data Refused (p : Pool) (t : IovTail) : Type 0 where
  full : p.size < p.count + descriptors t → Refused p t
  empty : entries t ≡ [] → Refused p t
  outside : Outside p (entries t) → Refused p t

-- Of a packet that packet_add_do() adds or does not add.
pub data PacketResult (p : Pool) (t : IovTail) : Run Pool → Type 0 where
  failed : p.buf ≡ 0 → PacketResult p t aborted
  refused :
      (p' : Pool)
      → Refused p t
      → p'.count ≡ p.count
      → ((k : ℕ) → k < p.count → p'.pkt k ≡ p.pkt k)
      → PacketResult p t (done p')
  stored :
      (p' : Pool) (t' : IovTail)
      → p'.count ≡ p.count + descriptors t
      → 0 < descriptors t
      → p'.count ≤ p.size
      → check_all p (entries t) ≡ done tt
      → ((k : ℕ) → k < p.count → p'.pkt k ≡ p.pkt k)
      → packet_get_do p' p.count ≡ done (some t')
      → tail_addrs t' ≡ tail_addrs t
      → PacketResult p t (done p')
