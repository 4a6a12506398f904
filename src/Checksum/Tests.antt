-- ===== src/Checksum/Tests.antt =====
-- Checksums of an IPv4 header, of a message and of a tail of two buffers.
use passt.Base.{◌-◌, ◌^◌, ◌≡◌, refl, arith, some, List, [], ◌∷◌, ◌++◌, map, take}
use passt.Iov.{Iovec, IovTail, Memory, iov_tail_prune, iov_skip_bytes, skip_from}
use passt.Iov.Bytes.{tail_addrs}
use passt.Checksum.{
  Icmphdr, iphdr_bytes, icmphdr_bytes, sum_16b, csum_fold, csum, csum_icmp4, csum_iov_tail,
}
use passt.Checksum.Sum.{words, ip4_header, csum_ip4_header-verifies, csum_icmp4-verifies}
use passt.Checksum.Tail.{csum_iov_tail_lem}

-- 10.0.2.15 to 10.0.2.2, a TCP segment of 20 bytes
csum_ip4_header-verifies_example :
    csum_fold (sum_16b (iphdr_bytes (ip4_header 40 6 0x0f02000a 0x0202000a))) ≡ some (2 ^ 16 - 1)
csum_ip4_header-verifies_example = csum_ip4_header-verifies 40 6 0x0f02000a 0x0202000a (omega arith)

abbrev echo : Icmphdr
echo = record { type_code = 8; checksum = 0x1234; data0 = 1; data1 = 2 }

csum_icmp4-verifies_example :
    csum_fold (words (icmphdr_bytes (csum_icmp4 echo (1 ∷ 2 ∷ 3 ∷ [])) ++ (1 ∷ 2 ∷ 3 ∷ [])))
    ≡ some (2 ^ 16 - 1)
csum_icmp4-verifies_example =
    csum_icmp4-verifies echo (1 ∷ 2 ∷ 3 ∷ []) (omega arith, (omega arith, (omega arith, tt)))
      (omega arith)

abbrev two : List Iovec
two = record { iov_base = 10; iov_len = 4 } ∷ record { iov_base = 20; iov_len = 3 } ∷ []

abbrev tail : IovTail
tail = record { iov = two; off = 2 }

abbrev memory : Memory
memory a = a

csum_iov_tail_lem_example :
    csum_iov_tail memory tail 0 5 ≡ csum (map memory (take 5 (tail_addrs tail))) 0
unfolding iov_tail_prune iov_skip_bytes skip_from
csum_iov_tail_lem_example = csum_iov_tail_lem memory tail 0 5 (refl, tt) (omega arith)
