-- ===== src/Checksum.antt =====
-- checksum.c: Internet checksums, in the plain variant of csum_unfolded(). Words are as a
-- little-endian host reads them.
pub mod Fold
pub mod Sum
pub mod Tail
mod Tests
use passt.Base.{
  ℕ, zero, suc, ◌+◌, ◌-◌, ◌*◌, ◌/◌, ◌%◌, ◌^◌, min, Bool, true, false, Option, none, some, List, [],
  ◌∷◌, ◌++◌, map, length, take, drop, ltb, ◌==◌, if◌then◌else◌, add_u32, ntohs,
}
use passt.Iov.{Iovec, IovTail, Memory, load, iov_tail_prune}

-- The loop of sum_16b() over the bytes left; the last byte of an odd number is the low one of a word.
unfoldable pub sum_from : List ℕ → ℕ → ℕ
sum_from [] sum = sum
sum_from (a ∷ []) sum = add_u32 sum a
sum_from (a ∷ b ∷ bs) sum = sum_from bs (add_u32 sum (a + b * 2 ^ 8))

-- sum_16b()
unfoldable pub sum_16b : List ℕ → ℕ
sum_16b bs = sum_from bs 0

-- The loop of csum_fold(); `none` is out of fuel.
unfoldable pub fold_from : ℕ → ℕ → Option ℕ
fold_from zero sum = none
fold_from (suc fuel) sum =
    let rest = fold_from fuel (sum % 2 ^ 16 + sum / 2 ^ 16) in
    if sum / 2 ^ 16 == 0 then some sum else rest

-- csum_fold(): a `uint32_t` is folded after two rounds
unfoldable pub csum_fold : ℕ → Option ℕ
csum_fold sum = fold_from 3 sum

-- `~csum_fold()`, as 16 bits; 0 where it would not end
abbrev pub complement : Option ℕ → ℕ
complement none = 0
complement (some x) = 2 ^ 16 - 1 - x

-- csum_unfolded()
unfoldable pub csum_unfolded : List ℕ → ℕ → ℕ
csum_unfolded bs init = add_u32 (sum_16b bs) init

-- csum()
unfoldable pub csum : List ℕ → ℕ → ℕ
csum bs init = complement (csum_fold (csum_unfolded bs init))

-- The loop of csum_iov_tail() over the entries left, from an offset into the first.
unfoldable pub csum_entries : Memory → List Iovec → ℕ → ℕ → ℕ → ℕ
csum_entries m [] off init len = init
csum_entries m (v ∷ vs) off init len =
    let n = min len (v.iov_len - off) in
    let rest = csum_entries m vs 0 (csum_unfolded (load m (v.iov_base + off) n) init) (len - n) in
    if len == 0 then init else rest

-- The first entry of csum_iov_tail(), which is summed even if `len` is 0, and then the others.
unfoldable pub csum_first : Memory → List Iovec → ℕ → ℕ → ℕ → ℕ
csum_first m [] off init len = init
csum_first m (v ∷ vs) off init len =
    let n = min len (v.iov_len - off) in
    csum_entries m vs 0 (csum_unfolded (load m (v.iov_base + off) n) init) (len - n)

-- csum_iov_tail()
unfoldable pub csum_iov_tail : Memory → IovTail → ℕ → ℕ → ℕ
csum_iov_tail m tail init len =
    let (left, t) = iov_tail_prune tail in
    complement (csum_fold (if left then csum_first m t.iov t.off init len else init))

-- The halves of an `in_addr`
abbrev pub high16 : ℕ → ℕ
high16 a = a / 2 ^ 16 % 2 ^ 16

abbrev pub low16 : ℕ → ℕ
low16 a = a % 2 ^ 16

-- IP_DF, as the host stores it, and htons()
abbrev pub ip_df : ℕ
ip_df = 0x0040

abbrev pub htons : ℕ → ℕ
htons x = ntohs x

-- L2_BUF_IP4_PSUM
abbrev pub l2_buf_ip4_psum : ℕ → ℕ
l2_buf_ip4_psum proto = add_u32 (add_u32 0x0045 ip_df) (htons (0xff00 + proto))

-- csum_ip4_header(); an address is an `s_addr`
unfoldable pub csum_ip4_header : ℕ → ℕ → ℕ → ℕ → ℕ
csum_ip4_header l3len protocol saddr daddr =
    let sum = add_u32 (l2_buf_ip4_psum protocol) (htons l3len) in
    let sum = add_u32 sum (high16 saddr) in
    let sum = add_u32 sum (low16 saddr) in
    let sum = add_u32 sum (high16 daddr) in
    let sum = add_u32 sum (low16 daddr) in complement (csum_fold sum)

-- proto_ipv4_header_psum()
unfoldable pub proto_ipv4_header_psum : ℕ → ℕ → ℕ → ℕ → ℕ
proto_ipv4_header_psum l4len protocol saddr daddr =
    let psum = htons protocol in
    let psum = add_u32 psum (high16 saddr) in
    let psum = add_u32 psum (low16 saddr) in
    let psum = add_u32 psum (high16 daddr) in
    let psum = add_u32 psum (low16 daddr) in add_u32 psum (htons l4len)

-- proto_ipv6_header_psum(); an address is its 16 bytes
unfoldable pub proto_ipv6_header_psum : ℕ → ℕ → List ℕ → List ℕ → ℕ
proto_ipv6_header_psum payload_len protocol saddr daddr =
    let sum = add_u32 (htons protocol) (htons payload_len) in
    add_u32 (add_u32 sum (sum_16b saddr)) (sum_16b daddr)

-- `struct udphdr`, by its words as they are in memory
pub record Udphdr : Type 0 where
  pub source : ℕ
  pub dest : ℕ
  pub len : ℕ
  pub check : ℕ

-- `struct icmphdr` and `struct icmp6hdr`, by their words as they are in memory
pub record Icmphdr : Type 0 where
  pub type_code : ℕ
  pub checksum : ℕ
  pub data0 : ℕ
  pub data1 : ℕ

-- `struct iphdr` without options, by its words as they are in memory
pub record Iphdr : Type 0 where
  pub version_tos : ℕ
  pub tot_len : ℕ
  pub id : ℕ
  pub frag_off : ℕ
  pub ttl_protocol : ℕ
  pub check : ℕ
  pub saddr : ℕ
  pub daddr : ℕ

-- The bytes of words in memory.
abbrev pub word_bytes : List ℕ → List ℕ
word_bytes [] = []
word_bytes (w ∷ ws) = w % 2 ^ 8 ∷ w / 2 ^ 8 % 2 ^ 8 ∷ word_bytes ws

abbrev pub udphdr_bytes : Udphdr → List ℕ
udphdr_bytes h = word_bytes (h.source ∷ h.dest ∷ h.len ∷ h.check ∷ [])

abbrev pub icmphdr_bytes : Icmphdr → List ℕ
icmphdr_bytes h = word_bytes (h.type_code ∷ h.checksum ∷ h.data0 ∷ h.data1 ∷ [])

abbrev pub iphdr_bytes : Iphdr → List ℕ
iphdr_bytes h = word_bytes (
    h.version_tos
    ∷ h.tot_len
    ∷ h.id
    ∷ h.frag_off
    ∷ h.ttl_protocol
    ∷ h.check
    ∷ low16 h.saddr
    ∷ high16 h.saddr
    ∷ low16 h.daddr
    ∷ high16 h.daddr
    ∷ [])

-- L2_BUF_IP4_INIT
abbrev pub l2_buf_ip4_init : ℕ → Iphdr
l2_buf_ip4_init proto = record {
  version_tos = 0x0045;
  tot_len = 0;
  id = 0;
  frag_off = ip_df;
  ttl_protocol = 0xff + proto * 2 ^ 8;
  check = 0;
  saddr = 0;
  daddr = 0;
}

-- csum_udp4() of a payload that is the first `dlen` bytes of the tail; `real` is the build's
-- UDP4_REAL_CHECKSUMS
unfoldable pub csum_udp4 : Bool → Memory → Udphdr → ℕ → ℕ → IovTail → ℕ → Udphdr
csum_udp4 false m h saddr daddr tail dlen = record h { check = 0 }
csum_udp4 true m h saddr daddr tail dlen =
    let psum = proto_ipv4_header_psum ((8 + dlen) % 2 ^ 16) 17 saddr daddr in
    let psum = csum_unfolded (udphdr_bytes (record h { check = 0 })) psum in
    record h { check = csum_iov_tail m tail psum dlen }

-- csum_icmp4() of the payload's bytes
unfoldable pub csum_icmp4 : Icmphdr → List ℕ → Icmphdr
csum_icmp4 h payload = record h {
  checksum = csum payload (sum_16b (icmphdr_bytes (record h { checksum = 0 })));
}

-- csum_udp6() of a payload that is the first `dlen` bytes of the tail
unfoldable pub csum_udp6 : Memory → Udphdr → List ℕ → List ℕ → IovTail → ℕ → Udphdr
csum_udp6 m h saddr daddr tail dlen =
    let psum = proto_ipv6_header_psum ((dlen + 8) % 2 ^ 16) 17 saddr daddr in
    let psum = csum_unfolded (udphdr_bytes (record h { check = 0 })) psum in
    record h { check = csum_iov_tail m tail psum dlen }

-- csum_icmp6() of the payload's bytes
unfoldable pub csum_icmp6 : Icmphdr → List ℕ → List ℕ → List ℕ → Icmphdr
csum_icmp6 h saddr daddr payload =
    let psum = proto_ipv6_header_psum ((length payload + 8) % 2 ^ 16) 58 saddr daddr in
    let psum = add_u32 psum (sum_16b (icmphdr_bytes (record h { checksum = 0 }))) in
    record h { checksum = csum payload psum }
