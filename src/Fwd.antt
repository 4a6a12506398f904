-- ===== src/Fwd.antt =====
-- fwd.c: how a flow's addresses and ports on the initiating side become those of the target side.
pub mod Rule
pub mod Sides
pub mod Nat
pub mod Roundtrip
mod Tests
use passt.Base.{
  ℕ, ◌+◌, ◌-◌, ◌%◌, ◌^◌, Bool, true, false, not, ◌&&◌, ◌||◌, Option, none, some, ◌==◌,
  if◌then◌else◌,
}
use passt.Inany.{
  InanyAddr, inany_v4, inany_from_v4, inany_equals4, inany_equals6, inany_equals, inany_any4,
  inany_any6, inany_loopback4, inany_loopback6, inany_is_loopback, inany_is_loopback6,
  inany_is_unspecified, inany_is_unspecified6, inany_is_linklocal6, inany_is_multicast,
  is_loopback4,
}
use passt.Flow.Types.{Flowside, pif_none, pif_host, pif_tap, pif_splice}

-- The addresses of `struct ip4_ctx` that forwarding uses, in network order; 0 is one that is not set.
pub record Ip4Ctx : Type 0 where
  pub addr : ℕ
  pub addr_seen : ℕ
  pub map_host_loopback : ℕ
  pub map_guest_addr : ℕ
  pub dns_match : ℕ
  pub our_tap_addr : ℕ
  pub dns_host : ℕ
  pub addr_out : ℕ

-- The addresses of `struct ip6_ctx` that forwarding uses.
pub record Ip6Ctx : Type 0 where
  pub addr : InanyAddr
  pub addr_seen : InanyAddr
  pub addr_ll_seen : InanyAddr
  pub map_host_loopback : InanyAddr
  pub map_guest_addr : InanyAddr
  pub dns_match : InanyAddr
  pub our_tap_ll : InanyAddr
  pub dns_host : InanyAddr
  pub addr_out : InanyAddr

-- The members of `struct ctx` that forwarding uses.
pub record Ctx : Type 0 where
  pub ip4 : Ip4Ctx
  pub ip6 : Ip6Ctx
  pub no_splice : Bool
  pub splice_only : Bool
  pub host_lo_to_ns_lo : Bool

-- `struct fwd_rule`; the 16 bytes of `ifname` are one number
pub record FwdRule : Type 0 where
  pub addr : InanyAddr
  pub taddr : InanyAddr
  pub ifname : ℕ
  pub first : ℕ
  pub last : ℕ
  pub to : ℕ
  pub proto : ℕ
  pub flags : ℕ

abbrev pub ipproto_tcp : ℕ
ipproto_tcp = 6

abbrev pub ipproto_udp : ℕ
ipproto_udp = 17

unfoldable pub is_dns_flow : ℕ → Flowside → Bool
is_dns_flow proto ini =
    (proto == ipproto_udp || proto == ipproto_tcp) && (ini.oport == 53 || ini.oport == 853)

unfoldable pub fwd_guest_accessible4 : Ctx → ℕ → Bool
fwd_guest_accessible4 c addr =
    if is_loopback4 addr
    then false
    else if addr == 0
    then false
    else if addr == c.ip4.addr || addr == c.ip4.addr_seen
    then false
    else true

unfoldable pub fwd_guest_accessible6 : Ctx → InanyAddr → Bool
unfolding inany_is_loopback6 inany_is_unspecified6 inany_equals
fwd_guest_accessible6 c addr =
    if inany_is_loopback6 addr
    then false
    else if inany_equals addr c.ip6.addr
    then false
    else if not (inany_is_unspecified6 c.ip6.addr_seen) && inany_equals addr c.ip6.addr_seen
    then false
    else true

unfoldable pub fwd_guest_accessible : Ctx → InanyAddr → Bool
unfolding inany_v4 fwd_guest_accessible4 fwd_guest_accessible6
fwd_guest_accessible c addr = elim (inany_v4 addr) [
  | some a4 ↦ fwd_guest_accessible4 c a4
  | none ↦ fwd_guest_accessible6 c addr
]

-- nat_outbound(): the translated address
unfoldable pub nat_outbound : Ctx → InanyAddr → InanyAddr
unfolding inany_equals4 inany_equals6 inany_from_v4
nat_outbound c addr =
    if inany_equals4 addr c.ip4.map_host_loopback
    then inany_loopback4
    else if inany_equals6 addr c.ip6.map_host_loopback
    then inany_loopback6
    else if inany_equals4 addr c.ip4.map_guest_addr
    then inany_from_v4 c.ip4.addr
    else if inany_equals6 addr c.ip6.map_guest_addr
    then c.ip6.addr
    else addr

-- the port on the target side that the kernel picks (0), but for UDP
abbrev pub picked_port : ℕ → Flowside → ℕ
picked_port proto ini = if proto == ipproto_udp then ini.eport else 0

-- `rule->to + (ini->oport - rule->first)`, as a port
abbrev pub rule_port : FwdRule → Flowside → ℕ
rule_port rule ini = (rule.to + (ini.oport + 2 ^ 16 - rule.first)) % 2 ^ 16

-- the endpoint of a flow from the guest: a DNS server, or a translated address
unfoldable pub tap_eaddr : Ctx → ℕ → Flowside → InanyAddr
unfolding is_dns_flow inany_equals4 inany_equals6 inany_from_v4 nat_outbound
tap_eaddr c proto ini =
    if is_dns_flow proto ini && inany_equals4 ini.oaddr c.ip4.dns_match
    then inany_from_v4 c.ip4.dns_host
    else if is_dns_flow proto ini && inany_equals6 ini.oaddr c.ip6.dns_match
    then c.ip6.dns_host
    else nat_outbound c ini.oaddr

-- fwd_nat_from_tap(): the target interface and side
unfoldable pub fwd_nat_from_tap : Ctx → ℕ → Flowside → Flowside → ℕ × Flowside
unfolding tap_eaddr inany_v4 inany_from_v4
fwd_nat_from_tap c proto ini tgt =
    let eaddr = tap_eaddr c proto ini in
    (
      pif_host,
      record {
        eaddr = eaddr;
        eport = ini.oport;
        oaddr = elim (inany_v4 eaddr) [
          | some a4 ↦ inany_from_v4 c.ip4.addr_out
          | none ↦ c.ip6.addr_out
        ];
        oport = picked_port proto ini;
      },
    )

-- fwd_nat_from_splice()
unfoldable pub fwd_nat_from_splice : FwdRule → ℕ → Flowside → Flowside → ℕ × Flowside
fwd_nat_from_splice rule proto ini tgt =
    if not (inany_is_loopback ini.eaddr) || not (inany_is_loopback ini.oaddr)
    then (pif_none, tgt)
    else (
      pif_host,
      record {
        oaddr = ini.eaddr;
        eaddr = ini.oaddr;
        oport = picked_port proto ini;
        eport = rule_port rule ini;
      },
    )

-- nat_inbound(): `none` is an address that it cannot translate
unfoldable pub nat_inbound : Ctx → InanyAddr → Option InanyAddr
unfolding inany_equals4 inany_equals6 inany_from_v4 inany_is_unspecified6 fwd_guest_accessible
nat_inbound c addr =
    if not (c.ip4.map_host_loopback == 0) && inany_equals4 addr inany_loopback4.u32_3
    then some (inany_from_v4 c.ip4.map_host_loopback)
    else if not (inany_is_unspecified6 c.ip6.map_host_loopback)
        && inany_equals6 addr inany_loopback6
    then some c.ip6.map_host_loopback
    else if not (c.ip4.map_guest_addr == 0) && inany_equals4 addr c.ip4.addr
    then some (inany_from_v4 c.ip4.map_guest_addr)
    else if not (inany_is_unspecified6 c.ip6.map_guest_addr) && inany_equals6 addr c.ip6.addr
    then some c.ip6.map_guest_addr
    else if fwd_guest_accessible c addr
    then some addr
    else none

unfoldable pub fwd_default_guest_addr : Ctx → InanyAddr → InanyAddr
unfolding inany_v4 inany_from_v4 inany_is_linklocal6
fwd_default_guest_addr c template = elim (inany_v4 template) [
  | some a4 ↦ inany_from_v4 c.ip4.addr_seen
  | none ↦ if inany_is_linklocal6 template then c.ip6.addr_ll_seen else c.ip6.addr_seen
]

-- the endpoint of a flow from the host, before the guest's address is filled in
unfoldable pub host_eaddr : Ctx → FwdRule → Flowside → Flowside → InanyAddr
unfolding inany_is_unspecified inany_is_multicast inany_is_loopback
host_eaddr c rule ini tgt =
    if not (inany_is_unspecified rule.taddr)
    then rule.taddr
    else if inany_is_multicast ini.oaddr || c.host_lo_to_ns_lo && inany_is_loopback ini.oaddr
    then ini.oaddr
    else tgt.eaddr

-- `spliceable`
unfoldable pub is_spliceable : Ctx → FwdRule → ℕ → Flowside → Bool
unfolding inany_is_unspecified inany_is_loopback
is_spliceable c rule proto ini =
    not c.no_splice
    && inany_is_unspecified rule.taddr
    && inany_is_loopback ini.eaddr
    && (proto == ipproto_tcp || proto == ipproto_udp)

-- the guest's address as the endpoint, if it is otherwise unspecified
unfoldable pub fill_eaddr : Ctx → InanyAddr → InanyAddr → InanyAddr
unfolding inany_is_unspecified fwd_default_guest_addr
fill_eaddr c eaddr oaddr =
    if inany_is_unspecified eaddr then fwd_default_guest_addr c oaddr else eaddr

-- our address towards the guest, for an initiator that cannot be translated
unfoldable pub our_addr : Ctx → InanyAddr → Option InanyAddr
our_addr c eaddr = elim (inany_v4 eaddr) [
  | some a4 ↦ if c.ip4.our_tap_addr == 0 then none else some (inany_from_v4 c.ip4.our_tap_addr)
  | none ↦ some c.ip6.our_tap_ll
]

-- our address towards the guest
unfoldable pub host_oaddr : Ctx → InanyAddr → Option InanyAddr
host_oaddr c eaddr = elim (nat_inbound c eaddr) [ some a ↦ some a | none ↦ our_addr c eaddr ]

-- fwd_nat_from_host()
unfoldable pub fwd_nat_from_host : Ctx → FwdRule → ℕ → Flowside → Flowside → ℕ × Flowside
fwd_nat_from_host c rule proto ini tgt =
    let eport = rule_port rule ini in
    let eaddr = host_eaddr c rule ini tgt in
    let any : InanyAddr = elim (inany_v4 ini.eaddr) [ some a4 ↦ inany_any4 | none ↦ inany_any6 ] in
    if is_spliceable c rule proto ini
    then (
      pif_splice,
      record {
        oaddr = any;
        oport = picked_port proto ini;
        eaddr = fill_eaddr c eaddr any;
        eport = eport;
      },
    )
    else if c.splice_only
    then (pif_none, record tgt { eaddr = eaddr; eport = eport })
    else elim (host_oaddr c ini.eaddr) [
      | none ↦ (pif_none, record tgt { eaddr = eaddr; eport = eport })
      | some oaddr ↦ (
        pif_tap,
        record {
          oaddr = oaddr;
          oport = ini.eport;
          eaddr = fill_eaddr c eaddr oaddr;
          eport = eport;
        },
      )
    ]
