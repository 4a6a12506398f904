-- ===== src/Fwd/Tests.antt =====
-- Forwarding for a guest at 10.0.2.15 that reaches the host as 10.0.2.2, and a table of one rule.
use passt.Base.{ℕ, ◌≡◌, inl, refl, true, false, none, some, [], ◌∷◌, done, arith}
use passt.Inany.{
  InanyAddr, inany_any6, inany_any4, inany_loopback4, inany_from_v4, inany_is_unspecified,
}
use passt.Flow.Types.{Flowside, zero_side}
use passt.Fwd.{Ctx, FwdRule, nat_inbound, nat_outbound, fwd_nat_from_splice}
use passt.Fwd.Roundtrip.{IsDistinct, IsUnmapped, nat_outbound-nat_inbound}
use passt.Fwd.Nat.{FromSplice, fwd_nat_from_splice-FromSplice}
use passt.Fwd.Rule.{FwdTable, fwd_rule_search, rule_applies, fwd_rule_add}
use passt.Fwd.Rule.Search.{fwd_rule_search-only}
use passt.Fwd.Rule.Conflicts.{IsRules}
use passt.Fwd.Rule.Add.{Added, fwd_rule_add-Added}

abbrev guest4 : ℕ
guest4 = 0x0f02000a

abbrev host4 : ℕ
host4 = 0x0202000a

abbrev guest6 : InanyAddr
guest6 = record { u32_0 = 0xfd; u32_1 = 0; u32_2 = 0; u32_3 = 0x0f000000 }

abbrev host6 : InanyAddr
host6 = record { u32_0 = 0xfd; u32_1 = 0; u32_2 = 0; u32_3 = 0x02000000 }

abbrev ctx : Ctx
ctx = record {
  ip4 = record {
    addr = guest4;
    addr_seen = guest4;
    map_host_loopback = host4;
    map_guest_addr = 0;
    dns_match = 0;
    our_tap_addr = host4;
    dns_host = 0;
    addr_out = 0;
  };
  ip6 = record {
    addr = guest6;
    addr_seen = guest6;
    addr_ll_seen = guest6;
    map_host_loopback = host6;
    map_guest_addr = inany_any6;
    dns_match = inany_any6;
    our_tap_ll = host6;
    dns_host = inany_any6;
    addr_out = inany_any6;
  };
  no_splice = true;
  splice_only = false;
  host_lo_to_ns_lo = false;
}

-- Ports 8000 to 8010 of all IPv4 addresses go to 80 to 90.
abbrev rule : FwdRule
rule = record {
  addr = inany_any4;
  taddr = inany_any6;
  ifname = 0;
  first = 8000;
  last = 8010;
  to = 80;
  proto = 6;
  flags = 0;
}

abbrev ini_side : Flowside
ini_side = record { eaddr = inany_loopback4; eport = 40000; oaddr = inany_loopback4; oport = 8001 }

abbrev empty_rules : FwdTable
empty_rules = record { caps = 15; rules = []; rulesocks = []; sock_count = 0; socks = λ i. none }

abbrev one_rule : FwdTable
one_rule = record {
  caps = 15;
  rules = rule ∷ [];
  rulesocks = 0 ∷ [];
  sock_count = 11;
  socks = λ i. none;
}

ctx-IsDistinct : IsDistinct ctx
unfolding passt.Inany.inany_v4 passt.Inany.inany_is_unspecified6 passt.Inany.inany_equals
ctx-IsDistinct = record { maps4 = inl refl; maps6 = inl refl; loopback6 = refl; guest6 = refl }

loopback_IsUnmapped : IsUnmapped ctx inany_loopback4
unfolding passt.Inany.inany_equals4 passt.Inany.inany_equals6 passt.Inany.inany_v4
    passt.Inany.inany_equals
loopback_IsUnmapped = record { host4 = refl; host6 = refl; guest4 = refl; guest6 = refl }

loopback_inbound : nat_inbound ctx inany_loopback4 ≡ some (inany_from_v4 host4)
unfolding nat_inbound passt.Inany.inany_equals4 passt.Inany.inany_v4
loopback_inbound = refl

oaddr_specified : inany_is_unspecified ini_side.oaddr ≡ false
unfolding inany_is_unspecified passt.Inany.inany_is_unspecified4 passt.Inany.inany_is_unspecified6
    passt.Inany.inany_v4 passt.Inany.inany_equals
oaddr_specified = refl

rule_is_for_flow : rule_applies rule ini_side 6 ≡ true
unfolding rule_applies passt.Inany.inany_matches inany_is_unspecified
    passt.Inany.inany_is_unspecified4 passt.Inany.inany_is_unspecified6 passt.Inany.inany_v4
    passt.Inany.inany_equals
rule_is_for_flow = refl

empty_IsRules : IsRules empty_rules
empty_IsRules = record {
  valid = tt;
  apart = tt;
  few = omega arith;
  socks = refl;
  fit = omega arith;
}

nat_outbound-nat_inbound_example : nat_outbound ctx (inany_from_v4 host4) ≡ inany_loopback4
nat_outbound-nat_inbound_example =
    nat_outbound-nat_inbound ctx inany_loopback4 (inany_from_v4 host4) ctx-IsDistinct
      loopback_IsUnmapped loopback_inbound

fwd_nat_from_splice-FromSplice_example :
    FromSplice rule 6 ini_side (fwd_nat_from_splice rule 6 ini_side zero_side)
fwd_nat_from_splice-FromSplice_example =
    fwd_nat_from_splice-FromSplice rule 6 ini_side zero_side (omega arith) (omega arith)

fwd_rule_search-only_example : fwd_rule_search one_rule ini_side 6 none ≡ done (some rule)
fwd_rule_search-only_example =
    fwd_rule_search-only one_rule ini_side 6 rule (tt, tt) oaddr_specified (inl refl)
      rule_is_for_flow

fwd_rule_add-Added_example : Added empty_rules rule (fwd_rule_add empty_rules rule)
fwd_rule_add-Added_example = fwd_rule_add-Added empty_rules rule empty_IsRules (omega arith)
