-- ===== src/Fwd/Sides.antt =====
-- Which flows fwd_nat_from_host() splices, and the addresses and ports on the other side of a flow.
use passt.Base.{
  ℕ, ◌+◌, ◌-◌, ◌^◌, ◌≤◌, ◌<◌, ◌≢◌, sym, ==_iff, ◌≡◌, ◌⊎◌, inl, inr, refl, ◌∙◌, arith, true, false,
  Option, none, some, ◌==◌, Bool-cases, Option-cases,
}
use passt.Inany.{
  InanyAddr, inany_v4, inany_from_v4, inany_is_loopback, inany_is_unspecified, inany_any4,
  inany_any6,
}
use passt.Flow.Types.{Flowside}
use passt.Fwd.{
  Ctx, FwdRule, nat_inbound, is_spliceable, host_oaddr, our_addr, rule_port, picked_port,
  ipproto_tcp, ipproto_udp,
}

-- A flow that can be spliced: splicing is not turned off, the rule maps to no address, and a loopback
-- address starts a flow of TCP or UDP.
abbrev pub IsSpliceable : Ctx → FwdRule → ℕ → Flowside → Type 0
IsSpliceable c rule proto ini =
    (c.no_splice ≡ false)
    × (inany_is_unspecified rule.taddr ≡ true)
    × (inany_is_loopback ini.eaddr ≡ true)
    × ((proto ≡ ipproto_tcp) ⊎ (proto ≡ ipproto_udp))

-- The source port of a socket: that of the initiator for UDP, and else one that the kernel picks.
abbrev pub IsPicked : ℕ → Flowside → ℕ → Type 0
IsPicked proto ini port =
    ((proto ≡ ipproto_udp) × (port ≡ ini.eport)) ⊎ ((proto ≢ ipproto_udp) × (port ≡ 0))

-- Any address of the family of the initiator's.
abbrev pub IsAnyOf : InanyAddr → InanyAddr → Type 0
IsAnyOf eaddr any =
    ((inany_v4 eaddr ≡ none) × (any ≡ inany_any6)) ⊎ ((inany_v4 eaddr ≢ none) × (any ≡ inany_any4))

-- The address that the guest sees: that of nat_inbound(), or ours of the family where it gives none.
pub data SeenAs (c : Ctx) (eaddr : InanyAddr) : Option InanyAddr → Type 0 where
  translated : (a : InanyAddr) → nat_inbound c eaddr ≡ some a → SeenAs c eaddr (some a)
  ours4 :
      nat_inbound c eaddr ≡ none
      → inany_v4 eaddr ≢ none
      → c.ip4.our_tap_addr ≢ 0
      → SeenAs c eaddr (some (inany_from_v4 c.ip4.our_tap_addr))
  ours6 :
      nat_inbound c eaddr ≡ none → inany_v4 eaddr ≡ none → SeenAs c eaddr (some c.ip6.our_tap_ll)
  not_seen :
      nat_inbound c eaddr ≡ none
      → inany_v4 eaddr ≢ none
      → c.ip4.our_tap_addr ≡ 0
      → SeenAs c eaddr none

-- The port that the rule maps the port of the flow to.
abbrev pub mapped_port : FwdRule → Flowside → ℕ
mapped_port rule ini = rule.to + (ini.oport - rule.first)

pub spliceable :
    (c : Ctx) (rule : FwdRule) (proto : ℕ) (ini : Flowside)
    → is_spliceable c rule proto ini ≡ true
    → IsSpliceable c rule proto ini
unfolding is_spliceable
spliceable c rule proto ini e =
    (ground (arith, e), ground (arith, e), ground (arith, e), ground (arith, e))

pub not-IsSpliceable :
    (c : Ctx) (rule : FwdRule) (proto : ℕ) (ini : Flowside)
    → is_spliceable c rule proto ini ≡ false
    → ¬ IsSpliceable c rule proto ini
unfolding is_spliceable
not-IsSpliceable c rule proto ini e (n, u, l, inl p) = ground (arith, e, n, u, l, p)
not-IsSpliceable c rule proto ini e (n, u, l, inr p) = ground (arith, e, n, u, l, p)

pub picked_port-IsPicked : (proto : ℕ) (ini : Flowside) → IsPicked proto ini (picked_port proto ini)
picked_port-IsPicked proto ini = elim (Bool-cases (proto == ipproto_udp)) [
  | inl e ↦ simp e (inl ((==_iff _ _).0 e, refl))
  | inr e ↦ simp e (inr (λ q. ground (arith, e, q), refl))
]

pub rule_port_lem :
    (rule : FwdRule) (ini : Flowside)
    → rule.first ≤ ini.oport
    → mapped_port rule ini < 2 ^ 16
    → rule_port rule ini ≡ mapped_port rule ini
rule_port_lem rule ini l h = omega (arith, l, h)

some-ne-none : (x : ℕ) → some x ≡ none → ⊥
some-ne-none x e = cc

pub any-IsAnyOf :
    (a : InanyAddr) (o : Option ℕ)
    → inany_v4 a ≡ o
    → IsAnyOf a (elim o [ some a4 ↦ inany_any4 | none ↦ inany_any6 ])
any-IsAnyOf a none e = inl (e, refl)
any-IsAnyOf a (some x) e = inr (λ q. some-ne-none x (sym e ∙ q), refl)

pub host_oaddr-SeenAs : (c : Ctx) (a : InanyAddr) → SeenAs c a (host_oaddr c a)
unfolding host_oaddr our_addr
host_oaddr-SeenAs c a = elim (Option-cases (nat_inbound c a)) [
  | inr (b, e) ↦ rw (e, host_oaddr) (translated b e)
  | inl none_in ↦ elim (Option-cases (inany_v4 a)) [
    | inl e ↦ rw (none_in, host_oaddr, e, our_addr) (ours6 none_in e)
    | inr (x, e) ↦
        let is4 : inany_v4 a ≢ none = λ q. some-ne-none x (sym e ∙ q) in
        elim (Bool-cases (c.ip4.our_tap_addr == 0)) [
          | inl z ↦
              rw (none_in, host_oaddr, e, our_addr, z) (not_seen none_in is4 ((==_iff _ _).0 z))
          | inr z ↦
              rw (none_in, host_oaddr, e, our_addr, z)
                (ours4 none_in is4 (λ q. ground (arith, z, q)))
        ]
  ]
]
