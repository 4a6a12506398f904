-- ===== src/Fwd/Roundtrip.antt =====
-- Address translation towards the guest and back.
use passt.Base.{
  ℕ, ◌≡◌, ◌≢◌, ◌⊎◌, inl, inr, refl, sym, subst, ◌∙◌, arith, Bool, true, false, not, ◌&&◌, Option,
  none, some, ◌==◌, Bool-cases, ==_refl,
}
use passt.Inany.{
  InanyAddr, inany_v4, inany_from_v4, inany_equals4, inany_equals6, inany_equals, inany_loopback4,
  inany_loopback6, inany_is_unspecified6,
}
use passt.Fwd.{Ctx, nat_outbound, nat_inbound, fwd_guest_accessible}

-- An address that is really IPv6.
abbrev pub IsV6 : InanyAddr → Type 0
IsV6 a = inany_v4 a ≡ none

-- The addresses that the guest uses for the host are set up so that they can be told apart.
pub record IsDistinct (c : Ctx) : Type 0 where
  pub maps4 : (c.ip4.map_guest_addr ≡ 0) ⊎ (c.ip4.map_guest_addr ≢ c.ip4.map_host_loopback)
  pub maps6 :
      (inany_is_unspecified6 c.ip6.map_guest_addr ≡ true)
      ⊎ (inany_equals6 c.ip6.map_guest_addr c.ip6.map_host_loopback ≡ false)
  pub loopback6 : IsV6 c.ip6.map_host_loopback
  pub guest6 : IsV6 c.ip6.map_guest_addr

-- The address is none of those that the guest uses for the host.
pub record IsUnmapped (c : Ctx) (a : InanyAddr) : Type 0 where
  pub host4 : inany_equals4 a c.ip4.map_host_loopback ≡ false
  pub host6 : inany_equals6 a c.ip6.map_host_loopback ≡ false
  pub guest4 : inany_equals4 a c.ip4.map_guest_addr ≡ false
  pub guest6 : inany_equals6 a c.ip6.map_guest_addr ≡ false

v4_from : (x : ℕ) → inany_v4 (inany_from_v4 x) ≡ some x
unfolding inany_v4 inany_from_v4
v4_from x = refl

equals4_inv : (a : InanyAddr) (x : ℕ) → inany_equals4 a x ≡ true → a ≡ inany_from_v4 x
unfolding inany_equals4 inany_v4 inany_from_v4
equals4_inv a x h = ground arith

equals4_from : (x y : ℕ) → inany_equals4 (inany_from_v4 x) y ≡ (x == y)
unfolding inany_equals4 inany_v4 inany_from_v4
equals4_from x y = refl

equals6_inv : (a b : InanyAddr) → inany_equals6 a b ≡ true → a ≡ b
unfolding inany_equals6 inany_equals
equals6_inv a b h = ground arith

equals6_refl : (a : InanyAddr) → inany_equals6 a a ≡ true
unfolding inany_equals6 inany_equals
equals6_refl a = ground arith

-- An address that is really IPv6 equals no IPv4 address.
v6_equals4 : (a : InanyAddr) (x : ℕ) → IsV6 a → inany_equals4 a x ≡ false
unfolding inany_equals4
v6_equals4 a x h = rw h refl

v4_equals6 : (a : InanyAddr) (x : ℕ) → IsV6 a → inany_equals6 (inany_from_v4 x) a ≡ false
unfolding inany_equals6 inany_equals inany_from_v4 inany_v4
v4_equals6 a x h = ground arith

module _ (c : Ctx) where
  outbound_host4 : nat_outbound c (inany_from_v4 c.ip4.map_host_loopback) ≡ inany_loopback4
  unfolding nat_outbound
  outbound_host4 = rw (equals4_from, ==_refl) refl

  outbound_host6 :
      IsV6 c.ip6.map_host_loopback → nat_outbound c c.ip6.map_host_loopback ≡ inany_loopback6
  unfolding nat_outbound
  outbound_host6 v = rw (v6_equals4 _ c.ip4.map_host_loopback v, equals6_refl) refl

  outbound_guest4 :
      IsDistinct c
      → c.ip4.map_guest_addr ≢ 0
      → nat_outbound c (inany_from_v4 c.ip4.map_guest_addr) ≡ inany_from_v4 c.ip4.addr
  unfolding nat_outbound
  outbound_guest4 d ne =
      let differ : (c.ip4.map_guest_addr == c.ip4.map_host_loopback) ≡ false =
        ground (arith, d.maps4, ne) in
      rw (equals4_from, v4_equals6 _ c.ip4.map_guest_addr d.loopback6, differ, ==_refl) refl

  outbound_guest6 :
      IsDistinct c
      → inany_is_unspecified6 c.ip6.map_guest_addr ≡ false
      → nat_outbound c c.ip6.map_guest_addr ≡ c.ip6.addr
  unfolding nat_outbound
  outbound_guest6 d ne =
      let differ : inany_equals6 c.ip6.map_guest_addr c.ip6.map_host_loopback ≡ false =
        ground (arith, d.maps6, ne) in
      rw
        (
          v6_equals4 _ c.ip4.map_host_loopback d.guest6,
          differ,
          v6_equals4 _ c.ip4.map_guest_addr d.guest6,
          equals6_refl,
        )
        refl

  outbound_same : (a : InanyAddr) → IsUnmapped c a → nat_outbound c a ≡ a
  unfolding nat_outbound
  outbound_same a u = rw (u.host4, u.host6, u.guest4, u.guest6) refl

-- How nat_inbound() comes to its result.
pub data Inbound (c : Ctx) (a : InanyAddr) : Option InanyAddr → Type 0 where
  host4 : a ≡ inany_loopback4 → Inbound c a (some (inany_from_v4 c.ip4.map_host_loopback))
  host6 : a ≡ inany_loopback6 → Inbound c a (some c.ip6.map_host_loopback)
  guest4 :
      c.ip4.map_guest_addr ≢ 0
      → a ≡ inany_from_v4 c.ip4.addr
      → Inbound c a (some (inany_from_v4 c.ip4.map_guest_addr))
  guest6 :
      inany_is_unspecified6 c.ip6.map_guest_addr ≡ false
      → a ≡ c.ip6.addr
      → Inbound c a (some c.ip6.map_guest_addr)
  same : fwd_guest_accessible c a ≡ true → Inbound c a (some a)
  refused : fwd_guest_accessible c a ≡ false → Inbound c a none

loopback4_eq : inany_from_v4 inany_loopback4.u32_3 ≡ inany_loopback4
unfolding inany_from_v4
loopback4_eq = refl

and_true : (x y : Bool) → (not x && y) ≡ true → (x ≡ false) × (y ≡ true)
and_true x y h = ground arith

ne_of_test : (x y : ℕ) → (x == y) ≡ false → x ≢ y
ne_of_test x y h e = ground arith

pub nat_inbound-Inbound : (c : Ctx) (a : InanyAddr) → Inbound c a (nat_inbound c a)
unfolding nat_inbound
nat_inbound-Inbound c a =
    elim (Bool-cases
      (not (c.ip4.map_host_loopback == 0) && inany_equals4 a inany_loopback4.u32_3)) [
        | inl h ↦ rw h (host4 (equals4_inv a _ (and_true _ _ h).1 ∙ loopback4_eq))
        | inr n1 ↦
            elim (Bool-cases (
              not (inany_is_unspecified6 c.ip6.map_host_loopback)
              && inany_equals6 a inany_loopback6)) [
                | inl h ↦ rw (n1, h) (host6 (equals6_inv a _ (and_true _ _ h).1))
                | inr n2 ↦
                    elim (Bool-cases
                      (not (c.ip4.map_guest_addr == 0) && inany_equals4 a c.ip4.addr)) [
                        | inl h ↦
                            rw (n1, n2, h)
                              (guest4 (ne_of_test _ _ (and_true _ _ h).0)
                                (equals4_inv a _ (and_true _ _ h).1))
                        | inr n3 ↦
                            elim (Bool-cases (
                              not (inany_is_unspecified6 c.ip6.map_guest_addr)
                              && inany_equals6 a c.ip6.addr)) [
                                | inl h ↦
                                    rw (n1, n2, n3, h)
                                      (guest6 (and_true _ _ h).0
                                        (equals6_inv a _ (and_true _ _ h).1))
                                | inr n4 ↦ elim (Bool-cases (fwd_guest_accessible c a)) [
                                  | inl h ↦ rw (n1, n2, n3, n4, h) (same h)
                                  | inr h ↦ rw (n1, n2, n3, n4, h) (refused h)
                                ]
                              ]
                      ]
              ]
      ]

abbrev Undone : Ctx → InanyAddr → Option InanyAddr → Type 0
Undone c a none = Unit
Undone c a (some b) = nat_outbound c b ≡ a

Inbound-Undone :
    (c : Ctx) (a : InanyAddr) (r : Option InanyAddr)
    → IsDistinct c
    → IsUnmapped c a
    → Inbound c a r
    → Undone c a r
Inbound-Undone c a r d u (host4 e) = outbound_host4 c ∙ sym e
Inbound-Undone c a r d u (host6 e) = outbound_host6 c d.loopback6 ∙ sym e
Inbound-Undone c a r d u (guest4 ne e) = outbound_guest4 c d ne ∙ sym e
Inbound-Undone c a r d u (guest6 ne e) = outbound_guest6 c d ne ∙ sym e
Inbound-Undone c a r d u (same h) = outbound_same c a u
Inbound-Undone c a r d u (refused h) = tt

-- Where the addresses that stand for the host and for the guest towards the guest are distinct, and
-- the IPv6 ones are not IPv4 addresses in disguise: if nat_inbound() translates an address that is
-- none of those, nat_outbound() translates the result back to it.
pub nat_outbound-nat_inbound :
    (c : Ctx) (a b : InanyAddr)
    → IsDistinct c
    → IsUnmapped c a
    → nat_inbound c a ≡ some b
    → nat_outbound c b ≡ a
nat_outbound-nat_inbound c a b d u e =
    subst (Undone c a) e (Inbound-Undone c a (nat_inbound c a) d u (nat_inbound-Inbound c a))
