-- ===== src/Fwd/Nat.antt =====
-- What the guest and the host see of a flow that fwd.c forwards.
use passt.Base.{
  ℕ, ◌^◌, ◌≤◌, ◌<◌, ◌≡◌, ◌⊎◌, inl, inr, refl, true, false, Option, none, some, Bool-cases,
}
use passt.Inany.{InanyAddr, inany_is_loopback, is_loopback4}
use passt.Flow.Types.{Flowside, pif_none, pif_host, pif_tap, pif_splice}
use passt.Fwd.{Ctx, FwdRule, fwd_nat_from_splice}
use passt.Fwd.Sides.{
  IsSpliceable, IsPicked, IsAnyOf, SeenAs, mapped_port, picked_port-IsPicked, rule_port_lem,
}

-- The addresses that stand for the host towards the guest are no loopback addresses.
pub record HasNoLoopback (c : Ctx) : Type 0 where
  pub host4 : is_loopback4 c.ip4.map_host_loopback ≡ false
  pub guest4 : is_loopback4 c.ip4.map_guest_addr ≡ false
  pub tap4 : is_loopback4 c.ip4.our_tap_addr ≡ false
  pub host6 : inany_is_loopback c.ip6.map_host_loopback ≡ false
  pub guest6 : inany_is_loopback c.ip6.map_guest_addr ≡ false
  pub tap6 : inany_is_loopback c.ip6.our_tap_ll ≡ false

abbrev NoLoopback : Option InanyAddr → Type 0
NoLoopback none = Unit
NoLoopback (some a) = inany_is_loopback a ≡ false

-- What fwd_nat_from_host() promises of the interface and the side that it returns.
pub data FromHost (c : Ctx) (rule : FwdRule) (proto : ℕ) (ini : Flowside)
    : ℕ × Flowside → Type 0 where
  spliced :
      (tgt : Flowside)
      → IsSpliceable c rule proto ini
      → IsAnyOf ini.eaddr tgt.oaddr
      → IsPicked proto ini tgt.oport
      → tgt.eport ≡ mapped_port rule ini
      → FromHost c rule proto ini (pif_splice, tgt)
  dropped :
      (tgt : Flowside)
      → ¬ IsSpliceable c rule proto ini
      → (c.splice_only ≡ true) ⊎ SeenAs c ini.eaddr none
      → FromHost c rule proto ini (pif_none, tgt)
  to_tap :
      (tgt : Flowside)
      → ¬ IsSpliceable c rule proto ini
      → c.splice_only ≡ false
      → SeenAs c ini.eaddr (some tgt.oaddr)
      → inany_is_loopback tgt.oaddr ≡ false
      → tgt.oport ≡ ini.eport
      → tgt.eport ≡ mapped_port rule ini
      → FromHost c rule proto ini (pif_tap, tgt)

-- What fwd_nat_from_splice() promises of the interface and the side that it returns.
pub data FromSplice (rule : FwdRule) (proto : ℕ) (ini : Flowside) : ℕ × Flowside → Type 0 where
  dropped :
      (tgt : Flowside)
      → (inany_is_loopback ini.eaddr ≡ false) ⊎ (inany_is_loopback ini.oaddr ≡ false)
      → FromSplice rule proto ini (pif_none, tgt)
  to_host :
      (tgt : Flowside)
      → inany_is_loopback ini.eaddr ≡ true
      → inany_is_loopback ini.oaddr ≡ true
      → tgt.oaddr ≡ ini.eaddr
      → tgt.eaddr ≡ ini.oaddr
      → IsPicked proto ini tgt.oport
      → tgt.eport ≡ mapped_port rule ini
      → FromSplice rule proto ini (pif_host, tgt)

-- For a flow whose port is one of the rule's that maps to a port, fwd_nat_from_splice() forwards a flow
-- between loopback addresses to the same address at the port that the rule maps to, from the initiator's
-- address, with the initiator's port for UDP and any one else, and drops all others.
pub fwd_nat_from_splice-FromSplice :
    (rule : FwdRule) (proto : ℕ) (ini tgt : Flowside)
    → rule.first ≤ ini.oport
    → mapped_port rule ini < 2 ^ 16
    → FromSplice rule proto ini (fwd_nat_from_splice rule proto ini tgt)
unfolding fwd_nat_from_splice
fwd_nat_from_splice-FromSplice rule proto ini tgt l h =
    elim (Bool-cases (inany_is_loopback ini.eaddr)) [
      | inr off ↦ simp off (FromSplice.dropped tgt (inl off))
      | inl e ↦ elim (Bool-cases (inany_is_loopback ini.oaddr)) [
        | inr off ↦ simp (e, off) (FromSplice.dropped tgt (inr off))
        | inl o ↦
            simp (e, o)
              (to_host _ e o refl refl (picked_port-IsPicked proto ini)
                (rule_port_lem rule ini l h))
      ]
    ]
