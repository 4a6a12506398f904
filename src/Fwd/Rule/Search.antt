-- ===== src/Fwd/Rule/Search.antt =====
-- The search for the rule of a flow in a table whose rules do not conflict.
use passt.Base.{
  clash, ◌⊎◌, inl, inr, ◌≡◌, ◌≤◌, refl, sym, ap, ◌∙◌, subst, arith, ℕ, Bool, true, false, Option,
  none, some, List, [], ◌∷◌, Run, done, aborted, Bool-cases,
}
use passt.Inany.{
  InanyAddr, inany_v4, inany_equals, inany_is_unspecified, inany_matches, is_some, same_test,
}
use passt.Flow.Types.{Flowside}
use passt.Fwd.{FwdRule}
use passt.Fwd.Rule.{
  FwdTable, fwd_rule_addr, rule_applies, first_rule, fwd_rule_search, fwd_rule_conflicts,
}

-- The rule does not conflict with any rule of the list, whose rules do not conflict with each other.
abbrev pub Apart : FwdRule → List FwdRule → Type 0
Apart r [] = Unit
Apart r (q ∷ qs) = (fwd_rule_conflicts r q ≡ done false) × Apart r qs

abbrev pub AllApart : List FwdRule → Type 0
AllApart [] = Unit
AllApart (r ∷ rs) = Apart r rs × AllApart rs

abbrev pub Mem : FwdRule → List FwdRule → Type 0
Mem r [] = ⊥
Mem r (q ∷ qs) = (r ≡ q) ⊎ Mem r qs

equals_inv : (a b : InanyAddr) → inany_equals a b ≡ true → a ≡ b
unfolding inany_equals
equals_inv a b h = ground arith

equals_refl : (a : InanyAddr) → inany_equals a a ≡ true
unfolding inany_equals
equals_refl a = ground arith

same_v4 : (x y z : Bool) → same_test x y ≡ true → same_test x z ≡ true → same_test y z ≡ true
same_v4 x y z h k = ground arith

specified_equals :
    (a b : InanyAddr)
    → inany_is_unspecified a ≡ false
    → inany_matches (some a) (some b) ≡ true
    → ((inany_is_unspecified b ≡ true)
        × (same_test (is_some (inany_v4 a)) (is_some (inany_v4 b)) ≡ true))
      ⊎ (a ≡ b)
unfolding inany_matches
specified_equals a b h m = elim (Bool-cases (inany_is_unspecified b)) [
  | inl u ↦ inl (u, ground (arith, h, m, u))
  | inr n ↦ inr (equals_inv a b (ground (arith, h, m, n)))
]

unspecified_matches :
    (b c : InanyAddr)
    → (inany_is_unspecified b ≡ true) ⊎ (inany_is_unspecified c ≡ true)
    → same_test (is_some (inany_v4 b)) (is_some (inany_v4 c)) ≡ true
    → inany_matches (some b) (some c) ≡ true
unfolding inany_matches
unspecified_matches b c u s = ground arith

matches_self :
    (a : InanyAddr) → inany_is_unspecified a ≡ false → inany_matches (some a) (some a) ≡ true
unfolding inany_matches
matches_self a h = rw (h, equals_refl a) refl

same_self : (x : Bool) → same_test x x ≡ true
same_self x = ground arith

-- Addresses that a specified address matches match each other.
matches_trans :
    (a : InanyAddr) (b c : Option InanyAddr)
    → inany_is_unspecified a ≡ false
    → inany_matches (some a) b ≡ true
    → inany_matches (some a) c ≡ true
    → inany_matches b c ≡ true
unfolding inany_matches
matches_trans a none c h m k = refl
matches_trans a (some b) none h m k = refl
matches_trans a (some b) (some c) h m k =
    let v4 : InanyAddr → Bool = λ x. is_some (inany_v4 x) in
    let same_as : (x : InanyAddr) → a ≡ x → same_test (v4 a) (v4 x) ≡ true =
      λ x e. subst (λ y. same_test (v4 a) (v4 y) ≡ true) e (same_self (v4 a)) in
    elim (specified_equals a b h m) [
      | inl (ub, sb) ↦ elim (specified_equals a c h k) [
        | inl (uc, sc) ↦ unspecified_matches b c (inl ub) (same_v4 (v4 a) (v4 b) (v4 c) sb sc)
        | inr ec ↦ unspecified_matches b c (inl ub) (same_v4 (v4 a) (v4 b) (v4 c) sb (same_as c ec))
      ]
      | inr eb ↦ elim (specified_equals a c h k) [
        | inl (uc, sc) ↦
            unspecified_matches b c (inr uc) (same_v4 (v4 a) (v4 b) (v4 c) (same_as b eb) sc)
        | inr ec ↦
            subst (λ x. inany_matches (some x) (some c) ≡ true) eb
              (subst (λ x. inany_matches (some a) (some x) ≡ true) ec (matches_self a h))
      ]
    ]

-- What a rule that applies says.
applies_inv :
    (r : FwdRule) (ini : Flowside) (proto : ℕ)
    → rule_applies r ini proto ≡ true
    → (r.proto ≡ proto)
      × (inany_matches (some ini.oaddr) (fwd_rule_addr r) ≡ true)
      × (r.first ≤ ini.oport)
      × (ini.oport ≤ r.last)
unfolding rule_applies
applies_inv r ini proto h = ground arith

conflicts_intro :
    (p q : FwdRule) (port : ℕ)
    → p.proto ≡ q.proto
    → inany_matches (fwd_rule_addr p) (fwd_rule_addr q) ≡ true
    → (p.first ≤ port) × (port ≤ p.last)
    → (q.first ≤ port) × (port ≤ q.last)
    → fwd_rule_conflicts p q ≡ done true
unfolding fwd_rule_conflicts
conflicts_intro p q port e m i j = ground arith

applies-conflicts :
    (p q : FwdRule) (ini : Flowside) (proto : ℕ)
    → inany_is_unspecified ini.oaddr ≡ false
    → rule_applies p ini proto ≡ true
    → rule_applies q ini proto ≡ true
    → fwd_rule_conflicts p q ≡ done true
applies-conflicts p q ini proto h a b =
    let (ep, mp, ip, jp) = applies_inv p ini proto a in
    let (eq, mq, iq, jq) = applies_inv q ini proto b in
    conflicts_intro p q ini.oport (ep ∙ sym eq)
      (matches_trans ini.oaddr (fwd_rule_addr p) (fwd_rule_addr q) h mp mq) (ip, jp) (iq, jq)

abbrev is_done_true : Run Bool → Bool
is_done_true (done b) = b
is_done_true aborted = false

module _ (ini : Flowside) (proto : ℕ) (h : inany_is_unspecified ini.oaddr ≡ false) (r : FwdRule)
    (a : rule_applies r ini proto ≡ true) where
  Apart-absurd :
      (q : FwdRule) (qs : List FwdRule)
      → rule_applies q ini proto ≡ true
      → Apart q qs
      → Mem r qs
      → ⊥
  Apart-absurd q [] b u m = elim m [ ]
  Apart-absurd q (p ∷ ps) b (ap1, aps) (inl e) =
      let c = applies-conflicts q r ini proto h b a in
      clash (ap is_done_true (sym c ∙ ap (fwd_rule_conflicts q) e ∙ ap1))
  Apart-absurd q (p ∷ ps) b (ap1, aps) (inr m) = Apart-absurd q ps b aps m

  first_rule-only : (rs : List FwdRule) → AllApart rs → Mem r rs → first_rule rs ini proto ≡ some r
  unfolding first_rule
  first_rule-only [] u m = elim m [ ]
  first_rule-only (q ∷ qs) (ap1, aps) (inl e) = rw (sym e, a) refl
  first_rule-only (q ∷ qs) (ap1, aps) (inr m) = elim (Bool-cases (rule_applies q ini proto)) [
    | inl b ↦ absurd (Apart-absurd q qs b ap1 m)
    | inr n ↦ rw n (first_rule-only qs aps m)
  ]

-- In a table whose rules do not conflict, the search without a hint finds the rule that applies to a flow
-- with a specified destination address: no other rule applies to it.
pub fwd_rule_search-only :
    (fwd : FwdTable) (ini : Flowside) (proto : ℕ) (r : FwdRule)
    → AllApart fwd.rules
    → inany_is_unspecified ini.oaddr ≡ false
    → Mem r fwd.rules
    → rule_applies r ini proto ≡ true
    → fwd_rule_search fwd ini proto none ≡ done (some r)
unfolding fwd_rule_search
fwd_rule_search-only fwd ini proto r d h m a =
    ap (λ x. done x) (first_rule-only ini proto h r a fwd.rules d m)
