-- ===== src/Fwd/Rule/Conflicts.antt =====
-- The invariant of a table of forwarding rules, and the check of a new rule against the table.
use passt.Base.{
  clash, le→leb, inl, inr, ◌≡◌, ◌≤◌, ◌<◌, refl, sym, ap, ◌∙◌, arith, ℕ, ◌+◌, ◌-◌, ◌^◌, Bool, true,
  false, not, ◌&&◌, ◌||◌, Option, none, some, List, [], ◌∷◌, length, ltb, ◌==◌, Run, done, aborted,
  Bool-cases, leb→le,
}
use passt.Inany.{
  InanyAddr, inany_v4, inany_equals, inany_is_unspecified, inany_matches, is_some, same_test,
}
use passt.Fwd.{FwdRule}
use passt.Fwd.Rule.{
  FwdTable, fwd_rule_addr, fwd_rule_conflicts, conflicts_any, is_valid_rule, max_fwd_rules,
  max_listen_socks,
}
use passt.Fwd.Rule.Search.{Apart, AllApart}

-- A rule that passes the checks on its own, with a last port of 16 bits.
abbrev pub IsValid : ℕ → FwdRule → Type 0
IsValid caps r = (is_valid_rule caps r ≡ true) × (r.last < 2 ^ 16)

abbrev pub AllValid : ℕ → List FwdRule → Type 0
AllValid caps [] = Unit
AllValid caps (r ∷ rs) = IsValid caps r × AllValid caps rs

-- The number of sockets that the rules need.
abbrev pub total : List FwdRule → ℕ
total [] = 0
total (r ∷ rs) = (r.last - r.first + 1) + total rs

pub record IsRules (t : FwdTable) : Type 0 where
  pub valid : AllValid t.caps t.rules
  pub apart : AllApart t.rules
  pub few : length t.rules ≤ max_fwd_rules
  pub socks : t.sock_count ≡ total t.rules
  pub fit : t.sock_count ≤ max_listen_socks

and_left : (x y : Bool) → (x && y) ≡ true → x ≡ true
and_left true y h = refl
and_left false y h = h

pub valid_range : (caps : ℕ) (r : FwdRule) → is_valid_rule caps r ≡ true → r.first ≤ r.last
unfolding is_valid_rule
valid_range caps r h =
    leb→le _ _
      (and_left _ _ (and_left _ _ (and_left _ _ (and_left _ _ (and_left _ _ (and_left _ _ h))))))

or_comm : (x y : Bool) → (x || y) ≡ (y || x)
or_comm x y = ground arith

same_sym : (x y : Bool) → same_test x y ≡ same_test y x
same_sym x y = ground arith

equals_sym : (a b : InanyAddr) → inany_equals a b ≡ inany_equals b a
unfolding inany_equals
equals_sym a b = ground arith

matches_sym : (a b : Option InanyAddr) → inany_matches a b ≡ inany_matches b a
unfolding inany_matches
matches_sym none none = refl
matches_sym none (some b) = refl
matches_sym (some a) none = refl
matches_sym (some a) (some b) =
    rw
      (
        or_comm (inany_is_unspecified a) (inany_is_unspecified b),
        same_sym (is_some (inany_v4 a)) (is_some (inany_v4 b)),
        equals_sym a b,
      )
      refl

pub conflicts_sym :
    (p q : FwdRule) → fwd_rule_conflicts p q ≡ done false → fwd_rule_conflicts q p ≡ done false
unfolding fwd_rule_conflicts
conflicts_sym p q h = ground (arith, h, matches_sym (fwd_rule_addr p) (fwd_rule_addr q))

conflicts_done :
    (p q : FwdRule)
    → p.first ≤ p.last
    → q.first ≤ q.last
    → (b : Bool) × (fwd_rule_conflicts p q ≡ done b)
unfolding fwd_rule_conflicts
conflicts_done p q h k = elim (Bool-cases (p.proto == q.proto)) [
  | inr n ↦ (false, rw n refl)
  | inl e ↦ elim (Bool-cases (inany_matches (fwd_rule_addr p) (fwd_rule_addr q))) [
    | inr n ↦ (false, rw (e, n) refl)
    | inl m ↦
        (not (ltb p.last q.first || ltb q.last p.first), rw (e, m, le→leb _ _ h, le→leb _ _ k) refl)
  ]
]

step_true :
    (r q : FwdRule) (qs : List FwdRule)
    → fwd_rule_conflicts r q ≡ done true
    → conflicts_any r (q ∷ qs) ≡ done true
unfolding conflicts_any
step_true r q qs h = rw (h, conflicts_any) refl

step_false :
    (r q : FwdRule) (qs : List FwdRule)
    → fwd_rule_conflicts r q ≡ done false
    → conflicts_any r (q ∷ qs) ≡ conflicts_any r qs
unfolding conflicts_any
step_false r q qs h = rw (h, conflicts_any) refl

-- The check against the rules of the table ends in an answer; on `false` the new rule is apart from all.
pub checked :
    (caps : ℕ) (r : FwdRule) (rs : List FwdRule)
    → r.first ≤ r.last
    → AllValid caps rs
    → (b : Bool) × (conflicts_any r rs ≡ done b)
unfolding conflicts_any
checked caps r [] h v = (false, refl)
checked caps r (q ∷ qs) h (vq, vs) =
    let (b, e) = conflicts_done r q h (valid_range caps q vq.0) in
    elim (Bool-cases b) [
      | inl y ↦ (true, rw (e ∙ ap done y, conflicts_any) refl)
      | inr n ↦
          let (b', rest) = checked caps r qs h vs in (b', rw (e ∙ ap done n, conflicts_any) rest)
    ]

abbrev answer : Run Bool → Bool
answer (done b) = b
answer aborted = true

pub unchecked-Apart :
    (caps : ℕ) (r : FwdRule) (rs : List FwdRule)
    → r.first ≤ r.last
    → AllValid caps rs
    → conflicts_any r rs ≡ done false
    → Apart r rs
unfolding conflicts_any
unchecked-Apart caps r [] h v e = tt
unchecked-Apart caps r (q ∷ qs) h (vq, vs) e =
    let (b, c) = conflicts_done r q h (valid_range caps q vq.0) in
    elim (Bool-cases b) [
      | inl y ↦ absurd (clash (ap answer (sym (step_true r q qs (c ∙ ap done y)) ∙ e)))
      | inr n ↦ (
        c ∙ ap done n,
        unchecked-Apart caps r qs h vs (sym (step_false r q qs (c ∙ ap done n)) ∙ e),
      )
    ]
