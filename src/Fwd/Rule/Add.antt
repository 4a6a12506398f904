-- ===== src/Fwd/Rule/Add.antt =====
-- Adding a rule to a table.
use passt.Base.{
  not_ltb, not_leb, le→not_ltb, ◌⊎◌, inl, inr, ◌≡◌, ◌≤◌, ◌<◌, refl, ap, ◌∙◌, arith, ℕ, ◌+◌, ◌-◌,
  ◌^◌, true, false, List, [], ◌∷◌, ◌++◌, length, ltb, leb, Run, done, Bool-cases, leb→le, ltb→lt,
  length-append, add_u32,
}
use passt.Fwd.{FwdRule}
use passt.Fwd.Rule.{
  FwdTable, AddError, einval, eexist, enospc, fwd_rule_conflicts, conflicts_any, is_valid_rule,
  fwd_rule_add, rule_socks, max_fwd_rules, max_listen_socks, clear_socks,
}
use passt.Fwd.Rule.Search.{Apart, AllApart}
use passt.Fwd.Rule.Conflicts.{
  IsValid, AllValid, total, IsRules, valid_range, conflicts_sym, checked, unchecked-Apart,
}

Apart-append :
    (q : FwdRule) (rs : List FwdRule) (r : FwdRule)
    → Apart q rs
    → fwd_rule_conflicts q r ≡ done false
    → Apart q (rs ++ (r ∷ []))
Apart-append q [] r a e = (e, tt)
Apart-append q (p ∷ ps) r (ap1, aps) e = (ap1, Apart-append q ps r aps e)

AllApart-append :
    (rs : List FwdRule) (r : FwdRule) → AllApart rs → Apart r rs → AllApart (rs ++ (r ∷ []))
AllApart-append [] r a b = (tt, tt)
AllApart-append (q ∷ qs) r (aq, as') (bq, bs) =
    (Apart-append q qs r aq (conflicts_sym r q bq), AllApart-append qs r as' bs)

AllValid-append :
    (caps : ℕ) (rs : List FwdRule) (r : FwdRule)
    → AllValid caps rs
    → IsValid caps r
    → AllValid caps (rs ++ (r ∷ []))
AllValid-append caps [] r a v = (v, tt)
AllValid-append caps (q ∷ qs) r (aq, as') v = (aq, AllValid-append caps qs r as' v)

total-append :
    (rs : List FwdRule) (r : FwdRule) → total (rs ++ (r ∷ [])) ≡ total rs + (r.last - r.first + 1)
total-append [] r = omega arith
total-append (q ∷ qs) r = omega (arith, total-append qs r)

-- What fwd_rule_add() promises: an error leaves the table as it is, else the rule is appended.
pub data Added (t : FwdTable) (r : FwdRule) : Run (AddError ⊎ FwdTable) → Type 0 where
  invalid : is_valid_rule t.caps r ≡ false → Added t r (done (inl einval))
  conflict :
      is_valid_rule t.caps r ≡ true
      → conflicts_any r t.rules ≡ done true
      → Added t r (done (inl eexist))
  no_space :
      (max_fwd_rules ≤ length t.rules) ⊎ (max_listen_socks < total t.rules + (r.last - r.first + 1))
      → Added t r (done (inl enospc))
  appended :
      (t' : FwdTable) → IsRules t' → t'.rules ≡ t.rules ++ (r ∷ []) → Added t r (done (inr t'))

abbrev appended_table : FwdTable → FwdRule → FwdTable
appended_table t r = record t {
  rules = t.rules ++ (r ∷ []);
  rulesocks = t.rulesocks ++ (t.sock_count ∷ []);
  sock_count = add_u32 t.sock_count (rule_socks r);
  socks = clear_socks t.socks t.sock_count (rule_socks r);
}

rule_socks_lem :
    (r : FwdRule) → r.first ≤ r.last → r.last < 2 ^ 16 → rule_socks r ≡ r.last - r.first + 1
rule_socks_lem r h l = omega arith

module _ (t : FwdTable) (v : IsRules t) (r : FwdRule) (l : r.last < 2 ^ 16)
    (ok : is_valid_rule t.caps r ≡ true) where
  range : r.first ≤ r.last
  range = valid_range t.caps r ok

  sum_socks : add_u32 t.sock_count (rule_socks r) ≡ t.sock_count + (r.last - r.first + 1)
  sum_socks = omega (arith, rule_socks_lem r range l, v.fit)

  appended-IsRules :
      conflicts_any r t.rules ≡ done false
      → length t.rules < max_fwd_rules
      → add_u32 t.sock_count (rule_socks r) ≤ max_listen_socks
      → IsRules (appended_table t r)
  appended-IsRules free_of few fit = record {
    valid = AllValid-append t.caps t.rules r v.valid (ok, l);
    apart =
        AllApart-append t.rules r v.apart (unchecked-Apart t.caps r t.rules range v.valid free_of);
    few = omega (arith, few, length-append t.rules (r ∷ []));
    socks = omega (arith, sum_socks, total-append t.rules r, v.socks);
    fit = fit;
  }

  Added-space : conflicts_any r t.rules ≡ done false → Added t r (fwd_rule_add t r)
  unfolding fwd_rule_add
  Added-space e = elim (Bool-cases (leb max_fwd_rules (length t.rules))) [
    | inl full ↦ simp (ok, e, full) (no_space (inl (leb→le _ _ full)))
    | inr room ↦ elim (Bool-cases (ltb max_listen_socks (add_u32 t.sock_count (rule_socks r)))) [
      | inl many ↦
          simp (ok, e, room, many)
            (no_space (inr (omega (arith, ltb→lt _ _ many, sum_socks, v.socks))))
      | inr fits ↦
          let below : t.sock_count + (r.last - r.first + 1) ≤ max_listen_socks =
            omega (arith, not_ltb _ _ fits, sum_socks) in
          let third : ltb max_listen_socks t.sock_count ≡ false = le→not_ltb _ _ v.fit in
          let fourth : ltb (max_listen_socks + r.first) r.last ≡ false =
            le→not_ltb _ _ (omega (arith, below)) in
          simp (ok, e, room, fits, third, fourth)
            (appended (appended_table t r)
              (appended-IsRules e (not_leb _ _ room) (not_ltb _ _ fits)) refl)
    ]
  ]

-- fwd_rule_add() to a table that is a valid one ends without failing an assertion. It fails, and leaves the table,
-- exactly for a rule that is invalid or conflicts with another, or for want of space; else the table with
-- the rule at its end is a valid one.
pub fwd_rule_add-Added :
    (t : FwdTable) (r : FwdRule) → IsRules t → r.last < 2 ^ 16 → Added t r (fwd_rule_add t r)
unfolding fwd_rule_add
fwd_rule_add-Added t r v l = elim (Bool-cases (is_valid_rule t.caps r)) [
  | inr n ↦ simp n (invalid n)
  | inl ok ↦
      let (b, e) = checked t.caps r t.rules (range t v r l ok) v.valid in
      elim (Bool-cases b) [
        | inl y ↦ simp (ok, e, y) (conflict ok (e ∙ ap done y))
        | inr n ↦ Added-space t v r l ok (e ∙ ap done n)
      ]
]
