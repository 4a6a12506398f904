-- ===== src/Flow/Targeting.antt =====
-- What flow_target() does to a flow in state INI, for any forwarding rules.
use passt.Base.{
  ℕ, ◌≡◌, ◌⊎◌, ◌∙◌, ◌>>=◌, sym, inl, inr, refl, subst, arith, Bool, true, false, Option, none, some,
  Run, done, aborted, ◌==◌, Bool-cases, ==_iff,
}
use passt.Flow.Types.{FlowCommon, ini, pif_host, pif_tap, pif_splice}
use passt.Flow.Table.{FlowTable}
use passt.Flow.Target.{Forwarding, translate, retarget, find_rule, flow_target}
use passt.Flow.Invariant.{IsTable, Staged, NewEntry}
use passt.Flow.Retarget.{IsTargeted, IsTranslated, retarget-IsTargeted}

module _ {Rule : Type 0} (fwd : Forwarding Rule) where
  -- What fails an assertion on the way: a hint that the search for a rule aborts for, or a socket interface
  -- without a table of rules.
  pub data Fails (f : FlowCommon) (proto : ℕ) (hint : Option ℕ) : Type 0 where
    bad_hint :
        fwd.has_table f.pif_ini ≡ true
        → fwd.rule_search f.pif_ini f.side_ini proto hint ≡ aborted
        → Fails f proto hint
    no_table :
        fwd.has_table f.pif_ini ≡ false
        → (f.pif_ini ≡ pif_splice) ⊎ (f.pif_ini ≡ pif_host)
        → Fails f proto hint

  -- The result of flow_target() on the flow `i`: it aborts exactly where an assertion fails.
  pub data TargetResult (s : FlowTable) (i : ℕ) (proto : ℕ) (hint : Option ℕ)
      : Run (Bool × FlowTable) → Type 0 where
    fails : Fails (s.tab i).f proto hint → TargetResult s i proto hint aborted
    targeted :
        (r : Bool × FlowTable)
        → ¬ Fails (s.tab i).f proto hint
        → IsTargeted s i r
        → TargetResult s i proto hint (done r)

  -- The search for a rule, by its result.
  data Found (f : FlowCommon) (proto : ℕ) (hint : Option ℕ)
      : Run (Option (Option Rule)) → Type 0 where
    stuck :
        fwd.has_table f.pif_ini ≡ true
        → fwd.rule_search f.pif_ini f.side_ini proto hint ≡ aborted
        → Found f proto hint aborted
    no_rule :
        fwd.has_table f.pif_ini ≡ true
        → fwd.rule_search f.pif_ini f.side_ini proto hint ≡ done none
        → Found f proto hint (done none)
    one_rule :
        (r : Rule)
        → fwd.has_table f.pif_ini ≡ true
        → fwd.rule_search f.pif_ini f.side_ini proto hint ≡ done (some r)
        → Found f proto hint (done (some (some r)))
    not_searched : fwd.has_table f.pif_ini ≡ false → Found f proto hint (done (some none))

  searched :
      (f : FlowCommon) (proto : ℕ) (hint : Option ℕ) (r : Run (Option Rule))
      → fwd.has_table f.pif_ini ≡ true
      → fwd.rule_search f.pif_ini f.side_ini proto hint ≡ r
      → Found f proto hint (elim r as (λ x. Run (Option (Option Rule))) [
        | aborted ↦ aborted
        | done none ↦ done none
        | done (some r) ↦ done (some (some r))
      ])
  searched f proto hint aborted h e = stuck h e
  searched f proto hint (done none) h e = no_rule h e
  searched f proto hint (done (some r)) h e = one_rule r h e

  find_rule-Found :
      (f : FlowCommon) (proto : ℕ) (hint : Option ℕ)
      → Found f proto hint (find_rule fwd f proto hint)
  unfolding find_rule
  find_rule-Found f proto hint = elim (Bool-cases (fwd.has_table f.pif_ini)) [
    | inl h ↦ rw h (searched f proto hint _ h refl)
    | inr h ↦ rw h (not_searched h)
  ]

  not_stuck : (r : Option Rule) → done r ≡ aborted → ⊥
  not_stuck r e = cc

  passed :
      (f : FlowCommon) (proto : ℕ) (hint : Option ℕ) (r : Option Rule)
      → fwd.has_table f.pif_ini ≡ true
      → fwd.rule_search f.pif_ini f.side_ini proto hint ≡ done r
      → ¬ Fails f proto hint
  passed f proto hint r h e (bad_hint _ q) = not_stuck r (sym e ∙ q)
  passed f proto hint r h e (no_table q _) = ground (arith, h, q)

  -- With a rule, every interface is served.
  translate-some :
      (f : FlowCommon) (proto : ℕ) (r : Rule)
      → (o : Option (ℕ × FlowCommon)) × (translate fwd f (some r) proto ≡ done o) × IsTranslated f o
  unfolding translate
  translate-some f proto r = elim (Bool-cases (f.pif_ini == pif_tap)) [
    | inl q ↦ rw q (_, refl, (refl, refl, refl, refl, refl))
    | inr not_tap ↦ elim (Bool-cases (f.pif_ini == pif_splice)) [
      | inl q ↦ rw (not_tap, q) (_, refl, (refl, refl, refl, refl, refl))
      | inr not_splice ↦ elim (Bool-cases (f.pif_ini == pif_host)) [
        | inl q ↦ rw (not_tap, not_splice, q) (_, refl, (refl, refl, refl, refl, refl))
        | inr not_host ↦ rw (not_tap, not_splice, not_host) (none, refl, tt)
      ]
    ]
  ]

  -- Without one, a socket interface fails the assertion.
  data Ruleless (f : FlowCommon) : Run (Option (ℕ × FlowCommon)) → Type 0 where
    is_socket : (f.pif_ini ≡ pif_splice) ⊎ (f.pif_ini ≡ pif_host) → Ruleless f aborted
    served :
        (o : Option (ℕ × FlowCommon))
        → ¬ ((f.pif_ini ≡ pif_splice) ⊎ (f.pif_ini ≡ pif_host))
        → IsTranslated f o
        → Ruleless f (done o)

  not_socket :
      (pif : ℕ)
      → (pif == pif_splice) ≡ false
      → (pif == pif_host) ≡ false
      → ¬ ((pif ≡ pif_splice) ⊎ (pif ≡ pif_host))
  not_socket pif a b (inl e) = ground (arith, a, e)
  not_socket pif a b (inr e) = ground (arith, b, e)

  translate-none : (f : FlowCommon) (proto : ℕ) → Ruleless f (translate fwd f none proto)
  unfolding translate
  translate-none f proto = elim (Bool-cases (f.pif_ini == pif_tap)) [
    | inl q ↦ rw q (
        served _ (not_socket f.pif_ini (ground (arith, q)) (ground (arith, q)))
          (refl, refl, refl, refl, refl))
    | inr not_tap ↦ elim (Bool-cases (f.pif_ini == pif_splice)) [
      | inl q ↦ rw (not_tap, q) (is_socket (inl ((==_iff _ _).0 q)))
      | inr not_splice ↦ elim (Bool-cases (f.pif_ini == pif_host)) [
        | inl q ↦ rw (not_tap, not_splice, q) (is_socket (inr ((==_iff _ _).0 q)))
        | inr not_host ↦
            rw (not_tap, not_splice, not_host)
              (served none (not_socket f.pif_ini not_splice not_host) tt)
      ]
    ]
  ]

  module _ (s : FlowTable) (i : ℕ) (proto : ℕ) (hint : Option ℕ) (v : IsTable s)
      (e : s.new_entry ≡ some i) (st : (s.tab i).f.state ≡ ini) where
    abbrev after_find : Run (Option (Option Rule)) → Run (Bool × FlowTable)
    after_find aborted = aborted
    after_find (done none) = done (false, s)
    after_find (done (some rule)) =
        translate fwd (s.tab i).f rule proto >>= λ o. done (retarget fwd s i o)

    bind-TargetResult :
        (r : Run (Option (ℕ × FlowCommon)))
        → fwd.has_table (s.tab i).f.pif_ini ≡ false
        → Ruleless (s.tab i).f r
        → TargetResult s i proto hint (r >>= λ o. done (retarget fwd s i o))
    bind-TargetResult _ h (is_socket q) = fails (no_table h q)
    bind-TargetResult _ h (served o q t) =
        targeted (retarget fwd s i o)
          (λ w. elim w [ bad_hint q' _ ↦ ground (arith, h, q') | no_table _ q' ↦ q q' ])
          (retarget-IsTargeted fwd s i o v e st t)

    after_find-TargetResult :
        (r : Run (Option (Option Rule)))
        → Found (s.tab i).f proto hint r
        → TargetResult s i proto hint (after_find r)
    unfolding retarget
    after_find-TargetResult _ (stuck h q) = fails (bad_hint h q)
    after_find-TargetResult _ (no_rule h q) =
        targeted (false, s) (passed (s.tab i).f proto hint none h q)
          (retarget-IsTargeted fwd s i none v e st tt)
    after_find-TargetResult _ (one_rule r h q) =
        let (o, eq, t) = translate-some (s.tab i).f proto r in
        rw eq (
          targeted (retarget fwd s i o) (passed (s.tab i).f proto hint (some r) h q)
            (retarget-IsTargeted fwd s i o v e st t))
    after_find-TargetResult _ (not_searched h) =
        bind-TargetResult _ h (translate-none (s.tab i).f proto)

    flow_target-eq :
        flow_target fwd s i hint proto ≡ after_find (find_rule fwd (s.tab i).f proto hint)
    unfolding flow_target
    flow_target-eq =
        let f = (s.tab i).f in
        let entry : NewEntry s (some i) = subst (NewEntry s) e v.newest in
        let pre : Staged ini f = subst (λ x. Staged x f) st (v.staged i entry.1) in
        ground (arith, pre, e, st)

    -- On a valid table whose new entry is in state INI, flow_target() fails an assertion exactly for a hint
    -- that the search for a rule aborts for, and for a socket interface without a table of rules. Else it
    -- moves the flow to TGT if it returns a side and leaves it in INI if not, keeps its initiating side and
    -- all other flows, and leaves a valid table.
    pub flow_target-TargetResult : TargetResult s i proto hint (flow_target fwd s i hint proto)
    flow_target-TargetResult =
        subst (TargetResult s i proto hint) (sym flow_target-eq)
          (after_find-TargetResult _ (find_rule-Found (s.tab i).f proto hint))
