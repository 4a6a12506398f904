-- ===== src/Flow/Sweep/Defer.antt =====
-- What flow_defer_handler() leaves: the flows that are closed are gone, all others are as they were,
-- and the free list is valid and has no two clusters side by side.
use native.Mathlib.Decide.{dec_lt}
use passt.Base.{
  ℕ, zero, suc, ◌+◌, ◌≤◌, ◌<◌, ◌≡◌, ◌≢◌, ◌⊎◌, inl, refl, sym, subst, arith, Bool, true, false, none,
  ◌∙◌, ltb, done, lt→ltb,
}
use passt.Flow.Types.{Flow, FlowCommon, free, active, flow_max}
use passt.Flow.Table.{FlowTable, is_incomplete}
use passt.Flow.Clusters.{Clusters, last, Used, IsCluster, lo-le-start, start-le}
use passt.Flow.Invariant.{IsTable, Staged}
use passt.Flow.Sweep.{Sweep, relink, sweep_slot, sweep_from, start_sweep, end_sweep, free_flows}
use passt.Flow.Sweep.Prefix.{none_yet, relink-Prefix, Prefix-Clusters, Prefix-maximal}
use passt.Flow.Sweep.Step.{swept_common, Swept, relink-f}
use passt.Flow.Sweep.Rebuild.{slot-Goes}

-- Between main loop cycles an entry is free or active.
abbrev pub Settled : (ℕ → Flow) → Type 0
Settled t = (j : ℕ) → j < flow_max → ((t j).f.state ≡ free) ⊎ ((t j).f.state ≡ active)

sweep_from-step :
    (to_free : ℕ → Bool) (fuel i j : ℕ) (w w' : Sweep)
    → i < flow_max
    → sweep_slot to_free i w ≡ done (j, w')
    → sweep_from to_free (suc fuel) i w ≡ sweep_from to_free fuel j w'
unfolding sweep_from
sweep_from-step to_free fuel i j w w' l e = rw (lt→ltb _ _ l, e, sweep_from)

sweep_from-end :
    (to_free : ℕ → Bool) (fuel i : ℕ) (w : Sweep)
    → flow_max ≤ i
    → sweep_from to_free (suc fuel) i w ≡ done w
unfolding sweep_from
sweep_from-end to_free fuel i w l = rw (not_lt, sweep_from)
  where
    not_lt : ltb i flow_max ≡ false
    not_lt = ground arith

-- `flow_max + 1` rounds are enough, as each goes on to a later entry.
sweep_from-Swept :
    (t : ℕ → Flow) (to_free : ℕ → Bool) (fuel i : ℕ) (w : Sweep)
    → Settled t
    → Swept t to_free i w
    → flow_max < i + fuel
    → (w' : Sweep) × (sweep_from to_free fuel i w ≡ done w') × Swept t to_free flow_max w'
sweep_from-Swept t to_free zero i w settled v l =
    absurd (omega (arith, lo-le-start v.after, start-le v.after))
sweep_from-Swept t to_free (suc fuel) i w settled v l = elim (dec_lt i flow_max) [
  | yes below ↦
      let (j, w', e, later, v') = slot-Goes t to_free i w v below (settled i below) in
      let (w'', e', v'') = sweep_from-Swept t to_free fuel j w' settled v' (omega arith) in
      (w'', sweep_from-step to_free fuel i j w w' below e ∙ e', v'')
  | no not_below ↦
      let at_end : i ≡ flow_max = omega (arith, lo-le-start v.after, start-le v.after) in
      (w, sweep_from-end to_free fuel i w (omega arith), subst (λ x. Swept t to_free x w) at_end v)
]

start-Swept :
    (s : FlowTable) (to_free : ℕ → Bool) → IsTable s → Swept s.tab to_free 0 (start_sweep s)
start-Swept s to_free v = record {
  e = 0;
  before = none_yet refl refl;
  low = omega arith;
  gap = λ j p q. absurd (omega arith);
  head = inl refl;
  start = s.first_free;
  after = v.list;
  rest = λ j p. refl;
  settled = λ j p. absurd (omega arith);
}

-- No free cluster is followed by a free entry.
abbrev pub IsMerged : (ℕ → Flow) → Type 0
IsMerged t = (h k : ℕ) → IsCluster t h k → h + k < flow_max → (t (h + k)).f.state ≢ free

-- The end of the sweep: the table `s'` is the rebuilt one.
record Rebuilt (t : ℕ → Flow) (to_free : ℕ → Bool) (s' : FlowTable) : Type 0 where
  list : Clusters s'.tab 0 s'.first_free
  merged : IsMerged s'.tab
  common : (j : ℕ) → j < flow_max → (s'.tab j).f ≡ swept_common to_free j (t j).f

end_sweep-Rebuilt :
    (t : ℕ → Flow) (to_free : ℕ → Bool) (w : Sweep)
    → Swept t to_free flow_max w
    → Rebuilt t to_free (end_sweep w)
unfolding end_sweep
end_sweep-Rebuilt t to_free w v =
    let (p, linked) = relink-Prefix flow_max v.before in
    record {
      list = Prefix-Clusters p (
          subst (λ x. Clusters (relink w.tab w.last_next flow_max) v.e x) (sym linked)
            (last refl v.low gap));
      merged = λ h k c inside f. elim (dec_lt h v.e) [
        | yes below ↦
            let m = Prefix-maximal h k p c below in
            elim (dec_lt (h + k) v.e) [
              | yes inner ↦ m.1 inner f
              | no outer ↦ gap (h + k) (omega arith) inside f
            ]
        | no above ↦ gap h (omega arith) (omega arith) c.head_free
      ];
      common = λ j l. relink-f w.tab w.last_next flow_max j ∙ v.settled j l;
    }
  where
    gap : Used (relink w.tab w.last_next flow_max) v.e flow_max
    gap j a b f =
        v.gap j a b (subst (λ y. y.state ≡ free) (relink-f w.tab w.last_next flow_max j) f)

-- Entries are free or active where no flow is incomplete.
pub Settled-of_table : (s : FlowTable) → IsTable s → s.new_entry ≡ none → Settled s.tab
Settled-of_table s v e j l = ground (arith, v.complete j l, e)

swept-Staged :
    (to_free : ℕ → Bool) (j : ℕ) (f : FlowCommon)
    → Staged f.state f
    → Staged (swept_common to_free j f).state (swept_common to_free j f)
swept-Staged to_free j f st = ground arith

swept_complete :
    (to_free : ℕ → Bool) (j : ℕ) (f : FlowCommon)
    → (f.state ≡ free) ⊎ (f.state ≡ active)
    → is_incomplete (swept_common to_free j f).state ≢ true
swept_complete to_free j f k = ground arith

Rebuilt-IsTable :
    (s : FlowTable) (to_free : ℕ → Bool) (s' : FlowTable)
    → IsTable s
    → s.new_entry ≡ none
    → Rebuilt s.tab to_free s'
    → s'.new_entry ≡ none
    → IsTable s'
Rebuilt-IsTable s to_free s' v e r e' = record {
  list = r.list;
  staged = λ j l. rw (r.common j l) (swept-Staged to_free j (s.tab j).f (v.staged j l));
  complete = λ j l inc. absurd (
      swept_complete to_free j (s.tab j).f (Settled-of_table s v e j l)
        (subst (λ f. is_incomplete f.state ≡ true) (r.common j l) inc));
  newest = rw e' tt;
}

-- The sweep of a valid table with no incomplete flow ends, and fails no assertion. It zeroes
-- exactly the active flows that are marked, keeps all other entries' common part, and leaves a valid
-- table in which no free cluster is followed by a free entry.
pub free_flows-IsTable :
    (s : FlowTable) (to_free : ℕ → Bool)
    → IsTable s
    → s.new_entry ≡ none
    → (s' : FlowTable) × (free_flows s to_free ≡ done s')
      × IsTable s'
      × (s'.new_entry ≡ none)
      × IsMerged s'.tab
      × ((j : ℕ) → j < flow_max → (s'.tab j).f ≡ swept_common to_free j (s.tab j).f)
unfolding free_flows
free_flows-IsTable s to_free v e =
    let settled = Settled-of_table s v e in
    let (w, eq, sw) =
      sweep_from-Swept s.tab to_free (suc flow_max) 0 (start_sweep s) settled
        (start-Swept s to_free v) (omega arith) in
    let r = end_sweep-Rebuilt s.tab to_free w sw in
    (
      end_sweep w,
      rw eq,
      Rebuilt-IsTable s to_free (end_sweep w) v e r refl,
      refl,
      r.merged,
      r.common,
    )
