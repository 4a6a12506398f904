-- ===== src/Flow/Alloc.antt =====
-- flow_alloc(): it takes the lowest free entry, and keeps the invariant of the table.
use mathlib.Core.Path.{subst}
use native.Mathlib.Decide.{dec_lt}
use passt.Base.{
  ℕ, ◌+◌, ◌-◌, ◌%◌, ◌^◌, ◌<◌, ◌≡◌, ◌≢◌, inl, inr, refl, sym, arith, Option, none, some, update, Run,
  done,
}
use passt.Flow.Types.{Flow, free, new, zero_common, zero_flow, flow_max}
use passt.Flow.Table.{FlowTable, set_n, set_next, flow_alloc}
use passt.Flow.Clusters.{
  Clusters, cluster, Used, Head, Clusters-cases, Clusters-frame, Clusters-lower, lo-le-start,
}
use passt.Flow.Invariant.{IsTable}

abbrev pub fresh : Flow
fresh = record zero_flow { f = record zero_common { state = new } }

-- The table after the first entry of a longer cluster is taken: the rest is a cluster.
abbrev split_tab : (ℕ → Flow) → ℕ → ℕ → Flow
split_tab t i = update (set_next (set_n t (i + 1) ((t i).n - 1)) (i + 1) (t i).next) i fresh

split-Clusters :
    (t : ℕ → Flow) {i : ℕ} (h : Head t 0 i) → 1 < h.k → Clusters (split_tab t i) 0 (i + 1)
unfolding update
split-Clusters t {i} h more =
    cluster (h.k - 1) (t i).next h.end (omega (arith, h.end_eq)) (omega arith)
      (λ j p q. ground (arith, h.used j))
      (record {
        head_free = ground (arith, h.here.rest (i + 1));
        head_none = ground (arith, h.here.rest (i + 1));
        size = ground (arith, h.here.size);
        some_entry = omega arith;
        inside = omega (arith, h.here.inside);
        rest = λ j p q. ground (arith, h.here.rest j);
      })
      (ground arith) (Clusters-frame (λ j p. inl (ground (arith, h.end_eq))) h.tail)

-- The table after a cluster of one entry is taken.
whole-Clusters :
    (t : ℕ → Flow) {i : ℕ} (h : Head t 0 i) → h.k ≡ 1 → Clusters (update t i fresh) 0 (t i).next
unfolding update
whole-Clusters t {i} h one =
    Clusters-lower 0 (omega arith) (λ j p q. ground (arith, h.end_eq, h.used j))
      (Clusters-frame (λ j p. inl (ground (arith, h.end_eq))) h.tail)

-- Of the result of flow_alloc(): it is `none` on a full table, which stays as it is. Else it is the
-- lowest free entry, which is now the new one, and all entries keep their common part but that one.
pub data AllocResult (s : FlowTable) : Run (Option ℕ × FlowTable) → Type 0 where
  full : Used s.tab 0 flow_max → AllocResult s (done (none, s))
  taken :
      (s' : FlowTable)
      → IsTable s'
      → (s.tab s.first_free).f.state ≡ free
      → s.first_free < flow_max
      → Used s.tab 0 s.first_free
      → s'.new_entry ≡ some s.first_free
      → s'.tab s.first_free ≡ fresh
      → ((j : ℕ) → j ≢ s.first_free → (s'.tab j).f ≡ (s.tab j).f)
      → AllocResult s (done (some s.first_free, s'))

split_table : FlowTable → FlowTable
split_table s = record {
  tab = split_tab s.tab s.first_free;
  first_free = s.first_free + 1;
  new_entry = some s.first_free;
}

whole_table : FlowTable → FlowTable
whole_table s = record {
  tab = update s.tab s.first_free fresh;
  first_free = (s.tab s.first_free).next;
  new_entry = some s.first_free;
}

-- The assertions of flow_alloc() hold, and it splits a cluster of several entries.
alloc-split :
    (s : FlowTable) (h : Head s.tab 0 s.first_free)
    → s.new_entry ≡ none
    → 1 < h.k
    → flow_alloc s ≡ done (some s.first_free, split_table s)
unfolding flow_alloc split_table
alloc-split s h e more =
    let wrap : (s.first_free + 1) % 2 ^ 32 ≡ s.first_free + 1 = omega (arith, h.here.inside) in
    let wrap_n : (s.first_free + h.k) % 2 ^ 32 ≡ s.first_free + h.k =
      omega (arith, h.here.inside) in
    ground (arith, e, wrap, wrap_n, h.here, h.here.rest (s.first_free + 1))

alloc-whole :
    (s : FlowTable) (h : Head s.tab 0 s.first_free)
    → s.new_entry ≡ none
    → h.k ≡ 1
    → flow_alloc s ≡ done (some s.first_free, whole_table s)
unfolding flow_alloc whole_table
alloc-whole s h e one =
    let wrap_n : (s.first_free + h.k) % 2 ^ 32 ≡ s.first_free + h.k =
      omega (arith, h.here.inside) in
    ground (arith, e, wrap_n, h.here)

split_table-IsTable :
    (s : FlowTable) (h : Head s.tab 0 s.first_free)
    → IsTable s
    → s.new_entry ≡ none
    → 1 < h.k
    → IsTable (split_table s)
unfolding split_table update
split_table-IsTable s h v e more = record {
  list = split-Clusters s.tab h more;
  staged = λ j p. ground (arith, v.staged j);
  complete = λ j p q. ground (arith, v.complete j);
  newest = ground (arith, h.here.inside, h.here.some_entry);
}

whole_table-IsTable :
    (s : FlowTable) (h : Head s.tab 0 s.first_free)
    → IsTable s
    → s.new_entry ≡ none
    → h.k ≡ 1
    → IsTable (whole_table s)
unfolding whole_table update
whole_table-IsTable s h v e one = record {
  list = whole-Clusters s.tab h one;
  staged = λ j p. ground (arith, v.staged j);
  complete = λ j p q. ground (arith, v.complete j);
  newest = ground (arith, h.here.inside, lo-le-start h.tail, h.end_eq, one);
}

-- On a table with no incomplete flow, no assertion of flow_alloc() fails: the result is `none` with
-- the table as it was if every entry is in use; else it is the lowest free entry, zeroed and in
-- state NEW, every other entry keeps its common part, and the new table is a valid one.
pub flow_alloc-AllocResult :
    (s : FlowTable) → IsTable s → s.new_entry ≡ none → AllocResult s (flow_alloc s)
unfolding split_table whole_table
flow_alloc-AllocResult s v e = elim (Clusters-cases v.list) [
  | inl (at_end, _, used) ↦ subst (AllocResult s) (sym (full_eq at_end)) (full used)
  | inr h ↦ elim (dec_lt 1 h.k) [
    | yes more ↦ subst (AllocResult s) (sym (alloc-split s h e more)) (
        taken (split_table s) (split_table-IsTable s h v e more) h.here.head_free
          (omega (arith, h.here.inside, h.here.some_entry)) h.used refl split_fresh split_same)
    | no not_more ↦
        let one : h.k ≡ 1 = omega (arith, h.here.some_entry) in
        subst (AllocResult s) (sym (alloc-whole s h e one)) (
          taken (whole_table s) (whole_table-IsTable s h v e one) h.here.head_free
            (omega (arith, h.here.inside, h.here.some_entry)) h.used refl whole_fresh whole_same)
  ]
]
  where
    full_eq : s.first_free ≡ flow_max → flow_alloc s ≡ done (none, s)
    full_eq at_end = unfold flow_alloc in ground (arith, e)

    split_fresh : (split_table s).tab s.first_free ≡ fresh
    split_fresh = unfold split_table update in ground arith

    whole_fresh : (whole_table s).tab s.first_free ≡ fresh
    whole_fresh = unfold whole_table update in ground arith

    split_same : (j : ℕ) → j ≢ s.first_free → ((split_table s).tab j).f ≡ (s.tab j).f
    split_same j ne = unfold split_table update in ground arith

    whole_same : (j : ℕ) → j ≢ s.first_free → ((whole_table s).tab j).f ≡ (s.tab j).f
    whole_same j ne = unfold whole_table update in ground arith
