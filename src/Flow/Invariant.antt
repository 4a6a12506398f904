-- ===== src/Flow/Invariant.antt =====
-- The invariant of the flow table, and that every operation keeps it and passes its assertions.
use passt.Base.{ℕ, ◌<◌, ◌≡◌, ◌≢◌, refl, arith, true, Option, none, some, update}
use passt.Flow.Types.{
  FlowState, free, new, ini, tgt, typed, active, FlowCommon, type_none, flow_max, pif_none,
}
use passt.Flow.Table.{FlowTable, flow_init, is_incomplete}
use passt.Flow.Clusters.{Clusters, last, cluster}

-- What the state of an entry says of its type and interfaces.
abbrev pub Staged : FlowState → FlowCommon → Type 0
Staged free f = f.flow_type ≡ type_none
Staged new f = (f.flow_type ≡ type_none) × (f.pif_ini ≡ pif_none) × (f.pif_tgt ≡ pif_none)
Staged ini f = (f.flow_type ≡ type_none) × (f.pif_ini ≢ pif_none) × (f.pif_tgt ≡ pif_none)
Staged tgt f = (f.flow_type ≡ type_none) × (f.pif_ini ≢ pif_none) × (f.pif_tgt ≢ pif_none)
Staged typed f = (f.flow_type ≢ type_none) × (f.pif_ini ≢ pif_none) × (f.pif_tgt ≢ pif_none)
Staged active f = (f.flow_type ≢ type_none) × (f.pif_ini ≢ pif_none) × (f.pif_tgt ≢ pif_none)

-- The new entry, if there is one, lies below the free list and is incomplete.
abbrev pub NewEntry : FlowTable → Option ℕ → Type 0
NewEntry s none = Unit
NewEntry s (some i) = (i < s.first_free) × (i < flow_max) × (is_incomplete (s.tab i).f.state ≡ true)

pub record IsTable (s : FlowTable) : Type 0 where
  pub list : Clusters s.tab 0 s.first_free
  pub staged : (j : ℕ) → j < flow_max → Staged (s.tab j).f.state (s.tab j).f
  pub complete :
      (j : ℕ) → j < flow_max → is_incomplete (s.tab j).f.state ≡ true → s.new_entry ≡ some j
  pub newest : NewEntry s s.new_entry

-- flow_init() gives one free cluster that is the whole table.
pub flow_init-IsTable : IsTable flow_init
unfolding flow_init update
flow_init-IsTable = record {
  list =
      cluster flow_max flow_max flow_max (omega arith) (omega arith) (λ j p q. absurd (omega arith))
        (record {
          head_free = refl;
          head_none = refl;
          size = refl;
          some_entry = omega arith;
          inside = omega arith;
          rest = λ j p q. ground arith;
        })
        refl (last refl (omega arith) (λ j p q. absurd (omega arith)));
  staged = λ j p. ground arith;
  complete = λ j p h. ground arith;
  newest = tt;
}
