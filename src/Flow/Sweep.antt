-- ===== src/Flow/Sweep.antt =====
-- flow_defer_handler(): which active flows their handlers close, and the sweep of the table that
-- frees them and rebuilds the list of free clusters.
pub mod Prefix
pub mod Step
pub mod Slot
pub mod Rebuild
pub mod Defer
pub mod Handler
use passt.Base.{
  ℕ, zero, suc, ◌+◌, Bool, true, false, not, ◌&&◌, Option, none, some, ltb, ◌==◌, if◌then◌else◌,
  update, Run, done, aborted, ◌>>=◌, ◌>>◌, assert, add_u32,
}
use passt.Flow.Types.{
  Flow, FlowType, type_none, tcp, tcp_splice, ping4, ping6, udp, FlowState, free, active, zero_flow,
  flow_max,
}
use passt.Flow.Table.{FlowTable, set_n, set_next, is_none}

-- The handlers of the protocols, by the index of the flow: whether the flow is to be closed.
pub record Handlers : Type 0 where
  pub tcp_flow_defer : ℕ → Bool
  pub tcp_splice_flow_defer : ℕ → Bool
  pub icmp_ping_timer : ℕ → Bool
  pub udp_flow_defer : ℕ → Bool
  pub udp_flow_timer : ℕ → Bool

-- The switch on the flow's type. `timer` is whether the flow timers are due.
unfoldable pub closes : Handlers → Bool → FlowType → ℕ → Run Bool
closes h timer type_none i = aborted
closes h timer tcp i = done (h.tcp_flow_defer i)
closes h timer tcp_splice i = done (h.tcp_splice_flow_defer i)
closes h timer ping4 i = done (timer && h.icmp_ping_timer i)
closes h timer ping6 i = done (timer && h.icmp_ping_timer i)
closes h timer udp i = done (if h.udp_flow_defer i then true else timer && h.udp_flow_timer i)

-- flow_foreach() over the table from the entry `i` on, filling `to_free`.
unfoldable pub mark_closed : Handlers → Bool → (ℕ → Flow) → ℕ → ℕ → (ℕ → Bool) → Run (ℕ → Bool)
mark_closed h timer t zero i to_free = aborted
mark_closed h timer t (suc fuel) i to_free = elim (ltb i flow_max) [
  | false ↦ done to_free
  | true ↦ elim (t i).f.state [
    | free ↦ mark_closed h timer t fuel (i + (t i).n) to_free
    | active ↦ elim (closes h timer (t i).f.flow_type i) [
      | aborted ↦ aborted
      | done closed ↦ mark_closed h timer t fuel (i + 1) (update to_free i closed)
    ]
    | _ ↦ mark_closed h timer t fuel (i + 1) to_free
  ]
]

-- The variables of the second pass. `last_next` points at `flow_first_free` (`none`) or at the
-- field `free.next` of an entry.
pub record Sweep : Type 0 where
  pub tab : ℕ → Flow
  pub first_free : ℕ
  pub free_head : Option ℕ
  pub last_next : Option ℕ

-- The table and `flow_first_free` after `*last_next = v`.
unfoldable pub relink : (ℕ → Flow) → Option ℕ → ℕ → ℕ → Flow
relink t none v = t
relink t (some k) v = set_next t k v

unfoldable pub relink_first : ℕ → Option ℕ → ℕ → ℕ
relink_first ff none v = v
relink_first ff (some k) v = ff

-- A new free cluster at `i` is added to the chain.
unfoldable pub add_cluster : Sweep → ℕ → Sweep
unfolding relink relink_first
add_cluster s i = record {
  tab = relink s.tab s.last_next i;
  first_free = relink_first s.first_free s.last_next i;
  free_head = some i;
  last_next = some i;
}

-- The entries at `i` that are counted in the cluster at `h` keep no data of their own.
unfoldable pub absorb : (ℕ → Flow) → ℕ → ℕ → ℕ → ℕ → Flow
absorb t h i n = set_next (set_n (set_n t h n) i 0) i 0

-- A free cluster at `i`: the next index, and the new state.
unfoldable pub sweep_free : ℕ → Sweep → Run (ℕ × Sweep)
unfolding add_cluster absorb
sweep_free i s =
    let skip = (s.tab i).n in
    if skip == 0 then aborted else elim s.free_head [
      | some h ↦ done (i + skip, record s { tab = absorb s.tab h i (add_u32 (s.tab h).n skip) })
      | none ↦ done (i + skip, add_cluster s i)
    ]

-- An active flow at `i` that is to be freed.
unfoldable pub sweep_closed : ℕ → Sweep → Run (ℕ × Sweep)
unfolding add_cluster absorb
sweep_closed i s =
    let t = update s.tab i zero_flow in
    elim s.free_head [
      | some h ↦
          if i == add_u32 h (t h).n
          then done (i + 1, record s { tab = absorb t h i (add_u32 (t h).n 1) })
          else aborted
      | none ↦ done (i + 1, add_cluster (record s { tab = set_n t i 1 }) i)
    ]

unfoldable pub sweep_slot : (ℕ → Bool) → ℕ → Sweep → Run (ℕ × Sweep)
unfolding sweep_free sweep_closed
sweep_slot to_free i s = elim (s.tab i).f.state [
  | free ↦ sweep_free i s
  | active ↦ if to_free i then sweep_closed i s else done (i + 1, record s { free_head = none })
  | _ ↦ aborted
]

-- flow_foreach_slot() from the entry `i` on. Out of fuel is `aborted` too.
unfoldable pub sweep_from : (ℕ → Bool) → ℕ → ℕ → Sweep → Run Sweep
unfolding sweep_slot
sweep_from to_free zero i s = aborted
sweep_from to_free (suc fuel) i s = elim (ltb i flow_max) [
  | false ↦ done s
  | true ↦ elim (sweep_slot to_free i s) [
    | aborted ↦ aborted
    | done (j, s') ↦ sweep_from to_free fuel j s'
  ]
]

abbrev pub start_sweep : FlowTable → Sweep
start_sweep s = record {
  tab = s.tab;
  first_free = s.first_free;
  free_head = none;
  last_next = none;
}

-- `*last_next = FLOW_MAX`
unfoldable pub end_sweep : Sweep → FlowTable
unfolding relink relink_first
end_sweep w = record {
  tab = relink w.tab w.last_next flow_max;
  first_free = relink_first w.first_free w.last_next flow_max;
  new_entry = none;
}

-- The second pass: every active flow that `to_free` marks is freed.
unfoldable pub free_flows : FlowTable → (ℕ → Bool) → Run FlowTable
unfolding sweep_from end_sweep
free_flows s to_free =
    sweep_from to_free (suc flow_max) 0 (start_sweep s) >>= λ w. done (end_sweep w)

-- flow_defer_handler()
unfoldable pub flow_defer_handler : Handlers → Bool → FlowTable → Run FlowTable
unfolding mark_closed closes free_flows
flow_defer_handler h timer s = do
  assert (is_none s.new_entry)
  to_free ← mark_closed h timer s.tab (suc flow_max) 0 (λ i. false)
  free_flows s to_free
