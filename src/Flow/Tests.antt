-- ===== src/Flow/Tests.antt =====
-- The operations of flow.c on concrete tables, from the table that flow_init() sets up.
use passt.Base.{
  ℕ, ◌≡◌, ◌≢◌, ◌↔◌, ◌<◌, refl, Bool, true, false, Option, none, some, Run, done, aborted, arith,
}
use passt.Inany.{SockaddrInany}
use passt.Flow.Types.{FlowState, FlowType, pif_host, pif_tap, pif_none, flow_max}
use passt.Flow.Table.{
  FlowTable, flow_init, flow_alloc, flow_alloc_cancel, flow_initiate, flow_initiate_sa,
  flow_set_type, flow_activate,
}
use passt.Flow.Invariant.{IsTable, flow_init-IsTable}
use passt.Flow.Alloc.{AllocResult, flow_alloc-AllocResult}
use passt.Flow.Target.{Forwarding, flow_target}
use passt.Flow.Targeting.{TargetResult, flow_target-TargetResult}
use passt.Flow.Lifecycle.{
  Stepped, flow_alloc_cancel-IsTable, flow_initiate-Stepped, flow_activate-Stepped,
}
use passt.Flow.Sweep.{Handlers, flow_defer_handler}
use passt.Flow.Sweep.Defer.{IsMerged}
use passt.Flow.Sweep.Handler.{deferred_common, flow_defer_handler-IsTable}
use passt.Flow.Reach.{Step, Reach, Reach-IsTable}

-- One rule, which forwards everything from the guest to the host.
abbrev fwd : Forwarding ℕ
fwd = record {
  has_table = λ pif. true;
  rule_search = λ pif side proto hint. done (some 7);
  nat_from_tap = λ proto side old. (pif_host, side);
  nat_from_splice = λ rule proto side old. (pif_host, side);
  nat_from_host = λ rule proto side old. (pif_tap, side);
  neigh_mac = λ a. 1;
}

-- Handlers that close every flow.
abbrev handlers : Handlers
handlers = record {
  tcp_flow_defer = λ i. true;
  tcp_splice_flow_defer = λ i. true;
  icmp_ping_timer = λ i. true;
  udp_flow_defer = λ i. true;
  udp_flow_timer = λ i. true;
}

abbrev table_of : {A : Type 0} → Run (A × FlowTable) → FlowTable
table_of (done (a, s)) = s
table_of aborted = flow_init

abbrev flow_of : Run FlowTable → FlowTable
flow_of (done s) = s
flow_of aborted = flow_init

-- The first flow, through the states NEW, INI, TGT, TYPED and ACTIVE.
abbrev guest : SockaddrInany
guest = SockaddrInany.sa4 0x0100000a 0x3930

abbrev new_flow : FlowTable
new_flow = table_of (flow_alloc flow_init)

abbrev ini_flow : FlowTable
ini_flow = flow_of (flow_initiate_sa new_flow 0 pif_tap guest none 53)

abbrev tgt_flow : FlowTable
tgt_flow = table_of (flow_target fwd ini_flow 0 none 6)

abbrev typed_flow : FlowTable
typed_flow = flow_of (flow_set_type tgt_flow 0 FlowType.tcp)

abbrev active_flow : FlowTable
active_flow = flow_of (flow_activate typed_flow 0)

flow_alloc-AllocResult_example : AllocResult flow_init (flow_alloc flow_init)
unfolding flow_init
flow_alloc-AllocResult_example = flow_alloc-AllocResult flow_init flow_init-IsTable refl

new_eq : flow_alloc flow_init ≡ done (some 0, new_flow)
unfolding flow_alloc flow_init passt.Base.update
new_eq = refl

ini_eq : flow_initiate_sa new_flow 0 pif_tap guest none 53 ≡ done ini_flow
unfolding flow_initiate_sa flow_initiate flow_alloc flow_init passt.Base.update
ini_eq = refl

tgt_eq : flow_target fwd ini_flow 0 none 6 ≡ done (true, tgt_flow)
unfolding flow_target flow_initiate_sa flow_initiate flow_alloc flow_init passt.Base.update
tgt_eq = refl

typed_eq : flow_set_type tgt_flow 0 FlowType.tcp ≡ done typed_flow
unfolding flow_set_type flow_target flow_initiate_sa flow_initiate flow_alloc flow_init
    passt.Base.update
typed_eq = refl

active_eq : flow_activate typed_flow 0 ≡ done active_flow
unfolding flow_activate flow_set_type flow_target flow_initiate_sa flow_initiate flow_alloc
    flow_init passt.Base.update
active_eq = refl

new_Reach : Reach fwd new_flow
unfolding flow_init
new_Reach = Reach.next (Reach.start refl) (Step.alloc (some 0) refl new_eq)

ini_Reach : Reach fwd ini_flow
ini_Reach = Reach.next new_Reach (Step.initiate_sa 0 pif_tap guest none 53 ini_eq)

tgt_Reach : Reach fwd tgt_flow
tgt_Reach = Reach.next ini_Reach (Step.target 0 none 6 true tgt_eq)

typed_Reach : Reach fwd typed_flow
typed_Reach = Reach.next tgt_Reach (Step.set_type 0 FlowType.tcp typed_eq)

active_Reach : Reach fwd active_flow
active_Reach = Reach.next typed_Reach (Step.activate 0 active_eq)

Reach-IsTable_example : IsTable active_flow
Reach-IsTable_example = Reach-IsTable fwd active_Reach

new_IsTable : IsTable new_flow
new_IsTable = Reach-IsTable fwd new_Reach

ini_IsTable : IsTable ini_flow
ini_IsTable = Reach-IsTable fwd ini_Reach

typed_IsTable : IsTable typed_flow
typed_IsTable = Reach-IsTable fwd typed_Reach

active_IsTable : IsTable active_flow
active_IsTable = Reach-IsTable fwd active_Reach

new_new : new_flow.new_entry ≡ some 0
unfolding flow_alloc flow_init passt.Base.update
new_new = refl

flow_alloc_cancel-IsTable_example :
    (s' : FlowTable) × (flow_alloc_cancel new_flow 0 ≡ done s')
    × IsTable s'
    × (s'.new_entry ≡ none)
    × (s'.first_free ≡ 0)
    × ((s'.tab 0).f.state ≡ FlowState.free)
    × ((j : ℕ) → j ≢ 0 → s'.tab j ≡ new_flow.tab j)
flow_alloc_cancel-IsTable_example = flow_alloc_cancel-IsTable new_flow 0 new_IsTable new_new

flow_initiate-Stepped_example :
    Stepped
      ((new_flow.new_entry ≡ some 0)
        × ((new_flow.tab 0).f.state ≡ FlowState.new)
        × (pif_tap ≢ pif_none))
      new_flow
      0
      (record ((new_flow.tab 0).f) { pif_ini = pif_tap; state = FlowState.ini })
      new_flow.new_entry
      (flow_initiate new_flow 0 pif_tap)
flow_initiate-Stepped_example = flow_initiate-Stepped new_flow 0 pif_tap new_IsTable

flow_target-TargetResult_example :
    TargetResult fwd ini_flow 0 6 none (flow_target fwd ini_flow 0 none 6)
unfolding flow_initiate_sa flow_initiate flow_alloc flow_init passt.Base.update
flow_target-TargetResult_example =
    flow_target-TargetResult fwd ini_flow 0 6 none ini_IsTable refl refl

flow_activate-Stepped_example :
    Stepped
      ((typed_flow.new_entry ≡ some 0) × ((typed_flow.tab 0).f.state ≡ FlowState.typed))
      typed_flow
      0
      (record ((typed_flow.tab 0).f) { state = FlowState.active })
      none
      (flow_activate typed_flow 0)
flow_activate-Stepped_example = flow_activate-Stepped typed_flow 0 typed_IsTable

active_new : active_flow.new_entry ≡ none
unfolding flow_activate flow_set_type flow_target flow_initiate_sa flow_initiate flow_alloc
    flow_init passt.Base.update
active_new = refl

flow_defer_handler-IsTable_example :
    (s' : FlowTable) × (flow_defer_handler handlers true active_flow ≡ done s')
    × IsTable s'
    × (s'.new_entry ≡ none)
    × IsMerged s'.tab
    × ((j : ℕ)
        → j < flow_max
        → (s'.tab j).f ≡ deferred_common handlers true j (active_flow.tab j).f)
flow_defer_handler-IsTable_example =
    flow_defer_handler-IsTable handlers true active_flow active_IsTable active_new
