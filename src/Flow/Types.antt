-- ===== src/Flow/Types.antt =====
-- The types of flow.h and flow_table.h: flow states and types, sides, table entries.
use passt.Base.{ℕ, ◌-◌, ◌^◌, Bool, true, false, ◌==◌, ◌&&◌}
use passt.Inany.{InanyAddr, inany_any6, inany_equals}

-- `enum flow_state`
pub data FlowState : Type 0 where
  free new ini tgt typed active : FlowState

-- `enum flow_type`
pub data FlowType : Type 0 where
  type_none tcp tcp_splice ping4 ping6 udp : FlowType

-- `enum pif_type`, as the `uint8_t` that flows store
abbrev pub pif_none : ℕ
pif_none = 0

abbrev pub pif_host : ℕ
pif_host = 1

abbrev pub pif_tap : ℕ
pif_tap = 2

abbrev pub pif_splice : ℕ
pif_splice = 3

-- `struct flowside`
pub record Flowside : Type 0 where
  pub oaddr : InanyAddr
  pub eaddr : InanyAddr
  pub oport : ℕ
  pub eport : ℕ

-- `struct flow_common`: `pif[]` and `side[]` by their two entries
pub record FlowCommon : Type 0 where
  pub state : FlowState
  pub flow_type : FlowType
  pub pif_ini : ℕ
  pub pif_tgt : ℕ
  pub side_ini : Flowside
  pub side_tgt : Flowside
  pub tap_omac : ℕ
  pub epollid : ℕ

-- `union flow`, by the members that flow.c writes itself: `f`, and `free.n` and `free.next`
pub record Flow : Type 0 where
  pub f : FlowCommon
  pub n : ℕ
  pub next : ℕ

abbrev pub zero_side : Flowside
zero_side = record { oaddr = inany_any6; eaddr = inany_any6; oport = 0; eport = 0 }

abbrev pub zero_common : FlowCommon
zero_common = record {
  state = free;
  flow_type = type_none;
  pif_ini = 0;
  pif_tgt = 0;
  side_ini = zero_side;
  side_tgt = zero_side;
  tap_omac = 0;
  epollid = 0;
}

-- what `memset(flow, 0, sizeof(*flow))` leaves
abbrev pub zero_flow : Flow
zero_flow = record { f = zero_common; n = 0; next = 0 }

-- FLOW_INDEX_BITS, FLOW_MAX
abbrev pub flow_index_bits : ℕ
flow_index_bits = 17

abbrev pub flow_max : ℕ
flow_max = 2 ^ flow_index_bits - 1

-- flowside_eq()
unfoldable pub flowside_eq : Flowside → Flowside → Bool
unfolding inany_equals
flowside_eq left right =
    inany_equals left.eaddr right.eaddr
    && left.eport == right.eport
    && inany_equals left.oaddr right.oaddr
    && left.oport == right.oport

-- tests of `enum flow_state` and `enum flow_type` against one value
abbrev pub is_free : FlowState → Bool
is_free free = true
is_free _ = false

abbrev pub is_new : FlowState → Bool
is_new new = true
is_new _ = false

abbrev pub is_ini : FlowState → Bool
is_ini ini = true
is_ini _ = false

abbrev pub is_tgt : FlowState → Bool
is_tgt tgt = true
is_tgt _ = false

abbrev pub is_typed : FlowState → Bool
is_typed typed = true
is_typed _ = false

abbrev pub is_active : FlowState → Bool
is_active active = true
is_active _ = false

abbrev pub is_type_none : FlowType → Bool
is_type_none type_none = true
is_type_none _ = false
