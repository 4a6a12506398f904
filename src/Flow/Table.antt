-- ===== src/Flow/Table.antt =====
-- The operations of flow.c on the flow table and its list of free clusters. A pointer into
-- `flowtab` is the index that it points at. A failed assert() is `aborted`.
use passt.Base.{
  ℕ, ◌-◌, Bool, true, false, not, ◌&&◌, Option, none, some, ltb, leb, ◌==◌, if◌then◌else◌, update,
  Run, done, aborted, ◌>>=◌, ◌>>◌, assert, add_u32,
}
use passt.Inany.{
  InanyAddr, AddrFamily, SockaddrInany, inany_any4, inany_any6, inany_v4, inany_from_af,
  inany_from_sockaddr,
}
use passt.Flow.Types.{
  FlowState, new, ini, tgt, typed, active, FlowType, Flowside, FlowCommon, Flow, zero_common,
  zero_flow, flow_max, pif_none, is_free, is_new, is_tgt, is_typed, is_type_none,
}

-- `flowtab`, `flow_first_free` and `flow_new_entry`
pub record FlowTable : Type 0 where
  pub tab : ℕ → Flow
  pub first_free : ℕ
  pub new_entry : Option ℕ

-- writes of `flow->free.n`, `flow->free.next` and of the common part
abbrev pub set_n : (ℕ → Flow) → ℕ → ℕ → ℕ → Flow
set_n t i n = update t i (record (t i) { n = n })

abbrev pub set_next : (ℕ → Flow) → ℕ → ℕ → ℕ → Flow
set_next t i next = update t i (record (t i) { next = next })

abbrev pub set_common : (ℕ → Flow) → ℕ → FlowCommon → ℕ → Flow
set_common t i f = update t i (record (t i) { f = f })

-- flow_init(), on a zeroed table
unfoldable pub flow_init : FlowTable
flow_init = record {
  tab = set_next (set_n (λ i. zero_flow) 0 flow_max) 0 flow_max;
  first_free = 0;
  new_entry = none;
}

abbrev pub is_none : Option ℕ → Bool
is_none none = true
is_none (some i) = false

-- `flow_new_entry == flow`
abbrev pub is_new_entry : Option ℕ → ℕ → Bool
is_new_entry none i = false
is_new_entry (some j) i = j == i

-- Taking the first entry of the cluster at `i` leaves the rest of it, from the next entry on.
unfoldable pub split_cluster : FlowTable → ℕ → Run FlowTable
split_cluster s i =
    let next = add_u32 s.first_free 1 in
    do
      assert (leb s.first_free (flow_max - 2))
      assert (ltb next flow_max)
      assert (is_type_none (s.tab next).f.flow_type)
      assert ((s.tab next).n == 0)
      done (record s {
        tab = set_next (set_n s.tab next ((s.tab i).n - 1)) next (s.tab i).next;
        first_free = next;
      })

-- Takes one entry of the cluster at `i`, or all of a cluster of one.
unfoldable pub take_entry : FlowTable → ℕ → Run FlowTable
unfolding split_cluster
take_entry s i =
    if ltb 1 (s.tab i).n then split_cluster s i else done (record s { first_free = (s.tab i).next })

-- The entry at `i`, taken off its cluster, as the new one.
unfoldable pub new_flow : FlowTable → ℕ → FlowTable
new_flow t i = record t {
  tab = update t.tab i (record zero_flow { f = record zero_common { state = new } });
  new_entry = some i;
}

-- flow_alloc() on a table that is not full
unfoldable pub alloc_entry : FlowTable → ℕ → Run (Option ℕ × FlowTable)
unfolding take_entry new_flow
alloc_entry s i = do
  assert (is_free (s.tab i).f.state)
  assert (is_type_none (s.tab i).f.flow_type)
  assert (leb 1 (s.tab i).n)
  assert (leb (add_u32 s.first_free (s.tab i).n) flow_max)
  t ← take_entry s i
  done (some i, new_flow t i)

-- flow_alloc(): `none` is a full table
unfoldable pub flow_alloc : FlowTable → Run (Option ℕ × FlowTable)
unfolding alloc_entry
flow_alloc s = do
  assert (is_none s.new_entry)
  if leb flow_max s.first_free then done (none, s) else alloc_entry s s.first_free

abbrev pub is_incomplete : FlowState → Bool
is_incomplete new = true
is_incomplete ini = true
is_incomplete tgt = true
is_incomplete typed = true
is_incomplete _ = false

-- flow_alloc_cancel()
unfoldable pub flow_alloc_cancel : FlowTable → ℕ → Run FlowTable
flow_alloc_cancel s i = do
  assert (is_new_entry s.new_entry i)
  assert (is_incomplete (s.tab i).f.state)
  assert (ltb i s.first_free)
  done (record {
    tab = update s.tab i (record zero_flow { n = 1; next = s.first_free });
    first_free = i;
    new_entry = none;
  })

-- flow_initiate_()
unfoldable pub flow_initiate : FlowTable → ℕ → ℕ → Run FlowTable
flow_initiate s i pif =
    let f = (s.tab i).f in
    do
      assert (not (pif == pif_none))
      assert (is_new_entry s.new_entry i && is_new f.state)
      assert (is_type_none f.flow_type)
      assert (f.pif_ini == pif_none && f.pif_tgt == pif_none)
      done (record s { tab = set_common s.tab i (record f { pif_ini = pif; state = ini }) })

-- flowside_from_af(); a null address stands for an unspecified one
optional_af : AddrFamily → Option InanyAddr → Run InanyAddr
unfolding inany_from_af
optional_af af none = done inany_any6
optional_af af (some a) = inany_from_af af a

unfoldable pub flowside_from_af :
    AddrFamily → Option InanyAddr → ℕ → Option InanyAddr → ℕ → Run Flowside
unfolding optional_af
flowside_from_af af eaddr eport oaddr oport = do
  o ← optional_af af oaddr
  e ← optional_af af eaddr
  done (record { oaddr = o; eaddr = e; oport = oport; eport = eport })

abbrev pub set_side_ini : FlowTable → ℕ → Flowside → FlowTable
set_side_ini s i side = record s {
  tab = set_common s.tab i (record ((s.tab i).f) { side_ini = side });
}

-- flow_initiate_af()
unfoldable pub flow_initiate_af :
    FlowTable → ℕ → ℕ → AddrFamily → Option InanyAddr → ℕ → Option InanyAddr → ℕ → Run FlowTable
unfolding flowside_from_af
flow_initiate_af s i pif af saddr sport daddr dport = do
  side ← flowside_from_af af saddr sport daddr dport
  flow_initiate (set_side_ini s i side) i pif

-- our address where the caller gives none: unspecified, of the endpoint's family
unfoldable pub default_oaddr : InanyAddr → Option InanyAddr → InanyAddr
unfolding inany_v4
default_oaddr eaddr (some a) = a
default_oaddr eaddr none = elim (inany_v4 eaddr) [ some a4 ↦ inany_any4 | none ↦ inany_any6 ]

-- flow_initiate_sa(): a bad socket address is a failed assertion
unfoldable pub flow_initiate_sa :
    FlowTable → ℕ → ℕ → SockaddrInany → Option InanyAddr → ℕ → Run FlowTable
unfolding inany_from_sockaddr default_oaddr
flow_initiate_sa s i pif ssa daddr dport = elim (inany_from_sockaddr ssa) [
  | none ↦ aborted
  | some (ea, ep) ↦
      flow_initiate
        (set_side_ini s i
          (record { oaddr = default_oaddr ea daddr; eaddr = ea; oport = dport; eport = ep }))
        i pif
]

-- flow_set_type()
unfoldable pub flow_set_type : FlowTable → ℕ → FlowType → Run FlowTable
flow_set_type s i type =
    let f = (s.tab i).f in
    do
      assert (not (is_type_none type))
      assert (is_new_entry s.new_entry i && is_tgt f.state)
      assert (is_type_none f.flow_type)
      assert (not (f.pif_ini == pif_none) && not (f.pif_tgt == pif_none))
      done (record s { tab = set_common s.tab i (record f { flow_type = type; state = typed }) })

-- flow_activate()
unfoldable pub flow_activate : FlowTable → ℕ → Run FlowTable
flow_activate s i =
    let f = (s.tab i).f in
    do
      assert (is_new_entry s.new_entry i && is_typed f.state)
      assert (not (f.pif_ini == pif_none) && not (f.pif_tgt == pif_none))
      done (record s { tab = set_common s.tab i (record f { state = active }); new_entry = none })
