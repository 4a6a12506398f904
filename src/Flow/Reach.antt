-- ===== src/Flow/Reach.antt =====
-- Every sequence of operations on the flow table, from flow_init() on.
use passt.Base.{
  ℕ, ◌≡◌, refl, sym, subst, ap, ◌∙◌, arith, Bool, Option, none, some, update, Run, done, aborted,
  ◌>>=◌,
}
use passt.Inany.{InanyAddr, AddrFamily, SockaddrInany}
use passt.Flow.Types.{Flowside, FlowCommon, new, ini, FlowType}
use passt.Flow.Table.{
  FlowTable, set_side_ini, flow_init, flow_alloc, flow_alloc_cancel, flow_initiate,
  flow_initiate_af, flow_initiate_sa, flowside_from_af, flow_set_type, flow_activate, is_incomplete,
}
use passt.Flow.Target.{Forwarding, flow_target}
use passt.Flow.Sweep.{Handlers, flow_defer_handler}
use passt.Flow.Invariant.{IsTable, Staged, NewEntry, flow_init-IsTable}
use passt.Flow.Alloc.{AllocResult, full, taken, flow_alloc-AllocResult}
use passt.Flow.Lifecycle.{
  Stepped, passes, aborts, flow_alloc_cancel-IsTable, set_common-IsTable, flow_initiate-Stepped,
  flow_set_type-Stepped, flow_activate-Stepped,
}
use passt.Flow.Targeting.{TargetResult, fails, targeted, flow_target-TargetResult}
use passt.Flow.Sweep.Handler.{flow_defer_handler-IsTable}

module _ {Rule : Type 0} (fwd : Forwarding Rule) where
  -- One call that does not abort. flow_alloc() and flow_defer_handler() are called with no
  -- incomplete flow, and flow_target() on a flow that has been initiated.
  pub data Step : FlowTable → FlowTable → Type 0 where
    alloc :
        {s s' : FlowTable} (o : Option ℕ)
        → s.new_entry ≡ none
        → flow_alloc s ≡ done (o, s')
        → Step s s'
    cancel : {s s' : FlowTable} (i : ℕ) → flow_alloc_cancel s i ≡ done s' → Step s s'
    initiate_af :
        {s s' : FlowTable} (i pif : ℕ) (af : AddrFamily) (saddr : Option InanyAddr) (sport : ℕ)
        (daddr : Option InanyAddr) (dport : ℕ)
        → flow_initiate_af s i pif af saddr sport daddr dport ≡ done s'
        → Step s s'
    initiate_sa :
        {s s' : FlowTable} (i pif : ℕ) (ssa : SockaddrInany) (daddr : Option InanyAddr) (dport : ℕ)
        → flow_initiate_sa s i pif ssa daddr dport ≡ done s'
        → Step s s'
    target :
        {s s' : FlowTable} (i : ℕ) (hint : Option ℕ) (proto : ℕ) (found : Bool)
        → flow_target fwd s i hint proto ≡ done (found, s')
        → Step s s'
    set_type :
        {s s' : FlowTable} (i : ℕ) (type : FlowType) → flow_set_type s i type ≡ done s' → Step s s'
    activate : {s s' : FlowTable} (i : ℕ) → flow_activate s i ≡ done s' → Step s s'
    defer :
        {s s' : FlowTable} (h : Handlers) (timer : Bool)
        → flow_defer_handler h timer s ≡ done s'
        → Step s s'

  pub data Reach : FlowTable → Type 0 where
    start : {s : FlowTable} → s ≡ flow_init → Reach s
    next : {s s' : FlowTable} → Reach s → Step s s' → Reach s'

abbrev done_or {ℓ} : {A : Type ℓ} → Run A → A → A
done_or (done a) d = a
done_or aborted d = d

pub done-injective {ℓ} : {A : Type ℓ} (a b : A) → done a ≡ done b → a ≡ b
done-injective a b e = ap (λ r. done_or r a) e

-- What a call that succeeds returns is the valid table that it is known to return.
result :
    {s' : FlowTable} (r : Run FlowTable) (t : FlowTable)
    → r ≡ done t
    → IsTable t
    → r ≡ done s'
    → IsTable s'
result {s'} r t e v q = subst IsTable (done-injective t s' (sym e ∙ q)) v

aborted-not {ℓ} : {A : Type ℓ} (a : A) → aborted ≡ done a → ⊥
aborted-not a e = cc

Stepped-IsTable :
    {guard : Type 0} {s s' : FlowTable} {i : ℕ} {f : FlowCommon} {o : Option ℕ} (r : Run FlowTable)
    → Stepped guard s i f o r
    → r ≡ done s'
    → IsTable s'
Stepped-IsTable {s' = s'} _ (passes t g e) q = subst IsTable (done-injective t s' q) e.valid
Stepped-IsTable {s' = s'} _ (aborts n) q = absurd (aborted-not s' q)

alloc-result :
    {s s' : FlowTable} {o : Option ℕ} (r : Run (Option ℕ × FlowTable))
    → IsTable s
    → AllocResult s r
    → r ≡ done (o, s')
    → IsTable s'
alloc-result r v (full u) q = subst IsTable (ap (λ x. x.1) (done-injective _ _ q)) v
alloc-result r v (taken t w a b c d e f) q = subst IsTable (ap (λ x. x.1) (done-injective _ _ q)) w

>>=-eq-done {ℓ κ} :
    {A : Type ℓ} {B : Type κ} (m : Run A) (f : A → Run B) {b : B}
    → (m >>= f) ≡ done b
    → (a : A) × (m ≡ done a) × (f a ≡ done b)
>>=-eq-done (done a) f h = (a, refl, h)
>>=-eq-done aborted f h = cc

initiate_guard :
    (s : FlowTable) (i pif : ℕ) (side : Flowside) {s' : FlowTable}
    → flow_initiate (set_side_ini s i side) i pif ≡ done s'
    → (s.new_entry ≡ some i) × ((s.tab i).f.state ≡ new)
unfolding flow_initiate update
initiate_guard s i pif side q = ground arith

initiate-IsTable :
    (s : FlowTable) (i pif : ℕ) (side : Flowside) {s' : FlowTable}
    → IsTable s
    → flow_initiate (set_side_ini s i side) i pif ≡ done s'
    → IsTable s'
initiate-IsTable s i pif side v q =
    let (e, st) = initiate_guard s i pif side q in
    let entry : NewEntry s (some i) = subst (NewEntry s) e v.newest in
    let staged : Staged new (s.tab i).f =
      subst (λ x. Staged x (s.tab i).f) st (v.staged i entry.1) in
    let w : IsTable (set_side_ini s i side) =
      set_common-IsTable s i (record ((s.tab i).f) { side_ini = side }) v e (ap is_incomplete st)
        (rw st staged) in
    Stepped-IsTable _ (flow_initiate-Stepped (set_side_ini s i side) i pif w) q

initiate_af-inv :
    (s : FlowTable) (i pif : ℕ) (af : AddrFamily) (saddr : Option InanyAddr) (sport : ℕ)
    (daddr : Option InanyAddr) (dport : ℕ) {s' : FlowTable}
    → flow_initiate_af s i pif af saddr sport daddr dport ≡ done s'
    → (side : Flowside) × (flowside_from_af af saddr sport daddr dport ≡ done side)
      × (flow_initiate (set_side_ini s i side) i pif ≡ done s')
initiate_af-inv s i pif af saddr sport daddr dport q =
    >>=-eq-done (flowside_from_af af saddr sport daddr dport)
      (λ side. flow_initiate (set_side_ini s i side) i pif) (unfold flow_initiate_af in q)

initiate_sa-inv :
    (s : FlowTable) (i pif : ℕ) (ssa : SockaddrInany) (daddr : Option InanyAddr) (dport : ℕ)
    {s' : FlowTable}
    → flow_initiate_sa s i pif ssa daddr dport ≡ done s'
    → (side : Flowside) × (flow_initiate (set_side_ini s i side) i pif ≡ done s')
unfolding flow_initiate_sa
initiate_sa-inv s i pif (SockaddrInany.sa4 a p) daddr dport q = (_, q)
initiate_sa-inv s i pif (SockaddrInany.sa6 a p) daddr dport q = (_, q)
initiate_sa-inv s i pif SockaddrInany.sa_other daddr dport q = ground arith

cancel_guard :
    (s : FlowTable) (i : ℕ) {s' : FlowTable}
    → flow_alloc_cancel s i ≡ done s'
    → s.new_entry ≡ some i
unfolding flow_alloc_cancel
cancel_guard s i q = ground arith

defer_guard :
    (h : Handlers) (timer : Bool) (s : FlowTable) (o : Option ℕ) {s' : FlowTable}
    → s.new_entry ≡ o
    → flow_defer_handler h timer s ≡ done s'
    → o ≡ none
unfolding flow_defer_handler
defer_guard h timer s none e q = refl
defer_guard h timer s (some i) e q = ground (arith, e, q)

module _ {Rule : Type 0} (fwd : Forwarding Rule) where
  target_guard :
      (s : FlowTable) (i : ℕ) (hint : Option ℕ) (proto : ℕ) {r : Bool × FlowTable}
      → flow_target fwd s i hint proto ≡ done r
      → (s.new_entry ≡ some i) × ((s.tab i).f.state ≡ ini)
  unfolding flow_target
  target_guard s i hint proto q = ground arith

  target-IsTable :
      (s : FlowTable) (i proto : ℕ) (hint : Option ℕ) (r : Run (Bool × FlowTable)) {found : Bool}
      {s' : FlowTable}
      → TargetResult fwd s i proto hint r
      → r ≡ done (found, s')
      → IsTable s'
  target-IsTable s i proto hint _ (fails w) q = absurd (aborted-not _ q)
  target-IsTable s i proto hint _ (targeted r n t) q =
      subst (λ x. IsTable x.1) (done-injective r _ q) t.valid

  Step-IsTable : {s s' : FlowTable} → Step fwd s s' → IsTable s → IsTable s'
  Step-IsTable {s} (alloc o e q) v = alloc-result _ v (flow_alloc-AllocResult s v e) q
  Step-IsTable {s} (cancel i q) v =
      let r = flow_alloc_cancel-IsTable s i v (cancel_guard s i q) in result _ r.0 r.1 r.2 q
  Step-IsTable {s} (initiate_af i pif af saddr sport daddr dport q) v =
      let (side, eq, q') = initiate_af-inv s i pif af saddr sport daddr dport q in
      initiate-IsTable s i pif side v q'
  Step-IsTable {s} (initiate_sa i pif ssa daddr dport q) v =
      let (side, q') = initiate_sa-inv s i pif ssa daddr dport q in
      initiate-IsTable s i pif side v q'
  Step-IsTable {s} (target i hint proto found q) v =
      let (e, st) = target_guard s i hint proto q in
      target-IsTable s i proto hint _ (flow_target-TargetResult fwd s i proto hint v e st) q
  Step-IsTable {s} (set_type i type q) v = Stepped-IsTable _ (flow_set_type-Stepped s i type v) q
  Step-IsTable {s} (activate i q) v = Stepped-IsTable _ (flow_activate-Stepped s i v) q
  Step-IsTable {s} (defer h timer q) v =
      let r = flow_defer_handler-IsTable h timer s v (defer_guard h timer s s.new_entry refl q) in
      result _ r.0 r.1 r.2 q

  -- Every state of the flow table that calls reach from flow_init(), in any order and with any arguments
  -- that do not abort, is valid.
  pub Reach-IsTable : {s : FlowTable} → Reach fwd s → IsTable s
  Reach-IsTable (start e) = subst IsTable (sym e) flow_init-IsTable
  Reach-IsTable (next r st) = Step-IsTable st (Reach-IsTable r)
