-- ===== src/Flow/Sweep/Handler.antt =====
-- flow_defer_handler() as a whole: the pass over the handlers, then the sweep.
use native.Mathlib.Decide.{dec_lt, ℕ_discrete}
use passt.Base.{
  ℕ, zero, suc, ◌+◌, ◌≤◌, ◌<◌, ◌≡◌, ◌≢◌, inl, inr, refl, sym, ap, subst, arith, Bool, false, ◌&&◌,
  none, update, update_self, update_ne, ◌∙◌, if◌then◌else◌, ltb, Run, done, aborted, lt→ltb,
  Bool-cases,
}
use passt.Flow.Types.{
  Flow, FlowCommon, FlowType, free, active, type_none, flow_max, is_active, zero_common, tcp,
  tcp_splice, ping4, ping6, udp,
}
use passt.Flow.Table.{FlowTable}
use passt.Flow.Clusters.{Clusters, Head, IsCluster, free_inside, lo-le-start, start-le}
use passt.Flow.Invariant.{IsTable, Staged}
use passt.Flow.Sweep.{Handlers, closes, mark_closed, flow_defer_handler}
use passt.Flow.Sweep.Step.{swept_common}
use passt.Flow.Sweep.Slot.{past_used, Head-at}
use passt.Flow.Sweep.Defer.{Settled, Settled-of_table, IsMerged, free_flows-IsTable}

closes-done :
    (h : Handlers) (timer : Bool) (type : FlowType) (i : ℕ)
    → type ≢ type_none
    → (b : Bool) × (closes h timer type i ≡ done b)
unfolding closes
closes-done h timer type_none i ne = absurd (ne refl)
closes-done h timer tcp i ne = (_, refl)
closes-done h timer tcp_splice i ne = (_, refl)
closes-done h timer ping4 i ne = (_, refl)
closes-done h timer ping6 i ne = (_, refl)
closes-done h timer udp i ne = (_, refl)

-- Whether the handlers close the flow `j`.
abbrev pub is_closed : Run Bool → Bool
is_closed aborted = false
is_closed (done b) = b

module _ (h : Handlers) (timer : Bool) (t : ℕ → Flow) where
  mark_closed-free :
      (fuel i : ℕ) (m : ℕ → Bool)
      → i < flow_max
      → (t i).f.state ≡ free
      → mark_closed h timer t (suc fuel) i m ≡ mark_closed h timer t fuel (i + (t i).n) m
  unfolding mark_closed
  mark_closed-free fuel i m l e = rw (lt→ltb _ _ l, e, mark_closed)

  mark_closed-active :
      (fuel i : ℕ) (m : ℕ → Bool) (b : Bool)
      → i < flow_max
      → (t i).f.state ≡ active
      → closes h timer (t i).f.flow_type i ≡ done b
      → mark_closed h timer t (suc fuel) i m ≡ mark_closed h timer t fuel (i + 1) (update m i b)
  unfolding mark_closed
  mark_closed-active fuel i m b l e c = rw (lt→ltb _ _ l, e, c, mark_closed)

  mark_closed-end :
      (fuel i : ℕ) (m : ℕ → Bool) → flow_max ≤ i → mark_closed h timer t (suc fuel) i m ≡ done m
  unfolding mark_closed
  mark_closed-end fuel i m l = rw (not_lt, mark_closed)
    where
      not_lt : ltb i flow_max ≡ false
      not_lt = ground arith

  -- From the entry `i` on, the marks of the active flows are what their handlers say.
  abbrev Marks : ℕ → (ℕ → Bool) → (ℕ → Bool) → Type 0
  Marks i m m' =
      ((j : ℕ) → j < i → m' j ≡ m j)
      × ((j : ℕ)
          → i ≤ j
          → j < flow_max
          → (t j).f.state ≡ active
          → closes h timer (t j).f.flow_type j ≡ done (m' j))

  Marks-free : (i k : ℕ) (m m' : ℕ → Bool) → IsCluster t i k → Marks (i + k) m m' → Marks i m m'
  Marks-free i k m m' c r = (
    λ j p. r.0 j (omega arith),
    λ j p q a. elim (dec_lt j (i + k)) [
      | yes inner ↦ let f : (t j).f.state ≡ free = free_inside j c p inner in ground arith
      | no outer ↦ r.1 j (omega arith) q a
    ],
  )

  Marks-active :
      (i : ℕ) (b : Bool) (m m' : ℕ → Bool)
      → closes h timer (t i).f.flow_type i ≡ done b
      → Marks (i + 1) (update m i b) m'
      → Marks i m m'
  Marks-active i b m m' c r = (
    λ j p. r.0 j (omega arith) ∙ update_ne m i b j (λ e. omega arith),
    λ j p q a. elim (ℕ_discrete i j) [
      | yes here ↦
          let marked : b ≡ m' i = sym (r.0 i (omega arith) ∙ update_self m i b) in
          subst (λ x. closes h timer (t x).f.flow_type x ≡ done (m' x)) here (c ∙ ap done marked)
      | no ne ↦ r.1 j (omega arith) q a
    ],
  )

  mark_closed-Marks :
      (fuel i start : ℕ) (m : ℕ → Bool)
      → Settled t
      → ((j : ℕ) → j < flow_max → Staged (t j).f.state (t j).f)
      → Clusters t i start
      → flow_max < i + fuel
      → (m' : ℕ → Bool) × (mark_closed h timer t fuel i m ≡ done m') × Marks i m m'
  mark_closed-Marks zero i start m settled staged cs l =
      absurd (omega (arith, lo-le-start cs, start-le cs))
  mark_closed-Marks (suc fuel) i start m settled staged cs l = elim (dec_lt i flow_max) [
    | no not_below ↦
        (m, mark_closed-end fuel i m (omega arith), (λ j p. refl, λ j p q a. absurd (omega arith)))
    | yes below ↦ elim (settled i below) [
      | inl fr ↦
          let c : Head t i i = Head-at cs below fr in
          let size : (t i).n ≡ c.k = c.here.size in
          let (m', e, r) =
            mark_closed-Marks fuel (i + (t i).n) (t i).next m settled staged
              (subst (λ x. Clusters t x (t i).next) (omega (arith, c.end_eq)) c.tail)
              (omega (arith, c.here.some_entry)) in
          (
            m',
            mark_closed-free fuel i m below fr ∙ e,
            Marks-free i (t i).n m m' (subst (IsCluster t i) (sym size) c.here) r,
          )
      | inr act ↦
          let full : Staged active (t i).f = subst (λ x. Staged x (t i).f) act (staged i below) in
          let (b, c) = closes-done h timer (t i).f.flow_type i full.0 in
          let (m', e, r) =
            mark_closed-Marks fuel (i + 1) start (update m i b) settled staged
              (past_used cs below (λ f. ground arith)) (omega arith) in
          (m', mark_closed-active fuel i m b below act c ∙ e, Marks-active i b m m' c r)
    ]
  ]

-- The common part of an entry after a run of the handler.
abbrev pub deferred_common : Handlers → Bool → ℕ → FlowCommon → FlowCommon
deferred_common h timer j f =
    if is_active f.state && is_closed (closes h timer f.flow_type j) then zero_common else f

swept-deferred :
    (h : Handlers) (timer : Bool) (m : ℕ → Bool) (j : ℕ) (f : FlowCommon)
    → (f.state ≡ active → closes h timer f.flow_type j ≡ done (m j))
    → swept_common m j f ≡ deferred_common h timer j f
swept-deferred h timer m j f k = elim (Bool-cases (is_active f.state)) [
  | inl a ↦
      let closed : closes h timer f.flow_type j ≡ done (m j) = k (ground arith) in rw (a, closed)
  | inr n ↦ rw n
]

-- On a valid table with no incomplete flow, flow_defer_handler() ends and fails no assertion. It
-- frees exactly the active flows whose handlers close them, keeps the common part of every other
-- entry, and leaves a valid table with no two free clusters side by side.
pub flow_defer_handler-IsTable :
    (h : Handlers) (timer : Bool) (s : FlowTable)
    → IsTable s
    → s.new_entry ≡ none
    → (s' : FlowTable) × (flow_defer_handler h timer s ≡ done s')
      × IsTable s'
      × (s'.new_entry ≡ none)
      × IsMerged s'.tab
      × ((j : ℕ) → j < flow_max → (s'.tab j).f ≡ deferred_common h timer j (s.tab j).f)
unfolding flow_defer_handler
flow_defer_handler-IsTable h timer s v e =
    let (m, eq, marks) =
      mark_closed-Marks h timer s.tab (suc flow_max) 0 s.first_free (λ i. false)
        (Settled-of_table s v e) v.staged v.list (omega arith) in
    let (s', eq', v', new', merged, common) = free_flows-IsTable s m v e in
    (
      s',
      rw (e, eq) eq',
      v',
      new',
      merged,
      λ j l. common j l ∙ swept-deferred h timer m j (s.tab j).f (marks.1 j (omega arith) l),
    )
