-- ===== src/Flow/Lifecycle.antt =====
-- The steps of a new flow, from flow_alloc() to flow_activate() or flow_alloc_cancel().
use native.Mathlib.Decide.{ℕ_discrete}
use passt.Base.{
  ℕ, ◌+◌, ◌≡◌, ◌≢◌, inl, inr, refl, sym, subst, arith, true, none, some, Option, update, Run, done,
  aborted,
}
use passt.Flow.Types.{
  free, new, ini, tgt, typed, active, FlowCommon, FlowType, type_none, zero_flow, pif_none,
}
use passt.Flow.Table.{
  FlowTable, set_common, flow_alloc_cancel, flow_initiate, flow_set_type, flow_activate,
  is_incomplete,
}
use passt.Flow.Clusters.{cluster, Clusters-frame, Clusters-raise, Alike, Used-below}
use passt.Flow.Invariant.{IsTable, Staged, NewEntry}

cancelled : FlowTable → ℕ → FlowTable
cancelled s i = record {
  tab = update s.tab i (record zero_flow { n = 1; next = s.first_free });
  first_free = i;
  new_entry = none;
}

cancelled-IsTable :
    (s : FlowTable) (i : ℕ) → IsTable s → s.new_entry ≡ some i → IsTable (cancelled s i)
unfolding cancelled update
cancelled-IsTable s i v e =
    let entry : NewEntry s (some i) = subst (NewEntry s) e v.newest in
    record {
      list =
          cluster 1 s.first_free (i + 1) refl (omega arith)
            (λ j p q. ground (arith, Used-below v.list j))
            (record {
              head_free = ground arith;
              head_none = ground arith;
              size = ground arith;
              some_entry = omega arith;
              inside = omega arith;
              rest = λ j p q. absurd (omega arith);
            })
            (ground arith)
            (Clusters-frame (λ j p. inl (ground arith))
              (Clusters-raise (i + 1) (omega arith) (omega arith) v.list));
      staged = λ j p. ground (arith, v.staged j);
      complete = λ j p q. ground (arith, v.complete j);
      newest = tt;
    }

-- flow_alloc_cancel() of the new entry passes its assertions; the entry is free again and heads the
-- free list, and the table stays valid.
pub flow_alloc_cancel-IsTable :
    (s : FlowTable) (i : ℕ)
    → IsTable s
    → s.new_entry ≡ some i
    → (s' : FlowTable) × (flow_alloc_cancel s i ≡ done s')
      × IsTable s'
      × (s'.new_entry ≡ none)
      × (s'.first_free ≡ i)
      × ((s'.tab i).f.state ≡ free)
      × ((j : ℕ) → j ≢ i → s'.tab j ≡ s.tab j)
unfolding flow_alloc_cancel cancelled update
flow_alloc_cancel-IsTable s i v e =
    let entry : NewEntry s (some i) = subst (NewEntry s) e v.newest in
    (
      cancelled s i,
      ground (arith, e),
      cancelled-IsTable s i v e,
      refl,
      refl,
      ground arith,
      λ j ne. ground arith,
    )

incomplete-ne-free : (f : FlowCommon) → is_incomplete f.state ≡ true → f.state ≢ free
incomplete-ne-free f h e = ground arith

Alike-set_common :
    (s : FlowTable) (i : ℕ) (f : FlowCommon)
    → f.state ≢ free
    → (s.tab i).f.state ≢ free
    → (j : ℕ) → Alike s.tab (set_common s.tab i f) j
unfolding update
Alike-set_common s i f h h' j = elim (ℕ_discrete i j) [
  | yes e ↦ subst (λ k. Alike s.tab (set_common s.tab i f) k) e (inr (h', ground arith))
  | no ne ↦ inl (ground arith)
]

-- A new common part for the new entry, of an incomplete state that it fits, keeps the table valid.
pub set_common-IsTable :
    (s : FlowTable) (i : ℕ) (f : FlowCommon)
    → IsTable s
    → s.new_entry ≡ some i
    → is_incomplete f.state ≡ true
    → Staged f.state f
    → IsTable (record s { tab = set_common s.tab i f })
unfolding update
set_common-IsTable s i f v e inc st =
    let entry : NewEntry s (some i) = subst (NewEntry s) e v.newest in
    record {
      list =
          Clusters-frame
            (λ j p.
              Alike-set_common s i f (incomplete-ne-free f inc)
                (incomplete-ne-free (s.tab i).f entry.2) j)
            v.list;
      staged = λ j p. ground (arith, v.staged j);
      complete = λ j p q. ground (arith, v.complete j);
      newest = subst (NewEntry (record s { tab = set_common s.tab i f })) (sym e) (ground arith);
    }

-- What a call leaves that passes its assertions: a valid table, in which only the common part of the
-- entry `i`, and whether it is the new one, have changed.
pub record Effect (s : FlowTable) (i : ℕ) (f : FlowCommon) (new_entry : Option ℕ) (s' : FlowTable)
    : Type 0 where
  pub valid : IsTable s'
  pub stored : s'.tab i ≡ record (s.tab i) { f = f }
  pub others : (j : ℕ) → j ≢ i → s'.tab j ≡ s.tab j
  pub same_free : s'.first_free ≡ s.first_free
  pub newest : s'.new_entry ≡ new_entry

-- A call that passes its assertions where `guard` holds, and aborts where it does not.
pub data Stepped (guard : Type 0) (s : FlowTable) (i : ℕ) (f : FlowCommon) (new_entry : Option ℕ)
    : Run FlowTable → Type 0 where
  passes :
      (s' : FlowTable) → guard → Effect s i f new_entry s' → Stepped guard s i f new_entry (done s')
  aborts : ¬ guard → Stepped guard s i f new_entry aborted

not_aborted : (s' : FlowTable) → aborted ≡ done s' → ⊥
not_aborted s' e = cc

run_guard :
    {guard : Type 0} {s : FlowTable} {i : ℕ} {f : FlowCommon} {new_entry : Option ℕ}
    (r : Run FlowTable) (s' : FlowTable)
    → ((t : FlowTable) → r ≡ done t → guard)
    → (guard → r ≡ done s')
    → (guard → Effect s i f new_entry s')
    → Stepped guard s i f new_entry r
run_guard {guard} {s} {i} {f} {new_entry} (done t) s' g e h =
    let q = g t refl in subst (Stepped guard s i f new_entry) (sym (e q)) (passes s' q (h q))
run_guard aborted s' g e h = aborts (λ q. not_aborted s' (e q))

staged_as : (s : FlowTable) (i : ℕ) (f : FlowCommon) → FlowTable
staged_as s i f = record s { tab = set_common s.tab i f }

staged_as-Effect :
    (s : FlowTable) (i : ℕ) (f : FlowCommon)
    → IsTable s
    → s.new_entry ≡ some i
    → is_incomplete f.state ≡ true
    → Staged f.state f
    → Effect s i f s.new_entry (staged_as s i f)
unfolding staged_as update
staged_as-Effect s i f v e inc st = record {
  valid = set_common-IsTable s i f v e inc st;
  stored = ground arith;
  others = λ j ne. ground arith;
  same_free = refl;
  newest = refl;
}

-- On a valid table flow_initiate_() passes its assertions for the new entry in state NEW with a real
-- interface, and aborts otherwise. Where it passes, the entry is in state INI with that interface, nothing else
-- changes, and the table stays valid.
pub flow_initiate-Stepped :
    (s : FlowTable) (i pif : ℕ)
    → IsTable s
    → Stepped
        ((s.new_entry ≡ some i) × ((s.tab i).f.state ≡ new) × (pif ≢ pif_none))
        s
        i
        (record ((s.tab i).f) { pif_ini = pif; state = ini })
        s.new_entry
        (flow_initiate s i pif)
unfolding flow_initiate staged_as
flow_initiate-Stepped s i pif v =
    run_guard (flow_initiate s i pif)
      (staged_as s i (record ((s.tab i).f) { pif_ini = pif; state = ini }))
      (λ t q. ground (arith, q))
      (λ h.
        let entry : NewEntry s (some i) = subst (NewEntry s) h.0 v.newest in
        ground (arith, h, v.staged i))
      (λ h.
        let entry : NewEntry s (some i) = subst (NewEntry s) h.0 v.newest in
        staged_as-Effect s i _ v h.0 refl (ground (arith, h, v.staged i)))

pub flow_set_type-Stepped :
    (s : FlowTable) (i : ℕ) (type : FlowType)
    → IsTable s
    → Stepped
        ((s.new_entry ≡ some i) × ((s.tab i).f.state ≡ tgt) × (type ≢ type_none))
        s
        i
        (record ((s.tab i).f) { flow_type = type; state = typed })
        s.new_entry
        (flow_set_type s i type)
unfolding flow_set_type staged_as
flow_set_type-Stepped s i type v =
    run_guard (flow_set_type s i type)
      (staged_as s i (record ((s.tab i).f) { flow_type = type; state = typed }))
      (λ t q. ground (arith, q))
      (λ h.
        let entry : NewEntry s (some i) = subst (NewEntry s) h.0 v.newest in
        ground (arith, h, v.staged i))
      (λ h.
        let entry : NewEntry s (some i) = subst (NewEntry s) h.0 v.newest in
        staged_as-Effect s i _ v h.0 refl (ground (arith, h, v.staged i)))

activated : FlowTable → ℕ → FlowTable
activated s i = record s {
  tab = set_common s.tab i (record ((s.tab i).f) { state = active });
  new_entry = none;
}

activated-IsTable :
    (s : FlowTable) (i : ℕ)
    → IsTable s
    → s.new_entry ≡ some i
    → (s.tab i).f.state ≡ typed
    → IsTable (activated s i)
unfolding activated update
activated-IsTable s i v e st =
    let entry : NewEntry s (some i) = subst (NewEntry s) e v.newest in
    record {
      list =
          Clusters-frame
            (λ j p.
              Alike-set_common s i _ (λ h. ground arith) (incomplete-ne-free (s.tab i).f entry.2) j)
            v.list;
      staged = λ j p. ground (arith, v.staged j, v.staged i);
      complete = λ j p q. ground (arith, v.complete j);
      newest = tt;
    }

-- On a valid table flow_activate() passes its assertions for the new entry in state TYPED, and aborts
-- otherwise. Where it passes, the entry is in state ACTIVE and no longer the new one, nothing else changes, and
-- the table stays valid.
pub flow_activate-Stepped :
    (s : FlowTable) (i : ℕ)
    → IsTable s
    → Stepped
        ((s.new_entry ≡ some i) × ((s.tab i).f.state ≡ typed))
        s
        i
        (record ((s.tab i).f) { state = active })
        none
        (flow_activate s i)
unfolding flow_activate activated update
flow_activate-Stepped s i v =
    run_guard (flow_activate s i) (activated s i) (λ t q. ground (arith, q))
      (λ h.
        let entry : NewEntry s (some i) = subst (NewEntry s) h.0 v.newest in
        ground (arith, h, v.staged i))
      (λ h. record {
        valid = activated-IsTable s i v h.0 h.1;
        stored = ground arith;
        others = λ j ne. ground arith;
        same_free = refl;
        newest = refl;
      })
