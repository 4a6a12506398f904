-- ===== src/Flow/Sweep/Rebuild.antt =====
-- The whole sweep: it ends, fails no assertion, and leaves the free list of the new table.
use native.Mathlib.Nat.{le_refl}
use passt.Base.{
  ℕ, ◌+◌, ◌%◌, ◌^◌, ◌≤◌, ◌<◌, ◌≡◌, ◌≢◌, ◌⊎◌, inl, inr, refl, sym, ap, subst, arith, Bool, true,
  false, none, some, update, update_ne, ◌∙◌, Run, done, Bool-cases, Option-cases,
}
use passt.Flow.Types.{Flow, free, active, flow_max, zero_common, zero_flow}
use passt.Flow.Table.{set_n}
use passt.Flow.Clusters.{Clusters, IsCluster, Head, free_inside}
use passt.Flow.Sweep.{Sweep, add_cluster, absorb, sweep_free, sweep_closed, sweep_slot}
use passt.Flow.Sweep.Step.{swept_common, Swept, IsFree, IsFree-of_cluster}
use passt.Flow.Sweep.Slot.{
  past_used, Head-at, keep-Swept, swept-free, Freed, add-Swept, absorb-Swept,
}

sweep_free-new :
    (i k : ℕ) (w : Sweep)
    → w.free_head ≡ none
    → (w.tab i).n ≡ k
    → 1 ≤ k
    → sweep_free i w ≡ done (i + k, add_cluster w i)
unfolding sweep_free
sweep_free-new i k w e size pos = ground arith

sweep_free-merge :
    (i k h : ℕ) (w : Sweep)
    → w.free_head ≡ some h
    → (w.tab i).n ≡ k
    → 1 ≤ k
    → h + (w.tab h).n ≡ i
    → i + k ≤ flow_max
    → sweep_free i w ≡ done (i + k, record w { tab = absorb w.tab h i ((w.tab h).n + k) })
unfolding sweep_free
sweep_free-merge i k h w e size pos ends inside =
    let wrap : ((w.tab h).n + k) % 2 ^ 32 ≡ (w.tab h).n + k = omega arith in
    ground (arith, e, size, wrap)

-- The table of an active flow that is freed, where it is counted into a cluster, and where it is a
-- cluster of its own.
abbrev closed_table : Sweep → ℕ → ℕ → Flow
closed_table w i = update w.tab i zero_flow

abbrev closed_first : Sweep → ℕ → ℕ → Flow
closed_first w i = set_n (update w.tab i zero_flow) i 1

sweep_closed-new :
    (i : ℕ) (w : Sweep)
    → w.free_head ≡ none
    → sweep_closed i w ≡ done (i + 1, add_cluster (record w { tab = closed_first w i }) i)
unfolding sweep_closed
sweep_closed-new i w e = ground (arith, e)

sweep_closed-merge :
    (i h : ℕ) (w : Sweep)
    → w.free_head ≡ some h
    → h + (closed_table w i h).n ≡ i
    → i < flow_max
    → sweep_closed i w
      ≡ done (i + 1, record w { tab = absorb (closed_table w i) h i ((closed_table w i h).n + 1) })
unfolding sweep_closed
sweep_closed-merge i h w e ends inside =
    let wrap : ((closed_table w i h).n + 1) % 2 ^ 32 ≡ (closed_table w i h).n + 1 = omega arith in
    let wrap_h : (h + (closed_table w i h).n) % 2 ^ 32 ≡ i = omega arith in
    ground (arith, e, wrap, wrap_h)

-- One zeroed entry, of whatever count, can be counted into a cluster.
zeroed-IsFree : (u : ℕ → Flow) (i : ℕ) → (u i).f ≡ zero_common → i < flow_max → IsFree u i 1
zeroed-IsFree u i e l = record {
  first_free = ap (λ f. f.state) e;
  first_none = ap (λ f. f.flow_type) e;
  blank = λ j p q. absurd (omega arith);
  pos = omega arith;
  inside = omega arith;
}

zeroed-IsCluster :
    (u : ℕ → Flow) (i : ℕ) → (u i).f ≡ zero_common → (u i).n ≡ 1 → i < flow_max → IsCluster u i 1
zeroed-IsCluster u i e n l = record {
  head_free = ap (λ f. f.state) e;
  head_none = ap (λ f. f.flow_type) e;
  size = n;
  some_entry = omega arith;
  inside = omega arith;
  rest = λ j p q. absurd (omega arith);
}

sweep_slot-free :
    (to_free : ℕ → Bool) (i : ℕ) (w : Sweep)
    → (w.tab i).f.state ≡ free
    → sweep_slot to_free i w ≡ sweep_free i w
unfolding sweep_slot
sweep_slot-free to_free i w e = ground (arith, e)

sweep_slot-closed :
    (to_free : ℕ → Bool) (i : ℕ) (w : Sweep)
    → (w.tab i).f.state ≡ active
    → to_free i ≡ true
    → sweep_slot to_free i w ≡ sweep_closed i w
unfolding sweep_slot
sweep_slot-closed to_free i w e m = ground (arith, e, m)

sweep_slot-kept :
    (to_free : ℕ → Bool) (i : ℕ) (w : Sweep)
    → (w.tab i).f.state ≡ active
    → to_free i ≡ false
    → sweep_slot to_free i w ≡ done (i + 1, record w { free_head = none })
unfolding sweep_slot
sweep_slot-kept to_free i w e m = ground (arith, e, m)

module _ (t : ℕ → Flow) (to_free : ℕ → Bool) where
  -- The sweep goes on to a later entry.
  abbrev pub Goes : ℕ → Run (ℕ × Sweep) → Type 0
  Goes i r = (j : ℕ) × (w' : Sweep) × (r ≡ done (j, w')) × (i < j) × Swept t to_free j w'

  free-Goes :
      (i : ℕ) (w : Sweep)
      → Swept t to_free i w
      → i < flow_max
      → (t i).f.state ≡ free
      → Goes i (sweep_free i w)
  unfolding sweep_free
  free-Goes i w v l st =
      let here : w.tab i ≡ t i = v.rest i (omega arith) in
      let h : Head w.tab i i = Head-at v.after l (rw here st) in
      let k = h.k in
      let size : (w.tab i).n ≡ k = h.here.size in
      let freed : Freed t to_free w w.tab i k = record {
        low = λ j p. refl;
        high = λ j p. refl;
        common = λ j p q.
            ap (λ y. y.f) (v.rest j p)
            ∙ sym (
                swept-free t to_free j
                  (subst (λ y. y.f.state ≡ free) (v.rest j p) (free_inside j h.here p q)));
        next = (w.tab i).next;
        tail = subst (λ e. Clusters w.tab e (w.tab i).next) h.end_eq h.tail;
      } in
      elim (Option-cases w.free_head) [
        | inl e ↦ (
          i + k,
          add_cluster w i,
          sweep_free-new i k w e size h.here.some_entry,
          omega (arith, h.here.some_entry),
          add-Swept t to_free i k w w.tab v e h.here freed,
        )
        | inr (x, e) ↦
            let a = absorb-Swept t to_free i k x w w.tab v e (IsFree-of_cluster h.here) freed in
            (
              i + k,
              record w { tab = absorb w.tab x i ((w.tab x).n + k) },
              sweep_free-merge i k x w e size h.here.some_entry a.1 h.here.inside,
              omega (arith, h.here.some_entry),
              a.0,
            )
      ]

  one-Freed :
      (i : ℕ) (w : Sweep) (u : ℕ → Flow)
      → Swept t to_free i w
      → i < flow_max
      → (t i).f.state ≡ active
      → to_free i ≡ true
      → (u i).f ≡ zero_common
      → ((j : ℕ) → i ≢ j → u j ≡ w.tab j)
      → Freed t to_free w u i 1
  one-Freed i w u v l st marked zeroed same = record {
    low = λ j p. same j (λ e. omega arith);
    high = λ j p. same j (λ e. omega arith);
    common = λ j p q.
        let at : i ≡ j = omega arith in
        subst (λ x. (u x).f ≡ swept_common to_free x (t x).f) at (rw (st, marked) zeroed);
    next = v.start;
    tail = past_used v.after l (rw (v.rest i (le_refl i)) (λ f. ground arith));
  }

  closed-Goes :
      (i : ℕ) (w : Sweep)
      → Swept t to_free i w
      → i < flow_max
      → (t i).f.state ≡ active
      → to_free i ≡ true
      → Goes i (sweep_closed i w)
  closed-Goes i w v l st marked = elim (Option-cases w.free_head) [
    | inl e ↦
        let zeroed : (closed_first w i i).f ≡ zero_common = unfold update in ground arith in
        let one : (closed_first w i i).n ≡ 1 = unfold update in ground arith in
        let same = λ (j : ℕ) (ne : i ≢ j). first_same j ne in
        (
          i + 1,
          add_cluster (record w { tab = closed_first w i }) i,
          sweep_closed-new i w e,
          omega arith,
          add-Swept t to_free i 1 w (closed_first w i) v e (zeroed-IsCluster _ i zeroed one l)
              (one-Freed i w (closed_first w i) v l st marked zeroed same),
        )
    | inr (h, e) ↦
        let zeroed : (closed_table w i i).f ≡ zero_common = unfold update in ground arith in
        let a = absorb-Swept t to_free i 1 h w (closed_table w i) v e (zeroed-IsFree _ i zeroed l) (
          one-Freed i w (closed_table w i) v l st marked zeroed
            (λ j ne. update_ne w.tab i zero_flow j ne)) in
        (
          i + 1,
          record w { tab = absorb (closed_table w i) h i ((closed_table w i h).n + 1) },
          sweep_closed-merge i h w e a.1 l,
          omega arith,
          a.0,
        )
  ]
    where
      first_same : (j : ℕ) → i ≢ j → closed_first w i j ≡ w.tab j
      first_same j ne = update_ne _ i _ j ne ∙ update_ne w.tab i zero_flow j ne

  pub slot-Goes :
      (i : ℕ) (w : Sweep)
      → Swept t to_free i w
      → i < flow_max
      → ((t i).f.state ≡ free) ⊎ ((t i).f.state ≡ active)
      → Goes i (sweep_slot to_free i w)
  slot-Goes i w v l kind = elim kind [
    | inl st ↦
        let at : (w.tab i).f.state ≡ free = ap (λ y. y.f.state) (v.rest i (le_refl i)) ∙ st in
        subst (Goes i) (sym (sweep_slot-free to_free i w at)) (free-Goes i w v l st)
    | inr st ↦
        let at : (w.tab i).f.state ≡ active = ap (λ y. y.f.state) (v.rest i (le_refl i)) ∙ st in
        elim (Bool-cases (to_free i)) [
          | inl m ↦
              subst (Goes i) (sym (sweep_slot-closed to_free i w at m)) (closed-Goes i w v l st m)
          | inr m ↦ subst (Goes i) (sym (sweep_slot-kept to_free i w at m)) (
            i + 1,
            record w { free_head = none },
            refl,
            omega arith,
            keep-Swept t to_free i w v l st m,
          )
        ]
  ]
