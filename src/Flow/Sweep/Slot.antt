-- ===== src/Flow/Sweep/Slot.antt =====
-- The sweep at one entry: a free cluster, a flow that is kept, a flow that is freed.
use native.Mathlib.Decide.{dec_lt}
use passt.Base.{
  ℕ, ◌+◌, ◌≤◌, ◌<◌, ◌≡◌, ◌≢◌, inl, inr, refl, sym, ap, subst, arith, Bool, false, none, some, ◌∙◌,
}
use passt.Flow.Types.{Flow, free, active, flow_max}
use passt.Flow.Clusters.{
  Clusters, Used, IsCluster, Head, Clusters-cases, Clusters-frame, Clusters-raise,
}
use passt.Flow.Sweep.{Sweep, relink, add_cluster, absorb}
use passt.Flow.Sweep.Prefix.{Prefix, Prefix-frame}
use passt.Flow.Sweep.Step.{
  swept_common, HeadAt, Swept, relink-f, absorb-f, relink-above, absorb_ne, add-Prefix, IsFree,
  absorb-Prefix,
}

-- The rest of the list past an entry that is in use.
pub past_used :
    {t : ℕ → Flow} {i start : ℕ}
    → Clusters t i start
    → i < flow_max
    → (t i).f.state ≢ free
    → Clusters t (i + 1) start
past_used {t} {i} {start} cs l ne = elim (Clusters-cases cs) [
  | inl (e, _, _) ↦ Clusters-raise (i + 1) (omega arith) (omega arith) cs
  | inr h ↦
      let apart : i ≢ start =
        λ e. ne (subst (λ y. (t y).f.state ≡ free) (sym e) h.here.head_free) in
      Clusters-raise (i + 1) (omega arith) (omega (arith, h.above)) cs
]

-- The list at a free entry starts with its cluster.
pub Head-at :
    {t : ℕ → Flow} {i start : ℕ}
    → Clusters t i start
    → i < flow_max
    → (t i).f.state ≡ free
    → Head t i i
Head-at {t} {i} {start} cs l fr = elim (Clusters-cases cs) [
  | inl (e, _, used) ↦ absurd (used i (omega arith) l fr)
  | inr h ↦ elim (dec_lt i start) [
    | yes below ↦ absurd (h.used i (omega arith) below fr)
    | no not_below ↦ let e : start ≡ i = omega (arith, h.above) in subst (λ y. Head t i y) e h
  ]
]

module _ (t : ℕ → Flow) (to_free : ℕ → Bool) where
  pub keep-Swept :
      (i : ℕ) (w : Sweep)
      → Swept t to_free i w
      → i < flow_max
      → (t i).f.state ≡ active
      → to_free i ≡ false
      → Swept t to_free (i + 1) (record w { free_head = none })
  keep-Swept i w v l act kept =
      let here : w.tab i ≡ t i = v.rest i (omega arith) in
      let ne : (w.tab i).f.state ≢ free = rw here (λ f. ground arith) in
      record {
        e = v.e;
        before = v.before;
        low = omega (arith, v.low);
        gap = λ j p q. elim (dec_lt j i) [
          | yes below ↦ v.gap j p below
          | no not_below ↦
              let at : i ≡ j = omega arith in subst (λ y. (w.tab y).f.state ≢ free) at ne
        ];
        head = inr (omega (arith, v.low));
        start = v.start;
        after = past_used v.after l ne;
        rest = λ j p. v.rest j (omega arith);
        settled = λ j p. elim (dec_lt j i) [
          | yes below ↦ v.settled j below
          | no not_below ↦
              let at : i ≡ j = omega arith in
              subst (λ y. (w.tab y).f ≡ swept_common to_free y (t y).f) at
                (rw (here, act, kept) refl)
        ];
      }

  -- What a free entry comes to: what it was.
  pub swept-free : (j : ℕ) → (t j).f.state ≡ free → swept_common to_free j (t j).f ≡ (t j).f
  swept-free j e = ground arith

  -- A table `u` in which the entries [i, i + k) are free as they should be, and no other entry has
  -- changed.
  pub record Freed (w : Sweep) (u : ℕ → Flow) (i k : ℕ) : Type 0 where
    pub low : (j : ℕ) → j < i → u j ≡ w.tab j
    pub high : (j : ℕ) → i + k ≤ j → u j ≡ w.tab j
    pub common : (j : ℕ) → i ≤ j → j < i + k → (u j).f ≡ swept_common to_free j (t j).f
    pub next : ℕ
    pub tail : Clusters w.tab (i + k) next

  -- From the entry `i` to `i + k`, for a new table `u'` that differs from `u` in the list only.
  settle :
      (i k : ℕ) (w : Sweep) (u u' : ℕ → Flow)
      → Swept t to_free i w
      → Freed w u i k
      → ((j : ℕ) → (u' j).f ≡ (u j).f)
      → (j : ℕ) → j < i + k
      → (u' j).f ≡ swept_common to_free j (t j).f
  settle i k w u u' v fr same j p = elim (dec_lt j i) [
    | yes below ↦ same j ∙ (ap (λ y. y.f) (fr.low j below) ∙ v.settled j below)
    | no not_below ↦ same j ∙ fr.common j (omega arith) p
  ]

  gap_of_low :
      (i k : ℕ) (w : Sweep) (u : ℕ → Flow) (v : Swept t to_free i w) (fr : Freed w u i k)
      → Used u v.e i
  gap_of_low i k w u v fr j p q f = v.gap j p q (subst (λ y. y.f.state ≡ free) (fr.low j q) f)

  pub add-Swept :
      (i k : ℕ) (w : Sweep) (u : ℕ → Flow)
      → Swept t to_free i w
      → w.free_head ≡ none
      → IsCluster u i k
      → Freed w u i k
      → Swept t to_free (i + k) (add_cluster (record w { tab = u }) i)
  unfolding add_cluster
  add-Swept i k w u v e c fr =
      let before : Prefix u w.first_free w.last_next v.e =
        Prefix-frame (λ j l. fr.low j (omega (arith, v.low))) v.before in
      let high =
        λ (j : ℕ) (p : i + k ≤ j). relink-above i j before (omega (arith, v.low)) ∙ fr.high j p in
      record {
        e = i + k;
        before =
            add-Prefix k before v.low (gap_of_low i k w u v fr)
              (subst (λ h. HeadAt h w.last_next v.e i) e v.head) c;
        low = omega arith;
        gap = λ j p q. absurd (omega arith);
        head = (refl, refl);
        start = fr.next;
        after = Clusters-frame (λ j p. inl (high j p)) fr.tail;
        rest = λ j p. high j p ∙ v.rest j (omega arith);
        settled = settle i k w u (relink u w.last_next i) v fr (relink-f u w.last_next i);
      }

  pub absorb-Swept :
      (i k h : ℕ) (w : Sweep) (u : ℕ → Flow)
      → Swept t to_free i w
      → w.free_head ≡ some h
      → IsFree u i k
      → Freed w u i k
      → Swept t to_free (i + k) (record w { tab = absorb u h i ((u h).n + k) })
        × (h + (u h).n ≡ i)
        × (h < i)
  absorb-Swept i k h w u v e c fr =
      let at : HeadAt (some h) w.last_next v.e i =
        subst (λ x. HeadAt x w.last_next v.e i) e v.head in
      let before : Prefix u w.first_free w.last_next v.e =
        Prefix-frame (λ j l. fr.low j (omega (arith, v.low))) v.before in
      let grown = absorb-Prefix k before at.0 at.1 c in
      let high = λ (j : ℕ) (p : i + k ≤ j).
        absorb_ne u h i ((u h).n + k) j (λ r. omega (arith, grown.2)) (λ r. omega (arith, c.pos))
        ∙ fr.high j p in
      (
        record {
          e = i + k;
          before =
              subst (λ l. Prefix (absorb u h i ((u h).n + k)) w.first_free l (i + k)) (sym at.0)
                grown.0;
          low = omega arith;
          gap = λ j p q. absurd (omega arith);
          head = subst (λ x. HeadAt x w.last_next (i + k) (i + k)) (sym e) (at.0, refl);
          start = fr.next;
          after = Clusters-frame (λ j p. inl (high j p)) fr.tail;
          rest = λ j p. high j p ∙ v.rest j (omega arith);
          settled = settle i k w u (absorb u h i ((u h).n + k)) v fr (absorb-f u h i ((u h).n + k));
        },
        grown.1,
        grown.2,
      )
