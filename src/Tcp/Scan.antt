-- ===== src/Tcp/Scan.antt =====
-- What is known of the segments that the loop of tcp_data_from_tap() has passed.
use native.Mathlib.Decide.{dec_lt}
use passt.Base.{
  ℕ, ◌+◌, ◌-◌, length, ◌≤◌, ◌<◌, ◌≡◌, ◌⊎◌, inl, inr, subst, arith, Option, none, some, Bool-cases,
  ==_iff, ◌==◌,
}
use passt.Tcp.Gather.{Segment, Batch, keep_first, unkeep, next_index, uio_maxiov}
use passt.Iov.{iov_tail_prune, iov_drop_header}

module _ (seg : ℕ → Option Segment) (pos : ℕ → ℕ) (idx : ℕ) where
  -- The segment ends at or before the position `p`.
  abbrev pub Old : ℕ → ℕ → Type 0
  Old p j = (s : Segment) → seg j ≡ some s → (s.len ≡ 0) ⊎ (pos j + s.len ≤ p)

  -- The segment ends at or before the position `p`, or starts behind it.
  abbrev pub Settled : ℕ → ℕ → Type 0
  Settled p j = (s : Segment) → seg j ≡ some s → (s.len ≡ 0) ⊎ ((pos j + s.len ≤ p) ⊎ (p < pos j))

  -- The first index whose segment may lie ahead.
  abbrev pub first_ahead : Option ℕ → ℕ → ℕ
  first_ahead none i = i
  first_ahead (some q) i = q

  -- The segments from `idx` on that the loop has passed at the index `i`.
  pub record Scanned (i : ℕ) (keep : Option ℕ) (p : ℕ) : Type 0 where
    pub low : idx ≤ i
    pub from : idx ≤ first_ahead keep i
    pub before : (j : ℕ) → idx ≤ j → j < first_ahead keep i → Old p j
    pub after : (j : ℕ) → first_ahead keep i ≤ j → j < i → Settled p j

  pub Old-Settled : (p j : ℕ) → Old p j → Settled p j
  Old-Settled p j o s e = elim (o s e) [ inl z ↦ inl z | inr l ↦ inr (inl l) ]

  Old-later : (p p' j : ℕ) → p ≤ p' → Old p j → Old p' j
  Old-later p p' j l o s e = elim (o s e) [ inl z ↦ inl z | inr l' ↦ inr (omega arith) ]

  -- Of the indices below `i + 1`, that of `i` and the others.
  below_next : (P : ℕ → Type 0) (i : ℕ) → ((j : ℕ) → j < i → P j) → P i → (j : ℕ) → j < i + 1 → P j
  below_next P i f x j l = elim (dec_lt j i) [
    | yes l' ↦ f j l'
    | no n ↦ let e : i ≡ j = omega arith in subst P e x
  ]

  pub start-Scanned : (p : ℕ) → Scanned idx none p
  start-Scanned p = record {
    low = omega arith;
    from = omega arith;
    before = λ j l l'. absurd (omega arith);
    after = λ j l l'. absurd (omega arith);
  }

  -- The loop passes a segment that is old.
  pub Old-Scanned :
      (i : ℕ) (keep : Option ℕ) (p : ℕ) → Scanned i keep p → Old p i → Scanned (i + 1) keep p
  Old-Scanned i none p c o = record {
    low = omega (arith, c.low);
    from = omega (arith, c.low);
    before =
        λ j l l'. below_next (λ j. idx ≤ j → Old p j) i (λ j a b. c.before j b a) (λ b. o) j l' l;
    after = λ j l l'. absurd (omega arith);
  }
  Old-Scanned i (some q) p c o = record {
    low = omega (arith, c.low);
    from = c.from;
    before = c.before;
    after = λ j l l'.
        below_next (λ j. q ≤ j → Settled p j) i (λ j a b. c.after j b a) (λ b. Old-Settled p i o) j
          l' l;
  }

  -- The loop passes a segment that lies ahead.
  pub later-Scanned :
      (i : ℕ) (keep : Option ℕ) (p : ℕ)
      → Scanned i keep p
      → Settled p i
      → Scanned (i + 1) (keep_first keep i) p
  later-Scanned i none p c o = record {
    low = omega (arith, c.low);
    from = c.low;
    before = c.before;
    after = λ j l l'. let e : i ≡ j = omega arith in subst (Settled p) e o;
  }
  later-Scanned i (some q) p c o = record {
    low = omega (arith, c.low);
    from = c.from;
    before = c.before;
    after =
        λ j l l'. below_next (λ j. q ≤ j → Settled p j) i (λ j a b. c.after j b a) (λ b. o) j l' l;
  }

  -- The loop uses a segment, and goes back to the first one ahead.
  pub use-Scanned :
      (i : ℕ) (keep : Option ℕ) (p p' : ℕ)
      → Scanned i keep p
      → p ≤ p'
      → Old p' i
      → Scanned (next_index (unkeep keep i) i) (unkeep keep i) p'
  use-Scanned i none p p' c g o = record {
    low = omega (arith, c.low);
    from = omega (arith, c.low);
    before = λ j l l'.
        below_next (λ j. idx ≤ j → Old p' j) i (λ j a b. Old-later p p' j g (c.before j b a))
          (λ b. o) j l' l;
    after = λ j l l'. absurd (omega arith);
  }
  use-Scanned i (some q) p p' c g o = elim (Bool-cases (q == i)) [
    | inl e ↦
        let same = (==_iff q i).0 e in
        simp e (record {
          low = omega (arith, c.low);
          from = omega (arith, c.low);
          before = λ j l l'.
              below_next (λ j. idx ≤ j → Old p' j) i
                (λ j a b. Old-later p p' j g (c.before j b (omega arith))) (λ b. o) j l' l;
          after = λ j l l'. absurd (omega arith);
        })
    | inr e ↦ simp e (record {
      low = c.from;
      from = c.from;
      before = λ j l l'. Old-later p p' j g (c.before j l l');
      after = λ j l l'. absurd (omega arith);
    })
  ]

  -- Why the loop ends: all segments are settled, or there is no room in `tcp_iov` for the rest of one
  -- whose data are next.
  pub data Exhausted (count : ℕ) (b : Batch) (p : ℕ) : Type 0 where
    all_settled : ((j : ℕ) → idx ≤ j → j < count → Settled p j) → Exhausted count b p
    no_room :
        (i : ℕ) (s : Segment)
        → idx ≤ i
        → i < count
        → seg i ≡ some s
        → pos i ≤ p
        → p < pos i + s.len
        → uio_maxiov
          < length b.iov + length (iov_tail_prune (iov_drop_header s.payload (p - pos i)).1).1.iov
        → Exhausted count b p

  pub end-Exhausted :
      (count i : ℕ) (b : Batch) (p : ℕ) → Scanned i b.keep p → count ≤ i → Exhausted count b p
  end-Exhausted count i b p c l = all_settled (λ j a h. elim (dec_lt j (first_ahead b.keep i)) [
    | yes below ↦ Old-Settled p j (c.before j a below)
    | no above ↦ c.after j (omega arith) (omega arith)
  ])
