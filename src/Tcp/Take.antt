-- ===== src/Tcp/Take.antt =====
-- Taking the data of a segment that is next: they are added to what is gathered, or do not fit.
use mathlib.Core.Path.{ap₂}
use passt.Base.{
  ℕ, ◌+◌, ◌-◌, ◌≤◌, ◌<◌, ◌≡◌, inl, inr, refl, sym, subst, ap, ◌∙◌, arith, Option, none, some, List,
  ◌++◌, length, sub_u32, add_u32, sub_size, Option-cases,
}
use passt.Iov.{Iovec, Memory, iov_tail_prune, iov_drop_header, iov_tail_clone}
use passt.Iov.Tail.{iov_tail_clone_lem}
use passt.Tcp.Gather.{uio_maxiov, Segment, Batch, use_now, take_data}
use passt.Tcp.Stream.{Carries}
use passt.Tcp.Deliver.{FateOf, is_next, offset_lem, HasBytes, cloned-HasBytes}

some-ne-none : (b : Batch) → some b ≡ none → ⊥
some-ne-none b e = cc

some_of : Batch → Option Batch → Batch
some_of b none = b
some_of b (some x) = x

-- The batch with the data past the offset.
abbrev with_data : Segment → Batch → ℕ → List Iovec → Batch
with_data s b offset dst = record b {
  seq_from_tap = add_u32 b.seq_from_tap (sub_size s.len offset);
  iov = b.iov ++ dst;
}

take_data-some :
    (s : Segment) (b : Batch) (offset : ℕ) (dst : List Iovec)
    → sub_u32 b.seq_from_tap s.seq ≡ offset
    → iov_tail_clone (uio_maxiov - length b.iov) (iov_drop_header s.payload offset).1 ≡ some dst
    → take_data s b ≡ some (with_data s b offset dst)
unfolding take_data
take_data-some s b offset dst off e =
    rw (off, e, take_data) (ap (λ x. some (with_data s b x dst)) off)

take_data-none :
    (s : Segment) (b : Batch) (offset : ℕ)
    → sub_u32 b.seq_from_tap s.seq ≡ offset
    → iov_tail_clone (uio_maxiov - length b.iov) (iov_drop_header s.payload offset).1 ≡ none
    → take_data s b ≡ none
unfolding take_data
take_data-none s b offset off e = rw (off, e, take_data) refl

module _ (m : Memory) (f : ℕ → ℕ) (lo pos0 : ℕ) (s : Segment) (b : Batch) (n : ℕ) (pos : ℕ)
    (c : Carries m f lo pos s) (h : HasBytes m f lo pos0 b n) where
  is_offset : pos ≤ pos0 + n → sub_u32 b.seq_from_tap s.seq ≡ pos0 + n - pos
  is_offset l = ap₂ sub_u32 h.next c.seq_is ∙ offset_lem lo pos (pos0 + n) c.low l h.high

  -- Taking the next segment's data.
  pub take-HasBytes :
      (b' : Batch)
      → FateOf s pos (pos0 + n) use_now
      → take_data s b ≡ some b'
      → HasBytes m f lo pos0 b' (pos + s.len - pos0) × (length b.iov < length b'.iov)
  unfolding some_of
  take-HasBytes b' (is_next l g) e =
      let offset = pos0 + n - pos in
      elim (Option-cases
        (iov_tail_clone (uio_maxiov - length b.iov) (iov_drop_header s.payload offset).1)) [
          | inl full ↦
              absurd (some-ne-none b' (sym e ∙ take_data-none s b offset (is_offset l) full))
          | inr (dst, e') ↦
              subst
                (λ x. HasBytes m f lo pos0 x (pos + s.len - pos0) × (length b.iov < length x.iov))
                (ap (some_of b) (sym (take_data-some s b offset dst (is_offset l) e') ∙ e))
                (cloned-HasBytes m f lo pos0 s b n pos c dst l g h e')
        ]

  -- The next segment's data do not fit.
  pub take-full :
      pos ≤ pos0 + n
      → take_data s b ≡ none
      → uio_maxiov
        < length b.iov
          + length (iov_tail_prune (iov_drop_header s.payload (pos0 + n - pos)).1).1.iov
  take-full l e =
      let offset = pos0 + n - pos in
      let rest = (iov_drop_header s.payload offset).1 in
      let room = uio_maxiov - length b.iov in
      let fits = h.room in
      elim (Option-cases (iov_tail_clone room rest)) [
        | inl full ↦ omega (arith, (iov_tail_clone_lem room rest).0.0 full, fits)
        | inr (dst, e') ↦
            absurd (some-ne-none _ (sym (take_data-some s b offset dst (is_offset l) e') ∙ e))
      ]
