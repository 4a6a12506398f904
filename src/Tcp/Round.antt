-- ===== src/Tcp/Round.antt =====
-- A round of the loop of tcp_data_from_tap(), and what the loop promises.
use native.Mathlib.Nat.{add-mul}
use passt.Base.{
  ℕ, ◌+◌, ◌-◌, ◌*◌, ◌%◌, ◌^◌, ◌≤◌, ◌<◌, ◌≡◌, ◌⊎◌, inl, inr, refl, sym, subst, ap, ◌∙◌, arith, Bool,
  true, Option, none, some, length, ◌&&◌, Option-cases, sub_u32,
}
use passt.Iov.{Memory, iov_tail_clone, iov_drop_header}
use passt.Tcp.{TcpTapConn, TcpCalls}
use passt.Tcp.Gather.{
  uio_maxiov, Segment, Batch, Gathered, failed, stopped, gathered, Fate, discard, later, use_now,
  take_data, gather_from, next_index, unkeep, keep_first,
}
use passt.Tcp.Stream.{Carries}
use passt.Tcp.Scan.{
  Old, Settled, Scanned, Exhausted, no_room, Old-Scanned, later-Scanned, use-Scanned,
}
use passt.Tcp.Deliver.{FateOf, is_old, is_ahead, is_next, HasBytes, HasBytes-eq}
use passt.Tcp.Take.{take-HasBytes, take-full}

abbrev pub segment_or : Segment → Option Segment → Segment
segment_or s none = s
segment_or s (some s') = s'

abbrev batch_or : Batch → Option Batch → Batch
batch_or b none = b
batch_or b (some b') = b'

pub both : (a b : Bool) → (a && b) ≡ true → (a ≡ true) × (b ≡ true)
both a b e = (ground arith, ground arith)

-- Taking data leaves `keep` as it is.
take_keep : (s : Segment) (b b' : Batch) → take_data s b ≡ some b' → b'.keep ≡ b.keep
unfolding take_data
take_keep s b b' e =
    let k = sub_u32 b.seq_from_tap s.seq in
    let clone = iov_tail_clone (uio_maxiov - length b.iov) (iov_drop_header s.payload k).1 in
    let same : (batch_or b (take_data s b)).keep ≡ b.keep = elim (Option-cases clone) [
      | inl full ↦ rw (full, take_data) refl
      | inr (dst, e') ↦ rw (e', take_data) refl
    ] in
    sym (ap (λ o. (batch_or b o).keep) e) ∙ same

-- Rounds left: one over the batch for each entry of `tcp_iov` that is left, and the one at hand.
abbrev pub rounds : ℕ → ℕ → ℕ → ℕ
rounds count i entries = (uio_maxiov - entries) * (count + 1) + (count - i)

fewer_rounds :
    (count i i' entries entries' : ℕ)
    → i < count
    → entries < entries'
    → entries' ≤ uio_maxiov
    → rounds count i' entries' < rounds count i entries
fewer_rounds count i i' entries entries' l l' h =
    let d = entries' - entries - 1 in
    let r = uio_maxiov - entries' in
    let gap : uio_maxiov - entries ≡ (1 + d) + r = omega arith in
    let split : (uio_maxiov - entries) * (count + 1) ≡ (1 + d + r) * (count + 1) =
      ap (λ x. x * (count + 1)) gap in
    let parts : (1 + d + r) * (count + 1) ≡ 1 * (count + 1) + d * (count + 1) + r * (count + 1) =
      add-mul (1 + d) r (count + 1) ∙ ap (λ x. x + r * (count + 1)) (add-mul 1 d (count + 1)) in
    omega (arith, split, parts)

module _ (m : Memory) (f : ℕ → ℕ) (lo pos0 : ℕ) (count : ℕ) (seg : ℕ → Option Segment) (pos : ℕ → ℕ)
    (idx : ℕ) where
  -- The loop's result: what is gathered are the stream's bytes from `pos0` on, and no segment is left whose
  -- data are next.
  pub data Delivered : Gathered → Type 0 where
    is_failed : (k : TcpTapConn) → Delivered (failed k)
    is_stopped : (k : TcpTapConn) → Delivered (stopped k)
    is_gathered :
        (b : Batch) (k : TcpTapConn) (n : ℕ)
        → HasBytes m f lo pos0 b n
        → Exhausted seg pos idx count b (pos0 + n)
        → k.seq_from_tap ≡ pos0 % 2 ^ 32
        → Delivered (gathered b k)

  module _ (calls : TcpCalls) where
    abbrev pub Ends : ℕ → ℕ → Batch → TcpTapConn → Type 0
    Ends fuel i b k =
        (r : Gathered) × (gather_from calls count seg fuel i b k ≡ some r) × Delivered r

    -- A round of the loop, whose data have the fate `w`, and the rounds after it.
    module _ (fuel i : ℕ) (k : TcpTapConn) (s : Segment) (es : seg i ≡ some s)
        (c : Carries m f lo (pos i) s) (b : Batch) (n : ℕ) (h : HasBytes m f lo pos0 b n)
        (l : i < count) (le : rounds count i (length b.iov) ≤ fuel)
        (at_k : k.seq_from_tap ≡ pos0 % 2 ^ 32) (sc : Scanned seg pos idx i b.keep (pos0 + n))
        (ih : (i' : ℕ) (b' : Batch) (n' : ℕ)
          → HasBytes m f lo pos0 b' n'
          → rounds count i' (length b'.iov) < fuel
          → Scanned seg pos idx i' b'.keep (pos0 + n')
          → Ends fuel i' b' k) where
      -- The segment at `i` is the one at hand.
      this : (s' : Segment) → seg i ≡ some s' → s ≡ s'
      this s' e = ap (segment_or s) (sym es ∙ e)

      this-Old : (s.len ≡ 0) ⊎ (pos i + s.len ≤ pos0 + n) → Old seg pos idx (pos0 + n) i
      this-Old o s' e = subst (λ x. (x.len ≡ 0) ⊎ (pos i + x.len ≤ pos0 + n)) (this s' e) o

      this-Settled : pos0 + n < pos i → Settled seg pos idx (pos0 + n) i
      this-Settled a s' e = inr (inr a)

      -- After its data are used, the segment is old.
      used :
          (b'' : Batch)
          → b''.keep ≡ b.keep
          → FateOf s (pos i) (pos0 + n) use_now
          → Scanned seg pos idx
              (next_index (unkeep b''.keep i) i)
              (unkeep b''.keep i)
              (pos0 + (pos i + s.len - pos0))
      used b'' e (is_next l' g) =
          let old : Old seg pos idx (pos0 + (pos i + s.len - pos0)) i = λ s' e'.
            subst (λ x. (x.len ≡ 0) ⊎ (pos i + x.len ≤ pos0 + (pos i + s.len - pos0))) (this s' e')
              (inr (omega arith)) in
          subst
            (λ o.
              Scanned seg pos idx (next_index (unkeep o i) i) (unkeep o i)
                (pos0 + (pos i + s.len - pos0)))
            (sym e)
            (use-Scanned seg pos idx i b.keep (pos0 + n) (pos0 + (pos i + s.len - pos0)) sc
              (omega arith) old)

      after_take :
          (w : Option Batch)
          → FateOf s (pos i) (pos0 + n) use_now
          → take_data s b ≡ w
          → (r : Gathered) × (elim w as (λ x. Option Gathered) [
            | none ↦ some (gathered b k)
            | some b'' ↦
                let keep = unkeep b''.keep i in
                gather_from calls count seg fuel (next_index keep i) (record b'' { keep = keep }) k
          ]
              ≡ some r)
            × Delivered r
      after_take none (is_next l' g) e = (
        gathered b k,
        refl,
        is_gathered b k n h
            (no_room i s sc.low l es l' g (take-full m f lo pos0 s b n (pos i) c h l' e)) at_k,
      )
      after_take (some b'') q e =
          let (h', grew) = take-HasBytes m f lo pos0 s b n (pos i) c h b'' q e in
          let keep = unkeep b''.keep i in
          let room = h'.room in
          ih (next_index keep i) (record b'' { keep = keep }) (pos i + s.len - pos0)
            (HasBytes-eq m f lo pos0 b'' (record b'' { keep = keep }) (pos i + s.len - pos0) refl
              refl h')
            (omega (
              arith,
              fewer_rounds count i (next_index keep i) (length b.iov) (length b''.iov) l grew room,
              le,
            ))
            (used b'' (take_keep s b b'' e) q)

      pub after_fate :
          (w : Fate)
          → FateOf s (pos i) (pos0 + n) w
          → (r : Gathered) × (elim w as (λ x. Option Gathered) [
            | discard ↦ gather_from calls count seg fuel (i + 1) b k
            | later ↦
                gather_from calls count seg fuel (i + 1) (record b { keep = keep_first b.keep i }) k
            | use_now ↦ elim (take_data s b) [
              | none ↦ some (gathered b k)
              | some b'' ↦
                  let keep = unkeep b''.keep i in
                  gather_from calls count seg fuel
                    (next_index keep i)
                    (record b'' { keep = keep })
                    k
            ]
          ]
              ≡ some r)
            × Delivered r
      after_fate discard (is_old o) =
          ih (i + 1) b n h (omega arith)
            (Old-Scanned seg pos idx i b.keep (pos0 + n) sc (this-Old o))
      after_fate later (is_ahead a) =
          let b' : Batch = record b { keep = keep_first b.keep i } in
          ih (i + 1) b' n (HasBytes-eq m f lo pos0 b b' n refl refl h) (omega arith)
            (later-Scanned seg pos idx i b.keep (pos0 + n) sc (this-Settled a))
      after_fate use_now q = after_take (take_data s b) q refl
