-- ===== src/Tcp/Loop.antt =====
-- The loop of tcp_data_from_tap() ends, with the stream's next bytes in order.
use passt.Base.{
  ℕ, zero, suc, ◌+◌, ◌*◌, ◌%◌, ◌^◌, ◌≤◌, ◌<◌, ◌≡◌, ◌⊎◌, inl, inr, refl, sym, subst, ap, ◌∙◌, arith,
  true, Option, some, length, ltb, ◌==◌, Bool-cases, Option-cases, ltb→lt, leb→le, leb, not_ltb,
}
use passt.Iov.{Memory}
use passt.Tcp.{TcpTapConn, TcpCalls, max_window, seq_lt, tcp_tap_window_update}
use passt.Tcp.Gather.{
  uio_maxiov, Segment, Batch, Gathered, failed, stopped, gathered, start_batch, fate, flag_segment,
  gather_from, gather, is_keepalive,
}
use passt.Tcp.Stream.{Carries}
use passt.Tcp.Scan.{Old, Scanned, start-Scanned, Old-Scanned, end-Exhausted}
use passt.Tcp.Keep.{KeepsSeq, flags_keep}
use passt.Tcp.Deliver.{fate-FateOf, ahead_lem, HasBytes, HasBytes-eq}
use passt.Tcp.Flags.{flags_if-Same}
use passt.Tcp.Round.{
  segment_or, both, rounds, Delivered, is_failed, is_stopped, is_gathered, Ends, after_fate,
}

module _ (m : Memory) (f : ℕ → ℕ) (lo pos0 : ℕ) (count : ℕ) (seg : ℕ → Option Segment) (pos : ℕ → ℕ)
    (idx : ℕ) (calls : TcpCalls) (laws : KeepsSeq calls)
    (carried : (i : ℕ) (s : Segment) → seg i ≡ some s → Carries m f lo (pos i) s) where
  -- A run that takes the same way as another has its result.
  same_run :
      {x y : Option Gathered}
      → ((r : Gathered) × (y ≡ some r) × Delivered m f lo pos0 count seg pos idx r)
      → x ≡ y
      → (r : Gathered) × (x ≡ some r) × Delivered m f lo pos0 count seg pos idx r
  same_run (r, run, d) e = (r, e ∙ run, d)

  -- A keep-alive segment is old.
  keepalive-Old :
      (i : ℕ) (s : Segment) (k : TcpTapConn) (n : ℕ)
      → seg i ≡ some s
      → Carries m f lo (pos i) s
      → (b : Batch) → HasBytes m f lo pos0 b n
      → is_keepalive s k ≡ true
      → k.seq_from_tap ≡ pos0 % 2 ^ 32
      → Old seg pos idx (pos0 + n) i
  keepalive-Old i s k n es c b h alive at_k s' e =
      let (lt, short) = both (seq_lt s.seq k.seq_from_tap) (leb s.len 1) alive in
      let high = c.high in
      let high0 = h.high in
      let below : pos i < pos0 =
        ahead_lem lo pos0 (pos i) 0 h.low c.low (omega arith) (omega arith) s.seq k.seq_from_tap
          c.seq_is at_k lt in
      let len_le : s.len ≤ 1 = leb→le s.len 1 short in
      subst (λ x. (x.len ≡ 0) ⊎ (pos i + x.len ≤ pos0 + n)) (ap (segment_or s) (sym es ∙ e))
        (inr (omega arith))

  gather_from-Delivered :
      (fuel i : ℕ) (b : Batch) (k : TcpTapConn) (n : ℕ)
      → HasBytes m f lo pos0 b n
      → rounds count i (length b.iov) < fuel
      → k.seq_from_tap ≡ pos0 % 2 ^ 32
      → Scanned seg pos idx i b.keep (pos0 + n)
      → Ends m f lo pos0 count seg pos idx calls fuel i b k
  unfolding gather_from
  gather_from-Delivered zero i b k n h l at_k sc = absurd (omega arith)
  gather_from-Delivered (suc fuel) i b k n h l at_k sc = elim (Bool-cases (ltb i count)) [
    | inr e ↦ (
      gathered b k,
      rw (e, gather_from) refl,
      is_gathered b k n h (end-Exhausted seg pos idx count i b (pos0 + n) sc (not_ltb i count e))
          at_k,
    )
    | inl more ↦ elim (Option-cases (seg i)) [
      | inl e ↦ (failed k, rw (more, e, gather_from) refl, is_failed k)
      | inr (s, es) ↦ elim (Bool-cases s.rst) [
        | inl e ↦ (
          stopped (calls.sock_rst k),
          rw (more, es, e, gather_from) refl,
          is_stopped (calls.sock_rst k),
        )
        | inr no_rst ↦
            let lt : i < count = ltb→lt i count more in
            elim (Bool-cases (is_keepalive s k)) [
              | inl alive ↦
                  let k1 = (calls.send_ack k).1 in
                  elim (Bool-cases (calls.send_ack k).0) [
                    | inr e ↦
                        (failed k1, rw (more, es, no_rst, alive, e, gather_from) refl, is_failed k1)
                    | inl e ↦ elim (Bool-cases (count == 1)) [
                      | inl one ↦
                          let k2 = (tcp_tap_window_update calls (calls.timer_ctl k1) s.window).1 in
                          (
                            stopped k2,
                            rw (more, es, no_rst, alive, e, one, gather_from) refl,
                            is_stopped k2,
                          )
                      | inr many ↦
                          same_run
                            (gather_from-Delivered fuel (i + 1) b (calls.timer_ctl k1) n h
                              (omega arith) (laws.timer_ctl k1 ∙ laws.send_ack k ∙ at_k)
                              (Old-Scanned seg pos idx i b.keep (pos0 + n) sc
                                (keepalive-Old i s k n es (carried i s es) b h alive at_k)))
                            (simp (more, es, no_rst, alive, e, many, gather_from) refl)
                    ]
                  ]
              | inr new ↦
                  let (b', k') = flag_segment calls s b k in
                  let (e, e', e'') = flags_if-Same s.ack calls s b k in
                  let c = carried i s es in
                  let at_k' = flags_keep calls laws s.ack s b k ∙ at_k in
                  let h' = HasBytes-eq m f lo pos0 b b' n e e' h in
                  let q =
                    fate-FateOf s b' lo (pos i) (pos0 + n) c.seq_is h'.next c.low
                      (omega (arith, h.low)) c.high h.high in
                  same_run
                    (after_fate m f lo pos0 count seg pos idx calls fuel i k' s es c b' n h' lt
                      (subst (λ v. rounds count i (length v) ≤ fuel) (sym e') (omega arith)) at_k'
                      (subst (λ o. Scanned seg pos idx i o (pos0 + n)) (sym e'') sc)
                      (λ i' b1 n' h1 l1 sc1. gather_from-Delivered fuel i' b1 k' n' h1 l1 at_k' sc1)
                      (fate s b') q)
                    (simp (more, es, no_rst, new, gather_from) refl)
            ]
      ]
    ]
  ]

  -- Where the segments of a batch carry a stream's bytes, at positions within one window of the next
  -- expected one, and the calls of the code leave `seq_from_tap` alone, the loop of
  -- tcp_data_from_tap() ends. Unless it ends early, with an error or with
  -- a reset or lone keep-alive segment, `tcp_iov` stands for the stream's next bytes, in order, without
  -- gaps or repetition, `seq_from_tap` is the sequence number after them, and each segment from
  -- `idx` on ends before these bytes do or starts behind them, or the entries of `tcp_iov` are too few for
  -- the rest of one of them whose data are next.
  pub gather-Delivered :
      (k : TcpTapConn)
      → lo ≤ pos0
      → pos0 < lo + max_window
      → k.seq_from_tap ≡ pos0 % 2 ^ 32
      → (r : Gathered) × (gather calls count seg idx k ≡ some r)
        × Delivered m f lo pos0 count seg pos idx r
  unfolding gather
  gather-Delivered k l h e =
      gather_from-Delivered ((uio_maxiov + 1) * (count + 1) + count + 1) idx (start_batch k) k 0
        (record {
          next = e ∙ ap (λ x. x % 2 ^ 32) {y = pos0 + 0} (omega arith);
          low = l;
          high = omega arith;
          bytes = refl;
          room = omega arith;
        })
        (omega arith) e (start-Scanned seg pos idx (pos0 + 0))
