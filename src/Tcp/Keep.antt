-- ===== src/Tcp/Keep.antt =====
-- Only tcp_data_from_tap() itself writes `seq_from_tap`, of the code that it runs.
use passt.Base.{
  ℕ, ◌*◌, ◌^◌, ◌≡◌, inl, inr, refl, ◌∙◌, Bool, true, false, ◌&&◌, ◌==◌, min, Bool-cases,
  if◌then◌else◌,
}
use passt.Tcp.{
  TcpTapConn, TcpCalls, seq_lt, seq_gt, seq_ge, max_window, clear_bit, tap_fin_sent, tcp_rewind_seq,
  tcp_tap_window_update, tcp_update_seqack_from_tap,
}
use passt.Tcp.Gather.{Segment, Batch, ack_segment, flags_if}

-- Resets, events, flags and segments to the guest leave `seq_from_tap` as it is.
pub record KeepsSeq (calls : TcpCalls) : Type 0 where
  pub rst : (k : TcpTapConn) → (calls.rst k).seq_from_tap ≡ k.seq_from_tap
  pub timer_ctl : (k : TcpTapConn) → (calls.timer_ctl k).seq_from_tap ≡ k.seq_from_tap
  pub epoll : (b : Bool) (k : TcpTapConn) → (calls.epoll b k).seq_from_tap ≡ k.seq_from_tap
  pub ack_from_tap_due :
      (b : Bool) (k : TcpTapConn) → (calls.ack_from_tap_due b k).seq_from_tap ≡ k.seq_from_tap
  pub tap_fin_acked : (k : TcpTapConn) → (calls.tap_fin_acked k).seq_from_tap ≡ k.seq_from_tap
  pub tap_fin_rcvd : (k : TcpTapConn) → (calls.tap_fin_rcvd k).seq_from_tap ≡ k.seq_from_tap
  pub data_from_sock : (k : TcpTapConn) → (calls.data_from_sock k).seq_from_tap ≡ k.seq_from_tap
  pub send_ack : (k : TcpTapConn) → (calls.send_ack k).1.seq_from_tap ≡ k.seq_from_tap
  pub send_dup_ack : (k : TcpTapConn) → (calls.send_dup_ack k).1.seq_from_tap ≡ k.seq_from_tap
  pub send_ack_if_needed :
      (k : TcpTapConn) → (calls.send_ack_if_needed k).1.seq_from_tap ≡ k.seq_from_tap

module _ (calls : TcpCalls) (laws : KeepsSeq calls) where
  pub rewind_keeps : (k : TcpTapConn) → (tcp_rewind_seq calls k).1.seq_from_tap ≡ k.seq_from_tap
  unfolding tcp_rewind_seq
  rewind_keeps k =
      let k1 : TcpTapConn = record k {
        seq_to_tap = k.seq_ack_from_tap;
        events = clear_bit k.events tap_fin_sent;
      } in
      elim (Bool-cases (calls.set_peek_offset k1)) [
        | inl e ↦ simp e refl
        | inr e ↦ simp e (laws.rst k1)
      ]

  pub window_keeps :
      (k : TcpTapConn) (w : ℕ) → (tcp_tap_window_update calls k w).1.seq_from_tap ≡ k.seq_from_tap
  unfolding tcp_tap_window_update
  window_keeps k w =
      let wnd = min max_window (w * 2 ^ k.ws_from_tap) in
      elim (Bool-cases (wnd == 0 && seq_lt k.seq_ack_from_tap k.seq_to_tap)) [
        | inl e ↦ simp e (rewind_keeps k)
        | inr e ↦ simp e refl
      ]

  -- The flag is cleared if everything is acknowledged.
  cleared : TcpTapConn → ℕ → TcpTapConn
  cleared k seq = if seq == k.seq_to_tap then calls.ack_from_tap_due false k else k

  cleared_keeps : (k : TcpTapConn) (seq : ℕ) → (cleared k seq).seq_from_tap ≡ k.seq_from_tap
  unfolding cleared
  cleared_keeps k seq = elim (Bool-cases (seq == k.seq_to_tap)) [
    | inl e ↦ simp e (laws.ack_from_tap_due false k)
    | inr e ↦ simp e refl
  ]

  due_keeps :
      (k : TcpTapConn) (seq : ℕ)
      → (if seq_lt seq k.seq_to_tap then calls.ack_from_tap_due true k else k).seq_from_tap
        ≡ k.seq_from_tap
  due_keeps k seq = elim (Bool-cases (seq_lt seq k.seq_to_tap)) [
    | inl e ↦ simp e (laws.ack_from_tap_due true k)
    | inr e ↦ simp e refl
  ]

  pub seqack_keeps :
      (k : TcpTapConn) (seq : ℕ)
      → (tcp_update_seqack_from_tap calls k seq).seq_from_tap ≡ k.seq_from_tap
  unfolding tcp_update_seqack_from_tap cleared
  seqack_keeps k seq = elim (Bool-cases (seq_gt seq (cleared k seq).seq_ack_from_tap)) [
    | inl e ↦ simp e (due_keeps (cleared k seq) seq ∙ cleared_keeps k seq)
    | inr e ↦ simp e (cleared_keeps k seq)
  ]

  zero_window_keeps :
      (k : TcpTapConn) (w : ℕ)
      → (if w == 0 then (tcp_rewind_seq calls k).1 else k).seq_from_tap ≡ k.seq_from_tap
  zero_window_keeps k w = elim (Bool-cases (w == 0)) [
    | inl e ↦ simp e (rewind_keeps k)
    | inr e ↦ simp e refl
  ]

  ack_keeps :
      (s : Segment) (b : Batch) (k : TcpTapConn)
      → (ack_segment calls s b k).1.seq_from_tap ≡ k.seq_from_tap
  unfolding ack_segment
  ack_keeps s b k =
      elim (Bool-cases (seq_ge s.ack_seq k.seq_ack_from_tap && seq_ge s.ack_seq b.max_ack_seq)) [
        | inl e ↦ simp e (zero_window_keeps k s.window)
        | inr e ↦ simp e refl
      ]

  pub flags_keep :
      (a : Bool) (s : Segment) (b : Batch) (k : TcpTapConn)
      → (flags_if a calls s b k).1.seq_from_tap ≡ k.seq_from_tap
  unfolding flags_if
  flags_keep true s b k = ack_keeps s b k
  flags_keep false s b k = refl
