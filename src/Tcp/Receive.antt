-- ===== src/Tcp/Receive.antt =====
-- tcp_data_from_tap(): a batch of segments from the guest, up to the socket.
use passt.Base.{
  ℕ, ◌%◌, ◌^◌, Bool, true, false, not, ◌&&◌, ltb, ◌==◌, if◌then◌else◌, add_u32, sub_u32, Option,
  none, some, List, [], ◌∷◌, Run, done, aborted,
}
use passt.Iov.{Iovec}
use passt.Tcp.{
  TcpTapConn, TcpCalls, SendResult, sent, would_block, broken_pipe, send_error, established,
  tap_fin_sent, has_bit, tcp_rewind_seq, tcp_tap_window_update, tcp_update_seqack_from_tap,
  tcp_sock_consume,
}
use passt.Tcp.Gather.{Segment, Batch, Gathered, failed, stopped, gathered, gather}

-- What tcp_data_from_tap() returns, with the connection: -1, 1, or the count of packets from the
-- index on.
pub data FromTap : Type 0 where
  error : TcpTapConn → FromTap
  one_packet : TcpTapConn → FromTap
  all_packets : TcpTapConn → FromTap

abbrev pub is_none : Option ℕ → Bool
is_none none = true
is_none (some i) = false

-- `n < (int)d`, where `d` is an `unsigned`
abbrev pub below_int : ℕ → ℕ → Bool
below_int n d = ltb d (2 ^ 31) && ltb n d

-- `if (tcp_send_flag(...)) return -1;`
abbrev pub unless_error : (TcpTapConn → FromTap) → Bool × TcpTapConn → FromTap
unless_error r (true, k) = r k
unless_error r (false, k) = error k

module _ (calls : TcpCalls) where
  -- After the loop: acknowledgements and the window
  unfoldable pub acknowledge : Batch → TcpTapConn → TcpTapConn
  acknowledge b k =
      let acked = tcp_update_seqack_from_tap calls k b.max_ack_seq in
      let k = if b.ack && tcp_sock_consume calls k b.max_ack_seq then acked else k in
      (tcp_tap_window_update calls k b.max_ack_seq_wnd).1

  -- `retr`: whether the code goes on, and the connection
  unfoldable pub retransmit : Bool → TcpTapConn → Bool × TcpTapConn
  retransmit false k = (true, k)
  retransmit true k =
      let (ok, k) = tcp_rewind_seq calls k in
      if ok then (true, calls.data_from_sock k) else (false, k)

  -- The end of the function, from `out` on
  unfoldable pub out_keep : TcpTapConn → FromTap
  out_keep k =
      if k.seq_dup_ack_approx == k.seq_from_tap % 2 ^ 8
      then all_packets k
      else unless_error all_packets
          (calls.send_dup_ack (record k { seq_dup_ack_approx = k.seq_from_tap % 2 ^ 8 }))

  unfoldable pub out_fin : Batch → TcpTapConn → FromTap
  out_fin b k =
      let k =
        if b.ack && has_bit k.events tap_fin_sent && k.seq_ack_from_tap == k.seq_to_tap
        then calls.tap_fin_acked k
        else k in
      if b.fin
      then all_packets (calls.tap_fin_rcvd (record k { seq_from_tap = add_u32 k.seq_from_tap 1 }))
      else unless_error all_packets (calls.send_ack_if_needed k)

  unfoldable pub out : Batch → Bool → TcpTapConn → FromTap
  out b partial_send k = if is_none b.keep && not partial_send then out_fin b k else out_keep k

  -- What follows sendmsg()
  unfoldable pub after_send : Batch → TcpTapConn → SendResult → FromTap
  after_send b k (sent n) =
      let partial_send = below_int n (sub_u32 b.seq_from_tap k.seq_from_tap) in
      let k = calls.epoll partial_send k in
      out b partial_send (record k { seq_from_tap = add_u32 k.seq_from_tap n })
  after_send b k would_block =
      unless_error (λ k. all_packets (calls.epoll true k)) (calls.send_dup_ack k)
  after_send b k broken_pipe = error (calls.send_ack (record k { seq_from_tap = b.seq_from_tap })).1
  after_send b k send_error = error k

  unfoldable pub flush : List Iovec → Batch → TcpTapConn → FromTap
  flush [] b k = out b false k
  flush (v ∷ vs) b k = after_send b k (calls.sendmsg k (v ∷ vs))

  unfoldable pub after_loop : Gathered → FromTap
  after_loop (failed k) = error k
  after_loop (stopped k) = one_packet k
  after_loop (gathered b k) =
      unless_error (λ k. flush b.iov b k) (retransmit b.retr (acknowledge b k))

  -- tcp_data_from_tap(), where `none` is out of fuel
  unfoldable pub tcp_data_from_tap :
      ℕ → (ℕ → Option Segment) → ℕ → TcpTapConn → Run (Option FromTap)
  tcp_data_from_tap count seg idx k =
      if k.events == 0
      then done (some (all_packets k))
      else if has_bit k.events established
      then done (elim (gather calls count seg idx k) [ none ↦ none | some g ↦ some (after_loop g) ])
      else aborted
