-- ===== src/Tcp.antt =====
-- TCP connections towards the guest (tcp.c, tcp_conn.h, tcp_internal.h): sequence numbers, and how
-- a batch of segments from the guest is gathered for the socket.
pub mod Seq
pub mod Options
pub mod Gather
pub mod Segment
pub mod Stream
pub mod Deliver
pub mod Take
pub mod Scan
pub mod Flags
pub mod Keep
pub mod Round
pub mod Loop
pub mod Receive
pub mod Contract
pub mod Out
pub mod Advance
pub mod State
mod Tests
use passt.Base.{
  ℕ, ◌+◌, ◌-◌, ◌*◌, ◌/◌, ◌%◌, ◌^◌, min, Bool, true, false, not, ◌&&◌, ltb, leb, ◌==◌, if◌then◌else◌,
  sub_u32, List,
}
use passt.Iov.{Iovec}

-- MAX_WINDOW
abbrev pub max_window : ℕ
max_window = 2 ^ 24

-- SEQ_LE, SEQ_LT, SEQ_GE and SEQ_GT of tcp_internal.h, of `uint32_t`
abbrev pub seq_le : ℕ → ℕ → Bool
seq_le a b = ltb (sub_u32 b a) max_window

abbrev pub seq_lt : ℕ → ℕ → Bool
seq_lt a b = ltb (sub_u32 (sub_u32 b a) 1) max_window

abbrev pub seq_ge : ℕ → ℕ → Bool
seq_ge a b = ltb (sub_u32 a b) max_window

abbrev pub seq_gt : ℕ → ℕ → Bool
seq_gt a b = ltb (sub_u32 (sub_u32 a b) 1) max_window

-- The fields of `struct tcp_tap_conn` that the code here uses.
pub record TcpTapConn : Type 0 where
  pub retries : ℕ
  pub ws_from_tap : ℕ
  pub events : ℕ
  pub wnd_from_tap : ℕ
  pub seq_dup_ack_approx : ℕ
  pub seq_to_tap : ℕ
  pub seq_ack_from_tap : ℕ
  pub seq_from_tap : ℕ

-- The number of the bit of an event
abbrev pub established : ℕ
established = 2

abbrev pub tap_fin_sent : ℕ
tap_fin_sent = 6

-- `events & BIT(n)`, `events & ~BIT(n)`
abbrev pub has_bit : ℕ → ℕ → Bool
has_bit x n = x / 2 ^ n % 2 == 1

abbrev pub clear_bit : ℕ → ℕ → ℕ
clear_bit x n = if has_bit x n then x - 2 ^ n else x

-- What sendmsg() returns: a count of bytes, EAGAIN or EWOULDBLOCK, EPIPE, or another error. It is
-- called again after EINTR.
pub data SendResult : Type 0 where
  sent : ℕ → SendResult
  would_block : SendResult
  broken_pipe : SendResult
  send_error : SendResult

-- What the code here calls on a connection: its socket, timer and epoll events, resets, flags, events,
-- and segments to the guest, with whether these are sent.
pub record TcpCalls : Type 0 where
  pub set_peek_offset : TcpTapConn → Bool
  pub recv : TcpTapConn → ℕ → Bool
  pub sendmsg : TcpTapConn → List Iovec → SendResult
  pub rst : TcpTapConn → TcpTapConn
  pub sock_rst : TcpTapConn → TcpTapConn
  pub timer_ctl : TcpTapConn → TcpTapConn
  pub epoll : Bool → TcpTapConn → TcpTapConn
  pub ack_from_tap_due : Bool → TcpTapConn → TcpTapConn
  pub tap_fin_acked : TcpTapConn → TcpTapConn
  pub tap_fin_rcvd : TcpTapConn → TcpTapConn
  pub data_from_sock : TcpTapConn → TcpTapConn
  pub send_ack : TcpTapConn → Bool × TcpTapConn
  pub send_dup_ack : TcpTapConn → Bool × TcpTapConn
  pub send_ack_if_needed : TcpTapConn → Bool × TcpTapConn

module _ (calls : TcpCalls) where
  -- tcp_rewind_seq(): whether it succeeds, and the connection
  unfoldable pub tcp_rewind_seq : TcpTapConn → Bool × TcpTapConn
  tcp_rewind_seq k =
      let k = record k {
        seq_to_tap = k.seq_ack_from_tap;
        events = clear_bit k.events tap_fin_sent;
      } in
      if calls.set_peek_offset k then (true, k) else (false, calls.rst k)

  -- tcp_tap_window_update()
  unfoldable pub tcp_tap_window_update : TcpTapConn → ℕ → Bool × TcpTapConn
  tcp_tap_window_update k window =
      let wnd = min max_window (window * 2 ^ k.ws_from_tap) in
      if wnd == 0 && seq_lt k.seq_ack_from_tap k.seq_to_tap
      then (false, (tcp_rewind_seq k).1)
      else (true, record k { wnd_from_tap = min (wnd / 2 ^ k.ws_from_tap) (2 ^ 16 - 1) })

  -- tcp_update_seqack_from_tap()
  unfoldable pub tcp_update_seqack_from_tap : TcpTapConn → ℕ → TcpTapConn
  tcp_update_seqack_from_tap k seq =
      let k = if seq == k.seq_to_tap then calls.ack_from_tap_due false k else k in
      let due = if seq_lt seq k.seq_to_tap then calls.ack_from_tap_due true k else k in
      if seq_gt seq k.seq_ack_from_tap
      then record due { retries = 0; seq_ack_from_tap = seq }
      else k

  -- tcp_sock_consume(): whether it succeeds
  unfoldable pub tcp_sock_consume : TcpTapConn → ℕ → Bool
  tcp_sock_consume k ack_seq =
      if seq_le ack_seq k.seq_ack_from_tap
      then true
      else calls.recv k (sub_u32 ack_seq k.seq_ack_from_tap)
