-- ===== src/Tcp/Contract.antt =====
-- What tcp_data_from_tap() promises of the socket and of `seq_from_tap`.
use passt.Base.{
  ℕ, ◌+◌, ◌%◌, ◌^◌, ◌≤◌, ◌≡◌, ◌≢◌, ◌⊎◌, Bool, true, false, none, List, [], map, length,
}
use passt.Iov.{Iovec, Memory}
use passt.Iov.Bytes.{addrs}
use passt.Tcp.{TcpTapConn, TcpCalls, sent, would_block, broken_pipe, send_error}
use passt.Tcp.Gather.{Batch, Gathered, failed, stopped, gathered}
use passt.Tcp.Receive.{FromTap, error, one_packet, all_packets, acknowledge, retransmit}
use passt.Tcp.Stream.{stream_from}

-- sendmsg() takes no more bytes than it is given.
abbrev pub TakesAtMost : TcpCalls → Type 0
TakesAtMost calls =
    (k : TcpTapConn) (iov : List Iovec) (n : ℕ)
    → calls.sendmsg k iov ≡ sent n
    → n ≤ length (addrs iov)

module _ (calls : TcpCalls) where
  -- The socket has taken `n` bytes of the batch: those that sendmsg() of its entries takes, or none if
  -- there are none.
  pub data Took (b : Batch) (k : TcpTapConn) : ℕ → Type 0 where
    none_given : b.iov ≡ [] → Took b k 0
    by_socket : (n : ℕ) → b.iov ≢ [] → calls.sendmsg k b.iov ≡ sent n → Took b k n

  -- A FIN is next: no segment was ahead, all the data have been taken, and a FIN has come behind them.
  abbrev pub IsFinished : Batch → ℕ → ℕ → Type 0
  IsFinished b n total = (b.keep ≡ none) × (n ≡ total) × (b.fin ≡ true)

  -- A segment to the guest that could not be sent, and the connection after it.
  pub data NotSent : TcpTapConn → Type 0 where
    dup_ack : (k : TcpTapConn) → (calls.send_dup_ack k).0 ≡ false → NotSent (calls.send_dup_ack k).1
    ack :
        (k : TcpTapConn)
        → (calls.send_ack_if_needed k).0 ≡ false
        → NotSent (calls.send_ack_if_needed k).1

  -- What is left of the connection `k` once the batch, of `total` bytes from the position `pos0` on, has
  -- gone to the socket.
  pub data Sending (pos0 : ℕ) (b : Batch) (k : TcpTapConn) (total : ℕ) : FromTap → Type 0 where
    took :
        (k' : TcpTapConn) (n : ℕ)
        → Took b k n
        → n ≤ total
        → ¬ IsFinished b n total
        → k'.seq_from_tap ≡ (pos0 + n) % 2 ^ 32
        → Sending pos0 b k total (all_packets k')
    took_fin :
        (k' : TcpTapConn) (n : ℕ)
        → Took b k n
        → IsFinished b n total
        → k'.seq_from_tap ≡ (pos0 + n + 1) % 2 ^ 32
        → Sending pos0 b k total (all_packets k')
    blocked :
        (k' : TcpTapConn)
        → b.iov ≢ []
        → calls.sendmsg k b.iov ≡ would_block
        → k'.seq_from_tap ≡ pos0 % 2 ^ 32
        → Sending pos0 b k total (all_packets k')
    send_failed :
        (k' : TcpTapConn)
        → b.iov ≢ []
        → (calls.sendmsg k b.iov ≡ broken_pipe) ⊎ (calls.sendmsg k b.iov ≡ send_error)
        → Sending pos0 b k total (error k')
    no_segment : (k' : TcpTapConn) → NotSent k' → Sending pos0 b k total (error k')

  -- The connection that the code goes on with after the loop, and whether it does.
  abbrev pub before_send : Batch → TcpTapConn → Bool × TcpTapConn
  before_send b k = retransmit calls b.retr (acknowledge calls b k)

  -- What follows the loop that has ended with `g`.
  pub data Advanced (m : Memory) (f : ℕ → ℕ) (pos0 : ℕ) : Gathered → FromTap → Type 0 where
    loop_failed : (k : TcpTapConn) → Advanced m f pos0 (failed k) (error k)
    loop_stopped : (k : TcpTapConn) → Advanced m f pos0 (stopped k) (one_packet k)
    not_rewound :
        (b : Batch) (k : TcpTapConn)
        → (before_send b k).0 ≡ false
        → Advanced m f pos0 (gathered b k) (error (before_send b k).1)
    goes_on :
        (b : Batch) (k : TcpTapConn) (total : ℕ) (r : FromTap)
        → (before_send b k).0 ≡ true
        → map m (addrs b.iov) ≡ stream_from f pos0 total
        → Sending pos0 b (before_send b k).1 total r
        → Advanced m f pos0 (gathered b k) r
