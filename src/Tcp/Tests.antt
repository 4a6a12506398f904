-- ===== src/Tcp/Tests.antt =====
-- A batch of two segments, the first one ahead of the second.
use passt.Base.{
  ℕ, zero, suc, ◌+◌, ◌-◌, ◌%◌, ◌^◌, ◌<◌, ◌≤◌, ◌↔◌, done, ◌≡◌, refl, subst, ap, arith, min, true,
  false, Option, none, some, List, [], ◌∷◌, length,
}
use passt.Iov.{
  Iovec, IovTail, Memory, iov_skip_bytes, iov_tail_clone, iov_tail_prune, iov_drop_header,
  skip_from,
}
use passt.Tcp.{TcpTapConn, TcpCalls, sent, seq_le, seq_lt, seq_ge, seq_gt}
use passt.Iov.Bytes.{addrs}
use passt.Tcp.Gather.{
  Segment, Gathered, gathered, gather, gather_from, fate, take_data, flags_if, fin_segment,
}
use passt.Tcp.Segment.{Tcphdr, SegmentRead, read_segment, read_segment-SegmentRead}
use passt.Tcp.Stream.{Carries}
use passt.Tcp.Keep.{KeepsSeq}
use passt.Tcp.Seq.{seq_lt_iff}
use passt.Tcp.Round.{Delivered}
use passt.Tcp.Loop.{gather-Delivered}

abbrev memory : Memory
memory a = a

abbrev byte : ℕ → ℕ
byte p = p + 90

abbrev segment : ℕ → ℕ → ℕ → Segment
segment seq base len = record {
  rst = false;
  fin = false;
  ack = false;
  seq = seq;
  ack_seq = 0;
  window = 0;
  payload = record { iov = record { iov_base = base; iov_len = len } ∷ []; off = 0 };
  len = len;
}

abbrev two : ℕ → Option Segment
two zero = some (segment 12 102 4)
two (suc zero) = some (segment 8 98 4)
two (suc (suc i)) = none

-- Their positions in the stream
abbrev places : ℕ → ℕ
places zero = 12
places (suc i) = 8

abbrev conn : TcpTapConn
conn = record {
  retries = 0;
  ws_from_tap = 0;
  events = 4;
  wnd_from_tap = 0;
  seq_dup_ack_approx = 0;
  seq_to_tap = 0;
  seq_ack_from_tap = 0;
  seq_from_tap = 10;
}

-- A socket that takes up to five bytes at once.
abbrev calls : TcpCalls
calls = record {
  set_peek_offset = λ k. true;
  recv = λ k n. true;
  sendmsg = λ k iov. sent (min 5 (length (addrs iov)));
  rst = λ k. k;
  sock_rst = λ k. k;
  timer_ctl = λ k. k;
  epoll = λ b k. k;
  ack_from_tap_due = λ b k. k;
  tap_fin_acked = λ k. k;
  tap_fin_rcvd = λ k. k;
  data_from_sock = λ k. k;
  send_ack = λ k. (true, k);
  send_dup_ack = λ k. (true, k);
  send_ack_if_needed = λ k. (true, k);
}

-- What the batch leaves in `tcp_iov`.
abbrev entries : Option Gathered → List Iovec
entries none = []
entries (some (gathered b k)) = b.iov
entries (some g) = []

two_run :
    entries (gather calls 2 two 0 conn)
    ≡ record { iov_base = 100; iov_len = 2 } ∷ record { iov_base = 102; iov_len = 4 } ∷ []
unfolding gather gather_from fate take_data flags_if fin_segment iov_drop_header iov_tail_prune
    iov_tail_clone iov_skip_bytes skip_from
two_run = refl

abbrev segment_of : Option Segment → Segment
segment_of none = segment 0 0 0
segment_of (some s) = s

ahead-Carries : Carries memory byte 0 12 (segment 12 102 4)
ahead-Carries = record {
  seq_is = refl;
  low = omega arith;
  high = omega arith;
  whole = refl;
  in_range = omega arith;
  bytes = refl;
}

behind-Carries : Carries memory byte 0 8 (segment 8 98 4)
behind-Carries = record {
  seq_is = refl;
  low = omega arith;
  high = omega arith;
  whole = refl;
  in_range = omega arith;
  bytes = refl;
}

two-Carries : (i : ℕ) (s : Segment) → two i ≡ some s → Carries memory byte 0 (places i) s
two-Carries zero s e = subst (Carries memory byte 0 12) (ap segment_of e) ahead-Carries
two-Carries (suc zero) s e = subst (Carries memory byte 0 8) (ap segment_of e) behind-Carries
two-Carries (suc (suc i)) s e = ground (arith, e)

-- A segment half the sequence space away and the one behind it: the data of the second are gathered.
abbrev stray : ℕ → Option Segment
stray zero = some (segment (2 ^ 31 + 10) 5000 4)
stray (suc zero) = some (segment (2 ^ 31 + 14) 6000 4)
stray (suc (suc i)) = none

stray_run : entries (gather calls 2 stray 0 conn) ≡ record { iov_base = 6000; iov_len = 4 } ∷ []
unfolding gather gather_from fate take_data flags_if fin_segment iov_drop_header iov_tail_prune
    iov_tail_clone iov_skip_bytes skip_from
stray_run = refl

calls-KeepsSeq : KeepsSeq calls
calls-KeepsSeq = record {
  rst = λ k. refl;
  timer_ctl = λ k. refl;
  epoll = λ b k. refl;
  ack_from_tap_due = λ b k. refl;
  tap_fin_acked = λ k. refl;
  tap_fin_rcvd = λ k. refl;
  data_from_sock = λ k. refl;
  send_ack = λ k. refl;
  send_dup_ack = λ k. refl;
  send_ack_if_needed = λ k. refl;
}

gather-Delivered_example :
    (r : Gathered) × (gather calls 2 two 0 conn ≡ some r)
    × Delivered memory byte 0 10 2 two places 0 r
gather-Delivered_example =
    gather-Delivered memory byte 0 10 2 two places 0 calls calls-KeepsSeq two-Carries conn
      (omega arith) (omega arith) refl

-- Two positions on either side of a wrap.
seq_lt_iff_example :
    ((seq_le ((2 ^ 32 - 3) % 2 ^ 32) ((2 ^ 32 + 5) % 2 ^ 32) ≡ true) ↔ (2 ^ 32 - 3 ≤ 2 ^ 32 + 5))
    × ((seq_lt ((2 ^ 32 - 3) % 2 ^ 32) ((2 ^ 32 + 5) % 2 ^ 32) ≡ true) ↔ (2 ^ 32 - 3 < 2 ^ 32 + 5))
    × ((seq_ge ((2 ^ 32 - 3) % 2 ^ 32) ((2 ^ 32 + 5) % 2 ^ 32) ≡ true) ↔ (2 ^ 32 + 5 ≤ 2 ^ 32 - 3))
    × ((seq_gt ((2 ^ 32 - 3) % 2 ^ 32) ((2 ^ 32 + 5) % 2 ^ 32) ≡ true) ↔ (2 ^ 32 + 5 < 2 ^ 32 - 3))
seq_lt_iff_example =
    seq_lt_iff (2 ^ 32 - 3) (2 ^ 32 + 5) (record { above = omega arith; below = omega arith })

-- A header of 20 bytes whose data offset is 5, and three bytes of data behind it, in two buffers.
abbrev header : List ℕ → Tcphdr
header bytes = record {
  doff = 5;
  rst = false;
  fin = false;
  ack = true;
  seq = length bytes;
  ack_seq = 0;
  window = 100;
}

abbrev packet : IovTail
packet = record {
  iov = record { iov_base = 500; iov_len = 21 } ∷ record { iov_base = 600; iov_len = 2 } ∷ [];
  off = 0;
}

read_segment-SegmentRead_example :
    (o : Option Segment) × (read_segment header false memory 1000 4 packet ≡ done o)
    × SegmentRead header false memory 1000 4 packet o
read_segment-SegmentRead_example =
    read_segment-SegmentRead header false memory 1000 4 packet (ground arith) (omega arith)
