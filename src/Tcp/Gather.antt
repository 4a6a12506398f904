-- ===== src/Tcp/Gather.antt =====
-- The loop of tcp_data_from_tap() over a batch of segments.
use passt.Base.{
  ℕ, zero, suc, ◌+◌, ◌-◌, ◌*◌, ◌%◌, ◌^◌, Bool, true, false, not, ◌&&◌, ltb, leb, ◌==◌,
  if◌then◌else◌, add_u32, sub_u32, sub_size, Option, none, some, List, [], ◌++◌, length,
}
use passt.Iov.{Iovec, IovTail, iov_drop_header, iov_tail_clone}
use passt.Tcp.{TcpTapConn, TcpCalls, seq_le, seq_lt, seq_ge, tcp_rewind_seq, tcp_tap_window_update}

-- UIO_MAXIOV
abbrev pub uio_maxiov : ℕ
uio_maxiov = 1024

-- What the loop reads of a segment: the fields of the header, and the data with its length.
pub record Segment : Type 0 where
  pub rst : Bool
  pub fin : Bool
  pub ack : Bool
  pub seq : ℕ
  pub ack_seq : ℕ
  pub window : ℕ
  pub payload : IovTail
  pub len : ℕ

-- The variables of the loop: `keep` is `none` for -1, `iov` is `tcp_iov` up to `iov_i`.
pub record Batch : Type 0 where
  pub keep : Option ℕ
  pub iov : List Iovec
  pub seq_from_tap : ℕ
  pub ack : Bool
  pub fin : Bool
  pub retr : Bool
  pub max_ack_seq : ℕ
  pub max_ack_seq_wnd : ℕ

-- How the loop ends: with an error, with `return 1`, or at the end of the batch.
pub data Gathered : Type 0 where
  failed : TcpTapConn → Gathered
  stopped : TcpTapConn → Gathered
  gathered : Batch → TcpTapConn → Gathered

-- The variables before the loop
abbrev pub start_batch : TcpTapConn → Batch
start_batch k = record {
  keep = none;
  iov = [];
  seq_from_tap = k.seq_from_tap;
  ack = false;
  fin = false;
  retr = false;
  max_ack_seq = k.seq_ack_from_tap;
  max_ack_seq_wnd = k.wnd_from_tap;
}

-- `keep == i`
abbrev pub is_kept : Option ℕ → ℕ → Bool
is_kept none i = false
is_kept (some j) i = j == i

-- `if (keep == -1) keep = i;`
abbrev pub keep_first : Option ℕ → ℕ → Option ℕ
keep_first none i = some i
keep_first (some j) i = some j

-- `if (keep == i) keep = -1;`
abbrev pub unkeep : Option ℕ → ℕ → Option ℕ
unkeep o i = if is_kept o i then none else o

-- `if (keep != -1) i = keep - 1;` and `i++`
abbrev pub next_index : Option ℕ → ℕ → ℕ
next_index none i = i + 1
next_index (some j) i = j

-- The part of the loop about a segment's acknowledgement and FIN.
module _ (calls : TcpCalls) where
  unfoldable pub ack_segment : Segment → Batch → TcpTapConn → Batch × TcpTapConn
  ack_segment s b k =
      let b = record b { ack = true } in
      if seq_ge s.ack_seq k.seq_ack_from_tap && seq_ge s.ack_seq b.max_ack_seq
      then (
        record b {
          retr =
              s.len == 0
              && not s.fin
              && s.ack_seq == b.max_ack_seq
              && s.window == b.max_ack_seq_wnd;
          max_ack_seq = s.ack_seq;
          max_ack_seq_wnd = s.window;
        },
        if s.window == 0 then (tcp_rewind_seq calls k).1 else k,
      )
      else (b, k)

-- `if (th->fin && seq == seq_from_tap) fin = 1;`
unfoldable pub fin_segment : Segment → Batch → Batch
fin_segment s b = if s.fin && s.seq == b.seq_from_tap then record b { fin = true } else b

-- The flags of a segment: its acknowledgement, if it has one, and its FIN.
unfoldable pub flags_if : Bool → TcpCalls → Segment → Batch → TcpTapConn → Batch × TcpTapConn
flags_if true calls s b k = let (b, k) = ack_segment calls s b k in (fin_segment s b, k)
flags_if false calls s b k = (fin_segment s b, k)

abbrev pub flag_segment : TcpCalls → Segment → Batch → TcpTapConn → Batch × TcpTapConn
flag_segment calls s b k = flags_if s.ack calls s b k

-- Data that is next for the socket: `none` if `tcp_iov` is full.
unfoldable pub take_data : Segment → Batch → Option Batch
take_data s b =
    let offset = sub_u32 b.seq_from_tap s.seq in
    let rest = (iov_drop_header s.payload offset).1 in
    elim (iov_tail_clone (uio_maxiov - length b.iov) rest) [
      | none ↦ none
      | some dst ↦ some (record b {
        seq_from_tap = add_u32 b.seq_from_tap (sub_size s.len offset);
        iov = b.iov ++ dst;
      })
    ]

-- What the loop does with the data of a segment.
pub data Fate : Type 0 where
  discard : Fate
  later : Fate
  use_now : Fate

unfoldable pub fate : Segment → Batch → Fate
fate s b =
    if s.len == 0
    then discard
    else if seq_ge b.seq_from_tap s.seq && seq_le ((s.seq + s.len) % 2 ^ 32) b.seq_from_tap
    then discard
    else if seq_lt b.seq_from_tap s.seq
    then later
    else use_now

-- A keep-alive segment
abbrev pub is_keepalive : Segment → TcpTapConn → Bool
is_keepalive s k = seq_lt s.seq k.seq_from_tap && leb s.len 1

-- The loop from the index `i`, over a batch of `count` segments, where `none` is a packet that is not
-- a segment; `none` as the result is out of fuel.
module _ (calls : TcpCalls) (count : ℕ) (seg : ℕ → Option Segment) where
  unfoldable pub gather_from : ℕ → ℕ → Batch → TcpTapConn → Option Gathered
  gather_from zero i b k = none
  gather_from (suc fuel) i b k = elim (ltb i count) [
    | false ↦ some (gathered b k)
    | true ↦ elim (seg i) [
      | none ↦ some (failed k)
      | some s ↦ elim s.rst [
        | true ↦ some (stopped (calls.sock_rst k))
        | false ↦ elim (is_keepalive s k) [
          | true ↦
              let (ok, k') = calls.send_ack k in
              elim ok [
                | false ↦ some (failed k')
                | true ↦ elim (count == 1) [
                  | true ↦
                      some (stopped (tcp_tap_window_update calls (calls.timer_ctl k') s.window).1)
                  | false ↦ gather_from fuel (i + 1) b (calls.timer_ctl k')
                ]
              ]
          | false ↦
              let (b', k') = flag_segment calls s b k in
              elim (fate s b') [
                | discard ↦ gather_from fuel (i + 1) b' k'
                | later ↦ gather_from fuel (i + 1) (record b' { keep = keep_first b'.keep i }) k'
                | use_now ↦ elim (take_data s b') [
                  | none ↦ some (gathered b' k')
                  | some b'' ↦
                      let keep = unkeep b''.keep i in
                      gather_from fuel (next_index keep i) (record b'' { keep = keep }) k'
                ]
              ]
        ]
      ]
    ]
  ]

  -- The loop, from the index `idx` on: it goes back after each segment that it uses, and uses at most
  -- UIO_MAXIOV.
  unfoldable pub gather : ℕ → TcpTapConn → Option Gathered
  gather idx k = gather_from ((uio_maxiov + 1) * (count + 1) + count + 1) idx (start_batch k) k
