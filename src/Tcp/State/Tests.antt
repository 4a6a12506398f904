-- ===== src/Tcp/State/Tests.antt =====
-- A connection from the guest, up to the timeout of its first acknowledgement.
use passt.Base.{
  Option, some, Bool, ap, ◌≡◌, refl, arith, ◌==◌, ◌||◌, true, false, none, inr, update,
}
use passt.Tcp.{established}
use passt.Tcp.State.{
  Conn, Context, EpollMask, stalled, ack_from_tap_blocks, set, event, closed, no_bits, tap_syn_rcvd,
  sock_fin_rcvd, ack_from_tap_due, tcp_conn_epoll_events, tcp_epoll_ctl, timer_value, tcp_timer_ctl,
  is_stalled, needs_timer, after_flag, conn_flag_do, after_event, conn_event_do, sock_fin_sent,
  tap_fin_acked,
}
use passt.Tcp.State.Calls.{TimerCalls, after_rewind, ack_timeout, tcp_timer_handler}
use passt.Tcp.State.Reached.{Reached, start, by_event, by_flag, IsSound, Reached-IsSound}
use passt.Tcp.State.States.{connect, syn_ack, establish}
use passt.Tcp.State.Synced.{mask_of}

abbrev epollin_of : Option EpollMask → Bool
epollin_of none = false
epollin_of (some m) = m.epollin

abbrev context : Context
context = record {
  epoll_ok = λ k. true;
  timer_ok = λ k. true;
  syn_retries = 6;
  syn_linear_timeouts = 4;
  rto_max = 120;
}

abbrev new_conn : Conn
new_conn = record {
  retries = 0;
  rtt_exp = 3;
  wnd_from_tap = 64;
  events = no_bits;
  flags = no_bits;
  epoll = none;
  timer = record { tv_sec = 0; tv_nsec = 0 };
  hashed = true;
}

abbrev connecting_conn : Conn
connecting_conn = conn_event_do context (event tap_syn_rcvd) new_conn

abbrev connected_conn : Conn
connected_conn = conn_event_do context (event sock_fin_rcvd) connecting_conn

abbrev established_conn : Conn
established_conn = conn_event_do context (event established) connected_conn

abbrev waiting_conn : Conn
waiting_conn = conn_flag_do context (set ack_from_tap_due) established_conn

waiting_run : waiting_conn.timer ≡ record { tv_sec = 1; tv_nsec = 0 }
unfolding conn_event_do conn_flag_do after_event after_flag is_stalled needs_timer tcp_epoll_ctl
    tcp_timer_ctl timer_value tcp_conn_epoll_events update
waiting_run = refl

waiting-Reached : Reached context false waiting_conn
unfolding conn_event_do conn_flag_do after_event after_flag is_stalled needs_timer tcp_epoll_ctl
    tcp_timer_ctl timer_value tcp_conn_epoll_events update
waiting-Reached = by_flag (set ack_from_tap_due) established_conn false refl (
    by_event (event established) connected_conn false (establish (inr refl)) (
      by_event (event sock_fin_rcvd) connecting_conn false (syn_ack refl) (
        by_event (event tap_syn_rcvd) new_conn false (connect refl)
          (start new_conn (refl, refl, refl)))))

Reached-IsSound_example : IsSound false waiting_conn
Reached-IsSound_example =
    Reached-IsSound context (λ k. refl) (λ k. refl) (omega arith) false waiting_conn waiting-Reached

-- Calls that send, and a reset that closes.
abbrev calls : TimerCalls
calls = record {
  send_ack_if_needed = λ k. (true, k);
  send_syn = λ k. (true, k);
  rst = λ k. record k { events = no_bits };
  rewind_seq = λ k. (true, k);
  data_from_sock = λ k. k;
}

-- Its timer has expired.
abbrev expired_conn : Conn
expired_conn = record waiting_conn { timer = record { tv_sec = 0; tv_nsec = 0 } }

expired_run :
    (tcp_timer_handler context calls expired_conn).timer ≡ record { tv_sec = 2; tv_nsec = 0 }
unfolding tcp_timer_handler ack_timeout after_rewind conn_event_do conn_flag_do after_event
    after_flag is_stalled needs_timer tcp_epoll_ctl tcp_timer_ctl timer_value tcp_conn_epoll_events
    update
expired_run = refl

-- A connection that tcp_sock_handler() closes, and to which it then adds the FIN of its socket.
abbrev half_closed : Conn
half_closed = record established_conn {
  events = λ n. n == established || n == sock_fin_sent || n == tap_fin_acked;
}

reopened_run :
    (conn_event_do context (event sock_fin_rcvd) (conn_event_do context closed half_closed)).events
      sock_fin_rcvd
    ≡ true
unfolding conn_event_do conn_flag_do after_event after_flag is_stalled needs_timer tcp_epoll_ctl
    tcp_timer_ctl timer_value tcp_conn_epoll_events update
reopened_run = refl

-- A stalled connection whose socket blocks: its mask lags behind.
abbrev blocked_conn : Conn
blocked_conn =
    conn_flag_do context (set ack_from_tap_blocks) (conn_flag_do context (set stalled) waiting_conn)

blocked-Reached : Reached context true blocked_conn
unfolding conn_event_do conn_flag_do after_event after_flag is_stalled needs_timer tcp_epoll_ctl
    tcp_timer_ctl timer_value tcp_conn_epoll_events update
blocked-Reached =
    by_flag (set ack_from_tap_blocks) (conn_flag_do context (set stalled) waiting_conn) false refl
      (by_flag (set stalled) waiting_conn false refl waiting-Reached)

blocked_run : (blocked_conn.epoll ≡ mask_of blocked_conn.events blocked_conn.flags) → ⊥
unfolding conn_event_do conn_flag_do after_event after_flag is_stalled needs_timer tcp_epoll_ctl
    tcp_timer_ctl timer_value tcp_conn_epoll_events update
blocked_run e = absurd (ground (arith, ap epollin_of e))
