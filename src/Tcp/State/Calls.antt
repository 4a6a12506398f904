-- ===== src/Tcp/State/Calls.antt =====
-- tcp_timer_handler(): what happens to a connection when its timer expires.
use passt.Base.{◌+◌, ◌%◌, ◌^◌, min, Bool, true, false, not, ◌&&◌, leb, ◌==◌, if◌then◌else◌}
use passt.Tcp.{established}
use passt.Tcp.State.{
  Conn, Context, set, ack_to_tap_due, ack_from_tap_due, syn_retried, tcp_max_retries, tcp_timer_ctl,
  conn_flag_do,
}

-- What tcp_timer_handler() calls: segments to the guest, with whether they are sent, a reset, and
-- sending again what the guest has not acknowledged.
pub record TimerCalls : Type 0 where
  pub send_ack_if_needed : Conn → Bool × Conn
  pub send_syn : Conn → Bool × Conn
  pub rst : Conn → Conn
  pub rewind_seq : Conn → Bool × Conn
  pub data_from_sock : Conn → Conn

module _ (c : Context) (calls : TimerCalls) where
  -- `if (tcp_send_flag(...)) { tcp_rst(...); return; }`
  unfoldable pub or_rst : (Conn → Conn) → Bool × Conn → Conn
  or_rst next (true, k) = next k
  or_rst next (false, k) = calls.rst k

  -- `conn->retries++` of a field of three bits
  abbrev pub count_retry : Conn → Conn
  count_retry k = record k { retries = (k.retries + 1) % 2 ^ 3 }

  -- A SYN that is not answered
  unfoldable pub syn_timeout : Conn → Conn
  syn_timeout k =
      if leb (min tcp_max_retries (c.syn_retries + c.syn_linear_timeouts)) k.retries
      then calls.rst k
      else or_rst (λ k. tcp_timer_ctl c (conn_flag_do c (set syn_retried) (count_retry k)))
          (calls.send_syn k)

  unfoldable pub after_rewind : Bool × Conn → Conn
  after_rewind (true, k) = tcp_timer_ctl c (calls.data_from_sock k)
  after_rewind (false, k) = k

  -- Data that are not acknowledged
  unfoldable pub ack_timeout : Conn → Conn
  ack_timeout k =
      if k.retries == tcp_max_retries
      then calls.rst k
      else after_rewind (
          calls.rewind_seq (
            count_retry
              (record k { wnd_from_tap = if k.wnd_from_tap == 0 then 1 else k.wnd_from_tap })))

  -- tcp_timer_handler(), but for the assertions
  unfoldable pub tcp_timer_handler : Conn → Conn
  tcp_timer_handler k =
      if not (k.timer.tv_sec == 0 && k.timer.tv_nsec == 0)
      then k
      else if k.flags ack_to_tap_due
      then or_rst (tcp_timer_ctl c) (calls.send_ack_if_needed k)
      else if k.flags ack_from_tap_due
      then (if k.events established then ack_timeout k else syn_timeout k)
      else k
