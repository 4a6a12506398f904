-- ===== src/Tcp/State/Outcome.antt =====
-- What tcp_timer_handler() may do to a connection whose timer has expired.
use passt.Base.{ℕ, ◌+◌, ◌%◌, ◌^◌, ◌≤◌, ◌<◌, min, max, ◌≡◌, true, false, update}
use passt.Tcp.{established}
use passt.Tcp.State.{
  Conn, Context, is_zero, ack_to_tap_due, ack_from_tap_due, syn_retried, tcp_max_retries,
}
use passt.Tcp.State.Calls.{TimerCalls}
use passt.Tcp.State.Timeout.{is_due, IsArmed}

-- The timer has expired: it is not armed.
abbrev pub IsExpired : Conn → Type 0
IsExpired k = k.timer.tv_sec + k.timer.tv_nsec ≡ 0

-- An acknowledgement from the guest is due, and none to it.
abbrev pub Waits : Conn → Type 0
Waits k = (k.flags ack_to_tap_due ≡ false) × (k.flags ack_from_tap_due ≡ true)

-- The connection `r` is `k'` with its timer armed if an acknowledgement is due, unless it is closed.
pub record TimerSet (k' r : Conn) : Type 0 where
  pub same : r ≡ record k' { timer = r.timer }
  pub armed : is_zero k'.events ≡ false → IsArmed r

-- The limit of retries for a SYN.
abbrev pub syn_limit : Context → ℕ
syn_limit c = min tcp_max_retries (c.syn_retries + c.syn_linear_timeouts)

-- One more retry, with a zero-window probe if the window of the guest is zero.
abbrev pub retry_conn : Conn → Conn
retry_conn k = record k { retries = k.retries + 1; wnd_from_tap = max k.wnd_from_tap 1 }

-- One more retry of a SYN.
abbrev pub syn_conn : Conn → Conn
syn_conn k = record k { retries = (k.retries + 1) % 2 ^ 3; flags = update k.flags syn_retried true }

-- What the handler does to the connection `k`.
pub data Handled (c : Context) (calls : TimerCalls) (k : Conn) : Conn → Type 0 where
  discarded : 0 < k.timer.tv_sec + k.timer.tv_nsec → Handled c calls k k
  nothing_due : IsExpired k → is_due k.flags ≡ false → Handled c calls k k
  acknowledged :
      (r : Conn)
      → IsExpired k
      → k.flags ack_to_tap_due ≡ true
      → (calls.send_ack_if_needed k).0 ≡ true
      → TimerSet (calls.send_ack_if_needed k).1 r
      → Handled c calls k r
  ack_failed :
      IsExpired k
      → k.flags ack_to_tap_due ≡ true
      → (calls.send_ack_if_needed k).0 ≡ false
      → Handled c calls k (calls.rst (calls.send_ack_if_needed k).1)
  syn_given_up :
      IsExpired k
      → Waits k
      → k.events established ≡ false
      → syn_limit c ≤ k.retries
      → Handled c calls k (calls.rst k)
  syn_sent :
      (r : Conn)
      → IsExpired k
      → Waits k
      → k.events established ≡ false
      → k.retries < syn_limit c
      → (calls.send_syn k).0 ≡ true
      → TimerSet (syn_conn (calls.send_syn k).1) r
      → Handled c calls k r
  syn_failed :
      IsExpired k
      → Waits k
      → k.events established ≡ false
      → k.retries < syn_limit c
      → (calls.send_syn k).0 ≡ false
      → Handled c calls k (calls.rst (calls.send_syn k).1)
  data_given_up :
      IsExpired k
      → Waits k
      → k.events established ≡ true
      → k.retries ≡ tcp_max_retries
      → Handled c calls k (calls.rst k)
  data_sent :
      (r : Conn)
      → IsExpired k
      → Waits k
      → k.events established ≡ true
      → k.retries < tcp_max_retries
      → (calls.rewind_seq (retry_conn k)).0 ≡ true
      → TimerSet (calls.data_from_sock (calls.rewind_seq (retry_conn k)).1) r
      → Handled c calls k r
  not_rewound :
      IsExpired k
      → Waits k
      → k.events established ≡ true
      → k.retries < tcp_max_retries
      → (calls.rewind_seq (retry_conn k)).0 ≡ false
      → Handled c calls k (calls.rewind_seq (retry_conn k)).1
