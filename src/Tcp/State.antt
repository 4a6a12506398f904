-- ===== src/Tcp/State.antt =====
-- The states of a connection, by its events and flags, with the epoll mask of its socket and its
-- timer: tcp_conn_epoll_events() to conn_event_do().
pub mod Synced
pub mod Timeout
pub mod Outcome
pub mod Handler
pub mod States
pub mod Stale
pub mod Reached
pub mod Calls
mod Tests
use passt.Base.{
  ℕ, ◌+◌, ◌-◌, ◌*◌, ◌/◌, ◌%◌, ◌^◌, min, max, Bool, true, false, not, ◌&&◌, ◌||◌, Option, none, some,
  ltb, leb, ◌==◌, if◌then◌else◌, update,
}
use passt.Tcp.{established, tap_fin_sent}

-- The bits of a `uint8_t`, by their number
abbrev pub Mask : Type 0
Mask = ℕ → Bool

abbrev pub no_bits : Mask
no_bits n = false

abbrev pub is_zero : Mask → Bool
is_zero m = not (m 0 || m 1 || m 2 || m 3 || m 4 || m 5 || m 6 || m 7)

-- The numbers of the events' bits; ESTABLISHED and TAP_FIN_SENT are those of the parent.
-- SOCK_FIN_RCVD has the bit of TAP_SYN_ACK_SENT.
abbrev pub sock_accepted : ℕ
sock_accepted = 0

abbrev pub tap_syn_rcvd : ℕ
tap_syn_rcvd = 1

abbrev pub sock_fin_rcvd : ℕ
sock_fin_rcvd = 3

abbrev pub sock_fin_sent : ℕ
sock_fin_sent = 4

abbrev pub tap_fin_rcvd : ℕ
tap_fin_rcvd = 5

abbrev pub tap_fin_acked : ℕ
tap_fin_acked = 7

-- The numbers of the flags' bits
abbrev pub stalled : ℕ
stalled = 0

abbrev pub active_close : ℕ
active_close = 2

abbrev pub ack_to_tap_due : ℕ
ack_to_tap_due = 3

abbrev pub ack_from_tap_due : ℕ
ack_from_tap_due = 4

abbrev pub ack_from_tap_blocks : ℕ
ack_from_tap_blocks = 5

abbrev pub syn_retried : ℕ
syn_retried = 6

-- An epoll mask: EPOLLIN, EPOLLOUT, EPOLLRDHUP and EPOLLET
pub record EpollMask : Type 0 where
  pub epollin : Bool
  pub epollout : Bool
  pub epollrdhup : Bool
  pub epollet : Bool

abbrev pub epoll_mask : Bool → Bool → Bool → Bool → EpollMask
epoll_mask i o r e = record { epollin = i; epollout = o; epollrdhup = r; epollet = e }

-- The value of a timer: seconds and nanoseconds, where zero is not armed
pub record Timer : Type 0 where
  pub tv_sec : ℕ
  pub tv_nsec : ℕ

-- The fields of `struct tcp_tap_conn` here, with the epoll mask of the socket, `none` if it is not
-- watched, the timer, and whether the flow is in the hash table.
pub record Conn : Type 0 where
  pub retries : ℕ
  pub rtt_exp : ℕ
  pub wnd_from_tap : ℕ
  pub events : Mask
  pub flags : Mask
  pub epoll : Option EpollMask
  pub timer : Timer
  pub hashed : Bool

-- Whether the system calls of tcp_epoll_ctl() and tcp_timer_ctl() succeed, and the fields of `c->tcp`.
pub record Context : Type 0 where
  pub epoll_ok : Conn → Bool
  pub timer_ok : Conn → Bool
  pub syn_retries : ℕ
  pub syn_linear_timeouts : ℕ
  pub rto_max : ℕ

-- tcp_conn_epoll_events()
unfoldable pub tcp_conn_epoll_events : Mask → Mask → EpollMask
tcp_conn_epoll_events events flags =
    if is_zero events
    then epoll_mask false false false false
    else if events established
    then (if events tap_fin_sent
        then epoll_mask false false false true
        else if flags stalled
        then (if flags ack_from_tap_blocks
            then epoll_mask false false true true
            else epoll_mask true false true true)
        else epoll_mask true false true false)
    else if events tap_syn_rcvd && is_zero (update events tap_syn_rcvd false)
    then epoll_mask false true true true
    else epoll_mask false false true true

-- RTO_INIT, RTO_INIT_AFTER_SYN_RETRIES, RTT_STORE_MIN and TCP_MAX_RETRIES
abbrev pub rto_init : ℕ
rto_init = 1

abbrev pub rto_init_after_syn_retries : ℕ
rto_init_after_syn_retries = 3

abbrev pub rtt_store_min : ℕ
rtt_store_min = 100

abbrev pub tcp_max_retries : ℕ
tcp_max_retries = 7

-- RTT_GET()
abbrev pub rtt_get : Conn → ℕ
rtt_get k = rtt_store_min * 2 ^ k.rtt_exp

-- The `flag` of conn_flag_do(): BIT(n) or ~BIT(n)
pub data Change : Type 0 where
  set : ℕ → Change
  unset : ℕ → Change

-- `flag == STALLED || flag == ~STALLED`
unfoldable pub is_stalled : Change → Bool
is_stalled (set n) = n == stalled
is_stalled (unset n) = n == stalled

-- Whether conn_flag_do() sets the timer, with the flags after the change
unfoldable pub needs_timer : Change → Mask → Bool
needs_timer (set n) flags = n == ack_from_tap_due || n == ack_to_tap_due
needs_timer (unset n) flags =
    (n == ack_from_tap_due && flags ack_to_tap_due)
    || (n == ack_to_tap_due && flags ack_from_tap_due)

-- The `event` of conn_event_do(): CLOSED or BIT(n)
pub data Event : Type 0 where
  closed : Event
  event : ℕ → Event

-- CONN_STATE_BITS
abbrev pub is_state_bit : ℕ → Bool
is_state_bit n = n == sock_accepted || n == tap_syn_rcvd || n == established

abbrev pub add_event : ℕ → Mask → Mask
add_event n events = if is_state_bit n then update no_bits n true else update events n true

module _ (c : Context) where
  -- tcp_epoll_ctl(): where a socket that is not watched any more is one with no mask
  unfoldable pub tcp_epoll_ctl : Conn → Conn
  tcp_epoll_ctl k =
      if is_zero k.events
      then record k { epoll = none }
      else if c.epoll_ok k
      then record k { epoll = some (tcp_conn_epoll_events k.events k.flags) }
      else k

  -- The value that tcp_timer_ctl() sets the timer to
  unfoldable pub timer_value : Conn → Timer
  timer_value k =
      if k.flags ack_to_tap_due
      then record { tv_sec = rtt_get k / 2 / 1000000; tv_nsec = rtt_get k / 2 % 1000000 * 1000 }
      else if k.flags ack_from_tap_due
      then (let exp =
            if k.events established then k.retries else k.retries - c.syn_linear_timeouts in
          let timeout =
            if k.events established && k.flags syn_retried
            then max rto_init rto_init_after_syn_retries
            else rto_init in
          record { tv_sec = min (timeout * 2 ^ exp) c.rto_max; tv_nsec = 0 })
      else record { tv_sec = 0; tv_nsec = 0 }

  -- tcp_timer_ctl()
  unfoldable pub tcp_timer_ctl : Conn → Conn
  tcp_timer_ctl k =
      if is_zero k.events || not (c.timer_ok k) then k else record k { timer = timer_value k }

  -- The end of conn_flag_do()
  unfoldable pub after_flag : Change → Conn → Conn
  after_flag change k =
      let k = if is_stalled change then tcp_epoll_ctl k else k in
      if needs_timer change k.flags then tcp_timer_ctl k else k

  -- conn_flag_do()
  unfoldable pub conn_flag_do : Change → Conn → Conn
  conn_flag_do (unset n) k =
      if k.flags n then after_flag (unset n) (record k { flags = update k.flags n false }) else k
  conn_flag_do (set n) k =
      if k.flags n
      then (if n == ack_from_tap_due then tcp_timer_ctl k else k)
      else after_flag (set n) (record k { flags = update k.flags n true })

  -- The end of conn_event_do(), for the event BIT(n)
  unfoldable pub after_event : ℕ → Conn → Conn
  after_event n k =
      if n == tap_fin_rcvd && not (k.events sock_fin_rcvd)
      then conn_flag_do (set active_close) k
      else tcp_epoll_ctl k

  -- conn_event_do(): flow_hash_remove() of the flow
  unfoldable pub conn_event_do : Event → Conn → Conn
  conn_event_do closed k = tcp_epoll_ctl (record k { events = no_bits; hashed = false })
  conn_event_do (event n) k =
      if k.events n then k else after_event n (record k { events = add_event n k.events })
