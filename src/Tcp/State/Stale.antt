-- ===== src/Tcp/State/Stale.antt =====
-- When the epoll mask of a socket may lag behind the state, and that a socket is watched unless its
-- connection is closed.
use passt.Base.{
  ◌≡◌, refl, sym, ap, ◌∙◌, arith, Bool, true, false, not, ◌&&◌, ◌||◌, Option, none, some, ◌==◌,
  if◌then◌else◌, update, Bool-cases, inl, inr,
}
use passt.Tcp.{established, tap_fin_sent}
use passt.Tcp.State.{
  Conn, Context, EpollMask, Change, set, unset, Event, closed, event, is_zero, add_event,
  is_stalled, needs_timer, stalled, ack_from_tap_blocks, ack_from_tap_due, tap_fin_rcvd,
  active_close, sock_fin_rcvd, tcp_conn_epoll_events, tcp_epoll_ctl, tcp_timer_ctl, after_flag,
  conn_flag_do, after_event, conn_event_do,
}
use passt.Tcp.State.Synced.{
  IsSynced, mask_of, bit_of, not_zero, tcp_epoll_ctl-IsSynced, timer_if-IsSynced, change-IsSynced,
  conn_event_do-IsSynced,
}
use passt.Tcp.State.States.{IsState}

-- `conn->events &= ~TAP_FIN_SENT` of tcp_rewind_seq()
unfoldable pub clear_fin_sent : Conn → Conn
clear_fin_sent k = record k { events = update k.events tap_fin_sent false }

-- Whether conn_event_do() ends with tcp_epoll_ctl().
abbrev pub updates_mask : Event → Conn → Bool
updates_mask closed k = true
updates_mask (event n) k =
    not (k.events n) && not (n == tap_fin_rcvd && not (add_event n k.events sock_fin_rcvd))

-- Whether the mask may lag behind after a flag has changed: after a change of STALLED it does not, and after
-- one of ACK_FROM_TAP_BLOCKS while STALLED is set it does.
abbrev changed_stale : Change → Conn → Bool → Bool
changed_stale change k stale =
    if is_stalled change
    then false
    else if bit_of change == ack_from_tap_blocks && k.flags stalled
    then true
    else stale

abbrev pub flag_stale : Change → Conn → Bool → Bool
flag_stale (set n) k stale = if k.flags n then stale else changed_stale (set n) k stale
flag_stale (unset n) k stale = if k.flags n then changed_stale (unset n) k stale else stale

abbrev pub is_unwatched : Option EpollMask → Bool
is_unwatched none = true
is_unwatched (some m) = false

-- The socket is watched exactly if the connection is not closed.
abbrev pub IsWatched : Conn → Type 0
IsWatched k = is_unwatched k.epoll ≡ is_zero k.events

pub Synced-IsWatched : (k : Conn) → IsSynced k → IsWatched k
Synced-IsWatched k h = elim (Bool-cases (is_zero k.events)) [
  | inl z ↦ ap is_unwatched h ∙ rw z refl
  | inr z ↦ ap is_unwatched h ∙ rw z refl
]

-- Where TAP_FIN_SENT is not set, clearing it leaves the mask.
pub clear_fin_sent-IsSynced :
    (k : Conn) → k.events tap_fin_sent ≡ false → IsSynced k → IsSynced (clear_fin_sent k)
unfolding clear_fin_sent update tcp_conn_epoll_events
clear_fin_sent-IsSynced k off h =
    let same : mask_of (update k.events tap_fin_sent false) k.flags ≡ mask_of k.events k.flags =
      rw off refl in
    h ∙ sym same

-- Clearing TAP_FIN_SENT does not close a connection.
pub clear_fin_sent-zero :
    (k : Conn) → IsState k.events → is_zero (clear_fin_sent k).events ≡ is_zero k.events
unfolding clear_fin_sent update
clear_fin_sent-zero k s = elim (Bool-cases (k.events tap_fin_sent)) [
  | inl on ↦
      let up : k.events established ≡ true = s.behind tap_fin_sent (omega arith) (omega arith) on in
      not_zero (update k.events tap_fin_sent false) up ∙ sym (not_zero k.events up)
  | inr off ↦ rw off refl
]

not_both : (a b : Bool) → (not a && not b) ≡ true → a ≡ false
not_both a b e = ground arith

not_second : (a b : Bool) → (not a && not b) ≡ true → b ≡ false
not_second a b e = ground arith

is_true : (a : Bool) → not a ≡ false → a ≡ true
is_true a e = ground arith

module _ (c : Context) (ok : (k : Conn) → c.epoll_ok k ≡ true) where
  epoll_ctl-IsWatched : (k : Conn) → IsWatched (tcp_epoll_ctl c k)
  epoll_ctl-IsWatched k = Synced-IsWatched (tcp_epoll_ctl c k) (tcp_epoll_ctl-IsSynced c ok k)

  timer_if-IsWatched :
      (b : Bool) (k : Conn) → IsWatched k → IsWatched (if b then tcp_timer_ctl c k else k)
  unfolding tcp_timer_ctl
  timer_if-IsWatched false k h = h
  timer_if-IsWatched true k h = elim (Bool-cases (is_zero k.events || not (c.timer_ok k))) [
    | inl q ↦ rw q h
    | inr q ↦ rw q h
  ]

  epoll_if-IsWatched :
      (b : Bool) (k : Conn) → IsWatched k → IsWatched (if b then tcp_epoll_ctl c k else k)
  epoll_if-IsWatched true k h = epoll_ctl-IsWatched k
  epoll_if-IsWatched false k h = h

  after_flag-IsWatched :
      (change : Change) (k : Conn) → IsWatched k → IsWatched (after_flag c change k)
  unfolding after_flag
  after_flag-IsWatched change k h =
      let k1 = if is_stalled change then tcp_epoll_ctl c k else k in
      timer_if-IsWatched (needs_timer change k1.flags) k1
        (epoll_if-IsWatched (is_stalled change) k h)

  pub conn_flag_do-IsWatched :
      (change : Change) (k : Conn) → IsWatched k → IsWatched (conn_flag_do c change k)
  unfolding conn_flag_do
  conn_flag_do-IsWatched (set n) k h = elim (Bool-cases (k.flags n)) [
    | inl q ↦ rw q (timer_if-IsWatched (n == ack_from_tap_due) k h)
    | inr q ↦ rw q (after_flag-IsWatched (set n) (record k { flags = update k.flags n true }) h)
  ]
  conn_flag_do-IsWatched (unset n) k h = elim (Bool-cases (k.flags n)) [
    | inl q ↦ rw q (after_flag-IsWatched (unset n) (record k { flags = update k.flags n false }) h)
    | inr q ↦ rw q h
  ]

  pub conn_event_do-IsWatched :
      (ev : Event) (k : Conn)
      → (ev ≡ event tap_fin_rcvd → k.events established ≡ true)
      → IsWatched k
      → IsWatched (conn_event_do c ev k)
  unfolding conn_event_do after_event update
  conn_event_do-IsWatched closed k fin h = epoll_ctl-IsWatched _
  conn_event_do-IsWatched (event n) k fin h = elim (Bool-cases (k.events n)) [
    | inl q ↦ rw q h
    | inr q ↦
        let k1 = record k { events = add_event n k.events } in
        elim (Bool-cases (n == tap_fin_rcvd && not (k1.events sock_fin_rcvd))) [
          | inr p ↦ rw (q, p) (epoll_ctl-IsWatched k1)
          | inl p ↦
              let is_fin : tap_fin_rcvd ≡ n = ground (arith, p) in
              let up = fin (ap event (sym is_fin)) in
              let open_ : is_zero k1.events ≡ is_zero k.events =
                ap (λ n. is_zero (add_event n k.events)) (sym is_fin)
                ∙ not_zero (update k.events tap_fin_rcvd true) up
                ∙ sym (not_zero k.events up) in
              rw (q, p) (conn_flag_do-IsWatched (set active_close) k1 (h ∙ sym open_))
        ]
  ]

  -- After STALLED has changed, the mask is that of the state.
  stalled-IsSynced :
      (change : Change) (k : Conn) → is_stalled change ≡ true → IsSynced (after_flag c change k)
  unfolding after_flag
  stalled-IsSynced change k e = rw e (timer_if-IsSynced c ok _ _ (tcp_epoll_ctl-IsSynced c ok k))

  changed-IsSynced :
      (change : Change) (k : Conn) (b stale : Bool)
      → is_stalled change ≡ (bit_of change == stalled)
      → (stale ≡ false → IsSynced k)
      → changed_stale change k stale ≡ false
      → IsSynced (after_flag c change (record k { flags = update k.flags (bit_of change) b }))
  changed-IsSynced change k b stale same h e = elim (Bool-cases (is_stalled change)) [
    | inl q ↦ stalled-IsSynced change _ q
    | inr q ↦ elim (Bool-cases (bit_of change == ack_from_tap_blocks && k.flags stalled)) [
      | inl p ↦ ground (arith, e, q, p)
      | inr p ↦
          let fresh : stale ≡ false = ground (arith, e, q, p) in
          change-IsSynced c ok change k b same (λ z. ground (arith, p, z)) (h fresh)
    ]
  ]

  pub conn_flag_do-fresh :
      (change : Change) (k : Conn) (stale : Bool)
      → (stale ≡ false → IsSynced k)
      → flag_stale change k stale ≡ false
      → IsSynced (conn_flag_do c change k)
  unfolding conn_flag_do is_stalled
  conn_flag_do-fresh (set n) k stale h e = elim (Bool-cases (k.flags n)) [
    | inl q ↦ rw q (timer_if-IsSynced c ok (n == ack_from_tap_due) k (h (ground (arith, e, q))))
    | inr q ↦ rw q (changed-IsSynced (set n) k true stale refl h (simp q at e))
  ]
  conn_flag_do-fresh (unset n) k stale h e = elim (Bool-cases (k.flags n)) [
    | inl q ↦ rw q (changed-IsSynced (unset n) k false stale refl h (simp q at e))
    | inr q ↦ rw q (h (ground (arith, e, q)))
  ]

  updates-IsSynced :
      (ev : Event) (k : Conn) → updates_mask ev k ≡ true → IsSynced (conn_event_do c ev k)
  unfolding conn_event_do after_event
  updates-IsSynced closed k e = tcp_epoll_ctl-IsSynced c ok _
  updates-IsSynced (event n) k e =
      let rest = n == tap_fin_rcvd && not (add_event n k.events sock_fin_rcvd) in
      let new : k.events n ≡ false = not_both (k.events n) rest e in
      let other : rest ≡ false = not_second (k.events n) rest e in
      rw (new, other) (tcp_epoll_ctl-IsSynced c ok _)

  pub conn_event_do-fresh :
      (ev : Event) (k : Conn) (stale : Bool)
      → (ev ≡ event tap_fin_rcvd → k.events established ≡ true)
      → (stale ≡ false → IsSynced k)
      → (stale && not (updates_mask ev k)) ≡ false
      → IsSynced (conn_event_do c ev k)
  conn_event_do-fresh ev k false fin h e = conn_event_do-IsSynced c ok ev k fin (h refl)
  conn_event_do-fresh ev k true fin h e = updates-IsSynced ev k (is_true _ e)
