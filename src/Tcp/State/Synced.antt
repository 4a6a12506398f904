-- ===== src/Tcp/State/Synced.antt =====
-- conn_flag_do() and conn_event_do() keep the epoll mask of the socket that of the state.
use passt.Base.{
  ℕ, ◌≡◌, ◌≢◌, refl, sym, ap, ◌∙◌, arith, Bool, true, false, not, ◌&&◌, ◌||◌, Option, none, some,
  ◌==◌, if◌then◌else◌, update, update_ne, Bool-cases, inl, inr,
}
use passt.Tcp.{established}
use passt.Tcp.State.{
  Mask, Conn, Context, EpollMask, Change, set, unset, Event, closed, event, is_zero, add_event,
  is_stalled, stalled, ack_from_tap_blocks, tap_fin_rcvd, active_close, sock_fin_rcvd,
  tcp_conn_epoll_events, tcp_epoll_ctl, tcp_timer_ctl, after_flag, conn_flag_do, after_event,
  conn_event_do,
}

-- The epoll mask of a state: none once the connection is closed.
abbrev pub mask_of : Mask → Mask → Option EpollMask
mask_of events flags = if is_zero events then none else some (tcp_conn_epoll_events events flags)

abbrev pub IsSynced : Conn → Type 0
IsSynced k = k.epoll ≡ mask_of k.events k.flags

abbrev pub bit_of : Change → ℕ
bit_of (set n) = n
bit_of (unset n) = n

-- A flag that the mask does not depend on.
mask-flag :
    (events flags : Mask) (n : ℕ) (b : Bool)
    → n ≢ stalled
    → (n ≡ ack_from_tap_blocks → flags stalled ≡ false)
    → mask_of events (update flags n b) ≡ mask_of events flags
unfolding tcp_conn_epoll_events
mask-flag events flags n b ne h =
    let s : update flags n b stalled ≡ flags stalled = update_ne flags n b stalled ne in
    elim (Bool-cases (flags stalled)) [
      | inr off ↦ rw (s, off) refl
      | inl on ↦
          let other : n ≢ ack_from_tap_blocks = λ e. ground (arith, h e, on) in
          rw (s, on, update_ne flags n b ack_from_tap_blocks other) refl
    ]

pub not_zero : (m : Mask) → m established ≡ true → is_zero m ≡ false
not_zero m e = elim (Bool-cases (m 0)) [
  | inl a ↦ rw a refl
  | inr a ↦ elim (Bool-cases (m 1)) [ inl b ↦ rw (a, b) refl | inr b ↦ rw (a, b, e) refl ]
]

module _ (c : Context) (ok : (k : Conn) → c.epoll_ok k ≡ true) where
  pub tcp_epoll_ctl-IsSynced : (k : Conn) → IsSynced (tcp_epoll_ctl c k)
  unfolding tcp_epoll_ctl
  tcp_epoll_ctl-IsSynced k = elim (Bool-cases (is_zero k.events)) [
    | inl z ↦ rw z (rw z refl)
    | inr z ↦ rw (z, ok k) (rw z refl)
  ]

  timer_ctl-IsSynced : (k : Conn) → IsSynced k → IsSynced (tcp_timer_ctl c k)
  unfolding tcp_timer_ctl
  timer_ctl-IsSynced k h = elim (Bool-cases (is_zero k.events || not (c.timer_ok k))) [
    | inl q ↦ rw q h
    | inr q ↦ rw q h
  ]

  -- Setting the timer if need be, or not.
  pub timer_if-IsSynced :
      (b : Bool) (k : Conn) → IsSynced k → IsSynced (if b then tcp_timer_ctl c k else k)
  timer_if-IsSynced true k h = timer_ctl-IsSynced k h
  timer_if-IsSynced false k h = h

  -- With or without the update of the mask, for a flag that it does not depend on.
  epoll_if-IsSynced :
      (b : Bool) (k : Conn)
      → (b ≡ false → IsSynced k)
      → IsSynced (if b then tcp_epoll_ctl c k else k)
  epoll_if-IsSynced true k h = tcp_epoll_ctl-IsSynced k
  epoll_if-IsSynced false k h = h refl

  pub change-IsSynced :
      (change : Change) (k : Conn) (b : Bool)
      → is_stalled change ≡ (bit_of change == stalled)
      → (bit_of change ≡ ack_from_tap_blocks → k.flags stalled ≡ false)
      → IsSynced k
      → IsSynced (after_flag c change (record k { flags = update k.flags (bit_of change) b }))
  unfolding after_flag
  change-IsSynced change k b e blocks h = timer_if-IsSynced _ _ (
      epoll_if-IsSynced (is_stalled change) _ (λ q.
        h
        ∙ sym (
            mask-flag k.events k.flags (bit_of change) b (λ z. ground (arith, sym e ∙ q, z))
              blocks)))

  -- Where epoll_ctl() succeeds, conn_flag_do() keeps the epoll mask of the socket that of the state, but for
  -- ACK_FROM_TAP_BLOCKS on a stalled connection.
  pub conn_flag_do-IsSynced :
      (change : Change) (k : Conn)
      → (bit_of change ≡ ack_from_tap_blocks → k.flags stalled ≡ false)
      → IsSynced k
      → IsSynced (conn_flag_do c change k)
  unfolding conn_flag_do is_stalled
  conn_flag_do-IsSynced (unset n) k blocks h = elim (Bool-cases (k.flags n)) [
    | inl q ↦ rw q (change-IsSynced (unset n) k false refl blocks h)
    | inr q ↦ rw q h
  ]
  conn_flag_do-IsSynced (set n) k blocks h = elim (Bool-cases (k.flags n)) [
    | inl q ↦ rw q (timer_if-IsSynced _ k h)
    | inr q ↦ rw q (change-IsSynced (set n) k true refl blocks h)
  ]

  -- A FIN of the guest on an established connection does not change the mask.
  mask-fin_rcvd :
      (events flags : Mask)
      → events established ≡ true
      → mask_of (add_event tap_fin_rcvd events) flags ≡ mask_of events flags
  unfolding tcp_conn_epoll_events update
  mask-fin_rcvd events flags e =
      rw (not_zero events e, not_zero (update events tap_fin_rcvd true) e) (rw e refl)

  -- Where epoll_ctl() succeeds and FINs come on established connections, conn_event_do() keeps the epoll mask
  -- of the socket that of the state; a closed connection has none and leaves the hash table.
  pub conn_event_do-IsSynced :
      (ev : Event) (k : Conn)
      → (ev ≡ event tap_fin_rcvd → k.events established ≡ true)
      → IsSynced k
      → IsSynced (conn_event_do c ev k)
  unfolding conn_event_do after_event
  conn_event_do-IsSynced closed k fin h = tcp_epoll_ctl-IsSynced _
  conn_event_do-IsSynced (event n) k fin h = elim (Bool-cases (k.events n)) [
    | inl q ↦ rw q h
    | inr q ↦
        let k1 = record k { events = add_event n k.events } in
        elim (Bool-cases (n == tap_fin_rcvd && not (k1.events sock_fin_rcvd))) [
          | inr p ↦ rw (q, p) (tcp_epoll_ctl-IsSynced k1)
          | inl p ↦
              let is_fin : tap_fin_rcvd ≡ n = ground (arith, p) in
              let up = fin (ap event (sym is_fin)) in
              rw (q, p)
                (conn_flag_do-IsSynced (set active_close) k1 (λ z. absurd (omega (arith, z)))
                  (h
                    ∙ sym (mask-fin_rcvd k.events k.flags up)
                    ∙ ap (λ n. mask_of (add_event n k.events) k.flags) is_fin))
        ]
  ]
