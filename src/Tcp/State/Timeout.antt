-- ===== src/Tcp/State/Timeout.antt =====
-- While an acknowledgement is due, the timer of a connection is armed: conn_flag_do(), conn_event_do() and
-- tcp_timer_handler().
use mathlib.Core.Path.{ap₂}
use passt.Base.{
  ℕ, zero, suc, ◌+◌, ◌-◌, ◌*◌, ◌/◌, ◌%◌, ◌^◌, ◌<◌, min, max, ◌≡◌, ◌≢◌, refl, sym, ap, ◌∙◌, subst,
  arith, Bool, true, false, not, ◌&&◌, ◌||◌, ◌==◌, if◌then◌else◌, update, update_ne, update_lem,
  Bool-cases, inl, inr,
}
use passt.Tcp.{established}
use passt.Tcp.State.Synced.{not_zero}
use passt.Tcp.State.{
  Mask, Conn, Context, Change, set, unset, Event, closed, event, is_zero, add_event, is_stalled,
  needs_timer, ack_to_tap_due, ack_from_tap_due, syn_retried, tap_fin_rcvd, active_close,
  sock_fin_rcvd, rtt_get, rto_init, rto_init_after_syn_retries, tcp_epoll_ctl, timer_value,
  tcp_timer_ctl, after_flag, conn_flag_do, after_event, conn_event_do,
}

-- Whether an acknowledgement is due, to the guest or from it.
abbrev pub is_due : Mask → Bool
is_due flags = flags ack_to_tap_due || flags ack_from_tap_due

abbrev pub IsArmed : Conn → Type 0
IsArmed k = is_due k.flags ≡ true → 0 < k.timer.tv_sec + k.timer.tv_nsec

positive_power : (n : ℕ) → 0 < 2 ^ n
positive_power zero = omega arith
positive_power (suc n) = let p = positive_power n in omega (arith, p)

ack_delay : (n : ℕ) → 0 < n → 0 < n / 1000000 + n % 1000000 * 1000
ack_delay n h = omega (arith, h)

module _ (c : Context) where
  -- tcp_epoll_ctl() changes the mask alone.
  pub epoll_if :
      {P : Conn → Type 0} (b : Bool) (k : Conn)
      → ((k' : Conn) → k'.events ≡ k.events → k'.flags ≡ k.flags → k'.timer ≡ k.timer → P k')
      → P (if b then tcp_epoll_ctl c k else k)
  unfolding tcp_epoll_ctl
  epoll_if false k h = h k refl refl refl
  epoll_if true k h = elim (Bool-cases (is_zero k.events)) [
    | inl z ↦ rw z (h _ refl refl refl)
    | inr z ↦ elim (Bool-cases (c.epoll_ok k)) [
      | inl y ↦ rw (z, y) (h _ refl refl refl)
      | inr y ↦ rw (z, y) (h k refl refl refl)
    ]
  ]

module _ (c : Context) (ok : (k : Conn) → c.timer_ok k ≡ true) (some_rto : 0 < c.rto_max) where
  rto_positive :
      (b : Bool) (exp : ℕ)
      → 0
        < min
            ((if b then max rto_init rto_init_after_syn_retries else rto_init) * 2 ^ exp)
            c.rto_max
          + 0
  rto_positive true exp = let p = positive_power exp in omega (arith, p, some_rto)
  rto_positive false exp = let p = positive_power exp in omega (arith, p, some_rto)

  timer_value-positive :
      (k : Conn) → is_due k.flags ≡ true → 0 < (timer_value c k).tv_sec + (timer_value c k).tv_nsec
  unfolding timer_value
  timer_value-positive k h = elim (Bool-cases (k.flags ack_to_tap_due)) [
    | inl d ↦ rw d (ack_delay (rtt_get k / 2) (omega (arith, positive_power k.rtt_exp)))
    | inr d ↦
        rw (d, sym (ap (λ x. x || k.flags ack_from_tap_due) d) ∙ h)
          (rto_positive (k.events established && k.flags syn_retried)
            (if k.events established then k.retries else k.retries - c.syn_linear_timeouts))
  ]

  pub timer_ctl-IsArmed : (k : Conn) → is_zero k.events ≡ false → IsArmed (tcp_timer_ctl c k)
  unfolding tcp_timer_ctl
  timer_ctl-IsArmed k z = rw (z, ok k) (timer_value-positive k)

  timer_if-IsArmed :
      (b : Bool) (k : Conn)
      → is_zero k.events ≡ false
      → (b ≡ false → IsArmed k)
      → IsArmed (if b then tcp_timer_ctl c k else k)
  timer_if-IsArmed true k z h = timer_ctl-IsArmed k z
  timer_if-IsArmed false k z h = h refl

  -- Without a new timer, what is due was due before.
  due-before_set :
      (n : ℕ) (flags : Mask)
      → needs_timer (set n) (update flags n true) ≡ false
      → is_due (update flags n true) ≡ true
      → is_due flags ≡ true
  unfolding needs_timer
  due-before_set n flags e h =
      let to_ne : n ≢ ack_to_tap_due = λ q. ground (arith, e, q) in
      let from_ne : n ≢ ack_from_tap_due = λ q. ground (arith, e, q) in
      sym (
        ap₂ (λ x y. x || y) (update_ne flags n true ack_to_tap_due to_ne)
          (update_ne flags n true ack_from_tap_due from_ne))
      ∙ h

  due-before_unset :
      (n : ℕ) (flags : Mask) → is_due (update flags n false) ≡ true → is_due flags ≡ true
  due-before_unset n flags h =
      ground (
        arith,
        h,
        update_lem flags n false ack_to_tap_due,
        update_lem flags n false ack_from_tap_due,
      )

  after_flag-IsArmed :
      (change : Change) (k : Conn) (flags : Mask)
      → is_zero k.events ≡ false
      → (needs_timer change flags ≡ false → is_due flags ≡ true → is_due k.flags ≡ true)
      → IsArmed k
      → IsArmed (after_flag c change (record k { flags = flags }))
  unfolding after_flag
  after_flag-IsArmed change k flags z before h =
      epoll_if c
        {P = λ k'. IsArmed (if needs_timer change k'.flags then tcp_timer_ctl c k' else k')}
        (is_stalled change) (record k { flags = flags })
        (λ k' e f t. timer_if-IsArmed (needs_timer change k'.flags) k' (ap is_zero e ∙ z) (λ q d.
          subst (λ x. 0 < x.tv_sec + x.tv_nsec) (sym t)
            (h (before (ap (needs_timer change) (sym f) ∙ q) (ap is_due (sym f) ∙ d)))))

  -- Where the timer can be set and the longest timeout is not zero, conn_flag_do() of a connection that is
  -- not closed leaves the timer armed while an acknowledgement is due.
  pub conn_flag_do-IsArmed :
      (change : Change) (k : Conn)
      → is_zero k.events ≡ false
      → IsArmed k
      → IsArmed (conn_flag_do c change k)
  unfolding conn_flag_do
  conn_flag_do-IsArmed (set n) k z h = elim (Bool-cases (k.flags n)) [
    | inl q ↦ rw q (timer_if-IsArmed (n == ack_from_tap_due) k z (λ e. h))
    | inr q ↦ rw q (after_flag-IsArmed (set n) k _ z (due-before_set n k.flags) h)
  ]
  conn_flag_do-IsArmed (unset n) k z h = elim (Bool-cases (k.flags n)) [
    | inr q ↦ rw q h
    | inl q ↦ rw q (after_flag-IsArmed (unset n) k _ z (λ e. due-before_unset n k.flags) h)
  ]

  pub epoll-IsArmed : (k : Conn) → IsArmed k → IsArmed (tcp_epoll_ctl c k)
  epoll-IsArmed k h =
      epoll_if c {P = IsArmed} true k
        (λ k' e f t d. subst (λ x. 0 < x.tv_sec + x.tv_nsec) (sym t) (h (ap is_due (sym f) ∙ d)))

  still_up : (e : Mask) → e established ≡ true → is_zero (add_event tap_fin_rcvd e) ≡ false
  unfolding update
  still_up e up = not_zero (update e tap_fin_rcvd true) up

  -- conn_event_do() changes no flag that is due, and no timer.
  pub conn_event_do-IsArmed :
      (ev : Event) (k : Conn)
      → (ev ≡ event tap_fin_rcvd → k.events established ≡ true)
      → IsArmed k
      → IsArmed (conn_event_do c ev k)
  unfolding conn_event_do after_event
  conn_event_do-IsArmed closed k fin h = epoll-IsArmed _ h
  conn_event_do-IsArmed (event n) k fin h = elim (Bool-cases (k.events n)) [
    | inl q ↦ rw q h
    | inr q ↦
        let k1 = record k { events = add_event n k.events } in
        elim (Bool-cases (n == tap_fin_rcvd && not (k1.events sock_fin_rcvd))) [
          | inr p ↦ rw (q, p) (epoll-IsArmed k1 h)
          | inl p ↦
              let is_fin : tap_fin_rcvd ≡ n = ground (arith, p) in
              let up = fin (ap event (sym is_fin)) in
              rw (q, p)
                (conn_flag_do-IsArmed (set active_close) k1
                  (subst (λ n. is_zero (add_event n k.events) ≡ false) is_fin
                    (still_up k.events up))
                  h)
        ]
  ]
