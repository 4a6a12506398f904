-- ===== src/Tcp/State/States.antt =====
-- The states of a connection, through all events and changes of flags.
use passt.Base.{
  ℕ, ◌≤◌, ◌<◌, ◌≡◌, ◌≢◌, ◌⊎◌, refl, sym, ap, ◌∙◌, subst, arith, Bool, true, false, not, ◌&&◌, ◌==◌,
  if◌then◌else◌, update, update_ne, Bool-cases, inl, inr,
}
use passt.Tcp.{established, tap_fin_sent}
use passt.Tcp.State.{
  Mask, Conn, Context, Change, set, unset, Event, closed, event, is_zero, add_event, is_state_bit,
  tap_fin_rcvd, sock_accepted, tap_syn_rcvd, sock_fin_rcvd, active_close, ack_from_tap_due,
  tcp_epoll_ctl, tcp_timer_ctl, after_flag, conn_flag_do, after_event, conn_event_do, is_stalled,
}
use passt.Tcp.State.Timeout.{epoll_if}
use passt.Tcp.State.Handler.{timer_ctl-events}

-- The sets of events that stand for a state: closed, accepted, connecting, connected, or established
-- with any of the events behind it.
pub record IsState (e : Mask) : Type 0 where
  pub accepted : e sock_accepted ≡ true → (e tap_syn_rcvd ≡ false) × (e established ≡ false)
  pub connecting : e tap_syn_rcvd ≡ true → e established ≡ false
  pub syn_acked : e sock_fin_rcvd ≡ true → (e tap_syn_rcvd ≡ true) ⊎ (e established ≡ true)
  pub behind : (n : ℕ) → sock_fin_rcvd < n → n < 8 → e n ≡ true → e established ≡ true

-- The events that may come in a state. Event 3 is SYN, ACK sent to the guest, or, like all later ones,
-- one of an established connection.
pub data CanFollow (e : Mask) : Event → Type 0 where
  close : CanFollow e closed
  accept : is_zero e ≡ true → CanFollow e (event sock_accepted)
  connect : is_zero e ≡ true → CanFollow e (event tap_syn_rcvd)
  establish : (e sock_accepted ≡ true) ⊎ (e tap_syn_rcvd ≡ true) → CanFollow e (event established)
  syn_ack : e tap_syn_rcvd ≡ true → CanFollow e (event sock_fin_rcvd)
  go_on : (n : ℕ) → sock_fin_rcvd ≤ n → n < 8 → e established ≡ true → CanFollow e (event n)

abbrev number : Event → ℕ
number closed = 0
number (event n) = n

wrong_number : (n : ℕ) → n ≢ tap_fin_rcvd → event n ≡ event tap_fin_rcvd → ⊥
wrong_number n ne q = let same : n ≡ tap_fin_rcvd = ap number q in ne same

pub fin_established :
    (e : Mask) (ev : Event) → CanFollow e ev → ev ≡ event tap_fin_rcvd → e established ≡ true
fin_established e _ close q =
    let zero_is : 0 ≡ tap_fin_rcvd = ap number q in absurd (omega (arith, zero_is))
fin_established e _ (accept z) q = absurd (wrong_number sock_accepted (λ x. omega arith) q)
fin_established e _ (connect z) q = absurd (wrong_number tap_syn_rcvd (λ x. omega arith) q)
fin_established e _ (establish z) q = absurd (wrong_number established (λ x. omega arith) q)
fin_established e _ (syn_ack z) q = absurd (wrong_number sock_fin_rcvd (λ x. omega arith) q)
fin_established e _ (go_on n l m h) q = h

-- A later event of an established connection.
add_event_high : (e : Mask) (n : ℕ) → sock_fin_rcvd ≤ n → add_event n e ≡ update e n true
add_event_high e n l = let q : is_state_bit n ≡ false = ground (arith, l) in rw q refl

later-IsState :
    (e : Mask) (n : ℕ)
    → sock_fin_rcvd ≤ n
    → e established ≡ true
    → IsState e
    → IsState (update e n true)
later-IsState e n l h s =
    let up : update e n true established ≡ true =
      update_ne e n true established (λ q. omega (arith, q, l)) ∙ h in
    record {
      accepted = λ q.
          let early = update_ne e n true sock_accepted (λ q. omega (arith, q, l)) in
          absurd (ground (arith, (s.accepted (sym early ∙ q)).1, h));
      connecting = λ q.
          let early = update_ne e n true tap_syn_rcvd (λ q. omega (arith, q, l)) in
          absurd (ground (arith, s.connecting (sym early ∙ q), h));
      syn_acked = λ q. inr up;
      behind = λ k l m q. up;
    }

add_event-IsState : (e : Mask) (n : ℕ) → CanFollow e (event n) → IsState e → IsState (add_event n e)
unfolding update
add_event-IsState e _ (accept z) s = record {
  accepted = λ q. (refl, refl);
  connecting = λ q. refl;
  syn_acked = λ q. absurd (ground (arith, q));
  behind = λ n l m q. absurd (ground (arith, q));
}
add_event-IsState e _ (connect z) s = record {
  accepted = λ q. absurd (ground (arith, q));
  connecting = λ q. refl;
  syn_acked = λ q. absurd (ground (arith, q));
  behind = λ n l m q. absurd (ground (arith, q));
}
add_event-IsState e _ (establish z) s = record {
  accepted = λ q. absurd (ground (arith, q));
  connecting = λ q. absurd (ground (arith, q));
  syn_acked = λ q. inr refl;
  behind = λ n l m q. refl;
}
add_event-IsState e _ (syn_ack z) s = record {
  accepted = s.accepted;
  connecting = s.connecting;
  syn_acked = λ q. inl z;
  behind = λ n l m q.
      s.behind n l m (sym (update_ne e sock_fin_rcvd true n (λ x. omega (arith, x, l))) ∙ q);
}
add_event-IsState e n (go_on _ l m h) s =
    subst IsState (sym (add_event_high e n l)) (later-IsState e n l h s)

cleared-before : (e : Mask) (n m : ℕ) → update e n false m ≡ true → e m ≡ true
unfolding update
cleared-before e n m q = ground (arith, q)

-- Clearing TAP_FIN_SENT leaves the state.
pub later_cleared-IsState : (e : Mask) → IsState e → IsState (update e tap_fin_sent false)
unfolding update
later_cleared-IsState e s = record {
  accepted = s.accepted;
  connecting = s.connecting;
  syn_acked = s.syn_acked;
  behind = λ n l m q. s.behind n l m (cleared-before e tap_fin_sent n q);
}

module _ (c : Context) where
  pub epoll_ctl-events : (k : Conn) → (tcp_epoll_ctl c k).events ≡ k.events
  epoll_ctl-events k = epoll_if c {P = λ k'. k'.events ≡ k.events} true k (λ k' e f t. e)

  timer_if-events : (b : Bool) (k : Conn) → (if b then tcp_timer_ctl c k else k).events ≡ k.events
  timer_if-events true k = timer_ctl-events c k
  timer_if-events false k = refl

  after_flag-events : (change : Change) (k : Conn) → (after_flag c change k).events ≡ k.events
  unfolding after_flag
  after_flag-events change k =
      timer_if-events _ _
      ∙ epoll_if c {P = λ k'. k'.events ≡ k.events} (is_stalled change) k (λ k' e f t. e)

  pub conn_flag_do-events :
      (change : Change) (k : Conn) → (conn_flag_do c change k).events ≡ k.events
  unfolding conn_flag_do
  conn_flag_do-events (set n) k = elim (Bool-cases (k.flags n)) [
    | inl q ↦ rw q (timer_if-events (n == ack_from_tap_due) k)
    | inr q ↦ rw q (after_flag-events (set n) _)
  ]
  conn_flag_do-events (unset n) k = elim (Bool-cases (k.flags n)) [
    | inl q ↦ rw q (after_flag-events (unset n) _)
    | inr q ↦ rw q refl
  ]

  after_event-events : (n : ℕ) (k : Conn) → (after_event c n k).events ≡ k.events
  unfolding after_event
  after_event-events n k = elim (Bool-cases (n == tap_fin_rcvd && not (k.events sock_fin_rcvd))) [
    | inl q ↦ rw q (conn_flag_do-events (set active_close) k)
    | inr q ↦ rw q (epoll_ctl-events k)
  ]

  pub conn_event_do-IsState :
      (ev : Event) (k : Conn)
      → CanFollow k.events ev
      → IsState k.events
      → IsState (conn_event_do c ev k).events
  unfolding conn_event_do
  conn_event_do-IsState closed k f s = subst IsState (sym (epoll_ctl-events _)) (record {
    accepted = λ q. absurd (ground (arith, q));
    connecting = λ q. absurd (ground (arith, q));
    syn_acked = λ q. absurd (ground (arith, q));
    behind = λ n l m q. absurd (ground (arith, q));
  })
  conn_event_do-IsState (event n) k f s = elim (Bool-cases (k.events n)) [
    | inl q ↦ rw q s
    | inr q ↦ rw q (subst IsState (sym (after_event-events n _)) (add_event-IsState k.events n f s))
  ]
