-- ===== src/Tcp/State/Reached.antt =====
-- All sequences of events and changes of flags of a connection.
use passt.Base.{
  ◌<◌, ◌≡◌, refl, sym, ap, ◌∙◌, subst, arith, Bool, true, false, not, ◌&&◌, ◌||◌, none,
}
use passt.Tcp.{tap_fin_sent}
use passt.Tcp.State.{Conn, Context, Change, Event, is_zero, no_bits, conn_flag_do, conn_event_do}
use passt.Tcp.State.Synced.{IsSynced}
use passt.Tcp.State.Timeout.{IsArmed, conn_flag_do-IsArmed, conn_event_do-IsArmed}
use passt.Tcp.State.States.{
  IsState, CanFollow, fin_established, later_cleared-IsState, conn_event_do-IsState,
  conn_flag_do-events,
}
use passt.Tcp.State.Stale.{
  clear_fin_sent, updates_mask, flag_stale, IsWatched, Synced-IsWatched, clear_fin_sent-zero,
  clear_fin_sent-IsSynced, conn_flag_do-IsWatched, conn_event_do-IsWatched, conn_flag_do-fresh,
  conn_event_do-fresh,
}

-- A new connection: no events and no flags, and its socket not watched
abbrev pub IsNew : Conn → Type 0
IsNew k = (k.events ≡ no_bits) × (k.flags ≡ no_bits) × (k.epoll ≡ none)

module _ (c : Context) where
  -- The states that a new connection reaches, by events that may come in its state, changes of flags until
  -- it is closed, and tcp_rewind_seq(), which clears TAP_FIN_SENT. The Bool is whether the epoll mask may lag
  -- behind: from a change of ACK_FROM_TAP_BLOCKS while STALLED is set, or from tcp_rewind_seq() after a FIN
  -- to the guest, until the next update of the mask.
  pub data Reached : Bool → Conn → Type 0 where
    start : (k : Conn) → IsNew k → Reached false k
    by_event :
        (ev : Event) (k : Conn) (stale : Bool)
        → CanFollow k.events ev
        → Reached stale k
        → Reached (stale && not (updates_mask ev k)) (conn_event_do c ev k)
    by_flag :
        (change : Change) (k : Conn) (stale : Bool)
        → is_zero k.events ≡ false
        → Reached stale k
        → Reached (flag_stale change k stale) (conn_flag_do c change k)
    by_rewind :
        (k : Conn) (stale : Bool)
        → Reached stale k
        → Reached (stale || k.events tap_fin_sent) (clear_fin_sent k)

-- What holds in all of them.
pub record IsSound (stale : Bool) (k : Conn) : Type 0 where
  pub state : IsState k.events
  pub watched : IsWatched k
  pub fresh : stale ≡ false → IsSynced k
  pub armed : IsArmed k

start-IsSound : (k : Conn) → IsNew k → IsSound false k
start-IsSound k (e, f, m) =
    let synced : IsSynced k = m ∙ rw e refl in
    record {
      state = subst IsState (sym e) (record {
        accepted = λ q. absurd (ground (arith, q));
        connecting = λ q. absurd (ground (arith, q));
        syn_acked = λ q. absurd (ground (arith, q));
        behind = λ n l m q. absurd (ground (arith, q));
      });
      watched = Synced-IsWatched k synced;
      fresh = λ q. synced;
      armed = λ d. absurd (ground (arith, ap (λ x. x 3) f, ap (λ x. x 4) f, d));
    }

neither : (a b : Bool) → (a || b) ≡ false → (a ≡ false) × (b ≡ false)
neither a b e = (ground arith, ground arith)

rewind-IsSound :
    (k : Conn) (stale : Bool)
    → IsSound stale k
    → IsSound (stale || k.events tap_fin_sent) (clear_fin_sent k)
unfolding clear_fin_sent
rewind-IsSound k stale s = record {
  state = later_cleared-IsState k.events s.state;
  watched = s.watched ∙ sym (clear_fin_sent-zero k s.state);
  fresh = λ q.
      let (was, off) = neither stale (k.events tap_fin_sent) q in
      clear_fin_sent-IsSynced k off (s.fresh was);
  armed = s.armed;
}

module _ (c : Context) (epoll_ok : (k : Conn) → c.epoll_ok k ≡ true)
    (timer_ok : (k : Conn) → c.timer_ok k ≡ true) (some_rto : 0 < c.rto_max) where
  -- Where epoll_ctl() succeeds, the timer can be set, and the longest timeout is not zero, every state that
  -- a connection reaches is one of the protocol's states, its socket is watched exactly until it is closed,
  -- its timer is armed while an acknowledgement is due, and, unless the mask may lag behind, the socket is
  -- watched for the events of the state.
  pub Reached-IsSound : (stale : Bool) (k : Conn) → Reached c stale k → IsSound stale k
  Reached-IsSound _ _ (start k n) = start-IsSound k n
  Reached-IsSound _ _ (by_event ev k stale f r) =
      let s = Reached-IsSound stale k r in
      let fin = fin_established k.events ev f in
      record {
        state = conn_event_do-IsState c ev k f s.state;
        watched = conn_event_do-IsWatched c epoll_ok ev k fin s.watched;
        fresh = conn_event_do-fresh c epoll_ok ev k stale fin s.fresh;
        armed = conn_event_do-IsArmed c timer_ok some_rto ev k fin s.armed;
      }
  Reached-IsSound _ _ (by_flag change k stale z r) =
      let s = Reached-IsSound stale k r in
      record {
        state = subst IsState (sym (conn_flag_do-events c change k)) s.state;
        watched = conn_flag_do-IsWatched c epoll_ok change k s.watched;
        fresh = conn_flag_do-fresh c epoll_ok change k stale s.fresh;
        armed = conn_flag_do-IsArmed c timer_ok some_rto change k z s.armed;
      }
  Reached-IsSound _ _ (by_rewind k stale r) = rewind-IsSound k stale (Reached-IsSound stale k r)
