-- ===== src/Tcp/State/Handler.antt =====
-- tcp_timer_handler(): what is left after the timer of a connection has expired.
use passt.Base.{◌≡◌, refl, not, ◌||◌, Bool-cases, inl, inr}
use passt.Tcp.State.{Conn, Context, is_zero, tcp_timer_ctl}

module _ (c : Context) where
  pub timer_ctl-events : (k : Conn) → (tcp_timer_ctl c k).events ≡ k.events
  unfolding tcp_timer_ctl
  timer_ctl-events k = elim (Bool-cases (is_zero k.events || not (c.timer_ok k))) [
    | inl q ↦ rw q refl
    | inr q ↦ rw q refl
  ]
