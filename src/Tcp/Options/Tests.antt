-- ===== src/Tcp/Options/Tests.antt =====
-- Lookups of options: a maximum segment size behind a NOP, and a last option of five bytes.
use passt.Base.{ℕ, ◌≡◌, refl, arith, some, List, [], ◌∷◌}
use passt.Tcp.Options.{
  OptRead, value, over, opt_value, opt_from, tcp_opt_get, InBuffer, tcp_opt_get-InBuffer,
}

-- NOP, then kind 2, length 4, 1460; one byte of data behind
abbrev mss : List ℕ
mss = 1 ∷ 2 ∷ 4 ∷ 5 ∷ 180 ∷ 0 ∷ []

mss_run : tcp_opt_get mss 5 2 ≡ some (value 2 1460)
unfolding tcp_opt_get opt_from opt_value
mss_run = refl

-- Kind 2, length 5: four bytes are read from the third on.
five_run : tcp_opt_get (2 ∷ 5 ∷ 1 ∷ 2 ∷ 3 ∷ []) 5 2 ≡ some over
unfolding tcp_opt_get opt_from opt_value
five_run = refl

tcp_opt_get-InBuffer_example : (r : OptRead) × (tcp_opt_get mss 5 2 ≡ some r) × InBuffer r
tcp_opt_get-InBuffer_example = tcp_opt_get-InBuffer mss 5 2 (omega arith)
