-- ===== src/Tcp/Seq.antt =====
-- The comparisons of sequence numbers, against those of unbounded numbers within a window.
use passt.Base.{ℕ, ◌+◌, ◌%◌, ◌^◌, ◌≤◌, ◌<◌, ◌≡◌, ◌↔◌, arith, true}
use passt.Tcp.{max_window, seq_le, seq_lt, seq_ge, seq_gt}

-- Two positions in a stream, less than a window apart.
pub record IsNear (a b : ℕ) : Type 0 where
  pub above : a < b + max_window
  pub below : b < a + max_window

-- SEQ_LE(), SEQ_LT(), SEQ_GE() and SEQ_GT() of the sequence numbers of two positions in a stream that are less
-- than a window apart, across any number of wraps, compare the positions.
pub seq_lt_iff :
    (a b : ℕ)
    → IsNear a b
    → ((seq_le (a % 2 ^ 32) (b % 2 ^ 32) ≡ true) ↔ (a ≤ b))
      × ((seq_lt (a % 2 ^ 32) (b % 2 ^ 32) ≡ true) ↔ (a < b))
      × ((seq_ge (a % 2 ^ 32) (b % 2 ^ 32) ≡ true) ↔ (b ≤ a))
      × ((seq_gt (a % 2 ^ 32) (b % 2 ^ 32) ≡ true) ↔ (b < a))
seq_lt_iff a b n =
    let up = n.above in
    let down = n.below in
    (
      (λ h. ground arith, λ h. ground arith),
      (λ h. ground arith, λ h. ground arith),
      (λ h. ground arith, λ h. ground arith),
      (λ h. ground arith, λ h. ground arith),
    )
