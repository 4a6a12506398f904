-- ===== src/Tcp/Stream.antt =====
-- The bytes of a stream from a sequence number on, and the segments that carry them.
use mathlib.Core.Path.{ap₂}
use passt.Base.{
  ℕ, zero, suc, ◌+◌, ◌-◌, ◌%◌, ◌^◌, ◌≤◌, ◌<◌, ◌≡◌, refl, ap, ◌∙◌, arith, List, [], ◌∷◌, ◌++◌, map,
  length, drop,
}
use passt.Iov.{Memory}
use passt.Iov.Bytes.{tail_addrs}
use passt.Tcp.{max_window}
use passt.Tcp.Gather.{Segment}

-- The stream's `n` bytes from the position `p` on, where `f` is the byte at each position.
abbrev pub stream_from : (ℕ → ℕ) → ℕ → ℕ → List ℕ
stream_from f p zero = []
stream_from f p (suc n) = f p ∷ stream_from f (p + 1) n

pub append-stream :
    (f : ℕ → ℕ) (s n k : ℕ) → stream_from f s n ++ stream_from f (s + n) k ≡ stream_from f s (n + k)
append-stream f s zero k = ap₂ (stream_from f) (omega arith) (omega arith)
append-stream f s (suc n) k =
    ap (λ x. f s ∷ (stream_from f (s + 1) n ++ stream_from f x k)) {x = s + suc n} {y = s + 1 + n}
      (omega arith)
    ∙ ap (λ l. f s ∷ l) (append-stream f (s + 1) n k)
    ∙ ap (stream_from f s) {x = suc (n + k)} {y = suc n + k} (omega arith)

pub drop-stream :
    (f : ℕ → ℕ) (k s n : ℕ) → drop k (stream_from f s n) ≡ stream_from f (s + k) (n - k)
drop-stream f zero s n = ap₂ (stream_from f) (omega arith) (omega arith)
drop-stream f (suc k) s zero = ap (stream_from f (s + suc k)) {x = 0} {y = 0 - suc k} (omega arith)
drop-stream f (suc k) s (suc n) =
    drop-stream f k (s + 1) n
    ∙ ap₂ (stream_from f) {x = s + 1 + k} {y = s + suc k} (omega arith) (omega arith)

pub length-stream : (f : ℕ → ℕ) (p n : ℕ) → length (stream_from f p n) ≡ n
length-stream f p zero = refl
length-stream f p (suc n) = ap suc (length-stream f (p + 1) n)

pub drop-map : (m : Memory) (k : ℕ) (l : List ℕ) → drop k (map m l) ≡ map m (drop k l)
drop-map m zero l = refl
drop-map m (suc k) [] = refl
drop-map m (suc k) (a ∷ l) = drop-map m k l

-- The segment's data are the bytes of the stream at the position `pos`, and its sequence number is that position,
-- within one window from `lo` on.
pub record Carries (m : Memory) (f : ℕ → ℕ) (lo pos : ℕ) (s : Segment) : Type 0 where
  pub seq_is : s.seq ≡ pos % 2 ^ 32
  pub low : lo ≤ pos
  pub high : pos + s.len < lo + max_window
  pub whole : s.len ≡ length (tail_addrs s.payload)
  pub in_range : s.payload.off + s.len < 2 ^ 64
  pub bytes : map m (tail_addrs s.payload) ≡ stream_from f pos s.len
