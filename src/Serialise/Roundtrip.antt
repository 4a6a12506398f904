-- ===== src/Serialise/Roundtrip.antt =====
-- read_u32() of what write_u32() has written.
use mathlib.Core.Path.{ap₂}
use mathlib.Core.List.{append-nil}
use passt.Base.{
  take_first, drop_first, ℕ, ◌+◌, ◌^◌, ◌<◌, ◌≡◌, inl, inr, refl, sym, ap, ◌∙◌, arith, Bool, true,
  Option, none, some, List, ◌++◌, length, take, drop, done,
}
use passt.Serialise.{
  ReadCall, read_error, WriteCall, htobe32, u32_bytes, bytes_u32, write_u32, read_u32, read_all_buf,
}
use passt.Serialise.Read.{ReadsStream, ReadAll, whole, cut_off, read_all_buf-ReadAll}
use passt.Serialise.Write.{WritesStream, WriteAll, write_all_buf-WriteAll}

htobe32_inverse : (v : ℕ) → v < 2 ^ 32 → htobe32 (bytes_u32 (u32_bytes (htobe32 v))) ≡ v
unfolding bytes_u32
htobe32_inverse v l = omega (arith, l)

-- Lists that start with as many elements.
same_parts :
    (xs ys as' bs : List ℕ) → length xs ≡ length ys → xs ++ as' ≡ ys ++ bs → (xs ≡ ys) × (as' ≡ bs)
same_parts xs ys as' bs n e = (
  sym (take_first xs as') ∙ ap₂ (λ k l. take k l) n e ∙ take_first ys bs,
  sym (drop_first xs as') ∙ ap₂ (λ k l. drop k l) n e ∙ drop_first ys bs,
)

module _ {W R : Type 0} (write : W → List ℕ → WriteCall × W) (sink : W → List ℕ)
    (w_interrupts : W → ℕ) (read : R → ℕ → ReadCall × R) (content : R → List ℕ)
    (r_interrupts : R → ℕ) where
  -- The value that was written, with what follows it left in the file, or a failure of read().
  pub data ReadBack (v : ℕ) (rest : List ℕ) : Option ℕ × R → Type 0 where
    value : (s : R) → content s ≡ rest → ReadBack v rest (some v, s)
    failed : (s0 s : R) (n : ℕ) → read s0 n ≡ (read_error, s) → ReadBack v rest (none, s)

  module _ (w_file : WritesStream write sink w_interrupts)
      (r_file : ReadsStream read content r_interrupts) where
    all_written :
        (start bs : List ℕ) (r : Bool × W)
        → r.0 ≡ true
        → WriteAll write sink w_interrupts start bs r
        → sink r.1 ≡ start ++ bs
    all_written start bs _ e (WriteAll.whole s h) = h
    all_written start bs _ e (WriteAll.cut_off p q s h h') = absurd (ground (arith, e))

    read_back :
        (fuel v : ℕ) (r : R) (rest : List ℕ) (x : Bool × List ℕ × R)
        → v < 2 ^ 32
        → content r ≡ u32_bytes (htobe32 v) ++ rest
        → read_all_buf read fuel 4 r ≡ some (done x)
        → ReadAll read content r_interrupts 4 (content r) x
        → (result : Option ℕ × R) × (read_u32 read fuel r ≡ some (done result))
          × ReadBack v rest result
    unfolding read_u32
    read_back fuel v r rest _ l e run (whole buf s n h) =
        let (same, left) = same_parts buf (u32_bytes (htobe32 v)) (content s) rest n (sym h ∙ e) in
        let val : htobe32 (bytes_u32 buf) ≡ v =
          ap (λ x. htobe32 (bytes_u32 x)) same ∙ htobe32_inverse v l in
        ((some v, s), rw (run, read_u32) (ap (λ x. some (done (some x, s))) val), value s left)
    read_back fuel v r rest _ l e run (cut_off buf s few h (inl ended)) =
        let size = ap (λ l. length l) (sym e ∙ h ∙ ap (λ x. buf ++ x) ended ∙ append-nil buf) in
        absurd (omega (arith, size, few))
    read_back fuel v r rest _ l e run (cut_off buf s few h (inr (s0, n, error))) =
        ((none, s), rw (run, read_u32) refl, failed s0 s n error)

    -- Where write() and read() have fewer interruptions than fuel is left, and a file that read() returns in parts
    -- starts with what a successful write_u32() has written, read_u32() ends and passes its assertion: it gives
    -- the value back and leaves what follows, or fails as read() fails.
    pub write_u32-read_u32 :
        (fuel fuel' v : ℕ) (w w' : W) (r : R) (rest : List ℕ)
        → v < 2 ^ 32
        → 4 + w_interrupts w < fuel
        → 4 + r_interrupts r < fuel'
        → write_u32 write fuel v w ≡ some (true, w')
        → content r ≡ drop (length (sink w)) (sink w') ++ rest
        → (result : Option ℕ × R) × (read_u32 read fuel' r ≡ some (done result))
          × ReadBack v rest result
    unfolding write_u32
    write_u32-read_u32 fuel fuel' v w w' r rest l f f' written e =
        let bs = u32_bytes (htobe32 v) in
        let (x, run, q) =
          write_all_buf-WriteAll write sink w_interrupts w_file fuel bs w (omega (arith, f)) in
        let same : some x ≡ some (true, w') = sym run ∙ written in
        let is_x : x ≡ (true, w') = ap (λ o. elim o [ none ↦ x | some y ↦ y ]) same in
        let sunk : sink w' ≡ sink w ++ bs =
          ap (λ y. sink y.1) (sym is_x) ∙ all_written (sink w) bs x (ap (λ y. y.0) is_x) q in
        let added : drop (length (sink w)) (sink w') ≡ bs =
          ap (drop (length (sink w))) sunk ∙ drop_first (sink w) bs in
        let (y, reads, p) =
          read_all_buf-ReadAll read content r_interrupts r_file 4 (omega arith) fuel' r
            (omega (arith, f')) in
        read_back fuel' v r rest y l (e ∙ ap (λ z. z ++ rest) added) reads p
