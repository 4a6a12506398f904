-- ===== src/Serialise/Write.antt =====
-- write_all_buf(): a whole buffer to a file that is written in parts.
use mathlib.Core.List.{append_assoc, append-nil}
use passt.Base.{
  take-drop, ℕ, zero, suc, ◌+◌, ◌≤◌, ◌<◌, ◌≡◌, refl, sym, ap, ◌∙◌, subst, arith, Bool, true, false,
  some, List, [], ◌∷◌, ◌++◌, length, length-drop, take, drop,
}
use passt.Serialise.{WriteCall, write_interrupted, write_error, wrote, write_all_buf}

-- write() on a file in the state `s`, where `sink s` has been written: it writes a byte or more, and is
-- interrupted at most `interrupts s` times more.
pub record WritesStream {S : Type 0} (write : S → List ℕ → WriteCall × S) (sink : S → List ℕ)
    (interrupts : S → ℕ) : Type 0 where
  pub on_interrupt :
      (s : S) (bs : List ℕ) (s' : S)
      → write s bs ≡ (write_interrupted, s')
      → (sink s' ≡ sink s) × (interrupts s' < interrupts s)
  pub on_error : (s : S) (bs : List ℕ) (s' : S) → write s bs ≡ (write_error, s') → sink s' ≡ sink s
  pub some_bytes :
      (s : S) (bs : List ℕ) (n : ℕ) (s' : S)
      → 0 < length bs
      → write s bs ≡ (wrote n, s')
      → (sink s' ≡ sink s ++ take n bs) × (0 < n) × (interrupts s' ≤ interrupts s)

module _ {S : Type 0} (write : S → List ℕ → WriteCall × S) (sink : S → List ℕ)
    (interrupts : S → ℕ) where
  -- What write_all_buf() promises, of `start` written before: all bytes are written behind it, or, if
  -- write() fails, the first of them.
  pub data WriteAll (start bs : List ℕ) : Bool × S → Type 0 where
    whole : (s : S) → sink s ≡ start ++ bs → WriteAll start bs (true, s)
    cut_off :
        (pre post : List ℕ) (s : S)
        → bs ≡ pre ++ post
        → sink s ≡ start ++ pre
        → WriteAll start bs (false, s)

  module _ (file : WritesStream write sink interrupts) where
    abbrev Writes : ℕ → List ℕ → S → Type 0
    Writes fuel bs s =
        (r : Bool × S) × (write_all_buf write fuel bs s ≡ some r) × WriteAll (sink s) bs r

    -- What is written behind the first bytes is written behind the start.
    behind :
        (start pre bs : List ℕ) (r : Bool × S)
        → WriteAll (start ++ pre) bs r
        → WriteAll start (pre ++ bs) r
    behind start pre bs _ (whole s e) = whole s (e ∙ append_assoc start pre bs)
    behind start pre bs _ (cut_off p q s e e') =
        cut_off (pre ++ p) q s (ap (λ l. pre ++ l) e ∙ sym (append_assoc pre p q))
          (e' ∙ append_assoc start pre p)

    module _ (fuel : ℕ) (b : ℕ) (bs : List ℕ) (s : S)
        (f : length (b ∷ bs) + interrupts s < suc fuel)
        (ih : (bs : List ℕ) (s : S) → length bs + interrupts s < fuel → Writes fuel bs s) where
      round : (r : WriteCall) (s' : S) → write s (b ∷ bs) ≡ (r, s') → Writes (suc fuel) (b ∷ bs) s
      unfolding write_all_buf
      round write_interrupted s' we =
          let (same, fewer) = file.on_interrupt s (b ∷ bs) s' we in
          let (r, run, q) = ih (b ∷ bs) s' (omega (arith, fewer, f)) in
          (
            r,
            rw (we, write_all_buf) (ap (λ x. write_all_buf write fuel (b ∷ bs) x.1) we ∙ run),
            subst (λ t. WriteAll t (b ∷ bs) r) same q,
          )
      round write_error s' we = (
        (false, s'),
        rw (we, write_all_buf) (ap (λ x. some (false, x.1)) we),
        cut_off [] (b ∷ bs) s' refl (file.on_error s (b ∷ bs) s' we ∙ sym (append-nil (sink s))),
      )
      round (wrote n) s' we =
          let (more, pos, fewer) = file.some_bytes s (b ∷ bs) n s' (omega arith) we in
          let (r, run, q) =
            ih (drop n (b ∷ bs)) s' (omega (arith, fewer, f, pos, length-drop n (b ∷ bs))) in
          (
            r,
            rw (we, write_all_buf)
                (ap (λ x. write_all_buf write fuel (drop n (b ∷ bs)) x.1) we ∙ run),
            subst (λ l. WriteAll (sink s) l r) (take-drop n (b ∷ bs))
                (behind (sink s) (take n (b ∷ bs)) (drop n (b ∷ bs)) r
                  (subst (λ t. WriteAll t (drop n (b ∷ bs)) r) more q)),
          )

    -- Of a file that write() takes in parts, with fewer interruptions than fuel is left, write_all_buf() ends: it
    -- has written all bytes behind those before; or it fails with the first of them written, as write() fails.
    pub write_all_buf-WriteAll :
        (fuel : ℕ) (bs : List ℕ) (s : S) → length bs + interrupts s < fuel → Writes fuel bs s
    unfolding write_all_buf
    write_all_buf-WriteAll zero bs s f = absurd (omega arith)
    write_all_buf-WriteAll (suc fuel) [] s f =
        ((true, s), refl, whole s (sym (append-nil (sink s))))
    write_all_buf-WriteAll (suc fuel) (b ∷ bs) s f =
        let (r, s') = write s (b ∷ bs) in
        round fuel b bs s f (write_all_buf-WriteAll fuel) r s' refl
