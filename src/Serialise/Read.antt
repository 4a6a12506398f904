-- ===== src/Serialise/Read.antt =====
-- read_all_buf(): a whole buffer from a file that is read in parts.
use mathlib.Core.Path.{ap₂}
use mathlib.Core.List.{append_assoc}
use passt.Base.{
  ℕ, zero, suc, ◌+◌, ◌-◌, ◌^◌, ◌≤◌, ◌<◌, ◌≡◌, ◌⊎◌, inl, inr, refl, sym, ap, ◌∙◌, subst, arith, Bool,
  true, false, Option, some, List, [], ◌∷◌, ◌++◌, length, length-append, leb, le→leb, sub_size, Run,
  done,
}
use passt.Serialise.{ReadCall, read_interrupted, read_error, bytes, read_from, read_all_buf}

-- read() on a file in the state `s`: `content s` is still to be read, and read() is interrupted at most
-- `interrupts s` times more.
pub record ReadsStream {S : Type 0} (read : S → ℕ → ReadCall × S) (content : S → List ℕ)
    (interrupts : S → ℕ) : Type 0 where
  pub on_interrupt :
      (s : S) (n : ℕ) (s' : S)
      → read s n ≡ (read_interrupted, s')
      → (content s' ≡ content s) × (interrupts s' < interrupts s)
  pub on_error : (s : S) (n : ℕ) (s' : S) → read s n ≡ (read_error, s') → content s' ≡ content s
  pub some_bytes :
      (s : S) (n : ℕ) (bs : List ℕ) (s' : S)
      → read s n ≡ (bytes bs, s')
      → (content s ≡ bs ++ content s') × (length bs ≤ n) × (interrupts s' ≤ interrupts s)
  pub at_end : (s : S) (n : ℕ) (s' : S) → 0 < n → read s n ≡ (bytes [], s') → content s ≡ []

module _ {S : Type 0} (read : S → ℕ → ReadCall × S) (content : S → List ℕ)
    (interrupts : S → ℕ) where
  -- What read_all_buf() promises, where `all` is what was still to be read: the first `len` bytes, or
  -- some of the first bytes, fewer, if the file ends or read() fails.
  pub data ReadAll (len : ℕ) (all : List ℕ) : Bool × List ℕ × S → Type 0 where
    whole :
        (buf : List ℕ) (s : S)
        → length buf ≡ len
        → all ≡ buf ++ content s
        → ReadAll len all (true, buf, s)
    cut_off :
        (buf : List ℕ) (s : S)
        → length buf < len
        → all ≡ buf ++ content s
        → (content s ≡ []) ⊎ ((s0 : S) × (n : ℕ) × (read s0 n ≡ (read_error, s)))
        → ReadAll len all (false, buf, s)

  module _ (file : ReadsStream read content interrupts) (len : ℕ) (small : len < 2 ^ 64) where
    abbrev Reads : ℕ → ℕ → List ℕ → S → Type 0
    Reads fuel left buf s =
        (r : Bool × List ℕ × S) × (read_from read fuel len left buf s ≡ some (done r))
        × ReadAll len (buf ++ content s) r

    same_run :
        {x y : Option (Run (Bool × List ℕ × S))} {t t' : List ℕ}
        → ((r : Bool × List ℕ × S) × (y ≡ some (done r)) × ReadAll len t r)
        → t ≡ t'
        → x ≡ y
        → (r : Bool × List ℕ × S) × (x ≡ some (done r)) × ReadAll len t' r
    same_run (r, run, q) e e' = (r, e' ∙ run, subst (λ t. ReadAll len t r) e q)

    -- A round that reads.
    module _ (fuel l : ℕ) (buf : List ℕ) (s : S) (e : length buf + suc l ≡ len)
        (f : suc l + interrupts s < suc fuel)
        (ih : (left : ℕ) (buf : List ℕ) (s : S)
          → length buf + left ≡ len
          → left + interrupts s < fuel
          → Reads fuel left buf s) where
      fits : leb (suc l) len ≡ true
      fits = le→leb (suc l) len (omega (arith, e))

      round : (r : ReadCall) (s' : S) → read s (suc l) ≡ (r, s') → Reads (suc fuel) (suc l) buf s
      unfolding read_from
      round read_interrupted s' re =
          let (same, fewer) = file.on_interrupt s (suc l) s' re in
          same_run (ih (suc l) buf s' e (omega (arith, fewer, f))) (ap (λ x. buf ++ x) same)
            (rw (fits, re, read_from) (ap (λ x. read_from read fuel len (suc l) buf x.1) re))
      round read_error s' re = (
        (false, buf, s'),
        rw (fits, re, read_from) (ap (λ x. some (done (false, buf, x.1))) re),
        cut_off buf s' (omega (arith, e)) (ap (λ x. buf ++ x) (sym (file.on_error s (suc l) s' re)))
            (inr (s, suc l, re)),
      )
      round (bytes []) s' re =
          let rest = (file.some_bytes s (suc l) [] s' re).0 in
          (
            (false, buf, s'),
            rw (fits, re, read_from) (ap (λ x. some (done (false, buf, x.1))) re),
            cut_off buf s' (omega (arith, e)) (ap (λ x. buf ++ x) rest)
                (inl (sym rest ∙ file.at_end s (suc l) s' (omega arith) re)),
          )
      round (bytes (b ∷ bs)) s' re =
          let (rest, most, fewer) = file.some_bytes s (suc l) (b ∷ bs) s' re in
          let left : sub_size (suc l) (length (b ∷ bs)) ≡ suc l - length (b ∷ bs) =
            omega (arith, most, e, small) in
          same_run
            (ih (suc l - length (b ∷ bs)) (buf ++ b ∷ bs) s'
              (omega (arith, length-append buf (b ∷ bs), most, e)) (omega (arith, fewer, f, most)))
            (append_assoc buf (b ∷ bs) (content s') ∙ ap (λ x. buf ++ x) (sym rest))
            (rw (fits, re, read_from)
              (ap₂ (λ n x. read_from read fuel len n (buf ++ b ∷ bs) x.1) left re))

    read_from-ReadAll :
        (fuel left : ℕ) (buf : List ℕ) (s : S)
        → length buf + left ≡ len
        → left + interrupts s < fuel
        → Reads fuel left buf s
    unfolding read_from
    read_from-ReadAll zero left buf s e f = absurd (omega arith)
    read_from-ReadAll (suc fuel) zero buf s e f =
        ((true, buf, s), refl, whole buf s (omega (arith, e)) refl)
    read_from-ReadAll (suc fuel) (suc l) buf s e f =
        let (r, s') = read s (suc l) in round fuel l buf s e f (read_from-ReadAll fuel) r s' refl

    -- Of a file that read() returns in parts, with fewer interruptions than fuel is left, read_all_buf() ends and
    -- passes its assertion: it has read the first `len` bytes of what was still to be read; or it fails with
    -- fewer, as the file ends there or read() fails.
    pub read_all_buf-ReadAll :
        (fuel : ℕ) (s : S)
        → len + interrupts s < fuel
        → (r : Bool × List ℕ × S) × (read_all_buf read fuel len s ≡ some (done r))
          × ReadAll len (content s) r
    unfolding read_all_buf
    read_all_buf-ReadAll fuel s f = read_from-ReadAll fuel len [] s (omega arith) f
