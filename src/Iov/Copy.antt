-- ===== src/Iov/Copy.antt =====
-- iov_to_buf(): the copy from an IO vector to a flat buffer, by the bytes that the vector stands for.
use mathlib.Core.Path.{ap₂}
use mathlib.Core.List.{append-nil, append_assoc, map-append}
use passt.Base.{
  ℕ, zero, suc, ◌+◌, ◌-◌, ◌≤◌, min, ◌≡◌, ◌≢◌, refl, sym, ap, ◌∙◌, arith, List, [], ◌∷◌, ◌++◌, map,
  length, take, drop, length-append, Bool, Bool-cases, ltb, leb, inl, inr, done, ◌==◌, true, false,
  ◌&&◌, ltb→lt,
}
use passt.Iov.{Iovec, Memory, load, to_buf_from, iov_to_buf, iov_skip_bytes}
use passt.Iov.Bytes.{
  range, addrs, length-range, drop-range, take-range, drop-append_le, drop_all, take_all,
  take-append,
}
use passt.Iov.Skip.{InEntry, Skipped, iov_skip_bytes-Skipped}

-- No entry is at the null address.
abbrev pub NoNull : List Iovec → Type 0
NoNull [] = Unit
NoNull (v ∷ vs) = (v.iov_base ≢ 0) × NoNull vs

pub NoNull-drop : (i : ℕ) (iov : List Iovec) → NoNull iov → NoNull (drop i iov)
NoNull-drop zero iov h = h
NoNull-drop (suc i) [] h = h
NoNull-drop (suc i) (v ∷ vs) h = NoNull-drop i vs h.1

pub load-range : (m : Memory) (a n : ℕ) → load m a n ≡ map m (range a n)
unfolding load
load-range m a zero = refl
load-range m a (suc n) = ap (λ l. m a ∷ l) (load-range m (a + 1) n)

pub length-load : (m : Memory) (a n : ℕ) → length (load m a n) ≡ n
unfolding load
length-load m a zero = refl
length-load m a (suc n) = ap suc (length-load m (a + 1) n)

-- The bytes of an entry past its offset, as far as they are wanted, and those of the others.
pub take-entry :
    (v : Iovec) (vs : List Iovec) (off n : ℕ)
    → off ≤ v.iov_len
    → take n (drop off (addrs (v ∷ vs)))
      ≡ range (v.iov_base + off) (min (v.iov_len - off) n)
        ++ take (n - min (v.iov_len - off) n) (addrs vs)
take-entry v vs off n h =
    let r = range v.iov_base v.iov_len in
    let d = range (v.iov_base + off) (v.iov_len - off) in
    ap (take n) (
      drop-append_le off r (addrs vs) (omega (arith, length-range v.iov_base v.iov_len))
      ∙ ap (λ l. l ++ addrs vs) (drop-range off v.iov_base v.iov_len))
    ∙ (take-append n d (addrs vs)
        ∙ ap₂ (λ a k. a ++ take k (addrs vs)) (take-range n (v.iov_base + off) (v.iov_len - off))
            (omega (arith, length-range (v.iov_base + off) (v.iov_len - off))))

-- The offset lies in the first entry or at its end.
abbrev pub AtMost : List Iovec → ℕ → Type 0
AtMost [] off = Unit
AtMost (v ∷ vs) off = off ≤ v.iov_len

pub AtMost-zero : (iov : List Iovec) → AtMost iov 0
AtMost-zero [] = tt
AtMost-zero (v ∷ vs) = omega arith

pub AtMost-of_entry : (iov : List Iovec) (off : ℕ) → InEntry iov off → AtMost iov off
AtMost-of_entry [] off e = tt
AtMost-of_entry (v ∷ vs) off e = omega arith

to_buf_from-done :
    (m : Memory) (iov : List Iovec) (off bytes : ℕ) (out : List ℕ)
    → NoNull iov
    → length out ≤ bytes
    → AtMost iov off
    → to_buf_from m iov off bytes out
      ≡ done (out ++ map m (take (bytes - length out) (drop off (addrs iov))))
unfolding to_buf_from
to_buf_from-done m [] off bytes out nn h e = ap done (
    sym (
      ap (λ l. out ++ map m l)
        (ap (take (bytes - length out)) (drop_all off [] (omega arith))
          ∙ take_all (bytes - length out) [] (omega arith))
      ∙ append-nil out))
to_buf_from-done m (v ∷ vs) off bytes out nn h e = elim (Bool-cases (ltb (length out) bytes)) [
  | inr full ↦ rw full (
      ap done (
        sym (
          ap (λ k. out ++ map m (take k (drop off (addrs (v ∷ vs))))) {y = 0} (ground arith)
          ∙ append-nil out)))
  | inl more ↦
      rw (more, not_null)
        (let k = min (v.iov_len - off) (bytes - length out) in
          let now = load m (v.iov_base + off) k in
          let size : length (out ++ now) ≡ length out + k =
            omega (arith, length-append out now, length-load m (v.iov_base + off) k) in
          to_buf_from-done m vs 0 bytes (out ++ now) nn.1 (omega (arith, ltb→lt _ _ more))
            (AtMost-zero vs)
          ∙ ap done (
              append_assoc out now _
              ∙ ap (λ l. out ++ l)
                  (ap₂ (λ l n. l ++ map m (take n (addrs vs))) (load-range m (v.iov_base + off) k)
                      (omega arith)
                    ∙ (sym (map-append m (range (v.iov_base + off) k) _)
                        ∙ ap (map m) (sym (take-entry v vs off (bytes - length out) e))))))
]
  where
    not_null : (v.iov_base == 0) ≡ false
    not_null = ground arith

-- What the shortcut for a copy inside the first entry covers.
pub first_entry :
    (v : Iovec) (vs : List Iovec) (off n : ℕ)
    → off ≤ v.iov_len
    → n ≤ v.iov_len - off
    → take n (drop off (addrs (v ∷ vs))) ≡ range (v.iov_base + off) n
first_entry v vs off n h k =
    take-entry v vs off n h
    ∙ (ap (λ a. range (v.iov_base + off) a ++ take (n - min (v.iov_len - off) n) (addrs vs)) {y = n}
          (omega arith)
        ∙ ap (λ b. range (v.iov_base + off) n ++ take b (addrs vs)) {y = 0} (omega arith)
        ∙ append-nil (range (v.iov_base + off) n))

to_buf-slow :
    (m : Memory) (iov : List Iovec) (offset bytes : ℕ)
    → NoNull iov
    → to_buf_from m (drop (iov_skip_bytes iov offset).0 iov) (iov_skip_bytes iov offset).1 bytes []
      ≡ done (map m (take bytes (drop offset (addrs iov))))
to_buf-slow m iov offset bytes nn =
    let i = (iov_skip_bytes iov offset).0 in
    let o = (iov_skip_bytes iov offset).1 in
    let s : Skipped iov offset i o = iov_skip_bytes-Skipped iov offset in
    to_buf_from-done m (drop i iov) o bytes [] (NoNull-drop i iov nn) (omega arith)
      (AtMost-of_entry (drop i iov) o s.entry)
    ∙ ap (λ k. done (map m (take k (drop o (addrs (drop i iov)))))) {y = bytes} (omega arith)
    ∙ ap (λ l. done (map m (take bytes l))) s.bytes

-- iov_to_buf() on a vector with no null address passes its assertion and copies the `bytes` bytes
-- at `offset`, or as many as there are, whether or not the compiler takes the shortcut.
pub iov_to_buf_lem :
    (constant_p : Bool) (m : Memory) (iov : List Iovec) (offset bytes : ℕ)
    → NoNull iov
    → iov_to_buf constant_p m iov offset bytes ≡ done (map m (take bytes (drop offset (addrs iov))))
unfolding iov_to_buf
iov_to_buf_lem false m iov offset bytes nn = to_buf-slow m iov offset bytes nn
iov_to_buf_lem true m [] offset bytes nn = to_buf-slow m [] offset bytes nn
iov_to_buf_lem true m (v ∷ vs) offset bytes nn =
    elim (Bool-cases (leb offset v.iov_len && leb bytes (v.iov_len - offset))) [
      | inr out ↦ rw out (to_buf-slow m (v ∷ vs) offset bytes nn)
      | inl inside ↦ rw inside (
          ap done (
            load-range m (v.iov_base + offset) bytes
            ∙ ap (map m) (sym (first_entry v vs offset bytes (ground arith) (ground arith)))))
    ]
