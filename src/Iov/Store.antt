-- ===== src/Iov/Store.antt =====
-- iov_from_buf(): the copy from a flat buffer to an IO vector, by the bytes that the vector stands for.
use mathlib.Core.Path.{ap₂}
use passt.Base.{
  ℕ, zero, suc, ◌+◌, ◌-◌, ◌≤◌, min, ◌≡◌, refl, sym, ap, ◌∙◌, arith, List, [], ◌∷◌, ◌++◌, length,
  take, drop, length-append, length-drop, length-take, Bool, Bool-cases, ltb, leb, inl, inr, update,
  true, false, ◌&&◌, ltb→lt,
}
use passt.Iov.{Iovec, Memory, store, from_buf_from, iov_from_buf, iov_skip_bytes}
use passt.Iov.Bytes.{
  range, addrs, length-range, drop-range, drop-append_le, drop_all, take_all, drop-drop,
}
use passt.Iov.Skip.{Skipped, iov_skip_bytes-Skipped}
use passt.Iov.Copy.{AtMost, AtMost-zero, AtMost-of_entry}

-- Bytes stored one by one at the addresses of a list, as far as both lists go.
abbrev pub scatter : Memory → List ℕ → List ℕ → Memory
scatter m [] bs = m
scatter m (a ∷ l) [] = m
scatter m (a ∷ l) (b ∷ bs) = scatter (update m a b) l bs

scatter-append :
    (m : Memory) (l k bs : List ℕ)
    → scatter m (l ++ k) bs ≡ scatter (scatter m l (take (length l) bs)) k (drop (length l) bs)
scatter-append m [] k bs = refl
scatter-append m (a ∷ l) k [] = scatter-nil m k
  where
    scatter-nil : (m : Memory) (k : List ℕ) → m ≡ scatter m k []
    scatter-nil m [] = refl
    scatter-nil m (x ∷ k) = refl
scatter-append m (a ∷ l) k (b ∷ bs) = scatter-append (update m a b) l k bs

store-scatter :
    (m : Memory) (a n : ℕ) (bs : List ℕ) → length bs ≤ n → store m a bs ≡ scatter m (range a n) bs
unfolding store
store-scatter m a zero [] h = refl
store-scatter m a (suc n) [] h = refl
store-scatter m a zero (b ∷ bs) h = absurd (omega arith)
store-scatter m a (suc n) (b ∷ bs) h = store-scatter (update m a b) (a + 1) n bs (omega arith)

scatter_nil : (m : Memory) (l : List ℕ) → scatter m l [] ≡ m
scatter_nil m [] = refl
scatter_nil m (x ∷ l) = refl

take-min : (n : ℕ) (bs : List ℕ) → take n bs ≡ take (min n (length bs)) bs
take-min zero bs = ap (λ k. take k bs) {x = 0} (omega arith)
take-min (suc n) [] = ap (λ k. take k []) {x = 0} (omega arith)
take-min (suc n) (b ∷ bs) =
    ap (λ l. b ∷ l) (take-min n bs)
    ∙ ap (λ k. take k (b ∷ bs)) {x = suc (min n (length bs))} (omega arith)

drop-min : (n : ℕ) (bs : List ℕ) → drop n bs ≡ drop (min n (length bs)) bs
drop-min zero bs = ap (λ k. drop k bs) {x = 0} (omega arith)
drop-min (suc n) [] = ap (λ k. drop k []) {x = 0} (omega arith)
drop-min (suc n) (b ∷ bs) =
    drop-min n bs ∙ ap (λ k. drop k (b ∷ bs)) {x = suc (min n (length bs))} (omega arith)

-- Bytes scattered over a run of addresses and more: one memcpy(), then the rest.
scatter_run :
    (m : Memory) (b n k : ℕ) (l bs : List ℕ)
    → k ≡ min n (length bs)
    → scatter m (range b n ++ l) bs ≡ scatter (store m b (take k bs)) l (drop k bs)
scatter_run m b n k l bs e =
    let as_take : take (length (range b n)) bs ≡ take k bs =
      ap (λ x. take x bs) (length-range b n) ∙ (take-min n bs ∙ ap (λ x. take x bs) (sym e)) in
    let as_drop : drop (length (range b n)) bs ≡ drop k bs =
      ap (λ x. drop x bs) (length-range b n) ∙ (drop-min n bs ∙ ap (λ x. drop x bs) (sym e)) in
    scatter-append m (range b n) l bs
    ∙ ap₂ (λ x y. scatter (scatter m (range b n) x) l y) as_take as_drop
    ∙ ap (λ x. scatter x l (drop k bs))
        (sym (store-scatter m b n (take k bs) (omega (arith, length-take k bs))))

pub entry_split :
    (v : Iovec) (vs : List Iovec) (off : ℕ)
    → off ≤ v.iov_len
    → drop off (addrs (v ∷ vs)) ≡ range (v.iov_base + off) (v.iov_len - off) ++ addrs vs
entry_split v vs off h =
    drop-append_le off (range v.iov_base v.iov_len) (addrs vs)
      (omega (arith, length-range v.iov_base v.iov_len))
    ∙ ap (λ l. l ++ addrs vs) (drop-range off v.iov_base v.iov_len)

from_buf_from-scatter :
    (m : Memory) (iov : List Iovec) (off : ℕ) (buf : List ℕ) (copied : ℕ)
    → copied ≤ length buf
    → AtMost iov off
    → from_buf_from m iov off buf copied ≡ (
      copied + min (length buf - copied) (length (drop off (addrs iov))),
      scatter m (drop off (addrs iov)) (drop copied buf),
    )
unfolding from_buf_from
from_buf_from-scatter m [] off buf copied h e =
    ap₂ (λ a b. (a, b)) (omega (arith, length-drop off (addrs [])))
      (ap (λ l. scatter m l (drop copied buf)) (sym (drop_all off [] (omega arith))))
from_buf_from-scatter m (v ∷ vs) off buf copied h e = elim (Bool-cases (ltb copied (length buf))) [
  | inr full ↦ rw full (
      ap₂ (λ a b. (a, b)) (ground arith)
        (sym (scatter_nil m (drop off (addrs (v ∷ vs))))
          ∙ ap (scatter m (drop off (addrs (v ∷ vs)))) (sym (drop_all copied buf (ground arith)))))
  | inl more ↦ rw more (
      let k = min (v.iov_len - off) (length buf - copied) in
      let split = entry_split v vs off e in
      from_buf_from-scatter (store m (v.iov_base + off) (take k (drop copied buf))) vs 0 buf
        (copied + k) (omega (arith, ltb→lt _ _ more)) (AtMost-zero vs)
      ∙ ap₂ (λ a b. (a, b))
          (omega (
            arith,
            ap (λ l. length l) split,
            length-append (range (v.iov_base + off) (v.iov_len - off)) (addrs vs),
            length-range (v.iov_base + off) (v.iov_len - off),
          ))
          (ap (scatter (store m (v.iov_base + off) (take k (drop copied buf))) (addrs vs))
              (sym (drop-drop k copied buf))
            ∙ sym (
                ap (λ l. scatter m l (drop copied buf)) split
                ∙ scatter_run m (v.iov_base + off) (v.iov_len - off) k (addrs vs) (drop copied buf)
                    (omega (arith, length-drop copied buf)))))
]

from_buf-slow :
    (m : Memory) (iov : List Iovec) (offset : ℕ) (buf : List ℕ)
    → from_buf_from m (drop (iov_skip_bytes iov offset).0 iov) (iov_skip_bytes iov offset).1 buf 0
      ≡ (min (length buf) (length (addrs iov) - offset), scatter m (drop offset (addrs iov)) buf)
from_buf-slow m iov offset buf =
    let i = (iov_skip_bytes iov offset).0 in
    let o = (iov_skip_bytes iov offset).1 in
    let s : Skipped iov offset i o = iov_skip_bytes-Skipped iov offset in
    from_buf_from-scatter m (drop i iov) o buf 0 (omega arith)
      (AtMost-of_entry (drop i iov) o s.entry)
    ∙ ap₂ (λ a b. (a, b))
        (omega (arith, ap (λ l. length l) s.bytes, length-drop offset (addrs iov)))
        (ap (λ l. scatter m l buf) s.bytes)

-- iov_from_buf() stores the buffer's bytes at the addresses that the vector stands for from
-- `offset` on, as many as fit, in order, and returns their number, with or without the shortcut.
pub iov_from_buf_lem :
    (constant_p : Bool) (m : Memory) (iov : List Iovec) (offset : ℕ) (buf : List ℕ)
    → iov_from_buf constant_p m iov offset buf
      ≡ (min (length buf) (length (addrs iov) - offset), scatter m (drop offset (addrs iov)) buf)
unfolding iov_from_buf
iov_from_buf_lem false m iov offset buf = from_buf-slow m iov offset buf
iov_from_buf_lem true m [] offset buf = from_buf-slow m [] offset buf
iov_from_buf_lem true m (v ∷ vs) offset buf =
    elim (Bool-cases (leb offset v.iov_len && leb (length buf) (v.iov_len - offset))) [
      | inr out ↦ rw out (from_buf-slow m (v ∷ vs) offset buf)
      | inl inside ↦ rw inside (
          let n = length buf in
          let size : length (range v.iov_base v.iov_len ++ addrs vs)
              ≡ v.iov_len + length (addrs vs) =
            omega (
              arith,
              length-append (range v.iov_base v.iov_len) (addrs vs),
              length-range v.iov_base v.iov_len,
            ) in
          ap₂ (λ a b. (a, b)) (ground (arith, size))
            (sym (scatter_nil (store m (v.iov_base + offset) buf) (addrs vs))
              ∙ ap₂ (λ x y. scatter (store m (v.iov_base + offset) x) (addrs vs) y)
                  (sym (take_all n buf (omega arith))) (sym (drop_all n buf (omega arith)))
              ∙ sym (
                  ap (λ l. scatter m l buf) (entry_split v vs offset (ground arith))
                  ∙ scatter_run m (v.iov_base + offset) (v.iov_len - offset) n (addrs vs) buf
                      (ground arith))))
    ]
