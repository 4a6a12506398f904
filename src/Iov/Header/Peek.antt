-- ===== src/Iov/Header/Peek.antt =====
-- iov_check_header() and iov_peek_header_(): a header, where it is or as a copy.
use passt.Base.{
  ℕ, ◌+◌, ◌-◌, ◌^◌, ◌≤◌, ◌<◌, ◌≡◌, inl, inr, refl, sym, ap, ◌∙◌, subst, arith, Bool, Option, none,
  some, List, [], ◌∷◌, map, ◌==◌, length, take, drop, done, Bool-cases, ==_iff, length-drop,
  length-take, length-append, length-map, min,
}
use passt.Iov.{Iovec, IovTail, Memory, load, store, iov_tail_prune, iov_to_buf, first_base}
use passt.Iov.Bytes.{addrs, tail_addrs, range, length-range}
use passt.Iov.Skip.{iov_skip_bytes-Skipped}
use passt.Iov.Tail.{iov_tail_prune_lem}
use passt.Iov.Copy.{NoNull, NoNull-drop, load-range, iov_to_buf_lem, first_entry}
use passt.Iov.Load.{load-store}
use passt.Iov.Header.{header_in_first, iov_check_header, header_or_copy, iov_peek_header}

-- What iov_peek_header_() promises: the address of a header, or that the tail is too short for one.
pub data Peeked (m : Memory) (tail : IovTail) (len : ℕ) : Option ℕ × Memory × IovTail → Type 0 where
  found :
      (p : ℕ) (m' : Memory) (t : IovTail)
      → tail_addrs t ≡ tail_addrs tail
      → t.off ≤ tail.off
      → len ≤ length (tail_addrs tail)
      → load m' p len ≡ map m (take len (tail_addrs tail))
      → Peeked m tail len (some p, m', t)
  short :
      (m' : Memory) (t : IovTail)
      → tail_addrs t ≡ tail_addrs tail
      → length (tail_addrs tail) < len
      → Peeked m tail len (none, m', t)

pub pruned_off : (t : IovTail) → (iov_tail_prune t).1.off ≤ t.off
unfolding iov_tail_prune
pruned_off t = let s = iov_skip_bytes-Skipped t.iov t.off in omega (arith, s.before)

pub NoNull-prune : (t : IovTail) → NoNull t.iov → NoNull (iov_tail_prune t).1.iov
unfolding iov_tail_prune
NoNull-prune t n = NoNull-drop _ t.iov n

header_in_first-inv :
    (v : Iovec) (vs : List Iovec) (off len align p : ℕ)
    → len < 2 ^ 64
    → header_in_first (record { iov = v ∷ vs; off = off }) len align ≡ some p
    → (p ≡ v.iov_base + off) × (off + len ≤ v.iov_len)
unfolding header_in_first first_base
header_in_first-inv v vs off len align p l e = ground arith

length-tail :
    (v : Iovec) (vs : List Iovec) (off : ℕ) → v.iov_len - off ≤ length (drop off (addrs (v ∷ vs)))
length-tail v vs off = omega (
  arith,
  length-drop off (addrs (v ∷ vs)),
  length-append (range v.iov_base v.iov_len) (addrs vs),
  length-range v.iov_base v.iov_len,
)

-- A header that lies in the first entry.
header_in_first_lem :
    (m : Memory) (iov : List Iovec) (off len align p : ℕ)
    → len < 2 ^ 64
    → header_in_first (record { iov = iov; off = off }) len align ≡ some p
    → (0 < length iov)
    → (load m p len ≡ map m (take len (drop off (addrs iov))))
      × (len ≤ length (drop off (addrs iov)))
header_in_first_lem m [] off len align p l e n = absurd (omega arith)
header_in_first_lem m (v ∷ vs) off len align p l e n =
    let (is_p, inside) = header_in_first-inv v vs off len align p l e in
    (
      load-range m p len
          ∙ ap (λ a. map m (range a len)) is_p
          ∙ ap (map m) (sym (first_entry v vs off len (omega arith) (omega arith))),
      omega (arith, inside, length-tail v vs off),
    )

nonempty : (iov : List Iovec) (n : ℕ) → n < length (addrs iov) → 0 < length iov
nonempty [] n h = absurd (omega arith)
nonempty (v ∷ vs) n h = omega arith

-- What iov_check_header() says of the header that it finds.
abbrev HeaderAt : Memory → List ℕ → ℕ → Option ℕ → Type 0
HeaderAt m bytes len none = Unit
HeaderAt m bytes len (some p) = (load m p len ≡ map m (take len bytes)) × (len ≤ length bytes)

header_in_first-HeaderAt :
    (m : Memory) (iov : List Iovec) (off len align : ℕ) (o : Option ℕ)
    → len < 2 ^ 64
    → 0 < length iov
    → header_in_first (record { iov = iov; off = off }) len align ≡ o
    → HeaderAt m (drop off (addrs iov)) len o
header_in_first-HeaderAt m iov off len align none l n e = tt
header_in_first-HeaderAt m iov off len align (some p) l n e =
    header_in_first_lem m iov off len align p l e n

iov_check_header-HeaderAt :
    (m : Memory) (tail : IovTail) (len align : ℕ)
    → len < 2 ^ 64
    → HeaderAt m
        (tail_addrs (iov_check_header tail len align).1)
        len
        (iov_check_header tail len align).0
unfolding iov_check_header
iov_check_header-HeaderAt m tail len align l =
    let t = (iov_tail_prune tail).1 in
    let (same, pruned, left_iff) = iov_tail_prune_lem tail in
    elim (Bool-cases (iov_tail_prune tail).0) [
      | inr none_left ↦ rw none_left tt
      | inl left ↦
          let some_left : t.off < length (addrs t.iov) = omega (
            arith,
            left_iff.0 left,
            length-drop t.off (addrs t.iov),
            length-drop tail.off (addrs tail.iov),
            ap (λ x. length x) same,
          ) in
          rw left (
            header_in_first-HeaderAt m t.iov t.off len align _ l (nonempty t.iov t.off some_left)
              refl)
    ]

-- A copy of the header, or the header where it is.
header_or_copy-Peeked :
    (constant_p : Bool) (m : Memory) (tail t : IovTail) (v len : ℕ) (o : Option ℕ)
    → NoNull t.iov
    → tail_addrs t ≡ tail_addrs tail
    → t.off ≤ tail.off
    → HeaderAt m (tail_addrs t) len o
    → (r : Option ℕ × Memory × IovTail) × (header_or_copy constant_p m t v len o ≡ done r)
      × Peeked m tail len r
unfolding header_or_copy
header_or_copy-Peeked constant_p m tail t v len (some p) nn same below (reads, fits) = (
  (some p, m, t),
  refl,
  found p m t same below (omega (arith, fits, ap (λ x. length x) same))
      (reads ∙ ap (λ x. map m (take len x)) same),
)
header_or_copy-Peeked constant_p m tail t v len none nn same below h =
    let l = take len (tail_addrs tail) in
    let bytes = map m l in
    let count : length bytes ≡ min len (length (tail_addrs tail)) =
      length-map m l ∙ length-take len (tail_addrs tail) in
    let run : iov_to_buf constant_p m t.iov t.off len ≡ done bytes =
      iov_to_buf_lem constant_p m t.iov t.off len nn ∙ ap (λ x. done (map m (take len x))) same in
    elim (Bool-cases (length bytes == len)) [
      | inl whole ↦
          let eq = (==_iff (length bytes) len).0 whole in
          (
            (some v, store m v bytes, t),
            rw (run, header_or_copy, whole) refl,
            found v (store m v bytes) t same below (omega (arith, eq, count))
                (subst (λ n. load (store m v bytes) v n ≡ bytes) eq (load-store m v bytes)),
          )
      | inr part ↦ (
        (none, store m v bytes, t),
        rw (run, header_or_copy, part) refl,
        short (store m v bytes) t same (ground (arith, part, count)),
      )
    ]

-- Of a tail without null addresses, iov_peek_header_() passes its assertions: if the tail has `len`
-- bytes, these can be read at the address that it returns; else it returns NULL. The tail
-- keeps its bytes.
pub iov_peek_header-Peeked :
    (constant_p : Bool) (m : Memory) (tail : IovTail) (v len align : ℕ)
    → NoNull tail.iov
    → len < 2 ^ 64
    → (r : Option ℕ × Memory × IovTail) × (iov_peek_header constant_p m tail v len align ≡ done r)
      × Peeked m tail len r
unfolding iov_peek_header iov_check_header
iov_peek_header-Peeked constant_p m tail v len align nn l =
    header_or_copy-Peeked constant_p m tail (iov_check_header tail len align).1 v len _
      (NoNull-prune tail nn) (iov_tail_prune_lem tail).0 (pruned_off tail)
      (iov_check_header-HeaderAt m tail len align l)
