-- ===== src/Checksum/Tail.antt =====
-- csum_iov_tail(): the checksum of the bytes that a tail stands for.
use native.Mathlib.Decide.{dec_lt}
use passt.Base.{
  clash, ℕ, ◌+◌, ◌-◌, ◌*◌, ◌/◌, ◌%◌, ◌^◌, ◌≤◌, ◌<◌, min, ◌≡◌, ◌↔◌, ◌⊎◌, inl, inr, refl, sym, ap,
  ◌∙◌, arith, Bool, true, false, List, [], ◌∷◌, ◌++◌, map, length, take, drop, Bool-cases, ==_iff,
  ◌==◌,
}
use passt.Iov.{Iovec, IovTail, Memory, load, iov_tail_prune}
use passt.Iov.Bytes.{addrs, tail_addrs, range, take_all, drop_all}
use passt.Iov.Tail.{iov_tail_prune_lem}
use passt.Iov.Copy.{load-range, length-load, AtMost, AtMost-zero, AtMost-of_entry, take-entry}
use passt.Checksum.{
  csum_unfolded, csum, csum_fold, complement, csum_entries, csum_first, csum_iov_tail,
}
use passt.Checksum.Sum.{words, csum_unfolded_lem, words-append}

-- Every entry but the last holds a whole number of words past the offset.
abbrev pub HasWholeWords : List Iovec → ℕ → Type 0
HasWholeWords [] off = Unit
HasWholeWords (v ∷ []) off = Unit
HasWholeWords (v ∷ w ∷ vs) off = ((v.iov_len - off) % 2 ≡ 0) × HasWholeWords (w ∷ vs) 0

HasWholeWords-rest :
    (v : Iovec) (vs : List Iovec) (off : ℕ) → HasWholeWords (v ∷ vs) off → HasWholeWords vs 0
HasWholeWords-rest v [] off h = tt
HasWholeWords-rest v (w ∷ vs) off h = h.1

-- The bytes of the entries past an offset, as many as are wanted.
abbrev bytes_of : Memory → List Iovec → ℕ → ℕ → List ℕ
bytes_of m vs off len = map m (take len (drop off (addrs vs)))

map-append' : (m : Memory) (xs ys : List ℕ) → map m (xs ++ ys) ≡ map m xs ++ map m ys
map-append' m [] ys = refl
map-append' m (x ∷ xs) ys = ap (λ l. m x ∷ l) (map-append' m xs ys)

bytes-entry :
    (m : Memory) (v : Iovec) (vs : List Iovec) (off len : ℕ)
    → off ≤ v.iov_len
    → bytes_of m (v ∷ vs) off len
      ≡ load m (v.iov_base + off) (min len (v.iov_len - off))
        ++ bytes_of m vs 0 (len - min len (v.iov_len - off))
bytes-entry m v vs off len h =
    ap (map m) (take-entry v vs off len h)
    ∙ map-append' m (range (v.iov_base + off) (min (v.iov_len - off) len)) _
    ∙ ap (λ l. l ++ map m (take (len - min (v.iov_len - off) len) (addrs vs)))
        (sym (load-range m (v.iov_base + off) (min (v.iov_len - off) len)))
    ∙ ap (λ n. load m (v.iov_base + off) n ++ map m (take (len - n) (addrs vs)))
        {y = min len (v.iov_len - off)} (omega arith)

words_even : (xs ys : List ℕ) → length xs % 2 ≡ 0 → words (xs ++ ys) ≡ words xs + words ys
words_even xs ys h = words-append (length xs / 2) xs ys (omega (arith, h))

append_nil : (xs : List ℕ) → words (xs ++ []) ≡ words xs
append_nil [] = refl
append_nil (x ∷ []) = refl
append_nil (x ∷ y ∷ xs) = ap (λ n. x + y * 2 ^ 8 + n) (append_nil xs)

words_parts :
    (xs ys : List ℕ) → (length xs % 2 ≡ 0) ⊎ (ys ≡ []) → words (xs ++ ys) ≡ words xs + words ys
words_parts xs ys (inl h) = words_even xs ys h
words_parts xs ys (inr e) = rw e (append_nil xs ∙ omega arith)

no_bytes : (m : Memory) (n off : ℕ) → bytes_of m [] off n ≡ []
no_bytes m n off =
    ap (λ l. map m (take n l)) (drop_all off [] (omega arith))
    ∙ ap (map m) (take_all n [] (omega arith))

-- An entry holds whole words, or is the last, or holds all the bytes that are wanted.
split_cases :
    (v : Iovec) (vs : List Iovec) (off len : ℕ)
    → HasWholeWords (v ∷ vs) off
    → (min len (v.iov_len - off) % 2 ≡ 0) ⊎ ((vs ≡ []) ⊎ (len - min len (v.iov_len - off) ≡ 0))
split_cases v [] off len h = inr (inl refl)
split_cases v (w ∷ vs) off len h = elim (dec_lt len (v.iov_len - off)) [
  | yes l ↦ inr (inr (omega arith))
  | no n ↦ inl (ap (λ x. x % 2) {y = v.iov_len - off} (omega (arith, n)) ∙ h.0)
]

-- The words of the first entry and of the others.
words-entry :
    (m : Memory) (v : Iovec) (vs : List Iovec) (off len : ℕ)
    → off ≤ v.iov_len
    → HasWholeWords (v ∷ vs) off
    → words (bytes_of m (v ∷ vs) off len)
      ≡ words (load m (v.iov_base + off) (min len (v.iov_len - off)))
        + words (bytes_of m vs 0 (len - min len (v.iov_len - off)))
words-entry m v vs off len h k =
    ap words (bytes-entry m v vs off len h)
    ∙ words_parts (load m (v.iov_base + off) (min len (v.iov_len - off))) _
        (elim (split_cases v vs off len k) [
          | inl even ↦ inl (
              ap (λ n. n % 2) (length-load m (v.iov_base + off) (min len (v.iov_len - off))) ∙ even)
          | inr (inl e) ↦ inr (rw e (no_bytes m (len - min len (v.iov_len - off)) 0))
          | inr (inr z) ↦ inr (ap (λ n. bytes_of m vs 0 n) z)
        ])

nothing_left :
    (m : Memory) (off len init : ℕ)
    → init < 2 ^ 32
    → init ≡ (words (bytes_of m [] off len) + init) % 2 ^ 32
nothing_left m off len init l = rw (no_bytes m len off) (omega arith)

nothing :
    (m : Memory) (vs : List Iovec) (off len init : ℕ)
    → len ≡ 0
    → init < 2 ^ 32
    → init ≡ (words (bytes_of m vs off len) + init) % 2 ^ 32
nothing m vs off len init z l = rw z (omega arith)

csum_entries_lem :
    (m : Memory) (vs : List Iovec) (off init len : ℕ)
    → AtMost vs off
    → HasWholeWords vs off
    → init < 2 ^ 32
    → csum_entries m vs off init len ≡ (words (bytes_of m vs off len) + init) % 2 ^ 32
unfolding csum_entries
csum_entries_lem m [] off init len a h l = nothing_left m off len init l
csum_entries_lem m (v ∷ vs) off init len a h l =
    let n = min len (v.iov_len - off) in
    let init' = csum_unfolded (load m (v.iov_base + off) n) init in
    let first = csum_unfolded_lem (load m (v.iov_base + off) n) init in
    let rest =
      csum_entries_lem m vs 0 init' (len - n) (AtMost-zero vs) (HasWholeWords-rest v vs off h)
        (omega (arith, first)) in
    let both = words-entry m v vs off len a h in
    elim (Bool-cases (len == 0)) [
      | inl z ↦ rw (z, csum_entries) (nothing m (v ∷ vs) off len init ((==_iff len 0).0 z) l)
      | inr some_left ↦ rw (some_left, csum_entries) (omega (arith, rest, first, both))
    ]

csum_first_lem :
    (m : Memory) (vs : List Iovec) (off init len : ℕ)
    → AtMost vs off
    → HasWholeWords vs off
    → init < 2 ^ 32
    → csum_first m vs off init len ≡ (words (bytes_of m vs off len) + init) % 2 ^ 32
unfolding csum_first
csum_first_lem m [] off init len a h l = nothing_left m off len init l
csum_first_lem m (v ∷ vs) off init len a h l =
    let n = min len (v.iov_len - off) in
    let first = csum_unfolded_lem (load m (v.iov_base + off) n) init in
    let init' = csum_unfolded (load m (v.iov_base + off) n) init in
    let rest =
      csum_entries_lem m vs 0 init' (len - n) (AtMost-zero vs) (HasWholeWords-rest v vs off h)
        (omega (arith, first)) in
    omega (arith, rest, first, words-entry m v vs off len a h)

not_left : {b : Bool} {x y : ℕ} → ((b ≡ true) ↔ (x < y)) → b ≡ false → y ≤ x
not_left {b} {x} {y} iff e = elim (dec_lt x y) [
  | yes l ↦ absurd (clash (sym (iff.1 l) ∙ e))
  | no n ↦ omega (arith, n)
]

-- The checksum of csum_iov_tail() is that of the bytes that the tail stands for, as many as are wanted, if
-- every entry of the pruned tail but the last holds a whole number of words.
pub csum_iov_tail_lem :
    (m : Memory) (tail : IovTail) (init len : ℕ)
    → HasWholeWords (iov_tail_prune tail).1.iov (iov_tail_prune tail).1.off
    → init < 2 ^ 32
    → csum_iov_tail m tail init len ≡ csum (map m (take len (tail_addrs tail))) init
unfolding csum_iov_tail csum
csum_iov_tail_lem m tail init len h l =
    let t = (iov_tail_prune tail).1 in
    let (same, pruned, left_iff) = iov_tail_prune_lem tail in
    ap (λ x. complement (csum_fold x))
      (elim (Bool-cases (iov_tail_prune tail).0) [
        | inl left ↦ rw left (
            csum_first_lem m t.iov t.off init len (AtMost-of_entry t.iov t.off pruned) h l
            ∙ ap (λ x. (words (map m (take len x)) + init) % 2 ^ 32) same
            ∙ sym (csum_unfolded_lem (map m (take len (tail_addrs tail))) init))
        | inr none_left ↦
            let short : length (addrs tail.iov) ≤ tail.off = not_left left_iff none_left in
            rw none_left (
              nothing_left m 0 len init l
              ∙ ap (λ x. (words (map m (take len x)) + init) % 2 ^ 32)
                  (sym (drop_all tail.off (addrs tail.iov) short))
              ∙ sym (csum_unfolded_lem (map m (take len (tail_addrs tail))) init))
      ])
