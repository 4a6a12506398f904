-- ===== src/Iov/Skip.antt =====
-- iov_skip_bytes(), iov_size() and iov_truncate() against the bytes of the vector.
use mathlib.Core.List.{append-nil}
use passt.Base.{
  ℕ, zero, suc, ◌+◌, ◌-◌, ◌%◌, ◌^◌, ◌≤◌, ◌<◌, ◌≡◌, refl, sym, subst, ap, ◌∙◌, arith, List, [], ◌∷◌,
  ◌++◌, length, take, drop, length-append, Bool-cases, ltb, inl, inr, if◌then◌else◌, ◌==◌, ltb→lt,
}
use passt.Iov.{Iovec, skip_from, iov_skip_bytes, size_from, iov_size, set_len, iov_truncate}
use passt.Iov.Bytes.{
  range, addrs, length-range, take-range, drop-append_ge, take-append_le, take-append_ge, take_all,
}

-- Where a skip ends: the entries from `i` on, at the offset, hold the bytes that are left. The
-- offset lies in the entry `i`, or there is no such entry and the vector has no bytes left.
abbrev pub InEntry : List Iovec → ℕ → Type 0
InEntry [] off = Unit
InEntry (v ∷ vs) off = off < v.iov_len

pub record Skipped (iov : List Iovec) (skip : ℕ) (i off : ℕ) : Type 0 where
  pub bytes : drop off (addrs (drop i iov)) ≡ drop skip (addrs iov)
  pub bound : i ≤ length iov
  pub entry : InEntry (drop i iov) off
  pub before : length (addrs (take i iov)) + off ≡ skip

-- Moving the start index moves the result.
skip_from-base :
    (iov : List Iovec) (off i : ℕ)
    → skip_from iov off i ≡ ((skip_from iov off 0).0 + i, (skip_from iov off 0).1)
unfolding skip_from
skip_from-base [] off i = ground arith
skip_from-base (v ∷ vs) off i =
    ground
      (arith, skip_from-base vs (off - v.iov_len) (i + 1), skip_from-base vs (off - v.iov_len) 1)

Skipped-cons :
    (v : Iovec) (vs : List Iovec) (off i o : ℕ)
    → v.iov_len ≤ off
    → Skipped vs (off - v.iov_len) i o
    → Skipped (v ∷ vs) off (suc i) o
Skipped-cons v vs off i o h s = record {
  bytes =
      s.bytes
      ∙ sym (
          drop-append_ge off (range v.iov_base v.iov_len) (addrs vs)
            (omega (arith, length-range v.iov_base v.iov_len))
          ∙ ap (λ k. drop (off - k) (addrs vs)) (length-range v.iov_base v.iov_len));
  bound = omega (arith, s.bound);
  entry = s.entry;
  before = omega (
    arith,
    s.before,
    length-append (range v.iov_base v.iov_len) (addrs (take i vs)),
    length-range v.iov_base v.iov_len,
  );
}

skip_from-Skipped :
    (iov : List Iovec) (off : ℕ) → Skipped iov off (skip_from iov off 0).0 (skip_from iov off 0).1
unfolding skip_from
skip_from-Skipped [] off = record {
  bytes = refl;
  bound = omega arith;
  entry = tt;
  before = omega arith;
}
skip_from-Skipped (v ∷ vs) off = elim (Bool-cases (ltb off v.iov_len)) [
  | inl here ↦
      rw here (record {
        bytes = refl;
        bound = omega arith;
        entry = ltb→lt _ _ here;
        before = omega arith;
      })
  | inr on ↦
      rw (on, skip_from-base vs (off - v.iov_len) 1)
        (subst (λ k. Skipped (v ∷ vs) off k (skip_from vs (off - v.iov_len) 0).1) (omega arith)
          (Skipped-cons v vs off _ _ (ground arith) (skip_from-Skipped vs (off - v.iov_len))))
]

-- iov_skip_bytes() finds the entry and the offset in it where the skipped bytes end: the entries
-- from there on hold just the bytes that are left, the entries before and the offset make up the
-- skipped bytes, and the offset lies inside the entry, if there is one.
pub iov_skip_bytes-Skipped :
    (iov : List Iovec) (skip : ℕ)
    → Skipped iov skip (iov_skip_bytes iov skip).0 (iov_skip_bytes iov skip).1
unfolding iov_skip_bytes
iov_skip_bytes-Skipped iov skip = skip_from-Skipped iov skip

size_from_lem :
    (iov : List Iovec) (len : ℕ)
    → len + length (addrs iov) < 2 ^ 64
    → size_from iov len ≡ len + length (addrs iov)
unfolding size_from
size_from_lem [] len h = omega arith
size_from_lem (v ∷ vs) len h =
    let split : length (addrs (v ∷ vs)) ≡ v.iov_len + length (addrs vs) = omega (
      arith,
      length-append (range v.iov_base v.iov_len) (addrs vs),
      length-range v.iov_base v.iov_len,
    ) in
    let wrap : (len + v.iov_len) % 2 ^ 64 ≡ len + v.iov_len = omega arith in
    rw wrap (omega (arith, size_from_lem vs (len + v.iov_len) (omega arith)))

-- iov_size() is the number of bytes of the vector, if `size_t` can hold it.
pub iov_size_lem :
    (iov : List Iovec) → length (addrs iov) < 2 ^ 64 → iov_size iov ≡ length (addrs iov)
unfolding iov_size
iov_size_lem iov h = omega (arith, size_from_lem iov 0 (omega arith))

kept : ℕ → ℕ
kept o = if o == 0 then 0 else 1

set_len-take :
    (iov : List Iovec) (i o : ℕ)
    → i < length iov
    → InEntry (drop i iov) o
    → addrs (take (i + kept o) (set_len iov i o))
      ≡ take (length (addrs (take i iov)) + o) (addrs iov)
unfolding set_len kept
set_len-take [] i o h e = absurd (omega arith)
set_len-take (v ∷ vs) zero zero h e = refl
set_len-take (v ∷ vs) zero (suc o) h e =
    ap (λ k. addrs (take k (record v { iov_len = suc o } ∷ vs))) {y = 1} (ground arith)
    ∙ append-nil (range v.iov_base (suc o))
    ∙ sym (
        take-append_le (suc o) (range v.iov_base v.iov_len) (addrs vs)
          (omega (arith, length-range v.iov_base v.iov_len))
        ∙ (take-range (suc o) v.iov_base v.iov_len
            ∙ ap (range v.iov_base) {y = suc o} (omega arith)))
    ∙ ap (λ k. take k (range v.iov_base v.iov_len ++ addrs vs)) {x = suc o} (omega arith)
set_len-take (v ∷ vs) (suc i) o h e =
    let r = range v.iov_base v.iov_len in
    let ih = set_len-take vs i o (omega arith) e in
    let total : length (r ++ addrs (take i vs)) + o ≡ length r + (length (addrs (take i vs)) + o) =
      omega (arith, length-append r (addrs (take i vs))) in
    ap (λ k. addrs (take k (v ∷ set_len vs i o))) {y = suc (i + kept o)} (omega arith)
    ∙ (ap (λ l. r ++ l) ih
        ∙ sym (
            ap (λ k. take k (r ++ addrs vs)) total
            ∙ (take-append_ge (length r + (length (addrs (take i vs)) + o)) r (addrs vs)
                  (omega arith)
                ∙ ap (λ k. r ++ take k (addrs vs)) {y = length (addrs (take i vs)) + o}
                    (omega arith))))

length-set_len : (iov : List Iovec) (i o : ℕ) → length (set_len iov i o) ≡ length iov
unfolding set_len
length-set_len [] i o = refl
length-set_len (v ∷ vs) zero o = refl
length-set_len (v ∷ vs) (suc i) o = ap suc (length-set_len vs i o)

-- iov_truncate() keeps the array's number of entries, and the entries that it counts hold the
-- first `size` bytes of the vector, or all of them if there are fewer.
pub iov_truncate_lem :
    (iov : List Iovec) (size : ℕ)
    → (addrs (take (iov_truncate iov size).0 (iov_truncate iov size).1) ≡ take size (addrs iov))
      × (length (iov_truncate iov size).1 ≡ length iov)
unfolding iov_truncate kept
iov_truncate_lem iov size =
    let i = (iov_skip_bytes iov size).0 in
    let o = (iov_skip_bytes iov size).1 in
    let s : Skipped iov size i o = iov_skip_bytes-Skipped iov size in
    elim (Bool-cases (ltb i (length iov))) [
      | inl inside ↦ rw inside (
        set_len-take iov i o (ltb→lt _ _ inside) s.entry ∙ ap (λ k. take k (addrs iov)) s.before,
        length-set_len iov i o,
      )
      | inr past ↦
          let whole : take i iov ≡ iov = take_all i iov (ground arith) in
          rw past (
            ap addrs whole
                ∙ sym (
                    take_all size (addrs iov)
                      (omega (arith, s.before, ap (λ l. length (addrs l)) whole))),
            refl,
          )
    ]

pub length-addrs_split :
    (iov : List Iovec) (i : ℕ)
    → length (addrs (take i iov)) + length (addrs (drop i iov)) ≡ length (addrs iov)
length-addrs_split iov zero = omega arith
length-addrs_split [] (suc i) = omega arith
length-addrs_split (v ∷ vs) (suc i) = omega (
  arith,
  length-append (range v.iov_base v.iov_len) (addrs (take i vs)),
  length-append (range v.iov_base v.iov_len) (addrs vs),
  length-addrs_split vs i,
)
