-- ===== src/Iov/Tail.antt =====
-- The operations on IO vector tails keep or cut the bytes that a tail stands for.
use mathlib.Core.Path.{ap₂}
use passt.Base.{
  ℕ, zero, suc, ◌+◌, ◌-◌, ◌%◌, ◌^◌, ◌≤◌, ◌<◌, min, ◌≡◌, ◌↔◌, refl, sym, ap, ◌∙◌, arith, List, [],
  ◌∷◌, ◌++◌, length, take, drop, length-append, length-drop, Bool-cases, Option-cases, inl, inr,
  none, some, ◌==◌, true, false, not,
}
use passt.Iov.{
  Iovec, IovTail, iov_skip_bytes, iov_tail_prune, iov_tail_size, iov_drop_header, clone_from,
  iov_tail_clone, trim_from, iov_tail_trim,
}
use passt.Iov.Bytes.{
  range, addrs, tail_addrs, length-range, drop-range, take-range, drop-append_le, drop_all,
  take_all, drop-drop, take-append,
}
use passt.Iov.Skip.{InEntry, Skipped, iov_skip_bytes-Skipped, iov_size_lem, length-addrs_split}

-- After pruning, the offset lies in the first entry.
abbrev pub IsPruned : IovTail → Type 0
IsPruned t = InEntry t.iov t.off

nonempty :
    (iov : List Iovec) (off : ℕ)
    → InEntry iov off
    → ((not (length iov == 0)) ≡ true) ↔ (off < length (addrs iov))
nonempty [] off e = (λ h. ground arith, λ h. absurd (omega arith))
nonempty (v ∷ vs) off e = (
  λ h. omega (
    arith,
    length-append (range v.iov_base v.iov_len) (addrs vs),
    length-range v.iov_base v.iov_len,
  ),
  λ h. ground arith,
)

-- iov_tail_prune() keeps the bytes of the tail, leaves its offset inside its first entry, and
-- returns true exactly if the tail has bytes.
pub iov_tail_prune_lem :
    (t : IovTail)
    → (tail_addrs (iov_tail_prune t).1 ≡ tail_addrs t)
      × IsPruned (iov_tail_prune t).1
      × (((iov_tail_prune t).0 ≡ true) ↔ (t.off < length (addrs t.iov)))
unfolding iov_tail_prune
iov_tail_prune_lem t =
    let i = (iov_skip_bytes t.iov t.off).0 in
    let o = (iov_skip_bytes t.iov t.off).1 in
    let s : Skipped t.iov t.off i o = iov_skip_bytes-Skipped t.iov t.off in
    let ne = nonempty (drop i t.iov) o s.entry in
    let same : length (addrs (drop i t.iov)) - o ≡ length (addrs t.iov) - t.off =
      sym (length-drop o (addrs (drop i t.iov)))
      ∙ (ap (λ l. length l) s.bytes ∙ length-drop t.off (addrs t.iov)) in
    (s.bytes, s.entry, (λ h. omega (arith, ne.0 h), λ h. ne.1 (omega arith)))

-- iov_tail_size() is the number of bytes of the tail, if its offset lies in it and `size_t` can
-- hold the size of the vector.
pub iov_tail_size_lem :
    (t : IovTail)
    → t.off ≤ length (addrs t.iov)
    → length (addrs t.iov) < 2 ^ 64
    → (iov_tail_size t).0 ≡ length (tail_addrs t)
unfolding iov_tail_size
iov_tail_size_lem t h k =
    let i = (iov_skip_bytes t.iov t.off).0 in
    let o = (iov_skip_bytes t.iov t.off).1 in
    let s : Skipped t.iov t.off i o = iov_skip_bytes-Skipped t.iov t.off in
    let split = length-addrs_split t.iov i in
    omega (
      arith,
      split,
      s.before,
      length-drop t.off (addrs t.iov),
      iov_size_lem (drop i t.iov) (omega (arith, split)),
    )

-- iov_drop_header() drops bytes from the front of the tail, all if there are no more, and returns
-- true exactly if bytes are left, where `size_t` can hold the new offset.
pub iov_drop_header_lem :
    (t : IovTail) (len : ℕ)
    → t.off + len < 2 ^ 64
    → (tail_addrs (iov_drop_header t len).1 ≡ drop len (tail_addrs t))
      × (((iov_drop_header t len).0 ≡ true) ↔ (len < length (tail_addrs t)))
unfolding iov_drop_header
iov_drop_header_lem t len h =
    let wrap : (t.off + len) % 2 ^ 64 ≡ t.off + len = omega arith in
    let p = iov_tail_prune_lem (record t { off = t.off + len }) in
    rw wrap (
      p.0 ∙ sym (drop-drop len t.off (addrs t.iov)),
      (
        λ e. omega (arith, p.2.0 e, length-drop t.off (addrs t.iov)),
        λ l. p.2.1 (omega (arith, length-drop t.off (addrs t.iov))),
      ),
    )

clone_from-left :
    (vs : List Iovec) (off room : ℕ) → ((clone_from vs off room).1 ≡ false) ↔ (length vs ≤ room)
unfolding clone_from
clone_from-left [] off room = (λ h. omega arith, λ h. refl)
clone_from-left (v ∷ vs) off zero = (λ h. ground arith, λ h. absurd (omega arith))
clone_from-left (v ∷ vs) off (suc room) = (
  λ h. omega (arith, (clone_from-left vs 0 room).0 h),
  λ h. (clone_from-left vs 0 room).1 (omega arith),
)

clone_from-whole :
    (vs : List Iovec) (room : ℕ) → length vs ≤ room → addrs (clone_from vs 0 room).0 ≡ addrs vs
unfolding clone_from
clone_from-whole [] room h = refl
clone_from-whole (v ∷ vs) zero h = absurd (omega arith)
clone_from-whole (v ∷ vs) (suc room) h =
    ap (λ l. range (v.iov_base + 0) (v.iov_len - 0) ++ l) (clone_from-whole vs room (omega arith))
    ∙ ap₂ (λ b n. range b n ++ addrs vs) (omega arith) (omega arith)

clone_from-addrs :
    (vs : List Iovec) (off room : ℕ)
    → InEntry vs off
    → length vs ≤ room
    → addrs (clone_from vs off room).0 ≡ drop off (addrs vs)
unfolding clone_from
clone_from-addrs [] off room e h = sym (drop_all off [] (omega arith))
clone_from-addrs (v ∷ vs) off zero e h = absurd (omega arith)
clone_from-addrs (v ∷ vs) off (suc room) e h =
    ap (λ l. range (v.iov_base + off) (v.iov_len - off) ++ l)
      (clone_from-whole vs room (omega arith))
    ∙ sym (
        drop-append_le off (range v.iov_base v.iov_len) (addrs vs)
          (omega (arith, length-range v.iov_base v.iov_len))
        ∙ ap (λ l. l ++ addrs vs) (drop-range off v.iov_base v.iov_len))

-- iov_tail_clone() fails exactly if the destination has fewer entries than the tail needs, and else
-- its entries stand for the bytes of the tail.
pub iov_tail_clone_lem :
    (room : ℕ) (t : IovTail)
    → ((iov_tail_clone room t ≡ none) ↔ (room < length (iov_tail_prune t).1.iov))
      × ((dst : List Iovec) → iov_tail_clone room t ≡ some dst → addrs dst ≡ tail_addrs t)
unfolding iov_tail_clone iov_tail_prune
iov_tail_clone_lem room t =
    let i = (iov_skip_bytes t.iov t.off).0 in
    let o = (iov_skip_bytes t.iov t.off).1 in
    let s : Skipped t.iov t.off i o = iov_skip_bytes-Skipped t.iov t.off in
    let fits = clone_from-left (drop i t.iov) o room in
    elim (Bool-cases (clone_from (drop i t.iov) o room).1) [
      | inl left ↦ ((λ h. ground (arith, fits.1), λ h. rw left), λ dst q. ground (arith, left))
      | inr all ↦
          let whole = clone_from-addrs (drop i t.iov) o room s.entry (fits.0 all) in
          (
            (λ h. ground (arith, all), λ h. absurd (omega (arith, fits.0 all))),
            λ dst q.
                ap addrs
                  (let q' : dst ≡ (clone_from (drop i t.iov) o room).0 = ground (arith, all) in q')
                ∙ (whole ∙ s.bytes),
          )
    ]

trim_from-cons :
    (v : Iovec) (vs : List Iovec) (left : ℕ)
    → trim_from (v ∷ vs) (suc left) ≡ (
      record v { iov_len = min v.iov_len (suc left) }
          ∷ (trim_from vs (suc left - min v.iov_len (suc left))).0,
      (trim_from vs (suc left - min v.iov_len (suc left))).1,
    )
unfolding trim_from
trim_from-cons v vs left = ground arith

trim_from_lem :
    (vs : List Iovec) (left : ℕ)
    → (addrs (trim_from vs left).0 ≡ take left (addrs vs))
      × ((trim_from vs left).1 ≡ left - length (addrs vs))
unfolding trim_from
trim_from_lem [] left = (sym (take_all left [] (omega arith)), omega arith)
trim_from_lem (v ∷ vs) zero = (refl, omega arith)
trim_from_lem (v ∷ vs) (suc left) =
    let n = suc left in
    let k = min v.iov_len n in
    let ih = trim_from_lem vs (n - k) in
    let r = range v.iov_base v.iov_len in
    let cut : n - length r ≡ n - k = omega (arith, length-range v.iov_base v.iov_len) in
    (
      ap addrs (ap (λ x. x.0) (trim_from-cons v vs left))
          ∙ (ap (λ l. range v.iov_base k ++ l) ih.0
              ∙ sym (
                  take-append n r (addrs vs)
                  ∙ ap₂ (λ a b. a ++ take b (addrs vs)) (take-range n v.iov_base v.iov_len) cut)),
      ap (λ x. x.1) (trim_from-cons v vs left)
          ∙ (ih.1 ∙ omega (arith, length-append r (addrs vs), length-range v.iov_base v.iov_len)),
    )

trim_enough :
    (t : IovTail) (len room : ℕ) (scratch : List Iovec)
    → iov_tail_clone room t ≡ some scratch
    → ((trim_from scratch len).1 == 0) ≡ true
    → iov_tail_trim t len room ≡ some (record { iov = (trim_from scratch len).0; off = 0 })
unfolding iov_tail_trim
trim_enough t len room scratch e z = rw (e, iov_tail_trim, z)

trim_short :
    (t : IovTail) (len room : ℕ) (scratch : List Iovec)
    → iov_tail_clone room t ≡ some scratch
    → ((trim_from scratch len).1 == 0) ≡ false
    → iov_tail_trim t len room ≡ none
unfolding iov_tail_trim
trim_short t len room scratch e z = rw (e, iov_tail_trim, z)

-- iov_tail_trim(), with room for the entries of the tail, fails exactly if the tail has fewer bytes
-- than wanted, and else the new tail stands for the first `len` bytes.
pub iov_tail_trim_lem :
    (t : IovTail) (len room : ℕ)
    → length (iov_tail_prune t).1.iov ≤ room
    → ((iov_tail_trim t len room ≡ none) ↔ (length (tail_addrs t) < len))
      × ((t' : IovTail)
          → iov_tail_trim t len room ≡ some t'
          → tail_addrs t' ≡ take len (tail_addrs t))
iov_tail_trim_lem t len room h = elim (Option-cases (iov_tail_clone room t)) [
  | inl e ↦ absurd (omega (arith, (iov_tail_clone_lem room t).0.0 e))
  | inr (scratch, e) ↦
      let whole = (iov_tail_clone_lem room t).1 scratch e in
      let trim = trim_from_lem scratch len in
      let left : (trim_from scratch len).1 ≡ len - length (tail_addrs t) =
        trim.1 ∙ ap (λ l. len - length l) whole in
      elim (Bool-cases ((trim_from scratch len).1 == 0)) [
        | inl all ↦
            let eq = trim_enough t len room scratch e all in
            (
              (λ q. ground (arith, eq), λ q. absurd (ground arith)),
              λ t' q.
                  let same : t' ≡ record { iov = (trim_from scratch len).0; off = 0 } =
                    ground (arith, eq) in
                  ap tail_addrs same ∙ (trim.0 ∙ ap (take len) whole),
            )
        | inr short ↦
            let eq = trim_short t len room scratch e short in
            ((λ q. ground arith, λ q. eq), λ t' q. absurd (ground (arith, eq)))
      ]
]
