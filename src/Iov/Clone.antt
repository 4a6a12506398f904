-- ===== src/Iov/Clone.antt =====
-- The entries that iov_tail_clone() makes.
use mathlib.Core.List.{append_assoc}
use passt.Base.{
  ℕ, zero, suc, ◌≤◌, ◌≡◌, inl, inr, refl, sym, ap, ◌∙◌, arith, some, List, [], ◌∷◌, ◌++◌, length,
  drop, Bool-cases,
}
use passt.Iov.{Iovec, IovTail, iov_skip_bytes, clone_from, iov_tail_clone}
use passt.Iov.Bytes.{addrs, range}

pub addrs-append : (xs ys : List Iovec) → addrs (xs ++ ys) ≡ addrs xs ++ addrs ys
addrs-append [] ys = refl
addrs-append (x ∷ xs) ys =
    ap (λ l. range x.iov_base x.iov_len ++ l) (addrs-append xs ys)
    ∙ sym (append_assoc (range x.iov_base x.iov_len) (addrs xs) (addrs ys))

length-clone_from : (vs : List Iovec) (off room : ℕ) → length (clone_from vs off room).0 ≤ room
unfolding clone_from
length-clone_from [] off room = omega arith
length-clone_from (v ∷ vs) off zero = omega arith
length-clone_from (v ∷ vs) off (suc room) = omega (arith, length-clone_from vs 0 room)

-- A clone fits.
pub length-iov_tail_clone :
    (room : ℕ) (t : IovTail) (dst : List Iovec)
    → iov_tail_clone room t ≡ some dst
    → length dst ≤ room
unfolding iov_tail_clone
length-iov_tail_clone room t dst e =
    let (i, o) = iov_skip_bytes t.iov t.off in
    let fits = length-clone_from (drop i t.iov) o room in
    elim (Bool-cases (clone_from (drop i t.iov) o room).1) [
      | inl left ↦ ground (arith, left)
      | inr all ↦
          let same : dst ≡ (clone_from (drop i t.iov) o room).0 = ground (arith, all) in
          rw same fits
    ]
