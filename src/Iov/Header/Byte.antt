-- ===== src/Iov/Header/Byte.antt =====
-- iov_remove_header_() of one byte.
use passt.Base.{
  ℕ, zero, suc, ◌+◌, ◌-◌, ◌%◌, ◌^◌, ◌≤◌, ◌<◌, ◌≡◌, refl, sym, ap, ◌∙◌, arith, Bool, true, false,
  not, Option, none, some, List, [], ◌∷◌, ◌++◌, map, length, length-append, take, drop, ltb, ◌==◌,
  if◌then◌else◌, done,
}
use passt.Iov.{
  Iovec, IovTail, Memory, store, iov_tail_prune, iov_skip_bytes, iov_to_buf, first_base,
}
use passt.Iov.Bytes.{addrs, tail_addrs, range, drop-drop, drop_all, length-range}
use passt.Iov.Skip.{InEntry, Skipped, iov_skip_bytes-Skipped, length-addrs_split}
use passt.Iov.Tail.{IsPruned, iov_tail_prune_lem}
use passt.Iov.Store.{entry_split}
use passt.Iov.Copy.{NoNull, iov_to_buf_lem}
use passt.Iov.Header.{
  header_in_first, iov_check_header, header_or_copy, iov_peek_header, iov_remove_header,
}
use passt.Iov.Header.Peek.{NoNull-prune}

-- A tail without null addresses, with its offset inside it, and a size that `size_t` can hold.
pub record IsWhole (t : IovTail) : Type 0 where
  pub no_null : NoNull t.iov
  pub inside : t.off ≤ length (addrs t.iov)
  pub small : length (addrs t.iov) < 2 ^ 64

-- What removing a byte does: the address of the first byte, or NULL for an empty tail.
pub data ByteRemoved (m : Memory) (tail : IovTail) : Option ℕ × Memory × IovTail → Type 0 where
  byte :
      (p : ℕ) (t : IovTail)
      → tail_addrs tail ≡ p ∷ tail_addrs t
      → IsWhole t
      → ByteRemoved m tail (some p, m, t)
  no_byte : (t : IovTail) → tail_addrs tail ≡ [] → ByteRemoved m tail (none, m, t)

-- iov_check_header() of a byte, behind the pruning
abbrev checked : IovTail → Option ℕ
checked t = if not (length t.iov == 0) then header_in_first t 1 1 else none

data Checked (t : IovTail) : Option ℕ → Type 0 where
  in_entry :
      (p : ℕ)
      → tail_addrs t ≡ p ∷ drop (t.off + 1) (addrs t.iov)
      → t.off < length (addrs t.iov)
      → Checked t (some p)
  at_end : tail_addrs t ≡ [] → Checked t none

behind : (n p : ℕ) (l xs : List ℕ) → drop n l ≡ p ∷ xs → drop n l ≡ p ∷ drop (n + 1) l
behind n p l xs e = e ∙ ap (λ x. p ∷ x) (ap (drop 1) (sym e) ∙ drop-drop 1 n l)

first_of_range : (a n : ℕ) (l : List ℕ) → 0 < n → (xs : List ℕ) × (range a n ++ l ≡ a ∷ xs)
first_of_range a zero l h = absurd (omega arith)
first_of_range a (suc n) l h = (range (a + 1) n ++ l, refl)

checked-Checked : (t : IovTail) → IsWhole t → IsPruned t → Checked t (checked t)
unfolding header_in_first first_base
checked-Checked t w p = by_iov t.iov t.off w.no_null w.small p
  where
    by_iov :
        (iov : List Iovec) (off : ℕ)
        → NoNull iov
        → length (addrs iov) < 2 ^ 64
        → InEntry iov off
        → Checked (record { iov = iov; off = off }) (checked (record { iov = iov; off = off }))
    by_iov [] off nn small e = at_end (drop_all off [] (omega arith))
    by_iov (v ∷ vs) off nn small e =
        let size : length (addrs (v ∷ vs)) ≡ v.iov_len + length (addrs vs) = omega (
          arith,
          length-append (range v.iov_base v.iov_len) (addrs vs),
          length-range v.iov_base v.iov_len,
        ) in
        let wrap : (off + 1) % 2 ^ 64 ≡ off + 1 = omega (arith, e, size, small) in
        let no_wrap : ltb (off + 1) off ≡ false = ground arith in
        let fits : ltb v.iov_len (off + 1) ≡ false = ground (arith, e) in
        let not_null : (v.iov_base + off == 0) ≡ false = ground (arith, nn.0) in
        let aligned : ((v.iov_base + off) % 1 == 0) ≡ true = ground arith in
        let some_entry : not (length (v ∷ vs) == 0) ≡ true = ground arith in
        let (xs, first) =
          first_of_range (v.iov_base + off) (v.iov_len - off) (addrs vs) (omega (arith, e)) in
        rw (some_entry, wrap, no_wrap, fits, not_null, aligned)
          (in_entry (v.iov_base + off)
            (behind off (v.iov_base + off) (addrs (v ∷ vs)) xs
              (entry_split v vs off (omega (arith, e)) ∙ first))
            (omega (arith, e, size)))

pub IsWhole-prune : (t : IovTail) → IsWhole t → IsWhole (iov_tail_prune t).1
unfolding iov_tail_prune
IsWhole-prune t w =
    let i = (iov_skip_bytes t.iov t.off).0 in
    let s : Skipped t.iov t.off i (iov_skip_bytes t.iov t.off).1 =
      iov_skip_bytes-Skipped t.iov t.off in
    let split = length-addrs_split t.iov i in
    record {
      no_null = NoNull-prune t w.no_null;
      inside = omega (arith, s.before, split, w.inside);
      small = omega (arith, split, w.small);
    }

module _ (constant_p : Bool) (m : Memory) (v : ℕ) where
  remove-Checked :
      (tail t : IovTail) (o : Option ℕ)
      → tail_addrs t ≡ tail_addrs tail
      → IsWhole t
      → Checked t o
      → iov_check_header tail 1 1 ≡ (o, t)
      → (r : Option ℕ × Memory × IovTail) × (iov_remove_header constant_p m tail v 1 1 ≡ done r)
        × ByteRemoved m tail r
  unfolding iov_remove_header iov_peek_header header_or_copy store
  remove-Checked tail t _ same w (in_entry p e l) c =
      let wrap : (t.off + 1) % 2 ^ 64 ≡ t.off + 1 = omega (arith, l, w.small) in
      let peek : iov_peek_header constant_p m tail v 1 1 ≡ done (some p, m, t) =
        rw (c, iov_peek_header) refl in
      (
        (some p, m, record t { off = t.off + 1 }),
        rw (peek, iov_remove_header, wrap) refl,
        byte p (record t { off = t.off + 1 }) (sym same ∙ e)
            (record { no_null = w.no_null; inside = omega (arith, l); small = w.small }),
      )
  remove-Checked tail t _ same w (at_end e) c =
      let run : iov_to_buf constant_p m t.iov t.off 1 ≡ done [] =
        iov_to_buf_lem constant_p m t.iov t.off 1 w.no_null ∙ ap (λ x. done (map m (take 1 x))) e in
      let copy : header_or_copy constant_p m t v 1 none ≡ done (none, m, t) =
        rw (run, header_or_copy) refl in
      let peek : iov_peek_header constant_p m tail v 1 1 ≡ done (none, m, t) =
        rw (c, iov_peek_header) copy in
      ((none, m, t), rw (peek, iov_remove_header) refl, no_byte t (sym same ∙ e))

  -- Removing a byte of a whole tail passes the assertions and changes no memory.
  pub remove-ByteRemoved :
      (tail : IovTail)
      → IsWhole tail
      → (r : Option ℕ × Memory × IovTail) × (iov_remove_header constant_p m tail v 1 1 ≡ done r)
        × ByteRemoved m tail r
  unfolding iov_check_header iov_tail_prune
  remove-ByteRemoved tail w =
      let t = (iov_tail_prune tail).1 in
      let (same, pruned, left) = iov_tail_prune_lem tail in
      let w' = IsWhole-prune tail w in
      remove-Checked tail t (checked t) same w' (checked-Checked t w' pruned) refl
