-- ===== src/Serialise/Tests.antt =====
-- A value through a file in memory.
use mathlib.Core.Path.{ap₂}
use passt.Base.{
  clash, take-drop, take_nothing, ℕ, ◌≡◌, refl, sym, ap, ◌∙◌, arith, Bool, true, false, Option,
  some, List, [], ◌∷◌, ◌++◌, length, length-take, take, drop, done,
}
use passt.Serialise.{
  ReadCall, bytes, WriteCall, wrote, read_all_buf, write_all_buf, write_u32, read_u32,
}
use passt.Iov.Bytes.{take_all}
use passt.Serialise.Read.{ReadsStream, ReadAll, read_all_buf-ReadAll}
use passt.Serialise.Write.{WritesStream}
use passt.Serialise.Roundtrip.{ReadBack, write_u32-read_u32}

abbrev read : List ℕ → ℕ → ReadCall × List ℕ
read s n = (bytes (take n s), drop n s)

abbrev write : List ℕ → List ℕ → WriteCall × List ℕ
write s bs = (wrote (length bs), s ++ bs)

abbrev content : List ℕ → List ℕ
content s = s

abbrev never : List ℕ → ℕ
never s = 0

abbrev bytes_of : ReadCall → List ℕ
bytes_of (bytes bs) = bs
bytes_of _ = []

abbrev is_bytes : ReadCall → Bool
is_bytes (bytes bs) = true
is_bytes _ = false

abbrev count_of : WriteCall → ℕ
count_of (wrote n) = n
count_of _ = 0

abbrev is_count : WriteCall → Bool
is_count (wrote n) = true
is_count _ = false

memory_reader : ReadsStream read content never
memory_reader = record {
  on_interrupt = λ s n s' e. absurd (clash (ap (λ x. is_bytes x.0) e));
  on_error = λ s n s' e. absurd (clash (ap (λ x. is_bytes x.0) e));
  some_bytes = λ s n bs s' e.
      let same : take n s ≡ bs = ap (λ x. bytes_of x.0) e in
      (
        sym (take-drop n s) ∙ ap₂ (λ x y. x ++ y) same (ap (λ x. x.1) e),
        omega (arith, length-take n s, ap (λ l. length l) same),
        omega arith,
      );
  at_end = λ s n s' l e. take_nothing n s l (ap (λ x. bytes_of x.0) e);
}

memory_writer : WritesStream write content never
memory_writer = record {
  on_interrupt = λ s bs s' e. absurd (clash (ap (λ x. is_count x.0) e));
  on_error = λ s bs s' e. absurd (clash (ap (λ x. is_count x.0) e));
  some_bytes = λ s bs n s' l e.
      let same : length bs ≡ n = ap (λ x. count_of x.0) e in
      (
        ap (λ x. x.1) (sym e) ∙ ap (λ x. s ++ x) (sym (take_all n bs (omega (arith, same)))),
        omega (arith, same, l),
        omega arith,
      );
}

read_all_buf-ReadAll_example :
    (r : Bool × List ℕ × List ℕ) × (read_all_buf read 5 3 (1 ∷ 2 ∷ []) ≡ some (done r))
    × ReadAll read content never 3 (1 ∷ 2 ∷ []) r
read_all_buf-ReadAll_example =
    read_all_buf-ReadAll read content never memory_reader 3 (omega arith) 5 (1 ∷ 2 ∷ [])
      (omega arith)

-- 258 in network order behind a byte
written : write_u32 write 6 258 (9 ∷ []) ≡ some (true, 9 ∷ 0 ∷ 0 ∷ 1 ∷ 2 ∷ [])
unfolding write_u32 write_all_buf
written = refl

write_u32-read_u32_example :
    (r : Option ℕ × List ℕ) × (read_u32 read 6 (0 ∷ 0 ∷ 1 ∷ 2 ∷ 7 ∷ []) ≡ some (done r))
    × ReadBack write content never read content never 258 (7 ∷ []) r
write_u32-read_u32_example =
    write_u32-read_u32 write content never read content never memory_writer memory_reader 6 6 258
      (9 ∷ []) (9 ∷ 0 ∷ 0 ∷ 1 ∷ 2 ∷ []) (0 ∷ 0 ∷ 1 ∷ 2 ∷ 7 ∷ []) (7 ∷ []) (omega arith)
      (omega arith) (omega arith) written refl
