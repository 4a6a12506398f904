-- ===== src/Lineread/Tests.antt =====
-- A file in memory of two lines, the second without a newline.
use passt.Base.{
  sym, clash, take-drop, take_nothing, ℕ, ◌≡◌, ap, ◌∙◌, arith, some, List, [], ◌∷◌, ◌++◌, length,
  length-take, take, drop, done, Bool, false, true,
}
use passt.Lineread.{Lineread, ReadResult, read_error, bytes, LineResult, lineread_get}
use passt.Lineread.Get.{ReadsFile, LineRead, text, lineread_get-LineRead}

abbrev read : List ℕ → ℕ → ReadResult × List ℕ
read s n = (bytes (take n s), drop n s)

abbrev content : List ℕ → List ℕ
content s = s

abbrev bytes_of : ReadResult → List ℕ
bytes_of read_error = []
bytes_of (bytes bs) = bs

abbrev is_error : ReadResult → Bool
is_error read_error = true
is_error (bytes bs) = false

memory_file : ReadsFile read content
memory_file = record {
  some_bytes = λ s n bs s' e.
      sym (take-drop n s)
      ∙ ap (λ x. bytes_of x ++ drop n s) (ap (λ x. x.0) e)
      ∙ ap (λ l. bs ++ l) (ap (λ x. x.1) e);
  at_most = λ s n bs s' e.
      let same : take n s ≡ bs = ap (λ x. bytes_of x.0) e in
      omega (arith, length-take n s, ap (λ l. length l) same);
  at_end = λ s n s' l e. take_nothing n s l (ap (λ x. bytes_of x.0) e);
  on_error = λ s n s' e. absurd (clash (sym (ap (λ x. is_error x.0) e)));
}

abbrev empty : Lineread
empty = record { next_line = 0; count = 0; buf = λ a. 0 }

-- "ab", newline, "c"
abbrev file : List ℕ
file = 97 ∷ 98 ∷ 10 ∷ 99 ∷ []

lineread_get-LineRead_example :
    (r : LineResult × Lineread × List ℕ) × (lineread_get read empty file ≡ some (done r))
    × LineRead read content (text read content empty file) r
lineread_get-LineRead_example =
    lineread_get-LineRead read content memory_file empty file (omega arith)
