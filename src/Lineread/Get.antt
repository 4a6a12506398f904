-- ===== src/Lineread/Get.antt =====
-- lineread_get(): successive lines of a file.
use passt.Base.{
  ℕ, zero, suc, ◌+◌, ◌-◌, ◌≤◌, ◌<◌, ◌≡◌, refl, sym, ap, ◌∙◌, subst, arith, Bool, true, false,
  Option, none, some, List, [], ◌∷◌, ◌++◌, length, le→leb, update, Run, done,
}
use mathlib.Core.Path.{ap₂}
use mathlib.Core.List.{append_assoc, append-nil}
use passt.Iov.{load}
use passt.Iov.Copy.{length-load}
use passt.Lineread.{
  lineread_buffer_size, Lineread, ReadResult, read_error, bytes, LineResult, failed, line,
  find_newline, peek_buffer, peek_line, make_room, append_bytes, get_from, lineread_get,
}
use passt.Lineread.Find.{
  NoNewline, Newline, at_end, found, find_newline-Newline, held, InBounds, cut_line, end_line, Room,
  too_long, has_room, make_room-Room, held-append_bytes,
}

-- read() on a file in the state `s`, of which `content s` is still to be read.
pub record ReadsFile {S : Type 0} (read : S → ℕ → ReadResult × S) (content : S → List ℕ)
    : Type 0 where
  pub some_bytes :
      (s : S) (n : ℕ) (bs : List ℕ) (s' : S)
      → read s n ≡ (bytes bs, s')
      → content s ≡ bs ++ content s'
  pub at_most : (s : S) (n : ℕ) (bs : List ℕ) (s' : S) → read s n ≡ (bytes bs, s') → length bs ≤ n
  pub at_end : (s : S) (n : ℕ) (s' : S) → 0 < n → read s n ≡ (bytes [], s') → content s ≡ []
  pub on_error : (s : S) (n : ℕ) (s' : S) → read s n ≡ (read_error, s') → content s' ≡ content s

module _ {S : Type 0} (read : S → ℕ → ReadResult × S) (content : S → List ℕ) where
  -- What is still to be returned: the bytes held, and those of the file.
  abbrev pub text : Lineread → S → List ℕ
  text lr s = held lr ++ content s

  -- Why there is no line: read() fails, or no newline is among the first bytes that fill the buffer.
  pub data NoLine (t : List ℕ) : Type 0 where
    error_in : (s : S) (n : ℕ) (s' : S) → read s n ≡ (read_error, s') → NoLine t
    long_line :
        (l rest : List ℕ) → t ≡ l ++ rest → NoNewline l → length l ≡ lineread_buffer_size → NoLine t

  -- What lineread_get() returns where the text `t` is still to be returned: its first line, with NUL
  -- for the newline, or the last line or end of the file, or an error that keeps the text.
  pub data LineRead (t : List ℕ) : LineResult × Lineread × S → Type 0 where
    a_line :
        (p : ℕ) (l rest : List ℕ) (lr : Lineread) (s : S)
        → t ≡ l ++ 10 ∷ rest
        → NoNewline l
        → load lr.buf p (length l + 1) ≡ l ++ 0 ∷ []
        → text lr s ≡ rest
        → InBounds lr
        → LineRead t (line p (length l + 1), lr, s)
    last_line :
        (p n : ℕ) (lr : Lineread) (s : S)
        → n ≡ length t
        → NoNewline t
        → load lr.buf p (n + 1) ≡ t ++ 0 ∷ []
        → text lr s ≡ []
        → InBounds lr
        → LineRead t (line p n, lr, s)
    no_line :
        (lr : Lineread) (s : S)
        → NoLine t
        → text lr s ≡ t
        → InBounds lr
        → LineRead t (failed, lr, s)

  module _ (file : ReadsFile read content) where
    abbrev Reads : ℕ → Bool → Lineread → S → Type 0
    Reads fuel eof lr s =
        (r : LineResult × Lineread × S) × (get_from read fuel eof lr s ≡ some (done r))
        × LineRead (text lr s) r

    -- Rounds left: one for each byte of space, one that finds the end of the file, and the last.
    abbrev rounds : Bool → Lineread → ℕ
    rounds true lr = 0
    rounds false lr = lineread_buffer_size + 1 - lr.count

    peeked :
        (lr : Lineread) (eof : Bool) (o : Option ℕ)
        → InBounds lr
        → find_newline (held lr) ≡ o
        → peek_line lr eof ≡ done (peek_buffer eof lr o)
    unfolding peek_line
    peeked lr eof o h e = rw (le→leb (lr.next_line + lr.count) lineread_buffer_size h, e) refl

    -- A newline is among the bytes held.
    found-LineRead :
        (fuel : ℕ) (eof : Bool) (lr : Lineread) (s : S) (pre post : List ℕ)
        → InBounds lr
        → find_newline (held lr) ≡ some (length pre)
        → held lr ≡ pre ++ 10 ∷ post
        → NoNewline pre
        → Reads (suc fuel) eof lr s
    unfolding get_from peek_buffer
    found-LineRead fuel eof lr s pre post h e eq nn =
        let (is_line, rest, fits) = cut_line lr.buf lr.next_line lr.count pre post eq in
        (
          _,
          rw (peeked lr eof (some (length pre)) h e, get_from) refl,
          a_line lr.next_line pre (post ++ content s) _ s
              (ap (λ l. l ++ content s) eq ∙ append_assoc pre (10 ∷ post) (content s)) nn is_line
              (ap (λ l. l ++ content s) rest) (omega (arith, h, fits)),
        )

    -- The file has ended.
    end-LineRead :
        (fuel : ℕ) (lr : Lineread) (s : S)
        → InBounds lr
        → find_newline (held lr) ≡ none
        → NoNewline (held lr)
        → content s ≡ []
        → Reads (suc fuel) true lr s
    unfolding get_from peek_buffer load
    end-LineRead fuel lr s h e nn c =
        let lr' : Lineread = record lr {
          next_line = lr.next_line + lr.count;
          count = lr.count - lr.count;
          buf = update lr.buf (lr.next_line + lr.count) 0;
        } in
        let all : text lr s ≡ held lr = ap (λ x. held lr ++ x) c ∙ append-nil (held lr) in
        (
          (line lr.next_line lr.count, lr', s),
          rw (peeked lr true none h e, get_from) refl,
          last_line lr.next_line lr.count lr' s
              (sym (ap (λ l. length l) all ∙ length-load lr.buf lr.next_line lr.count))
              (subst NoNewline (sym all) nn)
              (end_line lr.buf lr.next_line lr.count ∙ ap (λ l. l ++ 0 ∷ []) (sym all))
              (ap (λ n. load lr'.buf lr'.next_line n ++ content s) {x = lr.count - lr.count} {y = 0}
                  (omega arith)
                ∙ c)
              (omega arith),
        )

    -- The same text, and the same run: what a later round reads is what this one reads.
    later_round :
        {x y : Option (Run (LineResult × Lineread × S))} {t t' : List ℕ}
        → ((r : LineResult × Lineread × S) × (y ≡ some (done r)) × LineRead t r)
        → t ≡ t'
        → x ≡ y
        → (r : LineResult × Lineread × S) × (x ≡ some (done r)) × LineRead t' r
    later_round (r, run, q) e e' = (r, e' ∙ run, subst (λ t. LineRead t r) e q)

    -- A round that reads from the file into the buffer with room.
    module _ (fuel : ℕ) (lr : Lineread) (s : S) (h : InBounds lr)
        (e : find_newline (held lr) ≡ none) (l : rounds false lr < suc fuel) (lr' : Lineread)
        (room : make_room lr ≡ some lr') (same : held lr' ≡ held lr)
        (same_count : lr'.count ≡ lr.count)
        (space : lr'.next_line + lr'.count < lineread_buffer_size)
        (ih : (eof : Bool) (lr : Lineread) (s : S)
          → InBounds lr
          → (eof ≡ true → content s ≡ [])
          → rounds eof lr < fuel
          → Reads fuel eof lr s) where
      abbrev asked : ℕ
      asked = lineread_buffer_size - lr'.next_line - lr'.count

      after_read : (r : ReadResult) (s' : S) → read s asked ≡ (r, s') → Reads (suc fuel) false lr s
      unfolding get_from peek_buffer
      after_read read_error s' re = (
        (failed, lr', s'),
        rw (peeked lr false none h e, room, re, get_from)
            (ap (λ x. some (done (failed, lr', x.1))) re),
        no_line lr' s' (error_in s asked s' re)
            (ap₂ (λ x y. x ++ y) same (file.on_error s asked s' re)) (omega arith),
      )
      after_read (bytes []) s' re =
          let ended = file.at_end s asked s' (omega arith) re in
          let rest = file.some_bytes s asked [] s' re in
          later_round (ih true lr' s' (omega arith) (λ q. sym rest ∙ ended) (omega arith))
            (ap₂ (λ x y. x ++ y) same (sym rest))
            (rw (peeked lr false none h e, room, re, get_from)
              (ap (λ x. get_from read fuel true lr' x.1) re))
      after_read (bytes (b ∷ bs)) s' re =
          let rest = file.some_bytes s asked (b ∷ bs) s' re in
          let most = file.at_most s asked (b ∷ bs) s' re in
          later_round
            (ih false (append_bytes lr' (b ∷ bs)) s' (omega (arith, most, space))
              (λ q. ground (arith, q)) (omega (arith, most, space, l, same_count)))
            (ap (λ x. x ++ content s') (held-append_bytes lr' (b ∷ bs))
              ∙ append_assoc (held lr') (b ∷ bs) (content s')
              ∙ ap₂ (λ x y. x ++ y) same (sym rest))
            (rw (peeked lr false none h e, room, re, get_from)
              (ap (λ x. get_from read fuel false (append_bytes lr' (b ∷ bs)) x.1) re))

    -- A round, by what it finds in the buffer.
    module _ (fuel : ℕ)
        (ih : (eof : Bool) (lr : Lineread) (s : S)
          → InBounds lr
          → (eof ≡ true → content s ≡ [])
          → rounds eof lr < fuel
          → Reads fuel eof lr s) where
      after-Room :
          (lr : Lineread) (s : S) (o : Option Lineread)
          → InBounds lr
          → find_newline (held lr) ≡ none
          → NoNewline (held lr)
          → rounds false lr < suc fuel
          → make_room lr ≡ o
          → Room lr o
          → Reads (suc fuel) false lr s
      unfolding get_from peek_buffer
      after-Room lr s _ h e nn l room (too_long z full) = (
        (failed, lr, s),
        rw (peeked lr false none h e, room, get_from) refl,
        no_line lr s
            (long_line (held lr) (content s) refl nn
              (length-load lr.buf lr.next_line lr.count ∙ full))
            refl h,
      )
      after-Room lr s _ h e nn l room (has_room lr' same same_count space) =
          let (r, s') = read s (asked fuel lr s h e l lr' room same same_count space ih) in
          after_read fuel lr s h e l lr' room same same_count space ih r s' refl

      after_find :
          (eof : Bool) (lr : Lineread) (s : S) (o : Option ℕ)
          → InBounds lr
          → (eof ≡ true → content s ≡ [])
          → rounds eof lr < suc fuel
          → find_newline (held lr) ≡ o
          → Newline (held lr) o
          → Reads (suc fuel) eof lr s
      after_find eof lr s _ h c l e (found pre post eq nn) =
          found-LineRead fuel eof lr s pre post h e eq nn
      after_find true lr s _ h c l e (at_end nn) = end-LineRead fuel lr s h e nn (c refl)
      after_find false lr s _ h c l e (at_end nn) =
          after-Room lr s (make_room lr) h e nn l refl (make_room-Room lr h)

    get_from-LineRead :
        (fuel : ℕ) (eof : Bool) (lr : Lineread) (s : S)
        → InBounds lr
        → (eof ≡ true → content s ≡ [])
        → rounds eof lr < fuel
        → Reads fuel eof lr s
    get_from-LineRead zero eof lr s h c l = absurd (omega arith)
    get_from-LineRead (suc fuel) eof lr s h c l =
        after_find fuel (get_from-LineRead fuel) eof lr s (find_newline (held lr)) h c l refl
          (find_newline-Newline (held lr))

    -- Of a file that read() returns in parts, and a buffer whose bytes are in bounds, lineread_get()
    -- ends, passes its assertion and keeps the bounds. It returns the first line of the text that is
    -- still to be returned, with NUL for its newline, and leaves the text behind it; or, if no newline
    -- is left, all of that text with a NUL, and none is left; or an error, if read() fails or a line
    -- fills the buffer, and the text stays.
    pub lineread_get-LineRead :
        (lr : Lineread) (s : S)
        → InBounds lr
        → (r : LineResult × Lineread × S) × (lineread_get read lr s ≡ some (done r))
          × LineRead (text lr s) r
    unfolding lineread_get
    lineread_get-LineRead lr s h =
        get_from-LineRead (lineread_buffer_size + 2) false lr s h (λ q. ground (arith, q))
          (omega arith)
