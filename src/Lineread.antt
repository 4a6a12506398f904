-- ===== src/Lineread.antt =====
-- lineread.c, lineread.h: reading a file line by line into a fixed buffer. The file is a parameter,
-- what read() does to its state and returns.
pub mod Find
pub mod Get
mod Tests
use passt.Base.{
  ℕ, zero, suc, ◌+◌, ◌-◌, ◌≡◌, ◌≤◌, Bool, true, false, Option, none, some, List, [], ◌∷◌, ◌++◌,
  length, leb, ◌==◌, if◌then◌else◌, update, Run, done, aborted,
}
use passt.Iov.{Memory, load, store}

-- LINEREAD_BUFFER_SIZE
abbrev pub lineread_buffer_size : ℕ
lineread_buffer_size = 8192

-- `struct lineread`, but for the file
pub record Lineread : Type 0 where
  pub next_line : ℕ
  pub count : ℕ
  pub buf : Memory

-- What read() returns: -1, or the bytes read, where no bytes are the end of the file.
pub data ReadResult : Type 0 where
  read_error : ReadResult
  bytes : List ℕ → ReadResult

-- What lineread_get() returns: a negative number, or a pointer into the buffer and a length.
pub data LineResult : Type 0 where
  failed : LineResult
  line : ℕ → ℕ → LineResult

-- lineread_init()
unfoldable pub lineread_init : Lineread → Lineread
lineread_init lr = record lr { next_line = 0; count = 0 }

-- memchr() for a newline: its index
unfoldable pub find_newline : List ℕ → Option ℕ
find_newline [] = none
find_newline (b ∷ bs) =
    if b == 10 then some 0 else elim (find_newline bs) [ none ↦ none | some i ↦ some (i + 1) ]

-- The length of the line that peek_line() finds, `none` for -1, with the NUL that ends the line.
unfoldable pub peek_buffer : Bool → Lineread → Option ℕ → Option ℕ × Lineread
peek_buffer eof lr (some i) = (some (i + 1), record lr { buf = update lr.buf (lr.next_line + i) 0 })
peek_buffer true lr none =
    (some lr.count, record lr { buf = update lr.buf (lr.next_line + lr.count) 0 })
peek_buffer false lr none = (none, lr)

-- peek_line()
unfoldable pub peek_line : Lineread → Bool → Run (Option ℕ × Lineread)
peek_line lr eof =
    if leb (lr.next_line + lr.count) lineread_buffer_size
    then done (peek_buffer eof lr (find_newline (load lr.buf lr.next_line lr.count)))
    else aborted

-- Space at the end of the buffer: `none` for a line that is too long.
unfoldable pub make_room : Lineread → Option Lineread
make_room lr =
    if lr.next_line + lr.count == lineread_buffer_size
    then (if lr.next_line == 0
        then none
        else some
            (record lr { next_line = 0; buf = store lr.buf 0 (load lr.buf lr.next_line lr.count) }))
    else some lr

-- The bytes read, at the end of the buffer.
abbrev pub append_bytes : Lineread → List ℕ → Lineread
append_bytes lr bs = record lr {
  count = lr.count + length bs;
  buf = store lr.buf (lr.next_line + lr.count) bs;
}

module _ {S : Type 0} (read : S → ℕ → ReadResult × S) where
  -- The loop of lineread_get(), up to its end; `none` is out of fuel.
  unfoldable pub get_from : ℕ → Bool → Lineread → S → Option (Run (LineResult × Lineread × S))
  get_from zero eof lr s = none
  get_from (suc fuel) eof lr s = elim (peek_line lr eof) [
    | aborted ↦ some aborted
    | done (some len, lr) ↦ some (
        done (
          line lr.next_line len,
          record lr { next_line = lr.next_line + len; count = lr.count - len },
          s,
        ))
    | done (none, lr) ↦ elim (make_room lr) [
      | none ↦ some (done (failed, lr, s))
      | some lr' ↦
          let (r, s') = read s (lineread_buffer_size - lr'.next_line - lr'.count) in
          elim r [
            | read_error ↦ some (done (failed, lr', s'))
            | bytes [] ↦ get_from fuel true lr' s'
            | bytes (b ∷ bs) ↦ get_from fuel eof (append_bytes lr' (b ∷ bs)) s'
          ]
    ]
  ]

  -- lineread_get(): each round but the last two reads a byte or more
  unfoldable pub lineread_get : Lineread → S → Option (Run (LineResult × Lineread × S))
  lineread_get lr s = get_from (lineread_buffer_size + 2) false lr s
