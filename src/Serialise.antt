-- ===== src/Serialise.antt =====
-- serialise.c, serialise.h: whole buffers and integers over file descriptors. The file is a parameter, what
-- read() and write() do to its state and return.
pub mod Read
pub mod Write
pub mod Roundtrip
mod Tests
use passt.Base.{
  ℕ, zero, suc, ◌+◌, ◌*◌, ◌/◌, ◌%◌, ◌^◌, Bool, true, false, Option, none, some, List, [], ◌∷◌, ◌++◌,
  length, drop, leb, if◌then◌else◌, sub_size, Run, done, aborted,
}

-- What read() returns: EINTR, another error, or the bytes read, none at the end of the file.
pub data ReadCall : Type 0 where
  read_interrupted : ReadCall
  read_error : ReadCall
  bytes : List ℕ → ReadCall

-- What write() returns: EINTR, another error, or the count of bytes written.
pub data WriteCall : Type 0 where
  write_interrupted : WriteCall
  write_error : WriteCall
  wrote : ℕ → WriteCall

module _ {S : Type 0} (read : S → ℕ → ReadCall × S) where
  -- The loops of read_all_buf(), with the bytes in the buffer so far: `none` is out of fuel.
  unfoldable pub read_from : ℕ → ℕ → ℕ → List ℕ → S → Option (Run (Bool × List ℕ × S))
  read_from zero len left buf s = none
  read_from (suc fuel) len zero buf s = some (done (true, buf, s))
  read_from (suc fuel) len (suc l) buf s =
      let (r, s') = read s (suc l) in
      elim (leb (suc l) len) [
        | false ↦ some aborted
        | true ↦ elim r [
          | read_interrupted ↦ read_from fuel len (suc l) buf s'
          | read_error ↦ some (done (false, buf, s'))
          | bytes [] ↦ some (done (false, buf, s'))
          | bytes (b ∷ bs) ↦
              read_from fuel len (sub_size (suc l) (length (b ∷ bs))) (buf ++ b ∷ bs) s'
        ]
      ]

  -- read_all_buf(): whether it succeeds, with what is in the buffer
  unfoldable pub read_all_buf : ℕ → ℕ → S → Option (Run (Bool × List ℕ × S))
  read_all_buf fuel len s = read_from fuel len len [] s

module _ {S : Type 0} (write : S → List ℕ → WriteCall × S) where
  -- write_all_buf(), for the bytes that are left: whether it succeeds
  unfoldable pub write_all_buf : ℕ → List ℕ → S → Option (Bool × S)
  write_all_buf zero bs s = none
  write_all_buf (suc fuel) [] s = some (true, s)
  write_all_buf (suc fuel) (b ∷ bs) s =
      let (r, s') = write s (b ∷ bs) in
      elim r [
        | write_interrupted ↦ write_all_buf fuel (b ∷ bs) s'
        | write_error ↦ some (false, s')
        | wrote n ↦ write_all_buf fuel (drop n (b ∷ bs)) s'
      ]

-- htobe32() and be32toh() of a little-endian host
abbrev pub htobe32 : ℕ → ℕ
htobe32 x =
    x % 2 ^ 8 * 2 ^ 24
    + x / 2 ^ 8 % 2 ^ 8 * 2 ^ 16
    + x / 2 ^ 16 % 2 ^ 8 * 2 ^ 8
    + x / 2 ^ 24 % 2 ^ 8

-- The bytes of a `uint32_t` in memory, and the value of such bytes
abbrev pub u32_bytes : ℕ → List ℕ
u32_bytes x = x % 2 ^ 8 ∷ x / 2 ^ 8 % 2 ^ 8 ∷ x / 2 ^ 16 % 2 ^ 8 ∷ x / 2 ^ 24 % 2 ^ 8 ∷ []

unfoldable pub bytes_u32 : List ℕ → ℕ
bytes_u32 [] = 0
bytes_u32 (b ∷ bs) = b + 2 ^ 8 * bytes_u32 bs

-- write_u32()
unfoldable pub write_u32 :
    {S : Type 0} → (S → List ℕ → WriteCall × S) → ℕ → ℕ → S → Option (Bool × S)
write_u32 write fuel val s = write_all_buf write fuel (u32_bytes (htobe32 val)) s

-- The end of read_u32(): the value, or `none` for -1
abbrev pub u32_value : Bool → List ℕ → Option ℕ
u32_value true buf = some (htobe32 (bytes_u32 buf))
u32_value false buf = none

-- read_u32()
unfoldable pub read_u32 :
    {S : Type 0} → (S → ℕ → ReadCall × S) → ℕ → S → Option (Run (Option ℕ × S))
read_u32 read fuel s = elim (read_all_buf read fuel 4 s) [
  | none ↦ none
  | some aborted ↦ some aborted
  | some (done (ok, buf, s')) ↦ some (done (u32_value ok buf, s'))
]

-- write_u8() and read_u8(), of bytes that are as they are in any order
unfoldable pub write_u8 :
    {S : Type 0} → (S → List ℕ → WriteCall × S) → ℕ → ℕ → S → Option (Bool × S)
write_u8 write fuel val s = write_all_buf write fuel (val % 2 ^ 8 ∷ []) s

abbrev u8_value : Bool → List ℕ → Option ℕ
u8_value true buf = some (bytes_u32 buf)
u8_value false buf = none

unfoldable pub read_u8 : {S : Type 0} → (S → ℕ → ReadCall × S) → ℕ → S → Option (Run (Option ℕ × S))
unfolding bytes_u32
read_u8 read fuel s = elim (read_all_buf read fuel 1 s) [
  | none ↦ none
  | some aborted ↦ some aborted
  | some (done (ok, buf, s')) ↦ some (done (u8_value ok buf, s'))
]
