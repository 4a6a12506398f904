-- ===== src/Dhcp.antt =====
-- dhcp.c: the options of the DHCP server, in the reply and in the client's message.
pub mod Fill
pub mod Loops
pub mod Replied
pub mod Client
pub mod Parse
pub mod Roundtrip
mod Tests
use passt.Base.{
  ℕ, zero, suc, ◌+◌, ◌-◌, ◌%◌, ◌^◌, ◌≡◌, Bool, true, false, not, ◌&&◌, ◌||◌, Option, none, some,
  List, [], ◌∷◌, length, replicate, ltb, ◌==◌, if◌then◌else◌, update, add_size,
}
use passt.Iov.{Memory, load, store}

-- `struct opt`: a length is `none` for -1
pub record Opt : Type 0 where
  pub sent : Bool
  pub slen : Option ℕ
  pub s : ℕ → ℕ
  pub clen : Option ℕ
  pub c : ℕ → ℕ

-- OPT_MIN and OPT_MAX
abbrev pub opt_min : ℕ
opt_min = 60

abbrev pub opt_max : ℕ
opt_max = 307

-- An option that dhcp_init() sets: its length and payload
abbrev init_opt : ℕ → ℕ → Opt
init_opt slen b = record { sent = false; slen = some slen; s = λ i. b; clen = some 0; c = λ i. 0 }

-- dhcp_init()
unfoldable pub dhcp_init : (ℕ → Opt) → ℕ → Opt
dhcp_init opts o =
    if o == 1 || o == 3 || o == 54
    then init_opt 4 0
    else if o == 51
    then init_opt 4 255
    else if o == 53
    then init_opt 1 0
    else record (opts o) { slen = none }

-- What fill() and fill_one() write: the options of the message, the offset in them, and the flags.
pub record Reply : Type 0 where
  pub o : Memory
  pub offset : ℕ
  pub opts : ℕ → Opt

-- The length as a `size_t`
abbrev pub slen_size : Option ℕ → ℕ
slen_size none = 2 ^ 64 - 1
slen_size (some n) = n

-- The bytes that fill_one() writes for the option `o`
abbrev pub opt_bytes : ℕ → Opt → List ℕ
opt_bytes o opt = o % 2 ^ 8 ∷ slen_size opt.slen % 2 ^ 8 ∷ load opt.s 0 (slen_size opt.slen)

-- fill_one(): true if there is no space
unfoldable pub fill_one : ℕ → Reply → Bool × Reply
fill_one o m =
    let slen = slen_size (m.opts o).slen in
    if ltb opt_max (add_size (m.offset + 2) slen) then (true, m) else (
      false,
      record {
        o = store m.o m.offset (opt_bytes o (m.opts o));
        offset = m.offset + 2 + slen;
        opts = update m.opts o (record (m.opts o) { sent = true });
      },
    )

-- fill_one() under a condition
unfoldable pub fill_if : Bool → ℕ → Reply → Reply
fill_if false o m = m
fill_if true o m = (fill_one o m).1

-- `opts[o].slen != -1`
abbrev pub is_served : Opt → Bool
is_served opt = elim opt.slen [ none ↦ false | some n ↦ true ]

-- memchr(), for a byte in what is searched
abbrev pub has : ℕ → List ℕ → Bool
has x [] = false
has x (y ∷ ys) = x == y || has x ys

-- The option codes that the client asks for in option 55
unfoldable pub requested : (ℕ → Opt) → List ℕ
requested opts = elim (opts 55).clen [ none ↦ [] | some n ↦ load (opts 55).c 0 n ]

-- The options that the client asks for, in its order
unfoldable pub fill_requested : List ℕ → Reply → Reply
fill_requested [] m = m
fill_requested (o ∷ os) m = fill_requested os (fill_if (is_served (m.opts o)) o m)

-- The options from `o` on that have not been sent, `n` of them
unfoldable pub fill_rest : ℕ → ℕ → Reply → Reply
fill_rest zero o m = m
fill_rest (suc n) o m =
    fill_rest n (o + 1) (fill_if (is_served (m.opts o) && not (m.opts o).sent) o m)

-- The start of fill(): no option has been sent.
unfoldable pub clear_sent : Memory → (ℕ → Opt) → Reply
clear_sent o opts = record {
  o = o;
  offset = 0;
  opts = λ i. if ltb i 255 then record (opts i) { sent = false } else opts i;
}

-- Option 53 comes first, for a client that asks for options, but not for this one.
unfoldable pub fill_first : List ℕ → Reply → Reply
fill_first asked m = fill_if (not (length asked == 0) && not (has 53 asked)) 53 m

-- The end option, and zeros up to OPT_MIN
unfoldable pub end_fill : Reply → Reply
end_fill m =
    let o = update m.o m.offset 255 in
    let offset = m.offset + 1 in
    if ltb offset opt_min
    then record m { o = store o offset (replicate (opt_min - offset) 0); offset = opt_min }
    else record m { o = o; offset = offset }

-- fill()
unfoldable pub fill : Memory → (ℕ → Opt) → Reply
fill o opts =
    let asked = requested opts in
    end_fill (fill_rest 255 0 (fill_requested asked (fill_first asked (clear_sent o opts))))
