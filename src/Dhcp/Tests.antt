-- ===== src/Dhcp/Tests.antt =====
-- A reply to a client that asks for option 3, and for one that is not served.
use mathlib.Core.Path.{ap₂}
use mathlib.Core.List.{append-nil}
use passt.Base.{
  ℕ, zero, suc, ◌+◌, ◌-◌, ◌^◌, ◌<◌, ◌≡◌, refl, sym, ap, ◌∙◌, arith, map, length, length-append,
  ◌++◌, done, true, false, Option, none, some, [], ◌∷◌, ◌==◌, if◌then◌else◌, update,
}
use passt.Iov.{Memory, IovTail, load, store}
use passt.Iov.Bytes.{range, length-range}
use passt.Iov.Copy.{load-range}
use passt.Iov.Header.Byte.{IsWhole}
use passt.Dhcp.{
  Opt, dhcp_init, fill, fill_one, fill_if, fill_first, fill_requested, fill_rest, clear_sent,
  end_fill, requested, has, is_served,
}
use passt.Dhcp.Fill.{dhcp_init-IsServable}
use passt.Dhcp.Replied.{Replied, fill-Replied, type_first}
use passt.Dhcp.Client.{parse_options, parse_bytes, clear_clen}
use passt.Dhcp.Parse.{bytes_of, parse_options_lem}
use passt.Dhcp.Roundtrip.{IsReceived, fill-parse_options}

abbrev client : ℕ → Opt
client o = record {
  sent = false;
  slen = none;
  s = λ i. 0;
  clen = if o == 55 then some 2 else none;
  c = λ i. if i == 0 then 3 else 99;
}

abbrev opts : ℕ → Opt
opts = dhcp_init client

type_served : is_served (opts 53) ≡ true
unfolding dhcp_init
type_served = refl

abbrev field : Memory
field = λ i. 7

fill_run :
    load (fill field opts).o 0 24
    ≡ 53 ∷ 1 ∷ 0 ∷ 3 ∷ 4 ∷ 0 ∷ 0 ∷ 0 ∷ 0 ∷ 1 ∷ 4 ∷ 0 ∷ 0 ∷ 0 ∷ 0 ∷ 51 ∷ 4 ∷ 255 ∷ 255 ∷ 255 ∷ 255
      ∷ 54 ∷ 4 ∷ 0 ∷ []
unfolding fill fill_one fill_if fill_first fill_requested fill_rest clear_sent end_fill requested
    dhcp_init load store update
fill_run = refl

fill-Replied_example : Replied field opts (requested opts) (fill field opts)
fill-Replied_example = fill-Replied field opts (dhcp_init-IsServable client) type_served

-- A message in one buffer at address 1, with the bytes of `o`
abbrev at_one : Memory → Memory
at_one o a = o (a - 1)

load-at_one : (o : Memory) (k n : ℕ) → load (at_one o) (k + 1) n ≡ load o k n
unfolding load
load-at_one o k zero = refl
load-at_one o k (suc n) =
    ap₂ (λ x l. x ∷ l) (ap o {x = k + 1 - 1} {y = k} (omega arith)) (load-at_one o (k + 1) n)

abbrev message : ℕ → IovTail
message n = record { iov = record { iov_base = 1; iov_len = n } ∷ []; off = 0 }

message-IsWhole : (n : ℕ) → n < 2 ^ 64 → IsWhole (message n)
message-IsWhole n l =
    let size : length (range 1 n ++ []) ≡ n =
      omega (arith, length-append (range 1 n) [], length-range 1 n) in
    record {
      no_null = (λ e. omega arith, tt);
      inside = omega arith;
      small = omega (arith, size, l);
    }

bytes_of-message : (o : Memory) (n : ℕ) → bytes_of (at_one o) (message n) ≡ load o 0 n
bytes_of-message o n =
    ap (map (at_one o)) (append-nil (range 1 n))
    ∙ sym (load-range (at_one o) 1 n)
    ∙ load-at_one o 0 n

-- The end option alone
parse_options_lem_example :
    (r : Option (ℕ → Opt)) × (parse_options false 900 901 (λ a. 255) (message 1) client
      ≡ some (done r))
    × (parse_bytes 2 (255 ∷ []) (clear_clen client) ≡ some r)
parse_options_lem_example =
    parse_options_lem false 900 901 (λ a. 255) (message 1) client (message-IsWhole 1 (omega arith))

fill-parse_options_example :
    let served = fill-Replied field opts (dhcp_init-IsServable client) type_served in
    let codes = (type_first (requested opts) ++ served.answers) ++ served.rest in
    (got : ℕ → Opt) × (parse_options false 900 901
        (at_one (fill field opts).o)
        (message (fill field opts).offset)
        client
      ≡ some (done (some got)))
    × ((c : ℕ) → has c codes ≡ true → IsReceived (opts c) (got c))
    × ((c : ℕ) → has c codes ≡ false → got c ≡ clear_clen client c)
fill-parse_options_example =
    fill-parse_options false 900 901 (at_one (fill field opts).o) field
      (message (fill field opts).offset) opts client (dhcp_init-IsServable client) type_served
      (message-IsWhole (fill field opts).offset
        (omega (arith, (fill-Replied field opts (dhcp_init-IsServable client) type_served).most)))
      (bytes_of-message (fill field opts).o (fill field opts).offset)
