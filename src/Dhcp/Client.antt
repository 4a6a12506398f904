-- ===== src/Dhcp/Client.antt =====
-- dhcp(): the loop over the options of the client's message, and the type of the reply.
use passt.Base.{
  ℕ, zero, suc, ◌+◌, Bool, true, false, Option, none, some, List, [], ◌∷◌, length, take, drop, ltb,
  ◌==◌, update, sub_size, Run, done, aborted,
}
use passt.Iov.{IovTail, Memory, store, iov_to_buf, iov_tail_size, iov_drop_header}
use passt.Iov.Header.{iov_remove_header}
use passt.Dhcp.{Opt}

-- The option `type` as the client sends it: `bs` are the `olen` bytes that are copied.
abbrev pub set_client : (ℕ → Opt) → ℕ → ℕ → List ℕ → ℕ → Opt
set_client opts type olen bs =
    update opts type (record (opts type) { clen = some olen; c = store (opts type).c 0 bs })

-- `clen = -1` for all options
unfoldable pub clear_clen : (ℕ → Opt) → ℕ → Opt
clear_clen opts o = record (opts o) { clen = none }

-- What the loop gives: `none` is out of fuel; else the -1 that ends dhcp(), as `none`, or the options.
abbrev pub Parse : Type 0
Parse = Option (Run (Option (ℕ → Opt)))

-- `type_storage` and `olen_storage` are the addresses of the variables for copies.
module _ (constant_p : Bool) (type_storage olen_storage : ℕ) where
  -- The loop of dhcp() over the options.
  unfoldable pub parse_from : ℕ → Memory → IovTail → (ℕ → Opt) → Parse
  parse_from zero m data' opts = none
  parse_from (suc fuel) m data' opts =
      let (opt_len, t) = iov_tail_size data' in
      elim (opt_len == 0) [
        | true ↦ some (done (some opts))
        | false ↦ elim (iov_remove_header constant_p m t type_storage 1 1) [
          | aborted ↦ some aborted
          | done (none, m1, t1) ↦ some (done none)
          | done (some type, m1, t1) ↦ elim (m1 type == 255) [
            | true ↦ some (done (some opts))
            | false ↦ elim (m1 type == 0) [
              | true ↦ parse_from fuel m1 t1 opts
              | false ↦ elim (iov_remove_header constant_p m1 t1 olen_storage 1 1) [
                | aborted ↦ some aborted
                | done (none, m2, t2) ↦ some (done none)
                | done (some olen, m2, t2) ↦ elim (ltb (sub_size opt_len 2) (m2 olen)) [
                  | true ↦ some (done none)
                  | false ↦ elim (iov_to_buf constant_p m2 t2.iov t2.off (m2 olen)) [
                    | aborted ↦ some aborted
                    | done bs ↦
                        parse_from fuel m2 (iov_drop_header t2 (m2 olen)).1
                          (set_client opts (m2 type) (m2 olen) bs)
                  ]
                ]
              ]
            ]
          ]
        ]
      ]

  -- The part of dhcp() that reads the client's options: each round removes a byte or more.
  unfoldable pub parse_options : Memory → IovTail → (ℕ → Opt) → Parse
  parse_options m data' opts = parse_from ((iov_tail_size data').0 + 1) m data' (clear_clen opts)

-- What a parser of bytes gives: `none` is out of fuel; else options, or `none` if the bytes are cut off.
abbrev pub Parsed : Type 0
Parsed = Option (Option (ℕ → Opt))

-- The option `t` and those behind it, from its length byte on.
unfoldable pub parse_option : (List ℕ → (ℕ → Opt) → Parsed) → ℕ → (ℕ → Opt) → List ℕ → Parsed
parse_option rest t opts [] = some none
parse_option rest t opts (n ∷ bs) = elim (ltb (length bs) n) [
  | true ↦ some none
  | false ↦ rest (drop n bs) (set_client opts t n (take n bs))
]

-- The options of a message, by its bytes: type, length, payload; 255 ends them, 0 is a pad byte.
unfoldable pub parse_bytes : ℕ → List ℕ → (ℕ → Opt) → Parsed
parse_bytes zero bs opts = none
parse_bytes (suc fuel) [] opts = some (some opts)
parse_bytes (suc fuel) (t ∷ bs) opts = elim (t == 255) [
  | true ↦ some (some opts)
  | false ↦ elim (t == 0) [
    | true ↦ parse_bytes fuel bs opts
    | false ↦ parse_option (parse_bytes fuel) t opts bs
  ]
]
