-- ===== src/Dhcp/Parse.antt =====
-- dhcp() reads the options of a message as its bytes say.
use passt.Base.{
  ℕ, zero, suc, ◌+◌, ◌%◌, ◌^◌, ◌≤◌, ◌<◌, ◌≡◌, inl, inr, refl, sym, ap, ◌∙◌, arith, Bool, true,
  false, Option, none, some, List, [], ◌∷◌, map, length, length-drop, length-map, take, drop, ltb,
  ◌==◌, sub_size, done, Bool-cases,
}
use passt.Iov.{IovTail, Memory, iov_to_buf, iov_tail_size, iov_drop_header, iov_tail_prune}
use passt.Iov.Bytes.{addrs, tail_addrs}
use passt.Iov.Tail.{iov_tail_size_lem, iov_tail_prune_lem, iov_drop_header_lem}
use passt.Iov.Copy.{iov_to_buf_lem}
use passt.Iov.Header.{iov_remove_header}
use passt.Iov.Header.Byte.{IsWhole, ByteRemoved, byte, no_byte, remove-ByteRemoved, IsWhole-prune}
use passt.Dhcp.{Opt}
use passt.Dhcp.Client.{
  set_client, clear_clen, Parse, parse_from, parse_options, parse_option, parse_bytes,
}

-- A run that aborts nowhere
abbrev pub as_run : Option (Option (ℕ → Opt)) → Parse
as_run none = none
as_run (some r) = some (done r)

abbrev pub bytes_of : Memory → IovTail → List ℕ
bytes_of m t = map m (tail_addrs t)

map-take : (m : Memory) (n : ℕ) (l : List ℕ) → map m (take n l) ≡ take n (map m l)
map-take m zero l = refl
map-take m (suc n) [] = refl
map-take m (suc n) (x ∷ l) = ap (λ y. m x ∷ y) (map-take m n l)

map-drop : (m : Memory) (n : ℕ) (l : List ℕ) → map m (drop n l) ≡ drop n (map m l)
map-drop m zero l = refl
map-drop m (suc n) [] = refl
map-drop m (suc n) (x ∷ l) = map-drop m n l

IsWhole-drop :
    (t : IovTail) (n : ℕ)
    → IsWhole t
    → t.off + n ≤ length (addrs t.iov)
    → IsWhole (iov_drop_header t n).1
unfolding iov_drop_header
IsWhole-drop t n w h =
    let wrap : (t.off + n) % 2 ^ 64 ≡ t.off + n = omega (arith, h, w.small) in
    IsWhole-prune _
      (record { no_null = w.no_null; inside = omega (arith, wrap, h); small = w.small })

module _ (constant_p : Bool) (type_storage olen_storage : ℕ) where
  abbrev Follows : ℕ → Type 0
  Follows fuel =
      (m : Memory) (t : IovTail) (opts : ℕ → Opt)
      → IsWhole t
      → parse_from constant_p type_storage olen_storage fuel m t opts
        ≡ as_run (parse_bytes fuel (bytes_of m t) opts)

  -- A round, from the bytes of the tail, and what its first two bytes are.
  module _ (fuel : ℕ) (ih : Follows fuel) (m : Memory) (t : IovTail) (opts : ℕ → Opt)
      (w : IsWhole t) where
    abbrev Round : Type 0
    Round =
        parse_from constant_p type_storage olen_storage (suc fuel) m t opts
        ≡ as_run (parse_bytes (suc fuel) (bytes_of m t) opts)

    size : (iov_tail_size t).0 ≡ length (tail_addrs t)
    size = iov_tail_size_lem t w.inside w.small

    no_bytes : tail_addrs t ≡ [] → Round
    unfolding parse_from parse_bytes
    no_bytes e =
        let zero_size : ((iov_tail_size t).0 == 0) ≡ true =
          ground (arith, size, ap (λ l. length l) e) in
        rw (parse_from, zero_size, e) refl

    -- With bytes left, the first of them is `a`, at `p`, and `t1` is the tail behind it.
    module _ (p : ℕ) (t1 : IovTail) (e : tail_addrs t ≡ p ∷ tail_addrs t1) (w1 : IsWhole t1)
        (run : iov_remove_header constant_p m (iov_tail_prune t).1 type_storage 1 1
          ≡ done (some p, m, t1)) where
      some_size : ((iov_tail_size t).0 == 0) ≡ false
      some_size = ground (arith, size, ap (λ l. length l) e)

      end_option : (m p == 255) ≡ true → Round
      unfolding parse_from parse_bytes iov_tail_size
      end_option q = rw (parse_from, some_size, run, q, e, parse_bytes, q) refl

      pad : (m p == 255) ≡ false → (m p == 0) ≡ true → Round
      unfolding parse_from parse_bytes iov_tail_size
      pad q z = rw (parse_from, some_size, run, q, z, e, parse_bytes, q, z) (ih m t1 opts w1)

      no_length :
          (t2 : IovTail)
          → (m p == 255) ≡ false
          → (m p == 0) ≡ false
          → iov_remove_header constant_p m t1 olen_storage 1 1 ≡ done (none, m, t2)
          → tail_addrs t1 ≡ []
          → Round
      unfolding parse_from parse_bytes parse_option iov_tail_size
      no_length t2 q z run1 e1 =
          rw (parse_from, some_size, run, q, z, run1, e, parse_bytes, q, z, e1) refl

      -- An option, with its length at `o` and its payload behind.
      module _ (o : ℕ) (t2 : IovTail) (q : (m p == 255) ≡ false) (z : (m p == 0) ≡ false)
          (run1 : iov_remove_header constant_p m t1 olen_storage 1 1 ≡ done (some o, m, t2))
          (e1 : tail_addrs t1 ≡ o ∷ tail_addrs t2) (w2 : IsWhole t2) where
        left : sub_size (iov_tail_size t).0 2 ≡ length (bytes_of m t2)
        left = omega (
          arith,
          size,
          ap (λ l. length l) e,
          ap (λ l. length l) e1,
          length-map m (tail_addrs t2),
          w.small,
          length-drop t.off (addrs t.iov),
        )

        cut_off : ltb (length (bytes_of m t2)) (m o) ≡ true → Round
        unfolding parse_from parse_bytes parse_option iov_tail_size
        cut_off c =
            rw
              (
                parse_from, some_size, run, q, z, run1, left, c, e, parse_bytes, q, z, e1,
                parse_option, c,
              )
              refl

        option : ltb (length (bytes_of m t2)) (m o) ≡ false → Round
        unfolding parse_from parse_bytes parse_option iov_tail_size
        option c =
            let copy : iov_to_buf constant_p m t2.iov t2.off (m o)
                ≡ done (take (m o) (bytes_of m t2)) =
              iov_to_buf_lem constant_p m t2.iov t2.off (m o) w2.no_null
              ∙ ap done (map-take m (m o) (tail_addrs t2)) in
            let enough : m o ≤ length (bytes_of m t2) = ground (arith, c) in
            let no_wrap : t2.off + m o ≤ length (addrs t2.iov) = omega (
              arith,
              enough,
              length-map m (tail_addrs t2),
              length-drop t2.off (addrs t2.iov),
              w2.inside,
            ) in
            let t3 = (iov_drop_header t2 (m o)).1 in
            let rest : tail_addrs t3 ≡ drop (m o) (tail_addrs t2) =
              (iov_drop_header_lem t2 (m o) (omega (arith, no_wrap, w2.small))).0 in
            let w3 = IsWhole-drop t2 (m o) w2 no_wrap in
            rw
              (
                parse_from, some_size, run, q, z, run1, left, c, copy, e, parse_bytes, q, z, e1,
                parse_option, c,
              )
              (ih m t3 (set_client opts (m p) (m o) (take (m o) (bytes_of m t2))) w3
                ∙ ap
                    (λ l. as_run (
                      parse_bytes fuel l
                        (set_client opts (m p) (m o) (take (m o) (bytes_of m t2)))))
                    (ap (map m) rest ∙ map-drop m (m o) (tail_addrs t2)))

        payload : Round
        payload = elim (Bool-cases (ltb (length (bytes_of m t2)) (m o))) [
          | inl c ↦ cut_off c
          | inr c ↦ option c
        ]

      after_length :
          (r : Option ℕ × Memory × IovTail)
          → (m p == 255) ≡ false
          → (m p == 0) ≡ false
          → iov_remove_header constant_p m t1 olen_storage 1 1 ≡ done r
          → ByteRemoved m t1 r
          → Round
      after_length _ q z run1 (no_byte t2 e1) = no_length t2 q z run1 e1
      after_length _ q z run1 (byte o t2 e1 w2) = payload o t2 q z run1 e1 w2

      after_type : Round
      after_type = elim (Bool-cases (m p == 255)) [
        | inl q ↦ end_option q
        | inr q ↦ elim (Bool-cases (m p == 0)) [
          | inl z ↦ pad q z
          | inr z ↦
              let (r, run1, h) = remove-ByteRemoved constant_p m olen_storage t1 w1 in
              after_length r q z run1 h
        ]
      ]

    pruned : tail_addrs (iov_tail_prune t).1 ≡ tail_addrs t
    pruned = (iov_tail_prune_lem t).0

    after_size :
        (r : Option ℕ × Memory × IovTail)
        → iov_remove_header constant_p m (iov_tail_prune t).1 type_storage 1 1 ≡ done r
        → ByteRemoved m (iov_tail_prune t).1 r
        → Round
    after_size _ run (no_byte t1 e) = no_bytes (sym pruned ∙ e)
    after_size _ run (byte p t1 e w1) = after_type p t1 (sym pruned ∙ e) w1 run

  follows : (fuel : ℕ) → Follows fuel
  unfolding parse_from parse_bytes
  follows zero m t opts w = refl
  follows (suc fuel) m t opts w =
      let (r, run, h) =
        remove-ByteRemoved constant_p m type_storage (iov_tail_prune t).1 (IsWhole-prune t w) in
      after_size fuel (follows fuel) m t opts w r run h

parse_option-ends :
    (fuel t : ℕ) (opts : ℕ → Opt)
    → ((bs : List ℕ) (opts : ℕ → Opt)
        → length bs < fuel
        → (r : Option (ℕ → Opt)) × (parse_bytes fuel bs opts ≡ some r))
    → (bs : List ℕ) → length bs < fuel
    → (r : Option (ℕ → Opt)) × (parse_option (parse_bytes fuel) t opts bs ≡ some r)
unfolding parse_option
parse_option-ends fuel t opts ih [] l = (none, refl)
parse_option-ends fuel t opts ih (n ∷ bs) l = elim (Bool-cases (ltb (length bs) n)) [
  | inl c ↦ rw (parse_option, c) (none, refl)
  | inr c ↦ rw (parse_option, c) (ih (drop n bs) _ (omega (arith, length-drop n bs)))
]

-- Each round consumes a byte or more.
parse_bytes-ends :
    (fuel : ℕ) (bs : List ℕ) (opts : ℕ → Opt)
    → length bs < fuel
    → (r : Option (ℕ → Opt)) × (parse_bytes fuel bs opts ≡ some r)
unfolding parse_bytes
parse_bytes-ends zero bs opts l = absurd (omega arith)
parse_bytes-ends (suc fuel) [] opts l = (some opts, refl)
parse_bytes-ends (suc fuel) (t ∷ bs) opts l = elim (Bool-cases (t == 255)) [
  | inl q ↦ rw (parse_bytes, q) (some opts, refl)
  | inr q ↦ elim (Bool-cases (t == 0)) [
    | inl z ↦ rw (parse_bytes, q, z) (parse_bytes-ends fuel bs opts (omega arith))
    | inr z ↦
        rw (parse_bytes, q, z)
          (parse_option-ends fuel t opts (parse_bytes-ends fuel) bs (omega arith))
  ]
]

-- Of a tail without null addresses, with its offset inside it and a size that `size_t` can hold, the
-- loop of dhcp() ends, passes all assertions, and reads the options that a parser of the tail's bytes
-- reads, or fails where that does.
pub parse_options_lem :
    (constant_p : Bool) (type_storage olen_storage : ℕ) (m : Memory) (t : IovTail) (opts : ℕ → Opt)
    → IsWhole t
    → (r : Option (ℕ → Opt)) × (parse_options constant_p type_storage olen_storage m t opts
        ≡ some (done r))
      × (parse_bytes (length (bytes_of m t) + 1) (bytes_of m t) (clear_clen opts) ≡ some r)
unfolding parse_options
parse_options_lem constant_p type_storage olen_storage m t opts w =
    let bs = bytes_of m t in
    let (r, e) = parse_bytes-ends (length bs + 1) bs (clear_clen opts) (omega arith) in
    let size : (iov_tail_size t).0 + 1 ≡ length bs + 1 =
      omega (arith, iov_tail_size_lem t w.inside w.small, length-map m (tail_addrs t)) in
    (
      r,
      ap (λ n. parse_from constant_p type_storage olen_storage n m t (clear_clen opts)) size
          ∙ follows constant_p type_storage olen_storage (length bs + 1) m t (clear_clen opts) w
          ∙ ap as_run e,
      e,
    )
