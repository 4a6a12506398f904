-- ===== src/Dhcp/Roundtrip.antt =====
-- What fill() writes is what the loop of dhcp() reads.
use mathlib.Core.Path.{ap₂}
use mathlib.Core.List.{append_assoc}
use passt.Base.{
  take_first, drop_first, ℕ, zero, suc, ◌+◌, ◌%◌, ◌^◌, ◌≤◌, ◌<◌, ◌≡◌, inl, inr, refl, sym, ap, ◌∙◌,
  subst, arith, Bool, true, false, none, some, List, [], ◌∷◌, ◌++◌, length, length-append, take,
  drop, replicate, ltb, ==_refl, ◌==◌, ◌||◌, done, update_lem, update_self, Bool-cases,
}
use passt.Iov.{IovTail, Memory, load, store}
use passt.Iov.Load.{load-store}
use passt.Iov.Copy.{length-load}
use passt.Iov.Header.Byte.{IsWhole}
use passt.Dhcp.{Opt, is_served, has, slen_size, opt_bytes, requested, fill}
use passt.Dhcp.Fill.{options, IsServable, served_slen}
use passt.Dhcp.Replied.{fill-Replied, type_first}
use passt.Dhcp.Client.{set_client, clear_clen, parse_options, parse_option, parse_bytes}
use passt.Dhcp.Parse.{bytes_of, parse_options_lem}

-- The options with those of the list read into them.
abbrev received : (ℕ → Opt) → List ℕ → (ℕ → Opt) → ℕ → Opt
received opts [] client = client
received opts (c ∷ cs) client =
    received opts cs
      (set_client client c (slen_size (opts c).slen) (load (opts c).s 0 (slen_size (opts c).slen)))

-- The client's side of an option is what the server's side is.
abbrev pub IsReceived : Opt → Opt → Type 0
IsReceived server client =
    (client.clen ≡ some (slen_size server.slen))
    × (load client.c 0 (slen_size server.slen) ≡ load server.s 0 (slen_size server.slen))

set_client-IsReceived :
    (opts client : ℕ → Opt) (c : ℕ)
    → IsReceived (opts c) (
        set_client client c
          (slen_size (opts c).slen)
          (load (opts c).s 0 (slen_size (opts c).slen))
          c)
set_client-IsReceived opts client c =
    let n = slen_size (opts c).slen in
    let bs = load (opts c).s 0 n in
    subst (IsReceived (opts c))
      (sym
        (update_self client c (record (client c) { clen = some n; c = store (client c).c 0 bs })))
      (
        refl,
        subst (λ k. load (store (client c).c 0 bs) 0 k ≡ bs) (length-load (opts c).s 0 n)
            (load-store (client c).c 0 bs),
      )

set_client_ne :
    (client : ℕ → Opt) (d n : ℕ) (bs : List ℕ) (c : ℕ)
    → (d == c) ≡ false
    → set_client client d n bs c ≡ client c
set_client_ne client d n bs c q =
    update_lem client d (record (client d) { clen = some n; c = store (client d).c 0 bs }) c
    ∙ rw q refl

received-keeps :
    (opts : ℕ → Opt) (cs : List ℕ) (client : ℕ → Opt) (c : ℕ)
    → IsReceived (opts c) (client c)
    → IsReceived (opts c) (received opts cs client c)
received-keeps opts [] client c h = h
received-keeps opts (d ∷ cs) client c h = received-keeps opts cs _ c (elim (Bool-cases (d == c)) [
  | inr q ↦ subst (IsReceived (opts c)) (sym (set_client_ne client d _ _ c q)) h
  | inl q ↦
      let e : c ≡ d = ground (arith, q) in
      subst
        (λ x. IsReceived (opts x) (
          set_client client d (slen_size (opts d).slen)
            (load (opts d).s 0 (slen_size (opts d).slen)) x))
        (sym e) (set_client-IsReceived opts client d)
])

received-IsReceived :
    (opts : ℕ → Opt) (cs : List ℕ) (client : ℕ → Opt) (c : ℕ)
    → has c cs ≡ true
    → IsReceived (opts c) (received opts cs client c)
received-IsReceived opts [] client c h = absurd (ground (arith, h))
received-IsReceived opts (d ∷ cs) client c h = elim (Bool-cases (c == d)) [
  | inl q ↦
      let e : c ≡ d = ground (arith, q) in
      received-keeps opts cs _ c (
        subst
          (λ x. IsReceived (opts x) (
            set_client client d (slen_size (opts d).slen)
              (load (opts d).s 0 (slen_size (opts d).slen)) x))
          (sym e) (set_client-IsReceived opts client d))
  | inr q ↦ received-IsReceived opts cs _ c (sym (ap (λ x. x || has c cs) q) ∙ h)
]

not_received :
    (opts : ℕ → Opt) (cs : List ℕ) (client : ℕ → Opt) (c : ℕ)
    → has c cs ≡ false
    → received opts cs client c ≡ client c
not_received opts [] client c h = refl
not_received opts (d ∷ cs) client c h = elim (Bool-cases (c == d)) [
  | inl q ↦ absurd (ground (arith, sym (ap (λ x. x || has c cs) q) ∙ h))
  | inr q ↦
      not_received opts cs _ c (sym (ap (λ x. x || has c cs) q) ∙ h)
      ∙ set_client_ne client d _ _ c (ground (arith, q))
]

-- Reading one option.
parse_one :
    (fuel c n : ℕ) (client : ℕ → Opt) (bs more : List ℕ)
    → 0 < c
    → c < 255
    → length bs ≡ n
    → parse_bytes (suc fuel) (c ∷ n ∷ bs ++ more) client
      ≡ parse_bytes fuel more (set_client client c n bs)
unfolding parse_bytes parse_option
parse_one fuel c n client bs more pos below count =
    let not_end : (c == 255) ≡ false = ground (arith, below) in
    let not_pad : (c == 0) ≡ false = ground (arith, pos) in
    let fits : ltb (length (bs ++ more)) n ≡ false = ground (arith, length-append bs more, count) in
    rw (parse_bytes, not_end, not_pad, parse_option, fits)
      (ap₂ (λ x y. parse_bytes fuel x (set_client client c n y))
        (subst (λ k. drop k (bs ++ more) ≡ more) count (drop_first bs more))
        (subst (λ k. take k (bs ++ more) ≡ bs) count (take_first bs more)))

parse_opt_bytes :
    (fuel c n : ℕ) (opts client : ℕ → Opt) (more : List ℕ)
    → 0 < c
    → c < 255
    → n ≤ 255
    → (opts c).slen ≡ some n
    → parse_bytes (suc fuel) (opt_bytes c (opts c) ++ more) client
      ≡ parse_bytes fuel more (
          set_client client c
            (slen_size (opts c).slen)
            (load (opts c).s 0 (slen_size (opts c).slen)))
parse_opt_bytes fuel c n opts client more pos below small e =
    let k = slen_size (opts c).slen in
    let same_k : k % 2 ^ 8 ≡ k = omega (arith, small, ap slen_size e) in
    ap₂ (λ x y. parse_bytes (suc fuel) (x ∷ y ∷ load (opts c).s 0 k ++ more) client) {x = c % 2 ^ 8}
      (omega (arith, below)) same_k
    ∙ parse_one fuel c k client (load (opts c).s 0 k) more pos below (length-load (opts c).s 0 k)

-- Reading all of them, up to the end option.
parse_options_bytes :
    (fuel : ℕ) (opts client : ℕ → Opt) (cs more : List ℕ)
    → IsServable opts
    → ((c : ℕ) → has c cs ≡ true → is_served (opts c) ≡ true)
    → length cs < fuel
    → parse_bytes fuel (options opts cs ++ 255 ∷ more) client
      ≡ some (some (received opts cs client))
unfolding parse_bytes
parse_options_bytes zero opts client cs more servable h l = absurd (omega arith)
parse_options_bytes (suc fuel) opts client [] more servable h l = refl
parse_options_bytes (suc fuel) opts client (c ∷ cs) more servable h l =
    let (n, e) = served_slen (opts c).slen (h c (ap (λ b. b || has c cs) (==_refl c))) in
    let (pos, below, small) = servable c n e in
    ap (λ bs. parse_bytes (suc fuel) bs client)
      (append_assoc (opt_bytes c (opts c)) (options opts cs) (255 ∷ more))
    ∙ parse_opt_bytes fuel c n opts client (options opts cs ++ 255 ∷ more) pos below small e
    ∙ parse_options_bytes fuel opts _ cs more servable (λ k i. h k (stays_in k c cs i))
        (omega arith)
  where
    stays_in : (k c : ℕ) (cs : List ℕ) → has k cs ≡ true → has k (c ∷ cs) ≡ true
    stays_in k c cs i = elim (Bool-cases (k == c)) [ inl q ↦ rw q refl | inr q ↦ rw q i ]

length-options : (opts : ℕ → Opt) (cs : List ℕ) → length cs ≤ length (options opts cs)
length-options opts [] = omega arith
length-options opts (c ∷ cs) =
    omega (arith, length-options opts cs, length-append (opt_bytes c (opts c)) (options opts cs))

-- Where only options from 1 to 254 are served, with payloads of at most 255 bytes, and option 53 is, and a
-- tail of a message holds what fill() writes, the loop of dhcp() reads from it: each option that fill()
-- wrote, with the length and the payload that the server has for it, and no other.
pub fill-parse_options :
    (constant_p : Bool) (type_storage olen_storage : ℕ) (m o : Memory) (t : IovTail)
    (opts client : ℕ → Opt) (servable : IsServable opts) (served : is_served (opts 53) ≡ true)
    → IsWhole t
    → bytes_of m t ≡ load (fill o opts).o 0 (fill o opts).offset
    → let r = fill-Replied o opts servable served in
      let codes = (type_first (requested opts) ++ r.answers) ++ r.rest in
      (got : ℕ → Opt) × (parse_options constant_p type_storage olen_storage m t client
        ≡ some (done (some got)))
      × ((c : ℕ) → has c codes ≡ true → IsReceived (opts c) (got c))
      × ((c : ℕ) → has c codes ≡ false → got c ≡ clear_clen client c)
fill-parse_options constant_p type_storage olen_storage m o t opts client servable served w e =
    let r = fill-Replied o opts servable served in
    let codes = (type_first (requested opts) ++ r.answers) ++ r.rest in
    let (k, field) = r.field in
    let bs = bytes_of m t in
    let (result, run, parsed) =
      parse_options_lem constant_p type_storage olen_storage m t client w in
    let all : parse_bytes (length bs + 1) bs (clear_clen client)
        ≡ some (some (received opts codes (clear_clen client))) =
      ap (λ x. parse_bytes (length bs + 1) x (clear_clen client)) (e ∙ field)
      ∙ parse_options_bytes (length bs + 1) opts (clear_clen client) codes (replicate k 0) servable
          r.all_served
          (omega (
            arith,
            length-options opts codes,
            ap (λ l. length l) (e ∙ field),
            length-append (options opts codes) (255 ∷ replicate k 0),
          )) in
    (
      received opts codes (clear_clen client),
      run ∙ ap (λ x. elim x [ none ↦ none | some y ↦ some (done y) ]) (sym parsed ∙ all),
      received-IsReceived opts codes (clear_clen client),
      not_received opts codes (clear_clen client),
    )
