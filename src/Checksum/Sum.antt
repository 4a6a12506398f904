-- ===== src/Checksum/Sum.antt =====
-- Sums of words, and headers whose checksum verifies.
use passt.Base.{
  ℕ, zero, suc, ◌+◌, ◌-◌, ◌*◌, ◌/◌, ◌%◌, ◌^◌, ◌<◌, ◌≡◌, refl, ap, ◌∙◌, arith, some, List, [], ◌∷◌,
  ◌++◌, length, add_u32,
}
use passt.Checksum.{
  sum_from, sum_16b, csum_fold, complement, csum_unfolded, csum, high16, low16, csum_ip4_header,
  l2_buf_ip4_init, ip_df, htons, Iphdr, iphdr_bytes, Icmphdr, icmphdr_bytes, word_bytes, csum_icmp4,
}
use passt.Checksum.Fold.{complement-verifies}

-- The sum of the 16-bit words of bytes.
abbrev pub words : List ℕ → ℕ
words [] = 0
words (a ∷ []) = a
words (a ∷ b ∷ bs) = a + b * 2 ^ 8 + words bs

sum_from_lem : (bs : List ℕ) (s : ℕ) → sum_from bs s % 2 ^ 32 ≡ (s + words bs) % 2 ^ 32
unfolding sum_from
sum_from_lem [] s = omega arith
sum_from_lem (a ∷ []) s = omega arith
sum_from_lem (a ∷ b ∷ bs) s = omega (arith, sum_from_lem bs (add_u32 s (a + b * 2 ^ 8)))

sum_from_below : (bs : List ℕ) (s : ℕ) → s < 2 ^ 32 → sum_from bs s < 2 ^ 32
unfolding sum_from
sum_from_below [] s l = l
sum_from_below (a ∷ []) s l = omega arith
sum_from_below (a ∷ b ∷ bs) s l = sum_from_below bs (add_u32 s (a + b * 2 ^ 8)) (omega arith)

-- sum_16b() is the sum of the words, in 32 bits.
pub sum_16b_lem : (bs : List ℕ) → sum_16b bs ≡ words bs % 2 ^ 32
unfolding sum_16b
sum_16b_lem bs = omega (arith, sum_from_lem bs 0, sum_from_below bs 0 (omega arith))

pub csum_unfolded_lem :
    (bs : List ℕ) (init : ℕ) → csum_unfolded bs init ≡ (words bs + init) % 2 ^ 32
unfolding csum_unfolded
csum_unfolded_lem bs init = omega (arith, sum_16b_lem bs)

-- Words of a whole number of words and more.
pub words-append :
    (n : ℕ) (xs ys : List ℕ) → length xs ≡ 2 * n → words (xs ++ ys) ≡ words xs + words ys
words-append zero [] ys h = omega arith
words-append zero (x ∷ xs) ys h = absurd (omega arith)
words-append (suc n) [] ys h = absurd (omega arith)
words-append (suc n) (x ∷ []) ys h = absurd (omega arith)
words-append (suc n) (x ∷ y ∷ xs) ys h = omega (arith, words-append n xs ys (omega arith))

word_whole : (w : ℕ) → w < 2 ^ 16 → w % 2 ^ 8 + w / 2 ^ 8 % 2 ^ 8 * 2 ^ 8 ≡ w
word_whole w l = omega arith

abbrev total : List ℕ → ℕ
total [] = 0
total (w ∷ ws) = w + total ws

abbrev All16 : List ℕ → Type 0
All16 [] = Unit
All16 (w ∷ ws) = (w < 2 ^ 16) × All16 ws

words-word_bytes : (ws : List ℕ) → All16 ws → words (word_bytes ws) ≡ total ws
words-word_bytes [] h = refl
words-word_bytes (w ∷ ws) (l, h) = omega (arith, word_whole w l, words-word_bytes ws h)

htons_below : (x : ℕ) → htons x < 2 ^ 16
htons_below x = omega arith

half_below : (a : ℕ) → (low16 a < 2 ^ 16) × (high16 a < 2 ^ 16)
half_below a = (omega arith, omega arith)

-- The IPv4 header that the templates make, with its lengths, addresses and the checksum filled in
abbrev pub ip4_header : ℕ → ℕ → ℕ → ℕ → Iphdr
ip4_header l3len protocol saddr daddr = record (l2_buf_ip4_init protocol) {
  tot_len = htons l3len;
  check = csum_ip4_header l3len protocol saddr daddr;
  saddr = saddr;
  daddr = daddr;
}

-- The sum of the words of the header but for the checksum
abbrev ip4_words : ℕ → ℕ → ℕ → ℕ → ℕ
ip4_words l3len protocol saddr daddr =
    0x0045
    + ip_df
    + (0xff + protocol * 2 ^ 8)
    + htons l3len
    + high16 saddr
    + low16 saddr
    + high16 daddr
    + low16 daddr

htons_proto :
    (protocol : ℕ) → protocol < 2 ^ 8 → htons (0xff00 + protocol) ≡ 0xff + protocol * 2 ^ 8
htons_proto protocol l = omega arith

module _ (l3len protocol saddr daddr : ℕ) (hp : protocol < 2 ^ 8) where
  w_below : ip4_words l3len protocol saddr daddr < 2 ^ 20
  w_below = omega (
    arith,
    hp,
    htons_below l3len,
    (half_below saddr).0,
    (half_below saddr).1,
    (half_below daddr).0,
    (half_below daddr).1,
  )

  header_sum :
      csum_ip4_header l3len protocol saddr daddr
      ≡ complement (csum_fold (ip4_words l3len protocol saddr daddr))
  unfolding csum_ip4_header
  header_sum = ap (λ x. complement (csum_fold x)) (omega (arith, htons_proto protocol hp, w_below))

  header_words :
      (c : ℕ)
      → c < 2 ^ 16
      → words (iphdr_bytes (record (ip4_header l3len protocol saddr daddr) { check = c }))
        ≡ ip4_words l3len protocol saddr daddr + c
  header_words c l =
      let ws =
        0x0045
        ∷ htons l3len
        ∷ 0
        ∷ ip_df
        ∷ (0xff + protocol * 2 ^ 8)
        ∷ c
        ∷ low16 saddr
        ∷ high16 saddr
        ∷ low16 daddr
        ∷ high16 daddr
        ∷ [] in
      let (ls, hs) = half_below saddr in
      let (ld, hd) = half_below daddr in
      let small : All16 ws = (
        omega arith,
        (
          htons_below l3len,
          (omega arith, (omega arith, (omega (arith, hp), (l, (ls, (hs, (ld, (hd, tt)))))))),
        ),
      ) in
      words-word_bytes ws small ∙ omega arith

  -- An IPv4 header from the template, with the checksum that csum_ip4_header() gives it, verifies: the
  -- sum of all its words folds to all ones.
  pub csum_ip4_header-verifies :
      csum_fold (sum_16b (iphdr_bytes (ip4_header l3len protocol saddr daddr))) ≡ some (2 ^ 16 - 1)
  csum_ip4_header-verifies =
      let s = ip4_words l3len protocol saddr daddr in
      let c = csum_ip4_header l3len protocol saddr daddr in
      let (below, verifies) = complement-verifies s (omega (arith, w_below)) in
      let c16 : c < 2 ^ 16 = omega (arith, header_sum, below) in
      let sum : sum_16b (iphdr_bytes (ip4_header l3len protocol saddr daddr))
          ≡ s + complement (csum_fold s) =
        sum_16b_lem (iphdr_bytes (ip4_header l3len protocol saddr daddr))
        ∙ omega (arith, header_words c c16, header_sum, w_below, below) in
      ap csum_fold sum ∙ verifies

-- The sum over bytes with a checksum word of 0 and the sum with the checksum in place.
data_verifies :
    (w c : ℕ)
    → w < 2 ^ 32 - 2 ^ 16
    → c ≡ complement (csum_fold w)
    → csum_fold ((w + c) % 2 ^ 32) ≡ some (2 ^ 16 - 1)
data_verifies w c l e =
    let (below, verifies) = complement-verifies w l in
    ap csum_fold {y = w + complement (csum_fold w)} (omega (arith, e, below)) ∙ verifies

-- The words of an ICMP header are 16-bit ones.
abbrev pub IcmpWords : Icmphdr → Type 0
IcmpWords h = All16 (h.type_code ∷ h.data0 ∷ h.data1 ∷ [])

abbrev icmp_sum : Icmphdr → ℕ
icmp_sum h = h.type_code + h.data0 + h.data1

-- The words of an ICMP header, and of the header and its payload.
icmphdr_words :
    (h : Icmphdr) (c : ℕ)
    → IcmpWords h
    → c < 2 ^ 16
    → words (icmphdr_bytes (record h { checksum = c })) ≡ icmp_sum h + c
icmphdr_words h c (a, (b, (d, _))) l =
    words-word_bytes (h.type_code ∷ c ∷ h.data0 ∷ h.data1 ∷ []) (a, (l, (b, (d, tt)))) ∙ omega arith

icmp_words :
    (h : Icmphdr) (c : ℕ) (payload : List ℕ)
    → IcmpWords h
    → c < 2 ^ 16
    → words (icmphdr_bytes (record h { checksum = c }) ++ payload) ≡ icmp_sum h + c + words payload
icmp_words h c payload k l =
    words-append 4 (icmphdr_bytes (record h { checksum = c })) payload (omega arith)
    ∙ ap (λ x. x + words payload) (icmphdr_words h c k l)

icmp_sum_below : (h : Icmphdr) → IcmpWords h → icmp_sum h < 2 ^ 18
icmp_sum_below h (a, (b, (d, _))) = omega (arith, a, b, d)

-- An ICMP message whose payload has words of a sum below 2^31, with the checksum that csum_icmp4() gives it,
-- verifies: the sum of all its 16-bit words, a last odd byte included, folds to all ones.
pub csum_icmp4-verifies :
    (h : Icmphdr) (payload : List ℕ)
    → IcmpWords h
    → words payload < 2 ^ 31
    → csum_fold (words (icmphdr_bytes (csum_icmp4 h payload) ++ payload)) ≡ some (2 ^ 16 - 1)
unfolding csum_icmp4 csum
csum_icmp4-verifies h payload k l =
    let w = icmp_sum h + words payload in
    let c = (csum_icmp4 h payload).checksum in
    let small : w < 2 ^ 32 - 2 ^ 16 = omega (arith, icmp_sum_below h k, l) in
    let is_c : c ≡ complement (csum_fold w) =
      ap (λ x. complement (csum_fold x))
        (csum_unfolded_lem payload _
          ∙ omega (
            arith,
            small,
            sum_16b_lem (icmphdr_bytes (record h { checksum = 0 })),
            icmphdr_words h 0 k (omega arith),
          )) in
    let c16 : c < 2 ^ 16 = omega (arith, is_c, (complement-verifies w small).0) in
    let sum : words (icmphdr_bytes (csum_icmp4 h payload) ++ payload) ≡ (w + c) % 2 ^ 32 =
      icmp_words h c payload k c16 ∙ omega (arith, small, c16) in
    ap csum_fold sum ∙ data_verifies w c small is_c
