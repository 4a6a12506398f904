-- ===== src/Tcp/Options.antt =====
-- tcp_opt_get(): looking up an option in a TCP header.
mod Tests
use passt.Base.{
  ℕ, zero, suc, ◌+◌, ◌-◌, ◌*◌, ◌^◌, ◌≤◌, ◌<◌, ◌≡◌, inl, inr, refl, arith, Bool, true, false, ◌||◌,
  ltb, ◌==◌, if◌then◌else◌, Option, none, some, List, [], ◌∷◌, length, length-drop, drop,
  Bool-cases, not_ltb,
}

-- What a lookup returns: -1, or the option's length and value, as 32 bits; `over` stands for a read past
-- the end of the buffer.
pub data OptRead : Type 0 where
  missing : OptRead
  value : ℕ → ℕ → OptRead
  over : OptRead

-- `return *opts` of a signed byte
abbrev pub sign_extend : ℕ → ℕ
sign_extend b = if ltb b (2 ^ 7) then b else b + 2 ^ 32 - 2 ^ 8

-- The `switch (optlen)` of an option that is found, at the option's data
unfoldable pub opt_value : ℕ → List ℕ → OptRead
opt_value zero bs = value 0 0
opt_value (suc zero) [] = over
opt_value (suc zero) (a ∷ bs) = value 1 (sign_extend a)
opt_value (suc (suc zero)) (a ∷ b ∷ bs) = value 2 (a * 2 ^ 8 + b)
opt_value (suc (suc zero)) (a ∷ []) = over
opt_value (suc (suc zero)) [] = over
opt_value (suc (suc (suc n))) (a ∷ b ∷ c ∷ d ∷ bs) =
    value (n + 3) (a * 2 ^ 24 + b * 2 ^ 16 + c * 2 ^ 8 + d)
opt_value (suc (suc (suc n))) (a ∷ b ∷ c ∷ []) = over
opt_value (suc (suc (suc n))) (a ∷ b ∷ []) = over
opt_value (suc (suc (suc n))) (a ∷ []) = over
opt_value (suc (suc (suc n))) [] = over

-- The loop, over the buffer from `opts` on, of which `len` bytes are options; `none` is out of fuel.
unfoldable pub opt_from : ℕ → ℕ → List ℕ → ℕ → Option OptRead
opt_from zero find opts len = none
opt_from (suc fuel) find [] len = if ltb len 2 then some missing else some over
opt_from (suc fuel) find (kind ∷ []) len = elim (ltb len 2) [
  | true ↦ some missing
  | false ↦ elim (kind == 0) [
    | true ↦ some missing
    | false ↦ elim (kind == 1) [ true ↦ opt_from fuel find [] (len - 1) | false ↦ some over ]
  ]
]
opt_from (suc fuel) find (kind ∷ optlen ∷ bs) len = elim (ltb len 2) [
  | true ↦ some missing
  | false ↦ elim (kind == 0) [
    | true ↦ some missing
    | false ↦ elim (kind == 1) [
      | true ↦ opt_from fuel find (optlen ∷ bs) (len - 1)
      | false ↦ elim (ltb optlen 2 || ltb len optlen) [
        | true ↦ some missing
        | false ↦ elim (kind == find) [
          | true ↦ some (opt_value (optlen - 2) bs)
          | false ↦ opt_from fuel find (drop (optlen - 2) bs) (len - 2 - (optlen - 2))
        ]
      ]
    ]
  ]
]

-- tcp_opt_get(), where `opts` is not NULL
unfoldable pub tcp_opt_get : List ℕ → ℕ → ℕ → Option OptRead
tcp_opt_get opts len find = if len == 0 then some missing else opt_from (len + 1) find opts len

-- A lookup that stays in the buffer.
pub data InBuffer : OptRead → Type 0 where
  is_missing : InBuffer missing
  is_value : (n v : ℕ) → InBuffer (value n v)

opt_value-InBuffer : (n : ℕ) (bs : List ℕ) → n < length bs → InBuffer (opt_value n bs)
unfolding opt_value
opt_value-InBuffer zero bs l = is_value 0 0
opt_value-InBuffer (suc zero) [] l = absurd (omega arith)
opt_value-InBuffer (suc zero) (a ∷ bs) l = is_value _ _
opt_value-InBuffer (suc (suc zero)) (a ∷ b ∷ bs) l = is_value _ _
opt_value-InBuffer (suc (suc zero)) (a ∷ []) l = absurd (omega arith)
opt_value-InBuffer (suc (suc zero)) [] l = absurd (omega arith)
opt_value-InBuffer (suc (suc (suc n))) (a ∷ b ∷ c ∷ d ∷ bs) l = is_value _ _
opt_value-InBuffer (suc (suc (suc n))) (a ∷ b ∷ c ∷ []) l = absurd (omega arith)
opt_value-InBuffer (suc (suc (suc n))) (a ∷ b ∷ []) l = absurd (omega arith)
opt_value-InBuffer (suc (suc (suc n))) (a ∷ []) l = absurd (omega arith)
opt_value-InBuffer (suc (suc (suc n))) [] l = absurd (omega arith)

len_fits :
    (optlen len : ℕ) → (ltb optlen 2 || ltb len optlen) ≡ false → (2 ≤ optlen) × (optlen ≤ len)
len_fits optlen len e = ground arith

abbrev Ends : ℕ → ℕ → List ℕ → ℕ → Type 0
Ends fuel find opts len = (r : OptRead) × (opt_from fuel find opts len ≡ some r) × InBuffer r

opt_from-InBuffer :
    (fuel find : ℕ) (opts : List ℕ) (len : ℕ)
    → len < fuel
    → len < length opts
    → Ends fuel find opts len
unfolding opt_from
opt_from-InBuffer zero find opts len l h = absurd (omega arith)
opt_from-InBuffer (suc fuel) find [] len l h = absurd (omega arith)
opt_from-InBuffer (suc fuel) find (kind ∷ []) len l h = (
  missing,
  (let short : ltb len 2 ≡ true = ground arith in rw (short, opt_from) refl),
  is_missing,
)
opt_from-InBuffer (suc fuel) find (kind ∷ optlen ∷ bs) len l h = elim (Bool-cases (ltb len 2)) [
  | inl e ↦ (missing, rw (e, opt_from) refl, is_missing)
  | inr enough ↦
      let two_left = not_ltb len 2 enough in
      elim (Bool-cases (kind == 0)) [
        | inl e ↦ (missing, rw (enough, e, opt_from) refl, is_missing)
        | inr no_eol ↦ elim (Bool-cases (kind == 1)) [
          | inl e ↦
              let (r, run, i) =
                opt_from-InBuffer fuel find (optlen ∷ bs) (len - 1) (omega arith) (omega arith) in
              (r, rw (enough, no_eol, e, opt_from) run, i)
          | inr no_nop ↦ elim (Bool-cases (ltb optlen 2 || ltb len optlen)) [
            | inl e ↦ (missing, rw (enough, no_eol, no_nop, e, opt_from) refl, is_missing)
            | inr ok ↦
                let (low, fits) = len_fits optlen len ok in
                elim (Bool-cases (kind == find)) [
                  | inl e ↦ (
                    opt_value (optlen - 2) bs,
                    rw (enough, no_eol, no_nop, ok, e, opt_from) refl,
                    opt_value-InBuffer (optlen - 2) bs (omega arith),
                  )
                  | inr e ↦
                      let (r, run, i) =
                        opt_from-InBuffer fuel find (drop (optlen - 2) bs) (len - 2 - (optlen - 2))
                          (omega arith) (omega (arith, length-drop (optlen - 2) bs)) in
                      (r, rw (enough, no_eol, no_nop, ok, e, opt_from) run, i)
                ]
          ]
        ]
      ]
]

-- tcp_opt_get() of `len` bytes of options ends, whatever they are, and reads no byte of the buffer but
-- these and the one behind them.
pub tcp_opt_get-InBuffer :
    (opts : List ℕ) (len find : ℕ)
    → len < length opts
    → (r : OptRead) × (tcp_opt_get opts len find ≡ some r) × InBuffer r
unfolding tcp_opt_get
tcp_opt_get-InBuffer opts len find h = elim (Bool-cases (len == 0)) [
  | inl e ↦ (missing, rw (e, tcp_opt_get) refl, is_missing)
  | inr some_left ↦
      let (r, run, i) = opt_from-InBuffer (len + 1) find opts len (omega arith) h in
      (r, rw (some_left, tcp_opt_get) run, i)
]
