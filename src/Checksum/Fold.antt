-- ===== src/Checksum/Fold.antt =====
-- Folding: it ends, and keeps the sum in one's complement arithmetic.
use passt.Base.{
  ℕ, suc, ◌+◌, ◌-◌, ◌/◌, ◌%◌, ◌^◌, ◌<◌, ◌≡◌, ◌≢◌, ◌↔◌, ◌⊎◌, refl, ap, ◌∙◌, arith, Bool-cases, false,
  inl, inr, some, ◌==◌, ==_iff,
}
use passt.Checksum.{fold_from, csum_fold, complement}

-- What csum_fold() promises of its result `r`: 16 bits, the same sum in one's complement
-- arithmetic, and 0 only for 0.
pub record Folded (s r : ℕ) : Type 0 where
  pub bits : r < 2 ^ 16
  pub same : r % 65535 ≡ s % 65535
  pub zero_only : (r ≡ 0) ↔ (s ≡ 0)

round_same : (s : ℕ) → (s % 2 ^ 16 + s / 2 ^ 16) % 65535 ≡ s % 65535
round_same s = omega arith

round_zero : (s : ℕ) → (s % 2 ^ 16 + s / 2 ^ 16 ≡ 0) ↔ (s ≡ 0)
round_zero s = (λ h. omega arith, λ h. omega arith)

Folded-round : (s r : ℕ) → Folded (s % 2 ^ 16 + s / 2 ^ 16) r → Folded s r
Folded-round s r f = record {
  bits = f.bits;
  same = f.same ∙ round_same s;
  zero_only = (λ h. (round_zero s).0 (f.zero_only.0 h), λ h. f.zero_only.1 ((round_zero s).1 h));
}

big_of : (s : ℕ) → s < 2 ^ 16 → (s / 2 ^ 16 == 0) ≡ false → ⊥
big_of s l h = ground arith

-- One round, where the sums after it are folded.
fold_from-Folded :
    (fuel s : ℕ)
    → (s < 2 ^ 16)
      ⊎ ((r : ℕ) × (fold_from fuel (s % 2 ^ 16 + s / 2 ^ 16) ≡ some r)
          × Folded (s % 2 ^ 16 + s / 2 ^ 16) r)
    → (r : ℕ) × (fold_from (suc fuel) s ≡ some r) × Folded s r
unfolding fold_from
fold_from-Folded fuel s h = elim (Bool-cases (s / 2 ^ 16 == 0)) [
  | inl small ↦
      let at0 = (==_iff (s / 2 ^ 16) 0).0 small in
      (
        s,
        rw (small, fold_from) refl,
        record { bits = omega (arith, at0); same = refl; zero_only = (λ e. e, λ e. e) },
      )
  | inr big ↦ elim h [
    | inl l ↦ absurd (big_of s l big)
    | inr (r, e, f) ↦ (r, rw (big, fold_from) e, Folded-round s r f)
  ]
]

-- csum_fold() of a `uint32_t` ends, within 16 bits, with the same one's complement sum.
pub csum_fold-Folded : (s : ℕ) → s < 2 ^ 32 → (r : ℕ) × (csum_fold s ≡ some r) × Folded s r
unfolding csum_fold
csum_fold-Folded s l =
    let s1 = s % 2 ^ 16 + s / 2 ^ 16 in
    let s2 = s1 % 2 ^ 16 + s1 / 2 ^ 16 in
    let small : s2 < 2 ^ 16 = omega (arith, l) in
    let third = fold_from-Folded 0 s2 (inl small) in
    let second = fold_from-Folded 1 s1 (inr third) in fold_from-Folded 2 s (inr second)

-- A 16-bit word that folds to itself.
Folded-unique : (s r : ℕ) → Folded s r → s % 65535 ≡ 0 → s ≢ 0 → r ≡ 65535
Folded-unique s r f h n = ground arith

nonzero : (s r : ℕ) → Folded s r → s + (65535 - r) ≢ 0
nonzero s r f e = ground arith

-- The complement of a folded sum, added to it, makes the sum fold to all ones.
pub complement-verifies :
    (s : ℕ)
    → s < 2 ^ 32 - 2 ^ 16
    → (complement (csum_fold s) < 2 ^ 16)
      × (csum_fold (s + complement (csum_fold s)) ≡ some (2 ^ 16 - 1))
complement-verifies s l =
    let (r, e, f) = csum_fold-Folded s (omega arith) in
    let (q, e', f') = csum_fold-Folded (s + (65535 - r)) (omega (arith, l)) in
    let sum : (s + (65535 - r)) % 65535 ≡ 0 = omega (arith, f.same, f.bits) in
    let n : s + (65535 - r) ≢ 0 = nonzero s r f in
    rw e (omega (arith, f.bits), e' ∙ ap some (Folded-unique _ q f' sum n))
