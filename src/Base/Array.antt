-- ===== src/Base/Array.antt =====
-- A C array as a function of its index. Bounds are kept by the invariants of the code that uses it.
use Prim.Native.Nat.{ℕ}
use mathlib.Core.Path.{◌≡◌}
use mathlib.Core.Logic.{◌≢◌}
use native.Mathlib.Omega.{arith}
use passt.Base.Tests.{◌==◌, if◌then◌else◌}

module _ {ℓ} {A : Type ℓ} where
  unfoldable pub update : (ℕ → A) → ℕ → A → ℕ → A
  update t i v j = if i == j then v else t j

  pub update_lem :
      (t : ℕ → A) (i : ℕ) (v : A) (j : ℕ) → update t i v j ≡ (if i == j then v else t j)
  unfolding update
  update_lem t i v j = ground arith

  pub update_self : (t : ℕ → A) (i : ℕ) (v : A) → update t i v i ≡ v
  unfolding update
  update_self t i v = ground arith

  pub update_ne : (t : ℕ → A) (i : ℕ) (v : A) (j : ℕ) → i ≢ j → update t i v j ≡ t j
  unfolding update
  update_ne t i v j h = ground arith
