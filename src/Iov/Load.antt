-- ===== src/Iov/Load.antt =====
-- Reading memory and writing it.
use mathlib.Core.Path.{ap₂}
use passt.Base.{
  ℕ, zero, suc, ◌+◌, ◌-◌, ◌≤◌, ◌<◌, ◌≡◌, ◌≢◌, refl, ap, ◌∙◌, arith, List, [], ◌∷◌, ◌++◌, length,
  take, drop, update, update_self, update_ne,
}
use passt.Iov.{Memory, load, store}

pub store_below : (m : Memory) (a : ℕ) (bs : List ℕ) (k : ℕ) → k < a → store m a bs k ≡ m k
unfolding store
store_below m a [] k l = refl
store_below m a (b ∷ bs) k l =
    store_below (update m a b) (a + 1) bs k (omega arith) ∙ update_ne m a b k (omega arith)

pub store_past :
    (m : Memory) (a : ℕ) (bs : List ℕ) (k : ℕ) → a + length bs ≤ k → store m a bs k ≡ m k
unfolding store
store_past m a [] k l = refl
store_past m a (b ∷ bs) k l =
    store_past (update m a b) (a + 1) bs k (omega arith) ∙ update_ne m a b k (omega arith)

pub load-store : (m : Memory) (a : ℕ) (bs : List ℕ) → load (store m a bs) a (length bs) ≡ bs
unfolding load store
load-store m a [] = refl
load-store m a (b ∷ bs) =
    ap (λ x. x ∷ load (store (update m a b) (a + 1) bs) (a + 1) (length bs))
      (store_below (update m a b) (a + 1) bs a (omega arith) ∙ update_self m a b)
    ∙ ap (λ l. b ∷ l) (load-store (update m a b) (a + 1) bs)

pub load-append : (m : Memory) (a n k : ℕ) → load m a (n + k) ≡ load m a n ++ load m (a + n) k
unfolding load
load-append m a zero k =
    ap (load m a) {x = 0 + k} {y = k} (omega arith)
    ∙ ap (λ x. load m x k) {x = a} {y = a + 0} (omega arith)
load-append m a (suc n) k =
    ap (load m a) {x = suc n + k} {y = suc (n + k)} (omega arith)
    ∙ ap (λ l. m a ∷ l)
        (load-append m (a + 1) n k
          ∙ ap (λ x. load m (a + 1) n ++ load m x k) {x = a + 1 + n} {y = a + suc n} (omega arith))

pub load-take : (m : Memory) (a k n : ℕ) → k ≤ n → take k (load m a n) ≡ load m a k
unfolding load
load-take m a zero n h = refl
load-take m a (suc k) zero h = absurd (omega arith)
load-take m a (suc k) (suc n) h = ap (λ l. m a ∷ l) (load-take m (a + 1) k n (omega arith))

pub load-drop : (m : Memory) (a k n : ℕ) → k ≤ n → drop k (load m a n) ≡ load m (a + k) (n - k)
unfolding load
load-drop m a zero n h = ap₂ (load m) (omega arith) (omega arith)
load-drop m a (suc k) zero h = absurd (omega arith)
load-drop m a (suc k) (suc n) h =
    load-drop m (a + 1) k n (omega arith) ∙ ap₂ (load m) (omega arith) (omega arith)

-- What is read below a write, and past it.
pub load-store_before :
    (m : Memory) (b : ℕ) (bs : List ℕ) (a n : ℕ) → a + n ≤ b → load (store m b bs) a n ≡ load m a n
unfolding load
load-store_before m b bs a zero h = refl
load-store_before m b bs a (suc n) h =
    ap₂ (λ x l. x ∷ l) (store_below m b bs a (omega arith))
      (load-store_before m b bs (a + 1) n (omega arith))

pub load-update_out :
    (m : Memory) (b v a n : ℕ)
    → ((k : ℕ) → k < n → b ≢ a + k)
    → load (update m b v) a n ≡ load m a n
unfolding load
load-update_out m b v a zero h = refl
load-update_out m b v a (suc n) h =
    ap₂ (λ x l. x ∷ l) (update_ne m b v a (λ e. h 0 (omega arith) (omega arith)))
      (load-update_out m b v (a + 1) n (λ k l e. h (k + 1) (omega arith) (omega arith)))

abbrev head_or : List ℕ → ℕ
head_or [] = 0
head_or (x ∷ xs) = x

lengths : {x : ℕ} {l : List ℕ} → [] ≡ x ∷ l → ⊥
lengths {x} {l} e = let n : 0 ≡ suc (length l) = ap (λ l. length l) e in omega arith

-- Writing the byte behind the first ones of what is read.
pub load-update :
    (m : Memory) (a n : ℕ) (pre : List ℕ) (x y : ℕ) (post : List ℕ)
    → load m a n ≡ pre ++ x ∷ post
    → load (update m (a + length pre) y) a n ≡ pre ++ y ∷ post
unfolding load
load-update m a zero [] x y post e = absurd (lengths e)
load-update m a (suc n) [] x y post e =
    ap₂ (λ x l. x ∷ l)
      (ap (λ b. update m b y a) {x = a + 0} {y = a} (omega arith) ∙ update_self m a y)
      (load-update_out m (a + 0) y (a + 1) n (λ k l. omega arith) ∙ ap (drop 1) e)
load-update m a zero (p ∷ pre) x y post e = absurd (lengths e)
load-update m a (suc n) (p ∷ pre) x y post e =
    ap₂ (λ x l. x ∷ l) (update_ne m (a + suc (length pre)) y a (omega arith) ∙ ap head_or e)
      (ap (λ b. load (update m b y) (a + 1) n) {x = a + suc (length pre)} {y = a + 1 + length pre}
          (omega arith)
        ∙ load-update m (a + 1) n pre x y post (ap (drop 1) e))
