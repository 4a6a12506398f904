-- ===== src/Flow/Hash/Ring.antt =====
-- Positions on the ring of buckets, counted upwards from a bucket `z` that no side's path crosses.
use passt.Base.{ℕ, ◌-◌, ◌≤◌, ◌<◌, ◌≡◌, true, false, arith}
use passt.Flow.Hash.{mod_sub, mod_between}

module _ (m z : ℕ) (hz : z < m) where
  abbrev pub pos : ℕ → ℕ
  pos x = mod_sub x z m

  pub pos_lt : (x : ℕ) → x < m → pos x < m
  pos_lt x l = ground arith

  pub pos-injective : (x y : ℕ) → x < m → y < m → pos x ≡ pos y → x ≡ y
  pos-injective x y hx hy e = ground arith

  pub pos_step : (s : ℕ) → s < m → 0 < pos s → pos (mod_sub s 1 m) ≡ pos s - 1
  pos_step s l p = ground arith

  -- A path down from `h` that ends above `h` crosses `z`.
  pub crosses : (h c : ℕ) → h < m → c < m → pos h < pos c → mod_sub h z m < mod_sub h c m
  crosses h c hh hc l = ground arith

  pub on_path :
      (h x c : ℕ)
      → h < m
      → x < m
      → c < m
      → pos c ≤ pos h
      → mod_sub h x m < mod_sub h c m
      → (pos c < pos x) × (pos x ≤ pos h)
  on_path h x c hh hx hc l p = ground arith

  pub path_on :
      (h x c : ℕ)
      → h < m
      → x < m
      → c < m
      → pos c < pos x
      → pos x ≤ pos h
      → mod_sub h x m < mod_sub h c m
  path_on h x c hh hx hc l p = ground arith

  pub between_below :
      (h s b : ℕ)
      → h < m
      → s < m
      → b < m
      → pos s < pos b
      → pos s ≤ pos h
      → mod_between h s b m ≡ true
      → pos h < pos b
  between_below h s b hh hs hb l k e = ground arith

  pub not_between :
      (h s b : ℕ)
      → h < m
      → s < m
      → b < m
      → pos s < pos b
      → pos s ≤ pos h
      → mod_between h s b m ≡ false
      → pos b ≤ pos h
  not_between h s b hh hs hb l k e = ground arith
