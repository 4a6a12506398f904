-- ===== src/Flow/Hash/Shift.antt =====
-- The loop of flow_hash_remove(): what holds of the table while the hole moves down.
use native.Mathlib.Decide.{ℕ_discrete, dec_lt}
use passt.Base.{
  clash, ℕ, ◌-◌, ◌%◌, ◌≤◌, ◌<◌, ◌≡◌, ◌≢◌, sym, subst, ap, ◌∙◌, arith, true, false, update,
  update_self, update_ne,
}
use passt.Flow.Hash.{FlowSidx, flow_sidx_valid, flow_hash_size, mod_sub, HashTable}
use passt.Flow.Hash.Probe.{IsHashTable, HasFree, Holds}
use passt.Flow.Hash.Ring.{pos-injective, pos_step}

abbrev pub Valid : FlowSidx → Type 0
Valid a = flow_sidx_valid a ≡ true

-- The position of a bucket above the free bucket `z`.
abbrev pub above : ℕ → ℕ → ℕ
above z x = mod_sub x z flow_hash_size

-- The table, but for the hole at `b`, while `s` is scanned.
pub record Shifting (hash : FlowSidx → ℕ) (z : ℕ) (tab : HashTable) (b s : ℕ) : Type 0 where
  pub z_range : z < flow_hash_size
  pub b_range : b < flow_hash_size
  pub s_range : s < flow_hash_size
  pub z_free : flow_sidx_valid (tab z) ≡ false
  pub scan : above z s < above z b
  pub home_above :
      (c : ℕ)
      → c < flow_hash_size
      → c ≢ b
      → Valid (tab c)
      → above z c ≤ above z (hash (tab c) % flow_hash_size)
  pub path :
      (c x : ℕ)
      → c < flow_hash_size
      → x < flow_hash_size
      → c ≢ b
      → Valid (tab c)
      → above z c < above z x
      → above z x ≤ above z (hash (tab c) % flow_hash_size)
      → Valid (tab x)
  pub scanned :
      (c : ℕ)
      → c < flow_hash_size
      → Valid (tab c)
      → above z s < above z c
      → above z c < above z b
      → above z (hash (tab c) % flow_hash_size) < above z b
  pub unique :
      (c c' : ℕ)
      → c < flow_hash_size
      → c' < flow_hash_size
      → c ≢ b
      → c' ≢ b
      → Valid (tab c)
      → tab c ≡ tab c'
      → c ≡ c'

-- A bucket other than the hole holds the side.
abbrev pub Elsewhere : HashTable → ℕ → FlowSidx → Type 0
Elsewhere tab b j = (c : ℕ) × (c ≢ b) × Holds tab j c

-- What the loop returns: a table of the same sides, with a free bucket.
pub record Shifted (hash : FlowSidx → ℕ) (tab : HashTable) (b : ℕ) (tab' : HashTable) : Type 0 where
  pub table : IsHashTable hash tab'
  pub room : HasFree tab'
  pub kept : (j : FlowSidx) → Elsewhere tab b j → (c : ℕ) × Holds tab' j c
  pub nothing_else : (j : FlowSidx) (c : ℕ) → Holds tab' j c → Elsewhere tab b j

-- A property of a table's entry after a write.
pub update_cases :
    (P : FlowSidx → Type 0) (tab : HashTable) (b : ℕ) (a : FlowSidx) (c : ℕ)
    → (b ≡ c → P a)
    → (b ≢ c → P (tab c))
    → P (update tab b a c)
update_cases P tab b a c f g = elim (ℕ_discrete b c) [
  | yes e ↦ subst (λ y. P (update tab b a y)) e (subst P (sym (update_self tab b a)) (f e))
  | no n ↦ subst P (sym (update_ne tab b a c n)) (g n)
]

pub above_ne : (z x y : ℕ) → above z x < above z y → x ≢ y
above_ne z x y l e =
    let same : above z y < above z y = subst (λ a. above z a < above z y) e l in omega arith

pub above_zero : (z s b : ℕ) → above z s < above z b → b ≢ z
above_zero z s b l e =
    let zero_lt : above z s < above z z = subst (λ y. above z s < above z y) e l in ground arith

module _ (hash : FlowSidx → ℕ) (z : ℕ) (tab : HashTable) (b s : ℕ)
    (t : Shifting hash z tab b s) where
  abbrev pub home : ℕ → ℕ
  home c = hash (tab c) % flow_hash_size

  pub scan_ne : s ≢ b
  scan_ne = above_ne z s b t.scan

  -- A valid bucket is not the free bucket `z`.
  pub above_pos : (c : ℕ) → c < flow_hash_size → Valid (tab c) → 0 < above z c
  above_pos c l v = elim (dec_lt 0 (above z c)) [
    | yes p ↦ p
    | no n ↦
        let e : c ≡ z = pos-injective flow_hash_size z t.z_range c z l t.z_range (ground arith) in
        absurd (clash (sym v ∙ ap (λ x. flow_sidx_valid (tab x)) e ∙ t.z_free))
  ]

  pub above_next : 0 < above z s → above z (mod_sub s 1 flow_hash_size) ≡ above z s - 1
  above_next p = pos_step flow_hash_size z t.z_range s t.s_range p
