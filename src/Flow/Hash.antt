-- ===== src/Flow/Hash.antt =====
-- The hash table of flow.c, from side indices to buckets, with mod_sub() and mod_between() of
-- util.h. The hash of a side, flow_sidx_hash(), is a parameter.
pub mod Probe
pub mod Insert
pub mod Ring
pub mod Shift
pub mod Move
pub mod Stop
pub mod Remove
mod Tests
use passt.Base.{
  ℕ, zero, suc, ◌+◌, ◌-◌, ◌*◌, ◌/◌, ◌%◌, ◌≡◌, Bool, true, false, not, ◌&&◌, Option, none, some, ltb,
  ◌==◌, if◌then◌else◌, update,
}
use passt.Flow.Types.{flow_max}

-- `flow_sidx_t`
pub record FlowSidx : Type 0 where
  pub sidei : ℕ
  pub flowi : ℕ

-- FLOW_SIDX_NONE
abbrev pub flow_sidx_none : FlowSidx
flow_sidx_none = record { sidei = 0; flowi = flow_max }

abbrev pub flow_sidx_valid : FlowSidx → Bool
flow_sidx_valid s = ltb s.flowi flow_max

abbrev pub flow_sidx_eq : FlowSidx → FlowSidx → Bool
flow_sidx_eq a b = a.flowi == b.flowi && a.sidei == b.sidei

-- FLOW_HASH_LOAD, FLOW_HASH_SIZE
abbrev pub flow_hash_load : ℕ
flow_hash_load = 70

abbrev pub flow_hash_size : ℕ
flow_hash_size = 2 * flow_max * 100 / flow_hash_load

-- mod_sub(), mod_between(); no `unsigned` wraps for a modulus below UINT_MAX / 2
abbrev pub mod_sub : ℕ → ℕ → ℕ → ℕ
mod_sub a b m = if ltb a b then a + m - b else a - b

abbrev pub mod_between : ℕ → ℕ → ℕ → ℕ → Bool
mod_between x i j m = ltb (mod_sub x i m) (mod_sub j i m)

-- `flow_hashtab`
abbrev pub HashTable : Type 0
HashTable = ℕ → FlowSidx

-- flow_init() for the hash table
abbrev pub empty_table : HashTable
empty_table b = flow_sidx_none

-- The test of the probing loop: the bucket holds another side.
abbrev pub is_other : FlowSidx → FlowSidx → Bool
is_other a sidx = flow_sidx_valid a && not (flow_sidx_eq a sidx)

-- The loop of flow_hash_probe_() from the bucket `b`; `none` is out of fuel.
unfoldable pub probe_from : HashTable → FlowSidx → ℕ → ℕ → Option ℕ
probe_from tab sidx zero b = none
probe_from tab sidx (suc fuel) b = elim (is_other (tab b) sidx) [
  | true ↦ probe_from tab sidx fuel (mod_sub b 1 flow_hash_size)
  | false ↦ some b
]

-- The loop of flow_hash_remove(): the hole is at `b`, and `s` is scanned.
unfoldable pub shift_from : (FlowSidx → ℕ) → HashTable → ℕ → ℕ → ℕ → Option HashTable
shift_from hash tab zero b s = none
shift_from hash tab (suc fuel) b s = elim (flow_sidx_valid (tab s)) [
  | false ↦ some (update tab b flow_sidx_none)
  | true ↦ elim (mod_between (hash (tab s) % flow_hash_size) s b flow_hash_size) [
    | true ↦ shift_from hash tab fuel b (mod_sub s 1 flow_hash_size)
    | false ↦ shift_from hash (update tab b (tab s)) fuel s (mod_sub s 1 flow_hash_size)
  ]
]

module _ (hash : FlowSidx → ℕ) where
  -- flow_hash_probe()
  unfoldable pub flow_hash_probe : HashTable → FlowSidx → Option ℕ
  flow_hash_probe tab sidx = probe_from tab sidx flow_hash_size (hash sidx % flow_hash_size)

  -- flow_hash_insert(), without the hash that it returns
  unfoldable pub flow_hash_insert : HashTable → FlowSidx → Option HashTable
  flow_hash_insert tab sidx = elim (flow_hash_probe tab sidx) [
    | none ↦ none
    | some b ↦ some (update tab b sidx)
  ]

  -- flow_hash_remove()
  unfoldable pub flow_hash_remove : HashTable → FlowSidx → Option HashTable
  flow_hash_remove tab sidx = elim (flow_hash_probe tab sidx) [
    | none ↦ none
    | some b ↦
        if flow_sidx_valid (tab b)
        then shift_from hash tab flow_hash_size b (mod_sub b 1 flow_hash_size)
        else some tab
  ]
