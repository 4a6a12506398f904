-- ===== src/Flow/Hash/Tests.antt =====
-- Lookups and insertions in a hash table that flow_init() has emptied, and a removal.
use passt.Base.{clash, ℕ, ◌%◌, ◌≡◌, refl, some, update, sym, ap, subst, ◌∙◌, arith}
use passt.Flow.Hash.{
  FlowSidx, HashTable, empty_table, flow_hash_probe, flow_hash_insert, flow_hash_remove,
  flow_hash_size, flow_sidx_valid,
}
use passt.Flow.Hash.Probe.{IsHashTable, HasFree, OnPath, empty-IsHashTable, empty-HasFree, no_path}
use passt.Flow.Hash.Shift.{Valid, update_cases}
use passt.Flow.Hash.Remove.{Removed, flow_hash_remove-Removed}
use passt.Flow.Hash.Insert.{IsFound, Inserted, flow_hash_probe-IsFound, flow_hash_insert-Inserted}

abbrev hash : FlowSidx → ℕ
hash s = s.flowi

abbrev side : FlowSidx
side = record { sidei = 1; flowi = 5 }

flow_hash_probe-IsFound_example :
    (r : ℕ) × (flow_hash_probe hash empty_table side ≡ some r) × IsFound empty_table side r
flow_hash_probe-IsFound_example =
    flow_hash_probe-IsFound hash empty_table (empty-IsHashTable hash) empty-HasFree side

flow_hash_insert-Inserted_example :
    (tab' : HashTable) × (flow_hash_insert hash empty_table side ≡ some tab')
    × Inserted hash empty_table side tab'
flow_hash_insert-Inserted_example =
    flow_hash_insert-Inserted hash empty_table (empty-IsHashTable hash) empty-HasFree side refl

-- The table with the side in its home bucket.
abbrev one_side : HashTable
one_side = update empty_table 5 side

one_side-IsHashTable : IsHashTable hash one_side
one_side-IsHashTable = record {
  path = λ b x bl xl.
      update_cases (λ a. Valid a → OnPath (hash a % flow_hash_size) x b → Valid (one_side x))
        empty_table 5 side b
        (λ e v on. absurd (no_path flow_hash_size 5 x (subst (OnPath 5 x) (sym e) on)))
        (λ n v on. absurd (clash (sym v)));
  unique = λ b b' bl bl'.
      update_cases (λ a. Valid a → a ≡ one_side b' → b ≡ b') empty_table 5 side b
        (λ e v.
          update_cases (λ a. side ≡ a → b ≡ b') empty_table 5 side b' (λ e' d. sym e ∙ e')
            (λ n d. absurd (clash (ap flow_sidx_valid d))))
        (λ n v. absurd (clash (sym v)));
}

one_side-HasFree : HasFree one_side
unfolding update
one_side-HasFree = record { z = 0; in_range = omega arith; is_free = refl }

flow_hash_remove-Removed_example :
    (tab' : HashTable) × (flow_hash_remove hash one_side side ≡ some tab')
    × Removed hash one_side side tab'
flow_hash_remove-Removed_example =
    flow_hash_remove-Removed hash one_side one_side-IsHashTable one_side-HasFree side
