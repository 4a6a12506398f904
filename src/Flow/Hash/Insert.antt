-- ===== src/Flow/Hash/Insert.antt =====
-- Lookup in the hash table of flow.c and insertion into it.
use native.Mathlib.Decide.{ℕ_discrete}
use passt.Base.{
  clash, ℕ, ◌%◌, ◌<◌, ◌≡◌, ◌⊎◌, inl, inr, sym, subst, ap, ◌∙◌, true, false, some, update,
  update_self, update_ne,
}
use passt.Flow.Hash.{
  FlowSidx, flow_sidx_valid, flow_hash_size, HashTable, flow_hash_probe, flow_hash_insert,
}
use passt.Flow.Hash.Probe.{
  IsHashTable, HasFree, Probed, Holds, probe_from-Probed, update-IsHashTable, stops_at, end_cases,
  home_lt, fuel_lt, no_path,
}

-- A bucket holds the side.
abbrev pub Stored : HashTable → FlowSidx → Type 0
Stored tab j = (b : ℕ) × Holds tab j b

-- The bucket `r` holds the side, or is free and no bucket holds it.
pub record IsFound (tab : HashTable) (sidx : FlowSidx) (r : ℕ) : Type 0 where
  pub in_range : r < flow_hash_size
  pub ends : (flow_sidx_valid (tab r) ≡ false) ⊎ (tab r ≡ sidx)
  pub only : (b : ℕ) → Holds tab sidx b → r ≡ b

module _ (hash : FlowSidx → ℕ) (tab : HashTable) (t : IsHashTable hash tab) (f : HasFree tab)
    (sidx : FlowSidx) where
  probed :
      (r : ℕ) × (flow_hash_probe hash tab sidx ≡ some r)
      × Probed tab sidx (hash sidx % flow_hash_size) r
  unfolding flow_hash_probe
  probed =
      let h = hash sidx % flow_hash_size in
      let hl = home_lt (hash sidx) in
      probe_from-Probed tab sidx h flow_hash_size h f hl hl
        (λ x xl p. absurd (no_path flow_hash_size h x p))
        (fuel_lt flow_hash_size h f.z hl f.in_range)

  -- In a table with a free bucket where every side is reachable from its home, flow_hash_probe()
  -- ends within one round; the bucket that it returns holds the side, if any bucket does, and
  -- is free otherwise.
  pub flow_hash_probe-IsFound :
      (r : ℕ) × (flow_hash_probe hash tab sidx ≡ some r) × IsFound tab sidx r
  flow_hash_probe-IsFound =
      let (r, e, p) = probed in
      (
        r,
        e,
        record {
          in_range = p.in_range;
          ends = end_cases hash tab t sidx (hash sidx % flow_hash_size) r p;
          only = λ b q. stops_at hash tab t sidx r b p q;
        },
      )

-- The table `tab'` holds the sides of `tab` and `sidx`, each once.
pub record Inserted (hash : FlowSidx → ℕ) (tab : HashTable) (sidx : FlowSidx) (tab' : HashTable)
    : Type 0 where
  pub table : IsHashTable hash tab'
  pub stored : Stored tab' sidx
  pub kept : (j : FlowSidx) → Stored tab j → Stored tab' j
  pub nothing_else : (j : FlowSidx) → Stored tab' j → (j ≡ sidx) ⊎ Stored tab j

module _ (hash : FlowSidx → ℕ) (tab : HashTable) (t : IsHashTable hash tab) (sidx : FlowSidx)
    (v : flow_sidx_valid sidx ≡ true) (r : ℕ)
    (p : Probed tab sidx (hash sidx % flow_hash_size) r) where
  new-Holds : Holds (update tab r sidx) sidx r
  new-Holds =
      let e = update_self tab r sidx in
      record {
        in_range = p.in_range;
        valid = subst (λ s. flow_sidx_valid s ≡ true) (sym e) v;
        same = e;
      }

  kept' : (j : FlowSidx) → Stored tab j → Stored (update tab r sidx) j
  kept' j (b, q) = elim (ℕ_discrete r b) [
    | yes e ↦ elim (end_cases hash tab t sidx (hash sidx % flow_hash_size) r p) [
      | inl off ↦ absurd (clash (sym q.valid ∙ ap (λ x. flow_sidx_valid (tab x)) (sym e) ∙ off))
      | inr same ↦ subst (Stored (update tab r sidx)) (sym same ∙ ap tab e ∙ q.same) (r, new-Holds)
    ]
    | no n ↦
        let e = update_ne tab r sidx b n in
        (
          b,
          record {
            in_range = q.in_range;
            valid = subst (λ s. flow_sidx_valid s ≡ true) (sym e) q.valid;
            same = e ∙ q.same;
          },
        )
  ]

  nothing_else' : (j : FlowSidx) → Stored (update tab r sidx) j → (j ≡ sidx) ⊎ Stored tab j
  nothing_else' j (b, q) = elim (ℕ_discrete r b) [
    | yes e ↦ inl (sym q.same ∙ ap (update tab r sidx) (sym e) ∙ update_self tab r sidx)
    | no n ↦
        let e = update_ne tab r sidx b n in
        inr (
          b,
          record {
            in_range = q.in_range;
            valid = subst (λ s. flow_sidx_valid s ≡ true) e q.valid;
            same = sym e ∙ q.same;
          },
        )
  ]

  update-Inserted : Inserted hash tab sidx (update tab r sidx)
  update-Inserted = record {
    table = update-IsHashTable hash tab t sidx r p v;
    stored = (r, new-Holds);
    kept = kept';
    nothing_else = nothing_else';
  }

-- In a table with a free bucket where every side is reachable from its home,
-- flow_hash_insert() of a valid side succeeds and leaves a table where every side is reachable
-- and stored once, which holds the side, all sides stored before, and no others.
pub flow_hash_insert-Inserted :
    (hash : FlowSidx → ℕ) (tab : HashTable)
    → IsHashTable hash tab
    → HasFree tab
    → (sidx : FlowSidx) → flow_sidx_valid sidx ≡ true
    → (tab' : HashTable) × (flow_hash_insert hash tab sidx ≡ some tab')
      × Inserted hash tab sidx tab'
unfolding flow_hash_insert
flow_hash_insert-Inserted hash tab t f sidx v =
    let (r, e, p) = probed hash tab t f sidx in
    (update tab r sidx, rw (e, flow_hash_insert), update-Inserted hash tab t sidx v r p)
