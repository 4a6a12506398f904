-- ===== src/Flow/Hash/Probe.antt =====
-- The invariant of the hash table, and probing: it ends, and finds a side that is in the table.
use native.Mathlib.Decide.{ℕ_discrete}
use passt.Base.{
  clash, ℕ, zero, suc, ◌%◌, ◌<◌, ◌≡◌, ◌≢◌, ◌⊎◌, inl, inr, refl, sym, subst, ap, ◌∙◌, arith, true,
  false, some, update, update_self, update_ne, Bool-cases,
}
use passt.Flow.Hash.{
  FlowSidx, flow_sidx_valid, flow_sidx_eq, flow_hash_size, mod_sub, HashTable, empty_table,
  is_other, probe_from,
}

-- The bucket `x` is probed on the way from the bucket `h` to the bucket `b`.
abbrev pub OnPath : ℕ → ℕ → ℕ → Type 0
OnPath h x b = mod_sub h x flow_hash_size < mod_sub h b flow_hash_size

pub sidx_eq : (a b : FlowSidx) → flow_sidx_eq a b ≡ true → a ≡ b
sidx_eq a b h = ground arith

pub sidx_eq_refl : (a : FlowSidx) → flow_sidx_eq a a ≡ true
sidx_eq_refl a = ground arith

-- Every side in the table is found from its home, and is there once.
pub record IsHashTable (hash : FlowSidx → ℕ) (tab : HashTable) : Type 0 where
  pub path :
      (b x : ℕ)
      → b < flow_hash_size
      → x < flow_hash_size
      → flow_sidx_valid (tab b) ≡ true
      → OnPath (hash (tab b) % flow_hash_size) x b
      → flow_sidx_valid (tab x) ≡ true
  pub unique :
      (b b' : ℕ)
      → b < flow_hash_size
      → b' < flow_hash_size
      → flow_sidx_valid (tab b) ≡ true
      → tab b ≡ tab b'
      → b ≡ b'

-- A bucket is free.
pub record HasFree (tab : HashTable) : Type 0 where
  pub z : ℕ
  pub in_range : z < flow_hash_size
  pub is_free : flow_sidx_valid (tab z) ≡ false

-- Where probing for `sidx` from the bucket `h` ends.
pub record Probed (tab : HashTable) (sidx : FlowSidx) (h r : ℕ) : Type 0 where
  pub in_range : r < flow_hash_size
  pub stops : is_other (tab r) sidx ≡ false
  pub passed : (x : ℕ) → x < flow_hash_size → OnPath h x r → is_other (tab x) sidx ≡ true

-- Arithmetic of walking down a ring of `m` buckets.
module _ (m : ℕ) where
  pub step_lt : (b : ℕ) → b < m → mod_sub b 1 m < m
  step_lt b l = ground arith

  pub step_path :
      (h x b : ℕ)
      → h < m
      → x < m
      → b < m
      → mod_sub h x m < mod_sub h (mod_sub b 1 m) m
      → (x ≡ b) ⊎ (mod_sub h x m < mod_sub h b m)
  step_path h x b hl xl bl p = ground arith

  pub step_fuel :
      (b z fuel : ℕ)
      → b < m
      → z < m
      → b ≢ z
      → mod_sub b z m < suc fuel
      → mod_sub (mod_sub b 1 m) z m < fuel
  step_fuel b z fuel bl zl ne l = ground arith

  pub no_path : (h x : ℕ) → mod_sub h x m < mod_sub h h m → ⊥
  no_path h x p = ground arith

  pub fuel_lt : (b z : ℕ) → b < m → z < m → mod_sub b z m < m
  fuel_lt b z bl zl = ground arith

other_valid : (a sidx : FlowSidx) → is_other a sidx ≡ true → flow_sidx_valid a ≡ true
other_valid a sidx h = ground arith

other_ne :
    (tab : HashTable) (sidx : FlowSidx) (b z : ℕ)
    → is_other (tab b) sidx ≡ true
    → flow_sidx_valid (tab z) ≡ false
    → b ≢ z
other_ne tab sidx b z on off e =
    clash (sym (other_valid (tab b) sidx on) ∙ ap (λ x. flow_sidx_valid (tab x)) e ∙ off)

pub probe_from-Probed :
    (tab : HashTable) (sidx : FlowSidx) (h fuel b : ℕ) (f : HasFree tab)
    → h < flow_hash_size
    → b < flow_hash_size
    → ((x : ℕ) → x < flow_hash_size → OnPath h x b → is_other (tab x) sidx ≡ true)
    → mod_sub b f.z flow_hash_size < fuel
    → (r : ℕ) × (probe_from tab sidx fuel b ≡ some r) × Probed tab sidx h r
unfolding probe_from
probe_from-Probed tab sidx h zero b f hh hb passed l = absurd (omega arith)
probe_from-Probed tab sidx h (suc fuel) b f hh hb passed l =
    elim (Bool-cases (is_other (tab b) sidx)) [
      | inr stop ↦
          (b, rw (stop, probe_from), record { in_range = hb; stops = stop; passed = passed })
      | inl on ↦
          let ne = other_ne tab sidx b f.z on f.is_free in
          let next = mod_sub b 1 flow_hash_size in
          let passed' : (x : ℕ)
              → x < flow_hash_size
              → OnPath h x next
              → is_other (tab x) sidx ≡ true =
            λ x xl p. elim (step_path flow_hash_size h x b hh xl hb p) [
              | inl e ↦ subst (λ y. is_other (tab y) sidx ≡ true) (sym e) on
              | inr p' ↦ passed x xl p'
            ] in
          let rest =
            probe_from-Probed tab sidx h fuel next f hh (step_lt flow_hash_size b hb) passed'
              (step_fuel flow_hash_size b f.z fuel hb f.in_range ne l) in
          (rest.0, rw (on, probe_from) rest.1, rest.2)
    ]

-- An emptied table.
pub empty-IsHashTable : (hash : FlowSidx → ℕ) → IsHashTable hash empty_table
empty-IsHashTable hash = record {
  path = λ b x bl xl v on. absurd (clash (sym v));
  unique = λ b b' bl bl' v e. absurd (clash (sym v));
}

pub empty-HasFree : HasFree empty_table
empty-HasFree = record { z = 0; in_range = omega arith; is_free = refl }

other_other : (a sidx : FlowSidx) → flow_sidx_valid a ≡ true → is_other a sidx ≡ false → a ≡ sidx
other_other a sidx v o = ground arith

other_self : (a sidx : FlowSidx) → a ≡ sidx → is_other a sidx ≡ false
other_self a sidx e = ground arith

-- The side is in the bucket.
pub record Holds (tab : HashTable) (j : FlowSidx) (b : ℕ) : Type 0 where
  pub in_range : b < flow_hash_size
  pub valid : flow_sidx_valid (tab b) ≡ true
  pub same : tab b ≡ j

trichotomy :
    (m h r b : ℕ)
    → h < m
    → r < m
    → b < m
    → (mod_sub h r m < mod_sub h b m) ⊎ ((r ≡ b) ⊎ (mod_sub h b m < mod_sub h r m))
trichotomy m h r b hl rl bl = ground arith

pub home_lt : (x : ℕ) → x % flow_hash_size < flow_hash_size
home_lt x = omega arith

-- Where probing for a side ends, if the side is in the bucket `b`.
module _ (hash : FlowSidx → ℕ) (tab : HashTable) (t : IsHashTable hash tab) (sidx : FlowSidx) where
  pub stops_at :
      (r b : ℕ) → Probed tab sidx (hash sidx % flow_hash_size) r → Holds tab sidx b → r ≡ b
  stops_at r b p q =
      let h = hash sidx % flow_hash_size in
      elim (trichotomy flow_hash_size h r b (home_lt (hash sidx)) p.in_range q.in_range) [
        | inl before ↦
            let on = subst (λ s. OnPath (hash s % flow_hash_size) r b) (sym q.same) before in
            let v = t.path b r q.in_range p.in_range q.valid on in
            t.unique r b p.in_range q.in_range v (other_other (tab r) sidx v p.stops ∙ sym q.same)
        | inr (inl e) ↦ e
        | inr (inr after) ↦
            absurd (clash (sym (p.passed b q.in_range after) ∙ other_self (tab b) sidx q.same))
      ]

  -- The buckets that probing passed are valid, and the bucket where it ends is free or holds the side.
  pub end_cases :
      (h r : ℕ) → Probed tab sidx h r → (flow_sidx_valid (tab r) ≡ false) ⊎ (tab r ≡ sidx)
  end_cases h r p = elim (Bool-cases (flow_sidx_valid (tab r))) [
    | inl v ↦ inr (other_other (tab r) sidx v p.stops)
    | inr v ↦ inl v
  ]

  module _ (r : ℕ) (p : Probed tab sidx (hash sidx % flow_hash_size) r)
      (v : flow_sidx_valid sidx ≡ true) where
    abbrev Valid : FlowSidx → Type 0
    Valid a = flow_sidx_valid a ≡ true

    put_self : (b : ℕ) → r ≡ b → update tab r sidx b ≡ sidx
    put_self b e = subst (λ y. update tab r sidx y ≡ sidx) e (update_self tab r sidx)

    path' :
        (b x : ℕ)
        → b < flow_hash_size
        → x < flow_hash_size
        → Valid (update tab r sidx b)
        → OnPath (hash (update tab r sidx b) % flow_hash_size) x b
        → Valid (update tab r sidx x)
    path' b x bl xl vb on = elim (ℕ_discrete r x) [
      | yes e ↦ subst Valid (sym (put_self x e)) v
      | no nx ↦ subst Valid (sym (update_ne tab r sidx x nx)) (elim (ℕ_discrete r b) [
        | yes e ↦
            let at_b = subst (λ s. OnPath (hash s % flow_hash_size) x b) (put_self b e) on in
            let at_r = subst (OnPath (hash sidx % flow_hash_size) x) (sym e) at_b in
            other_valid (tab x) sidx (p.passed x xl at_r)
        | no nb ↦
            let eb = update_ne tab r sidx b nb in
            t.path b x bl xl (subst Valid eb vb)
              (subst (λ s. OnPath (hash s % flow_hash_size) x b) eb on)
      ])
    ]

    old-Holds : (b : ℕ) → b < flow_hash_size → r ≢ b → update tab r sidx b ≡ sidx → Holds tab sidx b
    old-Holds b bl nb e =
        let e' = sym (update_ne tab r sidx b nb) ∙ e in
        record { in_range = bl; valid = subst Valid (sym e') v; same = e' }

    unique' :
        (b b' : ℕ)
        → b < flow_hash_size
        → b' < flow_hash_size
        → Valid (update tab r sidx b)
        → update tab r sidx b ≡ update tab r sidx b'
        → b ≡ b'
    unique' b b' bl bl' vb e = elim (ℕ_discrete r b) [
      | yes eb ↦ elim (ℕ_discrete r b') [
        | yes eb' ↦ sym eb ∙ eb'
        | no nb' ↦ absurd (nb' (stops_at r b' p (old-Holds b' bl' nb' (sym e ∙ put_self b eb))))
      ]
      | no nb ↦ elim (ℕ_discrete r b') [
        | yes eb' ↦ absurd (nb (stops_at r b p (old-Holds b bl nb (e ∙ put_self b' eb'))))
        | no nb' ↦
            let eb = update_ne tab r sidx b nb in
            t.unique b b' bl bl' (subst Valid eb vb) (sym eb ∙ e ∙ update_ne tab r sidx b' nb')
      ]
    ]

    pub update-IsHashTable : IsHashTable hash (update tab r sidx)
    update-IsHashTable = record { path = path'; unique = unique' }
