-- ===== src/Flow/Hash/Stop.antt =====
-- The end of the loop of flow_hash_remove(): the hole becomes free.
use native.Mathlib.Decide.{ℕ_discrete, dec_lt}
use passt.Base.{
  clash, ℕ, ◌%◌, ◌≤◌, ◌<◌, ◌≡◌, ◌≢◌, refl, sym, subst, ap, ◌∙◌, arith, false, update, update_self,
  update_ne,
}
use passt.Flow.Hash.{FlowSidx, flow_sidx_none, flow_sidx_valid, flow_hash_size, HashTable}
use passt.Flow.Hash.Probe.{IsHashTable, OnPath, home_lt}
use passt.Flow.Hash.Ring.{pos-injective, on_path}
use passt.Flow.Hash.Shift.{Valid, above, Shifting, Shifted, update_cases, home}

module _ (hash : FlowSidx → ℕ) (z : ℕ) (tab : HashTable) (b s : ℕ)
    (t : Shifting hash z tab b s) where
  -- The end of the loop: the hole is no bucket of any path.
  end_path :
      (c : ℕ)
      → c < flow_hash_size
      → c ≢ b
      → Valid (tab c)
      → flow_sidx_valid (tab s) ≡ false
      → above z c < above z b
      → above z (hash (tab c) % flow_hash_size) < above z b
  end_path c l ne v stop below = elim (dec_lt (above z s) (above z c)) [
    | yes p ↦ t.scanned c l v p below
    | no n ↦ elim (dec_lt (above z (hash (tab c) % flow_hash_size)) (above z b)) [
      | yes q ↦ q
      | no m ↦ absurd (elim (ℕ_discrete c s) [
        | yes e ↦ clash (sym v ∙ ap (λ x. flow_sidx_valid (tab x)) e ∙ stop)
        | no d ↦
            let apart : above z c ≢ above z s =
              λ e. d (pos-injective flow_hash_size z t.z_range c s l t.s_range e) in
            let sc = t.scan in
            clash (sym (t.path c s l t.s_range ne v (omega arith) (omega arith)) ∙ stop)
      ])
    ]
  ]

  -- The loop ends: the hole becomes free.
  module _ (stop : flow_sidx_valid (tab s) ≡ false) where
    end-Valid : (c : ℕ) → Valid (update tab b flow_sidx_none c) → (b ≢ c) × Valid (tab c)
    end-Valid c =
        update_cases (λ a. Valid a → (b ≢ c) × Valid (tab c)) tab b flow_sidx_none c
          (λ e v. absurd (clash (sym v))) (λ n v. (n, v))

    end_same : (c : ℕ) → b ≢ c → update tab b flow_sidx_none c ≡ tab c
    end_same c n = update_ne tab b flow_sidx_none c n

    end-IsHashTable : IsHashTable hash (update tab b flow_sidx_none)
    end-IsHashTable = record {
      path = λ c x l xl v on.
          let (n, vc) = end-Valid c v in
          let n' : c ≢ b = λ e. n (sym e) in
          let on' = subst (λ a. OnPath (hash a % flow_hash_size) x c) (end_same c n) on in
          let hl = home_lt (hash (tab c)) in
          let (p, q) =
            on_path flow_hash_size z t.z_range ((home hash z tab b s t) c) x c hl xl l
              (t.home_above c l n' vc) on' in
          update_cases Valid tab b flow_sidx_none x
            (λ e.
              let below : above z c < above z b = subst (λ y. above z c < above z y) (sym e) p in
              let reach : above z b ≤ above z ((home hash z tab b s t) c) =
                subst (λ y. above z y ≤ above z ((home hash z tab b s t) c)) (sym e) q in
              let short = end_path c l n' vc stop below in absurd (omega arith))
            (λ nx. t.path c x l xl n' vc p q);
      unique = λ c c' l l' v e.
          let (n, vc) = end-Valid c v in
          let (n', vc') = end-Valid c' (subst Valid e v) in
          t.unique c c' l l' (λ x. n (sym x)) (λ x. n' (sym x)) vc
            (sym (end_same c n) ∙ e ∙ end_same c' n');
    }

    pub end-Shifted : Shifted hash tab b (update tab b flow_sidx_none)
    end-Shifted = record {
      table = end-IsHashTable;
      room = record {
        z = b;
        in_range = t.b_range;
        is_free =
            subst (λ a. flow_sidx_valid a ≡ false) (sym (update_self tab b flow_sidx_none)) refl;
      };
      kept = λ j (c, n, q).
          let e = end_same c (λ x. n (sym x)) in
          (
            c,
            record {
              in_range = q.in_range;
              valid = subst Valid (sym e) q.valid;
              same = e ∙ q.same;
            },
          );
      nothing_else = λ j c q.
          let (n, vc) = end-Valid c q.valid in
          (
            c,
            λ x. n (sym x),
            record { in_range = q.in_range; valid = vc; same = sym (end_same c n) ∙ q.same },
          );
    }
