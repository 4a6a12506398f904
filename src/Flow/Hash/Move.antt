-- ===== src/Flow/Hash/Move.antt =====
-- A step of the loop of flow_hash_remove(): a side stays, or goes to the hole.
use native.Mathlib.Decide.{ℕ_discrete}
use passt.Base.{ℕ, ◌%◌, ◌≤◌, ◌<◌, ◌≡◌, ◌≢◌, sym, subst, ◌∙◌, arith, true, false, update, update_ne}
use passt.Flow.Hash.{FlowSidx, flow_sidx_valid, flow_hash_size, mod_sub, mod_between, HashTable}
use passt.Flow.Hash.Probe.{home_lt, step_lt}
use passt.Flow.Hash.Ring.{pos-injective, between_below, not_between}
use passt.Flow.Hash.Shift.{
  Valid, above, Shifting, update_cases, above_zero, home, scan_ne, above_pos, above_next,
}

module _ (hash : FlowSidx → ℕ) (z : ℕ) (tab : HashTable) (b s : ℕ)
    (t : Shifting hash z tab b s) where
  -- The scan goes past a side whose path does not reach the hole.
  pub past-Shifting :
      Valid (tab s)
      → mod_between (hash (tab s) % flow_hash_size) s b flow_hash_size ≡ true
      → Shifting hash z tab b (mod_sub s 1 flow_hash_size)
  past-Shifting v on =
      let next = (above_next hash z tab b s t) ((above_pos hash z tab b s t) s t.s_range v) in
      let sc = t.scan in
      record {
        z_range = t.z_range;
        b_range = t.b_range;
        s_range = step_lt flow_hash_size s t.s_range;
        z_free = t.z_free;
        scan = omega arith;
        home_above = t.home_above;
        path = t.path;
        scanned = λ c l vc p below. elim (ℕ_discrete s c) [
          | yes e ↦
              subst (λ x. above z (hash (tab x) % flow_hash_size) < above z b) e
                (between_below flow_hash_size z t.z_range ((home hash z tab b s t) s) s b
                  (home_lt (hash (tab s))) t.s_range t.b_range sc
                  (t.home_above s t.s_range (scan_ne hash z tab b s t) v) on)
          | no d ↦
              let apart : above z s ≢ above z c =
                λ e. d (pos-injective flow_hash_size z t.z_range s c t.s_range l e) in
              t.scanned c l vc (omega arith) below
        ];
        unique = t.unique;
      }

  module _ (v : Valid (tab s))
      (off : mod_between (hash (tab s) % flow_hash_size) s b flow_hash_size ≡ false) where
    moved : HashTable
    moved = update tab b (tab s)

    -- The (home hash z tab b s t) of the moved side is at or above the hole.
    gap : above z b ≤ above z ((home hash z tab b s t) s)
    gap =
        not_between flow_hash_size z t.z_range ((home hash z tab b s t) s) s b
          (home_lt (hash (tab s))) t.s_range t.b_range t.scan
          (t.home_above s t.s_range (scan_ne hash z tab b s t) v) off

    moved_path :
        (c x : ℕ)
        → c < flow_hash_size
        → x < flow_hash_size
        → c ≢ s
        → Valid (update tab b (tab s) c)
        → above z c < above z x
        → above z x ≤ above z (hash (update tab b (tab s) c) % flow_hash_size)
        → Valid (update tab b (tab s) x)
    moved_path c x cl xl nc =
        update_cases
          (λ a.
            Valid a
            → above z c < above z x
            → above z x ≤ above z (hash a % flow_hash_size)
            → Valid (update tab b (tab s) x))
          tab b (tab s) c
          (λ e vc p q.
            update_cases Valid tab b (tab s) x (λ d. v)
              (λ d.
                let sc = t.scan in
                let here : above z b < above z x = subst (λ y. above z y < above z x) (sym e) p in
                t.path s x t.s_range xl (scan_ne hash z tab b s t) v (omega arith) q))
          (λ n vc p q.
            update_cases Valid tab b (tab s) x (λ d. v)
              (λ d. t.path c x cl xl (λ e. n (sym e)) vc p q))

    moved_unique :
        (c c' : ℕ)
        → c < flow_hash_size
        → c' < flow_hash_size
        → c ≢ s
        → c' ≢ s
        → Valid (update tab b (tab s) c)
        → update tab b (tab s) c ≡ update tab b (tab s) c'
        → c ≡ c'
    moved_unique c c' l l' nc nc' =
        update_cases (λ a. Valid a → a ≡ update tab b (tab s) c' → c ≡ c') tab b (tab s) c
          (λ e vc.
            update_cases (λ a. tab s ≡ a → c ≡ c') tab b (tab s) c' (λ e' d. sym e ∙ e')
              (λ n' d. absurd (
                nc' (
                  sym (
                    t.unique s c' t.s_range l' (scan_ne hash z tab b s t) (λ x. n' (sym x)) v d)))))
          (λ n vc.
            update_cases (λ a. tab c ≡ a → c ≡ c') tab b (tab s) c'
              (λ e' d.
                absurd
                  (nc (t.unique c s l t.s_range (λ x. n (sym x)) (scan_ne hash z tab b s t) vc d)))
              (λ n' d. t.unique c c' l l' (λ x. n (sym x)) (λ x. n' (sym x)) vc d))

    -- The side at `s` goes to the hole, and leaves one.
    pub moved-Shifting : Shifting hash z (update tab b (tab s)) s (mod_sub s 1 flow_hash_size)
    moved-Shifting =
        let next = (above_next hash z tab b s t) ((above_pos hash z tab b s t) s t.s_range v) in
        let up = (above_pos hash z tab b s t) s t.s_range v in
        let sc = t.scan in
        let z_ne = above_zero z s b t.scan in
        record {
          z_range = t.z_range;
          b_range = t.s_range;
          s_range = step_lt flow_hash_size s t.s_range;
          z_free =
              subst (λ a. flow_sidx_valid a ≡ false) (sym (update_ne tab b (tab s) z z_ne))
                t.z_free;
          scan = omega arith;
          home_above = λ c l nc.
              update_cases (λ a. Valid a → above z c ≤ above z (hash a % flow_hash_size)) tab b
                (tab s) c
                (λ e vc. subst (λ y. above z y ≤ above z ((home hash z tab b s t) s)) e gap)
                (λ n vc. t.home_above c l (λ x. n (sym x)) vc);
          path = moved_path;
          scanned = λ c l vc p q. absurd (omega arith);
          unique = moved_unique;
        }
