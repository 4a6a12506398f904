-- ===== src/Flow/Hash/Remove.antt =====
-- Removal from the hash table of flow.c.
use native.Mathlib.Decide.{ℕ_discrete, dec_lt}
use passt.Base.{
  clash, ℕ, zero, suc, ◌-◌, ◌%◌, ◌<◌, ◌≤◌, ◌≡◌, ◌≢◌, inl, inr, sym, subst, ap, ◌∙◌, arith, false,
  some, update, update_self, update_ne, Bool-cases,
}
use passt.Flow.Hash.{
  FlowSidx, flow_sidx_none, flow_sidx_valid, flow_hash_size, HashTable, flow_hash_remove,
  shift_from, mod_sub, mod_between,
}
use passt.Flow.Hash.Probe.{IsHashTable, HasFree, home_lt, fuel_lt, step_lt}
use passt.Flow.Hash.Insert.{Stored, IsFound, flow_hash_probe-IsFound}
use passt.Flow.Hash.Ring.{pos-injective, pos_step, crosses, path_on}
use passt.Flow.Hash.Shift.{
  Valid, above, Shifting, Elsewhere, Shifted, scan_ne, above_pos, above_next,
}
use passt.Flow.Hash.Move.{past-Shifting, moved-Shifting}
use passt.Flow.Hash.Stop.{end-Shifted}

-- What a table holds after the side at `s` has gone to the hole at `b`.
module _ (hash : FlowSidx → ℕ) (z : ℕ) (tab : HashTable) (b s : ℕ) (t : Shifting hash z tab b s)
    (v : Valid (tab s)) where
  abbrev moved : HashTable
  moved = update tab b (tab s)

  still : (j : FlowSidx) → Elsewhere tab b j → Elsewhere moved s j
  still j (c, n, q) = elim (ℕ_discrete c s) [
    | yes e ↦
        let same = sym (ap tab e) ∙ q.same in
        (
          b,
          λ x. scan_ne hash z tab b s t (sym x),
          record {
            in_range = t.b_range;
            valid = subst Valid (sym (update_self tab b (tab s))) v;
            same = update_self tab b (tab s) ∙ same;
          },
        )
    | no d ↦
        let e = update_ne tab b (tab s) c (λ x. n (sym x)) in
        (
          c,
          d,
          record { in_range = q.in_range; valid = subst Valid (sym e) q.valid; same = e ∙ q.same },
        )
  ]

  before : (j : FlowSidx) → Elsewhere moved s j → Elsewhere tab b j
  before j (c, n, q) = elim (ℕ_discrete b c) [
    | yes e ↦ (
      s,
      scan_ne hash z tab b s t,
      record {
        in_range = t.s_range;
        valid = v;
        same = sym (update_self tab b (tab s)) ∙ ap moved e ∙ q.same;
      },
    )
    | no d ↦
        let e = update_ne tab b (tab s) c d in
        (
          c,
          λ x. d (sym x),
          record { in_range = q.in_range; valid = subst Valid e q.valid; same = sym e ∙ q.same },
        )
  ]

  moved-Shifted : (tab' : HashTable) → Shifted hash moved s tab' → Shifted hash tab b tab'
  moved-Shifted tab' r = record {
    table = r.table;
    room = r.room;
    kept = λ j e. r.kept j (still j e);
    nothing_else = λ j c q. before j (r.nothing_else j c q);
  }

-- The loop ends before the scan has come round to a free bucket.
shift_from-Shifted :
    (hash : FlowSidx → ℕ) (z fuel : ℕ) (tab : HashTable) (b s : ℕ)
    → Shifting hash z tab b s
    → above z s < fuel
    → (tab' : HashTable) × (shift_from hash tab fuel b s ≡ some tab') × Shifted hash tab b tab'
unfolding shift_from
shift_from-Shifted hash z zero tab b s t l = absurd (omega arith)
shift_from-Shifted hash z (suc fuel) tab b s t l = elim (Bool-cases (flow_sidx_valid (tab s))) [
  | inr stop ↦
      (update tab b flow_sidx_none, rw (stop, shift_from), end-Shifted hash z tab b s t stop)
  | inl v ↦
      let up = above_pos hash z tab b s t s t.s_range v in
      let next = above_next hash z tab b s t up in
      elim (Bool-cases (mod_between (hash (tab s) % flow_hash_size) s b flow_hash_size)) [
        | inl on ↦
            let (tab', e, r) =
              shift_from-Shifted hash z fuel tab b (mod_sub s 1 flow_hash_size)
                (past-Shifting hash z tab b s t v on) (omega arith) in
            (tab', rw (v, on, shift_from) e, r)
        | inr off ↦
            let (tab', e, r) =
              shift_from-Shifted hash z fuel (update tab b (tab s)) s (mod_sub s 1 flow_hash_size)
                (moved-Shifting hash z tab b s t v off) (omega arith) in
            (tab', rw (v, off, shift_from) e, moved-Shifted hash z tab b s t v tab' r)
      ]
]

-- The table `tab'` holds the sides of `tab` but for `sidx`, each reachable.
pub record Removed (hash : FlowSidx → ℕ) (tab : HashTable) (sidx : FlowSidx) (tab' : HashTable)
    : Type 0 where
  pub table : IsHashTable hash tab'
  pub room : HasFree tab'
  pub gone : Stored tab' sidx → ⊥
  pub kept : (j : FlowSidx) → j ≢ sidx → Stored tab j → Stored tab' j
  pub nothing_else : (j : FlowSidx) → Stored tab' j → Stored tab j

module _ (hash : FlowSidx → ℕ) (tab : HashTable) (t : IsHashTable hash tab) (f : HasFree tab) where
  -- A side is below its home, counted from the free bucket.
  below_home :
      (c : ℕ)
      → c < flow_hash_size
      → Valid (tab c)
      → above f.z c ≤ above f.z (hash (tab c) % flow_hash_size)
  below_home c l v = elim (dec_lt (above f.z (hash (tab c) % flow_hash_size)) (above f.z c)) [
    | no n ↦ omega arith
    | yes p ↦
        let hl = home_lt (hash (tab c)) in
        let on = crosses flow_hash_size f.z f.in_range (hash (tab c) % flow_hash_size) c hl l p in
        absurd (clash (sym (t.path c f.z l f.in_range v on) ∙ f.is_free))
  ]

  above_free : (r : ℕ) → r < flow_hash_size → Valid (tab r) → 0 < above f.z r
  above_free r l v = elim (dec_lt 0 (above f.z r)) [
    | yes p ↦ p
    | no n ↦
        let e : r ≡ f.z =
          pos-injective flow_hash_size f.z f.in_range r f.z l f.in_range (ground arith) in
        absurd (clash (sym v ∙ ap (λ x. flow_sidx_valid (tab x)) e ∙ f.is_free))
  ]

  start-Shifting :
      (r : ℕ)
      → r < flow_hash_size
      → Valid (tab r)
      → Shifting hash f.z tab r (mod_sub r 1 flow_hash_size)
  start-Shifting r l v =
      let up = above_free r l v in
      let next : above f.z (mod_sub r 1 flow_hash_size) ≡ above f.z r - 1 =
        pos_step flow_hash_size f.z f.in_range r l up in
      record {
        z_range = f.in_range;
        b_range = l;
        s_range = step_lt flow_hash_size r l;
        z_free = f.is_free;
        scan = omega arith;
        home_above = λ c cl n vc. below_home c cl vc;
        path = λ c x cl xl n vc p q. t.path c x cl xl vc (
            path_on flow_hash_size f.z f.in_range (hash (tab c) % flow_hash_size) x c
              (home_lt (hash (tab c))) xl cl p q);
        scanned = λ c cl vc p q. absurd (omega arith);
        unique = λ c c' cl cl' n n' vc e. t.unique c c' cl cl' vc e;
      }

  module _ (sidx : FlowSidx) where
    -- The bucket holds the side.
    taken-Removed :
        (r : ℕ) (q : IsFound tab sidx r) (tab' : HashTable)
        → tab r ≡ sidx
        → Shifted hash tab r tab'
        → Removed hash tab sidx tab'
    taken-Removed r q tab' e s = record {
      table = s.table;
      room = s.room;
      gone = λ (c, h). let (c', n, h') = s.nothing_else sidx c h in n (sym (q.only c' h'));
      kept = λ j n (c, h). s.kept j (c, λ x. n (sym h.same ∙ ap tab x ∙ e), h);
      nothing_else = λ j (c, h). let (c', n, h') = s.nothing_else j c h in (c', h');
    }

    -- The bucket is free.
    absent-Removed :
        (r : ℕ) (q : IsFound tab sidx r)
        → flow_sidx_valid (tab r) ≡ false
        → Removed hash tab sidx tab
    absent-Removed r q off = record {
      table = t;
      room = f;
      gone = λ (c, h).
          clash (sym h.valid ∙ ap (λ x. flow_sidx_valid (tab x)) (sym (q.only c h)) ∙ off);
      kept = λ j n h. h;
      nothing_else = λ j h. h;
    }

    -- In a table with a free bucket where every side is reachable from its home,
    -- flow_hash_remove() ends and leaves a table with a free bucket where every side is
    -- reachable and stored once, which holds all sides stored before but for the given one, and
    -- no others.
    pub flow_hash_remove-Removed :
        (tab' : HashTable) × (flow_hash_remove hash tab sidx ≡ some tab')
        × Removed hash tab sidx tab'
    unfolding flow_hash_remove
    flow_hash_remove-Removed =
        let (r, e, q) = flow_hash_probe-IsFound hash tab t f sidx in
        elim (Bool-cases (flow_sidx_valid (tab r))) [
          | inr off ↦ (tab, rw (e, off, flow_hash_remove), absent-Removed r q off)
          | inl v ↦
              let same : tab r ≡ sidx = elim q.ends [
                | inl off ↦ absurd (clash (sym v ∙ off))
                | inr same ↦ same
              ] in
              let b = mod_sub r 1 flow_hash_size in
              let (tab', e', s) =
                shift_from-Shifted hash f.z flow_hash_size tab r b (start-Shifting r q.in_range v)
                  (fuel_lt flow_hash_size b f.z (step_lt flow_hash_size r q.in_range) f.in_range) in
              (tab', rw (e, v, flow_hash_remove) e', taken-Removed r q tab' same s)
        ]
