-- ===== src/Flow/Clusters.antt =====
-- The shape of the free list: clusters of free entries in increasing order of index, with used
-- entries alone between them.
use native.Mathlib.Decide.{dec_lt, ℕ_discrete}
use native.Mathlib.Nat.{le_refl, le_trans, le-add_right}
use passt.Base.{ℕ, ◌+◌, ◌≤◌, ◌<◌, ◌≡◌, ◌≢◌, ◌⊎◌, inl, inr, refl, subst, arith}
use passt.Flow.Types.{Flow, free, type_none, flow_max}

-- All entries of [lo, hi) are in use.
abbrev pub Used : (ℕ → Flow) → ℕ → ℕ → Type 0
Used t lo hi = (j : ℕ) → lo ≤ j → j < hi → (t j).f.state ≢ free

-- The entries of [lo, hi) are free and hold no cluster's data.
abbrev pub Blank : (ℕ → Flow) → ℕ → ℕ → Type 0
Blank t lo hi =
    (j : ℕ)
    → lo ≤ j
    → j < hi
    → ((t j).f.state ≡ free) × ((t j).f.flow_type ≡ type_none) × ((t j).n ≡ 0)

-- The entry at `h` heads a cluster of `k` entries.
pub record IsCluster (t : ℕ → Flow) (h k : ℕ) : Type 0 where
  pub head_free : (t h).f.state ≡ free
  pub head_none : (t h).f.flow_type ≡ type_none
  pub size : (t h).n ≡ k
  pub some_entry : 1 ≤ k
  pub inside : h + k ≤ flow_max
  pub rest : Blank t (h + 1) (h + k)

pub free_inside :
    {t : ℕ → Flow} {h k : ℕ} (j : ℕ) → IsCluster t h k → h ≤ j → j < h + k → (t j).f.state ≡ free
free_inside {t} {h} j c p q = elim (ℕ_discrete h j) [
  | yes e ↦ subst (λ x. (t x).f.state ≡ free) e c.head_free
  | no ne ↦ (c.rest j (omega arith) q).0
]

-- From the entry `lo` on, the table is the free list that starts at `start`.
pub data Clusters (t : ℕ → Flow) : ℕ → ℕ → Type 0 where
  last :
      {lo start : ℕ} → start ≡ flow_max → lo ≤ flow_max → Used t lo flow_max → Clusters t lo start
  cluster :
      {lo start : ℕ} (k next end : ℕ)
      → end ≡ start + k
      → lo ≤ start
      → Used t lo start
      → IsCluster t start k
      → (t start).next ≡ next
      → Clusters t end next
      → Clusters t lo start

-- A list that is not over, taken apart.
pub record Head (t : ℕ → Flow) (lo start : ℕ) : Type 0 where
  pub k : ℕ
  pub end : ℕ
  pub end_eq : end ≡ start + k
  pub above : lo ≤ start
  pub used : Used t lo start
  pub here : IsCluster t start k
  pub tail : Clusters t end (t start).next

pub Clusters-cases :
    {t : ℕ → Flow} {lo start : ℕ}
    → Clusters t lo start
    → ((start ≡ flow_max) × (lo ≤ flow_max) × Used t lo flow_max) ⊎ Head t lo start
Clusters-cases (last e h used) = inl (e, h, used)
Clusters-cases {t} (cluster k next end e h used c link cs) =
    inr
      (record { k = k; end = end; end_eq = e; above = h; used = used; here = c; tail = rw link cs })

pub Clusters_of_head : {t : ℕ → Flow} {lo start : ℕ} → Head t lo start → Clusters t lo start
Clusters_of_head {t} {lo} {start} h =
    cluster h.k (t start).next h.end h.end_eq h.above h.used h.here refl h.tail

-- The start of a list lies in the table or just past it.
pub start-le : {t : ℕ → Flow} {lo start : ℕ} → Clusters t lo start → start ≤ flow_max
start-le (last e h used) = omega arith
start-le (cluster k next end e h used c link cs) = omega (arith, c.inside)

pub lo-le-start : {t : ℕ → Flow} {lo start : ℕ} → Clusters t lo start → lo ≤ start
lo-le-start (last e h used) = omega arith
lo-le-start (cluster k next end e h used c link cs) = h

pub Used-below : {t : ℕ → Flow} {lo start : ℕ} → Clusters t lo start → Used t lo start
Used-below (last e h used) = λ j p q. used j p (omega arith)
Used-below (cluster k next end e h used c link cs) = used

-- An entry that two tables agree on, or that is in use in both.
abbrev pub Alike : (ℕ → Flow) → (ℕ → Flow) → ℕ → Type 0
Alike t u j = (u j ≡ t j) ⊎ (((t j).f.state ≢ free) × ((u j).f.state ≢ free))

pub Used-frame :
    (t u : ℕ → Flow) (lo hi : ℕ)
    → ((j : ℕ) → lo ≤ j → j < hi → Alike t u j)
    → Used t lo hi
    → Used u lo hi
Used-frame t u lo hi alike used j p q = elim (alike j p q) [
  | inl e ↦ rw e (used j p q)
  | inr n ↦ n.1
]

-- A free entry that is alike is the same.
same_of_free : (t u : ℕ → Flow) (j : ℕ) → Alike t u j → (t j).f.state ≡ free → u j ≡ t j
same_of_free t u j (inl e) h = e
same_of_free t u j (inr n) h = absurd (n.0 h)

pub IsCluster-frame :
    (t u : ℕ → Flow) {h k : ℕ} → ((j : ℕ) → h ≤ j → Alike t u j) → IsCluster t h k → IsCluster u h k
IsCluster-frame t u {h} {k} alike c =
    let same : u h ≡ t h = same_of_free t u h (alike h (le_refl h)) c.head_free in
    record {
      head_free = rw same c.head_free;
      head_none = rw same c.head_none;
      size = rw same c.size;
      some_entry = c.some_entry;
      inside = c.inside;
      rest = λ j p q.
          let b = c.rest j p q in
          let e : u j ≡ t j = same_of_free t u j (alike j (le_trans (le-add_right h 1) p)) b.0 in
          rw e b;
    }

-- The entries from `lo` on decide the list, and of those in use only that they are.
pub Clusters-frame :
    {t u : ℕ → Flow} {lo start : ℕ}
    → ((j : ℕ) → lo ≤ j → Alike t u j)
    → Clusters t lo start
    → Clusters u lo start
Clusters-frame {t} {u} {lo} alike (last e h used) =
    last e h (Used-frame t u lo flow_max (λ j p q. alike j p) used)
Clusters-frame {t} {u} {lo} {start} alike (cluster k next end e h used c link cs) =
    cluster k next end e h (Used-frame t u lo start (λ j p q. alike j p) used)
      (IsCluster-frame t u (λ j p. alike j (omega arith)) c)
      (rw (same_of_free t u start (alike start h) c.head_free) link)
      (Clusters-frame (λ j p. alike j (omega (arith, c.some_entry))) cs)

-- A list may be read from a later entry that is not past its start, and from an earlier one with
-- used entries in between.
pub Clusters-raise :
    {t : ℕ → Flow} {lo start : ℕ} (lo' : ℕ)
    → lo ≤ lo'
    → lo' ≤ start
    → Clusters t lo start
    → Clusters t lo' start
Clusters-raise lo' p q (last e h used) = last e (omega arith) (λ j a b. used j (omega arith) b)
Clusters-raise lo' p q (cluster k next end e h used c link cs) =
    cluster k next end e q (λ j a b. used j (omega arith) b) c link cs

Used-join : (t : ℕ → Flow) (lo mid hi : ℕ) → Used t lo mid → Used t mid hi → Used t lo hi
Used-join t lo mid hi a b j p q = elim (dec_lt j mid) [
  | yes l ↦ a j p l
  | no g ↦ b j (omega arith) q
]

pub Clusters-lower :
    {t : ℕ → Flow} {lo start : ℕ} (lo' : ℕ)
    → lo' ≤ lo
    → Used t lo' lo
    → Clusters t lo start
    → Clusters t lo' start
Clusters-lower {t} {lo} lo' p low (last e h used) =
    last e (omega arith) (Used-join t lo' lo flow_max low used)
Clusters-lower {t} {lo} {start} lo' p low (cluster k next end e h used c link cs) =
    cluster k next end e (omega arith) (Used-join t lo' lo start low used) c link cs
