-- ===== src/Flow/Sweep/Prefix.antt =====
-- The part of the free list that the sweep has rebuilt: clusters with used entries between them,
-- and a last link that is still to be written.
use native.Mathlib.Decide.{dec_lt, ℕ_discrete}
use passt.Base.{
  ℕ, ◌+◌, ◌≤◌, ◌<◌, ◌≡◌, ◌≢◌, ◌⊎◌, inl, inr, refl, sym, ap, arith, Option, none, some, update, ◌∙◌,
  subst,
}
use passt.Flow.Types.{Flow, free}
use passt.Flow.Table.{set_next}
use passt.Flow.Clusters.{Clusters, cluster, Used, IsCluster, Used-frame}
use passt.Flow.Sweep.{relink, relink_first}

-- What the pointer `last_next` points at.
abbrev pub link : (ℕ → Flow) → ℕ → Option ℕ → ℕ
link t ff none = ff
link t ff (some k) = (t k).next

-- The clusters below `e`, the last of which is at `last`.
pub data Prefix (t : ℕ → Flow) (ff : ℕ) : Option ℕ → ℕ → Type 0 where
  none_yet : {last : Option ℕ} {e : ℕ} → last ≡ none → e ≡ 0 → Prefix t ff last e
  more :
      {last : Option ℕ} {e : ℕ} (last' : Option ℕ) (e' h k : ℕ)
      → Prefix t ff last' e'
      → e' ≤ h
      → Used t e' h
      → (last' ≡ none) ⊎ (e' < h)
      → link t ff last' ≡ h
      → IsCluster t h k
      → last ≡ some h
      → e ≡ h + k
      → Prefix t ff last e

pub last-lt :
    {t : ℕ → Flow} {ff e : ℕ} {last : Option ℕ} (l : ℕ) → Prefix t ff last e → last ≡ some l → l < e
last-lt l (none_yet p q) h = ground arith
last-lt l (more last' e' h k rest a b c d i p q) e = ground (arith, i.some_entry)

-- Entries below the end decide the prefix.
pub link-frame :
    {t u : ℕ → Flow} {ff e : ℕ} {last : Option ℕ}
    → ((j : ℕ) → j < e → u j ≡ t j)
    → Prefix t ff last e
    → link u ff last ≡ link t ff last
link-frame {t} {u} {ff} {e} {last} same p =
    elim last as (λ l. last ≡ l → link u ff l ≡ link t ff l) [
      | none ↦ λ q. refl
      | some k ↦ λ q. ap (λ f. f.next) (same k (last-lt k p q))
    ]
      refl

Used-of_same :
    (t u : ℕ → Flow) (lo hi : ℕ)
    → ((j : ℕ) → lo ≤ j → j < hi → u j ≡ t j)
    → Used t lo hi
    → Used u lo hi
Used-of_same t u lo hi same = Used-frame t u lo hi (λ j p q. inl (same j p q))

-- An entry at or past the end of a cluster does not bear on it.
IsCluster-of_same :
    (t u : ℕ → Flow) {h k : ℕ}
    → ((j : ℕ) → h ≤ j → j < h + k → u j ≡ t j)
    → IsCluster t h k
    → IsCluster u h k
IsCluster-of_same t u {h} {k} same c =
    let here : u h ≡ t h = same h (omega arith) (omega (arith, c.some_entry)) in
    record {
      head_free = rw here c.head_free;
      head_none = rw here c.head_none;
      size = rw here c.size;
      some_entry = c.some_entry;
      inside = c.inside;
      rest = λ j p q. rw (same j (omega arith) q) (c.rest j p q);
    }

pub Prefix-frame :
    {t u : ℕ → Flow} {ff e : ℕ} {last : Option ℕ}
    → ((j : ℕ) → j < e → u j ≡ t j)
    → Prefix t ff last e
    → Prefix u ff last e
Prefix-frame same (none_yet p q) = none_yet p q
Prefix-frame {t} {u} same (more last' e' h k rest a b c d i p q) =
    more last' e' h k (Prefix-frame (λ j l. same j (omega arith)) rest) a
      (Used-of_same t u e' h (λ j x y. same j (omega (arith, i.some_entry))) b) c
      (link-frame (λ j l. same j (omega arith)) rest ∙ d)
      (IsCluster-of_same t u (λ j x y. same j (omega arith)) i) p q

-- Writing the link of a cluster's head leaves the cluster as it is.
IsCluster-set_next : (t : ℕ → Flow) (h k v : ℕ) → IsCluster t h k → IsCluster (set_next t h v) h k
unfolding update
IsCluster-set_next t h k v c = record {
  head_free = ground (arith, c.head_free);
  head_none = ground (arith, c.head_none);
  size = ground (arith, c.size);
  some_entry = c.some_entry;
  inside = c.inside;
  rest = λ j p q. ground (arith, c.rest j);
}

-- The last link can be written.
pub relink-Prefix :
    {t : ℕ → Flow} {ff e : ℕ} {last : Option ℕ} (v : ℕ)
    → Prefix t ff last e
    → Prefix (relink t last v) (relink_first ff last v) last e
      × (link (relink t last v) (relink_first ff last v) last ≡ v)
unfolding relink relink_first update
relink-Prefix {last} v (none_yet p q) = rw p (none_yet refl q, refl)
relink-Prefix {t} {ff} {e} {last} v (more last' e' h k rest a b c d i p q) = rw p (
  more last' e' h k (Prefix-frame (λ j l. ground arith) rest) a
      (Used-of_same t (set_next t h v) e' h (λ j x y. ground arith) b) c
      (link-frame {t = t} {u = set_next t h v} (λ j l. ground arith) rest ∙ d)
      (IsCluster-set_next t h k v i) refl q,
  ground arith,
)

-- A rebuilt prefix and a list that its last link starts are one list.
pub Prefix-Clusters :
    {t : ℕ → Flow} {ff e : ℕ} {last : Option ℕ}
    → Prefix t ff last e
    → Clusters t e (link t ff last)
    → Clusters t 0 ff
Prefix-Clusters {t} {ff} {e} {last} (none_yet p q) cs =
    subst (λ x. Clusters t x ff) q (subst (λ l. Clusters t e (link t ff l)) p cs)
Prefix-Clusters {t} {ff} {e} {last} (more last' e' h k rest a b c d i p q) cs =
    Prefix-Clusters rest (
      subst (λ x. Clusters t e' x) (sym d)
        (cluster k (t h).next e q a b i refl (subst (λ l. Clusters t e (link t ff l)) p cs)))

empty-zero : {t : ℕ → Flow} {ff e : ℕ} {last : Option ℕ} → Prefix t ff last e → last ≡ none → e ≡ 0
empty-zero (none_yet p q) h = q
empty-zero (more last' e' h k rest a b c d i p q) e = ground arith

-- The clusters of a prefix are maximal: behind one is a used entry, or its end.
pub Prefix-maximal :
    {t : ℕ → Flow} {ff e : ℕ} {last : Option ℕ} (x m : ℕ)
    → Prefix t ff last e
    → IsCluster t x m
    → x < e
    → (x + m ≤ e) × (x + m < e → (t (x + m)).f.state ≢ free)
Prefix-maximal x m (none_yet p q) i l = absurd (omega arith)
Prefix-maximal {t} {e = e} x m (more last' e' h k rest a b c d i p q) ix l = elim (dec_lt x e') [
  | yes low ↦
      let ih = Prefix-maximal x m rest ix low in
      (
        omega (arith, ih.0),
        λ r. elim (dec_lt (x + m) e') [
          | yes inner ↦ ih.1 inner
          | no outer ↦
              let at_end : x + m ≡ e' = omega (arith, ih.0) in
              elim c [
                | inl first ↦ absurd (omega (arith, empty-zero rest first))
                | inr gap ↦ b (x + m) (omega arith) (omega arith)
              ]
        ],
      )
  | no high ↦ elim (ℕ_discrete x h) [
    | yes at_head ↦
        let same_size : m ≡ k = sym ix.size ∙ (ap (λ y. (t y).n) at_head ∙ i.size) in
        (omega arith, λ r. absurd (omega arith))
    | no ne ↦ elim (dec_lt x h) [
      | yes below ↦ absurd (b x (omega arith) below ix.head_free)
      | no above ↦
          absurd (omega (arith, i.rest x (omega arith) (omega arith), ix.size, ix.some_entry))
    ]
  ]
]
