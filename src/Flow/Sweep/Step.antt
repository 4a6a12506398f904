-- ===== src/Flow/Sweep/Step.antt =====
-- One entry of the sweep: no assertion fails, and the rebuilt part of the list grows over it.
use native.Mathlib.Decide.{dec_lt, ℕ_discrete}
use passt.Base.{
  ℕ, ◌+◌, ◌≤◌, ◌<◌, ◌≡◌, ◌≢◌, ◌⊎◌, refl, sym, ap, subst, arith, Bool, ◌&&◌, Option, none, some,
  update, ◌∙◌, if◌then◌else◌,
}
use passt.Flow.Types.{Flow, FlowCommon, free, type_none, flow_max, is_active, zero_common}
use passt.Flow.Clusters.{Clusters, Used, IsCluster, Blank}
use passt.Flow.Sweep.{Sweep, relink, relink_first, absorb}
use passt.Flow.Sweep.Prefix.{Prefix, more, none_yet, link-frame, Prefix-frame, relink-Prefix}

-- The common part of an entry after the sweep.
abbrev pub swept_common : (ℕ → Bool) → ℕ → FlowCommon → FlowCommon
swept_common to_free j f = if is_active f.state && to_free j then zero_common else f

-- The cluster that entries are added to ends just here, or a used entry or nothing is before.
abbrev pub HeadAt : Option ℕ → Option ℕ → ℕ → ℕ → Type 0
HeadAt none last e i = (last ≡ none) ⊎ (e < i)
HeadAt (some h) last e i = (last ≡ some h) × (e ≡ i)

-- The state of the sweep when it comes to the entry `i` of the table `t`.
pub record Swept (t : ℕ → Flow) (to_free : ℕ → Bool) (i : ℕ) (s : Sweep) : Type 0 where
  pub e : ℕ
  pub before : Prefix s.tab s.first_free s.last_next e
  pub low : e ≤ i
  pub gap : Used s.tab e i
  pub head : HeadAt s.free_head s.last_next e i
  pub start : ℕ
  pub after : Clusters s.tab i start
  pub rest : (j : ℕ) → i ≤ j → s.tab j ≡ t j
  pub settled : (j : ℕ) → j < i → (s.tab j).f ≡ swept_common to_free j (t j).f

pub relink-f : (t : ℕ → Flow) (last : Option ℕ) (v j : ℕ) → (relink t last v j).f ≡ (t j).f
unfolding relink update
relink-f t none v j = refl
relink-f t (some k) v j = ground arith

pub absorb-f : (t : ℕ → Flow) (h i n j : ℕ) → (absorb t h i n j).f ≡ (t j).f
unfolding absorb update
absorb-f t h i n j = ground arith

-- Entries past the last head keep what they are.
pub relink-above :
    {t : ℕ → Flow} {ff e : ℕ} {last : Option ℕ} (v j : ℕ)
    → Prefix t ff last e
    → e ≤ j
    → relink t last v j ≡ t j
unfolding relink update
relink-above v j (none_yet p q) l = rw p
relink-above v j (more last' e' h k rest a b c d i p q) l = rw p (ground (arith, i.some_entry))

-- A new cluster at `i` extends the prefix.
pub add-Prefix :
    {t : ℕ → Flow} {ff e i : ℕ} {last : Option ℕ} (k : ℕ)
    → Prefix t ff last e
    → e ≤ i
    → Used t e i
    → (last ≡ none) ⊎ (e < i)
    → IsCluster t i k
    → Prefix (relink t last i) (relink_first ff last i) (some i) (i + k)
add-Prefix {t} {ff} {e} {i} {last} k p low gap head c =
    let (p', linked) = relink-Prefix i p in
    more last e i k p' low
      (λ j a b. λ f. gap j a b (subst (λ y. y.state ≡ free) (relink-f t last i j) f)) head linked
      (record {
        head_free = subst (λ y. y.f.state ≡ free) (sym (same i low)) c.head_free;
        head_none = subst (λ y. y.f.flow_type ≡ type_none) (sym (same i low)) c.head_none;
        size = subst (λ y. y.n ≡ k) (sym (same i low)) c.size;
        some_entry = c.some_entry;
        inside = c.inside;
        rest = λ j a b. rw (same j (omega arith)) (c.rest j a b);
      })
      refl refl
  where
    same : (j : ℕ) → e ≤ j → relink t last i j ≡ t j
    same j l = relink-above i j p l

pub absorb_ne : (t : ℕ → Flow) (h i n j : ℕ) → j ≢ h → j ≢ i → absorb t h i n j ≡ t j
unfolding absorb update
absorb_ne t h i n j p q = ground arith

absorb_head : (t : ℕ → Flow) (h i n : ℕ) → h ≢ i → absorb t h i n h ≡ record (t h) { n = n }
unfolding absorb update
absorb_head t h i n p = ground arith

n-absorb : (t : ℕ → Flow) (h i n : ℕ) → (absorb t h i n i).n ≡ 0
unfolding absorb update
n-absorb t h i n = ground arith

-- Entries that a cluster can grow over: free, of no type, and blank but for the first.
pub record IsFree (t : ℕ → Flow) (i k : ℕ) : Type 0 where
  pub first_free : (t i).f.state ≡ free
  pub first_none : (t i).f.flow_type ≡ type_none
  pub blank : Blank t (i + 1) (i + k)
  pub pos : 1 ≤ k
  pub inside : i + k ≤ flow_max

pub IsFree-of_cluster : {t : ℕ → Flow} {i k : ℕ} → IsCluster t i k → IsFree t i k
IsFree-of_cluster c = record {
  first_free = c.head_free;
  first_none = c.head_none;
  blank = c.rest;
  pos = c.some_entry;
  inside = c.inside;
}

absorb-IsCluster :
    (t : ℕ → Flow) (h i k m : ℕ)
    → IsCluster t h m
    → h + m ≡ i
    → IsFree t i k
    → IsCluster (absorb t h i (m + k)) h (m + k)
absorb-IsCluster t h i k m c e w = record {
  head_free = ap (λ f. f.state) (absorb-f t h i (m + k) h) ∙ c.head_free;
  head_none = ap (λ f. f.flow_type) (absorb-f t h i (m + k) h) ∙ c.head_none;
  size = ap (λ y. y.n) (absorb_head t h i (m + k) (λ q. omega (arith, c.some_entry)));
  some_entry = omega (arith, w.pos);
  inside = omega (arith, w.inside);
  rest = λ j p q. elim (dec_lt j i) [
    | yes below ↦
        rw (absorb_ne t h i (m + k) j (λ r. omega arith) (λ r. omega arith))
          (c.rest j p (omega arith))
    | no above ↦ elim (ℕ_discrete j i) [
      | yes here ↦ rw here (
        ap (λ f. f.state) (absorb-f t h i (m + k) i) ∙ w.first_free,
        ap (λ f. f.flow_type) (absorb-f t h i (m + k) i) ∙ w.first_none,
        n-absorb t h i (m + k),
      )
      | no ne ↦
          rw (absorb_ne t h i (m + k) j (λ r. omega arith) ne)
            (w.blank j (omega arith) (omega arith))
    ]
  ];
}

-- Free entries just behind the last cluster are counted into it.
pub absorb-Prefix :
    {t : ℕ → Flow} {ff h i : ℕ} {last : Option ℕ} {e : ℕ} (k : ℕ)
    → Prefix t ff last e
    → last ≡ some h
    → e ≡ i
    → IsFree t i k
    → Prefix (absorb t h i ((t h).n + k)) ff (some h) (i + k) × (h + (t h).n ≡ i) × (h < i)
absorb-Prefix k (none_yet p q) e at_i w = ground arith
absorb-Prefix {t} {ff} {h} {i} k (more last' e' h' m rest a b c d x p q) e at_i w =
    let same : h' ≡ h = ground arith in
    let here : IsCluster t h m = subst (λ y. IsCluster t y m) same x in
    let ends : h + m ≡ i = omega arith in
    (
      more last' e' h (m + k)
          (Prefix-frame (λ j l. low j (omega arith) (omega (arith, here.some_entry))) rest)
          (omega arith)
          (λ j y z f.
            b j y (omega arith)
              (subst (λ r. r.f.state ≡ free) (low j (omega arith) (omega arith)) f))
          (rw same at c)
          (link-frame (λ j l. low j (omega arith) (omega (arith, here.some_entry))) rest
            ∙ (d ∙ same))
          (rw here.size (absorb-IsCluster t h i k m here ends w)) refl (omega arith),
      rw here.size ends,
      omega (arith, here.some_entry),
    )
  where
    low : (j : ℕ) → j < h → j < i → absorb t h i ((t h).n + k) j ≡ t j
    low j p q = absorb_ne t h i ((t h).n + k) j (λ r. omega arith) (λ r. omega arith)
