-- ===== src/Dhcp/Replied.antt =====
-- fill(): the bytes of the options field.
use mathlib.Core.Path.{ap₂}
use mathlib.Core.List.{append_assoc}
use passt.Base.{
  length-replicate, ℕ, zero, suc, ◌+◌, ◌-◌, ◌≤◌, ◌<◌, ◌≡◌, ◌⊎◌, inl, inr, refl, sym, ap, ◌∙◌, subst,
  arith, Bool, true, false, not, ◌&&◌, some, List, [], ◌∷◌, ◌++◌, length, replicate, ltb, ◌==◌,
  if◌then◌else◌, update, update_self, update_ne, ltb→lt, not_ltb, Bool-cases,
}
use passt.Iov.{Memory, load, store}
use passt.Iov.Bytes.{range}
use passt.Iov.Load.{store_past, load-store, load-append, load-store_before, load-update_out}
use passt.Iov.Copy.{length-load}
use passt.Dhcp.{
  Opt, Reply, opt_max, opt_min, slen_size, is_served, has, requested, fill_requested, fill_rest,
  clear_sent, fill_first, end_fill, fill,
}
use passt.Dhcp.Fill.{
  options, IsServable, Filled, Tried, not_wanted, no_space, put, fill_if-Tried, served_slen,
}
use passt.Dhcp.Loops.{Sub, fill_by-Puts, fill_requested_lem, fill_rest_lem, fill_by}

-- The end of the options field: the end option, and zeros up to OPT_MIN.
record Ended (o0 : Memory) (bs : List ℕ) (r : Reply) : Type 0 where
  pub least : opt_min ≤ r.offset
  pub most : r.offset ≤ opt_max + 1
  pub beyond : (k : ℕ) → opt_max < k → r.o k ≡ o0 k
  pub field : (k : ℕ) × (load r.o 0 r.offset ≡ bs ++ 255 ∷ replicate k 0)

load-update_end : (o : Memory) (n b : ℕ) → load (update o n b) 0 (n + 1) ≡ load o 0 n ++ b ∷ []
unfolding load
load-update_end o n b =
    load-append (update o n b) 0 n 1
    ∙ ap₂ (λ x y. x ++ y) (load-update_out o n b 0 n (λ k l e. omega arith))
        (ap (λ a. update o n b a ∷ []) {x = 0 + n} {y = n} (omega arith)
          ∙ ap (λ x. x ∷ []) (update_self o n b))

end_fill-Ended :
    (o0 : Memory) (m : Reply) (bs : List ℕ)
    → m.offset ≤ opt_max
    → ((k : ℕ) → opt_max < k → m.o k ≡ o0 k)
    → load m.o 0 m.offset ≡ bs
    → Ended o0 bs (end_fill m)
unfolding end_fill
end_fill-Ended o0 m bs h b e =
    let n : ℕ = m.offset + 1 in
    let o : Memory = update m.o m.offset 255 in
    let now : load o 0 n ≡ bs ++ 255 ∷ [] =
      load-update_end m.o m.offset 255 ∙ ap (λ x. x ++ 255 ∷ []) e in
    elim (Bool-cases (ltb n opt_min)) [
      | inr q ↦ rw q (record {
        least = not_ltb n opt_min q;
        most = omega arith;
        beyond = λ j l. update_ne m.o m.offset 255 j (omega arith) ∙ b j l;
        field = (0, now);
      })
      | inl q ↦
          let k : ℕ = opt_min - n in
          let zeros : List ℕ = replicate k 0 in
          let count : length zeros ≡ k = length-replicate k 0 in
          let up : n < opt_min = ltb→lt n opt_min q in
          rw q (record {
            least = omega arith;
            most = omega arith;
            beyond = λ j l.
                store_past o n zeros j (omega (arith, up, count))
                ∙ update_ne m.o m.offset 255 j (omega arith)
                ∙ b j l;
            field = (
              k,
              ap (load (store o n zeros) 0) {x = opt_min} {y = n + length zeros}
                    (omega (arith, up, count))
                  ∙ load-append (store o n zeros) 0 n (length zeros)
                  ∙ ap (λ x. load (store o n zeros) 0 n ++ load (store o n zeros) x (length zeros))
                      {x = 0 + n} {y = n} (omega arith)
                  ∙ ap₂ (λ x y. x ++ y) (load-store_before o n zeros 0 n (omega arith) ∙ now)
                      (load-store o n zeros)
                  ∙ append_assoc bs (255 ∷ []) zeros,
            );
          })
    ]

-- Whether option 53 comes first, and what does.
abbrev pub type_first : List ℕ → List ℕ
type_first asked = if not (length asked == 0) && not (has 53 asked) then 53 ∷ [] else []

-- The options field of a reply, for a client that asks for the options `asked`: option 53 if it does
-- not ask for it, some of those it asks for, in its order, and some of the others, in ascending order;
-- then the end option and zeros. One that is left out has no space.
pub record Replied (o0 : Memory) (opts : ℕ → Opt) (asked : List ℕ) (r : Reply) : Type 0 where
  pub answers : List ℕ
  pub rest : List ℕ
  pub least : opt_min ≤ r.offset
  pub most : r.offset ≤ opt_max + 1
  pub beyond : (k : ℕ) → opt_max < k → r.o k ≡ o0 k
  pub field :
      (k : ℕ) × (load r.o 0 r.offset
        ≡ options opts ((type_first asked ++ answers) ++ rest) ++ 255 ∷ replicate k 0)
  pub as_asked : Sub answers asked
  pub ascending : Sub rest (range 0 255)
  pub not_again : (c : ℕ) → has c rest ≡ true → has c (type_first asked ++ answers) ≡ false
  pub all_served :
      (c : ℕ) → has c ((type_first asked ++ answers) ++ rest) ≡ true → is_served (opts c) ≡ true
  pub complete :
      (c n : ℕ)
      → (opts c).slen ≡ some n
      → (has c ((type_first asked ++ answers) ++ rest) ≡ true)
        ⊎ (opt_max < length (options opts ((type_first asked ++ answers) ++ rest)) + 2 + n)

has-range : (n a c : ℕ) → a ≤ c → c < a + n → has c (range a n) ≡ true
has-range zero a c h l = absurd (omega arith)
has-range (suc n) a c h l = elim (Bool-cases (c == a)) [
  | inl q ↦ rw q refl
  | inr q ↦ rw q (has-range n (a + 1) c (ground (arith, q)) (omega arith))
]

module _ (o0 : Memory) (opts : ℕ → Opt) (servable : IsServable opts) where
  clear_sent-Filled : Filled o0 opts [] (clear_sent o0 opts)
  unfolding clear_sent load
  clear_sent-Filled = record {
    beyond = λ k l. refl;
    fits = omega arith;
    holds = refl;
    same_slen = λ c. elim (Bool-cases (ltb c 255)) [ inl q ↦ rw q refl | inr q ↦ rw q refl ];
    same_s = λ c. elim (Bool-cases (ltb c 255)) [ inl q ↦ rw q refl | inr q ↦ rw q refl ];
    all_served = λ c q. absurd (ground (arith, q));
    marked = λ c l. let q : ltb c 255 ≡ true = ground arith in rw q refl;
  }

  fill_first-Filled :
      (asked : List ℕ) (m : Reply)
      → m.offset ≡ 0
      → is_served (opts 53) ≡ true
      → Filled o0 opts [] m
      → Filled o0 opts (type_first asked) (fill_first asked m)
  unfolding fill_first
  fill_first-Filled asked m z s f = by_test (not (length asked == 0) && not (has 53 asked)) _ (
      fill_if-Tried o0 opts servable (not (length asked == 0) && not (has 53 asked)) [] 53 m
        (λ w. s) f)
    where
      by_test :
          (b : Bool) (m' : Reply)
          → Tried o0 opts servable b [] 53 m m'
          → Filled o0 opts (if b then 53 ∷ [] else []) m'
      by_test false _ (not_wanted q) = f
      by_test true _ (not_wanted q) = absurd (ground (arith, q))
      by_test false _ (no_space q h) = f
      by_test true _ (no_space q h) =
          let (n, e) = served_slen (opts 53).slen s in
          absurd (omega (arith, (servable 53 n e).2, z, h, ap slen_size e))
      by_test false _ (put m' q le f') = absurd (ground (arith, q))
      by_test true _ (put m' q le f') = f'

  -- Where only options from 1 to 254 are served, with payloads of at most 255 bytes, and option 53 is,
  -- fill() writes nothing past the options field, and returns a length from 60 to 308 of a field that
  -- holds: option 53, for a client that asks for other options; options that it asks for, in its
  -- order; others, in ascending order, each once and none of those before; then the end option and
  -- zeros. All options in it are served, and one that is not in it does not fit behind them.
  pub fill-Replied : is_served (opts 53) ≡ true → Replied o0 opts (requested opts) (fill o0 opts)
  unfolding fill clear_sent
  fill-Replied s =
      let asked = requested opts in
      let m0 = fill_first asked (clear_sent o0 opts) in
      let f0 = fill_first-Filled asked (clear_sent o0 opts) refl s clear_sent-Filled in
      let (answers, p) = fill_by-Puts o0 opts servable false asked (type_first asked) m0 f0 in
      let (rest, q) =
        fill_by-Puts o0 opts servable true (range 0 255) (type_first asked ++ answers)
          (fill_by false asked m0) p.filled in
      let m2 = fill_by true (range 0 255) (fill_by false asked m0) in
      let same : end_fill (fill_rest 255 0 (fill_requested asked m0)) ≡ end_fill m2 = ap end_fill (
        fill_rest_lem 255 0 (fill_requested asked m0)
        ∙ ap (fill_by true (range 0 255)) (fill_requested_lem asked m0)) in
      let codes = (type_first asked ++ answers) ++ rest in
      let size : m2.offset ≡ length (options opts codes) =
        sym (length-load m2.o 0 m2.offset) ∙ ap (λ l. length l) q.filled.holds in
      let ended =
        end_fill-Ended o0 m2 (options opts codes) q.filled.fits q.filled.beyond q.filled.holds in
      subst (Replied o0 opts asked) (sym same) (record {
        answers = answers;
        rest = rest;
        beyond = ended.beyond;
        least = ended.least;
        most = ended.most;
        field = ended.field;
        as_asked = p.in_order;
        ascending = q.in_order;
        not_again = q.fresh refl;
        all_served = q.filled.all_served;
        complete = λ c n e.
            let is : is_served (opts c) ≡ true = rw e refl in
            elim (q.complete c (has-range 255 0 c (omega arith) (omega (arith, (servable c n e).1)))
              is) [ inl y ↦ inl y | inr y ↦ inr (omega (arith, y, size, ap slen_size e)) ];
      })
