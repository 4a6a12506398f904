-- ===== src/Dhcp/Fill.antt =====
-- fill() and fill_one(): the options of a reply.
use mathlib.Core.Path.{ap₂}
use mathlib.Core.List.{append_assoc, append-nil}
use passt.Base.{
  ℕ, ◌+◌, ◌%◌, ◌^◌, ◌≤◌, ◌<◌, ◌≡◌, inl, inr, refl, sym, ap, ◌∙◌, subst, arith, Bool, true, false,
  ◌||◌, Option, none, some, List, [], ◌∷◌, ◌++◌, length, ltb, ◌==◌, if◌then◌else◌, update,
  update_lem, add_size, Bool-cases,
}
use passt.Iov.{Memory, load, store}
use passt.Iov.Load.{store_past, load-store, load-append, load-store_before}
use passt.Iov.Copy.{length-load}
use passt.Dhcp.{
  Opt, Reply, opt_max, slen_size, opt_bytes, fill_one, fill_if, is_served, has, dhcp_init, init_opt,
}

-- The options of the list, one after the other.
abbrev pub options : (ℕ → Opt) → List ℕ → List ℕ
options opts [] = []
options opts (c ∷ cs) = opt_bytes c (opts c) ++ options opts cs

pub options-append :
    (opts : ℕ → Opt) (cs ds : List ℕ) → options opts (cs ++ ds) ≡ options opts cs ++ options opts ds
options-append opts [] ds = refl
options-append opts (c ∷ cs) ds =
    ap (λ l. opt_bytes c (opts c) ++ l) (options-append opts cs ds)
    ∙ sym (append_assoc (opt_bytes c (opts c)) (options opts cs) (options opts ds))

pub has-append : (x : ℕ) (cs ds : List ℕ) → has x (cs ++ ds) ≡ (has x cs || has x ds)
has-append x [] ds = refl
has-append x (c ∷ cs) ds = elim (Bool-cases (x == c)) [
  | inl e ↦ rw e refl
  | inr e ↦ rw e (has-append x cs ds)
]

-- What is served has a code other than pad and end, and a payload that fits its length byte.
abbrev pub IsServable : (ℕ → Opt) → Type 0
IsServable opts = (c n : ℕ) → (opts c).slen ≡ some n → (0 < c) × (c < 255) × (n ≤ 255)

-- The reply holds the options of the list so far, which are served, and are the ones marked as sent;
-- past the options field, memory is as it was.
pub record Filled (o0 : Memory) (opts : ℕ → Opt) (codes : List ℕ) (m : Reply) : Type 0 where
  pub fits : m.offset ≤ opt_max
  pub beyond : (k : ℕ) → opt_max < k → m.o k ≡ o0 k
  pub holds : load m.o 0 m.offset ≡ options opts codes
  pub same_slen : (c : ℕ) → (m.opts c).slen ≡ (opts c).slen
  pub same_s : (c : ℕ) → (m.opts c).s ≡ (opts c).s
  pub all_served : (c : ℕ) → has c codes ≡ true → is_served (opts c) ≡ true
  pub marked : (c : ℕ) → c < 255 → (m.opts c).sent ≡ has c codes

-- No space for the option `c`
abbrev pub NoSpace : (ℕ → Opt) → ℕ → Reply → Type 0
NoSpace opts c m = opt_max < m.offset + 2 + slen_size (opts c).slen

-- What fill_one() does to a reply with the options of the list.
pub data Added (o0 : Memory) (opts : ℕ → Opt) (codes : List ℕ) (c : ℕ) (m : Reply)
    : Bool × Reply → Type 0 where
  skipped : NoSpace opts c m → Added o0 opts codes c m (true, m)
  added :
      (m' : Reply)
      → m.offset ≤ m'.offset
      → Filled o0 opts (codes ++ c ∷ []) m'
      → Added o0 opts codes c m (false, m')

update_same :
    {B : Type 0} (f : Opt → B) (t : ℕ → Opt) (c : ℕ) (opt : Opt)
    → f opt ≡ f (t c)
    → (k : ℕ) → f (update t c opt k) ≡ f (t k)
update_same f t c opt e k = ap f (update_lem t c opt k) ∙ elim (Bool-cases (c == k)) [
  | inl q ↦ rw q (e ∙ ap (λ x. f (t x)) {x = c} {y = k} (ground (arith, q)))
  | inr q ↦ rw q refl
]

update_sent :
    (t : ℕ → Opt) (c k : ℕ)
    → (update t c (record (t c) { sent = true }) k).sent ≡ ((t k).sent || k == c)
update_sent t c k =
    ap (λ x. x.sent) (update_lem t c (record (t c) { sent = true }) k)
    ∙ elim (Bool-cases (c == k)) [
      | inl q ↦
          let e : (k == c) ≡ true = ground (arith, q) in
          rw (q, e) (elim (Bool-cases (t k).sent) [ inl s ↦ rw s refl | inr s ↦ rw s refl ])
      | inr q ↦
          let e : (k == c) ≡ false = ground (arith, q) in
          rw (q, e) (elim (Bool-cases (t k).sent) [ inl s ↦ rw s refl | inr s ↦ rw s refl ])
    ]

pub has_one : (k c : ℕ) → has k (c ∷ []) ≡ (k == c)
has_one k c = elim (Bool-cases (k == c)) [ inl s ↦ rw s refl | inr s ↦ rw s refl ]

opt_bytes_same : (c : ℕ) (x y : Opt) → x.slen ≡ y.slen → x.s ≡ y.s → opt_bytes c x ≡ opt_bytes c y
opt_bytes_same c x y e f = ap₂ (λ n s. c % 2 ^ 8 ∷ slen_size n % 2 ^ 8 ∷ load s 0 (slen_size n)) e f

pub served_slen :
    (o : Option ℕ) → elim o [ none ↦ false | some n ↦ true ] ≡ true → (n : ℕ) × (o ≡ some n)
served_slen none e = absurd (ground (arith, e))
served_slen (some n) e = (n, refl)

module _ (o0 : Memory) (opts : ℕ → Opt) (servable : IsServable opts) where
  served_more :
      (codes : List ℕ) (c k : ℕ)
      → is_served (opts c) ≡ true
      → (has k codes ≡ true → is_served (opts k) ≡ true)
      → has k (codes ++ c ∷ []) ≡ true
      → is_served (opts k) ≡ true
  served_more codes c k h f q = elim (Bool-cases (has k codes)) [
    | inl p ↦ f p
    | inr p ↦
        let is_last : (k == c) ≡ true =
          sym (has-append k codes (c ∷ []) ∙ ap (λ x. x || has k (c ∷ [])) p ∙ has_one k c) ∙ q in
        let same : c ≡ k = ground (arith, is_last) in subst (λ x. is_served (opts x) ≡ true) same h
  ]

  fill_one-Added :
      (codes : List ℕ) (c : ℕ) (m : Reply)
      → is_served (opts c) ≡ true
      → Filled o0 opts codes m
      → Added o0 opts codes c m (fill_one c m)
  unfolding fill_one
  fill_one-Added codes c m h f =
      let (n, e) = served_slen (opts c).slen h in
      let small = (servable c n e).2 in
      let here : (m.opts c).slen ≡ some n = f.same_slen c ∙ e in
      let size_here : slen_size (m.opts c).slen ≡ n = ap slen_size here in
      let wrap : add_size (m.offset + 2) (slen_size (m.opts c).slen) ≡ m.offset + 2 + n =
        omega (arith, small, f.fits, size_here) in
      let bs = opt_bytes c (m.opts c) in
      let o = store m.o m.offset bs in
      let size : length bs ≡ 2 + n =
        omega (arith, length-load (m.opts c).s 0 (slen_size (m.opts c).slen), size_here) in
      elim (Bool-cases (ltb opt_max (add_size (m.offset + 2) (slen_size (m.opts c).slen)))) [
        | inl q ↦ rw q (skipped (rw e (ground (arith, q, wrap))))
        | inr q ↦ rw q (
            added _ (omega arith) (record {
              fits = ground (arith, q, wrap, size_here);
              beyond = λ k l.
                  store_past m.o m.offset bs k (ground (arith, q, wrap, size_here, size, l))
                  ∙ f.beyond k l;
              holds =
                  ap (load o 0) {x = m.offset + 2 + slen_size (m.opts c).slen}
                    {y = m.offset + length bs} (omega (arith, size, size_here))
                  ∙ load-append o 0 m.offset (length bs)
                  ∙ ap (λ x. load o 0 m.offset ++ load o x (length bs)) {x = 0 + m.offset}
                      {y = m.offset} (omega arith)
                  ∙ ap₂ (λ x y. x ++ y)
                      (load-store_before m.o m.offset bs 0 m.offset (omega arith) ∙ f.holds)
                      (load-store m.o m.offset bs
                        ∙ opt_bytes_same c (m.opts c) (opts c) (f.same_slen c) (f.same_s c))
                  ∙ ap (λ x. options opts codes ++ x) (sym (append-nil (opt_bytes c (opts c))))
                  ∙ sym (options-append opts codes (c ∷ []));
              same_slen = λ k. update_same (λ x. x.slen) m.opts c _ refl k ∙ f.same_slen k;
              same_s = λ k. update_same (λ x. x.s) m.opts c _ refl k ∙ f.same_s k;
              all_served = λ k q. served_more codes c k h (f.all_served k) q;
              marked = λ k l.
                  update_sent m.opts c k
                  ∙ ap₂ (λ x y. x || y) (f.marked k l) (sym (has_one k c))
                  ∙ sym (has-append k codes (c ∷ []));
            }))
      ]

  -- What an attempt to put the option `c` does.
  pub data Tried (wanted : Bool) (codes : List ℕ) (c : ℕ) (m : Reply) : Reply → Type 0 where
    not_wanted : wanted ≡ false → Tried wanted codes c m m
    no_space : wanted ≡ true → NoSpace opts c m → Tried wanted codes c m m
    put :
        (m' : Reply)
        → wanted ≡ true
        → m.offset ≤ m'.offset
        → Filled o0 opts (codes ++ c ∷ []) m'
        → Tried wanted codes c m m'

  pub fill_if-Tried :
      (wanted : Bool) (codes : List ℕ) (c : ℕ) (m : Reply)
      → (wanted ≡ true → is_served (opts c) ≡ true)
      → Filled o0 opts codes m
      → Tried wanted codes c m (fill_if wanted c m)
  unfolding fill_if
  fill_if-Tried false codes c m h f = not_wanted refl
  fill_if-Tried true codes c m h f = tried (fill_one c m) (fill_one-Added codes c m (h refl) f)
    where
      tried : (r : Bool × Reply) → Added o0 opts codes c m r → Tried true codes c m r.1
      tried _ (skipped no_room) = no_space refl no_room
      tried _ (added m' le f') = put m' refl le f'

by_init :
    (a b d : Bool) (c n : ℕ) (opt : Opt)
    → (a ≡ true → (0 < c) × (c < 255))
    → (b ≡ true → (0 < c) × (c < 255))
    → (d ≡ true → (0 < c) × (c < 255))
    → (if a
        then init_opt 4 0
        else if b
        then init_opt 4 255
        else if d
        then init_opt 1 0
        else record opt { slen = none }).slen
      ≡ some n
    → (0 < c) × (c < 255) × (n ≤ 255)
by_init true b d c n opt i j k e =
    let q : 4 ≡ n = ap slen_size e in ((i refl).0, (i refl).1, omega (arith, q))
by_init false true d c n opt i j k e =
    let q : 4 ≡ n = ap slen_size e in ((j refl).0, (j refl).1, omega (arith, q))
by_init false false true c n opt i j k e =
    let q : 1 ≡ n = ap slen_size e in ((k refl).0, (k refl).1, omega (arith, q))
by_init false false false c n opt i j k e = absurd (ground (arith, ap is_some e))
  where
    is_some : Option ℕ → Bool
    is_some none = false
    is_some (some k) = true

-- The options of dhcp_init() can be served.
pub dhcp_init-IsServable : (opts : ℕ → Opt) → IsServable (dhcp_init opts)
unfolding dhcp_init
dhcp_init-IsServable opts c n e =
    by_init (c == 1 || c == 3 || c == 54) (c == 51) (c == 53) c n (opts c) (λ p. ground (arith, p))
      (λ p. ground (arith, p)) (λ p. ground (arith, p)) e
