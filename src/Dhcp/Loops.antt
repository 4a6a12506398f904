-- ===== src/Dhcp/Loops.antt =====
-- fill(): the options of a reply, in the order of the code.
use mathlib.Core.List.{append_assoc, append-nil}
use passt.Base.{
  ℕ, zero, suc, ◌+◌, ◌≤◌, ◌≡◌, ◌⊎◌, inl, inr, refl, sym, ap, ◌∙◌, subst, arith, Bool, true, false,
  not, ◌&&◌, ◌||◌, Option, none, some, List, [], ◌∷◌, ◌++◌, ◌==◌, Bool-cases,
}
use passt.Iov.{Memory}
use passt.Iov.Bytes.{range}
use passt.Dhcp.{Opt, Reply, fill_if, is_served, has, fill_requested, fill_rest}
use passt.Dhcp.Fill.{
  IsServable, Filled, NoSpace, Tried, not_wanted, no_space, put, fill_if-Tried, has-append,
  served_slen,
}

-- The first list is the second one with some entries left out.
pub data Sub : List ℕ → List ℕ → Type 0 where
  nothing : Sub [] []
  leave : (c : ℕ) (cs ds : List ℕ) → Sub cs ds → Sub cs (c ∷ ds)
  keep : (c : ℕ) (cs ds : List ℕ) → Sub cs ds → Sub (c ∷ cs) (c ∷ ds)

-- Whether a loop puts an option: those sent before are left out `once`.
abbrev wants : Bool → Opt → Bool
wants false opt = is_served opt
wants true opt = is_served opt && not opt.sent

-- The loops of fill() over a list of codes
abbrev pub fill_by : Bool → List ℕ → Reply → Reply
fill_by once [] m = m
fill_by once (o ∷ os) m = fill_by once os (fill_if (wants once (m.opts o)) o m)

pub fill_requested_lem : (os : List ℕ) (m : Reply) → fill_requested os m ≡ fill_by false os m
unfolding fill_requested
fill_requested_lem [] m = refl
fill_requested_lem (o ∷ os) m = fill_requested_lem os (fill_if (is_served (m.opts o)) o m)

pub fill_rest_lem : (n o : ℕ) (m : Reply) → fill_rest n o m ≡ fill_by true (range o n) m
unfolding fill_rest
fill_rest_lem zero o m = refl
fill_rest_lem (suc n) o m = fill_rest_lem n (o + 1) (fill_if (wants true (m.opts o)) o m)

abbrev is_served_slen : Option ℕ → Bool
is_served_slen none = false
is_served_slen (some n) = true

wants_served : (once : Bool) (opt : Opt) → wants once opt ≡ true → is_served opt ≡ true
wants_served false opt e = e
wants_served true opt e = elim (Bool-cases (is_served opt)) [
  | inl p ↦ p
  | inr p ↦ absurd (ground (arith, p, e))
]

wants_unsent : (opt : Opt) → wants true opt ≡ true → opt.sent ≡ false
wants_unsent opt e = elim (Bool-cases opt.sent) [
  | inr p ↦ p
  | inl p ↦ absurd (ground (arith, p, e))
]

-- A served option is only left out if it has been sent.
unwanted :
    (once : Bool) (opt : Opt) → wants once opt ≡ false → is_served opt ≡ true → opt.sent ≡ true
unwanted false opt e s = absurd (ground (arith, e, s))
unwanted true opt e s = elim (Bool-cases opt.sent) [
  | inl p ↦ p
  | inr p ↦ absurd (ground (arith, p, e, s))
]

module _ (o0 : Memory) (opts : ℕ → Opt) (servable : IsServable opts) where
  -- The options put by a loop over the codes `os`: in their order, and each that is served, unless
  -- there is no space for it; none a second time, if it is `once`.
  pub record Put (once : Bool) (os codes : List ℕ) (m m' : Reply) (more : List ℕ) : Type 0 where
    pub later : m.offset ≤ m'.offset
    pub filled : Filled o0 opts (codes ++ more) m'
    pub in_order : Sub more os
    pub complete :
        (c : ℕ)
        → has c os ≡ true
        → is_served (opts c) ≡ true
        → (has c (codes ++ more) ≡ true) ⊎ NoSpace opts c m'
    pub fresh : once ≡ true → (c : ℕ) → has c more ≡ true → has c codes ≡ false

  abbrev pub Puts : Bool → List ℕ → List ℕ → Reply → Reply → Type 0
  Puts once os codes m m' = (more : List ℕ) × Put once os codes m m' more

  later_space : (c : ℕ) (m m' : Reply) → m.offset ≤ m'.offset → NoSpace opts c m → NoSpace opts c m'
  later_space c m m' le h = omega arith

  -- What has been put stays in the list, wherever it goes on.
  stays : (c : ℕ) (codes more : List ℕ) → has c codes ≡ true → has c (codes ++ more) ≡ true
  stays c codes more h = has-append c codes more ∙ ap (λ x. x || has c more) h

  has_head : (c o : ℕ) (os : List ℕ) → has c (o ∷ os) ≡ true → (c ≡ o) ⊎ (has c os ≡ true)
  has_head c o os h = elim (Bool-cases (c == o)) [
    | inl e ↦ inl (ground (arith, e))
    | inr e ↦ inr (sym (ap (λ x. x || has c os) e) ∙ h)
  ]

  -- A round that puts nothing.
  skip_round :
      (once : Bool) (o : ℕ) (os codes : List ℕ) (m m' : Reply)
      → (is_served (opts o) ≡ true → (has o codes ≡ true) ⊎ NoSpace opts o m)
      → Puts once os codes m m'
      → Puts once (o ∷ os) codes m m'
  skip_round once o os codes m m' h (more, p) = (
    more,
    record {
      later = p.later;
      filled = p.filled;
      in_order = leave o more os p.in_order;
      complete = λ c i s. elim (has_head c o os i) [
        | inr i' ↦ p.complete c i' s
        | inl e ↦ elim (h (subst (λ x. is_served (opts x) ≡ true) e s)) [
          | inl y ↦ inl (stays c codes more (subst (λ x. has x codes ≡ true) (sym e) y))
          | inr y ↦ inr (later_space c m m' p.later (subst (λ x. NoSpace opts x m) (sym e) y))
        ]
      ];
      fresh = p.fresh;
    },
  )

  -- A round that puts an option.
  put_round :
      (once : Bool) (o : ℕ) (os codes : List ℕ) (m m1 m' : Reply)
      → (once ≡ true → has o codes ≡ false)
      → m.offset ≤ m1.offset
      → Puts once os (codes ++ o ∷ []) m1 m'
      → Puts once (o ∷ os) codes m m'
  put_round once o os codes m m1 m' new le (more, p) =
      let assoc : (codes ++ o ∷ []) ++ more ≡ codes ++ o ∷ more =
        append_assoc codes (o ∷ []) more in
      (
        o ∷ more,
        record {
          later = omega (arith, p.later, le);
          filled = subst (λ l. Filled o0 opts l m') assoc p.filled;
          in_order = keep o more os p.in_order;
          complete = λ c i s. elim (has_head c o os i) [
            | inr i' ↦ subst (λ l. (has c l ≡ true) ⊎ NoSpace opts c m') assoc (p.complete c i' s)
            | inl e ↦ inl (has-append c codes (o ∷ more) ∙ here c e (has c codes))
          ];
          fresh = λ t c i. elim (has_head c o more i) [
            | inl e ↦ subst (λ x. has x codes ≡ false) (sym e) (new t)
            | inr i' ↦ before c (p.fresh t c i')
          ];
        },
      )
    where
      here : (c : ℕ) → c ≡ o → (b : Bool) → (b || has c (o ∷ more)) ≡ true
      here c e true = refl
      here c e false = let q : (c == o) ≡ true = ground (arith, e) in rw q refl

      before : (c : ℕ) → has c (codes ++ o ∷ []) ≡ false → has c codes ≡ false
      before c q = elim (Bool-cases (has c codes)) [
        | inr y ↦ y
        | inl y ↦ absurd (ground (arith, sym (stays c codes (o ∷ []) y) ∙ q))
      ]

  round-Puts :
      (once : Bool) (o : ℕ) (os codes : List ℕ) (m m1 : Reply)
      → ((codes : List ℕ) (m : Reply)
          → Filled o0 opts codes m
          → Puts once os codes m (fill_by once os m))
      → Filled o0 opts codes m
      → Tried o0 opts servable (wants once (m.opts o)) codes o m m1
      → Puts once (o ∷ os) codes m (fill_by once os m1)
  round-Puts once o os codes m _ ih f (not_wanted w) =
      skip_round once o os codes m _
        (λ s. inl (
          let (n, e) = served_slen (opts o).slen s in
          sym (f.marked o (servable o n e).1)
          ∙ unwanted once (m.opts o) w (ap is_served_slen (f.same_slen o) ∙ s)))
        (ih codes m f)
  round-Puts once o os codes m _ ih f (no_space w h) =
      skip_round once o os codes m _ (λ s. inr h) (ih codes m f)
  round-Puts once o os codes m _ ih f (put m' w le f') =
      put_round once o os codes m m' _
        (λ t.
          let w' = ap (λ b. wants b (m.opts o)) (sym t) ∙ w in
          let s : is_served (opts o) ≡ true =
            ap is_served_slen (sym (f.same_slen o)) ∙ wants_served once (m.opts o) w in
          let (n, e) = served_slen (opts o).slen s in
          sym (f.marked o (servable o n e).1) ∙ wants_unsent (m.opts o) w')
        le (ih (codes ++ o ∷ []) m' f')

  pub fill_by-Puts :
      (once : Bool) (os codes : List ℕ) (m : Reply)
      → Filled o0 opts codes m
      → Puts once os codes m (fill_by once os m)
  fill_by-Puts once [] codes m f = (
    [],
    record {
      later = omega arith;
      filled = subst (λ l. Filled o0 opts l m) (sym (append-nil codes)) f;
      in_order = nothing;
      complete = λ c i s. absurd (ground (arith, i));
      fresh = λ t c i. absurd (ground (arith, i));
    },
  )
  fill_by-Puts once (o ∷ os) codes m f = round-Puts once o os codes m _ (fill_by-Puts once os) f (
      fill_if-Tried o0 opts servable (wants once (m.opts o)) codes o m
        (λ w. ap is_served_slen (sym (f.same_slen o)) ∙ wants_served once (m.opts o) w) f)
