-- ===== src/Lineread/Find.antt =====
-- peek_line() and the room that lineread_get() makes: what they leave in the buffer.
use mathlib.Core.Path.{ap₂}
use passt.Base.{
  ℕ, suc, ◌+◌, ◌-◌, ◌≤◌, ◌<◌, ◌≡◌, ◌≢◌, inl, inr, refl, sym, ap, ◌∙◌, subst, arith, Option, none,
  some, List, [], ◌∷◌, ◌++◌, length, length-append, take, drop, ◌==◌, ==_iff, update, update_self,
  Bool-cases,
}
use passt.Iov.{Memory, load, store}
use passt.Iov.Load.{
  load-take, load-drop, load-update, load-update_out, load-store, load-append, load-store_before,
}
use passt.Iov.Copy.{length-load}
use passt.Lineread.{lineread_buffer_size, Lineread, find_newline, make_room, append_bytes}

-- No byte is a newline.
abbrev pub NoNewline : List ℕ → Type 0
NoNewline [] = Unit
NoNewline (b ∷ bs) = (b ≢ 10) × NoNewline bs

-- Where the first newline is.
pub data Newline (l : List ℕ) : Option ℕ → Type 0 where
  at_end : NoNewline l → Newline l none
  found : (pre post : List ℕ) → l ≡ pre ++ 10 ∷ post → NoNewline pre → Newline l (some (length pre))

find-step :
    (b : ℕ) (bs : List ℕ) (o : Option ℕ)
    → b ≢ 10
    → Newline bs o
    → Newline (b ∷ bs) (elim o as (λ x. Option ℕ) [ none ↦ none | some i ↦ some (i + 1) ])
find-step b bs _ n (at_end h) = at_end (n, h)
find-step b bs _ n (found pre post e h) =
    subst (λ k. Newline (b ∷ bs) (some k)) {x = suc (length pre)} {y = length pre + 1} (omega arith)
      (found (b ∷ pre) post (ap (λ l. b ∷ l) e) (n, h))

pub find_newline-Newline : (l : List ℕ) → Newline l (find_newline l)
unfolding find_newline
find_newline-Newline [] = at_end tt
find_newline-Newline (b ∷ bs) = elim (Bool-cases (b == 10)) [
  | inl e ↦ rw e (found [] bs (ap (λ x. x ∷ bs) ((==_iff b 10).0 e)) tt)
  | inr e ↦
      rw e (find-step b bs (find_newline bs) (λ q. ground (arith, e, q)) (find_newline-Newline bs))
]

-- The bytes read but not returned.
abbrev pub held : Lineread → List ℕ
held lr = load lr.buf lr.next_line lr.count

-- The assertion of peek_line()
abbrev pub InBounds : Lineread → Type 0
InBounds lr = lr.next_line + lr.count ≤ lineread_buffer_size

take-append : (pre post : List ℕ) → take (length pre) (pre ++ post) ≡ pre
take-append [] post = refl
take-append (x ∷ pre) post = ap (λ l. x ∷ l) (take-append pre post)

drop-append : (pre post : List ℕ) → drop (length pre) (pre ++ post) ≡ post
drop-append [] post = refl
drop-append (x ∷ pre) post = drop-append pre post

append_one : (pre : List ℕ) (x : ℕ) (post : List ℕ) → pre ++ x ∷ post ≡ (pre ++ x ∷ []) ++ post
append_one [] x post = refl
append_one (p ∷ pre) x post = ap (λ l. p ∷ l) (append_one pre x post)

-- Ending the first line with NUL: the line, and what is left.
pub cut_line :
    (m : Memory) (a n : ℕ) (pre post : List ℕ)
    → load m a n ≡ pre ++ 10 ∷ post
    → (load (update m (a + length pre) 0) a (length pre + 1) ≡ pre ++ 0 ∷ [])
      × (load (update m (a + length pre) 0) (a + (length pre + 1)) (n - (length pre + 1)) ≡ post)
      × (length pre + 1 ≤ n)
cut_line m a n pre post e =
    let m' = update m (a + length pre) 0 in
    let cut : load m' a n ≡ (pre ++ 0 ∷ []) ++ post =
      load-update m a n pre 10 0 post e ∙ append_one pre 0 post in
    let k : length (pre ++ 0 ∷ []) ≡ length pre + 1 = length-append pre (0 ∷ []) in
    let count : n ≡ length (pre ++ 10 ∷ post) = sym (length-load m a n) ∙ ap (λ l. length l) e in
    let fits : length pre + 1 ≤ n = omega (arith, count, length-append pre (10 ∷ post)) in
    (
      sym (load-take m' a (length pre + 1) n fits)
          ∙ ap₂ take (sym k) cut
          ∙ take-append (pre ++ 0 ∷ []) post,
      sym (load-drop m' a (length pre + 1) n fits)
          ∙ ap₂ drop (sym k) cut
          ∙ drop-append (pre ++ 0 ∷ []) post,
      fits,
    )

-- Ending the last line with NUL.
pub end_line : (m : Memory) (a n : ℕ) → load (update m (a + n) 0) a (n + 1) ≡ load m a n ++ 0 ∷ []
unfolding load
end_line m a n =
    load-append (update m (a + n) 0) a n 1
    ∙ ap₂ (λ l x. l ++ x ∷ []) (load-update_out m (a + n) 0 a n (λ k l. omega arith))
        (update_self m (a + n) 0)

-- Making room keeps the bytes held, and leaves space.
pub data Room (lr : Lineread) : Option Lineread → Type 0 where
  too_long : lr.next_line ≡ 0 → lr.count ≡ lineread_buffer_size → Room lr none
  has_room :
      (lr' : Lineread)
      → held lr' ≡ held lr
      → lr'.count ≡ lr.count
      → lr'.next_line + lr'.count < lineread_buffer_size
      → Room lr (some lr')

pub make_room-Room : (lr : Lineread) → InBounds lr → Room lr (make_room lr)
unfolding make_room
make_room-Room lr h = elim (Bool-cases (lr.next_line + lr.count == lineread_buffer_size)) [
  | inr e ↦ simp e (has_room lr refl refl (ground (arith, e, h)))
  | inl e ↦
      let full = (==_iff (lr.next_line + lr.count) lineread_buffer_size).0 e in
      elim (Bool-cases (lr.next_line == 0)) [
        | inl z ↦
            simp (e, z)
              (too_long ((==_iff lr.next_line 0).0 z)
                (omega (arith, full, (==_iff lr.next_line 0).0 z)))
        | inr z ↦
            simp (e, z)
              (has_room _
                (ap (load (store lr.buf 0 (held lr)) 0)
                    (sym (length-load lr.buf lr.next_line lr.count))
                  ∙ load-store lr.buf 0 (held lr))
                refl (ground (arith, full, z)))
      ]
]

-- Reading appends to the bytes held.
pub held-append_bytes : (lr : Lineread) (bs : List ℕ) → held (append_bytes lr bs) ≡ held lr ++ bs
held-append_bytes lr bs =
    load-append (store lr.buf (lr.next_line + lr.count) bs) lr.next_line lr.count (length bs)
    ∙ ap₂ (λ x y. x ++ y)
        (load-store_before lr.buf (lr.next_line + lr.count) bs lr.next_line lr.count (omega arith))
        (load-store lr.buf (lr.next_line + lr.count) bs)
