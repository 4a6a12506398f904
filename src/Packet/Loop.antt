-- ===== src/Packet/Loop.antt =====
-- What the loop of packet_add_do() stores.
use mathlib.Core.Path.{ap₂}
use passt.Base.{
  ◌≡◌, ◌≢◌, ◌<◌, refl, ◌∙◌, arith, ℕ, ◌+◌, ◌-◌, Bool, true, false, Option, none, some, List, [],
  ◌∷◌, length, update, update_self, update_ne, Run, done, aborted,
}
use passt.Iov.{Iovec}
use passt.Packet.{Pool, packet_check_range, add_from, read_pkt, check_all}

-- The entries from the offset on.
abbrev pub trimmed : List Iovec → ℕ → List Iovec
trimmed [] offset = []
trimmed (v ∷ vs) offset =
    record { iov_base = v.iov_base + offset; iov_len = v.iov_len - offset } ∷ trimmed vs 0

-- What the loop of packet_add_do() has stored, if no range is invalid.
pub record Stored (p : Pool) (pkt : ℕ → Iovec) (vs : List Iovec) (idx offset j : ℕ)
    (pkt' : ℕ → Iovec) : Type 0 where
  pub next : j ≡ idx + length vs
  pub before : (k : ℕ) → k < idx → pkt' k ≡ pkt k
  pub entries : read_pkt pkt' idx (length vs) ≡ trimmed vs offset
  pub checks : check_all p (trimmed vs offset) ≡ done tt

-- An entry whose range check fails.
pub data Outside (p : Pool) : List Iovec → Type 0 where
  here :
      (v : Iovec) (vs : List Iovec)
      → packet_check_range p v.iov_base v.iov_len ≡ done false
      → Outside p (v ∷ vs)
  behind : (v : Iovec) (vs : List Iovec) → Outside p vs → Outside p (v ∷ vs)

abbrev pub StoredResult :
    Pool → (ℕ → Iovec) → List Iovec → ℕ → ℕ → Run (Option ℕ × (ℕ → Iovec)) → Type 0
StoredResult p pkt vs idx offset aborted = p.buf ≡ 0
StoredResult p pkt vs idx offset (done (none, pkt')) =
    Outside p (trimmed vs offset) × ((k : ℕ) → k < idx → pkt' k ≡ pkt k)
StoredResult p pkt vs idx offset (done (some j, pkt')) = Stored p pkt vs idx offset j pkt'

abbrev pub entry_of : Iovec → ℕ → Iovec
entry_of v offset = record { iov_base = v.iov_base + offset; iov_len = v.iov_len - offset }

Stored-cons :
    (p : Pool) (pkt : ℕ → Iovec) (v : Iovec) (vs : List Iovec) (idx offset : ℕ)
    (r : Run (Option ℕ × (ℕ → Iovec)))
    → packet_check_range p (v.iov_base + offset) (v.iov_len - offset) ≡ done true
    → StoredResult p (update pkt idx (entry_of v offset)) vs (idx + 1) 0 r
    → StoredResult p pkt (v ∷ vs) idx offset r
unfolding read_pkt check_all
Stored-cons p pkt v vs idx offset aborted c s = s
Stored-cons p pkt v vs idx offset (done (none, pkt')) c s = (
  behind _ _ s.0,
  λ k l. s.1 k (omega arith) ∙ update_ne pkt idx (entry_of v offset) k (omega arith),
)
Stored-cons p pkt v vs idx offset (done (some j, pkt')) c s = record {
  next = omega (arith, s.next);
  before = λ k l. s.before k (omega arith) ∙ update_ne pkt idx (entry_of v offset) k (omega arith);
  entries =
      ap₂ (λ x xs. x ∷ xs) (s.before idx (omega arith) ∙ update_self pkt idx (entry_of v offset))
        s.entries;
  checks = rw (c, check_all) s.checks;
}

-- The range check of a plain buffer fails an assertion only for a null buffer.
pub check_aborted :
    (p : Pool) (ptr len : ℕ) → p.buf_size ≢ 0 → packet_check_range p ptr len ≡ aborted → p.buf ≡ 0
unfolding packet_check_range
check_aborted p ptr len h c = ground arith

add_from-cons :
    (p : Pool) (pkt : ℕ → Iovec) (v : Iovec) (vs : List Iovec) (idx offset : ℕ) (c : Run Bool)
    → p.buf_size ≢ 0
    → packet_check_range p (v.iov_base + offset) (v.iov_len - offset) ≡ c
    → StoredResult p
        (update pkt idx (entry_of v offset))
        vs
        (idx + 1)
        0
        (add_from p (update pkt idx (entry_of v offset)) vs (idx + 1) 0)
    → StoredResult p pkt (v ∷ vs) idx offset (add_from p pkt (v ∷ vs) idx offset)
unfolding add_from
add_from-cons p pkt v vs idx offset aborted b e s =
    rw (e, add_from) (check_aborted p (v.iov_base + offset) (v.iov_len - offset) b e)
add_from-cons p pkt v vs idx offset (done false) b e s = rw (e, add_from) (here _ _ e, λ k l. refl)
add_from-cons p pkt v vs idx offset (done true) b e s =
    rw (e, add_from) (Stored-cons p pkt v vs idx offset _ e s)

pub add_from-Stored :
    (p : Pool) (vs : List Iovec) (pkt : ℕ → Iovec) (idx offset : ℕ)
    → p.buf_size ≢ 0
    → StoredResult p pkt vs idx offset (add_from p pkt vs idx offset)
unfolding add_from read_pkt check_all
add_from-Stored p [] pkt idx offset b = record {
  next = omega arith;
  before = λ k l. refl;
  entries = refl;
  checks = refl;
}
add_from-Stored p (v ∷ vs) pkt idx offset b =
    add_from-cons p pkt v vs idx offset
      (packet_check_range p (v.iov_base + offset) (v.iov_len - offset)) b refl
      (add_from-Stored p vs (update pkt idx (entry_of v offset)) (idx + 1) 0 b)
