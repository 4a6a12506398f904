-- ===== src/Packet/Get.antt =====
-- What packet_get_do() reads of a packet that the loop of packet_add_do() has stored.
use mathlib.Core.Path.{ap₂}
use passt.Base.{
  le→not_ltb, lt→not_leb, ◌≡◌, ◌≢◌, ◌≤◌, ◌<◌, refl, sym, ap, ◌∙◌, subst, arith, ℕ, ◌+◌, ◌-◌, true,
  false, not, some, List, [], ◌∷◌, ◌++◌, ◌==◌, if◌then◌else◌, length, drop, update, update_self,
  Run, done, aborted, lt→ltb,
}
use passt.Iov.{Iovec, iov_tail_prune, iov_skip_bytes, skip_from}
use passt.Iov.Bytes.{addrs, range, drop-append_le, drop-range, length-range, drop_all}
use passt.Iov.Skip.{InEntry}
use passt.Packet.{Pool, packet_check_range, add_head, read_pkt, check_all, packet_get_do}
use passt.Packet.Loop.{trimmed, Stored, entry_of}

-- A tail that is pruned stays as it is.
pub prune_again :
    (iov : List Iovec) (o : ℕ)
    → InEntry iov o
    → iov_tail_prune (record { iov = iov; off = o })
      ≡ (not (length iov == 0), record { iov = iov; off = o })
unfolding iov_tail_prune iov_skip_bytes skip_from
prune_again [] o h = refl
prune_again (v ∷ vs) o h = rw (lt→ltb o v.iov_len h) refl

trimmed_zero : (vs : List Iovec) → addrs (trimmed vs 0) ≡ addrs vs
trimmed_zero [] = refl
trimmed_zero (v ∷ vs) =
    ap₂ (λ b n. range b n ++ addrs (trimmed vs 0)) (omega arith) (omega arith)
    ∙ ap (λ l. range v.iov_base v.iov_len ++ l) (trimmed_zero vs)

pub trimmed-addrs :
    (vs : List Iovec) (off : ℕ) → InEntry vs off → addrs (trimmed vs off) ≡ drop off (addrs vs)
trimmed-addrs [] off e = sym (drop_all off [] (omega arith))
trimmed-addrs (v ∷ vs) off e =
    ap (λ l. range (v.iov_base + off) (v.iov_len - off) ++ l) (trimmed_zero vs)
    ∙ sym (
        drop-append_le off (range v.iov_base v.iov_len) (addrs vs)
          (omega (arith, length-range v.iov_base v.iov_len))
        ∙ ap (λ l. l ++ addrs vs) (drop-range off v.iov_base v.iov_len))

-- The range check does not read the descriptors.
pub check_all-same :
    (p : Pool) (count : ℕ) (pkt : ℕ → Iovec) (vs : List Iovec)
    → check_all (record p { pkt = pkt; count = count }) vs ≡ check_all p vs
unfolding check_all packet_check_range
check_all-same p count pkt [] = refl
check_all-same p count pkt (v ∷ vs) =
    ap
      (λ rest. elim (packet_check_range p v.iov_base v.iov_len) as (λ x. Run (Unit {0})) [
        | aborted ↦ aborted
        | done false ↦ aborted
        | done true ↦ rest
      ])
      (check_all-same p count pkt vs)

-- A valid range of a pool that is a plain buffer does not start at the null address.
check-nonzero :
    (p : Pool) (ptr len : ℕ)
    → p.buf_size ≢ 0
    → packet_check_range p ptr len ≡ done true
    → (ptr == 0) ≡ false
unfolding packet_check_range
check-nonzero p ptr len h c = ground arith

pub get-stored :
    (p : Pool) (i count : ℕ) (pkt : ℕ → Iovec) (iov : List Iovec)
    → count ≤ p.size
    → i < count
    → (if (pkt i).iov_base == 0 then read_pkt pkt (i + 1) (pkt i).iov_len else pkt i ∷ []) ≡ iov
    → check_all p iov ≡ done tt
    → packet_get_do (record p { pkt = pkt; count = count }) i
      ≡ done (some (record { iov = iov; off = 0 }))
unfolding packet_get_do
get-stored p i count pkt iov h l e c =
    simp (e, check_all-same p count pkt iov, c, le→not_ltb _ _ h, lt→not_leb _ _ l) refl

check_head :
    (p : Pool) (x : Iovec) (xs : List Iovec)
    → check_all p (x ∷ xs) ≡ done tt
    → packet_check_range p x.iov_base x.iov_len ≡ done true
unfolding check_all
check_head p x xs h = ground arith

add_head-several :
    (pkt : ℕ → Iovec) (i cnt : ℕ)
    → 1 < cnt
    → add_head pkt i cnt ≡ (i + 1, update pkt i (record { iov_base = 0; iov_len = cnt }))
add_head-several pkt i cnt h = rw (lt→ltb 1 cnt h) refl

abbrev head_or : List Iovec → Iovec → Iovec
head_or [] d = d
head_or (x ∷ xs) d = x

-- What packet_get_do() reads at `i`, after the loop has stored the entries behind the head.
pub read_added :
    (p : Pool) (i : ℕ) (iov : List Iovec) (off j : ℕ) (pkt' : ℕ → Iovec)
    → p.buf_size ≢ 0
    → (0 < length iov)
    → Stored p (add_head p.pkt i (length iov)).1 iov (add_head p.pkt i (length iov)).0 off j pkt'
    → (if (pkt' i).iov_base == 0 then read_pkt pkt' (i + 1) (pkt' i).iov_len else pkt' i ∷ [])
      ≡ trimmed iov off
unfolding read_pkt check_all update
read_added p i [] off j pkt' b l s = absurd (omega arith)
read_added p i (v ∷ []) off j pkt' b l s =
    let x = entry_of v off in
    let e : pkt' i ≡ x = ap (λ xs. head_or xs v) s.entries in
    let nonzero = check-nonzero p x.iov_base x.iov_len b (check_head p x [] s.checks) in
    let at_i = subst (λ y. (y.iov_base == 0) ≡ false) (sym e) nonzero in simp at_i s.entries
read_added p i (v ∷ w ∷ vs) off j pkt' b l s =
    let head : Iovec = record { iov_base = 0; iov_len = length (v ∷ w ∷ vs) } in
    let several =
      subst (λ h. Stored p h.1 (v ∷ w ∷ vs) h.0 off j pkt')
        (add_head-several p.pkt i (length (v ∷ w ∷ vs)) (omega arith)) s in
    let e : pkt' i ≡ head = several.before i (omega arith) ∙ update_self p.pkt i head in
    subst
      (λ y.
        (if y.iov_base == 0 then read_pkt pkt' (i + 1) y.iov_len else y ∷ [])
        ≡ trimmed (v ∷ w ∷ vs) off)
      (sym e) several.entries
