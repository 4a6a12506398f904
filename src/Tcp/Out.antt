-- ===== src/Tcp/Out.antt =====
-- The end of tcp_data_from_tap(), after sendmsg().
use passt.Base.{
  ℕ, ◌+◌, ◌≤◌, ◌<◌, ◌%◌, ◌^◌, ◌≡◌, inl, inr, refl, ap, ◌∙◌, arith, Bool, true, false, not, ◌&&◌,
  ◌==◌, Option, none, some, add_u32, Bool-cases, if◌then◌else◌,
}
use passt.Tcp.{TcpTapConn, TcpCalls, has_bit, tap_fin_sent}
use passt.Tcp.Gather.{Batch}
use passt.Tcp.Receive.{FromTap, all_packets, is_none, unless_error, out_keep, out_fin, out}
use passt.Tcp.Keep.{KeepsSeq}
use passt.Tcp.Contract.{
  Took, IsFinished, NotSent, dup_ack, ack, Sending, took, took_fin, no_segment,
}

both_true : (a b : Bool) → (a && not b) ≡ true → (a ≡ true) × (b ≡ false)
both_true a b e = (ground arith, ground arith)

is_none-none : (o : Option ℕ) → is_none o ≡ true → o ≡ none
is_none-none none e = refl
is_none-none (some i) e = ground (arith, e)

module _ (pos0 : ℕ) (calls : TcpCalls) (laws : KeepsSeq calls) (b : Batch) (k0 : TcpTapConn)
    (total : ℕ) where
  pub unless-Sending :
      (r : TcpTapConn → FromTap) (p : Bool × TcpTapConn)
      → (p.0 ≡ false → NotSent calls p.1)
      → Sending calls pos0 b k0 total (r p.1)
      → Sending calls pos0 b k0 total (unless_error r p)
  unless-Sending r (true, k) h q = q
  unless-Sending r (false, k) h q = no_segment k (h refl)

  module _ (n : ℕ) (taken : Took calls b k0 n) (fits : n ≤ total) where
    abbrev Next : TcpTapConn → Type 0
    Next k = k.seq_from_tap ≡ (pos0 + n) % 2 ^ 32

    abbrev Ends : FromTap → Type 0
    Ends r = Sending calls pos0 b k0 total r

    module _ (more : ¬ IsFinished calls b n total) where
      out_keep-Sending : (k : TcpTapConn) → Next k → Ends (out_keep calls k)
      unfolding out_keep
      out_keep-Sending k e = elim (Bool-cases (k.seq_dup_ack_approx == k.seq_from_tap % 2 ^ 8)) [
        | inl same ↦ simp same (took k n taken fits more e)
        | inr new ↦
            let k1 : TcpTapConn = record k { seq_dup_ack_approx = k.seq_from_tap % 2 ^ 8 } in
            simp new (
              unless-Sending all_packets (calls.send_dup_ack k1) (dup_ack k1)
                (took (calls.send_dup_ack k1).1 n taken fits more (laws.send_dup_ack k1 ∙ e)))
      ]

    fin-Sending :
        (fin : Bool) (k : TcpTapConn)
        → b.fin ≡ fin
        → b.keep ≡ none
        → n ≡ total
        → Next k
        → Ends (
            if fin
            then all_packets
                (calls.tap_fin_rcvd (record k { seq_from_tap = add_u32 k.seq_from_tap 1 }))
            else unless_error all_packets (calls.send_ack_if_needed k))
    fin-Sending true k is_fin kept all e =
        let k1 : TcpTapConn = record k { seq_from_tap = add_u32 k.seq_from_tap 1 } in
        took_fin (calls.tap_fin_rcvd k1) n taken (kept, all, is_fin)
          (omega (arith, laws.tap_fin_rcvd k1, e))
    fin-Sending false k no_fin kept all e =
        unless-Sending all_packets (calls.send_ack_if_needed k) (ack k) (
          took (calls.send_ack_if_needed k).1 n taken fits (λ h. ground (arith, h.2, no_fin))
            (laws.send_ack_if_needed k ∙ e))

    out_fin-Sending :
        (k : TcpTapConn) → b.keep ≡ none → n ≡ total → Next k → Ends (out_fin calls b k)
    unfolding out_fin
    out_fin-Sending k kept all e =
        elim (Bool-cases
          (b.ack && has_bit k.events tap_fin_sent && k.seq_ack_from_tap == k.seq_to_tap)) [
            | inl acked ↦
                simp acked (
                  fin-Sending b.fin (calls.tap_fin_acked k) refl kept all
                    (laws.tap_fin_acked k ∙ e))
            | inr other ↦ simp other (fin-Sending b.fin k refl kept all e)
          ]

    not-IsFinished :
        (partial : Bool)
        → (is_none b.keep && not partial) ≡ false
        → (partial ≡ true → n < total)
        → ¬ IsFinished calls b n total
    not-IsFinished true e less (kept, all, fin) = omega (arith, less refl, all)
    not-IsFinished false e less (kept, all, fin) = ground (arith, e, ap is_none kept)

    pub out-Sending :
        (partial : Bool) (k : TcpTapConn)
        → (partial ≡ false → n ≡ total)
        → (partial ≡ true → n < total)
        → Next k
        → Ends (out calls b partial k)
    unfolding out
    out-Sending partial k whole less e = elim (Bool-cases (is_none b.keep && not partial)) [
      | inl q ↦
          let (kept, all) = both_true (is_none b.keep) partial q in
          simp q (out_fin-Sending k (is_none-none b.keep kept) (whole all) e)
      | inr q ↦ simp q (out_keep-Sending (not-IsFinished partial q less) k e)
    ]
