-- ===== src/Tcp/Flags.antt =====
-- What a segment's acknowledgement and FIN leave of the batch.
use passt.Base.{◌≡◌, inl, inr, refl, ◌∙◌, Bool, true, false, ◌==◌, ◌&&◌, Bool-cases}
use passt.Tcp.{TcpTapConn, TcpCalls, seq_ge}
use passt.Tcp.Gather.{Segment, Batch, ack_segment, fin_segment, flags_if}

-- A batch keeps what is gathered over a segment's acknowledgement and FIN.
module _ (calls : TcpCalls) (s : Segment) (b : Batch) (k : TcpTapConn) where
  abbrev Same : Batch → Type 0
  Same b' = (b'.seq_from_tap ≡ b.seq_from_tap) × (b'.iov ≡ b.iov) × (b'.keep ≡ b.keep)

  ack_segment-Same : Same (ack_segment calls s b k).0
  unfolding ack_segment
  ack_segment-Same =
      elim (Bool-cases (seq_ge s.ack_seq k.seq_ack_from_tap && seq_ge s.ack_seq b.max_ack_seq)) [
        | inl e ↦ rw e (refl, refl, refl)
        | inr e ↦ rw e (refl, refl, refl)
      ]

fin_segment-Same :
    (s : Segment) (b : Batch)
    → ((fin_segment s b).seq_from_tap ≡ b.seq_from_tap)
      × ((fin_segment s b).iov ≡ b.iov)
      × ((fin_segment s b).keep ≡ b.keep)
unfolding fin_segment
fin_segment-Same s b = elim (Bool-cases (s.fin && s.seq == b.seq_from_tap)) [
  | inl e ↦ rw e (refl, refl, refl)
  | inr e ↦ rw e (refl, refl, refl)
]

pub flags_if-Same :
    (a : Bool) (calls : TcpCalls) (s : Segment) (b : Batch) (k : TcpTapConn)
    → ((flags_if a calls s b k).0.seq_from_tap ≡ b.seq_from_tap)
      × ((flags_if a calls s b k).0.iov ≡ b.iov)
      × ((flags_if a calls s b k).0.keep ≡ b.keep)
unfolding flags_if
flags_if-Same true calls s b k =
    let (e, i, q) = ack_segment-Same calls s b k in
    let (e', i', q') = fin_segment-Same s (ack_segment calls s b k).0 in (e' ∙ e, i' ∙ i, q' ∙ q)
flags_if-Same false calls s b k = fin_segment-Same s b
