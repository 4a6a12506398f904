-- ===== src/Iov/Tests.antt =====
-- IO vectors of two buffers, at addresses 10 and 20.
use passt.Base.{
  ℕ, ◌-◌, Option, min, ◌≡◌, arith, false, List, [], ◌∷◌, map, length, take, drop, done,
}
use passt.Iov.{
  Iovec, IovTail, Memory, load, iov_skip_bytes, skip_from, first_base, iov_tail_prune, iov_to_buf,
  iov_from_buf,
}
use passt.Iov.Bytes.{addrs, tail_addrs}
use passt.Iov.Header.{iov_peek_header, iov_remove_header, iov_push_header}
use passt.Iov.Header.Peek.{Peeked, iov_peek_header-Peeked}
use passt.Iov.Header.Remove.{Removed, iov_remove_header-Removed, iov_push_header_lem}
use passt.Iov.Copy.{iov_to_buf_lem}
use passt.Iov.Store.{scatter, iov_from_buf_lem}

abbrev two : List Iovec
two = record { iov_base = 10; iov_len = 3 } ∷ record { iov_base = 20; iov_len = 4 } ∷ []

abbrev tail : IovTail
tail = record { iov = two; off = 2 }

abbrev memory : Memory
memory a = a

iov_to_buf_lem_example :
    iov_to_buf false memory two 1 5 ≡ done (map memory (take 5 (drop 1 (addrs two))))
iov_to_buf_lem_example = iov_to_buf_lem false memory two 1 5 (ground arith)

iov_from_buf_lem_example :
    iov_from_buf false memory two 2 (7 ∷ 8 ∷ [])
    ≡ (min 2 (length (addrs two) - 2), scatter memory (drop 2 (addrs two)) (7 ∷ 8 ∷ []))
iov_from_buf_lem_example = iov_from_buf_lem false memory two 2 (7 ∷ 8 ∷ [])

iov_peek_header-Peeked_example :
    (r : Option ℕ × Memory × IovTail) × (iov_peek_header false memory tail 100 3 1 ≡ done r)
    × Peeked memory tail 3 r
iov_peek_header-Peeked_example =
    iov_peek_header-Peeked false memory tail 100 3 1 (ground arith) (omega arith)

iov_remove_header-Removed_example :
    (r : Option ℕ × Memory × IovTail) × (iov_remove_header false memory tail 100 3 1 ≡ done r)
    × Removed memory tail 3 r
iov_remove_header-Removed_example =
    iov_remove_header-Removed false memory tail 100 3 1 (ground arith) (omega arith)

iov_push_header_lem_example :
    (t : IovTail) × (iov_push_header false memory tail 100 3
      ≡ (3, scatter memory (tail_addrs tail) (load memory 100 3), t))
    × (tail_addrs t ≡ drop 3 (tail_addrs tail))
unfolding iov_tail_prune iov_skip_bytes skip_from first_base
iov_push_header_lem_example =
    iov_push_header_lem false memory tail 100 3 (omega arith) (omega arith) (omega arith)
      (λ e. ground arith)
