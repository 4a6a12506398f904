-- ===== src/Packet/Tests.antt =====
-- A pool of four descriptors over a buffer of 1000 bytes, and a packet of two parts in it.
use passt.Base.{[], ◌∷◌}
use passt.Iov.{IovTail}
use passt.Packet.{Pool}

abbrev pool : Pool
pool = record {
  buf = 100;
  buf_size = 1000;
  regions = [];
  size = 4;
  count = 0;
  pkt = λ i. record { iov_base = 0; iov_len = 0 };
}

abbrev packet : IovTail
packet = record {
  iov = record { iov_base = 110; iov_len = 3 } ∷ record { iov_base = 200; iov_len = 40 } ∷ [];
  off = 1;
}
