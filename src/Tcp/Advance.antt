-- ===== src/Tcp/Advance.antt =====
-- What tcp_data_from_tap() does with a batch: the socket gets the stream's next bytes, and
-- `seq_from_tap` moves on by as many as it takes.
