-- ===== src/Lib.antt =====
-- passt and pasta connect a guest or a network namespace to the host's sockets. The part of the
-- program that is modelled here:
--
-- - Flow (flow.c, flow.h, flow_table.h): the table of all flows. Flow/Types has the data types,
--   Flow/Table the operations on `flowtab`, `flow_first_free` and `flow_new_entry`, from flow_init()
--   and flow_alloc() to flow_activate(). Flow/Target is flow_target(), Flow/Sweep is
--   flow_defer_handler(), with the loops of its two passes. Flow/Clusters and Flow/Invariant say what
--   a valid table is: free entries form clusters, chained in order from `flow_first_free`, entries
--   before it are in use, and only the new entry is incomplete. Flow/Alloc, Flow/Lifecycle,
--   Flow/Targeting (with Flow/Retarget) and Flow/Sweep/Handler are about one operation each, Flow/Reach is about all
--   sequences of them.
-- - Flow/Hash (flow.c, and mod_sub() and mod_between() of util.h): the hash table from sides of flows
--   to buckets, with linear probing downwards. Flow/Hash/Probe is about probing, Flow/Hash/Insert
--   about lookup and insertion, Flow/Hash/Remove about removal: Flow/Hash/Ring counts buckets upwards
--   from a free one, Flow/Hash/Shift says what holds while the hole moves, Flow/Hash/Move and
--   Flow/Hash/Stop are about a step and the end of that loop.
-- - Iov (iov.c, iov.h): IO vectors, tails of them, and copies between them and flat buffers.
--   Iov/Bytes says which byte addresses a vector stands for; Iov/Skip, Iov/Tail, Iov/Clone, Iov/Copy
--   and Iov/Store are about the operations. Iov/Header has the operations on a header at the front of a
--   tail, with Iov/Header/Peek, Iov/Header/Remove and Iov/Header/Byte about them. Iov/Load is about
--   reading memory after a write.
-- - Checksum (checksum.c, and two macros of ip.h): Internet checksums, in the plain variant of
--   csum_unfolded() and as a little-endian host computes them. Checksum/Fold is about csum_fold(),
--   Checksum/Sum about messages and headers, Checksum/Tail about csum_iov_tail().
-- - Fwd (fwd.c): address translation, fwd_nat_from_tap(), fwd_nat_from_splice() and
--   fwd_nat_from_host(), with Fwd/Sides, Fwd/Nat and Fwd/Roundtrip about it. Fwd/Rule (fwd_rule.c, fwd_rule.h,
--   and fwd_rule_search() of fwd.c): the tables of forwarding rules, with Fwd/Rule/Conflicts, Fwd/Rule/Add and
--   Fwd/Rule/Search about them.
-- - Packet (packet.c, packet.h, and vu_packet_check_range() of vu_common.c): pools of packets.
--   Packet/Loop, Packet/Get and Packet/Roundtrip are about adding a packet and getting it back.
-- - Tcp (tcp.c, tcp_conn.h, tcp_internal.h): tcp_data_from_tap(), from a pool of packets to the socket.
--   Tcp has the connection, the comparisons of sequence numbers and what runs on acknowledgements;
--   Tcp/Options is tcp_opt_get(). Tcp/Segment reads a segment from a packet, Tcp/Gather is the loop
--   over a batch of segments, Tcp/Receive the function with what follows the loop. Tcp/Seq is about the
--   comparisons, Tcp/Stream says which segments carry a stream. Tcp/Deliver, Tcp/Take, Tcp/Flags, Tcp/Scan,
--   Tcp/Round and Tcp/Loop are about the loop, Tcp/Contract, Tcp/Keep, Tcp/Out and Tcp/Advance about
--   the function. Tcp/State has the events and flags of a connection, with the epoll mask of its socket
--   and its timer: conn_event_do() and conn_flag_do(); Tcp/State/Calls is tcp_timer_handler().
--   Tcp/State/Synced and Tcp/State/Stale are about the mask, Tcp/State/Timeout about the timer,
--   Tcp/State/States about the states, Tcp/State/Reached about all sequences of events and flags,
--   Tcp/State/Outcome and Tcp/State/Handler about tcp_timer_handler(). There a mask of bits is a function
--   from the number of a bit, and what the handler calls, segments to the guest and resets, is a parameter.
-- - Lineread (lineread.c, lineread.h): lines of a file through a fixed buffer. Lineread/Find is about
--   one look at the buffer, Lineread/Get about lineread_get().
-- - Serialise (serialise.c, serialise.h): whole buffers and integers over file descriptors. Serialise/Read
--   and Serialise/Write are about read_all_buf() and write_all_buf(), Serialise/Roundtrip about read_u32()
--   of what write_u32() has written.
-- - Dhcp (dhcp.c): the options of the DHCP server. Dhcp has the table `opts` and fill(), Dhcp/Client the
--   loop of dhcp() over the options of the client, on an IO vector. Dhcp/Fill and Dhcp/Loops are about
--   adding options to a reply, Dhcp/Replied about fill(), Dhcp/Parse about the loop over the client's
--   options, Dhcp/Roundtrip about the two together.
-- - Inany (inany.h, inany.c): the addresses that flows have on each side.
-- - Base: machine words, C arrays as functions, lists with native indices, results of code with
--   assertions.
--
-- A pointer into an array of the program is the index that it points at. A global variable is a field
-- of the state that an operation takes and returns. A failed assert(), which ends the process, is the
-- result `aborted`; NULL and -1 are `none`. `unsigned` and `size_t` sums wrap, at 2^32 and 2^64.
--
-- The loops over the flow table run on fuel `flow_max + 1`: each round moves on by at least one entry,
-- and there are `flow_max` of them. The loops of the hash table run on fuel `flow_hash_size`: each
-- round moves on by one bucket. csum_fold() has fuel for three rounds, and 32 bits fold in two. The
-- loop of tcp_data_from_tap() has fuel for one pass over the batch for each entry of `tcp_iov`: it goes
-- back only after it has filled one. lineread_get()
-- has fuel for a round for each byte of the buffer and two more, the loop over DHCP options for a round
-- for each byte of the message and one more. The loops of Serialise take their fuel as an argument: a round
-- for each byte and each interruption, and one more, is enough. Running out of fuel is never the result that a theorem is about.
--
-- Parameters: read() and write() for lineread_get() and Serialise; for flow_target(), fwd_rule_search(), fwd_nat_from_*() and fwd_neigh_mac_get() as the
-- interface `Forwarding`; the handlers of the protocols as the interface `Handlers`, where a handler says
-- whether its flow is to be closed; the hash of a side, flow_sidx_hash(); for tcp_data_from_tap(), the
-- socket, timers, resets, and segments and events of the connection as the interface `TcpCalls`, and
-- the layout of libc's `struct tcphdr`. The header that iov_peek_header_() copies is assumed not to
-- overlap the packet. Of dhcp(), the checks of the
-- headers and the payloads of the options are not modelled: the theorems on fill() take any table of
-- options that fits. Not modelled: log messages, the epoll file descriptors, migration, the direction
-- from the socket to the guest, tcp_tap_handler(), tcp_sock_handler(), and the other handlers of the protocols behind the
-- flows.
pub mod Base
pub mod Inany
pub mod Dhcp
pub mod Flow
pub mod Fwd
pub mod Checksum
pub mod Iov
pub mod Packet
pub mod Tcp
pub mod Lineread
pub mod Serialise
