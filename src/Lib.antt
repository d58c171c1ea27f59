-- ===== src/Lib.antt =====
-- udp-stuff: packet queues over UDP, connections between peers over TLS, a tracker of peers, and the tools
-- under them.
--
-- The parts, and the files that model them:
-- - PacketQueue: packet_queue.h. PacketRecvQueue and PacketSendQueue keep packets by their 16-bit number. A user
--   buffer is cut into packets (push_buffer), and copied together again from a range of numbers (copy_data), with
--   numbers that stand for others (resolve_seq).
-- - Udp4Conn: udp4_conn.h. UDP4Connection puts a packet's number before its bytes, and receives into a queue.
-- - PacketSequence: packet_sequence.h, a block in packets of one size. ChainedBuffer: chained_buffer.h, headers
--   around data for one call of the system.
-- - Udp4: udp4.h, the checksum of UDP (Udp4.Checksum), the queue of raw datagrams for sendmmsg (Udp4.SendQueue), and
--   the driver that writes the headers of a packet and reads those of the messages it receives (Udp4.Driver), the
--   filters of its socket (Udp4.Filter, with socket_filter.h) and its buffers for messages (Udp4.Slots).
-- - Config: config.h. The parser writes a text as one block of length-prefixed options; the reader walks the block.
-- - Conn: crypto/ssl.cc (Conn.Ssl), conn/handler.h and conn/handler.cc (Conn.Handler), conn/peers.h and
--   conn/peers.cc (Conn.Peers), crypto/auth.h and crypto/auth.cc (Conn.Auth), crypto/sgn.h and crypto/sgn.cc
--   (Conn.Hasher, and Conn.Keys with the generators of keys and the handles that they own). The thread of a peer
--   reads headers from TLS and calls the handlers that are registered by type.
-- - Lock: utils/lock/simple.h and utils/lock/brute.h as step relations (Lock.Simple, Lock.Brute), utils/lock/scope.h
--   (Lock.Scope) and utils/lock/refs.h (Lock.Refs).
-- - Bits: proto/bit_writer.h and proto/bit_reader.h, a sequence of bits in machine words (Bits.Writer, Bits.Reader),
--   with shifts and masks as arithmetic (Bits.Shift, Bits.Masks, Bits.Fields).
-- - Cipher: crypto/block.h. Cipher.Vectors has the instructions of the processor that it calls, Cipher.Schedule the
--   keys of the rounds, Cipher.Sum the encryption of buffers, which chains the blocks by their sums.
-- - Net: net/tcpv4.cc (Net.Punch), where two peers call each other until one of them gets through; net/socket.h and
--   GuardPointer of utils/common.h (Net.Guard).
-- - Buffers: packet_buffer.h, a ring of packets (Buffers.Packets), and buffer.h, blocks of bytes and the copy between
--   any two of them (Buffers.Blocks). Tracker: tracker/tracker.h and tracker/tracker.cc, which search
--   the ids and addresses of Conn.
-- - Base: what the others share: lists, maps, words of 16, 32 and 64 bits, and what a call may come to.
--
-- How the code is read. A record or data type stands for a class, a function for each operation: it takes the state
-- and gives the state after it, in an `Outcome`: `done` with the results, `throws` with the exception, `fault` for
-- undefined behaviour (a read or write outside a block, a null pointer, a read of the end of a map), `hangs` for a
-- loop or a call that does not return. An exception carries no state, and of its text only the numbers. Unsigned
-- arithmetic wraps at its width. Memory is a list of bytes, the machine is little-endian, and `char` is a byte.
-- std::map and std::unordered_map are association lists, in the order in which a loop meets their elements;
-- `emplace` on a key that is taken leaves the map as it is and moves nothing, as in libstdc++ for C++17 (the
-- standard lets it move). Where it is called with three arguments, which does not compile, and where the move
-- assignment of PacketBuffer returns nothing, the code is read as meant. `len_t` of buffer.h is uint32_t here, and
-- int by default. Whether malloc succeeds, or what it gives, is an argument, and so are the results of recvfrom,
-- sendto, sendmmsg, SSL_read, SSL_write and of OpenSSL. Calls of the system in tcpv4_hole_punch return: an accept
-- without a timeout, which may block for ever, is not represented.
--
-- Threads. The locks are interleavings of accesses to shared variables. In Lock.Simple the store of a release may
-- become visible after the read of the waiters behind it, or not, by a parameter of the steps; in Lock.Brute stores
-- become visible in the order of the program.
--
-- Fuel. A `for` over 16-bit numbers has at most 2 ^ 16 rounds before it repeats. A chain of resolve_seq through
-- more numbers than that is a cycle. push_buffer has a round for each byte at most, if packets are not empty. A
-- byte of a configuration is put back once at most. The reader of a block goes on by a byte in each round, unless
-- a length of 0 keeps it where it is for ever. The first loop of find_ipv4_closest_peers takes one of two
-- iterators a step in each round. Where fuel runs out the model hangs.
--
-- The bit streams are modelled for words and values of 32 or 64 bits. The loops of the writer and the reader take a
-- bit of the field at least in each round, so the length of the field and one more is enough. tcpv4_hole_punch counts
-- its tries down in 32 bits, so 2 ^ 32 rounds are enough. What the instructions for vectors do to a word or a block,
-- the machine of the packet filter and the arithmetic of `float` are parameters; where a theorem needs their
-- documented laws, they are fields of a record (Documented, Machine).
--
-- Not modelled: init_socket of udp4.h, the other functions of net/tcpv4.cc and net/socket.cc, and the set-up of
-- OpenSSL for TLS, which call the system or the library in a row; dump of config.h,
-- which prints; utils/lock/pthread.h, which calls the library; enc.h, dec.h and control.h, which are unfinished; time,
-- logs and assertions; the Python generators.
pub mod Base
pub mod PacketQueue
pub mod Udp4Conn
pub mod PacketSequence
pub mod ChainedBuffer
pub mod Udp4
pub mod Config
pub mod Conn
pub mod Lock
pub mod Tracker
pub mod Buffers
pub mod Bits
pub mod Cipher
pub mod Net
