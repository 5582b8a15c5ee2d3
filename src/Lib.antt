-- ===== src/Lib.antt =====
-- yasio: an asynchronous socket service, its byte streams and its containers.
--
-- The service runs a loop in a thread of its own. Each turn reads and writes on the transports,
-- drives the channels that resolve, connect or close, and calls the timers that have expired; the
-- packets and the changes of state go into an event queue, which the user's thread drains.
--
--   Base: the names that all parts share: lists, tests and integers over the native numbers, bit
--   operations, results with errors, and the replacement of a part of a list.
--   Endian: yasio/endian_portable.hpp on a little-endian host. The swaps are the shifts and masks of
--   the source; Convert holds the four functions of a convert_traits.
--   Stream: yasio/obstream.hpp and yasio/ibstream.hpp. Buffer is what binary_writer_impl calls on its
--   buffer type, with fixed_buffer_span and dynamic_buffer_span as instances and IsBuffer as their
--   common laws; Writer and Reader are the operations, with a range check as a result out_of_range.
--   Frame: the receiving side of yasio/io_service.cpp: call_read, do_read, unpack and the built-in
--   decode_len. `held` stands for the first `offset_` bytes of the receive buffer. The specification
--   is Frame.Stream.Frames, which cuts a stream by the answers of the length decoder.
--   PodVector: yasio/pod_vector.hpp. The allocator, the size limit and the value of fresh memory are
--   parameters; the allocator is taken to give every size up to the limit.
--   EventQueue: concurrent_queue of yasio/impl/concurrent_queue.hpp and io_service::dispatch.
--   Sending: write, do_write, call_write and complete_op of io_transport.
--   Timers: highp_timer, schedule_timer, remove_timer, process_timers and get_timeout. timer_queue_ is
--   held from its back to its front, so that the next timer comes first; std::sort is an insertion
--   sort by expire_time, one of the orders that it may give among equal times.
--   Channel: one client channel: open, do_resolve, start_query, do_connect, do_connect_completion,
--   the connect timer, handle_close, and the parts of a turn of the loop, process_transports,
--   process_channels and process_timers, between which calls of the user may come.
--   Endpoint: operator< and operator== of ip::endpoint in yasio/xxsocket.hpp.
--   Server: one server channel over TCP or UDP and its transports: do_accept, do_accept_completion,
--   do_dgram_accept, handle_close; Server.Turn has the parts of a turn of the loop, between which and
--   during which calls of the user may come. transport_map_ is a list of pairs, and the order of its keys
--   a parameter. The numbers of transports wrap around at 2 ^ 32, and a UDP transport that is not
--   connected takes the address of each datagram for its peer.
--   Udp: io_transport_udp, where a null destination is one of the things that sending may come to.
--   Service: start, do_stop, handle_stop and the end of the loop, with the worker thread; a call that
--   joins a thread that runs is an outcome of its own, and is made again when the thread has ended.
--   Watcher: the watchers over poll, select and epoll in yasio/impl, with one table of events as what
--   they have in common, for descriptors below FD_SETSIZE.
--   ObjectPool: yasio/impl/object_pool.hpp, over a memory of pointers, for objects of eight bytes at
--   least, so that the pointers in two objects do not overlap.
--   SharedMutex: shared_mutex and shared_lock of yasio/shared_mutex.hpp; Threads is what several
--   threads make of the mutex, and Guards what users of several guards make of their locks.
--   Split: yasio/split.hpp. Transfer: send_n, recv_n and disconnect of yasio/xxsocket.cpp.
--   Delivery: a sender of Sending and a reader of Frame, with the network between them.
--   Tests: the code at concrete inputs.
--
-- Integers are natural numbers with their wrap-around written out, and ℤ where the source has an
-- `int` that may be negative. The answers of sockets, resolver, clock and pollers are inputs. Loops
-- are structural, but for two: write_ix recurses on the size of the value, and process_timers on
-- fuel, of which two more than there are timers are shown to be enough where each timer waits for a
-- microsecond and the callbacks leave the timers alone. read_ix gives at most five or ten rounds.
-- The locks of the service are not modelled: each operation under a lock is one step. `int` sums
-- that would overflow are taken as mathematical ones in the length decoder. The receive buffer's
-- size bounds what one read may bring; the models take every read as it comes.
--
-- Not modelled: TLS, KCP and c-ares transports, multicast groups, several channels in one service,
-- options, floating point values in streams, and the wrappers of the operating
-- system's calls. yasio/string_view.hpp, impl/ifaddrs.hpp and impl/inet_ntop.hpp are copies of
-- other projects, and the bindings and extensions use the service.
pub mod Base
pub mod Endian
pub mod Stream
pub mod Frame
pub mod PodVector
pub mod EventQueue
pub mod Sending
pub mod Timers
pub mod Channel
pub mod Watcher
pub mod ObjectPool
pub mod SharedMutex
pub mod Endpoint
pub mod Server
pub mod Service
pub mod Split
pub mod Transfer
pub mod Udp
pub mod Delivery
pub mod Tests
