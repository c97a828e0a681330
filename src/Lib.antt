-- ===== src/Lib.antt =====
-- The reusable core of a collection of C and C++ programs: the utilities under util/ and the
-- self-contained components under c++/ and c/. The programs do not call each other; what they
-- share is the style of a ring, a lock or a scan, so the library has one module per component
-- and one of shared helpers.
--
-- Base holds what the components share: the libraries' names, Boolean tests, lists over native
-- indices (a write out of bounds changes nothing, a read takes a default), integers, remainders.
--
-- BlockingQueue models util/bounded_blocking_queue.h, the blocking queue of pointers.
-- BlockingQueue.Queue is `queue_t`; BlockingQueue.init, put, get and close are `queue_init`, one
-- pass of the loops of `queue_put` and `queue_get` under the lock, and the assignment of
-- `queue_close`. `malloc` is a parameter. Sizes and positions wrap around at 2^64.
-- BlockingQueue.Fifo is the queue that the ring promises to be. BlockingQueue.System is the step
-- relation of threads that call the queue; a step is one critical section, so the mutex is held
-- throughout; `pthread_cond_wait`, `pthread_cond_signal` and `pthread_cond_broadcast` are
-- modelled by the threads that sleep, and stray wake-ups are steps. `queue_destroy`, which only
-- frees, is not modelled.
--
-- BoundedQueue models util/bounded_blocking_queue.hpp, the class template
-- `BoundedBlockingQueue`: make is the constructor, push_back, pop_front and close are the
-- methods, a wait being the outcome `waits`. The array has as many places as `new T[max_elems]`
-- gives it, and an access behind its end is the outcome `fault`.
--
-- ShmLocks models the reader and writer locks of shared-memory blocks, the class `State` of
-- c++/20230108-pubsub-shm-udp-3/shm.hpp and of c/20181104_dilu_spmc_atomic/shmblock2.cpp, as a
-- step relation on atomic accesses with one producer and any number of consumers. Accesses are
-- taken in one order (weaker orders of the C++ memory model are not modelled); ShmLocks.Release
-- tells the two ways of `ReleaseWriteLock` apart. block_address and block_index are the pointer
-- arithmetic of `ShmBlock`.
--
-- Hex models util/hex.hpp and c++/20190421_hex_codec/hex_codec.cpp. A vector is the list of its
-- bytes; the decoding loop runs on fuel, one more than the bytes to write, since each round
-- writes one. The lengths that are passed as an `int` must be one: a size that is none, and an
-- overflow of `binLen * 2` or `binLen * 2 + 1`, are `none`; hex_codec.cpp has no `int` lengths
-- there.
--
-- TrapWater models c++/leetcode/42-2.cpp (trap) and c++/leetcode/42.cpp (trap_with_levels), on
-- heights that are not negative and whose sums fit an `int`. The loops run on fuel, the length
-- of the row: each round moves one of the two pointers.
--
-- PubSub models c++/20221206-pubsub/message.hpp. PubSub.Hub is the program's table of topics
-- with all delegates and subscribers ever made, each known by its place; get_or_new, publish and
-- stop_delegate are `GetOrNew`, `Publish` and `Stop` of `MessagePublisherDelegate`, which
-- PubSub.Publisher.MessagePublisher holds and passes its calls on to, subscribe, stop_subscriber
-- and destroy are the constructor, `Stop` and the destructor of `MessageSubscriber`, turn and
-- woken are the rounds of its thread. The destructor of a delegate, which calls its `Stop` when
-- the last that holds it is gone, is not modelled: each delegate stays. An operation runs to its
-- end before the next, and an access to a destroyed subscriber is `none`. PubSub.Valid.Valid
-- says when a hub is well formed. PubSub.Threads has one topic with the threads of its
-- subscribers: its steps are the critical sections under `mutex_`, the calls of `notify_all`
-- behind them, and the two parts of a constructor. The insertion of a constructor is a step of
-- its own: it holds `subscribers_mutex_` and not `mutex_`, and what it does to a loop over the
-- same set at the same time is not modelled.
--
-- Text models util/string.hpp: replace_all, capture and split, with the calls of `std::string`
-- (find_text is `find`, replaced is `replace`) and `std::getline` written out. The loop of
-- `replace_all` runs on fuel, which the caller chooses, and `none` says that it has not ended.
--
-- FirstMissing models c++/leetcode/41.cpp: first_missing is `firstMissingPositive`, with the
-- member `v` as an argument and as a part of the result.
--
-- Permutation models c++/leetcode/60.cpp: fac, solve and get_permutation (`getPermutation`).
-- solve runs on fuel, the size of the vector, from which each round takes one element; an
-- overflow of a factorial and an access outside the vector are `none`. Permutation.Written has
-- the digits that the code is to write, for n up to 9; from 10 on it writes characters that are
-- no digits.
--
-- ShmBlock models the opening of shared memory. open_or_create, open_only, destroy,
-- acquire_block_to_write and acquire_block_to_read are the methods of `ShmBlock` in
-- c++/20221213-pubsub-shm-udp/shm.hpp; ShmBlock.Uncounted has those of c++/20230108-pubsub-shm-
-- udp-3/shm.hpp (create, open_existing, stop_block, unlink_block, write_block, read_block). The
-- operating system is the parameter ShmBlock.Os, whose answers may depend on all calls before
-- them; the result of an operation has these calls in it. ShmBlock.Users is the step relation of
-- blocks that open one object and leave it, a whole operation at a time, with
-- ShmBlock.Users.Documented what `shm_open` and the counter are documented to do. The block that
-- a lock function returns is an argument.
--
-- Spmc models c/20181104_dilu_spmc_atomic/spmc9.c as a step relation on atomic accesses in one
-- order: spmc_init is the function of that name, the constructors of Spmc.Step are
-- `producer_alloc`, `producer_alloc_end`, `consumer_alloc` and `consumer_alloc_end`.
--
-- Discover models c++/20230108-pubsub-shm-udp-3/service_discover.hpp: new_discover, packet and
-- send, recv and discover_read_cb are the constructor, `Send`, `Recv` and the callback of libuv,
-- which finds the datagram at the front of `buffer_`. Message models message.hpp of the same
-- directory on top of Discover and ShmBlock.Uncounted: new_publisher, publisher_hears, acquire,
-- publish, and new_subscriber, subscriber_hears, message_read_cb. A string passed to a
-- subscriber is taken to outlive it.
--
-- Wildcard models c++/leetcode/44-2.cpp: is_match is `isMatch`, and string_split, strip_left,
-- strip_right, match_pieces, match and match_exact are its parts. Wildcard.Meaning.Wild says
-- what a pattern means, by recursion on the pattern. The loop of `match` runs on the number of
-- places that are left, which its bound gives.
--
-- MergeLists models c++/leetcode/23.cpp: merge_k_lists is `mergeKLists` on lists of values. The
-- priority queue is a parameter, and MergeLists.PriorityQueue says what one is documented to do
-- with a comparator that orders its elements; the comparator of the code, cmp, orders only
-- different values. The loop runs on fuel, one round for each value and one more.
--
-- Timers models c++/20230203-component-schedule/component.h: add_timer, del_timer and
-- on_time_out are `AddTimer`, `DelTimer` and `OnTimeOut`. How far the vector grows is a
-- parameter, and libuv keeps the addresses of the timers it runs.
--
-- AsyncMessage models c++/20221211-pubsub-libuv-multithread/message.hpp, where a subscriber's
-- callback runs on an event loop: AsyncMessage.Subscriber is one `MessageSubscriber` and the
-- constructors of AsyncMessage.Step are the two parts of `Post` and of `Stop` and the accesses
-- of `async_subscriber_cb`, which libuv runs once for any number of sends before it. Its table
-- of topics is that of c++/20221206-pubsub/message.hpp.
--
-- Palindrome models c++/leetcode/214.cpp: shortest_palindrome is `shortestPalindrome`. The outer
-- loop runs on fuel, one more than the length of the text, since `i` falls in each round.
--
-- Parentheses models c++/leetcode/32.cpp: mark_loop and count_loop are the two loops of
-- `longestValidParentheses`. The entries of `v` that are written are a list, the last first, as
-- the inner loop reads them. Parentheses.WellFormed says what well-formed parentheses are, for
-- texts of `(` and `)`; the code takes every other character for `)`.
--
-- Queens models c++/leetcode/51-2.cpp: solve_n_queens is `solveNQueens`. Its loop runs on fuel,
-- and Queens.Work gives a number of calls of `next` that is enough. Queens.Search says what is
-- left to find at each vector of the search, Queens.Placed what a placement is, and
-- Queens.Boards what a board is.
--
-- LongestPath models c++/leetcode/388.cpp: scan is `nextline`, on the text from `pos` on, and
-- path_loop, on fuel, the loop of `lengthLongestPath`, which takes a line in each round.
-- LongestPath.Forest has the file systems that the texts stand for.
--
-- SpmcRwlock models c/20181104_dilu_spmc_atomic/spmc12.c, where each entry has a
-- `pthread_rwlock_t`: producer_alloc, producer_alloc_end, consumer_alloc and consumer_alloc_end
-- are the functions of those names, each as one step. The lock is a parameter, and
-- SpmcRwlock.IsDocumented says what POSIX says of it. The loops of the two that take an entry
-- run on fuel; one round is enough where the lock has room for a reader.
--
-- Not modelled: the copies of other projects (util/nlohmann_json.hpp, util/httplib.h, catch.hpp,
-- ae and zmalloc under c/20171011_ae_httpd), the benchmarks and samples whose code is calls of a
-- library or of the operating system.
pub mod Base
pub mod BlockingQueue
pub mod BoundedQueue
pub mod ShmLocks
pub mod Hex
pub mod TrapWater
pub mod PubSub
pub mod Text
pub mod FirstMissing
pub mod Permutation
pub mod ShmBlock
pub mod Spmc
pub mod Discover
pub mod Message
pub mod Wildcard
pub mod Timers
pub mod MergeLists
pub mod Palindrome
pub mod AsyncMessage
pub mod Parentheses
pub mod Queens
pub mod LongestPath
pub mod SpmcRwlock
