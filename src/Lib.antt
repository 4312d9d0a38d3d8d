-- ===== src/Lib.antt =====
-- A verification library for libcn, an event-driven network library in C whose parts are taken from
-- nginx, and for the echo server that main.c builds with it.
--
-- The program: memory comes from pools (palloc.c) over the C library's allocator (alloc.c). Queues
-- through a sentinel (queue.h, queue.c) link the posted events and the reusable connections.
-- Red-black trees (rbtree.c) hold the timers (event_timer.c) by the millisecond clock that times.c
-- keeps beside the date. A connection (connection.c) has a read and a write event and comes from
-- the free list of the cycle; events are registered with epoll (epoll_event.c), and the worker
-- processes share the accept mutex (shmtx.c) that decides which of them accepts.
--
-- The files:
--   Prelude        shared names, Boolean tests, native lists, machine words, memory
--   Queue          queue.h and queue.c: the links of all nodes as two functions of the address.
--                  Queue/Ring is the abstract view, a list of distinct nodes; Queue/Edit,
--                  Queue/Join, Queue/Middle, Queue/Sort and Queue/Stable are about the macros and
--                  functions against it
--   Alloc          alloc.c: what malloc answers is part of the state, a parameter of everything above
--   Pool           palloc.h and palloc.c: Pool/Blocks is about one block and a chain of them,
--                  Pool/Grow about the search and a new block, Pool/Serve about a whole request,
--                  Pool/Reset about the life of a pool, Pool/Release about large allocations
--   Array          array.h and array.c over a pool: Array/Memory is about growth in place, Array/Push
--                  and Array/Room about new elements, Array/Life about creation and destruction
--   PartList       list.h and list.c over a pool; PartList/Push
--   Buf            buf.h and buf.c over a pool; Buf/Fresh
--   Times          times.c: Times/Calendar is sgmtime, with Times/Calendar/Count and
--                  Times/Calendar/Correct; Times/Clock is the cached time
--   Mutex          shmtx.c: a step relation of any number of processes, each read and
--                  each swap a step of its own; Mutex/Safety and Mutex/Spin
--   Rbtree         rbtree.h and rbtree.c, with Rbtree/Delete; Rbtree/Shape is the abstract view, a
--                  binary tree of nodes, Rbtree/Attach, Rbtree/Insert and Rbtree/Search are about the
--                  descent of an insertion, Rbtree/Context, Rbtree/Relink, Rbtree/Rotate and
--                  Rbtree/Mirror about a rotation inside a tree. Rbtree/Zip and Rbtree/Colour are the
--                  steps up a tree and its colours, Rbtree/Fixing the state of the loop of an
--                  insertion, with Rbtree/Turn, Rbtree/Finish, Rbtree/Rounds, Rbtree/Balance,
--                  Rbtree/Left, Rbtree/Right and Rbtree/Loop; Rbtree/Way, Rbtree/Ascending,
--                  Rbtree/Height, Rbtree/RedBlack and Rbtree/Whole are about a whole tree
--   World          the state of event.h, connection.h and cycle.h: events and connections at all
--                  addresses, the queues, the timers, the free list, the descriptors closed
--   Timer          event_timer.h and event_timer.c over that state; Timer/Order
--   Connection     connection.c from get_connection on: Connection/Free, Connection/Reusable,
--                  Connection/Closing, with Connection/Withdraw and Connection/Steps
--   Posted         event_posted.h and event_posted.c; Posted/Order
--   Epoll          epoll_event.c: the events that epoll_wait returned; Epoll/Control is the
--                  registration of events, with handle_read_event and handle_write_event of event.c,
--                  Epoll/Interest is about it, and Epoll/Stale about events of closed connections
--   Accept         the accept mutex of event_accept.c; Accept/Held
--   Listen         the listening socket of connection.c; Listen/Sockets
--   Socket         posix_send and posix_recv of event_accept.c; Socket/Answered
--   EventLoop      process_events_and_timers of event.c; EventLoop/Released
--   Start          event_process_init of event.c; Start/Tables is the free list that it builds, and
--                  Start/Result is about the whole function
--   Acceptor       event_accept and close_accepted_connection of event_accept.c; Acceptor/Undone
--   Echo           the handlers of main.c; Echo/Once
--   Shutdown       close_idle_connections and close_listening_sockets of connection.c; Shutdown/Idle
--   Cycle          cycle.h and cycle.c; Cycle/Empty
--   Master         event_master_init of event.c and shm_alloc of shmtx.c; Master/Layout
-- The modules named Tests, and the states in Connection/Fixture and Epoll/Kernel, run the definitions
-- at concrete addresses.
--
-- Conventions: an address is a number and NULL is 0. Structures are written at addresses by
-- functions of the address, and a list link is followed there, so aliasing is as in C. Integers of 32
-- and 64 bits wrap by `% 2 ^ 32` and `% 2 ^ 64`. Sizes of structures are those of the x86-64 ABI.
-- Loops are by recursion on the list they walk or on fuel: queue_middle and queue_sort are given more
-- fuel than the queue has nodes, and a round of shmtx_lock 33 tests for its 32 doublings; the loops
-- over the tree take their fuel as an argument. Handlers are functions of the state.
--
-- epoll_ctl is a parameter, and the theorems about it assume that a successful call sets or forgets the
-- interest in its descriptor. What accept, send, recv, epoll_wait and the calls on sockets answer is a
-- parameter too. shmtx_trylock is one step in Accept and two in Mutex. The handlers that run inside
-- EventLoop act on the world alone: what event_accept does there to the mutex, and what a handler asks of
-- epoll, is in Acceptor and Echo, with their own states.
--
-- Not modelled: the system calls themselves (sockets, mmap, fork), what of main.c starts the
-- processes, and spinlock.c, which nothing calls.
pub mod Prelude
pub mod Queue
pub mod Alloc
pub mod Pool
pub mod Array
pub mod PartList
pub mod Buf
pub mod Times
pub mod Mutex
pub mod Rbtree
pub mod World
pub mod Timer
pub mod Posted
pub mod Connection
pub mod Epoll
pub mod Accept
pub mod Listen
pub mod Socket
pub mod EventLoop
pub mod Start
pub mod Acceptor
pub mod Echo
pub mod Shutdown
pub mod Master
pub mod Cycle
