-- ===== src/Lib.antt =====
-- sthread: coroutines with IO multiplexing and timers on one operating system thread.
--
-- The parts and the files that model them:
--   stlib/st_heap.h, the array heap with indices kept in its nodes: Heap (data and operations),
--     Heap/Place (indices), Heap/Order (the sifts), Heap/Methods (push and delete), Heap/Pop,
--     Heap/Touched (every branch).
--   src/st_poll.h, src/st_thread.h, src/st_thread.cc and stlib/st_tailq.h, the coroutine
--     scheduler: Thread (state and queue macros), Thread/Queues (moves between queues),
--     Thread/Switch (yield, sleep, pend, recycle, create, wake up), Thread/Consistent and
--     Thread/Moves and Thread/Yield and Thread/Life (the invariant), Thread/Around and
--     Thread/Wakeup (Wakeup), Thread/Order (which thread runs), Thread/Family (sub-threads
--     and their parent), Thread/Reach (sequences of calls), Thread/Init (the constructor and StSysSchedule::Init).
--   src/st_sys.cc, the calls on descriptors that yield: Sys (the loops over an interface `Io` of the
--     kernel, the clock and the event schedule), Sys/Kernel (what is relied on), Sys/Send (st_write
--     and st_send), Sys/Receive (st_read,
--     st_recv and st_recvfrom), Sys/Wait (st_wait), Sys/Notify (st_notify_wait, st_notify and
--     st_sleep, on the scheduler of Thread). The loops know the scheduler only through `Io`.
--   stlib/st_epoll.h, the poller: Poll (masks and calls of epoll_ctl), Poll/Agrees (masks and
--     kernel).
--   src/st_thread.h and src/st_thread.cc, the event schedule: Event (items and queues of them),
--     Event/Init, Event/Dispatch (Dispatch, Wait and Schedule), Event/Registered, Event/Items,
--     Event/Queue and Event/Wait (theorems). It calls the poller of Poll and the scheduler of Thread.
--   app/st_dns/dns_proto.h, the DNS codec: Dns (names, zone and replies), Dns/Names and Dns/Encode
--     and Dns/Decode (names out and back), Dns/Zone, Dns/Reply.
--   stlib/st_heap_timer.h, the timers: Timer, Timer/Expiry, on Heap.
--   src/st_sys.h, the daemon's loop: Daemon (timeout and round), Daemon/Timeout, Daemon/Round. It
--     calls Event, Thread and Timer.
--   app/st_redisclient/resp.cc, the Redis protocol: Resp (values, the parser and the printer),
--     Resp/Print (numbers and lines), Resp/RoundTrip, Resp/Prefix, Resp/Used and Resp/Buffer, Resp/Spill.
--   stlib/st_hash_list.h, the hash table: HashList (keys' pointers and the operations),
--     HashList/Chains, HashList/Methods, HashList/Remove, HashList/Cycle.
--   app/st_chat/server.cpp, the chat room: Chat (mailboxes, sessions, broadcast, lines),
--     Chat/Mailbox, Chat/Lines, Chat/Deliver and Chat/Broadcast. Its broadcast calls st_notify of
--     Sys/Notify on the scheduler of Thread.
--   stlib/st_kqueue.h, the poller of kqueue: Kqueue, Kqueue/Synced (masks and filters).
--   app/st_httpclient/http_client.cc, the HTTP client: Http (the request), Http/Exchange (the
--     callbacks and st_http_exchange), Http/Buffer, Http/Request, Http/Response and
--     Http/Connections (theorems). It prints numbers as Resp does; the connections, the calls of
--     st_sys.cc and the parser of HTTP are parameters.
--   app/st_httpproxy/main.cpp, the reverse proxy: Proxy (requests, backends and slots), Proxy/Headers,
--     Proxy/Pick and Proxy/Slots. Its exchange with a backend is that of Http.
--
-- Correspondence. A pointer is a number and 0 is NULL; a member of an object is a function from
-- addresses. Times are milliseconds, and the model leaves out negative ones. A queue of the
-- scheduler is a list, and `link` says which queue the shared entry m_next_ belongs to; a macro
-- that is given another head sets `corrupt`. An operation that switches context ends at the
-- switch, in the state in which the next thread runs. Logging is left out.
--
-- Fuel. SiftUp gets the position and SiftDown the count, and the lemmas of Heap/Order show that
-- these are enough. Wakeup returns nothing when its fuel runs out, and more fuel than there are
-- sleeping threads is enough. The loops of the calls on descriptors return nothing when their fuel
-- runs out; for st_write and st_send, for st_read, st_recv and st_recvfrom and for st_http_exchange
-- one unit for each nanosecond of the timeout and of one millisecond more is enough, since no round
-- takes less. In st_sys.cc this holds for a timeout whose double and a few delays fit into an int of
-- milliseconds: there the elapsed time is an int, and a negative timeout, which stands for the
-- largest int, waits for ever, so that no fuel is enough for it. The model of remaining_ms in
-- http_client.cc leaves this cast out, and is that of the code while the elapsed time fits into an
-- int. The fuel of the loops over a text is its length.
--
-- Not modelled: the context switch in assembly, real clocks and sockets, memory exhaustion where
-- the source does not test for it, the pool of buffers, servers, and the sample applications but for
-- the codecs of st_dns and st_redisclient, the chat room, the HTTP client and the reverse proxy. The
-- HTTP parser of st_wrk is a copy of another project.
pub mod Chat
pub mod Daemon
pub mod Dns
pub mod Event
pub mod HashList
pub mod Heap
pub mod Http
pub mod Kqueue
pub mod Poll
pub mod Prelude
pub mod Proxy
pub mod Resp
pub mod Sys
pub mod Thread
pub mod Timer
