-- ===== src/Lib.antt =====
-- A verification library for async_io_framework, a header-only C++ library of coroutines over epoll
-- (include/async_frame).
--
-- The program. A `Scheduler` (include/async_frame/scheduler.h) keeps, for each descriptor, the
-- operation that waits to read and the one that waits to write, in step with an epoll instance
-- (include/async_frame/epoll_manager.h); its loop `running` completes operations as events arrive.
-- An operation (include/async_frame/single_operator.h) resumes the coroutine that waits for it. The
-- timers of all operations share one timerfd behind a queue (include/async_frame/timer.h). The
-- awaiters of a read register an operation, a timer and a cancellation
-- (include/async_frame/async_read.h, include/async_frame/cancellation_token.h; the same for a write,
-- include/async_frame/async_write.h), and take them back on resumption; the data goes through a
-- buffer (include/async_frame/buffer.h) by one receive or one send at a time
-- (include/async_frame/do_read.h, include/async_frame/do_write.h). Each operation is a coroutine of
-- type `Task` (include/async_frame/task.h) behind an outer awaiter, which an operation's completion
-- resumes. Sockets come from builders (include/async_frame/connecting.h,
-- include/async_frame/connector.hpp), which move into a `Connection`
-- (include/async_frame/connection.h).
--
-- The files.
--   Prelude: shared names; Boolean tests, lists and maps over the native numbers, the results and
--     sequences of calls that change a state and may throw, and 64-bit words.
--   Events: event masks as flags (`register_type`, the tests of `running`); Events/Bits relates them
--     to 32-bit words.
--   Epoll: `Epoll_Manager` over an epoll instance, which is an interface of operations and laws.
--   Operations: `read_op`, `write_op`, and the older classes of include/async_frame/operator.h and
--     include/async_frame/IOperation.h; Operations/Status is about `operation_state` of
--     include/async_frame/base.h.
--   Scheduler: the table and its updates; its children have the agreement with epoll, the absence of
--     exceptions, the table as a client sees it, and the event loop.
--   Timer: `TimerEvent`; its children have the invariant of the queue, the contract as a map of
--     pending timers, and which operations take an id (Counter).
--   Buffer: the three buffers, and the interface `Cursor` through which the operations use them.
--   Transfer: `try_read` and `try_write` over the outcome of the system call.
--   CancelToken: `cancel_token` and `noop_cancel_token` over an eventfd.
--   Awaiters: the awaiters over the scheduler, the timers, a token and a buffer together. Steps
--     and Calls say how calls are put together and what each does to the table; Timers is about
--     `refresh_timer_registration`. Suspending, Arming, Meanwhile and Resuming have what
--     `await_suspend` and `await_resume` of the awaiters of a read and of a write have in common:
--     whatever races with them, what they register, what the program does meanwhile, and what they
--     take back. Recv has the two receive awaiters; its children have what they register and take
--     back, without a timeout (Registration, and Races for requests of another thread) and with one
--     (Deadline, Timeout), the loops of `async_read_impl` and `async_read_timeout_impl` (Loop), and
--     what the loops leave (Streams for any awaiter, Rounds for `inner_recv_awaiter`, TimedRounds
--     for `inner_recv_timeout_awaiter`). Send is the same for include/async_frame/async_write.h.
--     Single has the operations that wait once: a single read, an accept, a connect
--     (include/async_frame/async_read_some.h, include/async_frame/async_accept.h,
--     include/async_frame/async_connect.h) and a timer (include/async_frame/wait_for.h). Program has
--     all of these as parts of the operations of one program, in any order (Parts), the loops with a
--     timeout among them (Reading, Writing), and the event loop that runs them (EventLoop).
--   Descriptors: who owns a descriptor: `Connection`, `fdo` and a moved `Epoll_Manager`
--     (include/async_frame/connection.h, include/async_frame/fd_object.h); Swapping has the moves that
--     exchange.
--   Sockets: address parsing and the builders of include/async_frame/connecting.h over the sockets of
--     a process; Built is about what they leave open. Connector has the owners of
--     include/async_frame/connector.hpp over the descriptors of Descriptors, and Sharing what happens
--     to them; Intermediate is include/async_frame/intermiate.h.
--   Tasks: the promise of `Task` and the moves of its handle, with frames on a heap
--     (include/async_frame/task.h); Results and Ownership are about them. Awaiting has the outer
--     awaiters of the operations and include/async_frame/with_timeout.h as coroutines that run until
--     they suspend: a coroutine's body is the number of its suspensions. Combinators is
--     include/async_frame/multiple_coro.hpp.
--   Context: `IO_CONTEXT` of the older front end (include/async_frame/async_frame.hpp).
--   Tests: concrete kernels, and each property at a concrete input.
--
-- How state corresponds. A member function that changes its object is a function from the state to a
-- result and the state after it; an exception is the result `thrown`, and what was written before it
-- stays written. Pointers to operations and coroutine handles are numbers, with `none` for
-- a null one. An unordered map is an association list, seen through `lookup`. The priority queue is
-- the list in which it is popped.
--
-- Parameters. The kernel's epoll instance, timerfd and eventfd are interfaces (`Epoll`, `TimerFd`,
-- `EventFd`) whose laws are those of the manual pages; the outcome of recv(2) and send(2), the clock
-- and the bodies of coroutines are arguments. Calls of another thread are explicit arguments of the
-- steps between which they fall.
--
-- Bounds. Descriptors, deadlines and byte counts are natural numbers; timer ids and buffer offsets
-- wrap at 2 ^ 64 where the source's do. No definition needs fuel: the loops run over the queue, over the
-- list of what the kernel reports, and over a list of rounds, each with what the rest of the program
-- does meanwhile; a loop that has not ended after its rounds gives `none`.
--
-- Not modelled: negative time points and their overflow; epoll_wait(2) and the creation of the
-- epoll instances, the timerfd and the eventfd; include/async_frame/async_executor.h, whose awaiters
-- have no body; the type lists of include/async_frame/drop_last.h and other dispatch at compile
-- time; the example programs. `InterMediate<IPV6_VERSION>` does not compile (its test lacks
-- constexpr); its branch is modelled as it would run.
pub mod Prelude
pub mod Events
pub mod Epoll
pub mod Operations
pub mod Scheduler
pub mod Timer
pub mod Buffer
pub mod Transfer
pub mod CancelToken
pub mod Descriptors
pub mod Sockets
pub mod Tasks
pub mod Context
pub mod Awaiters
pub mod Tests
