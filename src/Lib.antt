-- ===== src/Lib.antt =====
-- A verification of platoon, a single-threaded asynchronous runtime: its synchronisation
-- primitives (src/sync/), the clock, reactor and executor of its runtime (src/runtime/), its timers
-- (src/time.rs), its TCP types (src/net/) and its pollers (src/sys.rs).
--
-- The semaphore is the base of the locks: a mutex is a semaphore with one permit and a
-- `RefCell`, a readers-writer lock one with `usize::MAX` permits. Timers set alarms in the
-- clock. The executor runs the tasks that were woken, and parks the thread in the clock, which
-- expires the alarms that are due and parks in the reactor, which polls the system for the
-- sources that tasks wait for.
--
-- Base.antt, Base/: names and lemmas that all parts share; what the program uses of the standard
--   library (`Poll`, `Waker`, `io::Error`, `RefCell`, `usize` addition); Outcome, the end of a
--   call: a value, a panic, or rounds that ran out.
-- Slab.antt: the crate `slab`, which is a dependency: a record of its operations and documented
--   laws, an argument of all that uses it. Slab/Slots.antt fills it with a list of slots.
-- Semaphore.antt: src/sync/semaphore.rs, a function per method. Semaphore/Queue.antt is the
--   specification, a queue of waiters with no slab and no links, and Semaphore/Refines.antt
--   says when a semaphore represents one; Semaphore/Links.antt is about the doubly linked list.
--   Semaphore/System.antt puts the semaphore among its clients: futures that wait, permits that
--   are held, and a step for each call.
-- Mutex.antt, RwLock.antt: src/sync/mutex.rs and src/sync/rwlock.rs. The modules Users put a
--   lock among its futures and guards. An `async fn` is its poll and the drop of its future.
-- Oneshot.antt: src/sync/oneshot.rs; Oneshot/Ends.antt puts the channel between its two ends.
-- Runtime/Clock.antt, Runtime/Park.antt: src/runtime/clock.rs and the trait of
--   src/runtime/park.rs, which is an argument of the clock.
-- Runtime/Reactor.antt: src/runtime/reactor.rs, over the slab and a poller. Sys.antt is the event
--   of src/sys.rs and, as a record, what the reactor relies on of a poller: its calls, and what
--   they leave registered with the system. Sys/Table.antt fills the record with a table.
--   Sys/Epoll.antt is the poller of Linux, over a record of what it uses of libc, and
--   Sys/Epoll/Registers.antt fills the record of pollers with it. Sys/Kqueue.antt is the poller
--   for kqueue, whose registrations are one for each direction, over a record of its own.
-- Runtime/Executor.antt: src/runtime/executor.rs, over the same trait of parkers. The code of a
--   poll is a tree of the calls that it makes of the runtime. Runtime/Executor/Wakers.antt is the
--   table of raw wakers, with the reference counts. Task.antt is src/task.rs.
-- Runtime/System.antt, Runtime/Context.antt: src/runtime/mod.rs; the first is the runtime as the
--   executor over the clock over the reactor, the second the current runtime of a thread.
-- Net.antt, Net/Tcp.antt: src/net/mod.rs and src/net/tcp.rs, over the reactor. Sys/Connect.antt is
--   `connect` of src/sys.rs, with the calls on sockets, of std and the crate socket2, as a record.
--   Net/Tcp/Calls.antt is the options and addresses of a stream, and its calls in any order.
-- Time.antt: src/time.rs, over the clock.
--
-- A waker is a number that says what it wakes; a call returns the wakers that it woke, in
-- order. A time is a count of nanoseconds, and `Instant::now()` an argument; it has no bound,
-- so that a sum beyond the range of an `Instant` does not panic here. A `usize` has 64 bits; an
-- addition on it panics or wraps around, as the build has overflow checks or not, and theorems
-- hold for both. The loop of `wake` runs on fuel, the number of waiters in the slab and one
-- more, which suffices on every semaphore that represents a queue. The loops of src/net/mod.rs
-- run on fuel of which two rounds suffice, since the first one takes the report; the loop of
-- `block_on` runs on fuel because it may go on for ever.
--
-- Not modelled: what the drop of a future does when its task ends or is cancelled; the `Rc`s that
-- share a state whose calls never call back into it; src/util.rs, where `wake` calls the waker and
-- `poll_fn` its closure; and what only formats. In the primitives, wakers are woken after the call
-- that woke them, so that a waker that calls back during `wake` is not covered.
pub mod Base
pub mod Slab
pub mod Semaphore
pub mod Mutex
pub mod RwLock
pub mod Oneshot
pub mod Runtime
pub mod Sys
pub mod Net
pub mod Task
pub mod Time
