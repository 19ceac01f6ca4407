-- ===== src/Lib.antt =====
-- librf, a library of coroutines for C++20: the parts that coroutines wait on.
--
-- A coroutine that must wait hands a state object to a channel, a mutex or an event, under a spinlock,
-- and is suspended; another coroutine or thread that writes, unlocks or signals takes the state out of
-- the wait list and gives it to the scheduler. The timer calls back states whose time is over.
--
--   RingQueue    include/librf/src/ring_queue.h: `ring_queue`, the buffer of a channel. `try_push`,
--                `try_pop`, `size`, `empty`, `full`, `capacity` and `nextIndex` are functions of the
--                same names on a record of the fields.
--   LinkQueue    include/librf/src/intrusive_link_queue.h: `intrusive_link_queue`, the wait list. The
--                links live in a store that maps a node's address to its two pointers.
--   Channel      include/librf/src/channel_v2.inl: `channel_impl_v2` and `await_suspend` of the awaiters.
--                It uses RingQueue and LinkQueue as they are. A trailing underscore of a function's name
--                is left out; the overloads of `awake_one_reader_` and `awake_one_writer_` that take a
--                value have names that end in `_val`.
--   Mutex        source/mutex_v2.cpp and include/librf/src/mutex_v2.inl: `mutex_v2_impl`, `state_mutex_t`
--                and the awaiters. `hand_over` is the loop of `unlock`.
--   MutexGuard   the same files: the awaiters of `mutex_t`, the guards `batch_unlock_t`, and the calls of
--                threads. `unlock_all` is the loop over several mutexes; `try_lock_range` is
--                `_Try_lock_range` of include/librf/src/without_deadlock_assemble.inl on them.
--   Timer        source/timer.cpp and include/librf/src/timer.h: `timer_manager`. `start` and `fire` are
--                the two loops of `update`, `cancel_all` and `cancel_entries` those of `clear`.
--                The functions of `timer_handler` have names that end in `_handler`.
--   Event        source/event_v2.cpp and include/librf/src/event_v2.inl: `event_v2_impl`, `state_event_t`
--                and the awaiters of one event. `notify_one` and `notify_all` are the loops of `signal`
--                and `signal_all`, `destroy` is the awaiter's destructor.
--   EventAll     the same files: `state_event_all_t` and `all_awaiter`. `drop_events` is the loop of
--                `on_timeout`.
--   When         source/when_v2.cpp and include/librf/src/when_v2.h: `state_when_t`, `when_all` and
--                `when_any`; a connector's function is what it does when its task has ended.
--   Scheduler    source/scheduler.cpp and include/librf/src/scheduler.h: `scheduler_t`. `resume_all` is
--                the loop of `run_one_batch`; what it needs of the timer is the record TimerOps.
--   LocalScheduler  source/scheduler.cpp: `this_scheduler` and `local_scheduler_t`. `construct` and
--                `construct_with` are its constructors, `leave` is the end of a guard's scope.
--   Future       source/state.cpp, include/librf/src/state.inl and include/librf/src/state.h:
--                `state_future_t` and what `state_t<_Ty>` and `state_t<void>` store; the functions of
--                the latter have names that end in `_void`.
--                Future/Storage is the union in which they keep the result; the functions of
--                `state_t<_Ty&>` have names that end in `_ref`.
--   Promise      include/librf/src/promise.h and state.inl: the promise as the client of its state, and a
--                coroutine as a task. `go` is `new_task`, `finish` is `co_return` or an exception.
--   Awaitable    include/librf/src/awaitable.h: `awaitable_t`; `settle` is what its functions share.
--   Sleep        source/sleep.cpp and include/librf/src/sleep.h, over Timer, Awaitable and Future.
--   LockRange    include/librf/src/without_deadlock_assemble.inl: the locking of several locks, for
--                threads and for coroutines.
--   BatchLock    include/librf/src/spinlock.h: `batch_lock_t`, the guards of a container of locks, over
--                LockRange. `unlock` is also the destructor.
--   Spinlock     the same file: `spinlock`. `lock_step`, `try_step` and `unlock_step` are one atomic
--                access of `lock`, `try_lock` and `unlock`; `spin` is the body of the inner loop.
--   CountedPtr   include/librf/src/counted_ptr.h, with the count in include/librf/src/state.h:
--                `counted_ptr`. `hold` is `_lock`, `drop` is `_unlock`.
--   Generator    include/librf/src/generator.h and source/state.cpp: `generator_t`, its promise and its
--                iterator, and `state_generator_t`. `iterate` is the loop of a range `for`.
--   Switch       source/state.cpp, source/scheduler.cpp and include/librf/src/switch_scheduler.h, yield.h,
--                current_scheduler.h: several schedulers, and the coroutines that go from one to another.
--   Prelude      names, tests and lemmas on lists that the parts share.
--
-- Each part has its definitions in the file of its name, its proofs in the files below, and runs at
-- concrete inputs in its Tests.
--
-- Objects are addresses into a store that a record carries; `null` is `nullptr`. Operations that hold
-- the lock of their object throughout are functions, and a history of calls from several threads is a
-- list of them in the order in which they got the lock. What the scheduler is asked to resume is
-- recorded in order. Integers of a fixed width keep their wrap-around: 32 bits for the indices of the
-- ring, 64 for counts. The clock is an argument of each `update`.
--
-- The loops of `_Lock_nonmember2`, `_Lock_nonmember3` and `run_until_notask` run on fuel, one unit for
-- each turn. For the first two one is enough if no other thread is in the way; else it depends on the
-- others, which may take the locks again and again, and a blocking lock may never return. For the last
-- it depends on when a batch leaves nothing to do. All other loops recurse over the list that they
-- work through.
--
-- The wait list of an event is the list that the link queue stands for; that of a channel is the queue
-- itself, with its links.
--
-- Parameters: what a timer's callback asks of the manager, what a coroutine asks of the scheduler
-- while it runs, what each call on a lock finds and whether a blocking one returns, which events a
-- wait for all of them finds signalled, and in which order tasks end.
--
-- Not modelled: the coroutine frames that the compiler makes, the machine's memory order, the
-- destructors that free memory, waits for any of several events (which assert that they are
-- flawed), the stop token (another author's code), and the glue, examples and benchmarks.
pub mod Prelude
pub mod RingQueue
pub mod LinkQueue
pub mod Channel
pub mod LocalScheduler
pub mod Mutex
pub mod MutexGuard
pub mod Timer
pub mod Event
pub mod EventAll
pub mod When
pub mod Scheduler
pub mod Future
pub mod Promise
pub mod Awaitable
pub mod Sleep
pub mod LockRange
pub mod BatchLock
pub mod Spinlock
pub mod CountedPtr
pub mod Generator
pub mod Switch
