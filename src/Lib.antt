-- ===== src/Lib.antt =====
-- NovaIO, a coroutine runtime over io_uring: one scheduler to a thread, each with a queue of runnable
-- coroutines, an inbox for tasks of other threads, a time wheel and an I/O engine.
--
-- How the parts interact. A turn of `Scheduler::run` lets the time wheel catch up, empties the inbox,
-- resumes a batch of coroutines and polls the I/O engine. The wheel, the engine, the mutex and the
-- event all end in `Scheduler::schedule`, or in a message to the ring of another thread.
--
-- Files and code, paths from the repository's root:
--   Prelude, Bits, Handle: shared names, lists over native numbers and of addresses, `&` and `|` as
--     arithmetic, and coroutine handles as addresses, 0 for null.
--   TimeWheel: include/novaio/time_wheel.hpp and src/time_wheel.cpp. The record `TimeWheel` has the five
--     arrays as one range of cells (TimeWheel.Cells), the tick, the count of timers, and the memory in
--     which the nodes lie. `add_timer`, `remove_timer`, `cascade`, `tick` and `next_timeout` are the
--     functions of these names; `sleep_suspend` is `SleepAwaiter::await_suspend`, and `sleep_for` of
--     TimeWheel.Sleep the whole awaiter. The children describe a wheel as lists of nodes, one for each
--     cell, and these as a set of timers.
--   Queues: include/novaio/concurrent_queues.hpp. Queues.Local and Queues.Spsc have `make`, `push`, `pop`
--     and, for `SpscQueue`, the destructor `destroy`; Queues.Spsc.Race has the steps of a
--     producer in `push` and a consumer in `pop`, interleaved.
--   Scheduler: include/novaio/scheduler.hpp and src/scheduler.cpp: `schedule`, `try_dequeue_batch`, the
--     loop of `run` over a batch (`run_batch`), and the choice of a wait in `process_io_events`
--     (`wait_for`). Scheduler.Run has the turns of `run` and `process_io_events`, with what the tasks,
--     the coroutines and the kernel do as arguments, and `process_inbox`, `poll` and the count of tasks
--     too, which have models of their own (Scheduler.Inbox, IoEngine, Metrics). Scheduler.Inbox has `UniqueTask` and
--     `process_inbox`, Scheduler.Numa `detect_numa_node_for_cpu`, and Scheduler.Setup the constructor,
--     `setup_numa_and_affinity`, the start of `run` and the destructor.
--   Runtime: src/runtime.cpp: `start`, `dispatch_on`, `notify_target_ring` and the wake-up of `stop`;
--     Runtime.Notify follows a message to `poll` on the other thread, and Runtime.Delivery a task to
--     `process_inbox`.
--   Task, WhenAll, IoBuffer: include/novaio/task.hpp, include/novaio/when_all.hpp and
--     include/novaio/io_buffer.hpp: a promise from `co_await` to its result, with `Task<void>` in
--     Task.Void, coroutines that await one another (Task.Chain), the owner and the memory of a frame,
--     the tasks, the counter and the results of `when_all`, and the owner of a provided buffer.
--   IoEngine: include/novaio/io_context.hpp, include/novaio/io_engine.hpp and src/io_engine.cpp:
--     `SafeIoAwaiter`, `poll`, the attempts of `init` and in IoEngine.Init the rest of it, `get_buffer`,
--     and in IoEngine.Submit the submissions; IoEngine.Poll has `poll` on several operations, and
--     IoEngine.BufRing `setup_provided_buffer_ring`, `return_buffer` and `~IoEngine`. A thread has its
--     contexts by address; the use of a deleted one is `none`.
--   CoMutex: include/novaio/comutex.hpp and src/comutex.cpp: `await_suspend` and `unlock`. An atomic
--     operation is one step, and `unlock` is given the awaiters that arrive between its steps.
--     CoMutex.Holders has the coroutines that lock and unlock, as a step relation.
--   Event: include/novaio/event.hpp, as a step relation, where the linked awaiters are lists, and each
--     round of the loop of `set` is a step, with or without an effect; Event.Resume has `resume_waiter`.
--   Metrics: include/novaio/metrics.hpp: the counters and the registry.
--   Serializer: include/novaio/serializer.hpp: `serialize` and its helpers.
--   HttpServer: examples/http_server.cpp: `handle_client` as the places where it is suspended,
--     `on_accept_callback`, `env_size_or` and the loop of `main`; HttpServer.Multirecv:
--     examples/http_server_multirecv.cpp: `handle_business_logic` and the callbacks. HttpServer.Sockets
--     has `start_multishot_server` and `start_server` with their calls of the system.
--
-- Numbers. A `uint32_t` or `uint64_t` is a natural number with its wrap-around written out, as `% 2 ^ w`.
-- A result of 32 bits is held as its representation.
--
-- Fuel. The inner loops of `tick` run on fuel that any bound on the addresses of the nodes provides,
-- since a list holds distinct nodes; the outer loop has as many rounds as ticks to go. The destructor
-- of a queue has one round more than there are slots, the loop of `unlock` one more than awaiters, and
-- that of `process_inbox` one more than the tasks that it comes to run, and the one at the end of
-- `notify_target_ring` one more than the completions of the own ring.
--
-- Not modelled: liburing and the kernel, mimalloc, the NUMA library and the thread affinity, which the
-- source only calls and of which a model has the calls at most; the memory order of atomic operations,
-- which are sequential here; the transformation of coroutines, which is the compiler's; the clock, which
-- is an argument; the runtime's threads, which `start` of src/runtime.cpp creates and `stop` joins; and
-- the tests and benchmarks under examples.
pub mod Prelude
pub mod Bits
pub mod Handle
pub mod Queues
pub mod TimeWheel
pub mod Metrics
pub mod Serializer
pub mod CoMutex
pub mod Scheduler
pub mod IoEngine
pub mod Event
pub mod Runtime
pub mod Task
pub mod WhenAll
pub mod IoBuffer
pub mod HttpServer
