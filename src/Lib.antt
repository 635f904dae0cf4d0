-- ===== src/Lib.antt =====
-- Verification of pmmpthread, the threading extension for PHP.
--
-- The parts. A thread-safe object has a monitor (src/monitor.c), a recursive mutex with a condition
-- and a word of state flags, and a store (src/store.c), the table of its shared members. Each thread
-- reaches the object through a connection with a table of local properties that caches what it has
-- read; modification counts tell a connection that its cache may be stale. A worker
-- (src/worker.c) keeps its tasks in queues (src/queue.c) under the monitor of its object. A store
-- is one of the engine's hash tables, and every operation on a store or on a worker's queues takes
-- the monitor first.
--
-- The files.
-- - Prelude, Bits: numbers, lists and words of flags.
-- - Memory: the C heap of queue items and the reference counts of values. A command runs on a heap
--   and gives a result, a fault, or `out_of_fuel`.
-- - Queue: src/queue.c, function by function (`pmmpthread_queue_push` is `Queue.push`). A queue
--   stands for the list of its cells, address and value, in `Queue/Refines.antt`.
-- - Monitor: src/monitor.c (`pmmpthread_monitor_add` is `Monitor.add`). An action returns, or is
--   blocked on the mutex. `wait_until` is cut into rounds, each up to the point where the thread
--   sleeps; `Monitor/Threads.antt` lets threads take rounds in any order.
-- - Worker: src/worker.c over the queues, with the methods of classes/worker.c in
--   `Worker/Methods.antt`. The wait in `pmmpthread_worker_next_task` is cut into rounds, and the
--   callback that collects a task is an argument.
-- - Zend: the part of PHP's hash table that a store calls, as a record of functions and laws about
--   its buckets. `Zend/Array.antt` has tables for which the laws hold.
-- - Store: src/store.c. Types and Values are the elements of a store and the conversions to and from
--   the values of PHP; State has a store and a connection; Access, Take, Whole and Walk are the
--   operations (`pmmpthread_store_shift` is `Store.Take.shift`). A call is told in `got` whether
--   the lock was taken, and returns the new state with its result. The section parameter `E` is the
--   engine, and a `Thread` is what the code asks of the current thread. The other files under Store
--   are proofs: Bounds, Ends, Takes and Shift are about the cached positions of the first and the
--   last element, Append about their loss, Chunk about the end of a loop, RoundTrip about storing
--   and reading a value, Truth about the test for emptiness, Coherence, Deletion and Sync about the
--   caches of the connections.
-- - Pool: classes/pool.c (`Pool::submit` is `Pool.submit`), with what the methods call on a worker
--   as a record `Calls` over a state. `Pool/Robin.antt` is about
--   the order of submissions, `Pool/Resize.antt` and `Pool/Shutdown.antt` show when a resize
--   ends and when it does not.
-- - Objects: the making, connecting and freeing of objects of src/object.c, with the registry of
--   src/globals.c, as operations on a world of connections and objects (`pmmpthread_base_free` is
--   `Objects.base_free`); `Objects/Steps.antt` lets threads take them in any order. Iterator and Classes
--   are the iterators, and the defaults and the destructor of a class; Foreach and Loop are about a loop.
-- - Routine: src/routine.c. Functions on the word of flags, each up to a wait or a call of PHP code;
--   `Routine/Steps.antt` puts them together for the creator of a thread and the thread. A wait for a
--   flag goes on once the flag is set, which is what `Monitor/Waiting.antt` is about.
-- - Handlers: src/handlers.c (`pmmpthread_read_property` is `Handlers.read_property`), with the store, the
--   engine and the PHP code that is called as a record `Calls` over a state. `Handlers/Guards.antt` is about
--   the guards of the magic methods.
-- - Globals: the permanent strings, the shared sockets and the set-up of src/globals.c.
-- - Copy: strings, values and syntax trees of src/copy.c, a tree in a block of memory with an address for
--   each node. `Copy/Opcodes.antt` is the relocation of a function's opcodes, on 32 and on 64 bits, and
--   `Copy/Functions.antt` the tables by which a function is copied once; `Copy/Closures.antt` is the copy of
--   a closure (`pmmpthread_copy_closure` is `Copy.Closures.copy_closure`).
-- - Prepare: src/prepare.c. The directives of the configuration (`pmmpthread_prepare_ini` is
--   `Prepare.prepare_ini`) and the included files; `Prepare/Startup.antt` has the functions and
--   constants, `Prepare/Runtime.antt` the start-up that calls them all, `Prepare/Entries.antt` the
--   recursion of `pmmpthread_create_entry` over a class and what it inherits from, and
--   `Prepare/Classes.antt` the static properties of a class that is copied.
--
-- Numbers. Sizes of queues and modification counts are signed 64-bit words, kept as their 64 bits
-- modulo 2 ^ 64; the flags are a 64-bit word.
--
-- Fuel. The loops over the items of a queue take one round for each item and one to end; the loop of
-- `chunk` one for each element and one to end.
--
-- Not modelled: the reference counts of strings; memory of the stores, which the engine frees through
-- a destructor; exceptions, of which only the fact that one is thrown is kept; in the start-up of a
-- thread, the engine's own calls, which are parameters; the tables of functions, properties,
-- constants and traits of a class (src/prepare.c), and types and attributes (src/copy.c), copies of
-- structures of the engine field by field; the classes that the types of properties of a shared class
-- name (src/prepare.c); the copy of a class on a first connection, and connects to an object that is
-- being made, which is one step (src/object.c); the module's entry points (php_pmmpthread.c) and the
-- generated argument information.
mod Prelude
mod Bits
pub mod Memory
pub mod Queue
pub mod Monitor
pub mod Zend
pub mod Store
pub mod Worker
pub mod Pool
pub mod Objects
pub mod Routine
pub mod Handlers
pub mod Globals
pub mod Copy
pub mod Prepare
