-- ===== src/Lib.antt =====
-- A verification library for the C core of bocpy, behaviour-oriented concurrency for Python: programs
-- schedule behaviours over cowns (values that one interpreter owns at a time), workers on
-- sub-interpreters run them, and the process stops when no behaviour is left.
--
-- How the parts interact. A behaviour that is scheduled holds the terminator (src/bocpy/
-- boc_terminator.c) until it is done; its node goes through the queues of the scheduler
-- (src/bocpy/boc_sched.c); the worker that takes it acquires the behaviour's cowns, runs its code,
-- which the registry (src/bocpy/boc_registry.c) keeps, and releases them (src/bocpy/_core.c). Beside
-- that, interpreters send messages under tags through rings (src/bocpy/_core.c, src/bocpy/
-- boc_tags.c), and share values on the noticeboard (src/bocpy/boc_noticeboard.c), whose entries pin
-- the cowns inside them.
--
-- Files.
--   Base, Base/*: lists, maps, words of 64 bits and buffers of bytes over the native numbers.
--   Bq, Bq/*: boc_bq_t of boc_sched.c. Nodes are addresses, and their links a memory, read and
--     written as the source does; each C function boc_bq_x is the function x. One call runs at a time.
--   Sched, Sched/*: the workers of boc_sched.c and boc_sched.h. Worker w has the four queues 4 * w to
--     4 * w + 3, which share one memory of links; thread-local variables are maps from the worker.
--     boc_wsq_x and boc_sched_x are the functions wsq_x and x, the latter without its prefix.
--     Sched/Park has the parking of idle workers by atomic steps.
--   Matrix, Matrix/*: _math.c. Doubles and their operations are parameters, buffers maps from
--     indices, and row pointers offsets. Each C function has its name, but the kernels that a macro
--     stamps for several operations are one function of the operation: impl_ewise, impl_rowwise,
--     impl_columnwise, impl_scalar and impl_outer in Matrix/Broadcast, impl_agg_... in
--     Matrix/Aggregate. Matrix/Aggregate/Lanes says in which order the four accumulators of an
--     aggregate take the cells; no law is assumed of the operations, since doubles round.
--     Matrix/Scatter has the writes to listed rows and columns, Matrix/Extreme the arg-reductions,
--     over an order with NaN, and Matrix/Slice the reads and writes at ranges, whose starts and
--     steps are words, with the source of impl_set read as it is by then when it is the matrix
--     itself, and the integer keys, for which PySlice_AdjustIndices is a parameter with its
--     documentation as a hypothesis.
--   Terminator, Terminator/*: boc_terminator.c. Each C function has its function, on a record of
--     the three counters, which wrap at 2 ^ 64; Terminator/Concurrent interleaves the atomic
--     accesses of terminator_inc, terminator_seed_dec and terminator_seed_inc with all other calls,
--     for any number of threads; it starts after a terminator_reset. The two waits are functions of
--     what their rounds read.
--   Registry, Registry/*: boc_registry.c. The used part of the table is a list; which allocations
--     succeed is an argument.
--   Noticeboard, Noticeboard/*: boc_noticeboard.c. Writes, deletes and the two ways to empty the board
--     return the board with what they freed and decref'd; Noticeboard/Threads has the mutator thread
--     and nb_pin_cowns, Noticeboard/Snapshot the snapshots and their cache, over a record of what Python
--     does (objects, dicts, unpickling), each of whose operations may fail.
--   Cown, Cown/*: the cowns of _core.c. An owner is an interpreter or none (BOCPY_NO_OWNER). Python's
--     conversions are the parameter Host; that they round-trip is the hypothesis RoundTrips where a
--     theorem needs it. Cown/Vars acquires and releases all cowns of a behaviour on a store by address,
--     since a behaviour may name one cown twice. Python's own reference counts are not modelled.
--   Request, Request/*: the two-phase locking of _core.c. Requests, cowns and behaviours are numbers;
--     resolve_one, start_enqueue, finish_enqueue and release are the C functions with these words in
--     their names, and Request/Schedule runs them over a behaviour's requests; there one
--     call runs at a time. Request/Steps has the same code by single atomic accesses, all behaviours
--     interleaved; Request/Steps/Ghost what its proofs remember.
--     qsort is a parameter, and so is whether the scheduler takes a behaviour.
--   Queue, Queue/*: the message ring of _core.c (boc_enqueue, boc_dequeue), whole calls in Queue and
--     their atomic steps in Queue/Race. The two counters only grow, and are ℕ.
--   Tag, Tag/*: boc_tags.c, and get_queue_for_tag of _core.c on one interpreter.
--
-- Fuel and bounds. Loops over tables are structural recursion, for loops are for_below (Base/Loops),
-- and the waits recurse on the list of their readings. wsq_enqueue_spread and the steals run on fuel;
-- that as many rounds as a queue has nodes are enough is proved. The ring has 16384 slots, the board 64
-- entries and keys of 63 bytes, a worker 4 queues and batches of 100, as in the source; size_t wraps
-- at 2 ^ 64.
--
-- Not modelled. Of the workers, the slow pop with its clock, and dispatch by workers while others
-- park; interleavings inside the scheduler's queue; the recycle queues; the drop of the caller's
-- cached snapshot by noticeboard_clear; the references that get_queue_for_tag takes on tags, and its
-- error for an argument that cannot be encoded; out-of-memory errors and negative worker counts in
-- boc_sched_init; the bound of int on the capacity of the registry; receive with its timeouts; of
-- src/bocpy/_math.c, slice keys, transposition in place, gather, the aggregates of two matrices, the
-- products of vectors, the functions that select a kernel by shape, and the Python methods; the
-- platform layer (src/bocpy/boc_compat.c) and the test shims, which only wrap system calls and the
-- functions above; and the Python package.
pub mod Base
pub mod Bq
pub mod Terminator
pub mod Registry
pub mod Noticeboard
pub mod Cown
pub mod Queue
pub mod Tag
pub mod Request
pub mod Sched
pub mod Matrix
