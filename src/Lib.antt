-- ===== src/Lib.antt =====
-- Codex-NOS: a node of a network operating system, which runs components on scheduler threads and
-- passes messages between them and to other nodes.
--
-- The parts, and the files that model them:
--
--   src/core/nos_buffer.c: the pool of reference-counted buffers that carry messages. Buffer.antt has
--   the bins, `alloc`, `retain`, `release`, `push`, `pull`; Buffer/ has the invariant of a bin and of
--   the pool and what each operation keeps.
--
--   src/core/nos_scheduler.c: Reply.antt, the reply contexts; Heap.antt, the array heap of timers;
--   Sched.antt, the thread object, with Sched/Queue.antt, its message queue, and Sched/Timers.antt,
--   the timers, and Sched/Loop.antt, the loop of a thread beside its callers; Services.antt, the
--   service registry, with Services/Route.antt, the way of a message from the sender to the callback
--   of its receiver.
--
--   src/core/nos_node_mgr.c: Nodes.antt, the components of a node; Nodes/Staging.antt loads one,
--   Nodes/Changes.antt unloads and reloads, Nodes/Setup.antt starts the threads and sets the routes.
--   Nodes/Shutdown.antt is the end of a node, in src/core/nos_node_main.c.
--
--   src/mgr/nos_mgr_main.c: Mgr.antt, the node processes and the commands on them; Mgr/Parse.antt, the
--   command line; Mgr/Commands.antt, the loop of the manager.
--
--   src/core/nos_cli.c: Cli.antt, the history and the table of commands; Cli/Editor.antt, the line
--   editor; Cli/Actions.antt, what each command asks for; Cli/Thread.antt, the loop over the lines;
--   Cli/Usage.antt, the forms of the commands and their meaning, apart from the handlers.
--
--   src/components/perf: Perf.antt, the test of the way to another process; Perf/Exchange.antt runs its
--   two ends beside each other; Perf/Local.antt, the test inside one process.
--
--   src/core/nos_service.c: Services/Embedded.antt, the services found by name.
--
--   src/infra/db/nos_kv.c and nos_kv_priv.h: Kv/Hash.antt, Kv/Table.antt and Kv/Manager.antt, the
--   key-value tables. Kv/Table/Valid.antt has the invariant and `view`, the table as a map;
--   Kv/Table/Bindings.antt the links that `view` follows; Kv/Table/Memory.antt where the entries lie.
--
--   src/infra/nos_ipc_p2p.c: Ipc.antt, connections to other nodes and their retry; Ipc/Send.antt and
--   Ipc/Receive.antt, the two directions; Ipc/Conns.antt, the table of connections;
--   Ipc/Listen.antt, the listener; Ipc/Events.antt, the handler of events.
--
--   src/infra/shm/nos_shm_ipc.c: Shm.antt, the rings that two nodes share; Shm/Steps.antt, the two sides
--   of a ring step by step.
--
--   src/infra/stats/nos_stats.c and src/infra/log/nos_log.c: Stats.antt and Log.antt.
--
--   Base.antt and its children: arrays as lists, words with their wrap-around, C strings, searches,
--   and circular arrays (Base/Rings), which the thread queue, the send queue and the rings share.
--
-- How they interact: a message is a buffer of the pool. A send (Services/Route) finds the receiver's
-- thread in the registry and puts the buffer in its queue with one reference more, or hands it to a
-- connection (Ipc/Send), which uses a shared ring when there is one. The receiving side (Ipc/Receive)
-- takes a new buffer, gives it a reply context, and sends it on. A thread takes messages out, calls
-- the component, and releases the buffer. Timers live in the heap of their component's thread.
--
-- Correspondence: a function of the code is a function on the state that it changes, under its name
-- without the prefix. A pointer into a fixed array is an index, `none` is a null pointer, and a
-- locked section is one step. What the system gives (clock, sockets, mappings, callbacks of
-- components) is a parameter. Flags of a message are Booleans, and integers of a fixed width keep
-- their wrap-around where the code adds or multiplies them (`add32`, `mul32`, `add64`); times of
-- timers are taken to stay below 2^64.
--
-- Bounds and fuel: a loop over a queue takes the size of its array as fuel, which is more than the
-- entries it can hold; a walk along a chain of a table takes one more than the table's capacity; the
-- sifts of the heap take one more than the distance that the index can move. The loop that doubles
-- the number of buckets takes 22 rounds, as the code starts from 2^10 and stops at 2^31. A
-- run of the cross-process test (Perf/Exchange) takes two deliveries for each ping, and one.
--
-- The entries of a table are a list, read by index. The code reads them at `idx * entry_size`, a
-- 32-bit product (`entry_offset`), which agrees with that as long as the pool takes at most 4 GiB
-- (`Addressable`); the theorems on the operations of a table have that bound as a hypothesis.
-- A message that is received is sent on by `nos_service_msg_send`, which the receiving side takes as
-- a parameter that may change the connection.
--
-- The loop of a thread (Sched/Loop) and the two sides of a shared ring (Shm/Steps) are relations:
-- a step is one shared access, in a sequentially consistent memory. A reload (Nodes/Changes)
-- stages a new component, swaps it into its thread, the table and the registry, and then stops the
-- old one, which drops the old one's messages and cancels its timers. The system calls of the
-- manager (Mgr) are a record of functions on a state of the system, with their documented
-- behaviour as a record of laws.
--
-- Not modelled: the example components, signals and the creation of threads, the modes of the
-- terminal, and the dumps, which print. A byte that is typed is taken not to be 0. But for those
-- two relations, interleavings inside a call are left out: a log slot is never seen half written,
-- and the free stack of a table is changed by one call at a time.
pub mod Base
pub mod Reply
pub mod Buffer
pub mod Heap
pub mod Kv
pub mod Sched
pub mod Services
pub mod Shm
pub mod Stats
pub mod Log
pub mod Ipc
pub mod Mgr
pub mod Nodes
pub mod Cli
pub mod Perf
