-- ===== src/Lib.antt =====
-- AstraScheduler is a C++ task scheduler: tasks are admitted through a capacity gate, wait in global
-- and local ready queues, and are run by worker threads that steal from one another; coroutine tasks
-- suspend on timers and on other tasks; graphs of tasks are validated and then run node by node; a
-- shutdown drains or cancels what is left.
--
-- The files, and the code that each is about:
--   Status, Status/        include/astra/status.hpp, src/runtime/runtime_state.hpp, and the shutdown
--                          requests of src/runtime/scheduler.cpp: the packed status word and the
--                          compare-exchange loop on it (request_shutdown_mode), the cancellations that
--                          follow, and the stores of Running and Stopped.
--   Metrics, Metrics/      src/runtime/runtime_metrics.cpp: saturating counters in per-worker shards,
--                          logarithmic histograms, snapshots.
--   Admission, Admission/  src/runtime/admission_controller.cpp: acquire and release of slots, with the
--                          rounds of a blocked caller. It reads the status and counts into the metrics.
--   Task, Task/            src/task/task_control_block.cpp: one task's states, callbacks, cancellation
--                          and deadline.
--   Handshake, Handshake/  src/task/await_handshake.hpp: the lock-free meeting of a suspending
--                          coroutine with its wake-up.
--   Freeze, Freeze/        TaskGraph::freeze of src/graph/graph.cpp: the tests on the edges, Kahn's
--                          algorithm, the search for a cycle to report.
--   GraphRun, GraphRun/    src/graph/graph_shared_state.hpp and src/graph/graph_execution.cpp: a run of
--                          a frozen graph of ordinary nodes, from its roots to its report. It starts from what Freeze
--                          accepts, and takes the task states and recorded effects from Task.
--   Stealing, Stealing/    generate_steal_victims of src/runtime/scheduler.cpp: whom an idle worker
--                          asks for work.
--   Timers, Timers/        src/runtime/timer_queue.cpp: the heap of timers and the map that finds them.
--   Ready, Ready/          src/runtime/ready_queues.cpp: publication, claims on the global bands and on
--                          the workers' own queues, stealing, the cancellation of unstarted tasks.
--                          Each own queue is the list that Deque refines; slots are released in Admission.
--   Deque, Deque/          ChaseLevDeque of src/scheduling/chase_lev_deque.hpp: the work-stealing deque of
--                          a worker, as steps of its owner and its thieves.
--   Reaper, Reaper/        src/lifecycle/reaper_registry.cpp: the registered runtimes, the coordinator that
--                          joins them, finalization and the waits for it, the process snapshot
--                          (include/astra/process_metrics.hpp).
--   Tracing, Tracing/      src/observability/trace_collector.cpp: the emission of events into bounded buffers
--                          against the stop of a capture, and its start.
--   Base, Base/            shared tests on numbers, lists and 64-bit words.
--
-- State and operations. A class is a record, its methods functions to the next state; a critical
-- section, or one atomic operation of lock-free code, is one step, and threads are interleaved by a
-- Step or Reach relation that lets the steps come in any order (sequential consistency, except where
-- a file says what else a load may give: Tracing lets the loads of a stop and of the threads it races
-- with be late). A clock's reading, the end of a task's body, a thread's wake-up and the
-- spurious failure of a weak compare-exchange are chosen by the environment, and so are the failure of
-- an allocation and the injected failures. std::uint64_t and std::size_t wrap at 2 ^ 64 where the code
-- can reach it; time points are nanoseconds above a fixed origin. A callback or post action that the code
-- calls after releasing a lock or winning a compare-exchange is a step of its own (Task, Handshake). In
-- GraphRun a posted task's end up to the count of its node in mark_node_terminal, the fetch_sub that
-- follows, the taking of one edge and the completion by the thread that saw the last node end are single
-- events; trigger_successors leaves its edges to be taken in any order, of which the recursion of the
-- source, after the fetch_sub, is one; a task that an immediate
-- shutdown drops stays among the posted ones for good. In Ready the sweeps of cancel_unstarted, which take
-- several locks in turn, are one step. The capacities of a deque's buffers are powers of two in the code,
-- whose mask is written as a remainder.
--
-- Bounds and fuel. The loop of Kahn's algorithm has one turn more fuel than there are nodes: each turn
-- pops another node, so that it ends with an empty queue. The depth-first search has as many levels,
-- each of which marks an unmarked node. The loop of Admission's acquire is bounded by the wake-ups
-- that it is given. The deque starts with at most 2 ^ 63 cells and has fewer than 2 ^ 32 thieves, the
-- width of active_thieves; no index wraps then, since a push at a high index moves the items to 0
-- first. A trace buffer is offered fewer than 2 ^ 64 events, the width of its ticket. The loops of the
-- timer queue have as many turns as the heap has entries.
--
-- Not modelled: the worker loop of src/runtime/scheduler.cpp, the joining of threads, and the rest of
-- the startup of a scheduler; reset_for_testing of the reaper and the other hooks for tests; the registration of
-- trace producers, the sorting of events and their export; other effects of the memory orders of the
-- lock-free code; coroutine nodes of a graph, whose ends the code does not guard;
-- the templates of tasks and coroutines (include/astra/task_handle.hpp, include/astra/coroutine.hpp),
-- whose behaviour is that of the C++ coroutine frames; benchmarks, tests and build files.
pub mod Base
pub mod Status
pub mod Metrics
pub mod Admission
pub mod Handshake
pub mod Task
pub mod Freeze
pub mod GraphRun
pub mod Stealing
pub mod Timers
pub mod Ready
pub mod Deque
pub mod Reaper
pub mod Tracing
