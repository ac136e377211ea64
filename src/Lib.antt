-- ===== src/Lib.antt =====
-- A model of MIR, a runtime system for task-parallel programs in C. Tasks wait in queues;
-- workers, one thread each, take them out by a scheduling policy and execute them; the placement
-- of memory and the description of the machine tell what it costs to reach the data of a task.
--
-- Conventions. A pointer is a number, and NULL is 0. A word is a number below 2^16, 2^32 or 2^64,
-- and an operation that wraps has its remainder written out (`add16`, `add32`, `sub32`, `add64`,
-- `sub64`). An array is a list. `Option` is a computation that may end the process: a failed
-- `MIR_ASSERT`, `MIR_CHECK_MEM` or `MIR_LOG_ERR`, or an access out of an array, is `none`; the
-- build keeps assertions. Memory for the program's own structures is taken to be available.
--
-- Files and what they model:
--   Base        numbers, lists, arrays and tests that the others share.
--   Queue       src/mir_queue.c, .h: `create`, `push`, `pop`, `size_of` as mir_queue_create,
--               mir_queue_push, mir_queue_pop and mir_queue_size. Queue.Fifo is what a queue
--               promises, Queue.Inv its invariant, Queue.Refine the refinement, Queue.Bag what a
--               call adds or takes. Queue.TwoLock takes the calls apart: a call is one step for
--               each access to shared memory, and the calls of the two locks interleave.
--   Stack       src/mir_stack.c, .h, in the same way, its one lock held for a whole call.
--   TaskQueue   src/mir_task_queue.c, .h, and TaskStack src/mir_task_stack.c, .h, in the build
--               without MIR_GPL. They share the records of Queue and Stack.
--   Dequeue     src/mir_dequeue.c, .h: `new`, `push`, `pop`, `steal` as newWSDeque, pushWSDeque,
--               popWSDeque and stealWSDeque, called one after the other. Dequeue.RoundUp is
--               about roundUp2, Dequeue.Wrap about indices at their ends.
--   Sched       src/scheduling/. Sched.antt itself has mir_sched_pol_central.c,
--               mir_sched_pol_central_stack.c and mir_sched_pol_ws.c: `push_central`,
--               `pop_central` and so on, the common code in `push_to` and `visit`. `Container`
--               is what a policy needs of a queue, and Sched.Fill gives the queues of each
--               policy; Sched.Visit has the invariant, which ties `g_num_tasks_waiting` to the
--               queues, Sched.Round and Sched.Conserve the round over the queues. Sched.WsDe has
--               mir_sched_pol_ws_de.c and mir_sched_pol_ws_de_node.c, over the deque and the
--               flag `taken` of the tasks; Sched.NumaPop and Sched.NumaPush have
--               mir_sched_pol_numa.c, with the loop that looks for the cheapest worker in
--               Sched.Numa; Sched.Policy has mir_sched_pol.c and the creation of the queues.
--   Worker      src/mir_worker.c: Worker.Stats the statistics, with Worker.CommCost; Worker.Work
--               the backoff, the private queue and mir_pop, with Worker.Backoff and
--               Worker.Private; Worker.Done the steps of the workers on the two counters that
--               mir_worker_check_done reads.
--   Twc         src/mir_twc.c, and the wait counters in src/mir_task.c: `link`, `finish`,
--               `reduce` and `pass` are lines of mir_task_create_common,
--               mir_task_execute_epilog, mir_twc_reduce and mir_task_wait_int.
--   Task        the rest of src/mir_task.c, .h, for one worker: Task.Create has `create_common`
--               and `create_twin`, Task.Run `create_on_worker`, `schedule_on_worker`, `execute`
--               with `prolog` and `epilog`, `wait_int` and `wait`. Tasks and wait counters are
--               in lists, and known by their place there; the instants of mir_get_cycles are
--               arguments, and so are the functions that tasks run. Task.Numbers is about the
--               numbers of tasks, Task.Context about the nesting of executions, and Task.Time
--               about the time a task is executed. Task.Dist has `task_dist` as
--               mir_task_get_mem_node_dist.
--   Arch        src/arch/mir_arch.h and the machines: Arch.Gothmog, Arch.Tilepro64, and Firenze
--               and ADK in Arch.OneNode.
--   MemPol      src/mir_mem_pol.c: MemPol.Dist the distribution of bytes over nodes,
--               MemPol.Alloc the four allocation policies and `advance_node`, with what libnuma
--               and the system answer as arguments.
--   Recorder    src/mir_recorder.c, .h: `create`, `state_begin`, `state_end`, `event` and
--               `write_to_file`, in the build without hardware counters. Recorder.Time is about
--               the time spent in each state, Recorder.Nest about the states that are kept.
--
-- How the parts meet: the policies call the queues, the stacks, the task queues and the deques
-- through `Container` or directly; a worker asks its private task queue first and then the
-- policy; all of these keep `g_num_tasks_waiting` in `State`. A task is linked to a `Twc` when it
-- is created and counted there when it is executed. The costs of a distribution, and the
-- neighbours of a node, are those of an `Arch`.
--
-- Fuel. roundUp2 shifts a word of 32 bits, so 32 rounds are enough; stealWSDeque tries again at
-- most once for each element; the round of mir_sched_pol_ws.c visits each queue once, and worker
-- 0 looks once more at the end, and so do those of ws-de and ws-de-node; the loop of pop_numa
-- over the alternate queues has a round for each node; the loop over pages has at most a round
-- for each byte, `advance_node` one for each node, and the loop of push_numa one for each worker.
-- The loop of mir_task_wait_int has a round for each look for work; how many it needs depends on
-- the other workers. The loop over the rows of a footprint has a round for each row.
--
-- Not modelled: the locks themselves, and with them reorderings of memory accesses; the
-- interleavings on the deque; mir_worker_do_work, so that no theorem says when a wait ends; the
-- separate reads of mir_worker_check_done; the loops, the teams and the set-up of the runtime
-- with its options; internal memory, locks and barriers; what the destroy functions free; the
-- files of statistics; text, threads and time. The recorder's calls in the other parts and the
-- handshake with the profiler are switched off, and the instants that the recorder reads are
-- arguments of its functions. mir_task_execute is an argument of the policies' push, which keeps
-- each part apart from the code that uses it. The policies but for numa are those of the build
-- without MIR_MEM_POL_ENABLE, so they compute no communication costs. The programs under scripts
-- and examples are clients and tools.
pub mod Base
pub mod Queue
pub mod Stack
pub mod Dequeue
pub mod TaskQueue
pub mod TaskStack
pub mod Sched
pub mod Worker
pub mod Twc
pub mod Arch
pub mod MemPol
pub mod Recorder
pub mod Task
