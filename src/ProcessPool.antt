-- ===== src/ProcessPool.antt =====
-- simplekvsvr_v3/processpool.h and processpool.cpp: processes that take tasks from the ring in shared
-- memory. What `fork` returns comes from outside; `kill` and `waitpid` are recorded as effects.
pub mod Signals
pub mod Tasks
mod Tests
use simple_kv_svr.Base.{
  ℕ, zero, suc, ◌+◌, Bool, true, false, Option, none, some, List, [], ◌∷◌, ◌++◌, length, ltb,
  if◌then◌else◌, Bytes, replicate,
}
use simple_kv_svr.ShmQueue
use simple_kv_svr.ShmQueue.{ShareQueue, Outcome}
use simple_kv_svr.ShmQueue.Alloc.{ShmIo, Alloc, alloc}

-- `class Process`: `m_pid`, with `none` for -1, and whether `m_pTarget` is set
pub record Process : Type 0 where
  pub pid : Option ℕ
  pub has_target : Bool

-- The default constructor.
abbrev pub new_process : Process
new_process = record { pid = none; has_target = false }

-- `Process::Start` in the parent: `forked` is what `fork` returned, `none` for -1. Whether it returns 0.
unfoldable pub start : Option ℕ → Process → Bool × Process
start none p = (false, record p { pid = none })
start (some pid) p = (true, record p { pid = some pid })

-- `Process::Run`, in the child: what the target's `Run` returns, or `none` for -1.
unfoldable pub run : ℕ → Process → Option ℕ
run result p = if p.has_target then some result else none

-- `kill` of one process, `kill(-1, SIGINT)`, and `waitpid`.
pub data Effect : Type 0 where
  interrupt : ℕ → Effect
  interrupt_all : Effect
  waited : ℕ → Effect

-- `Process::Kill`
unfoldable pub kill : Process → Effect
kill p = elim p.pid [ none ↦ Effect.interrupt_all | some pid ↦ Effect.interrupt pid ]

-- `Process::Wait`
unfoldable pub wait : Process → List Effect
wait p = elim p.pid [ none ↦ [] | some pid ↦ if ltb 1 pid then Effect.waited pid ∷ [] else [] ]

-- The loop of `ProcessPool::Start`, over what `fork` returns for each process; what `Process::Start`
-- returns is not looked at.
unfoldable pub start_all : List (Option ℕ) → List Process
unfolding start
start_all [] = []
start_all (forked ∷ forks) =
    (start forked (record new_process { has_target = true })).1 ∷ start_all forks

-- `ProcessPool::KillAll` and `ProcessPool::WaitAll`
unfoldable pub kill_all : List Process → List Effect
unfolding kill
kill_all [] = []
kill_all (p ∷ processes) = kill p ∷ kill_all processes

unfoldable pub wait_all : List Process → List Effect
unfolding wait
wait_all [] = []
wait_all (p ∷ processes) = wait p ++ wait_all processes

-- The loops of `TaskProcessor::Run` in the processes of a pool that share the queue, in the order in which their
-- calls of `Dequeue` get its mutex: which process does which task, and the queue. Where the call waits
-- or fails, nothing is done.
pub run_tasks : List ℕ → ShareQueue → List (ℕ × Bytes) × ShareQueue
run_tasks [] q = ([], q)
run_tasks (process ∷ turns) q = elim (ShmQueue.dequeue q) [
  | Outcome.done (n, bytes, q') ↦
      let (tasks, last) = run_tasks turns q' in ((process, bytes) ∷ tasks, last)
  | _ ↦ run_tasks turns q
]

-- `queue_size > 100 ? queue_size : 100`
abbrev pub pool_size : ℕ → ℕ
pool_size queue_size = if ltb 100 queue_size then queue_size else 100

-- The constructor of `TaskProcessPool`: `m_pQueue`, with `none` for a null pointer; there is no result where
-- the queue's segment is too small for it.
unfoldable pub create_pool : ShmIo → ℕ → ℕ → ShareQueue → Option (Option ShareQueue)
unfolding alloc
create_pool io base queue_size memory = elim (alloc io base (pool_size queue_size) false memory) [
  | Alloc.failed code ↦ some none
  | Alloc.mapped q ↦ some (some q)
  | Alloc.too_small ↦ none
]

-- `TaskProcessPool::AddTask`: `none` where the queue is a null pointer.
unfoldable pub add_task : Bytes → Option ShareQueue → Option (Outcome ShareQueue)
add_task task none = none
add_task task (some q) = some (ShmQueue.enqueue (some task) q)

-- The destructor: `Shutdown`, where there is a queue.
unfoldable pub destroy_pool : Option ShareQueue → Option ShareQueue
destroy_pool none = none
destroy_pool (some q) = some (ShmQueue.shut_down_queue q)

-- Tasks added one after the other, each with a queue that takes it.
pub add_tasks : List Bytes → Option ShareQueue → Option ShareQueue
unfolding add_task
add_tasks [] pool = pool
add_tasks (task ∷ tasks) pool = elim (add_task task pool) [
  | some (Outcome.done q) ↦ add_tasks tasks (some q)
  | _ ↦ none
]
