-- ===== src/ProcessPool/Tests.antt =====
-- Runs of the process pool, and its theorems at concrete pools.
use simple_kv_svr.Base.{true, none, some, List, [], ◌∷◌, length, Bytes, ◌≡◌, refl, arith}
use simple_kv_svr.ProcessPool.{
  Effect, new_process, start, run, start_all, kill_all, wait_all, run_tasks, create_pool, add_task,
}
use simple_kv_svr.ProcessPool.Signals.{pool_signals}
use simple_kv_svr.ShmQueue.{ShareQueue, dequeue, create, fill_nodes, announce, need_nodes}
use simple_kv_svr.ShmQueue.Alloc.{ShmIo, alloc}

abbrev new_io : ShmIo
new_io = record { existing = none; creates = true; stats = true; attaches = true }

-- The second fork fails: `KillAll` sends its signal to every process.
pool_signals_example :
    (wait_all (start_all (some 41 ∷ none ∷ some 43 ∷ []))
      ≡ Effect.waited 41 ∷ Effect.waited 43 ∷ [])
    × (kill_all (start_all (some 41 ∷ none ∷ some 43 ∷ []))
        ≡ Effect.interrupt 41 ∷ Effect.interrupt_all ∷ Effect.interrupt 43 ∷ [])
pool_signals_example = pool_signals (some 41 ∷ none ∷ some 43 ∷ []) (omega arith)

-- A child with no target.
run_no_target : run 0 (start (some 0) new_process).1 ≡ none
unfolding run start
run_no_target = refl

-- A task for a pool that could not get its queue.
add_task_null : add_task (1 ∷ []) none ≡ none
unfolding add_task
add_task_null = refl

-- After the destructor, no process of the pool does a task.
run_tasks_destroyed : (run_tasks (0 ∷ 1 ∷ []) (record (create 4) { shut_down = true })).0 ≡ []
unfolding run_tasks dequeue create
run_tasks_destroyed = refl

-- A pool whose queue would take more bytes than an `unsigned int` counts.
create_pool_too_small : create_pool new_io 128 9000000 (create 1) ≡ none
unfolding create_pool alloc
create_pool_too_small = refl

abbrev two_tasks : List Bytes
two_tasks = (1 ∷ 2 ∷ []) ∷ (3 ∷ []) ∷ []

-- The queue with both tasks.
abbrev put : Bytes → ShareQueue → ShareQueue
put task q =
    fill_nodes (need_nodes (length task)) (length task) task (announce (need_nodes (length task)) q)

abbrev held : ShareQueue
held = put (3 ∷ []) (put (1 ∷ 2 ∷ []) (create 100))
