-- ===== src/ProcessPool/Tasks.antt =====
-- What the processes of the pool do with the tasks that were added.
use simple_kv_svr.Base.{ℕ, Bool, true, ◌&&◌, List, [], ◌∷◌, length, ltb, Bytes, int_mod}
use simple_kv_svr.ShmQueue.Alloc.{Alloc}

-- A task's object has at least one byte, and its size is an `unsigned int`.
abbrev pub are_tasks : List Bytes → Bool
are_tasks [] = true
are_tasks (task ∷ tasks) = ltb 0 (length task) && (ltb (length task) int_mod && are_tasks tasks)

-- The tasks by turns, as long as there are both.
unfoldable pub by_turns : List ℕ → List Bytes → List (ℕ × Bytes)
by_turns turns [] = []
by_turns [] (task ∷ tasks) = []
by_turns (process ∷ turns) (task ∷ tasks) = (process, task) ∷ by_turns turns tasks
