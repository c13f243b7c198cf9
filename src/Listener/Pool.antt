-- ===== src/Listener/Pool.antt =====
-- The first server as a whole: the listener, the queue, and the worker threads that ThreadPool starts
-- (simplekvsvr/main.cpp, ThreadPool.h).
use simple_kv_svr.Base.{
  ℕ, Bool, true, false, Option, none, some, List, [], ◌∷◌, ◌++◌, replicate, get_elem?,
  set as set_elem, if◌then◌else◌, Bytes,
}
use simple_kv_svr.SlotIndex.{KvIndex}
use simple_kv_svr.Worker.{Machine, process}
use simple_kv_svr.Listener.{Accept, Effect, End, accept_all}

-- `pair<string, int>`: the text of a request, and its connection
abbrev pub Task : Type 0
Task = Bytes × ℕ

-- The queue, what each worker thread has taken from it, the index, and what was written to which connection.
pub record Server : Type 0 where
  pub queue : List Task
  pub workers : List (Option Task)
  pub kv : KvIndex
  pub sent : List (Bytes × ℕ)

-- `ThreadPool threadpool(5, &kvworker)`
abbrev pub worker_count : ℕ
worker_count = 5

-- `main`, with `Start` of the pool.
abbrev pub open_server : KvIndex → Server
open_server kv = record { queue = []; workers = replicate worker_count none; kv = kv; sent = [] }

-- A connection through the listener; a `Pop` of a worker; and the rest of its round of `Process`.
pub data Turn : Type 0 where
  listen : Accept → Turn
  pop answer : ℕ → Turn

abbrev pub pushed : List Effect → List Task
pushed [] = []
pushed (Effect.push text fd ∷ effects) = (text, fd) ∷ pushed effects
pushed (Effect.close fd ∷ effects) = pushed effects

abbrev pub all_free : List (Option Task) → Bool
all_free [] = true
all_free (none ∷ workers) = all_free workers
all_free (some task ∷ workers) = false

-- One turn; `none` where it is not possible, or where the behaviour is undefined. A worker's round is one step
-- only while the others wait for a task: `Exist` and `Get` lock the index one after the other, so that rounds of two
-- workers may mix, and such runs have no result here.
unfoldable pub take_turn : Machine → Turn → Server → Option Server
unfolding accept_all
take_turn m (Turn.listen a) s =
    let (effects, end) = accept_all (a ∷ []) in
    elim end [ End.accepting ↦ some (record s { queue = s.queue ++ pushed effects }) | _ ↦ none ]
take_turn m (Turn.pop i) s = elim (get_elem? s.workers i) [
  | some none ↦ elim s.queue [
    | [] ↦ none
    | task ∷ rest ↦ some (record s { queue = rest; workers = set_elem s.workers i (some task) })
  ]
  | _ ↦ none
]
take_turn m (Turn.answer i) s = elim (get_elem? s.workers i) [
  | some (some (text, fd)) ↦
      let workers = set_elem s.workers i none in
      if all_free workers
      then elim (process m text s.kv) [
        | none ↦ none
        | some (ret, kv') ↦
            some (record s { workers = workers; kv = kv'; sent = s.sent ++ ((ret, fd) ∷ []) })
      ]
      else none
  | _ ↦ none
]

unfoldable pub take_turns : Machine → List Turn → Server → Option Server
unfolding take_turn
take_turns m [] s = some s
take_turns m (t ∷ turns) s = elim (take_turn m t s) [
  | none ↦ none
  | some s' ↦ take_turns m turns s'
]
