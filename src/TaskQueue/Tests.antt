-- ===== src/TaskQueue/Tests.antt =====
-- Tests of the task queue, and its theorems at concrete queues.
use simple_kv_svr.Base.{true, ℕ, ◌≤◌, ◌≡◌, refl, none, some, List, [], ◌∷◌, ◌++◌, arith, length}
use simple_kv_svr.TaskQueue.{Shared, Event, create, start, step, run}
use simple_kv_svr.TaskQueue.Fifo.{
  IsConsistent, start-IsConsistent, run-IsConsistent, run_fifo, step_progress, goes_on,
}

abbrev fresh : Shared ℕ
unfolding start create
fresh = start (create (7 ∷ 7 ∷ []) 2)

-- Two producers and a consumer that overlap; the second producer waits for the mutex.
abbrev overlap : List (Event ℕ)
overlap =
    Event.wait_empty
    ∷ Event.wait_empty
    ∷ Event.lock_in
    ∷ Event.store 4
    ∷ Event.unlock_in
    ∷ Event.post_full
    ∷ Event.lock_in
    ∷ Event.wait_full
    ∷ Event.store 5
    ∷ Event.lock_out
    ∷ Event.take
    ∷ []

abbrev after_overlap : Shared ℕ
after_overlap = record {
  q = record {
    queue = 4 ∷ 5 ∷ [];
    full = 0;
    empty = 0;
    enqueue_mutex = 0;
    dequeue_mutex = 0;
    head = 0;
    tail = 1;
    size = 2;
  };
  in_waiting = 0;
  in_locked = 0;
  in_stored = 1;
  in_done = 0;
  out_waiting = 0;
  out_locked = 0;
  out_taken = 1;
  out_done = 0;
  sent = 4 ∷ 5 ∷ [];
  received = 4 ∷ [];
}

run-overlap : run 0 overlap (start (create (7 ∷ 7 ∷ []) 2)) ≡ some after_overlap
unfolding run step start create
run-overlap = refl

-- A third producer would block: both slots are claimed.
wait_empty-blocks : step 0 Event.wait_empty after_overlap ≡ none
unfolding step
wait_empty-blocks = refl

run_fifo_example : (waiting : List ℕ) × (4 ∷ 5 ∷ [] ≡ (4 ∷ []) ++ waiting) × (length waiting ≤ 2)
run_fifo_example = run_fifo 0 (7 ∷ 7 ∷ []) 2 overlap after_overlap (omega arith) refl run-overlap

after_overlap-IsConsistent : IsConsistent 0 after_overlap
after_overlap-IsConsistent =
    run-IsConsistent 0 overlap _ after_overlap run-overlap
      (start-IsConsistent 0 (7 ∷ 7 ∷ []) 2 (omega arith) refl)

step_progress_example :
    (e : Event ℕ) × (s' : Shared ℕ) × (goes_on e ≡ true) × (step 0 e after_overlap ≡ some s')
step_progress_example =
    step_progress 0 (7 ∷ 7 ∷ []) 2 overlap after_overlap (omega arith) refl run-overlap
      (omega arith)

abbrev new_queue : Shared ℕ
new_queue = start (create (7 ∷ 7 ∷ []) 2)

new_queue-IsConsistent : IsConsistent 0 new_queue
new_queue-IsConsistent = start-IsConsistent 0 (7 ∷ 7 ∷ []) 2 (omega arith) refl
