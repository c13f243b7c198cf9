-- ===== src/ShmQueue/Tests.antt =====
-- Runs of the ring of nodes, and its theorems at concrete queues.
use simple_kv_svr.Base.{
  ℕ, ◌+◌, ◌<◌, ◌≤◌, true, false, Option, none, some, List, [], ◌∷◌, ◌++◌, length, Bytes, ◌≡◌, refl,
  replicate, arith, map, ◌⊎◌,
}
use simple_kv_svr.ShmQueue.{
  ShareQueue, Outcome, create, announce, last_len, need_nodes, fill_nodes, enqueue, dequeue, Call,
  run_calls, shut_down_queue, full_queue, empty_queue, empty_nodes,
}
use simple_kv_svr.ShmQueue.Receive.{dequeue-Holds}
use simple_kv_svr.ShmQueue.Alloc.{ShmIo}
use simple_kv_svr.ShmQueue.Messages.{Holds, create-Holds, fill-Holds, enqueue-Holds}
use simple_kv_svr.ShmQueue.Order.{run_calls_order}

-- A message of two nodes, and a short one.
abbrev long_message : Bytes
long_message = replicate 600 7

abbrev short_message : Bytes
short_message = 1 ∷ 2 ∷ []

-- A queue of four nodes, which is passed round its end.
abbrev some_calls : List Call
some_calls =
    Call.send long_message
    ∷ Call.send short_message
    ∷ Call.receive
    ∷ Call.send long_message
    ∷ Call.receive
    ∷ []

-- What was received, by length.
abbrev lengths : Option (List Bytes × ShareQueue) → List ℕ
lengths none = []
lengths (some (received, q)) = map length received

run_calls_round : lengths (run_calls some_calls (create 4)) ≡ 600 ∷ 2 ∷ []
unfolding run_calls create last_len
run_calls_round = refl

-- A call on a queue that was shut down.
enqueue_refused : enqueue (some short_message) (shut_down_queue (create 4)) ≡ Outcome.refused
unfolding enqueue shut_down_queue
enqueue_refused = refl

-- A new queue.
create_lem :
    (empty_queue (create 4) ≡ true) × (full_queue (create 4) ≡ false) × (empty_nodes (create 4) ≡ 3)
unfolding create empty_queue full_queue empty_nodes
create_lem = (refl, refl, refl)

-- The queue after the short message.
abbrev one_held : ShareQueue
one_held =
    fill_nodes (need_nodes (length short_message)) (length short_message) short_message
      (announce (need_nodes (length short_message)) (create 4))

one_held-Holds : Holds one_held (0 + need_nodes (length short_message)) ([] ++ (short_message ∷ []))
unfolding need_nodes create
one_held-Holds =
    fill-Holds (create 4) 0 [] short_message (create-Holds 4 (omega arith) (omega arith))
      (omega arith) (omega arith) (omega arith)

enqueue-Holds_example :
    ((4 ≤ 0 + need_nodes (length short_message))
      × (enqueue (some short_message) (create 4) ≡ Outcome.wait))
    ⊎ ((0 + need_nodes (length short_message) < 4)
        × ((q' : ShareQueue) × (enqueue (some short_message) (create 4) ≡ Outcome.done q')
            × Holds q' (0 + need_nodes (length short_message)) ([] ++ (short_message ∷ []))))
unfolding create
enqueue-Holds_example =
    enqueue-Holds (create 4) 0 [] short_message (create-Holds 4 (omega arith) (omega arith))
      (omega arith) (omega arith)

dequeue-Holds_example :
    ((short_message ∷ [] ≡ []) × (dequeue one_held ≡ Outcome.wait))
    ⊎ ((message : Bytes) × (others : List Bytes) × (short_message ∷ [] ≡ message ∷ others)
        × ((q' : ShareQueue) × (left : ℕ) × (dequeue one_held
              ≡ Outcome.done (length message, message, q'))
            × Holds q' left others))
dequeue-Holds_example =
    dequeue-Holds one_held (0 + need_nodes (length short_message)) (short_message ∷ [])
      one_held-Holds

abbrev two_calls : List Call
two_calls = Call.send short_message ∷ Call.receive ∷ []

-- The queue after both.
abbrev after_calls : ShareQueue
after_calls = record one_held { front = 1 }

run_calls_order_example :
    (left : List Bytes) × (used : ℕ) × Holds after_calls used left
    × (short_message ∷ [] ≡ (short_message ∷ []) ++ left)
unfolding run_calls create fill_nodes need_nodes last_len
run_calls_order_example =
    run_calls_order 4 two_calls (short_message ∷ []) after_calls (omega arith) (omega arith) refl
      refl

-- A segment that another process has made.
abbrev found_io : ShmIo
found_io = record { existing = some 2208; creates = true; stats = true; attaches = true }
