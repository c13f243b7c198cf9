-- ===== src/ShmQueue.antt =====
-- simplekvsvr_v3/taskpool/shm_cqueue.h and shm_cqueue.cpp: byte strings cut into nodes of a ring in
-- shared memory. Every call holds the mutex of the queue, so a pass of a call is one step; a call
-- that waits for its condition is `wait`, and makes another pass when it is woken.
pub mod Nodes
pub mod Messages
pub mod Receive
pub mod Order
pub mod Alloc
mod Tests
use simple_kv_svr.Base.{
  ℕ, zero, suc, ◌+◌, ◌-◌, ◌*◌, ◌/◌, ◌%◌, Bool, true, false, ◌||◌, Option, none, some, List, [], ◌∷◌,
  ◌++◌, length, get_or, set as set_elem, take, drop, replicate, ltb, ◌==◌, leb, if◌then◌else◌,
  Bytes, int_mod,
}

-- `g_const_node_size`, 2 << 8
abbrev pub node_size : ℕ
node_size = 512

-- `struct CShareQueueNode`: m_nodes, m_Len and m_buf
pub record ShareQueueNode : Type 0 where
  pub nodes : ℕ
  pub len : ℕ
  pub buf : Bytes

-- `class CShareQueue`, without its key, mutex and conditions
pub record ShareQueue : Type 0 where
  pub front : ℕ
  pub rear : ℕ
  pub max_size : ℕ
  pub shut_down : Bool
  pub nodes : List ShareQueueNode

-- The memory of a node after the `memset` of the allocation
abbrev pub blank : ShareQueueNode
blank = record { nodes = 0; len = 0; buf = replicate node_size 0 }

-- The constructor, on memory for `max_size` nodes that has been set to 0.
unfoldable pub create : ℕ → ShareQueue
create max_size = record {
  front = 0;
  rear = 0;
  max_size = max_size;
  shut_down = false;
  nodes = replicate max_size blank;
}

-- `m_nodes[i]`
abbrev pub node_at : ShareQueue → ℕ → ShareQueueNode
node_at q i = get_or q.nodes i blank

-- `a - b` of two `unsigned int`s
abbrev pub unsigned_sub : ℕ → ℕ → ℕ
unsigned_sub a b = (a + int_mod - b) % int_mod

unfoldable pub need_nodes : ℕ → ℕ
need_nodes data_len = unsigned_sub data_len 1 / node_size + 1

unfoldable pub empty_nodes : ShareQueue → ℕ
empty_nodes q =
    if leb q.front q.rear then q.max_size - 1 - (q.rear - q.front) else q.front - q.rear - 1

unfoldable pub full_queue : ShareQueue → Bool
full_queue q = q.front == (q.rear + 1) % q.max_size

unfoldable pub empty_queue : ShareQueue → Bool
empty_queue q = q.front == q.rear

-- `memcpy` of `bs` to the start of a buffer
abbrev pub overlay : Bytes → Bytes → Bytes
overlay bs buffer = bs ++ drop (length bs) buffer

-- `m_Len` of the last node
unfoldable pub last_len : ℕ → ℕ
last_len buf_len = if buf_len % node_size == 0 then node_size else buf_len % node_size

-- One round of the loop of `Enqueue`, then `m_iRear` goes on.
abbrev pub fill_node : (ShareQueueNode → ShareQueueNode) → ShareQueue → ShareQueue
fill_node change q = record q {
  nodes = set_elem q.nodes q.rear (change (node_at q q.rear));
  rear = (q.rear + 1) % q.max_size;
}

abbrev pub fill_last : ℕ → Bytes → ShareQueueNode → ShareQueueNode
fill_last buf_len rest node = record node {
  len = last_len buf_len;
  buf = overlay (take (last_len buf_len) rest) node.buf;
}

abbrev pub fill_whole : Bytes → ShareQueueNode → ShareQueueNode
fill_whole rest node = record node { buf = overlay (take node_size rest) node.buf }

-- The loop of `Enqueue`, with the rounds that are left and the memory from `buf + i * 512` on.
unfoldable pub fill_nodes : ℕ → ℕ → Bytes → ShareQueue → ShareQueue
fill_nodes zero buf_len rest q = q
fill_nodes (suc zero) buf_len rest q = fill_node (fill_last buf_len rest) q
fill_nodes (suc (suc left)) buf_len rest q =
    fill_nodes (suc left) buf_len (drop node_size rest) (fill_node (fill_whole rest) q)

-- What a call does: it returns -1 or -2, it waits, or it returns 0.
pub data Outcome (A : Type 0) : Type 0 where
  refused stopped wait : Outcome A
  done : A → Outcome A

-- `m_nodes[m_iRear].m_nodes = nodes`
abbrev pub announce : ℕ → ShareQueue → ShareQueue
announce count q = record q {
  nodes = set_elem q.nodes q.rear (record (node_at q q.rear) { nodes = count });
}

-- A pass of `Enqueue` under the mutex.
unfoldable pub enqueue_pass : Bytes → ShareQueue → Outcome ShareQueue
unfolding need_nodes empty_nodes full_queue fill_nodes
enqueue_pass buf q =
    if full_queue q || ltb (empty_nodes q) (need_nodes (length buf))
    then if q.shut_down then Outcome.stopped else Outcome.wait
    else Outcome.done (
        fill_nodes (need_nodes (length buf)) (length buf) buf
          (announce (need_nodes (length buf)) q))

-- `Enqueue`; `none` is a null pointer.
unfoldable pub enqueue : Option Bytes → ShareQueue → Outcome ShareQueue
unfolding enqueue_pass
enqueue none q = Outcome.refused
enqueue (some buf) q =
    if length buf == 0 || q.shut_down then Outcome.refused else enqueue_pass buf q

-- The loop of `Dequeue`: the bytes copied out, and the queue with `m_iFront` gone on.
pub read_nodes : ℕ → ShareQueue → Bytes × ShareQueue
read_nodes zero q = ([], q)
read_nodes (suc zero) q = (
  take (node_at q q.front).len (node_at q q.front).buf,
  record q { front = (q.front + 1) % q.max_size },
)
read_nodes (suc (suc left)) q =
    let (bytes, q') = read_nodes (suc left) (record q { front = (q.front + 1) % q.max_size }) in
    (take node_size (node_at q q.front).buf ++ bytes, q')

-- `*buf_len`
unfoldable pub front_len : ShareQueue → ℕ
front_len q =
    let count = (node_at q q.front).nodes in
    (unsigned_sub count 1 * node_size
      + (node_at q (unsigned_sub (q.front + count) 1 % q.max_size)).len)
    % int_mod

-- A pass of `Dequeue` under the mutex: `*buf_len`, the bytes copied to the new buffer, the queue.
unfoldable pub dequeue_pass : ShareQueue → Outcome (ℕ × Bytes × ShareQueue)
unfolding empty_queue front_len read_nodes
dequeue_pass q =
    if empty_queue q
    then if q.shut_down then Outcome.stopped else Outcome.wait
    else let (bytes, q') = read_nodes (node_at q q.front).nodes q in
      Outcome.done (front_len q, bytes, q')

-- `Dequeue`
unfoldable pub dequeue : ShareQueue → Outcome (ℕ × Bytes × ShareQueue)
unfolding dequeue_pass
dequeue q = if q.shut_down then Outcome.refused else dequeue_pass q

-- `Shutdown`; it wakes all the calls that wait.
unfoldable pub shut_down_queue : ShareQueue → ShareQueue
shut_down_queue q = record q { shut_down = true }

-- Calls made one after the other by the processes that share the queue.
pub data Call : Type 0 where
  send : Bytes → Call
  receive : Call

-- The messages handed out, and the queue after the calls; `none` where a call did not return 0.
pub run_calls : List Call → ShareQueue → Option (List Bytes × ShareQueue)
unfolding enqueue dequeue
run_calls [] q = some ([], q)
run_calls (send buf ∷ calls) q = elim (enqueue (some buf) q) [
  | Outcome.done q' ↦ run_calls calls q'
  | _ ↦ none
]
run_calls (receive ∷ calls) q = elim (dequeue q) [
  | Outcome.done (n, bytes, q') ↦ elim (run_calls calls q') [
    | none ↦ none
    | some (received, last) ↦ some (take n bytes ∷ received, last)
  ]
  | _ ↦ none
]
