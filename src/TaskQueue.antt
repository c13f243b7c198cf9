-- ===== src/TaskQueue.antt =====
-- simplekvsvr_v2/queue.h: the bounded queue that the layers of the server hand their tasks through.
-- `enqueue` and `dequeue` are cut at every call of a semaphore, so that the threads in them may be
-- interleaved in any order. What `sem_wait` and `sem_post` do is POSIX: a wait at 0 blocks.
pub mod Fifo
mod Tests
use simple_kv_svr.Base.{
  ℕ, ◌+◌, ◌-◌, ◌%◌, Bool, Option, none, some, List, [], ◌∷◌, ◌++◌, get_or, set, ltb, if◌then◌else◌,
}

-- `class Queue`: the array, the four semaphores and the indices
pub record Queue (A : Type 0) : Type 0 where
  pub queue : List A
  pub full : ℕ
  pub empty : ℕ
  pub enqueue_mutex : ℕ
  pub dequeue_mutex : ℕ
  pub head : ℕ
  pub tail : ℕ
  pub size : ℕ

-- The queue, how many threads stand at each point of `enqueue` and of `dequeue`, and the histories
-- of the objects stored and of the objects taken.
pub record Shared (A : Type 0) : Type 0 where
  pub q : Queue A
  pub open q use *
  -- past `sem_wait(&empty)`; past the mutex; past the store; past the post of the mutex
  pub in_waiting : ℕ
  pub in_locked : ℕ
  pub in_stored : ℕ
  pub in_done : ℕ
  -- past `sem_wait(&full)`; past the mutex; past the read; past the post of the mutex
  pub out_waiting : ℕ
  pub out_locked : ℕ
  pub out_taken : ℕ
  pub out_done : ℕ
  pub sent : List A
  pub received : List A

-- The points at which a thread goes on: those of `enqueue`, then those of `dequeue`.
pub data Event (A : Type 0) : Type 0 where
  wait_empty lock_in unlock_in post_full : Event A
  store : A → Event A
  wait_full lock_out take unlock_out post_empty : Event A

module _ {A : Type 0} where
  -- The constructor; `array` is what `new T[queueSize]` returns.
  pub create : List A → ℕ → Queue A
  create array queue_size = record {
    queue = array;
    full = 0;
    empty = queue_size;
    enqueue_mutex = 1;
    dequeue_mutex = 1;
    head = 0;
    tail = 0;
    size = queue_size;
  }

  -- No thread is in a call yet.
  pub start : Queue A → Shared A
  start q = record {
    q = q;
    in_waiting = 0;
    in_locked = 0;
    in_stored = 0;
    in_done = 0;
    out_waiting = 0;
    out_locked = 0;
    out_taken = 0;
    out_done = 0;
    sent = [];
    received = [];
  }

  -- `queue[head] = obj; head = (head + 1) % size;`
  abbrev pub put_slot : Queue A → A → Queue A
  put_slot q obj = record q { queue = set q.queue q.head obj; head = (q.head + 1) % q.size }

  -- `ret = queue[tail]; tail = (tail + 1) % size;`
  abbrev pub next_slot : Queue A → Queue A
  next_slot q = record q { tail = (q.tail + 1) % q.size }

  -- One thread goes on; `none` where no thread stands at that point or its semaphore is at 0.
  -- `d` stands for a read outside the array.
  pub step : A → Event A → Shared A → Option (Shared A)
  step d wait_empty s =
      if ltb 0 s.empty
      then some (record s { q = record s.q { empty = s.empty - 1 }; in_waiting = s.in_waiting + 1 })
      else none
  step d lock_in s =
      if ltb 0 s.enqueue_mutex
      then if ltb 0 s.in_waiting
        then some (record s {
          q = record s.q { enqueue_mutex = s.enqueue_mutex - 1 };
          in_waiting = s.in_waiting - 1;
          in_locked = s.in_locked + 1;
        })
        else none
      else none
  step d (store obj) s =
      if ltb 0 s.in_locked
      then some (record s {
        q = put_slot s.q obj;
        in_locked = s.in_locked - 1;
        in_stored = s.in_stored + 1;
        sent = s.sent ++ (obj ∷ []);
      })
      else none
  step d unlock_in s =
      if ltb 0 s.in_stored
      then some (record s {
        q = record s.q { enqueue_mutex = s.enqueue_mutex + 1 };
        in_stored = s.in_stored - 1;
        in_done = s.in_done + 1;
      })
      else none
  step d post_full s =
      if ltb 0 s.in_done
      then some (record s { q = record s.q { full = s.full + 1 }; in_done = s.in_done - 1 })
      else none
  step d wait_full s =
      if ltb 0 s.full
      then some (record s { q = record s.q { full = s.full - 1 }; out_waiting = s.out_waiting + 1 })
      else none
  step d lock_out s =
      if ltb 0 s.dequeue_mutex
      then if ltb 0 s.out_waiting
        then some (record s {
          q = record s.q { dequeue_mutex = s.dequeue_mutex - 1 };
          out_waiting = s.out_waiting - 1;
          out_locked = s.out_locked + 1;
        })
        else none
      else none
  step d take s =
      if ltb 0 s.out_locked
      then some (record s {
        q = next_slot s.q;
        out_locked = s.out_locked - 1;
        out_taken = s.out_taken + 1;
        received = s.received ++ (get_or s.queue s.tail d ∷ []);
      })
      else none
  step d unlock_out s =
      if ltb 0 s.out_taken
      then some (record s {
        q = record s.q { dequeue_mutex = s.dequeue_mutex + 1 };
        out_taken = s.out_taken - 1;
        out_done = s.out_done + 1;
      })
      else none
  step d post_empty s =
      if ltb 0 s.out_done
      then some (record s { q = record s.q { empty = s.empty + 1 }; out_done = s.out_done - 1 })
      else none

  -- An interleaving: `none` if some event could not happen.
  pub run : A → List (Event A) → Shared A → Option (Shared A)
  run d [] s = some s
  run d (e ∷ es) s = elim (step d e s) [ none ↦ none | some s' ↦ run d es s' ]

  -- The calls, made by a thread whose calls nothing interrupts.
  pub enqueue : A → A → Shared A → Option (Shared A)
  unfolding run step
  enqueue d obj = run d (wait_empty ∷ lock_in ∷ store obj ∷ unlock_in ∷ post_full ∷ [])

  pub dequeue : A → Shared A → Option (Shared A)
  unfolding run step
  dequeue d = run d (wait_full ∷ lock_out ∷ take ∷ unlock_out ∷ post_empty ∷ [])

  -- `sem_getvalue(&full)`
  pub used : Queue A → ℕ
  used q = q.full
