-- ===== src/WorkQueue.antt =====
-- simplekvsvr/workqueue.h: the queue between the listener and the worker threads of the first server.
-- A step is what a thread does while it holds the mutex, or its `notify_one`.
pub mod Wakeups
mod Tests
use simple_kv_svr.Base.{ℕ, zero, suc, ◌+◌, ◌-◌, Option, none, some, List, [], ◌∷◌, ◌++◌}

-- `class workqueue`, with the threads that are between their `push` and their `notify_one`, those that
-- are asleep in `wait`, and those that are awake again and have not got the mutex back.
pub record WorkQueue (A : Type 0) : Type 0 where
  pub queue : List A
  pub notifying : ℕ
  pub asleep : ℕ
  pub awake : ℕ

-- The steps: of `Push`, its `push` and its `notify_one`; of `Pop`, its first test, and that after `wait`;
-- and a thread that wakes by itself.
pub data Step (A : Type 0) : Type 0 where
  push : A → Step A
  notify pop pop_again wake : Step A

-- One of the sleeping threads wakes.
unfoldable pub wake_one : {A : Type 0} → WorkQueue A → WorkQueue A
wake_one q = elim q.asleep [
  | zero ↦ q
  | suc others ↦ record q { asleep = others; awake = q.awake + 1 }
]

-- `while (queue_.empty()) wait`, then `front` and `pop`: what is returned, if anything.
unfoldable pub take_front : {A : Type 0} → WorkQueue A → Option A × WorkQueue A
take_front q = elim q.queue [
  | [] ↦ (none, record q { asleep = q.asleep + 1 })
  | a ∷ rest ↦ (some a, record q { queue = rest })
]

-- A step: what `Pop` returns in it, if anything, and the queue; `none` where no thread can make the step.
unfoldable pub step : {A : Type 0} → Step A → WorkQueue A → Option (Option A × WorkQueue A)
unfolding wake_one take_front
step (Step.push a) q =
    some (none, record q { queue = q.queue ++ (a ∷ []); notifying = q.notifying + 1 })
step Step.notify q = elim q.notifying [
  | zero ↦ none
  | suc others ↦ some (none, wake_one (record q { notifying = others }))
]
step Step.pop q = some (take_front q)
step Step.pop_again q = elim q.awake [
  | zero ↦ none
  | suc others ↦ some (take_front (record q { awake = others }))
]
step Step.wake q = elim q.asleep [ zero ↦ none | suc others ↦ some (none, wake_one q) ]

-- The queue of a new object.
abbrev pub new_queue : {A : Type 0} → WorkQueue A
new_queue = record { queue = []; notifying = 0; asleep = 0; awake = 0 }

abbrev pub push_result : {A : Type 0} → Option A → List A → List A
push_result none more = more
push_result (some a) more = a ∷ more

-- Any steps one after the other: what the calls of `Pop` returned, and the queue.
unfoldable pub run : {A : Type 0} → List (Step A) → WorkQueue A → Option (List A × WorkQueue A)
unfolding step
run [] q = some ([], q)
run (s ∷ steps) q = elim (step s q) [
  | none ↦ none
  | some (result, q₁) ↦ elim (run steps q₁) [
    | none ↦ none
    | some (results, last) ↦ some (push_result result results, last)
  ]
]
