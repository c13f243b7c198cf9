-- ===== src/WorkQueue/Tests.antt =====
-- Runs of the queue of the first server, and its theorem at a concrete run.
use simple_kv_svr.Base.{ℕ, ◌+◌, ◌≤◌, ◌<◌, none, some, List, [], ◌∷◌, ◌++◌, length, ◌≡◌, refl}
use simple_kv_svr.WorkQueue.{WorkQueue, Step, wake_one, take_front, step, new_queue, run}
use simple_kv_svr.WorkQueue.Wakeups.{pushed, run_new}

-- A thread sleeps, is notified, and finds that another has taken the element.
abbrev steps : List (Step ℕ)
steps =
    Step.pop
    ∷ Step.push 7
    ∷ Step.notify
    ∷ Step.pop
    ∷ Step.pop_again
    ∷ Step.push 8
    ∷ Step.push 9
    ∷ Step.notify
    ∷ Step.pop_again
    ∷ []

-- One element and one notification are left.
abbrev left : WorkQueue ℕ
left = record { queue = 9 ∷ []; notifying = 1; asleep = 0; awake = 0 }

steps_popped : run steps new_queue ≡ some (7 ∷ 8 ∷ [], left)
unfolding run step wake_one take_front
steps_popped = refl

-- No thread is awake at the start.
pop_again_new : step {A = ℕ} Step.pop_again new_queue ≡ none
unfolding step
pop_again_new = refl

run_new_example :
    ((7 ∷ 8 ∷ []) ++ left.queue ≡ pushed steps)
    × (0 < left.asleep → length left.queue ≤ left.notifying + left.awake)
run_new_example = run_new steps left (7 ∷ 8 ∷ []) steps_popped
