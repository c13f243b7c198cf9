-- ===== src/WorkQueue/Wakeups.antt =====
-- The order of the elements, and the wake-ups.
use simple_kv_svr.Base.{
  ◌+◌, ◌≤◌, ◌<◌, Option, none, some, List, [], ◌∷◌, ◌++◌, length, length-append, append_assoc,
  append-nil, ◌≡◌, refl, sym, ap, ◌∙◌, ◌⊎◌, inl, inr, arith, Option-cases,
}
use simple_kv_svr.WorkQueue.{
  WorkQueue, Step, wake_one, take_front, step, new_queue, push_result, run,
}

-- No thread sleeps, or there are as many threads that are awake or about to notify as elements.
abbrev pub IsWatched : {A : Type 0} → WorkQueue A → Type 0
IsWatched q = (q.asleep ≡ 0) ⊎ (length q.queue ≤ q.notifying + q.awake)

-- What the steps push.
abbrev pub pushed : {A : Type 0} → List (Step A) → List A
pushed [] = []
pushed (Step.push a ∷ steps) = a ∷ pushed steps
pushed (Step.notify ∷ steps) = pushed steps
pushed (Step.pop ∷ steps) = pushed steps
pushed (Step.pop_again ∷ steps) = pushed steps
pushed (Step.wake ∷ steps) = pushed steps

step-IsWatched :
    {A : Type 0} (s : Step A) (q q' : WorkQueue A) (result : Option A)
    → IsWatched q
    → step s q ≡ some (result, q')
    → IsWatched q'
unfolding step wake_one take_front
step-IsWatched (Step.push a) q q' result v h = ground (arith, length-append q.queue (a ∷ []))
step-IsWatched Step.notify q q' result v h = ground arith
step-IsWatched Step.pop q q' result v h = ground arith
step-IsWatched Step.pop_again q q' result v h = ground arith
step-IsWatched Step.wake q q' result v h = ground arith

step-order :
    {A : Type 0} (s : Step A) (q q' : WorkQueue A) (result : Option A)
    → step s q ≡ some (result, q')
    → push_result result q'.queue ≡ q.queue ++ pushed (s ∷ [])
unfolding step wake_one take_front
step-order (Step.push a) q q' result h = ground (arith, append-nil q.queue)
step-order Step.notify q q' result h = ground (arith, append-nil q.queue)
step-order Step.pop q q' result h = ground (arith, append-nil q.queue)
step-order Step.pop_again q q' result h = ground (arith, append-nil q.queue)
step-order Step.wake q q' result h = ground (arith, append-nil q.queue)

push_result-append :
    {A : Type 0} (result : Option A) (xs ys : List A)
    → push_result result xs ++ ys ≡ push_result result (xs ++ ys)
push_result-append none xs ys = refl
push_result-append (some a) xs ys = refl

pushed-cons :
    {A : Type 0} (s : Step A) (steps : List (Step A))
    → pushed (s ∷ steps) ≡ pushed (s ∷ []) ++ pushed steps
pushed-cons (Step.push a) steps = refl
pushed-cons Step.notify steps = refl
pushed-cons Step.pop steps = refl
pushed-cons Step.pop_again steps = refl
pushed-cons Step.wake steps = refl

run-step :
    {A : Type 0} (s : Step A) (steps : List (Step A)) (q last : WorkQueue A) (results : List A)
    → run (s ∷ steps) q ≡ some (results, last)
    → (result : Option A) × (q₁ : WorkQueue A) × (more : List A) × (step s q ≡ some (result, q₁))
      × (run steps q₁ ≡ some (more, last))
      × (results ≡ push_result result more)
unfolding run
run-step s steps q last results h = elim (Option-cases (step s q)) [
  | inl stuck ↦ absurd (ground arith)
  | inr ((result, q₁), first) ↦ elim (Option-cases (run steps q₁)) [
    | inl stuck ↦ absurd (ground arith)
    | inr ((more, end), rest) ↦ (result, q₁, more, first, ground arith, ground arith)
  ]
]

run-IsWatched :
    {A : Type 0} (steps : List (Step A)) (q last : WorkQueue A) (results : List A)
    → IsWatched q
    → run steps q ≡ some (results, last)
    → IsWatched last × (results ++ last.queue ≡ q.queue ++ pushed steps)
unfolding run
run-IsWatched [] q last results v h = (ground arith, ground (arith, append-nil q.queue))
run-IsWatched (s ∷ steps) q last results v h =
    let (result, q₁, more, first, rest, split) = run-step s steps q last results h in
    let (watched, order) =
      run-IsWatched steps q₁ last more (step-IsWatched s q q₁ result v first) rest in
    (
      watched,
      ap (λ xs. xs ++ last.queue) split
          ∙ push_result-append result more last.queue
          ∙ ap (λ xs. push_result result xs) order
          ∙ sym (push_result-append result q₁.queue (pushed steps))
          ∙ ap (λ xs. xs ++ pushed steps) (step-order s q q₁ result first)
          ∙ append_assoc q.queue (pushed (s ∷ [])) (pushed steps)
          ∙ ap (λ xs. q.queue ++ xs) (sym (pushed-cons s steps)),
    )

-- Any steps of threads that push and pop on a new queue: what was popped, with what is in the queue behind
-- it, is what was pushed, in that order; and while a thread sleeps, there are at least as many threads that
-- are awake or about to notify as there are elements, so no wake-up is lost.
pub run_new :
    {A : Type 0} (steps : List (Step A)) (q : WorkQueue A) (results : List A)
    → run steps new_queue ≡ some (results, q)
    → (results ++ q.queue ≡ pushed steps) × (0 < q.asleep → length q.queue ≤ q.notifying + q.awake)
run_new steps q results h =
    let (watched, order) = run-IsWatched steps new_queue q results (inl refl) h in
    (order, λ sleeps. omega (arith, watched))
