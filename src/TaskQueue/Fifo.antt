-- ===== src/TaskQueue/Fifo.antt =====
-- The invariant of queue.h under every interleaving, and what follows from it for the order of the
-- objects.
use native.Mathlib.Decide.{dec_lt}
use simple_kv_svr.Base.{
  Bool, true, false, length-slots, ◌≢◌, if◌then◌else◌, ℕ, ◌+◌, ◌-◌, ◌%◌, ◌≤◌, ◌<◌, ◌≡◌, refl, none,
  some, List, [], ◌∷◌, ◌++◌, append_assoc, arith, get_or, set, length, length-set, slots,
  slots-head, slots-head_of_pos, slots-set_next, slot-next, slot-after, ltb, inl, inr, ◌⊎◌,
  Option-cases,
}
use simple_kv_svr.TaskQueue.{Shared, Event, create, start, step, run, enqueue, dequeue}

module _ {A : Type 0} where
  -- The objects stored and not yet taken: the posted ones, those of threads that have not posted
  -- yet, and those that a thread has claimed and not yet read.
  abbrev pub stored : Shared A → ℕ
  stored s = s.full + s.in_stored + s.in_done + s.out_waiting + s.out_locked

  -- The slots that are free or becoming free.
  abbrev pub free_slots : Shared A → ℕ
  free_slots s = s.empty + s.in_waiting + s.in_locked + s.out_taken + s.out_done

  pub record IsConsistent (d : A) (s : Shared A) : Type 0 where
    pub array : length s.queue ≡ s.size
    pub head_in : s.head < s.size
    pub tail_in : s.tail < s.size
    pub one_producer : s.enqueue_mutex + s.in_locked + s.in_stored ≡ 1
    pub one_consumer : s.dequeue_mutex + s.out_locked + s.out_taken ≡ 1
    pub balance : stored s + free_slots s ≡ s.size
    pub ring : s.head ≡ (s.tail + stored s) % s.size
    pub order : s.sent ≡ s.received ++ slots d s.queue s.size s.tail (stored s)

  pub start-IsConsistent :
      (d : A) (array : List A) (size : ℕ)
      → 0 < size
      → length array ≡ size
      → IsConsistent d (start (create array size))
  unfolding start create
  start-IsConsistent d array size h e = ground arith

  pub step-IsConsistent :
      (d : A) (e : Event A) (s s' : Shared A)
      → step d e s ≡ some s'
      → IsConsistent d s
      → IsConsistent d s'
  unfolding step
  step-IsConsistent d Event.wait_empty s s' h v = ground arith
  step-IsConsistent d (Event.store obj) s s' h v = ground (
    arith,
    length-set s.queue s.head obj,
    slots-set_next d s.queue s.size s.tail (stored s) obj,
    slot-after s.size s.tail (stored s),
    append_assoc s.received (slots d s.queue s.size s.tail (stored s)) (obj ∷ []),
  )
  step-IsConsistent d Event.take s s' h v = ground (
    arith,
    slot-next s.size s.tail (stored s - 1),
    slots-head d s.queue s.size s.tail (stored s - 1),
    append_assoc s.received (get_or s.queue s.tail d ∷ [])
        (slots d s.queue s.size ((s.tail + 1) % s.size) (stored s - 1)),
  )
  step-IsConsistent d _ s s' h v = ground arith

  pub run-IsConsistent :
      (d : A) (es : List (Event A)) (s s' : Shared A)
      → run d es s ≡ some s'
      → IsConsistent d s
      → IsConsistent d s'
  unfolding run
  run-IsConsistent d [] s s' h v = ground arith
  run-IsConsistent d (e ∷ es) s s' h v = elim (Option-cases (step d e s)) [
    | inl blocked ↦ absurd (ground arith)
    | inr (m, moved) ↦ run-IsConsistent d es m s' (ground arith) (step-IsConsistent d e s m moved v)
  ]

  -- However the threads of a new queue interleave, the objects are taken in the order in which they
  -- were stored, none is lost, none is taken twice, and at most `size` of them wait.
  pub run_fifo :
      (d : A) (array : List A) (size : ℕ) (es : List (Event A)) (s : Shared A)
      → 0 < size
      → length array ≡ size
      → run d es (start (create array size)) ≡ some s
      → (waiting : List A) × (s.sent ≡ s.received ++ waiting) × (length waiting ≤ s.size)
  run_fifo d array size es s pos e h = (
    slots d s.queue s.size s.tail (stored s),
    (consistent).order,
    omega (arith, length-slots d s.queue s.size s.tail (stored s), (consistent).balance),
  )
    where
      consistent : IsConsistent d s
      consistent = run-IsConsistent d es _ s h (start-IsConsistent d array size pos e)

  -- The threads that are past the first wait of their call.
  abbrev pub in_flight : Shared A → ℕ
  in_flight s =
      s.in_waiting + s.in_locked + s.in_stored + s.in_done + s.out_waiting + s.out_locked
      + s.out_taken + s.out_done

  -- A point at which some thread can go on.
  ready : A → Shared A → Event A
  ready d s =
      if ltb 0 s.in_locked
      then Event.store d
      else if ltb 0 s.in_stored
      then Event.unlock_in
      else if ltb 0 s.in_done
      then Event.post_full
      else if ltb 0 s.out_locked
      then Event.take
      else if ltb 0 s.out_taken
      then Event.unlock_out
      else if ltb 0 s.out_done
      then Event.post_empty
      else if ltb 0 s.in_waiting
      then Event.lock_in
      else Event.lock_out

  ready_moves :
      (d : A) (s : Shared A) → IsConsistent d s → 0 < in_flight s → step d (ready d s) s ≢ none
  unfolding ready step
  ready_moves d s v h = ground arith

  -- A step of a thread that is past the first wait of its call.
  abbrev pub goes_on : Event A → Bool
  goes_on Event.wait_empty = false
  goes_on Event.wait_full = false
  goes_on _ = true

  ready-goes_on : (d : A) (s : Shared A) → goes_on (ready d s) ≡ true
  unfolding ready
  ready-goes_on d s = ground arith

  -- However the threads of a new queue have interleaved: where threads are past the first wait of their
  -- calls, one of these threads can go on, so that the mutexes and the posts do not deadlock.
  pub step_progress :
      (d : A) (array : List A) (size : ℕ) (es : List (Event A)) (s : Shared A)
      → 0 < size
      → length array ≡ size
      → run d es (start (create array size)) ≡ some s
      → 0 < in_flight s
      → (e : Event A) × (s' : Shared A) × (goes_on e ≡ true) × (step d e s ≡ some s')
  step_progress d array size es s pos len ran h =
      let v = run-IsConsistent d es _ s ran (start-IsConsistent d array size pos len) in
      elim (Option-cases (step d (ready d s) s)) [
        | inl blocked ↦ absurd (ready_moves d s v h blocked)
        | inr (s', moved) ↦ (ready d s, s', ready-goes_on d s, moved)
      ]

  -- A call that nothing interrupts.
  abbrev pub IsIdle : Shared A → Type 0
  IsIdle s = in_flight s ≡ 0

  -- What the queue holds, the oldest object first.
  abbrev pub contents : A → Shared A → List A
  contents d s = slots d s.queue s.size s.tail s.full

  abbrev after_enqueue : A → Shared A → Shared A
  after_enqueue obj s = record s {
    q = record s.q {
      queue = set s.queue s.head obj;
      head = (s.head + 1) % s.size;
      empty = s.empty - 1;
      full = s.full + 1;
      enqueue_mutex = s.enqueue_mutex - 1 + 1;
    };
    in_waiting = s.in_waiting + 1 - 1;
    in_locked = s.in_locked + 1 - 1;
    in_stored = s.in_stored + 1 - 1;
    in_done = s.in_done + 1 - 1;
    sent = s.sent ++ (obj ∷ []);
  }

  abbrev after_dequeue : A → Shared A → Shared A
  after_dequeue d s = record s {
    q = record s.q {
      tail = (s.tail + 1) % s.size;
      full = s.full - 1;
      empty = s.empty + 1;
      dequeue_mutex = s.dequeue_mutex - 1 + 1;
    };
    out_waiting = s.out_waiting + 1 - 1;
    out_locked = s.out_locked + 1 - 1;
    out_taken = s.out_taken + 1 - 1;
    out_done = s.out_done + 1 - 1;
    received = s.received ++ (get_or s.queue s.tail d ∷ []);
  }

  -- With no other thread in a call: `enqueue` blocks exactly on a queue that holds `size` objects,
  -- and otherwise puts the object behind the others.
  pub enqueue_lem :
      (d obj : A) (s : Shared A)
      → IsConsistent d s
      → IsIdle s
      → ((s.full ≡ s.size) × (enqueue d obj s ≡ none))
        ⊎ ((s.full < s.size)
            × ((s' : Shared A) × (enqueue d obj s ≡ some s')
                × IsIdle s'
                × (contents d s' ≡ contents d s ++ (obj ∷ []))))
  unfolding enqueue
  enqueue_lem d obj s v i = elim (dec_lt s.full s.size) [
    | yes room ↦ inr (
      room,
      (
        after_enqueue obj s,
        ground arith,
        ground arith,
        ground (arith, slots-set_next d s.queue s.size s.tail s.full obj),
      ),
    )
    | no stuck ↦ inl (ground arith, ground arith)
  ]

  -- With no other thread in a call: `dequeue` blocks exactly on an empty queue, and otherwise takes
  -- the oldest object away.
  pub dequeue_lem :
      (d : A) (s : Shared A)
      → IsConsistent d s
      → IsIdle s
      → ((contents d s ≡ []) × (dequeue d s ≡ none))
        ⊎ ((x : A) × (s' : Shared A) × (dequeue d s ≡ some s')
            × IsIdle s'
            × (s'.received ≡ s.received ++ (x ∷ []))
            × (contents d s ≡ x ∷ contents d s'))
  unfolding dequeue
  dequeue_lem d s v i = elim (dec_lt 0 s.full) [
    | yes some_left ↦ inr (
      get_or s.queue s.tail d,
      after_dequeue d s,
      ground arith,
      ground arith,
      refl,
      slots-head_of_pos d s.queue s.size s.tail s.full v.tail_in some_left,
    )
    | no stuck ↦ inl (ground arith, ground arith)
  ]
