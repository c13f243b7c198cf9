-- ===== src/ShmQueue/Order.antt =====
-- Any run of calls: the messages come out whole and in the order in which they went in.
use mathlib.Core.Path.{subst}
use simple_kv_svr.Base.{
  ℕ, ◌<◌, Bool, ◌&&◌, true, some, List, [], ◌∷◌, ◌++◌, length, take, Bytes, int_mod, int_sign, ◌≡◌,
  refl, ap, sym, ◌∙◌, arith, append_assoc, append-nil, inl, inr, Option-cases, ltb,
}
use simple_kv_svr.ShmQueue.{ShareQueue, create, Call, run_calls}
use simple_kv_svr.ShmQueue.Nodes.{take_all}
use simple_kv_svr.ShmQueue.Receive.{dequeue-Holds}
use simple_kv_svr.ShmQueue.Messages.{Holds, create-Holds, enqueue-Holds}

-- The messages sent, in order.
abbrev pub sent : List Call → List Bytes
sent [] = []
sent (Call.send buf ∷ calls) = buf ∷ sent calls
sent (Call.receive ∷ calls) = sent calls

-- Every message has a length that an `unsigned int` holds.
abbrev pub are_short : List Call → Bool
are_short [] = true
are_short (Call.send buf ∷ calls) = ltb (length buf) int_mod && are_short calls
are_short (Call.receive ∷ calls) = are_short calls

run_calls-Holds :
    (calls : List Call) (q : ShareQueue) (count : ℕ) (messages : List Bytes)
    → Holds q count messages
    → are_short calls ≡ true
    → (received : List Bytes) (q' : ShareQueue) → run_calls calls q ≡ some (received, q')
    → (left : List Bytes) × (used : ℕ) × Holds q' used left
      × (messages ++ sent calls ≡ received ++ left)
unfolding run_calls
run_calls-Holds [] q count messages v ok received q' e =
    let same : q ≡ q' = cc in
    let nothing : [] ≡ received = cc in
    (
      messages,
      count,
      subst (λ r. Holds r count messages) same v,
      rw (← nothing) (append-nil messages),
    )
run_calls-Holds (Call.send [] ∷ calls) q count messages v ok received q' e = absurd (ground arith)
run_calls-Holds (Call.send (b ∷ bs) ∷ calls) q count messages v ok received q' e =
    elim (enqueue-Holds q count messages (b ∷ bs) v (omega arith) (ground arith)) [
      | inl (tight, waits) ↦ absurd (ground arith)
      | inr (room, (q₁, done, h)) ↦
          let (left, used, h', eq) =
            run_calls-Holds calls q₁ _ _ h (ground arith) received q' (ground arith) in
          (left, used, h', sym (append_assoc messages ((b ∷ bs) ∷ []) (sent calls)) ∙ eq)
    ]
run_calls-Holds (Call.receive ∷ calls) q count messages v ok received q' e =
    elim (dequeue-Holds q count messages v) [
      | inl (none_left, waits) ↦ absurd (ground arith)
      | inr (m, others, split, (q₁, used, done, h)) ↦ elim (Option-cases (run_calls calls q₁)) [
        | inl stuck ↦ absurd (ground arith)
        | inr ((rest, last), ran) ↦
            let got : received ≡ take (length m) m ∷ rest = ground arith in
            let same : last ≡ q' = ground arith in
            let (left, used', h', eq) = run_calls-Holds calls q₁ used others h ok rest last ran in
            (
              left,
              used',
              subst (λ r. Holds r used' left) same h',
              rw (split, got, take_all (length m) m refl) (ap (λ ms. m ∷ ms) eq),
            )
      ]
    ]

-- Any calls on a new queue that all return 0, made one after the other by whatever processes: what
-- has been received, with what is still in the queue behind it, is what was sent, message by message.
pub run_calls_order :
    (max_size : ℕ) (calls : List Call) (received : List Bytes) (q : ShareQueue)
    → 0 < max_size
    → max_size < int_sign
    → are_short calls ≡ true
    → run_calls calls (create max_size) ≡ some (received, q)
    → (left : List Bytes) × (used : ℕ) × Holds q used left × (sent calls ≡ received ++ left)
run_calls_order max_size calls received q pos small ok e =
    run_calls-Holds calls (create max_size) 0 [] (create-Holds max_size pos small) ok received q e
