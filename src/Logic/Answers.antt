-- ===== src/Logic/Answers.antt =====
-- The line that answers a task says what the reply is.
use simple_kv_svr.Base.{
  ℕ, zero, suc, ◌+◌, ◌<◌, ◌≡◌, refl, ap, [], ◌∷◌, ◌++◌, length, take, set as set_elem, Bytes, arith,
}
use simple_kv_svr.Store.{Task, Command, State}
use simple_kv_svr.Store.Refine.{value_of}
use simple_kv_svr.Store.Serve.{Reply, reply, answer}
use simple_kv_svr.Logic.{error_line, ok_line, respond, line_of, value_line}

-- The line for a reply.
unfoldable pub encode : Reply → Bytes
encode Reply.done = ok_line
encode Reply.failed = error_line
encode (Reply.found v) = b'+' ∷ (v ++ (10 ∷ []))

take-set :
    (n : ℕ) (xs : Bytes) (x : ℕ)
    → n < length xs
    → take (n + 1) (set_elem xs n x) ≡ take n xs ++ (x ∷ [])
take-set n [] x h = absurd (omega arith)
take-set zero (y ∷ xs) x h = refl
take-set (suc n) (y ∷ xs) x h = rw (one_more n) (ap (λ l. y ∷ l) (take-set n xs x (omega arith)))
  where
    one_more : (k : ℕ) → suc k + 1 ≡ suc (k + 1)
    one_more k = omega arith

value_line_lem :
    (task : Task)
    → task.value_len < length task.value
    → value_line task ≡ b'+' ∷ (value_of task ++ (10 ∷ []))
value_line_lem task h =
    rw (two_more task.value_len)
      (ap (λ (l : Bytes). b'+' ∷ l) (take-set task.value_len task.value 10 h))
  where
    two_more : (k : ℕ) → k + 2 ≡ suc (k + 1)
    two_more k = omega arith

-- A GET has room in its buffer for the newline behind the value, where it succeeded.
abbrev pub HasRoom : Command → Task → Type 0
HasRoom Command.get task = task.state ≡ State.success → task.value_len < length task.value
HasRoom _ task = Unit {0}

answer_lem :
    (cmd : Command) (state : State) (task : Task)
    → task.state ≡ state
    → HasRoom cmd task
    → elim state [ State.fail ↦ error_line | State.success ↦ line_of cmd task ]
      ≡ encode (answer cmd state (value_of task))
unfolding line_of encode
answer_lem Command.get State.success task e h = value_line_lem task (h e)
answer_lem _ State.success task e h = refl
answer_lem _ State.fail task e h = refl

-- What is sent for a task that comes back is the line for its reply.
pub respond_lem :
    (task : Task) → HasRoom task.cmd task → respond task ≡ encode (reply task.cmd task)
unfolding respond
respond_lem task h = answer_lem task.cmd task.state task refl h
