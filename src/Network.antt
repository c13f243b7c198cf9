-- ===== src/Network.antt =====
-- simplekvsvr_v2/basetcpsocket.h and kvnetworklayer.h: lines from a socket into tasks, and answers
-- to a socket. The socket is a parameter: what `recv` and `send` return comes from outside.
pub mod Lines
pub mod Sending
pub mod Receiving
mod Tests
use simple_kv_svr.Base.{
  ℕ, zero, suc, ◌+◌, ◌-◌, Bool, true, false, not, Option, none, some, List, [], ◌∷◌, ◌++◌, length,
  get_elem?, set as set_elem, take, drop, ◌==◌, if◌then◌else◌, Bytes,
}

-- `recv` on a socket in the state `S`, with MSG_PEEK or without, for at most so many bytes: `none`
-- is -1, and no byte at all is the end of the stream.
abbrev pub Recv : Type 0 → Type 0
Recv S = Bool → ℕ → S → Option Bytes × S

-- What `readline` leaves in the buffer and returns; `none` is -1.
pub record Line (S : Type 0) : Type 0 where
  pub result : Option ℕ
  pub buf : Bytes
  pub socket : S

-- `while (position < buf + n && *position != '\n') position++;`, on the bytes that are there.
pub find_newline : Bytes → ℕ
find_newline [] = 0
find_newline (c ∷ bytes) = let further = find_newline bytes in if c == 10 then 0 else further + 1

-- Bytes written over the start of a buffer.
abbrev pub overlay : Bytes → Bytes → Bytes
overlay bs buffer = bs ++ drop (length bs) buffer

module _ {S : Type 0} (recv : Recv S) where
  -- The last call of `readline`.
  abbrev pub read_bytes : Bytes → ℕ → S → Line S
  read_bytes buf count s =
      let (got, s') = recv false count s in
      elim got [
        | none ↦ record { result = none; buf = buf; socket = s' }
        | some bytes ↦ record { result = some (length bytes); buf = overlay bytes buf; socket = s' }
      ]

  -- `readline` after its first `recv`. Where that failed, `position` is not `buf - 1`, and one byte is
  -- asked for.
  pub after_peek : Option Bytes → Bytes → S → Line S
  unfolding find_newline
  after_peek none buf s = read_bytes buf 1 s
  after_peek (some []) buf s = record { result = some 0; buf = buf; socket = s }
  after_peek (some (c ∷ bytes)) buf s =
      if find_newline (c ∷ bytes) == length (c ∷ bytes)
      then record { result = none; buf = overlay (c ∷ bytes) buf; socket = s }
      else read_bytes (overlay (c ∷ bytes) buf) (find_newline (c ∷ bytes) + 1) s

  unfoldable pub readline : Bytes → ℕ → S → Line S
  unfolding after_peek
  readline buf nbytes s = let (peeked, s') = recv true nbytes s in after_peek peeked buf s'

-- What `inputThread` does after `readline`: it waits for more, shuts the socket down, drops an empty
-- line, leaves the buffer at its start, or gives a task with its buffer and `n` to the logic layer.
pub data Action : Type 0 where
  await close skip underrun : Action
  submit : Bytes → ℕ → Action

-- The test for '\r' before the newline, and the task.
abbrev pub cut_return : Bytes → ℕ → ℕ → Action
cut_return buf n at = elim (get_elem? buf at) [
  | none ↦ Action.underrun
  | some c ↦ if c == 13 then Action.submit (set_elem buf at 10) (n - 1) else Action.submit buf n
]

pub input_action : Option ℕ → Bytes → Action
input_action none buf = Action.await
input_action (some zero) buf = Action.close
input_action (some (suc n)) [] = Action.underrun
input_action (some (suc zero)) (c ∷ buf) = if c == 10 then Action.skip else Action.underrun
input_action (some (suc (suc n))) (c ∷ buf) =
    if c == 10 then Action.skip else cut_return (c ∷ buf) (n + 2) n

-- The size that `inputThread` gives for the buffer.
abbrev pub line_size : ℕ
line_size = 4096

-- Rounds of `inputThread` for one socket, until a round gives no task, or for so many rounds; `buf`
-- is the buffer of a new task.
pub input_tasks : {S : Type 0} → Recv S → Bytes → ℕ → S → List (Bytes × ℕ) × S
unfolding readline input_action
input_tasks recv buf zero s = ([], s)
input_tasks recv buf (suc rounds) s =
    let line = readline recv buf line_size s in
    let (more, last) = input_tasks recv buf rounds line.socket in
    elim (input_action line.result line.buf) [
      | Action.submit task_buf n ↦ ((task_buf, n) ∷ more, last)
      | Action.skip ↦ (more, last)
      | _ ↦ ([], line.socket)
    ]

-- What one `send` returns: a number of bytes, -1 with EINTR, EAGAIN or EWOULDBLOCK, or another error.
pub data Sent : Type 0 where
  accepted : ℕ → Sent
  again failed : Sent

-- `sendn`, with what the calls of `send` return: the bytes that reach the socket; `none` while it still
-- loops after these calls. Every round sends from `buf`, not from `buffer`.
pub sendn : List Sent → Bytes → ℕ → Option Bytes
sendn _ buf zero = some []
sendn [] buf (suc bytes) = none
sendn (accepted n ∷ calls) buf (suc bytes) = elim (sendn calls buf (suc bytes - n)) [
  | none ↦ none
  | some more ↦ some (take n buf ++ more)
]
sendn (again ∷ calls) buf (suc bytes) = sendn calls buf (suc bytes)
sendn (failed ∷ calls) buf (suc bytes) = some []

-- What a round of `outputThread` does for a result: the bytes that reach the socket, whether the socket is
-- shut down and its event deleted, and whether the task is deleted.
pub record Output : Type 0 where
  pub sent : Bytes
  pub shut : Bool
  pub deleted : Bool

-- A round of `outputThread`, with the task's `res`, `resLen`, `CMD == QUIT` and `cached`; `none` while
-- `sendn` still loops.
unfoldable pub output_task : List Sent → Bytes → ℕ → Bool → Bool → Option Output
unfolding sendn
output_task calls res res_len quit cached = elim (sendn calls res res_len) [
  | none ↦ none
  | some bytes ↦ some (record { sent = bytes; shut = quit; deleted = not cached })
]

-- What one `recv` of `readn` returns: bytes, the end of the stream, -1 with EINTR, or another error.
pub data Received : Type 0 where
  bytes : Bytes → Received
  end interrupted broken : Received

-- `readn`, with what the calls of `recv` return: the bytes read, whose number is returned, and whether
-- `*isEOF` is set; `none` while it still loops after these calls.
pub readn : List Received → ℕ → Option (Bytes × Bool)
readn _ zero = some ([], false)
readn [] (suc left) = none
readn (bytes got ∷ calls) (suc left) = elim (readn calls (suc left - length got)) [
  | none ↦ none
  | some (more, eof) ↦ some (got ++ more, eof)
]
readn (end ∷ calls) (suc left) = some ([], true)
readn (interrupted ∷ calls) (suc left) = readn calls (suc left)
readn (broken ∷ calls) (suc left) = some ([], false)
