-- ===== src/Listener.antt =====
-- simplekvsvr/KVSvr.h: the listener of the first server, which takes one connection after the other and hands what
-- the first `recv` of each gives to the queue of the worker.
pub mod Pool
pub mod Requests
pub mod Serving
mod Tests
use simple_kv_svr.Base.{
  ℕ, zero, suc, ◌-◌, Bool, true, false, not, Option, none, some, List, [], ◌∷◌, ◌++◌, length, take,
  replicate, ◌==◌, if◌then◌else◌, Bytes,
}

-- What a round of the inner loop meets: `select` fails, or it returns 0, or the connection is not among what it
-- found; or `recv` fails, or it gives these bytes.
pub data Round : Type 0 where
  failed idle not_set lost : Round
  received : Bytes → Round

-- The calls that others see: a task of a text and a connection, or that the connection is closed.
pub data Effect : Type 0 where
  push : Bytes → ℕ → Effect
  close : ℕ → Effect

abbrev pub buffer_size : ℕ
buffer_size = 1024

-- `buff` after `memset` and `recv`.
abbrev pub buffer : Bytes → Bytes
buffer bytes = take buffer_size bytes ++ replicate (buffer_size - length bytes) 0

-- `string get = buff`: `none` where no 0 stands in the buffer, and what is behind it is read.
unfoldable pub text_of : Bytes → Option Bytes
text_of [] = none
text_of (c ∷ bytes) =
    let rest = text_of bytes in
    if c == 0 then some [] else elim rest [ none ↦ none | some text ↦ some (c ∷ text) ]

-- What becomes of a connection: its behaviour is undefined, it waits for more after these rounds, or the inner loop
-- ends.
pub data Visit : Type 0 where
  undefined waiting : Visit
  left : List Effect → Visit

-- The inner loop of `Run`.
unfoldable pub connection : ℕ → List Round → Visit
unfolding text_of
connection fd [] = Visit.waiting
connection fd (Round.failed ∷ rounds) = Visit.left []
connection fd (Round.idle ∷ rounds) = connection fd rounds
connection fd (Round.not_set ∷ rounds) = connection fd rounds
connection fd (Round.lost ∷ rounds) = Visit.left (Effect.close fd ∷ [])
connection fd (Round.received bytes ∷ rounds) = elim (text_of (buffer bytes)) [
  | none ↦ Visit.undefined
  | some text ↦ Visit.left (Effect.push text fd ∷ [])
]

-- What `accept` gives, with the rounds that the connection meets.
pub data Accept : Type 0 where
  refused : Accept
  accepted : ℕ → List Round → Accept

-- Where `Run` is in the end: its behaviour is undefined, it is in `select` or in `accept`, or it returned this value
-- with its sign changed.
pub data End : Type 0 where
  undefined selecting accepting : End
  returned : ℕ → End

-- The outer loop of `Run`.
unfoldable pub accept_all : List Accept → List Effect × End
unfolding connection
accept_all [] = ([], End.accepting)
accept_all (Accept.refused ∷ accepts) = ([], End.returned 4)
accept_all (Accept.accepted fd rounds ∷ accepts) =
    let (effects, end) = accept_all accepts in
    elim (connection fd rounds) [
      | Visit.undefined ↦ ([], End.undefined)
      | Visit.waiting ↦ ([], End.selecting)
      | Visit.left now ↦ (now ++ effects, end)
    ]

-- Whether `socket`, `bind` and `listen` succeed.
pub record ListenIo : Type 0 where
  pub makes : Bool
  pub binds : Bool
  pub listens : Bool

-- `Run`, after the constructor.
unfoldable pub run : ListenIo → List Accept → List Effect × End
unfolding accept_all
run io accepts =
    if not io.makes
    then ([], End.returned 1)
    else if not io.binds
    then ([], End.returned 2)
    else if not io.listens
    then ([], End.returned 3)
    else accept_all accepts
