-- ===== src/Logic.antt =====
-- simplekvsvr_v2/kvlogiclayer.h: from the line of a client to a task of the store, and from a task
-- that comes back to the bytes that are sent. `inThread` and `outThread` do this with each task that
-- their queue gives them.
pub mod Requests
pub mod Answers
pub mod Stale
pub mod Session
mod Tests
use simple_kv_svr.Base.{
  ltb, ℕ, zero, suc, ◌+◌, ◌-◌, ◌%◌, Bool, true, false, ◌||◌, ◌&&◌, not, Option, none, some, List,
  [], ◌∷◌, ◌++◌, length, set as set_elem, take, drop, ◌==◌, if◌then◌else◌, Bytes, int_mod, codes,
  decimal,
}
use simple_kv_svr.DataNode.{DataNode}
use simple_kv_svr.Store.{SimpleKvStore, Task, Command, State, Io, deref, process_task}

-- `a - b` of two `int`s
abbrev pub int_sub : ℕ → ℕ → ℕ
int_sub a b = (a + int_mod - b) % int_mod

-- What `inThread` makes of a line: `+ERROR!`, a task for the store, an answer of its own, or a scan that
-- leaves the buffer (the behaviour is undefined from there).
pub data Parsed : Type 0 where
  error overrun quit stats : Parsed
  request : Task → Parsed

-- `memcmp(memory, word, strlen(word)) == 0`
pub starts : Bytes → Bytes → Bool
starts [] memory = true
starts (w ∷ word) [] = false
starts (w ∷ word) (c ∷ memory) = (c == w) && starts word memory

-- `while ((*space != ' ') && (*space != '\n')) space++;`: the number of rounds, and the memory from
-- `space` on.
pub find_break : Bytes → Option (ℕ × Bytes)
find_break [] = none
find_break (c ∷ memory) =
    let further = find_break memory in
    if c == b' ' || c == 10
    then some (0, c ∷ memory)
    else elim further [ none ↦ none | some (rounds, rest) ↦ some (rounds + 1, rest) ]

-- `(space[0] == '\n') || (space[1] == '\n')`; `none` where the buffer ends at `space`.
abbrev pub no_value : Bytes → Option Bool
no_value (c ∷ c' ∷ rest) = some (c == 10 || c' == 10)
no_value _ = none

-- The branch of SET, for a line of `n` bytes.
pub parse_set : Bytes → ℕ → Parsed
unfolding find_break
parse_set buf n =
    let key = drop 5 buf in
    elim (find_break (drop 1 key)) [
      | none ↦ Parsed.overrun
      | some (rounds, space) ↦ elim (no_value space) [
        | none ↦ Parsed.overrun
        | some true ↦ Parsed.error
        | some false ↦ Parsed.request (record {
          cmd = Command.set;
          key = key;
          key_len = rounds + 1;
          value = drop 1 space;
          value_len = int_sub (n - 1) (rounds + 7);
          state = State.success;
        })
      ]
    ]

-- The branches of `inThread`, on the buffers `buf` and `res` of the task.
pub parse : Bytes → Bytes → ℕ → Parsed
unfolding starts parse_set
parse buf res n =
    if not (starts (codes "-") buf)
    then Parsed.error
    else if starts (codes "get ") (drop 1 buf)
    then Parsed.request (record {
      cmd = Command.get;
      key = drop 5 buf;
      key_len = int_sub n 6;
      value = drop 1 res;
      value_len = 0;
      state = State.success;
    })
    else if starts (codes "set ") (drop 1 buf)
    then parse_set buf n
    else if starts (codes "delete ") (drop 1 buf)
    then Parsed.request (record {
      cmd = Command.del;
      key = drop 8 buf;
      key_len = int_sub n 9;
      value = [];
      value_len = 0;
      state = State.success;
    })
    else if starts (codes "quit") (drop 1 buf)
    then Parsed.quit
    else if starts (codes "stats" ++ (10 ∷ [])) (drop 1 buf)
    then Parsed.stats
    else Parsed.error

-- `strcpy(res, "+ERROR!\n")` and `strcpy(res, "+OK\n")`, up to the length that is sent
abbrev pub error_line : Bytes
error_line = codes "+ERROR!" ++ (10 ∷ [])

abbrev pub ok_line : Bytes
ok_line = codes "+OK" ++ (10 ∷ [])

-- `fileSize`; a deleted object counts nothing here.
pub file_size : SimpleKvStore → List ℕ → ℕ
file_size s [] = 0
file_size s (p ∷ ps) = elim (deref s p) [ none ↦ 0 | some d ↦ d.total_offset ] + file_size s ps

-- The line of STATS; `memSize` is 0.
pub stats_line : SimpleKvStore → Bytes
unfolding file_size decimal
stats_line s =
    codes "+count: "
    ++ (decimal (length s.index)
        ++ (codes ",mem: "
            ++ (decimal 0
                ++ (codes ",file: "
                    ++ (decimal (file_size s s.file_list)
                        ++ (codes ", hits: "
                            ++ (decimal s.hits
                                ++ (codes ", misses: " ++ (decimal s.miss ++ (10 ∷ []))))))))))

-- The bytes that a GET sends: `res[0] = '+'`, the value that was read behind it, and a newline.
abbrev pub value_line : Task → Bytes
value_line task = take (task.value_len + 2) (b'+' ∷ set_elem task.value task.value_len 10)

line_of : Command → Task → Bytes
line_of Command.get task = value_line task
line_of _ task = ok_line

-- `outThread`: the line for a task that the store has processed.
pub respond : Task → Bytes
unfolding line_of
respond task = elim task.state [ State.fail ↦ error_line | State.success ↦ line_of task.cmd task ]

-- One line through the layers, where no other task is under way: what is sent for it, and the store
-- after it. The queues between the layers keep the order, so with one thread on each of them
-- (as the program starts them) a client's lines are handled so, one by one.
pub handle_line : Io → Bytes → Bytes → ℕ → SimpleKvStore → Option (Bytes × SimpleKvStore)
handle_line io buf res n s = elim (parse buf res n) [
  | Parsed.error ↦ some (error_line, s)
  | Parsed.overrun ↦ none
  | Parsed.quit ↦ some (ok_line, s)
  | Parsed.stats ↦ some (stats_line s, s)
  | Parsed.request task ↦ elim (process_task io task s) [
    | none ↦ none
    | some (task', s') ↦ some (respond task', s')
  ]
]

-- Lines one behind the other, each in the buffer of a new task with its length; the run has no result from where
-- the store starts a thread of `rebuildFile`, which works beside the I/O thread.
pub handle_lines :
    Io → Bytes → List (Bytes × ℕ) → SimpleKvStore → Option (List Bytes × SimpleKvStore)
handle_lines io res [] s = some ([], s)
handle_lines io res ((buf, n) ∷ rest) s = elim (handle_line io buf res n s) [
  | none ↦ none
  | some (sent, s') ↦ if ltb 0 s'.rebuilds then none else elim (handle_lines io res rest s') [
    | none ↦ none
    | some (more, last) ↦ some (sent ∷ more, last)
  ]
]
