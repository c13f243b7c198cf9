-- ===== src/Store.antt =====
-- simplekvsvr_v2/simplekvstore.h and task.h: the store behind one I/O thread, which takes the tasks
-- one by one. A state is the heap of `DataNode` objects, the list of files, the index and the manifest
-- file; `none` as a result stands for undefined behaviour (a dangling pointer, a write past the end
-- of an array).
pub mod Holds
pub mod Append
pub mod Refine
pub mod Alone
pub mod Serve
pub mod Load
pub mod Rebuild
mod Tests
use simple_kv_svr.Base.{
  ℕ, zero, suc, ◌+◌, ◌-◌, ◌*◌, ◌/◌, ◌%◌, Bool, true, false, not, ◌||◌, Option, none, some, List, [],
  ◌∷◌, ◌++◌, length, get_elem?, set as set_elem, take, drop, ltb, leb, ◌==◌, if◌then◌else◌, Bytes,
  int_bytes,
}
use mathlib.Core.List.{reverse, map}
use simple_kv_svr.DataNode.{
  Record, DataNode, AppendIo, ReadIo, Fetch, off_limit, append_record, get_record,
}
use simple_kv_svr.Index
use simple_kv_svr.Index.{RecordOffset, SimpleKvIndex}

-- The values of `CMD` and of `state`
pub data Command : Type 0 where
  get set del stats quit : Command

pub data State : Type 0 where
  success fail : State

-- The members of `class Task` that the store uses. `key` and `value` are the memory from the pointers
-- on, to the end of the task's buffers.
pub record Task : Type 0 where
  pub cmd : Command
  pub key : Bytes
  pub key_len : ℕ
  pub value : Bytes
  pub value_len : ℕ
  pub state : State

-- `class SimpleKVStore`. A node's address is its place in `nodes`; `none` there is a deleted object.
-- `fileNum` is the length of `file_list`; `rebuilds` counts the threads started by `check`.
pub record SimpleKvStore : Type 0 where
  pub nodes : List (Option DataNode)
  pub file_list : List ℕ
  pub index : SimpleKvIndex
  pub man_file : Bytes
  pub hits : ℕ
  pub miss : ℕ
  pub rebuilds : ℕ

abbrev pub max_file : ℕ
max_file = 1024

-- "KVDB"
abbrev pub file_prefix : Bytes
file_prefix = 75 ∷ 86 ∷ 68 ∷ 66 ∷ []

-- `*node`: `none` for a dangling pointer
abbrev pub deref : SimpleKvStore → ℕ → Option DataNode
deref s p = elim (get_elem? s.nodes p) [ none ↦ none | some cell ↦ cell ]

abbrev pub file_num : SimpleKvStore → ℕ
file_num s = length s.file_list

-- `fileList[fileNum - 1]`
abbrev pub last_file : SimpleKvStore → Option ℕ
last_file s = get_elem? s.file_list (file_num s - 1)

-- The loop of `itoa`: the digits of `num`, the last one first; the fuel is a bound on `num`.
pub itoa_loop : ℕ → ℕ → List ℕ
itoa_loop zero num = []
itoa_loop (suc fuel) num =
    let rest = itoa_loop fuel (num / 10) in if num == 0 then [] else (num % 10) ∷ rest

-- `itoa`: the bytes before the terminating 0. No digit is written for 0.
pub itoa : ℕ → Bytes
unfolding itoa_loop
itoa num = map (λ digit. digit + b'0') (reverse (itoa_loop num num))

-- The file that `check` opens is new and empty; the manifest gets the new number of files at its
-- start, and the length and the name of the file at its end. The thread of `rebuildFile` that is started where
-- there was a file is only counted.
pub add_file : SimpleKvStore → SimpleKvStore
unfolding itoa int_bytes
add_file s =
    let name = file_prefix ++ itoa (file_num s) in
    record s {
      nodes = s.nodes ++ (some (record { file_name = name; bytes = []; total_offset = 0 }) ∷ []);
      file_list = s.file_list ++ (length s.nodes ∷ []);
      man_file =
          (int_bytes (file_num s + 1) ++ drop 4 s.man_file) ++ (int_bytes (length name) ++ name);
      rebuilds = if ltb 0 (file_num s) then s.rebuilds + 1 else s.rebuilds;
    }

-- The test of `check` where there is a file: it has grown past the limit.
abbrev pub is_over : Option DataNode → Option Bool
is_over none = none
is_over (some d) = some (ltb off_limit d.total_offset)

-- `check`: with no room in `fileList` the source prints an error and writes past its end.
pub check : SimpleKvStore → Option SimpleKvStore
check s =
    let more : Option SimpleKvStore =
      if leb max_file (file_num s) then none else some (add_file s) in
    elim (last_file s) [
      | none ↦ more
      | some p ↦ elim (is_over (deref s p)) [
        | none ↦ none
        | some over ↦ if over then more else some s
      ]
    ]

-- Bytes written over the start of a buffer.
abbrev pub overlay : Bytes → Bytes → Bytes
overlay bs buffer = bs ++ drop (length bs) buffer

-- `getVal` after the index has answered. `uninit` is what lies in `record.valueLen`, which no call
-- has set, when the file ends before the record.
pub read_val : ℕ → Fetch → Task → Option Task
read_val uninit Fetch.at_end task = some (record task { value_len = uninit })
read_val uninit Fetch.failed task = some (record task { state = State.fail })
read_val uninit Fetch.overrun task = none
read_val uninit (Fetch.got n r) task = some (record task {
  key = overlay r.key task.key;
  value = overlay r.value task.value;
  value_len = r.value_len;
})

pub get_val : ReadIo → ℕ → Task → SimpleKvStore → Option (Task × SimpleKvStore)
unfolding read_val
get_val io uninit task s =
    let counted = record s { miss = s.miss + 1 } in
    let started = record task { state = State.success } in
    elim (Index.get_val task.key task.key_len s.index) [
      | none ↦ some (record task { state = State.fail }, counted)
      | some position ↦ elim (deref s position.data_node) [
        | none ↦ none
        | some d ↦
            elim (read_val uninit
              (get_record io (length task.key) (length task.value) position.offset d) started) [
                | none ↦ none
                | some task' ↦ some (task', counted)
              ]
      ]
    ]

-- The append that `setVal` and `delVal` make after `check`, to the last file: the place where the
-- record is to lie, the store with the file grown, and whether `appendRecord` succeeded.
pub append_last : AppendIo → Record → SimpleKvStore → Option (RecordOffset × SimpleKvStore × Bool)
append_last io r s = elim (last_file s) [
  | none ↦ none
  | some p ↦ elim (deref s p) [
    | none ↦ none
    | some d ↦
        let (d', n) = append_record io r d in
        some (
          record { data_node = p; offset = d.total_offset },
          record s { nodes = set_elem s.nodes p (some d') },
          elim n [ none ↦ false | some wrote ↦ true ],
        )
  ]
]

-- The record that a SET writes.
abbrev pub set_record : Task → Record
set_record task = record {
  crc = 0;
  key_len = task.key_len;
  value_len = task.value_len;
  key = task.key;
  value = task.value;
}

-- The record that a DELETE writes.
abbrev pub del_record : Task → Record
del_record task = record (set_record task) { value_len = 0 }

-- The state of a task after an operation that returned `done`.
abbrev pub finish : Bool → Task → Task
finish done task = record task { state = if done then State.success else State.fail }

pub set_val : AppendIo → Task → SimpleKvStore → Option (Task × SimpleKvStore)
set_val io task s = elim (check s) [
  | none ↦ none
  | some s₁ ↦ elim (append_last io (set_record task) s₁) [
    | none ↦ none
    | some (position, s₂, wrote) ↦
        if not wrote
        then some (finish false task, s₂)
        else let (index', saved) = Index.save_val task.key task.key_len position s₂.index in
          some (finish saved task, record s₂ { index = index' })
  ]
]

pub del_val : AppendIo → Task → SimpleKvStore → Option (Task × SimpleKvStore)
del_val io task s = elim (check s) [
  | none ↦ none
  | some s₁ ↦ elim (append_last io (del_record task) s₁) [
    | none ↦ none
    | some (position, s₂, wrote) ↦
        if not wrote
        then some (finish false task, s₂)
        else let (index', found) = Index.del_key task.key task.key_len s₂.index in
          some (finish found task, record s₂ { index = index' })
  ]
]

-- What the system calls of one task do, and what lies in uninitialised memory.
pub record Io : Type 0 where
  pub append : AppendIo
  pub read : ReadIo
  pub uninit : ℕ

pub dispatch : Command → Io → Task → SimpleKvStore → Option (Task × SimpleKvStore)
dispatch Command.get io task s = get_val io.read io.uninit task s
dispatch Command.set io task s = set_val io.append task s
dispatch Command.del io task s = del_val io.append task s
dispatch _ io task s = some (record task { state = State.fail }, s)

unfoldable pub process_task : Io → Task → SimpleKvStore → Option (Task × SimpleKvStore)
process_task io task s = dispatch task.cmd io task s

-- `diskIO`, once the work queue has given it these tasks in this order: what goes to the result
-- queue, in order. The run has no result from where `check` starts a thread of `rebuildFile`, which works on the
-- index and the files beside this loop.
pub serve : List (Io × Task) → SimpleKvStore → Option (List Task × SimpleKvStore)
serve [] s = some ([], s)
serve ((io, task) ∷ rest) s = elim (process_task io task s) [
  | none ↦ none
  | some (task', s') ↦
      if ltb 0 s'.rebuilds
      then none
      else elim (serve rest s') [ none ↦ none | some (tasks, last) ↦ some (task' ∷ tasks, last) ]
]

-- A store whose manifest has just been created: no file yet.
unfoldable pub fresh : SimpleKvStore
unfolding int_bytes
fresh = record {
  nodes = [];
  file_list = [];
  index = [];
  man_file = int_bytes 0;
  hits = 0;
  miss = 0;
  rebuilds = 0;
}
