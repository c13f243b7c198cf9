-- ===== src/Store/Serve.antt =====
-- A run of tasks through the I/O thread, against a dictionary.
use mathlib.Core.List.{map}
use mathlib.Core.Path.{ap₂}
use simple_kv_svr.Base.{
  ◌∙◌, ℕ, ◌+◌, ◌≤◌, ◌<◌, ◌≡◌, ◌↔◌, refl, Option, none, some, List, [], ◌∷◌, length, Bytes, arith,
  inl, inr, Option-cases, Dict, lookup, assign, erase, lookup-assign, lookup-erase, length-take,
}
use simple_kv_svr.DataNode.{all_read, no_fault, off_limit}
use simple_kv_svr.DataNode.Log.{IsRecord}
use simple_kv_svr.Store.{
  SimpleKvStore, Task, Command, State, Io, file_num, max_file, del_record, process_task, dispatch,
  serve, fresh,
}
use simple_kv_svr.Store.Alone.{log_size, written_of, IsWritable, dispatch-alone}
use simple_kv_svr.Store.Refine.{
  IsStoreOf, IsTask, key_of, value_of, set_val_refines, del_val_refines, get_val_refines,
  get_val_missing,
}

-- What a client can learn from a task that comes back.
pub data Reply : Type 0 where
  done failed : Reply
  found : Bytes → Reply

-- The memory behind the key and the value is in the answer of no other command.
abbrev pub answer : Command → State → Bytes → Reply
answer Command.get State.success v = Reply.found v
answer _ State.success v = Reply.done
answer _ State.fail v = Reply.failed

-- What a task that comes back says.
abbrev pub reply : Command → Task → Reply
reply cmd task = answer cmd task.state (value_of task)

-- The dictionary's answer to a task, and the dictionary after it.
abbrev pub expect_get : Option Bytes → Reply
expect_get none = Reply.failed
expect_get (some v) = Reply.found v

abbrev pub expect_del : Option Bytes → Reply
expect_del none = Reply.failed
expect_del (some v) = Reply.done

unfoldable pub expect : Command → Task → Dict Bytes → Reply × Dict Bytes
expect Command.get task m = (expect_get (lookup (key_of task) m), m)
expect Command.set task m = (Reply.done, assign (key_of task) (value_of task) m)
expect Command.del task m = (expect_del (lookup (key_of task) m), erase (key_of task) m)
expect _ task m = (Reply.failed, m)

unfoldable pub expect_all : List Task → Dict Bytes → List Reply × Dict Bytes
expect_all [] m = ([], m)
expect_all (task ∷ rest) m =
    let (r, m') = expect task.cmd task m in let (rs, last) = expect_all rest m' in (r ∷ rs, last)

-- No value of the dictionary is longer than `room`.
pub record IsBounded (room : ℕ) (m : Dict Bytes) : Type 0 where
  pub at_key : (k v : Bytes) → lookup k m ≡ some v → length v ≤ room

-- What the layers above give the store: lengths that fit, values of at most `room` bytes, and buffers
-- for values that have as much room.
abbrev pub IsRequestOf : Command → ℕ → Task → Type 0
IsRequestOf Command.get room task = room ≤ length task.value
IsRequestOf Command.set room task = IsTask task × (task.value_len ≤ room)
IsRequestOf Command.del room task = IsRecord (del_record task)
IsRequestOf _ room task = Unit {0}

abbrev pub IsRequest : ℕ → Task → Type 0
IsRequest room task = IsRequestOf task.cmd room task

-- System calls that all succeed.
abbrev pub quiet : Task → Io × Task
quiet task = (record { append = no_fault; read = all_read; uninit = 0 }, task)

-- The value of a GET that succeeds is short, and its buffer is as large as it was.
abbrev pub Shows : Command → ℕ → Task → Task → Type 0
Shows Command.get room task out =
    out.state ≡ State.success → (out.value_len ≤ room) × (length out.value ≡ length task.value)
Shows _ room task out = Unit {0}

-- What one task does, in a run with no fault.
pub record Does (room : ℕ) (cmd : Command) (task : Task) (s : SimpleKvStore) (m : Dict Bytes)
    : Type 0 where
  pub out : Task × SimpleKvStore
  pub runs : dispatch cmd (quiet task).0 task s ≡ some out
  pub replies : reply cmd out.0 ≡ (expect cmd task m).0
  pub store : IsStoreOf out.1 (expect cmd task m).1
  pub shows : Shows cmd room task out.0
  pub one_file : file_num out.1 ≤ file_num s + 1

del_reply :
    (st : State) (o : Option Bytes) (v : Bytes)
    → (st ≡ State.fail) ↔ (o ≡ none)
    → answer Command.del st v ≡ expect_del o
del_reply State.success none v h = cc (h.1 refl)
del_reply State.success (some w) v h = refl
del_reply State.fail none v h = refl
del_reply State.fail (some w) v h = cc (h.0 refl)

-- One task, with system calls that succeed and a place for one more file: the store answers as the
-- dictionary does, and afterwards stands for the dictionary after the task.
pub dispatch_refines :
    (cmd : Command) (room : ℕ) (task : Task) (s : SimpleKvStore) (m : Dict Bytes)
    → IsStoreOf s m
    → IsBounded room m
    → IsRequestOf cmd room task
    → file_num s < max_file
    → Does room cmd task s m
unfolding dispatch expect
dispatch_refines Command.get room task s m h b v f = elim (Option-cases (lookup (key_of task) m)) [
  | inl missing ↦
      let (out, runs, state, store, files) = get_val_missing all_read 0 task s m h missing in
      record {
        out = out;
        runs = runs;
        replies = ground (arith, missing);
        store = store;
        shows = λ ok. cc (state, ok);
        one_file = omega arith;
      }
  | inr (v₀, there) ↦
      let (out, runs, state, value, len, kept, store, files) =
        get_val_refines 0 task s m v₀ h there (omega (arith, b.at_key (key_of task) v₀ there)) in
      record {
        out = out;
        runs = runs;
        replies = ground (arith, there, state, value);
        store = store;
        shows = λ ok. (omega (arith, b.at_key (key_of task) v₀ there), kept);
        one_file = omega arith;
      }
]
dispatch_refines Command.set room task s m h b (v, fits) f =
    let (out, runs, state, store, files) = set_val_refines task s m v h f in
    record {
      out = out;
      runs = runs;
      replies = ground (arith, state);
      store = store;
      shows = tt;
      one_file = files;
    }
dispatch_refines Command.del room task s m h b v f =
    let (out, runs, state, store, files) = del_val_refines task s m v h f in
    record {
      out = out;
      runs = runs;
      replies = del_reply out.0.state (lookup (key_of task) m) (value_of out.0) state;
      store = store;
      shows = tt;
      one_file = files;
    }
dispatch_refines _ room task s m h b v f = record {
  out = (record task { state = State.fail }, s);
  runs = refl;
  replies = refl;
  store = h;
  shows = tt;
  one_file = omega arith;
}

assign-IsBounded :
    (room : ℕ) (m : Dict Bytes) (k v : Bytes)
    → length v ≤ room
    → IsBounded room m
    → IsBounded room (assign k v m)
assign-IsBounded room m k v fits b = record {
  at_key = λ j w h. ground (arith, lookup-assign k j v m, b.at_key j w);
}

erase-IsBounded :
    (room : ℕ) (m : Dict Bytes) (k : Bytes) → IsBounded room m → IsBounded room (erase k m)
erase-IsBounded room m k b = record {
  at_key = λ j w h. ground (arith, lookup-erase k j m, b.at_key j w);
}

pub expect-IsBounded :
    (cmd : Command) (room : ℕ) (task : Task) (m : Dict Bytes)
    → IsRequestOf cmd room task
    → IsBounded room m
    → IsBounded room (expect cmd task m).1
unfolding expect
expect-IsBounded Command.get room task m v b = b
expect-IsBounded Command.set room task m (v, fits) b =
    assign-IsBounded room m (key_of task) (value_of task)
      (omega (arith, length-take task.value_len task.value)) b
expect-IsBounded Command.del room task m v b = erase-IsBounded room m (key_of task) b
expect-IsBounded _ room task m v b = b

-- All tasks meet the condition.
abbrev pub AllRequests : ℕ → List Task → Type 0
AllRequests room [] = Unit {0}
AllRequests room (task ∷ rest) = IsRequest room task × AllRequests room rest

abbrev pub replies : List Task → List Task → List Reply
replies (task ∷ tasks) (out ∷ outs) = reply task.cmd out ∷ replies tasks outs
replies _ _ = []

-- The bytes that tasks append to the log.
abbrev pub all_written : List Task → ℕ
all_written [] = 0
all_written (task ∷ rest) = written_of task.cmd task + all_written rest

IsRequestOf-IsWritable :
    (cmd : Command) (room : ℕ) (task : Task) → IsRequestOf cmd room task → IsWritable cmd task
IsRequestOf-IsWritable Command.get room task v = tt
IsRequestOf-IsWritable Command.set room task (v, fits) = v
IsRequestOf-IsWritable Command.del room task v = v
IsRequestOf-IsWritable _ room task v = tt

-- A run of tasks whose system calls succeed, on a store where no thread of `rebuildFile` runs, with places for as many
-- files as there are tasks, and room for what they write in the last file before it reaches OFFLIMIT: the
-- loop never stops, no such thread is started, every task comes back in order with the answer of the dictionary, and
-- the store stands for the dictionary after the run.
pub serve_refines :
    (requests : List Task) (room : ℕ) (s : SimpleKvStore) (m : Dict Bytes)
    → IsStoreOf s m
    → IsBounded room m
    → AllRequests room requests
    → file_num s + length requests ≤ max_file
    → s.rebuilds ≡ 0
    → log_size s + all_written requests ≤ off_limit
    → (outs : List Task) × (s' : SimpleKvStore) × (serve (map quiet requests) s ≡ some (outs, s'))
      × (replies requests outs ≡ (expect_all requests m).0)
      × IsStoreOf s' (expect_all requests m).1
      × (s'.rebuilds ≡ 0)
unfolding serve expect_all process_task
serve_refines [] room s m h b v f alone small = ([], s, refl, refl, h, alone)
serve_refines (task ∷ rest) room s m h b (v, vs) f alone small =
    let d = dispatch_refines task.cmd room task s m h b v (omega arith) in
    let (still, size) =
      dispatch-alone task.cmd task s d.out (IsRequestOf-IsWritable task.cmd room task v) h.ready
        (omega arith) d.runs in
    let (outs, s', runs, answers, store, last) =
      serve_refines rest room d.out.1 (expect task.cmd task m).1 d.store
        (expect-IsBounded task.cmd room task m v b) vs (omega (arith, d.one_file)) (still ∙ alone)
        (omega (arith, size)) in
    (
      d.out.0 ∷ outs,
      s',
      ground (arith, d.runs, runs, still, alone),
      ap₂ ◌∷◌ d.replies answers,
      store,
      last,
    )

-- The new store stands for the empty dictionary.
pub fresh-IsStoreOf : IsStoreOf fresh []
unfolding fresh lookup
fresh-IsStoreOf = record { ready = inl refl; holds = record { at_key = λ k. tt } }
