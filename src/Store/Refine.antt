-- ===== src/Store/Refine.antt =====
-- The store implements a dictionary: SET assigns, DELETE erases, GET looks up.
use mathlib.Core.Option.{some-injective}
use mathlib.Core.Path.{subst, subst₂}
use simple_kv_svr.Base.{
  ℕ, ◌+◌, ◌≤◌, ◌<◌, ◌≡◌, ◌↔◌, refl, ap, sym, ◌∙◌, Bool, true, false, Option, none, some, length,
  take, drop, length-take, length-append, length-drop, take-append_length, if◌then◌else◌, Bytes,
  arith, inl, inr, Bool-cases, Dict, lookup, assign, erase, key_eq, key_eq_iff, lookup-assign,
  lookup-erase,
}
use simple_kv_svr.DataNode.{ReadIo, all_read, no_fault}
use simple_kv_svr.DataNode.Log.{IsRecord}
use simple_kv_svr.DataNode.Room.{get_record-room}
use simple_kv_svr.Index
use simple_kv_svr.Index.{RecordOffset, SimpleKvIndex}
use simple_kv_svr.Index.Laws.{get_val-save_val, get_val-del_key}
use simple_kv_svr.Store.{
  SimpleKvStore, Task, Command, State, Io, file_num, max_file, set_record, del_record, finish,
  get_val, set_val, del_val, overlay, dispatch,
}
use simple_kv_svr.Store.Holds.{Holds, Grows, Grows-refl, Holds-Grows, Holds-index, Grows-index}
use simple_kv_svr.Store.Append.{HasLast, IsReady, write_lem}

-- The index has the key exactly if the dictionary does, and then the value lies where it says.
abbrev pub Agrees : SimpleKvStore → Bytes → Option RecordOffset → Option Bytes → Type 0
Agrees s k none none = Unit {0}
Agrees s k (some place) (some v) = Holds s place k v
Agrees s k _ _ = ⊥

pub record Implements (s : SimpleKvStore) (m : Dict Bytes) : Type 0 where
  pub at_key : (k : Bytes) → Agrees s k (lookup k s.index) (lookup k m)

Agrees-Grows :
    {s s' : SimpleKvStore} (k : Bytes) (place : Option RecordOffset) (v : Option Bytes)
    → Grows s s'
    → Agrees s k place v
    → Agrees s' k place v
Agrees-Grows k none none g h = h
Agrees-Grows k (some place) (some v) g h = Holds-Grows g h
Agrees-Grows k none (some v) g h = h
Agrees-Grows k (some place) none g h = h

-- The key of a task, and the value of a SET.
abbrev pub key_of : Task → Bytes
key_of task = take task.key_len task.key

abbrev pub value_of : Task → Bytes
value_of task = take task.value_len task.value

pub Agrees-assign :
    (s : SimpleKvStore) (k j : Bytes) (place : RecordOffset) (v : Bytes) (o : Option RecordOffset)
    (w : Option Bytes)
    → Holds s place k v
    → Agrees s j o w
    → Agrees s j (if key_eq k j then some place else o) (if key_eq k j then some v else w)
Agrees-assign s k j place v o w new old = elim (Bool-cases (key_eq k j)) [
  | inl same ↦ rw same (subst (λ (x : Bytes). Holds s place x v) ((key_eq_iff k j).0 same) new)
  | inr other ↦ rw other old
]

Agrees-erase :
    (s : SimpleKvStore) (b : Bool) (j : Bytes) (o : Option RecordOffset) (w : Option Bytes)
    → Agrees s j o w
    → Agrees s j (if b then none else o) (if b then none else w)
Agrees-erase s true j o w old = tt
Agrees-erase s false j o w old = old

-- A store reached by growing files and objects, with the key assigned in its index.
Implements-assign :
    (s s' : SimpleKvStore) (m : Dict Bytes) (task : Task) (place : RecordOffset)
    → Implements s m
    → Grows s s'
    → Holds s' place (key_of task) (value_of task)
    → s'.index ≡ (Index.save_val task.key task.key_len place s.index).0
    → Implements s' (assign (key_of task) (value_of task) m)
Implements-assign s s' m task place h g new e = record {
  at_key = λ j.
      subst₂ (λ (o : Option RecordOffset) (w : Option Bytes). Agrees s' j o w)
        (sym (ap (lookup j) e ∙ get_val-save_val task.key task.key_len place s.index j))
        (sym (lookup-assign (key_of task) j (value_of task) m))
        (Agrees-assign s' (key_of task) j place (value_of task) (lookup j s.index) (lookup j m) new
          (Agrees-Grows j (lookup j s.index) (lookup j m) g (h.at_key j)));
}

Implements-erase :
    (s s' : SimpleKvStore) (m : Dict Bytes) (task : Task)
    → Implements s m
    → Grows s s'
    → s'.index ≡ (Index.del_key task.key task.key_len s.index).0
    → Implements s' (erase (key_of task) m)
Implements-erase s s' m task h g e = record {
  at_key = λ j.
      subst₂ (λ (o : Option RecordOffset) (w : Option Bytes). Agrees s' j o w)
        (sym (ap (lookup j) e ∙ get_val-del_key task.key task.key_len s.index j))
        (sym (lookup-erase (key_of task) j m))
        (Agrees-erase s' (key_eq (key_of task) j) j (lookup j s.index) (lookup j m)
          (Agrees-Grows j (lookup j s.index) (lookup j m) g (h.at_key j)));
}

-- The lengths of a task are those of an `int`, not negative, and inside the task's buffers.
abbrev pub IsTask : Task → Type 0
IsTask task = IsRecord (set_record task)

-- A state of the store that a server without faults can reach, with what it stands for.
pub record IsStoreOf (s : SimpleKvStore) (m : Dict Bytes) : Type 0 where
  pub ready : IsReady s
  pub holds : Implements s m

HasLast-index :
    (s : SimpleKvStore) (i : SimpleKvIndex) → HasLast s → HasLast (record s { index = i })
HasLast-index s i l = record {
  address = l.address;
  node = l.node;
  last = l.last;
  there = l.there;
  synced = l.synced;
}

-- Where the dictionary has no value, the index has no place; where it has one, it lies there.
Agrees-none :
    (s : SimpleKvStore) (k : Bytes) (o : Option RecordOffset) (w : Option Bytes)
    → Agrees s k o w
    → (o ≡ none) ↔ (w ≡ none)
Agrees-none s k none none h = (λ e. refl, λ e. refl)
Agrees-none s k (some place) (some v) h = (λ e. cc, λ e. cc)
Agrees-none s k none (some v) h = absurd h
Agrees-none s k (some place) none h = absurd h

Agrees-some :
    (s : SimpleKvStore) (k : Bytes) (o : Option RecordOffset) (w : Option Bytes) (v : Bytes)
    → Agrees s k o w
    → w ≡ some v
    → (place : RecordOffset) × (o ≡ some place) × Holds s place k v
Agrees-some s k none none v h e = cc
Agrees-some s k (some place) (some w) v h e =
    (place, refl, subst (λ (x : Bytes). Holds s place k x) (some-injective _ _ e) h)
Agrees-some s k none (some w) v h e = absurd h
Agrees-some s k (some place) none v h e = absurd h

del_key-Agrees :
    (task : Task) (s : SimpleKvStore) (m : Dict Bytes)
    → Implements s m
    → ((finish (Index.del_key task.key task.key_len s.index).1 task).state ≡ State.fail)
      ↔ (lookup (key_of task) m ≡ none)
unfolding Index.del_key
del_key-Agrees task s m h = ground (
  arith,
  Agrees-none s (key_of task) (lookup (key_of task) s.index) (lookup (key_of task) m)
      (h.at_key (key_of task)),
)

-- A SET with no fault, on a store with a place for one more file: it succeeds, and assigns the value
-- to the key and nothing else.
pub set_val_refines :
    (task : Task) (s : SimpleKvStore) (m : Dict Bytes)
    → IsTask task
    → IsStoreOf s m
    → file_num s < max_file
    → (out : Task × SimpleKvStore) × (set_val no_fault task s ≡ some out)
      × (out.0.state ≡ State.success)
      × IsStoreOf out.1 (assign (key_of task) (value_of task) m)
      × (file_num out.1 ≤ file_num s + 1)
unfolding set_val Index.save_val
set_val_refines task s m v h room =
    let w = write_lem (set_record task) s v h.ready room in
    let i = (Index.save_val task.key task.key_len w.out.0 w.out.1.index).0 in
    (
      (finish true task, record w.out.1 { index = i }),
      ground (arith, w.checked, w.appends, w.wrote),
      refl,
      record {
        ready = inr (HasLast-index w.out.1 i w.last);
        holds =
            Implements-assign s (record w.out.1 { index = i }) m task w.out.0 h.holds
              (Grows-index w.out.1 i w.grows) (Holds-index w.out.1 i w.holds)
              (ap (λ (x : SimpleKvIndex). assign (key_of task) w.out.0 x) w.same_index);
      },
      w.one_file,
    )

-- A DELETE with no fault, on a store with a place for one more file: it erases the key and nothing
-- else, and it succeeds exactly if the key was there.
pub del_val_refines :
    (task : Task) (s : SimpleKvStore) (m : Dict Bytes)
    → IsRecord (del_record task)
    → IsStoreOf s m
    → file_num s < max_file
    → (out : Task × SimpleKvStore) × (del_val no_fault task s ≡ some out)
      × ((out.0.state ≡ State.fail) ↔ (lookup (key_of task) m ≡ none))
      × IsStoreOf out.1 (erase (key_of task) m)
      × (file_num out.1 ≤ file_num s + 1)
unfolding del_val
del_val_refines task s m v h room =
    let w = write_lem (del_record task) s v h.ready room in
    let r = Index.del_key task.key task.key_len w.out.1.index in
    (
      (finish r.1 task, record w.out.1 { index = r.0 }),
      ground (arith, w.checked, w.appends, w.wrote),
      rw (w.same_index) (del_key-Agrees task s m h.holds),
      record {
        ready = inr (HasLast-index w.out.1 r.0 w.last);
        holds =
            Implements-erase s (record w.out.1 { index = r.0 }) m task h.holds
              (Grows-index w.out.1 r.0 w.grows)
              (ap (λ (x : SimpleKvIndex). (Index.del_key task.key task.key_len x).0) w.same_index);
      },
      w.one_file,
    )

-- The counter of the GETs plays no part.
IsStoreOf-miss :
    (s : SimpleKvStore) (m : Dict Bytes) (n : ℕ)
    → IsStoreOf s m
    → IsStoreOf (record s { miss = n }) m
IsStoreOf-miss s m n h = record {
  ready = ready-miss h.ready;
  holds = record {
    at_key = λ k. Agrees-Grows k (lookup k s.index) (lookup k m) same (h.holds.at_key k);
  };
}
  where
    same : Grows s (record s { miss = n })
    same = record { grown = (Grows-refl s).grown }

    ready-miss : IsReady s → IsReady (record s { miss = n })
    ready-miss (inl no_file) = inl no_file
    ready-miss (inr l) = inr (record {
      address = l.address;
      node = l.node;
      last = l.last;
      there = l.there;
      synced = l.synced;
    })

-- A GET with no fault: it finds the value that the dictionary has for the key, or fails where there
-- is none, and changes nothing that the dictionary knows of.
pub get_val_refines :
    (uninit : ℕ) (task : Task) (s : SimpleKvStore) (m : Dict Bytes) (v : Bytes)
    → IsStoreOf s m
    → lookup (key_of task) m ≡ some v
    → length v ≤ length task.value
    → (out : Task × SimpleKvStore) × (get_val all_read uninit task s ≡ some out)
      × (out.0.state ≡ State.success)
      × (value_of out.0 ≡ v)
      × (out.0.value_len ≡ length v)
      × (length out.0.value ≡ length task.value)
      × IsStoreOf out.1 m
      × (file_num out.1 ≡ file_num s)
unfolding get_val Index.get_val
get_val_refines uninit task s m v h there room =
    let (place, indexed, held) =
      Agrees-some s (key_of task) (lookup (key_of task) s.index) (lookup (key_of task) m) v
        (h.holds.at_key (key_of task)) there in
    let found =
      get_record-room (length (key_of task)) (length task.key) (length v) (length task.value)
        place.offset held.node held.count _ (omega (arith, length-take task.key_len task.key)) room
        held.read in
    (
      (
        record task {
          state = State.success;
          key = overlay (key_of task) task.key;
          value = overlay v task.value;
          value_len = length v;
        },
        record s { miss = s.miss + 1 },
      ),
      ground (arith, indexed, held.there, found),
      refl,
      take-append_length (length v) v (drop (length v) task.value) refl,
      refl,
      omega
          (arith, length-append v (drop (length v) task.value), length-drop (length v) task.value),
      IsStoreOf-miss s m (s.miss + 1) h,
      refl,
    )

-- A GET of a key that the dictionary does not have fails.
pub get_val_missing :
    (io : ReadIo) (uninit : ℕ) (task : Task) (s : SimpleKvStore) (m : Dict Bytes)
    → IsStoreOf s m
    → lookup (key_of task) m ≡ none
    → (out : Task × SimpleKvStore) × (get_val io uninit task s ≡ some out)
      × (out.0.state ≡ State.fail)
      × IsStoreOf out.1 m
      × (file_num out.1 ≡ file_num s)
unfolding get_val Index.get_val
get_val_missing io uninit task s m h missing =
    let not_indexed =
      (Agrees-none s (key_of task) (lookup (key_of task) s.index) (lookup (key_of task) m)
          (h.holds.at_key (key_of task))).1
        missing in
    (
      (record task { state = State.fail }, record s { miss = s.miss + 1 }),
      ground (arith, not_indexed),
      refl,
      IsStoreOf-miss s m (s.miss + 1) h,
      refl,
    )

-- A task keeps its command.
pub cmd-dispatch :
    (cmd : Command) (io : Io) (task : Task) (s : SimpleKvStore) (out : Task × SimpleKvStore)
    → dispatch cmd io task s ≡ some out
    → out.0.cmd ≡ task.cmd
unfolding dispatch get_val set_val del_val
cmd-dispatch Command.get io task s out h = ground arith
cmd-dispatch Command.set io task s out h = ground arith
cmd-dispatch Command.del io task s out h = ground arith
cmd-dispatch _ io task s out h = ground arith
