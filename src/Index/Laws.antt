-- ===== src/Index/Laws.antt =====
-- What the methods of the index do to every key.
use simple_kv_svr.Base.{
  ℕ, ◌≡◌, true, ◌&&◌, none, some, take, arith, if◌then◌else◌, Bytes, lookup, key_eq, key_eq_iff,
  lookup-assign, lookup-erase,
}
use simple_kv_svr.Index.{RecordOffset, SimpleKvIndex, save_val, del_key, compare_and_set}

pub get_val-save_val :
    (str : Bytes) (len : ℕ) (position : RecordOffset) (index : SimpleKvIndex) (j : Bytes)
    → lookup j (save_val str len position index).0
      ≡ (if key_eq (take len str) j then some position else lookup j index)
unfolding save_val
get_val-save_val str len position index j = lookup-assign (take len str) j position index

pub get_val-del_key :
    (str : Bytes) (len : ℕ) (index : SimpleKvIndex) (j : Bytes)
    → lookup j (del_key str len index).0
      ≡ (if key_eq (take len str) j then none else lookup j index)
unfolding del_key
get_val-del_key str len index j =
    ground (arith, lookup-erase (take len str) j index, key_eq_iff (take len str) j)

-- `compareAndSet` moves its key exactly if the key is at the old place, and then returns true; no
-- other key is moved, and no key appears or goes.
pub compare_and_set_lem :
    (str : Bytes) (len : ℕ) (old_val new_val : RecordOffset) (index : SimpleKvIndex) (j : Bytes)
    → let (index', done) = compare_and_set str len old_val new_val index in
      (lookup j index' ≡ (if done && key_eq (take len str) j then some new_val else lookup j index))
      × ((done ≡ true) → lookup (take len str) index ≡ some old_val)
      × ((lookup (take len str) index ≡ some old_val) → done ≡ true)
unfolding compare_and_set
compare_and_set_lem str len old_val new_val index j =
    ground (arith, lookup-assign (take len str) j new_val index)
