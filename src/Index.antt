-- ===== src/Index.antt =====
-- simplekvsvr_v2/simplekvindex.h and recordoffset.h: where the record of each key lies. Every method
-- holds the mutex from its first line to its return, so each is one step.
pub mod Laws
use simple_kv_svr.Base.{
  ℕ, Bool, true, false, ◌&&◌, Option, none, some, take, ◌==◌, if◌then◌else◌, Bytes, Dict, lookup,
  assign, erase,
}

-- `class RecordOffset`; the pointer to a node is its address in the store's heap.
pub record RecordOffset : Type 0 where
  pub data_node : ℕ
  pub offset : ℕ

-- `class SimpleKVIndex`
abbrev pub SimpleKvIndex : Type 0
SimpleKvIndex = Dict RecordOffset

-- `recordOffset.dataNode == oldVal->dataNode && recordOffset.offset == oldVal->offset`
abbrev pub same_place : RecordOffset → RecordOffset → Bool
same_place a b = a.data_node == b.data_node && a.offset == b.offset

-- The keys are `string(str, len)`.
unfoldable pub save_val : Bytes → ℕ → RecordOffset → SimpleKvIndex → SimpleKvIndex × Bool
save_val str len position index = (assign (take len str) position index, true)

-- `none` for `false`, otherwise what is put into `*position`
unfoldable pub get_val : Bytes → ℕ → SimpleKvIndex → Option RecordOffset
get_val str len index = lookup (take len str) index

unfoldable pub del_key : Bytes → ℕ → SimpleKvIndex → SimpleKvIndex × Bool
del_key str len index = elim (lookup (take len str) index) [
  | none ↦ (index, false)
  | some it ↦ (erase (take len str) index, true)
]

unfoldable pub compare_and_set :
    Bytes → ℕ → RecordOffset → RecordOffset → SimpleKvIndex → SimpleKvIndex × Bool
compare_and_set str len old_val new_val index = elim (lookup (take len str) index) [
  | none ↦ (index, false)
  | some it ↦
      if same_place it old_val then (assign (take len str) new_val index, true) else (index, false)
]
