-- ===== src/SlotIndex.antt =====
-- simplekvsvr/NewKVIndex.h and DataNode.h: the index of the first server. Its file is an array of slots,
-- each with one key and its value; a ring of copies is the cache. Every method holds the recursive mutex
-- throughout, so each is one step. A result `none` is undefined behaviour: a write past the end of an
-- array, memory that is not mapped, or an iterator to an erased element.
pub mod Cache
pub mod Disk
pub mod Entries
pub mod Holds
pub mod Methods
pub mod Durable
pub mod Setting
pub mod Missing
mod Tests
use simple_kv_svr.Base.{
  ℕ, zero, suc, ◌+◌, ◌-◌, ◌*◌, ◌%◌, Bool, true, false, not, ◌&&◌, Option, none, some, List, [], ◌∷◌,
  ◌++◌, length, get_elem?, get_or, set as set_elem, replicate, ltb, ◌==◌, if◌then◌else◌, Bytes,
  Dict, lookup, assign, erase, key_eq, codes, decimal,
}

-- `class DataNode`: the two arrays of 30 bytes as the strings that `strcmp` and `Getkey` see.
pub record Slot : Type 0 where
  pub key : Bytes
  pub value : Bytes
  pub flag : Bool

abbrev pub field_size : ℕ
field_size = 30

-- `memset(&end, 0, sizeof end)`
abbrev pub zero_slot : Slot
zero_slot = record { key = []; value = []; flag = false }

-- `operator==` with that slot
abbrev pub is_zero : Slot → Bool
is_zero s = key_eq s.key [] && (key_eq s.value [] && not s.flag)

-- The bytes of `s.c_str()` before its first 0
unfoldable pub c_string : Bytes → Bytes
c_string [] = []
c_string (c ∷ s) = let rest = c_string s in if c == 0 then [] else c ∷ rest

-- `DataNode(key, value)`; `strcpy` writes past the end of an array where a string does not fit.
pub make_slot : Bytes → Bytes → Option Slot
unfolding c_string
make_slot key value =
    if ltb (length (c_string key)) field_size && ltb (length (c_string value)) field_size
    then some (record { key = c_string key; value = c_string value; flag = true })
    else none

-- An element of the map `kv_`: its address, and `pair<int, int>`, with `none` for -1
pub record Entry : Type 0 where
  pub node : ℕ
  pub cached : Option ℕ
  pub slot : ℕ

-- CACHE_SIZE
abbrev pub cache_size : ℕ
cache_size = 1500

-- `class KVIndex`. `file_size_` is the length of `store`; `cache_turn` is `cache_index_ + 1`; an iterator
-- in `cache_element` is the address of its element, or `none` for `kv_.end()`; `next_node` is the
-- next address that the map allocates.
pub record KvIndex : Type 0 where
  pub kv : Dict Entry
  pub store : List Slot
  pub mapped : Bool
  pub size : ℕ
  pub cache_turn : ℕ
  pub request : ℕ
  pub hit : ℕ
  pub cache_hit : ℕ
  pub delete_count : ℕ
  pub cache : List Slot
  pub cache_element : List (Option ℕ)
  pub next_node : ℕ

-- `kv_[key]`: a key that is not there gets an element of zeros.
abbrev pub touch : Bytes → KvIndex → Entry × KvIndex
touch key s = elim (lookup key s.kv) [
  | some e ↦ (e, s)
  | none ↦
      let e : Entry = record { node = s.next_node; cached = some 0; slot = 0 } in
      (e, record s { kv = assign key e s.kv; next_node = s.next_node + 1 })
]

-- Whether an iterator points to an element of the map.
unfoldable pub is_live : ℕ → Dict Entry → Bool
is_live p [] = false
is_live p ((k, e) ∷ kv) = let rest = is_live p kv in if e.node == p then true else rest

-- `it->second.first = -1`
unfoldable pub uncache : ℕ → Dict Entry → Dict Entry
uncache p [] = []
uncache p ((k, e) ∷ kv) = (k, if e.node == p then record e { cached = none } else e) ∷ uncache p kv

unfoldable pub erase_cache : ℕ → KvIndex → Option KvIndex
unfolding is_live uncache
erase_cache c s = elim (get_elem? s.cache_element c) [
  | none ↦ none
  | some none ↦ some s
  | some (some p) ↦
      if is_live p s.kv
      then some (record s { kv = uncache p s.kv; cache_element = set_elem s.cache_element c none })
      else none
]

-- `store_[i]`, read and written
abbrev pub slot_at : KvIndex → ℕ → Option Slot
slot_at s i = if s.mapped then get_elem? s.store i else none

abbrev pub put_slot : ℕ → Slot → KvIndex → KvIndex
put_slot i slot s = record s { store = set_elem s.store i slot }

-- `store_[i].Expire()`
pub expire : ℕ → KvIndex → Option KvIndex
expire i s = elim (slot_at s i) [
  | none ↦ none
  | some slot ↦ some (put_slot i (record slot { flag = false }) s)
]

-- `if (kv_[key].first != -1) EraseCache(kv_[key].first);`
pub drop_cached : Option ℕ → KvIndex → Option KvIndex
unfolding erase_cache
drop_cached none s = some s
drop_cached (some c) s = erase_cache c s

-- The end of `Delete`.
abbrev pub forget : Bytes → KvIndex → KvIndex
forget key s = record s {
  kv = erase key s.kv;
  delete_count = if s.delete_count + 1 == 1000 then 0 else s.delete_count + 1;
}

-- `Delete`, which returns 0 always
pub delete : Bytes → KvIndex → Option KvIndex
unfolding expire drop_cached
delete key s =
    let (e, s₁) = touch key s in
    elim (expire e.slot s₁) [
      | none ↦ none
      | some s₂ ↦ elim (drop_cached e.cached s₂) [ none ↦ none | some s₃ ↦ some (forget key s₃) ]
    ]

-- `Resize`, with what `ftruncate` and `mmap` do: the old mapping is gone in any case.
pub resize : Bool → KvIndex → Bool × KvIndex
resize works s =
    if works
    then (true, record s { store = s.store ++ replicate (length s.store) zero_slot; mapped = true })
    else (false, record s { mapped = false })

-- The end of `Set`.
pub append : Bytes → Bytes → KvIndex → Option KvIndex
unfolding make_slot
append key value s = elim (slot_at s s.size) [
  | none ↦ none
  | some _ ↦ elim (make_slot key value) [
    | none ↦ none
    | some slot ↦
        let (e, s') = touch key (put_slot s.size slot s) in
        some (record s' {
          kv = assign key (record e { cached = none; slot = s.size }) s'.kv;
          size = s.size + 1;
        })
  ]
]

-- `if (kv_.count(key) == 1) Delete(key);`
pub delete_old : Bytes → KvIndex → Option KvIndex
unfolding delete
delete_old key s = elim (lookup key s.kv) [ none ↦ some s | some _ ↦ delete key s ]

-- `Set`: `false` for -1
pub set : Bool → Bytes → Bytes → KvIndex → Option (Bool × KvIndex)
unfolding resize delete_old append
set works key value s =
    let (room, s₁) = if s.size == length s.store then resize works s else (true, s) in
    if room
    then elim (delete_old key s₁) [
      | none ↦ none
      | some s₂ ↦ elim (append key value s₂) [ none ↦ none | some s₃ ↦ some (true, s₃) ]
    ]
    else some (false, s₁)
