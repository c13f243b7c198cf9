-- ===== src/SlotIndex/Disk.antt =====
-- `Start` and `MemoryRecycle` of simplekvsvr/NewKVIndex.h.
pub mod Loading
pub mod Restart
use simple_kv_svr.Base.{
  ℕ, zero, suc, ◌+◌, ◌-◌, Bool, true, false, not, Option, none, some, List, [], ◌∷◌, ◌++◌, length,
  replicate, take, if◌then◌else◌, Bytes, Dict, lookup, assign,
}
use simple_kv_svr.SlotIndex.{Slot, Entry, KvIndex, cache_size, zero_slot, is_zero}

-- `kv_[key].first = -1; kv_[key].second = i;`, with the next address of the map
abbrev pub place : Bytes → ℕ → Dict Entry × ℕ → Dict Entry × ℕ
place key i (kv, next) = elim (lookup key kv) [
  | none ↦ (assign key (record { node = next; cached = none; slot = i }) kv, next + 1)
  | some e ↦ (assign key (record e { cached = none; slot = i }) kv, next)
]

-- The loop of `Start`, over the slots from `i` on: the map and the new `size_`.
pub load_slots : List Slot → ℕ → Dict Entry × ℕ → (Dict Entry × ℕ) × ℕ
load_slots [] i kv = (kv, i)
load_slots (slot ∷ store) i kv =
    let rest = load_slots store (i + 1) (if slot.flag then place slot.key i kv else kv) in
    if is_zero slot then (kv, i) else rest

-- What the constructor and the loop over the cache leave, whatever the copies are.
abbrev pub fresh_index : List Slot → List Slot → (Dict Entry × ℕ) × ℕ → KvIndex
fresh_index cache store ((kv, next), size) = record {
  kv = kv;
  store = store;
  mapped = true;
  size = size;
  cache_turn = 0;
  request = 0;
  hit = 0;
  cache_hit = 0;
  delete_count = 0;
  cache = cache;
  cache_element = replicate cache_size none;
  next_node = next;
}

-- `Start`, where the system calls succeed: `none` is a file that is not there, which gets four slots.
unfoldable pub start : List Slot → Option (List Slot) → KvIndex
unfolding load_slots
start cache none =
    fresh_index cache (replicate 4 zero_slot) (load_slots (replicate 4 zero_slot) 0 ([], 0))
start cache (some store) = fresh_index cache store (load_slots store 0 ([], 0))

-- Which of the system calls of `Start` succeed.
pub record StartIo : Type 0 where
  pub opens : Bool
  pub truncates : Bool
  pub maps : Bool

-- `Start`: the value returned with its sign changed, and the index; where it succeeds it has no `return`, so no
-- value that a caller may use.
unfoldable pub start_checked : StartIo → List Slot → Option (List Slot) → Option ℕ × Option KvIndex
unfolding start
start_checked io cache file =
    if not io.opens
    then (some 1, none)
    else if not io.truncates
    then (some 2, none)
    else if not io.maps
    then (some 3, none)
    else (none, some (start cache file))

-- The loop of `MemoryRecycle`: the slots that stay, in order, and the map.
pub keep_valid : List Slot → ℕ → Dict Entry × ℕ → List Slot × (Dict Entry × ℕ)
keep_valid [] n kv = ([], kv)
keep_valid (slot ∷ store) n kv =
    let (kept, last) = keep_valid store (n + 1) (place slot.key n kv) in
    let skipped = keep_valid store n kv in if slot.flag then (slot ∷ kept, last) else skipped

-- `MemoryRecycle`, on a mapping that is there.
unfoldable pub memory_recycle : KvIndex → KvIndex
unfolding keep_valid
memory_recycle s =
    let (kept, (kv, next)) = keep_valid (take s.size s.store) 0 ([], s.next_node) in
    record s {
      kv = kv;
      next_node = next;
      size = length kept;
      store = kept ++ replicate (length s.store - length kept) zero_slot;
    }
